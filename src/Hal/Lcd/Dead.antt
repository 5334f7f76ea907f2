-- ===== src/Hal/Lcd/Dead.antt =====
-- The display driver owes the same to its DEAD bit as every driver.
use task_mate.Common.{ℕ, ◌<◌, ◌≡◌, refl, ◌∙◌, Bool, true, false, arith}
use task_mate.Hal.DrvI2c.{I2c}
use task_mate.Hal.I2c.{
  Twi, Bus, i2c_bus, i2c_comm_start, i2c_comm_stop, i2c_driver, i2c_write, i2c_get_status,
}
use task_mate.Hal.Lcd.{
  Lcd, lcd_driver, lcd_get_status, lcd_init, lcd_start, lcd_stop, clear_display, send_command,
  command_transfer,
}
use task_mate.Hal.Driver.{require_running}
use task_mate.Common.Bits.{get_bit, clear_bit, get_bit-clear_bit, set_bit}
use task_mate.Interfaces.{DriverState, ErrCode, drv_bit_dead, drv_bit_start, drv_bit_init, running}
use task_mate.Hal.Driver.Dead.{IsDriver}
use task_mate.Hal.Driver.Standalone.{own_status_dead}

module _ {B : Type 0} (i2c : I2c B) where
  abbrev Dead : Lcd B → Type 0
  Dead s = get_bit s.life.status drv_bit_dead ≡ true

  -- The status byte is kept, and the answer is this state.
  abbrev Answers : Lcd B → DriverState → Lcd B × DriverState → Type 0
  Answers s state r = (r.0.life.status ≡ s.life.status) × (r.1 ≡ state)

  status_dead : (s : Lcd B) → Dead s → Answers s DriverState.dead (lcd_get_status i2c s)
  unfolding lcd_get_status
  status_dead s h = rw h (refl, refl)

  init_dead : (s : Lcd B) → Dead s → Answers s DriverState.error (lcd_init i2c s)
  unfolding lcd_init
  init_dead s h = rw h (refl, refl)

  start_dead : (s : Lcd B) → Dead s → Answers s DriverState.error (lcd_start i2c s)
  unfolding lcd_start
  start_dead s h = rw h (refl, refl)

  stop_dead :
      (s : Lcd B)
      → s.life.status < 256
      → Dead s
      → Dead (lcd_stop i2c s).0 × ((lcd_stop i2c s).1 ≡ DriverState.dead)
  unfolding lcd_stop
  stop_dead s b h =
      let stopped = record s {
        life = record s.life { status = clear_bit s.life.status drv_bit_start };
      } in
      let kept : Dead stopped =
        get_bit-clear_bit s.life.status drv_bit_start drv_bit_dead b (omega arith) (omega arith)
        ∙ h in
      let (same, e) = status_dead stopped kept in (rw same kept, e)

  -- The display driver's operations respect the DEAD bit.
  lcd-IsDriver : IsDriver (lcd_driver i2c)
  unfolding lcd_driver
  lcd-IsDriver = record {
    life_with = λ s l. refl;
    dead_status = status_dead;
    dead_init = init_dead;
    dead_start = start_dead;
    dead_stop = stop_dead;
  }

module _ {H : Type 0} (twi : Twi H) where
  -- The guard of the bus driver's operations lets the state of a dead one through.
  require_running_dead :
      (b : Bus H)
      → get_bit b.life.status drv_bit_dead ≡ true
      → require_running (i2c_driver twi) b
        ≡ (record b { life = record b.life { last_error = ErrCode.dead } }, DriverState.dead)
  unfolding require_running i2c_driver i2c_get_status
  require_running_dead b h = rw (own_status_dead b.life h) refl

  abbrev BusDead : Bus H → Type 0
  BusDead b = get_bit b.life.status drv_bit_dead ≡ true

  abbrev marked : Bus H → Bus H
  marked b = record b { life = record b.life { last_error = ErrCode.dead } }

  comm_start_dead :
      (address : ℕ) (reads : Bool) (b : Bus H)
      → BusDead b
      → (i2c_bus twi).comm_start address reads b ≡ (marked b, true)
  unfolding i2c_bus i2c_comm_start
  comm_start_dead address reads b h = rw (require_running_dead b h) refl

  write_dead : (v : ℕ) (b : Bus H) → BusDead b → (i2c_bus twi).write v b ≡ (marked b, true)
  unfolding i2c_bus i2c_write
  write_dead v b h = rw (require_running_dead b h) refl

  comm_stop_dead : (b : Bus H) → BusDead b → (i2c_bus twi).comm_stop b ≡ (marked b, true)
  unfolding i2c_bus i2c_comm_stop
  comm_stop_dead b h = rw (require_running_dead b h) refl

  -- If the bus driver is dead and the display driver was initialised before, the start of the
  -- display driver succeeds: it sets the bit of the start and answers that the driver runs, though
  -- nothing was sent to the device.
  pub lcd_start-dead_bus :
      (s : Lcd (Bus H))
      → BusDead s.bus
      → get_bit s.life.status drv_bit_dead ≡ false
      → get_bit s.life.status drv_bit_init ≡ true
      → lcd_start (i2c_bus twi) s ≡ (
        record s {
          life = record s.life { status = set_bit s.life.status drv_bit_start };
          bus = marked s.bus;
        },
        running,
      )
  unfolding lcd_start clear_display send_command command_transfer
  lcd_start-dead_bus s h alive ready =
      rw (alive, ready, comm_start_dead 0x3c false s.bus h)
        (rw (write_dead 0x80 (marked s.bus) h)
          (rw (write_dead 1 (marked s.bus) h) (rw (comm_stop_dead (marked s.bus) h) refl)))
