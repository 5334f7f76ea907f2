-- ===== src/Hal/Lcd/Wire.antt =====
-- The display driver over the bus driver of Hal/I2c: what its operations put on the bus.
use task_mate.Common.{ℕ, ◌<◌, ◌≡◌, refl, true, false, ◌||◌, List, [], ◌∷◌, arith, leb, ◌==◌}
use task_mate.Hal.DrvI2c.{I2c}
use task_mate.Hal.Lcd.{
  Lcd, command_transfer, lcd_set_cursor, lcd_write_byte, lcd_write_end, lcd_write_start, lcd_driver,
  lcdamc2004_val_data, send_command, lcd_get_status, lcdamc2004_val_cmd, cursor_command,
}
use task_mate.Hal.I2c.{Twi, Bus, i2c_bus}
use task_mate.Hal.Driver.{require_running}
use task_mate.Hal.I2c.Wire.{
  Acknowledges, Takes, addressed, on_wire, bus_comm_start_write, bus_comm_stop, bus_is_running,
  bus_write, sent,
}
use task_mate.Hal.Driver.Standalone.{IsUp}
use task_mate.Interfaces.{running}

-- The display's address byte
abbrev pub lcd_byte : ℕ
lcd_byte = 0x78

module _ {B : Type 0} (i2c : I2c B) where
  -- A running display driver on a running bus passes the guard of its operations.
  pub lcd_require_running_up :
      (s : Lcd B)
      → IsUp s.life
      → i2c.is_running s.bus ≡ true
      → require_running (lcd_driver i2c) s ≡ (s, running)
  unfolding require_running lcd_driver lcd_get_status
  lcd_require_running_up s (alive, sound, ready, begun) on =
      rw (alive, sound, on, ready, begun) refl

-- The display driver and the bus driver run.
abbrev pub BothUp : {H : Type 0} → Lcd (Bus H) → Type 0
BothUp s = IsUp s.life × IsUp s.bus.life

module _ {H : Type 0} (twi : Twi H) where
  -- The device takes these bytes behind the display's address.
  abbrev pub TakesLcd : List ℕ → H → Type 0
  TakesLcd bytes h =
      Acknowledges twi lcd_byte twi.tw_mt_sla_ack h × Takes twi bytes (addressed twi lcd_byte h)

  -- The bus behind a whole transfer of these bytes to the display
  abbrev pub lcd_sent : List ℕ → H → H
  lcd_sent bytes h = twi.stop (sent twi bytes (addressed twi lcd_byte h))

  -- The same state of the driver with another state of the bus
  abbrev pub lcd_on_wire : Lcd (Bus H) → H → Lcd (Bus H)
  lcd_on_wire s h = record s { bus = on_wire twi s.bus h }

  command_transfer_wire :
      (command : ℕ) (b : Bus H)
      → IsUp b.life
      → TakesLcd (lcdamc2004_val_cmd ∷ command ∷ []) b.twi
      → command_transfer (i2c_bus twi) command b
        ≡ (on_wire twi b (lcd_sent (lcdamc2004_val_cmd ∷ command ∷ []) b.twi), true)
  unfolding command_transfer sent
  command_transfer_wire command b up (ack, (control_taken, (command_taken, none_left))) =
      let b1 = on_wire twi b (addressed twi lcd_byte b.twi) in
      let b2 = on_wire twi b (twi.write lcdamc2004_val_cmd b1.twi).0 in
      let b3 = on_wire twi b (twi.write command b2.twi).0 in
      rw (bus_comm_start_write twi b up 0x3c lcd_byte (omega arith) refl ack) (
        rw (bus_write twi b1 up lcdamc2004_val_cmd control_taken)
          (rw (bus_write twi b2 up command command_taken) (bus_comm_stop twi b3 up)))

  pub lcd_set_cursor_wire :
      (row col : ℕ) (s : Lcd (Bus H))
      → BothUp s
      → row < 4
      → col < 20
      → TakesLcd (lcdamc2004_val_cmd ∷ cursor_command row col ∷ []) s.bus.twi
      → lcd_set_cursor (i2c_bus twi) row col s ≡ (
        lcd_on_wire s (lcd_sent (lcdamc2004_val_cmd ∷ cursor_command row col ∷ []) s.bus.twi),
        running,
      )
  unfolding lcd_set_cursor send_command
  lcd_set_cursor_wire row col s (up, bus_up) row_lt col_lt takes =
      let inside : (leb 4 row || leb 20 col) ≡ false = ground arith in
      rw
        (
          lcd_require_running_up (i2c_bus twi) s up (bus_is_running twi s.bus bus_up),
          inside,
          command_transfer_wire (cursor_command row col) s.bus bus_up takes,
        )
        refl

  pub lcd_write_start_wire :
      (bytes : List ℕ) (s : Lcd (Bus H))
      → BothUp s
      → TakesLcd (lcdamc2004_val_data ∷ bytes) s.bus.twi
      → lcd_write_start (i2c_bus twi) s ≡ (
        lcd_on_wire s (twi.write lcdamc2004_val_data (addressed twi lcd_byte s.bus.twi)).0,
        running,
      )
  unfolding lcd_write_start
  lcd_write_start_wire bytes s (up, bus_up) (ack, (taken, rest)) =
      let b1 = on_wire twi s.bus (addressed twi lcd_byte s.bus.twi) in
      rw
        (
          lcd_require_running_up (i2c_bus twi) s up (bus_is_running twi s.bus bus_up),
          bus_comm_start_write twi s.bus bus_up 0x3c lcd_byte (omega arith) refl ack,
        )
        (rw (bus_write twi b1 bus_up lcdamc2004_val_data taken) refl)

  pub lcd_write_byte_wire :
      (v : ℕ) (s : Lcd (Bus H))
      → BothUp s
      → ((twi.write v s.bus.twi).1 == twi.tw_mt_data_ack) ≡ true
      → lcd_write_byte (i2c_bus twi) v s ≡ (lcd_on_wire s (twi.write v s.bus.twi).0, running)
  unfolding lcd_write_byte
  lcd_write_byte_wire v s (up, bus_up) taken = rw (bus_write twi s.bus bus_up v taken) refl

  pub lcd_write_end_wire :
      (s : Lcd (Bus H))
      → BothUp s
      → lcd_write_end (i2c_bus twi) s ≡ (lcd_on_wire s (twi.stop s.bus.twi), running)
  unfolding lcd_write_end
  lcd_write_end_wire s (up, bus_up) = rw (bus_comm_stop twi s.bus bus_up) refl
