-- ===== src/Hal/Rtc/Dead.antt =====
-- The clock driver owes the same to its DEAD bit as every driver.
use task_mate.Common.{◌<◌, ◌≡◌, refl, ◌∙◌, true, arith}
use task_mate.Common.Bits.{get_bit, clear_bit, get_bit-clear_bit}
use task_mate.Interfaces.{drv_bit_dead, drv_bit_start, DriverState}
use task_mate.Hal.Driver.Dead.{IsDriver}
use task_mate.Hal.Rtc.{Rtc, rtc_get_status, rtc_init, rtc_start, rtc_stop, rtc_driver}
use task_mate.Hal.DrvI2c.{I2c}

module _ {B : Type 0} (i2c : I2c B) where
  abbrev Dead : Rtc B → Type 0
  Dead s = get_bit s.life.status drv_bit_dead ≡ true

  -- The status byte is kept, and the answer is this state.
  abbrev Answers : Rtc B → DriverState → Rtc B × DriverState → Type 0
  Answers s state r = (r.0.life.status ≡ s.life.status) × (r.1 ≡ state)

  status_dead : (s : Rtc B) → Dead s → Answers s DriverState.dead (rtc_get_status i2c s)
  unfolding rtc_get_status
  status_dead s h = rw h (refl, refl)

  init_dead : (s : Rtc B) → Dead s → Answers s DriverState.error (rtc_init i2c s)
  unfolding rtc_init
  init_dead s h = rw h (refl, refl)

  start_dead : (s : Rtc B) → Dead s → Answers s DriverState.error (rtc_start i2c s)
  unfolding rtc_start
  start_dead s h = rw h (refl, refl)

  stop_dead :
      (s : Rtc B)
      → s.life.status < 256
      → Dead s
      → Dead (rtc_stop i2c s).0 × ((rtc_stop i2c s).1 ≡ DriverState.dead)
  unfolding rtc_stop
  stop_dead s b h =
      let stopped = record s {
        life = record s.life { status = clear_bit s.life.status drv_bit_start };
      } in
      let kept : Dead stopped =
        get_bit-clear_bit s.life.status drv_bit_start drv_bit_dead b (omega arith) (omega arith)
        ∙ h in
      let (same, e) = status_dead stopped kept in (rw same kept, e)

  -- The clock driver's operations respect the DEAD bit.
  rtc-IsDriver : IsDriver (rtc_driver i2c)
  unfolding rtc_driver
  rtc-IsDriver = record {
    life_with = λ s l. refl;
    dead_status = status_dead;
    dead_init = init_dead;
    dead_start = start_dead;
    dead_stop = stop_dead;
  }
