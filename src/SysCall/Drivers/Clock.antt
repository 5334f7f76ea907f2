-- ===== src/SysCall/Drivers/Clock.antt =====
-- srcs/system/sysCall/sc_driver.c, the calls on the clock and on the serial input, over the drivers
-- of Hal/Rtc and Hal/Usart.
use task_mate.Common.{ℕ, Bool, true, not, Option, none, some, if◌then◌else◌}
use task_mate.Interfaces.{
  ErrCode, no_error, null_pointer, DriverState, getlasterror, is_no_error, is_running,
}
use task_mate.Hal.Rtc.{Time, Rtc, rtc_read, rtc_write, rtc_control}
use task_mate.Hal.DrvI2c.{I2c}
use task_mate.Hal.Usart.{Avr, Usart, usart_read, usart_control}
use task_mate.SysCall.Drivers.{sc_driver_error, blank, or_blank}

-- The clock, and the private `rtc_startup_time`
pub record Clock (B : Type 0) : Type 0 where
  pub rtc : Rtc B
  pub startup_time : Time

module _ {B : Type 0} (i2c : I2c B) where
  abbrev checked : {A : Type 0} → Clock B → Rtc B × DriverState → A → Clock B × ErrCode × A
  checked c (r, state) a =
      let (r', e) = sc_driver_error state (rtc_control i2c) r in (record c { rtc = r' }, e, a)

  -- `sc_rtcRead`, with a place for the time
  unfoldable pub sc_rtc_read : Clock B → Clock B × ErrCode × Option Time
  sc_rtc_read c = let (r, state, t) = rtc_read i2c true c.rtc in checked c (r, state) t

  -- `sc_rtcWrite`
  unfoldable pub sc_rtc_write : Option Time → Clock B → Clock B × ErrCode
  sc_rtc_write none c = (c, null_pointer)
  sc_rtc_write (some t) c = let (c', e, u) = checked c (rtc_write i2c (some t) c.rtc) c in (c', e)

  -- `sc_rtcSaveStartupTime`
  unfoldable pub sc_rtc_save_startup_time : Clock B → Clock B × ErrCode
  sc_rtc_save_startup_time c =
      let (c', e, t) = sc_rtc_read c in
      elim t [
        | none ↦ (c', e)
        | some time ↦ (if is_no_error e then record c' { startup_time = time } else c', e)
      ]

  -- `sc_rtcGetStartupTime`
  unfoldable pub sc_rtc_get_startup_time : Bool → Clock B → ErrCode × Option Time
  sc_rtc_get_startup_time room c =
      if room then (no_error, some c.startup_time) else (null_pointer, none)

-- `sc_usartRead`; interrupts are off between the read and the look at the error.
unfoldable pub sc_usart_read : Avr → Bool → Usart → Usart × ErrCode × Option ℕ
sc_usart_read avr room s =
    let (s', state, v) = usart_read avr true s in
    let (s'', state', d) = usart_control avr getlasterror (some blank) s' in
    if not room
    then (s, null_pointer, none)
    else if is_running state
    then (s', no_error, v)
    else (s'', (or_blank d).error, none)
