-- ===== src/Hal/I2c/LifeCycle.antt =====
-- The bus driver as a driver that rests on no other, and its guard when it runs.
use task_mate.Common.{◌≡◌, refl}
use task_mate.Hal.Driver.Dead.{IsDriver}
use task_mate.Hal.Driver.Standalone.{
  IsUp, standalone-IsDriver, own_status_up, IsStandalone, own_status_dead,
}
use task_mate.Hal.I2c.{
  Twi, i2c_driver, i2c_get_status, Bus, i2c_init, i2c_start, running, i2c_stop, stopped,
}
use task_mate.Hal.Driver.{require_running, set_error}

module _ {H : Type 0} (twi : Twi H) where
  i2c-IsStandalone : IsStandalone (i2c_driver twi)
  unfolding i2c_driver i2c_get_status i2c_init i2c_start i2c_stop set_error
  i2c-IsStandalone = record {
    stopped = stopped twi;
    life_with = λ s l. refl;
    status_is = λ s. refl;
    init_is = λ s h. rw (own_status_dead s.life h) refl;
    start_is = λ s h. rw h refl;
    stop_is = λ s. refl;
    stopped_status = λ s. refl;
  }

  -- The bus driver's operations respect the DEAD bit.
  pub i2c-IsDriver : IsDriver (i2c_driver twi)
  i2c-IsDriver = standalone-IsDriver (i2c_driver twi) i2c-IsStandalone

  pub i2c_get_status_up : (s : Bus H) → IsUp s.life → i2c_get_status twi s ≡ (s, running)
  unfolding i2c_get_status
  i2c_get_status_up s up = rw (own_status_up s.life up) refl

  -- A running bus driver passes the guard of its operations.
  pub require_running_up :
      (s : Bus H) → IsUp s.life → require_running (i2c_driver twi) s ≡ (s, running)
  unfolding require_running i2c_driver i2c_get_status
  require_running_up s up = rw (own_status_up s.life up) refl
