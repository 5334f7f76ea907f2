-- ===== src/Hal/Usart/LifeCycle.antt =====
-- The life cycle of the serial driver.
use task_mate.Common.{◌<◌, ◌≡◌, refl, ◌∙◌, Bool, true, false, arith}
use task_mate.Common.Bits.{get_bit, clear_bit, get_bit-clear_bit}
use task_mate.Interfaces.{running, initialized, drv_bit_error, drv_bit_dead, drv_bit_start}
use task_mate.Hal.Driver.Dead.{IsDriver}
use task_mate.Hal.Usart.{
  Avr, Usart, usart_get_status, usart_init, usart_start, usart_stop, usart_driver, DriverState,
}
use task_mate.Hal.Driver.Flags.{Bits, clear_start, set_init, set_start}

module _ (avr : Avr) where
  status_dead :
      (s : Usart)
      → get_bit s.life.status drv_bit_dead ≡ true
      → ((usart_get_status s).0.life.status ≡ s.life.status)
        × ((usart_get_status s).1 ≡ DriverState.dead)
  unfolding usart_get_status
  status_dead s h = rw h (refl, refl)

  init_dead :
      (s : Usart)
      → get_bit s.life.status drv_bit_dead ≡ true
      → ((usart_init avr s).0.life.status ≡ s.life.status)
        × ((usart_init avr s).1 ≡ DriverState.error)
  unfolding usart_init
  init_dead s h = rw h (refl, refl)

  start_dead :
      (s : Usart)
      → get_bit s.life.status drv_bit_dead ≡ true
      → ((usart_start avr s).0.life.status ≡ s.life.status)
        × ((usart_start avr s).1 ≡ DriverState.error)
  unfolding usart_start
  start_dead s h = rw h (refl, refl)

  stop_dead :
      (s : Usart)
      → s.life.status < 256
      → get_bit s.life.status drv_bit_dead ≡ true
      → (get_bit (usart_stop s).0.life.status drv_bit_dead ≡ true)
        × ((usart_stop s).1 ≡ DriverState.dead)
  unfolding usart_stop
  stop_dead s b h =
      let stopped = record s {
        life = record s.life { status = clear_bit s.life.status drv_bit_start };
      } in
      let kept : get_bit stopped.life.status drv_bit_dead ≡ true =
        get_bit-clear_bit s.life.status drv_bit_start drv_bit_dead b (omega arith) (omega arith)
        ∙ h in
      let (same, e) = status_dead stopped kept in (rw same kept, e)

  -- The serial driver's operations respect the DEAD bit.
  pub usart-IsDriver : IsDriver (usart_driver avr)
  unfolding usart_driver
  usart-IsDriver = record {
    life_with = λ s l. refl;
    dead_status = status_dead;
    dead_init = init_dead;
    dead_start = start_dead;
    dead_stop = stop_dead;
  }

  init_up :
      (s : Usart) {up on : Bool}
      → Bits s.life.status up on
      → Bits (usart_init avr s).0.life.status true on × ((usart_init avr s).1 ≡ initialized)
  unfolding usart_init
  init_up s bits = rw bits.1 (set_init s.life.status bits, refl)

  start_up :
      (s : Usart) {on : Bool}
      → Bits s.life.status true on
      → Bits (usart_start avr s).0.life.status true true × ((usart_start avr s).1 ≡ running)
  unfolding usart_start
  start_up s bits = rw (bits.1, bits.3) (set_start s.life.status bits, refl)

  stop_up :
      (s : Usart) {on : Bool}
      → Bits s.life.status true on
      → Bits (usart_stop s).0.life.status true false × ((usart_stop s).1 ≡ initialized)
  unfolding usart_stop usart_get_status
  stop_up s bits =
      let cleared = clear_start s.life.status bits in
      rw (cleared.1, cleared.2, cleared.3, cleared.4) (cleared, refl)

  status_up : (s : Usart) → Bits s.life.status true true → (usart_get_status s).1 ≡ running
  unfolding usart_get_status
  status_up s (b, dead, err, up, on) = rw (dead, err, up, on) refl

  -- A serial driver that is neither dead nor in error is initialized by INIT, runs behind START and
  -- reports so, and is initialized again behind STOP, whatever the two bits were before.
  pub usart_life_cycle :
      (s : Usart)
      → s.life.status < 256
      → get_bit s.life.status drv_bit_dead ≡ false
      → get_bit s.life.status drv_bit_error ≡ false
      → let s1 = usart_init avr s in
        let s2 = usart_start avr s1.0 in
        (s1.1 ≡ initialized)
        × (s2.1 ≡ running)
        × ((usart_get_status s2.0).1 ≡ running)
        × ((usart_stop s2.0).1 ≡ initialized)
  usart_life_cycle s b dead err =
      let (bits1, e1) = init_up s (b, dead, err, refl, refl) in
      let (bits2, e2) = start_up (usart_init avr s).0 bits1 in
      (
        e1,
        e2,
        status_up (usart_start avr (usart_init avr s).0).0 bits2,
        (stop_up (usart_start avr (usart_init avr s).0).0 bits2).1,
      )
