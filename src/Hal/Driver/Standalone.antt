-- ===== src/Hal/Driver/Standalone.antt =====
-- The drivers of srcs/hal/mcu/atmega2560 that rest on no other driver: their status function is one
-- and the same.
use task_mate.Hal.Driver.Dead.{IsDriver}
use task_mate.Common.{◌<◌, ◌≡◌, refl, ap, ◌∙◌, true, false, not, arith, if◌then◌else◌}
use task_mate.Hal.Driver.{
  Driver, Life, DriverState, get_bit, running, set_error, ErrCode, drv_bit_dead, clear_bit,
  drv_bit_error, drv_bit_init, drv_bit_start, invalid_state, off,
}
use task_mate.Common.Bits.{get_bit-clear_bit}

-- `hal_gpioGetStatus`, `hal_i2cGetStatus`, `timerMonotonicGetStatus`, `hal_timerContextGetStatus`,
-- on the variables that they read and write
unfoldable pub own_status : Life → Life × DriverState
own_status l =
    if get_bit l.status drv_bit_dead
    then (record l { last_error = ErrCode.dead }, DriverState.dead)
    else if get_bit l.status drv_bit_error
    then (record l { last_error = invalid_state }, DriverState.error)
    else if not (get_bit l.status drv_bit_init)
    then (if not (get_bit l.status drv_bit_start)
        then (l, off)
        else (record l { last_error = invalid_state }, DriverState.error))
    else if not (get_bit l.status drv_bit_start)
    then (l, DriverState.initialized)
    else (l, running)

-- The status byte of a driver that answers that it runs
abbrev pub IsUp : Life → Type 0
IsUp l =
    (get_bit l.status drv_bit_dead ≡ false)
    × (get_bit l.status drv_bit_error ≡ false)
    × (get_bit l.status drv_bit_init ≡ true)
    × (get_bit l.status drv_bit_start ≡ true)

pub own_status_up : (l : Life) → IsUp l → own_status l ≡ (l, running)
unfolding own_status
own_status_up l (alive, sound, ready, begun) = rw (alive, sound, ready, begun) refl

pub own_status_dead :
    (l : Life)
    → get_bit l.status drv_bit_dead ≡ true
    → own_status l ≡ (record l { last_error = ErrCode.dead }, DriverState.dead)
unfolding own_status
own_status_dead l h = rw h refl

-- What such a driver does: its status is its own, a dead one refuses to be initialised or started,
-- and a stop clears the bit of the start and asks for the status.
pub record IsStandalone {S : Type 0} (d : Driver S) : Type 0 where
  pub stopped : S → S
  pub life_with : (s : S) (l : Life) → d.life (d.with_life l s) ≡ l
  pub status_is :
      (s : S)
      → d.get_status s ≡ (d.with_life (own_status (d.life s)).0 s, (own_status (d.life s)).1)
  pub init_is :
      (s : S)
      → get_bit (d.life s).status drv_bit_dead ≡ true
      → d.on_init s ≡ set_error d ErrCode.dead s
  pub start_is :
      (s : S)
      → get_bit (d.life s).status drv_bit_dead ≡ true
      → d.on_start s ≡ set_error d ErrCode.dead s
  pub stop_is : (s : S) → d.on_stop s ≡ d.get_status (stopped s)
  pub stopped_status :
      (s : S) → (d.life (stopped s)).status ≡ clear_bit (d.life s).status drv_bit_start

module _ {S : Type 0} (d : Driver S) (law : IsStandalone d) where
  abbrev Dead : S → Type 0
  Dead s = get_bit (d.life s).status drv_bit_dead ≡ true

  -- The status byte is kept, and the answer is this state.
  abbrev Answers : S → DriverState → S × DriverState → Type 0
  Answers s state r = ((d.life r.0).status ≡ (d.life s).status) × (r.1 ≡ state)

  status_dead : (s : S) → Dead s → Answers s DriverState.dead (d.get_status s)
  status_dead s h =
      rw (law.status_is s, own_status_dead (d.life s) h, law.life_with s _) (refl, refl)

  refused : (s : S) → Answers s DriverState.error (set_error d ErrCode.dead s)
  unfolding set_error
  refused s = rw (law.life_with s _) (refl, refl)

  init_dead : (s : S) → Dead s → Answers s DriverState.error (d.on_init s)
  init_dead s h = rw (law.init_is s h) (refused s)

  start_dead : (s : S) → Dead s → Answers s DriverState.error (d.on_start s)
  start_dead s h = rw (law.start_is s h) (refused s)

  stop_dead :
      (s : S)
      → (d.life s).status < 256
      → Dead s
      → Dead (d.on_stop s).0 × ((d.on_stop s).1 ≡ DriverState.dead)
  stop_dead s b h =
      let kept : Dead (law.stopped s) =
        ap (λ status. get_bit status drv_bit_dead) (law.stopped_status s)
        ∙ get_bit-clear_bit (d.life s).status drv_bit_start drv_bit_dead b (omega arith)
            (omega arith)
        ∙ h in
      let (same, e) = status_dead (law.stopped s) kept in
      rw (law.stop_is s) (ap (λ status. get_bit status drv_bit_dead) same ∙ kept, e)

  -- A driver that rests on no other respects the DEAD bit.
  pub standalone-IsDriver : IsDriver d
  standalone-IsDriver = record {
    life_with = law.life_with;
    dead_status = status_dead;
    dead_init = init_dead;
    dead_start = start_dead;
    dead_stop = stop_dead;
  }
