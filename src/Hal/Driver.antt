-- ===== src/Hal/Driver.antt =====
-- What the drivers of srcs/hal have in common. Each of them declares the same status byte, run
-- level and last error and the same control function: here the control function is written once,
-- over the operations in which the drivers differ.
pub mod Dead
pub mod Standalone
pub mod Flags
use task_mate.Common.{ℕ, Option, none, some, ltb, leb, if◌then◌else◌}
use task_mate.Common.Bits.{get_bit, set_bit, clear_bit}
use task_mate.Interfaces.{
  RunLevel, ErrCode, Control, init, start, stop, rlset, rlget, setbit, clearbit, getbit, getstatus,
  getlasterror, unknown, ControlData, DriverState, error, off, initialized, running, dead,
  rl_level_count, drv_bit_dead, drv_bit_error, drv_bit_init, drv_bit_start, null_pointer,
  invalid_value, invalid_control, invalid_state, not_running,
}

-- `usart_status`, `usart_run_level` and `usart_last_error`, and their like in the other drivers
pub record Life : Type 0 where
  pub status : ℕ
  pub run_level : RunLevel
  pub last_error : ErrCode

-- The operations of a driver with the state `S`.
pub record Driver (S : Type 0) : Type 0 where
  pub life : S → Life
  pub with_life : Life → S → S
  pub on_init : S → S × DriverState
  pub on_start : S → S × DriverState
  pub on_stop : S → S × DriverState
  pub get_status : S → S × DriverState

-- What an operation does when the driver is running, and with another state.
abbrev pub when_running : {S R : Type 0} → S × DriverState → (S → R) → (S → DriverState → R) → R
when_running (s, running) go other = go s
when_running (s, state) go other = other s state

module _ {S : Type 0} (d : Driver S) where
  -- `usartSetError`, `rtcSetError`
  unfoldable pub set_error : ErrCode → S → S × DriverState
  set_error e s = (d.with_life (record (d.life s) { last_error = e }) s, error)

  -- `usartRequireRunning`, `rtcRequireRunning`
  abbrev refuse_stopped : S × DriverState → S × DriverState
  refuse_stopped (s, off) = set_error not_running s
  refuse_stopped (s, initialized) = set_error not_running s
  refuse_stopped (s, state) = (s, state)

  unfoldable pub require_running : S → S × DriverState
  unfolding set_error
  require_running s = refuse_stopped (d.get_status s)

  -- A command that needs `data`.
  abbrev with_data :
      Option ControlData
      → S
      → (ControlData → S × DriverState × Option ControlData)
      → S × DriverState × Option ControlData
  with_data none s k = let (s', state) = set_error null_pointer s in (s', state, none)
  with_data (some dat) s k = k dat

  abbrev answer : Option ControlData → S × DriverState → S × DriverState × Option ControlData
  answer dat (s, state) = (s, state, dat)

  abbrev on_bit :
      (ControlData → S → S × Option ControlData)
      → ControlData
      → S
      → S × DriverState × Option ControlData
  on_bit k dat s =
      let (s', dat') = k dat s in
      if ltb drv_bit_dead dat.status_bit
      then answer (some dat) (set_error invalid_value s)
      else answer dat' (d.get_status s')

  abbrev set_status : ℕ → S → S
  set_status status s = d.with_life (record (d.life s) { status = status }) s

  -- `hal_usartControl`, `hal_rtcControl`
  unfoldable pub control : Control → Option ControlData → S → S × DriverState × Option ControlData
  unfolding set_error
  control init dat s = answer dat (d.on_init s)
  control start dat s = answer dat (d.on_start s)
  control stop dat s = answer dat (d.on_stop s)
  control rlset dat s = with_data dat s (λ v.
      if leb rl_level_count v.run_level
      then answer dat (set_error invalid_value s)
      else answer dat
          (d.get_status (d.with_life (record (d.life s) { run_level = v.run_level }) s)))
  control rlget dat s =
      with_data dat s
        (λ v. answer (some (record v { run_level = (d.life s).run_level })) (d.get_status s))
  control setbit dat s =
      with_data dat s
        (λ v. on_bit (λ w t. (set_status (set_bit (d.life t).status w.status_bit) t, some w)) v s)
  control clearbit dat s =
      with_data dat s
        (λ v. on_bit (λ w t. (set_status (clear_bit (d.life t).status w.status_bit) t, some w)) v s)
  control getbit dat s = with_data dat s (λ v.
      on_bit (λ w t. (t, some (record w { bit_value = get_bit (d.life t).status w.status_bit }))) v
        s)
  control getstatus dat s = answer dat (d.get_status s)
  control getlasterror dat s =
      with_data dat s
        (λ v. answer (some (record v { error = (d.life s).last_error })) (d.get_status s))
  control unknown dat s = answer dat (set_error invalid_control s)
