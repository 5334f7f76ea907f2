-- ===== src/SysCall/Drivers.antt =====
-- srcs/system/sysCall/sc_driver.c: the system calls on the drivers of the target's driver table.
pub mod Clock
pub mod Display
pub mod Input
mod Tests
use task_mate.Common.{
  ℕ, zero, suc, ◌+◌, Bool, true, false, not, ◌&&◌, ◌||◌, Option, none, some, List, [], ◌∷◌, map,
  leb, ◌==◌, if◌then◌else◌, get_elem?, is_zero,
}
use task_mate.Common.Bits.{set_bit}
use task_mate.Interfaces.{
  running, Control, RunLevel, ControlData, DriverState, ErrCode, rl_level_count, rl_run_none, rlget,
  drv_bit_init, getbit, getlasterror, getstatus, init, no_error, null_pointer, driver_not_found,
  start, is_no_error, invalid_state, is_error, is_running, is_dead,
}
use task_mate.TmLibc.Str.{Text, strncmp, string_get_byte}
use mathlib.Core.Option

abbrev mod_name_size_max : ℕ
mod_name_size_max = 32

-- A driver's control function, on the state `W` of all that the calls reach
abbrev pub ControlOf : Type 0 → Type 0
ControlOf W = Control → Option ControlData → W → W × DriverState × Option ControlData

-- `mod_driver_item_t` with its entry of `driver_name_catalog`; `none` is NULL.
pub record Item (W : Type 0) : Type 0 where
  pub control : Option (ControlOf W)
  pub address : ℕ
  pub name : Option Text

-- The member that a local `control_data` holds before a call writes it is not read.
abbrev pub blank : ControlData
blank = record { run_level = 0; status_bit = 0; bit_value = false; error = no_error }

abbrev pub bit_data : ℕ → ControlData
bit_data bit = record blank { status_bit = bit }

abbrev pub or_blank : Option ControlData → ControlData
or_blank none = blank
or_blank (some d) = d

module _ {W : Type 0} where
  -- `sc_driverError`
  unfoldable pub sc_driver_error : DriverState → ControlOf W → W → W × ErrCode
  sc_driver_error state control w =
      let (w', s, d) = control getlasterror (some blank) w in
      if is_running state then (w, no_error) else (w', (or_blank d).error)

  -- `sc_driverGetPointer`
  unfoldable pub sc_driver_get_pointer : Text → List (Item W) → Option (Item W)
  sc_driver_get_pointer name [] = none
  sc_driver_get_pointer name (item ∷ items) =
      let rest = sc_driver_get_pointer name items in
      elim item.control [
        | none ↦ rest
        | some c ↦ elim item.name [
          | none ↦ rest
          | some n ↦ if is_zero (strncmp n name mod_name_size_max) then some item else rest
        ]
      ]

  -- A call of `driver->control`; a NULL there stops the program, which `none` stands for.
  abbrev pub call :
      {R : Type 0}
      → Item W
      → Control
      → Option ControlData
      → W
      → (W → DriverState → ControlData → Option R)
      → Option R
  call item command d w k = elim item.control [
    | none ↦ none
    | some control ↦ let (w', state, d') = control command d w in k w' state (or_blank d')
  ]

  -- `sc_driverControl`, with `sc_driverInit`, `sc_driverStart` and `sc_driverStop`
  unfoldable pub sc_driver_control :
      List (Item W) → Option Text → Control → W → Option (W × ErrCode)
  sc_driver_control items none command w = some (w, null_pointer)
  sc_driver_control items (some name) command w = elim (sc_driver_get_pointer name items) [
    | none ↦ some (w, driver_not_found)
    | some item ↦ call item command none w (λ w1 state d1.
        if not (is_error state) && not (is_dead state)
        then some (w1, no_error)
        else call item getlasterror (some blank) w1 (λ w2 s d. some (
          w2,
          if not (is_no_error d.error)
              then d.error
              else if is_dead state
              then ErrCode.dead
              else invalid_state,
        )))
  ]

  -- The loop of `sc_driverGetInfo` over `n` bits from `bit` on
  unfoldable pub status_bits : Item W → ℕ → ℕ → ControlData → ℕ → W → Option (W × Option ℕ)
  status_bits item zero bit d bits w = some (w, some bits)
  status_bits item (suc n) bit d bits w =
      call item getbit (some (record d { status_bit = bit })) w (λ w' state d'.
        let rest =
          status_bits item n (bit + 1) d' (if d'.bit_value then set_bit bits bit else bits) w' in
        if is_error state then some (w', none) else rest)

  -- `sc_driverGetInfo` on a driver of the table, with places for the results
  unfoldable pub sc_driver_get_info :
      List (Item W) → ℕ → W → Option (W × Option (Text × RunLevel × ℕ))
  sc_driver_get_info items id w = elim (get_elem? items id) [
    | none ↦ some (w, none)
    | some item ↦ elim item.control [
      | none ↦ some (w, none)
      | some c ↦ call item rlget (some blank) w (λ w1 state d.
          if is_error state
          then some (w1, none)
          else elim (status_bits item 4 drv_bit_init d 0 w1) [
            | none ↦ none
            | some (w2, bits) ↦ some (
              w2,
              elim bits [
                | none ↦ none
                | some b ↦ Option.map (λ name. (name, d.run_level, b)) item.name
              ],
            )
          ])
    ]
  ]

  -- The loop of `sc_driverRunLevelStart`
  unfoldable pub run_level_start_loop : RunLevel → List (Item W) → W → Option W
  run_level_start_loop level [] w = some w
  run_level_start_loop level (item ∷ items) w = call item rlget (some blank) w (λ w1 state d.
      let skipped = run_level_start_loop level items w1 in
      let started =
        call item init none w1
          (λ w2 s2 d2. call item start none w2 (λ w3 s3 d3. run_level_start_loop level items w3)) in
      if not (is_error state) && (d.run_level == level) then started else skipped)

  -- `sc_driverRunLevelStart`
  unfoldable pub sc_driver_run_level_start : List (Item W) → RunLevel → W → Option W
  sc_driver_run_level_start items level w =
      if (level == rl_run_none) || leb rl_level_count level
      then some w
      else run_level_start_loop level items w

  -- `sc_driverRunLevelIsReady`
  unfoldable pub run_level_ready_loop : RunLevel → List (Item W) → W → Option (W × Bool)
  run_level_ready_loop level [] w = some (w, true)
  run_level_ready_loop level (item ∷ items) w = call item rlget (some blank) w (λ w1 state d.
      let skipped = run_level_ready_loop level items w1 in
      let tested = call item getstatus none w1 (λ w2 s2 d2.
        let rest = run_level_ready_loop level items w2 in
        if is_running s2 then rest else some (w2, false)) in
      if is_error state then some (w1, false) else if d.run_level == level then tested else skipped)

  unfoldable pub sc_driver_run_level_is_ready : List (Item W) → RunLevel → W → Option (W × Bool)
  sc_driver_run_level_is_ready items level w =
      if leb rl_level_count level then some (w, false) else run_level_ready_loop level items w
