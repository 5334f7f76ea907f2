-- ===== src/Services/System.antt =====
-- srcs/system/services/system.c: the thread that brings the system up, one run level after the
-- other.
pub mod Startup
mod Tests
use mathlib.Core.Option
use task_mate.Common.{
  ℕ, zero, suc, ◌+◌, Bool, true, false, not, Option, none, some, List, map, leb, ◌==◌,
  if◌then◌else◌, u8,
}
use task_mate.Kernel.Scheduler.{Kernel, run_level_get, run_level_set}
use task_mate.SysCall.Drivers.{Item, sc_driver_run_level_is_ready, sc_driver_run_level_start}
use task_mate.Interfaces.{RunLevel, rl_run_core, rl_run_driver, rl_run_user, rl_run_none}
use task_mate.SysCall.Threads.{sc_run_level_get, sc_run_level_is_ready, sc_run_level_set}

abbrev pub system_run_level_rr_round_count : ℕ
system_run_level_rr_round_count = 10

-- The threads, and the state `D` of all drivers
pub record Machine (D : Type 0) : Type 0 where
  pub kernel : Kernel
  pub drivers : D

-- How `systemStart` ends: by a halt, by a return, by the call of a NULL in the driver table; or the
-- rounds that it was given are used up.
pub data Ending (D : Type 0) : Type 0 where
  system_halted system_returned : Machine D → Ending D
  fault : Ending D
  out_of_rounds : Ending D

-- What `systemStart` calls of the rest: `sc_coopYield` with all that the other threads do in a
-- round, and `sc_i2cScan` and `sc_rtcSaveStartupTime`, whose results it drops, and which do
-- nothing on a target without the driver
pub record Rest (D : Type 0) : Type 0 where
  pub coop_yield : Machine D → Machine D
  pub i2c_scan : D → D
  pub rtc_save_startup_time : D → D

module _ {D : Type 0} (rest : Rest D) (items : List (Item D)) where
  -- The two conditional calls of `systemRunLevelStart`
  abbrev discover : RunLevel → D → D
  discover run_level d =
      let d' = if run_level == rl_run_core then rest.i2c_scan d else d in
      if run_level == rl_run_driver then rest.rtc_save_startup_time d' else d'

  -- `systemRunLevelStart`
  unfoldable pub system_run_level_start : RunLevel → Machine D → Option (Machine D)
  system_run_level_start run_level m =
      Option.map (λ d. record m { drivers = discover run_level d })
        (sc_driver_run_level_start items run_level m.drivers)

  -- The first loop of `systemRunLevelIsReady`, `n` levels from `level` on
  unfoldable pub driver_levels_loop : ℕ → RunLevel → D → Option (D × Bool)
  driver_levels_loop zero level d = some (d, true)
  driver_levels_loop (suc n) level d = elim (sc_driver_run_level_is_ready items level d) [
    | none ↦ none
    | some (d', ok) ↦ elim ok [
      | true ↦ driver_levels_loop n (level + 1) d'
      | false ↦ some (d', false)
    ]
  ]

  -- The second loop of `systemRunLevelIsReady`
  unfoldable pub thread_levels_loop : ℕ → RunLevel → Kernel → Bool
  thread_levels_loop zero level k = true
  thread_levels_loop (suc n) level k =
      let more = thread_levels_loop n (level + 1) k in
      if sc_run_level_is_ready k level then more else false

  -- `systemRunLevelIsReady`
  abbrev after_drivers : RunLevel → Kernel → D × Bool → D × Bool
  after_drivers run_level k (d, true) = (d, thread_levels_loop run_level rl_run_core k)
  after_drivers run_level k (d, false) = (d, false)

  unfoldable pub system_run_level_is_ready : RunLevel → Machine D → Option (Machine D × Bool)
  unfolding driver_levels_loop thread_levels_loop
  system_run_level_is_ready run_level m =
      Option.map
        (λ r. let (d, ok) = after_drivers run_level m.kernel r in (record m { drivers = d }, ok))
        (driver_levels_loop (run_level + 1) rl_run_none m.drivers)

  -- What follows a call on the drivers, unless it ran into a NULL
  abbrev pub unless_fault : {A : Type 0} → (A → Ending D) → Option A → Ending D
  unless_fault k none = fault
  unless_fault k (some a) = k a

  -- The end of a round in which the level was ready: `go` is the rest of the loop.
  unfoldable pub next_level : (RunLevel → Machine D → Ending D) → RunLevel → Machine D → Ending D
  unfolding system_run_level_start
  next_level go run_level m =
      let next = u8 (run_level + 1) in
      let (k, ok) = sc_run_level_set m.kernel next in
      let m' = record m { kernel = k } in
      let started = unless_fault (go next) (system_run_level_start next m') in
      if run_level == rl_run_user
      then system_returned m
      else if not ok
      then system_halted m'
      else started

  -- The end of a round in which it was not
  unfoldable pub wait_round : (ℕ → Machine D → Ending D) → ℕ → Machine D → Ending D
  wait_round go incomplete_round_count m =
      let count = u8 (incomplete_round_count + 1) in
      let again = go count m in
      if leb system_run_level_rr_round_count count then system_halted m else again

  abbrev pub after_round :
      (Machine D → Ending D) → (Machine D → Ending D) → Machine D × Bool → Ending D
  after_round proceed hold (m, true) = proceed m
  after_round proceed hold (m, false) = hold m

  -- The loop of `systemStart`, a unit of fuel for a round
  unfoldable pub start_loop : ℕ → RunLevel → ℕ → Machine D → Ending D
  unfolding next_level wait_round system_run_level_is_ready
  start_loop zero run_level count m = out_of_rounds
  start_loop (suc fuel) run_level count m =
      unless_fault
        (after_round (next_level (λ level. start_loop fuel level 0) run_level)
          (wait_round (start_loop fuel run_level) count))
        (system_run_level_is_ready run_level (rest.coop_yield m))

  -- `systemStart`
  unfoldable pub system_start : ℕ → Machine D → Ending D
  unfolding start_loop system_run_level_start
  system_start fuel m =
      let run_level = sc_run_level_get m.kernel in
      let begun = unless_fault (start_loop fuel run_level 0) (system_run_level_start run_level m) in
      if not (run_level == rl_run_core) then system_halted m else begun
