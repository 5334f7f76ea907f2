-- ===== src/SysCall/Threads/Tests.antt =====
-- The system calls of sc_threads.c on a small system.
use task_mate.Common.{ℕ, ◌≤◌, ◌<◌, ◌≡◌, ◌↔◌, true, false, none, some, List, [], ◌∷◌, arith}
use task_mate.Kernel.Threads.{is_yielded}
use task_mate.Kernel.Scheduler.{Kernel}
use task_mate.Kernel.Scheduler.Fair.{IsHealthy}
use task_mate.Kernel.Samples.{
  sample_kernel, sample_db-IsValid, sample_kernel-IsHealthy, current_CanRun,
}
use task_mate.TmLibc.Str.{Text, IsText}
use task_mate.SysCall.Threads.{Catalog, get_id, sc_coop_yield, sc_run_level_set, sc_thread_stop}
use task_mate.SysCall.Threads.Names.{Names, get_id_first}
use task_mate.SysCall.Threads.Yield.{sc_coop_yield_returns}
use task_mate.SysCall.Threads.Reach.{Reach, IsSound, here, later, level, stops, Reach-IsSound}

abbrev idle : Text
idle = b'i' ∷ b'd' ∷ b'l' ∷ b'e' ∷ []

abbrev scli : Text
scli = b's' ∷ b'c' ∷ b'l' ∷ b'i' ∷ []

abbrev sample_catalog : Catalog
sample_catalog = some idle ∷ none ∷ some scli ∷ []

idle-IsText : IsText idle
idle-IsText = (
  (omega arith, omega arith),
  ((omega arith, omega arith), ((omega arith, omega arith), ((omega arith, omega arith), tt))),
)

scli-IsText : IsText scli
scli-IsText = (
  (omega arith, omega arith),
  ((omega arith, omega arith), ((omega arith, omega arith), ((omega arith, omega arith), tt))),
)

get_id_first_example :
    ((i : ℕ)
      → get_id sample_catalog (some scli) ≡ some i
      → Names sample_catalog i scli × ((j : ℕ) → j < i → ¬ (Names sample_catalog j scli)))
    × ((get_id sample_catalog (some scli) ≡ none) ↔ ((j : ℕ) → ¬ (Names sample_catalog j scli)))
get_id_first_example =
    get_id_first sample_catalog scli (idle-IsText, (tt, (scli-IsText, tt))) scli-IsText

abbrev inputs : List (ℕ × ℕ)
inputs = (201, 77) ∷ (202, 78) ∷ (203, 79) ∷ []

sc_coop_yield_returns_example :
    (k' : Kernel) × (sc_coop_yield inputs sample_kernel ≡ some (k', true))
    × (k'.db.current ≡ 1)
    × (is_yielded k'.db 1 true ≡ some false)
    × IsHealthy k'
sc_coop_yield_returns_example =
    sc_coop_yield_returns inputs sample_kernel sample_kernel-IsHealthy current_CanRun (omega arith)

sample-IsSound : IsSound sample_kernel
sample-IsSound = record {
  valid = sample_db-IsValid;
  level_low = omega arith;
  level_high = omega arith;
  counted = omega arith;
}

abbrev raised : Kernel
raised = (sc_run_level_set sample_kernel 3).0

abbrev stopped : Kernel
stopped = (sc_thread_stop sample_catalog raised (some scli)).0

two_calls : Reach sample_catalog sample_kernel stopped
two_calls = later (later here (level 3)) (stops (some scli))

Reach-IsSound_example : IsSound stopped × (2 ≤ stopped.scheduler_run_level)
Reach-IsSound_example = Reach-IsSound sample-IsSound two_calls
