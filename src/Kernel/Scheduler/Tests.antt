-- ===== src/Kernel/Scheduler/Tests.antt =====
-- The scheduler of sys_scheduler.c on a small system.
use task_mate.Common.{
  ℕ, ◌≤◌, ◌≡◌, refl, sym, ◌∙◌, true, false, none, some, List, [], ◌∷◌, arith, set, take,
  All-get_elem?,
}
use task_mate.Kernel.Threads.{Thread, get_pointer}
use task_mate.Kernel.Threads.Frame.{get_pointer-eq}
use task_mate.Kernel.Scheduler.{
  Kernel, halted, resumed, scheduler_rr, select, runnable, canaries_intact, count_tick,
}
use task_mate.Kernel.Scheduler.Select.{IsNext, distance, select_hangs}
use task_mate.Kernel.Scheduler.Interrupt.{Switched, scheduler_rr_lem, scheduler_rr_halts}
use task_mate.Kernel.Scheduler.Fair.{IsHealthy, interrupts, interrupts_fair}
use task_mate.Kernel.Samples.{
  sample_db, sample_kernel, sample_thread, sample_db-IsValid, sample_kernel-IsHealthy,
  sample_CanRun, fresh_stack,
}

nobody : (i : ℕ) (t : Thread) → get_pointer sample_db i ≡ some t → runnable 0 t ≡ false
unfolding runnable
nobody i t e =
    All-get_elem? (λ u. runnable 0 u ≡ false) sample_db.threads i (refl, (refl, (refl, tt)))
      (sym (get_pointer-eq sample_db i) ∙ e)

select_hangs_example : select 1000 sample_db 0 1 ≡ none
select_hangs_example = select_hangs sample_db 0 (omega arith) 1000 1 (omega arith) nobody

current_found : get_pointer sample_db 1 ≡ some (sample_thread 2 200)
unfolding get_pointer
current_found = refl

intact : canaries_intact (sample_thread 2 200) ≡ true
unfolding canaries_intact
intact = refl

scheduler_rr_lem_example :
    (next : ℕ) × IsNext sample_db 2 1 next
    × ((u : Thread)
        → get_pointer sample_db next ≡ some u
        → canaries_intact u ≡ false
        → scheduler_rr sample_kernel 201 77 ≡ halted)
    × ((u : Thread)
        → get_pointer sample_db next ≡ some u
        → canaries_intact u ≡ true
        → (k' : Kernel) × (resumes : ℕ) × (scheduler_rr sample_kernel 201 77 ≡ resumed k' resumes)
          × Switched sample_kernel 201 77 next k' resumes)
scheduler_rr_lem_example =
    scheduler_rr_lem sample_kernel 201 77 sample_db-IsValid current_found 0 intact (omega arith)
      sample_CanRun

abbrev broken_thread : Thread
broken_thread = record (sample_thread 1 100) { stack = set fresh_stack 0 7 }

abbrev broken_kernel : Kernel
broken_kernel = record sample_kernel { db = record { threads = broken_thread ∷ []; current = 0 } }

broken_found : get_pointer broken_kernel.db 0 ≡ some broken_thread
unfolding get_pointer
broken_found = refl

broken : canaries_intact broken_thread ≡ false
unfolding canaries_intact
broken = refl

abbrev sample_inputs : List (ℕ × ℕ)
sample_inputs = (201, 77) ∷ (202, 78) ∷ (203, 79) ∷ []

interrupts_fair_example :
    (n : ℕ) × (k' : Kernel) × (1 ≤ n)
    × (n ≤ distance sample_db 1 0)
    × (interrupts sample_kernel (take n sample_inputs) ≡ some k')
    × (k'.db.current ≡ 0)
    × IsHealthy k'
interrupts_fair_example =
    interrupts_fair sample_inputs sample_kernel 0 sample_kernel-IsHealthy (omega arith)
      sample_CanRun (omega arith)

-- The tenth interrupt advances the software time.
tenth : (count_tick sample_kernel).scheduler_stc_tick_count ≡ 0
unfolding count_tick
tenth = refl

broken_halts : scheduler_rr broken_kernel 201 77 ≡ halted
broken_halts = scheduler_rr_halts broken_kernel 201 77 broken_found broken
