-- ===== src/Kernel/Scheduler/Resumed.antt =====
-- What is known of the state when an interrupt (`tm_schedulerRR`) has resumed a thread.
use task_mate.Common.{
  ℕ, ◌<◌, ◌≡◌, refl, sym, ◌∙◌, inl, inr, true, none, some, arith, Bool-cases, Option-cases,
}
use mathlib.Core.Path.{subst₂}
use task_mate.Kernel.Threads.{mod_thread_count, get_pointer, get_current}
use task_mate.Kernel.Threads.Frame.{get_pointer-some}
use task_mate.Kernel.Threads.Valid.{IsValid}
use task_mate.Kernel.Scheduler.{
  Kernel, looping, resumed, canaries_intact, select, scheduler_rr, Thread,
}
use task_mate.Kernel.Scheduler.Select.{CanRun, select_sound}
use task_mate.Kernel.Scheduler.Ticked.{ticked, ticked_keeps, CanRun-back}
use task_mate.Kernel.Scheduler.Interrupt.{Switched, scheduler_rr_lem, scheduler_rr_halts}

-- If the loop finds nobody, the interrupt never ends.
rr_stuck :
    (k : Kernel) (context now : ℕ) {t : Thread}
    → get_pointer k.db k.db.current ≡ some t
    → canaries_intact t ≡ true
    → select
        (mod_thread_count (ticked k context now t).db)
        (ticked k context now t).db
        (ticked k context now t).scheduler_run_level
        k.db.current
      ≡ none
    → scheduler_rr k context now ≡ looping
unfolding scheduler_rr ticked get_current canaries_intact
rr_stuck k context now e ok found = rw (e, scheduler_rr) (rw ok (rw found refl))

resumed_inj : {k k' : Kernel} {a a' : ℕ} → resumed k a ≡ resumed k' a' → (k ≡ k') × (a ≡ a')
resumed_inj h = (cc, cc)

module _ (k : Kernel) (context now : ℕ) {k' : Kernel} {resumes : ℕ} (v : IsValid k.db)
    (r : scheduler_rr k context now ≡ resumed k' resumes) where
  abbrev pub Result : Type 0
  Result =
      (next : ℕ) × CanRun k.db k.scheduler_run_level next × Switched k context now next k' resumes

  from_runnable :
      (i : ℕ) {t : Thread}
      → get_pointer k.db k.db.current ≡ some t
      → canaries_intact t ≡ true
      → i < mod_thread_count k.db
      → CanRun k.db k.scheduler_run_level i
      → Result
  from_runnable i e ok l can =
      let (next, isnext, broken, intact) = scheduler_rr_lem k context now v e i ok l can in
      let (u, f, runs) = isnext.can_run in
      elim (Bool-cases (canaries_intact u)) [
        | inr bad ↦ cc (broken u f bad)
        | inl good ↦
            let (k'', resumes', same, s) = intact u f good in
            let (p, q) = resumed_inj (sym same ∙ r) in
            (next, isnext.can_run, subst₂ (Switched k context now next) p q s)
      ]

  -- An interrupt of a well-formed kernel that resumes a thread has switched to one that may run.
  pub scheduler_rr-Switched : Result
  scheduler_rr-Switched =
      let (t, e) = get_pointer-some k.db k.db.current v.in_range in
      elim (Bool-cases (canaries_intact t)) [
        | inr bad ↦ cc (scheduler_rr_halts k context now e bad)
        | inl ok ↦
            elim (Option-cases (
              select (mod_thread_count (ticked k context now t).db) (ticked k context now t).db
                (ticked k context now t).scheduler_run_level k.db.current)) [
                  | inl found ↦ cc (rr_stuck k context now e ok found)
                  | inr (next, found) ↦
                      let (count, same, level, counter) = ticked_keeps k context now e in
                      let (l, can) =
                        select_sound (mod_thread_count (ticked k context now t).db)
                          (ticked k context now t).db (ticked k context now t).scheduler_run_level
                          k.db.current (omega (arith, count, v.count_fits))
                          (omega (arith, count, v.in_range)) found in
                      from_runnable next e ok (omega (arith, l, count))
                        (CanRun-back k context now e next (omega (arith, l, count)) can)
                ]
      ]
