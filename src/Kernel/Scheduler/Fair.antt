-- ===== src/Kernel/Scheduler/Fair.antt =====
-- Bounded waiting: a runnable thread gets the processor within one round of interrupts.
use task_mate.Common.{
  ℕ, suc, ◌≤◌, ◌<◌, ◌≡◌, refl, sym, ap, ◌∙◌, ◌≢◌, Bool, true, false, Option, none, some, List, [],
  ◌∷◌, arith, ℕ_discrete, ◌==◌, if◌then◌else◌, some_inj, length, take,
}
use task_mate.Interfaces.{RunLevel}
use task_mate.Kernel.Threads.{Thread, mod_thread_count, get_pointer}
use task_mate.Kernel.Threads.Frame.{get_pointer-some, get_pointer-lt}
use task_mate.Kernel.Threads.Valid.{IsValid}
use task_mate.Kernel.Scheduler.{
  Kernel, halted, looping, resumed, canaries_intact, scheduler_rr, runnable, clear_bit,
}
use task_mate.Kernel.Scheduler.Select.{IsNext, CanRun, distance}
use task_mate.Kernel.Scheduler.Ticked.{canaries-before, runnable-before, before}
use task_mate.Kernel.Scheduler.Interrupt.{after, Switched, scheduler_rr_lem}

-- The state after a sequence of interrupts, each with its saved context and time; `none` if one of
-- them does not resume a thread.
unfoldable pub interrupts : Kernel → List (ℕ × ℕ) → Option Kernel
interrupts k [] = some k
interrupts k ((context, now) ∷ rest) = elim (scheduler_rr k context now) [
  | halted ↦ none
  | looping ↦ none
  | resumed k' _ ↦ interrupts k' rest
]

-- A well-formed state in which no stack has overflowed.
pub record IsHealthy (k : Kernel) : Type 0 where
  pub valid : IsValid k.db
  pub intact : (id : ℕ) (u : Thread) → get_pointer k.db id ≡ some u → canaries_intact u ≡ true

runnable-after :
    (k : Kernel) (context now next id : ℕ) (level : RunLevel) (u : Thread)
    → runnable level (after k context now next id u) ≡ runnable level u
unfolding runnable
runnable-after k context now next id level u =
    cleared (id == next) ∙ runnable-before k context now id level u
  where
    b : Thread
    b = before k context now id u

    cleared :
        (c : Bool)
        → runnable level (if c then record b { status = clear_bit b.status 4 } else b)
          ≡ runnable level b
    cleared true = refl
    cleared false = refl

canaries-after :
    (k : Kernel) (context now next id : ℕ) (u : Thread)
    → canaries_intact (after k context now next id u) ≡ canaries_intact u
unfolding canaries_intact
canaries-after k context now next id u = cleared (id == next) ∙ canaries-before k context now id u
  where
    b : Thread
    b = before k context now id u

    cleared :
        (c : Bool)
        → canaries_intact (if c then record b { status = clear_bit b.status 4 } else b)
          ≡ canaries_intact b
    cleared true = refl
    cleared false = refl

module _ {k k' : Kernel} {context now next resumes : ℕ}
    (s : Switched k context now next k' resumes) where
  pub Switched-CanRun :
      (i : ℕ) → CanRun k.db k.scheduler_run_level i → CanRun k'.db k'.scheduler_run_level i
  Switched-CanRun i (u, e, r) = (
    after k context now next i u,
    s.threads i u e,
    ap (λ l. runnable l (after k context now next i u)) s.level
        ∙ runnable-after k context now next i k.scheduler_run_level u
        ∙ r,
  )

  pub Switched-IsHealthy : IsHealthy k → IsHealthy k'
  Switched-IsHealthy h = record { valid = s.valid; intact = λ id w g. ok id w g }
    where
      ok : (id : ℕ) (w : Thread) → get_pointer k'.db id ≡ some w → canaries_intact w ≡ true
      ok id w g =
          let (u, e) =
            get_pointer-some k.db id (omega (arith, get_pointer-lt k'.db id g, s.count)) in
          ap canaries_intact (some_inj (sym g ∙ s.threads id u e))
          ∙ canaries-after k context now next id u
          ∙ h.intact id u e

  pub Switched-distance :
      (j : ℕ)
      → k.db.current < mod_thread_count k.db
      → IsNext k.db k.scheduler_run_level k.db.current next
      → j < mod_thread_count k.db
      → CanRun k.db k.scheduler_run_level j
      → next ≢ j
      → distance k'.db k'.db.current j < distance k.db k.db.current j
  Switched-distance j h n l c ne = ground (arith, s.current, s.count, n.nearest j l c, n.in_range)

-- One interrupt in a healthy state with a runnable thread resumes some thread, the nearest runnable
-- one, and leaves a healthy state.
pub scheduler_rr_healthy :
    (k : Kernel) (context now j : ℕ)
    → IsHealthy k
    → j < mod_thread_count k.db
    → CanRun k.db k.scheduler_run_level j
    → (next : ℕ) × (k' : Kernel) × (resumes : ℕ) × (scheduler_rr k context now ≡ resumed k' resumes)
      × IsNext k.db k.scheduler_run_level k.db.current next
      × Switched k context now next k' resumes
scheduler_rr_healthy k context now j h l can =
    let (t, e) = get_pointer-some k.db k.db.current h.valid.in_range in
    let (next, isnext, broken, intact) =
      scheduler_rr_lem k context now h.valid e j (h.intact k.db.current t e) l can in
    let (u, f) = get_pointer-some k.db next isnext.in_range in
    let (k', resumes, r, s) = intact u f (h.intact next u f) in (next, k', resumes, r, isnext, s)

interrupts_more :
    (n : ℕ) (k : Kernel) (context now resumes : ℕ) (rest : List (ℕ × ℕ)) {k' : Kernel}
    → scheduler_rr k context now ≡ resumed k' resumes
    → interrupts k (take (suc n) ((context, now) ∷ rest)) ≡ interrupts k' (take n rest)
unfolding interrupts
interrupts_more n k context now resumes rest r = rw (r, interrupts) refl

interrupts_none : (k : Kernel) → interrupts k [] ≡ some k
unfolding interrupts
interrupts_none k = refl

-- In a state where no stack has overflowed, a thread that the run level lets run is current again
-- after at most as many interrupts as there are steps round the table to it, and so after at most
-- one interrupt per thread, whatever contexts and times the interrupts bring.
pub interrupts_fair :
    (inputs : List (ℕ × ℕ)) (k : Kernel) (j : ℕ)
    → IsHealthy k
    → j < mod_thread_count k.db
    → CanRun k.db k.scheduler_run_level j
    → distance k.db k.db.current j ≤ length inputs
    → (n : ℕ) × (k' : Kernel) × (1 ≤ n)
      × (n ≤ distance k.db k.db.current j)
      × (interrupts k (take n inputs) ≡ some k')
      × (k'.db.current ≡ j)
      × IsHealthy k'
interrupts_fair [] k j h l can enough = absurd (ground (arith, h.valid.in_range))
interrupts_fair ((context, now) ∷ rest) k j h l can enough =
    let (next, k', resumes, r, isnext, s) = scheduler_rr_healthy k context now j h l can in
    elim (ℕ_discrete next j) [
      | yes e ↦ (
        1,
        k',
        omega arith,
        ground (arith, h.valid.in_range),
        interrupts_more 0 k context now resumes rest r ∙ interrupts_none k',
        s.current ∙ e,
        Switched-IsHealthy s h,
      )
      | no ne ↦
          let closer = Switched-distance s j h.valid.in_range isnext l can ne in
          let (n, k'', pos, few, run, cur, good) =
            interrupts_fair rest k' j (Switched-IsHealthy s h) (omega (arith, s.count))
              (Switched-CanRun s j can) (omega (arith, closer)) in
          (
            suc n,
            k'',
            omega arith,
            omega (arith, closer),
            interrupts_more n k context now resumes rest r ∙ run,
            cur,
            good,
          )
    ]
