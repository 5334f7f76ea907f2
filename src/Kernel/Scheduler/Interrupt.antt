-- ===== src/Kernel/Scheduler/Interrupt.antt =====
-- What one scheduling interrupt (`tm_schedulerRR`) does to every thread, and when it halts.
use task_mate.Common.{
  ℕ, ◌<◌, ◌≡◌, refl, sym, ap, ◌∙◌, ◌≢◌, inl, inr, true, false, some, arith, ℕ_discrete, ◌==◌,
  if◌then◌else◌, ==_iff, Bool-cases, some_inj,
}
use task_mate.Kernel.Threads.Valid.{IsThread, put-IsValid, get_pointer-IsThread}
use task_mate.Kernel.Scheduler.Select.{CanRun, IsNext, select_finds}
use task_mate.Kernel.Scheduler.Ticked.{
  get_pointer-ticked, ticked_keeps, ticked-IsValid, CanRun-ticked, IsNext-ticked, canaries-before,
}
use task_mate.Common.Bits.{clear_bit, clear_bit-lt}
use task_mate.Kernel.Threads.{Thread, mod_thread_count, get_pointer, put, get_current, set_current}
use task_mate.Kernel.Threads.Valid.{IsValid}
use task_mate.Kernel.Scheduler.{
  Kernel, halted, resumed, canaries_intact, select, switch_to, scheduler_rr, get_current,
  set_current, Db,
}
use task_mate.Kernel.Scheduler.Ticked.{before, ticked}
use task_mate.Kernel.Threads.Frame.{
  get_pointer-lt, get_pointer-put_self, get_pointer-put_ne, mod_thread_count-put,
}

-- What becomes of the thread with number `id` if `next` is switched to.
abbrev pub after : Kernel → ℕ → ℕ → ℕ → ℕ → Thread → Thread
after k context now next id t =
    let t' = before k context now id t in
    if id == next then record t' { status = clear_bit t'.status 4 } else t'

-- What a switch to `next` leaves behind: `next` is current, the counter of interrupts stays below
-- ten, the run level stays, and every thread is as `after` says, which also gives the context that
-- is resumed.
pub record Switched (k : Kernel) (context now next : ℕ) (k' : Kernel) (resumes : ℕ) : Type 0 where
  pub current : k'.db.current ≡ next
  pub count : mod_thread_count k'.db ≡ mod_thread_count k.db
  pub level : k'.scheduler_run_level ≡ k.scheduler_run_level
  pub valid : IsValid k'.db
  pub counter : k.scheduler_stc_tick_count < 10 → k'.scheduler_stc_tick_count < 10
  pub threads :
      (id : ℕ) (u : Thread)
      → get_pointer k.db id ≡ some u
      → get_pointer k'.db id ≡ some (after k context now next id u)
  pub resumed_context :
      (u : Thread)
      → get_pointer k.db next ≡ some u
      → resumes ≡ (after k context now next next u).context

-- The state after the switch to `next`, whose record was `w`.
abbrev switched_state : Kernel → ℕ → Thread → Kernel
switched_state k next w = record k {
  db = put (record k.db { current = next }) next (record w { status = clear_bit w.status 4 });
}

switch_to_lem :
    (k : Kernel) (next : ℕ) (w : Thread)
    → get_pointer k.db next ≡ some w
    → switch_to k next
      ≡ (if canaries_intact w then resumed (switched_state k next w) w.context else halted)
unfolding switch_to set_current get_pointer
switch_to_lem k next w e = ground arith

rr_selected :
    (k : Kernel) (context now next : ℕ) {t : Thread}
    → get_pointer k.db k.db.current ≡ some t
    → canaries_intact t ≡ true
    → select
        (mod_thread_count (ticked k context now t).db)
        (ticked k context now t).db
        (ticked k context now t).scheduler_run_level
        k.db.current
      ≡ some next
    → scheduler_rr k context now ≡ switch_to (ticked k context now t) next
unfolding scheduler_rr ticked get_current canaries_intact
rr_selected k context now next e ok found = rw (e, scheduler_rr) (rw ok (rw found refl))

pub after_self :
    (k : Kernel) (context now next : ℕ) (u : Thread)
    → after k context now next next u ≡ record (before k context now next u) {
      status = clear_bit (before k context now next u).status 4;
    }
after_self k context now next u = rw ((==_iff next next).1 refl)

pub after_other :
    (k : Kernel) (context now next id : ℕ) (u : Thread)
    → id ≢ next
    → after k context now next id u ≡ before k context now id u
after_other k context now next id u ne = elim (Bool-cases (id == next)) [
  | inl e ↦ absurd (ne ((==_iff id next).0 e))
  | inr e ↦ rw e
]

module _ (k : Kernel) (context now : ℕ) {t : Thread} (v : IsValid k.db)
    (e : get_pointer k.db k.db.current ≡ some t) where
  abbrev start : Kernel
  start = ticked k context now t

  rr_found :
      (i : ℕ)
      → canaries_intact t ≡ true
      → i < mod_thread_count k.db
      → CanRun k.db k.scheduler_run_level i
      → (next : ℕ) × (scheduler_rr k context now ≡ switch_to start next)
        × IsNext k.db k.scheduler_run_level k.db.current next
  rr_found i ok l can =
      let (count, same, level, counter) = ticked_keeps k context now e in
      let (next, found, isnext) =
        select_finds start.db start.scheduler_run_level (omega (arith, count, v.count_fits))
          k.db.current i (omega (arith, count, v.in_range)) (omega (arith, count))
          (CanRun-ticked k context now e i can) in
      (next, rr_selected k context now next e ok found, IsNext-ticked k context now e next isnext)

  switched_state-Switched :
      (next : ℕ) {u : Thread}
      → get_pointer k.db next ≡ some u
      → Switched k context now next
          (switched_state start next (before k context now next u))
          (before k context now next u).context
  unfolding ticked get_pointer
  switched_state-Switched next {u} f = record {
    current = refl;
    count = mod_thread_count-put moved next cleared ∙ (ticked_keeps k context now e).0;
    level = (ticked_keeps k context now e).2;
    valid = put-IsValid moved next moved-IsValid cleared-IsThread;
    counter = (ticked_keeps k context now e).3;
    threads = λ id w g. there id w g;
    resumed_context = λ w g. resumes w (some_inj (sym g ∙ f));
  }
    where
      w' : Thread
      w' = before k context now next u

      moved : Db
      moved = record start.db { current = next }

      cleared : Thread
      cleared = record w' { status = clear_bit w'.status 4 }

      next_in : next < mod_thread_count start.db
      next_in = omega (arith, get_pointer-lt k.db next f, (ticked_keeps k context now e).0)

      moved-IsValid : IsValid moved
      moved-IsValid =
          let w = ticked-IsValid k context now e v in
          record { in_range = next_in; count_fits = w.count_fits; each = w.each }

      w'-IsThread : IsThread w'
      w'-IsThread =
          get_pointer-IsThread start.db next (ticked-IsValid k context now e v)
            (get_pointer-ticked k context now e next f)

      cleared-IsThread : IsThread cleared
      cleared-IsThread =
          omega (arith, w'-IsThread, clear_bit-lt w'.status 4 w'-IsThread.status_fits)

      there :
          (id : ℕ) (w : Thread)
          → get_pointer k.db id ≡ some w
          → get_pointer (put moved next cleared) id ≡ some (after k context now next id w)
      there id w g = elim (ℕ_discrete id next) [
        | yes q ↦
            let same : w ≡ u = some_inj (sym g ∙ ap (get_pointer k.db) q ∙ f) in
            rw (q, same)
              (get_pointer-put_self moved next cleared next_in
                ∙ ap some (sym (after_self k context now next u)))
        | no ne ↦
            get_pointer-put_ne moved next id cleared (λ q. ne (sym q))
            ∙ get_pointer-ticked k context now e id g
            ∙ ap some (sym (after_other k context now next id w ne))
      ]

      resumes : (w : Thread) → w ≡ u → w'.context ≡ (after k context now next next w).context
      resumes w same = rw (same, after_self k context now next u)

  -- An interrupt in a well-formed state with some runnable thread and an intact current stack: the
  -- nearest runnable thread after the current one is found; if a canary of its stack is broken the
  -- system halts, else it is switched to, and every thread is as `Switched` says.
  pub scheduler_rr_lem :
      (i : ℕ)
      → canaries_intact t ≡ true
      → i < mod_thread_count k.db
      → CanRun k.db k.scheduler_run_level i
      → (next : ℕ) × IsNext k.db k.scheduler_run_level k.db.current next
        × ((u : Thread)
            → get_pointer k.db next ≡ some u
            → canaries_intact u ≡ false
            → scheduler_rr k context now ≡ halted)
        × ((u : Thread)
            → get_pointer k.db next ≡ some u
            → canaries_intact u ≡ true
            → (k' : Kernel) × (resumes : ℕ) × (scheduler_rr k context now ≡ resumed k' resumes)
              × Switched k context now next k' resumes)
  scheduler_rr_lem i ok l can =
      let (next, runs, isnext) = rr_found i ok l can in
      let at = λ (u : Thread) (f : get_pointer k.db next ≡ some u).
        runs
        ∙ switch_to_lem start next (before k context now next u)
            (get_pointer-ticked k context now e next f) in
      (
        next,
        isnext,
        λ u f broken. at u f ∙ rw (canaries-before k context now next u, broken) refl,
        λ u f intact. (
          switched_state start next (before k context now next u),
          (before k context now next u).context,
          at u f ∙ rw (canaries-before k context now next u, intact) refl,
          switched_state-Switched next f,
        ),
      )

-- A broken canary in the stack of the interrupted thread halts the system, whatever else holds.
pub scheduler_rr_halts :
    (k : Kernel) (context now : ℕ) {t : Thread}
    → get_pointer k.db k.db.current ≡ some t
    → canaries_intact t ≡ false
    → scheduler_rr k context now ≡ halted
unfolding scheduler_rr get_current canaries_intact
scheduler_rr_halts k context now e broken = rw (e, scheduler_rr) (rw broken refl)
