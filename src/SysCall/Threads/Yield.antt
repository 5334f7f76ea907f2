-- ===== src/SysCall/Threads/Yield.antt =====
-- `sc_coopYield`: the call comes back once the scheduler has gone round.
use task_mate.Common.{
  ℕ, ◌≤◌, ◌<◌, ◌≡◌, refl, sym, subst, ap, ◌∙◌, ◌≢◌, Bool, true, false, some, List, [], ◌∷◌, arith,
  ℕ_discrete, some_inj, length,
}
use task_mate.Kernel.Scheduler.Ticked.{saved, tick_keeps}
use task_mate.Common.Bits.{get_bit, set_bit, get_bit-set_bit, get_bit-clear_bit}
use task_mate.Kernel.Threads.{
  Thread, Db, mod_thread_count, get_pointer, put, set_yielded, is_yielded, get_current,
}
use task_mate.Kernel.Threads.Frame.{
  get_pointer-some, get_pointer-put_self, get_pointer-put_ne, mod_thread_count-put,
}
use task_mate.Kernel.Threads.Valid.{IsValid, set_yielded-IsValid, get_pointer-IsThread}
use task_mate.Kernel.Threads.LifeCycle.{update_at_found}
use task_mate.Kernel.Scheduler.{Kernel, resumed, scheduler_rr, canaries_intact, runnable}
use task_mate.Kernel.Scheduler.Select.{CanRun, distance}
use task_mate.Kernel.Scheduler.Ticked.{before}
use task_mate.Kernel.Scheduler.Interrupt.{after, Switched, after_self, after_other}
use task_mate.Kernel.Scheduler.Fair.{
  IsHealthy, scheduler_rr_healthy, Switched-CanRun, Switched-IsHealthy, Switched-distance,
}
use task_mate.SysCall.Threads.{yield_wait, sc_coop_yield}

-- Thread `id` is marked as having yielded, or not.
abbrev Marked : Kernel → ℕ → Bool → Type 0
Marked k id m = (u : Thread) × (get_pointer k.db id ≡ some u) × (get_bit u.status 4 ≡ m)

wait_done :
    (inputs : List (ℕ × ℕ)) (id : ℕ) (k : Kernel)
    → Marked k id false
    → yield_wait inputs id k ≡ some (k, true)
unfolding yield_wait is_yielded
wait_done [] id k (u, e, m) = rw (e, yield_wait) (rw m refl)
wait_done (x ∷ rest) id k (u, e, m) = rw (e, yield_wait) (rw m refl)

wait_more :
    (context now : ℕ) (rest : List (ℕ × ℕ)) (id : ℕ) (k : Kernel) {k' : Kernel} {resumes : ℕ}
    → Marked k id true
    → scheduler_rr k context now ≡ resumed k' resumes
    → yield_wait ((context, now) ∷ rest) id k ≡ yield_wait rest id k'
unfolding yield_wait is_yielded
wait_more context now rest id k (u, e, m) r = rw (e, yield_wait) (rw m (rw r refl))

status-before :
    (k : Kernel) (context now id : ℕ) (u : Thread) → (before k context now id u).status ≡ u.status
status-before k context now id u = ground (arith, tick_keeps (saved context now u), tick_keeps u)

module _ {k k' : Kernel} {context now next resumes : ℕ} (s : Switched k context now next k' resumes)
    (h : IsHealthy k) where
  Marked-cleared : {m : Bool} → Marked k next m → Marked k' next false
  Marked-cleared (u, e, m) = (
    after k context now next next u,
    s.threads next u e,
    rw (after_self k context now next u, status-before k context now next u)
        (get_bit-clear_bit u.status 4 4 (get_pointer-IsThread k.db next h.valid e).status_fits
          (omega arith) (omega arith)),
  )

  Marked-kept : (id : ℕ) {m : Bool} → id ≢ next → Marked k id m → Marked k' id m
  Marked-kept id ne (u, e, m) = (
    after k context now next id u,
    s.threads id u e,
    rw (after_other k context now next id u ne, status-before k context now id u) m,
  )

wait_lem :
    (inputs : List (ℕ × ℕ)) (k : Kernel) (id : ℕ)
    → IsHealthy k
    → id < mod_thread_count k.db
    → CanRun k.db k.scheduler_run_level id
    → Marked k id true
    → distance k.db k.db.current id ≤ length inputs
    → (k' : Kernel) × (yield_wait inputs id k ≡ some (k', true))
      × (k'.db.current ≡ id)
      × Marked k' id false
      × IsHealthy k'
wait_lem [] k id h l can marked enough = absurd (ground (arith, h.valid.in_range))
wait_lem ((context, now) ∷ rest) k id h l can marked enough =
    let (next, k', resumes, r, isnext, s) = scheduler_rr_healthy k context now id h l can in
    elim (ℕ_discrete next id) [
      | yes e ↦
          let cleared : Marked k' id false =
            subst (λ i. Marked k' i false) e
              (Marked-cleared s h (subst (λ i. Marked k i true) (sym e) marked)) in
          (
            k',
            wait_more context now rest id k marked r ∙ wait_done rest id k' cleared,
            s.current ∙ e,
            cleared,
            Switched-IsHealthy s h,
          )
      | no ne ↦
          let closer = Switched-distance s id h.valid.in_range isnext l can ne in
          let (k'', waited, cur, done, good) =
            wait_lem rest k' id (Switched-IsHealthy s h) (omega (arith, s.count))
              (Switched-CanRun s id can) (Marked-kept s h id (λ q. ne (sym q)) marked)
              (omega (arith, closer)) in
          (k'', wait_more context now rest id k marked r ∙ waited, cur, done, good)
    ]

-- Marking the yielded bit of the current thread.
abbrev marked_state : Kernel → Thread → Kernel
marked_state k t = record k {
  db = put k.db k.db.current (record t { status = set_bit t.status 4 });
}

set_yielded_found :
    (db : Db) (id : ℕ) {t : Thread}
    → get_pointer db id ≡ some t
    → set_yielded db id ≡ (put db id (record t { status = set_bit t.status 4 }), true)
unfolding set_yielded
set_yielded_found db id e = update_at_found db id _ e

yield_marks :
    (inputs : List (ℕ × ℕ)) (k : Kernel) {t : Thread}
    → get_pointer k.db k.db.current ≡ some t
    → sc_coop_yield inputs k ≡ yield_wait inputs k.db.current (marked_state k t)
unfolding sc_coop_yield get_current
yield_marks inputs k e = rw (set_yielded_found k.db k.db.current e, sc_coop_yield) refl

marked-IsHealthy :
    (k : Kernel) {t : Thread}
    → IsHealthy k
    → get_pointer k.db k.db.current ≡ some t
    → IsHealthy (marked_state k t)
marked-IsHealthy k {t} h e = record { valid = valid; intact = λ id u g. intact id u g }
  where
    t' : Thread
    t' = record t { status = set_bit t.status 4 }

    valid : IsValid (put k.db k.db.current t')
    valid =
        subst IsValid (ap (λ r. r.0) (set_yielded_found k.db k.db.current e))
          (set_yielded-IsValid k.db k.db.current h.valid)

    same : canaries_intact t' ≡ canaries_intact t
    same = unfold canaries_intact in refl

    intact :
        (id : ℕ) (u : Thread)
        → get_pointer (put k.db k.db.current t') id ≡ some u
        → canaries_intact u ≡ true
    intact id u g = elim (ℕ_discrete k.db.current id) [
      | yes q ↦
          let here = get_pointer-put_self k.db k.db.current t' h.valid.in_range in
          ap canaries_intact
            (some_inj (sym g ∙ sym (ap (get_pointer (put k.db k.db.current t')) q) ∙ here))
          ∙ same
          ∙ h.intact k.db.current t e
      | no ne ↦ h.intact id u (sym (get_pointer-put_ne k.db k.db.current id t' ne) ∙ g)
    ]

marked-CanRun :
    (k : Kernel) {t : Thread}
    → k.db.current < mod_thread_count k.db
    → get_pointer k.db k.db.current ≡ some t
    → CanRun k.db k.scheduler_run_level k.db.current
    → CanRun (marked_state k t).db k.scheduler_run_level k.db.current
marked-CanRun k {t} l e (u, f, r) = (
  record t { status = set_bit t.status 4 },
  get_pointer-put_self k.db k.db.current _ l,
  same ∙ ap (runnable k.scheduler_run_level) (some_inj (sym e ∙ f)) ∙ r,
)
  where
    same :
        runnable k.scheduler_run_level (record t { status = set_bit t.status 4 })
        ≡ runnable k.scheduler_run_level t
    same = unfold runnable in refl

set_marks :
    (k : Kernel) {t : Thread}
    → k.db.current < mod_thread_count k.db
    → get_pointer k.db k.db.current ≡ some t
    → t.status < 256
    → Marked (marked_state k t) k.db.current true
set_marks k {t} l e fits = (
  record t { status = set_bit t.status 4 },
  get_pointer-put_self k.db k.db.current _ l,
  get_bit-set_bit t.status 4 4 fits (omega arith) (omega arith),
)

not_yielded : (k : Kernel) (id : ℕ) → Marked k id false → is_yielded k.db id true ≡ some false
unfolding is_yielded
not_yielded k id (u, e, m) = rw (e, is_yielded) (rw m refl)

-- A runnable thread that yields, in a state where no stack has overflowed, gets its call answered
-- with success after at most one interrupt per thread; it is then current, no longer marked as
-- having yielded, and the state is as healthy as before.
pub sc_coop_yield_returns :
    (inputs : List (ℕ × ℕ)) (k : Kernel)
    → IsHealthy k
    → CanRun k.db k.scheduler_run_level k.db.current
    → mod_thread_count k.db ≤ length inputs
    → (k' : Kernel) × (sc_coop_yield inputs k ≡ some (k', true))
      × (k'.db.current ≡ k.db.current)
      × (is_yielded k'.db k.db.current true ≡ some false)
      × IsHealthy k'
sc_coop_yield_returns inputs k h can enough =
    let (t, e) = get_pointer-some k.db k.db.current h.valid.in_range in
    let count = mod_thread_count-put k.db k.db.current (record t { status = set_bit t.status 4 }) in
    let (k', waited, cur, done, good) =
      wait_lem inputs (marked_state k t) k.db.current (marked-IsHealthy k h e)
        (omega (arith, count, h.valid.in_range)) (marked-CanRun k h.valid.in_range e can)
        (set_marks k h.valid.in_range e (get_pointer-IsThread k.db _ h.valid e).status_fits)
        (ground (arith, count, h.valid.in_range)) in
    (k', yield_marks inputs k e ∙ waited, cur, not_yielded k' k.db.current done, good)
