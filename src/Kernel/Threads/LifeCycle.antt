-- ===== src/Kernel/Threads/LifeCycle.antt =====
-- Starting, stopping and readiness of the threads of sys_threads.c.
use task_mate.Common.{
  ℕ, zero, suc, ◌<◌, ◌≡◌, refl, sym, ap, ◌∙◌, ◌≢◌, ◌↔◌, ◌⊎◌, inl, inr, true, false, some, List, [],
  ◌∷◌, arith, ◌==◌, ==_iff, Bool-cases, get_elem?,
}
use task_mate.Common.Bits.{get_bit}
use task_mate.Interfaces.{RunLevel, thread_bit_initialized, rl_run_none, thread_bit_dead}
use task_mate.Kernel.Threads.{
  Thread, Db, get_pointer, blocks, run_level_is_ready, scan_ready, thread_start, thread_stop,
  update_at, put, start_record, mod_thread_count,
}
use task_mate.Kernel.Threads.Frame.{
  get_pointer-eq, get_pointer-lt, get_pointer-put_self, mod_thread_count-put,
}

pub update_at_found :
    (db : Db) (id : ℕ) (f : Thread → Thread) {t : Thread}
    → get_pointer db id ≡ some t
    → update_at db id f ≡ (put db id (f t), true)
update_at_found db id f e = rw (e, update_at)

-- Stopping a thread that runs at a level and starting it again gives it that level back, whatever
-- initial level the start names; both calls succeed, and only the saved level may have changed.
pub thread_start-thread_stop :
    (db : Db) (id : ℕ) (rl : RunLevel) {t : Thread}
    → get_pointer db id ≡ some t
    → t.run_level ≢ rl_run_none
    → ((thread_stop db id).1 ≡ true)
      × ((thread_start (thread_stop db id).0 id rl).1 ≡ true)
      × (get_pointer (thread_start (thread_stop db id).0 id rl).0 id
          ≡ some (record t { saved_run_level = t.run_level }))
unfolding thread_start thread_stop
thread_start-thread_stop db id rl {t} e ne =
    rw stopped (refl, ap (λ p. p.1) started, ap (λ p. get_pointer p.0 id) started ∙ last)
  where
    t' : Thread
    t' = record t { saved_run_level = t.run_level; run_level = rl_run_none }

    db' : Db
    db' = put db id t'

    stopped : thread_stop db id ≡ (db', true)
    stopped = update_at_found db id _ e

    there : id < mod_thread_count db
    there = get_pointer-lt db id e

    started : thread_start db' id rl ≡ (put db' id (start_record rl t'), true)
    started = update_at_found db' id _ (get_pointer-put_self db id t' there)

    restored : start_record rl t' ≡ record t { saved_run_level = t.run_level }
    restored = ground arith

    last :
        get_pointer (put db' id (start_record rl t')) id
        ≡ some (record t { saved_run_level = t.run_level })
    last =
        rw restored
          (get_pointer-put_self db' id _ (omega (arith, mod_thread_count-put db id t', there)))

-- A start of a thread whose saved level is `RL_RUN_NONE` succeeds and leaves its run level as it
-- is: it only stores the initial level, which a second start then applies if it is not none.
pub thread_start_stores_only :
    (db : Db) (id : ℕ) (rl rl' : RunLevel) {t : Thread}
    → get_pointer db id ≡ some t
    → t.saved_run_level ≡ rl_run_none
    → rl ≢ rl_run_none
    → (thread_start db id rl ≡ (put db id (record t { saved_run_level = rl }), true))
      × (get_pointer (thread_start (thread_start db id rl).0 id rl').0 id
          ≡ some (record t { saved_run_level = rl; run_level = rl }))
unfolding thread_start
thread_start_stores_only db id rl rl' {t} e none_saved ne =
    (first, rw first (ap (λ p. get_pointer p.0 id) second ∙ last))
  where
    t' : Thread
    t' = record t { saved_run_level = rl }

    stored : start_record rl t ≡ t'
    stored = ground arith

    db' : Db
    db' = put db id t'

    first : thread_start db id rl ≡ (db', true)
    first = update_at_found db id _ e ∙ ap (λ s. (put db id s, true)) stored

    there : id < mod_thread_count db
    there = get_pointer-lt db id e

    second : thread_start db' id rl' ≡ (put db' id (start_record rl' t'), true)
    second = update_at_found db' id _ (get_pointer-put_self db id t' there)

    applied : start_record rl' t' ≡ record t { saved_run_level = rl; run_level = rl }
    applied = ground arith

    last :
        get_pointer (put db' id (start_record rl' t')) id
        ≡ some (record t { saved_run_level = rl; run_level = rl })
    last =
        rw applied
          (get_pointer-put_self db' id _ (omega (arith, mod_thread_count-put db id t', there)))

-- What `mod_threadsRunLevelIsReady` asks of one record.
abbrev pub Ready : RunLevel → Thread → Type 0
Ready rl t =
    t.run_level ≡ rl
    → (get_bit t.status thread_bit_initialized ≡ true) × (get_bit t.status thread_bit_dead ≡ false)

blocks_iff : (rl : RunLevel) (t : Thread) → (blocks rl t ≡ false) ↔ Ready rl t
unfolding blocks
blocks_iff rl t = (λ h e. ground arith, λ r. go (Bool-cases (t.run_level == rl)) r)
  where
    go :
        ((t.run_level == rl) ≡ true) ⊎ ((t.run_level == rl) ≡ false)
        → Ready rl t
        → blocks rl t ≡ false
    go (inl same) r = let h = r ((==_iff _ _).0 same) in rw (same, h.0, h.1)
    go (inr other) r = rw other

scan_ready_sound :
    (rl : RunLevel) (ts : List Thread)
    → scan_ready rl ts ≡ true
    → (i : ℕ) {t : Thread} → get_elem? ts i ≡ some t
    → blocks rl t ≡ false
unfolding scan_ready
scan_ready_sound rl [] h i e = cc
scan_ready_sound rl (x ∷ xs) h zero e = ground arith
scan_ready_sound rl (x ∷ xs) h (suc i) e = scan_ready_sound rl xs (ground arith) i e

scan_ready_complete :
    (rl : RunLevel) (ts : List Thread)
    → ((i : ℕ) (t : Thread) → get_elem? ts i ≡ some t → blocks rl t ≡ false)
    → scan_ready rl ts ≡ true
unfolding scan_ready
scan_ready_complete rl [] h = refl
scan_ready_complete rl (x ∷ xs) h =
    rw (h 0 x refl) (scan_ready_complete rl xs (λ i t e. h (suc i) t e))

-- `mod_threadsRunLevelIsReady` answers true exactly when every thread at that run level is
-- initialized and not dead.
pub run_level_is_ready_iff :
    (db : Db) (rl : RunLevel)
    → (run_level_is_ready db rl ≡ true)
      ↔ ((id : ℕ) (t : Thread) → get_pointer db id ≡ some t → Ready rl t)
unfolding run_level_is_ready
run_level_is_ready_iff db rl = (
  λ h id t e.
      (blocks_iff rl t).0 (scan_ready_sound rl db.threads h id (sym (get_pointer-eq db id) ∙ e)),
  λ r.
      scan_ready_complete rl db.threads
        (λ i t e. (blocks_iff rl t).1 (r i t (get_pointer-eq db i ∙ e))),
)
