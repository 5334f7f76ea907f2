-- ===== src/SysCall/Threads/Reach.antt =====
-- The kernel under any interleaving of system calls and scheduling interrupts.
use task_mate.Common.{
  ℕ, ◌≤◌, ◌<◌, ◌≡◌, inl, inr, ◌||◌, Option, arith, ltb, leb, Bool-cases, Option-cases,
}
use task_mate.Interfaces.{RunLevel, rl_run_core, rl_level_count}
use task_mate.Kernel.Threads.{Db, get_current, set_yielded}
use task_mate.Kernel.Threads.Valid.{
  IsValid, set_stc-IsValid, set_next_start_delay_ms-IsValid, set_wcet_100us-IsValid,
  set_dead_line_100us-IsValid, set_initialized-IsValid, set_yielded-IsValid, thread_start-IsValid,
  thread_stop-IsValid,
}
use task_mate.Kernel.Scheduler.{Kernel, resumed, scheduler_rr, run_level_set}
use task_mate.Kernel.Scheduler.Resumed.{scheduler_rr-Switched}
use task_mate.TmLibc.Str.{Text}
use task_mate.SysCall.Threads.{
  Catalog, get_id, sc_run_level_set, sc_set_stc, sc_set_next_start_delay_ms, sc_set_wcet_100us,
  sc_set_dead_line_100us, sc_set_initialized, sc_thread_start, sc_thread_stop,
}

-- One system call of some thread, or one interrupt that resumes a thread.
pub data Step (catalog : Catalog) (k : Kernel) : Kernel → Type 0 where
  level : (rl : RunLevel) → Step catalog k (sc_run_level_set k rl).0
  stc : (count : ℕ) → count < 65536 → Step catalog k (sc_set_stc k count).0
  delay : (ms : ℕ) → Step catalog k (sc_set_next_start_delay_ms k ms).0
  wcet : (ticks : ℕ) → Step catalog k (sc_set_wcet_100us k ticks).0
  dead_line : (ticks : ℕ) → Step catalog k (sc_set_dead_line_100us k ticks).0
  initialized : Step catalog k (sc_set_initialized k).0
  starts :
      (name : Option Text) (rl : RunLevel) → Step catalog k (sc_thread_start catalog k name rl).0
  stops : (name : Option Text) → Step catalog k (sc_thread_stop catalog k name).0
  yields : Step catalog k (record k { db = (set_yielded k.db (get_current k.db)).0 })
  interrupt :
      (context now : ℕ) {k' : Kernel} {resumes : ℕ}
      → scheduler_rr k context now ≡ resumed k' resumes
      → Step catalog k k'

pub data Reach (catalog : Catalog) (k : Kernel) : Kernel → Type 0 where
  here : Reach catalog k k
  later : {k' k'' : Kernel} → Reach catalog k k' → Step catalog k' k'' → Reach catalog k k''

-- The database is well formed, the run level is one of the four, and fewer than ten interrupts
-- have been counted.
pub record IsSound (k : Kernel) : Type 0 where
  pub valid : IsValid k.db
  pub level_low : rl_run_core ≤ k.scheduler_run_level
  pub level_high : k.scheduler_run_level < rl_level_count
  pub counted : k.scheduler_stc_tick_count < 10

on_db-IsSound : (k : Kernel) (db : Db) → IsSound k → IsValid db → IsSound (record k { db = db })
on_db-IsSound k db s v = record {
  valid = v;
  level_low = s.level_low;
  level_high = s.level_high;
  counted = s.counted;
}

-- The later state is sound, and its run level no lower.
abbrev Keeps : Kernel → Kernel → Type 0
Keeps k k' = IsSound k' × (k.scheduler_run_level ≤ k'.scheduler_run_level)

on_db-Keeps : (k : Kernel) (db : Db) → IsSound k → IsValid db → Keeps k (record k { db = db })
on_db-Keeps k db s v = (on_db-IsSound k db s v, omega arith)

sc_run_level_set-Keeps :
    (k : Kernel) (rl : RunLevel) → IsSound k → Keeps k (sc_run_level_set k rl).0
unfolding sc_run_level_set run_level_set
sc_run_level_set-Keeps k rl s =
    elim (Bool-cases (ltb rl 1 || leb 5 rl || ltb rl k.scheduler_run_level)) [
      | inl e ↦ rw e (s, omega arith)
      | inr e ↦ rw e (
        record {
          valid = s.valid;
          level_low = ground arith;
          level_high = ground arith;
          counted = s.counted;
        },
        ground arith,
      )
    ]

sc_thread_start-Keeps :
    (catalog : Catalog) (k : Kernel) (name : Option Text) (rl : RunLevel)
    → IsSound k
    → Keeps k (sc_thread_start catalog k name rl).0
unfolding sc_thread_start
sc_thread_start-Keeps catalog k name rl s = elim (Bool-cases (leb 5 rl)) [
  | inl e ↦ rw e (s, omega arith)
  | inr e ↦ elim (Option-cases (get_id catalog name)) [
    | inl q ↦ rw (e, q) (s, omega arith)
    | inr (id, q) ↦
        rw (e, q) (on_db-Keeps k _ s (thread_start-IsValid k.db id rl (ground arith) s.valid))
  ]
]

sc_thread_stop-Keeps :
    (catalog : Catalog) (k : Kernel) (name : Option Text)
    → IsSound k
    → Keeps k (sc_thread_stop catalog k name).0
unfolding sc_thread_stop
sc_thread_stop-Keeps catalog k name s = elim (Option-cases (get_id catalog name)) [
  | inl q ↦ rw (q, sc_thread_stop) (s, omega arith)
  | inr (id, q) ↦ rw (q, sc_thread_stop) (on_db-Keeps k _ s (thread_stop-IsValid k.db id s.valid))
]

interrupt-Keeps :
    (k : Kernel) (context now : ℕ) {k' : Kernel} {resumes : ℕ}
    → IsSound k
    → scheduler_rr k context now ≡ resumed k' resumes
    → Keeps k k'
interrupt-Keeps k context now s r =
    let (next, can, sw) = scheduler_rr-Switched k context now s.valid r in
    (
      record {
        valid = sw.valid;
        level_low = omega (arith, sw.level, s.level_low);
        level_high = omega (arith, sw.level, s.level_high);
        counted = sw.counter s.counted;
      },
      omega (arith, sw.level),
    )

Step-Keeps : {catalog : Catalog} {k k' : Kernel} → Step catalog k k' → IsSound k → Keeps k k'
unfolding sc_set_stc sc_set_next_start_delay_ms sc_set_wcet_100us sc_set_dead_line_100us
    sc_set_initialized
Step-Keeps {k} (level rl) s = sc_run_level_set-Keeps k rl s
Step-Keeps {k} (stc count h) s = on_db-Keeps k _ s (set_stc-IsValid k.db count h s.valid)
Step-Keeps {k} (delay ms) s = on_db-Keeps k _ s (set_next_start_delay_ms-IsValid k.db ms s.valid)
Step-Keeps {k} (wcet ticks) s = on_db-Keeps k _ s (set_wcet_100us-IsValid k.db ticks s.valid)
Step-Keeps {k} (dead_line ticks) s =
    on_db-Keeps k _ s (set_dead_line_100us-IsValid k.db ticks s.valid)
Step-Keeps {k} initialized s = on_db-Keeps k _ s (set_initialized-IsValid k.db _ s.valid)
Step-Keeps {catalog} {k} (starts name rl) s = sc_thread_start-Keeps catalog k name rl s
Step-Keeps {catalog} {k} (stops name) s = sc_thread_stop-Keeps catalog k name s
Step-Keeps {k} yields s = on_db-Keeps k _ s (set_yielded-IsValid k.db _ s.valid)
Step-Keeps {k} (interrupt context now r) s = interrupt-Keeps k context now s r

-- From a sound kernel, whatever system calls of `sc_threads.c` and interrupts follow in whatever
-- order, the kernel stays sound and its run level never falls.
pub Reach-IsSound :
    {catalog : Catalog} {k k' : Kernel}
    → IsSound k
    → Reach catalog k k'
    → IsSound k' × (k.scheduler_run_level ≤ k'.scheduler_run_level)
Reach-IsSound s here = (s, omega arith)
Reach-IsSound s (later r st) =
    let (s', up) = Reach-IsSound s r in
    let (s'', up') = Step-Keeps st s' in (s'', omega (arith, up, up'))
