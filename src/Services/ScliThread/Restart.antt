-- ===== src/Services/ScliThread/Restart.antt =====
-- `thread stop` and `thread start` on one thread, down to the thread database.
use task_mate.Common.{ℕ, ◌≡◌, refl, ◌≢◌, true, some, [], ◌∷◌}
use task_mate.Interfaces.{rl_run_none}
use task_mate.TmLibc.Str.{Text}
use task_mate.Kernel.Threads as Db
use task_mate.Kernel.Threads.{Thread, get_pointer}
use task_mate.Kernel.Threads.LifeCycle.{thread_start-thread_stop}
use task_mate.Kernel.Scheduler.{Kernel}
use task_mate.SysCall.Threads.{Catalog, on_db, get_id, sc_thread_start, sc_thread_stop}
use task_mate.Services.ScliThread.{thread_start, thread_stop, started, stopped}

module _ (catalog : Catalog) (name : Text) (id : ℕ) (q : get_id catalog (some name) ≡ some id) where
  sc_stop : (k : Kernel) → sc_thread_stop catalog k (some name) ≡ on_db k (Db.thread_stop k.db id)
  unfolding sc_thread_stop
  sc_stop k = rw (sc_thread_stop, q) refl

  sc_start :
      (k : Kernel) → sc_thread_start catalog k (some name) 0 ≡ on_db k (Db.thread_start k.db id 0)
  unfolding sc_thread_start
  sc_start k = rw (sc_thread_start, q) refl

  stop_lem :
      (k : Kernel)
      → (Db.thread_stop k.db id).1 ≡ true
      → thread_stop catalog 3 name k
        ≡ (record k { db = (Db.thread_stop k.db id).0 }, stopped name ∷ [], true)
  unfolding thread_stop
  stop_lem k ok = rw (thread_stop, sc_stop k, ok) refl

  start_lem :
      (level : Text) (k : Kernel)
      → (Db.thread_start k.db id 0).1 ≡ true
      → thread_start catalog 3 name level k
        ≡ (record k { db = (Db.thread_start k.db id 0).0 }, started name ∷ [], true)
  unfolding thread_start
  start_lem level k ok = rw (thread_start, sc_start k, ok) refl

-- For a name that the catalog gives the number of a thread that runs at some level, the command
-- `thread stop` reports that it stopped, `thread start` without a level then reports that it
-- started, and the thread runs at the level it had before; only its saved level may have changed.
pub thread_start-thread_stop-name :
    (catalog : Catalog) (name level : Text) (k : Kernel) (id : ℕ) {t : Thread}
    → get_id catalog (some name) ≡ some id
    → get_pointer k.db id ≡ some t
    → t.run_level ≢ rl_run_none
    → ((thread_stop catalog 3 name k).1 ≡ stopped name ∷ [])
      × ((thread_start catalog 3 name level (thread_stop catalog 3 name k).0).1 ≡ started name ∷ [])
      × (get_pointer (thread_start catalog 3 name level (thread_stop catalog 3 name k).0).0.db id
          ≡ some (record t { saved_run_level = t.run_level }))
thread_start-thread_stop-name catalog name level k id q e ne =
    let (ok, ok', same) = thread_start-thread_stop k.db id 0 e ne in
    rw (stop_lem catalog name id q k ok) (
      rw (start_lem catalog name id q level (record k { db = (Db.thread_stop k.db id).0 }) ok')
        (refl, refl, same))
