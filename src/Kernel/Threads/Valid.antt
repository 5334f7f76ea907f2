-- ===== src/Kernel/Threads/Valid.antt =====
-- The well-formedness of the database of sys_threads.c, and that every operation keeps it.
use task_mate.Common.{
  ℕ, ◌<◌, ◌≤◌, some, length, All, ◌≡◌, arith, All-set, All-get_elem?, length-set, Option-cases,
  length-map, All-map, inl, inr,
}
use task_mate.Interfaces.{rl_level_count, RunLevel}
use task_mate.Kernel.Threads.{
  Thread, Db, mod_thread_count, get_pointer, put, update_at, set_current, set_dead_line_100us,
  set_initialized, set_next_start_delay_ms, set_stc, set_wcet_100us, set_yielded, start_record,
  thread_start, thread_stop, tick, tick_stc,
}
use task_mate.Kernel.Threads.Frame.{get_pointer-eq}
use task_mate.Common.Bits.{set_bit-lt}

-- The fields lie in their C types, and the stack holds `stack_size` words, two of them canaries.
pub record IsThread (t : Thread) : Type 0 where
  pub status_fits : t.status < 256
  pub run_level_fits : t.run_level < rl_level_count
  pub saved_fits : t.saved_run_level < rl_level_count
  pub stc_fits : t.software_time_counter < 65536
  pub room : 2 ≤ t.stack_size
  pub size_fits : t.stack_size < 65536
  pub stack_length : length t.stack ≡ t.stack_size

pub record IsValid (db : Db) : Type 0 where
  pub in_range : db.current < mod_thread_count db
  pub count_fits : mod_thread_count db < 256
  pub each : All IsThread db.threads

pub get_pointer-IsThread :
    (db : Db) (id : ℕ) {t : Thread} → IsValid db → get_pointer db id ≡ some t → IsThread t
get_pointer-IsThread db id v e =
    All-get_elem? IsThread db.threads id v.each (ground (arith, get_pointer-eq db id))

pub put-IsValid : (db : Db) (id : ℕ) {t : Thread} → IsValid db → IsThread t → IsValid (put db id t)
put-IsValid db id {t} v h = record {
  in_range = omega (arith, length-set db.threads id t);
  count_fits = omega (arith, length-set db.threads id t);
  each = All-set IsThread db.threads id v.each h;
}

pub update_at-IsValid :
    (db : Db) (id : ℕ) (f : Thread → Thread)
    → IsValid db
    → ((t : Thread) → IsThread t → IsThread (f t))
    → IsValid (update_at db id f).0
update_at-IsValid db id f v keep = elim (Option-cases (get_pointer db id)) [
  | inl e ↦ rw (e, update_at) v
  | inr (t, e) ↦ rw (e, update_at) (put-IsValid db id v (keep t (get_pointer-IsThread db id v e)))
]

pub set_current-IsValid : (db : Db) (id : ℕ) → IsValid db → IsValid (set_current db id).0
unfolding set_current
set_current-IsValid db id v = ground arith

pub set_stc-IsValid :
    (db : Db) (count : ℕ) → count < 65536 → IsValid db → IsValid (set_stc db count).0
unfolding set_stc
set_stc-IsValid db count h v = update_at-IsValid db db.current _ v (λ t w. omega arith)

tick-IsThread : (t : Thread) → IsThread t → IsThread (tick t)
unfolding tick
tick-IsThread t w = ground arith

pub tick_stc-IsValid : (db : Db) → IsValid db → IsValid (tick_stc db)
unfolding tick_stc
tick_stc-IsValid db v = record {
  in_range = omega (arith, length-map tick db.threads);
  count_fits = omega (arith, length-map tick db.threads);
  each = All-map IsThread tick db.threads tick-IsThread v.each;
}

pub set_next_start_delay_ms-IsValid :
    (db : Db) (ms : ℕ) → IsValid db → IsValid (set_next_start_delay_ms db ms).0
unfolding set_next_start_delay_ms
set_next_start_delay_ms-IsValid db ms v = update_at-IsValid db db.current _ v (λ t w. omega arith)

pub set_wcet_100us-IsValid :
    (db : Db) (ticks : ℕ) → IsValid db → IsValid (set_wcet_100us db ticks).0
unfolding set_wcet_100us
set_wcet_100us-IsValid db ticks v = update_at-IsValid db db.current _ v (λ t w. omega arith)

pub set_dead_line_100us-IsValid :
    (db : Db) (ticks : ℕ) → IsValid db → IsValid (set_dead_line_100us db ticks).0
unfolding set_dead_line_100us
set_dead_line_100us-IsValid db ticks v = update_at-IsValid db db.current _ v (λ t w. omega arith)

pub set_initialized-IsValid : (db : Db) (id : ℕ) → IsValid db → IsValid (set_initialized db id).0
unfolding set_initialized
set_initialized-IsValid db id v =
    update_at-IsValid db id _ v (λ t w. omega (arith, set_bit-lt t.status 2))

pub set_yielded-IsValid : (db : Db) (id : ℕ) → IsValid db → IsValid (set_yielded db id).0
unfolding set_yielded
set_yielded-IsValid db id v =
    update_at-IsValid db id _ v (λ t w. omega (arith, set_bit-lt t.status 4))

start_record-IsThread :
    (rl : RunLevel) (t : Thread) → rl < rl_level_count → IsThread t → IsThread (start_record rl t)
unfolding start_record
start_record-IsThread rl t h w = ground arith

pub thread_start-IsValid :
    (db : Db) (id : ℕ) (rl : RunLevel)
    → rl < rl_level_count
    → IsValid db
    → IsValid (thread_start db id rl).0
unfolding thread_start
thread_start-IsValid db id rl h v =
    update_at-IsValid db id _ v (λ t w. start_record-IsThread rl t h w)

pub thread_stop-IsValid : (db : Db) (id : ℕ) → IsValid db → IsValid (thread_stop db id).0
unfolding thread_stop
thread_stop-IsValid db id v = update_at-IsValid db id _ v (λ t w. omega arith)
