-- ===== src/Kernel/Samples.antt =====
-- A small system on which the examples of the kernel's theorems run: three threads of
-- srcs/interfaces/tm_mod.h's record, the third above the run level of the scheduler.
use task_mate.Common.{ℕ, ◌<◌, ◌≡◌, refl, sym, ◌∙◌, true, List, [], ◌∷◌, arith, All-get_elem?}
use task_mate.Kernel.Threads.{Thread, Db, get_pointer}
use task_mate.Kernel.Threads.Frame.{get_pointer-eq}
use task_mate.Kernel.Threads.Valid.{IsThread, IsValid}
use task_mate.Kernel.Scheduler.{Kernel, canaries_intact, runnable}
use task_mate.Kernel.Scheduler.Select.{CanRun}
use task_mate.Kernel.Scheduler.Fair.{IsHealthy}

abbrev pub fresh_stack : List ℕ
fresh_stack = 0x5a ∷ 0xa5 ∷ 0xa5 ∷ 0xa5 ∷ 0xa5 ∷ 0x5a ∷ []

abbrev pub sample_thread : ℕ → ℕ → Thread
sample_thread level context = record {
  status = 0;
  run_level = level;
  saved_run_level = 0;
  entry = 0;
  software_time_counter = 5;
  last_stop_tick_100us = 0;
  next_start_delay_ms = 0;
  wcet_ticks_100us = 0;
  dead_line_100us = 0;
  context = context;
  stack = fresh_stack;
  stack_size = 6;
}

abbrev pub sample_db : Db
sample_db = record {
  threads = sample_thread 1 100 ∷ sample_thread 2 200 ∷ sample_thread 4 300 ∷ [];
  current = 1;
}

abbrev pub sample_kernel : Kernel
sample_kernel = record { db = sample_db; scheduler_run_level = 2; scheduler_stc_tick_count = 9 }

pub sample_thread-IsThread :
    (level context : ℕ) → level < 5 → IsThread (sample_thread level context)
sample_thread-IsThread level context h = record {
  status_fits = omega arith;
  run_level_fits = h;
  saved_fits = omega arith;
  stc_fits = omega arith;
  room = omega arith;
  size_fits = omega arith;
  stack_length = refl;
}

pub sample_db-IsValid : IsValid sample_db
sample_db-IsValid = record {
  in_range = omega arith;
  count_fits = omega arith;
  each = (
    sample_thread-IsThread 1 100 (omega arith),
    (sample_thread-IsThread 2 200 (omega arith), (sample_thread-IsThread 4 300 (omega arith), tt)),
  );
}

pub sample_kernel-IsHealthy : IsHealthy sample_kernel
unfolding canaries_intact
sample_kernel-IsHealthy = record {
  valid = sample_db-IsValid;
  intact = λ id t e.
      All-get_elem? (λ u. canaries_intact u ≡ true) sample_db.threads id (refl, (refl, (refl, tt)))
        (sym (get_pointer-eq sample_db id) ∙ e);
}

pub sample_CanRun : CanRun sample_db 2 0
unfolding runnable get_pointer
sample_CanRun = (sample_thread 1 100, refl, refl)

pub current_CanRun : CanRun sample_db 2 1
unfolding runnable get_pointer
current_CanRun = (sample_thread 2 200, refl, refl)
