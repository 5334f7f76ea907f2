-- ===== src/Kernel/StackDepth/Tests.antt =====
-- The stack depth of sys_threads.c on small stacks.
use task_mate.Common.{
  ℕ, zero, suc, ◌+◌, ◌-◌, ◌≤◌, ◌<◌, ◌≡◌, refl, true, none, some, arith, get_or, replicate,
  length-replicate,
}
use task_mate.Kernel.Threads.{Thread, get_pointer, put, stack_init, mod_stack_pattern}
use task_mate.Kernel.Threads.Valid.{IsThread}
use task_mate.Kernel.StackDepth.{word_at, scan, usable_words, scan_step, stack_depth_get}
use task_mate.Kernel.StackDepth.Scan.{IsBoundary}
use task_mate.Kernel.StackDepth.Depth.{stack_depth_get_close, scan_beyond_samples}
use task_mate.Kernel.StackDepth.Fresh.{stack_depth_get-stack_init}
use task_mate.Kernel.Samples.{sample_db, sample_thread, sample_db-IsValid, sample_thread-IsThread}

found : get_pointer sample_db 2 ≡ some (sample_thread 4 300)
unfolding get_pointer
found = refl

small : (i : ℕ) → i < 4 → word_at (sample_thread 4 300).stack i ≡ mod_stack_pattern
small zero h = refl
small (suc zero) h = refl
small (suc (suc zero)) h = refl
small (suc (suc (suc zero))) h = refl
small (suc (suc (suc (suc i)))) h = absurd (omega arith)

unused : IsBoundary (sample_thread 4 300).stack 4 4
unused = record { within = omega arith; fresh = small; used = λ i p q. absurd (omega arith) }

stack_depth_get_close_example :
    (depth : ℕ) × (stack_depth_get sample_db 2 true ≡ some depth)
    × (4 - 4 ≤ depth)
    × (depth < 4 - 4 + 1)
    × (4 ≡ usable_words (sample_thread 4 300) → depth ≡ 0)
stack_depth_get_close_example = stack_depth_get_close sample_db 2 4 sample_db-IsValid found unused

stack_depth_get-stack_init_example :
    stack_depth_get (put sample_db 2 (stack_init (sample_thread 4 300))) 2 true ≡ some 0
stack_depth_get-stack_init_example =
    stack_depth_get-stack_init sample_db 2 (sample_thread 4 300) sample_db-IsValid
      (sample_thread-IsThread 4 300 (omega arith)) (omega arith)

abbrev long_thread : Thread
long_thread = record (sample_thread 4 300) {
  stack = replicate 200 mod_stack_pattern;
  stack_size = 200;
}

long-IsThread : IsThread long_thread
long-IsThread = record {
  status_fits = omega arith;
  run_level_fits = omega arith;
  saved_fits = omega arith;
  stc_fits = omega arith;
  room = omega arith;
  size_fits = omega arith;
  stack_length = length-replicate 200 mod_stack_pattern;
}

all_pattern : (n i : ℕ) → i < n → get_or (replicate n mod_stack_pattern) i 0 ≡ mod_stack_pattern
all_pattern zero i h = absurd (omega arith)
all_pattern (suc n) zero h = refl
all_pattern (suc n) (suc i) h = all_pattern n i (omega arith)

long_fresh :
    (i : ℕ) → i < usable_words long_thread → word_at long_thread.stack i ≡ mod_stack_pattern
long_fresh i h = all_pattern 200 (i + 1) (omega arith)

scan_beyond_samples_example :
    scan 128 long_thread.stack (usable_words long_thread) (scan_step long_thread) 0 0 ≡ none
scan_beyond_samples_example =
    scan_beyond_samples long_thread long-IsThread (omega arith) (omega arith) long_fresh
