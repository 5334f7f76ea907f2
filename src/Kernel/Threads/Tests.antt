-- ===== src/Kernel/Threads/Tests.antt =====
-- Starting and stopping threads of sys_threads.c on a small database.
use task_mate.Common.{ℕ, ◌≡◌, refl, ◌↔◌, true, false, some, arith}
use task_mate.Kernel.Threads.{Thread, get_pointer, put, thread_start, thread_stop}
use task_mate.Kernel.Threads.LifeCycle.{
  Ready, thread_start-thread_stop, thread_start_stores_only, run_level_is_ready_iff,
}
use task_mate.Kernel.Samples.{sample_db, sample_thread}
use task_mate.Common.Bits.{get_bit}
use task_mate.Kernel.Threads.{run_level_is_ready, blocks}

found : get_pointer sample_db 2 ≡ some (sample_thread 4 300)
unfolding get_pointer
found = refl

thread_start-thread_stop_example :
    ((thread_stop sample_db 2).1 ≡ true)
    × ((thread_start (thread_stop sample_db 2).0 2 3).1 ≡ true)
    × (get_pointer (thread_start (thread_stop sample_db 2).0 2 3).0 2
        ≡ some (record (sample_thread 4 300) { saved_run_level = 4 }))
thread_start-thread_stop_example = thread_start-thread_stop sample_db 2 3 found (omega arith)

thread_start_stores_only_example :
    (thread_start sample_db 2 3
      ≡ (put sample_db 2 (record (sample_thread 4 300) { saved_run_level = 3 }), true))
    × (get_pointer (thread_start (thread_start sample_db 2 3).0 2 4).0 2
        ≡ some (record (sample_thread 4 300) { saved_run_level = 3; run_level = 3 }))
thread_start_stores_only_example = thread_start_stores_only sample_db 2 3 4 found refl (omega arith)

run_level_is_ready_iff_example :
    (run_level_is_ready sample_db 4 ≡ true)
    ↔ ((id : ℕ) (t : Thread) → get_pointer sample_db id ≡ some t → Ready 4 t)
run_level_is_ready_iff_example = run_level_is_ready_iff sample_db 4

-- No thread of the sample has said that it is initialized, and none runs at level 3.
not_ready : run_level_is_ready sample_db 4 ≡ false
unfolding run_level_is_ready blocks get_bit
not_ready = refl

none_waited_for : run_level_is_ready sample_db 3 ≡ true
unfolding run_level_is_ready blocks
none_waited_for = refl
