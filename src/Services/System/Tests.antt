-- ===== src/Services/System/Tests.antt =====
-- The startup of a system without drivers and threads: it comes up.
use task_mate.Common.{ℕ, ◌+◌, ◌≡◌, refl, [], arith}
use task_mate.Services.System.{
  next_level, Machine, Rest, system_start, start_loop, wait_round, system_run_level_start,
  system_run_level_is_ready, driver_levels_loop, thread_levels_loop, system_returned,
}
use task_mate.Kernel.Scheduler.{Kernel, run_level_get, run_level_set}
use task_mate.Services.System.Startup.{Ends, system_start-Ends}
use task_mate.SysCall.Drivers.{
  sc_driver_run_level_start, run_level_start_loop, sc_driver_run_level_is_ready,
  run_level_ready_loop,
}
use task_mate.SysCall.Threads.{sc_run_level_get, sc_run_level_set, sc_run_level_is_ready}
use task_mate.Kernel.Threads.{run_level_is_ready}

abbrev quiet_rest : Rest ℕ
quiet_rest = record {
  coop_yield = λ m. m;
  i2c_scan = λ d. d + 1;
  rtc_save_startup_time = λ d. d + 10;
}

abbrev empty_kernel : Kernel
empty_kernel = record {
  db = record { threads = []; current = 0 };
  scheduler_run_level = 1;
  scheduler_stc_tick_count = 0;
}

abbrev at_boot : Machine ℕ
at_boot = record { kernel = empty_kernel; drivers = 0 }

system_start-Ends_example : Ends quiet_rest [] (system_start quiet_rest [] 40 at_boot)
system_start-Ends_example = system_start-Ends quiet_rest [] 40 at_boot (λ m. refl) (omega arith)

comes_up :
    system_start quiet_rest [] 40 at_boot
    ≡ system_returned
        (record { kernel = record empty_kernel { scheduler_run_level = 4 }; drivers = 11 })
unfolding system_start start_loop next_level wait_round system_run_level_start
    system_run_level_is_ready driver_levels_loop thread_levels_loop sc_driver_run_level_start
    run_level_start_loop sc_driver_run_level_is_ready run_level_ready_loop sc_run_level_get
    sc_run_level_set sc_run_level_is_ready run_level_get run_level_set run_level_is_ready
comes_up = refl
