-- ===== src/Kernel/Scheduler.antt =====
-- srcs/system/sysCore/sys_scheduler.c: the round-robin scheduler. The scheduling timer is a HAL
-- driver: its calls (INIT, START, load, callback) leave the state modelled here alone.
pub mod Select
pub mod Ticked
pub mod Interrupt
pub mod Resumed
pub mod Fair
mod Tests
use task_mate.Common.{
  ℕ, zero, suc, ◌+◌, ◌-◌, Bool, true, false, not, ◌&&◌, ◌||◌, Option, none, some, ltb, leb, ◌==◌,
  if◌then◌else◌, u8, get_or,
}
use task_mate.Common.Bits.{clear_bit}
use task_mate.Interfaces.{RunLevel, rl_run_none, rl_run_core, rl_level_count, thread_bit_yielded}
use task_mate.Kernel.Threads.{
  Thread, Db, mod_thread_count, get_pointer, put, get_current, set_current, tick_stc, mod_canary,
  mod_stack_low_canary_index, mod_stack_first_usable_index,
}

abbrev pub sysscheduler_count_callsperstc : ℕ
sysscheduler_count_callsperstc = 10

-- The thread database beside the private variables `scheduler_run_level` and
-- `scheduler_stc_tick_count`.
pub record Kernel : Type 0 where
  pub db : Db
  pub scheduler_run_level : RunLevel
  pub scheduler_stc_tick_count : ℕ

-- `tm_schedulerInit`
unfoldable pub scheduler_init : Kernel → Kernel
scheduler_init k = record k { scheduler_run_level = rl_run_core; scheduler_stc_tick_count = 0 }

-- How a call into the scheduler ends: in `hal_halt`, in a loop that does not end, or by handing a
-- context to the HAL.
pub data Outcome : Type 0 where
  halted looping : Outcome
  resumed : (k : Kernel) (context : ℕ) → Outcome

-- `tm_schedulerStart`
unfoldable pub scheduler_start : Kernel → Outcome
scheduler_start k = elim (get_pointer k.db 0) [ none ↦ halted | some t ↦ resumed k t.context ]

-- `tm_schedulerRunLevelSet`
unfoldable pub run_level_set : Kernel → RunLevel → Kernel × Bool
run_level_set k run_level =
    if ltb run_level rl_run_core
      || leb rl_level_count run_level
      || ltb run_level k.scheduler_run_level
    then (k, false)
    else (record k { scheduler_run_level = run_level }, true)

-- `tm_schedulerRunLevelGet`
unfoldable pub run_level_get : Kernel → RunLevel
run_level_get k = k.scheduler_run_level

-- `stack[LOW_CANARY] == MOD_CANARY` and `stack[stack_size - 1] == MOD_CANARY`
unfoldable pub canaries_intact : Thread → Bool
canaries_intact t =
    get_or t.stack mod_stack_low_canary_index 0 == mod_canary
    && get_or t.stack (t.stack_size - mod_stack_first_usable_index) 0 == mod_canary

-- The negation of the condition of the `do … while` in `tm_schedulerRR`.
unfoldable pub runnable : RunLevel → Thread → Bool
runnable level t = not (t.run_level == rl_run_none || ltb level t.run_level)

-- `if( ++current == MOD_THREAD_COUNT ) { current = 0U; }`, `current` being a byte
unfoldable pub advance : Db → ℕ → ℕ
advance db current = let up = u8 (current + 1) in if up == mod_thread_count db then 0 else up

-- The `do … while` of `tm_schedulerRR`, a unit of fuel for a round: `none` is a loop that goes on,
-- or a NULL thread, through which the source would read.
unfoldable pub select : ℕ → Db → RunLevel → ℕ → Option ℕ
select zero db level current = none
select (suc fuel) db level current =
    let next = advance db current in
    let rest = select fuel db level next in
    elim (get_pointer db next) [
      | none ↦ none
      | some t ↦ if runnable level t then some next else rest
    ]

-- Counting the interrupt: every tenth advances the software time.
unfoldable pub count_tick : Kernel → Kernel
count_tick k =
    let up = u8 (k.scheduler_stc_tick_count + 1) in
    if up == sysscheduler_count_callsperstc
    then record k { scheduler_stc_tick_count = 0; db = tick_stc k.db }
    else record k { scheduler_stc_tick_count = up }

-- From the switch of threads on.
unfoldable pub switch_to : Kernel → ℕ → Outcome
switch_to k current =
    let db = (set_current k.db current).0 in
    elim (get_pointer db current) [
      | none ↦ halted
      | some t ↦
          if not (canaries_intact t)
          then halted
          else resumed
              (record k {
                db = put db current (record t { status = clear_bit t.status thread_bit_yielded });
              })
              t.context
    ]

-- `tm_schedulerRR`, called by the timer with the context that it saved; `now` is what
-- `hal_timerMonotonicRead` returns.
unfoldable pub scheduler_rr : Kernel → ℕ → ℕ → Outcome
scheduler_rr k context now =
    let current = get_current k.db in
    elim (get_pointer k.db current) [
      | none ↦ halted
      | some t ↦
          let t' = record t { context = context; last_stop_tick_100us = now } in
          let saved = record k { db = put k.db current t' } in
          let ticked = count_tick saved in
          if not (canaries_intact t')
          then halted
          else elim (select (mod_thread_count ticked.db) ticked.db ticked.scheduler_run_level
              current) [ none ↦ looping | some next ↦ switch_to ticked next ]
    ]
