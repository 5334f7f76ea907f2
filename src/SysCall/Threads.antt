-- ===== src/SysCall/Threads.antt =====
-- srcs/system/sysCall/sc_threads.c. `hal_atomicStart` and `hal_atomicEnd` make a call one step of
-- the kernel; the name catalogue is generated, and a parameter here.
pub mod Names
pub mod Yield
pub mod Reach
mod Tests
use task_mate.Common.{
  ℕ, suc, Bool, true, false, not, ◌||◌, Option, none, some, List, [], ◌∷◌, leb, ◌==◌, if◌then◌else◌,
  get_or, is_zero,
}
use task_mate.Interfaces.{RunLevel, rl_run_none, rl_level_count}
use task_mate.Kernel.Threads.{Db, mod_thread_count, get_current}
use task_mate.Kernel.Threads as Db
use task_mate.Kernel.StackDepth.{stack_depth_get}
use task_mate.Kernel.Scheduler.{Kernel, scheduler_rr, halted, looping, resumed}
use task_mate.Kernel.Scheduler as Sched
use task_mate.TmLibc.Str.{Text, strncmp}

-- `thread_name_catalog`: an entry may be NULL.
abbrev pub Catalog : Type 0
Catalog = List (Option Text)

abbrev pub mod_name_size_max : ℕ
mod_name_size_max = 32

-- A kernel call that works on the database alone.
abbrev pub on_db : Kernel → Db × Bool → Kernel × Bool
on_db k r = (record k { db = r.0 }, r.1)

unfoldable pub sc_run_level_get : Kernel → RunLevel
sc_run_level_get k = Sched.run_level_get k

unfoldable pub sc_run_level_set : Kernel → RunLevel → Kernel × Bool
sc_run_level_set k run_level = Sched.run_level_set k run_level

unfoldable pub sc_set_stc : Kernel → ℕ → Kernel × Bool
sc_set_stc k count = on_db k (Db.set_stc k.db count)

-- `sc_threadGetSTCChecked`; `ask` is whether the output pointer is there.
unfoldable pub sc_get_stc_checked : Kernel → Bool → Option ℕ
sc_get_stc_checked k ask = if not ask then none else Db.get_stc k.db true

-- `sc_threadGetSTC`
unfoldable pub sc_get_stc : Kernel → ℕ
sc_get_stc k = elim (sc_get_stc_checked k true) [ none ↦ 0 | some count ↦ count ]

unfoldable pub sc_set_next_start_delay_ms : Kernel → ℕ → Kernel × Bool
sc_set_next_start_delay_ms k delay_ms = on_db k (Db.set_next_start_delay_ms k.db delay_ms)

unfoldable pub sc_set_wcet_100us : Kernel → ℕ → Kernel × Bool
sc_set_wcet_100us k ticks = on_db k (Db.set_wcet_100us k.db ticks)

unfoldable pub sc_set_dead_line_100us : Kernel → ℕ → Kernel × Bool
sc_set_dead_line_100us k ticks = on_db k (Db.set_dead_line_100us k.db ticks)

unfoldable pub sc_get_count : Kernel → ℕ
sc_get_count k = mod_thread_count k.db

-- What `sc_threadGetInfo` writes through its pointers.
pub record Info : Type 0 where
  pub name : Text
  pub run_level : RunLevel
  pub stack_size_bytes : ℕ

-- `sc_threadGetInfo`; `ask` is whether all three output pointers are there, `none` is false.
unfoldable pub sc_get_info : Catalog → Kernel → ℕ → Bool → Option Info
sc_get_info catalog k id ask =
    if leb (mod_thread_count k.db) id || not ask
    then none
    else elim (Db.run_level_get k.db id true) [
      | none ↦ none
      | some run_level ↦ elim (Db.stack_size_get k.db id true) [
        | none ↦ none
        | some size ↦ elim (get_or catalog id none) [
          | none ↦ none
          | some name ↦
              some (record { name = name; run_level = run_level; stack_size_bytes = size })
        ]
      ]
    ]

-- `sc_threadGetStackDepth`
unfoldable pub sc_get_stack_depth : Kernel → ℕ → Bool → Option ℕ
sc_get_stack_depth k id ask =
    if leb (mod_thread_count k.db) id || not ask then none else stack_depth_get k.db id true

unfoldable pub sc_set_initialized : Kernel → Kernel × Bool
sc_set_initialized k = on_db k (Db.set_initialized k.db (get_current k.db))

-- The loop of `sc_threadGetId`, at entry `i`.
unfoldable pub find_name : ℕ → Catalog → Text → Option ℕ
find_name i [] name = none
find_name i (entry ∷ rest) name =
    let more = find_name (suc i) rest name in
    elim entry [
      | none ↦ more
      | some thread_name ↦
          if is_zero (strncmp thread_name name mod_name_size_max) then some i else more
    ]

-- `sc_threadGetId`; the name may be NULL.
unfoldable pub get_id : Catalog → Option Text → Option ℕ
get_id catalog none = none
get_id catalog (some name) = find_name 0 catalog name

unfoldable pub sc_thread_start : Catalog → Kernel → Option Text → RunLevel → Kernel × Bool
sc_thread_start catalog k name initial_run_level =
    if leb rl_level_count initial_run_level then (k, false) else elim (get_id catalog name) [
      | none ↦ (k, false)
      | some id ↦ on_db k (Db.thread_start k.db id initial_run_level)
    ]

unfoldable pub sc_thread_stop : Catalog → Kernel → Option Text → Kernel × Bool
sc_thread_stop catalog k name = elim (get_id catalog name) [
  | none ↦ (k, false)
  | some id ↦ on_db k (Db.thread_stop k.db id)
]

unfoldable pub sc_run_level_is_ready : Kernel → RunLevel → Bool
sc_run_level_is_ready k run_level =
    if run_level == rl_run_none || leb rl_level_count run_level
    then false
    else Db.run_level_is_ready k.db run_level

-- The loop of `sc_coopYield` that waits for the yielded bit of thread `id` to be cleared, the
-- interrupts that come meanwhile being given; `none` is a call that has not come back.
unfoldable pub yield_wait : List (ℕ × ℕ) → ℕ → Kernel → Option (Kernel × Bool)
yield_wait [] id k = elim (Db.is_yielded k.db id true) [
  | none ↦ some (k, false)
  | some yielded ↦ if yielded then none else some (k, true)
]
yield_wait ((context, now) ∷ rest) id k =
    let more : Option (Kernel × Bool) = elim (scheduler_rr k context now) [
      | halted ↦ none
      | looping ↦ none
      | resumed k' _ ↦ yield_wait rest id k'
    ] in
    elim (Db.is_yielded k.db id true) [
      | none ↦ some (k, false)
      | some yielded ↦ if yielded then more else some (k, true)
    ]

-- `sc_coopYield`
unfoldable pub sc_coop_yield : List (ℕ × ℕ) → Kernel → Option (Kernel × Bool)
sc_coop_yield inputs k =
    let id = get_current k.db in
    let (db, marked) = Db.set_yielded k.db id in
    if marked then yield_wait inputs id (record k { db = db }) else some (k, false)
