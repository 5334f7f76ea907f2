-- ===== src/Kernel/Threads.antt =====
-- srcs/system/sysCore/sys_threads.c and sys_threads_data.h: the static thread database. A function
-- that returns `bool` beside an effect gives both; a NULL output pointer is an `ask` of `false`.
pub mod Frame
pub mod Valid
pub mod LifeCycle
mod Tests
use task_mate.Common.{
  ℕ, zero, suc, ◌+◌, ◌-◌, ◌/◌, ◌*◌, Bool, true, false, not, ◌&&◌, ◌||◌, Option, none, some, List,
  [], ◌∷◌, length, get_elem?, set, ltb, leb, ◌==◌, if◌then◌else◌, u16, map,
}
use task_mate.Common.Bits.{set_bit, get_bit}
use task_mate.Interfaces.{
  RunLevel, rl_run_none, thread_bit_initialized, thread_bit_dead, thread_bit_yielded,
}

abbrev pub mod_canary : ℕ
mod_canary = 0x5a

abbrev pub mod_stack_pattern : ℕ
mod_stack_pattern = 0xa5

abbrev pub mod_stack_canary_word_count : ℕ
mod_stack_canary_word_count = 2

abbrev pub mod_stack_first_usable_index : ℕ
mod_stack_first_usable_index = 1

abbrev pub mod_stack_low_canary_index : ℕ
mod_stack_low_canary_index = 0

-- `mod_thread_item_t`. `entry` is the function pointer `main`, `context` the address in
-- `hal_context_t`; a stack word is a byte (`hal_stack_word_t` of avr8 and ucontext).
pub record Thread : Type 0 where
  pub status : ℕ
  pub run_level : RunLevel
  pub saved_run_level : RunLevel
  pub entry : ℕ
  pub software_time_counter : ℕ
  pub last_stop_tick_100us : ℕ
  pub next_start_delay_ms : ℕ
  pub wcet_ticks_100us : ℕ
  pub dead_line_100us : ℕ
  pub context : ℕ
  pub stack : List ℕ
  pub stack_size : ℕ

-- The private variables `threads` and `thread_current`; MOD_THREAD_COUNT is the length.
pub record Db : Type 0 where
  pub threads : List Thread
  pub current : ℕ

abbrev pub mod_thread_count : Db → ℕ
mod_thread_count db = length db.threads

-- `mod_threadGetPointer`: `none` is NULL.
unfoldable pub get_pointer : Db → ℕ → Option Thread
get_pointer db id = if leb (mod_thread_count db) id then none else get_elem? db.threads id

-- A write through the pointer to record `id`.
abbrev pub put : Db → ℕ → Thread → Db
put db id t = record db { threads = set db.threads id t }

-- The pattern of the setters: look the record up, answer false on NULL, else write it.
abbrev pub update_at : Db → ℕ → (Thread → Thread) → Db × Bool
update_at db id f = elim (get_pointer db id) [
  | none ↦ (db, false)
  | some t ↦ (put db id (f t), true)
]

unfoldable pub set_current : Db → ℕ → Db × Bool
set_current db id =
    if leb (mod_thread_count db) id then (db, false) else (record db { current = id }, true)

unfoldable pub get_current : Db → ℕ
get_current db = db.current

unfoldable pub set_stc : Db → ℕ → Db × Bool
set_stc db count = update_at db db.current (λ t. record t { software_time_counter = count })

-- The getters: `ask` is whether the output pointer is there; `none` is the result false.
unfoldable pub get_stc : Db → Bool → Option ℕ
get_stc db ask = elim (get_pointer db db.current) [
  | none ↦ none
  | some t ↦ if ask then some t.software_time_counter else none
]

unfoldable pub tick : Thread → Thread
tick t =
    if ltb 0 t.software_time_counter
    then record t { software_time_counter = t.software_time_counter - 1 }
    else t

unfoldable pub tick_stc : Db → Db
tick_stc db = record db { threads = map tick db.threads }

unfoldable pub set_next_start_delay_ms : Db → ℕ → Db × Bool
set_next_start_delay_ms db delay_ms =
    update_at db db.current (λ t. record t { next_start_delay_ms = delay_ms })

unfoldable pub set_wcet_100us : Db → ℕ → Db × Bool
set_wcet_100us db ticks = update_at db db.current (λ t. record t { wcet_ticks_100us = ticks })

unfoldable pub set_dead_line_100us : Db → ℕ → Db × Bool
set_dead_line_100us db ticks = update_at db db.current (λ t. record t { dead_line_100us = ticks })

unfoldable pub run_level_get : Db → ℕ → Bool → Option RunLevel
run_level_get db id ask = elim (get_pointer db id) [
  | none ↦ none
  | some t ↦ if ask then some t.run_level else none
]

-- `sizeof(hal_stack_word_t)` is 1.
unfoldable pub stack_size_get : Db → ℕ → Bool → Option ℕ
stack_size_get db id ask = elim (get_pointer db id) [
  | none ↦ none
  | some t ↦ if ask then some (u16 (t.stack_size * 1)) else none
]

unfoldable pub set_initialized : Db → ℕ → Db × Bool
set_initialized db id =
    update_at db id (λ t. record t { status = set_bit t.status thread_bit_initialized })

start_record : RunLevel → Thread → Thread
start_record initial_run_level t =
    if t.saved_run_level == rl_run_none
    then record t { saved_run_level = initial_run_level }
    else record t { run_level = t.saved_run_level }

-- `mod_threadStart`
unfoldable pub thread_start : Db → ℕ → RunLevel → Db × Bool
unfolding start_record
thread_start db id initial_run_level = update_at db id (start_record initial_run_level)

-- `mod_threadStop`
unfoldable pub thread_stop : Db → ℕ → Db × Bool
thread_stop db id =
    update_at db id (λ t. record t { saved_run_level = t.run_level; run_level = rl_run_none })

-- The test of the loop in `mod_threadsRunLevelIsReady`: the record blocks the level.
unfoldable pub blocks : RunLevel → Thread → Bool
blocks run_level t =
    t.run_level == run_level
    && (not (get_bit t.status thread_bit_initialized) || get_bit t.status thread_bit_dead)

scan_ready : RunLevel → List Thread → Bool
scan_ready run_level [] = true
scan_ready run_level (t ∷ ts) = if blocks run_level t then false else scan_ready run_level ts

-- `mod_threadsRunLevelIsReady`
unfoldable pub run_level_is_ready : Db → RunLevel → Bool
unfolding scan_ready
run_level_is_ready db run_level = scan_ready run_level db.threads

unfoldable pub set_yielded : Db → ℕ → Db × Bool
set_yielded db id = update_at db id (λ t. record t { status = set_bit t.status thread_bit_yielded })

unfoldable pub is_yielded : Db → ℕ → Bool → Option Bool
is_yielded db id ask = elim (get_pointer db id) [
  | none ↦ none
  | some t ↦ if ask then some (get_bit t.status thread_bit_yielded) else none
]

-- The loop of `mod_threadStackInit`, `n` rounds from `stack_index` on.
unfoldable pub fill_stack : ℕ → ℕ → List ℕ → List ℕ
fill_stack zero stack_index stack = stack
fill_stack (suc n) stack_index stack =
    fill_stack n (stack_index + 1) (set stack stack_index mod_stack_pattern)

-- `mod_threadStackInit`
unfoldable pub stack_init : Thread → Thread
unfolding fill_stack
stack_init t =
    let filled = fill_stack t.stack_size 0 t.stack in
    let low = set filled mod_stack_low_canary_index mod_canary in
    record t { stack = set low (t.stack_size - mod_stack_first_usable_index) mod_canary }
