-- ===== src/Services/ScliThread.antt =====
-- srcs/system/services/commands/scli_thread.c: the `thread` command.
pub mod Level
pub mod Restart
mod Tests
use task_mate.Common.{
  ℕ, zero, suc, ◌+◌, ◌-◌, ◌*◌, Bool, true, false, not, ◌&&◌, ◌||◌, Option, none, some, List, [],
  ◌∷◌, ltb, leb, ◌==◌, if◌then◌else◌, u8, u16, is_zero,
}
use task_mate.Interfaces.{RunLevel, rl_run_none, rl_run_core, rl_level_count}
use task_mate.TmLibc.Str.{Text, strncmp}
use task_mate.Kernel.Scheduler.{Kernel}
use task_mate.SysCall.Threads.{
  Catalog, Info, sc_get_count, sc_get_info, sc_thread_start, sc_thread_stop,
}

abbrev pub is_digit : ℕ → Bool
is_digit ch = leb b'0' ch && leb ch b'9'

-- The two tests of `threadRunLevelParse` on the value
abbrev pub in_levels : ℕ → Option RunLevel
in_levels value = if ltb value rl_run_core || leb rl_level_count value then none else some value

-- The loop of `threadRunLevelParse` and the tests behind it, at the text that is left; `room`
-- digits may follow.
unfoldable pub level_loop : ℕ → Text → ℕ → Option RunLevel
level_loop room [] value = in_levels value
level_loop zero (ch ∷ text) value = none
level_loop (suc room) (ch ∷ text) value =
    let value' = u16 (value * 10 + u8 (ch - b'0')) in
    let rest = level_loop room text value' in
    if not (is_digit ch) then none else if ltb 255 value' then none else rest

-- `threadRunLevelParse`, with a place for the level
unfoldable pub thread_run_level_parse : Text → Option RunLevel
thread_run_level_parse [] = none
thread_run_level_parse (ch ∷ text) = level_loop 3 (ch ∷ text) 0

-- The lines that the handlers print
pub data Message : Type 0 where
  started not_started stopped not_found : Text → Message
  listed : Text → RunLevel → Message
  invalid_run_level usage heading : Message

abbrev pub Outcome : Type 0
Outcome = Kernel × List Message × Bool

-- `threadStart`; `name` and `level` are `argv[2]` and `argv[3]`.
unfoldable pub thread_start : Catalog → ℕ → Text → Text → Kernel → Outcome
thread_start catalog argc name level k =
    let run : RunLevel → Outcome = λ run_level.
      (let (k', ok) = sc_thread_start catalog k (some name) run_level in
        (k', (if ok then started name else not_started name) ∷ [], ok)) in
    if argc == 3
    then run rl_run_none
    else if argc == 4
    then elim (thread_run_level_parse level) [
      | none ↦ (k, invalid_run_level ∷ [], false)
      | some run_level ↦ run run_level
    ]
    else (k, usage ∷ [], false)

-- `threadStop`
unfoldable pub thread_stop : Catalog → ℕ → Text → Kernel → Outcome
thread_stop catalog argc name k =
    let (k', ok) = sc_thread_stop catalog k (some name) in
    if not (argc == 3)
    then (k, usage ∷ [], false)
    else (k', (if ok then stopped name else not_found name) ∷ [], ok)

-- The loop of `threadList`, `n` threads from `id` on
unfoldable pub list_loop : Catalog → Kernel → ℕ → ℕ → List Message × Bool
list_loop catalog k zero id = ([], true)
list_loop catalog k (suc n) id =
    let (lines, ok) = list_loop catalog k n (id + 1) in
    elim (sc_get_info catalog k id true) [
      | none ↦ ([], false)
      | some info ↦ (listed info.name info.run_level ∷ lines, ok)
    ]

-- `threadList`
unfoldable pub thread_list : Catalog → Kernel → Outcome
thread_list catalog k =
    let (lines, ok) = list_loop catalog k (sc_get_count k) 0 in (k, heading ∷ lines, ok)

-- The table `thread_cmd`
pub data ThreadCommand : Type 0 where
  start stop list help : ThreadCommand

abbrev pub thread_cmd : List (Text × ThreadCommand)
thread_cmd =
    ((b's' ∷ b't' ∷ b'a' ∷ b'r' ∷ b't' ∷ []), ThreadCommand.start)
    ∷ ((b's' ∷ b't' ∷ b'o' ∷ b'p' ∷ []), ThreadCommand.stop)
    ∷ ((b'l' ∷ b'i' ∷ b's' ∷ b't' ∷ []), list)
    ∷ ((b'h' ∷ b'e' ∷ b'l' ∷ b'p' ∷ []), help)
    ∷ []

-- The loop of `threadCommand` over the table, with `argv[1]`, `argv[2]` and `argv[3]`.
unfoldable pub thread_dispatch :
    List (Text × ThreadCommand) → Catalog → ℕ → Text → Text → Text → Kernel → Outcome
thread_dispatch [] catalog argc command name level k = (k, usage ∷ [], false)
thread_dispatch ((known, c) ∷ rest) catalog argc command name level k =
    let next = thread_dispatch rest catalog argc command name level k in
    let run : Outcome = elim c [
      | ThreadCommand.start ↦ thread_start catalog argc name level k
      | ThreadCommand.stop ↦ thread_stop catalog argc name k
      | list ↦ thread_list catalog k
      | help ↦ (k, usage ∷ [], true)
    ] in
    if is_zero (strncmp command known 255) then run else next

-- `threadCommand`
unfoldable pub thread_command : Catalog → ℕ → Text → Text → Text → Kernel → Outcome
thread_command catalog argc command name level k =
    if ltb argc 2
    then (k, usage ∷ [], false)
    else thread_dispatch thread_cmd catalog argc command name level k
