-- ===== src/Kernel/StackDepth.antt =====
-- srcs/system/sysCore/sys_threads.c: `mod_threadStackDepthGet`, which samples a stack from its far
-- end for words that still hold the fill pattern.
pub mod Scan
pub mod Depth
pub mod Fresh
mod Tests
use mathlib.Core.Option
use task_mate.Common.{
  ℕ, zero, suc, ◌+◌, ◌-◌, ◌*◌, ◌/◌, Bool, not, Option, none, some, List, map, leb, ◌==◌,
  if◌then◌else◌, u16, get_or,
}
use task_mate.Kernel.Threads.{
  Thread, Db, get_pointer, mod_stack_pattern, mod_stack_canary_word_count,
  mod_stack_first_usable_index,
}

abbrev pub systhreads_stack_scan_sample_count : ℕ
systhreads_stack_scan_sample_count = 128

-- `stack[index + MOD_STACK_FIRST_USABLE_INDEX]`
abbrev pub word_at : List ℕ → ℕ → ℕ
word_at stack index = get_or stack (index + mod_stack_first_usable_index) 0

-- The `while` of `mod_threadStackDepthGet` gives `confirmed_unused_words`. Each round takes one
-- unit of fuel; `none` means that it ran out.
unfoldable pub scan : ℕ → List ℕ → ℕ → ℕ → ℕ → ℕ → Option ℕ
scan zero stack usable step confirmed index = none
scan (suc fuel) stack usable step confirmed index =
    let confirmed' = u16 (index + 1) in
    let remaining = u16 (usable + 65536 - confirmed') in
    let next = if leb remaining step then u16 (usable + 65536 - 1) else u16 (index + step) in
    let rest = scan fuel stack usable step confirmed' next in
    if leb usable index
    then some confirmed
    else if not (word_at stack index == mod_stack_pattern)
    then some confirmed
    else if confirmed' == usable
    then some confirmed'
    else rest

abbrev pub usable_words : Thread → ℕ
usable_words t = u16 (t.stack_size + 65536 - mod_stack_canary_word_count)

abbrev pub scan_step : Thread → ℕ
scan_step t =
    let step = t.stack_size / systhreads_stack_scan_sample_count in if step == 0 then 1 else step

-- `mod_threadStackDepthGet`, `ask` being whether the output pointer is there; the loop has a unit
-- of fuel for each usable word and one more.
unfoldable pub stack_depth_get : Db → ℕ → Bool → Option ℕ
stack_depth_get db id ask = elim (get_pointer db id) [
  | none ↦ none
  | some t ↦
      if ask
      then Option.map (λ confirmed. u16 ((usable_words t - confirmed) * 1))
          (scan (usable_words t + 1) t.stack (usable_words t) (scan_step t) 0 0)
      else none
]
