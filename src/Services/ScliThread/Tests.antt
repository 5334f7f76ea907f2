-- ===== src/Services/ScliThread/Tests.antt =====
-- The `thread` command of scli_thread.c on small arguments.
use task_mate.Common.{◌≤◌, ◌≡◌, refl, ◌↔◌, none, some, [], ◌∷◌, arith, length}
use task_mate.Kernel.Samples.{sample_kernel, sample_thread}
use task_mate.Kernel.Threads.{get_pointer}
use task_mate.SysCall.Threads.{Catalog, get_id, find_name}
use task_mate.TmLibc.Str.{strncmp, strncmp_loop}
use task_mate.Services.ScliThread.Restart.{thread_start-thread_stop-name}
use task_mate.Services.ScliThread.{
  thread_start, thread_stop, started, stopped, level_loop, thread_run_level_parse,
}
use task_mate.Services.ScliThread.Level.{Spells, thread_run_level_parse_iff}
use task_mate.TmLibc.Str.{Text}

abbrev padded_three : Text
padded_three = b'0' ∷ b'0' ∷ b'3' ∷ []

thread_run_level_parse_iff_example :
    (thread_run_level_parse padded_three ≡ some 3)
    ↔ ((1 ≤ length padded_three) × Spells 3 0 padded_three 3)
thread_run_level_parse_iff_example = thread_run_level_parse_iff padded_three 3

accepted : thread_run_level_parse padded_three ≡ some 3
unfolding thread_run_level_parse level_loop
accepted = refl

refused : thread_run_level_parse (b'5' ∷ []) ≡ none
unfolding thread_run_level_parse level_loop
refused = refl

abbrev scli : Text
scli = b's' ∷ b'c' ∷ b'l' ∷ b'i' ∷ []

abbrev catalog : Catalog
catalog = some (b'i' ∷ b'd' ∷ b'l' ∷ b'e' ∷ []) ∷ none ∷ some scli ∷ []

scli_found : get_id catalog (some scli) ≡ some 2
unfolding get_id find_name strncmp strncmp_loop
scli_found = refl

third_found : get_pointer sample_kernel.db 2 ≡ some (sample_thread 4 300)
unfolding get_pointer
third_found = refl

thread_start-thread_stop-name_example :
    ((thread_stop catalog 3 scli sample_kernel).1 ≡ stopped scli ∷ [])
    × ((thread_start catalog 3 scli [] (thread_stop catalog 3 scli sample_kernel).0).1
        ≡ started scli ∷ [])
    × (get_pointer
          (thread_start catalog 3 scli [] (thread_stop catalog 3 scli sample_kernel).0).0.db
          2
        ≡ some (record (sample_thread 4 300) { saved_run_level = 4 }))
thread_start-thread_stop-name_example =
    thread_start-thread_stop-name catalog scli [] sample_kernel 2 scli_found third_found
      (omega arith)
