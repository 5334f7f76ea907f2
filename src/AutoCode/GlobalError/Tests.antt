-- ===== src/AutoCode/GlobalError/Tests.antt =====
-- A flow error, one with a message, and a name that is there already.
use task_mate.Common.{ℕ, ◌≡◌, refl, Option, some, List, [], ◌∷◌, arith}
use task_mate.AutoCode.AddModule.{same_text, row_of}
use task_mate.AutoCode.GlobalError.{
  flow, warn, empty_message, has_error, level_of, add_error, error_line, global_error,
}
use task_mate.AutoCode.GlobalError.Kept.{IsExtended, IsDistinct, IsCatalog, global_error-IsExtended}
use task_mate.TmLibc.Str.{Text}

abbrev entry : ℕ → Text → Text → Option (List Text)
entry letter message level = some ((letter ∷ []) ∷ message ∷ level ∷ [])

abbrev flow_text : Text
flow_text = b'F' ∷ b'L' ∷ b'O' ∷ b'W' ∷ []

abbrev warn_text : Text
warn_text = b'W' ∷ b'A' ∷ b'R' ∷ b'N' ∷ []

abbrev lines : List (Option (List Text))
lines =
    entry b'a' empty_message flow_text
    ∷ entry b'b' (34 ∷ b'x' ∷ 34 ∷ []) flow_text
    ∷ entry b'a' empty_message warn_text
    ∷ entry b'c' (34 ∷ b'x' ∷ 34 ∷ []) warn_text
    ∷ []

none-IsCatalog : IsCatalog []
unfolding IsDistinct
none-IsCatalog = (omega arith, tt, tt)

global_error-IsExtended_example : IsExtended [] (global_error lines [])
global_error-IsExtended_example = global_error-IsExtended lines [] none-IsCatalog

two_entries :
    global_error lines []
    ≡ record { name = b'a' ∷ []; message = empty_message; level = flow }
      ∷ record { name = b'c' ∷ []; message = 34 ∷ b'x' ∷ 34 ∷ []; level = warn }
      ∷ []
unfolding global_error error_line add_error has_error level_of row_of same_text
two_entries = refl
