-- ===== src/AutoCode/GlobalError.antt =====
-- srcs/autoCode/globalError.c: the catalogue of the errors. A file is the list of the tokens of its
-- lines; a message of an error changes nothing here.
pub mod Kept
mod Tests
use mathlib.Core.Option
use task_mate.Common.{
  ℕ, ◌+◌, ◌-◌, Bool, true, false, ◌||◌, Option, none, some, List, [], ◌∷◌, ◌++◌, leb, ◌==◌,
  if◌then◌else◌, length,
}
use task_mate.AutoCode.AddModule.{same_text, row_of}
use task_mate.AutoCode.ParseTag.{autocode_size_buffer}
use task_mate.TmLibc.Str.{Text}

-- `error_item_t`
pub data ErrLevel : Type 0 where
  flow warn fail panic : ErrLevel

pub record ErrorItem : Type 0 where
  pub name : Text
  pub message : Text
  pub level : ErrLevel

-- `GLOBALERROR_COUNT_MAX`
abbrev pub globalerror_count_max : ℕ
globalerror_count_max = 256

-- The names of the levels
abbrev pub err_levels : List (Text × ErrLevel)
err_levels =
    ((b'F' ∷ b'L' ∷ b'O' ∷ b'W' ∷ []), flow)
    ∷ ((b'W' ∷ b'A' ∷ b'R' ∷ b'N' ∷ []), warn)
    ∷ ((b'F' ∷ b'A' ∷ b'I' ∷ b'L' ∷ []), fail)
    ∷ ((b'P' ∷ b'A' ∷ b'N' ∷ b'I' ∷ b'C' ∷ []), panic)
    ∷ []

-- The text of an empty message, two quotes
abbrev pub empty_message : Text
empty_message = 34 ∷ 34 ∷ []

-- The loop for a duplicate
unfoldable pub has_error : Text → List ErrorItem → Bool
has_error name [] = false
has_error name (item ∷ items) =
    let rest = has_error name items in if same_text name item.name then true else rest

-- The level of an entry; `none` is a level that there is not, or a flow error with a message.
unfoldable pub level_of : Text → Text → Option ErrLevel
unfolding row_of same_text
level_of message text = elim (row_of text err_levels) [
  | none ↦ none
  | some flow ↦ if same_text message empty_message then some flow else none
  | some warn ↦ some warn
  | some fail ↦ some fail
  | some panic ↦ some panic
]

-- The body of the loop of `globalError` on an entry: the entries that are exposed
unfoldable pub add_error : Text → Text → Text → List ErrorItem → List ErrorItem
unfolding has_error level_of
add_error name message level catalog =
    if leb globalerror_count_max (length catalog)
    then catalog
    else if has_error name catalog
    then catalog
    else if leb (autocode_size_buffer - 1) (length name)
        || leb (autocode_size_buffer - 1) (length message)
    then catalog
    else elim (level_of message level) [
      | none ↦ catalog
      | some l ↦ catalog ++ record { name = name; message = message; level = l } ∷ []
    ]

-- The body on any line: `none` is a line that the tokenizer refuses, and a comment begins with `#`.
abbrev pub is_comment : Text → Bool
is_comment [] = false
is_comment (b ∷ bs) = b == b'#'

unfoldable pub error_line : Option (List Text) → List ErrorItem → List ErrorItem
unfolding add_error
error_line none catalog = catalog
error_line (some (name ∷ message ∷ level ∷ [])) catalog =
    if is_comment name then catalog else add_error name message level catalog
error_line (some _) catalog = catalog

-- The loop of `globalError` over the lines of a file
unfoldable pub global_error : List (Option (List Text)) → List ErrorItem → List ErrorItem
unfolding error_line
global_error [] catalog = catalog
global_error (line ∷ lines) catalog = global_error lines (error_line line catalog)
