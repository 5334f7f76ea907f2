-- ===== src/AutoCode/Initrc.antt =====
-- srcs/autoCode/parseInitrc.c with setInitrcVersion.c, setModuleCountMax.c, setErrorCountMax.c and
-- addScliCommand.c of initrcCommands: the lines of init.rc. A message of an error is counted by the
-- caller and changes nothing here.
pub mod Kept
mod Tests
use task_mate.Common.{
  ℕ, ◌+◌, ◌-◌, ◌/◌, Bool, true, false, not, ◌&&◌, ◌||◌, Option, none, some, List, [], ◌∷◌, ◌++◌,
  map, ltb, leb, ◌==◌, if◌then◌else◌, length, All, length-append,
}
use task_mate.AutoCode.AddModule.{
  mod_name_size_max, ScliEntry, Database, row_of, same_text, initrc_add_module,
}
use task_mate.AutoCode.GlobalError.{globalerror_count_max}
use task_mate.TmLibc.Str.{Text}

-- `AUTOCODE_VERSION_INITRCMAJOR` and `AUTOCODE_VERSION_INITRCMINOR`
pub record Version : Type 0 where
  pub major : ℕ
  pub minor : ℕ

-- `setupDatabase`
abbrev pub setup_database : Database
setup_database = record {
  drivers = [];
  threads = [];
  module_count_max = 0;
  module_count = 0;
  module_count_width = 0;
  module_count_set = false;
  error_count_max = 0;
  error_count = 0;
  error_count_width = 0;
  error_count_set = false;
  scli = [];
}

-- The variables of `parseInitrc`
pub record Parse : Type 0 where
  pub data_base : Database
  pub version_major_set : Bool
  pub version_minor_set : Bool
  pub version_invalid : Bool

-- The names that the commands have in init.rc
abbrev pub set_initrc_version : Text
set_initrc_version =
    b's' ∷ b'e' ∷ b't' ∷ b'I' ∷ b'n' ∷ b'i' ∷ b't' ∷ b'r' ∷ b'c' ∷ b'V' ∷ b'e' ∷ b'r' ∷ b's' ∷ b'i'
    ∷ b'o' ∷ b'n' ∷ []

abbrev pub major_option : Text
major_option = b'm' ∷ b'a' ∷ b'j' ∷ b'o' ∷ b'r' ∷ []

abbrev pub minor_option : Text
minor_option = b'm' ∷ b'i' ∷ b'n' ∷ b'o' ∷ b'r' ∷ []

abbrev pub set_module_count_max_name : Text
set_module_count_max_name =
    b's' ∷ b'e' ∷ b't' ∷ b'M' ∷ b'o' ∷ b'd' ∷ b'u' ∷ b'l' ∷ b'e' ∷ b'C' ∷ b'o' ∷ b'u' ∷ b'n' ∷ b't'
    ∷ b'M' ∷ b'a' ∷ b'x' ∷ []

abbrev pub comment : Text
comment = b'#' ∷ []

-- `initrc_commands`
pub data Command : Type 0 where
  add_module add_scli_command set_error_count_max set_module_count_max : Command

abbrev pub initrc_commands : List (Text × Command)
initrc_commands =
    ((b'a' ∷ b'd' ∷ b'd' ∷ b'M' ∷ b'o' ∷ b'd' ∷ b'u' ∷ b'l' ∷ b'e' ∷ []), add_module)
    ∷ (
      (b'a' ∷ b'd' ∷ b'd' ∷ b'S' ∷ b'c' ∷ b'l' ∷ b'i' ∷ b'C' ∷ b'o' ∷ b'm' ∷ b'm' ∷ b'a' ∷ b'n'
          ∷ b'd' ∷ []),
      add_scli_command,
    )
    ∷ (
      (b's' ∷ b'e' ∷ b't' ∷ b'E' ∷ b'r' ∷ b'r' ∷ b'o' ∷ b'r' ∷ b'C' ∷ b'o' ∷ b'u' ∷ b'n' ∷ b't'
          ∷ b'M' ∷ b'a' ∷ b'x' ∷ []),
      set_error_count_max,
    )
    ∷ (set_module_count_max_name, set_module_count_max)
    ∷ []

abbrev pub is_empty : Text → Bool
is_empty [] = true
is_empty (b ∷ bs) = false

-- `AUTOCODE_COUNT_SCLIMAX`
abbrev pub autocode_count_sclimax : ℕ
autocode_count_sclimax = 16

-- `initrcSetErrorCountMax`; a number out of range is not whole.
unfoldable pub initrc_set_error_count_max : (ℕ → Text → ℕ × Bool) → List Text → Database → Database
initrc_set_error_count_max strtoul (name ∷ count_text ∷ []) db =
    let (count, whole) = strtoul 10 count_text in
    let refused =
      is_empty count_text || not whole || count == 0 || ltb globalerror_count_max count in
    if db.error_count_set || refused || ltb count db.error_count then db else record db {
      error_count_max = count;
      error_count_width = if leb count 255 then 8 else 16;
      error_count_set = true;
    }
initrc_set_error_count_max strtoul _ db = db

-- `scli_command_definitions`: the names, and the functions of the commands
abbrev function_suffix : Text
function_suffix = b'C' ∷ b'o' ∷ b'm' ∷ b'm' ∷ b'a' ∷ b'n' ∷ b'd' ∷ []

abbrev command_names : List Text
command_names =
    (b'd' ∷ b'a' ∷ b't' ∷ b'e' ∷ [])
    ∷ (b'd' ∷ b'r' ∷ b'i' ∷ b'v' ∷ b'e' ∷ b'r' ∷ [])
    ∷ (b'i' ∷ b'2' ∷ b'c' ∷ [])
    ∷ (b's' ∷ b't' ∷ b'a' ∷ b'c' ∷ b'k' ∷ [])
    ∷ (b't' ∷ b'h' ∷ b'r' ∷ b'e' ∷ b'a' ∷ b'd' ∷ [])
    ∷ []

abbrev pub scli_command_definitions : List (Text × Text)
scli_command_definitions = map (λ name. (name, name ++ function_suffix)) command_names

-- The path of the header of a command, below the sources
abbrev pub header_path : Text → Text
header_path name =
    (b's' ∷ b'y' ∷ b's' ∷ b't' ∷ b'e' ∷ b'm' ∷ b'/' ∷ b's' ∷ b'e' ∷ b'r' ∷ b'v' ∷ b'i' ∷ b'c' ∷ b'e'
      ∷ b's' ∷ b'/' ∷ b'c' ∷ b'o' ∷ b'm' ∷ b'm' ∷ b'a' ∷ b'n' ∷ b'd' ∷ b's' ∷ b'/' ∷ b's' ∷ b'c'
      ∷ b'l' ∷ b'i' ∷ b'_' ∷ [])
    ++ (name ++ b'.' ∷ b'h' ∷ [])

abbrev pub source_file_option : Text
source_file_option =
    b'-' ∷ b's' ∷ b'o' ∷ b'u' ∷ b'r' ∷ b'c' ∷ b'e' ∷ b'_' ∷ b'f' ∷ b'i' ∷ b'l' ∷ b'e' ∷ []

-- The loop of `initrcAddScliCommand` for a duplicate
unfoldable pub has_command : Text → List ScliEntry → Bool
has_command name [] = false
has_command name (entry ∷ entries) =
    let rest = has_command name entries in if same_text entry.command_name name then true else rest

-- What `initrcAddScliCommand` does with a command that it knows
unfoldable pub add_command : Text → Text → Database → Database
unfolding has_command
add_command name function db =
    if has_command name db.scli
    then db
    else if leb autocode_count_sclimax (length db.scli)
    then db
    else record db { scli = db.scli ++ record { command_name = name; function = function } ∷ [] }

-- `initrcAddScliCommand`
unfoldable pub initrc_add_scli_command : (Bool → Text → Bool) → List Text → Database → Database
unfolding add_command row_of
initrc_add_scli_command source_exists (command ∷ name ∷ option ∷ source ∷ []) db =
    if not (same_text option source_file_option)
      || leb (mod_name_size_max - 1) (length name)
      || not (source_exists false (header_path name))
      || not (source_exists false source)
    then db
    else elim (row_of name scli_command_definitions) [
      | none ↦ db
      | some function ↦ add_command name function db
    ]
initrc_add_scli_command source_exists _ db = db

-- The loop goes on or is left.
abbrev pub go_on : (Parse → Parse) → Parse × Bool → Parse
go_on k (p, true) = k p
go_on k (p, false) = p

module _ (strtoul : ℕ → Text → ℕ × Bool) (source_exists : Bool → Text → Bool) where
  -- `versionValueMatches`; a number out of range is the greatest there is, and no version.
  unfoldable pub version_value_matches : Text → ℕ → Bool
  version_value_matches value expected =
      let (parsed, whole) = strtoul 10 value in not (is_empty value) && whole && parsed == expected

  -- `initrcVersionCommand` with `initrcSetInitrcVersion`, on the tokens of the line: the name of the
  -- command, its option and its value, and no other
  unfoldable pub initrc_version_command : Text → ℕ → List Text → Bool
  unfolding version_value_matches
  initrc_version_command option expected (name ∷ option_ ∷ value ∷ []) =
      same_text name set_initrc_version
      && same_text option_ option
      && version_value_matches value expected
  initrc_version_command option expected _ = false

  -- `initrcSetModuleCountMax`
  unfoldable pub initrc_set_module_count_max : List Text → Database → Database
  initrc_set_module_count_max (name ∷ count_text ∷ []) db =
      let (count, whole) = strtoul 10 count_text in
      if db.module_count_set || is_empty count_text || not whole || count == 0 || ltb 65535 count
      then db
      else record db {
        module_count_max = count;
        module_count_width = if leb count 255 then 8 else 16;
        module_count_set = true;
      }
  initrc_set_module_count_max _ db = db

  -- `initrcCommandDispatch` on a line that begins with this name
  unfoldable pub initrc_command_dispatch : Text → List Text → Database → Database
  unfolding initrc_set_module_count_max initrc_set_error_count_max initrc_add_scli_command
  initrc_command_dispatch name tokens db = elim (row_of name initrc_commands) [
    | none ↦ db
    | some command ↦ elim command [
      | add_module ↦ (initrc_add_module strtoul source_exists tokens db).0
      | set_module_count_max ↦ initrc_set_module_count_max tokens db
      | add_scli_command ↦ initrc_add_scli_command source_exists tokens db
      | set_error_count_max ↦ initrc_set_error_count_max strtoul tokens db
    ]
  ]

  -- The body of the loop of `parseInitrc` on a line with tokens: the state, and whether the loop
  -- goes on
  unfoldable pub parse_command : Version → Text → List Text → Parse → Parse × Bool
  unfolding initrc_version_command initrc_command_dispatch
  parse_command version name tokens p =
      if not p.version_major_set
      then (if initrc_version_command major_option version.major tokens
          then (record p { version_major_set = true }, true)
          else (record p { version_invalid = true }, false))
      else if not p.version_minor_set
      then (if initrc_version_command minor_option version.minor tokens
          then (record p { version_minor_set = true }, true)
          else (record p { version_invalid = true }, false))
      else if same_text name set_initrc_version
      then (record p { version_invalid = true }, false)
      else (record p { data_base = initrc_command_dispatch name tokens p.data_base }, true)

  -- The body on any line; `none` is a line that the tokenizer refuses.
  unfoldable pub parse_line : Version → Option (List Text) → Parse → Parse × Bool
  unfolding parse_command
  parse_line version none p =
      if not p.version_major_set || not p.version_minor_set
      then (record p { version_invalid = true }, false)
      else (p, true)
  parse_line version (some []) p = (p, true)
  parse_line version (some (name ∷ rest)) p =
      if same_text name comment then (p, true) else parse_command version name (name ∷ rest) p

  -- The loop over the lines of the file
  unfoldable pub lines_loop : Version → List (Option (List Text)) → Parse → Parse
  unfolding parse_line
  lines_loop version [] p = p
  lines_loop version (line ∷ lines) p = go_on (lines_loop version lines) (parse_line version line p)

  -- `parseInitrc` on the lines that the file has
  unfoldable pub parse_initrc : Version → List (Option (List Text)) → Database → Parse
  unfolding lines_loop
  parse_initrc version lines db = lines_loop version lines (record {
    data_base = db;
    version_major_set = false;
    version_minor_set = false;
    version_invalid = false;
  })
