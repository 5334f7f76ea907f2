-- ===== src/AutoCode/AddModule.antt =====
-- srcs/autoCode/initrcCommands/addModule.c: the declaration of a driver, a service or a task in
-- init.rc. A message of an error and the count of the errors are one Boolean here.
pub mod Checked
pub mod Kept
mod Tests
use mathlib.Core.Option
use task_mate.Common.{
  ℕ, ◌+◌, ◌-◌, ◌%◌, Bool, true, false, not, ◌&&◌, ◌||◌, Option, none, some, List, [], ◌∷◌, ◌++◌,
  map, ltb, leb, ◌==◌, if◌then◌else◌, u8, u16, length, drop,
}
use task_mate.TmLibc.Str.{Text}
use task_mate.Common.Bits.{bit_mask}
use task_mate.Interfaces.{
  rl_run_none, RunLevel, drv_address_none, rl_run_core, rl_run_driver, rl_run_service, rl_run_user,
}
use task_mate.Hal.I2c.{drv_i2c_address_max}

-- `module_item_t`, whose `type` is the list that it stands in
pub record ModuleItem : Type 0 where
  pub name : Text
  pub status : ℕ
  pub run_level : RunLevel
  pub subtype : ℕ
  pub address : ℕ
  pub stack_size : ℕ

-- An entry of `commands` of `scli`, with the name of its function
pub record ScliEntry : Type 0 where
  pub command_name : Text
  pub function : Text

-- `modules_database_t`: the two lists of `modules_type`, and `scli`, whose count is its length
pub record Database : Type 0 where
  pub drivers : List ModuleItem
  pub threads : List ModuleItem
  pub module_count_max : ℕ
  pub module_count : ℕ
  pub module_count_width : ℕ
  pub module_count_set : Bool
  pub error_count_max : ℕ
  pub error_count : ℕ
  pub error_count_width : ℕ
  pub error_count_set : Bool
  pub scli : List ScliEntry

-- `add_module_type_t`, `add_module_option_t` and `option_cardinality_t`
pub data ModuleType : Type 0 where
  driver service task : ModuleType

pub data ModuleOption : Type 0 where
  i2c run source_dir source_file stack : ModuleOption

pub data Cardinality : Type 0 where
  forbidden optional required cumulative : Cardinality

-- `strcmp(left, right) == 0`
unfoldable pub same_text : Text → Text → Bool
same_text [] [] = true
same_text (a ∷ left) (b ∷ right) = let rest = same_text left right in if a == b then rest else false
same_text _ _ = false

-- The rows of `module_types`, and of `module_options` with its columns
abbrev module_types : List (Text × ModuleType)
module_types =
    ((b'd' ∷ b'r' ∷ b'i' ∷ b'v' ∷ b'e' ∷ b'r' ∷ []), driver)
    ∷ ((b's' ∷ b'e' ∷ b'r' ∷ b'v' ∷ b'i' ∷ b'c' ∷ b'e' ∷ []), service)
    ∷ ((b't' ∷ b'a' ∷ b's' ∷ b'k' ∷ []), task)
    ∷ []

abbrev pub module_options : List (Text × ModuleOption)
module_options =
    ((b'-' ∷ b'i' ∷ b'2' ∷ b'c' ∷ []), i2c)
    ∷ ((b'-' ∷ b'r' ∷ b'u' ∷ b'n' ∷ []), run)
    ∷ (
      (b'-' ∷ b's' ∷ b'o' ∷ b'u' ∷ b'r' ∷ b'c' ∷ b'e' ∷ b'_' ∷ b'd' ∷ b'i' ∷ b'r' ∷ []),
      source_dir,
    )
    ∷ (
      (b'-' ∷ b's' ∷ b'o' ∷ b'u' ∷ b'r' ∷ b'c' ∷ b'e' ∷ b'_' ∷ b'f' ∷ b'i' ∷ b'l' ∷ b'e' ∷ []),
      source_file,
    )
    ∷ ((b'-' ∷ b's' ∷ b't' ∷ b'a' ∷ b'c' ∷ b'k' ∷ []), stack)
    ∷ []

abbrev pub cardinality : ModuleType → ModuleOption → Cardinality
cardinality driver i2c = optional
cardinality driver run = required
cardinality driver stack = forbidden
cardinality service i2c = forbidden
cardinality service run = required
cardinality service stack = required
cardinality task i2c = forbidden
cardinality task run = required
cardinality task stack = required
cardinality t source_dir = cumulative
cardinality t source_file = cumulative

-- The first row of a table whose text this is
unfoldable pub row_of : {A : Type 0} → Text → List (Text × A) → Option A
unfolding same_text
row_of text [] = none
row_of text ((name, a) ∷ rows) =
    let rest = row_of text rows in if same_text text name then some a else rest

-- The names of the run levels in `optionRun`
abbrev run_levels : List (Text × RunLevel)
run_levels =
    ((b'n' ∷ b'o' ∷ b'n' ∷ b'e' ∷ []), rl_run_none)
    ∷ ((b'c' ∷ b'o' ∷ b'r' ∷ b'e' ∷ []), rl_run_core)
    ∷ ((b'd' ∷ b'r' ∷ b'i' ∷ b'v' ∷ b'e' ∷ b'r' ∷ []), rl_run_driver)
    ∷ ((b's' ∷ b'e' ∷ b'r' ∷ b'v' ∷ b'i' ∷ b'c' ∷ b'e' ∷ []), rl_run_service)
    ∷ ((b'u' ∷ b's' ∷ b'e' ∷ b'r' ∷ []), rl_run_user)
    ∷ []

abbrev thread_bit_type_user : ℕ
thread_bit_type_user = 0

abbrev thread_bit_type_sys : ℕ
thread_bit_type_sys = 1

-- The column of `module_types` with the subtype
abbrev pub subtype_of : ModuleType → ℕ
subtype_of driver = 0
subtype_of service = thread_bit_type_sys
subtype_of task = thread_bit_type_user

abbrev initial_status : ModuleType → ℕ
initial_status driver = 0
initial_status t = bit_mask (subtype_of t)

-- `moduleInit`
unfoldable pub module_init : ModuleType → ModuleItem
module_init t = record {
  name = [];
  status = initial_status t;
  run_level = rl_run_none;
  subtype = subtype_of t;
  address = drv_address_none;
  stack_size = 0;
}

-- How often each option was set: `option_count`
pub record OptionCount : Type 0 where
  pub i2c_count : ℕ
  pub run_count : ℕ
  pub source_dir_count : ℕ
  pub source_file_count : ℕ
  pub stack_count : ℕ

abbrev pub option_count : OptionCount → ModuleOption → ℕ
option_count c i2c = c.i2c_count
option_count c run = c.run_count
option_count c source_dir = c.source_dir_count
option_count c source_file = c.source_file_count
option_count c stack = c.stack_count

abbrev pub count_option : ModuleOption → OptionCount → OptionCount
count_option i2c c = record c { i2c_count = c.i2c_count + 1 }
count_option run c = record c { run_count = c.run_count + 1 }
count_option source_dir c = record c { source_dir_count = c.source_dir_count + 1 }
count_option source_file c = record c { source_file_count = c.source_file_count + 1 }
count_option stack c = record c { stack_count = c.stack_count + 1 }

abbrev pub no_options : OptionCount
no_options = record {
  i2c_count = 0;
  run_count = 0;
  source_dir_count = 0;
  source_file_count = 0;
  stack_count = 0;
}

-- `strtoul` of the C library, with the base and the text: the number, and whether it took the whole
-- text; and whether `optionSource` finds the path, as a directory or as a file.
module _ (strtoul : ℕ → Text → ℕ × Bool) (source_exists : Bool → Text → Bool) where
  abbrev is_empty : Text → Bool
  is_empty [] = true
  is_empty (b ∷ bs) = false

  -- `optionRun`; `none` is ADD_MODULE_INVALID_DATA.
  unfoldable pub option_run : Text → ModuleItem → Option ModuleItem
  option_run dat m = Option.map (λ rl. record m { run_level = rl }) (row_of dat run_levels)

  -- `optionI2c`
  unfoldable pub option_i2c : Text → ModuleItem → Option ModuleItem
  option_i2c dat m =
      let (address, whole) = strtoul 16 dat in
      if is_empty dat || not whole || ltb drv_i2c_address_max address
      then none
      else some (record m { address = u8 address })

  -- `optionStack`
  unfoldable pub option_stack : Text → ModuleItem → Option ModuleItem
  option_stack dat m =
      let (stack_size, whole) = strtoul 10 dat in
      if is_empty dat || not whole || stack_size == 0 || ltb 65535 stack_size
      then none
      else some (record m { stack_size = u16 stack_size })

  -- `optionSourceFile` and `optionSourceDir`
  abbrev option_source : Bool → Text → ModuleItem → Option ModuleItem
  option_source directory dat m = if source_exists directory dat then some m else none

  -- The function of a row of `module_options`
  unfoldable pub option_function : ModuleOption → Text → ModuleItem → Option ModuleItem
  unfolding option_run option_i2c option_stack
  option_function i2c dat m = option_i2c dat m
  option_function run dat m = option_run dat m
  option_function source_dir dat m = option_source true dat m
  option_function source_file dat m = option_source false dat m
  option_function stack dat m = option_stack dat m

  -- The body of the loop of `moduleOptionsParse` on a name and its value
  unfoldable pub apply_option :
      Text → Text → ModuleItem × OptionCount × Bool → ModuleItem × OptionCount × Bool
  unfolding option_function row_of
  apply_option name dat (m, counts, valid) = elim (row_of name module_options) [
    | none ↦ (m, counts, false)
    | some option ↦ elim (option_function option dat m) [
      | none ↦ (m, counts, false)
      | some m' ↦ (m', count_option option counts, valid)
    ]
  ]

  -- The loop of `moduleOptionsParse` over the pairs behind the header
  unfoldable pub options_loop :
      List Text → ModuleItem × OptionCount × Bool → ModuleItem × OptionCount × Bool
  unfolding apply_option
  options_loop (name ∷ dat ∷ rest) state = options_loop rest (apply_option name dat state)
  options_loop _ state = state

  -- `moduleOptionsParse` on all tokens of the line; `none` is false.
  unfoldable pub module_options_parse : List Text → ModuleItem → Option (ModuleItem × OptionCount)
  unfolding options_loop
  module_options_parse tokens m =
      let (m', counts, valid) = options_loop (drop 3 tokens) (m, no_options, true) in
      if ltb (length tokens) 5 || length tokens % 2 == 0
      then none
      else if valid
      then some (m', counts)
      else none

-- The tests of `moduleOptionsValidate` on the count of one option
unfoldable pub fits_cardinality : Cardinality → ℕ → Bool
fits_cardinality required n = not (n == 0) && leb n 1
fits_cardinality forbidden n = n == 0
fits_cardinality optional n = leb n 1
fits_cardinality cumulative n = true

-- `moduleOptionsValidate`
unfoldable pub module_options_validate : ModuleType → OptionCount → Bool
unfolding fits_cardinality
module_options_validate t c =
    fits_cardinality (cardinality t i2c) c.i2c_count
    && fits_cardinality (cardinality t run) c.run_count
    && fits_cardinality (cardinality t source_dir) c.source_dir_count
    && fits_cardinality (cardinality t source_file) c.source_file_count
    && fits_cardinality (cardinality t stack) c.stack_count
    && not (c.source_file_count + c.source_dir_count == 0)

-- `MOD_NAME_SIZE_MAX`, the size of `name` in `module_item_t`
abbrev pub mod_name_size_max : ℕ
mod_name_size_max = 32

-- The loop of `moduleAdd` for a duplicate
unfoldable pub has_name : Text → List ModuleItem → Bool
has_name name [] = false
has_name name (m ∷ ms) = let rest = has_name name ms in if same_text m.name name then true else rest

abbrev pub list_of : ModuleType → Database → List ModuleItem
list_of driver db = db.drivers
list_of _ db = db.threads

abbrev pub with_list : ModuleType → List ModuleItem → Database → Database
with_list driver ms db = record db { drivers = ms }
with_list _ ms db = record db { threads = ms }

-- `moduleAdd`, with whether the module was added
unfoldable pub module_add : ModuleType → Text → ModuleItem → Database → Database × Bool
unfolding has_name
module_add t name m db =
    let ms = list_of t db in
    if leb (mod_name_size_max - 1) (length name)
    then (db, false)
    else if has_name name ms
    then (db, false)
    else if leb db.module_count_max db.module_count
    then (db, false)
    else (
      record (with_list t (ms ++ record m { name = name } ∷ []) db) {
        module_count = db.module_count + 1;
      },
      true,
    )

-- `initrcAddModule`, on the tokens of the line
module _ (strtoul : ℕ → Text → ℕ × Bool) (source_exists : Bool → Text → Bool) where
  -- What follows the type of the module
  unfoldable pub add_typed : List Text → Text → ModuleType → Database → Database × Bool
  unfolding module_init module_options_parse module_options_validate module_add
  add_typed tokens name t db =
      elim (module_options_parse strtoul source_exists tokens (module_init t)) [
        | none ↦ (db, false)
        | some (m, counts) ↦
            if module_options_validate t counts then module_add t name m db else (db, false)
      ]

  unfoldable pub initrc_add_module : List Text → Database → Database × Bool
  unfolding add_typed
  initrc_add_module (command ∷ type_name ∷ name ∷ options) db =
      if not db.module_count_set then (db, false) else elim (row_of type_name module_types) [
        | none ↦ (db, false)
        | some t ↦ add_typed (command ∷ type_name ∷ name ∷ options) name t db
      ]
  initrc_add_module _ db = (db, false)
