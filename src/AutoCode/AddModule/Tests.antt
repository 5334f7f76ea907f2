-- ===== src/AutoCode/AddModule/Tests.antt =====
-- A driver with an address, and the same name again.
use task_mate.Common.{ℕ, ◌≡◌, refl, Bool, true, false, List, [], ◌∷◌, arith, ◌==◌, if◌then◌else◌}
use task_mate.AutoCode.AddModule.{
  Database, ModuleItem, Text, initrc_add_module, add_typed, module_options_parse, options_loop,
  apply_option, option_function, option_run, option_i2c, row_of, same_text, module_init,
  module_options_validate, fits_cardinality, module_add, has_name,
}
use task_mate.AutoCode.AddModule.Kept.{IsAdded, IsDistinct, IsDatabase, initrc_add_module-IsAdded}

abbrev number : ℕ → Text → ℕ × Bool
number base text = if base == 16 then (0x68, true) else (512, true)

abbrev exists_always : Bool → Text → Bool
exists_always directory text = true

abbrev empty : Database
empty = record {
  drivers = [];
  threads = [];
  module_count_max = 8;
  module_count = 0;
  module_count_width = 8;
  module_count_set = true;
  error_count_max = 0;
  error_count = 0;
  error_count_width = 0;
  error_count_set = false;
  scli = [];
}

abbrev rtc : Text
rtc = b'r' ∷ b't' ∷ b'c' ∷ []

-- addModule driver rtc -run core -i2c 68 -source_file x
abbrev line : List Text
line =
    []
    ∷ (b'd' ∷ b'r' ∷ b'i' ∷ b'v' ∷ b'e' ∷ b'r' ∷ [])
    ∷ rtc
    ∷ (b'-' ∷ b'r' ∷ b'u' ∷ b'n' ∷ [])
    ∷ (b'c' ∷ b'o' ∷ b'r' ∷ b'e' ∷ [])
    ∷ (b'-' ∷ b'i' ∷ b'2' ∷ b'c' ∷ [])
    ∷ (b'6' ∷ b'8' ∷ [])
    ∷ (b'-' ∷ b's' ∷ b'o' ∷ b'u' ∷ b'r' ∷ b'c' ∷ b'e' ∷ b'_' ∷ b'f' ∷ b'i' ∷ b'l' ∷ b'e' ∷ [])
    ∷ (b'x' ∷ [])
    ∷ []

empty-IsDatabase : IsDatabase empty
unfolding IsDistinct
empty-IsDatabase = (refl, omega arith, tt, tt, tt, tt)

initrc_add_module-IsAdded_example :
    IsAdded empty (initrc_add_module number exists_always line empty)
initrc_add_module-IsAdded_example =
    initrc_add_module-IsAdded number exists_always line empty empty-IsDatabase

abbrev rtc_module : ModuleItem
rtc_module = record {
  name = rtc;
  status = 0;
  run_level = 1;
  subtype = 0;
  address = 0x68;
  stack_size = 0;
}

one_driver :
    initrc_add_module number exists_always line empty
    ≡ (record empty { drivers = rtc_module ∷ []; module_count = 1 }, true)
unfolding initrc_add_module add_typed module_options_parse options_loop apply_option option_function
    option_run option_i2c row_of same_text module_init module_options_validate fits_cardinality
    module_add has_name
one_driver = refl

-- A second driver of that name is refused.
named_twice :
    (initrc_add_module number exists_always line
      (record empty { drivers = rtc_module ∷ []; module_count = 1 })).1
    ≡ false
unfolding initrc_add_module add_typed module_options_parse options_loop apply_option option_function
    option_run option_i2c row_of same_text module_init module_options_validate fits_cardinality
    module_add has_name
named_twice = refl
