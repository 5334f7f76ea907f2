-- ===== src/AutoCode/Initrc/Tests.antt =====
-- An init.rc of four lines, and one that lacks its second line.
use task_mate.Common.{ℕ, ◌≡◌, refl, Bool, true, false, Option, some, List, [], ◌∷◌, arith, length}
use task_mate.AutoCode.AddModule.{row_of, same_text}
use task_mate.AutoCode.AddModule.Kept.{IsDistinct}
use task_mate.AutoCode.Initrc.{
  Version, setup_database, version_value_matches, initrc_version_command,
  initrc_set_module_count_max, initrc_command_dispatch, parse_command, parse_line, lines_loop,
  parse_initrc, major_option, minor_option, set_initrc_version, set_module_count_max_name,
}
use task_mate.AutoCode.Initrc.Kept.{IsOpened, IsParsed, parse_initrc-IsParsed}
use task_mate.TmLibc.Str.{Text}

abbrev number : ℕ → Text → ℕ × Bool
number base text = (length text, true)

abbrev exists_always : Bool → Text → Bool
exists_always directory text = true

abbrev one_two : Version
one_two = record { major = 1; minor = 2 }

abbrev version_line : Text → Text → Option (List Text)
version_line option value = some (set_initrc_version ∷ option ∷ value ∷ [])

abbrev count_line : Option (List Text)
count_line = some (set_module_count_max_name ∷ (b'1' ∷ b'6' ∷ b' ' ∷ []) ∷ [])

abbrev lines : List (Option (List Text))
lines =
    some []
    ∷ version_line major_option (b'1' ∷ [])
    ∷ version_line minor_option (b'1' ∷ b'2' ∷ [])
    ∷ count_line
    ∷ []

abbrev short_lines : List (Option (List Text))
short_lines = version_line major_option (b'1' ∷ []) ∷ count_line ∷ []

database-IsOpened : IsOpened setup_database
unfolding IsDistinct
database-IsOpened =
    ((refl, omega arith, tt, tt, tt, tt), λ e. refl, (λ e. absurd (cc), omega arith, tt))

parse_initrc-IsParsed_example :
    IsParsed setup_database (parse_initrc number exists_always one_two lines setup_database)
parse_initrc-IsParsed_example =
    parse_initrc-IsParsed number exists_always one_two lines setup_database database-IsOpened

counted : parse_initrc number exists_always one_two lines setup_database ≡ record {
  data_base = record setup_database {
    module_count_max = 3;
    module_count_width = 8;
    module_count_set = true;
  };
  version_major_set = true;
  version_minor_set = true;
  version_invalid = false;
}
unfolding parse_initrc lines_loop parse_line parse_command initrc_command_dispatch
    initrc_version_command version_value_matches initrc_set_module_count_max same_text row_of
counted = refl

unversioned : parse_initrc number exists_always one_two short_lines setup_database ≡ record {
  data_base = setup_database;
  version_major_set = true;
  version_minor_set = false;
  version_invalid = true;
}
unfolding parse_initrc lines_loop parse_line parse_command initrc_command_dispatch
    initrc_version_command version_value_matches initrc_set_module_count_max same_text row_of
unversioned = refl
