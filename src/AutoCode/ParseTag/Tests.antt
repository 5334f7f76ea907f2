-- ===== src/AutoCode/ParseTag/Tests.antt =====
-- A source with one section, and a section that is not ended.
use task_mate.Common.{◌≡◌, refl, ap, true, false, List, [], ◌∷◌, ◌++◌, set, replicate, All}
use task_mate.AutoCode.AddModule.{same_text}
use task_mate.AutoCode.Tokenizer.{
  tokenizer, tokens_loop, close_token, token_end, step_while, inc_index_test_overflow,
  index_test_overflow,
}
use task_mate.AutoCode.ParseTag.{
  TagFiles, text_of, words, has_marker, start_marker, end_marker, slashes, include_line, tag_index,
  tag_cmd_dispatch, generated_file_name, start_section, parse_tag_line, tag_loop, parse_tag,
  parse_tag_init, have_loop, parse_tag_have,
}
use task_mate.AutoCode.ParseTag.Plain.{is_plain, is_plain-All}
use task_mate.AutoCode.ParseTag.Buffer.{IsLine}
use task_mate.AutoCode.ParseTag.Again.{is_bad, parse_tag-parse_tag}
use task_mate.TmLibc.Str.{Text}

abbrev files : TagFiles
files = record {
  room = λ n. true;
  generated_path = b'g' ∷ [];
  make_tmp = λ name. true;
  written = λ name. true;
  closed = λ name. true;
}

abbrev modules_count : Text
modules_count =
    b'm' ∷ b'o' ∷ b'd' ∷ b'u' ∷ b'l' ∷ b'e' ∷ b's' ∷ b'_' ∷ b'c' ∷ b'o' ∷ b'u' ∷ b'n' ∷ b't' ∷ []

abbrev start : Text
start = slashes ++ b' ' ∷ (start_marker ++ b' ' ∷ (modules_count ++ b'\n' ∷ []))

abbrev stop : Text
stop = slashes ++ b' ' ∷ (end_marker ++ b'\n' ∷ [])

abbrev old : Text
old = b'o' ∷ b'l' ∷ b'd' ∷ b';' ∷ b'\n' ∷ []

abbrev source : List Text
source = old ∷ start ∷ old ∷ stop ∷ old ∷ []

-- The section is replaced by a line for its fragment.
replaced : parse_tag files source parse_tag_init ≡ (
  old ∷ start ∷ include_line modules_count ∷ stop ∷ old ∷ [],
  record {
    tag_section = false;
    have_tag_count = set parse_tag_init 7 1;
    file_error = false;
    reported = false;
  },
)
unfolding parse_tag tag_loop parse_tag_line start_section generated_file_name tag_cmd_dispatch
    tag_index has_marker same_text words text_of tokenizer tokens_loop close_token token_end
    step_while inc_index_test_overflow index_test_overflow
replaced = refl

abbrev old_body : Text
old_body = b'o' ∷ b'l' ∷ b'd' ∷ b';' ∷ []

abbrev start_body : Text
start_body = slashes ++ b' ' ∷ (start_marker ++ b' ' ∷ modules_count)

abbrev stop_body : Text
stop_body = slashes ++ b' ' ∷ end_marker

source-IsLine : All IsLine source
unfolding is_plain
source-IsLine =
    let an_old : IsLine old = (old_body, refl, is_plain-All old_body refl) in
    (
      an_old,
      (
        (start_body, refl, is_plain-All start_body refl),
        (an_old, ((stop_body, refl, is_plain-All stop_body refl), (an_old, tt))),
      ),
    )

parse_tag-parse_tag_example :
    parse_tag files (parse_tag files source parse_tag_init).0 parse_tag_init
    ≡ parse_tag files source parse_tag_init
parse_tag-parse_tag_example =
    parse_tag-parse_tag files (λ n. refl) source parse_tag_init source-IsLine
      (ap (λ r. is_bad r.1) replaced)

-- The condition on the newlines is needed. A source ends without a newline behind its end tag: the
-- first run is clean, and in the second the bytes of the longer line before, a quote among them, are
-- tokenized behind the end tag.
abbrev unended_stop : Text
unended_stop = slashes ++ b' ' ∷ (end_marker ++ b' ' ∷ replicate 16 b'a')

first_run : parse_tag files (start ∷ unended_stop ∷ []) parse_tag_init ≡ (
  start ∷ include_line modules_count ∷ unended_stop ∷ [],
  record {
    tag_section = false;
    have_tag_count = set parse_tag_init 7 1;
    file_error = false;
    reported = false;
  },
)
unfolding parse_tag tag_loop parse_tag_line start_section generated_file_name tag_cmd_dispatch
    tag_index has_marker same_text words text_of tokenizer tokens_loop close_token token_end
    step_while inc_index_test_overflow index_test_overflow
first_run = refl

second_run :
    is_bad
      (parse_tag files (start ∷ include_line modules_count ∷ unended_stop ∷ []) parse_tag_init).1
    ≡ true
unfolding parse_tag tag_loop parse_tag_line start_section generated_file_name tag_cmd_dispatch
    tag_index has_marker same_text words text_of tokenizer tokens_loop close_token token_end
    step_while inc_index_test_overflow index_test_overflow
second_run = refl

-- Without its end tag the error is reported.
unended : is_bad (parse_tag files (start ∷ old ∷ []) parse_tag_init).1 ≡ true
unfolding parse_tag tag_loop parse_tag_line start_section generated_file_name tag_cmd_dispatch
    tag_index has_marker same_text words text_of tokenizer tokens_loop close_token token_end
    step_while inc_index_test_overflow index_test_overflow
unended = refl

-- Only the tags of the signals may be missing, and no tag may be there twice.
all_found : parse_tag_have false (set (set (replicate 14 1) 6 0) 13 0) ≡ false
unfolding parse_tag_have have_loop
all_found = refl

found_twice : parse_tag_have false (set (replicate 14 1) 7 2) ≡ true
unfolding parse_tag_have have_loop
found_twice = refl
