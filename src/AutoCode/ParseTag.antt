-- ===== src/AutoCode/ParseTag.antt =====
-- srcs/autoCode/parseTag.c: the sections of a source file that a generated file replaces. What a
-- writer of a tag puts into its file is not modelled; the source is the list of its lines, each with
-- its newline but the last one, which may have none.
pub mod Buffer
pub mod Plain
pub mod Again
mod Tests
use mathlib.Core.Option
use task_mate.Common.{
  ℕ, suc, ◌+◌, ◌/◌, Bool, true, false, not, ◌&&◌, ◌||◌, Option, none, some, List, [], ◌∷◌, ◌++◌,
  map, ltb, ◌==◌, if◌then◌else◌, length, get_or, set, drop, replicate, leb, ◌-◌,
}
use task_mate.AutoCode.AddModule.{same_text}
use task_mate.AutoCode.Tokenizer.{
  TokenizerErr, Tokenizer, tokenizer, tok_noerr, tok_of, tok_string, tok_alloc,
  tokenizer_size_linemax,
}
use task_mate.TmLibc.Str.{Text}

-- The variables of `parseTag`, with `have_tag_count` in the order of the table and whether an error
-- was reported
pub record TagState : Type 0 where
  pub tag_section : Bool
  pub have_tag_count : List ℕ
  pub file_error : Bool
  pub reported : Bool

-- What the files and the memory do: room for so many tokens, `fileMakeTmp` for the fragment of a
-- tag, and whether its writer and `fileClose` end without an error
pub record TagFiles : Type 0 where
  pub room : ℕ → Bool
  pub generated_path : Text
  pub make_tmp : Text → Bool
  pub written : Text → Bool
  pub closed : Text → Bool

abbrev pub autocode_size_buffer : ℕ
autocode_size_buffer = 256

-- The bytes of a string below the terminator
unfoldable pub text_of : List ℕ → Text
text_of [] = []
text_of (b ∷ bs) = let rest = text_of bs in if b == 0 then [] else b ∷ rest

-- `tok.line` after `fgets` has put a line and its terminator into it
abbrev pub read_line : Text → List ℕ → List ℕ
read_line line buffer = line ++ 0 ∷ drop (length line + 1) buffer

-- The tokens that `tokenizer` has found, `none` on an error, and the `tok.line` that it leaves
abbrev pub accepted : Tokenizer × TokenizerErr → Option (List Text)
accepted (tok, tok_noerr) = some (map (λ index. text_of (drop index tok.line)) tok.tokens)
accepted (tok, err) = none

abbrev pub found_words : Option (Tokenizer × TokenizerErr) → Option (List Text)
found_words none = none
found_words (some result) = accepted result

abbrev pub left_line : List ℕ → Option (Tokenizer × TokenizerErr) → List ℕ
left_line buffer none = buffer
left_line buffer (some (tok, err)) = tok.line

-- What `tokenizer` makes of `tok.line`
unfoldable pub words : (ℕ → Bool) → List ℕ → List ℕ × Option (List Text)
unfolding text_of
words room buffer =
    let result = tokenizer room tokenizer_size_linemax buffer in
    (left_line buffer result, found_words result)

abbrev pub slashes : Text
slashes = b'/' ∷ b'/' ∷ []

abbrev pub start_marker : Text
start_marker =
    b'[' ∷ b'a' ∷ b'u' ∷ b't' ∷ b'o' ∷ b'C' ∷ b'o' ∷ b'd' ∷ b'e' ∷ b'_' ∷ b't' ∷ b'a' ∷ b'g' ∷ b']'
    ∷ []

abbrev pub end_marker : Text
end_marker = b'[' ∷ b'/' ∷ b't' ∷ b'a' ∷ b'g' ∷ b']' ∷ []

-- The test for a line with a marker
unfoldable pub has_marker : Text → List Text → Bool
unfolding same_text
has_marker marker (first ∷ second ∷ rest) = same_text first slashes && same_text second marker
has_marker marker _ = false

-- The line with the fragment of a tag
abbrev pub include_line : Text → Text
include_line name =
    (b'#' ∷ b'i' ∷ b'n' ∷ b'c' ∷ b'l' ∷ b'u' ∷ b'd' ∷ b'e' ∷ b' ' ∷ 34 ∷ [])
    ++ (name ++ b'.' ∷ b'i' ∷ b'n' ∷ b'c' ∷ 34 ∷ b'\n' ∷ [])

-- The place of a tag in `tags_cmds`
unfoldable pub tag_index : Text → List Text → Option ℕ
tag_index name [] = none
tag_index name (tag ∷ tags) =
    let rest = Option.map suc (tag_index name tags) in if same_text name tag then some 0 else rest

-- `tags_cmds`, the names of the tags
abbrev pub tags_cmds : List Text
tags_cmds =
    (b'd' ∷ b'r' ∷ b'i' ∷ b'v' ∷ b'e' ∷ b'r' ∷ b'_' ∷ b'h' ∷ b'a' ∷ b'v' ∷ b'e' ∷ [])
    ∷ (b'd' ∷ b'r' ∷ b'i' ∷ b'v' ∷ b'e' ∷ b'r' ∷ b'_' ∷ b'n' ∷ b'a' ∷ b'm' ∷ b'e' ∷ b'_' ∷ b'c'
        ∷ b'a' ∷ b't' ∷ b'a' ∷ b'l' ∷ b'o' ∷ b'g' ∷ [])
    ∷ (b'd' ∷ b'r' ∷ b'i' ∷ b'v' ∷ b'e' ∷ b'r' ∷ b's' ∷ b'_' ∷ b'a' ∷ b'l' ∷ b'l' ∷ b'o' ∷ b'c'
        ∷ [])
    ∷ (b'd' ∷ b'r' ∷ b'i' ∷ b'v' ∷ b'e' ∷ b'r' ∷ b's' ∷ b'_' ∷ b'l' ∷ b'i' ∷ b's' ∷ b't' ∷ [])
    ∷ (b'e' ∷ b'r' ∷ b'r' ∷ b'o' ∷ b'r' ∷ b'_' ∷ b'c' ∷ b'a' ∷ b't' ∷ b'a' ∷ b'l' ∷ b'o' ∷ b'g'
        ∷ [])
    ∷ (b'e' ∷ b'r' ∷ b'r' ∷ b'o' ∷ b'r' ∷ b'_' ∷ b'e' ∷ b'n' ∷ b'u' ∷ b'm' ∷ [])
    ∷ (b'g' ∷ b'p' ∷ b'i' ∷ b'o' ∷ b'_' ∷ b's' ∷ b'i' ∷ b'g' ∷ b'n' ∷ b'a' ∷ b'l' ∷ b's' ∷ [])
    ∷ (b'm' ∷ b'o' ∷ b'd' ∷ b'u' ∷ b'l' ∷ b'e' ∷ b's' ∷ b'_' ∷ b'c' ∷ b'o' ∷ b'u' ∷ b'n' ∷ b't'
        ∷ [])
    ∷ (b's' ∷ b'c' ∷ b'l' ∷ b'i' ∷ b'_' ∷ b'c' ∷ b'o' ∷ b'm' ∷ b'm' ∷ b'a' ∷ b'n' ∷ b'd' ∷ b's'
        ∷ [])
    ∷ (b't' ∷ b'h' ∷ b'r' ∷ b'e' ∷ b'a' ∷ b'd' ∷ b'_' ∷ b'n' ∷ b'a' ∷ b'm' ∷ b'e' ∷ b'_' ∷ b'c'
        ∷ b'a' ∷ b't' ∷ b'a' ∷ b'l' ∷ b'o' ∷ b'g' ∷ [])
    ∷ (b't' ∷ b'h' ∷ b'r' ∷ b'e' ∷ b'a' ∷ b'd' ∷ b'_' ∷ b's' ∷ b't' ∷ b'a' ∷ b'c' ∷ b'k' ∷ b's'
        ∷ [])
    ∷ (b't' ∷ b'h' ∷ b'r' ∷ b'e' ∷ b'a' ∷ b'd' ∷ b's' ∷ b'_' ∷ b'a' ∷ b'l' ∷ b'l' ∷ b'o' ∷ b'c'
        ∷ [])
    ∷ (b't' ∷ b'h' ∷ b'r' ∷ b'e' ∷ b'a' ∷ b'd' ∷ b's' ∷ b'_' ∷ b'l' ∷ b'i' ∷ b's' ∷ b't' ∷ [])
    ∷ (b'w' ∷ b'i' ∷ b'r' ∷ b'e' ∷ b'_' ∷ b'g' ∷ b'p' ∷ b'i' ∷ b'o' ∷ [])
    ∷ []

-- `tagCmdDispatch`: the state, and whether the tag is known
unfoldable pub tag_cmd_dispatch : TagFiles → Text → TagState → TagState × Bool
unfolding tag_index
tag_cmd_dispatch files name t = elim (tag_index name tags_cmds) [
  | none ↦ (t, false)
  | some id ↦ (
    (if files.written name
        then record t {
          have_tag_count = set t.have_tag_count id (get_or t.have_tag_count id 0 + 1);
        }
        else record t { file_error = true }),
    true,
  )
]

-- `generatedFileName`, whether the name fits
unfoldable pub generated_file_name : Text → Text → Bool
generated_file_name generated_path tag =
    ltb (length generated_path + 1 + length tag + 4) autocode_size_buffer

abbrev pub reporting : TagState → TagState
reporting t = record t { reported = true }

abbrev pub failing : TagState → TagState
failing t = record t { file_error = true; reported = true }

-- What a line does: what is written into the new source, the state, and whether the loop goes on
abbrev pub TagStep : Type 0
TagStep = List Text × TagState × Bool

-- What follows the fragment of a start tag
abbrev pub tag_written : TagFiles → Text → Text → TagState × Bool → TagStep
tag_written files line name (t, known) =
    let t' = if files.closed name then t else failing t in
    if t'.file_error
    then (line ∷ include_line name ∷ [], record t' { tag_section = false }, false)
    else (line ∷ include_line name ∷ [], (if known then t' else reporting t'), true)

-- A line with a start tag
unfoldable pub start_section : TagFiles → Text → Text → TagState → TagStep
unfolding tag_cmd_dispatch generated_file_name
start_section files line name t =
    if t.tag_section
    then ([], reporting t, false)
    else if not (generated_file_name files.generated_path name)
    then (line ∷ include_line name ∷ [], failing t, false)
    else if not (files.make_tmp name)
    then (line ∷ include_line name ∷ [], failing t, false)
    else tag_written files line name (tag_cmd_dispatch files name (record t { tag_section = true }))

abbrev start_line : TagFiles → Text → List Text → TagState → TagStep
start_line files line (slashes_ ∷ marker ∷ name ∷ []) t = start_section files line name t
start_line files line _ t = ([], reporting t, false)

-- A line without a start tag: an end tag closes the section, and outside of one the line is copied.
abbrev pub copy_line : Text → Bool → TagState → TagStep
copy_line line is_end t =
    let t' = if is_end then record t { tag_section = false } else t in
    ((if t'.tag_section then [] else line ∷ []), t', true)

-- The body of the loop of `parseTag`
abbrev pub tag_words : TagFiles → Text → Option (List Text) → TagState → TagStep
tag_words files line none t = ([], reporting t, true)
tag_words files line (some tokens) t =
    if has_marker start_marker tokens
    then start_line files line tokens t
    else copy_line line (has_marker end_marker tokens) t

unfoldable pub parse_tag_line : TagFiles → Text → List ℕ → TagState → List ℕ × TagStep
unfolding words has_marker start_section
parse_tag_line files line buffer t =
    let (buffer', tokens) = words files.room (read_line line buffer) in
    (buffer', tag_words files line tokens t)

-- The loop of `parseTag` with `tok.line`: what is written, and the state
abbrev pub write_on : (TagState → List Text × TagState) → TagStep → List Text × TagState
write_on k (out, t, true) = let (more, t') = k t in (out ++ more, t')
write_on k (out, t, false) = (out, t)

-- `fileGetLine` refuses a line that fills the buffer.
abbrev pub is_overlong : Text → Bool
is_overlong line = leb (tokenizer_size_linemax - 1) (length line)

unfoldable pub tag_loop : TagFiles → List Text → List ℕ → TagState → List Text × TagState
unfolding parse_tag_line
tag_loop files [] buffer t = ([], t)
tag_loop files (line ∷ lines) buffer t =
    let (buffer', step) = parse_tag_line files line buffer t in
    let rest = write_on (tag_loop files lines buffer') step in
    if is_overlong line then ([], failing t) else rest

-- `parseTag` on the lines of a source whose files are open
abbrev pub ended : List Text × TagState → List Text × TagState
ended (out, t) = (out, (if t.tag_section then reporting t else t))

abbrev pub first_line : List ℕ
first_line = replicate tokenizer_size_linemax 0

unfoldable pub parse_tag : TagFiles → List Text → List ℕ → List Text × TagState
unfolding tag_loop
parse_tag files lines counts = ended (
    tag_loop files lines first_line (record {
      tag_section = false;
      have_tag_count = counts;
      file_error = false;
      reported = false;
    }))

-- `parseTagInit`: a count for each tag
abbrev pub parse_tag_init : List ℕ
parse_tag_init = replicate (length tags_cmds) 0

-- The loop of `parseTagHave` from a row on, with whether the target has signals: whether it reports
-- an error
unfoldable pub have_loop : Bool → ℕ → List ℕ → Bool
have_loop has_signals id [] = false
have_loop has_signals id (count ∷ counts) =
    let rest = have_loop has_signals (id + 1) counts in
    let wrong = count == 0 || ltb 1 count in
    (if (id == 6 || id == 13) && not has_signals then false else wrong) || rest

-- `parseTagHave`
unfoldable pub parse_tag_have : Bool → List ℕ → Bool
unfolding have_loop
parse_tag_have has_signals counts = have_loop has_signals 0 counts
