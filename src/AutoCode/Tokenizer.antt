-- ===== src/AutoCode/Tokenizer.antt =====
-- srcs/autoCode/tokenizer.c: the words of a line of init.rc or of a template, cut in place.
pub mod RoundTrip
pub mod Alike
mod Tests
use task_mate.Common.{
  ℕ, zero, suc, ◌+◌, ◌-◌, Bool, not, ◌&&◌, ◌||◌, Option, none, some, List, [], ◌∷◌, ◌++◌, ltb, ◌==◌,
  if◌then◌else◌, length, get_or, set,
}

-- `TOKENIZER_SIZE_LINEMAX`
abbrev pub tokenizer_size_linemax : ℕ
tokenizer_size_linemax = 256

-- `tokenizer_err_t`
pub data TokenizerErr : Type 0 where
  tok_noerr tok_of tok_string tok_alloc : TokenizerErr

-- `tokenizer_t`: a token is the index at which it begins in `line`, and `count` is their number.
pub record Tokenizer : Type 0 where
  pub line : List ℕ
  pub tokens : List ℕ

abbrev pub quote : ℕ
quote = 34

abbrev pub byte_at : List ℕ → ℕ → ℕ
byte_at line index = get_or line index 0

-- `indexTestOverflow`
unfoldable pub index_test_overflow : ℕ → Bool
index_test_overflow index = ltb (tokenizer_size_linemax - 1) index

-- `incIndexTestOverflow`; `none` is an overflow.
unfoldable pub inc_index_test_overflow : ℕ → Option ℕ
unfolding index_test_overflow
inc_index_test_overflow index = if index_test_overflow (index + 1) then none else some (index + 1)

-- The tests of the loops of `tokenizer`
abbrev pub is_end : ℕ → Bool
is_end byte = byte == b'\n' || byte == 0

abbrev pub is_blank : ℕ → Bool
is_blank byte = byte == b' ' || byte == b'\t'

abbrev pub in_token : Bool → ℕ → Bool
in_token quoted_string byte =
    not (byte == (if quoted_string then quote else b' '))
    && (quoted_string || not (byte == b'\t'))
    && not (byte == b'\n')
    && not (byte == 0)

-- A loop that steps on while a test holds, with the steps that are left before the index is beyond
-- the line; `none` is an overflow.
unfoldable pub step_while : (ℕ → Bool) → ℕ → List ℕ → ℕ → Option ℕ
step_while test zero line index = if test (byte_at line index) then none else some index
step_while test (suc left) line index =
    let more = step_while test left line (index + 1) in
    if test (byte_at line index) then more else some index

-- Where a token ends, or why there is none
pub data Found : Type 0 where
  found : ℕ → Found
  failed : TokenizerErr → Found

abbrev pub unless_overflow : (ℕ → Found) → Option ℕ → Found
unless_overflow k none = failed tok_of
unless_overflow k (some index) = k index

abbrev pub step_from : (ℕ → Bool) → List ℕ → ℕ → Option ℕ
step_from test line index = step_while test (tokenizer_size_linemax - 1 - index) line index

-- The body of the loop of `tokenizer` from the start of a token to the place that closes it
unfoldable pub token_end : List ℕ → ℕ → Found
unfolding inc_index_test_overflow step_while
token_end line index =
    let quoted_string = byte_at line index == quote in
    unless_overflow
      (λ inner.
        unless_overflow
          (λ last.
            if quoted_string && not (byte_at line last == quote)
            then failed tok_string
            else unless_overflow found
                (if byte_at line last == quote then inc_index_test_overflow last else some last))
          (step_from (in_token quoted_string) line inner))
      (if quoted_string then inc_index_test_overflow index else some index)

-- `tokenizerFree` on an error: the table of the tokens is gone.
abbrev pub freed : Tokenizer → TokenizerErr → Tokenizer × TokenizerErr
freed tok err = (record tok { tokens = [] }, err)

abbrev pub or_overflow :
    Tokenizer
    → (ℕ → Option (Tokenizer × TokenizerErr))
    → Option ℕ
    → Option (Tokenizer × TokenizerErr)
or_overflow tok k none = some (freed tok tok_of)
or_overflow tok k (some index) = k index

-- `realloc` is a parameter: whether there is room for so many tokens.
module _ (room : ℕ → Bool) where
  -- The end of the body: the token is stored and closed, and the loop goes on.
  unfoldable pub close_token :
      (Tokenizer → ℕ → Option (Tokenizer × TokenizerErr))
      → Tokenizer
      → ℕ
      → Found
      → Option (Tokenizer × TokenizerErr)
  close_token go tok index (failed err) = some (freed tok err)
  close_token go tok index (found last) =
      let closed = record tok { line = set tok.line last 0 } in
      let on =
        or_overflow closed (go (record closed { tokens = tok.tokens ++ index ∷ [] }))
          (inc_index_test_overflow last) in
      if room (length tok.tokens + 1) then on else some (freed tok tok_alloc)

  -- The loop of `tokenizer`, a unit of fuel for a token; `none` is a loop that is not done.
  unfoldable pub tokens_loop : ℕ → Tokenizer → ℕ → Option (Tokenizer × TokenizerErr)
  unfolding close_token token_end
  tokens_loop zero tok index = none
  tokens_loop (suc fuel) tok index =
      let on =
        or_overflow tok
          (λ start.
            let token = close_token (tokens_loop fuel) tok start (token_end tok.line start) in
            if is_end (byte_at tok.line start) then some (tok, tok_noerr) else token)
          (step_from is_blank tok.line index) in
      if is_end (byte_at tok.line index) then some (tok, tok_noerr) else on

  -- `tokenizer`
  unfoldable pub tokenizer : ℕ → List ℕ → Option (Tokenizer × TokenizerErr)
  unfolding tokens_loop
  tokenizer fuel line = tokens_loop fuel (record { line = line; tokens = [] }) 0
