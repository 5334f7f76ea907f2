-- ===== src/AutoCode/Tokenizer/Tests.antt =====
-- A line with a word and a text in quotes, and lines that the tokenizer refuses.
use task_mate.Common.{ℕ, ◌≤◌, ◌≡◌, refl, Bool, true, some, List, [], ◌∷◌, ◌++◌, arith, length}
use task_mate.AutoCode.Tokenizer.RoundTrip.{
  opened, plain, quoted, closed, offsets, tokenizer-opened,
}
use task_mate.AutoCode.Tokenizer.{
  tokenizer, tokens_loop, token_end, step_while, inc_index_test_overflow, close_token, tok_noerr,
  quote, tok_string,
}

abbrev always : ℕ → Bool
always n = true

abbrev hi : List ℕ
hi = b'h' ∷ b'i' ∷ []

abbrev spaced : List ℕ
spaced = b'a' ∷ b' ' ∷ b'b' ∷ []

small : length (opened (plain hi) (quoted spaced ∷ [])) ≤ 256
unfolding opened
small = omega arith

tokenizer-opened_example :
    tokenizer always 3 (opened (plain hi) (quoted spaced ∷ []) ++ 7 ∷ [])
    ≡ some (
      record {
        line = closed (plain hi) (quoted spaced ∷ []) ++ 7 ∷ [];
        tokens = offsets 0 (plain hi) (quoted spaced ∷ []);
      },
      tok_noerr,
    )
tokenizer-opened_example =
    tokenizer-opened always 3 (plain hi) (quoted spaced ∷ []) (7 ∷ []) (λ n. refl)
      (refl, (refl, (refl, tt))) ((refl, (refl, (refl, tt))), tt) small (omega arith)

-- A text in quotes that is not ended
unended :
    tokenizer always 3 (quote ∷ b'a' ∷ b'\n' ∷ 0 ∷ [])
    ≡ some (record { line = quote ∷ b'a' ∷ b'\n' ∷ 0 ∷ []; tokens = [] }, tok_string)
unfolding tokenizer tokens_loop token_end step_while inc_index_test_overflow close_token
unended = refl

-- The byte behind a closing quote is lost: of "a"bc the tokenizer makes "a" and c.
lost :
    tokenizer always 3 (quote ∷ b'a' ∷ quote ∷ b'b' ∷ b'c' ∷ b'\n' ∷ 0 ∷ [])
    ≡ some (
      record { line = quote ∷ b'a' ∷ quote ∷ 0 ∷ b'c' ∷ 0 ∷ 0 ∷ []; tokens = 0 ∷ 4 ∷ [] },
      tok_noerr,
    )
unfolding tokenizer tokens_loop token_end step_while inc_index_test_overflow close_token
lost = refl
