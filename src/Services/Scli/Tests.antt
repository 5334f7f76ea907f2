-- ===== src/Services/Scli/Tests.antt =====
-- `scliTokenize` of scli.c on a full line and on a short one.
use task_mate.Common.{
  ℕ, zero, suc, ◌<◌, ◌≡◌, refl, true, some, List, [], ◌∷◌, ◌++◌, arith, get_elem?, set, replicate,
}
use task_mate.Services.Scli.{is_word, tokens, read_outside, scli_tokenize, tokenize_loop, scan_line}
use task_mate.Services.Scli.Overlong.{scli_tokenize_outside}

abbrev full_line : List ℕ
full_line = replicate 63 b'a' ++ 0 ∷ []

full_word :
    (n i : ℕ)
    → i < n
    → (ch : ℕ) × (get_elem? (replicate n b'a' ++ 0 ∷ []) i ≡ some ch) × (is_word ch ≡ true)
full_word zero i h = absurd (omega arith)
full_word (suc n) zero h = (b'a', refl, refl)
full_word (suc n) (suc i) h = full_word n i (omega arith)

scli_tokenize_outside_example : scli_tokenize full_line ≡ read_outside
scli_tokenize_outside_example = scli_tokenize_outside full_line refl (λ i h. full_word 63 i h) refl

-- `ls -l` with the end of an older line behind it: the older bytes are taken as a third argument.
abbrev stale_line : List ℕ
stale_line = b'l' ∷ b's' ∷ b' ' ∷ b'-' ∷ b'l' ∷ 0 ∷ b'x' ∷ 0 ∷ replicate 56 0

stale : scli_tokenize stale_line ≡ tokens (set stale_line 2 0) (0 ∷ 3 ∷ 6 ∷ [])
unfolding scli_tokenize tokenize_loop scan_line
stale = refl
