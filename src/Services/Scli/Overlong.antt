-- ===== src/Services/Scli/Overlong.antt =====
-- `scliTokenize` on a line that is full.
use task_mate.Common.{
  get_elem?-none, ℕ, zero, suc, ◌+◌, ◌≤◌, ◌<◌, ◌≡◌, refl, subst, true, false, none, some, List,
  arith, ltb, ◌==◌, length, get_elem?, set, length-set, get_elem?-none,
}
use task_mate.Services.Scli.{
  scan_line, is_word, is_space, stopped, read_outside, tokenize_loop, scli_tokenize,
}

-- The scan of a word from `index` on: `n` bytes of it, then the terminator.
word_scan :
    (n fuel index : ℕ) (line : List ℕ)
    → n < fuel
    → index + n ≤ 63
    → ((i : ℕ)
        → index ≤ i
        → i < index + n
        → (ch : ℕ) × (get_elem? line i ≡ some ch) × (is_word ch ≡ true))
    → get_elem? line (index + n) ≡ some 0
    → scan_line is_word fuel line index ≡ stopped (index + n)
unfolding scan_line
word_scan n zero index line f b word end = absurd (omega arith)
word_scan zero (suc fuel) index line f b word end =
    let e : index + 0 ≡ index = omega arith in
    let end' : get_elem? line index ≡ some 0 = subst (λ k. get_elem? line k ≡ some 0) e end in
    rw (scan_line, end', e) refl
word_scan (suc n) (suc fuel) index line f b word end =
    let (ch, here, is) = word index (omega arith) (omega arith) in
    let more : index + suc n ≡ index + 1 + n = omega arith in
    let near : ltb 64 (index + 1) ≡ false = ground arith in
    rw (scan_line, here, is, near, more)
      (word_scan n fuel (index + 1) line (omega arith) (omega arith)
        (λ i l u. word i (omega arith) (omega arith))
        (subst (λ k. get_elem? line k ≡ some 0) more end))

-- On a line of 64 bytes whose first 63 are neither a space nor the terminator, as `scliRead`
-- leaves it after 63 bytes without one, `scliTokenize` reads behind the end of the line.
pub scli_tokenize_outside :
    (line : List ℕ)
    → length line ≡ 64
    → ((i : ℕ) → i < 63 → (ch : ℕ) × (get_elem? line i ≡ some ch) × (is_word ch ≡ true))
    → get_elem? line 63 ≡ some 0
    → scli_tokenize line ≡ read_outside
unfolding scli_tokenize tokenize_loop scan_line
scli_tokenize_outside line l word end =
    let (ch, here, is) = word 0 (omega arith) in
    let no_end : (ch == 0) ≡ false = ground arith in
    let no_space : is_space ch ≡ false = ground arith in
    let scan = word_scan 63 66 0 line (omega arith) (omega arith) (λ i a b. word i b) end in
    let beyond : get_elem? (set line 63 0) 64 ≡ none =
      get_elem?-none (set line 63 0) 64 (omega (arith, length-set line 63 0)) in
    rw (scli_tokenize, tokenize_loop, here, no_end, scan_line, here, no_space, scan, beyond) refl
