-- ===== src/AutoCode/Tokenizer/RoundTrip.antt =====
-- The tokens of a line that was put together from words.
use task_mate.Common.{
  ℕ, zero, suc, ◌+◌, ◌≤◌, ◌≡◌, refl, sym, ap, ap₂, ◌∙◌, Bool, true, false, some, List, [], ◌∷◌,
  ◌++◌, append_assoc, arith, ◌==◌, length, set, All, length-append, get_or-append, ◌<◌, ◌-◌,
}
use task_mate.AutoCode.Tokenizer.{
  in_token, quote, step_while, byte_at, inc_index_test_overflow, token_end, index_test_overflow,
  found, ltb, is_end, tokens_loop, close_token, is_blank, step_from, Tokenizer, tok_noerr,
  tokenizer,
}

-- A word of a line: as it is, or in quotes
pub data Word : Type 0 where
  plain quoted : List ℕ → Word

abbrev pub spelled : Word → List ℕ
spelled (plain w) = w
spelled (quoted w) = quote ∷ (w ++ quote ∷ [])

-- The bytes of a word stop neither of the loops; a plain word has a first one, which is no quote.
abbrev pub IsInside : Bool → List ℕ → Type 0
IsInside q = All (λ b. in_token q b ≡ true)

abbrev pub IsWord : Word → Type 0
IsWord (plain []) = ⊥
IsWord (plain (b ∷ w)) = ((b == quote) ≡ false) × IsInside false (b ∷ w)
IsWord (quoted w) = IsInside true w

module _ {ℓ} {A : Type ℓ} where
  -- A store at the place behind a list
  set-append :
      (xs : List A) (y : A) (ys : List A) (v : A) → set (xs ++ y ∷ ys) (length xs) v ≡ xs ++ v ∷ ys
  set-append [] y ys v = refl
  set-append (x ∷ xs) y ys v = ap (λ l. x ∷ l) (set-append xs y ys v)

-- The loop stops where its test fails,
step_while_stays :
    (test : ℕ → Bool) (left : ℕ) (line : List ℕ) (index : ℕ)
    → test (byte_at line index) ≡ false
    → step_while test left line index ≡ some index
unfolding step_while
step_while_stays test zero line index e = rw e refl
step_while_stays test (suc left) line index e = rw e refl

-- and steps over the bytes on which it holds.
step_while_over :
    (test : ℕ → Bool) (w before : List ℕ) (s : ℕ) (rest : List ℕ) (left : ℕ)
    → All (λ b. test b ≡ true) w
    → test s ≡ false
    → length w ≤ left
    → step_while test left (before ++ (w ++ s ∷ rest)) (length before)
      ≡ some (length before + length w)
unfolding step_while
step_while_over test [] before s rest left inside stops enough =
    let here : byte_at (before ++ s ∷ rest) (length before) ≡ s =
      get_or-append before (s ∷ rest) 0 in
    let at : length before ≡ length before + 0 = omega arith in
    step_while_stays test left (before ++ s ∷ rest) (length before) (ap test here ∙ stops)
    ∙ ap some at
step_while_over test (b ∷ w) before s rest zero inside stops enough = absurd (omega arith)
step_while_over test (b ∷ w) before s rest (suc left) (holds, inside) stops enough =
    let here : byte_at (before ++ (b ∷ (w ++ s ∷ rest))) (length before) ≡ b =
      get_or-append before (b ∷ (w ++ s ∷ rest)) 0 in
    let next : length (before ++ b ∷ []) ≡ length before + 1 = length-append before (b ∷ []) in
    let at : length (before ++ b ∷ []) + length w ≡ length before + suc (length w) = omega arith in
    rw (here, holds)
      (ap₂ (step_while test left) (sym (append_assoc before (b ∷ []) (w ++ s ∷ rest))) (sym next)
        ∙ step_while_over test w (before ++ b ∷ []) s rest left inside stops (omega arith)
        ∙ ap some at)

-- The byte behind a word
behind :
    (w before : List ℕ) (s : ℕ) (rest : List ℕ)
    → byte_at (before ++ (w ++ s ∷ rest)) (length before + length w) ≡ s
behind w before s rest =
    ap₂ byte_at (sym (append_assoc before w (s ∷ rest))) (sym (length-append before w))
    ∙ get_or-append (before ++ w) (s ∷ rest) 0

inc_within : (index : ℕ) → index < 255 → inc_index_test_overflow index ≡ some (index + 1)
unfolding inc_index_test_overflow index_test_overflow
inc_within index l = let fits : ltb 255 (index + 1) ≡ false = ground arith in rw fits refl

-- What may follow a word: the blank of the next one, or the end of the line
abbrev pub IsSeparator : ℕ → Type 0
IsSeparator s = (in_token false s ≡ false) × ((s == quote) ≡ false)

token_end_plain :
    (b : ℕ) (w before : List ℕ) (s : ℕ) (rest : List ℕ)
    → IsWord (plain (b ∷ w))
    → IsSeparator s
    → length before + suc (length w) < 255
    → token_end (before ++ (b ∷ (w ++ s ∷ rest))) (length before)
      ≡ found (length before + suc (length w))
unfolding token_end
token_end_plain b w before s rest (bare, inside) (stops, no_quote) fits =
    let line = before ++ (b ∷ (w ++ s ∷ rest)) in
    let first : byte_at line (length before) ≡ b = get_or-append before (b ∷ (w ++ s ∷ rest)) 0 in
    let over : step_while (in_token false) (255 - length before) line (length before)
        ≡ some (length before + suc (length w)) =
      step_while_over (in_token false) (b ∷ w) before s rest (255 - length before) inside stops
        (omega arith) in
    let end_ : byte_at line (length before + suc (length w)) ≡ s = behind (b ∷ w) before s rest in
    rw (first, bare, over, end_, no_quote) refl

token_end_quoted :
    (w before : List ℕ) (s : ℕ) (rest : List ℕ)
    → IsInside true w
    → length before + (length w + 2) < 255
    → token_end (before ++ (quote ∷ (w ++ quote ∷ s ∷ rest))) (length before)
      ≡ found (length before + (length w + 2))
unfolding token_end
token_end_quoted w before s rest inside fits =
    let line = before ++ (quote ∷ (w ++ quote ∷ s ∷ rest)) in
    let first : byte_at line (length before) ≡ quote =
      get_or-append before (quote ∷ (w ++ quote ∷ s ∷ rest)) 0 in
    let opened : length (before ++ quote ∷ []) ≡ length before + 1 =
      length-append before (quote ∷ []) in
    let same : (before ++ quote ∷ []) ++ (w ++ quote ∷ s ∷ rest) ≡ line =
      append_assoc before (quote ∷ []) (w ++ quote ∷ s ∷ rest) in
    let over : step_while (in_token true) (255 - (length before + 1)) line (length before + 1)
        ≡ some (length before + 1 + length w) =
      ap₂ (step_while (in_token true) (255 - (length before + 1))) (sym same) (sym opened)
      ∙ step_while_over (in_token true) w (before ++ quote ∷ []) quote (s ∷ rest)
          (255 - (length before + 1)) inside refl (omega arith)
      ∙ ap (λ n. some (n + length w)) opened in
    let end_ : byte_at line (length before + 1 + length w) ≡ quote =
      ap₂ byte_at (sym same) (ap (λ n. n + length w) (sym opened))
      ∙ behind w (before ++ quote ∷ []) quote (s ∷ rest) in
    let at : length before + 1 + length w + 1 ≡ length before + (length w + 2) = omega arith in
    rw
      (
        first,
        inc_within (length before) (omega arith),
        over,
        end_,
        inc_within (length before + 1 + length w) (omega arith),
      )
      (ap found at)

token_end-Word :
    (x : Word) (before : List ℕ) (s : ℕ) (rest : List ℕ)
    → IsWord x
    → IsSeparator s
    → length before + length (spelled x) < 255
    → token_end (before ++ (spelled x ++ s ∷ rest)) (length before)
      ≡ found (length before + length (spelled x))
token_end-Word (plain []) before s rest word sep fits = absurd word
token_end-Word (plain (b ∷ w)) before s rest word sep fits =
    token_end_plain b w before s rest word sep fits
token_end-Word (quoted w) before s rest word sep fits =
    let size : suc (length (w ++ quote ∷ [])) ≡ length w + 2 =
      ap suc (length-append w (quote ∷ [])) ∙ omega arith in
    let at : length before + (length w + 2) ≡ length before + suc (length (w ++ quote ∷ [])) =
      ap (λ n. length before + n) (sym size) in
    ap (λ l. token_end (before ++ (quote ∷ l)) (length before))
      (append_assoc w (quote ∷ []) (s ∷ rest))
    ∙ token_end_quoted w before s rest word (omega arith)
    ∙ ap found at

-- A word begins with a byte that is no blank and no end of the line.
Starts : List ℕ → Type 0
Starts l = (is_end (byte_at l 0) ≡ false) × (is_blank (byte_at l 0) ≡ false)

inside_starts : (b : ℕ) → in_token false b ≡ true → (is_end b ≡ false) × (is_blank b ≡ false)
inside_starts b h = (ground arith, ground arith)

Word-Starts : (x : Word) (l : List ℕ) → IsWord x → Starts (spelled x ++ l)
unfolding Starts
Word-Starts (plain []) l word = absurd word
Word-Starts (plain (b ∷ w)) l (bare, (holds, inside)) = inside_starts b holds
Word-Starts (quoted w) l word = (refl, refl)

-- The words of a line, with blanks between them, a newline and the terminator
unfoldable pub opened : Word → List Word → List ℕ
opened x [] = spelled x ++ b'\n' ∷ 0 ∷ []
opened x (y ∷ ys) = spelled x ++ b' ' ∷ opened y ys

-- The same words, each with a terminator behind it
unfoldable pub closed : Word → List Word → List ℕ
closed x [] = spelled x ++ 0 ∷ 0 ∷ []
closed x (y ∷ ys) = spelled x ++ 0 ∷ closed y ys

-- Where they begin, from this place on
unfoldable pub offsets : ℕ → Word → List Word → List ℕ
offsets at x [] = at ∷ []
offsets at x (y ∷ ys) = at ∷ offsets (at + length (spelled x) + 1) y ys

opened_nonempty : (x : Word) (ys : List Word) → 0 < length (opened x ys)
unfolding opened
opened_nonempty x [] = omega (arith, length-append (spelled x) (b'\n' ∷ 0 ∷ []))
opened_nonempty x (y ∷ ys) = omega (arith, length-append (spelled x) (b' ' ∷ opened y ys))

module _ (room : ℕ → Bool) (enough_room : (n : ℕ) → room n ≡ true) where
  token_step :
      (fuel : ℕ) (x : Word) (before : List ℕ) (s : ℕ) (rest ts : List ℕ)
      → IsWord x
      → IsSeparator s
      → length before + length (spelled x) < 255
      → tokens_loop room
          (suc fuel)
          (record { line = before ++ (spelled x ++ s ∷ rest); tokens = ts })
          (length before)
        ≡ tokens_loop room fuel
            (record { line = before ++ (spelled x ++ 0 ∷ rest); tokens = ts ++ length before ∷ [] })
            (length before + length (spelled x) + 1)
  unfolding tokens_loop close_token Starts
  token_step fuel x before s rest ts word sep fits =
      let line = before ++ (spelled x ++ s ∷ rest) in
      let (going, bare) = Word-Starts x (s ∷ rest) word in
      let here : byte_at line (length before) ≡ byte_at (spelled x ++ s ∷ rest) 0 =
        get_or-append before (spelled x ++ s ∷ rest) 0 in
      let not_end : is_end (byte_at line (length before)) ≡ false = ap is_end here ∙ going in
      let stays : step_from is_blank line (length before) ≡ some (length before) =
        step_while_stays is_blank (255 - length before) line (length before)
          (ap is_blank here ∙ bare) in
      let cut : set line (length before + length (spelled x)) 0
          ≡ before ++ (spelled x ++ 0 ∷ rest) =
        ap₂ (λ l i. set l i 0) (sym (append_assoc before (spelled x) (s ∷ rest)))
          (sym (length-append before (spelled x)))
        ∙ set-append (before ++ spelled x) s rest 0
        ∙ append_assoc before (spelled x) (0 ∷ rest) in
      rw
        (
          not_end,
          stays,
          not_end,
          token_end-Word x before s rest word sep fits,
          enough_room (length ts + 1),
          inc_within (length before + length (spelled x)) fits,
          cut,
        )
        refl

  -- The loop is at the end of the line.
  tokens_done :
      (fuel : ℕ) (tok : Tokenizer) (index : ℕ)
      → is_end (byte_at tok.line index) ≡ true
      → tokens_loop room (suc fuel) tok index ≡ some (tok, tok_noerr)
  unfolding tokens_loop
  tokens_done fuel tok index e = rw e refl

  -- The line in front of the next word, once this one is closed
  passed :
      (x : Word) (before : List ℕ)
      → length (before ++ (spelled x ++ 0 ∷ [])) ≡ length before + length (spelled x) + 1
  passed x before =
      length-append before (spelled x ++ 0 ∷ [])
      ∙ ap (λ n. length before + n) (length-append (spelled x) (0 ∷ []))
      ∙ omega arith

  regroup :
      (x : Word) (before rest : List ℕ)
      → before ++ (spelled x ++ 0 ∷ rest) ≡ (before ++ (spelled x ++ 0 ∷ [])) ++ rest
  regroup x before rest =
      ap (λ l. before ++ l) (sym (append_assoc (spelled x) (0 ∷ []) rest))
      ∙ sym (append_assoc before (spelled x ++ 0 ∷ []) rest)

  tokens_opened :
      (fuel : ℕ) (x : Word) (ys : List Word) (before tail ts : List ℕ)
      → IsWord x
      → All IsWord ys
      → length before + length (opened x ys) ≤ 256
      → length ys + 1 < fuel
      → tokens_loop room fuel
          (record { line = before ++ (opened x ys ++ tail); tokens = ts })
          (length before)
        ≡ some (
          record {
            line = before ++ (closed x ys ++ tail);
            tokens = ts ++ offsets (length before) x ys;
          },
          tok_noerr,
        )
  unfolding opened closed offsets
  tokens_opened zero x ys before tail ts word words fits enough = absurd (omega arith)
  tokens_opened (suc zero) x ys before tail ts word words fits enough = absurd (omega arith)
  tokens_opened (suc (suc fuel)) x [] before tail ts word words fits enough =
      let at = length before + length (spelled x) in
      let size : length (spelled x ++ b'\n' ∷ 0 ∷ []) ≡ length (spelled x) + 2 =
        length-append (spelled x) (b'\n' ∷ 0 ∷ []) in
      let after : Tokenizer = record {
        line = before ++ (spelled x ++ 0 ∷ 0 ∷ tail);
        tokens = ts ++ length before ∷ [];
      } in
      let last : byte_at after.line (at + 1) ≡ 0 =
        ap₂ byte_at (regroup x before (0 ∷ tail)) (sym (passed x before))
        ∙ get_or-append (before ++ (spelled x ++ 0 ∷ [])) (0 ∷ tail) 0 in
      ap
        (λ l.
          tokens_loop room (suc (suc fuel)) (record { line = before ++ l; tokens = ts })
            (length before))
        (append_assoc (spelled x) (b'\n' ∷ 0 ∷ []) tail)
      ∙ token_step (suc fuel) x before b'\n' (0 ∷ tail) ts word (refl, refl) (omega arith)
      ∙ tokens_done fuel after (at + 1) (ap is_end last)
      ∙ ap (λ l. some (record { line = before ++ l; tokens = ts ++ length before ∷ [] }, tok_noerr))
          (sym (append_assoc (spelled x) (0 ∷ 0 ∷ []) tail))
  tokens_opened (suc (suc fuel)) x (y ∷ ys) before tail ts word (next, words) fits enough =
      let size : length (spelled x ++ b' ' ∷ opened y ys)
          ≡ length (spelled x) + suc (length (opened y ys)) =
        length-append (spelled x) (b' ' ∷ opened y ys) in
      let before' = before ++ (spelled x ++ 0 ∷ []) in
      let at = passed x before in
      let nonempty : 0 < length (opened y ys) = opened_nonempty y ys in
      ap
        (λ l.
          tokens_loop room (suc (suc fuel)) (record { line = before ++ l; tokens = ts })
            (length before))
        (append_assoc (spelled x) (b' ' ∷ opened y ys) tail)
      ∙ token_step (suc fuel) x before b' ' (opened y ys ++ tail) ts word (refl, refl) (omega arith)
      ∙ ap₂
          (λ l i.
            tokens_loop room (suc fuel) (record { line = l; tokens = ts ++ length before ∷ [] }) i)
          (regroup x before (opened y ys ++ tail)) (sym at)
      ∙ tokens_opened (suc fuel) y ys before' tail (ts ++ length before ∷ []) next words
          (omega arith) (omega arith)
      ∙ ap₂ (λ l t. some (record { line = l; tokens = t }, tok_noerr))
          (sym (regroup x before (closed y ys ++ tail))
            ∙ ap (λ l. before ++ l) (sym (append_assoc (spelled x) (0 ∷ closed y ys) tail)))
          (append_assoc ts (length before ∷ []) (offsets (length before') y ys)
            ∙ ap (λ n. ts ++ length before ∷ offsets n y ys) at)

-- On a line of words, each as it is or in quotes, with a blank between them and a newline and a
-- terminator behind the last, that fits into the 256 bytes, and with memory for the table, the
-- tokenizer finds the words: it closes each with a terminator in place of the byte behind it,
-- changes nothing else of the line, and gives the places at which they begin. Fuel for one round
-- more than there are words is enough.
pub tokenizer-opened :
    (room : ℕ → Bool) (fuel : ℕ) (x : Word) (ys : List Word) (tail : List ℕ)
    → ((n : ℕ) → room n ≡ true)
    → IsWord x
    → All IsWord ys
    → length (opened x ys) ≤ 256
    → length ys + 1 < fuel
    → tokenizer room fuel (opened x ys ++ tail)
      ≡ some (record { line = closed x ys ++ tail; tokens = offsets 0 x ys }, tok_noerr)
unfolding tokenizer
tokenizer-opened room fuel x ys tail enough_room word words fits enough =
    tokens_opened room enough_room fuel x ys [] tail [] word words (omega arith) enough
