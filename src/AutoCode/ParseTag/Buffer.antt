-- ===== src/AutoCode/ParseTag/Buffer.antt =====
-- The tokens of a line with a newline do not depend on what `tok.line` held behind it.
use task_mate.Common.{
  ℕ, zero, suc, ◌+◌, ◌-◌, ◌≤◌, ◌<◌, ◌≡◌, refl, sym, ap, ap₂, ◌∙◌, Bool, true, false, Option, none,
  some, List, [], ◌∷◌, ◌++◌, map, append_assoc, arith, ◌==◌, if◌then◌else◌, length, set, drop, All,
}
use task_mate.AutoCode.Tokenizer.{
  Tokenizer, TokenizerErr, tok_noerr, tok_of, tok_string, tok_alloc, byte_at, is_end, is_blank,
  step_from, token_end, Found, found, failed, inc_index_test_overflow, close_token, tokens_loop,
  tokenizer, freed, or_overflow, tokenizer_size_linemax,
}
use task_mate.AutoCode.Tokenizer.Alike.{
  Agree, Ends, set-Agree, set-Ends, step_while_between, before_end, end-blank, inc_up,
  step_from_same, token_end_same, token_end_between,
}
use task_mate.AutoCode.AddModule.Kept.{All-append_one}
use task_mate.AutoCode.ParseTag.{text_of, accepted, found_words, words, read_line}
use task_mate.TmLibc.Str.{Text}

-- The text at a place, byte by byte
text_of-drop :
    (a : List ℕ) (i : ℕ)
    → text_of (drop i a) ≡ (if byte_at a i == 0 then [] else byte_at a i ∷ text_of (drop (suc i) a))
unfolding text_of
text_of-drop [] zero = refl
text_of-drop [] (suc i) = refl
text_of-drop (x ∷ a) zero = refl
text_of-drop (x ∷ a) (suc i) = text_of-drop a i

text_ended : (a : List ℕ) (i : ℕ) → byte_at a i ≡ 0 → text_of (drop i a) ≡ []
text_ended a i h = text_of-drop a i ∙ rw h refl

-- The same text up to a terminator
text_same :
    (n k i : ℕ) (a b : List ℕ)
    → i + k ≡ n
    → Agree n a b
    → byte_at a n ≡ 0
    → text_of (drop i a) ≡ text_of (drop i b)
text_same n zero i a b e same stop =
    let here : i ≡ n = omega arith in
    let zero_a : byte_at a i ≡ 0 = ap (λ x. byte_at a x) here ∙ stop in
    let zero_b : byte_at b i ≡ 0 = sym (same i (omega arith)) ∙ zero_a in
    text_ended a i zero_a ∙ sym (text_ended b i zero_b)
text_same n (suc k) i a b e same stop =
    text_of-drop a i
    ∙ ap₂ (λ x t. if x == 0 then [] else x ∷ t) (same i (omega arith))
        (text_same n k (suc i) a b (omega arith) same stop)
    ∙ sym (text_of-drop b i)

texts_same :
    (n : ℕ) (a b : List ℕ) (ts : List ℕ)
    → All (λ t. t ≤ n) ts
    → Agree n a b
    → byte_at a n ≡ 0
    → map (λ i. text_of (drop i a)) ts ≡ map (λ i. text_of (drop i b)) ts
texts_same n a b [] all same stop = refl
texts_same n a b (t ∷ ts) (l, all) same stop =
    ap₂ (λ x xs. x ∷ xs) (text_same n (n - t) t a b (omega arith) same stop)
      (texts_same n a b ts all same stop)

freed_same :
    (a b : List ℕ) (ts : List ℕ) (err : TokenizerErr)
    → accepted (freed (record { line = a; tokens = ts }) err)
      ≡ accepted (freed (record { line = b; tokens = ts }) err)
freed_same a b ts tok_noerr = refl
freed_same a b ts tok_of = refl
freed_same a b ts tok_string = refl
freed_same a b ts tok_alloc = refl

abbrev Outcome : Type 0
Outcome = Option (Tokenizer × TokenizerErr)

if_same :
    (c : Bool) (x x' y y' : Outcome)
    → found_words x ≡ found_words x'
    → (c ≡ false → found_words y ≡ found_words y')
    → found_words (if c then x else y) ≡ found_words (if c then x' else y')
if_same true x x' y y' f g = f
if_same false x x' y y' f g = g refl

module _ (room : ℕ → Bool) (m : ℕ) where
  -- The rest of the line is tokenized alike, whichever line it stands in.
  abbrev IsAlike : (Tokenizer → ℕ → Outcome) → Type 0
  IsAlike go =
      (a b : List ℕ) (ts : List ℕ) (i : ℕ)
      → i ≤ suc m
      → Ends m a
      → Agree (suc m) a b
      → All (λ t. t ≤ suc m) ts
      → found_words (go (record { line = a; tokens = ts }) i)
        ≡ found_words (go (record { line = b; tokens = ts }) i)

  overflow_same :
      (a b ts : List ℕ) (k k' : ℕ → Outcome) (o : Option ℕ)
      → ((x : ℕ) → o ≡ some x → found_words (k x) ≡ found_words (k' x))
      → found_words (or_overflow (record { line = a; tokens = ts }) k o)
        ≡ found_words (or_overflow (record { line = b; tokens = ts }) k' o)
  overflow_same a b ts k k' none h = freed_same a b ts tok_of
  overflow_same a b ts k k' (some x) h = h x refl

  ended_same :
      (a b ts : List ℕ)
      → Ends m a
      → Agree (suc m) a b
      → All (λ t. t ≤ suc m) ts
      → found_words (some (record { line = a; tokens = ts }, tok_noerr))
        ≡ found_words (some (record { line = b; tokens = ts }, tok_noerr))
  ended_same a b ts ends same places = ap some (texts_same (suc m) a b ts places same ends.1)

  close_same :
      (go : Tokenizer → ℕ → Outcome) (a b ts : List ℕ) (s : ℕ) (f : Found)
      → IsAlike go
      → s < m
      → Ends m a
      → Agree (suc m) a b
      → All (λ t. t ≤ suc m) ts
      → ((e : ℕ) → f ≡ found e → (s ≤ e) × (e ≤ m))
      → found_words (close_token room go (record { line = a; tokens = ts }) s f)
        ≡ found_words (close_token room go (record { line = b; tokens = ts }) s f)
  unfolding close_token
  close_same go a b ts s (failed err) alike l ends same places between = freed_same a b ts err
  close_same go a b ts s (found e) alike l ends same places between =
      if_same (room (length ts + 1)) _ _ _ _
        (overflow_same (set a e 0) (set b e 0) ts _ _ (inc_index_test_overflow e) (λ x up.
          let at = inc_up e x up in
          let (low, high) = between e refl in
          alike (set a e 0) (set b e 0) (ts ++ s ∷ []) x (omega (arith, at, high))
            (set-Ends m e a ends) (set-Agree (suc m) e a b same)
            (All-append_one (λ t. t ≤ suc m) ts s places (omega arith))))
        (λ full. freed_same a b ts tok_alloc)

  if_alike :
      (c c' : Bool) (x x' y y' : Outcome)
      → c ≡ c'
      → found_words x ≡ found_words x'
      → (c ≡ false → found_words y ≡ found_words y')
      → found_words (if c then x else y) ≡ found_words (if c' then x' else y')
  if_alike c c' x x' y y' e f g =
      if_same c x x' y y' f g ∙ ap (λ d. found_words (if d then x' else y')) e

  abbrev from_start : ℕ → List ℕ → List ℕ → ℕ → Outcome
  from_start fuel line ts start =
      let tok : Tokenizer = record { line = line; tokens = ts } in
      if is_end (byte_at line start)
      then some (tok, tok_noerr)
      else close_token room (tokens_loop room fuel) tok start (token_end line start)

  tokens_same : (fuel : ℕ) → IsAlike (tokens_loop room fuel)
  unfolding tokens_loop
  tokens_same zero a b ts i l ends same places = refl
  tokens_same (suc fuel) a b ts i l ends same places =
      if_alike (is_end (byte_at a i)) (is_end (byte_at b i)) _ _ _ _ (ap is_end (same i l))
        (ended_same a b ts ends same places)
        (λ more.
          let i_lt : i < m = before_end m i a ends l more in
          let stop = end-blank (byte_at a m) ends.0 in
          overflow_same a b ts (from_start fuel a ts) (from_start fuel b ts)
            (step_from is_blank a i)
            (λ s at.
              let (low, high) =
                step_while_between is_blank (255 - i) a m i s (omega arith) stop at in
              if_alike (is_end (byte_at a s)) (is_end (byte_at b s)) _ _ _ _
                (ap is_end (same s (omega arith))) (ended_same a b ts ends same places)
                (λ word.
                  let s_lt : s < m = before_end m s a ends (omega arith) word in
                  close_same (tokens_loop room fuel) a b ts s (token_end a s) (tokens_same fuel)
                    s_lt ends same places (λ e k. token_end_between m a b ends same s e s_lt k)
                  ∙ ap
                      (λ f. found_words (
                        close_token room (tokens_loop room fuel) (record { line = b; tokens = ts })
                          s f))
                      (token_end_same m a b ends same s s_lt)))
          ∙ ap
              (λ o.
                found_words
                  (or_overflow (record { line = b; tokens = ts }) (from_start fuel b ts) o))
              (step_from_same m a b ends same is_blank i (omega arith) stop))

-- A line as `fgets` reads it: bytes that are no newline and no terminator, and a newline
abbrev pub IsLine : Text → Type 0
IsLine line =
    (body : Text) × (line ≡ body ++ b'\n' ∷ [])
    × All (λ b. (b == b'\n' ≡ false) × (b == 0 ≡ false)) body

-- The bytes of a line are there, whatever follows.
byte_at-front :
    (body : Text) (tail : List ℕ) (j : ℕ)
    → j ≤ suc (length body)
    → byte_at (body ++ b'\n' ∷ 0 ∷ tail) j ≡ byte_at (body ++ b'\n' ∷ 0 ∷ []) j
byte_at-front [] tail zero l = refl
byte_at-front [] tail (suc zero) l = refl
byte_at-front [] tail (suc (suc j)) l = absurd (omega arith)
byte_at-front (x ∷ body) tail zero l = refl
byte_at-front (x ∷ body) tail (suc j) l = byte_at-front body tail j (omega arith)

front_Ends : (body : Text) (tail : List ℕ) → Ends (length body) (body ++ b'\n' ∷ 0 ∷ tail)
front_Ends [] tail = (refl, refl)
front_Ends (x ∷ body) tail = front_Ends body tail

tokens_in_front :
    (room : ℕ → Bool) (body : Text) (tail : List ℕ)
    → found_words (tokenizer room tokenizer_size_linemax (body ++ b'\n' ∷ 0 ∷ tail))
      ≡ found_words (tokenizer room tokenizer_size_linemax (body ++ b'\n' ∷ 0 ∷ []))
unfolding tokenizer
tokens_in_front room body tail =
    tokens_same room (length body) tokenizer_size_linemax (body ++ b'\n' ∷ 0 ∷ tail)
      (body ++ b'\n' ∷ 0 ∷ []) [] 0 (omega arith) (front_Ends body tail)
      (λ j l. byte_at-front body tail j l) tt

-- The tokens of a line are those that it has in an empty buffer.
pub words-read_line :
    (room : ℕ → Bool) (line : Text) (buffer : List ℕ)
    → IsLine line
    → (words room (read_line line buffer)).1 ≡ (words room (line ++ 0 ∷ [])).1
unfolding words
words-read_line room line buffer (body, e, inside) =
    let tokens : List ℕ → Option (List Text) =
      λ l. found_words (tokenizer room tokenizer_size_linemax l) in
    let split : (t : List ℕ) → line ++ 0 ∷ t ≡ body ++ b'\n' ∷ 0 ∷ t =
      λ t. ap (λ l. l ++ 0 ∷ t) e ∙ append_assoc body (b'\n' ∷ []) (0 ∷ t) in
    ap tokens (split (drop (length line + 1) buffer))
    ∙ tokens_in_front room body (drop (length line + 1) buffer)
    ∙ sym (ap tokens (split []))
