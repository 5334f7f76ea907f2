-- ===== src/AutoCode/ParseTag/Plain.antt =====
-- The loop of parseTag.c when `tok.line` is fresh for each line, and the lines with the fragments.
use task_mate.Common.{
  ℕ, suc, ◌≡◌, refl, sym, subst, ap, ap₂, ◌∙◌, Bool, true, false, ◌||◌, Option, none, some, List,
  [], ◌∷◌, ◌++◌, arith, ◌==◌, if◌then◌else◌, All,
}
use mathlib.Core.Option
use task_mate.AutoCode.AddModule.{same_text}
use task_mate.AutoCode.Tokenizer.{
  tokenizer, tokens_loop, close_token, token_end, step_while, inc_index_test_overflow,
  index_test_overflow,
}
use task_mate.AutoCode.ParseTag.{
  TagState, TagFiles, TagStep, text_of, words, read_line, include_line, tag_index, tags_cmds,
  failing, tag_words, parse_tag_line, write_on, tag_loop, is_overlong,
}
use task_mate.AutoCode.ParseTag.Buffer.{IsLine, words-read_line}
use task_mate.TmLibc.Str.{Text}

same_text-≡ : (a b : Text) → same_text a b ≡ true → a ≡ b
unfolding same_text
same_text-≡ [] [] e = refl
same_text-≡ [] (y ∷ ys) e = absurd (cc)
same_text-≡ (x ∷ xs) [] e = absurd (cc)
same_text-≡ (x ∷ xs) (y ∷ ys) e =
    let (here, rest) = parts (x == y) (same_text xs ys) e in
    ap₂ (λ b bs. b ∷ bs) (ground arith) (same_text-≡ xs ys rest)
  where
    parts : (b c : Bool) → (if b then c else false) ≡ true → (b ≡ true) × (c ≡ true)
    parts b c h = (ground arith, ground arith)

-- What holds of every row of a table holds of a name that the table has.
pub tag_index-All :
    (P : Text → Type 0) (name : Text) (tags : List Text) (id : ℕ)
    → All P tags
    → tag_index name tags ≡ some id
    → P name
unfolding tag_index
tag_index-All P name [] id all e = absurd (cc)
tag_index-All P name (tag ∷ tags) id (p, all) e =
    go (same_text name tag) refl (tag_index name tags) (λ i h. tag_index-All P name tags i all h) e
  where
    go :
        (b : Bool)
        → same_text name tag ≡ b
        → (o : Option ℕ) → ((i : ℕ) → o ≡ some i → P name)
        → (if b then some 0 else Option.map suc o) ≡ some id
        → P name
    go true same o rest h = subst P (sym (same_text-≡ name tag same)) p
    go false same none rest h = absurd (cc)
    go false same (some i) rest h = rest i refl

-- The tokens of a line in a fresh buffer
abbrev pub fresh_words : (ℕ → Bool) → Text → Option (List Text)
fresh_words room line = (words room (line ++ 0 ∷ [])).1

unfoldable pub plain_step : TagFiles → Text → TagState → TagStep
plain_step files line t =
    if is_overlong line
    then ([], failing t, false)
    else tag_words files line (fresh_words files.room line) t

unfoldable pub plain_loop : TagFiles → List Text → TagState → List Text × TagState
plain_loop files [] t = ([], t)
plain_loop files (line ∷ lines) t = write_on (plain_loop files lines) (plain_step files line t)

write_on_cong :
    (k k' : TagState → List Text × TagState) (s : TagStep)
    → ((t : TagState) → k t ≡ k' t)
    → write_on k s ≡ write_on k' s
write_on_cong k k' (out, t, true) h = ap (λ r. (out ++ r.0, r.1)) (h t)
write_on_cong k k' (out, t, false) h = refl

-- On lines with their newlines, what `tok.line` holds from before makes no difference.
pub tag_loop-plain_loop :
    (files : TagFiles) (lines : List Text) (buffer : List ℕ) (t : TagState)
    → All IsLine lines
    → tag_loop files lines buffer t ≡ plain_loop files lines t
unfolding tag_loop plain_loop plain_step parse_tag_line
tag_loop-plain_loop files [] buffer t all = refl
tag_loop-plain_loop files (line ∷ lines) buffer t (is_line, all) =
    let (buffer', tokens) = words files.room (read_line line buffer) in
    go (is_overlong line) (tag_loop files lines buffer') (tag_words files line tokens t)
      (λ t'. tag_loop-plain_loop files lines buffer' t' all)
      (ap (λ w. tag_words files line w t) (words-read_line files.room line buffer is_line))
  where
    go :
        (b : Bool) (k : TagState → List Text × TagState) (s : TagStep) {s' : TagStep}
        → ((t' : TagState) → k t' ≡ plain_loop files lines t')
        → s ≡ s'
        → (if b then ([], failing t) else write_on k s)
          ≡ write_on (plain_loop files lines) (if b then ([], failing t, false) else s')
    go true k s h e = refl
    go false k s h e =
        write_on_cong k (plain_loop files lines) s h ∙ ap (write_on (plain_loop files lines)) e

-- The tokens of the line with a fragment
abbrev include_words : Text → List Text
include_words name =
    (b'#' ∷ b'i' ∷ b'n' ∷ b'c' ∷ b'l' ∷ b'u' ∷ b'd' ∷ b'e' ∷ [])
    ∷ (34 ∷ (name ++ b'.' ∷ b'i' ∷ b'n' ∷ b'c' ∷ 34 ∷ []))
    ∷ []

-- The line without its newline
abbrev include_body : Text → Text
include_body name =
    (b'#' ∷ b'i' ∷ b'n' ∷ b'c' ∷ b'l' ∷ b'u' ∷ b'd' ∷ b'e' ∷ b' ' ∷ 34 ∷ [])
    ++ (name ++ b'.' ∷ b'i' ∷ b'n' ∷ b'c' ∷ 34 ∷ [])

unfoldable pub is_plain : Text → Bool
is_plain [] = true
is_plain (b ∷ bs) = let rest = is_plain bs in if b == b'\n' || b == 0 then false else rest

abbrev IsInside : ℕ → Type 0
IsInside b = (b == b'\n' ≡ false) × (b == 0 ≡ false)

pub is_plain-All : (w : Text) → is_plain w ≡ true → All IsInside w
unfolding is_plain
is_plain-All [] e = tt
is_plain-All (b ∷ bs) e =
    let (here, here', rest) = parts (b == b'\n') (b == 0) (is_plain bs) e in
    ((here, here'), is_plain-All bs rest)
  where
    parts :
        (x y z : Bool)
        → (if x || y then false else z) ≡ true
        → (x ≡ false) × (y ≡ false) × (z ≡ true)
    parts x y z h = (ground arith, ground arith, ground arith)

-- What a line with a fragment is: a line that fits the buffer, with these tokens
abbrev pub IsIncluded : (ℕ → Bool) → Text → Type 0
IsIncluded room name =
    (fresh_words room (include_line name) ≡ some (include_words name))
    × (is_overlong (include_line name) ≡ false)
    × (include_line name ≡ include_body name ++ b'\n' ∷ [])
    × (is_plain (include_body name) ≡ true)

pub include_line-IsLine :
    (room : ℕ → Bool) (name : Text) → IsIncluded room name → IsLine (include_line name)
include_line-IsLine room name (tokens, fits, e, plain) =
    (include_body name, e, is_plain-All (include_body name) plain)

abbrev pub always : ℕ → Bool
always n = true

pub tags-IsIncluded : All (IsIncluded always) tags_cmds
unfolding words text_of tokenizer tokens_loop close_token token_end step_while
    inc_index_test_overflow index_test_overflow is_plain
tags-IsIncluded = (
  (refl, refl, refl, refl),
  (
    (refl, refl, refl, refl),
    (
      (refl, refl, refl, refl),
      (
        (refl, refl, refl, refl),
        (
          (refl, refl, refl, refl),
          (
            (refl, refl, refl, refl),
            (
              (refl, refl, refl, refl),
              (
                (refl, refl, refl, refl),
                (
                  (refl, refl, refl, refl),
                  (
                    (refl, refl, refl, refl),
                    (
                      (refl, refl, refl, refl),
                      (
                        (refl, refl, refl, refl),
                        ((refl, refl, refl, refl), ((refl, refl, refl, refl), tt)),
                      ),
                    ),
                  ),
                ),
              ),
            ),
          ),
        ),
      ),
    ),
  ),
)
