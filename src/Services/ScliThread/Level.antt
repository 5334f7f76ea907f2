-- ===== src/Services/ScliThread/Level.antt =====
-- Which texts `threadRunLevelParse` accepts as a run level.
use task_mate.Common.{
  ℕ, zero, suc, ◌+◌, ◌-◌, ◌*◌, ◌≤◌, ◌<◌, ◌≡◌, refl, sym, ◌∙◌, ◌↔◌, inl, inr, true, false, none,
  some, [], ◌∷◌, arith, dec_lt, ltb, u8, u16, Bool-cases, length, All,
}
use task_mate.TmLibc.Str.{Text}
use task_mate.Services.ScliThread.{is_digit, level_loop, thread_run_level_parse}

-- The number that decimal digits spell behind a value so far.
unfoldable pub numeral : ℕ → Text → ℕ
numeral value [] = value
numeral value (ch ∷ text) = numeral (value * 10 + (ch - b'0')) text

-- One to `room` digits that spell the level, which is one of the four.
abbrev pub Spells : ℕ → ℕ → Text → ℕ → Type 0
Spells room value text level =
    (length text ≤ room)
    × All (λ ch. is_digit ch ≡ true) text
    × (numeral value text ≡ level)
    × (1 ≤ level)
    × (level ≤ 4)

numeral_above : (text : Text) (value : ℕ) → value ≤ numeral value text
unfolding numeral
numeral_above [] value = omega arith
numeral_above (ch ∷ text) value = omega (arith, numeral_above text (value * 10 + (ch - 48)))

level_step :
    (room ch : ℕ) (text : Text) (value : ℕ)
    → is_digit ch ≡ true
    → value ≤ 255
    → value * 10 + (ch - 48) ≤ 255
    → level_loop (suc room) (ch ∷ text) value ≡ level_loop room text (value * 10 + (ch - 48))
unfolding level_loop
level_step room ch text value digit small next =
    let bound : ch ≤ 57 = ground arith in
    let same : u16 (value * 10 + u8 (ch - 48)) ≡ value * 10 + (ch - 48) = omega arith in
    let below : ltb 255 (value * 10 + (ch - 48)) ≡ false = ground arith in
    rw (level_loop, digit, same, below) refl

level_no_digit :
    (room ch : ℕ) (text : Text) (value : ℕ)
    → is_digit ch ≡ false
    → level_loop (suc room) (ch ∷ text) value ≡ none
unfolding level_loop
level_no_digit room ch text value digit = rw (level_loop, digit) refl

level_too_large :
    (room ch : ℕ) (text : Text) (value : ℕ)
    → is_digit ch ≡ true
    → value ≤ 255
    → 255 < value * 10 + (ch - 48)
    → level_loop (suc room) (ch ∷ text) value ≡ none
unfolding level_loop
level_too_large room ch text value digit small next =
    let bound : ch ≤ 57 = ground arith in
    let same : u16 (value * 10 + u8 (ch - 48)) ≡ value * 10 + (ch - 48) = omega arith in
    let above : ltb 255 (value * 10 + (ch - 48)) ≡ true = ground arith in
    rw (level_loop, digit, same, above) refl

level_loop_sound :
    (room : ℕ) (text : Text) (value : ℕ) {level : ℕ}
    → value ≤ 255
    → level_loop room text value ≡ some level
    → Spells room value text level
unfolding level_loop numeral
level_loop_sound room [] value small h = (omega arith, tt, ground arith, ground arith, ground arith)
level_loop_sound zero (ch ∷ text) value small h = cc
level_loop_sound (suc room) (ch ∷ text) value {level} small h = elim (Bool-cases (is_digit ch)) [
  | inr e ↦ cc (level_no_digit room ch text value e)
  | inl digit ↦ elim (dec_lt 255 (value * 10 + (ch - 48))) [
    | yes large ↦ cc (level_too_large room ch text value digit small large)
    | no fits ↦
        let (l, d, e, low, high) =
          level_loop_sound room text (value * 10 + (ch - 48)) (omega arith)
            (sym (level_step room ch text value digit small (omega arith)) ∙ h) in
        (omega arith, (digit, d), e, low, high)
  ]
]

level_loop_complete :
    (room : ℕ) (text : Text) (value : ℕ) {level : ℕ}
    → value ≤ 255
    → Spells room value text level
    → level_loop room text value ≡ some level
unfolding level_loop numeral
level_loop_complete room [] value small (l, d, e, low, high) = ground arith
level_loop_complete zero (ch ∷ text) value small (l, d, e, low, high) = absurd (omega arith)
level_loop_complete (suc room) (ch ∷ text) value small (l, d, e, low, high) =
    let fits : value * 10 + (ch - 48) ≤ 255 =
      omega (arith, numeral_above text (value * 10 + (ch - 48))) in
    level_step room ch text value d.0 small fits
    ∙ level_loop_complete room text (value * 10 + (ch - 48)) fits (omega arith, d.1, e, low, high)

-- `threadRunLevelParse` accepts a text as a run level exactly if it is one to three decimal digits
-- that spell that level, and the level is 1 to 4.
pub thread_run_level_parse_iff :
    (text : Text) (level : ℕ)
    → (thread_run_level_parse text ≡ some level) ↔ ((1 ≤ length text) × Spells 3 0 text level)
unfolding thread_run_level_parse
thread_run_level_parse_iff [] level = (λ h. cc, λ h. absurd (omega (arith, h.0)))
thread_run_level_parse_iff (ch ∷ text) level = (
  λ h. (omega arith, level_loop_sound 3 (ch ∷ text) 0 (omega arith) h),
  λ h. level_loop_complete 3 (ch ∷ text) 0 (omega arith) h.1,
)
