-- ===== src/TmLibc/Snprintf/Digits.antt =====
-- `baseConvert` writes a number in a base: reading the digits back gives the number.
use native.Mathlib.Nat.{pow-succ'}
use task_mate.Common.{
  ℕ, zero, suc, ◌+◌, ◌-◌, ◌*◌, ◌/◌, ◌%◌, ◌^◌, ◌≤◌, ◌<◌, ◌≡◌, refl, ap, ◌∙◌, ◌≢◌, inl, inr, true,
  List, [], ◌∷◌, arith, ℕ_discrete, ltb, ◌==◌, if◌then◌else◌, ==_iff, Bool-cases, length, get_or,
}
use task_mate.Common.Bits.{check_below, check_below-at}
use task_mate.TmLibc.Snprintf.{
  digit_chars, convert_loop, pad_zeros, base_convert, snprintf_buff_temp_size,
}

-- The value of a digit, and of a numeral most significant digit first, behind a value so far.
pub digit_value : ℕ → ℕ
digit_value ch = if ltb ch b'a' then ch - b'0' else ch - b'a' + 10

unfoldable pub read_digits : ℕ → ℕ → List ℕ → ℕ
read_digits base acc [] = acc
read_digits base acc (ch ∷ chs) = read_digits base (acc * base + digit_value ch) chs

digit_table : check_below 16 (λ d. digit_value (get_or digit_chars d 0) == d) ≡ true
unfolding check_below digit_value
digit_table = refl

digit_lem : (d : ℕ) → d < 16 → digit_value (get_or digit_chars d 0) ≡ d
digit_lem d h = (==_iff _ _).0 (check_below-at 16 _ d digit_table h)

-- A value below 2 * m halves below m in any base from 2 on.
div_below : (value base m : ℕ) → 2 ≤ base → value < 2 * m → value / base < m
div_below value base m h k = grind arith

-- Taking the last digit off and reading it back.
split_digit : (value base : ℕ) → value / base * base + value % base ≡ value
split_digit value base = grind arith

read_step :
    (value base : ℕ) (tmp : List ℕ)
    → 2 ≤ base
    → base ≤ 16
    → read_digits base (value / base) (get_or digit_chars (value % base) 0 ∷ tmp)
      ≡ read_digits base value tmp
unfolding read_digits
read_step value base tmp low high =
    ap (λ v. read_digits base v tmp)
      (ap (λ d. value / base * base + d) (digit_lem (value % base) (omega arith))
        ∙ split_digit value base)

convert_stop : (room base : ℕ) (tmp : List ℕ) → convert_loop (suc room) 0 base tmp ≡ tmp
unfolding convert_loop
convert_stop room base tmp = refl

convert_more :
    (room value base : ℕ) (tmp : List ℕ)
    → value ≢ 0
    → convert_loop (suc room) value base tmp
      ≡ convert_loop room (value / base) base (get_or digit_chars (value % base) 0 ∷ tmp)
unfolding convert_loop
convert_more room value base tmp ne = ground arith

convert_loop_lem :
    (room value base : ℕ) (tmp : List ℕ)
    → 2 ≤ base
    → base ≤ 16
    → value < 2 ^ room
    → read_digits base 0 (convert_loop room value base tmp) ≡ read_digits base value tmp
convert_loop_lem zero value base tmp low high h =
    let e : value ≡ 0 = omega arith in rw e (unfold convert_loop in refl)
convert_loop_lem (suc room) value base tmp low high h = elim (ℕ_discrete value 0) [
  | yes e ↦ rw e (ap (read_digits base 0) (convert_stop room base tmp))
  | no ne ↦ rw (convert_more room value base tmp ne) (
      convert_loop_lem room (value / base) base (get_or digit_chars (value % base) 0 ∷ tmp) low high
        (div_below value base (2 ^ room) low (half room h))
      ∙ read_step value base tmp low high)
]
  where
    half : (r : ℕ) → value < 2 ^ suc r → value < 2 * 2 ^ r
    half r q = rw (← pow-succ' 2 r) q

read_zeros :
    (n base : ℕ) (tmp : List ℕ) → read_digits base 0 (pad_zeros n tmp) ≡ read_digits base 0 tmp
unfolding read_digits pad_zeros digit_value
read_zeros zero base tmp = refl
read_zeros (suc n) base tmp =
    read_zeros n base (b'0' ∷ tmp)
    ∙ ap (λ a. read_digits base a tmp) (let z : 0 * base + 0 ≡ 0 = omega arith in z)

length-pad_zeros : (n : ℕ) (tmp : List ℕ) → length (pad_zeros n tmp) ≡ n + length tmp
unfolding pad_zeros
length-pad_zeros zero tmp = omega arith
length-pad_zeros (suc n) tmp = omega (arith, length-pad_zeros n (b'0' ∷ tmp))

-- The digits before the padding.
abbrev digits_of : ℕ → ℕ → List ℕ
digits_of value base =
    if value == 0 then b'0' ∷ [] else convert_loop snprintf_buff_temp_size value base []

read-digits_of :
    (value base : ℕ)
    → 2 ≤ base
    → base ≤ 16
    → value < 2 ^ 32
    → read_digits base 0 (digits_of value base) ≡ value
read-digits_of value base low high h = elim (Bool-cases (value == 0)) [
  | inl e ↦
      let z : value ≡ 0 = (==_iff value 0).0 e in
      rw z (unfold read_digits digit_value in (omega arith))
  | inr e ↦ rw e (convert_loop_lem 32 value base [] low high h ∙ (unfold read_digits in refl))
]

-- What `baseConvert` puts out in base 2 to 16 for an `unsigned int` of at most 32 bits reads back
-- as that number in that base, and is at least as long as the padding asks.
pub base_convert_lem :
    (padding value base : ℕ)
    → 2 ≤ base
    → base ≤ 16
    → value < 2 ^ 32
    → (read_digits base 0 (base_convert padding value base) ≡ value)
      × (padding ≤ length (base_convert padding value base))
unfolding base_convert
base_convert_lem padding value base low high h = (
  read_zeros (padding - length (digits_of value base)) base (digits_of value base)
      ∙ read-digits_of value base low high h,
  omega (arith, length-pad_zeros (padding - length (digits_of value base)) (digits_of value base)),
)
