-- ===== src/Common/Bits.antt =====
-- The bit macros of interfaces/tm_macros.h on one-byte registers, and their laws.
use task_mate.Common.{
  ℕ, zero, suc, ◌-◌, ◌^◌, ◌<◌, bit_and, bit_or, Bool, true, false, not, ◌&&◌, ◌||◌, ◌≡◌, refl, ◌==◌,
  ltb, if◌then◌else◌, arith,
}

-- `TM_BIT_MASK_8(bit)`, for a bit below 8
pub bit_mask : ℕ → ℕ
bit_mask b = 2 ^ b

-- `TM_SETBIT(reg, bit)`: `reg |= mask`
unfoldable pub set_bit : ℕ → ℕ → ℕ
unfolding bit_mask
set_bit reg b = bit_or reg (bit_mask b)

-- `TM_CLEARBIT(reg, bit)`: `reg &= (uint8_t)~mask`
unfoldable pub clear_bit : ℕ → ℕ → ℕ
unfolding bit_mask
clear_bit reg b = bit_and reg (255 - bit_mask b)

-- `TM_GETBIT(reg, bit) != 0U`
unfoldable pub get_bit : ℕ → ℕ → Bool
unfolding bit_mask
get_bit reg b = not (bit_and reg (bit_mask b) == 0)

-- A test on the numbers below a bound, run on each of them.
unfoldable pub check_below : ℕ → (ℕ → Bool) → Bool
check_below zero test = true
check_below (suc bound) test =
    let smaller = check_below bound test in if test bound then smaller else false

-- A test that was run below a bound holds of any number below it.
pub check_below-at :
    (bound : ℕ) (test : ℕ → Bool) (value : ℕ)
    → check_below bound test ≡ true
    → value < bound
    → test value ≡ true
unfolding check_below
check_below-at zero test value run small = absurd (omega arith)
check_below-at (suc bound) test value run small = ground (arith, check_below-at bound test value)

infix 40 ◌<=>◌
abbrev ◌<=>◌ : Bool → Bool → Bool
a <=> b = if a then b else not b

<=>→eq : (a b : Bool) → (a <=> b) ≡ true → a ≡ b
<=>→eq a b h = ground arith

abbrev set_law : ℕ → ℕ → ℕ → Bool
set_law b c reg = get_bit (set_bit reg b) c <=> (b == c || get_bit reg c)

abbrev clear_law : ℕ → ℕ → ℕ → Bool
clear_law b c reg = get_bit (clear_bit reg b) c <=> (not (b == c) && get_bit reg c)

abbrev range_law : ℕ → ℕ → Bool
range_law b reg = ltb (set_bit reg b) 256 && ltb (clear_bit reg b) 256

set_table : check_below 8 (λ b. check_below 8 (λ c. check_below 256 (set_law b c))) ≡ true
unfolding check_below set_bit get_bit
set_table = refl

clear_table : check_below 8 (λ b. check_below 8 (λ c. check_below 256 (clear_law b c))) ≡ true
unfolding check_below clear_bit get_bit
clear_table = refl

range_table : check_below 8 (λ b. check_below 256 (range_law b)) ≡ true
unfolding check_below set_bit clear_bit
range_table = refl

-- Setting one bit sets that bit and no other.
pub get_bit-set_bit :
    (reg b c : ℕ)
    → reg < 256
    → b < 8
    → c < 8
    → get_bit (set_bit reg b) c ≡ (b == c || get_bit reg c)
get_bit-set_bit reg b c hr hb hc =
    <=>→eq _ _
      (check_below-at 256 _ reg (check_below-at 8 _ c (check_below-at 8 _ b set_table hb) hc) hr)

-- Clearing one bit clears that bit and no other.
pub get_bit-clear_bit :
    (reg b c : ℕ)
    → reg < 256
    → b < 8
    → c < 8
    → get_bit (clear_bit reg b) c ≡ (not (b == c) && get_bit reg c)
get_bit-clear_bit reg b c hr hb hc =
    <=>→eq _ _
      (check_below-at 256 _ reg (check_below-at 8 _ c (check_below-at 8 _ b clear_table hb) hc) hr)

range_lem : (reg b : ℕ) → reg < 256 → b < 8 → range_law b reg ≡ true
range_lem reg b hr hb = check_below-at 256 _ reg (check_below-at 8 _ b range_table hb) hr

pub set_bit-lt : (reg b : ℕ) → reg < 256 → b < 8 → set_bit reg b < 256
set_bit-lt reg b hr hb = ground (arith, range_lem reg b hr hb)

pub clear_bit-lt : (reg b : ℕ) → reg < 256 → b < 8 → clear_bit reg b < 256
clear_bit-lt reg b hr hb = ground (arith, range_lem reg b hr hb)

mask_table : check_below 8 (λ b. ltb (bit_mask b) 256) ≡ true
unfolding check_below bit_mask
mask_table = refl

pub bit_mask-lt : (b : ℕ) → b < 8 → bit_mask b < 256
bit_mask-lt b hb = ground (arith, check_below-at 8 (λ c. ltb (bit_mask c) 256) b mask_table hb)

one_table : check_below 8 (λ b. check_below 8 (λ c. get_bit (bit_mask b) c <=> b == c)) ≡ true
unfolding check_below bit_mask get_bit
one_table = refl

-- A mask has its bit and no other.
pub get_bit-bit_mask : (b c : ℕ) → b < 8 → c < 8 → get_bit (bit_mask b) c ≡ (b == c)
get_bit-bit_mask b c hb hc =
    <=>→eq _ _ (check_below-at 8 _ c (check_below-at 8 _ b one_table hb) hc)
