-- ===== src/TmLibc/Str/Copy.antt =====
-- `strncpy` fills exactly n bytes: the source, then zeros.
use task_mate.Common.{
  ℕ, zero, suc, ◌+◌, ◌≤◌, ◌<◌, ◌≡◌, refl, sym, ◌∙◌, ◌≢◌, ◌⊎◌, inl, inr, List, [], ◌∷◌, arith,
  ℕ_discrete, length, get_or, set, length-set, get_or-set_self, get_or-set_ne,
}
use task_mate.TmLibc.Str.{Text, IsText, string_get_byte, strncpy, copy, pad}

length-pad : (n : ℕ) (dest : List ℕ) (i : ℕ) → length (pad n dest i) ≡ length dest
unfolding pad
length-pad zero dest i = refl
length-pad (suc n) dest i = length-pad n (set dest i 0) (suc i) ∙ length-set dest i 0

pad_below : (n : ℕ) (dest : List ℕ) (i j : ℕ) → j < i → get_or (pad n dest i) j 0 ≡ get_or dest j 0
unfolding pad
pad_below zero dest i j h = refl
pad_below (suc n) dest i j h =
    pad_below n (set dest i 0) (suc i) j (omega arith) ∙ get_or-set_ne dest 0 0 (omega arith)

pad_above :
    (n : ℕ) (dest : List ℕ) (i j : ℕ) → i + n ≤ j → get_or (pad n dest i) j 0 ≡ get_or dest j 0
unfolding pad
pad_above zero dest i j h = refl
pad_above (suc n) dest i j h =
    pad_above n (set dest i 0) (suc i) j (omega arith) ∙ get_or-set_ne dest 0 0 (omega arith)

pad_inside :
    (n : ℕ) (dest : List ℕ) (i j : ℕ)
    → i ≤ j
    → j < i + n
    → i + n ≤ length dest
    → get_or (pad n dest i) j 0 ≡ 0
unfolding pad
pad_inside zero dest i j h k l = absurd (omega arith)
pad_inside (suc n) dest i j h k l = elim (ℕ_discrete i j) [
  | yes e ↦
      pad_below n (set dest i 0) (suc i) j (omega arith)
      ∙ rw e (get_or-set_self dest j 0 0 (omega arith))
  | no ne ↦
      pad_inside n (set dest i 0) (suc i) j (omega arith) (omega arith)
        (omega (arith, length-set dest i 0))
]

-- Behind the end of a text all bytes read 0.
get_byte_end :
    (s : Text) (i j : ℕ) → IsText s → string_get_byte s i ≡ 0 → i ≤ j → string_get_byte s j ≡ 0
get_byte_end [] i j t h l = refl
get_byte_end (x ∷ xs) zero j t h l = absurd (omega (arith, t.0.0))
get_byte_end (x ∷ xs) (suc i) zero t h l = absurd (omega arith)
get_byte_end (x ∷ xs) (suc i) (suc j) t h l = get_byte_end xs i j t.1 h (omega arith)

module _ (src : Text) (t : IsText src) where
  copy_stop :
      (n : ℕ) (dest : List ℕ) (i : ℕ)
      → string_get_byte src i ≡ 0
      → copy (suc n) dest src i ≡ pad n (set dest i (string_get_byte src i)) (suc i)
  unfolding copy
  copy_stop n dest i h = ground arith

  copy_on :
      (n : ℕ) (dest : List ℕ) (i : ℕ)
      → string_get_byte src i ≢ 0
      → copy (suc n) dest src i ≡ copy n (set dest i (string_get_byte src i)) src (suc i)
  unfolding copy
  copy_on n dest i h = ground arith

  copy_outside :
      (n : ℕ) (dest : List ℕ) (i j : ℕ)
      → (j < i) ⊎ (i + n ≤ j)
      → get_or (copy n dest src i) j 0 ≡ get_or dest j 0
  copy_outside zero dest i j h = unfold copy in refl
  copy_outside (suc n) dest i j h = elim (ℕ_discrete (string_get_byte src i) 0) [
    | yes e ↦ rw (copy_stop n dest i e) (padded h ∙ get_or-set_ne dest _ 0 (omega arith))
    | no ne ↦ rw (copy_on n dest i ne) (
        copy_outside n (set dest i (string_get_byte src i)) (suc i) j (outside h)
        ∙ get_or-set_ne dest _ 0 (omega arith))
  ]
    where
      padded :
          (j < i) ⊎ (i + suc n ≤ j)
          → get_or (pad n (set dest i (string_get_byte src i)) (suc i)) j 0
            ≡ get_or (set dest i (string_get_byte src i)) j 0
      padded (inl a) = pad_below n _ (suc i) j (omega arith)
      padded (inr b) = pad_above n _ (suc i) j (omega arith)

      outside : (j < i) ⊎ (i + suc n ≤ j) → (j < suc i) ⊎ (suc i + n ≤ j)
      outside (inl a) = inl (omega arith)
      outside (inr b) = inr (omega arith)

  copy_head :
      (n : ℕ) (dest : List ℕ) (i : ℕ)
      → i < length dest
      → get_or (copy (suc n) dest src i) i 0 ≡ string_get_byte src i
  copy_head n dest i l = elim (ℕ_discrete (string_get_byte src i) 0) [
    | yes e ↦
        rw (copy_stop n dest i e)
          (pad_below n _ (suc i) i (omega arith) ∙ get_or-set_self dest i _ 0 l)
    | no ne ↦
        rw (copy_on n dest i ne)
          (copy_outside n _ (suc i) i (inl (omega arith)) ∙ get_or-set_self dest i _ 0 l)
  ]

  copy_inside :
      (n : ℕ) (dest : List ℕ) (i j : ℕ)
      → i ≤ j
      → j < i + n
      → i + n ≤ length dest
      → get_or (copy n dest src i) j 0 ≡ string_get_byte src j
  copy_inside zero dest i j h k l = absurd (omega arith)
  copy_inside (suc n) dest i j h k l = elim (ℕ_discrete i j) [
    | yes e ↦ rw (← e) (copy_head n dest i (omega arith))
    | no ne ↦ elim (ℕ_discrete (string_get_byte src i) 0) [
      | yes z ↦ rw (copy_stop n dest i z) (
          pad_inside n _ (suc i) j (omega arith) (omega arith)
            (omega (arith, length-set dest i (string_get_byte src i)))
          ∙ sym (get_byte_end src i j t z h))
      | no nz ↦ rw (copy_on n dest i nz) (
          copy_inside n (set dest i (string_get_byte src i)) (suc i) j (omega arith) (omega arith)
            (omega (arith, length-set dest i (string_get_byte src i))))
    ]
  ]

  length-copy : (n : ℕ) (dest : List ℕ) (i : ℕ) → length (copy n dest src i) ≡ length dest
  length-copy zero dest i = unfold copy in refl
  length-copy (suc n) dest i = elim (ℕ_discrete (string_get_byte src i) 0) [
    | yes z ↦ rw (copy_stop n dest i z) (length-pad n _ (suc i) ∙ length-set dest i _)
    | no nz ↦ rw (copy_on n dest i nz) (length-copy n _ (suc i) ∙ length-set dest i _)
  ]

-- `strncpy` into a buffer of at least n bytes writes at each of its first n places the byte of the
-- source, 0 from its end on, leaves the places from n on as they were, and the size as it was.
pub strncpy_lem :
    (dest : List ℕ) (src : Text) (n : ℕ)
    → IsText src
    → n ≤ length dest
    → (length (strncpy dest src n) ≡ length dest)
      × ((j : ℕ) → j < n → get_or (strncpy dest src n) j 0 ≡ string_get_byte src j)
      × ((j : ℕ) → n ≤ j → get_or (strncpy dest src n) j 0 ≡ get_or dest j 0)
unfolding strncpy
strncpy_lem dest src n t l = (
  length-copy src t n dest 0,
  λ j h. copy_inside src t n dest 0 j (omega arith) (omega arith) (omega arith),
  λ j h. copy_outside src t n dest 0 j (inr (omega arith)),
)
