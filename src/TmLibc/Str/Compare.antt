-- ===== src/TmLibc/Str/Compare.antt =====
-- `strncmp` compares the first n bytes of two strings.
use task_mate.Common.{
  ℕ, zero, suc, ◌<◌, ◌≡◌, refl, ap, ◌≢◌, ◌↔◌, [], ◌∷◌, arith, ℕ_discrete, take, pos,
}
use task_mate.TmLibc.Str.{Text, IsText, strncmp, strncmp_loop}

strncmp_loop-cons :
    (n : ℕ) (x y : ℕ) (l r : Text) (i : ℕ)
    → strncmp_loop n (x ∷ l) (y ∷ r) (suc i) ≡ strncmp_loop n l r i
unfolding strncmp_loop
strncmp_loop-cons zero x y l r i = refl
strncmp_loop-cons (suc n) x y l r i = rw (strncmp_loop-cons n x y l r (suc i)) refl

-- A byte of a text against the end of the other.
ends_differ : (n b : ℕ) → 0 < b → (l : Text) → ¬ (strncmp (b ∷ l) [] (suc n) ≡ pos 0)
unfolding strncmp strncmp_loop
ends_differ n b h l e = ground arith

ends_differ' : (n b : ℕ) → 0 < b → (l : Text) → ¬ (strncmp [] (b ∷ l) (suc n) ≡ pos 0)
unfolding strncmp strncmp_loop
ends_differ' n b h l e = ground arith

strncmp_nil : (n : ℕ) → strncmp [] [] n ≡ pos 0
unfolding strncmp strncmp_loop
strncmp_nil zero = refl
strncmp_nil (suc n) = refl

strncmp_same : (n x : ℕ) (l r : Text) → 0 < x → strncmp (x ∷ l) (x ∷ r) (suc n) ≡ strncmp l r n
unfolding strncmp strncmp_loop
strncmp_same n x l r h = ground (arith, strncmp_loop-cons n x x l r 0)

strncmp_other : (n x y : ℕ) (l r : Text) → x ≢ y → ¬ (strncmp (x ∷ l) (y ∷ r) (suc n) ≡ pos 0)
unfolding strncmp strncmp_loop
strncmp_other n x y l r ne e = ground arith

-- `strncmp` answers 0 exactly when the first n bytes of the two strings are the same (all of a
-- shorter string counting).
pub strncmp_zero_iff :
    (n : ℕ) (left right : Text)
    → IsText left
    → IsText right
    → (strncmp left right n ≡ pos 0) ↔ (take n left ≡ take n right)
strncmp_zero_iff zero left right tl tr = (λ h. refl, λ h. unfold strncmp strncmp_loop in refl)
strncmp_zero_iff (suc n) [] [] tl tr = (λ h. refl, λ h. strncmp_nil (suc n))
strncmp_zero_iff (suc n) (x ∷ l) [] tl tr = (λ h. absurd (ends_differ n x tl.0.0 l h), λ h. cc)
strncmp_zero_iff (suc n) [] (y ∷ r) tl tr = (λ h. absurd (ends_differ' n y tr.0.0 r h), λ h. cc)
strncmp_zero_iff (suc n) (x ∷ l) (y ∷ r) tl tr = elim (ℕ_discrete x y) [
  | yes e ↦
      let ih = strncmp_zero_iff n l r tl.1 tr.1 in
      rw (e, strncmp_same n y l r tr.0.0) ((λ h. ap (λ s. y ∷ s) (ih.0 h)), (λ h. ih.1 (cc)))
  | no ne ↦ (λ h. absurd (strncmp_other n x y l r ne h), λ h. absurd (ne (cc)))
]
