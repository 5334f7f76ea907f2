-- ===== src/Hal/Usart/Contents.antt =====
-- The circular buffers of at2560_usart.c hold a queue of at most 63 bytes.
use task_mate.Common.{
  ℕ, zero, suc, ◌+◌, ◌-◌, ◌%◌, ◌<◌, ◌≡◌, refl, sym, subst, ap, ap₂, ◌∙◌, ◌≢◌, ◌↔◌, true, false,
  List, [], ◌∷◌, ◌++◌, arith, ◌==◌, ==_iff, length, get_or, set, length-set, get_or-set_self,
  get_or-set_ne,
}
use task_mate.Common.Bits.{check_below, check_below-at}
use task_mate.Hal.Usart.{CircularBuffer, cb_next, cb_full, cb_empty, store, fetch}

abbrev pub IsBuffer : CircularBuffer → Type 0
IsBuffer r = (length r.slots ≡ 64) × (r.head < 64) × (r.tail < 64)

-- `n` bytes from place `i` on, around the end.
unfoldable pub window : ℕ → ℕ → List ℕ → List ℕ
window zero i slots = []
window (suc n) i slots = get_or slots i 0 ∷ window n ((i + 1) % 64) slots

abbrev pub count : CircularBuffer → ℕ
count r = (r.head + 64 - r.tail) % 64

-- The bytes in the buffer, the oldest first.
pub contents : CircularBuffer → List ℕ
contents r = window (count r) r.tail r.slots

mask_table : check_below 64 (λ i. cb_next i == (i + 1) % 64) ≡ true
unfolding check_below cb_next
mask_table = refl

pub cb_next_lem : (i : ℕ) → i < 64 → cb_next i ≡ (i + 1) % 64
cb_next_lem i h = (==_iff _ _).0 (check_below-at 64 _ i mask_table h)

length-window : (n i : ℕ) (slots : List ℕ) → length (window n i slots) ≡ n
unfolding window
length-window zero i slots = refl
length-window (suc n) i slots = ap suc (length-window n ((i + 1) % 64) slots)

pub length-contents : (r : CircularBuffer) → length (contents r) ≡ count r
unfolding contents
length-contents r = length-window (count r) r.tail r.slots

-- A byte that is stored behind the window extends it.
window_store :
    (n i h v : ℕ) (slots : List ℕ)
    → length slots ≡ 64
    → i < 64
    → h ≡ (i + n) % 64
    → n < 64
    → window (suc n) i (set slots h v) ≡ window n i slots ++ v ∷ []
unfolding window
window_store zero i h v slots l a e b =
    let same : h ≡ i = omega arith in
    subst (λ k. get_or (set slots k v) i 0 ∷ [] ≡ v ∷ []) (sym same)
      (ap (λ x. x ∷ []) (get_or-set_self slots i v 0 (omega arith)))
window_store (suc n) i h v slots l a e b =
    let ne : h ≢ i = omega arith in
    ap₂ (λ x xs. x ∷ xs) (get_or-set_ne slots v 0 ne)
      (window_store n ((i + 1) % 64) h v slots l (omega arith) (omega arith) (omega arith))

not_full : (r : CircularBuffer) → IsBuffer r → cb_full r ≡ false → (r.head + 1) % 64 ≢ r.tail
unfolding cb_full
not_full r ok h =
    let h' : ((r.head + 1) % 64 == r.tail) ≡ false =
      subst (λ k. (k == r.tail) ≡ false) (cb_next_lem r.head ok.1) h in
    ground arith

pub full_iff : (r : CircularBuffer) → IsBuffer r → (cb_full r ≡ true) ↔ (length (contents r) ≡ 63)
unfolding cb_full
full_iff r ok = rw (cb_next_lem r.head ok.1, length-contents r) (ground arith)

pub empty_iff : (r : CircularBuffer) → IsBuffer r → (cb_empty r ≡ true) ↔ (contents r ≡ [])
unfolding contents window
empty_iff r ok = (
  (λ h. rw (count_zero h) refl),
  (λ h. let z : count r ≡ 0 = sym (length-contents r) ∙ ap length h in ground arith),
)
  where
    count_zero : cb_empty r ≡ true → count r ≡ 0
    count_zero h = ground arith

pub store_lem :
    (r : CircularBuffer) (v : ℕ)
    → IsBuffer r
    → cb_full r ≡ false
    → IsBuffer (store v r) × (contents (store v r) ≡ contents r ++ v ∷ [])
unfolding contents
store_lem r v ok h =
    let ne = not_full r ok h in
    let next = cb_next_lem r.head ok.1 in
    let more : count (store v r) ≡ suc (count r) =
      subst (λ k. (k + 64 - r.tail) % 64 ≡ suc (count r)) (sym next) (omega (arith, ok.1, ok.2)) in
    (
      (length-set r.slots r.head v ∙ ok.0, subst (λ k. k < 64) (sym next) (omega arith), ok.2),
      ap (λ n. window n r.tail (set r.slots r.head v)) more
          ∙ window_store (count r) r.tail r.head v r.slots ok.0 ok.2 (omega (arith, ok.1, ok.2))
              (omega (arith, ne, ok.1, ok.2)),
    )

pub fetch_lem :
    (r : CircularBuffer)
    → IsBuffer r
    → cb_empty r ≡ false
    → IsBuffer (fetch r).0 × (contents r ≡ (fetch r).1 ∷ contents (fetch r).0)
unfolding contents window
fetch_lem r ok h =
    let ne : r.head ≢ r.tail = ground arith in
    let next = cb_next_lem r.tail ok.2 in
    let more : count r ≡ suc ((r.head + 64 - (r.tail + 1) % 64) % 64) = omega (arith, ok.1, ok.2) in
    (
      (ok.0, ok.1, subst (λ k. k < 64) (sym next) (omega arith)),
      ap (λ n. window n r.tail r.slots) more ∙ rw next refl,
    )
