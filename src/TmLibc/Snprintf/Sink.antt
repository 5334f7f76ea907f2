-- ===== src/TmLibc/Snprintf/Sink.antt =====
-- `putChar` into a buffer: the text goes to the places below size - 1, and the index counts it all.
use task_mate.Common.{
  ℕ, zero, suc, ◌+◌, ◌-◌, ◌≤◌, ◌<◌, ◌≡◌, refl, sym, ap, ◌∙◌, false, ◌&&◌, Option, none, some, List,
  [], ◌∷◌, ◌++◌, arith, ltb, if◌then◌else◌, u16, length, set, length-append,
}
use mathlib.Core.Option
use task_mate.TmLibc.Snprintf.{Console, Buffer, put_char}

-- `dest` with at most its first `k` places replaced by the bytes of `out`.
unfoldable pub overwrite : ℕ → List ℕ → List ℕ → List ℕ
overwrite zero dest out = dest
overwrite (suc k) [] out = []
overwrite (suc k) (x ∷ dest) [] = x ∷ dest
overwrite (suc k) (x ∷ dest) (ch ∷ out) = ch ∷ overwrite k dest out

pub length-overwrite : (k : ℕ) (dest out : List ℕ) → length (overwrite k dest out) ≡ length dest
unfolding overwrite
length-overwrite zero dest out = refl
length-overwrite (suc k) [] out = refl
length-overwrite (suc k) (x ∷ dest) [] = refl
length-overwrite (suc k) (x ∷ dest) (ch ∷ out) = ap suc (length-overwrite k dest out)

pub overwrite_nil : (n : ℕ) (d : List ℕ) → overwrite n d [] ≡ d
unfolding overwrite
overwrite_nil zero d = refl
overwrite_nil (suc n) [] = refl
overwrite_nil (suc n) (y ∷ d) = refl

-- One more byte, while there is room.
set-overwrite :
    (k : ℕ) (dest out : List ℕ) (ch : ℕ)
    → length out < k
    → set (overwrite k dest out) (length out) ch ≡ overwrite k dest (out ++ ch ∷ [])
unfolding overwrite
set-overwrite zero dest out ch h = elim h [ ]
set-overwrite (suc k) [] out ch h = refl
set-overwrite (suc k) (x ∷ dest) [] ch h = ap (λ r. ch ∷ r) (sym (overwrite_nil k dest))
set-overwrite (suc k) (x ∷ dest) (c ∷ out) ch h =
    ap (λ r. c ∷ r) (set-overwrite k dest out ch (omega arith))

-- Bytes beyond the room change nothing.
overwrite_full :
    (k : ℕ) (dest out : List ℕ) (ch : ℕ)
    → k ≤ length out
    → overwrite k dest (out ++ ch ∷ []) ≡ overwrite k dest out
unfolding overwrite
overwrite_full zero dest out ch h = refl
overwrite_full (suc k) [] out ch h = refl
overwrite_full (suc k) (x ∷ dest) [] ch h = absurd (omega arith)
overwrite_full (suc k) (x ∷ dest) (c ∷ out) ch h =
    ap (λ r. c ∷ r) (overwrite_full k dest out ch (omega arith))

-- The state of the sink after `out` went into a buffer that held `dest`. Where the index has
-- wrapped around, nothing is said of the buffer.
pub record Holds {S : Type 0} (ptr : Option (List ℕ)) (size : ℕ) (io : S) (out : List ℕ)
    (b : Buffer S) : Type 0 where
  pub to_buffer : b.console ≡ false
  pub no_failure : b.failed ≡ false
  pub same_size : b.size ≡ size
  pub counted : b.index ≡ u16 (length out)
  pub written : length out < 65536 → b.ptr ≡ Option.map (λ dest. overwrite (size - 1) dest out) ptr

-- What a byte does to the place that `ptr` names.
abbrev stored : Option (List ℕ) → ℕ → ℕ → ℕ → Option (List ℕ)
stored ptr size index ch =
    if ltb 0 size && ltb index (size - 1) then Option.map (λ p. set p index ch) ptr else ptr

pub put_char_fields :
    {S : Type 0} (c : Console S) (b : Buffer S) (ch : ℕ)
    → b.console ≡ false
    → ((put_char c b ch).console ≡ false)
      × ((put_char c b ch).failed ≡ b.failed)
      × ((put_char c b ch).size ≡ b.size)
      × ((put_char c b ch).index ≡ u16 (b.index + 1))
      × ((put_char c b ch).ptr ≡ stored b.ptr b.size b.index ch)
      × ((put_char c b ch).padding ≡ b.padding)
unfolding put_char
put_char_fields c b ch e = ground arith

stored_lem :
    (ptr : Option (List ℕ)) (size : ℕ) (out : List ℕ) (ch : ℕ)
    → stored (Option.map (λ dest. overwrite (size - 1) dest out) ptr) size (length out) ch
      ≡ Option.map (λ dest. overwrite (size - 1) dest (out ++ ch ∷ [])) ptr
stored_lem none size out ch = ground arith
stored_lem (some dest) size out ch =
    ground (arith, set-overwrite (size - 1) dest out ch, overwrite_full (size - 1) dest out ch)

module _ {S : Type 0} (c : Console S) (ptr : Option (List ℕ)) (size : ℕ) (io : S) where
  pub put_char-Holds :
      (b : Buffer S) (out : List ℕ) (ch : ℕ)
      → Holds ptr size io out b
      → Holds ptr size io (out ++ ch ∷ []) (put_char c b ch)
  put_char-Holds b out ch h =
      let (console, failed, same, index, place, padding) = put_char_fields c b ch h.to_buffer in
      record {
        to_buffer = console;
        no_failure = failed ∙ h.no_failure;
        same_size = same ∙ h.same_size;
        counted = omega (arith, index, h.counted, length-append out (ch ∷ []));
        written = λ fits.
            let longer = length-append out (ch ∷ []) in
            let small : length out < 65536 = omega (arith, longer) in
            let here : b.index ≡ length out = omega (arith, h.counted, small) in
            place ∙ rw (h.written small, h.same_size, here) (stored_lem ptr size out ch);
      }
