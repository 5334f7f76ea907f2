-- ===== src/TmLibc/Snprintf/Output.antt =====
-- `vsnprintf` on a format that is made of literal bytes and conversions.
use task_mate.Common.{
  ℕ, zero, suc, ◌+◌, ◌-◌, ◌≤◌, ◌<◌, min, ◌≡◌, refl, sym, ap, ◌∙◌, false, Option, some, List, [],
  ◌∷◌, ◌++◌, arith, ltb, leb, if◌then◌else◌, length, set, take, drop, negsuc, pos,
}
use mathlib.Core.Option
use task_mate.TmLibc.Snprintf.{Console, Buffer, Arg, vsnprintf, format_string, terminate}
use task_mate.TmLibc.Snprintf.Sink.{Holds, put_char-Holds, overwrite, overwrite_nil}
use task_mate.TmLibc.Snprintf.Format.{Piece, print, IsCall, meaning}
use task_mate.TmLibc.Snprintf.Loop.{IsSink, format_loop_lem}

repad :
    {S : Type 0} {ptr : Option (List ℕ)} {size : ℕ} {io : S} (b : Buffer S) (d : ℕ) {out : List ℕ}
    → Holds ptr size io out b
    → Holds ptr size io out (record b { padding = d })
repad b d h = record {
  to_buffer = h.to_buffer;
  no_failure = h.no_failure;
  same_size = h.same_size;
  counted = h.counted;
  written = h.written;
}

-- A buffer of the caller is a sink.
buffer-IsSink :
    {S : Type 0} (c : Console S) (ptr : Option (List ℕ)) (size : ℕ) (io : S)
    → IsSink c (Holds ptr size io)
buffer-IsSink c ptr size io = record {
  on_char = put_char-Holds c ptr size io;
  on_padding = λ b d h. repad b d h;
}

-- The terminator goes behind the bytes that were kept.
terminated :
    (k i : ℕ) (dest out : List ℕ)
    → i ≡ min (length out) k
    → k < length dest
    → set (overwrite k dest out) i 0 ≡ take k out ++ 0 ∷ drop (suc i) dest
unfolding overwrite
terminated k i [] out e h = absurd (omega arith)
terminated zero zero (x ∷ dest) out e h = refl
terminated zero (suc i) (x ∷ dest) out e h = absurd (omega arith)
terminated (suc k) zero (x ∷ dest) [] e h = refl
terminated (suc k) (suc i) (x ∷ dest) [] e h = absurd (omega arith)
terminated (suc k) zero (x ∷ dest) (ch ∷ out) e h = absurd (omega arith)
terminated (suc k) (suc i) (x ∷ dest) (ch ∷ out) e h =
    ap (λ r. ch ∷ r) (terminated k i dest out (omega arith) (omega arith))

-- The state that `formatString` starts with on a buffer.
abbrev opened : {S : Type 0} → Option (List ℕ) → ℕ → S → Buffer S
opened ptr size io = record {
  ptr = ptr;
  size = size;
  index = 0;
  padding = 0;
  console = false;
  failed = false;
  io = io;
}

opened-Holds :
    {S : Type 0} (dest : List ℕ) (size : ℕ) (io : S)
    → Holds (some dest) size io [] (opened (some dest) size io)
opened-Holds dest size io = record {
  to_buffer = refl;
  no_failure = refl;
  same_size = refl;
  counted = refl;
  written = λ fits. ap some (sym (overwrite_nil (size - 1) dest));
}

terminate_fields :
    {S : Type 0} (c : Console S) (b : Buffer S)
    → 0 < b.size
    → ((terminate c b).failed ≡ b.failed)
      × ((terminate c b).index ≡ b.index)
      × ((terminate c b).ptr
          ≡ Option.map (λ p. set p (if leb b.size b.index then b.size - 1 else b.index) 0) b.ptr)
unfolding terminate
terminate_fields c b h = ground arith

terminate_lem :
    {S : Type 0} (c : Console S) (dest : List ℕ) (size : ℕ) (io : S) (out : List ℕ) (b : Buffer S)
    → 0 < size
    → size ≤ length dest
    → length out < 65536
    → Holds (some dest) size io out b
    → ((terminate c b).failed ≡ false)
      × ((terminate c b).index ≡ length out)
      × ((terminate c b).ptr
          ≡ some (take (size - 1) out ++ 0 ∷ drop (suc (min (length out) (size - 1))) dest))
terminate_lem c dest size io out b pos_size fits short h =
    let counted : b.index ≡ length out = omega (arith, h.counted) in
    let (failed, index, ptr) = terminate_fields c b (rw h.same_size pos_size) in
    let e : (if leb size (length out) then size - 1 else length out) ≡ min (length out) (size - 1) =
      ground arith in
    (
      failed ∙ h.no_failure,
      index ∙ counted,
      ptr
          ∙ rw (h.same_size, counted, h.written short, e)
              (ap some
                (terminated (size - 1) (min (length out) (size - 1)) dest out refl (omega arith))),
    )

-- `vsnprintf` into a buffer of `size` bytes, on a format made of literal bytes and conversions
-- `%c %s %u %x %b %%` with an optional width `0d`, and with arguments that fit them, where the whole
-- text has less than 65536 bytes, as have the format and each string, and each number has 16 bits: it
-- returns the length of the text, or -1 where that exceeds INT_MAX, and it leaves in the buffer the
-- first `size - 1` bytes of the text at most, a terminator, and the old bytes behind it.
pub vsnprintf_lem :
    {S : Type 0} (c : Console S) (int_max size : ℕ) (dest : List ℕ) (io : S) (ps : List Piece)
    (args : List Arg) {out : List ℕ}
    → 0 < size
    → size ≤ length dest
    → IsCall ps args
    → meaning ps args ≡ some out
    → length out < 65536
    → (b : Buffer S) × (vsnprintf c int_max (some dest) size io (print ps) args
        ≡ some (b, if ltb int_max (length out) then negsuc 0 else pos (length out)))
      × (b.ptr ≡ some (take (size - 1) out ++ 0 ∷ drop (suc (min (length out) (size - 1))) dest))
unfolding vsnprintf format_string
vsnprintf_lem c int_max size dest io ps args {out} pos_size fits (good, format_fits, args_fit) m
      short =
    let (b', ends, h) =
      format_loop_lem c (buffer-IsSink c (some dest) size io) ps args good m
        (opened (some dest) size io) [] (length (print ps) + 1) refl (opened-Holds dest size io)
        (omega arith) in
    let (failed, index, ptr) = terminate_lem c dest size io out b' pos_size fits short h in
    (terminate c b', rw (vsnprintf, format_string, ends, failed, index) refl, ptr)
