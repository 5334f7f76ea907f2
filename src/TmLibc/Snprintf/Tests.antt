-- ===== src/TmLibc/Snprintf/Tests.antt =====
-- The formatter of tm_snprintf.c on small formats.
use task_mate.Common.{
  ℕ, suc, ◌≤◌, min, ◌≡◌, refl, none, some, List, [], ◌∷◌, ◌++◌, arith, ltb, if◌then◌else◌, length,
  take, drop, negsuc, pos,
}
use task_mate.Interfaces.{no_error}
use task_mate.TmLibc.Snprintf.{
  Console, Buffer, Arg, num, str, base_convert, vsnprintf, pad_zeros, convert_loop,
}
use task_mate.TmLibc.Snprintf.Digits.{read_digits, base_convert_lem}
use task_mate.TmLibc.Snprintf.Format.{
  Piece, lit, conv, decimal, string, print, meaning, IsCall, emit,
}
use task_mate.TmLibc.Snprintf.Output.{vsnprintf_lem}

base_convert_lem_example :
    (read_digits 16 0 (base_convert 4 48879 16) ≡ 48879) × (4 ≤ length (base_convert 4 48879 16))
base_convert_lem_example = base_convert_lem 4 48879 16 (omega arith) (omega arith) (omega arith)

-- A console that keeps what was written to it.
abbrev memory : Console (List ℕ)
memory = record { write_byte = λ ch s. (s ++ ch ∷ [], no_error); flush = λ s. (s, no_error) }

-- `%02u:%s`
abbrev pieces : List Piece
pieces = conv (some 2) decimal ∷ lit b':' ∷ conv none string ∷ []

abbrev values : List Arg
values = num 7 ∷ str (b'o' ∷ b'k' ∷ []) ∷ []

abbrev dest : List ℕ
dest = 9 ∷ 9 ∷ 9 ∷ 9 ∷ 9 ∷ 9 ∷ []

abbrev output : List ℕ
output = b'0' ∷ b'7' ∷ b':' ∷ b'o' ∷ b'k' ∷ []

means : meaning pieces values ≡ some output
unfolding meaning emit base_convert pad_zeros convert_loop
means = refl

good : IsCall pieces values
unfolding print
good = ((omega arith, (omega arith, (tt, tt))), omega arith, (omega arith, (omega arith, tt)))

vsnprintf_lem_example :
    (b : Buffer (List ℕ)) × (vsnprintf memory 32767 (some dest) 5 [] (print pieces) values
      ≡ some (b, if ltb 32767 5 then negsuc 0 else pos 5))
    × (b.ptr ≡ some (take 4 output ++ 0 ∷ drop (suc (min 5 4)) dest))
vsnprintf_lem_example =
    vsnprintf_lem memory 32767 5 dest [] pieces values (omega arith) (omega arith) good means
      (omega arith)
