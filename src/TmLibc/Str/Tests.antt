-- ===== src/TmLibc/Str/Tests.antt =====
-- The string functions of tm_string.c on small texts.
use task_mate.Common.{ℕ, ◌≡◌, refl, ◌↔◌, List, [], ◌∷◌, arith, take, pos}
use task_mate.TmLibc.Str.{Text, IsText, strncmp, strncpy}
use task_mate.TmLibc.Str.Compare.{strncmp_zero_iff}

abbrev short : Text
short = b'o' ∷ b'k' ∷ []

abbrev long : Text
long = b'o' ∷ b'k' ∷ b'o' ∷ []

short-IsText : IsText short
short-IsText = ((omega arith, omega arith), ((omega arith, omega arith), tt))

long-IsText : IsText long
long-IsText =
    ((omega arith, omega arith), ((omega arith, omega arith), ((omega arith, omega arith), tt)))

strncmp_zero_iff_example : (strncmp short long 2 ≡ pos 0) ↔ (take 2 short ≡ take 2 long)
strncmp_zero_iff_example = strncmp_zero_iff 2 short long short-IsText long-IsText

abbrev dest : List ℕ
dest = 9 ∷ 9 ∷ 9 ∷ 9 ∷ 9 ∷ []

padded : strncpy dest short 4 ≡ b'o' ∷ b'k' ∷ 0 ∷ 0 ∷ 9 ∷ []
unfolding strncpy
padded = refl
