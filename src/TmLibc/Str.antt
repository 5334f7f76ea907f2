-- ===== src/TmLibc/Str.antt =====
-- srcs/tmLibc/tm_string.c and `sc_stringGetByte` of srcs/system/sysCall/sc_string.c. A string is
-- the list of its bytes without the terminator: reading there gives 0.
pub mod Compare
pub mod Copy
mod Tests
use task_mate.Common.{
  ℕ, zero, suc, ◌<◌, not, List, ◌==◌, if◌then◌else◌, get_or, set, All, ℤ, sub_ℕ, pos,
}

abbrev pub Text : Type 0
Text = List ℕ

-- Bytes of a C string: none is the terminator.
abbrev pub IsText : Text → Type 0
IsText = All (λ b. (0 < b) × (b < 256))

-- `sc_stringGetByte`, on a string whose pointers are not NULL. RAM and ROM storage read alike.
abbrev pub string_get_byte : Text → ℕ → ℕ
string_get_byte string index = get_or string index 0

-- The loop of `strncmp`, `n` rounds from `i` on.
unfoldable pub strncmp_loop : ℕ → Text → Text → ℕ → ℤ
strncmp_loop zero left right i = pos 0
strncmp_loop (suc n) left right i =
    let left_byte = string_get_byte left i in
    let right_byte = string_get_byte right i in
    let rest = strncmp_loop n left right (suc i) in
    if not (left_byte == right_byte)
    then sub_ℕ left_byte right_byte
    else if left_byte == 0
    then pos 0
    else rest

unfoldable pub strncmp : Text → Text → ℕ → ℤ
strncmp left right n = strncmp_loop n left right 0

-- The second loop of `strncpy`, `n` rounds from `i` on.
pad : ℕ → List ℕ → ℕ → List ℕ
pad zero dest i = dest
pad (suc n) dest i = pad n (set dest i 0) (suc i)

-- The first loop, which goes over to the second behind a terminator.
copy : ℕ → List ℕ → Text → ℕ → List ℕ
copy zero dest src i = dest
copy (suc n) dest src i =
    let value = string_get_byte src i in
    let dest' = set dest i value in
    let rest = copy n dest' src (suc i) in if value == 0 then pad n dest' (suc i) else rest

-- `strncpy` gives the bytes of `dest` behind the call.
unfoldable pub strncpy : List ℕ → Text → ℕ → List ℕ
unfolding copy pad
strncpy dest src n = copy n dest src 0
