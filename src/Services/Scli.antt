-- ===== src/Services/Scli.antt =====
-- srcs/system/services/scli.c: a line is read, split into arguments in place, and dispatched.
pub mod Overlong
mod Tests
use task_mate.Common.{
  ℕ, zero, suc, ◌+◌, ◌-◌, Bool, true, false, not, ◌&&◌, Option, none, some, List, [], ◌∷◌, ◌++◌,
  map, ltb, ◌==◌, if◌then◌else◌, length, get_elem?, set, drop, is_zero,
}
use task_mate.Interfaces.{ErrCode, no_error, usart_rx_buffer_empty, is_no_error}
use task_mate.TmLibc.Str.{Text, strncmp}

abbrev pub scli_line_size : ℕ
scli_line_size = 64

abbrev scli_argument_count_max : ℕ
scli_argument_count_max = 4

-- The loop of `scliRead`, `room` bytes below the end of the line from `index` on. `read` stands
-- for `sc_usartRead` on the state `S`, and `dat` is the byte that was read last. It gives the
-- state, the line, the index and the error.
unfoldable pub read_loop :
    {S : Type 0}
    → (S → S × ErrCode × ℕ)
    → ℕ
    → ℕ
    → ℕ
    → ErrCode
    → List ℕ
    → S
    → S × List ℕ × ℕ × ErrCode
read_loop read zero index dat e line s = (s, line, index, e)
read_loop read (suc room) index dat e line s =
    let (s', e', v) = read s in
    let rest = read_loop read room (index + 1) v e' (set line index v) s' in
    if dat == b'\n'
    then (s, line, index, e)
    else if is_no_error e'
    then rest
    else (s', line, index, e')

-- How a scan of the line ends: at an index; beyond the bound, where `scliTokenize` returns 0; or
-- with a read outside of the line.
pub data Scan : Type 0 where
  stopped : ℕ → Scan
  too_far outside out_of_fuel : Scan

-- An inner `while` of `scliTokenize`, over the bytes on which `go_on` says true; a unit of fuel
-- for a round.
unfoldable pub scan_line : (ℕ → Bool) → ℕ → List ℕ → ℕ → Scan
scan_line go_on zero line index = out_of_fuel
scan_line go_on (suc fuel) line index =
    let rest = scan_line go_on fuel line (index + 1) in
    elim (get_elem? line index) [
      | none ↦ outside
      | some ch ↦
          if go_on ch
          then (if ltb scli_line_size (index + 1) then too_far else rest)
          else stopped index
    ]

abbrev pub is_space : ℕ → Bool
is_space ch = ch == b' '

abbrev pub is_word : ℕ → Bool
is_word ch = not (ch == b' ') && not (ch == 0)

-- What `scliTokenize` gives: the line and where the arguments start; 0 where a bound was passed;
-- or a read outside of the line.
pub data Tokens : Type 0 where
  tokens : List ℕ → List ℕ → Tokens
  no_tokens : List ℕ → Tokens
  read_outside : Tokens
  no_fuel : Tokens

-- A step of the outer loop behind a byte that is not the terminator: the new line, the start of
-- the argument and the index behind it
abbrev scan_fuel : ℕ
scan_fuel = 66

abbrev after_scan : {R : Type 0} → Scan → (ℕ → R) → R → R → R → R
after_scan (stopped i) k far out fuel = k i
after_scan too_far k far out fuel = far
after_scan outside k far out fuel = out
after_scan out_of_fuel k far out fuel = fuel

-- The outer `while` of `scliTokenize`, with `room` arguments left of the four; `argv` is what was
-- found so far.
unfoldable pub tokenize_loop : ℕ → List ℕ → ℕ → List ℕ → Tokens
tokenize_loop zero line index argv = elim (get_elem? line index) [
  | none ↦ read_outside
  | some ch ↦ tokens line argv
]
tokenize_loop (suc room) line index argv =
    let argument : ℕ → Tokens = λ first.
      after_scan (scan_line is_word scan_fuel line first)
        (λ last.
          let line' = set line last 0 in
          let rest = tokenize_loop room line' (last + 1) (argv ++ first ∷ []) in
          if ltb scli_line_size (last + 1) then no_tokens line' else rest)
        (no_tokens line) read_outside no_fuel in
    elim (get_elem? line index) [
      | none ↦ read_outside
      | some ch ↦
          if ch == 0
          then tokens line argv
          else after_scan (scan_line is_space scan_fuel line index) argument (no_tokens line)
              read_outside no_fuel
    ]

-- `scliTokenize`
unfoldable pub scli_tokenize : List ℕ → Tokens
scli_tokenize line = tokenize_loop scli_argument_count_max line 0 []

-- The bytes of the line from `start` to its terminator
unfoldable pub string_at : List ℕ → Text
string_at [] = []
string_at (ch ∷ line) = let rest = string_at line in if ch == 0 then [] else ch ∷ rest

-- The commands of the target with their handlers, on the state `S`
abbrev pub Commands : Type 0 → Type 0
Commands S = List (Text × (List Text → S → S))

-- `argv[0U]`
abbrev first_of : List Text → Text
first_of [] = []
first_of (arg ∷ args) = arg

-- `scliCommandDispatch`
unfoldable pub scli_command_dispatch : {S : Type 0} → Commands S → List Text → S → S × Bool
scli_command_dispatch [] argv s = (s, false)
scli_command_dispatch ((name, func) ∷ commands) argv s =
    let rest = scli_command_dispatch commands argv s in
    if is_zero (strncmp (first_of argv) name 255) then (func argv s, true) else rest

-- `scliLineProcess`: the line, the state, and the command that is reported as unknown; `none` for
-- a read outside of the line. `report` prints it and the commands there are.
unfoldable pub scli_line_process :
    {S : Type 0} → Commands S → (Text → S → S) → List ℕ → S → Option (List ℕ × S)
scli_line_process commands report line s = elim (scli_tokenize line) [
  | tokens line' argv ↦
      let args = map (λ i. string_at (drop i line')) argv in
      let (s', known) = scli_command_dispatch commands args s in
      some (
        line',
        if ltb 0 (length argv) then (if known then s' else report (first_of args) s') else s,
      )
  | no_tokens line' ↦ some (line', s)
  | read_outside ↦ none
  | no_fuel ↦ none
]

-- `scliRead`: the line, the state and the error that is returned
unfoldable pub scli_read :
    {S : Type 0}
    → (S → S × ErrCode × ℕ)
    → Commands S
    → (Text → S → S)
    → List ℕ
    → S
    → Option (List ℕ × S × ErrCode)
scli_read read commands report line s =
    let (s1, line1, index, e) = read_loop read (scli_line_size - 1) 0 0 no_error line s in
    elim (scli_line_process commands report (set line1 index 0) s1) [
      | none ↦ none
      | some (line2, s2) ↦
          some (line2, s2, elim e [ usart_rx_buffer_empty ↦ no_error | other ↦ other ])
    ]
