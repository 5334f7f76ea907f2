-- ===== src/Hal/Lcd/Cursor.antt =====
-- The cells of the display as the commands that place the cursor.
use task_mate.Common.{
  ℕ, ◌+◌, ◌-◌, ◌*◌, ◌/◌, ◌%◌, ◌<◌, ◌≡◌, refl, sym, subst, ap, ◌∙◌, Bool, true, ◌&&◌, arith, ltb,
  ◌==◌, if◌then◌else◌, ltb→lt, get_or,
}
use task_mate.Hal.Lcd.{cursor_command, row_offsets}
use task_mate.Common.Bits.{check_below, check_below-at}

abbrev address : ℕ → ℕ
address command = command - 128

-- The row and the column whose command this is
abbrev row_of : ℕ → ℕ
row_of command =
    if ltb (address command) 20
    then 0
    else if ltb (address command) 40
    then 2
    else if ltb (address command) 84
    then 1
    else 3

abbrev col_of : ℕ → ℕ
col_of command = address command - get_or row_offsets (row_of command) 0

abbrev reads_back : ℕ → Bool
reads_back cell =
    let command = cursor_command (cell / 20) (cell % 20) in
    row_of command == cell / 20 && col_of command == cell % 20 && ltb 127 command

all_read_back : check_below 80 reads_back ≡ true
unfolding cursor_command check_below
all_read_back = refl

both : (a b c d : ℕ) (e : Bool) → (a == b && c == d && e) ≡ true → (a ≡ b) × (c ≡ d) × (e ≡ true)
both a b c d e h = ground arith

cell_reads_back :
    (row col : ℕ)
    → row < 4
    → col < 20
    → (row_of (cursor_command row col) ≡ row)
      × (col_of (cursor_command row col) ≡ col)
      × (ltb 127 (cursor_command row col) ≡ true)
cell_reads_back row col row_lt col_lt =
    let at : (row * 20 + col) / 20 ≡ row = omega arith in
    let rest : (row * 20 + col) % 20 ≡ col = omega arith in
    let run = check_below-at 80 reads_back (row * 20 + col) all_read_back (omega arith) in
    let command = cursor_command row col in
    both (row_of command) row (col_of command) col (ltb 127 command) (
      subst
        (λ r.
          (row_of (cursor_command r col) == r
            && col_of (cursor_command r col) == col
            && ltb 127 (cursor_command r col))
          ≡ true)
        at
        (subst
          (λ c.
            (row_of (cursor_command ((row * 20 + col) / 20) c) == (row * 20 + col) / 20
              && col_of (cursor_command ((row * 20 + col) / 20) c) == c
              && ltb 127 (cursor_command ((row * 20 + col) / 20) c))
            ≡ true)
          rest run))

-- Each cell of the display, of 4 rows and 20 columns, has a command of its own, and it is one that
-- places the cursor: its upper bit is set.
pub cursor_command_inj :
    (row col row' col' : ℕ)
    → row < 4
    → col < 20
    → row' < 4
    → col' < 20
    → cursor_command row col ≡ cursor_command row' col'
    → (row ≡ row') × (col ≡ col') × (127 < cursor_command row col)
cursor_command_inj row col row' col' r c r' c' e =
    let (rows, cols, upper) = cell_reads_back row col r c in
    let (rows', cols', upper') = cell_reads_back row' col' r' c' in
    (
      sym rows ∙ ap row_of e ∙ rows',
      sym cols ∙ ap col_of e ∙ cols',
      ltb→lt 127 (cursor_command row col) upper,
    )
