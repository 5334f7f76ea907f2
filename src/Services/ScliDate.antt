-- ===== src/Services/ScliDate.antt =====
-- srcs/system/services/commands/scli_date.c: the `date` command.
pub mod Fields
pub mod Range
mod Tests
use task_mate.Common.{
  ℕ, zero, suc, ◌+◌, ◌-◌, ◌*◌, ◌/◌, Bool, true, false, not, ◌&&◌, ◌||◌, Option, none, some, List,
  [], ◌∷◌, ltb, leb, ◌==◌, if◌then◌else◌, u8, u16, is_zero,
}
use mathlib.Core.Option
use task_mate.Interfaces.{ErrCode, no_error, is_no_error}
use task_mate.TmLibc.Str.{Text, strncmp, string_get_byte}
use task_mate.Hal.Rtc.{Time}
use task_mate.Hal.DrvI2c.{I2c}
use task_mate.SysCall.Drivers.Clock.{Clock, sc_rtc_read, sc_rtc_write, sc_rtc_get_startup_time}

abbrev text_size_max : ℕ
text_size_max = 11

abbrev is_digit : ℕ → Bool
is_digit ch = leb b'0' ch && leb ch b'9'

-- The `while` of `dateParseField`: `room` digits are left of `digit_count_max`. It gives the value,
-- the count of the digits and the index.
unfoldable pub digit_loop : ℕ → Text → ℕ → ℕ → ℕ → ℕ × ℕ × ℕ
digit_loop zero text index parsed digit_count = (parsed, digit_count, index)
digit_loop (suc room) text index parsed digit_count =
    let ch = string_get_byte text index in
    let rest =
      digit_loop room text (index + 1) (u16 (parsed * 10 + u8 (ch - b'0'))) (digit_count + 1) in
    if ltb index text_size_max && is_digit ch then rest else (parsed, digit_count, index)

-- `dateParseField`, with places for its results: the value and the new index
unfoldable pub date_parse_field : Text → ℕ → ℕ → ℕ → ℕ → Option (ℕ × ℕ)
date_parse_field text index separator digit_count_min digit_count_max =
    let (parsed, digit_count, index') = digit_loop digit_count_max text index 0 0 in
    if ltb digit_count digit_count_min || leb text_size_max index'
    then none
    else if separator == 0
    then (if string_get_byte text index' == 0 then some (parsed, index') else none)
    else if string_get_byte text index' == separator
    then some (parsed, index' + 1)
    else none

infixl 5 ◌>>=◌
abbrev ◌>>=◌ : {A B : Type 0} → Option A → (A → Option B) → Option B
none >>= k = none
some a >>= k = k a

-- Three fields one after the other, the second and the third only where those before are there.
abbrev pub three_fields : Text → ℕ → ℕ → ℕ → ℕ → ℕ → Option (ℕ × ℕ × ℕ)
three_fields text separator low high last_low last_high = do
  (a, i) ← date_parse_field text 0 separator low high
  (b, j) ← date_parse_field text i separator low high
  (c, k) ← date_parse_field text j 0 last_low last_high
  some (a, b, c)

-- The end of `dateParseTime`, on the fields that were parsed
abbrev pub checked_time : Time → Option (ℕ × ℕ × ℕ) → Option Time
checked_time time none = none
checked_time time (some (hours, minutes, seconds)) =
    if ltb 23 hours || ltb 59 minutes || ltb 59 seconds
    then none
    else some (record time { hours = u8 hours; minutes = u8 minutes; seconds = u8 seconds })

-- `dateParseTime`
unfoldable pub date_parse_time : Text → Time → Option Time
date_parse_time text time = checked_time time (three_fields text b':' 2 2 2 2)

-- The end of `dateParseDate`
abbrev pub checked_date : Time → Option (ℕ × ℕ × ℕ) → Option Time
checked_date time none = none
checked_date time (some (day, month, year)) =
    if ltb year 2000 || ltb 2099 year || ltb month 1 || ltb 12 month
    then none
    else some (record time { day = u8 day; month = u8 month; year = u8 (year - 2000) })

-- `dateParseDate`
unfoldable pub date_parse_date : Text → Time → Option Time
date_parse_date text time = checked_date time (three_fields text b'/' 1 2 4 4)

-- What a handler prints: the lines of `datePrint`, of `datePrintError` and of `dateHelp`, and the
-- two lines on a value that was not understood.
pub data Message : Type 0 where
  shown : Time → Message
  rtc_error : ErrCode → Message
  invalid_time invalid_date usage : Message

-- The sub-commands of the table `date_cmd`
pub data DateCommand : Type 0 where
  show_startup set_time set_date help : DateCommand

abbrev date_cmd : List (Text × DateCommand)
date_cmd =
    ((b's' ∷ b't' ∷ b'a' ∷ b'r' ∷ b't' ∷ b'u' ∷ b'p' ∷ []), show_startup)
    ∷ ((b't' ∷ b'i' ∷ b'm' ∷ b'e' ∷ []), set_time)
    ∷ ((b'd' ∷ b'a' ∷ b't' ∷ b'e' ∷ []), set_date)
    ∷ ((b'h' ∷ b'e' ∷ b'l' ∷ b'p' ∷ []), help)
    ∷ []

module _ {B : Type 0} (i2c : I2c B) where
  -- What a handler leaves: the clock, what it printed, and what it returns.
  abbrev Outcome : Type 0
  Outcome = Clock B × List Message × Bool

  -- `dateRead`, and what its callers do with the time
  unfoldable pub date_read : Clock B → (Clock B → Time → Outcome) → Outcome
  date_read c k =
      let (c', e, t) = sc_rtc_read i2c c in
      elim t [
        | none ↦ (c', rtc_error e ∷ [], false)
        | some time ↦ if is_no_error e then k c' time else (c', rtc_error e ∷ [], false)
      ]

  -- `dateWrite` and the `datePrint` that its callers do next
  unfoldable pub date_write : Time → Clock B → Outcome
  date_write t c =
      let (c', e) = sc_rtc_write i2c (some t) c in
      if is_no_error e then (c', shown t ∷ [], true) else (c', rtc_error e ∷ [], false)

  -- `dateShow`
  unfoldable pub date_show : Clock B → Outcome
  date_show c = date_read c (λ c' t. (c', shown t ∷ [], true))

  -- `dateShowStartup`, the count of the arguments first
  unfoldable pub date_show_startup : ℕ → Clock B → Outcome
  date_show_startup argc c =
      let (e, t) = sc_rtc_get_startup_time i2c true c in
      if not (argc == 2) then (c, usage ∷ [], false) else elim t [
        | none ↦ (c, rtc_error e ∷ [], false)
        | some time ↦
            if is_no_error e then (c, shown time ∷ [], true) else (c, rtc_error e ∷ [], false)
      ]

  -- `dateSetTime`; `value` is `argv[2]`.
  unfoldable pub date_set_time : ℕ → Text → Clock B → Outcome
  date_set_time argc value c =
      if not (argc == 3)
      then (c, usage ∷ [], false)
      else date_read c (λ c' t. elim (date_parse_time value t) [
        | none ↦ (c', invalid_time ∷ [], false)
        | some t' ↦ date_write t' c'
      ])

  -- `dateSetDate`
  unfoldable pub date_set_date : ℕ → Text → Clock B → Outcome
  date_set_date argc value c =
      if not (argc == 3)
      then (c, usage ∷ [], false)
      else date_read c (λ c' t. elim (date_parse_date value t) [
        | none ↦ (c', invalid_date ∷ [], false)
        | some t' ↦ date_write t' c'
      ])

  -- The loop of `dateCommand` over the table
  unfoldable pub date_dispatch : List (Text × DateCommand) → ℕ → Text → Text → Clock B → Outcome
  date_dispatch [] argc name value c = (c, usage ∷ [], false)
  date_dispatch ((known, command) ∷ rest) argc name value c =
      let next = date_dispatch rest argc name value c in
      let run : Outcome = elim command [
        | show_startup ↦ date_show_startup argc c
        | set_time ↦ date_set_time argc value c
        | set_date ↦ date_set_date argc value c
        | help ↦ (c, usage ∷ [], true)
      ] in
      if is_zero (strncmp name known 255) then run else next

  -- `dateCommand`
  unfoldable pub date_command : ℕ → Text → Text → Clock B → Outcome
  date_command argc name value c =
      if argc == 1 then date_show c else date_dispatch date_cmd argc name value c
