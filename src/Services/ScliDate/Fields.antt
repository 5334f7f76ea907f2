-- ===== src/Services/ScliDate/Fields.antt =====
-- `dateParseTime` and `dateParseDate` read back what is written in their formats.
use task_mate.Common.{
  ℕ, suc, ◌+◌, ◌-◌, ◌*◌, ◌/◌, ◌%◌, ◌≤◌, ◌<◌, ◌≡◌, refl, ap₂, ◌∙◌, true, false, ◌&&◌, ◌||◌, some, [],
  ◌∷◌, arith, ltb, leb, ◌==◌, if◌then◌else◌, u8, u16,
}
use task_mate.TmLibc.Str.{Text, string_get_byte}
use task_mate.Hal.Rtc.{Time}
use task_mate.Services.ScliDate.{digit_loop, date_parse_field, date_parse_time}

digit_step :
    (room : ℕ) (text : Text) (i parsed count d : ℕ)
    → string_get_byte text i ≡ d + b'0'
    → d ≤ 9
    → i < 11
    → parsed * 10 + d < 65536
    → digit_loop (suc room) text i parsed count
      ≡ digit_loop room text (i + 1) (parsed * 10 + d) (count + 1)
unfolding digit_loop
digit_step room text i parsed count d byte small place fits =
    let below : ltb i 11 ≡ true = ground arith in
    let digit : leb b'0' (d + b'0') && leb (d + b'0') b'9' ≡ true = ground arith in
    let value : u16 (parsed * 10 + u8 (d + b'0' - b'0')) ≡ parsed * 10 + d = omega arith in
    rw (digit_loop, byte, below, digit, value) refl

digit_stop :
    (text : Text) (i parsed count : ℕ) → digit_loop 0 text i parsed count ≡ (parsed, count, i)
unfolding digit_loop
digit_stop text i parsed count = refl

-- A field of two digits between a separator and what comes before it.
field_two :
    (text : Text) (i sep a b : ℕ)
    → string_get_byte text i ≡ a + b'0'
    → string_get_byte text (i + 1) ≡ b + b'0'
    → string_get_byte text (i + 2) ≡ sep
    → a ≤ 9
    → b ≤ 9
    → i < 9
    → date_parse_field text i sep 2 2 ≡ some (a * 10 + b, if sep == 0 then i + 2 else i + 3)
unfolding date_parse_field
field_two text i sep a b e1 e2 e3 la lb li =
    let place : i + 1 + 1 ≡ i + 2 = omega arith in
    let last : i + 2 + 1 ≡ i + 3 = omega arith in
    let room : leb 11 (i + 2) ≡ false = ground arith in
    let value : (0 * 10 + a) * 10 + b ≡ a * 10 + b = omega arith in
    let loop : digit_loop 2 text i 0 0 ≡ (a * 10 + b, 2, i + 2) =
      digit_step 1 text i 0 0 a e1 la (omega arith) (omega arith)
      ∙ digit_step 0 text (i + 1) (0 * 10 + a) 1 b e2 lb (omega arith) (omega arith)
      ∙ digit_stop text (i + 1 + 1) ((0 * 10 + a) * 10 + b) 2
      ∙ ap₂ (λ v k. (v, 2, k)) value place in
    rw (date_parse_field, loop, room, e3) (ground arith)

-- `hh:mm:ss`
pub spell_time : Time → Text
spell_time t =
    (t.hours / 10 + b'0')
    ∷ (t.hours % 10 + b'0')
    ∷ b':'
    ∷ (t.minutes / 10 + b'0')
    ∷ (t.minutes % 10 + b'0')
    ∷ b':'
    ∷ (t.seconds / 10 + b'0')
    ∷ (t.seconds % 10 + b'0')
    ∷ []

-- What `spell_time` writes is parsed to that hour, minute and second; the date is kept.
pub date_parse_time-spell_time :
    (now t : Time)
    → t.hours ≤ 23
    → t.minutes ≤ 59
    → t.seconds ≤ 59
    → date_parse_time (spell_time t) now
      ≡ some (record now { hours = t.hours; minutes = t.minutes; seconds = t.seconds })
unfolding date_parse_time spell_time
date_parse_time-spell_time now t h m s =
    let hour : t.hours / 10 * 10 + t.hours % 10 ≡ t.hours = omega arith in
    let minute : t.minutes / 10 * 10 + t.minutes % 10 ≡ t.minutes = omega arith in
    let second : t.seconds / 10 * 10 + t.seconds % 10 ≡ t.seconds = omega arith in
    let text = spell_time t in
    let in_range : (ltb 23 t.hours || ltb 59 t.minutes || ltb 59 t.seconds) ≡ false =
      ground arith in
    let u8h : t.hours % 256 ≡ t.hours = omega arith in
    let u8m : t.minutes % 256 ≡ t.minutes = omega arith in
    let u8s : t.seconds % 256 ≡ t.seconds = omega arith in
    rw
      (
        date_parse_time,
        field_two text 0 b':' (t.hours / 10) (t.hours % 10) refl refl refl (omega arith)
            (omega arith) (omega arith),
        field_two text 3 b':' (t.minutes / 10) (t.minutes % 10) refl refl refl (omega arith)
            (omega arith) (omega arith),
        field_two text 6 0 (t.seconds / 10) (t.seconds % 10) refl refl refl (omega arith)
            (omega arith) (omega arith),
        hour,
        minute,
        second,
      )
      (rw (in_range, u8h, u8m, u8s) refl)
