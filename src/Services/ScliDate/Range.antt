-- ===== src/Services/ScliDate/Range.antt =====
-- What `dateParseTime` and `dateParseDate` leave to the range test of `hal_rtcWrite`.
use task_mate.Common.{ℕ, ◌≡◌, false, ◌||◌, Option, none, some, arith, ltb}
use task_mate.TmLibc.Str.{Text}
use task_mate.Hal.Rtc.{Time, out_of_range}
use task_mate.Services.ScliDate.{
  three_fields, date_parse_time, checked_time, checked_date, date_parse_date,
}

checked_time_lem :
    (now t : Time) (fields : Option (ℕ × ℕ × ℕ))
    → out_of_range now ≡ false
    → checked_time now fields ≡ some t
    → out_of_range t ≡ false
unfolding out_of_range
checked_time_lem now t none ok h = cc h
checked_time_lem now t (some (a, b, c)) ok h = ground arith

checked_date_lem :
    (now t : Time) (fields : Option (ℕ × ℕ × ℕ))
    → out_of_range now ≡ false
    → checked_date now fields ≡ some t
    → out_of_range t ≡ (ltb t.day 1 || ltb 31 t.day)
unfolding out_of_range
checked_date_lem now t none ok h = cc h
checked_date_lem now t (some (a, b, c)) ok h = ground arith

-- Where the time of the clock is in range, each time that `dateParseTime` gives is in range, so
-- that the driver does not refuse it; and a date that `dateParseDate` gives is out of range for
-- the driver exactly if its day is not 1 to 31, which `dateParseDate` does not look at.
pub date_parse-out_of_range :
    (text : Text) (now t : Time)
    → out_of_range now ≡ false
    → ((date_parse_time text now ≡ some t) → out_of_range t ≡ false)
      × ((date_parse_date text now ≡ some t) → out_of_range t ≡ (ltb t.day 1 || ltb 31 t.day))
unfolding date_parse_time date_parse_date
date_parse-out_of_range text now t ok = (
  checked_time_lem now t (three_fields text b':' 2 2 2 2) ok,
  checked_date_lem now t (three_fields text b'/' 1 2 4 4) ok,
)
