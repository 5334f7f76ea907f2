-- ===== src/Services/ScliDate/Tests.antt =====
-- The fields of scli_date.c on one time and one date.
use task_mate.Common.{◌≡◌, refl, false, ◌||◌, some, [], ◌∷◌, arith, ltb}
use task_mate.Hal.Rtc.{Time, out_of_range}
use task_mate.Services.ScliDate.{date_parse_time, date_parse_date, date_parse_field, digit_loop}
use task_mate.Services.ScliDate.Fields.{spell_time, date_parse_time-spell_time}
use task_mate.Services.ScliDate.Range.{date_parse-out_of_range}
use task_mate.TmLibc.Str.{Text}

abbrev now : Time
now = record { seconds = 0; minutes = 0; hours = 0; weekday = 1; day = 1; month = 1; year = 26 }

abbrev later : Time
later = record now { hours = 23; minutes = 5; seconds = 59 }

date_parse_time-spell_time_example : date_parse_time (spell_time later) now ≡ some later
date_parse_time-spell_time_example =
    date_parse_time-spell_time now later (omega arith) (omega arith) (omega arith)

now_in_range : out_of_range now ≡ false
unfolding out_of_range
now_in_range = refl

-- `0/2/2026`
abbrev no_day : Text
no_day = b'0' ∷ b'/' ∷ b'2' ∷ b'/' ∷ b'2' ∷ b'0' ∷ b'2' ∷ b'6' ∷ []

abbrev day_zero : Time
day_zero = record now { day = 0; month = 2; year = 26 }

-- It is parsed, and the driver refuses it.
parsed : date_parse_date no_day now ≡ some day_zero
unfolding date_parse_date date_parse_field digit_loop
parsed = refl

date_parse-out_of_range_example :
    ((date_parse_time no_day now ≡ some day_zero) → out_of_range day_zero ≡ false)
    × ((date_parse_date no_day now ≡ some day_zero) → out_of_range day_zero ≡ (ltb 0 1 || ltb 31 0))
date_parse-out_of_range_example = date_parse-out_of_range no_day now day_zero now_in_range
