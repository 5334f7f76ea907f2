-- ===== src/Hal/Rtc/Tests.antt =====
-- The registers of rtc_ZS042.c at one time.
use task_mate.Common.{◌≡◌, refl, false, [], ◌∷◌, some, true}
use task_mate.Hal.Rtc.{Time, bin_to_bcd, encode, decode, out_of_range, Rtc, rtc_write, rtc_read}
use task_mate.Hal.Rtc.Bcd.{decode-encode}
use task_mate.Hal.Driver.{Life}
use task_mate.Common.Bits.{get_bit}
use task_mate.Hal.I2c.{Bus, i2c_bus}
use task_mate.Interfaces.{no_error, running}
use task_mate.Hal.Driver.Standalone.{IsUp}
use task_mate.Hal.Rtc.Bench.{Chip, blank_chip, bench, bench-IsChip}
use task_mate.Hal.Rtc.Kept.{BothUp, rtc_read-rtc_write}

abbrev noon : Time
noon = record {
  seconds = 59;
  minutes = 30;
  hours = 12;
  weekday = 7;
  day = 31;
  month = 12;
  year = 99;
}

in_range : out_of_range noon ≡ false
unfolding out_of_range
in_range = refl

decode-encode_example : decode (encode noon) ≡ noon
decode-encode_example = decode-encode noon in_range

registers_at_noon : encode noon ≡ 0x59 ∷ 0x30 ∷ 0x12 ∷ 0x07 ∷ 0x31 ∷ 0x12 ∷ 0x99 ∷ []
unfolding encode bin_to_bcd
registers_at_noon = refl

-- Both drivers run, on a bus with the chip.
abbrev up_life : Life
up_life = record { status = 3; run_level = 0; last_error = no_error }

up_life-IsUp : IsUp up_life
unfolding get_bit
up_life-IsUp = (refl, refl, refl, refl)

abbrev up_bus : Bus Chip
up_bus = record { life = up_life; scan_address = 0; twi = blank_chip }

abbrev up_rtc : Rtc (Bus Chip)
up_rtc = record { life = up_life; bus = up_bus }

rtc_read-rtc_write_example :
    (s' : Rtc (Bus Chip)) × (s'' : Rtc (Bus Chip)) × (rtc_write (i2c_bus bench) (some noon) up_rtc
      ≡ (s', running))
    × (rtc_read (i2c_bus bench) true s' ≡ (s'', running, some noon))
    × BothUp s''
rtc_read-rtc_write_example =
    rtc_read-rtc_write bench bench-IsChip noon up_rtc (up_life-IsUp, up_life-IsUp) in_range
