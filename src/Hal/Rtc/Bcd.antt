-- ===== src/Hal/Rtc/Bcd.antt =====
-- The registers of rtc_ZS042.c: a time that is in range survives `hal_rtcWrite`'s encoding and
-- `hal_rtcRead`'s decoding.
use task_mate.Common.{ℕ, ◌<◌, bit_and, ◌≡◌, refl, Bool, true, false, arith, ◌==◌, ==_iff}
use task_mate.Common.Bits.{check_below, check_below-at}
use task_mate.Hal.Rtc.{Time, bcd_to_bin, bin_to_bcd, encode, decode, out_of_range}

abbrev law : (ℕ → ℕ) → ℕ → Bool
law f v = f v == v

-- Each register's two conversions, over the range that the test admits.
registers :
    (check_below 60 (law (λ v. bcd_to_bin (bit_and (bin_to_bcd (bit_and v 0x7f)) 0x7f))) ≡ true)
    × (check_below 100 (law (λ v. bcd_to_bin (bin_to_bcd v))) ≡ true)
    × (check_below 24 (law (λ v. bcd_to_bin (bit_and (bit_and (bin_to_bcd v) 0x3f) 0x3f))) ≡ true)
    × (check_below 13 (law (λ v. bcd_to_bin (bit_and (bin_to_bcd (bit_and v 0x1f)) 0x1f))) ≡ true)
unfolding check_below bcd_to_bin bin_to_bcd
registers = (refl, refl, refl, refl)

register_lem : (n : ℕ) (f : ℕ → ℕ) (v : ℕ) → check_below n (law f) ≡ true → v < n → f v ≡ v
register_lem n f v table h = (==_iff _ _).0 (check_below-at n (law f) v table h)

same_fields :
    {s s' m m' h h' w w' d d' o o' y y' : ℕ}
    → s ≡ s'
    → m ≡ m'
    → h ≡ h'
    → w ≡ w'
    → d ≡ d'
    → o ≡ o'
    → y ≡ y'
    → ◌≡◌ {A = Time}
        (record { seconds = s; minutes = m; hours = h; weekday = w; day = d; month = o; year = y })
        (record {
          seconds = s';
          minutes = m';
          hours = h';
          weekday = w';
          day = d';
          month = o';
          year = y';
        })
same_fields s m h w d o y = cc

-- A time whose fields `hal_rtcWrite` accepts is read back from the registers as it was.
pub decode-encode : (t : Time) → out_of_range t ≡ false → decode (encode t) ≡ t
unfolding decode encode out_of_range
decode-encode t h =
    let (sec, two, hour, month) = registers in
    same_fields (register_lem 60 _ t.seconds sec (ground arith))
      (register_lem 100 _ t.minutes two (ground arith))
      (register_lem 24 _ t.hours hour (ground arith))
      (register_lem 100 _ t.weekday two (ground arith))
      (register_lem 100 _ t.day two (ground arith)) (register_lem 13 _ t.month month (ground arith))
      (register_lem 100 _ t.year two (ground arith))
