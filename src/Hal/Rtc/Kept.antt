-- ===== src/Hal/Rtc/Kept.antt =====
-- The time that the clock driver writes to such a chip is the time that it reads.
use task_mate.Common.{ℕ, ◌≡◌, refl, sym, ap, ap₂, ◌∙◌, true, false, some, List, arith, length}
use task_mate.Hal.I2c.Wire.{sent, received, addressed, on_wire, bus_is_running}
use task_mate.Hal.DrvI2c.{I2c}
use task_mate.Hal.Rtc.{
  encode, Time, rtc_read, rtc_write, Rtc, rtc_driver, rtc_get_status, out_of_range, read_registers,
  decode, write_registers,
}
use task_mate.Hal.I2c.{Twi, Bus, i2c_bus}
use task_mate.Hal.Driver.{require_running}
use task_mate.Hal.Rtc.Chip.{IsChip, contents, received-contents, sent_stored}
use task_mate.Hal.Rtc.Wire.{
  GivesRegisters, TakesRegisters, pointed, registers_sent, rtc_write_byte, write_registers_wire,
  read_registers_wire,
}
use task_mate.Hal.Driver.Standalone.{IsUp}
use task_mate.Interfaces.{running}
use task_mate.Hal.Rtc.Bcd.{decode-encode}

module _ {B : Type 0} (i2c : I2c B) where
  -- A running clock driver on a running bus passes the guard of its operations.
  pub rtc_require_running_up :
      (s : Rtc B)
      → IsUp s.life
      → i2c.is_running s.bus ≡ true
      → require_running (rtc_driver i2c) s ≡ (s, running)
  unfolding require_running rtc_driver rtc_get_status
  rtc_require_running_up s (alive, sound, ready, begun) on =
      rw (alive, sound, on, ready, begun) refl

  pub rtc_write_up :
      (t : Time) (s : Rtc B) {b : B}
      → IsUp s.life
      → i2c.is_running s.bus ≡ true
      → out_of_range t ≡ false
      → write_registers i2c (encode t) s.bus ≡ (b, some tt)
      → rtc_write i2c (some t) s ≡ (record s { bus = b }, running)
  unfolding rtc_write
  rtc_write_up t s up on fits e = rw (rtc_require_running_up s up on, fits, e) refl

  pub rtc_read_up :
      (s : Rtc B) {b : B} {buf : List ℕ}
      → IsUp s.life
      → i2c.is_running s.bus ≡ true
      → read_registers i2c s.bus ≡ (b, some buf)
      → rtc_read i2c true s ≡ (record s { bus = b }, running, some (decode buf))
  unfolding rtc_read
  rtc_read_up s up on e = rw (rtc_require_running_up s up on, e) refl

-- The clock driver and the bus driver run.
abbrev pub BothUp : {H : Type 0} → Rtc (Bus H) → Type 0
BothUp s = IsUp s.life × IsUp s.bus.life

length-encode : (t : Time) → length (encode t) ≡ 7
unfolding encode
length-encode t = refl

module _ {H : Type 0} (twi : Twi H) (chip : IsChip twi) where
  registers_stored :
      (vs : List ℕ) (h : H)
      → length vs ≡ 7
      → TakesRegisters twi vs h × (contents (chip.register (registers_sent twi vs h)) 0 7 ≡ vs)
  unfolding sent
  registers_stored vs h seven =
      let (ack, hears, same) = chip.hears_write h in
      let h1 = addressed twi rtc_write_byte h in
      let (zeroth, storing_h, at_zero, same') = chip.selects h1 0 hears in
      let h2 = (twi.write 0 h1).0 in
      let (takes, below, holds) = sent_stored twi chip vs h2 storing_h (omega arith) in
      (
        ((chip.starts h, ack), (zeroth, takes)),
        ap (λ f. contents f 0 7) (chip.keeps (sent twi vs h2))
            ∙ ap₂ (contents (chip.register (sent twi vs h2))) (sym at_zero) (sym seven)
            ∙ holds,
      )

  registers_given :
      (h : H)
      → GivesRegisters twi h × ((received twi 6 (pointed twi h)).0 ≡ contents (chip.register h) 0 7)
  registers_given h =
      let (ack, hears, same1) = chip.hears_write h in
      let h1 = addressed twi rtc_write_byte h in
      let (zeroth, storing_h, at_zero, same2) = chip.selects h1 0 hears in
      let h2 = (twi.write 0 h1).0 in
      let (again, reading_h, at, same3) = chip.hears_read h2 in
      let start : chip.pointer (pointed twi h) ≡ 0 = at ∙ at_zero in
      let (given, value) = received-contents twi chip 6 (pointed twi h) reading_h (omega arith) in
      (
        ((chip.starts h, ack), zeroth, (chip.starts h2, again), given),
        value ∙ ap₂ (λ f p. contents f p 7) (same3 ∙ same2 ∙ same1) start,
      )

  -- On a running clock driver over a running bus driver and a chip that keeps its registers, a
  -- write of a time whose fields are in range succeeds, and the read behind it succeeds and gives
  -- that time, while the chip does not count it on.
  pub rtc_read-rtc_write :
      (t : Time) (s : Rtc (Bus H))
      → BothUp s
      → out_of_range t ≡ false
      → (s' : Rtc (Bus H)) × (s'' : Rtc (Bus H)) × (rtc_write (i2c_bus twi) (some t) s
          ≡ (s', running))
        × (rtc_read (i2c_bus twi) true s' ≡ (s'', running, some t))
        × BothUp s''
  rtc_read-rtc_write t s (up, bus_up) fits =
      let buf = encode t in
      let (takes, stored) = registers_stored buf s.bus.twi (length-encode t) in
      let b' = on_wire twi s.bus (registers_sent twi buf s.bus.twi) in
      let s' = record s { bus = b' } in
      let (given, value) = registers_given b'.twi in
      let b'' = on_wire twi b' (twi.stop (received twi 6 (pointed twi b'.twi)).1) in
      (
        s',
        record s { bus = b'' },
        rtc_write_up (i2c_bus twi) t s up (bus_is_running twi s.bus bus_up) fits
            (write_registers_wire twi buf s.bus bus_up takes),
        rtc_read_up (i2c_bus twi) s' up (bus_is_running twi b' bus_up)
              (read_registers_wire twi b' bus_up given)
            ∙ ap (λ time. (record s { bus = b'' }, running, some time))
                (ap decode (value ∙ stored) ∙ decode-encode t fits),
        (up, bus_up),
      )
