-- ===== src/Hal/Rtc/Chip.antt =====
-- The clock driver over the bus driver and a chip that keeps its registers.
use task_mate.Common.{
  ℕ, zero, suc, ◌+◌, ◌≤◌, ◌<◌, ◌≡◌, refl, sym, ap, ap₂, ◌∙◌, true, false, List, [], ◌∷◌, arith,
  ◌==◌, if◌then◌else◌, length,
}
use task_mate.Hal.I2c.{Twi, start_failed}
use task_mate.Hal.I2c.Wire.{sent, Gives, Takes, received, addressed}
use task_mate.Hal.Rtc.Wire.{rtc_write_byte, rtc_read_byte}

-- What the chip takes the next byte for
pub data Phase : Type 0 where
  idle selecting storing reading : Phase

-- A chip at the clock's address as its data sheet describes it: the first byte that is written
-- selects a register, each later one is stored there, and each byte that is read is taken from
-- there, with the next register behind it. Its clock does not tick meanwhile.
pub record IsChip {H : Type 0} (twi : Twi H) : Type 0 where
  pub phase : H → Phase
  pub pointer : H → ℕ
  pub register : H → ℕ → ℕ
  pub starts : (h : H) → start_failed twi (twi.start h).1 ≡ false
  pub hears_write :
      (h : H)
      → (((twi.write rtc_write_byte (twi.start h).0).1 == twi.tw_mt_sla_ack) ≡ true)
        × (phase (addressed twi rtc_write_byte h) ≡ selecting)
        × (register (addressed twi rtc_write_byte h) ≡ register h)
  pub hears_read :
      (h : H)
      → (((twi.write rtc_read_byte (twi.start h).0).1 == twi.tw_mr_sla_ack) ≡ true)
        × (phase (addressed twi rtc_read_byte h) ≡ reading)
        × (pointer (addressed twi rtc_read_byte h) ≡ pointer h)
        × (register (addressed twi rtc_read_byte h) ≡ register h)
  pub selects :
      (h : H) (v : ℕ)
      → phase h ≡ selecting
      → (((twi.write v h).1 == twi.tw_mt_data_ack) ≡ true)
        × (phase (twi.write v h).0 ≡ storing)
        × (pointer (twi.write v h).0 ≡ v)
        × (register (twi.write v h).0 ≡ register h)
  pub stores :
      (h : H) (v : ℕ)
      → phase h ≡ storing
      → pointer h < 7
      → (((twi.write v h).1 == twi.tw_mt_data_ack) ≡ true)
        × (phase (twi.write v h).0 ≡ storing)
        × (pointer (twi.write v h).0 ≡ pointer h + 1)
        × ((i : ℕ) → register (twi.write v h).0 i ≡ (if i == pointer h then v else register h i))
  pub gives :
      (h : H)
      → phase h ≡ reading
      → pointer h < 7
      → (((twi.read true h).1 == twi.tw_mr_data_ack) ≡ true)
        × ((twi.read true h).2 ≡ register h (pointer h))
        × (phase (twi.read true h).0 ≡ reading)
        × (pointer (twi.read true h).0 ≡ pointer h + 1)
        × (register (twi.read true h).0 ≡ register h)
  pub gives_last :
      (h : H)
      → phase h ≡ reading
      → pointer h < 7
      → (((twi.read false h).1 == twi.tw_mr_data_nack) ≡ true)
        × ((twi.read false h).2 ≡ register h (pointer h))
  pub keeps : (h : H) → register (twi.stop h) ≡ register h

-- The contents of `n` registers from `p` on
unfoldable pub contents : (ℕ → ℕ) → ℕ → ℕ → List ℕ
contents f p zero = []
contents f p (suc n) = f p ∷ contents f (p + 1) n

module _ {H : Type 0} (twi : Twi H) (chip : IsChip twi) where
  -- The bytes are in the registers from `p` on.
  abbrev pub Holds : List ℕ → ℕ → (ℕ → ℕ) → Type 0
  Holds vs p f = contents f p (length vs) ≡ vs

  pub sent_stored :
      (vs : List ℕ) (h : H)
      → chip.phase h ≡ storing
      → chip.pointer h + length vs ≤ 7
      → Takes twi vs h
        × ((i : ℕ) → i < chip.pointer h → chip.register (sent twi vs h) i ≡ chip.register h i)
        × Holds vs (chip.pointer h) (chip.register (sent twi vs h))
  unfolding sent contents
  sent_stored [] h storing_h l = (tt, λ i l'. refl, refl)
  sent_stored (v ∷ vs) h storing_h l =
      let (ack, still, moved, stored) = chip.stores h v storing_h (omega arith) in
      let h' = (twi.write v h).0 in
      let (takes, below, holds) = sent_stored vs h' still (omega arith) in
      let here : chip.register (sent twi vs h') (chip.pointer h) ≡ v =
        below (chip.pointer h) (omega arith) ∙ stored (chip.pointer h) ∙ ground arith in
      (
        (ack, takes),
        λ i i_lt. below i (omega arith) ∙ stored i ∙ ground arith,
        ap₂ (λ a l. a ∷ l) here
            (ap (λ p. contents (chip.register (sent twi vs h')) p (length vs)) (sym moved) ∙ holds),
      )

  pub received-contents :
      (n : ℕ) (h : H)
      → chip.phase h ≡ reading
      → chip.pointer h + n < 7
      → Gives twi n h × ((received twi n h).0 ≡ contents (chip.register h) (chip.pointer h) (suc n))
  unfolding Gives received contents
  received-contents zero h reading_h l =
      let (ack, value) = chip.gives_last h reading_h (omega arith) in (ack, ap (λ v. v ∷ []) value)
  received-contents (suc n) h reading_h l =
      let (ack, value, still, moved, same) = chip.gives h reading_h (omega arith) in
      let h' = (twi.read true h).0 in
      let (given, rest) = received-contents n h' still (omega arith) in
      (
        (ack, given),
        ap₂ (λ v vs. v ∷ vs) value (rest ∙ ap₂ (λ f p. contents f p (suc n)) same moved),
      )
