-- ===== src/Hal/Rtc/Wire.antt =====
-- The clock driver of Hal/Rtc over the bus driver of Hal/I2c: what its transfers put on the bus.
use task_mate.Common.{
  ℕ, zero, suc, ◌≡◌, refl, ap, ◌∙◌, true, false, some, List, [], ◌∷◌, ◌++◌, append_assoc, arith,
  ◌==◌,
}
use task_mate.Hal.I2c.{Twi, Bus, i2c_bus}
use task_mate.Hal.Rtc.{read_bytes, read_registers, write_bytes, write_registers}
use task_mate.Hal.I2c.Wire.{
  sent, Acknowledges, addressed, Gives, Takes, received, on_wire, bus_comm_start_write,
  bus_comm_stop, bus_read_nack, bus_read_ack, bus_write, bus_comm_start_read,
}
use task_mate.Hal.Driver.Standalone.{IsUp}

-- The clock's address byte, to write and to read
abbrev pub rtc_write_byte : ℕ
rtc_write_byte = 0xd0

abbrev pub rtc_read_byte : ℕ
rtc_read_byte = 0xd1

module _ {H : Type 0} (twi : Twi H) where
  write_bytes_wire :
      (vs : List ℕ) (s : Bus H)
      → IsUp s.life
      → Takes twi vs s.twi
      → write_bytes (i2c_bus twi) vs s ≡ (on_wire twi s (twi.stop (sent twi vs s.twi)), some tt)
  unfolding write_bytes sent
  write_bytes_wire [] s up t = rw (bus_comm_stop twi s up) refl
  write_bytes_wire (v ∷ vs) s up (taken, t) =
      rw (bus_write twi s up v taken)
        (write_bytes_wire vs (on_wire twi s (twi.write v s.twi).0) up t)

  -- The device takes a transfer to the clock's registers from the first on.
  abbrev pub TakesRegisters : List ℕ → H → Type 0
  TakesRegisters buf h =
      Acknowledges twi rtc_write_byte twi.tw_mt_sla_ack h
      × Takes twi (0 ∷ buf) (addressed twi rtc_write_byte h)

  -- The bus behind the transfer
  abbrev pub registers_sent : List ℕ → H → H
  registers_sent buf h = twi.stop (sent twi (0 ∷ buf) (addressed twi rtc_write_byte h))

  pub write_registers_wire :
      (buf : List ℕ) (s : Bus H)
      → IsUp s.life
      → TakesRegisters buf s.twi
      → write_registers (i2c_bus twi) buf s ≡ (on_wire twi s (registers_sent buf s.twi), some tt)
  unfolding write_registers sent
  write_registers_wire buf s up (ack, (zeroth, t)) =
      let s1 = on_wire twi s (addressed twi rtc_write_byte s.twi) in
      rw (bus_comm_start_write twi s up 0x68 rtc_write_byte (omega arith) refl ack) (
        rw (bus_write twi s1 up 0 zeroth)
          (write_bytes_wire buf (on_wire twi s (twi.write 0 s1.twi).0) up t))

  read_bytes_wire :
      (n : ℕ) (buf : List ℕ) (s : Bus H)
      → IsUp s.life
      → Gives twi n s.twi
      → read_bytes (i2c_bus twi) n buf s ≡ (
        on_wire twi s (twi.stop (received twi n s.twi).1),
        some (buf ++ (received twi n s.twi).0),
      )
  unfolding read_bytes received Gives
  read_bytes_wire zero buf s up given =
      rw (bus_read_nack twi s up given)
        (rw (bus_comm_stop twi (on_wire twi s (twi.read false s.twi).0) up) refl)
  read_bytes_wire (suc n) buf s up (given, more) =
      let s1 = on_wire twi s (twi.read true s.twi).0 in
      let v = (twi.read true s.twi).2 in
      let vs = (received twi n s1.twi).0 in
      rw (bus_read_ack twi s up given) (
        read_bytes_wire n (buf ++ v ∷ []) s1 up more
        ∙ ap (λ l. (on_wire twi s (twi.stop (received twi n s1.twi).1), some l))
            (append_assoc buf (v ∷ []) vs))

  -- The bus where the clock has taken the number of its first register and the address to read
  abbrev pub pointed : H → H
  pointed h = addressed twi rtc_read_byte (twi.write 0 (addressed twi rtc_write_byte h)).0

  abbrev pub GivesRegisters : H → Type 0
  GivesRegisters h =
      Acknowledges twi rtc_write_byte twi.tw_mt_sla_ack h
      × (((twi.write 0 (addressed twi rtc_write_byte h)).1 == twi.tw_mt_data_ack) ≡ true)
      × Acknowledges twi rtc_read_byte twi.tw_mr_sla_ack
          (twi.write 0 (addressed twi rtc_write_byte h)).0
      × Gives twi 6 (pointed h)

  pub read_registers_wire :
      (s : Bus H)
      → IsUp s.life
      → GivesRegisters s.twi
      → read_registers (i2c_bus twi) s ≡ (
        on_wire twi s (twi.stop (received twi 6 (pointed s.twi)).1),
        some (received twi 6 (pointed s.twi)).0,
      )
  unfolding read_registers
  read_registers_wire s up (ack, zeroth, again, given) =
      let s1 = on_wire twi s (addressed twi rtc_write_byte s.twi) in
      let s2 = on_wire twi s (twi.write 0 s1.twi).0 in
      rw (bus_comm_start_write twi s up 0x68 rtc_write_byte (omega arith) refl ack) (
        rw (bus_write twi s1 up 0 zeroth) (
          rw (bus_comm_start_read twi s2 up 0x68 rtc_read_byte (omega arith) refl again)
            (read_bytes_wire 6 [] (on_wire twi s (pointed s.twi)) up given)))
