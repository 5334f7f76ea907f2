-- ===== src/Hal/I2c/Wire.antt =====
-- The transfers of the bus driver as the bytes on the bus, for a device that takes them.
use task_mate.Common.{
  ℕ, zero, suc, ◌*◌, ◌<◌, bit_or, ◌≡◌, refl, true, false, some, List, [], ◌∷◌, arith, ltb, ◌==◌, u8,
}
use task_mate.Hal.I2c.{
  Twi, Bus, start_failed, i2c_bus, i2c_comm_start, i2c_comm_stop, i2c_read, i2c_write,
  address_device, receive_byte, send_byte,
}
use task_mate.Hal.Driver.Standalone.{IsUp}
use task_mate.Hal.I2c.LifeCycle.{i2c_get_status_up, require_running_up}

module _ {H : Type 0} (twi : Twi H) where
  -- The bytes that are written one after the other
  unfoldable pub sent : List ℕ → H → H
  sent [] h = h
  sent (v ∷ vs) h = sent vs (twi.write v h).0

  -- The device acknowledges each of them.
  abbrev pub Takes : List ℕ → H → Type 0
  Takes [] h = Unit {0}
  Takes (v ∷ vs) h = (((twi.write v h).1 == twi.tw_mt_data_ack) ≡ true) × Takes vs (twi.write v h).0

  -- The bus after a start condition and the address byte
  abbrev pub addressed : ℕ → H → H
  addressed byte h = (twi.write byte (twi.start h).0).0

  -- The device sends the start condition, and acknowledges the address byte with this status.
  abbrev pub Acknowledges : ℕ → ℕ → H → Type 0
  Acknowledges byte status h =
      (start_failed twi (twi.start h).1 ≡ false)
      × (((twi.write byte (twi.start h).0).1 == status) ≡ true)

  -- The bytes that are read one after the other, each acknowledged but the last, and the device
  -- behind them
  unfoldable pub received : ℕ → H → List ℕ × H
  received zero h = let (h', status, v) = twi.read false h in (v ∷ [], h')
  received (suc n) h =
      let (h', status, v) = twi.read true h in let (vs, h'') = received n h' in (v ∷ vs, h'')

  -- The status of each of these reads is the one of its acknowledge.
  unfoldable pub Gives : ℕ → H → Type 0
  Gives zero h = ((twi.read false h).1 == twi.tw_mr_data_nack) ≡ true
  Gives (suc n) h =
      (((twi.read true h).1 == twi.tw_mr_data_ack) ≡ true) × Gives n (twi.read true h).0

  abbrev pub on_wire : Bus H → H → Bus H
  on_wire s h = record s { twi = h }

  module _ (s : Bus H) (up : IsUp s.life) where
    pub bus_is_running : (i2c_bus twi).is_running s ≡ true
    unfolding i2c_bus
    bus_is_running = rw (i2c_get_status_up twi s up) refl

    pub bus_comm_start_write :
        (address byte : ℕ)
        → address < 128
        → u8 (bit_or (address * 2) 0) ≡ byte
        → Acknowledges byte twi.tw_mt_sla_ack s.twi
        → (i2c_bus twi).comm_start address false s ≡ (on_wire s (addressed byte s.twi), true)
    unfolding i2c_bus i2c_comm_start address_device
    bus_comm_start_write address byte small e (begun, taken) =
        let fits : ltb 127 address ≡ false = ground arith in
        rw (require_running_up twi s up, fits, e, begun, taken) refl

    pub bus_comm_start_read :
        (address byte : ℕ)
        → address < 128
        → u8 (bit_or (address * 2) 1) ≡ byte
        → Acknowledges byte twi.tw_mr_sla_ack s.twi
        → (i2c_bus twi).comm_start address true s ≡ (on_wire s (addressed byte s.twi), true)
    unfolding i2c_bus i2c_comm_start address_device
    bus_comm_start_read address byte small e (begun, taken) =
        let fits : ltb 127 address ≡ false = ground arith in
        rw (require_running_up twi s up, fits, e, begun, taken) refl

    pub bus_write :
        (v : ℕ)
        → ((twi.write v s.twi).1 == twi.tw_mt_data_ack) ≡ true
        → (i2c_bus twi).write v s ≡ (on_wire s (twi.write v s.twi).0, true)
    unfolding i2c_bus i2c_write send_byte
    bus_write v taken = rw (require_running_up twi s up, taken) refl

    pub bus_read_ack :
        ((twi.read true s.twi).1 == twi.tw_mr_data_ack) ≡ true
        → (i2c_bus twi).read true s
          ≡ (on_wire s (twi.read true s.twi).0, some (twi.read true s.twi).2)
    unfolding i2c_bus i2c_read receive_byte
    bus_read_ack given = rw (require_running_up twi s up, given) refl

    pub bus_read_nack :
        ((twi.read false s.twi).1 == twi.tw_mr_data_nack) ≡ true
        → (i2c_bus twi).read false s
          ≡ (on_wire s (twi.read false s.twi).0, some (twi.read false s.twi).2)
    unfolding i2c_bus i2c_read receive_byte
    bus_read_nack given = rw (require_running_up twi s up, given) refl

    pub bus_comm_stop : (i2c_bus twi).comm_stop s ≡ (on_wire s (twi.stop s.twi), true)
    unfolding i2c_bus i2c_comm_stop
    bus_comm_stop = rw (require_running_up twi s up) refl
