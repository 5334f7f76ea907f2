-- ===== src/SysCall/Scan/Probe.antt =====
-- `sc_i2cScan` over the bus driver of Hal/I2c, on a bus on which some addresses acknowledge.
use task_mate.SysCall.Scan.Gather.{Answers, sc_i2c_scan_lem}
use task_mate.Common.{
  ℕ, zero, suc, ◌+◌, ◌-◌, ◌*◌, ◌≤◌, ◌<◌, ◌≡◌, refl, ap, ◌∙◌, ◌≢◌, inl, inr, Bool, true, false,
  Option, none, some, List, [], ◌∷◌, arith, ltb, ◌==◌, if◌then◌else◌, u8, Bool-cases, length, take,
  subst, sym,
}
use task_mate.Hal.I2c.{Twi, Bus, i2c_scan, probe_loop, start_failed, i2c_control, i2c_driver}
use task_mate.Interfaces.{
  DriverState, ErrCode, getlasterror, i2c_scan_address_buffer_full, i2c_scan_complete, no_error,
  running,
}
use task_mate.Hal.Driver.Standalone.{IsUp}
use task_mate.Hal.Driver.{control}
use task_mate.Hal.I2c.LifeCycle.{require_running_up, i2c_get_status_up}
use task_mate.SysCall.Drivers.{Item, blank, or_blank}
use task_mate.SysCall.Scan.{after_gather, sc_i2c_scan, update_drivers}

-- The device sends each start condition, and acknowledges the addresses that `acks` tells.
pub record IsProbed {H : Type 0} (twi : Twi H) (acks : ℕ → Bool) : Type 0 where
  pub starts : (h : H) → start_failed twi (twi.start h).1 ≡ false
  pub acknowledges :
      (h : H) (a : ℕ)
      → a < 127
      → ((twi.write (a * 2) (twi.start h).0).1 == twi.tw_mt_sla_ack) ≡ acks a

-- The addresses that acknowledge among the `n` from `a` on, in their order
unfoldable pub present : (ℕ → Bool) → ℕ → ℕ → List ℕ
present acks zero a = []
present acks (suc n) a = let rest = present acks n (a + 1) in if acks a then a ∷ rest else rest

-- The scan is complete, and the next one begins at the first address.
abbrev pub IsComplete : {H : Type 0} → Bus H → Type 0
IsComplete s = (s.scan_address ≡ 0) × (s.life.last_error ≡ i2c_scan_complete) × IsUp s.life

error_ne_running : DriverState.error ≢ running
error_ne_running e = cc

module _ {H : Type 0} (twi : Twi H) (acks : ℕ → Bool) (bus : IsProbed twi acks) where
  abbrev next : Bus H → Bus H
  next s = record s {
    scan_address = s.scan_address + 1;
    twi = twi.stop (twi.write (s.scan_address * 2) (twi.start s.twi).0).0;
  }

  abbrev hit : Bus H → Bus H
  hit s = record (next s) { life = record s.life { last_error = no_error } }

  -- A round of the loop
  probe_round :
      (rounds : ℕ) (s : Bus H)
      → s.scan_address < 127
      → probe_loop twi (suc rounds) s ≡ (
          if acks s.scan_address
          then (hit s, running, s.scan_address)
          else probe_loop twi rounds (next s))
  unfolding probe_loop
  probe_round rounds s l =
      let byte : u8 (s.scan_address * 2) ≡ s.scan_address * 2 = omega arith in
      let step : u8 (s.scan_address + 1) ≡ s.scan_address + 1 = omega arith in
      rw (byte, step, bus.starts s.twi, bus.acknowledges s.twi s.scan_address l) refl

  i2c_scan_up :
      (s : Bus H) (rounds : ℕ)
      → IsUp s.life
      → s.scan_address + rounds ≡ 127
      → i2c_scan twi true s ≡ probe_loop twi rounds s
  unfolding i2c_scan
  i2c_scan_up s rounds up e =
      let left : 127 - s.scan_address ≡ rounds = omega arith in
      rw (require_running_up twi s up, left) refl

  present_seen : (n a : ℕ) → acks a ≡ true → present acks (suc n) a ≡ a ∷ present acks n (a + 1)
  unfolding present
  present_seen n a seen = rw seen refl

  present_quiet : (n a : ℕ) → acks a ≡ false → present acks (suc n) a ≡ present acks n (a + 1)
  unfolding present
  present_quiet n a quiet = rw quiet refl

  scan_answers :
      (rounds : ℕ) (t s : Bus H)
      → i2c_scan twi true t ≡ probe_loop twi rounds s
      → IsUp s.life
      → s.scan_address + rounds ≡ 127
      → (w : Bus H) × Answers (i2c_scan twi true) (present acks rounds s.scan_address) t w
        × IsComplete w
  unfolding present probe_loop
  scan_answers zero t s e up l = (
    record s { scan_address = 0; life = record s.life { last_error = i2c_scan_complete } },
    Answers.ends e error_ne_running,
    (refl, refl, up),
  )
  scan_answers (suc n) t s e up l = elim (Bool-cases (acks s.scan_address)) [
    | inl seen ↦
        let now : i2c_scan twi true t ≡ (hit s, running, s.scan_address) =
          e ∙ probe_round n s (omega arith) ∙ rw seen refl in
        let (w, a, c) =
          scan_answers n (hit s) (hit s) (i2c_scan_up (hit s) n up (omega arith)) up
            (omega arith) in
        (
          w,
          subst (λ l'. Answers (i2c_scan twi true) l' t w)
              (sym (present_seen n s.scan_address seen)) (Answers.finds now a),
          c,
        )
    | inr quiet ↦
        let (w, a, c) =
          scan_answers n t (next s) (e ∙ probe_round n s (omega arith) ∙ rw quiet refl) up
            (omega arith) in
        (
          w,
          subst (λ l'. Answers (i2c_scan twi true) l' t w)
              (sym (present_quiet n s.scan_address quiet)) a,
          c,
        )
  ]

pub length-present : (acks : ℕ → Bool) (n a : ℕ) → length (present acks n a) ≤ n
unfolding present
length-present acks zero a = omega arith
length-present acks (suc n) a = ground (arith, length-present acks n (a + 1))

module _ {H : Type 0} (twi : Twi H) where
  -- `hal_i2cControl(DRV_CTRL_GETLASTERROR, &control_data)`, and the error that it stores
  unfoldable pub i2c_last_error : Bus H → Bus H × ErrCode
  i2c_last_error s =
      let (s', state, d) = i2c_control twi getlasterror (some blank) s in (s', (or_blank d).error)

  i2c_last_error_up : (s : Bus H) → IsUp s.life → i2c_last_error s ≡ (s, s.life.last_error)
  unfolding i2c_last_error i2c_control control i2c_driver
  i2c_last_error_up s up = rw (i2c_get_status_up twi s up) refl

-- What `sc_i2cScan` does about the addresses that are on the bus
abbrev pub acted_on : {W : Type 0} → List ℕ → List (Item W) → W → Option (W × List ℕ × ErrCode)
acted_on found items w =
    if ltb 10 (length found)
    then some (w, take 10 found, i2c_scan_address_buffer_full)
    else elim (update_drivers (take 10 found) items w) [
      | none ↦ none
      | some (w', e) ↦ some (w', take 10 found, e)
    ]

after_gather_complete :
    {H : Type 0} (twi : Twi H) (items : List (Item (Bus H))) (found : List ℕ) (w : Bus H)
    → IsUp w.life
    → w.life.last_error ≡ i2c_scan_complete
    → after_gather
        (i2c_scan twi true)
        (i2c_last_error twi)
        items
        (w, take 10 found, ltb 10 (length found))
      ≡ acted_on found items w
unfolding after_gather
after_gather_complete twi items found w up e = rw (i2c_last_error_up twi w up, e) refl

-- On a running bus driver whose last scan was complete, and a bus on which the addresses of `acks`
-- acknowledge, `sc_i2cScan` with fuel for 128 rounds finds the addresses from 0 to 126 that
-- acknowledge, in ascending order, and leaves the driver ready for the next scan: if they are more
-- than ten it changes no other driver and returns the error of a full buffer, else it updates the
-- drivers of the table by them.
pub sc_i2c_scan-present :
    {H : Type 0} (twi : Twi H) (acks : ℕ → Bool) (items : List (Item (Bus H))) (fuel : ℕ)
    (s : Bus H)
    → IsProbed twi acks
    → IsUp s.life
    → s.scan_address ≡ 0
    → 127 < fuel
    → (w : Bus H) × IsComplete w
      × (sc_i2c_scan (i2c_scan twi true) (i2c_last_error twi) fuel items s
          ≡ acted_on (present acks 127 0) items w)
sc_i2c_scan-present twi acks items fuel s bus up first enough =
    let (w, answers, done) =
      scan_answers twi acks bus 127 s s (i2c_scan_up twi acks bus s 127 up (omega arith)) up
        (omega arith) in
    let found = present acks 127 s.scan_address in
    (
      w,
      done,
      sc_i2c_scan_lem (i2c_scan twi true) (i2c_last_error twi) found fuel items answers
            (omega (arith, length-present acks 127 s.scan_address))
          ∙ after_gather_complete twi items found w done.2 done.1
          ∙ ap (λ a. acted_on (present acks 127 a) items w) first,
    )
