-- ===== src/SysCall/Scan.antt =====
-- srcs/system/sysCall/sc_driver.c: `sc_i2cScan`, which looks for the declared devices on the bus.
pub mod Gather
pub mod Probe
mod Tests
use task_mate.Common.{
  ℕ, zero, suc, ◌+◌, Bool, true, false, not, ◌&&◌, ◌||◌, Option, none, some, List, [], ◌∷◌, ◌++◌,
  ltb, ◌==◌, if◌then◌else◌, length,
}
use task_mate.Interfaces.{
  ErrCode, no_error, i2c_scan_complete, i2c_scan_address_buffer_full, DriverState, setbit, clearbit,
  getstatus, drv_bit_init, drv_bit_start, drv_bit_error, drv_bit_dead, drv_address_none, is_dead,
  is_running,
}
use task_mate.SysCall.Drivers.{Item, blank, bit_data, call}

abbrev pub i2c_scan_address_count_max : ℕ
i2c_scan_address_count_max = 10

abbrev is_scan_complete : ErrCode → Bool
is_scan_complete i2c_scan_complete = true
is_scan_complete _ = false

-- `sc_i2cAddressFound`
unfoldable pub sc_i2c_address_found : List ℕ → ℕ → Bool
sc_i2c_address_found [] address = false
sc_i2c_address_found (found ∷ rest) address = found == address || sc_i2c_address_found rest address

module _ {W : Type 0} where
  -- The first loop over the drivers: those that are not on the bus are marked as dead.
  unfoldable pub mark_absent : List ℕ → List (Item W) → W → Option W
  mark_absent addresses [] w = some w
  mark_absent addresses (item ∷ items) w =
      let rest = mark_absent addresses items w in
      let marked =
        call item setbit (some (bit_data drv_bit_dead)) w
          (λ w' s d. mark_absent addresses items w') in
      if not (item.address == drv_address_none) && not (sc_i2c_address_found addresses item.address)
      then marked
      else rest

  -- `sc_i2cDriverSetOff`
  unfoldable pub sc_i2c_driver_set_off : Item W → W → Option W
  sc_i2c_driver_set_off item w = call item clearbit (some (bit_data drv_bit_start)) w (λ w1 s1 d1.
      call item clearbit (some (bit_data drv_bit_init)) w1 (λ w2 s2 d2.
        call item clearbit (some (bit_data drv_bit_error)) w2
          (λ w3 s3 d3. call item clearbit (some (bit_data drv_bit_dead)) w3 (λ w4 s4 d4. some w4))))

  -- The second loop: a dead driver that is on the bus is set off.
  unfoldable pub revive_present : List ℕ → List (Item W) → W → Option W
  revive_present addresses [] w = some w
  revive_present addresses (item ∷ items) w = call item getstatus none w (λ w' state d.
      let rest = revive_present addresses items w' in
      let revived : Option W = elim (sc_i2c_driver_set_off item w') [
        | none ↦ none
        | some w'' ↦ revive_present addresses items w''
      ] in
      if is_dead state && sc_i2c_address_found addresses item.address then revived else rest)

  -- The two loops, one behind the other
  unfoldable pub update_drivers : List ℕ → List (Item W) → W → Option (W × ErrCode)
  update_drivers addresses items w = elim (mark_absent addresses items w) [
    | none ↦ none
    | some w' ↦ elim (revive_present addresses items w') [
      | none ↦ none
      | some w'' ↦ some (w'', no_error)
    ]
  ]

module _ {W : Type 0} (i2c_scan : W → W × DriverState × ℕ) where
  -- The `while` of `sc_i2cScan`, a unit of fuel for a round; `addresses` and `full` are what it
  -- has gathered.
  unfoldable pub gather : ℕ → List ℕ → Bool → W → Option (W × List ℕ × Bool)
  gather zero addresses full w = none
  gather (suc fuel) addresses full w =
      let (w', state, address) = i2c_scan w in
      let kept = gather fuel (addresses ++ address ∷ []) full w' in
      let dropped = gather fuel addresses true w' in
      if not (is_running state)
      then some (w', addresses, full)
      else if ltb (length addresses) i2c_scan_address_count_max
      then kept
      else dropped

module _ {W : Type 0} (i2c_scan : W → W × DriverState × ℕ) (i2c_last_error : W → W × ErrCode) where
  -- What `sc_i2cScan` does with the addresses that it gathered
  unfoldable pub after_gather : List (Item W) → W × List ℕ × Bool → Option (W × List ℕ × ErrCode)
  after_gather items (w, addresses, full) =
      let (w', e) = i2c_last_error w in
      let updated : Option (W × List ℕ × ErrCode) = elim (update_drivers addresses items w') [
        | none ↦ none
        | some (w'', e') ↦ some (w'', addresses, e')
      ] in
      if not (is_scan_complete e)
      then some (w', addresses, e)
      else if full
      then some (w', addresses, i2c_scan_address_buffer_full)
      else updated

  -- `sc_i2cScan`: the state, `i2c_scan_addresses`, and the error that is returned
  unfoldable pub sc_i2c_scan : ℕ → List (Item W) → W → Option (W × List ℕ × ErrCode)
  sc_i2c_scan fuel items w = elim (gather i2c_scan fuel [] false w) [
    | none ↦ none
    | some found ↦ after_gather items found
  ]
