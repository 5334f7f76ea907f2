-- ===== src/SysCall/Scan/Gather.antt =====
-- What `sc_i2cScan` gathers, and when it touches a driver.
use task_mate.Common.{
  ℕ, zero, suc, ◌+◌, ◌-◌, ◌≤◌, ◌<◌, ◌≡◌, refl, sym, ap, ap₂, ◌∙◌, ◌≢◌, Bool, true, false, ◌||◌,
  Option, some, List, [], ◌∷◌, ◌++◌, append-nil, append_assoc, arith, dec_lt, ltb, length, take,
  length-append,
}
use task_mate.Interfaces.{DriverState, running, ErrCode, is_running}
use task_mate.SysCall.Drivers.{Item}
use task_mate.SysCall.Scan.{gather, after_gather, sc_i2c_scan}

-- The scan of the bus finds the addresses one after the other from the state `w` on, then ends in
-- the state `w'`.
pub data Answers {W : Type 0} (i2c_scan : W → W × DriverState × ℕ) : List ℕ → W → W → Type 0 where
  ends :
      {w w' : W} {state : DriverState} {address : ℕ}
      → i2c_scan w ≡ (w', state, address)
      → state ≢ running
      → Answers i2c_scan [] w w'
  finds :
      {w w1 w' : W} {address : ℕ} {rest : List ℕ}
      → i2c_scan w ≡ (w1, running, address)
      → Answers i2c_scan rest w1 w'
      → Answers i2c_scan (address ∷ rest) w w'

module _ {W : Type 0} (i2c_scan : W → W × DriverState × ℕ) where
  gather_end :
      (fuel : ℕ) (addresses : List ℕ) (full : Bool) {w w' : W} {state : DriverState} {address : ℕ}
      → i2c_scan w ≡ (w', state, address)
      → state ≢ running
      → gather i2c_scan (suc fuel) addresses full w ≡ some (w', addresses, full)
  unfolding gather
  gather_end fuel addresses full {state} e ne = rw (gather, e) (rw (stopped state ne) refl)
    where
      stopped : (s : DriverState) → s ≢ running → is_running s ≡ false
      stopped DriverState.off h = refl
      stopped DriverState.initialized h = refl
      stopped DriverState.running h = absurd (h refl)
      stopped DriverState.error h = refl
      stopped DriverState.dead h = refl

  gather_keep :
      (fuel : ℕ) (addresses : List ℕ) (full : Bool) {w w1 : W} {address : ℕ}
      → i2c_scan w ≡ (w1, running, address)
      → length addresses < 10
      → gather i2c_scan (suc fuel) addresses full w
        ≡ gather i2c_scan fuel (addresses ++ address ∷ []) full w1
  unfolding gather
  gather_keep fuel addresses full e l =
      let room : ltb (length addresses) 10 ≡ true = ground arith in rw (gather, e, room) refl

  gather_drop :
      (fuel : ℕ) (addresses : List ℕ) (full : Bool) {w w1 : W} {address : ℕ}
      → i2c_scan w ≡ (w1, running, address)
      → 10 ≤ length addresses
      → gather i2c_scan (suc fuel) addresses full w ≡ gather i2c_scan fuel addresses true w1
  unfolding gather
  gather_drop fuel addresses full e l =
      let room : ltb (length addresses) 10 ≡ false = ground arith in rw (gather, e, room) refl

  -- What the loop leaves when the bus answers with `answers`.
  abbrev gathered : List ℕ → List ℕ → Bool → W → Option (W × List ℕ × Bool)
  gathered answers addresses full w' = some (
    w',
    addresses ++ take (10 - length addresses) answers,
    full || ltb (10 - length addresses) (length answers),
  )

  kept_answers :
      (x : ℕ) (xs addresses : List ℕ) (full : Bool) (w' : W)
      → length addresses < 10
      → gathered xs (addresses ++ x ∷ []) full w' ≡ gathered (x ∷ xs) addresses full w'
  kept_answers x xs addresses full w' l =
      let more : length (addresses ++ x ∷ []) ≡ length addresses + 1 =
        length-append addresses (x ∷ []) in
      let room : 10 - length addresses ≡ suc (9 - length addresses) = omega arith in
      let less : 10 - (length addresses + 1) ≡ 9 - length addresses = omega arith in
      let flag : (full || ltb (9 - length addresses) (length xs))
          ≡ (full || ltb (suc (9 - length addresses)) (suc (length xs))) =
        ap (λ b. full || b) (ground arith) in
      rw (more, less, room)
        (ap₂ (λ a b. some (w', a, b))
          (append_assoc addresses (x ∷ []) (take (9 - length addresses) xs)) flag)

  full_answers :
      (x : ℕ) (xs addresses : List ℕ) (full : Bool) (w' : W)
      → length addresses ≡ 10
      → gathered xs addresses true w' ≡ gathered (x ∷ xs) addresses full w'
  full_answers x xs addresses full w' l =
      let none_left : 10 - length addresses ≡ 0 = omega arith in
      let flag : (full || ltb 0 (suc (length xs))) ≡ true = ground arith in
      rw (none_left, flag) refl

  gather_lem :
      (answers : List ℕ) (fuel : ℕ) (addresses : List ℕ) (full : Bool) {w w' : W}
      → Answers i2c_scan answers w w'
      → length answers < fuel
      → length addresses ≤ 10
      → gather i2c_scan fuel addresses full w ≡ gathered answers addresses full w'
  gather_lem answers zero addresses full a f l = absurd (omega arith)
  gather_lem [] (suc fuel) addresses full {w' = w'} (ends e ne) f l =
      gather_end fuel addresses full e ne
      ∙ ap₂ (λ a b. some (w', a, b)) (nothing (10 - length addresses)) (ground arith)
    where
      nothing : (n : ℕ) → addresses ≡ addresses ++ take n []
      nothing zero = sym (append-nil addresses)
      nothing (suc n) = sym (append-nil addresses)
  gather_lem (x ∷ xs) (suc fuel) addresses full {w' = w'} (finds e a) f l =
      elim (dec_lt (length addresses) 10) [
        | yes room ↦
            gather_keep fuel addresses full e room
            ∙ gather_lem xs fuel (addresses ++ x ∷ []) full a (omega arith)
                (omega (arith, length-append addresses (x ∷ [])))
            ∙ kept_answers x xs addresses full w' room
        | no out ↦
            gather_drop fuel addresses full e (omega arith)
            ∙ gather_lem xs fuel addresses true a (omega arith) l
            ∙ full_answers x xs addresses full w' (omega arith)
      ]

-- On a bus that answers with a list of addresses and then ends the scan, with fuel for a round more
-- than there are answers, the loop of `sc_i2cScan` ends, and the code behind it acts on the first
-- ten of the answers, in order, and on whether there were more.
pub sc_i2c_scan_lem :
    {W : Type 0} (i2c_scan : W → W × DriverState × ℕ) (i2c_last_error : W → W × ErrCode)
    (answers : List ℕ) (fuel : ℕ) (items : List (Item W)) {w w' : W}
    → Answers i2c_scan answers w w'
    → length answers < fuel
    → sc_i2c_scan i2c_scan i2c_last_error fuel items w
      ≡ after_gather i2c_scan i2c_last_error items (w', take 10 answers, ltb 10 (length answers))
unfolding sc_i2c_scan
sc_i2c_scan_lem i2c_scan i2c_last_error answers fuel items a f =
    rw (sc_i2c_scan, gather_lem i2c_scan answers fuel [] false a f (omega arith)) refl
