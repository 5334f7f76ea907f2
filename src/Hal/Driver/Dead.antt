-- ===== src/Hal/Driver/Dead.antt =====
-- A driver whose DEAD bit is set, under the control function that the drivers of srcs/hal share.
use task_mate.Common.{
  ◌<◌, ◌≡◌, refl, ap, ◌∙◌, ◌≢◌, inl, inr, Bool, true, ◌||◌, Option, none, some, arith, ltb, leb,
  ◌==◌, Bool-cases,
}
use task_mate.Common.Bits.{get_bit, get_bit-set_bit}
use task_mate.Interfaces.{
  Control, init, start, stop, rlset, rlget, setbit, clearbit, getbit, getstatus, getlasterror,
  unknown, ControlData, DriverState, running, error, dead, ErrCode, drv_bit_dead, rl_level_count,
}
use task_mate.Hal.Driver.{Life, Driver, set_error, control}

-- What a driver's operations owe to the DEAD bit.
pub record IsDriver {S : Type 0} (d : Driver S) : Type 0 where
  pub life_with : (s : S) (l : Life) → d.life (d.with_life l s) ≡ l
  pub dead_status :
      (s : S)
      → get_bit (d.life s).status drv_bit_dead ≡ true
      → ((d.life (d.get_status s).0).status ≡ (d.life s).status) × ((d.get_status s).1 ≡ dead)
  pub dead_init :
      (s : S)
      → get_bit (d.life s).status drv_bit_dead ≡ true
      → ((d.life (d.on_init s).0).status ≡ (d.life s).status) × ((d.on_init s).1 ≡ error)
  pub dead_start :
      (s : S)
      → get_bit (d.life s).status drv_bit_dead ≡ true
      → ((d.life (d.on_start s).0).status ≡ (d.life s).status) × ((d.on_start s).1 ≡ error)
  pub dead_stop :
      (s : S)
      → (d.life s).status < 256
      → get_bit (d.life s).status drv_bit_dead ≡ true
      → (get_bit (d.life (d.on_stop s).0).status drv_bit_dead ≡ true) × ((d.on_stop s).1 ≡ dead)

module _ {S : Type 0} (d : Driver S) (law : IsDriver d) where
  abbrev Dead : S → Type 0
  Dead s = get_bit (d.life s).status drv_bit_dead ≡ true

  -- The driver is dead still, and the answer is not that it runs.
  abbrev StaysDead : S × DriverState × Option ControlData → Type 0
  StaysDead r = Dead r.0 × (r.1 ≢ running)

  keep : (s s' : S) → (d.life s').status ≡ (d.life s).status → Dead s → Dead s'
  keep s s' e h = rw e h

  refused :
      (s : S) (e : ErrCode) (dat : Option ControlData)
      → Dead s
      → StaysDead ((set_error d e s).0, (set_error d e s).1, dat)
  unfolding set_error
  refused s e dat h = (keep s _ (ap (λ l. l.status) (law.life_with s _)) h, cc)

  answered :
      (s : S) (dat : Option ControlData)
      → Dead s
      → StaysDead ((d.get_status s).0, (d.get_status s).1, dat)
  answered s dat h = let (same, e) = law.dead_status s h in (keep s _ same h, cc)

  with_status : (s : S) (l : Life) → get_bit l.status drv_bit_dead ≡ true → Dead (d.with_life l s)
  with_status s l h = rw (law.life_with s l) h

  already : (p : Bool) {q : Bool} → q ≡ true → (p || q) ≡ true
  already p h = ground arith

  -- While a driver's DEAD bit is set, no command but CLEARBIT takes it away, and none answers that
  -- the driver runs. It holds of each driver whose own operations respect the bit.
  pub control_dead :
      (command : Control) (dat : Option ControlData) (s : S)
      → command ≢ clearbit
      → (d.life s).status < 256
      → Dead s
      → StaysDead (control d command dat s)
  unfolding control
  control_dead init dat s ne b h = let (same, e) = law.dead_init s h in (keep s _ same h, cc)
  control_dead start dat s ne b h = let (same, e) = law.dead_start s h in (keep s _ same h, cc)
  control_dead stop dat s ne b h = let (kept, e) = law.dead_stop s b h in (kept, cc)
  control_dead rlset none s ne b h = refused s _ none h
  control_dead rlset (some v) s ne b h = elim (Bool-cases (leb rl_level_count v.run_level)) [
    | inl e ↦ rw e (refused s _ (some v) h)
    | inr e ↦ rw e (answered _ (some v) (with_status s _ h))
  ]
  control_dead rlget none s ne b h = refused s _ none h
  control_dead rlget (some v) s ne b h =
      answered s (some (record v { run_level = (d.life s).run_level })) h
  control_dead setbit none s ne b h = refused s _ none h
  control_dead setbit (some v) s ne b h = elim (Bool-cases (ltb drv_bit_dead v.status_bit)) [
    | inl e ↦ rw e (refused s _ (some v) h)
    | inr e ↦ rw e (
        answered _ (some v) (
          with_status s _ (
            get_bit-set_bit (d.life s).status v.status_bit drv_bit_dead b (ground arith)
              (omega arith)
            ∙ already (v.status_bit == drv_bit_dead) h)))
  ]
  control_dead clearbit dat s ne b h = absurd (ne refl)
  control_dead getbit none s ne b h = refused s _ none h
  control_dead getbit (some v) s ne b h = elim (Bool-cases (ltb drv_bit_dead v.status_bit)) [
    | inl e ↦ rw e (refused s _ (some v) h)
    | inr e ↦
        rw e (answered s (some (record v { bit_value = get_bit (d.life s).status v.status_bit })) h)
  ]
  control_dead getstatus dat s ne b h = answered s dat h
  control_dead getlasterror none s ne b h = refused s _ none h
  control_dead getlasterror (some v) s ne b h =
      answered s (some (record v { error = (d.life s).last_error })) h
  control_dead unknown dat s ne b h = refused s _ dat h
