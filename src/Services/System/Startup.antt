-- ===== src/Services/System/Startup.antt =====
-- How the startup of the system ends.
use mathlib.Core.Option
use task_mate.Common.{
  ℕ, if◌then◌else◌, ◌+◌, ◌<◌, ◌≡◌, refl, sym, subst, ap, Bool, true, false, ◌||◌, Option, none,
  some, List, arith, ltb, leb, u8, some_inj, ◌≤◌, ◌-◌, suc, ◌*◌, ℕ_discrete, ◌==◌, ◌∙◌, zero, ◌≢◌,
  ap₂, not,
}
use task_mate.SysCall.Threads.{sc_run_level_set, sc_run_level_get, sc_run_level_is_ready}
use task_mate.Services.System.{
  Rest, system_run_level_is_ready, system_run_level_start, Machine, after_drivers, discover,
  thread_levels_loop, driver_levels_loop, system_returned, start_loop, unless_fault, Ending,
  next_level, fault, system_halted, out_of_rounds, after_round, wait_round, system_start,
}
use task_mate.SysCall.Drivers.{Item, sc_driver_run_level_start}
use task_mate.Interfaces.{RunLevel, rl_run_user}
use task_mate.Kernel.Scheduler.{run_level_set, Kernel, run_level_get}

-- The kernel's part of the ways in which a run level changes
run_level_set_up :
    (k : Kernel) (rl : RunLevel)
    → sc_run_level_get k ≡ rl
    → 0 < rl
    → rl < 4
    → sc_run_level_set k (u8 (rl + 1)) ≡ (record k { scheduler_run_level = u8 (rl + 1) }, true)
unfolding sc_run_level_set sc_run_level_get run_level_set run_level_get
run_level_set_up k rl e pos_rl small =
    let next : u8 (rl + 1) ≡ rl + 1 = omega arith in
    let allowed : (ltb (u8 (rl + 1)) 1
          || leb 5 (u8 (rl + 1))
          || ltb (u8 (rl + 1)) k.scheduler_run_level)
        ≡ false =
      ground arith in
    rw allowed refl

level_of :
    (k : Kernel) (rl : RunLevel) → sc_run_level_get (record k { scheduler_run_level = rl }) ≡ rl
unfolding sc_run_level_get run_level_get
level_of k rl = refl

both_true : (b c : Bool) → (if b then c else false) ≡ true → (b ≡ true) × (c ≡ true)
both_true b c h = ground arith

module _ {D : Type 0} (rest : Rest D) (items : List (Item D)) where
  -- What the tests of a level found
  Found : RunLevel → Machine D → Machine D × Bool → Type 0
  Found rl m (m', ok) =
      (m'.kernel ≡ m.kernel)
      × (ok ≡ true
          → (thread_levels_loop rest items rl 1 m.kernel ≡ true)
            × (driver_levels_loop rest items (rl + 1) 0 m.drivers ≡ some (m'.drivers, true)))

  is_ready-Found :
      (rl : RunLevel) (m : Machine D) (r : Machine D × Bool)
      → system_run_level_is_ready rest items rl m ≡ some r
      → Found rl m r
  unfolding system_run_level_is_ready Found
  is_ready-Found rl m r e = go (driver_levels_loop rest items (rl + 1) 0 m.drivers) refl e
    where
      result : D × Bool → Machine D × Bool
      result r' =
          let (d, ok) = after_drivers rest items rl m.kernel r' in (record m { drivers = d }, ok)

      of_result :
          (d : D) (ok : Bool)
          → driver_levels_loop rest items (rl + 1) 0 m.drivers ≡ some (d, ok)
          → Found rl m (result (d, ok))
      of_result d true e = (refl, λ ready. (ready, e))
      of_result d false e = (refl, λ ready. absurd (cc))

      go :
          (o : Option (D × Bool))
          → driver_levels_loop rest items (rl + 1) 0 m.drivers ≡ o
          → Option.map result o ≡ some r
          → Found rl m r
      go none e h = absurd (cc)
      go (some (d, ok)) e h = subst (Found rl m) (some_inj h) (of_result d ok e)

  Found-kernel :
      (rl : RunLevel) (m : Machine D) (r : Machine D × Bool)
      → Found rl m r
      → sc_run_level_get r.0.kernel ≡ sc_run_level_get m.kernel
  unfolding Found
  Found-kernel rl m (m', ok) (same, rest_) = ap sc_run_level_get same

  level_start_kernel :
      (rl : RunLevel) (m m' : Machine D)
      → system_run_level_start rest items rl m ≡ some m'
      → m'.kernel ≡ m.kernel
  unfolding system_run_level_start
  level_start_kernel rl m m' e = go (sc_driver_run_level_start items rl m.drivers) e
    where
      go :
          (o : Option D)
          → Option.map (λ d. record m { drivers = discover rest items rl d }) o ≡ some m'
          → m'.kernel ≡ m.kernel
      go none h = absurd (cc)
      go (some d) h = ap (λ x. x.kernel) (sym (some_inj h))

  levels_ready :
      (n : ℕ) (level : RunLevel) (k : Kernel)
      → thread_levels_loop rest items n level k ≡ true
      → (l : RunLevel) → level ≤ l
      → l < level + n
      → sc_run_level_is_ready k l ≡ true
  unfolding thread_levels_loop
  levels_ready zero level k h l le lt = absurd (omega arith)
  levels_ready (suc n) level k h l le lt =
      let (here, more) =
        both_true (sc_run_level_is_ready k level) (thread_levels_loop rest items n (level + 1) k)
          h in
      elim (ℕ_discrete l level) [
        | yes same ↦ ap (sc_run_level_is_ready k) same ∙ here
        | no further ↦ levels_ready n (level + 1) k more l (omega arith) (omega arith)
      ]

  -- The run level is that of the user's threads, the threads of each level are ready, and the tests
  -- of the drivers of each level, which may change the state of the drivers, said that they run.
  pub IsUp : Machine D → Type 0
  IsUp m =
      (sc_run_level_get m.kernel ≡ rl_run_user)
      × ((level : RunLevel) → 1 ≤ level → level ≤ 4 → sc_run_level_is_ready m.kernel level ≡ true)
      × ((d : D) × (driver_levels_loop rest items 5 0 d ≡ some (m.drivers, true)))

  -- An end of the startup: if it returns, the system is up.
  pub Ends : Ending D → Type 0
  Ends (system_halted m) = Unit {0}
  Ends (system_returned m) = IsUp m
  Ends fault = Unit {0}
  Ends out_of_rounds = ⊥

  halts : (m : Machine D) → Ends (system_halted m)
  unfolding Ends
  halts m = tt

  faults : Ends fault
  unfolding Ends
  faults = tt

  -- `sc_runLevelSet` has no other caller, so a round of the other threads keeps the run level.
  abbrev pub KeepsLevel : Type 0
  KeepsLevel =
      (m : Machine D) → sc_run_level_get (rest.coop_yield m).kernel ≡ sc_run_level_get m.kernel

  -- The loop ends as it should from such a state.
  EndsFrom : ℕ → Type 0
  EndsFrom fuel =
      (rl : RunLevel) (count : ℕ) (m : Machine D)
      → sc_run_level_get m.kernel ≡ rl
      → 0 < rl
      → rl ≤ 4
      → count < 10
      → (4 - rl) * 10 + (10 - count) ≤ fuel
      → Ends (start_loop rest items fuel rl count m)

  next_level-Ends :
      (fuel : ℕ) (rl : RunLevel) (m : Machine D)
      → EndsFrom fuel
      → sc_run_level_get m.kernel ≡ rl
      → 0 < rl
      → rl ≤ 4
      → (4 - rl) * 10 ≤ fuel
      → (rl ≡ 4 → IsUp m)
      → Ends (next_level rest items (λ level. start_loop rest items fuel level 0) rl m)
  unfolding next_level EndsFrom Ends
  next_level-Ends fuel rl m ih e pos_rl small enough top = elim (ℕ_discrete rl 4) [
    | yes at_top ↦ let user : (rl == 4) ≡ true = ground arith in rw user (top at_top)
    | no below ↦
        let user : (rl == 4) ≡ false = ground arith in
        let next : u8 (rl + 1) ≡ rl + 1 = omega arith in
        rw (user, run_level_set_up m.kernel rl e pos_rl (omega arith), next)
          (go below (system_run_level_start rest items (rl + 1) (up m)) refl)
  ]
    where
      up : Machine D → Machine D
      up m' = record m' { kernel = record m'.kernel { scheduler_run_level = rl + 1 } }

      go :
          rl ≢ 4
          → (o : Option (Machine D)) → system_run_level_start rest items (rl + 1) (up m) ≡ o
          → Ends (unless_fault rest items (start_loop rest items fuel (rl + 1) 0) o)
      go below none e' = tt
      go below (some m') e' =
          ih (rl + 1) 0 m'
            (ap sc_run_level_get (level_start_kernel (rl + 1) (up m) m' e')
              ∙ level_of m.kernel (rl + 1))
            (omega arith) (omega arith) (omega arith) (omega arith)

  wait_round-Ends :
      (fuel : ℕ) (rl : RunLevel) (count : ℕ) (m : Machine D)
      → EndsFrom fuel
      → sc_run_level_get m.kernel ≡ rl
      → 0 < rl
      → rl ≤ 4
      → count < 10
      → (4 - rl) * 10 + (10 - count) ≤ suc fuel
      → Ends (wait_round rest items (start_loop rest items fuel rl) count m)
  unfolding wait_round EndsFrom Ends
  wait_round-Ends fuel rl count m ih e pos_rl small few enough =
      let next : u8 (count + 1) ≡ count + 1 = omega arith in
      elim (ℕ_discrete count 9) [
        | yes last ↦ let full : leb 10 (count + 1) ≡ true = ground arith in rw (next, full) tt
        | no more ↦
            let room : leb 10 (count + 1) ≡ false = ground arith in
            rw (next, room) (ih rl (count + 1) m e pos_rl small (omega arith) (omega arith))
      ]

  -- A level that was found ready leaves the system up if it is the last one.
  Found-IsUp :
      (rl : RunLevel) (m m' : Machine D)
      → Found rl m (m', true)
      → sc_run_level_get m'.kernel ≡ rl
      → rl ≡ 4
      → IsUp m'
  unfolding Found IsUp
  Found-IsUp rl m m' (same, found) e top =
      let (threads, drivers) = found refl in
      let ready : thread_levels_loop rest items 4 1 m'.kernel ≡ true =
        ap₂ (λ n k. thread_levels_loop rest items n 1 k) (sym top) same ∙ threads in
      let running_ : driver_levels_loop rest items 5 0 m.drivers ≡ some (m'.drivers, true) =
        ap (λ n. driver_levels_loop rest items (n + 1) 0 m.drivers) (sym top) ∙ drivers in
      (
        e ∙ top,
        λ level low high. levels_ready 4 1 m'.kernel ready level low (omega arith),
        (m.drivers, running_),
      )

  round-Ends :
      (fuel : ℕ) (rl : RunLevel) (count : ℕ) (m : Machine D)
      → EndsFrom fuel
      → sc_run_level_get m.kernel ≡ rl
      → 0 < rl
      → rl ≤ 4
      → count < 10
      → (4 - rl) * 10 + (10 - count) ≤ suc fuel
      → (o : Option (Machine D × Bool)) → system_run_level_is_ready rest items rl m ≡ o
      → Ends (
          unless_fault rest items
            (after_round rest items
              (next_level rest items (λ level. start_loop rest items fuel level 0) rl)
              (wait_round rest items (start_loop rest items fuel rl) count))
            o)
  unfolding Ends
  round-Ends fuel rl count m ih e pos_rl small few enough none found = tt
  round-Ends fuel rl count m ih e pos_rl small few enough (some (m', true)) found =
      let f = is_ready-Found rl m (m', true) found in
      let level : sc_run_level_get m'.kernel ≡ rl = Found-kernel rl m (m', true) f ∙ e in
      next_level-Ends fuel rl m' ih level pos_rl small (omega arith) (Found-IsUp rl m m' f level)
  round-Ends fuel rl count m ih e pos_rl small few enough (some (m', false)) found =
      let f = is_ready-Found rl m (m', false) found in
      wait_round-Ends fuel rl count m' ih (Found-kernel rl m (m', false) f ∙ e) pos_rl small few
        enough

  start_loop-Ends : KeepsLevel → (fuel : ℕ) → EndsFrom fuel
  unfolding EndsFrom start_loop
  start_loop-Ends keeps zero rl count m e pos_rl small few enough = absurd (omega arith)
  start_loop-Ends keeps (suc fuel) rl count m e pos_rl small few enough =
      round-Ends fuel rl count (rest.coop_yield m) (start_loop-Ends keeps fuel) (keeps m ∙ e) pos_rl
        small few enough (system_run_level_is_ready rest items rl (rest.coop_yield m)) refl

  by_test : (b : Bool) (x y : Ending D) → Ends x → (b ≡ false → Ends y) → Ends (if b then x else y)
  by_test true x y ends_x ends_y = ends_x
  by_test false x y ends_x ends_y = ends_y refl

  -- Forty rounds are enough for the startup from any state: it halts, or a NULL in the driver table
  -- stops it, or it returns; and if it returns, the run level is that of the user's threads, the
  -- threads of every level are ready, and the drivers of every level answered that they run. The
  -- rounds of the other threads are taken to keep the run level.
  pub system_start-Ends :
      (fuel : ℕ) (m : Machine D) → KeepsLevel → 40 ≤ fuel → Ends (system_start rest items fuel m)
  unfolding system_start EndsFrom
  system_start-Ends fuel m keeps enough =
      by_test (not (sc_run_level_get m.kernel == 1)) (system_halted m) _ (halts m) (λ e.
        go (ground arith) (system_run_level_start rest items (sc_run_level_get m.kernel) m) refl)
    where
      go :
          sc_run_level_get m.kernel ≡ 1
          → (o : Option (Machine D))
          → system_run_level_start rest items (sc_run_level_get m.kernel) m ≡ o
          → Ends
              (unless_fault rest items (start_loop rest items fuel (sc_run_level_get m.kernel) 0) o)
      go core none e = faults
      go core (some m') e =
          start_loop-Ends keeps fuel (sc_run_level_get m.kernel) 0 m'
            (ap sc_run_level_get (level_start_kernel (sc_run_level_get m.kernel) m m' e))
            (omega arith) (omega arith) (omega arith) (omega arith)

  -- Round after round, the tests of this level find it not ready.
  abbrev pub NeverReady : RunLevel → Type 0
  NeverReady rl =
      (m : Machine D)
      → (m' : Machine D) × (system_run_level_is_ready rest items rl (rest.coop_yield m)
          ≡ some (m', false))

  -- A round that does not find the level ready, and is not the last one
  start_loop_waits :
      (fuel : ℕ) (rl : RunLevel) (count : ℕ) (m m' : Machine D)
      → system_run_level_is_ready rest items rl (rest.coop_yield m) ≡ some (m', false)
      → count < 9
      → start_loop rest items (suc fuel) rl count m ≡ start_loop rest items fuel rl (count + 1) m'
  unfolding start_loop wait_round
  start_loop_waits fuel rl count m m' e few =
      let next : u8 (count + 1) ≡ count + 1 = omega arith in
      let room : leb 10 (count + 1) ≡ false = ground arith in rw (e, next, room) refl

  start_loop_gives_up :
      (fuel : ℕ) (rl : RunLevel) (m m' : Machine D)
      → system_run_level_is_ready rest items rl (rest.coop_yield m) ≡ some (m', false)
      → start_loop rest items (suc fuel) rl 9 m ≡ system_halted m'
  unfolding start_loop wait_round
  start_loop_gives_up fuel rl m m' e = rw e refl

  -- A level that is never ready halts the system after the tenth round of waiting for it, counted
  -- from the rounds that were waited before.
  pub start_loop_halts :
      (fuel : ℕ) (rl : RunLevel) (count : ℕ) (m : Machine D)
      → NeverReady rl
      → count < 10
      → 10 ≤ fuel + count
      → (m' : Machine D) × (start_loop rest items fuel rl count m ≡ system_halted m')
  start_loop_halts zero rl count m never few enough = absurd (omega arith)
  start_loop_halts (suc fuel) rl count m never few enough =
      let (m', e) = never m in
      elim (ℕ_discrete count 9) [
        | yes last ↦ (
          m',
          ap (λ c. start_loop rest items (suc fuel) rl c m) last
              ∙ start_loop_gives_up fuel rl m m' e,
        )
        | no more ↦
            let (m'', e') =
              start_loop_halts fuel rl (count + 1) m' never (omega arith) (omega arith) in
            (m'', start_loop_waits fuel rl count m m' e (omega arith) ∙ e')
      ]
