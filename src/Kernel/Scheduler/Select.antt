-- ===== src/Kernel/Scheduler/Select.antt =====
-- Which thread the loop of `tm_schedulerRR` finds: the nearest runnable one going round.
use task_mate.Common.{
  ℕ, zero, suc, ◌+◌, ◌-◌, ◌≤◌, ◌<◌, ◌≡◌, refl, ap, ◌∙◌, ◌≢◌, inl, inr, true, false, none, some,
  arith, ltb, if◌then◌else◌, Bool-cases, some_inj, sym,
}
use task_mate.Interfaces.{RunLevel}
use task_mate.Kernel.Threads.{Thread, Db, mod_thread_count, get_pointer}
use task_mate.Kernel.Threads.Frame.{get_pointer-some}
use task_mate.Kernel.Scheduler.{runnable, advance, select}

-- Steps from `current` to `i`, going round: from 1 to the number of threads.
abbrev pub distance : Db → ℕ → ℕ → ℕ
distance db current i = if ltb current i then i - current else i + mod_thread_count db - current

-- Record `i` holds a thread that the level lets run.
abbrev pub CanRun : Db → RunLevel → ℕ → Type 0
CanRun db level i = (t : Thread) × (get_pointer db i ≡ some t) × (runnable level t ≡ true)

-- `next` can run, and nothing that can run is nearer.
pub record IsNext (db : Db) (level : RunLevel) (current next : ℕ) : Type 0 where
  pub in_range : next < mod_thread_count db
  pub can_run : CanRun db level next
  pub nearest :
      (i : ℕ)
      → i < mod_thread_count db
      → CanRun db level i
      → distance db current next ≤ distance db current i

module _ (db : Db) (level : RunLevel) where
  select_here :
      (fuel current : ℕ) {t : Thread}
      → get_pointer db (advance db current) ≡ some t
      → runnable level t ≡ true
      → select (suc fuel) db level current ≡ some (advance db current)
  unfolding select
  select_here fuel current e r = rw (e, select) (rw r refl)

  select_on :
      (fuel current : ℕ) {t : Thread}
      → get_pointer db (advance db current) ≡ some t
      → runnable level t ≡ false
      → select (suc fuel) db level current ≡ select fuel db level (advance db current)
  unfolding select
  select_on fuel current e r = rw (e, select) (rw r refl)

  CanRun-ne :
      (i j : ℕ) {t : Thread}
      → CanRun db level i
      → get_pointer db j ≡ some t
      → runnable level t ≡ false
      → i ≢ j
  CanRun-ne i j (s, e, r) f q same = cc (ap (get_pointer db) same)

module _ (db : Db) (few : mod_thread_count db < 256) where
  pub advance_lem :
      (current : ℕ)
      → current < mod_thread_count db
      → (advance db current < mod_thread_count db)
        × (distance db current (advance db current) ≡ 1)
        × ((i : ℕ)
            → i < mod_thread_count db
            → i ≢ advance db current
            → distance db current i ≡ distance db (advance db current) i + 1)
  unfolding advance
  advance_lem current h = (ground arith, ground arith, λ i l ne. ground arith)

  distance_bounds :
      (current i : ℕ)
      → current < mod_thread_count db
      → i < mod_thread_count db
      → (1 ≤ distance db current i) × (distance db current i ≤ mod_thread_count db)
  distance_bounds current i h l = ground arith

module _ (db : Db) (level : RunLevel) (few : mod_thread_count db < 256) where
  select_lem :
      (fuel current i : ℕ)
      → current < mod_thread_count db
      → i < mod_thread_count db
      → CanRun db level i
      → distance db current i ≤ fuel
      → (next : ℕ) × (select fuel db level current ≡ some next) × IsNext db level current next
  select_lem zero current i h l can enough =
      absurd (omega (arith, distance_bounds db few current i h l))
  select_lem (suc fuel) current i h l can enough =
      let (inside, one, later) = advance_lem db few current h in
      let (t, e) = get_pointer-some db (advance db current) inside in
      elim (Bool-cases (runnable level t)) [
        | inl r ↦ (
          advance db current,
          select_here db level fuel current e r,
          record {
            in_range = inside;
            can_run = (t, e, r);
            nearest = λ j lj c. omega (arith, one, distance_bounds db few current j h lj);
          },
        )
        | inr r ↦
            let farther = λ (j : ℕ) (lj : j < mod_thread_count db) (c : CanRun db level j).
              later j lj (CanRun-ne db level j (advance db current) c e r) in
            let (next, found, isnext) =
              select_lem fuel (advance db current) i inside l can
                (omega (arith, farther i l can)) in
            (
              next,
              select_on db level fuel current e r ∙ found,
              record {
                in_range = isnext.in_range;
                can_run = isnext.can_run;
                nearest = λ j lj c. omega (
                  arith,
                  isnext.nearest j lj c,
                  farther j lj c,
                  farther next isnext.in_range isnext.can_run,
                );
              },
            )
      ]

  -- If some thread can run, the loop of `tm_schedulerRR` ends within one round over the threads,
  -- on the nearest thread after the current one that can.
  pub select_finds :
      (current i : ℕ)
      → current < mod_thread_count db
      → i < mod_thread_count db
      → CanRun db level i
      → (next : ℕ) × (select (mod_thread_count db) db level current ≡ some next)
        × IsNext db level current next
  select_finds current i h l can =
      select_lem (mod_thread_count db) current i h l can
        (omega (arith, distance_bounds db few current i h l))

  -- If no thread can run, the loop goes on for as many rounds as it is given.
  pub select_hangs :
      (fuel current : ℕ)
      → current < mod_thread_count db
      → ((i : ℕ) (t : Thread) → get_pointer db i ≡ some t → runnable level t ≡ false)
      → select fuel db level current ≡ none
  select_hangs zero current h nobody = unfold select in refl
  select_hangs (suc fuel) current h nobody =
      let (inside, one, later) = advance_lem db few current h in
      let (t, e) = get_pointer-some db (advance db current) inside in
      select_on db level fuel current e (nobody (advance db current) t e)
      ∙ select_hangs fuel (advance db current) inside nobody

select_empty :
    (db : Db) (level : RunLevel) (current : ℕ) {next : ℕ}
    → ¬ (select 0 db level current ≡ some next)
unfolding select
select_empty db level current h = cc

-- A thread that the loop finds can run.
pub select_sound :
    (fuel : ℕ) (db : Db) (level : RunLevel) (current : ℕ) {next : ℕ}
    → mod_thread_count db < 256
    → current < mod_thread_count db
    → select fuel db level current ≡ some next
    → (next < mod_thread_count db) × CanRun db level next
select_sound zero db level current few h f = absurd (select_empty db level current f)
select_sound (suc fuel) db level current few h f =
    let (inside, one, later) = advance_lem db few current h in
    let (t, e) = get_pointer-some db (advance db current) inside in
    elim (Bool-cases (runnable level t)) [
      | inl r ↦
          let same = some_inj (sym (select_here db level fuel current e r) ∙ f) in
          rw (← same) (inside, (t, e, r))
      | inr r ↦
          select_sound fuel db level (advance db current) few inside
            (sym (select_on db level fuel current e r) ∙ f)
    ]
