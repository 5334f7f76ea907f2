-- ===== src/Kernel/StackDepth/Scan.antt =====
-- The loop of `mod_threadStackDepthGet`: how far it is from the truth, and how many rounds it takes.
use task_mate.Common.{
  ℕ, zero, suc, ◌+◌, ◌-◌, ◌*◌, ◌≤◌, ◌<◌, ◌≡◌, refl, ◌∙◌, ◌≢◌, none, some, List, arith, dec_lt,
  ℕ_discrete, leb, if◌then◌else◌,
}
use task_mate.Kernel.Threads.{mod_stack_pattern}
use task_mate.Kernel.StackDepth.{word_at, scan}

-- The first `unused` of the usable words hold the pattern, and none of the others does.
pub record IsBoundary (stack : List ℕ) (usable unused : ℕ) : Type 0 where
  pub within : unused ≤ usable
  pub fresh : (i : ℕ) → i < unused → word_at stack i ≡ mod_stack_pattern
  pub used : (i : ℕ) → unused ≤ i → i < usable → word_at stack i ≢ mod_stack_pattern

-- What the loop answers: never more than the unused words, and short of them by less than a step.
abbrev pub IsClose : ℕ → ℕ → ℕ → ℕ → Type 0
IsClose usable step unused confirmed =
    (confirmed ≤ unused) × (unused < confirmed + step) × (unused ≡ usable → confirmed ≡ usable)

module _ (usable step : ℕ) where
  -- the next index
  next_index : ℕ → ℕ
  next_index index = if leb (usable - (index + 1)) step then usable - 1 else index + step

  next_index_lem :
      (index : ℕ)
      → 0 < step
      → index + 1 < usable
      → (index < next_index index) × (next_index index < usable) × (next_index index ≤ index + step)
  unfolding next_index
  next_index_lem index pos h = ground arith

module _ (stack : List ℕ) (usable step : ℕ) where
  scan_past :
      (fuel confirmed index : ℕ)
      → usable ≤ index
      → scan (suc fuel) stack usable step confirmed index ≡ some confirmed
  unfolding scan
  scan_past fuel confirmed index h = ground arith

  scan_used :
      (fuel confirmed index : ℕ)
      → index < usable
      → word_at stack index ≢ mod_stack_pattern
      → scan (suc fuel) stack usable step confirmed index ≡ some confirmed
  unfolding scan
  scan_used fuel confirmed index h ne = ground arith

  scan_full :
      (fuel confirmed index : ℕ)
      → usable < 65536
      → index + 1 ≡ usable
      → word_at stack index ≡ mod_stack_pattern
      → scan (suc fuel) stack usable step confirmed index ≡ some usable
  unfolding scan
  scan_full fuel confirmed index fits e w = ground arith

  scan_on :
      (fuel confirmed index : ℕ)
      → usable < 65536
      → index + 1 < usable
      → word_at stack index ≡ mod_stack_pattern
      → scan (suc fuel) stack usable step confirmed index
        ≡ scan fuel stack usable step (index + 1) (next_index usable step index)
  unfolding scan next_index
  scan_on fuel confirmed index fits h w = ground arith

module _ (stack : List ℕ) (usable step unused : ℕ) (b : IsBoundary stack usable unused) where
  pub scan_lem :
      (fuel confirmed index : ℕ)
      → usable < 65536
      → 0 < step
      → confirmed ≤ unused
      → confirmed ≤ index
      → index < confirmed + step
      → (usable ≤ index → confirmed ≡ usable)
      → usable - index < fuel
      → (c : ℕ) × (scan fuel stack usable step confirmed index ≡ some c)
        × IsClose usable step unused c
  scan_lem zero confirmed index fits pos low le near stop enough = absurd (omega arith)
  scan_lem (suc fuel) confirmed index fits pos low le near stop enough =
      elim (dec_lt index usable) [
        | no past ↦ (
          confirmed,
          scan_past stack usable step fuel confirmed index (omega arith),
          (low, omega (arith, b.within), λ _. stop (omega arith)),
        )
        | yes h ↦ elim (dec_lt index unused) [
          | no past ↦ (
            confirmed,
            scan_used stack usable step fuel confirmed index h (b.used index (omega arith) h),
            (low, omega arith, λ e. absurd (omega arith)),
          )
          | yes old ↦ elim (ℕ_discrete (index + 1) usable) [
            | yes e ↦ (
              usable,
              scan_full stack usable step fuel confirmed index fits e (b.fresh index old),
              (omega arith, omega (arith, b.within), λ _. refl),
            )
            | no ne ↦
                rw
                  (scan_on stack usable step fuel confirmed index fits (omega arith)
                    (b.fresh index old))
                  (scan_lem fuel (index + 1) (next_index usable step index) fits pos (omega arith)
                    (omega (arith, next_index_lem usable step index pos))
                    (omega (arith, next_index_lem usable step index pos))
                    (λ q. absurd (omega (arith, next_index_lem usable step index pos)))
                    (omega (arith, next_index_lem usable step index pos)))
          ]
        ]
      ]

next_rounds :
    (usable step fuel index : ℕ)
    → index + 1 < usable
    → usable ≤ index + step * suc fuel + 1
    → usable ≤ next_index usable step index + step * fuel + 1
unfolding next_index
next_rounds usable step fuel index more h = ground arith

-- The loop ends within as many rounds as steps fit into the words that are left.
pub scan_rounds_lem :
    (fuel : ℕ) (stack : List ℕ) (usable step confirmed index : ℕ)
    → usable < 65536
    → 0 < step
    → usable ≤ index + step * fuel + 1
    → (c : ℕ) × (scan (suc fuel) stack usable step confirmed index ≡ some c)
scan_rounds_lem zero stack usable step confirmed index fits pos h = elim (dec_lt index usable) [
  | no past ↦ (confirmed, scan_past stack usable step 0 confirmed index (omega arith))
  | yes inside ↦ elim (ℕ_discrete (word_at stack index) mod_stack_pattern) [
    | no ne ↦ (confirmed, scan_used stack usable step 0 confirmed index inside ne)
    | yes w ↦ (usable, scan_full stack usable step 0 confirmed index fits (omega arith) w)
  ]
]
scan_rounds_lem (suc fuel) stack usable step confirmed index fits pos h =
    elim (dec_lt index usable) [
      | no past ↦ (confirmed, scan_past stack usable step (suc fuel) confirmed index (omega arith))
      | yes inside ↦ elim (ℕ_discrete (word_at stack index) mod_stack_pattern) [
        | no ne ↦ (confirmed, scan_used stack usable step (suc fuel) confirmed index inside ne)
        | yes w ↦ elim (ℕ_discrete (index + 1) usable) [
          | yes e ↦ (usable, scan_full stack usable step (suc fuel) confirmed index fits e w)
          | no ne ↦ rw (scan_on stack usable step (suc fuel) confirmed index fits (omega arith) w) (
              scan_rounds_lem fuel stack usable step (index + 1) (next_index usable step index) fits
                pos (next_rounds usable step fuel index (omega arith) h))
        ]
      ]
    ]

next_one : (usable index : ℕ) → index + 1 < usable → next_index usable 1 index ≡ index + 1
unfolding next_index
next_one usable index h = ground arith

scan_empty :
    (stack : List ℕ) (usable confirmed index : ℕ) → scan 0 stack usable 1 confirmed index ≡ none
unfolding scan
scan_empty stack usable confirmed index = refl

-- With steps of one word, a loop over unused words alone goes through all of them.
pub scan_long :
    (fuel : ℕ) (stack : List ℕ) (usable confirmed index : ℕ)
    → usable < 65536
    → ((i : ℕ) → i < usable → word_at stack i ≡ mod_stack_pattern)
    → index + fuel < usable
    → scan fuel stack usable 1 confirmed index ≡ none
scan_long zero stack usable confirmed index fits fresh h = scan_empty stack usable confirmed index
scan_long (suc fuel) stack usable confirmed index fits fresh h =
    scan_on stack usable 1 fuel confirmed index fits (omega arith) (fresh index (omega arith))
    ∙ scan_long fuel stack usable (index + 1) (next_index usable 1 index) fits fresh
        (omega (arith, next_one usable index))
