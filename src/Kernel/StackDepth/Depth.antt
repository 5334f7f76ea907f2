-- ===== src/Kernel/StackDepth/Depth.antt =====
-- What `mod_threadStackDepthGet` reports of a stack whose used words are those above a boundary.
use task_mate.Common.{ℕ, ◌+◌, ◌-◌, ◌*◌, ◌≤◌, ◌<◌, ◌≡◌, refl, ap, ◌∙◌, true, none, some, arith, u16}
use task_mate.Kernel.Threads.{Thread, Db, get_pointer, mod_stack_pattern}
use task_mate.Kernel.Threads.Valid.{IsThread, IsValid}
use task_mate.Kernel.StackDepth.{word_at, scan, usable_words, scan_step, stack_depth_get}
use task_mate.Kernel.StackDepth.Scan.{IsBoundary, scan_lem, scan_rounds_lem, scan_long}

pub step_pos : (t : Thread) → 0 < scan_step t
step_pos t = ground arith

stack_depth_get_found :
    (db : Db) (id : ℕ) {t : Thread} (c : ℕ)
    → get_pointer db id ≡ some t
    → scan (usable_words t + 1) t.stack (usable_words t) (scan_step t) 0 0 ≡ some c
    → stack_depth_get db id true ≡ some (u16 ((usable_words t - c) * 1))
unfolding stack_depth_get
stack_depth_get_found db id c e s = rw (e, stack_depth_get) (rw s refl)

-- If in a thread's stack exactly the first `unused` of the usable words still hold the fill
-- pattern, the reported depth is at least the words used and exceeds them by less than the
-- sampling step; and it is 0 for a stack that was never used.
pub stack_depth_get_close :
    (db : Db) (id unused : ℕ) {t : Thread}
    → IsValid db
    → get_pointer db id ≡ some t
    → IsBoundary t.stack (usable_words t) unused
    → (depth : ℕ) × (stack_depth_get db id true ≡ some depth)
      × (usable_words t - unused ≤ depth)
      × (depth < usable_words t - unused + scan_step t)
      × (unused ≡ usable_words t → depth ≡ 0)
stack_depth_get_close db id unused {t} v e b =
    let (c, s, (low, high, full)) =
      scan_lem t.stack (usable_words t) (scan_step t) unused b (usable_words t + 1) 0 0
        (omega arith) (step_pos t) (omega arith) (omega arith) (omega (arith, step_pos t))
        (λ q. omega arith) (omega arith) in
    (
      u16 ((usable_words t - c) * 1),
      stack_depth_get_found db id c e s,
      omega (arith, b.within),
      omega (arith, b.within, step_pos t),
      λ q. omega (arith, full q),
    )

-- The sampling loop of `mod_threadStackDepthGet` ends within 253 rounds on the stack of any thread.
pub scan_rounds :
    (t : Thread)
    → IsThread t
    → (c : ℕ) × (scan 253 t.stack (usable_words t) (scan_step t) 0 0 ≡ some c)
scan_rounds t w =
    scan_rounds_lem 252 t.stack (usable_words t) (scan_step t) 0 0 (omega arith) (step_pos t)
      (ground arith)

-- On an untouched stack of 131 to 255 words the loop is not done after 128 rounds.
pub scan_beyond_samples :
    (t : Thread)
    → IsThread t
    → 131 ≤ t.stack_size
    → t.stack_size < 256
    → ((i : ℕ) → i < usable_words t → word_at t.stack i ≡ mod_stack_pattern)
    → scan 128 t.stack (usable_words t) (scan_step t) 0 0 ≡ none
scan_beyond_samples t w low high fresh =
    ap (λ s. scan 128 t.stack (usable_words t) s 0 0) one
    ∙ scan_long 128 t.stack (usable_words t) 0 0 (omega arith) fresh (omega arith)
  where
    one : scan_step t ≡ 1
    one = ground arith
