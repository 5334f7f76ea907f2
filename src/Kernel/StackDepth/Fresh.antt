-- ===== src/Kernel/StackDepth/Fresh.antt =====
-- `mod_threadStackInit`: the canaries at both ends, the pattern between, and so a depth of 0.
use task_mate.Common.{
  ℕ, zero, suc, ◌+◌, ◌-◌, ◌≤◌, ◌<◌, ◌≡◌, refl, ap, ◌∙◌, true, some, List, arith, ℕ_discrete, length,
  get_or, set, length-set, get_or-set_self, get_or-set_ne,
}
use task_mate.Kernel.Threads.{
  Thread, Db, put, mod_stack_pattern, mod_canary, stack_init, fill_stack, mod_thread_count,
}
use task_mate.Kernel.Threads.Valid.{IsThread, IsValid, put-IsValid}
use task_mate.Kernel.Threads.Frame.{get_pointer-put_self}
use task_mate.Kernel.StackDepth.{word_at, usable_words, stack_depth_get}
use task_mate.Kernel.StackDepth.Scan.{IsBoundary}
use task_mate.Kernel.StackDepth.Depth.{stack_depth_get_close}

length-fill_stack : (n i : ℕ) (xs : List ℕ) → length (fill_stack n i xs) ≡ length xs
unfolding fill_stack
length-fill_stack zero i xs = refl
length-fill_stack (suc n) i xs =
    length-fill_stack n (i + 1) (set xs i mod_stack_pattern) ∙ length-set xs i mod_stack_pattern

fill_stack_below :
    (n i j : ℕ) (xs : List ℕ) → j < i → get_or (fill_stack n i xs) j 0 ≡ get_or xs j 0
unfolding fill_stack
fill_stack_below zero i j xs h = refl
fill_stack_below (suc n) i j xs h =
    fill_stack_below n (i + 1) j (set xs i mod_stack_pattern) (omega arith)
    ∙ get_or-set_ne xs mod_stack_pattern 0 (omega arith)

fill_stack_lem :
    (n i j : ℕ) (xs : List ℕ)
    → i ≤ j
    → j < i + n
    → j < length xs
    → get_or (fill_stack n i xs) j 0 ≡ mod_stack_pattern
unfolding fill_stack
fill_stack_lem zero i j xs h k l = absurd (omega arith)
fill_stack_lem (suc n) i j xs h k l = elim (ℕ_discrete i j) [
  | yes e ↦
      fill_stack_below n (i + 1) j (set xs i mod_stack_pattern) (omega arith)
      ∙ rw e (get_or-set_self xs j mod_stack_pattern 0 l)
  | no ne ↦
      fill_stack_lem n (i + 1) j (set xs i mod_stack_pattern) (omega arith) (omega arith)
        (omega (arith, length-set xs i mod_stack_pattern))
]

-- `mod_threadStackInit` keeps a well-formed thread well formed, puts a canary at both ends of its
-- stack and the fill pattern on every word between.
pub stack_init_lem :
    (t : Thread)
    → IsThread t
    → IsThread (stack_init t)
      × (get_or (stack_init t).stack 0 0 ≡ mod_canary)
      × (get_or (stack_init t).stack (t.stack_size - 1) 0 ≡ mod_canary)
      × ((i : ℕ) → i < usable_words t → word_at (stack_init t).stack i ≡ mod_stack_pattern)
unfolding stack_init
stack_init_lem t w = (keeps, low_end, high_end, inner)
  where
    filled : List ℕ
    filled = fill_stack t.stack_size 0 t.stack

    low : List ℕ
    low = set filled 0 mod_canary

    len_low : length low ≡ t.stack_size
    len_low =
        length-set filled 0 mod_canary ∙ length-fill_stack t.stack_size 0 t.stack ∙ w.stack_length

    len : length (set low (t.stack_size - 1) mod_canary) ≡ t.stack_size
    len = length-set low (t.stack_size - 1) mod_canary ∙ len_low

    keeps : IsThread (stack_init t)
    keeps = record {
      status_fits = w.status_fits;
      run_level_fits = w.run_level_fits;
      saved_fits = w.saved_fits;
      stc_fits = w.stc_fits;
      room = w.room;
      size_fits = w.size_fits;
      stack_length = len;
    }

    low_end : get_or (set low (t.stack_size - 1) mod_canary) 0 0 ≡ mod_canary
    low_end =
        get_or-set_ne low mod_canary 0 (omega (arith, w.room))
        ∙ get_or-set_self filled 0 mod_canary 0
            (omega (arith, w.room, len_low, length-set filled 0 mod_canary))

    high_end : get_or (set low (t.stack_size - 1) mod_canary) (t.stack_size - 1) 0 ≡ mod_canary
    high_end = get_or-set_self low (t.stack_size - 1) mod_canary 0 (omega (arith, w.room, len_low))

    inner :
        (i : ℕ)
        → i < usable_words t
        → word_at (set low (t.stack_size - 1) mod_canary) i ≡ mod_stack_pattern
    inner i h =
        get_or-set_ne low mod_canary 0 (omega (arith, w.room, w.size_fits))
        ∙ get_or-set_ne filled mod_canary 0 (omega arith)
        ∙ fill_stack_lem t.stack_size 0 (i + 1) t.stack (omega arith)
            (omega (arith, w.room, w.size_fits))
            (omega (arith, w.room, w.size_fits, w.stack_length))

untouched :
    (t : Thread)
    → ((i : ℕ) → i < usable_words t → word_at (stack_init t).stack i ≡ mod_stack_pattern)
    → IsBoundary (stack_init t).stack (usable_words (stack_init t)) (usable_words (stack_init t))
unfolding stack_init
untouched t inner = record {
  within = omega arith;
  fresh = inner;
  used = λ i p q. absurd (omega arith);
}

-- A thread whose stack was just initialized reports a depth of 0 bytes.
pub stack_depth_get-stack_init :
    (db : Db) (id : ℕ) (t : Thread)
    → IsValid db
    → IsThread t
    → id < mod_thread_count db
    → stack_depth_get (put db id (stack_init t)) id true ≡ some 0
stack_depth_get-stack_init db id t v w h =
    let (keeps, low, high, inner) = stack_init_lem t w in
    let (depth, e, lo, hi, fresh) =
      stack_depth_get_close (put db id (stack_init t)) id (usable_words (stack_init t))
        (put-IsValid db id v keeps) (get_pointer-put_self db id (stack_init t) h)
        (untouched t inner) in
    e ∙ ap some (fresh refl)
