-- ===== src/Hal/Timer/Elapsed.antt =====
-- The tick count over a run of interrupts, and what starts and stops the interrupts.
use task_mate.Common.{ℕ, zero, suc, ◌+◌, ◌-◌, ◌<◌, ◌≡◌, ap, ◌∙◌, arith, u32}
use task_mate.Hal.Timer.Monotonic.{Monotonic, monotonic_interrupt, monotonic_read}

-- `n` interrupts of the timer
unfoldable pub tick_interrupts : ℕ → Monotonic → Monotonic
tick_interrupts zero s = s
tick_interrupts (suc n) s = tick_interrupts n (monotonic_interrupt s)

ticks_counted :
    (n : ℕ) (s : Monotonic)
    → s.ticks < 4294967296
    → monotonic_read (tick_interrupts n s) ≡ u32 (s.ticks + n)
unfolding tick_interrupts monotonic_interrupt monotonic_read
ticks_counted zero s l = omega arith
ticks_counted (suc n) s l = ticks_counted n (monotonic_interrupt s) (omega arith) ∙ omega arith

-- The difference of two readings of the tick count, taken on 32 bits, is the number of interrupts
-- between them if they are fewer than 2 ^ 32, also where the count wraps around.
pub monotonic_read-tick_interrupts :
    (n : ℕ) (s : Monotonic)
    → s.ticks < 4294967296
    → n < 4294967296
    → u32 (monotonic_read (tick_interrupts n s) + 4294967296 - monotonic_read s) ≡ n
unfolding monotonic_read
monotonic_read-tick_interrupts n s l few =
    ap (λ t. u32 (t + 4294967296 - s.ticks)) (ticks_counted n s l) ∙ wrapped
  where
    wrapped : u32 (u32 (s.ticks + n) + 4294967296 - s.ticks) ≡ n
    wrapped = omega arith
