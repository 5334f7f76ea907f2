-- ===== src/Hal/Timer/Tests.antt =====
-- The timers from the state behind a reset, with the bit numbers of Timer1.
use task_mate.Common.{ℕ, ◌≡◌, refl, true, false, none, arith}
use task_mate.Hal.Timer.{Quiet, Stands, Counts, IsBits, Timer, TimerBits}
use task_mate.Hal.Timer.Context.{Context, context_init, context_start, context_stop}
use task_mate.Common.Bits.{get_bit}
use task_mate.Hal.Timer.Monotonic.{Monotonic, count_top, monotonic_read, monotonic_interrupt}
use task_mate.Interfaces.{no_error, DriverState, running}
use task_mate.Hal.Timer.LifeCycle.{AreSound, context_life_cycle}
use task_mate.Hal.Timer.Elapsed.{tick_interrupts}

abbrev timer1 : TimerBits
timer1 = record { wgm = 3; ocie = 1; cs0 = 0; cs1 = 1; cs2 = 2 }

timer1-IsBits : IsBits timer1
timer1-IsBits = record {
  wgm_lt = omega arith;
  ocie_lt = omega arith;
  cs0_lt = omega arith;
  cs1_lt = omega arith;
  cs2_lt = omega arith;
  wgm_cs0 = refl;
  wgm_cs1 = refl;
  wgm_cs2 = refl;
  cs1_cs0 = refl;
  cs1_cs2 = refl;
  cs0_cs2 = refl;
}

abbrev reset : Timer
reset = record {
  life = record { status = 0; run_level = 0; last_error = no_error };
  regs = record { tccr_a = 0; tccr_b = 0; tcnt = 0; ocr = 0; timsk = 0; compared = true };
}

abbrev idle : Context ℕ
idle = record { sched_callback = none; timer = reset }

idle-AreSound : AreSound false false idle
unfolding get_bit
idle-AreSound = ((omega arith, refl, refl, refl, refl), omega arith, omega arith)

context_life_cycle_example :
    let (s1, state1) = context_init timer1 idle in
    let (s2, state2) = context_start timer1 s1 in
    let (s3, state3) = context_stop timer1 s2 in
    ((state1 ≡ DriverState.initialized) × Quiet timer1 s1.timer.regs × Stands timer1 s1.timer.regs)
    × ((state2 ≡ running) × Counts timer1 s2.timer.regs × (s2.timer.regs.tcnt ≡ 0))
    × ((state3 ≡ DriverState.initialized)
        × Quiet timer1 s3.timer.regs
        × Stands timer1 s3.timer.regs
        × (s3.timer.regs.tcnt ≡ 0))
context_life_cycle_example = context_life_cycle timer1 timer1-IsBits idle idle-AreSound

abbrev late : Monotonic
late = record { ticks = 4294967294; timer = reset }

-- The count has wrapped around.
wrapped : monotonic_read (tick_interrupts 5 late) ≡ 3
unfolding tick_interrupts monotonic_interrupt monotonic_read
wrapped = refl

-- At 16 MHz the timer counts to 199.
top_at_16_mhz : count_top 16000000 ≡ 199
unfolding count_top
top_at_16_mhz = refl
