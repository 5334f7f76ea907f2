-- ===== src/Hal/Timer/LifeCycle.antt =====
-- The scheduling timer through its life cycle: when it interrupts.
use task_mate.Common.{ℕ, ◌<◌, ◌≡◌, refl, ◌∙◌, Bool, true, false, arith, ◌==◌}
use task_mate.Hal.Timer.{Stands, TimerBits, IsBits, Registers, Quiet, Counts}
use task_mate.Common.Bits.{
  get_bit, clear_bit, set_bit, clear_bit-lt, get_bit-clear_bit, get_bit-set_bit, bit_mask,
  set_bit-lt, bit_mask-lt, get_bit-bit_mask,
}
use task_mate.Hal.Timer.Context.{
  Context, clock_stop, context_init, context_start, context_stop, clock_start, context_get_status,
  context_stopped,
}
use task_mate.Interfaces.{DriverState, running}
use task_mate.Hal.Driver.Flags.{Bits, set_init, own_status_initialized, set_start, clear_start}

-- A one-byte register
abbrev IsByte : ℕ → Type 0
IsByte r = r < 256

module _ (bits : TimerBits) (fits : IsBits bits) where
  cleared : (reg b : ℕ) → IsByte reg → b < 8 → get_bit (clear_bit reg b) b ≡ false
  cleared reg b r b_lt = get_bit-clear_bit reg b b r b_lt b_lt ∙ ground arith

  raised : (reg b : ℕ) → IsByte reg → b < 8 → get_bit (set_bit reg b) b ≡ true
  raised reg b r b_lt = get_bit-set_bit reg b b r b_lt b_lt ∙ ground arith

  -- A bit that is clear stays clear when another is cleared or set.
  still_clear :
      (reg b c : ℕ)
      → IsByte reg
      → b < 8
      → c < 8
      → get_bit reg c ≡ false
      → get_bit (clear_bit reg b) c ≡ false
  still_clear reg b c r b_lt c_lt h = get_bit-clear_bit reg b c r b_lt c_lt ∙ ground arith

  unset :
      (reg b c : ℕ)
      → IsByte reg
      → b < 8
      → c < 8
      → (b == c) ≡ false
      → get_bit reg c ≡ false
      → get_bit (set_bit reg b) c ≡ false
  unset reg b c r b_lt c_lt ne h = get_bit-set_bit reg b c r b_lt c_lt ∙ ground arith

  -- The clock is off once its three bits are cleared.
  clock_stopped : (r : Registers) → IsByte r.tccr_b → Stands bits (clock_stop bits r)
  unfolding clock_stop
  clock_stopped r byte =
      let first = clear_bit r.tccr_b bits.cs2 in
      let second = clear_bit first bits.cs1 in
      let first_lt = clear_bit-lt r.tccr_b bits.cs2 byte fits.cs2_lt in
      let second_lt = clear_bit-lt first bits.cs1 first_lt fits.cs1_lt in
      (
        still_clear second bits.cs0 bits.cs2 second_lt fits.cs0_lt fits.cs2_lt (
            still_clear first bits.cs1 bits.cs2 first_lt fits.cs1_lt fits.cs2_lt
              (cleared r.tccr_b bits.cs2 byte fits.cs2_lt)),
        still_clear second bits.cs0 bits.cs1 second_lt fits.cs0_lt fits.cs1_lt
            (cleared first bits.cs1 first_lt fits.cs1_lt),
        cleared second bits.cs0 second_lt fits.cs0_lt,
      )

  -- The mode alone selects no clock.
  mode_only :
      (get_bit (bit_mask bits.wgm) bits.cs2 ≡ false)
      × (get_bit (bit_mask bits.wgm) bits.cs1 ≡ false)
      × (get_bit (bit_mask bits.wgm) bits.cs0 ≡ false)
  mode_only = (
    get_bit-bit_mask bits.wgm bits.cs2 fits.wgm_lt fits.cs2_lt ∙ fits.wgm_cs2,
    get_bit-bit_mask bits.wgm bits.cs1 fits.wgm_lt fits.cs1_lt ∙ fits.wgm_cs1,
    get_bit-bit_mask bits.wgm bits.cs0 fits.wgm_lt fits.cs0_lt ∙ fits.wgm_cs0,
  )

  stopped_count : (r : Registers) → (clock_stop bits r).tcnt ≡ 0
  unfolding clock_stop
  stopped_count r = refl

  wgm-IsByte : IsByte (bit_mask bits.wgm)
  wgm-IsByte = bit_mask-lt bits.wgm fits.wgm_lt

-- The flags of the driver, and registers that are bytes
abbrev pub AreSound : {F : Type 0} → Bool → Bool → Context F → Type 0
AreSound up on s =
    Bits s.timer.life.status up on × IsByte s.timer.regs.timsk × IsByte s.timer.regs.tccr_b

module _ {F : Type 0} (bits : TimerBits) (fits : IsBits bits) where
  init_up :
      (s : Context F) {up on : Bool}
      → AreSound up on s
      → AreSound true on (context_init bits s).0
        × ((context_init bits s).1 ≡ DriverState.initialized)
        × Quiet bits (context_init bits s).0.timer.regs
        × Stands bits (context_init bits s).0.timer.regs
  unfolding context_init
  init_up s (flags, timsk, tccr_b) = rw flags.1 (
    (
      set_init s.timer.life.status flags,
      clear_bit-lt s.timer.regs.timsk bits.ocie timsk fits.ocie_lt,
      wgm-IsByte bits fits,
    ),
    refl,
    (cleared bits fits s.timer.regs.timsk bits.ocie timsk fits.ocie_lt, refl),
    mode_only bits fits,
  )

  start_up :
      (s : Context F) {on : Bool}
      → AreSound true on s
      → Stands bits s.timer.regs
      → AreSound true true (context_start bits s).0
        × ((context_start bits s).1 ≡ running)
        × Counts bits (context_start bits s).0.timer.regs
        × ((context_start bits s).0.timer.regs.tcnt ≡ 0)
  unfolding context_start clock_start
  start_up s (flags, timsk, tccr_b) (two, one, none_) =
      rw (flags.1, flags.3)
        (
          (
            set_start s.timer.life.status flags,
            set_bit-lt s.timer.regs.timsk bits.ocie timsk fits.ocie_lt,
            set_bit-lt s.timer.regs.tccr_b bits.cs1 tccr_b fits.cs1_lt,
          ),
          refl,
          (
            (
              unset bits fits s.timer.regs.tccr_b bits.cs1 bits.cs2 tccr_b fits.cs1_lt fits.cs2_lt
                  fits.cs1_cs2 two,
              raised bits fits s.timer.regs.tccr_b bits.cs1 tccr_b fits.cs1_lt,
              unset bits fits s.timer.regs.tccr_b bits.cs1 bits.cs0 tccr_b fits.cs1_lt fits.cs0_lt
                  fits.cs1_cs0 none_,
            ),
            raised bits fits s.timer.regs.timsk bits.ocie timsk fits.ocie_lt,
          ),
          refl,
        )

  stop_up :
      (s : Context F) {on : Bool}
      → AreSound true on s
      → ((context_stop bits s).1 ≡ DriverState.initialized)
        × Quiet bits (context_stop bits s).0.timer.regs
        × Stands bits (context_stop bits s).0.timer.regs
        × ((context_stop bits s).0.timer.regs.tcnt ≡ 0)
  unfolding context_stop context_get_status
  stop_up s (flags, timsk, tccr_b) =
      rw
        (own_status_initialized (context_stopped bits s).timer.life
          (clear_start s.timer.life.status flags))
        (
          refl,
          (cleared bits fits s.timer.regs.timsk bits.ocie timsk fits.ocie_lt, refl),
          clock_stopped bits fits s.timer.regs tccr_b,
          stopped_count bits fits s.timer.regs,
        )

  -- The scheduling timer, neither dead nor in error and with registers of a byte, is initialized by
  -- INIT, which leaves its interrupt off, no compare to serve and no clock selected. START behind it
  -- answers that it runs, and it counts from zero at the clock divided by 8 with its interrupt on.
  -- STOP behind that answers that it is initialized, and no clock is selected, the count is zero,
  -- the interrupt is off and no compare is left to serve.
  pub context_life_cycle :
      (s : Context F) {up on : Bool}
      → AreSound up on s
      → let (s1, state1) = context_init bits s in
        let (s2, state2) = context_start bits s1 in
        let (s3, state3) = context_stop bits s2 in
        ((state1 ≡ DriverState.initialized) × Quiet bits s1.timer.regs × Stands bits s1.timer.regs)
        × ((state2 ≡ running) × Counts bits s2.timer.regs × (s2.timer.regs.tcnt ≡ 0))
        × ((state3 ≡ DriverState.initialized)
            × Quiet bits s3.timer.regs
            × Stands bits s3.timer.regs
            × (s3.timer.regs.tcnt ≡ 0))
  context_life_cycle s sound =
      let (sound1, state1, quiet, stands) = init_up s sound in
      let (sound2, state2, counts, zeroth) = start_up (context_init bits s).0 sound1 stands in
      (
        (state1, quiet, stands),
        (state2, counts, zeroth),
        stop_up (context_start bits (context_init bits s).0).0 sound2,
      )
