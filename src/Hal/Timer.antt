-- ===== src/Hal/Timer.antt =====
-- The timers of srcs/hal/mcu/atmega2560: what their drivers share, the registers of a 16-bit timer.
pub mod Monotonic
pub mod Context
pub mod Elapsed
pub mod LifeCycle
mod Tests
use task_mate.Common.{ℕ, ◌==◌, ◌<◌, ◌≡◌, Bool, true, false}
use task_mate.Hal.Driver.{Life}
use task_mate.Interfaces.{ErrCode}
use task_mate.Common.Bits.{get_bit}

-- The bit numbers that the drivers use, from the device's headers: WGMn2, OCIEnA, and CSn0 to CSn2
pub record TimerBits : Type 0 where
  pub wgm : ℕ
  pub ocie : ℕ
  pub cs0 : ℕ
  pub cs1 : ℕ
  pub cs2 : ℕ

-- TCCRnA, TCCRnB, TCNTn, OCRnA and TIMSKn, and the flag OCFnA of TIFRn, which a write of a one
-- clears
pub record Registers : Type 0 where
  pub tccr_a : ℕ
  pub tccr_b : ℕ
  pub tcnt : ℕ
  pub ocr : ℕ
  pub timsk : ℕ
  pub compared : Bool

-- A driver's variables and its timer
pub record Timer : Type 0 where
  pub life : Life
  pub regs : Registers

abbrev pub with_error : ErrCode → Timer → Timer
with_error e s = record s { life = record s.life { last_error = e } }

-- The bit numbers fit into a register, and those of TCCRnB differ from each other.
pub record IsBits (bits : TimerBits) : Type 0 where
  pub wgm_lt : bits.wgm < 8
  pub ocie_lt : bits.ocie < 8
  pub cs0_lt : bits.cs0 < 8
  pub cs1_lt : bits.cs1 < 8
  pub cs2_lt : bits.cs2 < 8
  pub wgm_cs0 : (bits.wgm == bits.cs0) ≡ false
  pub wgm_cs1 : (bits.wgm == bits.cs1) ≡ false
  pub wgm_cs2 : (bits.wgm == bits.cs2) ≡ false
  pub cs1_cs0 : (bits.cs1 == bits.cs0) ≡ false
  pub cs1_cs2 : (bits.cs1 == bits.cs2) ≡ false
  pub cs0_cs2 : (bits.cs0 == bits.cs2) ≡ false

-- The bits that select the clock, CSn2 to CSn0
abbrev pub Clock : TimerBits → Registers → Bool → Bool → Bool → Type 0
Clock bits r two one zero =
    (get_bit r.tccr_b bits.cs2 ≡ two)
    × (get_bit r.tccr_b bits.cs1 ≡ one)
    × (get_bit r.tccr_b bits.cs0 ≡ zero)

-- No clock is selected: the timer stands still.
abbrev pub Stands : TimerBits → Registers → Type 0
Stands bits r = Clock bits r false false false

-- The timer counts at the clock divided by 8, and its interrupt is on.
abbrev pub Counts : TimerBits → Registers → Type 0
Counts bits r = Clock bits r false true false × (get_bit r.timsk bits.ocie ≡ true)

-- The interrupt is off, and no compare is left that it would serve.
abbrev pub Quiet : TimerBits → Registers → Type 0
Quiet bits r = (get_bit r.timsk bits.ocie ≡ false) × (r.compared ≡ false)
