-- ===== src/Hal/Driver/Flags.antt =====
-- The status byte under the changes that the life cycle of a driver makes.
use task_mate.Common.{ℕ, ◌<◌, ◌≡◌, refl, ◌∙◌, Bool, true, false, arith}
use task_mate.Common.Bits.{
  clear_bit, get_bit, set_bit, clear_bit-lt, set_bit-lt, get_bit-clear_bit, get_bit-set_bit,
}
use task_mate.Hal.Driver.Standalone.{own_status}
use task_mate.Interfaces.{drv_bit_dead, drv_bit_init, drv_bit_start, DriverState, drv_bit_error}
use task_mate.Hal.Driver.{Life}

-- A status byte of a driver that is neither dead nor in error, with these bits of initialisation and
-- start
abbrev pub Bits : ℕ → Bool → Bool → Type 0
Bits status up on =
    (status < 256)
    × (get_bit status drv_bit_dead ≡ false)
    × (get_bit status drv_bit_error ≡ false)
    × (get_bit status drv_bit_init ≡ up)
    × (get_bit status drv_bit_start ≡ on)

pub set_init :
    (status : ℕ) {up on : Bool} → Bits status up on → Bits (set_bit status drv_bit_init) true on
set_init status (b, dead, err, up, on) = (
  set_bit-lt status 0 b (omega arith),
  get_bit-set_bit status 0 3 b (omega arith) (omega arith) ∙ dead,
  get_bit-set_bit status 0 2 b (omega arith) (omega arith) ∙ err,
  get_bit-set_bit status 0 0 b (omega arith) (omega arith),
  get_bit-set_bit status 0 1 b (omega arith) (omega arith) ∙ on,
)

pub set_start :
    (status : ℕ) {up on : Bool} → Bits status up on → Bits (set_bit status drv_bit_start) up true
set_start status (b, dead, err, up, on) = (
  set_bit-lt status 1 b (omega arith),
  get_bit-set_bit status 1 3 b (omega arith) (omega arith) ∙ dead,
  get_bit-set_bit status 1 2 b (omega arith) (omega arith) ∙ err,
  get_bit-set_bit status 1 0 b (omega arith) (omega arith) ∙ up,
  get_bit-set_bit status 1 1 b (omega arith) (omega arith),
)

pub clear_start :
    (status : ℕ) {up on : Bool} → Bits status up on → Bits (clear_bit status drv_bit_start) up false
clear_start status (b, dead, err, up, on) = (
  clear_bit-lt status 1 b (omega arith),
  get_bit-clear_bit status 1 3 b (omega arith) (omega arith) ∙ dead,
  get_bit-clear_bit status 1 2 b (omega arith) (omega arith) ∙ err,
  get_bit-clear_bit status 1 0 b (omega arith) (omega arith) ∙ up,
  get_bit-clear_bit status 1 1 b (omega arith) (omega arith),
)

-- The status of a driver that rests on no other, by its bits
pub own_status_initialized :
    (l : Life) → Bits l.status true false → own_status l ≡ (l, DriverState.initialized)
unfolding own_status
own_status_initialized l (b, alive, sound, ready, begun) = rw (alive, sound, ready, begun) refl
