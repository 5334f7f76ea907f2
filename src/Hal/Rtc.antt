-- ===== src/Hal/Rtc.antt =====
-- srcs/hal/drivers/rtc/rtc_ZS042.c: the clock driver, over a bus of the drv_i2c.h contract.
pub mod Bcd
pub mod Dead
pub mod Wire
pub mod Chip
pub mod Kept
pub mod Bench
mod Tests
use task_mate.Common.{
  ℕ, zero, suc, ◌+◌, ◌*◌, ◌/◌, ◌%◌, bit_and, bit_or, Bool, true, false, not, ◌||◌, Option, none,
  some, List, [], ◌∷◌, ◌++◌, map, ltb, if◌then◌else◌, u8, get_or,
}
use task_mate.Common.Bits.{bit_mask, get_bit, set_bit, clear_bit}
use task_mate.Interfaces.{
  Control, ControlData, DriverState, ErrCode, drv_bit_dead, drv_bit_start, null_pointer, running,
  dependency, drv_bit_error, drv_bit_init, rtc_time_out_of_range, invalid_state, no_error,
  not_initialized, off,
}
use mathlib.Core.Option
use task_mate.Hal.DrvI2c.{I2c}
use task_mate.Hal.Driver.{Life, Driver, set_error, require_running, control, when_running}

-- `hal_rtc_time_t`
pub record Time : Type 0 where
  pub seconds : ℕ
  pub minutes : ℕ
  pub hours : ℕ
  pub weekday : ℕ
  pub day : ℕ
  pub month : ℕ
  pub year : ℕ

-- The driver's variables and the bus. `buf`, which each transfer fills first, is a local there.
pub record Rtc (B : Type 0) : Type 0 where
  pub life : Life
  pub bus : B

-- `bcdToBin`
unfoldable pub bcd_to_bin : ℕ → ℕ
bcd_to_bin bcd = u8 (u8 (bcd / 16 * 10) + bit_and bcd 0x0f)

-- `binToBcd`
unfoldable pub bin_to_bcd : ℕ → ℕ
bin_to_bcd val = u8 (bit_or (u8 (val / 10 * 16)) (val % 10))

-- The statements of `hal_rtcWrite` that fill `buf`
unfoldable pub encode : Time → List ℕ
encode t =
    bin_to_bcd (bit_and t.seconds 0x7f)
    ∷ bin_to_bcd t.minutes
    ∷ bit_and (bin_to_bcd t.hours) 0x3f
    ∷ bin_to_bcd t.weekday
    ∷ bin_to_bcd t.day
    ∷ bin_to_bcd (bit_and t.month 0x1f)
    ∷ bin_to_bcd t.year
    ∷ []

-- The statements of `hal_rtcRead` that fill `time`
unfoldable pub decode : List ℕ → Time
decode buf = record {
  seconds = bcd_to_bin (bit_and (get_or buf 0 0) 0x7f);
  minutes = bcd_to_bin (get_or buf 1 0);
  hours = bcd_to_bin (bit_and (get_or buf 2 0) 0x3f);
  weekday = bcd_to_bin (get_or buf 3 0);
  day = bcd_to_bin (get_or buf 4 0);
  month = bcd_to_bin (bit_and (get_or buf 5 0) 0x1f);
  year = bcd_to_bin (get_or buf 6 0);
}

-- The test of `hal_rtcWrite` on the calendar fields
unfoldable pub out_of_range : Time → Bool
out_of_range t =
    ltb 59 t.seconds
    || ltb 59 t.minutes
    || ltb 23 t.hours
    || ltb t.weekday 1
    || ltb 7 t.weekday
    || ltb t.day 1
    || ltb 31 t.day
    || ltb t.month 1
    || ltb 12 t.month
    || ltb 99 t.year

module _ {B : Type 0} (i2c : I2c B) where
  abbrev status_bit : ℕ → Rtc B → Bool
  status_bit bit s = get_bit s.life.status bit

  abbrev with_error : ErrCode → Rtc B → Rtc B
  with_error e s = record s { life = record s.life { last_error = e } }

  -- `hal_rtcGetStatus`
  unfoldable pub rtc_get_status : Rtc B → Rtc B × DriverState
  rtc_get_status s =
      if status_bit drv_bit_dead s
      then (with_error ErrCode.dead s, DriverState.dead)
      else if status_bit drv_bit_error s
      then (with_error invalid_state s, DriverState.error)
      else if not (i2c.is_running s.bus)
      then (with_error dependency s, DriverState.error)
      else if not (status_bit drv_bit_init s)
      then (if not (status_bit drv_bit_start s)
          then (s, off)
          else (with_error invalid_state s, DriverState.error))
      else if not (status_bit drv_bit_start s)
      then (s, DriverState.initialized)
      else (s, running)

  -- `hal_rtcInit`
  unfoldable pub rtc_init : Rtc B → Rtc B × DriverState
  rtc_init s =
      if status_bit drv_bit_dead s
      then (with_error ErrCode.dead s, DriverState.error)
      else if not (i2c.is_running s.bus)
      then (with_error dependency s, DriverState.error)
      else (
        record s {
          life = record s.life {
            status = set_bit s.life.status drv_bit_init;
            last_error = no_error;
          };
        },
        DriverState.initialized,
      )

  -- `hal_rtcStart`
  unfoldable pub rtc_start : Rtc B → Rtc B × DriverState
  rtc_start s =
      if status_bit drv_bit_dead s
      then (with_error ErrCode.dead s, DriverState.error)
      else if not (status_bit drv_bit_init s)
      then (with_error not_initialized s, DriverState.error)
      else (
        record s { life = record s.life { status = set_bit s.life.status drv_bit_start } },
        running,
      )

  -- `hal_rtcStop`
  unfoldable pub rtc_stop : Rtc B → Rtc B × DriverState
  rtc_stop s =
      rtc_get_status
        (record s { life = record s.life { status = clear_bit s.life.status drv_bit_start } })

  unfoldable pub rtc_driver : Driver (Rtc B)
  rtc_driver = record {
    life = λ s. s.life;
    with_life = λ l s. record s { life = l };
    on_init = rtc_init;
    on_start = rtc_start;
    on_stop = rtc_stop;
    get_status = rtc_get_status;
  }

  -- `hal_rtcControl`
  unfoldable pub rtc_control :
      Control → Option ControlData → Rtc B → Rtc B × DriverState × Option ControlData
  rtc_control command dat s = control rtc_driver command dat s

  -- The rest of a transfer, unless the step before it failed.
  abbrev on_success : {A : Type 0} → (B → B × Option A) → B × Bool → B × Option A
  on_success k (b, true) = k b
  on_success k (b, false) = (b, none)

  abbrev on_byte : {A : Type 0} → (ℕ → B → B × Option A) → B × Option ℕ → B × Option A
  on_byte k (b, some v) = k v b
  on_byte k (b, none) = (b, none)

  -- The loop of `hal_rtcWrite` over `buf`, and the stop behind it
  unfoldable pub write_bytes : List ℕ → B → B × Option {0} Unit
  write_bytes [] b = on_success (λ b'. (b', some tt)) (i2c.comm_stop b)
  write_bytes (v ∷ vs) b = on_success (write_bytes vs) (i2c.write v b)

  -- The transfers of `hal_rtcWrite`
  unfoldable pub write_registers : List ℕ → B → B × Option {0} Unit
  write_registers buf b =
      on_success (λ b1. on_success (write_bytes buf) (i2c.write 0 b1)) (i2c.comm_start 0x68 false b)

  -- The loop of `hal_rtcRead`, the last read, without acknowledge, and the stop behind it; `buf`
  -- is what was read so far.
  unfoldable pub read_bytes : ℕ → List ℕ → B → B × Option (List ℕ)
  read_bytes zero buf b =
      on_byte (λ v b1. on_success (λ b2. (b2, some (buf ++ v ∷ []))) (i2c.comm_stop b1))
        (i2c.read false b)
  read_bytes (suc n) buf b = on_byte (λ v. read_bytes n (buf ++ v ∷ [])) (i2c.read true b)

  -- The transfers of `hal_rtcRead`
  unfoldable pub read_registers : B → B × Option (List ℕ)
  read_registers b =
      on_success
        (λ b1.
          on_success (λ b2. on_success (read_bytes 6 []) (i2c.comm_start 0x68 true b2))
            (i2c.write 0 b1))
        (i2c.comm_start 0x68 false b)

  -- The end of `hal_rtcRead` and of `hal_rtcWrite` behind the transfers
  abbrev transferred : {A : Type 0} → Rtc B → B × Option A → Rtc B × DriverState × Option A
  transferred s (b, some a) = (record s { bus = b }, running, some a)
  transferred s (b, none) = (with_error dependency (record s { bus = b }), DriverState.error, none)

  -- `hal_rtcRead`; `room` is false where `time` is NULL. The time is the one stored there.
  unfoldable pub rtc_read : Bool → Rtc B → Rtc B × DriverState × Option Time
  rtc_read room s =
      when_running (require_running rtc_driver s)
        (λ s'.
          if not room
          then (with_error null_pointer s', DriverState.error, none)
          else (let (t, state, buf) = transferred s' (read_registers s'.bus) in
              (t, state, Option.map decode buf)))
        (λ s' state. (s', state, none))

  -- `hal_rtcWrite`; `none` is NULL.
  unfoldable pub rtc_write : Option Time → Rtc B → Rtc B × DriverState
  rtc_write time s =
      when_running (require_running rtc_driver s)
        (λ s'. elim time [
          | none ↦ (with_error null_pointer s', DriverState.error)
          | some t ↦
              if out_of_range t
              then (with_error rtc_time_out_of_range s', DriverState.error)
              else (let (u, state, ok) = transferred s' (write_registers (encode t) s'.bus) in
                  (u, state))
        ])
        (λ s' state. (s', state))
