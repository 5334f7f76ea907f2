-- ===== src/Hal/I2c.antt =====
-- srcs/hal/mcu/atmega2560/at2560_i2c.c: the bus driver, over the two-wire interface of the device.
pub mod LifeCycle
pub mod Release
pub mod Wire
mod Tests
use task_mate.Common.{
  ℕ, zero, suc, ◌+◌, ◌-◌, ◌*◌, bit_or, Bool, true, not, ◌&&◌, ◌||◌, Option, none, some, ltb, ◌==◌,
  if◌then◌else◌, u8,
}
use task_mate.Hal.Driver.{Driver, Life, when_running, control, require_running, set_error}
use task_mate.Interfaces.{
  Control, DriverState, ErrCode, ControlData, drv_bit_start, i2c_read_failed, i2c_scan_complete,
  i2c_start_failed, i2c_write_failed, is_dead, is_error, is_running, drv_bit_dead, i2c_address_nack,
  no_error, running, drv_bit_init, invalid_value, not_initialized, null_pointer,
}
use task_mate.Common.Bits.{clear_bit, get_bit, set_bit}
use task_mate.Hal.DrvI2c.{I2c}
use task_mate.Hal.Driver.Standalone.{own_status}

-- `DRV_I2C_ADDRESS_MAX` of hal_drivers.h, and `AT2560I2C_ADDR_MAX`
abbrev pub drv_i2c_address_max : ℕ
drv_i2c_address_max = 0x7e

abbrev at2560i2c_addr_max : ℕ
at2560i2c_addr_max = 0x7f

-- `hal_i2c_direction_t` and `hal_i2c_ack_t` of drv_i2c.h, one byte each
abbrev pub hal_i2c_write : ℕ
hal_i2c_write = 0

abbrev pub hal_i2c_read : ℕ
hal_i2c_read = 1

abbrev pub hal_i2c_nack : ℕ
hal_i2c_nack = 0

abbrev pub hal_i2c_ack : ℕ
hal_i2c_ack = 1

-- The device's two-wire interface, of which `H` is the state: what `hal_i2cInit`, `hal_i2cStart` and
-- `hal_i2cStop` write to its registers, and the four actions that `TWCR` begins, each with the
-- wait for `TWINT`. An action leaves `TW_STATUS`, and a read also the byte in `TWDR`. The codes of
-- `TW_STATUS` are those of util/twi.h.
pub record Twi (H : Type 0) : Type 0 where
  pub set_baud : H → H
  pub enable : H → H
  pub disable : H → H
  pub start : H → H × ℕ
  pub write : ℕ → H → H × ℕ
  pub read : Bool → H → H × ℕ × ℕ
  pub stop : H → H
  pub tw_start : ℕ
  pub tw_rep_start : ℕ
  pub tw_mt_sla_ack : ℕ
  pub tw_mt_data_ack : ℕ
  pub tw_mr_sla_ack : ℕ
  pub tw_mr_data_ack : ℕ
  pub tw_mr_data_nack : ℕ

-- The driver's variables and the device
pub record Bus (H : Type 0) : Type 0 where
  pub life : Life
  pub scan_address : ℕ
  pub twi : H

module _ {H : Type 0} (twi : Twi H) where
  abbrev with_error : ErrCode → Bus H → Bus H
  with_error e s = record s { life = record s.life { last_error = e } }

  -- `hal_i2cGetStatus`
  unfoldable pub i2c_get_status : Bus H → Bus H × DriverState
  i2c_get_status s = let (l, state) = own_status s.life in (record s { life = l }, state)

  -- `hal_i2cInit`
  unfoldable pub i2c_init : Bus H → Bus H × DriverState
  unfolding i2c_get_status
  i2c_init s =
      let (s', state) = i2c_get_status s in
      if is_dead state then (with_error ErrCode.dead s', DriverState.error) else (
        record s' {
          life = record s'.life {
            status = set_bit s'.life.status drv_bit_init;
            last_error = no_error;
          };
          twi = twi.set_baud s'.twi;
        },
        DriverState.initialized,
      )

  -- `hal_i2cStart`
  unfoldable pub i2c_start : Bus H → Bus H × DriverState
  i2c_start s =
      if get_bit s.life.status drv_bit_dead
      then (with_error ErrCode.dead s, DriverState.error)
      else if not (get_bit s.life.status drv_bit_init)
      then (with_error not_initialized s, DriverState.error)
      else (
        record s {
          life = record s.life {
            status = set_bit s.life.status drv_bit_start;
            last_error = no_error;
          };
          twi = twi.enable s.twi;
        },
        running,
      )

  -- The statements of `hal_i2cStop` before the status
  abbrev pub stopped : Bus H → Bus H
  stopped s = record s {
    life = record s.life { status = clear_bit s.life.status drv_bit_start };
    twi = twi.disable s.twi;
  }

  -- `hal_i2cStop`
  unfoldable pub i2c_stop : Bus H → Bus H × DriverState
  i2c_stop s = i2c_get_status (stopped s)

  unfoldable pub i2c_driver : Driver (Bus H)
  i2c_driver = record {
    life = λ s. s.life;
    with_life = λ l s. record s { life = l };
    on_init = i2c_init;
    on_start = i2c_start;
    on_stop = i2c_stop;
    get_status = i2c_get_status;
  }

  -- `hal_i2cControl`
  unfoldable pub i2c_control :
      Control → Option ControlData → Bus H → Bus H × DriverState × Option ControlData
  i2c_control command dat s = control i2c_driver command dat s

  -- A start condition that the device did not send
  abbrev pub start_failed : ℕ → Bool
  start_failed status = not (status == twi.tw_start) && not (status == twi.tw_rep_start)

  -- What an operation does when it fails on the bus: it stops the transfer and keeps the error.
  abbrev pub released : ErrCode → H → Bus H → Bus H × DriverState
  released e h s = (with_error e (record s { twi = twi.stop h }), DriverState.error)

  abbrev pub without_value : {A : Type 0} → A → Bus H × DriverState → Bus H × DriverState × A
  without_value a (s, state) = (s, state, a)

  -- The loop of `hal_i2cScan` and what stands behind it, with the rounds that are left until
  -- `i2c_scan_address` is beyond `DRV_I2C_ADDRESS_MAX`; the address that is reported, if any
  unfoldable pub probe_loop : ℕ → Bus H → Bus H × DriverState × ℕ
  probe_loop zero s =
      (with_error i2c_scan_complete (record s { scan_address = 0 }), DriverState.error, 0)
  probe_loop (suc rounds) s =
      let (h1, started) = twi.start s.twi in
      let (h2, status) = twi.write (u8 (s.scan_address * 2)) h1 in
      let next = record s { scan_address = u8 (s.scan_address + 1); twi = twi.stop h2 } in
      let rest = probe_loop rounds next in
      if start_failed started
      then without_value 0 (released i2c_start_failed h1 s)
      else if status == twi.tw_mt_sla_ack
      then (with_error no_error next, running, s.scan_address)
      else rest

  -- `hal_i2cScan`; `room` is false where `address` is NULL.
  unfoldable pub i2c_scan : Bool → Bus H → Bus H × DriverState × ℕ
  i2c_scan room s =
      when_running (require_running i2c_driver s)
        (λ s'.
          if not room
          then without_value 0 (set_error i2c_driver null_pointer s')
          else probe_loop (drv_i2c_address_max + 1 - s'.scan_address) s')
        (λ s' state. (s', state, 0))

  -- `hal_i2cCommStart` behind its guards
  unfoldable pub address_device : ℕ → ℕ → Bus H → Bus H × DriverState
  address_device address direction s =
      let (h1, started) = twi.start s.twi in
      let (h2, status) = twi.write (u8 (bit_or (address * 2) direction)) h1 in
      let expected = if direction == hal_i2c_read then twi.tw_mr_sla_ack else twi.tw_mt_sla_ack in
      if start_failed started
      then released i2c_start_failed h1 s
      else if not (status == expected)
      then released i2c_address_nack h2 s
      else (record s { twi = h2 }, running)

  -- `hal_i2cCommStart`
  unfoldable pub i2c_comm_start : ℕ → ℕ → Bus H → Bus H × DriverState
  i2c_comm_start address direction s =
      when_running (require_running i2c_driver s)
        (λ s'.
          if ltb at2560i2c_addr_max address
            || not (direction == hal_i2c_write) && not (direction == hal_i2c_read)
          then set_error i2c_driver invalid_value s'
          else address_device address direction s')
        (λ s' state. (s', state))

  -- `hal_i2cCommStop`
  unfoldable pub i2c_comm_stop : Bus H → Bus H × DriverState
  i2c_comm_stop s =
      when_running (require_running i2c_driver s)
        (λ s'. (record s' { twi = twi.stop s'.twi }, running)) (λ s' state. (s', state))

  -- `hal_i2cWrite` behind its guard
  unfoldable pub send_byte : ℕ → Bus H → Bus H × DriverState
  send_byte dat s =
      let (h, status) = twi.write dat s.twi in
      if not (status == twi.tw_mt_data_ack)
      then released i2c_write_failed h s
      else (record s { twi = h }, running)

  -- `hal_i2cWrite`
  unfoldable pub i2c_write : ℕ → Bus H → Bus H × DriverState
  i2c_write dat s =
      when_running (require_running i2c_driver s) (send_byte dat) (λ s' state. (s', state))

  -- `hal_i2cRead` behind its guards
  unfoldable pub receive_byte : ℕ → Bus H → Bus H × DriverState × Option ℕ
  receive_byte ack s =
      let (h, status, dat) = twi.read (not (ack == 0)) s.twi in
      let expected = if ack == hal_i2c_ack then twi.tw_mr_data_ack else twi.tw_mr_data_nack in
      if not (status == expected)
      then without_value none (released i2c_read_failed h s)
      else (record s { twi = h }, running, some dat)

  -- `hal_i2cRead`; `room` is false where `data` is NULL. The byte is the one stored there.
  unfoldable pub i2c_read : Bool → ℕ → Bus H → Bus H × DriverState × Option ℕ
  i2c_read room ack s =
      when_running (require_running i2c_driver s)
        (λ s'.
          if not room
          then without_value none (set_error i2c_driver null_pointer s')
          else if not (ack == hal_i2c_nack) && not (ack == hal_i2c_ack)
          then without_value none (set_error i2c_driver invalid_value s')
          else receive_byte ack s')
        (λ s' state. (s', state, none))

  -- The driver as the clock and the display see it. A dead bus answers neither error nor byte: a
  -- client's variable keeps what it had, for which a 0 stands.
  abbrev accepted : Bus H × DriverState → Bus H × Bool
  accepted (s, state) = (s, not (is_error state))

  abbrev byte_of : Bus H × DriverState × Option ℕ → Bus H × Option ℕ
  byte_of (s, DriverState.error, dat) = (s, none)
  byte_of (s, state, none) = (s, some 0)
  byte_of (s, state, some v) = (s, some v)

  unfoldable pub i2c_bus : I2c (Bus H)
  i2c_bus = record {
    is_running = λ s. is_running (i2c_get_status s).1;
    comm_start = λ address reads s.
        accepted (i2c_comm_start address (if reads then hal_i2c_read else hal_i2c_write) s);
    write = λ dat s. accepted (i2c_write dat s);
    read = λ acks s. byte_of (i2c_read true (if acks then hal_i2c_ack else hal_i2c_nack) s);
    comm_stop = λ s. accepted (i2c_comm_stop s);
  }
