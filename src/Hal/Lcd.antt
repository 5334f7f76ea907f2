-- ===== src/Hal/Lcd.antt =====
-- srcs/hal/drivers/lcd/lcd_AMC2004.c: the driver of the display, over a bus of the drv_i2c.h
-- contract. The delays leave every variable alone.
pub mod Wire
pub mod Cursor
pub mod Dead
pub mod Bench
mod Tests
use task_mate.Common.{
  ℕ, ◌+◌, bit_or, Bool, true, false, not, ◌||◌, Option, List, [], ◌∷◌, leb, if◌then◌else◌, u8,
  get_or,
}
use task_mate.Hal.Driver.{Life, Driver, control, when_running, require_running, set_error}
use task_mate.Hal.DrvI2c.{I2c}
use task_mate.Interfaces.{
  DriverState, ErrCode, Control, running, ControlData, dependency, drv_bit_dead, drv_bit_init,
  drv_bit_start, drv_bit_error, lcd_cursor_out_of_range, no_error, not_initialized, invalid_state,
  off,
}
use task_mate.Common.Bits.{clear_bit, get_bit, set_bit}

abbrev pub lcdamc2004_val_i2c_addr : ℕ
lcdamc2004_val_i2c_addr = 0x3c

abbrev pub lcdamc2004_val_cmd : ℕ
lcdamc2004_val_cmd = 0x80

abbrev pub lcdamc2004_val_data : ℕ
lcdamc2004_val_data = 0x40

abbrev pub lcdamc2004_val_raw : ℕ
lcdamc2004_val_raw = 4

abbrev pub lcdamc2004_val_col : ℕ
lcdamc2004_val_col = 20

abbrev lcdamc2004_cmd_setup : ℕ
lcdamc2004_cmd_setup = 0x38

abbrev lcdamc2004_cmd_displaymode : ℕ
lcdamc2004_cmd_displaymode = 0x0c

abbrev pub lcdamc2004_cmd_clear : ℕ
lcdamc2004_cmd_clear = 0x01

abbrev lcdamc2004_cmd_entrymode : ℕ
lcdamc2004_cmd_entrymode = 0x06

abbrev lcdamc2004_cmd_setcursor : ℕ
lcdamc2004_cmd_setcursor = 0x80

-- `row_offsets` of `hal_lcdSetCursor`
abbrev pub row_offsets : List ℕ
row_offsets = 0x00 ∷ 0x40 ∷ 0x14 ∷ 0x54 ∷ []

-- The driver's variables and the bus
pub record Lcd (B : Type 0) : Type 0 where
  pub life : Life
  pub bus : B

-- The command that `hal_lcdSetCursor` sends
unfoldable pub cursor_command : ℕ → ℕ → ℕ
cursor_command row col = u8 (bit_or lcdamc2004_cmd_setcursor (col + get_or row_offsets row 0))

module _ {B : Type 0} (i2c : I2c B) where
  abbrev with_error : ErrCode → Lcd B → Lcd B
  with_error e s = record s { life = record s.life { last_error = e } }

  -- `hal_lcdGetStatus`
  unfoldable pub lcd_get_status : Lcd B → Lcd B × DriverState
  lcd_get_status s =
      if get_bit s.life.status drv_bit_dead
      then (with_error ErrCode.dead s, DriverState.dead)
      else if get_bit s.life.status drv_bit_error
      then (with_error invalid_state s, DriverState.error)
      else if not (i2c.is_running s.bus)
      then (with_error dependency s, DriverState.error)
      else if not (get_bit s.life.status drv_bit_init)
      then (if not (get_bit s.life.status drv_bit_start)
          then (s, off)
          else (with_error invalid_state s, DriverState.error))
      else if not (get_bit s.life.status drv_bit_start)
      then (s, DriverState.initialized)
      else (s, running)

  -- A step of a transfer, unless the one before it failed
  abbrev pub and_then : (B → B × Bool) → B × Bool → B × Bool
  and_then step (b, true) = step b
  and_then step (b, false) = (b, false)

  -- What an operation returns for the transfer that it made
  abbrev pub transferred : Lcd B → B × Bool → Lcd B × DriverState
  transferred s (b, true) = (record s { bus = b }, running)
  transferred s (b, false) = (with_error dependency (record s { bus = b }), DriverState.error)

  -- The transfer of `lcdAMC2004SendCommand`
  unfoldable pub command_transfer : ℕ → B → B × Bool
  command_transfer command b = and_then i2c.comm_stop (
      and_then (i2c.write command)
        (and_then (i2c.write lcdamc2004_val_cmd) (i2c.comm_start lcdamc2004_val_i2c_addr false b)))

  -- `lcdAMC2004SendCommand`
  unfoldable pub send_command : ℕ → Lcd B → Lcd B × DriverState
  send_command command s = transferred s (command_transfer command s.bus)

  -- What follows an operation that did not return `DRV_STATE_ERROR`
  abbrev pub unless_error :
      (Lcd B → Lcd B × DriverState) → Lcd B × DriverState → Lcd B × DriverState
  unless_error k (s, DriverState.error) = (s, DriverState.error)
  unless_error k (s, state) = k s

  -- `lcdAMC2004Clear`
  unfoldable pub clear_display : Lcd B → Lcd B × DriverState
  clear_display s = unless_error (λ s'. (s', running)) (send_command lcdamc2004_cmd_clear s)

  -- The end of `hal_lcdInit`
  abbrev initialized_lcd : Lcd B → Lcd B × DriverState
  initialized_lcd s = (
    record s {
      life = record s.life { status = set_bit s.life.status drv_bit_init; last_error = no_error };
    },
    DriverState.initialized,
  )

  -- `hal_lcdInit`
  unfoldable pub lcd_init : Lcd B → Lcd B × DriverState
  unfolding send_command
  lcd_init s =
      if get_bit s.life.status drv_bit_dead
      then (with_error ErrCode.dead s, DriverState.error)
      else if not (i2c.is_running s.bus)
      then (with_error dependency s, DriverState.error)
      else unless_error initialized_lcd (
          unless_error (send_command lcdamc2004_cmd_entrymode) (
            unless_error (send_command lcdamc2004_cmd_clear) (
              unless_error (send_command lcdamc2004_cmd_displaymode)
                (send_command lcdamc2004_cmd_setup s))))

  -- `hal_lcdStart`
  unfoldable pub lcd_start : Lcd B → Lcd B × DriverState
  unfolding clear_display
  lcd_start s =
      if get_bit s.life.status drv_bit_dead
      then (with_error ErrCode.dead s, DriverState.error)
      else if not (get_bit s.life.status drv_bit_init)
      then (with_error not_initialized s, DriverState.error)
      else unless_error
          (λ s'. (
            record s' { life = record s'.life { status = set_bit s'.life.status drv_bit_start } },
            running,
          ))
          (clear_display s)

  -- `hal_lcdStop`
  unfoldable pub lcd_stop : Lcd B → Lcd B × DriverState
  lcd_stop s =
      lcd_get_status
        (record s { life = record s.life { status = clear_bit s.life.status drv_bit_start } })

  unfoldable pub lcd_driver : Driver (Lcd B)
  lcd_driver = record {
    life = λ s. s.life;
    with_life = λ l s. record s { life = l };
    on_init = lcd_init;
    on_start = lcd_start;
    on_stop = lcd_stop;
    get_status = lcd_get_status;
  }

  -- `hal_lcdControl`
  unfoldable pub lcd_control :
      Control → Option ControlData → Lcd B → Lcd B × DriverState × Option ControlData
  lcd_control command dat s = control lcd_driver command dat s

  -- `hal_lcdClear`
  unfoldable pub lcd_clear : Lcd B → Lcd B × DriverState
  lcd_clear s = when_running (require_running lcd_driver s) clear_display (λ s' state. (s', state))

  -- `hal_lcdSetCursor`
  unfoldable pub lcd_set_cursor : ℕ → ℕ → Lcd B → Lcd B × DriverState
  lcd_set_cursor row col s =
      when_running (require_running lcd_driver s)
        (λ s'.
          if leb lcdamc2004_val_raw row || leb lcdamc2004_val_col col
          then set_error lcd_driver lcd_cursor_out_of_range s'
          else send_command (cursor_command row col) s')
        (λ s' state. (s', state))

  -- `hal_lcdWriteStart`
  unfoldable pub lcd_write_start : Lcd B → Lcd B × DriverState
  lcd_write_start s =
      when_running (require_running lcd_driver s)
        (λ s'. transferred s' (
          and_then (i2c.write lcdamc2004_val_data)
            (i2c.comm_start lcdamc2004_val_i2c_addr false s'.bus)))
        (λ s' state. (s', state))

  -- `hal_lcdWriteByte`
  unfoldable pub lcd_write_byte : ℕ → Lcd B → Lcd B × DriverState
  lcd_write_byte dat s = transferred s (i2c.write dat s.bus)

  -- `hal_lcdWriteEnd`
  unfoldable pub lcd_write_end : Lcd B → Lcd B × DriverState
  lcd_write_end s = transferred s (i2c.comm_stop s.bus)
