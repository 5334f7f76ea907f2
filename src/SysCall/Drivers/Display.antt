-- ===== src/SysCall/Drivers/Display.antt =====
-- srcs/system/sysCall/sc_driver.c, the calls on the display, over the driver of Hal/Lcd.
pub mod Wire
mod Tests
use task_mate.Common.{ℕ, zero, suc, ◌+◌, Option, none, some, ◌==◌, if◌then◌else◌}
use task_mate.Hal.DrvI2c.{I2c}
use task_mate.Hal.Lcd.{
  Lcd, lcd_clear, lcd_set_cursor, lcd_write_end, lcd_control, lcd_write_byte, lcd_write_start,
}
use task_mate.TmLibc.Str.{Text, string_get_byte}
use task_mate.Interfaces.{DriverState, ErrCode, null_pointer, no_error}
use task_mate.SysCall.Drivers.{sc_driver_error}

-- `TM_STRING_SIZE_MAX`
abbrev tm_string_size_max : ℕ
tm_string_size_max = 255

module _ {B : Type 0} (i2c : I2c B) where
  -- `sc_driverError` on what an operation of the display returned
  abbrev pub display_error : Lcd B × DriverState → Lcd B × ErrCode
  display_error (s, state) = sc_driver_error state (lcd_control i2c) s

  -- What follows a call, unless it returned an error
  abbrev pub when_fine : (Lcd B → Lcd B × ErrCode) → Lcd B × ErrCode → Lcd B × ErrCode
  when_fine k (s, no_error) = k s
  when_fine k (s, e) = (s, e)

  -- `sc_lcdClear`
  unfoldable pub sc_lcd_clear : Lcd B → Lcd B × ErrCode
  sc_lcd_clear s = display_error (lcd_clear i2c s)

  -- The end of the transfer of a text, by a byte that was refused or by the end of the text
  unfoldable pub end_text : Lcd B → Lcd B × ErrCode
  end_text s = display_error (lcd_write_end i2c s)

  abbrev pub after_byte : (Lcd B → Lcd B × ErrCode) → Lcd B × ErrCode → Lcd B × ErrCode
  after_byte k (s, no_error) = k s
  after_byte k (s, e) = ((end_text s).0, e)

  -- The loop of `sc_lcdWriteString` from `index` on, `n` rounds, and the call behind it
  unfoldable pub write_text : Text → ℕ → ℕ → Lcd B → Lcd B × ErrCode
  unfolding end_text
  write_text str zero index s = end_text s
  write_text str (suc n) index s =
      let str_byte = string_get_byte str index in
      let more =
        after_byte (write_text str n (index + 1)) (display_error (lcd_write_byte i2c str_byte s)) in
      if str_byte == 0 then end_text s else more

  -- `sc_lcdWriteString` behind the cursor
  unfoldable pub write_at_cursor : Option Text → Lcd B → Lcd B × ErrCode
  unfolding write_text
  write_at_cursor none s = (s, null_pointer)
  write_at_cursor (some str) s =
      when_fine (write_text str tm_string_size_max 0) (display_error (lcd_write_start i2c s))

  -- `sc_lcdWriteString`; `none` is a string without data.
  unfoldable pub sc_lcd_write_string : Option Text → ℕ → ℕ → Lcd B → Lcd B × ErrCode
  unfolding write_at_cursor
  sc_lcd_write_string str row col s =
      when_fine (write_at_cursor str) (display_error (lcd_set_cursor i2c row col s))
