-- ===== src/SysCall/Drivers/Display/Tests.antt =====
-- `sc_lcdWriteString` with two letters in the last cells of the second row.
use task_mate.Common.{ℕ, ◌≡◌, refl, some, List, [], ◌∷◌, arith}
use task_mate.TmLibc.Str.{IsText, Text}
use task_mate.Hal.Lcd.Wire.{TakesLcd, lcd_sent, lcd_on_wire}
use task_mate.Hal.Lcd.{cursor_command}
use task_mate.SysCall.Drivers.Display.{sc_lcd_write_string}
use task_mate.Hal.I2c.Wire.{sent}
use task_mate.Hal.Lcd.Bench.{panel, up_lcd, up_life-IsUp}
use task_mate.Hal.I2c.{i2c_bus}
use task_mate.SysCall.Drivers.Display.Wire.{cursor_bytes, text_bytes, sc_lcd_write_string_wire}
use task_mate.Interfaces.{no_error}

abbrev letters : Text
letters = 72 ∷ 105 ∷ []

letters-IsText : IsText letters
letters-IsText = ground arith

abbrev placed : List ℕ
placed = lcd_sent panel (cursor_bytes 1 18) []

cell-Takes : TakesLcd panel (cursor_bytes 1 18) []
unfolding cursor_command
cell-Takes = ((refl, refl), (refl, (refl, tt)))

letters-Takes : TakesLcd panel (text_bytes letters) placed
letters-Takes = ((refl, refl), (refl, (refl, (refl, tt))))

sc_lcd_write_string_wire_example :
    sc_lcd_write_string (i2c_bus panel) (some letters) 1 18 up_lcd
    ≡ (lcd_on_wire panel up_lcd (lcd_sent panel (text_bytes letters) placed), no_error)
sc_lcd_write_string_wire_example =
    sc_lcd_write_string_wire panel letters 1 18 up_lcd letters-IsText (up_life-IsUp, up_life-IsUp)
      (omega arith) (omega arith) cell-Takes letters-Takes

-- What is on the bus: two transfers, each ended by a stop
on_the_bus :
    lcd_sent panel (text_bytes letters) placed
    ≡ 0x100 ∷ 105 ∷ 72 ∷ 0x40 ∷ 0x78 ∷ 0x100 ∷ 0xd2 ∷ 0x80 ∷ 0x78 ∷ []
unfolding sent cursor_command
on_the_bus = refl
