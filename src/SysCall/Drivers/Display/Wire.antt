-- ===== src/SysCall/Drivers/Display/Wire.antt =====
-- What `sc_lcdWriteString` puts on the bus.
use task_mate.Common.{
  ℕ, zero, suc, ◌+◌, ◌<◌, ◌≡◌, refl, sym, ap₂, ◌∙◌, false, some, List, [], ◌∷◌, ◌++◌, append_assoc,
  arith, ◌==◌, length, take, length-append, get_or-append,
}
use task_mate.Hal.I2c.{Twi, Bus, i2c_bus}
use task_mate.SysCall.Drivers.{sc_driver_error}
use task_mate.SysCall.Drivers.Display.{
  write_text, end_text, display_error, sc_lcd_write_string, write_at_cursor,
}
use task_mate.Hal.Lcd.{Lcd, lcdamc2004_val_cmd, lcdamc2004_val_data, cursor_command}
use task_mate.Hal.I2c.Wire.{sent, Takes, addressed}
use task_mate.TmLibc.Str.{Text, IsText, string_get_byte}
use task_mate.Interfaces.{running, no_error}
use task_mate.Hal.Lcd.Wire.{
  BothUp, lcd_on_wire, lcd_write_end_wire, TakesLcd, lcd_write_byte_wire, lcd_sent, lcd_byte,
  lcd_set_cursor_wire, lcd_write_start_wire,
}

-- The bytes of the two transfers: the command that places the cursor, then the text
abbrev pub cursor_bytes : ℕ → ℕ → List ℕ
cursor_bytes row col = lcdamc2004_val_cmd ∷ cursor_command row col ∷ []

abbrev pub text_bytes : Text → List ℕ
text_bytes str = lcdamc2004_val_data ∷ take 255 str

module _ {H : Type 0} (twi : Twi H) where
  -- An operation that leaves the driver running is no error.
  fine : (s : Lcd (Bus H)) → display_error (i2c_bus twi) (s, running) ≡ (s, no_error)
  unfolding sc_driver_error
  fine s = refl

  -- The rest of a text from `index` on
  write_text_wire :
      (before rest : Text) (n : ℕ) (s : Lcd (Bus H))
      → IsText rest
      → BothUp s
      → Takes twi (take n rest) s.bus.twi
      → write_text (i2c_bus twi) (before ++ rest) n (length before) s
        ≡ (lcd_on_wire twi s (twi.stop (sent twi (take n rest) s.bus.twi)), no_error)
  unfolding write_text end_text sent
  write_text_wire before rest zero s bytes up t = rw (lcd_write_end_wire twi s up) (fine _)
  write_text_wire before [] (suc n) s bytes up t =
      let ended : string_get_byte (before ++ []) (length before) ≡ 0 = get_or-append before [] 0 in
      rw (ended, lcd_write_end_wire twi s up) (fine _)
  write_text_wire before (v ∷ vs) (suc n) s ((some_byte, small), bytes) up (taken, t) =
      let byte : string_get_byte (before ++ v ∷ vs) (length before) ≡ v =
        get_or-append before (v ∷ vs) 0 in
      let more : (v == 0) ≡ false = ground arith in
      let moved : length (before ++ v ∷ []) ≡ length before + 1 = length-append before (v ∷ []) in
      let s1 = lcd_on_wire twi s (twi.write v s.bus.twi).0 in
      rw (byte, more, lcd_write_byte_wire twi v s up taken, fine s1)
        (ap₂ (λ str i. write_text (i2c_bus twi) str n i s1) (sym (append_assoc before (v ∷ []) vs))
            (sym moved)
          ∙ write_text_wire (before ++ v ∷ []) vs n s1 bytes up t)

  -- On a running display driver over a running bus driver, a call with a position on the display
  -- and a text, where the device takes the bytes, returns no error and makes two transfers to the
  -- display: the control byte and the command of the cursor's cell, then the data byte and the
  -- first 255 bytes of the text.
  pub sc_lcd_write_string_wire :
      (str : Text) (row col : ℕ) (s : Lcd (Bus H))
      → IsText str
      → BothUp s
      → row < 4
      → col < 20
      → TakesLcd twi (cursor_bytes row col) s.bus.twi
      → TakesLcd twi (text_bytes str) (lcd_sent twi (cursor_bytes row col) s.bus.twi)
      → sc_lcd_write_string (i2c_bus twi) (some str) row col s ≡ (
        lcd_on_wire twi s
            (lcd_sent twi (text_bytes str) (lcd_sent twi (cursor_bytes row col) s.bus.twi)),
        no_error,
      )
  unfolding sc_lcd_write_string write_at_cursor sent
  sc_lcd_write_string_wire str row col s bytes up row_lt col_lt placed (ack, (dat, takes)) =
      let s1 = lcd_on_wire twi s (lcd_sent twi (cursor_bytes row col) s.bus.twi) in
      let h2 = (twi.write lcdamc2004_val_data (addressed twi lcd_byte s1.bus.twi)).0 in
      rw (lcd_set_cursor_wire twi row col s up row_lt col_lt placed, fine s1)
        (rw
          (
            lcd_write_start_wire twi (take 255 str) s1 up (ack, (dat, takes)),
            fine (lcd_on_wire twi s h2),
          )
          (write_text_wire [] str 255 (lcd_on_wire twi s h2) bytes up takes))
