-- ===== src/SysCall/Console.antt =====
-- srcs/system/sysCall/sc_string.c: the console output, over the serial driver.
pub mod Lossless
pub mod Printf
mod Tests
use task_mate.Common.{ℕ, Bool, true, false, not, none, some, if◌then◌else◌}
use task_mate.Interfaces.{
  ErrCode, no_error, usart_tx_buffer_full, running, DriverState, getlasterror, is_no_error,
  is_running,
}
use task_mate.Hal.Usart.{Avr, Usart, usart_write_byte, usart_send_tx_buffer, usart_control}
use task_mate.SysCall.Drivers.{blank, or_blank}
use task_mate.TmLibc.Snprintf.{Console}

abbrev is_tx_buffer_full : ErrCode → Bool
is_tx_buffer_full usart_tx_buffer_full = true
is_tx_buffer_full _ = false

module _ (avr : Avr) where
  -- The call of `hal_usartControl` for the last error
  abbrev pub last_error : Usart → Usart × ErrCode
  last_error s =
      let (s', state, d) = usart_control avr getlasterror (some blank) s in (s', (or_blank d).error)

  -- `sc_consoleFlush`; `none` is a sending loop that goes on, which a buffer of 64 places does not
  -- cause.
  unfoldable pub sc_console_flush : Usart → Usart × ErrCode
  sc_console_flush s = elim (usart_send_tx_buffer avr s) [
    | none ↦ (s, no_error)
    | some (s', state) ↦ if is_running state then (s', no_error) else last_error s'
  ]

  -- What a write gives, or else what `full` does with the state and its last error
  abbrev pub written : Usart × DriverState → (Usart × ErrCode → Usart × ErrCode) → Usart × ErrCode
  written (s, running) full = (s, no_error)
  written (s, state) full = full (last_error s)

  abbrev pub when_fine : Usart × ErrCode → (Usart → Usart × ErrCode) → Usart × ErrCode
  when_fine (s, e) k = if is_no_error e then k s else (s, e)

  -- What follows the first write, on the last error behind it
  abbrev pub second_try : ℕ → Usart → Usart × ErrCode
  second_try v s = written (usart_write_byte avr v s) (λ r. r)

  abbrev pub after_refusal : ℕ → Usart × ErrCode → Usart × ErrCode
  after_refusal v (s, e) =
      if not (is_tx_buffer_full e) then (s, e) else when_fine (sc_console_flush s) (second_try v)

  -- `sc_consoleWriteByte`
  unfoldable pub sc_console_write_byte : ℕ → Usart → Usart × ErrCode
  sc_console_write_byte v s = written (usart_write_byte avr v s) (after_refusal v)

  -- The console that `printf` writes to
  unfoldable pub usart_console : Console Usart
  usart_console = record { write_byte = sc_console_write_byte; flush = sc_console_flush }
