-- ===== src/SysCall/Console/Lossless.antt =====
-- No byte is lost between `sc_consoleWriteByte` and the wire.
use task_mate.Common.{
  ℕ, ◌≡◌, refl, sym, ap, ◌∙◌, inl, inr, true, false, some, List, [], ◌∷◌, ◌++◌, append_assoc, arith,
  Bool-cases, length,
}
use task_mate.Interfaces.{running, DriverState, no_error, usart_tx_buffer_full, running}
use task_mate.Hal.Driver.{control}
use task_mate.Hal.Usart.{
  Avr, Usart, CircularBuffer, cb_full, store, usart_write_byte, usart_send_tx_buffer, usart_control,
  usart_driver, usart_get_status,
}
use task_mate.Hal.Usart.Contents.{IsBuffer, contents, full_iff, store_lem}
use task_mate.Hal.Usart.Fifo.{IsPort, IsRunning, require_lem, send_lem}
use task_mate.SysCall.Console.{
  last_error, written, when_fine, after_refusal, second_try, sc_console_flush,
  sc_console_write_byte,
}

-- What was sent and what waits to be sent, in order.
abbrev pub output : Usart → List ℕ
output s = s.sent ++ contents s.tx

-- The state behind a write that found the buffer full.
abbrev refused : Usart → Usart
refused s = record s { life = record s.life { last_error = usart_tx_buffer_full } }

module _ (avr : Avr) where
  write_room :
      (s : Usart) (v : ℕ)
      → IsRunning s.life.status
      → cb_full s.tx ≡ false
      → sc_console_write_byte avr v s ≡ (record s { tx = store v s.tx }, no_error)
  unfolding sc_console_write_byte usart_write_byte
  write_room s v up e = rw (sc_console_write_byte, usart_write_byte, require_lem avr s up, e) refl

  pub flush_lem :
      (s s' : Usart)
      → usart_send_tx_buffer avr s ≡ some (s', running)
      → sc_console_flush avr s ≡ (s', no_error)
  unfolding sc_console_flush
  flush_lem s s' e = rw (sc_console_flush, e) refl

  empty_room : (r : CircularBuffer) → IsBuffer r → contents r ≡ [] → cb_full r ≡ false
  empty_room r ok e = elim (Bool-cases (cb_full r)) [
    | inl full ↦ absurd (omega (arith, (full_iff r ok).0 full, ap length e))
    | inr room ↦ room
  ]

  -- `usart_last_error` of a running driver
  last_error_lem : (s : Usart) → IsRunning s.life.status → last_error avr s ≡ (s, s.life.last_error)
  unfolding usart_control control usart_driver usart_get_status
  last_error_lem s (dead, err, init, start) = rw (dead, err, init, start) refl

  refused_write :
      (s : Usart) (v : ℕ)
      → IsRunning s.life.status
      → cb_full s.tx ≡ true
      → usart_write_byte avr v s ≡ (refused s, DriverState.error)
  unfolding usart_write_byte
  refused_write s v up e = rw (usart_write_byte, require_lem avr s up, e) refl

  plain_write :
      (s : Usart) (v : ℕ)
      → IsRunning s.life.status
      → cb_full s.tx ≡ false
      → usart_write_byte avr v s ≡ (record s { tx = store v s.tx }, running)
  unfolding usart_write_byte
  plain_write s v up e = rw (usart_write_byte, require_lem avr s up, e) refl

  -- The buffer was full: it is sent first.
  write_full :
      (s s' : Usart) (v : ℕ)
      → IsRunning s.life.status
      → IsRunning s'.life.status
      → cb_full s.tx ≡ true
      → usart_send_tx_buffer avr (refused s) ≡ some (s', running)
      → cb_full s'.tx ≡ false
      → sc_console_write_byte avr v s ≡ (record s' { tx = store v s'.tx }, no_error)
  unfolding sc_console_write_byte
  write_full s s' v up up' e run room =
      ap (λ q. written avr q (after_refusal avr v)) (refused_write s v up e)
      ∙ ap (after_refusal avr v) (last_error_lem (refused s) up)
      ∙ ap (λ q. when_fine avr q (second_try avr v)) (flush_lem (refused s) s' run)
      ∙ ap (λ q. written avr q (λ r. r)) (plain_write s' v up' room)

-- On a running driver with well-formed buffers `sc_consoleWriteByte` always succeeds, sending what
-- waits where the buffer is full: what was sent and what waits is as before with the byte behind
-- it, and the driver runs on with well-formed buffers.
pub sc_console_write_byte_lem :
    (avr : Avr) (s : Usart) (v : ℕ)
    → IsPort s
    → ((sc_console_write_byte avr v s).1 ≡ no_error)
      × (output (sc_console_write_byte avr v s).0 ≡ output s ++ v ∷ [])
      × IsPort (sc_console_write_byte avr v s).0
sc_console_write_byte_lem avr s v (rx, tx, up) = elim (Bool-cases (cb_full s.tx)) [
  | inr e ↦
      let (ok, more) = store_lem s.tx v tx e in
      rw (write_room avr s v up e) (
        refl,
        ap (λ q. s.sent ++ q) more ∙ sym (append_assoc s.sent (contents s.tx) (v ∷ [])),
        (rx, ok, up),
      )
  | inl e ↦
      let (left, ok, drained, run) = send_lem avr (refused s) tx up in
      let room = empty_room avr left ok drained in
      let (ok', more) = store_lem left v ok room in
      rw (write_full avr s _ v up up e run room)
        (refl, ap (λ q. output s ++ q) (more ∙ ap (λ q. q ++ v ∷ []) drained), (rx, ok', up))
]
