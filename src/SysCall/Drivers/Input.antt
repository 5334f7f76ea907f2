-- ===== src/SysCall/Drivers/Input.antt =====
-- `sc_usartRead` over the serial driver's receive queue.
use task_mate.Common.{ℕ, ◌≡◌, refl, ◌⊎◌, inl, inr, true, false, none, some, [], ◌∷◌, Bool-cases}
use task_mate.Interfaces.{no_error, usart_rx_buffer_empty}
use task_mate.Hal.Driver.{control}
use task_mate.Hal.Usart.{
  Avr, Usart, usart_read, usart_control, usart_driver, usart_get_status, cb_empty, fetch,
}
use task_mate.Hal.Usart.Contents.{contents, empty_iff, fetch_lem}
use task_mate.Hal.Usart.Fifo.{IsPort, IsRunning, require_lem}
use task_mate.SysCall.Drivers.Clock.{sc_usart_read}

module _ (avr : Avr) (s : Usart) (up : IsRunning s.life.status) where
  read_nothing :
      cb_empty s.rx ≡ true
      → ((sc_usart_read avr true s).1 ≡ usart_rx_buffer_empty)
        × ((sc_usart_read avr true s).2 ≡ none)
  unfolding sc_usart_read usart_read usart_control control usart_driver usart_get_status
  read_nothing e = rw (sc_usart_read, usart_read, require_lem avr s up, e) (refl, refl)

  read_byte :
      cb_empty s.rx ≡ false
      → (sc_usart_read avr true s)
        ≡ (record s { rx = (fetch s.rx).0 }, no_error, some (fetch s.rx).1)
  unfolding sc_usart_read usart_read
  read_byte e = rw (sc_usart_read, usart_read, require_lem avr s up, e) refl

-- `sc_usartRead` on a running driver with well-formed buffers: where the receive queue is empty it
-- returns the error for that and no byte; else no error and the oldest byte, and the queue is left
-- without that byte.
pub sc_usart_read_lem :
    (avr : Avr) (s : Usart)
    → IsPort s
    → ((contents s.rx ≡ [])
        × ((sc_usart_read avr true s).1 ≡ usart_rx_buffer_empty)
        × ((sc_usart_read avr true s).2 ≡ none))
      ⊎ ((v : ℕ) × (contents s.rx ≡ v ∷ contents (sc_usart_read avr true s).0.rx)
          × ((sc_usart_read avr true s).1 ≡ no_error)
          × ((sc_usart_read avr true s).2 ≡ some v))
sc_usart_read_lem avr s (rx, tx, up) = elim (Bool-cases (cb_empty s.rx)) [
  | inl e ↦
      let (err, nothing) = read_nothing avr s up e in inl ((empty_iff s.rx rx).0 e, err, nothing)
  | inr e ↦
      let r = read_byte avr s up e in
      inr ((fetch s.rx).1, rw r (fetch_lem s.rx rx e).1, rw r refl, rw r refl)
]
