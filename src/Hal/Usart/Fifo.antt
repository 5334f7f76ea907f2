-- ===== src/Hal/Usart/Fifo.antt =====
-- The running serial driver against two queues: what the interrupt, `hal_usartRead`,
-- `hal_usartWriteByte` and `hal_usartSendTXBuffer` do to them, in any order.
use task_mate.Common.{
  ℕ, zero, suc, ◌<◌, ◌≡◌, refl, sym, ap, ◌∙◌, ◌≢◌, ◌⊎◌, inl, inr, true, false, Option, none, some,
  List, [], ◌∷◌, ◌++◌, append-nil, append_assoc, arith, ltb, if◌then◌else◌, Bool-cases, length,
}
use task_mate.Common.Bits.{get_bit}
use task_mate.Interfaces.{running, drv_bit_init, drv_bit_start, drv_bit_dead, drv_bit_error}
use task_mate.Hal.Driver.{require_running, Driver}
use task_mate.Hal.Usart.{
  Avr, Usart, CircularBuffer, usart_driver, usart_get_status, usart_rx_interrupt, usart_read,
  usart_write_byte, send_loop, usart_send_tx_buffer, cb_empty, cb_full, store, fetch, size_buffer,
}
use task_mate.Hal.Usart.Contents.{
  IsBuffer, contents, length-contents, full_iff, empty_iff, store_lem, fetch_lem,
}

abbrev pub IsRunning : ℕ → Type 0
IsRunning status =
    (get_bit status drv_bit_dead ≡ false)
    × (get_bit status drv_bit_error ≡ false)
    × (get_bit status drv_bit_init ≡ true)
    × (get_bit status drv_bit_start ≡ true)

abbrev pub IsPort : Usart → Type 0
IsPort s = IsBuffer s.rx × IsBuffer s.tx × IsRunning s.life.status

-- The queues, and what was sent.
pub record Port : Type 0 where
  pub rx : List ℕ
  pub tx : List ℕ
  pub sent : List ℕ

abbrev pub port : Usart → Port
port s = record { rx = contents s.rx; tx = contents s.tx; sent = s.sent }

pub data Event : Type 0 where
  received : ℕ → Event
  read : Event
  write : ℕ → Event
  send : Event

-- A queue of at most 63 bytes that drops what comes too late.
abbrev pub enqueue : ℕ → List ℕ → List ℕ
enqueue v q = if ltb (length q) 63 then q ++ v ∷ [] else q

-- What an event does to the queues, and the byte that it gives.
unfoldable pub port_step : Event → Port → Port × Option ℕ
port_step (received v) p = (record p { rx = enqueue v p.rx }, none)
port_step read p = elim p.rx [ [] ↦ (p, none) | v ∷ q ↦ (record p { rx = q }, some v) ]
port_step (write v) p = (record p { tx = enqueue v p.tx }, none)
port_step send p = (record p { tx = []; sent = p.sent ++ p.tx }, none)

require_running_lem :
    {S : Type 0} (d : Driver S) (s : S)
    → d.get_status s ≡ (s, running)
    → require_running d s ≡ (s, running)
unfolding require_running
require_running_lem d s e = rw (require_running, e) refl

module _ (avr : Avr) where
  -- The same events on the driver.
  unfoldable pub usart_step : Event → Usart → Usart × Option ℕ
  usart_step (received v) s = (usart_rx_interrupt v s, none)
  usart_step read s = let (s', state, v) = usart_read avr true s in (s', v)
  usart_step (write v) s = ((usart_write_byte avr v s).0, none)
  usart_step send s = elim (usart_send_tx_buffer avr s) [
    | none ↦ (s, none)
    | some (s', state) ↦ (s', none)
  ]

  status_lem : (s : Usart) → IsRunning s.life.status → usart_get_status s ≡ (s, running)
  unfolding usart_get_status
  status_lem s (dead, err, init, start) = rw (dead, err, init, start) refl

  pub require_lem :
      (s : Usart) → IsRunning s.life.status → require_running (usart_driver avr) s ≡ (s, running)
  unfolding usart_driver
  require_lem s up = require_running_lem (usart_driver avr) s (status_lem s up)

  enqueue_lem :
      (r : CircularBuffer) (v : ℕ)
      → IsBuffer r
      → ((cb_full r ≡ true) × (enqueue v (contents r) ≡ contents r))
        ⊎ ((cb_full r ≡ false)
            × IsBuffer (store v r)
            × (contents (store v r) ≡ enqueue v (contents r)))
  enqueue_lem r v ok = elim (Bool-cases (cb_full r)) [
    | inl e ↦ let l = (full_iff r ok).0 e in inl (e, ground arith)
    | inr e ↦
        let (ok', same) = store_lem r v ok e in
        let ne : length (contents r) ≢ 63 = λ l. cc ((full_iff r ok).1 l, e) in
        inr (e, ok', same ∙ room (omega (arith, ne, length-contents r)))
  ]
    where
      room : length (contents r) < 63 → contents r ++ v ∷ [] ≡ enqueue v (contents r)
      room l = ground arith

  send_loop_lem :
      (fuel : ℕ) (s : Usart)
      → IsBuffer s.tx
      → length (contents s.tx) < fuel
      → (tx : CircularBuffer) × IsBuffer tx
        × (contents tx ≡ [])
        × (send_loop avr fuel s ≡ some (record s { tx = tx; sent = s.sent ++ contents s.tx }))
  unfolding send_loop
  send_loop_lem zero s ok l = absurd (omega arith)
  send_loop_lem (suc fuel) s ok l = elim (Bool-cases (cb_empty s.tx)) [
    | inl e ↦
        let none_left = (empty_iff s.tx ok).0 e in
        (
          s.tx,
          ok,
          none_left,
          rw (send_loop, e)
              (ap (λ q. some (record s { sent = q }))
                (sym (ap (λ q. s.sent ++ q) none_left ∙ append-nil s.sent))),
        )
    | inr e ↦
        let (ok', first) = fetch_lem s.tx ok e in
        let (left, v) = fetch s.tx in
        let (tx, ok'', drained, run) =
          send_loop_lem fuel (record s { tx = left; sent = s.sent ++ v ∷ [] }) ok'
            (omega (arith, ap length first)) in
        (
          tx,
          ok'',
          drained,
          rw (send_loop, e)
              (run
                ∙ ap (λ q. some (record s { tx = tx; sent = q }))
                    (append_assoc s.sent (v ∷ []) (contents left)
                      ∙ ap (λ q. s.sent ++ q) (sym first))),
        )
  ]

  pub send_lem :
      (s : Usart)
      → IsBuffer s.tx
      → IsRunning s.life.status
      → (tx : CircularBuffer) × IsBuffer tx
        × (contents tx ≡ [])
        × (usart_send_tx_buffer avr s
            ≡ some (record s { tx = tx; sent = s.sent ++ contents s.tx }, running))
  unfolding usart_send_tx_buffer
  send_lem s ok up =
      let (tx, ok', drained, run) =
        send_loop_lem size_buffer s ok (omega (arith, length-contents s.tx)) in
      (tx, ok', drained, rw (usart_send_tx_buffer, require_lem s up, run) refl)

  -- One event on a running driver is the event on its queues.
  usart_step_lem :
      (e : Event) (s : Usart)
      → IsPort s
      → IsPort (usart_step e s).0
        × ((port (usart_step e s).0, (usart_step e s).1) ≡ port_step e (port s))
  unfolding usart_step port_step usart_rx_interrupt usart_read usart_write_byte
  usart_step_lem (received v) s (rx, tx, up) = elim (enqueue_lem s.rx v rx) [
    | inl (e, same) ↦
        (rw (usart_rx_interrupt, e) (rx, tx, up), rw (usart_rx_interrupt, e, same) refl)
    | inr (e, ok, same) ↦
        (rw (usart_rx_interrupt, e) (ok, tx, up), rw (usart_rx_interrupt, e, ← same) refl)
  ]
  usart_step_lem read s (rx, tx, up) = elim (Bool-cases (cb_empty s.rx)) [
    | inl e ↦ (
      rw (usart_read, require_lem s up, e) (rx, tx, up),
      rw (usart_read, require_lem s up, e, (empty_iff s.rx rx).0 e) refl,
    )
    | inr e ↦
        let (ok, first) = fetch_lem s.rx rx e in
        (
          rw (usart_read, require_lem s up, e) (ok, tx, up),
          rw (usart_read, require_lem s up, e, first) refl,
        )
  ]
  usart_step_lem (write v) s (rx, tx, up) = elim (enqueue_lem s.tx v tx) [
    | inl (e, same) ↦ (
      rw (usart_write_byte, require_lem s up, e) (rx, tx, up),
      rw (usart_write_byte, require_lem s up, e, same) refl,
    )
    | inr (e, ok, same) ↦ (
      rw (usart_write_byte, require_lem s up, e) (rx, ok, up),
      rw (usart_write_byte, require_lem s up, e, ← same) refl,
    )
  ]
  usart_step_lem send s (rx, tx, up) =
      let (left, ok, drained, run) = send_lem s tx up in
      (rw (usart_step, run) (rx, ok, up), rw (usart_step, run, drained) refl)

  -- A run of events: the state at the end and what each event gave.
  unfoldable pub usart_run : List Event → Usart → Usart × List (Option ℕ)
  usart_run [] s = (s, [])
  usart_run (e ∷ es) s =
      let (s', v) = usart_step e s in let (t, vs) = usart_run es s' in (t, v ∷ vs)

unfoldable pub port_run : List Event → Port → Port × List (Option ℕ)
port_run [] p = (p, [])
port_run (e ∷ es) p = let (p', v) = port_step e p in let (t, vs) = port_run es p' in (t, v ∷ vs)

-- From a running driver with well-formed buffers, any sequence of receive interrupts, reads,
-- writes and sends gives the bytes, leaves the queues and sends the bytes that the two bounded
-- queues give, leave and send; the buffers stay well formed and the driver runs on.
pub usart_run_lem :
    (avr : Avr) (es : List Event) (s : Usart)
    → IsPort s
    → IsPort (usart_run avr es s).0
      × ((port (usart_run avr es s).0, (usart_run avr es s).1) ≡ port_run es (port s))
unfolding usart_run port_run
usart_run_lem avr [] s ok = (ok, refl)
usart_run_lem avr (e ∷ es) s ok =
    let (ok', same) = usart_step_lem avr e s ok in
    let (ok'', rest) = usart_run_lem avr es (usart_step avr e s).0 ok' in
    (
      ok'',
      ap (λ q. (q.0, (usart_step avr e s).1 ∷ q.1)) rest
          ∙ ap (λ q. ((port_run es q.0).0, q.1 ∷ (port_run es q.0).1)) same,
    )
