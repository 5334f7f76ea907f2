-- ===== src/Hal/Usart.antt =====
-- srcs/hal/mcu/atmega2560/at2560_usart.c: the serial driver with its two circular buffers.
pub mod Contents
pub mod Fifo
pub mod LifeCycle
mod Tests
use task_mate.Common.{
  ℕ, zero, suc, ◌+◌, ◌-◌, ◌*◌, ◌/◌, bit_and, bit_or, Bool, not, Option, none, some, List, [], ◌∷◌,
  ◌++◌, map, ◌==◌, if◌then◌else◌, u8, u16, get_or, set,
}
use task_mate.Common.Bits.{bit_mask, get_bit, set_bit, clear_bit}
use task_mate.Interfaces.{
  Control, ControlData, DriverState, ErrCode, usart_rx_buffer_full, drv_bit_dead, drv_bit_start,
  drv_bit_error, drv_bit_init, invalid_state, no_error, not_initialized, off, running, null_pointer,
  usart_tx_buffer_full, usart_rx_buffer_empty,
}
use mathlib.Core.Option
use task_mate.Hal.Driver.{Life, Driver, set_error, require_running, control, when_running}

-- A buffer with its head and its tail
pub record CircularBuffer : Type 0 where
  pub slots : List ℕ
  pub head : ℕ
  pub tail : ℕ

abbrev pub size_buffer : ℕ
size_buffer = 64

abbrev pub mask_buffer : ℕ
mask_buffer = size_buffer - 1

-- `CB_NEXT`
unfoldable pub cb_next : ℕ → ℕ
cb_next index = bit_and (index + 1) mask_buffer

-- `CB_FULL`
unfoldable pub cb_full : CircularBuffer → Bool
unfolding cb_next
cb_full r = cb_next r.head == r.tail

-- `CB_EMPTY`
abbrev pub cb_empty : CircularBuffer → Bool
cb_empty r = r.head == r.tail

-- The statements that store a byte at the head.
abbrev pub store : ℕ → CircularBuffer → CircularBuffer
store dat r = record r { slots = set r.slots r.head dat; head = cb_next r.head }

-- The statements that take the byte at the tail.
abbrev pub fetch : CircularBuffer → CircularBuffer × ℕ
fetch r = (record r { tail = cb_next r.tail }, get_or r.slots r.tail 0)

-- The device and build constants: F_CPU and the bit numbers of the registers.
pub record Avr : Type 0 where
  pub f_cpu : ℕ
  pub rate_usart_baud : ℕ
  pub rxen1 : ℕ
  pub txen1 : ℕ
  pub ucsz11 : ℕ
  pub ucsz10 : ℕ
  pub rxcie1 : ℕ

-- The driver's variables, and its registers; `sent` is what was written to UDR1, in order.
pub record Usart : Type 0 where
  pub rx : CircularBuffer
  pub tx : CircularBuffer
  pub life : Life
  pub ubrr1h : ℕ
  pub ubrr1l : ℕ
  pub ucsr1b : ℕ
  pub ucsr1c : ℕ
  pub sent : List ℕ

abbrev status_bit : ℕ → Usart → Bool
status_bit bit s = get_bit s.life.status bit

abbrev with_error : ErrCode → Usart → Usart
with_error e s = record s { life = record s.life { last_error = e } }

-- `hal_usartGetStatus`
unfoldable pub usart_get_status : Usart → Usart × DriverState
usart_get_status s =
    if status_bit drv_bit_dead s
    then (with_error ErrCode.dead s, DriverState.dead)
    else if status_bit drv_bit_error s
    then (with_error invalid_state s, DriverState.error)
    else if not (status_bit drv_bit_init s)
    then (if not (status_bit drv_bit_start s)
        then (s, off)
        else (with_error invalid_state s, DriverState.error))
    else if not (status_bit drv_bit_start s)
    then (s, DriverState.initialized)
    else (s, running)

-- `hal_usartInit`
unfoldable pub usart_init : Avr → Usart → Usart × DriverState
usart_init avr s =
    let ubrr = u16 (avr.f_cpu / (16 * avr.rate_usart_baud) + 65535) in
    if status_bit drv_bit_dead s then (with_error ErrCode.dead s, DriverState.error) else (
      record s {
        ubrr1h = u8 (ubrr / 256);
        ubrr1l = u8 ubrr;
        ucsr1b = bit_or (bit_mask avr.rxen1) (bit_mask avr.txen1);
        ucsr1c = bit_or (bit_mask avr.ucsz11) (bit_mask avr.ucsz10);
        life = record s.life { status = set_bit s.life.status drv_bit_init; last_error = no_error };
      },
      DriverState.initialized,
    )

-- `hal_usartStart`
unfoldable pub usart_start : Avr → Usart → Usart × DriverState
usart_start avr s =
    if status_bit drv_bit_dead s
    then (with_error ErrCode.dead s, DriverState.error)
    else if not (status_bit drv_bit_init s)
    then (with_error not_initialized s, DriverState.error)
    else (
      record s {
        ucsr1b = set_bit s.ucsr1b avr.rxcie1;
        life = record s.life { status = set_bit s.life.status drv_bit_start };
      },
      running,
    )

-- `hal_usartStop`
unfoldable pub usart_stop : Usart → Usart × DriverState
usart_stop s =
    usart_get_status
      (record s { life = record s.life { status = clear_bit s.life.status drv_bit_start } })

-- The driver's operations for `hal_usartControl`.
unfoldable pub usart_driver : Avr → Driver Usart
usart_driver avr = record {
  life = λ s. s.life;
  with_life = λ l s. record s { life = l };
  on_init = usart_init avr;
  on_start = usart_start avr;
  on_stop = usart_stop;
  get_status = usart_get_status;
}

-- `ISR(USART1_RX_vect)`, with the byte that UDR1 holds
unfoldable pub usart_rx_interrupt : ℕ → Usart → Usart
usart_rx_interrupt dat s =
    if not (cb_full s.rx)
    then record s { rx = store dat s.rx }
    else with_error usart_rx_buffer_full s

module _ (avr : Avr) where
  -- `hal_usartRead`; `room` is false where `data` is NULL. The byte is the one stored there.
  unfoldable pub usart_read : Bool → Usart → Usart × DriverState × Option ℕ
  unfolding require_running usart_driver
  usart_read room s =
      when_running (require_running (usart_driver avr) s)
        (λ s'.
          if not room
          then (with_error null_pointer s', DriverState.error, none)
          else if cb_empty s'.rx
          then (with_error usart_rx_buffer_empty s', DriverState.error, none)
          else (record s' { rx = (fetch s'.rx).0 }, running, some (fetch s'.rx).1))
        (λ s' state. (s', state, none))

  -- `hal_usartWriteByte`, with the private `usartWriteByte`
  unfoldable pub usart_write_byte : ℕ → Usart → Usart × DriverState
  usart_write_byte dat s =
      when_running (require_running (usart_driver avr) s)
        (λ s'.
          if cb_full s'.tx
          then (with_error usart_tx_buffer_full s', DriverState.error)
          else (record s' { tx = store dat s'.tx }, running))
        (λ s' state. (s', state))

  -- The loop of `hal_usartSendTXBuffer`, a unit of fuel for a round. The wait for UDRE1 ends when
  -- the device is ready.
  unfoldable pub send_loop : ℕ → Usart → Option Usart
  send_loop zero s = none
  send_loop (suc fuel) s =
      let (tx, dat) = fetch s.tx in
      let rest = send_loop fuel (record s { tx = tx; sent = s.sent ++ dat ∷ [] }) in
      if cb_empty s.tx then some s else rest

  -- `hal_usartSendTXBuffer`
  unfoldable pub usart_send_tx_buffer : Usart → Option (Usart × DriverState)
  usart_send_tx_buffer s =
      when_running (require_running (usart_driver avr) s)
        (λ s'. Option.map (λ t. (t, running)) (send_loop size_buffer s'))
        (λ s' state. some (s', state))

  -- `hal_usartControl`
  unfoldable pub usart_control :
      Control → Option ControlData → Usart → Usart × DriverState × Option ControlData
  usart_control command dat s = control (usart_driver avr) command dat s
