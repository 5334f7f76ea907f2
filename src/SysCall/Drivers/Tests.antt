-- ===== src/SysCall/Drivers/Tests.antt =====
-- `sc_usartRead` on one received byte.
use task_mate.Common.{ℕ, ◌≡◌, refl, ◌⊎◌, true, none, some, [], ◌∷◌, arith, set, replicate}
use task_mate.Common.Bits.{get_bit}
use task_mate.Interfaces.{no_error, usart_rx_buffer_empty}
use task_mate.Hal.Usart.{Avr, Usart, CircularBuffer}
use task_mate.Hal.Usart.Contents.{IsBuffer, contents}
use task_mate.Hal.Usart.Fifo.{IsPort}
use task_mate.SysCall.Drivers.Clock.{sc_usart_read}
use task_mate.SysCall.Drivers.Input.{sc_usart_read_lem}

abbrev device : Avr
device = record {
  f_cpu = 16000000;
  rate_usart_baud = 9600;
  rxen1 = 4;
  txen1 = 3;
  ucsz11 = 2;
  ucsz10 = 1;
  rxcie1 = 7;
}

abbrev one_byte : CircularBuffer
one_byte = record { slots = set (replicate 64 0) 63 65; head = 0; tail = 63 }

abbrev receiver : Usart
receiver = record {
  rx = one_byte;
  tx = one_byte;
  life = record { status = 3; run_level = 2; last_error = no_error };
  ubrr1h = 0;
  ubrr1l = 0;
  ucsr1b = 0;
  ucsr1c = 0;
  sent = [];
}

one-IsBuffer : IsBuffer one_byte
one-IsBuffer = (refl, omega arith, omega arith)

receiver-IsPort : IsPort receiver
unfolding get_bit
receiver-IsPort = (one-IsBuffer, one-IsBuffer, (refl, refl, refl, refl))

sc_usart_read_lem_example :
    ((contents one_byte ≡ [])
      × ((sc_usart_read device true receiver).1 ≡ usart_rx_buffer_empty)
      × ((sc_usart_read device true receiver).2 ≡ none))
    ⊎ ((v : ℕ) × (contents one_byte ≡ v ∷ contents (sc_usart_read device true receiver).0.rx)
        × ((sc_usart_read device true receiver).1 ≡ no_error)
        × ((sc_usart_read device true receiver).2 ≡ some v))
sc_usart_read_lem_example = sc_usart_read_lem device receiver receiver-IsPort
