-- ===== src/Hal/Usart/Tests.antt =====
-- The serial driver of at2560_usart.c on small runs.
use task_mate.Common.{
  ℕ, ◌≡◌, refl, ◌≢◌, true, false, none, List, [], ◌∷◌, arith, u8, replicate, length-replicate,
}
use task_mate.Common.Bits.{get_bit}
use task_mate.Interfaces.{no_error, drv_bit_dead, drv_bit_error, running, initialized, start}
use task_mate.Hal.Driver.{control}
use task_mate.Hal.Driver.Dead.{control_dead}
use task_mate.Hal.Usart.{
  Avr, Usart, CircularBuffer, usart_get_status, usart_init, usart_start, usart_stop, usart_driver,
}
use task_mate.Hal.Usart.Contents.{IsBuffer}
use task_mate.Hal.Usart.Fifo.{
  IsPort, port, Event, received, read, write, send, usart_run, port_run, usart_run_lem,
}
use task_mate.Hal.Usart.LifeCycle.{usart_life_cycle, usart-IsDriver}

abbrev atmega2560 : Avr
atmega2560 = record {
  f_cpu = 16000000;
  rate_usart_baud = 9600;
  rxen1 = 4;
  txen1 = 3;
  ucsz11 = 2;
  ucsz10 = 1;
  rxcie1 = 7;
}

abbrev empty_buffer : CircularBuffer
empty_buffer = record { slots = replicate 64 0; head = 62; tail = 62 }

abbrev port_with : ℕ → Usart
port_with status = record {
  rx = empty_buffer;
  tx = empty_buffer;
  life = record { status = status; run_level = 2; last_error = no_error };
  ubrr1h = 0;
  ubrr1l = 0;
  ucsr1b = 0;
  ucsr1c = 0;
  sent = [];
}

empty-IsBuffer : IsBuffer empty_buffer
empty-IsBuffer = (length-replicate 64 (u8 0), omega arith, omega arith)

running-IsPort : IsPort (port_with 3)
unfolding get_bit
running-IsPort = (empty-IsBuffer, empty-IsBuffer, (refl, refl, refl, refl))

abbrev events : List Event
events = received 65 ∷ read ∷ received 66 ∷ received 67 ∷ write 68 ∷ read ∷ send ∷ read ∷ read ∷ []

usart_run_lem_example :
    IsPort (usart_run atmega2560 events (port_with 3)).0
    × ((
      port (usart_run atmega2560 events (port_with 3)).0,
      (usart_run atmega2560 events (port_with 3)).1,
    )
        ≡ port_run events (port (port_with 3)))
usart_run_lem_example = usart_run_lem atmega2560 events (port_with 3) running-IsPort

not_dead : get_bit 0 drv_bit_dead ≡ false
unfolding get_bit
not_dead = refl

no_error_bit : get_bit 0 drv_bit_error ≡ false
unfolding get_bit
no_error_bit = refl

usart_life_cycle_example :
    ((usart_init atmega2560 (port_with 0)).1 ≡ initialized)
    × ((usart_start atmega2560 (usart_init atmega2560 (port_with 0)).0).1 ≡ running)
    × ((usart_get_status (usart_start atmega2560 (usart_init atmega2560 (port_with 0)).0).0).1
        ≡ running)
    × ((usart_stop (usart_start atmega2560 (usart_init atmega2560 (port_with 0)).0).0).1
        ≡ initialized)
usart_life_cycle_example =
    usart_life_cycle atmega2560 (port_with 0) (omega arith) not_dead no_error_bit

dead_bit : get_bit 8 drv_bit_dead ≡ true
unfolding get_bit
dead_bit = refl

control_dead_example :
    (get_bit (control (usart_driver atmega2560) start none (port_with 8)).0.life.status drv_bit_dead
      ≡ true)
    × ((control (usart_driver atmega2560) start none (port_with 8)).1 ≢ running)
unfolding usart_driver
control_dead_example =
    control_dead (usart_driver atmega2560) (usart-IsDriver atmega2560) start none (port_with 8) (cc)
      (omega arith) dead_bit
