-- ===== src/SysCall/Console/Tests.antt =====
-- `sc_consoleWriteByte` and `printf` on a serial driver whose transmit buffer is full.
use task_mate.Common.{
  ℕ, ◌≡◌, refl, none, some, List, [], ◌∷◌, ◌++◌, arith, ltb, if◌then◌else◌, replicate, negsuc, pos,
}
use task_mate.Common.Bits.{get_bit}
use task_mate.Interfaces.{no_error}
use task_mate.Hal.Usart.{Avr, Usart, CircularBuffer}
use task_mate.Hal.Usart.Contents.{IsBuffer}
use task_mate.Hal.Usart.Fifo.{IsPort}
use task_mate.SysCall.Console.{sc_console_write_byte, usart_console}
use task_mate.SysCall.Console.Printf.{vprintf_lem}
use task_mate.TmLibc.Snprintf.{
  Buffer, Arg, num, str, vprintf, base_convert, pad_zeros, convert_loop,
}
use task_mate.TmLibc.Snprintf.Format.{
  Piece, lit, conv, decimal, string, print, meaning, IsCall, emit,
}
use task_mate.SysCall.Console.Lossless.{output, sc_console_write_byte_lem}

abbrev device : Avr
device = record {
  f_cpu = 16000000;
  rate_usart_baud = 9600;
  rxen1 = 4;
  txen1 = 3;
  ucsz11 = 2;
  ucsz10 = 1;
  rxcie1 = 7;
}

-- Full: 63 bytes wait.
abbrev full_buffer : CircularBuffer
full_buffer = record { slots = replicate 64 65; head = 9; tail = 10 }

abbrev sender : Usart
sender = record {
  rx = full_buffer;
  tx = full_buffer;
  life = record { status = 3; run_level = 2; last_error = no_error };
  ubrr1h = 0;
  ubrr1l = 0;
  ucsr1b = 0;
  ucsr1c = 0;
  sent = [];
}

full-IsBuffer : IsBuffer full_buffer
full-IsBuffer = (refl, omega arith, omega arith)

sender-IsPort : IsPort sender
unfolding get_bit
sender-IsPort = (full-IsBuffer, full-IsBuffer, (refl, refl, refl, refl))

sc_console_write_byte_lem_example :
    ((sc_console_write_byte device 66 sender).1 ≡ no_error)
    × (output (sc_console_write_byte device 66 sender).0 ≡ output sender ++ 66 ∷ [])
    × IsPort (sc_console_write_byte device 66 sender).0
sc_console_write_byte_lem_example = sc_console_write_byte_lem device sender 66 sender-IsPort

-- `%02u:%s` and its arguments
abbrev pieces : List Piece
pieces = conv (some 2) decimal ∷ lit b':' ∷ conv none string ∷ []

abbrev values : List Arg
values = num 7 ∷ str (b'o' ∷ b'k' ∷ []) ∷ []

abbrev text : List ℕ
text = b'0' ∷ b'7' ∷ b':' ∷ b'o' ∷ b'k' ∷ []

means : meaning pieces values ≡ some text
unfolding meaning emit base_convert pad_zeros convert_loop
means = refl

good : IsCall pieces values
unfolding print
good = ((omega arith, (omega arith, (tt, tt))), omega arith, (omega arith, (omega arith, tt)))

vprintf_lem_example :
    (b : Buffer Usart) × (vprintf (usart_console device) 32767 sender (print pieces) values
      ≡ some (b, if ltb 32767 5 then negsuc 0 else pos 5))
    × (output b.io ≡ output sender ++ text)
    × IsPort b.io
vprintf_lem_example = vprintf_lem device 32767 sender pieces values sender-IsPort good means
