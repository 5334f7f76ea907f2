-- ===== src/SysCall/Console/Printf.antt =====
-- `printf` through the console to the serial driver.
use task_mate.Common.{
  ℕ, ◌+◌, ◌≡◌, refl, sym, subst, ap, ◌∙◌, Bool, true, false, not, ◌||◌, none, some, List, [], ◌∷◌,
  ◌++◌, append-nil, append_assoc, arith, ltb, ◌==◌, if◌then◌else◌, u16, length, length-append,
  negsuc, pos,
}
use task_mate.Interfaces.{no_error, is_no_error, ErrCode}
use task_mate.Hal.Usart.{Avr, Usart}
use task_mate.Hal.Usart.Fifo.{IsPort, send_lem}
use task_mate.TmLibc.Snprintf.{Console, Buffer, Arg, put_char, vprintf, format_string, terminate}
use task_mate.TmLibc.Snprintf.Format.{Piece, print, IsCall, meaning}
use task_mate.TmLibc.Snprintf.Loop.{IsSink, format_loop_lem}
use task_mate.SysCall.Console.{usart_console, sc_console_flush, sc_console_write_byte}
use task_mate.SysCall.Console.Lossless.{output, sc_console_write_byte_lem, flush_lem}

-- What a byte does to the state of the console, and to the mark of a failure.
put_char_console :
    {S : Type 0} (c : Console S) (b : Buffer S) (ch : ℕ)
    → b.console ≡ true
    → ((put_char c b ch).console ≡ true)
      × ((put_char c b ch).index ≡ u16 (b.index + 1))
      × ((put_char c b ch).size ≡ b.size)
      × ((put_char c b ch).io ≡ (
          if ch == b'\n' then (c.flush (c.write_byte ch b.io).0).0 else (c.write_byte ch b.io).0))
      × ((put_char c b ch).failed ≡ (
          if ch == b'\n'
          then b.failed
            || not (is_no_error (c.write_byte ch b.io).1)
            || not (is_no_error (c.flush (c.write_byte ch b.io).0).1)
          else b.failed || not (is_no_error (c.write_byte ch b.io).1)))
unfolding put_char
put_char_console c b ch e = ground arith

module _ (avr : Avr) where
  flush_keeps :
      (s : Usart)
      → IsPort s
      → ((sc_console_flush avr s).1 ≡ no_error)
        × (output (sc_console_flush avr s).0 ≡ output s)
        × IsPort (sc_console_flush avr s).0
  flush_keeps s (rx, tx, up) =
      let (left, ok, drained, run) = send_lem avr s tx up in
      rw (flush_lem avr s _ run)
        (refl, ap (λ q. output s ++ q) drained ∙ append-nil (output s), (rx, ok, up))

  -- The state behind `out` on a console that started in `s`.
  record Prints (s : Usart) (out : List ℕ) (b : Buffer Usart) : Type 0 where
    to_console : b.console ≡ true
    no_failure : b.failed ≡ false
    no_room : b.size ≡ 0
    counted : b.index ≡ u16 (length out)
    delivered : output b.io ≡ output s ++ out
    up : IsPort b.io

  -- Both ends of `putChar`, with and without the flush
  chosen :
      (written flushed : Usart)
      → output flushed ≡ output written
      → IsPort written
      → IsPort flushed
      → (p : Bool)
      → (output (if p then flushed else written) ≡ output written)
        × IsPort (if p then flushed else written)
  chosen written flushed same up1 up2 true = (same, up2)
  chosen written flushed same up1 up2 false = (refl, up1)

  fine :
      (b : Buffer Usart) {e1 e2 : ErrCode}
      → b.failed ≡ false
      → e1 ≡ no_error
      → e2 ≡ no_error
      → (p : Bool)
      → (if p
          then b.failed || not (is_no_error e1) || not (is_no_error e2)
          else b.failed || not (is_no_error e1))
        ≡ false
  fine b h q1 q2 true = rw (h, q1, q2) refl
  fine b h q1 q2 false = rw (h, q1) refl

  Prints-char :
      (s : Usart) (b : Buffer Usart) (out : List ℕ) (ch : ℕ)
      → Prints s out b
      → Prints s (out ++ ch ∷ []) (put_char (usart_console avr) b ch)
  unfolding usart_console
  Prints-char s b out ch h =
      let (con, index, size, io, failed) = put_char_console (usart_console avr) b ch h.to_console in
      let (e1, more, up1) = sc_console_write_byte_lem avr b.io ch h.up in
      let (e2, same, up2) = flush_keeps (sc_console_write_byte avr ch b.io).0 up1 in
      record {
        to_console = con;
        no_failure = failed ∙ fine b h.no_failure e1 e2 (ch == b'\n');
        no_room = size ∙ h.no_room;
        counted = omega (arith, index, h.counted, length-append out (ch ∷ []));
        delivered =
            ap output io
            ∙ (chosen _ _ same up1 up2 (ch == b'\n')).0
            ∙ more
            ∙ ap (λ q. q ++ ch ∷ []) h.delivered
            ∙ append_assoc (output s) out (ch ∷ []);
        up = subst IsPort (sym io) (chosen _ _ same up1 up2 (ch == b'\n')).1;
      }

  Prints-IsSink : (s : Usart) → IsSink (usart_console avr) (Prints s)
  Prints-IsSink s = record {
    on_char = Prints-char s;
    on_padding = λ b d h. record {
      to_console = h.to_console;
      no_failure = h.no_failure;
      no_room = h.no_room;
      counted = h.counted;
      delivered = h.delivered;
      up = h.up;
    };
  }

  -- The state that `vprintf` starts with
  abbrev opened : Usart → Buffer Usart
  opened s = record {
    ptr = none;
    size = 0;
    index = 0;
    padding = 0;
    console = true;
    failed = false;
    io = s;
  }

  opened-Prints : (s : Usart) → IsPort s → Prints s [] (opened s)
  opened-Prints s ok = record {
    to_console = refl;
    no_failure = refl;
    no_room = refl;
    counted = refl;
    delivered = sym (append-nil (output s));
    up = ok;
  }

  terminate_none : (b : Buffer Usart) → b.size ≡ 0 → terminate (usart_console avr) b ≡ b
  unfolding terminate
  terminate_none b e = ground arith

-- `printf` on a running serial driver with well-formed buffers, of a format made of literal bytes
-- and conversions `%c %s %u %x %b %%` with an optional width `0d` and arguments that fit them:
-- what the driver has sent and will send is as before with the whole text behind it, the driver
-- runs on, and the length of the text is returned as it wraps around at 65536, or -1 where that
-- exceeds INT_MAX. Each number has 16 bits, the format and each string have less than 65536 bytes,
-- and the text may have more.
pub vprintf_lem :
    (avr : Avr) (int_max : ℕ) (s : Usart) (ps : List Piece) (args : List Arg) {out : List ℕ}
    → IsPort s
    → IsCall ps args
    → meaning ps args ≡ some out
    → (b : Buffer Usart) × (vprintf (usart_console avr) int_max s (print ps) args
        ≡ some (b, if ltb int_max (u16 (length out)) then negsuc 0 else pos (u16 (length out))))
      × (output b.io ≡ output s ++ out)
      × IsPort b.io
unfolding vprintf format_string
vprintf_lem avr int_max s ps args {out} ok (good, format_fits, args_fit) m =
    let (b, ends, h) =
      format_loop_lem (usart_console avr) (Prints-IsSink avr s) ps args good m (opened avr s) []
        (length (print ps) + 1) refl (opened-Prints avr s ok) (omega arith) in
    (
      b,
      rw (vprintf, format_string, ends, terminate_none avr b h.no_room, h.no_failure, h.counted)
          refl,
      h.delivered,
      h.up,
    )
