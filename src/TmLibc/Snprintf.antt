-- ===== src/TmLibc/Snprintf.antt =====
-- srcs/tmLibc/stdio/tm_snprintf.c: formatting into a buffer or to the console, through one state.
pub mod Digits
pub mod Sink
pub mod Format
pub mod Loop
pub mod Output
mod Tests
use mathlib.Core.Option
use task_mate.Common.{
  ℕ, zero, suc, ◌+◌, ◌-◌, ◌/◌, ◌%◌, Bool, true, false, not, ◌&&◌, ◌||◌, Option, none, some, List,
  [], ◌∷◌, map, ltb, leb, ◌==◌, if◌then◌else◌, u8, u16, length, get_or, set, ℤ, drop, negsuc, pos,
}
use task_mate.Interfaces.{ErrCode, no_error, is_no_error}
use task_mate.TmLibc.Str.{Text, string_get_byte}

-- What `sc_consoleWriteByte` and `sc_consoleFlush` do to the console's state `S`.
pub record Console (S : Type 0) : Type 0 where
  pub write_byte : ℕ → S → S × ErrCode
  pub flush : S → S × ErrCode

-- `tm_snprintf_buffer_t`; `ptr` is `none` for NULL. `index` counts in `size_t`, which has 16 bits on
-- the device that this file is built for. `io` is the state of the console.
pub record Buffer (S : Type 0) : Type 0 where
  pub ptr : Option (List ℕ)
  pub size : ℕ
  pub index : ℕ
  pub padding : ℕ
  pub console : Bool
  pub failed : Bool
  pub io : S

abbrev pub digit_chars : Text
digit_chars =
    b'0' ∷ b'1' ∷ b'2' ∷ b'3' ∷ b'4' ∷ b'5' ∷ b'6' ∷ b'7' ∷ b'8' ∷ b'9' ∷ b'a' ∷ b'b' ∷ b'c' ∷ b'd'
    ∷ b'e' ∷ b'f' ∷ []

abbrev pub snprintf_buff_temp_size : ℕ
snprintf_buff_temp_size = 32

abbrev pub snprintf_padding_max : ℕ
snprintf_padding_max = 9

-- The `while` of `baseConvert` over the places left in `tmp`, which stands with its last byte first.
unfoldable pub convert_loop : ℕ → ℕ → ℕ → List ℕ → List ℕ
convert_loop zero value base tmp = tmp
convert_loop (suc room) value base tmp =
    let rest = convert_loop room (value / base) base (get_or digit_chars (value % base) 0 ∷ tmp) in
    if value == 0 then tmp else rest

-- The `while` that fills `tmp` up to the padding.
unfoldable pub pad_zeros : ℕ → List ℕ → List ℕ
pad_zeros zero tmp = tmp
pad_zeros (suc n) tmp = pad_zeros n (b'0' ∷ tmp)

-- The bytes that `baseConvert` puts out, in their order.
unfoldable pub base_convert : ℕ → ℕ → ℕ → List ℕ
base_convert padding value base =
    let tmp =
      if value == 0 then b'0' ∷ [] else convert_loop snprintf_buff_temp_size value base [] in
    pad_zeros (padding - length tmp) tmp

-- A variadic argument: a number (`%c`, `%u`, `%x`, `%b`) or a string.
pub data Arg : Type 0 where
  num : ℕ → Arg
  str : Text → Arg

module _ {S : Type 0} (c : Console S) where
  -- `putChar`
  unfoldable pub put_char : Buffer S → ℕ → Buffer S
  put_char b ch =
      let (io, e) = c.write_byte ch b.io in
      let (io', e') = c.flush io in
      let sent = record b { io = io; failed = b.failed || not (is_no_error e) } in
      let flushed = record b {
        io = io';
        failed = b.failed || not (is_no_error e) || not (is_no_error e');
      } in
      let kept =
        if ltb 0 b.size && ltb b.index (b.size - 1)
        then record b { ptr = Option.map (λ p. set p b.index ch) b.ptr }
        else b in
      let after = if b.console then (if ch == b'\n' then flushed else sent) else kept in
      record after { index = u16 (b.index + 1) }

  -- The loops that put out one byte after the other.
  unfoldable pub put_chars : Buffer S → List ℕ → Buffer S
  put_chars b [] = b
  put_chars b (ch ∷ chs) = put_chars (put_char b ch) chs

  -- How the format loop ends: at the terminator or the exit label; by reading behind the
  -- terminator; or at an argument that was not passed as the conversion wants it.
  pub data Ending : Type 0 where
    done : Buffer S → Ending
    past_end bad_arg out_of_fuel : Ending

  -- The `switch` on the conversion byte.
  unfoldable pub convert : Buffer S → ℕ → List Arg → Option (Buffer S × List Arg)
  convert b format_c args =
      if format_c == b'c'
      then elim args [ num v ∷ rest ↦ some (put_char b (u8 v), rest) | _ ↦ none ]
      else if format_c == b's'
      then elim args [ str s ∷ rest ↦ some (put_chars b s, rest) | _ ↦ none ]
      else if format_c == b'u'
      then elim args [
        | num v ∷ rest ↦ some (put_chars b (base_convert b.padding v 10), rest)
        | _ ↦ none
      ]
      else if format_c == b'x'
      then elim args [
        | num v ∷ rest ↦ some (put_chars b (base_convert b.padding v 16), rest)
        | _ ↦ none
      ]
      else if format_c == b'b'
      then elim args [
        | num v ∷ rest ↦ some (put_chars b (base_convert b.padding v 2), rest)
        | _ ↦ none
      ]
      else if format_c == b'%'
      then some (put_char b b'%', args)
      else some (b, args)

  -- How a directive ends: the loop goes on with the rest of the format and of the arguments, the
  -- exit label is reached, the terminator was left behind, or an argument is missing.
  pub data Directive : Type 0 where
    go_on : Buffer S → Text → List Arg → Directive
    exit : Buffer S → Directive
    past : Directive
    bad : Directive

  -- What follows a conversion whose byte stood at `i` of the text behind the `%`: the padding is
  -- reset, and the next byte is read. Where byte `i` was the terminator, that read is beyond it.
  unfoldable pub after_convert : ℕ → Text → Option (Buffer S × List Arg) → Directive
  after_convert i text none = bad
  after_convert i text (some (b, args)) =
      if leb (length text) i
      then past
      else go_on (record b { padding = 0 }) (drop (suc i) text) args

  -- The body of the loop behind a `%`, at the text that follows it.
  unfoldable pub directive : Buffer S → Text → List Arg → Directive
  directive b text args =
      let plain = after_convert 0 text (convert b (string_get_byte text 0) args) in
      let padding = u8 (string_get_byte text 1 + 256 - b'0') in
      let padded = record b { padding = padding } in
      let width = after_convert 2 text (convert padded (string_get_byte text 2) args) in
      if string_get_byte text 0 == b'0'
      then if ltb snprintf_padding_max padding then exit padded else width
      else plain

  -- The `while( format_c )` of `formatString`, a unit of fuel for a round.
  unfoldable pub format_loop : ℕ → Buffer S → Text → List Arg → Ending
  format_loop zero b text args = out_of_fuel
  format_loop (suc fuel) b [] args = done b
  format_loop (suc fuel) b (format_c ∷ text) args =
      let literal = format_loop fuel (put_char b format_c) text args in
      let percent : Ending = elim (directive b text args) [
        | go_on b' text' args' ↦ format_loop fuel b' text' args'
        | exit b' ↦ done b'
        | past ↦ past_end
        | bad ↦ bad_arg
      ] in
      if format_c == b'%' then percent else literal

  -- The end of `formatString`: the terminator behind what was written.
  unfoldable pub terminate : Buffer S → Buffer S
  terminate b =
      let end = if leb b.size b.index then b.size - 1 else b.index in
      if ltb 0 b.size then record b { ptr = Option.map (λ p. set p end 0) b.ptr } else b

  -- `formatString`: the state at its end and what it returns, `int_max` being INT_MAX.
  unfoldable pub format_string :
      ℕ → Option (List ℕ) → ℕ → Bool → S → Text → List Arg → Option (Buffer S × ℤ)
  format_string int_max ptr size console io format args =
      let start : Buffer S = record {
        ptr = ptr;
        size = size;
        index = 0;
        padding = 0;
        console = console;
        failed = false;
        io = io;
      } in
      elim (format_loop (length format + 1) start format args) [
        | done b ↦
            let b' = terminate b in
            some (b', if b'.failed || ltb int_max b'.index then negsuc 0 else pos b'.index)
        | _ ↦ none
      ]

  -- `vsnprintf` and `vprintf`, which `snprintf` and `printf` call with their arguments.
  unfoldable pub vsnprintf : ℕ → Option (List ℕ) → ℕ → S → Text → List Arg → Option (Buffer S × ℤ)
  vsnprintf int_max ptr size io format args = format_string int_max ptr size false io format args

  unfoldable pub vprintf : ℕ → S → Text → List Arg → Option (Buffer S × ℤ)
  vprintf int_max io format args = format_string int_max none 0 true io format args
