-- ===== src/TmLibc/Snprintf/Format.antt =====
-- `formatString` against a description of its directives: what it puts out for a format that is
-- made of literal bytes and conversions.
use task_mate.Common.{
  ℕ, suc, ◌+◌, ◌-◌, ◌%◌, ◌≤◌, ◌<◌, ◌≡◌, refl, ◌≢◌, false, Option, none, some, List, [], ◌∷◌, ◌++◌,
  arith, ltb, ◌==◌, u8, length, drop, All,
}
use mathlib.Core.Option
use task_mate.TmLibc.Str.{Text}
use task_mate.TmLibc.Snprintf.{
  Console, Buffer, Arg, num, str, put_chars, convert, directive, after_convert, base_convert, go_on,
}

pub data Kind : Type 0 where
  char string decimal hex binary percent : Kind

-- A literal byte, or a conversion with an optional one-digit width.
pub data Piece : Type 0 where
  lit : ℕ → Piece
  conv : Option ℕ → Kind → Piece

abbrev pub spell : Kind → ℕ
spell char = b'c'
spell string = b's'
spell decimal = b'u'
spell hex = b'x'
spell binary = b'b'
spell percent = b'%'

-- The format text of a list of pieces.
unfoldable pub print : List Piece → Text
print [] = []
print (lit ch ∷ ps) = ch ∷ print ps
print (conv none k ∷ ps) = b'%' ∷ spell k ∷ print ps
print (conv (some d) k ∷ ps) = b'%' ∷ b'0' ∷ (d + b'0') ∷ spell k ∷ print ps

abbrev pub IsPiece : Piece → Type 0
IsPiece (lit ch) = ch ≢ b'%'
IsPiece (conv none k) = Unit
IsPiece (conv (some d) k) = d ≤ 9

-- An argument as the device passes it: an `unsigned int` of 16 bits, or a string that `size_t`
-- counts
abbrev pub IsArg : Arg → Type 0
IsArg (num v) = v < 65536
IsArg (str s) = length s < 65536

-- A format and its arguments
abbrev pub IsCall : List Piece → List Arg → Type 0
IsCall ps args = All IsPiece ps × (length (print ps) < 65536) × All IsArg args

-- What one conversion puts out, and the arguments that are left.
unfoldable pub emit : ℕ → Kind → List Arg → Option (List ℕ × List Arg)
emit p char (num v ∷ rest) = some (u8 v ∷ [], rest)
emit p string (str s ∷ rest) = some (s, rest)
emit p decimal (num v ∷ rest) = some (base_convert p v 10, rest)
emit p hex (num v ∷ rest) = some (base_convert p v 16, rest)
emit p binary (num v ∷ rest) = some (base_convert p v 2, rest)
emit p percent args = some (b'%' ∷ [], args)
emit p _ _ = none

abbrev pub width : Option ℕ → ℕ
width none = 0
width (some d) = d

-- What a list of pieces puts out; `none` where the arguments do not fit.
unfoldable pub meaning : List Piece → List Arg → Option (List ℕ)
meaning [] args = some []
meaning (lit ch ∷ ps) args = Option.map (λ out. ch ∷ out) (meaning ps args)
meaning (conv w k ∷ ps) args = elim (emit (width w) k args) [
  | none ↦ none
  | some (chs, rest) ↦ Option.map (λ out. chs ++ out) (meaning ps rest)
]

module _ {S : Type 0} (c : Console S) where
  convert_lem :
      (b : Buffer S) (k : Kind) (args : List Arg) {chs : List ℕ} {rest : List Arg}
      → emit b.padding k args ≡ some (chs, rest)
      → convert c b (spell k) args ≡ some (put_chars c b chs, rest)
  unfolding convert emit put_chars
  convert_lem b char [] h = cc
  convert_lem b char (num v ∷ args) h = ground arith
  convert_lem b char (str s ∷ args) h = cc
  convert_lem b string [] h = cc
  convert_lem b string (num v ∷ args) h = cc
  convert_lem b string (str s ∷ args) h = ground arith
  convert_lem b decimal [] h = cc
  convert_lem b decimal (num v ∷ args) h = ground arith
  convert_lem b decimal (str s ∷ args) h = cc
  convert_lem b hex [] h = cc
  convert_lem b hex (num v ∷ args) h = ground arith
  convert_lem b hex (str s ∷ args) h = cc
  convert_lem b binary [] h = cc
  convert_lem b binary (num v ∷ args) h = ground arith
  convert_lem b binary (str s ∷ args) h = cc
  convert_lem b percent args h = ground arith

  spell-ne : (k : Kind) → (spell k == b'0') ≡ false
  spell-ne char = refl
  spell-ne string = refl
  spell-ne decimal = refl
  spell-ne hex = refl
  spell-ne binary = refl
  spell-ne percent = refl

  after_convert_on :
      (i : ℕ) (text : Text) (b : Buffer S) (args : List Arg)
      → i < length text
      → after_convert c i text (some (b, args))
        ≡ go_on (record b { padding = 0 }) (drop (suc i) text) args
  unfolding after_convert
  after_convert_on i text b args h = ground arith

  pub directive_plain :
      (b : Buffer S) (k : Kind) (text : Text) (args : List Arg) {chs : List ℕ} {rest : List Arg}
      → emit b.padding k args ≡ some (chs, rest)
      → directive c b (spell k ∷ text) args
        ≡ go_on (record (put_chars c b chs) { padding = 0 }) text rest
  unfolding directive
  directive_plain b k text args {chs} {rest} h =
      rw (spell-ne k, convert_lem b k args h)
        (after_convert_on 0 (spell k ∷ text) (put_chars c b chs) rest (omega arith))

  pub directive_width :
      (b : Buffer S) (d : ℕ) (k : Kind) (text : Text) (args : List Arg) {chs : List ℕ}
      {rest : List Arg}
      → d ≤ 9
      → emit d k args ≡ some (chs, rest)
      → directive c b (b'0' ∷ (d + b'0') ∷ spell k ∷ text) args
        ≡ go_on (record (put_chars c (record b { padding = d }) chs) { padding = 0 }) text rest
  unfolding directive
  directive_width b d k text args {chs} {rest} l h =
      let e : (d + 48 + 256 - 48) % 256 ≡ d = omega arith in
      let small : ltb 9 d ≡ false = ground arith in
      rw (e, small, convert_lem (record b { padding = d }) k args h)
        (after_convert_on 2 (b'0' ∷ (d + b'0') ∷ spell k ∷ text)
          (put_chars c (record b { padding = d }) chs) rest (omega arith))
