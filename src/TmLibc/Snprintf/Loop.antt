-- ===== src/TmLibc/Snprintf/Loop.antt =====
-- The loop of `formatString` on a format made of literal bytes and conversions, whatever the sink.
use task_mate.Common.{
  ℕ, zero, suc, ◌+◌, ◌<◌, ◌≡◌, refl, sym, subst, ap, ◌∙◌, ◌≢◌, inl, inr, Option, none, some, List,
  [], ◌∷◌, ◌++◌, append-nil, append_assoc, arith, Option-cases, some_inj, length, All,
}
use mathlib.Core.Option
use task_mate.TmLibc.Snprintf.{
  Console, Buffer, Arg, put_char, put_chars, directive, format_loop, done, go_on,
}
use task_mate.TmLibc.Snprintf.Format.{
  Kind, Piece, print, IsPiece, emit, width, meaning, spell, lit, conv, directive_plain,
  directive_width,
}

-- What a sink owes to the loop: `Inv out b` says that the state is `b` behind the bytes `out`.
pub record IsSink {S : Type 0} (c : Console S) (Inv : List ℕ → Buffer S → Type 0) : Type 0 where
  pub on_char :
      (b : Buffer S) (out : List ℕ) (ch : ℕ) → Inv out b → Inv (out ++ ch ∷ []) (put_char c b ch)
  pub on_padding :
      (b : Buffer S) (d : ℕ) {out : List ℕ} → Inv out b → Inv out (record b { padding = d })

put_char_padding :
    {S : Type 0} (c : Console S) (b : Buffer S) (ch : ℕ) → (put_char c b ch).padding ≡ b.padding
unfolding put_char
put_char_padding c b ch = ground arith

-- A `some` that `Option.map` gives comes from a `some`.
map-some :
    {A B : Type 0} (f : A → B) (o : Option A) {y : B}
    → Option.map f o ≡ some y
    → (x : A) × (o ≡ some x) × (f x ≡ y)
map-some f none h = cc h
map-some f (some x) h = (x, refl, some_inj h)

meaning_conv :
    (w : Option ℕ) (k : Kind) (ps : List Piece) (args : List Arg) {out : List ℕ}
    → meaning (conv w k ∷ ps) args ≡ some out
    → (chs : List ℕ) × (rest : List Arg) × (out' : List ℕ) × (emit (width w) k args
        ≡ some (chs, rest))
      × (meaning ps rest ≡ some out')
      × (chs ++ out' ≡ out)
unfolding meaning
meaning_conv w k ps args {out} h = elim (Option-cases (emit (width w) k args)) [
  | inl e ↦ cc (subst Meant e h)
  | inr ((chs, rest), e) ↦
      let (out', m, same) = map-some (λ o. chs ++ o) (meaning ps rest) (subst Meant e h) in
      (chs, rest, out', e, m, same)
]
  where
    Meant : Option (List ℕ × List Arg) → Type 0
    Meant q =
        elim q [ none ↦ none | some (cs, r) ↦ Option.map (λ o. cs ++ o) (meaning ps r) ] ≡ some out

module _ {S : Type 0} (c : Console S) {Inv : List ℕ → Buffer S → Type 0} (sink : IsSink c Inv) where
  put_chars-Inv :
      (b : Buffer S) (out chs : List ℕ) → Inv out b → Inv (out ++ chs) (put_chars c b chs)
  unfolding put_chars
  put_chars-Inv b out [] h = subst (λ o. Inv o b) (sym (append-nil out)) h
  put_chars-Inv b out (ch ∷ chs) h =
      subst (λ o. Inv o (put_chars c (put_char c b ch) chs)) (append_assoc out (ch ∷ []) chs)
        (put_chars-Inv (put_char c b ch) (out ++ ch ∷ []) chs (sink.on_char b out ch h))

  loop_literal :
      (fuel : ℕ) (b : Buffer S) (ch : ℕ) (text : List ℕ) (args : List Arg)
      → ch ≢ b'%'
      → format_loop c (suc fuel) b (ch ∷ text) args ≡ format_loop c fuel (put_char c b ch) text args
  unfolding format_loop
  loop_literal fuel b ch text args ne = ground arith

  loop_percent :
      (fuel : ℕ) (b b' : Buffer S) (text text' : List ℕ) (args args' : List Arg)
      → directive c b text args ≡ go_on b' text' args'
      → format_loop c (suc fuel) b (b'%' ∷ text) args ≡ format_loop c fuel b' text' args'
  unfolding format_loop
  loop_percent fuel b b' text text' args args' e = rw e refl

  abbrev pub Ends : ℕ → Buffer S → List ℕ → List Arg → List ℕ → Type 0
  Ends fuel b text args out =
      (b' : Buffer S) × (format_loop c fuel b text args ≡ done b') × Inv out b'

  pub format_loop_lem :
      (ps : List Piece) (args : List Arg) {out : List ℕ}
      → All IsPiece ps
      → meaning ps args ≡ some out
      → (b : Buffer S) (pre : List ℕ) (fuel : ℕ) → b.padding ≡ 0
      → Inv pre b
      → length (print ps) < fuel
      → Ends fuel b (print ps) args (pre ++ out)
  unfolding print meaning
  format_loop_lem ps args good m b pre zero p h l = absurd (omega arith)
  format_loop_lem [] args good m b pre (suc fuel) p h l =
      (b, (unfold format_loop in refl), subst (λ o. Inv o b) (pre_nil (some_inj m)) h)
    where
      pre_nil : {o : List ℕ} → [] ≡ o → pre ≡ pre ++ o
      pre_nil e = subst (λ o. pre ≡ pre ++ o) e (sym (append-nil pre))
  format_loop_lem (lit ch ∷ ps) args good m b pre (suc fuel) p h l =
      let (out', m', e) = map-some (λ o. ch ∷ o) (meaning ps args) m in
      let (b', ends, held) =
        format_loop_lem ps args good.1 m' (put_char c b ch) (pre ++ ch ∷ []) fuel
          (put_char_padding c b ch ∙ p) (sink.on_char b pre ch h) (omega arith) in
      (
        b',
        loop_literal fuel b ch (print ps) args good.0 ∙ ends,
        subst (λ o. Inv o b') (append_assoc pre (ch ∷ []) out' ∙ ap (λ o. pre ++ o) e) held,
      )
  format_loop_lem (conv none k ∷ ps) args good m b pre (suc fuel) p h l =
      let (chs, rest, out', e, m', same) = meaning_conv none k ps args m in
      let next = record (put_chars c b chs) { padding = 0 } in
      let (b', ends, held) =
        format_loop_lem ps rest good.1 m' next (pre ++ chs) fuel refl
          (sink.on_padding _ 0 (put_chars-Inv b pre chs h)) (omega arith) in
      (
        b',
        loop_percent fuel b next (spell k ∷ print ps) (print ps) args rest (
              directive_plain c b k (print ps) args
                (subst (λ d. emit d k args ≡ some (chs, rest)) (sym p) e))
            ∙ ends,
        subst (λ o. Inv o b') (append_assoc pre chs out' ∙ ap (λ o. pre ++ o) same) held,
      )
  format_loop_lem (conv (some d) k ∷ ps) args good m b pre (suc fuel) p h l =
      let (chs, rest, out', e, m', same) = meaning_conv (some d) k ps args m in
      let next = record (put_chars c (record b { padding = d }) chs) { padding = 0 } in
      let (b', ends, held) =
        format_loop_lem ps rest good.1 m' next (pre ++ chs) fuel refl
          (sink.on_padding _ 0
            (put_chars-Inv (record b { padding = d }) pre chs (sink.on_padding b d h)))
          (omega arith) in
      (
        b',
        loop_percent fuel b next (b'0' ∷ (d + b'0') ∷ spell k ∷ print ps) (print ps) args rest
              (directive_width c b d k (print ps) args good.0 e)
            ∙ ends,
        subst (λ o. Inv o b') (append_assoc pre chs out' ∙ ap (λ o. pre ++ o) same) held,
      )
