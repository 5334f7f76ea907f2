-- ===== src/AutoCode/Tokenizer/Alike.antt =====
-- Two lines that are the same up to their terminator: the loops of tokenizer.c find the same.
use task_mate.Common.{
  ℕ, zero, suc, ◌+◌, ◌-◌, ◌≤◌, ◌<◌, ◌≡◌, refl, sym, ap, ◌∙◌, inl, inr, Bool, true, false, not, ◌&&◌,
  Option, none, some, List, [], ◌∷◌, arith, ℕ_discrete, ◌==◌, if◌then◌else◌, Bool-cases, some_inj,
  set,
}
use task_mate.AutoCode.Tokenizer.{
  tok_string, byte_at, is_end, is_blank, in_token, quote, step_while, step_from, token_end, Found,
  found, failed, unless_overflow, inc_index_test_overflow, index_test_overflow,
}

-- Two lines have the same bytes up to a place.
abbrev pub Agree : ℕ → List ℕ → List ℕ → Type 0
Agree n a b = (j : ℕ) → j ≤ n → byte_at a j ≡ byte_at b j

-- A line ends at `m`, and has its terminator behind that.
abbrev pub Ends : ℕ → List ℕ → Type 0
Ends m a = (is_end (byte_at a m) ≡ true) × (byte_at a (suc m) ≡ 0)

-- A byte that is cleared, and the others
byte_at-set : (a : List ℕ) (k j : ℕ) → byte_at (set a k 0) j ≡ (if j == k then 0 else byte_at a j)
byte_at-set [] k j = ground arith
byte_at-set (x ∷ a) zero zero = refl
byte_at-set (x ∷ a) zero (suc j) = ground arith
byte_at-set (x ∷ a) (suc k) zero = ground arith
byte_at-set (x ∷ a) (suc k) (suc j) = ground (arith, byte_at-set a k j)

pub set-Agree : (n k : ℕ) (a b : List ℕ) → Agree n a b → Agree n (set a k 0) (set b k 0)
set-Agree n k a b same j l =
    byte_at-set a k j ∙ ap (λ x. if j == k then 0 else x) (same j l) ∙ sym (byte_at-set b k j)

pub set-Ends : (m k : ℕ) (a : List ℕ) → Ends m a → Ends m (set a k 0)
set-Ends m k a (stop, terminator) =
    (rw (byte_at-set a k m) (kept (m == k)), rw (byte_at-set a k (suc m)) (zero_kept (suc m == k)))
  where
    kept : (c : Bool) → is_end (if c then 0 else byte_at a m) ≡ true
    kept true = refl
    kept false = stop

    zero_kept : (c : Bool) → (if c then 0 else byte_at a (suc m)) ≡ 0
    zero_kept true = refl
    zero_kept false = terminator

-- A loop that stops by the place `p` is the same on both lines, and stays between its ends.
step_while_same :
    (test : ℕ → Bool) (left : ℕ) (a b : List ℕ) (p i : ℕ)
    → i ≤ p
    → test (byte_at a p) ≡ false
    → Agree p a b
    → step_while test left a i ≡ step_while test left b i
unfolding step_while
step_while_same test zero a b p i l stop same = rw (same i l) refl
step_while_same test (suc left) a b p i l stop same = elim (Bool-cases (test (byte_at a i))) [
  | inl more ↦
      let more_b : test (byte_at b i) ≡ true = ap test (sym (same i l)) ∙ more in
      rw (more, more_b)
        (step_while_same test left a b p (i + 1) (next (ℕ_discrete i p) more) stop same)
  | inr done ↦
      let done_b : test (byte_at b i) ≡ false = ap test (sym (same i l)) ∙ done in
      rw (done, done_b) refl
]
  where
    next : Dec (i ≡ p) → test (byte_at a i) ≡ true → i + 1 ≤ p
    next (yes e) h = absurd (clash (sym (ap (λ x. test (byte_at a x)) e) ∙ h) stop)
      where
        clash : {c : Bool} → c ≡ true → c ≡ false → ⊥
        clash e1 e2 = cc
    next (no ne) h = omega arith

pub step_while_between :
    (test : ℕ → Bool) (left : ℕ) (a : List ℕ) (p i r : ℕ)
    → i ≤ p
    → test (byte_at a p) ≡ false
    → step_while test left a i ≡ some r
    → (i ≤ r) × (r ≤ p)
unfolding step_while
step_while_between test zero a p i r l stop e = go (test (byte_at a i)) e
  where
    go : (c : Bool) → (if c then none else some i) ≡ some r → (i ≤ r) × (r ≤ p)
    go true h = absurd (cc)
    go false h = let here = some_inj h in (omega (arith, here), omega (arith, here, l))
step_while_between test (suc left) a p i r l stop e =
    go (test (byte_at a i)) refl e (λ l'. step_while_between test left a p (i + 1) r l' stop)
  where
    go :
        (c : Bool)
        → test (byte_at a i) ≡ c
        → (if c then step_while test left a (i + 1) else some i) ≡ some r
        → (i + 1 ≤ p → step_while test left a (i + 1) ≡ some r → (i + 1 ≤ r) × (r ≤ p))
        → (i ≤ r) × (r ≤ p)
    go true more h ih =
        let (low, high) = ih (next (ℕ_discrete i p) more) h in (omega (arith, low), high)
      where
        next : Dec (i ≡ p) → test (byte_at a i) ≡ true → i + 1 ≤ p
        next (yes here) h' = absurd (clash (sym (ap (λ x. test (byte_at a x)) here) ∙ h') stop)
          where
            clash : {c : Bool} → c ≡ true → c ≡ false → ⊥
            clash e1 e2 = cc
        next (no ne) h' = omega arith
    go false done h ih = let here = some_inj h in (omega (arith, here), omega (arith, here, l))

-- A place before the end of the line that is no end itself has another behind it.
pub before_end :
    (m i : ℕ) (a : List ℕ) → Ends m a → i ≤ suc m → is_end (byte_at a i) ≡ false → i < m
before_end m i a (stop, terminator) l h = go (ℕ_discrete i m) (ℕ_discrete i (suc m))
  where
    clash : {c : Bool} → c ≡ true → c ≡ false → ⊥
    clash e1 e2 = cc

    go : Dec (i ≡ m) → Dec (i ≡ suc m) → i < m
    go (yes e) d = absurd (clash (ap (λ x. is_end (byte_at a x)) e ∙ stop) h)
    go (no ne) (yes e) = absurd (clash (ap is_end (ap (λ x. byte_at a x) e ∙ terminator)) h)
    go (no ne) (no ne') = omega arith

end_stops : (q : Bool) (b : ℕ) → is_end b ≡ true → in_token q b ≡ false
end_stops q b h = ground arith

pub end-blank : (b : ℕ) → is_end b ≡ true → is_blank b ≡ false
end-blank b h = ground arith

end-quote : (b : ℕ) → is_end b ≡ true → (b == quote) ≡ false
end-quote b h = ground arith

-- The same end of a token is found on both lines.
unless_overflow_cong :
    (k k' : ℕ → Found) (o : Option ℕ)
    → ((x : ℕ) → o ≡ some x → k x ≡ k' x)
    → unless_overflow k o ≡ unless_overflow k' o
unless_overflow_cong k k' none h = refl
unless_overflow_cong k k' (some x) h = h x refl

unless_overflow-found :
    (k : ℕ → Found) (o : Option ℕ) (e : ℕ)
    → unless_overflow k o ≡ found e
    → (x : ℕ) × (o ≡ some x) × (k x ≡ found e)
unless_overflow-found k none e h = absurd (cc)
unless_overflow-found k (some x) e h = (x, refl, h)

pub inc_up : (i r : ℕ) → inc_index_test_overflow i ≡ some r → r ≡ i + 1
unfolding inc_index_test_overflow
inc_up i r h = go (index_test_overflow (i + 1)) h
  where
    go : (c : Bool) → (if c then none else some (i + 1)) ≡ some r → r ≡ i + 1
    go true e = absurd (cc)
    go false e = sym (some_inj e)

-- Where the first loop of a token begins
inner_between :
    (q : Bool) (s r m : ℕ)
    → s < m
    → (if q then inc_index_test_overflow s else some s) ≡ some r
    → (s ≤ r) × (r ≤ m)
inner_between true s r m l h = let e = inc_up s r h in (omega (arith, e), omega (arith, e, l))
inner_between false s r m l h = let e = some_inj h in (omega (arith, e), omega (arith, e, l))

-- `token_end` in its parts: what follows the second loop, with the byte at which it stops, and what
-- follows the opening quote
abbrev last_part : Bool → ℕ → ℕ → Found
last_part q byte last =
    if q && not (byte == quote)
    then failed tok_string
    else unless_overflow found (if byte == quote then inc_index_test_overflow last else some last)

abbrev inner_part : Bool → List ℕ → ℕ → Found
inner_part q line inner =
    unless_overflow (λ last. last_part q (byte_at line last) last)
      (step_from (in_token q) line inner)

abbrev whole : ℕ → Bool → List ℕ → Found
whole s q line =
    unless_overflow (inner_part q line) (if q then inc_index_test_overflow s else some s)

-- The place that closes a token
last_between :
    (q : Bool) (byte last e m : ℕ)
    → last ≤ m
    → (byte == quote ≡ true → last < m)
    → last_part q byte last ≡ found e
    → (last ≤ e) × (e ≤ m)
last_between q byte last e m l before h = go (q && not (byte == quote)) h
  where
    quoted :
        (c : Bool)
        → byte == quote ≡ c
        → (x : ℕ) → (if c then inc_index_test_overflow last else some last) ≡ some x
        → (last ≤ x) × (x ≤ m)
    quoted true w x k =
        let up = inc_up last x k in
        let room = before w in (omega (arith, up), omega (arith, up, room))
    quoted false w x k = let here = some_inj k in (omega (arith, here), omega (arith, here, l))

    found_inj : {x y : ℕ} → found x ≡ found y → x ≡ y
    found_inj k = cc

    go :
        (c : Bool)
        → (if c
            then failed tok_string
            else unless_overflow found
                (if byte == quote then inc_index_test_overflow last else some last))
          ≡ found e
        → (last ≤ e) × (e ≤ m)
    go true k = absurd (cc)
    go false k =
        let (x, at, here) = unless_overflow-found found _ e k in
        let (low, high) = quoted (byte == quote) refl x at in
        let same = found_inj here in (omega (arith, low, same), omega (arith, high, same))

module _ (m : ℕ) (a b : List ℕ) (ends : Ends m a) (same : Agree (suc m) a b) where
  same_m : Agree m a b
  same_m j l = same j (omega arith)

  pub step_from_same :
      (test : ℕ → Bool) (i : ℕ)
      → i ≤ m
      → test (byte_at a m) ≡ false
      → step_from test a i ≡ step_from test b i
  step_from_same test i l stop = step_while_same test (255 - i) a b m i l stop same_m

  pub token_end_same : (s : ℕ) → s < m → token_end a s ≡ token_end b s
  unfolding token_end
  token_end_same s l =
      let q = byte_at b s == quote in
      ap (λ x. whole s (x == quote) a) (same_m s (omega arith))
      ∙ unless_overflow_cong (inner_part q a) (inner_part q b)
          (if q then inc_index_test_overflow s else some s)
          (λ inner e.
            let (low, high) = inner_between q s inner m l e in
            let stop = end_stops q (byte_at a m) ends.0 in
            unless_overflow_cong _ _ (step_from (in_token q) a inner) (λ last e'.
              let (low', high') =
                step_while_between (in_token q) (255 - inner) a m inner last high stop e' in
              ap (λ x. last_part q x last) (same_m last high'))
            ∙ ap (unless_overflow (λ last. last_part q (byte_at b last) last))
                (step_from_same (in_token q) inner high stop))

  pub token_end_between : (s e : ℕ) → s < m → token_end a s ≡ found e → (s ≤ e) × (e ≤ m)
  unfolding token_end
  token_end_between s e l h =
      let q = byte_at a s == quote in
      let (inner, at, h') = unless_overflow-found (inner_part q a) _ e h in
      let (low, high) = inner_between q s inner m l at in
      let stop = end_stops q (byte_at a m) ends.0 in
      let (last, at', h'') =
        unless_overflow-found (λ last. last_part q (byte_at a last) last) _ e h' in
      let (low', high') =
        step_while_between (in_token q) (255 - inner) a m inner last high stop at' in
      let (low'', high'') =
        last_between q (byte_at a last) last e m high' (before last high') h'' in
      (omega (arith, low, low', low''), high'')
    where
      before : (last : ℕ) → last ≤ m → byte_at a last == quote ≡ true → last < m
      before last l' w = go (ℕ_discrete last m)
        where
          clash : {c : Bool} → c ≡ true → c ≡ false → ⊥
          clash e1 e2 = cc

          go : Dec (last ≡ m) → last < m
          go (yes here) =
              absurd
                (clash w (ap (λ x. byte_at a x == quote) here ∙ end-quote (byte_at a m) ends.0))
          go (no ne) = omega arith
