-- ===== src/AutoCode/AddModule/Checked.antt =====
-- What the declared modules of the generator keep, whatever the lines of init.rc say.
use mathlib.Core.Option
use task_mate.Common.{
  ℕ, ◌%◌, ◌≤◌, ◌<◌, ◌≡◌, refl, subst, ◌⊎◌, inl, inr, Bool, true, false, not, ◌||◌, Option, none,
  some, List, [], ◌∷◌, arith, ltb, ◌==◌, if◌then◌else◌, u8, u16, some_inj, length, drop, All,
}
use task_mate.AutoCode.AddModule.{
  ModuleItem, row_of, OptionCount, apply_option, option_function, options_loop, same_text,
  ModuleOption, option_run, count_option, option_i2c, module_options, option_stack, is_empty,
  run_levels, source_dir, source_file, i2c, run, stack, ModuleType, fits_cardinality,
  module_options_parse, module_options_validate, cardinality, driver, forbidden, module_init,
  required, no_options, service, task,
}
use task_mate.TmLibc.Str.{Text}

-- The settings of a module while its options are read, with how often each was set
abbrev pub IsSettings : ModuleItem → OptionCount → Type 0
IsSettings m c =
    (m.run_level ≤ 4)
    × (c.i2c_count ≡ 0 → m.address ≡ 0xff)
    × ((m.address ≤ 0x7e) ⊎ (m.address ≡ 0xff))
    × (c.stack_count ≡ 0 → m.stack_size ≡ 0)
    × (0 < c.stack_count → (0 < m.stack_size) × (m.stack_size ≤ 65535))

taken :
    {A : Type 0} (b : Bool) (x : A) (rest : Option A) {a : A}
    → (if b then some x else rest) ≡ some a
    → (x ≡ a) ⊎ (rest ≡ some a)
taken true x rest e = inl (some_inj e)
taken false x rest e = inr e

row_of-All :
    {A : Type 0} (P : A → Type 0) (text : Text) (rows : List (Text × A)) {a : A}
    → All (λ r. P r.1) rows
    → row_of text rows ≡ some a
    → P a
unfolding row_of
row_of-All P text [] all e = absurd (cc)
row_of-All P text ((name, x) ∷ rows) (p, all) e =
    elim (taken (same_text text name) x (row_of text rows) e) [
      | inl here ↦ subst P here p
      | inr there ↦ row_of-All P text rows all there
    ]

-- What a guarded result tells
guarded :
    {A : Type 0} (b : Bool) (x y : A)
    → (if b then none else some x) ≡ some y
    → (b ≡ false) × (x ≡ y)
guarded true x y e = absurd (cc)
guarded false x y e = (refl, some_inj e)

guarded' : {A : Type 0} (b : Bool) (x y : A) → (if b then some x else none) ≡ some y → x ≡ y
guarded' true x y e = some_inj e
guarded' false x y e = absurd (cc)

address_small :
    (empty whole : Bool) (address : ℕ)
    → (empty || not whole || ltb 0x7e address) ≡ false
    → u8 address ≤ 0x7e
address_small empty whole address e = let small : address ≤ 0x7e = ground arith in omega arith

stack_small :
    (empty whole : Bool) (size : ℕ)
    → (empty || not whole || size == 0 || ltb 65535 size) ≡ false
    → (0 < u16 size) × (u16 size ≤ 65535)
stack_small empty whole size e =
    let small : size ≤ 65535 = ground arith in
    let some_ : 0 < size = ground arith in (omega arith, omega arith)

abbrev Parsed : Type 0
Parsed = ModuleItem × OptionCount

both : {r r' : Parsed} → r ≡ r' → IsSettings r.0 r.1 → IsSettings r'.0 r'.1
both e settings = subst (λ r. IsSettings r.0 r.1) e settings

-- The end of `moduleOptionsParse`
abbrev outcome : Bool → ModuleItem × OptionCount × Bool → Option Parsed
outcome wrong (m, c, valid) = if wrong then none else if valid then some (m, c) else none

module _ (strtoul : ℕ → Text → ℕ × Bool) (source_exists : Bool → Text → Bool) where
  option_keeps :
      (option : ModuleOption) (dat : Text) (m m' : ModuleItem) (c : OptionCount)
      → IsSettings m c
      → option_function strtoul source_exists option dat m ≡ some m'
      → IsSettings m' (count_option option c)
  unfolding option_function option_run option_i2c option_stack
  option_keeps i2c dat m m' c (level, none_set, address, no_stack, stack_set) e =
      let (address', whole) = strtoul 16 dat in
      let (fine, same) =
        guarded (is_empty strtoul source_exists dat || not whole || ltb 0x7e address')
          (record m { address = u8 address' }) m' e in
      subst (λ x. IsSettings x (count_option i2c c)) same
        (
          level,
          λ zero_. absurd (omega arith),
          inl (address_small (is_empty strtoul source_exists dat) whole address' fine),
          no_stack,
          stack_set,
        )
  option_keeps run dat m m' c (level, none_set, address, no_stack, stack_set) e =
      go (row_of dat run_levels) refl e
    where
      go :
          (o : Option ℕ)
          → row_of dat run_levels ≡ o
          → Option.map (λ rl. record m { run_level = rl }) o ≡ some m'
          → IsSettings m' (count_option run c)
      go none h e' = absurd (cc)
      go (some rl) h e' =
          subst (λ x. IsSettings x (count_option run c)) (some_inj e')
            (
              row_of-All (λ l. l ≤ 4) dat run_levels (ground arith) h,
              none_set,
              address,
              no_stack,
              stack_set,
            )
  option_keeps source_dir dat m m' c settings e =
      subst (λ x. IsSettings x (count_option source_dir c))
        (guarded' (source_exists true dat) m m' e) settings
  option_keeps source_file dat m m' c settings e =
      subst (λ x. IsSettings x (count_option source_file c))
        (guarded' (source_exists false dat) m m' e) settings
  option_keeps stack dat m m' c (level, none_set, address, no_stack, stack_set) e =
      let (size, whole) = strtoul 10 dat in
      let (fine, same) =
        guarded (is_empty strtoul source_exists dat || not whole || size == 0 || ltb 65535 size)
          (record m { stack_size = u16 size }) m' e in
      subst (λ x. IsSettings x (count_option stack c)) same
        (
          level,
          none_set,
          address,
          (λ zero_. absurd (omega arith)),
          (λ set_. stack_small (is_empty strtoul source_exists dat) whole size fine),
        )

  -- The same of the state of the loop
  abbrev Keeps : ModuleItem × OptionCount × Bool → Type 0
  Keeps r = IsSettings r.0 r.1

  apply_option-Keeps :
      (name dat : Text) (state : ModuleItem × OptionCount × Bool)
      → Keeps state
      → Keeps (apply_option strtoul source_exists name dat state)
  unfolding apply_option
  apply_option-Keeps name dat (m, c, valid) settings = go (row_of name module_options)
    where
      applied :
          (option : ModuleOption) (o : Option ModuleItem)
          → option_function strtoul source_exists option dat m ≡ o
          → Keeps (elim o [ none ↦ (m, c, false) | some m' ↦ (m', count_option option c, valid) ])
      applied option none e = settings
      applied option (some m') e = option_keeps option dat m m' c settings e

      go :
          (o : Option ModuleOption)
          → Keeps (elim o [
            | none ↦ (m, c, false)
            | some option ↦ elim (option_function strtoul source_exists option dat m) [
              | none ↦ (m, c, false)
              | some m' ↦ (m', count_option option c, valid)
            ]
          ])
      go none = settings
      go (some option) = applied option (option_function strtoul source_exists option dat m) refl

  options_loop-Keeps :
      (tokens : List Text) (state : ModuleItem × OptionCount × Bool)
      → Keeps state
      → Keeps (options_loop strtoul source_exists tokens state)
  unfolding options_loop
  options_loop-Keeps [] state settings = settings
  options_loop-Keeps (name ∷ []) state settings = settings
  options_loop-Keeps (name ∷ dat ∷ rest) state settings =
      options_loop-Keeps rest (apply_option strtoul source_exists name dat state)
        (apply_option-Keeps name dat state settings)

  -- What `moduleOptionsParse` gives for a module that has its initial settings
  pub module_options_parse-IsSettings :
      (tokens : List Text) (t : ModuleType) (m : ModuleItem) (c : OptionCount)
      → module_options_parse strtoul source_exists tokens (module_init t) ≡ some (m, c)
      → IsSettings m c
  unfolding module_options_parse module_init
  module_options_parse-IsSettings tokens t m c e =
      go (ltb (length tokens) 5 || length tokens % 2 == 0)
        (options_loop strtoul source_exists (drop 3 tokens) (module_init t, no_options, true))
        (options_loop-Keeps (drop 3 tokens) (module_init t, no_options, true) first) e
    where
      first : IsSettings (module_init t) no_options
      first = (omega arith, λ h. refl, inr refl, λ h. refl, λ h. absurd (omega arith))

      go :
          (wrong : Bool) (r : ModuleItem × OptionCount × Bool)
          → Keeps r
          → outcome wrong r ≡ some (m, c)
          → IsSettings m c
      go true r settings h = absurd (cc)
      go false (m', c', true) settings h = both (some_inj h) settings
      go false (m', c', false) settings h = absurd (cc)

-- What the validation asks of the counts
validated :
    (t : ModuleType) (c : OptionCount)
    → module_options_validate t c ≡ true
    → (fits_cardinality (cardinality t i2c) c.i2c_count ≡ true)
      × (fits_cardinality (cardinality t stack) c.stack_count ≡ true)
unfolding module_options_validate
validated t c h = (ground arith, ground arith)

forbids : (n : ℕ) → fits_cardinality forbidden n ≡ true → n ≡ 0
unfolding fits_cardinality
forbids n h = ground arith

requires : (n : ℕ) → fits_cardinality required n ≡ true → 0 < n
unfolding fits_cardinality
requires n h = ground arith

-- A module as the generated tables of the target want it: a driver has a level, and an address of
-- the bus or none, and no stack; a thread has a level, no address, and a stack of 1 to 65535 bytes.
abbrev pub IsDriverModule : ModuleItem → Type 0
IsDriverModule m =
    (m.run_level ≤ 4)
    × ((m.address ≤ 0x7e) ⊎ (m.address ≡ 0xff))
    × (m.stack_size ≡ 0)
    × (length m.name ≤ 30)

abbrev pub IsThreadModule : ModuleItem → Type 0
IsThreadModule m =
    (m.run_level ≤ 4)
    × (m.address ≡ 0xff)
    × (0 < m.stack_size)
    × (m.stack_size ≤ 65535)
    × (length m.name ≤ 30)

abbrev pub IsModule : ModuleType → ModuleItem → Type 0
IsModule driver m = IsDriverModule m
IsModule _ m = IsThreadModule m

pub named-IsModule :
    (t : ModuleType) (m : ModuleItem) (c : OptionCount) (name : Text)
    → IsSettings m c
    → module_options_validate t c ≡ true
    → length name ≤ 30
    → IsModule t (record m { name = name })
named-IsModule driver m c name (level, no_i2c, address, no_stack, stack_set) h short =
    let (i2c_fits, stack_fits) = validated driver c h in
    (level, address, no_stack (forbids c.stack_count stack_fits), short)
named-IsModule service m c name (level, no_i2c, address, no_stack, stack_set) h short =
    let (i2c_fits, stack_fits) = validated service c h in
    let (more, less) = stack_set (requires c.stack_count stack_fits) in
    (level, no_i2c (forbids c.i2c_count i2c_fits), more, less, short)
named-IsModule task m c name (level, no_i2c, address, no_stack, stack_set) h short =
    let (i2c_fits, stack_fits) = validated task c h in
    let (more, less) = stack_set (requires c.stack_count stack_fits) in
    (level, no_i2c (forbids c.i2c_count i2c_fits), more, less, short)
