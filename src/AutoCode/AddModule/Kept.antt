-- ===== src/AutoCode/AddModule/Kept.antt =====
-- The database of the modules over the lines of init.rc.
use task_mate.Common.{
  ℕ, ◌+◌, ◌≤◌, ◌<◌, ◌≡◌, refl, ap₂, ◌∙◌, inl, inr, Bool, true, false, not, Option, none, some, List,
  [], ◌∷◌, ◌++◌, arith, leb, ◌==◌, if◌then◌else◌, Bool-cases, length, All, length-append,
}
use task_mate.AutoCode.AddModule.{
  ScliEntry, driver, service, task, Database, ModuleItem, ModuleType, has_name, module_add,
  same_text, Text, with_list, list_of, add_typed, initrc_add_module, OptionCount, row_of,
  module_options_validate, module_types, module_options_parse, module_init,
}
use task_mate.AutoCode.AddModule.Checked.{
  IsDriverModule, IsModule, IsThreadModule, IsSettings, named-IsModule,
  module_options_parse-IsSettings,
}

-- No two modules of a list have a name in common.
unfoldable pub IsDistinct : List ModuleItem → Type 0
IsDistinct [] = Unit {0}
IsDistinct (m ∷ ms) = (has_name m.name ms ≡ false) × IsDistinct ms

-- The counts agree with the lists and the maximum, the names differ, and each module is fit for the
-- target.
abbrev pub IsDatabase : Database → Type 0
IsDatabase db =
    (db.module_count ≡ length db.drivers + length db.threads)
    × (db.module_count ≤ db.module_count_max)
    × IsDistinct db.drivers
    × IsDistinct db.threads
    × All IsDriverModule db.drivers
    × All IsThreadModule db.threads

pub same_text_comm : (a b : Text) → same_text a b ≡ same_text b a
unfolding same_text
same_text_comm [] [] = refl
same_text_comm [] (y ∷ ys) = refl
same_text_comm (x ∷ xs) [] = refl
same_text_comm (x ∷ xs) (y ∷ ys) =
    let swapped : (x == y) ≡ (y == x) = ground arith in
    ap₂ (λ c r. if c then r else false) swapped (same_text_comm xs ys)

has_name-append :
    (name : Text) (ms : List ModuleItem) (m : ModuleItem)
    → has_name name ms ≡ false
    → same_text m.name name ≡ false
    → has_name name (ms ++ m ∷ []) ≡ false
unfolding has_name
has_name-append name [] m h e = rw e refl
has_name-append name (x ∷ xs) m h e = elim (Bool-cases (same_text x.name name)) [
  | inl found ↦ absurd (clash (same_text x.name name) (has_name name xs) found h)
  | inr other ↦
      rw other
        (has_name-append name xs m (rest (same_text x.name name) (has_name name xs) other h) e)
]
  where
    clash : (b c : Bool) → b ≡ true → (if b then true else c) ≡ false → ⊥
    clash b c e1 e2 = ground arith

    rest : (b c : Bool) → b ≡ false → (if b then true else c) ≡ false → c ≡ false
    rest b c e1 e2 = ground arith

IsDistinct-append :
    (ms : List ModuleItem) (m : ModuleItem)
    → IsDistinct ms
    → has_name m.name ms ≡ false
    → IsDistinct (ms ++ m ∷ [])
unfolding IsDistinct has_name
IsDistinct-append [] m distinct h = (refl, tt)
IsDistinct-append (x ∷ xs) m (alone, distinct) h =
    let (differs, rest) = parts (same_text x.name m.name) (has_name m.name xs) h in
    (
      has_name-append x.name xs m alone (same_text_comm m.name x.name ∙ differs),
      IsDistinct-append xs m distinct rest,
    )
  where
    parts : (b c : Bool) → (if b then true else c) ≡ false → (b ≡ false) × (c ≡ false)
    parts b c e = (ground arith, ground arith)

pub All-append_one :
    {A : Type 0} (P : A → Type 0) (xs : List A) (x : A) → All P xs → P x → All P (xs ++ x ∷ [])
All-append_one P [] x all p = (p, tt)
All-append_one P (y ∷ ys) x (q, all) p = (q, All-append_one P ys x all p)

-- What a module does not reach
abbrev pub settings_of : Database → Bool × ℕ × ℕ × Bool × List ScliEntry
settings_of db =
    (db.module_count_set, db.error_count_max, db.error_count, db.error_count_set, db.scli)

-- What a command does to the database: it keeps it well formed, and adds one module, or reports an
-- error and leaves it as it was.
abbrev pub IsAdded : Database → Database × Bool → Type 0
IsAdded db r =
    IsDatabase r.0
    × (r.1 ≡ false → r.0 ≡ db)
    × (r.1 ≡ true → r.0.module_count ≡ db.module_count + 1)
    × (settings_of r.0 ≡ settings_of db)

refused : (db : Database) → IsDatabase db → IsAdded db (db, false)
refused db d = (d, λ h. refl, λ h. absurd (cc), refl)

unless :
    (b : Bool) (db : Database) (r : Database × Bool)
    → IsDatabase db
    → (b ≡ false → IsAdded db r)
    → IsAdded db (if b then (db, false) else r)
unless true db r d k = refused db d
unless false db r d k = k refl

abbrev added : ModuleType → ModuleItem → Database → Database
added t m db = record (with_list t (list_of t db ++ m ∷ []) db) {
  module_count = db.module_count + 1;
}

thread-IsAdded :
    (m : ModuleItem) (db : Database)
    → IsDatabase db
    → IsThreadModule m
    → has_name m.name db.threads ≡ false
    → db.module_count < db.module_count_max
    → IsAdded db (added service m db, true)
thread-IsAdded m db (count, room, ds, ts, d_ok, t_ok) ok alone l =
    let size : length (db.threads ++ m ∷ []) ≡ length db.threads + 1 =
      length-append db.threads (m ∷ []) in
    (
      (
        omega arith,
        omega arith,
        ds,
        IsDistinct-append db.threads m ts alone,
        d_ok,
        All-append_one IsThreadModule db.threads m t_ok ok,
      ),
      λ h. absurd (cc),
      λ h. refl,
      refl,
    )

added-IsAdded :
    (t : ModuleType) (m : ModuleItem) (db : Database)
    → IsDatabase db
    → IsModule t m
    → has_name m.name (list_of t db) ≡ false
    → db.module_count < db.module_count_max
    → IsAdded db (added t m db, true)
added-IsAdded driver m db (count, room, ds, ts, d_ok, t_ok) ok alone l =
    let size : length (db.drivers ++ m ∷ []) ≡ length db.drivers + 1 =
      length-append db.drivers (m ∷ []) in
    (
      (
        omega arith,
        omega arith,
        IsDistinct-append db.drivers m ds alone,
        ts,
        All-append_one IsDriverModule db.drivers m d_ok ok,
        t_ok,
      ),
      λ h. absurd (cc),
      λ h. refl,
      refl,
    )
added-IsAdded service m db d ok alone l = thread-IsAdded m db d ok alone l
added-IsAdded task m db d ok alone l = thread-IsAdded m db d ok alone l

module_add-IsAdded :
    (t : ModuleType) (name : Text) (m : ModuleItem) (db : Database)
    → IsDatabase db
    → (length name ≤ 30 → IsModule t (record m { name = name }))
    → IsAdded db (module_add t name m db)
unfolding module_add
module_add-IsAdded t name m db d ok = unless (leb 31 (length name)) db _ d (λ short.
    unless (has_name name (list_of t db)) db _ d (λ alone.
      unless (leb db.module_count_max db.module_count) db _ d (λ free.
        added-IsAdded t (record m { name = name }) db d (ok (ground arith)) alone (ground arith))))

module _ (strtoul : ℕ → Text → ℕ × Bool) (source_exists : Bool → Text → Bool) where
  add_typed-IsAdded :
      (tokens : List Text) (name : Text) (t : ModuleType) (db : Database)
      → IsDatabase db
      → IsAdded db (add_typed strtoul source_exists tokens name t db)
  unfolding add_typed
  add_typed-IsAdded tokens name t db d =
      go (module_options_parse strtoul source_exists tokens (module_init t)) refl
    where
      checked :
          (m : ModuleItem) (c : OptionCount) (valid : Bool)
          → module_options_validate t c ≡ valid
          → IsSettings m c
          → IsAdded db (if valid then module_add t name m db else (db, false))
      checked m c true h settings =
          module_add-IsAdded t name m db d (named-IsModule t m c name settings h)
      checked m c false h settings = refused db d

      go :
          (o : Option (ModuleItem × OptionCount))
          → module_options_parse strtoul source_exists tokens (module_init t) ≡ o
          → IsAdded db (elim o [
            | none ↦ (db, false)
            | some (m, counts) ↦
                if module_options_validate t counts then module_add t name m db else (db, false)
          ])
      go none h = refused db d
      go (some (m, c)) h =
          checked m c (module_options_validate t c) refl
            (module_options_parse-IsSettings strtoul source_exists tokens t m c h)

  -- On a well-formed database, a line `addModule` with any tokens, whatever numbers and paths they
  -- name, either adds one module or reports an error and leaves the database as it was, and the
  -- database stays well formed: the count is that of the two lists and within the maximum, the
  -- names of a list differ and have at most 30 bytes, every level is one of the five, every driver
  -- has a bus address up to 0x7e or none and no stack, and every thread has no address and a stack
  -- of 1 to 65535 bytes. The errors and the commands of the database stay.
  pub initrc_add_module-IsAdded :
      (tokens : List Text) (db : Database)
      → IsDatabase db
      → IsAdded db (initrc_add_module strtoul source_exists tokens db)
  unfolding initrc_add_module
  initrc_add_module-IsAdded [] db d = refused db d
  initrc_add_module-IsAdded (command ∷ []) db d = refused db d
  initrc_add_module-IsAdded (command ∷ type_name ∷ []) db d = refused db d
  initrc_add_module-IsAdded (command ∷ type_name ∷ name ∷ options) db d =
      unless (not db.module_count_set) db _ d (λ is_set. go (row_of type_name module_types))
    where
      go :
          (o : Option ModuleType)
          → IsAdded db (elim o [
            | none ↦ (db, false)
            | some t ↦
                add_typed strtoul source_exists (command ∷ type_name ∷ name ∷ options) name t db
          ])
      go none = refused db d
      go (some t) = add_typed-IsAdded (command ∷ type_name ∷ name ∷ options) name t db d
