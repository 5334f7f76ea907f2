-- ===== src/AutoCode/GlobalError/Kept.antt =====
-- The catalogue stays well formed, and its entries keep their numbers.
use task_mate.Common.{
  ℕ, ◌+◌, ◌-◌, ◌≤◌, ◌≡◌, refl, sym, ap, ◌∙◌, Bool, true, false, ◌||◌, Option, none, some, List, [],
  ◌∷◌, ◌++◌, append-nil, append_assoc, arith, leb, if◌then◌else◌, length, All, length-append,
}
use task_mate.AutoCode.AddModule.{same_text}
use task_mate.AutoCode.AddModule.Kept.{same_text_comm, All-append_one}
use task_mate.AutoCode.ParseTag.{autocode_size_buffer}
use task_mate.AutoCode.GlobalError.{
  ErrLevel, flow, warn, fail, panic, ErrorItem, globalerror_count_max, autocode_size_buffer,
  empty_message, has_error, level_of, err_levels, add_error, is_comment, error_line, global_error,
}
use task_mate.AutoCode.AddModule.{row_of}
use task_mate.TmLibc.Str.{Text}

-- No two entries have a name in common.
unfoldable pub IsDistinct : List ErrorItem → Type 0
IsDistinct [] = Unit {0}
IsDistinct (item ∷ items) = (has_error item.name items ≡ false) × IsDistinct items

-- An entry fits its fields, and a flow error has no message.
abbrev pub IsEntry : ErrorItem → Type 0
IsEntry item =
    (length item.name ≤ 254)
    × (length item.message ≤ 254)
    × (item.level ≡ flow → same_text item.message empty_message ≡ true)

abbrev pub IsCatalog : List ErrorItem → Type 0
IsCatalog catalog = (length catalog ≤ 256) × IsDistinct catalog × All IsEntry catalog

-- The catalogue is well formed, and begins with the one before.
abbrev pub IsExtended : List ErrorItem → List ErrorItem → Type 0
IsExtended before after = IsCatalog after × ((more : List ErrorItem) × (after ≡ before ++ more))

unless :
    (b : Bool) (c d : List ErrorItem)
    → IsCatalog c
    → (b ≡ false → IsExtended c d)
    → IsExtended c (if b then c else d)
unless true c d ok k = (ok, ([], sym (append-nil c)))
unless false c d ok k = k refl

has_error-append :
    (name : Text) (items : List ErrorItem) (item : ErrorItem)
    → has_error name items ≡ false
    → same_text name item.name ≡ false
    → has_error name (items ++ item ∷ []) ≡ false
unfolding has_error
has_error-append name [] item h e = rw e refl
has_error-append name (x ∷ xs) item h e =
    go (same_text name x.name) h (λ rest. has_error-append name xs item rest e)
  where
    go :
        (b : Bool)
        → (if b then true else has_error name xs) ≡ false
        → (has_error name xs ≡ false → has_error name (xs ++ item ∷ []) ≡ false)
        → (if b then true else has_error name (xs ++ item ∷ [])) ≡ false
    go true h' k = absurd (cc)
    go false h' k = k h'

IsDistinct-append :
    (items : List ErrorItem) (item : ErrorItem)
    → IsDistinct items
    → has_error item.name items ≡ false
    → IsDistinct (items ++ item ∷ [])
unfolding IsDistinct has_error
IsDistinct-append [] item distinct h = (refl, tt)
IsDistinct-append (x ∷ xs) item (alone, distinct) h =
    let (differs, rest) = parts (same_text item.name x.name) (has_error item.name xs) h in
    (
      has_error-append x.name xs item alone (same_text_comm x.name item.name ∙ differs),
      IsDistinct-append xs item distinct rest,
    )
  where
    parts : (b c : Bool) → (if b then true else c) ≡ false → (b ≡ false) × (c ≡ false)
    parts b c e = (ground arith, ground arith)

-- The level is that of a flow error only when the message is empty.
level_of-flow :
    (message text : Text)
    → level_of message text ≡ some flow
    → same_text message empty_message ≡ true
unfolding level_of
level_of-flow message text = go (row_of text err_levels)
  where
    go :
        (o : Option ErrLevel)
        → (elim o [
          | none ↦ none
          | some flow ↦ if same_text message empty_message then some flow else none
          | some warn ↦ some warn
          | some fail ↦ some fail
          | some panic ↦ some panic
        ])
          ≡ some flow
        → same_text message empty_message ≡ true
    go none h = absurd (cc)
    go (some flow) h = flow_only (same_text message empty_message) h
      where
        flow_only : (b : Bool) → (if b then some flow else none) ≡ some flow → b ≡ true
        flow_only true e = refl
        flow_only false e = absurd (cc)
    go (some warn) h = absurd (cc)
    go (some fail) h = absurd (cc)
    go (some panic) h = absurd (cc)

add_error-IsExtended :
    (name message level : Text) (c : List ErrorItem)
    → IsCatalog c
    → IsExtended c (add_error name message level c)
unfolding add_error
add_error-IsExtended name message level c (size, distinct, entries) =
    unless (leb globalerror_count_max (length c)) c _ (size, distinct, entries)
      (λ free.
        unless (has_error name c) c _ (size, distinct, entries)
          (λ alone.
            unless
              (leb (autocode_size_buffer - 1) (length name)
                || leb (autocode_size_buffer - 1) (length message))
              c _ (size, distinct, entries)
              (λ fits.
                go (level_of message level) refl free alone
                  (names (length name) (length message) fits))))
  where
    names : (n m : ℕ) → (leb 255 n || leb 255 m) ≡ false → (n ≤ 254) × (m ≤ 254)
    names n m e = (ground arith, ground arith)

    go :
        (o : Option ErrLevel)
        → level_of message level ≡ o
        → leb globalerror_count_max (length c) ≡ false
        → has_error name c ≡ false
        → (length name ≤ 254) × (length message ≤ 254)
        → IsExtended c (elim o [
          | none ↦ c
          | some l ↦ c ++ record { name = name; message = message; level = l } ∷ []
        ])
    go none e free alone fits = ((size, distinct, entries), ([], sym (append-nil c)))
    go (some l) e free alone (n, m) =
        let item : ErrorItem = record { name = name; message = message; level = l } in
        let longer : length (c ++ item ∷ []) ≡ length c + 1 = length-append c (item ∷ []) in
        (
          (
            ground arith,
            IsDistinct-append c item distinct alone,
            All-append_one IsEntry c item entries
                (n, m, λ is_flow. level_of-flow message level (e ∙ ap some is_flow)),
          ),
          (item ∷ [], refl),
        )

same_catalog : (c : List ErrorItem) → IsCatalog c → IsExtended c c
same_catalog c ok = (ok, ([], sym (append-nil c)))

error_line-IsExtended :
    (line : Option (List Text)) (c : List ErrorItem)
    → IsCatalog c
    → IsExtended c (error_line line c)
unfolding error_line
error_line-IsExtended none c ok = same_catalog c ok
error_line-IsExtended (some []) c ok = same_catalog c ok
error_line-IsExtended (some (name ∷ [])) c ok = same_catalog c ok
error_line-IsExtended (some (name ∷ message ∷ [])) c ok = same_catalog c ok
error_line-IsExtended (some (name ∷ message ∷ level ∷ [])) c ok =
    unless (is_comment name) c _ ok (λ h. add_error-IsExtended name message level c ok)
error_line-IsExtended (some (name ∷ message ∷ level ∷ more ∷ rest)) c ok = same_catalog c ok

-- On a well-formed catalogue, whatever the lines of a file say, the catalogue stays well formed: it
-- has at most 256 entries, whose names differ, whose names and messages have at most 254 bytes, and
-- whose flow errors have no message; and the entries that it had keep their numbers.
pub global_error-IsExtended :
    (lines : List (Option (List Text))) (c : List ErrorItem)
    → IsCatalog c
    → IsExtended c (global_error lines c)
unfolding global_error
global_error-IsExtended [] c ok = same_catalog c ok
global_error-IsExtended (line ∷ lines) c ok =
    let (ok', (more, e)) = error_line-IsExtended line c ok in
    let (ok'', (more', e')) = global_error-IsExtended lines (error_line line c) ok' in
    (ok'', (more ++ more', e' ∙ ap (λ x. x ++ more') e ∙ append_assoc c more more'))
