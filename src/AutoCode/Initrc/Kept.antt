-- ===== src/AutoCode/Initrc/Kept.antt =====
-- The database over the lines of init.rc, and the two version commands before it.
use task_mate.Common.{
  ℕ, ◌≡◌, refl, sym, ap, ◌∙◌, Bool, true, false, not, ◌&&◌, ◌||◌, Option, none, some, List, [], ◌∷◌,
  arith, ltb, leb, ◌==◌, if◌then◌else◌, subst, ◌≤◌, ◌++◌, ◌+◌,
}
use task_mate.AutoCode.AddModule.{ScliEntry, Database, initrc_add_module, row_of, same_text}
use task_mate.AutoCode.AddModule.Kept.{
  All-append_one, settings_of, IsDatabase, initrc_add_module-IsAdded,
}
use task_mate.AutoCode.Initrc.{
  Version, Parse, Command, add_module, set_module_count_max, add_scli_command, set_error_count_max,
  autocode_count_sclimax, scli_command_definitions, add_command, has_command,
  initrc_add_scli_command, initrc_set_error_count_max, initrc_commands, is_empty,
  initrc_version_command, initrc_set_module_count_max, initrc_command_dispatch, parse_command,
  parse_line, lines_loop, parse_initrc, major_option, minor_option, go_on, comment,
  set_initrc_version, length, All, length-append,
}
use task_mate.AutoCode.GlobalError.{globalerror_count_max}
use task_mate.TmLibc.Str.{Text}

-- A command of the command line that the tool knows, with its function
abbrev pub IsKnown : ScliEntry → Type 0
IsKnown entry = row_of entry.command_name scli_command_definitions ≡ some entry.function

-- What does not belong to the modules: the errors fit their maximum once it is set, and the
-- commands fit their table and are known.
abbrev pub IsFilled : Bool × ℕ × ℕ × Bool × List ScliEntry → Type 0
IsFilled (module_set, max, count, is_set, scli) =
    (is_set ≡ true → count ≤ max) × (length scli ≤ 16) × All IsKnown scli

-- A well-formed database, without a module as long as its maximum is not set
abbrev pub IsOpened : Database → Type 0
IsOpened db =
    IsDatabase db × (db.module_count_set ≡ false → db.module_count ≡ 0) × IsFilled (settings_of db)

-- What the variables of the parser say on the way: the database is well formed, and it is the one at
-- the start as long as a version command is missing.
abbrev pub IsParsed : Database → Parse → Type 0
IsParsed start p =
    IsOpened p.data_base
    × (p.version_major_set && p.version_minor_set ≡ false → p.data_base ≡ start)

-- A maximum is only set on a database without modules.
counted-IsOpened :
    (b : Bool) (db : Database) (count width : ℕ)
    → IsOpened db
    → (b ≡ false → db.module_count_set ≡ false)
    → IsOpened (
        if b then db else record db {
          module_count_max = count;
          module_count_width = width;
          module_count_set = true;
        })
counted-IsOpened true db count width o h = o
counted-IsOpened false db count width ((size, room, ds, ts, d_ok, t_ok), before, filled) h =
    let none_yet : db.module_count ≡ 0 = before (h refl) in
    ((size, omega arith, ds, ts, d_ok, t_ok), λ e. absurd (cc), filled)

-- A maximum of the errors is one that they fit.
errors-IsOpened :
    (b : Bool) (db : Database) (count width : ℕ)
    → IsOpened db
    → (b ≡ false → ltb count db.error_count ≡ false)
    → IsOpened (
        if b then db else record db {
          error_count_max = count;
          error_count_width = width;
          error_count_set = true;
        })
errors-IsOpened true db count width o h = o
errors-IsOpened false db count width (d, before, (fit, table, known)) h =
    let few : ltb count db.error_count ≡ false = h refl in
    (d, before, (λ e. ground arith, table, known))

set_errors-IsOpened :
    (strtoul : ℕ → Text → ℕ × Bool) (tokens : List Text) (db : Database)
    → IsOpened db
    → IsOpened (initrc_set_error_count_max strtoul tokens db)
unfolding initrc_set_error_count_max
set_errors-IsOpened strtoul [] db o = o
set_errors-IsOpened strtoul (name ∷ []) db o = o
set_errors-IsOpened strtoul (name ∷ count_text ∷ []) db o =
    let (count, whole) = strtoul 10 count_text in
    let refused =
      is_empty count_text || not whole || count == 0 || ltb globalerror_count_max count in
    errors-IsOpened (db.error_count_set || refused || ltb count db.error_count) db count
      (if leb count 255 then 8 else 16) o
      (last db.error_count_set refused (ltb count db.error_count))
  where
    last : (a b c : Bool) → (a || b || c) ≡ false → c ≡ false
    last a b c h = ground arith
set_errors-IsOpened strtoul (name ∷ count_text ∷ more ∷ rest) db o = o

unless-IsOpened :
    (b : Bool) (db db' : Database)
    → IsOpened db
    → (b ≡ false → IsOpened db')
    → IsOpened (if b then db else db')
unless-IsOpened true db db' o k = o
unless-IsOpened false db db' o k = k refl

add_command-IsOpened :
    (name function : Text) (db : Database)
    → row_of name scli_command_definitions ≡ some function
    → IsOpened db
    → IsOpened (add_command name function db)
unfolding add_command
add_command-IsOpened name function db known (d, before, (fit, table, all)) =
    unless-IsOpened (has_command name db.scli) db _ (d, before, (fit, table, all))
      (λ alone.
        unless-IsOpened (leb autocode_count_sclimax (length db.scli)) db _
          (d, before, (fit, table, all))
          (λ free.
            let entry : ScliEntry = record { command_name = name; function = function } in
            let longer : length (db.scli ++ entry ∷ []) ≡ length db.scli + 1 =
              length-append db.scli (entry ∷ []) in
            (d, before, (fit, ground arith, All-append_one IsKnown db.scli entry all known))))

add_scli-IsOpened :
    (source_exists : Bool → Text → Bool) (tokens : List Text) (db : Database)
    → IsOpened db
    → IsOpened (initrc_add_scli_command source_exists tokens db)
unfolding initrc_add_scli_command
add_scli-IsOpened source_exists [] db o = o
add_scli-IsOpened source_exists (a ∷ []) db o = o
add_scli-IsOpened source_exists (a ∷ b ∷ []) db o = o
add_scli-IsOpened source_exists (a ∷ b ∷ c ∷ []) db o = o
add_scli-IsOpened source_exists (command ∷ name ∷ option ∷ source ∷ []) db o =
    unless-IsOpened _ db _ o (λ h. go (row_of name scli_command_definitions) refl)
  where
    go :
        (found : Option Text)
        → row_of name scli_command_definitions ≡ found
        → IsOpened (elim found [ none ↦ db | some function ↦ add_command name function db ])
    go none e = o
    go (some function) e = add_command-IsOpened name function db e o
add_scli-IsOpened source_exists (a ∷ b ∷ c ∷ d ∷ e ∷ rest) db o = o

abbrev IsStep : Database → Parse × Bool → Type 0
IsStep start r = IsParsed start r.0

branch :
    (b : Bool) (start : Database) (x y : Parse × Bool)
    → (b ≡ true → IsStep start x)
    → (b ≡ false → IsStep start y)
    → IsStep start (if b then x else y)
branch true start x y f g = f refl
branch false start x y f g = g refl

step-IsParsed :
    (start : Database) (k : Parse → Parse) (r : Parse × Bool)
    → IsStep start r
    → ((q : Parse) → IsParsed start q → IsParsed start (k q))
    → IsParsed start (go_on k r)
step-IsParsed start k (q, true) i h = h q i
step-IsParsed start k (q, false) i h = i

module _ (strtoul : ℕ → Text → ℕ × Bool) (source_exists : Bool → Text → Bool) where
  set_max-IsOpened :
      (tokens : List Text) (db : Database)
      → IsOpened db
      → IsOpened (initrc_set_module_count_max strtoul source_exists tokens db)
  unfolding initrc_set_module_count_max
  set_max-IsOpened [] db o = o
  set_max-IsOpened (name ∷ []) db o = o
  set_max-IsOpened (name ∷ count_text ∷ []) db o =
      let (count, whole) = strtoul 10 count_text in
      counted-IsOpened
        (db.module_count_set || is_empty count_text || not whole || count == 0 || ltb 65535 count)
        db count (if leb count 255 then 8 else 16) o
        (first db.module_count_set (is_empty count_text) (not whole) (count == 0) (ltb 65535 count))
    where
      first : (a b c d e : Bool) → (a || b || c || d || e) ≡ false → a ≡ false
      first a b c d e h = ground arith
  set_max-IsOpened (name ∷ count_text ∷ more ∷ rest) db o = o

  -- Without a maximum no module is declared.
  initrc_add_module-unset :
      (tokens : List Text) (db : Database)
      → db.module_count_set ≡ false
      → (initrc_add_module strtoul source_exists tokens db).0 ≡ db
  unfolding initrc_add_module
  initrc_add_module-unset [] db e = refl
  initrc_add_module-unset (command ∷ []) db e = refl
  initrc_add_module-unset (command ∷ type_name ∷ []) db e = refl
  initrc_add_module-unset (command ∷ type_name ∷ name ∷ options) db e = rw e refl

  added-IsOpened :
      (tokens : List Text) (db : Database)
      → IsOpened db
      → IsOpened (initrc_add_module strtoul source_exists tokens db).0
  added-IsOpened tokens db (d, before, filled) =
      let (kept, same, counted, fixed) =
        initrc_add_module-IsAdded strtoul source_exists tokens db d in
      (
        kept,
        λ unset.
            let same_db = initrc_add_module-unset tokens db (sym (ap (λ x. x.0) fixed) ∙ unset) in
            ap (λ x. x.module_count) same_db ∙ before (sym (ap (λ x. x.0) fixed) ∙ unset),
        subst IsFilled (sym fixed) filled,
      )

  dispatch-IsOpened :
      (name : Text) (tokens : List Text) (db : Database)
      → IsOpened db
      → IsOpened (initrc_command_dispatch strtoul source_exists name tokens db)
  unfolding initrc_command_dispatch
  dispatch-IsOpened name tokens db o = go (row_of name initrc_commands)
    where
      go :
          (found : Option Command)
          → IsOpened (elim found [
            | none ↦ db
            | some command ↦ elim command [
              | add_module ↦ (initrc_add_module strtoul source_exists tokens db).0
              | set_module_count_max ↦ initrc_set_module_count_max strtoul source_exists tokens db
              | add_scli_command ↦ initrc_add_scli_command source_exists tokens db
              | set_error_count_max ↦ initrc_set_error_count_max strtoul tokens db
            ]
          ])
      go none = o
      go (some add_module) = added-IsOpened tokens db o
      go (some set_module_count_max) = set_max-IsOpened tokens db o
      go (some add_scli_command) = add_scli-IsOpened source_exists tokens db o
      go (some set_error_count_max) = set_errors-IsOpened strtoul tokens db o

  command-IsParsed :
      (version : Version) (name : Text) (tokens : List Text) (start : Database) (p : Parse)
      → IsParsed start p
      → IsParsed start (parse_command strtoul source_exists version name tokens p).0
  unfolding parse_command
  command-IsParsed version name tokens start p (o, same) =
      branch (not p.version_major_set) start _ _
        (λ major.
          branch (initrc_version_command strtoul source_exists major_option version.major tokens)
            start _ _ (λ ok. (o, λ e. same (ground arith))) (λ bad. (o, same)))
        (λ major.
          branch (not p.version_minor_set) start _ _
            (λ minor.
              branch
                (initrc_version_command strtoul source_exists minor_option version.minor tokens)
                start _ _ (λ ok. (o, λ e. same (ground arith))) (λ bad. (o, same)))
            (λ minor.
              branch (same_text name set_initrc_version) start _ _ (λ again. (o, same))
                (λ other.
                  (dispatch-IsOpened name tokens p.data_base o, λ e. absurd (ground arith)))))

  line-IsParsed :
      (version : Version) (line : Option (List Text)) (start : Database) (p : Parse)
      → IsParsed start p
      → IsParsed start (parse_line strtoul source_exists version line p).0
  unfolding parse_line
  line-IsParsed version none start p i =
      branch (not p.version_major_set || not p.version_minor_set) start _ _ (λ e. i) (λ e. i)
  line-IsParsed version (some []) start p i = i
  line-IsParsed version (some (name ∷ rest)) start p i =
      branch (same_text name comment) start _ _ (λ e. i)
        (λ e. command-IsParsed version name (name ∷ rest) start p i)

  loop-IsParsed :
      (version : Version) (lines : List (Option (List Text))) (start : Database) (p : Parse)
      → IsParsed start p
      → IsParsed start (lines_loop strtoul source_exists version lines p)
  unfolding lines_loop
  loop-IsParsed version [] start p i = i
  loop-IsParsed version (line ∷ lines) start p i =
      step-IsParsed start (lines_loop strtoul source_exists version lines)
        (parse_line strtoul source_exists version line p) (line-IsParsed version line start p i)
        (λ q i'. loop-IsParsed version lines start q i')

  -- On a well-formed database without modules and without a maximum, whatever the lines of init.rc
  -- say and whatever numbers and paths they name, the database stays well formed: the count of the
  -- modules is that of the two lists and within the maximum, the names of a list differ, each module
  -- is fit for the target, no module is declared before the maximum, the errors fit their maximum once
  -- it is set, and there are at most 16 commands of the command line, all known. It is the one at the start
  -- unless both version commands were accepted.
  pub parse_initrc-IsParsed :
      (version : Version) (lines : List (Option (List Text))) (db : Database)
      → IsOpened db
      → IsParsed db (parse_initrc strtoul source_exists version lines db)
  unfolding parse_initrc
  parse_initrc-IsParsed version lines db o = loop-IsParsed version lines db _ (o, λ e. refl)
