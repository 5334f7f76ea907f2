-- ===== src/SysCall/Threads/Names.antt =====
-- `sc_threadGetId`: the first thread of the catalogue whose name agrees with the one asked for.
use task_mate.Common.{
  ℕ, zero, suc, ◌+◌, ◌<◌, ◌≡◌, refl, sym, subst, ◌↔◌, inl, inr, true, false, Option, none, some, [],
  ◌∷◌, arith, Bool-cases, Option-cases, some_inj, get_elem?, take, All, ℤ, is_zero, pos, negsuc,
}
use task_mate.TmLibc.Str.{Text, IsText, strncmp}
use task_mate.TmLibc.Str.Compare.{strncmp_zero_iff}
use task_mate.SysCall.Threads.{Catalog, find_name, get_id, mod_name_size_max}

abbrev pub IsName : Option Text → Type 0
IsName none = Unit
IsName (some n) = IsText n

-- Entry `i` has a name that agrees with `name` in the first 32 bytes.
abbrev pub Names : Catalog → ℕ → Text → Type 0
Names catalog i name =
    (n : Text) × (get_elem? catalog i ≡ some (some n))
    × (take mod_name_size_max n ≡ take mod_name_size_max name)

-- What a search that started at number `i` says of the entries that it went through.
abbrev Found : Catalog → Text → ℕ → Option ℕ → Type 0
Found catalog name i none = (j : ℕ) → ¬ (Names catalog j name)
Found catalog name i (some r) =
    (d : ℕ) × (r ≡ i + d) × Names catalog d name × ((j : ℕ) → j < d → ¬ (Names catalog j name))

Found-later :
    (entry : Option Text) (rest : Catalog) (name : Text) (i : ℕ) (r : Option ℕ)
    → ¬ (Names (entry ∷ rest) 0 name)
    → Found rest name (suc i) r
    → Found (entry ∷ rest) name i r
Found-later entry rest name i none no_head f = other
  where
    other : (j : ℕ) → ¬ (Names (entry ∷ rest) j name)
    other zero = no_head
    other (suc j) = f j
Found-later entry rest name i (some r) no_head (d, e, m, first) = (suc d, omega arith, m, other)
  where
    other : (j : ℕ) → j < suc d → ¬ (Names (entry ∷ rest) j name)
    other zero h = no_head
    other (suc j) h = first j (omega arith)

is_zero_iff : (z : ℤ) → (is_zero z ≡ true) ↔ (z ≡ pos 0)
is_zero_iff (pos n) = (λ h. ground arith, λ h. ground arith)
is_zero_iff (negsuc n) = (λ h. cc, λ h. cc)

find_name-Found :
    (catalog : Catalog) (name : Text) (i : ℕ)
    → All IsName catalog
    → IsText name
    → Found catalog name i (find_name i catalog name)
unfolding find_name
find_name-Found [] name i c t = λ j m. cc m.1
find_name-Found (none ∷ rest) name i c t =
    Found-later none rest name i _ (λ m. cc m.1) (find_name-Found rest name (suc i) c.1 t)
find_name-Found (some n ∷ rest) name i c t =
    elim (Bool-cases (is_zero (strncmp n name mod_name_size_max))) [
      | inl e ↦
          rw e
            (0, omega arith, (n, refl, same.0 ((is_zero_iff _).0 e)), λ j h. absurd (omega arith))
      | inr e ↦ rw e (
          Found-later (some n) rest name i _ (λ m. differ e m)
            (find_name-Found rest name (suc i) c.1 t))
    ]
  where
    same : (strncmp n name 32 ≡ pos 0) ↔ (take mod_name_size_max n ≡ take mod_name_size_max name)
    same = strncmp_zero_iff 32 n name c.0 t

    differ : is_zero (strncmp n name 32) ≡ false → ¬ (Names (some n ∷ rest) 0 name)
    differ e (m, q, agrees) =
        let q' : m ≡ n = some_inj (some_inj (sym q)) in
        cc ((is_zero_iff (strncmp n name 32)).1 (same.1 (rw q' at agrees)))

-- `sc_threadGetId` answers with the number of the first entry whose name agrees with the given one
-- in its first 32 bytes, and with false exactly when there is none.
pub get_id_first :
    (catalog : Catalog) (name : Text)
    → All IsName catalog
    → IsText name
    → ((i : ℕ)
        → get_id catalog (some name) ≡ some i
        → Names catalog i name × ((j : ℕ) → j < i → ¬ (Names catalog j name)))
      × ((get_id catalog (some name) ≡ none) ↔ ((j : ℕ) → ¬ (Names catalog j name)))
unfolding get_id
get_id_first catalog name c t = (λ i e. hit i e, (λ e. miss e, λ nobody. empty nobody))
  where
    f : Found catalog name 0 (find_name 0 catalog name)
    f = find_name-Found catalog name 0 c t

    hit :
        (i : ℕ)
        → find_name 0 catalog name ≡ some i
        → Names catalog i name × ((j : ℕ) → j < i → ¬ (Names catalog j name))
    hit i e =
        let (d, q, m, first) = subst (Found catalog name 0) e f in
        let q' : i ≡ d = omega arith in rw q' (m, first)

    miss : find_name 0 catalog name ≡ none → (j : ℕ) → ¬ (Names catalog j name)
    miss e = subst (Found catalog name 0) e f

    empty : ((j : ℕ) → ¬ (Names catalog j name)) → find_name 0 catalog name ≡ none
    empty nobody = elim (Option-cases (find_name 0 catalog name)) [
      | inl e ↦ e
      | inr (i, e) ↦ absurd (nobody i (hit i e).0)
    ]
