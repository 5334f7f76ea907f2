-- ===== src/AutoCode/ParseTag/Again.antt =====
-- A source that was rewritten once is not changed by a second run.
use task_mate.Common.{
  ℕ, ◌+◌, ◌≡◌, refl, sym, subst, ap, ◌∙◌, ◌⊎◌, inl, inr, Bool, true, false, not, ◌||◌, Option, none,
  some, List, [], ◌∷◌, ◌++◌, arith, if◌then◌else◌, Bool-cases, get_or, set, All,
}
use task_mate.AutoCode.AddModule.{same_text}
use task_mate.AutoCode.ParseTag.{
  TagState, TagFiles, TagStep, first_line, is_overlong, has_marker, start_marker, end_marker,
  include_line, tag_index, tags_cmds, tag_cmd_dispatch, generated_file_name, reporting, failing,
  tag_written, start_section, start_line, copy_line, tag_words, write_on, tag_loop, ended,
  parse_tag,
}
use task_mate.AutoCode.ParseTag.Buffer.{IsLine}
use task_mate.AutoCode.ParseTag.Plain.{
  tag_index-All, plain_step, plain_loop, fresh_words, tag_loop-plain_loop, IsIncluded,
  include_line-IsLine, always, tags-IsIncluded,
}
use task_mate.TmLibc.Str.{Text}

-- Whether the run has met an error
abbrev pub is_bad : TagState → Bool
is_bad t = t.file_error || t.reported

All-append : (P : Text → Type 0) (xs ys : List Text) → All P xs → All P ys → All P (xs ++ ys)
All-append P [] ys ps qs = qs
All-append P (x ∷ xs) ys (p, ps) qs = (p, All-append P xs ys ps qs)

module _ (files : TagFiles) (enough_room : (n : ℕ) → files.room n ≡ true) where
  name-IsIncluded :
      (name : Text) (id : ℕ) → tag_index name tags_cmds ≡ some id → IsIncluded files.room name
  name-IsIncluded name id e =
      subst (λ room. IsIncluded room name) (λ i n. sym (enough_room n) i)
        (tag_index-All (IsIncluded always) name tags_cmds id tags-IsIncluded e)

  abbrev joined : List Text → List Text × TagState → List Text × TagState
  joined out (more, t) = (out ++ more, t)

  -- A step either meets an error, or goes on, does not hide one, writes lines, and does the same on
  -- what it has written.
  abbrev IsAgain : Text → TagState → TagStep → Type 0
  IsAgain line t (out, t', on) =
      (is_bad t' ≡ true)
      ⊎ ((on ≡ true)
          × (is_bad t ≡ true → is_bad t' ≡ true)
          × (IsLine line → All IsLine out)
          × ((more : List Text)
              → plain_loop files (out ++ more) t ≡ joined out (plain_loop files more t')))

  abbrev IsStep : Text → TagState → TagStep → Type 0
  IsStep line t s = plain_step files line t ≡ s → IsAgain line t s

  branch :
      (P : TagStep → Type 0) (b : Bool) (x y : TagStep)
      → (b ≡ true → P x)
      → (b ≡ false → P y)
      → P (if b then x else y)
  branch P true x y f g = f refl
  branch P false x y f g = g refl

  -- A line of a section is dropped, and outside of one a line is copied.
  copied_again :
      (line : Text) (t : TagState) (is_end : Bool) → IsStep line t (copy_line line is_end t)
  unfolding plain_loop
  copied_again line t true e = inr (refl, λ h. h, λ one. (one, tt), λ more. rw e refl)
  copied_again line t false e = go t.tag_section e
    where
      go :
          (b : Bool)
          → plain_step files line t ≡ ((if b then [] else line ∷ []), t, true)
          → IsAgain line t ((if b then [] else line ∷ []), t, true)
      go true h = inr (refl, λ bad. bad, λ one. tt, λ more. refl)
      go false h = inr (refl, λ bad. bad, λ one. (one, tt), λ more. rw h refl)

  -- In a section the line with the fragment is dropped.
  include_dropped :
      (name : Text) (t : TagState)
      → IsIncluded files.room name
      → t.tag_section ≡ true
      → plain_step files (include_line name) t ≡ ([], t, true)
  unfolding plain_step has_marker same_text
  include_dropped name t (tokens, fits, e, plain) section = rw (fits, tokens) (rw section refl)

  started_again :
      (line name : Text) (t t' : TagState)
      → IsIncluded files.room name
      → t'.tag_section ≡ true
      → plain_step files line t ≡ (line ∷ include_line name ∷ [], t', true)
      → (more : List Text)
      → plain_loop files (line ∷ include_line name ∷ more) t
        ≡ joined (line ∷ include_line name ∷ []) (plain_loop files more t')
  unfolding plain_loop
  started_again line name t t' words_ section e more =
      rw e (rw (include_dropped name t' words_ section) refl)

  clash : {b : Bool} → b ≡ true → b ≡ false → ⊥
  clash e1 e2 = cc

  reporting_bad : (t : TagState) → is_bad (reporting t) ≡ true
  reporting_bad t = last t.file_error
    where
      last : (b : Bool) → (b || true) ≡ true
      last b = ground arith

  failed_bad : (t : TagState) → t.file_error ≡ true → is_bad t ≡ true
  failed_bad t e = rw e refl

  closed_again :
      (line name : Text) (t t' : TagState) (closed known : Bool)
      → (known ≡ true → IsIncluded files.room name)
      → t'.tag_section ≡ true
      → (is_bad t ≡ true → is_bad t' ≡ true)
      → IsStep line t (
          let after = if closed then t' else failing t' in
          if after.file_error
          then (line ∷ include_line name ∷ [], record after { tag_section = false }, false)
          else (line ∷ include_line name ∷ [], (if known then after else reporting after), true))
  closed_again line name t t' false known i section mono = λ e. inl refl
  closed_again line name t t' true false i section mono =
      branch (IsStep line t) t'.file_error _ _ (λ f e. inl (failed_bad t' f))
        (λ f e. inl (reporting_bad t'))
  closed_again line name t t' true true i section mono =
      branch (IsStep line t) t'.file_error _ _ (λ f e. inl (failed_bad t' f))
        (λ f e. inr (
          refl,
          mono,
          λ one. (one, (include_line-IsLine files.room name (i refl), tt)),
          started_again line name t t' (i refl) section e,
        ))

  written_again :
      (line name : Text) (t : TagState)
      → IsStep line t (
          tag_written files line name
            (tag_cmd_dispatch files name (record t { tag_section = true })))
  unfolding tag_cmd_dispatch
  written_again line name t = go (tag_index name tags_cmds) refl
    where
      go :
          (o : Option ℕ)
          → tag_index name tags_cmds ≡ o
          → IsStep line t (
              tag_written files line name (elim o [
                | none ↦ (record t { tag_section = true }, false)
                | some id ↦ (
                  (if files.written name
                      then record t {
                        tag_section = true;
                        have_tag_count = set t.have_tag_count id (get_or t.have_tag_count id 0 + 1);
                      }
                      else record t { tag_section = true; file_error = true }),
                  true,
                )
              ]))
      go none h =
          closed_again line name t (record t { tag_section = true }) (files.closed name) false
            (λ k. absurd (cc)) refl (λ bad. bad)
      go (some id) h = elim (Bool-cases (files.written name)) [
        | inl w ↦ rw w (
            closed_again line name t _ (files.closed name) true (λ k. name-IsIncluded name id h)
              refl (λ bad. bad))
        | inr w ↦ rw w (
            closed_again line name t _ (files.closed name) true (λ k. name-IsIncluded name id h)
              refl (λ bad. refl))
      ]

  section_again :
      (line name : Text) (t : TagState) → IsStep line t (start_section files line name t)
  unfolding start_section
  section_again line name t =
      branch (IsStep line t) t.tag_section _ _ (λ h e. inl (reporting_bad t))
        (λ h.
          branch (IsStep line t) (not (generated_file_name files.generated_path name)) _ _
            (λ h' e. inl refl)
            (λ h'.
              branch (IsStep line t) (not (files.make_tmp name)) _ _ (λ h'' e. inl refl)
                (λ h''. written_again line name t)))

  start_again :
      (line : Text) (tokens : List Text) (t : TagState)
      → IsStep line t (start_line files line tokens t)
  start_again line (a ∷ b ∷ name ∷ []) t e = section_again line name t e
  start_again line [] t e = inl (reporting_bad t)
  start_again line (a ∷ []) t e = inl (reporting_bad t)
  start_again line (a ∷ b ∷ []) t e = inl (reporting_bad t)
  start_again line (a ∷ b ∷ name ∷ more ∷ rest) t e = inl (reporting_bad t)

  words_again :
      (line : Text) (tokens : Option (List Text)) (t : TagState)
      → IsStep line t (tag_words files line tokens t)
  words_again line none t = λ e. inl (reporting_bad t)
  words_again line (some tokens) t =
      branch (IsStep line t) (has_marker start_marker tokens) _ _ (λ h. start_again line tokens t)
        (λ h. copied_again line t (has_marker end_marker tokens))

  line-IsAgain : (line : Text) (t : TagState) → IsAgain line t (plain_step files line t)
  unfolding plain_step
  line-IsAgain line t =
      branch (IsStep line t) (is_overlong line) _ _ (λ h e. inl refl)
        (λ h. words_again line (fresh_words files.room line) t) refl

  step_bad :
      (line : Text) (t : TagState) (s : TagStep)
      → IsAgain line t s
      → is_bad t ≡ true
      → is_bad s.1 ≡ true
  step_bad line t s (inl bad) h = bad
  step_bad line t s (inr (on, mono, written, same)) h = mono h

  -- An error stays.
  loop_bad :
      (lines : List Text) (t : TagState)
      → is_bad t ≡ true
      → is_bad (plain_loop files lines t).1 ≡ true
  unfolding plain_loop
  loop_bad [] t h = h
  loop_bad (line ∷ lines) t h =
      go (plain_step files line t) (step_bad line t _ (line-IsAgain line t) h)
        (λ t'. loop_bad lines t')
    where
      go :
          (s : TagStep)
          → is_bad s.1 ≡ true
          → ((t' : TagState) → is_bad t' ≡ true → is_bad (plain_loop files lines t').1 ≡ true)
          → is_bad (write_on (plain_loop files lines) s).1 ≡ true
      go (out, t', true) bad ih = ih t' bad
      go (out, t', false) bad ih = bad

  -- A second run over what was written does the same, and what was written are lines.
  loop_again :
      (lines : List Text) (t : TagState)
      → All IsLine lines
      → is_bad (plain_loop files lines t).1 ≡ false
      → (plain_loop files (plain_loop files lines t).0 t ≡ plain_loop files lines t)
        × All IsLine (plain_loop files lines t).0
  unfolding plain_loop
  loop_again [] t all h = (refl, tt)
  loop_again (line ∷ lines) t (one, all) h =
      go (plain_step files line t) (line-IsAgain line t) h (λ t'. loop_again lines t' all)
    where
      go :
          (s : TagStep)
          → IsAgain line t s
          → is_bad (write_on (plain_loop files lines) s).1 ≡ false
          → ((t' : TagState)
              → is_bad (plain_loop files lines t').1 ≡ false
              → (plain_loop files (plain_loop files lines t').0 t' ≡ plain_loop files lines t')
                × All IsLine (plain_loop files lines t').0)
          → (plain_loop files (write_on (plain_loop files lines) s).0 t
              ≡ write_on (plain_loop files lines) s)
            × All IsLine (write_on (plain_loop files lines) s).0
      go (out, t', true) (inl bad) good ih = absurd (clash (loop_bad lines t' bad) good)
      go (out, t', false) (inl bad) good ih = absurd (clash bad good)
      go (out, t', false) (inr (on, mono, written, same)) good ih = absurd (cc)
      go (out, t', true) (inr (on, mono, written, same)) good ih =
          let (again, more_lines) = ih t' good in
          (
            same (plain_loop files lines t').0 ∙ ap (joined out) again,
            All-append IsLine out (plain_loop files lines t').0 (written one) more_lines,
          )

  tag_loop_again :
      (lines : List Text) (t : TagState)
      → All IsLine lines
      → is_bad (tag_loop files lines first_line t).1 ≡ false
      → tag_loop files (tag_loop files lines first_line t).0 first_line t
        ≡ tag_loop files lines first_line t
  tag_loop_again lines t all h =
      let plain = tag_loop-plain_loop files lines first_line t all in
      let (again, written) = loop_again lines t all (ap (λ r. is_bad r.1) (sym plain) ∙ h) in
      ap (λ r. tag_loop files r.0 first_line t) plain
      ∙ tag_loop-plain_loop files (plain_loop files lines t).0 first_line t written
      ∙ again
      ∙ sym plain

  -- With memory for the tokens, when a run over a source whose lines each end with their newline ends
  -- without an error, and whatever counts of the tags it began with, a run over the source that it
  -- has written writes the same again, and ends with the same counts and without an error: what a
  -- section held is replaced once.
  pub parse_tag-parse_tag :
      (lines : List Text) (counts : List ℕ)
      → All IsLine lines
      → is_bad (parse_tag files lines counts).1 ≡ false
      → parse_tag files (parse_tag files lines counts).0 counts ≡ parse_tag files lines counts
  unfolding parse_tag
  parse_tag-parse_tag lines counts all h =
      ap ended (tag_loop_again lines _ all (unended (tag_loop files lines first_line _) h))
    where
      unended : (r : List Text × TagState) → is_bad (ended r).1 ≡ false → is_bad r.1 ≡ false
      unended (out, t) e = go t.tag_section e
        where
          go : (b : Bool) → is_bad (if b then reporting t else t) ≡ false → is_bad t ≡ false
          go true e = absurd (clash (reporting_bad t) e)
          go false e = e
