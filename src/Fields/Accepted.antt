-- ===== src/Fields/Accepted.antt =====
-- What the validators let through.
use doc_lattice.Prelude.{
  ℕ, ◌+◌, ◌-◌, ◌≡◌, ◌≢◌, ◌↔◌, ◌∙◌, true, false, Memᴰ, ◌==◌, ==_iff, Bool-cases, List-cases,
  length-append, inl, inr, refl, sym, ap, subst, Option, none, some, [], ◌∷◌, ◌++◌, length, arith,
  is_some, Option-cases, nat_eq, list_eq, option_eq, contains,
}
use doc_lattice.Text.{Text, line_feed, is_control_char, control_index_from, first_control_index}
use doc_lattice.Text.Controls.{IsClean, first_control_index_exact}
use doc_lattice.Model.{TargetId, parse_ref, file_target, rsplit_hash, hash_sign}
use doc_lattice.Result.{ok, err, ◌>>=◌, or_raise}
use doc_lattice.Errors.{Fix, remove_it, drop_last_break, fold_lines, control_character}
use doc_lattice.Fields.{char_at, fix_of, reject_control_chars, id_has_no_hash, value_error}

char_at-append :
    (front : Text) (c : ℕ) (rest : Text) → char_at (length front) (front ++ c ∷ rest) ≡ some c
unfolding char_at
char_at-append [] c rest = refl
char_at-append (x ∷ front) c rest = char_at-append front c rest

-- The fix for a control character, by what follows it: a line break is dropped at the end of the value, and one
-- before more lines is folded; any other character is removed.
pub data Mends (char : ℕ) (rest : Text) : Fix → Type 0 where
  no_break : char ≢ line_feed → Mends char rest remove_it
  last_break : char ≡ line_feed → rest ≡ [] → Mends char rest drop_last_break
  inner_break : char ≡ line_feed → rest ≢ [] → Mends char rest fold_lines

fix_of-Mends :
    (front : Text) (c : ℕ) (rest : Text)
    → Mends c rest (fix_of c (length front) (length (front ++ c ∷ rest)))
unfolding fix_of
fix_of-Mends front c rest = elim (Bool-cases (c == line_feed)) [
  | inr other ↦ rw (fix_of, other) (no_break (λ e. cc ((==_iff c line_feed).1 e, other)))
  | inl break' ↦
      let same = (==_iff c line_feed).0 break' in
      elim (List-cases rest) [
        | inl done ↦
            let here : (length front == length (front ++ c ∷ rest) - 1) ≡ true =
              (==_iff (length front) (length (front ++ c ∷ rest) - 1)).1
                (omega (arith, length-append front (c ∷ rest), ap length done)) in
            rw (fix_of, break', here) (last_break same done)
        | inr (d, more, longer) ↦
            let before : (length front == length (front ++ c ∷ rest) - 1) ≡ false =
              elim (Bool-cases (length front == length (front ++ c ∷ rest) - 1)) [
                | inr e ↦ e
                | inl e ↦ absurd (
                    let at_end = (==_iff (length front) (length (front ++ c ∷ rest) - 1)).0 e in
                    omega (arith, at_end, length-append front (c ∷ rest), ap length longer))
              ] in
            rw (fix_of, break', before) (inner_break same (λ e. cc (e, longer)))
      ]
]

control_index_from-append :
    (start : ℕ) (front : Text) (c : ℕ) (rest : Text)
    → IsClean front
    → is_control_char c ≡ true
    → control_index_from start (front ++ c ∷ rest) ≡ some (start + length front)
unfolding control_index_from
control_index_from-append start [] c rest clean bad = rw (bad) (ground arith)
control_index_from-append start (d ∷ front) c rest clean bad = rw (clean d (Memᴰ.head refl)) (
    control_index_from-append (start + 1) front c rest (λ x m. clean x (Memᴰ.tail m)) bad
    ∙ ap some (omega arith))

at_control :
    (front : Text) (c : ℕ) (rest : Text)
    → IsClean front
    → is_control_char c ≡ true
    → reject_control_chars (front ++ c ∷ rest)
      ≡ err (
          control_character c (length front) (fix_of c (length front) (length (front ++ c ∷ rest))))
unfolding reject_control_chars first_control_index
at_control front c rest clean bad =
    let found : control_index_from 0 (front ++ c ∷ rest) ≡ some (length front) =
      control_index_from-append 0 front c rest clean bad ∙ ap some (omega arith) in
    rw (reject_control_chars, first_control_index, found, char_at-append front c rest) refl

-- A field is accepted, and then unchanged, exactly where it has no control character. Otherwise the error names its
-- first control character, the index of it, and the fix for what follows it: a line break at the end is dropped, an
-- earlier one is folded, and any other control character is removed.
pub reject_control_chars_exact :
    (value : Text)
    → ((reject_control_chars value ≡ ok value) ↔ IsClean value)
      × ((front : Text) (char : ℕ) (rest : Text)
          → value ≡ front ++ char ∷ rest
          → IsClean front
          → is_control_char char ≡ true
          → (fix : Fix) × Mends char rest fix
            × (reject_control_chars value ≡ err (control_character char (length front) fix)))
unfolding reject_control_chars first_control_index
reject_control_chars_exact value =
    let clean = (first_control_index_exact value).0 in
    (
      (
        λ e. clean.0 (by_index (first_control_index value) refl e),
        λ h. rw (reject_control_chars, clean.1 h) refl,
      ),
      λ front char rest parts before bad. (
        fix_of char (length front) (length (front ++ char ∷ rest)),
        fix_of-Mends front char rest,
        subst
            (λ v.
              reject_control_chars v
              ≡ err (
                  control_character char (length front)
                    (fix_of char (length front) (length (front ++ char ∷ rest)))))
            (sym parts) (at_control front char rest before bad),
      ),
    )
  where
    by_index :
        (o : Option ℕ)
        → first_control_index value ≡ o
        → (elim o [
          | none ↦ ok value
          | some index ↦
              (or_raise value_error (char_at index value) >>= λ char.
              err (control_character char index (fix_of char index (length value))))
        ])
          ≡ ok value
        → first_control_index value ≡ none
    by_index none q e = q
    by_index (some index) q e = by_char (char_at index value) e
      where
        by_char :
            (c : Option ℕ)
            → (or_raise value_error c >>= λ char.
                err (control_character char index (fix_of char index (length value))))
              ≡ ok value
            → first_control_index value ≡ none
        by_char none e = cc
        by_char (some c) e = cc

rsplit_hash-contains : (ref : Text) → is_some (rsplit_hash ref) ≡ contains ref hash_sign
unfolding rsplit_hash contains
rsplit_hash-contains [] = refl
rsplit_hash-contains (c ∷ rest) = ground (arith, rsplit_hash-contains rest)

-- An id passes _id_has_no_hash exactly where a ref of its text is read as that file id.
pub id_has_no_hash_exact :
    (id : Text) → (id_has_no_hash id ≡ ok id) ↔ (parse_ref id ≡ file_target id)
unfolding id_has_no_hash parse_ref
id_has_no_hash_exact id = elim (Option-cases (rsplit_hash id)) [
  | inl plain ↦ (λ _. rw (parse_ref, plain) refl, λ _. ground (arith, rsplit_hash-contains id))
  | inr ((file, anchor), split) ↦ (
    λ e. ground (arith, rsplit_hash-contains id),
    λ e. anchored file anchor (rw (parse_ref, split) at e),
  )
]
  where
    anchored :
        (file anchor : Text)
        → ◌≡◌ {A = TargetId} (record { file_id = file; anchor = some anchor }) (file_target id)
        → id_has_no_hash id ≡ ok id
    anchored file anchor e =
        (let no_anchor : ◌≡◌ {A = Option Text} (some anchor) none =
            ap (λ (t : TargetId). t.anchor) e in
          cc)
