-- ===== src/Transaction/Disjoint.antt =====
-- The paths that a journal accepted by _load_journal names.
use doc_lattice.Prelude.{
  ◌≡◌, ◌≢◌, ◌⊎◌, inl, inr, refl, sym, ap, subst, true, List, [], ◌∷◌, Memᴰ, arith, ==_iff, nat_eq,
  list_eq, option_eq,
}
use mathlib.Core.List.Memᴰ
use doc_lattice.Text.{Text}
use doc_lattice.Dict.Keys.{AllDistinct}
use doc_lattice.Disk.{FilePath, parent, Failure}
use doc_lattice.Transaction.{
  Entry, check_destinations, artifact_paths, artifacts_after, validate_path_roles,
  artifact_name_fits, before_infix, after_infix,
}
use doc_lattice.Transaction.Conditions.{Apart}
use doc_lattice.Transaction.Recovery.{NamesFit}
use doc_lattice.Transaction.Roles.{
  destinations-mem, destinations_injective, destinations-no_repeat, check_destinations-Checked,
  check_artifacts-Separate,
}

images-mem :
    (entries : List Entry) (e : Entry)
    → Memᴰ e entries
    → Memᴰ e.before_path (artifact_paths entries) × Memᴰ e.after_path (artifact_paths entries)
unfolding artifact_paths
images-mem [] e m = absurd (Memᴰ.not-nil m)
images-mem (x ∷ entries) e m = elim (Memᴰ.cases_cons m) [
  | inl is ↦ (
    Memᴰ.head (ap (λ (y : Entry). y.before_path) is),
    Memᴰ.tail (Memᴰ.head (ap (λ (y : Entry). y.after_path) is)),
  )
  | inr later ↦
      let (b, a) = images-mem entries e later in (Memᴰ.tail (Memᴰ.tail b), Memᴰ.tail (Memᴰ.tail a))
]

-- Two entries whose images are distinct.
ImagesApart : Entry → Entry → Type 0
ImagesApart e e' =
    (e.before_path ≡ e'.before_path → e ≡ e')
    × (e.after_path ≡ e'.after_path → e ≡ e')
    × (e.before_path ≢ e'.after_path)

module _ (x : Entry) (entries : List Entry)
    (distinct : AllDistinct (artifact_paths (x ∷ entries))) where
  first-ImagesApart : ImagesApart x x
  unfolding ImagesApart artifact_paths
  first-ImagesApart = (λ _. refl, λ _. refl, λ same. distinct.0 (Memᴰ.head same))

  left-ImagesApart : (e : Entry) → Memᴰ e entries → ImagesApart x e
  unfolding ImagesApart artifact_paths
  left-ImagesApart e m =
      let (b, a) = images-mem entries e m in
      (
        λ same.
            absurd
              (distinct.0 (Memᴰ.tail (subst (λ p. Memᴰ p (artifact_paths entries)) (sym same) b))),
        λ same. absurd (distinct.1.0 (subst (λ p. Memᴰ p (artifact_paths entries)) (sym same) a)),
        λ same. distinct.0 (Memᴰ.tail (subst (λ p. Memᴰ p (artifact_paths entries)) (sym same) a)),
      )

  right-ImagesApart : (e : Entry) → Memᴰ e entries → ImagesApart e x
  unfolding ImagesApart artifact_paths
  right-ImagesApart e m =
      let (b, a) = images-mem entries e m in
      (
        λ same.
            absurd (distinct.0 (Memᴰ.tail (subst (λ p. Memᴰ p (artifact_paths entries)) same b))),
        λ same. absurd (distinct.1.0 (subst (λ p. Memᴰ p (artifact_paths entries)) same a)),
        λ same. distinct.1.0 (subst (λ p. Memᴰ p (artifact_paths entries)) same b),
      )

images-ImagesApart :
    (entries : List Entry)
    → AllDistinct (artifact_paths entries)
    → (e e' : Entry) → Memᴰ e entries
    → Memᴰ e' entries
    → ImagesApart e e'
unfolding artifact_paths
images-ImagesApart [] distinct e e' m m' = absurd (Memᴰ.not-nil m)
images-ImagesApart (x ∷ entries) distinct e e' m m' = elim (Memᴰ.cases_cons m) [
  | inl is ↦ elim (Memᴰ.cases_cons m') [
    | inl is' ↦ rw (is, is') (first-ImagesApart x entries distinct)
    | inr later' ↦ rw is (left-ImagesApart x entries distinct e' later')
  ]
  | inr later ↦ elim (Memᴰ.cases_cons m') [
    | inl is' ↦ rw is' (right-ImagesApart x entries distinct e later)
    | inr later' ↦ images-ImagesApart entries distinct.1.1 e e' later later'
  ]
]

beside :
    (destination artifact : FilePath) (infix_text : Text)
    → artifact_name_fits destination artifact infix_text ≡ true
    → parent artifact ≡ parent destination
unfolding artifact_name_fits
beside destination artifact infix_text fits =
    ground (arith, ==_iff (parent artifact) (parent destination))

-- A journal whose path roles and image names are accepted, and each of whose entries changes its file, has entries
-- that are apart: no destination, image or journal is another, and images stand beside their destinations.
pub validate_path_roles-Apart :
    (entries : List Entry) (journal : FilePath) (paths : List FilePath)
    → validate_path_roles entries journal ≡ inr paths
    → NamesFit entries
    → ((e : Entry) → Memᴰ e entries → e.before_sha256 ≢ e.after_sha256)
    → Apart entries journal
unfolding validate_path_roles ImagesApart
validate_path_roles-Apart entries journal paths accepted fits changes =
    go (check_destinations journal entries []) refl
  where
    go :
        (r : Failure ⊎ List FilePath)
        → check_destinations journal entries [] ≡ r
        → Apart entries journal
    go (inl failure) e = absurd (cc (rw (e, artifacts_after) at accepted))
    go (inr taken) e =
        let first = check_destinations-Checked journal entries [] taken e in
        let second =
          check_artifacts-Separate journal taken (artifact_paths entries) [] paths
            (rw (e, artifacts_after) at accepted) in
        let inside = λ (x : Entry) (m : Memᴰ x entries).
          first.collected x.destination (inl (destinations-mem entries x m)) in
        record {
          same_destination = destinations_injective entries first.distinct;
          same_before = λ x y m k. (images-ImagesApart entries second.distinct x y m k).0;
          same_after = λ x y m k. (images-ImagesApart entries second.distinct x y m k).1;
          destination_before = λ x y m k same.
              second.not_taken y.before_path (images-mem entries y k).0
                (subst (λ p. Memᴰ p taken) same (inside x m));
          destination_after = λ x y m k same.
              second.not_taken y.after_path (images-mem entries y k).1
                (subst (λ p. Memᴰ p taken) same (inside x m));
          before_after = λ x y m k. (images-ImagesApart entries second.distinct x y m k).2;
          journal_destination =
              λ x m same. first.no_journal x.destination (destinations-mem entries x m) (sym same);
          journal_before =
              λ x m same. second.no_journal x.before_path (images-mem entries x m).0 (sym same);
          journal_after =
              λ x m same. second.no_journal x.after_path (images-mem entries x m).1 (sym same);
          before_beside = λ x m. beside x.destination x.before_path before_infix (fits x m).0;
          after_beside = λ x m. beside x.destination x.after_path after_infix (fits x m).1;
          no_repeat = destinations-no_repeat entries first.distinct;
          changes = changes;
        }
