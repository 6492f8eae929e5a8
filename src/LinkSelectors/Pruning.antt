-- ===== src/LinkSelectors/Pruning.antt =====
-- selector_prunes_path.
use doc_lattice.Prelude.{
  ◌≡◌, ◌↔◌, inl, inr, refl, subst, Bool, true, false, some, List, [], ◌∷◌, ◌++◌, map, ap, ◌∙◌, Memᴰ,
  if◌then◌else◌, Bool-cases, nat_eq, list_eq, option_eq,
}
use mathlib.Core.List.Memᴰ
use doc_lattice.Text.{Text}
use doc_lattice.LinkSelectors.{split_parts, join_parts, leading, any_matches, selector_prunes_path}
use doc_lattice.LinkSelectors.Matching.{Selects, selector_matches_path_exact}
use doc_lattice.LinkSelectors.Parts.{split_parts-Whole, split-join, leading-split}

cons-mem :
    (part : Text) (prefix : List Text) (prefixes : List (List Text))
    → Memᴰ prefix (map (λ rest. part ∷ rest) prefixes)
      ↔ ((rest : List Text) × (prefix ≡ part ∷ rest) × Memᴰ rest prefixes)
cons-mem part prefix [] = (λ m. absurd (Memᴰ.not-nil m), λ (_, _, m). absurd (Memᴰ.not-nil m))
cons-mem part prefix (first ∷ prefixes) = (
  λ m. elim (Memᴰ.cases_cons m) [
    | inl is ↦ (first, is, Memᴰ.head refl)
    | inr later ↦
        let (rest, e, k) = (cons-mem part prefix prefixes).0 later in (rest, e, Memᴰ.tail k)
  ],
  λ (rest, e, m). elim (Memᴰ.cases_cons m) [
    | inl is ↦ Memᴰ.head (e ∙ ap (λ x. part ∷ x) is)
    | inr later ↦ Memᴰ.tail ((cons-mem part prefix prefixes).1 (rest, e, later))
  ],
)

-- The leading parts are the prefixes of one part at least.
abbrev IsPrefix : List Text → List Text → Type 0
IsPrefix parts prefix =
    (part : Text) × (above below : List Text) × (prefix ≡ part ∷ above)
    × (parts ≡ (part ∷ above) ++ below)

leading-mem : (parts prefix : List Text) → Memᴰ prefix (leading parts) ↔ IsPrefix parts prefix
unfolding leading
leading-mem [] prefix = (λ m. absurd (Memᴰ.not-nil m), λ (_, _, _, _, none'). cc)
leading-mem (first ∷ parts) prefix = (
  λ m. elim (Memᴰ.cases_cons m) [
    | inl is ↦ (first, [], parts, is, refl)
    | inr later ↦
        let (rest, e, k) = (cons-mem first prefix (leading parts)).0 later in
        let (part, above, below, e', split) = (leading-mem parts rest).0 k in
        (first, part ∷ above, below, e ∙ ap (λ x. first ∷ x) e', ap (λ x. first ∷ x) split)
  ],
  λ (part, above, below, e, split).
      longer (λ rest. (leading-mem parts rest).1) part above below e split,
)
  where
    longer :
        ((rest : List Text) → IsPrefix parts rest → Memᴰ rest (leading parts))
        → (part : Text) (above below : List Text) → prefix ≡ part ∷ above
        → first ∷ parts ≡ (part ∷ above) ++ below
        → Memᴰ prefix (leading (first ∷ parts))
    longer shorter part [] below e split =
        (let same : part ≡ first = cc (split) in Memᴰ.head (e ∙ ap (λ x. x ∷ []) same))
    longer shorter part (next ∷ above) below e split =
        let same : part ≡ first = cc (split) in
        let tail' : parts ≡ (next ∷ above) ++ below = cc (split) in
        Memᴰ.tail (
          (cons-mem first prefix (leading parts)).1 (
            next ∷ above,
            e ∙ ap (λ x. x ∷ next ∷ above) same,
            shorter (next ∷ above) (next, above, below, refl, tail'),
          ))

module _ (segment_matches : Text → Text → Bool) (segments : List Text) where
  -- One of the leading parts is selected.
  abbrev pub SomeLeading : List (List Text) → Type 0
  SomeLeading prefixes =
      (prefix : List Text) × Memᴰ prefix prefixes × Selects segment_matches segments 0 prefix

  -- The prefixes can be joined and split again.
  abbrev Splits : List (List Text) → Type 0
  Splits prefixes =
      (prefix : List Text) → Memᴰ prefix prefixes → split_parts (join_parts prefix) ≡ prefix

  any_matches_exact :
      (prefixes : List (List Text))
      → Splits prefixes
      → (answer : Bool) × (any_matches segment_matches segments prefixes ≡ some answer)
        × ((answer ≡ true) ↔ SomeLeading prefixes)
  unfolding any_matches
  any_matches_exact [] splits = (false, refl, (λ h. cc, λ (p, m, s). absurd (Memᴰ.not-nil m)))
  any_matches_exact (prefix ∷ prefixes) splits =
      let (answer, found, exact) =
        selector_matches_path_exact segment_matches segments (join_parts prefix) in
      let (later, e, rest) = any_matches_exact prefixes (λ p m. splits p (Memᴰ.tail m)) in
      elim (Bool-cases answer) [
        | inl selected ↦ (
          true,
          rw (found, any_matches, selected, if◌then◌else◌) refl,
          (
            λ h.
                (prefix, Memᴰ.head refl, rw (splits prefix (Memᴰ.head refl)) at (exact.0 selected)),
            λ _. refl,
          ),
        )
        | inr refused ↦ (
          later,
          rw (found, any_matches, refused, if◌then◌else◌) e,
          (
            λ h. let (p, m, s) = rest.0 h in (p, Memᴰ.tail m, s),
            λ (p, m, s). elim (Memᴰ.cases_cons m) [
              | inl is ↦ cc (
                  exact.1 (
                    rw (splits prefix (Memᴰ.head refl))
                      (subst (λ q. Selects segment_matches segments 0 q) is s)))
              | inr further ↦ rest.1 (p, further, s)
            ],
          ),
        )
      ]

  -- A directory above the path, or the path: some of its first parts, one at least.
  abbrev pub SelectsAbove : Text → Type 0
  SelectsAbove path =
      (part : Text) × (above below : List Text) × (split_parts path ≡ (part ∷ above) ++ below)
      × Selects segment_matches segments 0 (part ∷ above)

  -- selector_prunes_path always answers, and a selector prunes a path exactly when it selects the path or one of the
  -- directories above it.
  pub selector_prunes_path_exact :
      (path : Text)
      → (answer : Bool) × (selector_prunes_path segment_matches segments path ≡ some answer)
        × ((answer ≡ true) ↔ SelectsAbove path)
  unfolding selector_prunes_path
  selector_prunes_path_exact path =
      let (answer, found, exact) = any_matches_exact (leading (split_parts path)) λ prefix m.
        let (part, rest, e, whole) =
          leading-split (split_parts path) (split_parts-Whole path) prefix m in
        rw e (split-join part rest (rw e at whole)) in
      (
        answer,
        found,
        (
          λ yes'.
              let (prefix, m, s) = exact.0 yes' in
              let (part, above, below, e, parts) = (leading-mem (split_parts path) prefix).0 m in
              (part, above, below, parts, subst (Selects segment_matches segments 0) e s),
          λ (part, above, below, parts, s). exact.1 (
            part ∷ above,
            (leading-mem (split_parts path) (part ∷ above)).1 (part, above, below, refl, parts),
            s,
          ),
        ),
      )
