-- ===== src/LinkSelectors/Validation.antt =====
-- What validate_link_selector accepts.
use doc_lattice.Prelude.{
  ◌≡◌, ◌≢◌, inl, inr, refl, sym, subst, true, false, none, List, [], ◌∷◌, Memᴰ, arith, is_empty,
  ==_iff, nat_eq, list_eq, option_eq,
}
use mathlib.Core.List.Memᴰ
use doc_lattice.Text.{Text, codes}
use doc_lattice.Transaction.{has_infix}
use doc_lattice.LinkSelectors.{
  split_parts, join_parts, recursive_segment, has_unclosed_bracket, segments_defect,
  validate_link_selector,
}
use doc_lattice.LinkSelectors.Parts.{join-split}

-- A segment of the grammar: not empty, no dot segment, `**` only as a whole, and no open bracket.
abbrev pub Segment : Text → Type 0
Segment segment =
    (segment ≢ [])
    × (segment ≢ codes ".")
    × (segment ≢ codes "..")
    × (has_infix segment recursive_segment ≡ true → segment ≡ recursive_segment)
    × (has_unclosed_bracket segment ≡ false)

segments_defect-none :
    (segments : List Text)
    → segments_defect segments ≡ none
    → (segment : Text) → Memᴰ segment segments
    → Segment segment
unfolding segments_defect
segments_defect-none [] accepted segment m = absurd (Memᴰ.not-nil m)
segments_defect-none (s ∷ segments) accepted segment m = elim (Memᴰ.cases_cons m) [
  | inl is ↦ subst Segment (sym is) (
    λ e. cc (blank e),
    λ e. ground (arith, ==_iff s (codes ".")),
    λ e. ground (arith, ==_iff s (codes "..")),
    λ h. ground (arith, ==_iff s recursive_segment),
    ground arith,
  )
  | inr later ↦ segments_defect-none segments (ground arith) segment later
]
  where
    blank : s ≡ [] → is_empty s ≡ true
    blank e = rw e refl

-- An accepted selector is its segments, joined by the separator, and each segment is one of the grammar.
pub validate_link_selector_sound :
    (entry : Text) (segments : List Text)
    → validate_link_selector entry ≡ inr segments
    → (join_parts segments ≡ entry) × ((segment : Text) → Memᴰ segment segments → Segment segment)
unfolding validate_link_selector
validate_link_selector_sound entry segments accepted =
    let (same, clean) = accepted_parts in
    (
      rw same (join-split entry),
      λ segment m. segments_defect-none (split_parts entry) clean segment (rw same at m),
    )
  where
    accepted_parts : (segments ≡ split_parts entry) × (segments_defect (split_parts entry) ≡ none)
    accepted_parts = (ground arith, ground arith)
