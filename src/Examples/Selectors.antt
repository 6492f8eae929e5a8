-- ===== src/Examples/Selectors.antt =====
-- Tests and instances for the link selectors. A segment pattern stands for itself.
use doc_lattice.Prelude.{
  ◌≡◌, ◌↔◌, inr, refl, Bool, true, false, some, List, [], ◌∷◌, Memᴰ, ◌==◌, nat_eq, list_eq,
  option_eq, contains, list_beq,
}
use doc_lattice.Text.{Text, codes, strip_control_chars}
use doc_lattice.Transaction.{ends_with}
use doc_lattice.LinkSelectors.{
  split_parts, selector_matches_path, selector_prunes_path, validate_link_selector,
  escape_selector_literal, has_unclosed_bracket, join_parts, relative_spelling_defect,
  segments_defect,
}
use doc_lattice.LinkSelectors.Matching.{Selects, selector_matches_path_exact}
use doc_lattice.LinkSelectors.Pruning.{SelectsAbove, selector_prunes_path_exact}
use doc_lattice.LinkSelectors.Escaping.{escape_selector_literal-closed}
use doc_lattice.LinkSelectors.Validation.{Segment, validate_link_selector_sound}

abbrev same_text : Text → Text → Bool
same_text part segment = part == segment

-- `docs/**/a.md`
abbrev selector : List Text
selector = codes "docs" ∷ codes "**" ∷ codes "a.md" ∷ []

abbrev deep_path : Text
deep_path = codes "docs/x/y/a.md"

matches_deep : selector_matches_path same_text selector deep_path ≡ some true
unfolding selector_matches_path list_beq contains
matches_deep = refl

matches_no_part : selector_matches_path same_text selector (codes "docs/a.md") ≡ some true
unfolding selector_matches_path list_beq contains
matches_no_part = refl

refuses_other : selector_matches_path same_text selector (codes "docs/x/b.md") ≡ some false
unfolding selector_matches_path list_beq contains
refuses_other = refl

prunes_below : selector_prunes_path same_text (codes "docs" ∷ codes "x" ∷ []) deep_path ≡ some true
unfolding selector_prunes_path list_beq contains
prunes_below = refl

selector_matches_path_exact_example :
    (answer : Bool) × (selector_matches_path same_text selector deep_path ≡ some answer)
    × ((answer ≡ true) ↔ Selects same_text selector 0 (split_parts deep_path))
selector_matches_path_exact_example = selector_matches_path_exact same_text selector deep_path

selector_prunes_path_exact_example :
    (answer : Bool) × (selector_prunes_path same_text selector deep_path ≡ some answer)
    × ((answer ≡ true) ↔ SelectsAbove same_text selector deep_path)
selector_prunes_path_exact_example = selector_prunes_path_exact same_text selector deep_path

escape_selector_literal-closed_example :
    has_unclosed_bracket (escape_selector_literal (codes "a[*]!b")) ≡ false
escape_selector_literal-closed_example = escape_selector_literal-closed (codes "a[*]!b")

accepted :
    validate_link_selector (codes "docs/**/[!]a]*.md")
    ≡ inr (codes "docs" ∷ codes "**" ∷ codes "[!]a]*.md" ∷ [])
unfolding validate_link_selector list_beq contains strip_control_chars relative_spelling_defect
    ends_with segments_defect split_parts
accepted = refl

validate_link_selector_sound_example :
    (join_parts (codes "docs" ∷ codes "**" ∷ codes "[!]a]*.md" ∷ []) ≡ codes "docs/**/[!]a]*.md")
    × ((segment : Text)
        → Memᴰ segment (codes "docs" ∷ codes "**" ∷ codes "[!]a]*.md" ∷ [])
        → Segment segment)
validate_link_selector_sound_example =
    validate_link_selector_sound (codes "docs/**/[!]a]*.md")
      (codes "docs" ∷ codes "**" ∷ codes "[!]a]*.md" ∷ []) accepted
