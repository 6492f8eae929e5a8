-- ===== src/Examples/Texts.antt =====
-- The theorems on texts, refs, identifiers and slugs at concrete values.
use doc_lattice.Headings.{Heading, section_spans}
use doc_lattice.Headings.Spans.{spans_of, section_spans-eq-spans_of}
use doc_lattice.Prelude.{
  ℕ, zero, suc, ◌+◌, ◌-◌, ◌≤◌, ◌<◌, ◌≡◌, ◌≢◌, ◌↔◌, ◌⊎◌, inl, inr, ⊎_elim, refl, sym, ap, ◌∙◌, subst,
  Bool, true, false, not, ◌&&◌, ◌||◌, Option, none, some, List, [], ◌∷◌, ◌++◌, map, Memᴰ, Memᴰ-cons,
  Memᴰ-append, All, All-append, length, length-append, length-map, take, drop, arith, ltb, leb,
  nat_eqb, nat_eqb_iff, if◌then◌else◌, is_some, is_empty, Bool-cases, Option-cases, List-cases, Eq,
  ◌==◌, ==_iff, ==_refl, nat_eq, list_eq, option_eq, contains, contains_iff,
}
use doc_lattice.Text.{Text, codes}
use doc_lattice.Dict.{Dict, keys, get, has}
use doc_lattice.Model.{target_eq, file_target, as_ref, parse_ref}
use doc_lattice.Model.Refs.{as_ref-parse_ref, parse_ref-as_ref, IsSpellable}
use doc_lattice.Result.{ok, err}
use doc_lattice.Dict.Keys.{AllDistinct}
use doc_lattice.Hashing.{canonicalize}
use doc_lattice.Hashing.Canonical.{core_lines, canonicalize_idem, canonicalize_exact}
use doc_lattice.Tickets.{BlockedReason, malformed, cross_team, not_found}
use doc_lattice.LinearQuery.{partition_identifiers, chunk_numbers}
use doc_lattice.LinearQuery.Identifiers.{Identifies}
use doc_lattice.LinearQuery.Refusals.{IsQueried, IsForeign}
use doc_lattice.LinearQuery.Partition.{IsAcceptable, partition_identifiers_exact}
use doc_lattice.LinearQuery.Batches.{flatten, chunk_numbers_exact}
use doc_lattice.Text.{is_control_char, first_control_index, rstrip}
use doc_lattice.Text.Controls.{IsClean, IsFirst, first_control_index_exact}
use doc_lattice.Fields.{reject_control_chars, id_has_no_hash}
use doc_lattice.Fields.Accepted.{Mends, reject_control_chars_exact, id_has_no_hash_exact}
use doc_lattice.Errors.{Fix, control_character}
use doc_lattice.Slugs.{github_ids_for_texts}
use doc_lattice.Slugs.Allocation.{github_ids_for_texts-AllDistinct}
use doc_lattice.Sections.{strip_heading_anchor}

abbrev refs : List Text
refs = codes "PC-1" ∷ codes "XY-2" ∷ codes "PC-01" ∷ []

canonicalize_idem_example :
    canonicalize (canonicalize (codes "\na \r\n")) ≡ canonicalize (codes "\na \r\n")
canonicalize_idem_example = canonicalize_idem (codes "\na \r\n")

canonicalize_exact_example :
    (canonicalize (codes "\na \r\n") ≡ canonicalize (codes "a"))
    ↔ (core_lines (codes "\na \r\n") ≡ core_lines (codes "a"))
canonicalize_exact_example = canonicalize_exact (codes "\na \r\n") (codes "a")

as_ref-parse_ref_example : as_ref (parse_ref (codes "a#b#c")) ≡ codes "a#b#c"
as_ref-parse_ref_example = as_ref-parse_ref (codes "a#b#c")

parse_ref-as_ref_example :
    (parse_ref (as_ref (file_target (codes "a#b"))) ≡ file_target (codes "a#b"))
    ↔ IsSpellable (file_target (codes "a#b"))
parse_ref-as_ref_example = parse_ref-as_ref (file_target (codes "a#b"))

partition_identifiers_exact_example :
    (((out : List Text × Dict Text BlockedReason) × (partition_identifiers refs (some (codes "PC"))
          ≡ ok out))
      ↔ IsAcceptable refs (some (codes "PC")))
    × ((out : List Text × Dict Text BlockedReason)
        → partition_identifiers refs (some (codes "PC")) ≡ ok out
        → (x : Text)
        → (Memᴰ x out.0 ↔ (Memᴰ x refs × IsQueried (some (codes "PC")) x))
          × ((get out.1 x ≡ some malformed) ↔ (Memᴰ x refs × (¬ ((key : Text) × Identifies key x))))
          × ((get out.1 x ≡ some cross_team) ↔ (Memᴰ x refs × IsForeign (some (codes "PC")) x))
          × (get out.1 x ≢ some not_found))
partition_identifiers_exact_example = partition_identifiers_exact refs (some (codes "PC"))

chunk_numbers_exact_example :
    (batches : List (List ℕ)) × (chunk_numbers (1 ∷ 2 ∷ 3 ∷ []) 2 ≡ ok batches)
    × (flatten batches ≡ 1 ∷ 2 ∷ 3 ∷ [])
    × ((b : List ℕ) → Memᴰ b batches → (1 ≤ length b) × (length b ≤ 2))
chunk_numbers_exact_example = chunk_numbers_exact (1 ∷ 2 ∷ 3 ∷ []) 2 (omega arith)

first_control_index_exact_example :
    ((first_control_index (97 ∷ 27 ∷ []) ≡ none) ↔ IsClean (97 ∷ 27 ∷ []))
    × ((index : ℕ)
        → first_control_index (97 ∷ 27 ∷ []) ≡ some index
        → IsFirst (97 ∷ 27 ∷ []) 0 index)
first_control_index_exact_example = first_control_index_exact (97 ∷ 27 ∷ [])

reject_control_chars_exact_example :
    ((reject_control_chars (97 ∷ 10 ∷ []) ≡ ok (97 ∷ 10 ∷ [])) ↔ IsClean (97 ∷ 10 ∷ []))
    × ((front : Text) (char : ℕ) (rest : Text)
        → 97 ∷ 10 ∷ [] ≡ front ++ char ∷ rest
        → IsClean front
        → is_control_char char ≡ true
        → (fix : Fix) × Mends char rest fix
          × (reject_control_chars (97 ∷ 10 ∷ []) ≡ err (control_character char (length front) fix)))
reject_control_chars_exact_example = reject_control_chars_exact (97 ∷ 10 ∷ [])

id_has_no_hash_exact_example :
    (id_has_no_hash (codes "a#b") ≡ ok (codes "a#b"))
    ↔ (parse_ref (codes "a#b") ≡ file_target (codes "a#b"))
id_has_no_hash_exact_example = id_has_no_hash_exact (codes "a#b")

abbrev same_slug : Text → Text
same_slug text = text

github_ids_for_texts-AllDistinct_example :
    (ids : List Text) × (github_ids_for_texts same_slug (codes "a" ∷ codes "a" ∷ codes "a-1" ∷ [])
      ≡ ok ids)
    × AllDistinct ids
    × (length ids ≡ 3)
github_ids_for_texts-AllDistinct_example =
    github_ids_for_texts-AllDistinct same_slug (codes "a" ∷ codes "a" ∷ codes "a-1" ∷ [])

-- The second `a` takes `a-1`, so the heading that is written so takes `a-1-1`.
github_ids_for_texts_runs :
    github_ids_for_texts same_slug (codes "a" ∷ codes "a" ∷ codes "a-1" ∷ [])
    ≡ ok (codes "a" ∷ codes "a-1" ∷ codes "a-1-1" ∷ [])
unfolding github_ids_for_texts has doc_lattice.Dict.put doc_lattice.Prelude.list_beq keys
github_ids_for_texts_runs = refl

-- A marker goes, before a closing sequence too; a marker inside the text stays.
strip_heading_anchor_runs :
    (strip_heading_anchor (codes "## A {#a-1}") ≡ codes "## A")
    × (strip_heading_anchor (codes "## A  {#a} ##") ≡ codes "## A ##")
    × (strip_heading_anchor (codes "{#a}") ≡ [])
    × (strip_heading_anchor (codes "## A {#a} b") ≡ codes "## A {#a} b")
unfolding strip_heading_anchor rstrip
strip_heading_anchor_runs = (refl, refl, refl, refl)

abbrev heading : ℕ → ℕ → Heading
heading level line = record { level = level; text = []; anchor = none; line = line }

section_spans-eq-spans_of_example :
    section_spans (heading 1 1 ∷ heading 2 4 ∷ heading 1 8 ∷ []) 9
    ≡ spans_of 9 (heading 1 1 ∷ heading 2 4 ∷ heading 1 8 ∷ [])
section_spans-eq-spans_of_example =
    section_spans-eq-spans_of (heading 1 1 ∷ heading 2 4 ∷ heading 1 8 ∷ []) 9

section_spans_runs :
    section_spans (heading 1 1 ∷ heading 2 4 ∷ heading 1 8 ∷ []) 9 ≡ (1, 7) ∷ (4, 7) ∷ (8, 9) ∷ []
unfolding section_spans
section_spans_runs = refl
