-- ===== src/Examples.antt =====
-- A lattice of two documents, and the theorems at it. The hash is the text itself.
pub mod Commits
pub mod Selectors
pub mod Texts
use mathlib.Core.List.Memᴰ
use doc_lattice.Lint.Total.{lint_built_returns}
use doc_lattice.Prelude.{arith, inl, inr, sym, ap, subst, option_eq, list_eq, nat_eq}
use doc_lattice.Loader.{record_ancestors}
use doc_lattice.Loader.Ancestors.{Outlasts, stop_of, nearest_first, record_ancestors_exact}
use doc_lattice.Prelude.{
  contains, if◌then◌else◌, [], ◌∷◌, ◌++◌, ◌≢◌, inl, subst, Option, ap, sym, inr, arith,
}
use doc_lattice.StaleShipped.Order.{Ordered, Once}
use doc_lattice.Prelude.{
  ℕ, ◌-◌, ◌≡◌, ◌↔◌, refl, true, false, none, some, List, [], ◌∷◌, Memᴰ, length, nat_eq, list_eq,
  option_eq,
}
use doc_lattice.Text.{Text, codes}
use doc_lattice.Dict.{Dict, keys, get, has}
use doc_lattice.Model.{
  TargetId, target_eq, Authority, RawEdge, NodeMeta, Edge, FileSections, Node, ParsedDoc, Lattice,
  parse_ref,
}
use doc_lattice.Result.{ok, err}
use doc_lattice.Errors.{Outcome, unknown_target}
use doc_lattice.Loader.{build_lattice}
use doc_lattice.Loader.Build.{declared_ids, build_lattice_succeeds, build_lattice_refuses}
use doc_lattice.Loader.Registration.{Refused}
use doc_lattice.Dict.Keys.{AllDistinct}
use doc_lattice.Check.{EdgeStatus, check_lattice}
use doc_lattice.Impact.{expand_targets, impact}
use doc_lattice.Impact.Exact.{IsLeastDepth, impact_exact, impact_unknown}
use doc_lattice.Check.{has_drift, ambiguous_edges, unreconciled, summarize_statuses}
use doc_lattice.Check.Total.{check_built_returns}
use doc_lattice.Check.Gate.{IsInSync, has_drift_exact}
use doc_lattice.Check.Caching.{fresh_check, check_lattice-eq-fresh_check}
use doc_lattice.Check.Reports.{
  only_ambiguous, count_of, occurrences, ambiguous_edges-eq-only_ambiguous,
  summarize_statuses-count_of, has_drift-summarize_statuses,
}
use doc_lattice.Lint.Ladder.{KeepsLadder, lint_lattice-ladder}
use doc_lattice.StaleShipped.Grading.{IsDue, stale_shipped_exact}
use doc_lattice.Lint.{LintResult, lint_lattice}
use doc_lattice.Tickets.{Finding}
use doc_lattice.StaleShipped.{Trigger, stale_shipped}
use doc_lattice.Loader.Coherence.{IsCoherent, build_lattice-IsCoherent}

abbrev identity_hash : Text → Text
identity_hash text = text

abbrev one_line : Text → FileSections
one_line body = record { total_lines = 1; sections = [] }

abbrev meta_of : Text → List RawEdge → Authority → NodeMeta
meta_of id derives_from authority = record {
  id = id;
  title = none;
  layer = none;
  authority = some authority;
  derives_from = derives_from;
  tickets = codes "PC-1" ∷ [];
}

-- `a.md` with a section `s`; `b.md` derives from it, and from the whole file.
abbrev source_doc : ParsedDoc
source_doc = record {
  path = codes "a.md";
  meta = meta_of (codes "a") [] Authority.binding;
  body = codes "# A";
  sections = some (record {
    total_lines = 1;
    sections =
        record { anchor = codes "s"; start = 1; stop = 1; collision = none; context = [] } ∷ [];
  });
  origin = none;
}

abbrev derived_doc : ParsedDoc
derived_doc = record {
  path = codes "b.md";
  meta =
      meta_of (codes "b")
        (record { ref = codes "a#s"; seen = some (codes "# A") }
          ∷ record { ref = codes "a"; seen = none }
          ∷ [])
        Authority.derived;
  body = codes "B";
  sections = none;
  origin = none;
}

abbrev two_docs : List ParsedDoc
two_docs = source_doc ∷ derived_doc ∷ []

built : (lattice : Lattice) × (build_lattice one_line two_docs ≡ ok lattice)
unfolding build_lattice doc_lattice.Loader.register_doc doc_lattice.Loader.register has
    doc_lattice.Loader.register_sections doc_lattice.Loader.register_section
    doc_lattice.Loader.note_section doc_lattice.Dict.put doc_lattice.Model.target_beq
    doc_lattice.Prelude.list_beq doc_lattice.Prelude.option_beq doc_lattice.Loader.record_ancestors
built = (_, refl)

abbrev lattice : Lattice
unfolding built
lattice = built.0

abbrev is_built : build_lattice one_line two_docs ≡ ok lattice
unfolding lattice
is_built = built.1

coherent : IsCoherent lattice
coherent = build_lattice-IsCoherent one_line two_docs lattice is_built

checked : (statuses : List EdgeStatus) × (check_lattice identity_hash lattice ≡ ok statuses)
unfolding check_lattice doc_lattice.Sorting.sorted keys lattice doc_lattice.Dict.values parse_ref
    doc_lattice.Check.classify doc_lattice.Resolve.cached_target_hash
    doc_lattice.Resolve.target_hash doc_lattice.Resolve.target_content
checked = (_, refl)

linted : (result : LintResult) × (lint_lattice lattice ≡ ok result)
unfolding lint_lattice doc_lattice.Sorting.sorted keys lattice doc_lattice.Dict.values parse_ref
    doc_lattice.Resolve.node_for_path doc_lattice.Check.ambiguous_edges
linted = (_, refl)

abbrev trigger : Trigger
trigger = (codes "b", codes "a" ∷ []) ∷ []

shipped : (findings : List Finding) × (stale_shipped lattice [] [] trigger ≡ ok findings)
unfolding stale_shipped get lattice
shipped = (_, refl)

known : has lattice.index (parse_ref (codes "a#s")) ≡ true
unfolding has lattice parse_ref
known = refl

unknown : has lattice.index (parse_ref (codes "c")) ≡ false
unfolding has lattice parse_ref
unknown = refl

again : ¬ AllDistinct (declared_ids one_line (derived_doc ∷ derived_doc ∷ []))
unfolding declared_ids keys doc_lattice.Loader.Registration.docs_entries
    doc_lattice.Loader.Registration.doc_entries doc_lattice.Loader.Registration.section_entries
again d = d.0 (Memᴰ.head refl)

impact_exact_example :
    (roots : List TargetId) × (result : List (Node × ℕ)) × (expand_targets lattice (codes "a#s")
      ≡ ok roots)
    × (impact lattice (codes "a#s") none ≡ ok result)
    × ((node : Node) (k : ℕ)
        → Memᴰ (node, k) result ↔ (
            (get lattice.nodes_by_id node.id ≡ some node)
            × IsLeastDepth lattice coherent none roots node.id k))
impact_exact_example = impact_exact lattice coherent (codes "a#s") none known

impact_unknown_example : impact lattice (codes "c") none ≡ err (unknown_target (codes "c"))
impact_unknown_example = impact_unknown lattice (codes "c") none unknown

check_built_returns_example :
    (statuses : List EdgeStatus) × (check_lattice identity_hash lattice ≡ ok statuses)
check_built_returns_example = check_built_returns identity_hash one_line two_docs lattice is_built

has_drift_exact_example : (has_drift checked.0 ≡ false) ↔ (
    (id : Text) (node : Node) (e : Edge)
    → get lattice.nodes_by_id id ≡ some node
    → Memᴰ e node.derives_from
    → IsInSync identity_hash lattice e)
has_drift_exact_example = has_drift_exact identity_hash lattice checked.0 checked.1

check_lattice-eq-fresh_check_example :
    check_lattice identity_hash lattice ≡ fresh_check identity_hash lattice
check_lattice-eq-fresh_check_example = check_lattice-eq-fresh_check identity_hash lattice

ambiguous_edges-eq-only_ambiguous_example : ambiguous_edges lattice ≡ ok (only_ambiguous checked.0)
ambiguous_edges-eq-only_ambiguous_example =
    ambiguous_edges-eq-only_ambiguous identity_hash lattice checked.0 checked.1

summarize_statuses-count_of_example :
    count_of unreconciled (summarize_statuses checked.0) ≡ occurrences unreconciled checked.0
summarize_statuses-count_of_example = summarize_statuses-count_of unreconciled checked.0

has_drift-summarize_statuses_example :
    (has_drift checked.0 ≡ false)
    ↔ ((summarize_statuses checked.0).in_sync_count ≡ length checked.0)
has_drift-summarize_statuses_example = has_drift-summarize_statuses checked.0

build_lattice_succeeds_example :
    ((l : Lattice) × (build_lattice one_line two_docs ≡ ok l))
    ↔ AllDistinct (declared_ids one_line two_docs)
build_lattice_succeeds_example = build_lattice_succeeds one_line two_docs

build_lattice_refuses_example :
    Refused {A = Outcome Lattice} err (build_lattice one_line (derived_doc ∷ derived_doc ∷ []))
build_lattice_refuses_example =
    build_lattice_refuses one_line (derived_doc ∷ derived_doc ∷ []) again

build_lattice-IsCoherent_example : IsCoherent lattice
build_lattice-IsCoherent_example = build_lattice-IsCoherent one_line two_docs lattice is_built

lint_lattice-ladder_example : (linted.0.violations ≡ []) ↔ (
    (id : Text) (node : Node) (e : Edge)
    → get lattice.nodes_by_id id ≡ some node
    → Memᴰ e node.derives_from
    → KeepsLadder lattice node.authority e)
lint_lattice-ladder_example = lint_lattice-ladder lattice linted.0 linted.1

trigger-AllDistinct : AllDistinct (keys trigger)
unfolding keys
trigger-AllDistinct = (λ m. absurd (Memᴰ.not-nil m), tt)

stale_shipped_exact_example :
    Ordered shipped.0
    × Once shipped.0
    × ((f : Finding) → Memᴰ f shipped.0 ↔ IsDue lattice [] [] trigger f)
stale_shipped_exact_example =
    stale_shipped_exact lattice [] [] trigger shipped.0 trigger-AllDistinct shipped.1

abbrev outer_section : TargetId
outer_section = record { file_id = []; anchor = some (codes "a") }

abbrev inner_section : TargetId
inner_section = record { file_id = []; anchor = some (codes "b") }

abbrev two_spans : Dict TargetId (ℕ × ℕ)
two_spans = (outer_section, (1, 5)) ∷ (inner_section, (2, 3)) ∷ []

two_sections-AllDistinct : AllDistinct (outer_section ∷ inner_section ∷ [])
two_sections-AllDistinct = (λ m. apart (Memᴰ.eq_of_singleton m), (λ m. absurd (Memᴰ.not-nil m), tt))
  where
    apart : outer_section ≢ inner_section
    apart e =
        (let same : ◌≡◌ {A = Option Text} (some (codes "a")) (some (codes "b")) =
            ap (λ (t : TargetId). t.anchor) e in
          ground arith)

two_spans-has :
    (t : TargetId) → Memᴰ t (outer_section ∷ inner_section ∷ []) → has two_spans t ≡ true
unfolding has doc_lattice.Model.target_beq doc_lattice.Prelude.list_beq
    doc_lattice.Prelude.option_beq
two_spans-has t m = elim (Memᴰ.cases_cons m) [
  | inl here ↦ subst (λ x. has two_spans x ≡ true) (sym here) refl
  | inr later ↦ subst (λ x. has two_spans x ≡ true) (sym (Memᴰ.eq_of_singleton later)) refl
]

record_ancestors_exact_example :
    (after : Dict TargetId (List TargetId)) × (record_ancestors
        (outer_section ∷ inner_section ∷ [])
        two_spans
        []
        []
      ≡ ok after)
    × ((front back : List TargetId) (t : TargetId)
        → outer_section ∷ inner_section ∷ [] ≡ front ++ t ∷ back
        → (ids : List TargetId) × (get after t ≡ some ids)
          × ((s : TargetId)
              → Memᴰ s ids ↔ Outlasts two_spans (stop_of two_spans t) (nearest_first front []) s))
record_ancestors_exact_example =
    record_ancestors_exact two_spans (outer_section ∷ inner_section ∷ []) []
      two_sections-AllDistinct two_spans-has

lint_built_returns_example : (result : LintResult) × (lint_lattice lattice ≡ ok result)
lint_built_returns_example = lint_built_returns one_line two_docs lattice is_built
