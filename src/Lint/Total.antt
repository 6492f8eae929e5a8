-- ===== src/Lint/Total.antt =====
-- When lint_lattice raises.
use doc_lattice.Prelude.{
  ◌≡◌, inl, inr, refl, true, Option, some, List, [], ◌∷◌, ◌++◌, Memᴰ, Option-cases, nat_eq, list_eq,
  option_eq,
}
use doc_lattice.Text.{Text}
use doc_lattice.Sorting.{sorted, sorted-mem}
use doc_lattice.Dict.{keys, has}
use doc_lattice.Dict.Laws.{has_iff, has-get}
use doc_lattice.Model.{TargetId, target_eq, Authority, Edge, Lattice, ParsedDoc, FileSections}
use doc_lattice.Loader.{build_lattice}
use doc_lattice.Loader.Coherence.{IsCoherent, build_lattice-IsCoherent}
use doc_lattice.Resolve.{node_for_path}
use doc_lattice.Result.{ok}
use doc_lattice.Check.Gate.{Returns}
use doc_lattice.Check.Total.{Returns-bind, check_lattice-Returns}
use doc_lattice.Check.Reports.{only_ambiguous, ambiguous_edges-eq-only_ambiguous}
use doc_lattice.Lint.{
  LintResult, judge, target_authority, lint_edge, lint_edges, lint_nodes, lint_lattice,
}

module _ (lattice : Lattice) (coherent : IsCoherent lattice) where
  target_authority-Returns :
      (t : TargetId) → has lattice.index t ≡ true → Returns (target_authority lattice t)
  unfolding target_authority node_for_path
  target_authority-Returns t h =
      let (loc, at_t) = has-get lattice.index t h in
      let (id, node, owner, found) = coherent.owned t loc at_t in
      (node.authority, rw (at_t, owner, found) refl)

  lint_edge-Returns :
      (node_id : Text) (source : Option Authority) (edge : Edge)
      → ((t : TargetId) → edge.target_id ≡ some t → has lattice.index t ≡ true)
      → Returns (lint_edge lattice node_id source edge)
  unfolding lint_edge doc_lattice.Origins.edge_origins
  lint_edge-Returns node_id source edge h = elim (Option-cases edge.target_id) [
    | inl broken ↦ (([], []), rw (lint_edge, broken) refl)
    | inr (t, at_t) ↦
        let (target, e) = target_authority-Returns t (h t at_t) in
        (judge lattice node_id edge t source target, rw (lint_edge, at_t, e) refl)
  ]

  lint_edges-Returns :
      (node_id : Text) (source : Option Authority) (edges : List Edge)
      → ((e : Edge) (t : TargetId)
          → Memᴰ e edges
          → e.target_id ≡ some t
          → has lattice.index t ≡ true)
      → Returns (lint_edges lattice node_id source edges)
  unfolding lint_edges
  lint_edges-Returns node_id source [] h = (([], []), refl)
  lint_edges-Returns node_id source (edge ∷ edges) h =
      Returns-bind (lint_edge lattice node_id source edge) _
        (lint_edge-Returns node_id source edge (λ t e. h edge t (Memᴰ.head refl) e))
        λ first _.
          Returns-bind (lint_edges lattice node_id source edges) _
            (lint_edges-Returns node_id source edges (λ e t m. h e t (Memᴰ.tail m)))
            λ rest _. (_, refl)

  lint_nodes-Returns :
      (ids : List Text)
      → ((id : Text) → Memᴰ id ids → has lattice.nodes_by_id id ≡ true)
      → Returns (lint_nodes lattice ids)
  unfolding lint_nodes
  lint_nodes-Returns [] h = (([], []), refl)
  lint_nodes-Returns (id ∷ ids) h =
      let (node, found) = has-get lattice.nodes_by_id id (h id (Memᴰ.head refl)) in
      let (here, e1) =
        lint_edges-Returns id node.authority node.derives_from
          (λ e t m at'. (coherent.edges id node e t found m at').1) in
      let (rest, e2) = lint_nodes-Returns ids (λ j m. h j (Memᴰ.tail m)) in
      ((here.0 ++ rest.0, here.1 ++ rest.1), rw (found, e1, e2) refl)

  pub lint_lattice-Returns : Returns (lint_lattice lattice)
  unfolding lint_lattice
  lint_lattice-Returns =
      let (found, e) =
        lint_nodes-Returns (sorted (keys lattice.nodes_by_id))
          (λ id m. (has_iff lattice.nodes_by_id id).1 ((sorted-mem id _).0 m)) in
      let (statuses, checked) = check_lattice-Returns (λ text. text) lattice coherent in
      (
        record { violations = found.0; skipped = found.1; ambiguous = only_ambiguous statuses },
        rw (e, ambiguous_edges-eq-only_ambiguous (λ text. text) lattice statuses checked) refl,
      )

-- On a lattice that build_lattice returned, lint_lattice returns a result: no lookup of it can miss.
pub lint_built_returns :
    (derive : Text → FileSections) (docs : List ParsedDoc) (lattice : Lattice)
    → build_lattice derive docs ≡ ok lattice
    → (result : LintResult) × (lint_lattice lattice ≡ ok result)
lint_built_returns derive docs lattice e =
    lint_lattice-Returns lattice (build_lattice-IsCoherent derive docs lattice e)
