-- ===== src/Origins.antt =====
-- The origins helpers of model.py: which external documents a report names.
use doc_lattice.Prelude.{none, some, List, [], ◌∷◌, Eq, nat_eq, list_eq, option_eq}
use doc_lattice.Text.{Text}
use doc_lattice.Sorting.{sorted, distinct}
use doc_lattice.Dict.{Dict, get, put}
use doc_lattice.Model.{parse_ref, DocumentOrigin, Node, Edge, Lattice}

-- node_origins
unfoldable pub node_origins : Node → Dict Text DocumentOrigin
node_origins node = elim node.origin [
  | none ↦ []
  | some origin ↦ elim origin.declaration [ none ↦ [] | some _ ↦ (node.id, origin) ∷ [] ]
]

-- `origins.update(more)`
unfoldable pub update {ℓ κ} : {K : Type ℓ} {V : Type κ} ⦃e : Eq K⦄ → Dict K V → Dict K V → Dict K V
update d [] = d
update d ((k, v) ∷ more) = update (put d k v) more

-- The loop of external_origins.
unfoldable pub collect_origins :
    Lattice → List Text → Dict Text DocumentOrigin → Dict Text DocumentOrigin
unfolding node_origins update
collect_origins lattice [] origins = origins
collect_origins lattice (node_id ∷ rest) origins =
    collect_origins lattice rest (elim (get lattice.nodes_by_id node_id) [
      | none ↦ origins
      | some node ↦ update origins (node_origins node)
    ])

-- external_origins
unfoldable pub external_origins : Lattice → List Text → Dict Text DocumentOrigin
unfolding collect_origins
external_origins lattice node_ids = collect_origins lattice (sorted (distinct node_ids)) []

-- edge_origins
unfoldable pub edge_origins : Lattice → Text → Edge → Dict Text DocumentOrigin
unfolding external_origins
edge_origins lattice source_id edge =
    external_origins lattice (source_id ∷ (parse_ref edge.target_ref).file_id ∷ [])
