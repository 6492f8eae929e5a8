-- ===== src/Check.antt =====
-- check.py: every edge is classified against the hash that it has locked.
pub mod Caching
pub mod Gate
pub mod Total
pub mod Reports
use doc_lattice.Prelude.{
  ℕ, ◌+◌, Bool, true, false, not, ◌||◌, Option, none, some, List, [], ◌∷◌, ◌++◌, if◌then◌else◌,
  ◌==◌, nat_eq, list_eq, option_eq,
}
use doc_lattice.Text.{Text}
use doc_lattice.Sorting.{sorted}
use doc_lattice.Dict.{Dict, keys, get}
use doc_lattice.Model.{TargetId, target_eq, CollisionMember, DocumentOrigin, Edge, Lattice}
use doc_lattice.Origins.{edge_origins}
use doc_lattice.Resolve.{cached_target_hash}
use doc_lattice.Result.{◌>>=◌, ok, or_raise}
use doc_lattice.Errors.{Outcome, key_error}

-- constants.py: EdgeState
pub data EdgeState : Type 0 where
  in_sync stale unreconciled broken ambiguous : EdgeState

pub record EdgeStatus : Type 0 where
  pub source_id : Text
  pub target_ref : Text
  pub target_id : Option TargetId
  pub state : EdgeState
  pub expected : Option Text
  pub actual : Option Text
  pub collision : List CollisionMember
  pub origins : Dict Text DocumentOrigin

abbrev pub status_of :
    Text
    → Edge
    → Option TargetId
    → EdgeState
    → Option Text
    → Option Text
    → List CollisionMember
    → Dict Text DocumentOrigin
    → EdgeStatus
status_of source_id edge target_id state expected actual collision origins = record {
  source_id = source_id;
  target_ref = edge.target_ref;
  target_id = target_id;
  state = state;
  expected = expected;
  actual = actual;
  collision = collision;
  origins = origins;
}

-- _ambiguous
unfoldable pub ambiguous_status :
    Text → Edge → List CollisionMember → Dict Text DocumentOrigin → EdgeStatus
ambiguous_status source_id edge collision origins =
    status_of source_id edge edge.target_id ambiguous edge.seen none collision origins

-- The last steps of _classify, once the live hash is known.
unfoldable pub compare_seen : Text → Edge → TargetId → Text → Dict Text DocumentOrigin → EdgeStatus
compare_seen source_id edge target_id actual origins = elim edge.seen [
  | none ↦ status_of source_id edge (some target_id) unreconciled none (some actual) [] origins
  | some seen ↦
      status_of source_id edge (some target_id) (if actual == seen then in_sync else stale)
        (some seen) (some actual) [] origins
]

abbrev pub Cache : Type 0
Cache = Dict TargetId Text

module _ (sha256_hex : Text → Text) (lattice : Lattice) where
  -- _classify: the status, and the cache afterwards.
  unfoldable pub classify : Text → Edge → Cache → Outcome (EdgeStatus × Cache)
  unfolding ambiguous_status compare_seen
  classify source_id edge cache =
      let origins = edge_origins lattice source_id edge in
      elim edge.target_id [
        | none ↦ ok (status_of source_id edge none broken edge.seen none [] origins, cache)
        | some target_id ↦ elim (get lattice.collisions target_id) [
          | some collision ↦ ok (ambiguous_status source_id edge collision origins, cache)
          | none ↦ do
            hashed ← cached_target_hash sha256_hex lattice target_id cache
            ok (compare_seen source_id edge target_id hashed.0 origins, hashed.1)
        ]
      ]

  -- `for edge in node.derives_from: statuses.append(_classify(...))`
  unfoldable pub classify_edges : Text → List Edge → Cache → Outcome (List EdgeStatus × Cache)
  classify_edges source_id [] cache = ok ([], cache)
  classify_edges source_id (edge ∷ edges) cache = do
    first ← classify source_id edge cache
    rest ← classify_edges source_id edges first.1
    ok (first.0 ∷ rest.0, rest.1)

  unfoldable pub check_nodes : List Text → Cache → Outcome (List EdgeStatus × Cache)
  unfolding classify_edges
  check_nodes [] cache = ok ([], cache)
  check_nodes (node_id ∷ ids) cache = do
    node ← or_raise key_error (get lattice.nodes_by_id node_id)
    here ← classify_edges node_id node.derives_from cache
    rest ← check_nodes ids here.1
    ok (here.0 ++ rest.0, rest.1)

  -- check_lattice
  unfoldable pub check_lattice : Outcome (List EdgeStatus)
  unfolding check_nodes
  check_lattice = do checked ← check_nodes (sorted (keys lattice.nodes_by_id)) []; ok checked.0

-- The edges of one node that ambiguous_edges reports.
unfoldable pub ambiguous_of : Lattice → Text → List Edge → List EdgeStatus
unfolding ambiguous_status
ambiguous_of lattice node_id [] = []
ambiguous_of lattice node_id (edge ∷ edges) =
    let rest = ambiguous_of lattice node_id edges in
    elim edge.target_id [
      | none ↦ rest
      | some target_id ↦ elim (get lattice.collisions target_id) [
        | none ↦ rest
        | some collision ↦
            ambiguous_status node_id edge collision (edge_origins lattice node_id edge) ∷ rest
      ]
    ]

unfoldable pub ambiguous_nodes : Lattice → List Text → Outcome (List EdgeStatus)
unfolding ambiguous_of
ambiguous_nodes lattice [] = ok []
ambiguous_nodes lattice (node_id ∷ ids) = do
  node ← or_raise key_error (get lattice.nodes_by_id node_id)
  rest ← ambiguous_nodes lattice ids
  ok (ambiguous_of lattice node_id node.derives_from ++ rest)

-- ambiguous_edges
unfoldable pub ambiguous_edges : Lattice → Outcome (List EdgeStatus)
unfolding ambiguous_nodes
ambiguous_edges lattice = ambiguous_nodes lattice (sorted (keys lattice.nodes_by_id))

abbrev pub is_in_sync : EdgeState → Bool
is_in_sync in_sync = true
is_in_sync _ = false

abbrev pub is_ambiguous : EdgeState → Bool
is_ambiguous ambiguous = true
is_ambiguous _ = false

-- has_drift
unfoldable pub has_drift : List EdgeStatus → Bool
has_drift [] = false
has_drift (s ∷ statuses) = not (is_in_sync s.state) || has_drift statuses

pub record Summary : Type 0 where
  pub in_sync_count : ℕ
  pub stale_count : ℕ
  pub unreconciled_count : ℕ
  pub broken_count : ℕ
  pub ambiguous_count : ℕ

-- `summary[status.state] += 1`
unfoldable pub count_state : EdgeState → Summary → Summary
count_state in_sync s = record s { in_sync_count = s.in_sync_count + 1 }
count_state stale s = record s { stale_count = s.stale_count + 1 }
count_state unreconciled s = record s { unreconciled_count = s.unreconciled_count + 1 }
count_state broken s = record s { broken_count = s.broken_count + 1 }
count_state ambiguous s = record s { ambiguous_count = s.ambiguous_count + 1 }

abbrev pub no_statuses : Summary
no_statuses = record {
  in_sync_count = 0;
  stale_count = 0;
  unreconciled_count = 0;
  broken_count = 0;
  ambiguous_count = 0;
}

unfoldable pub summarize_from : Summary → List EdgeStatus → Summary
unfolding count_state
summarize_from summary [] = summary
summarize_from summary (s ∷ statuses) = summarize_from (count_state s.state summary) statuses

-- summarize_statuses
unfoldable pub summarize_statuses : List EdgeStatus → Summary
unfolding summarize_from
summarize_statuses statuses = summarize_from no_statuses statuses
