-- ===== src/Impact.antt =====
-- impact.py: the reverse walk over `dependents`.
pub mod Reach
pub mod Visit
pub mod Queue
pub mod Walk
pub mod Exact
use doc_lattice.Prelude.{
  ℕ, zero, suc, ◌+◌, Bool, true, false, Option, none, some, List, [], ◌∷◌, ◌++◌, length, ltb, leb,
  if◌then◌else◌, nat_eq, list_eq, option_eq, contains,
}
use doc_lattice.Text.{Text}
use doc_lattice.Sorting.{sorted}
use doc_lattice.Dict.{Dict, keys, get, has, put, get_or}
use doc_lattice.Model.{
  TargetId, target_eq, file_target, parse_ref, LocationKind, Location, Node, Lattice,
}
use doc_lattice.Sets.{add, union}
use doc_lattice.Result.{◌>>=◌, ok, err, or_raise}
use doc_lattice.Errors.{Outcome, unknown_target, key_error, out_of_fuel}

-- The two branches on `location.kind` of expand_targets.
unfoldable pub expand_location : Lattice → TargetId → Location → Outcome (List TargetId)
unfolding union
expand_location lattice target_id location = elim location.kind [
  | LocationKind.file ↦ do
    anchors ← or_raise key_error (get lattice.anchors_by_path location.path)
    ok (union (target_id ∷ []) anchors)
  | LocationKind.section ↦ do
    ancestors ← or_raise key_error (get lattice.ancestors target_id)
    file_id ← or_raise key_error (get lattice.file_id_by_path location.path)
    ok (add (file_target file_id) (union (target_id ∷ []) ancestors))
]

-- expand_targets
unfoldable pub expand_targets : Lattice → Text → Outcome (List TargetId)
unfolding expand_location
expand_targets lattice token = elim (get lattice.index (parse_ref token)) [
  | none ↦ ok []
  | some location ↦ expand_location lattice (parse_ref token) location
]

-- `max_depth is not None and depth >= max_depth`
unfoldable pub depth_limit_reached : Option ℕ → ℕ → Bool
depth_limit_reached max_depth depth = elim max_depth [ none ↦ false | some limit ↦ leb limit depth ]

-- `max_depth is None or next_depth < max_depth`
unfoldable pub can_expand_source : Option ℕ → ℕ → Bool
can_expand_source max_depth next_depth = elim max_depth [
  | none ↦ true
  | some limit ↦ ltb next_depth limit
]

abbrev pub Queue : Type 0
Queue = List (TargetId × ℕ)

-- `((anchor, next_depth) for anchor in anchors)`
unfoldable pub at_depth : ℕ → List TargetId → Queue
at_depth depth [] = []
at_depth depth (t ∷ ts) = (t, depth) ∷ at_depth depth ts

module _ (lattice : Lattice) (max_depth : Option ℕ) where
  -- What one newly affected source puts into the queue.
  unfoldable pub enqueue_source : Text → ℕ → Queue → Outcome Queue
  unfolding at_depth
  enqueue_source source_id next_depth queue = do
    node ← or_raise key_error (get lattice.nodes_by_id source_id)
    anchors ← or_raise key_error (get lattice.anchors_by_path node.path)
    ok (queue ++ ((file_target source_id, next_depth) ∷ at_depth next_depth anchors))

  -- `for source_id in lattice.dependents.get(current, frozenset())`
  unfoldable pub visit_sources : ℕ → List Text → Queue → Dict Text ℕ → Outcome (Queue × Dict Text ℕ)
  visit_sources next_depth [] queue affected = ok (queue, affected)
  visit_sources next_depth (source_id ∷ sources) queue affected = do
    let skipped = visit_sources next_depth sources queue affected
    let entered = (do
      queue' ←
          if can_expand_source max_depth next_depth
          then enqueue_source source_id next_depth queue
          else ok queue
      visit_sources next_depth sources queue' (put affected source_id next_depth))
    if has affected source_id then skipped else entered

  -- The `while queue` loop.
  unfoldable pub walk : ℕ → Queue → List TargetId → Dict Text ℕ → Outcome (Dict Text ℕ)
  unfolding visit_sources
  walk fuel [] visited affected = ok affected
  walk zero (entry ∷ queue) visited affected = err out_of_fuel
  walk (suc fuel) ((current, depth) ∷ queue) visited affected =
      let known = walk fuel queue visited affected in
      let bounded = walk fuel queue (add current visited) affected in
      let entered = (do
        next ← visit_sources (depth + 1) (get_or lattice.dependents current []) queue affected
        walk fuel next.0 (add current visited) next.1) in
      if contains visited current
      then known
      else if depth_limit_reached max_depth depth
      then bounded
      else entered

-- The rounds that a source still to be affected can add: one for its file, one for each anchor.
unfoldable pub source_weight : Lattice → Text → ℕ
source_weight lattice id = elim (get lattice.nodes_by_id id) [
  | none ↦ 0
  | some node ↦ 1 + length (get_or lattice.anchors_by_path node.path [])
]

unfoldable pub work_left : Lattice → List Text → Dict Text ℕ → ℕ
unfolding source_weight
work_left lattice [] affected = 0
work_left lattice (id ∷ ids) affected =
    (if has affected id then 0 else source_weight lattice id) + work_left lattice ids affected

-- `[(lattice.nodes_by_id[node_id], affected[node_id]) for node_id in sorted(affected)]`
unfoldable pub list_affected : Lattice → Dict Text ℕ → List Text → Outcome (List (Node × ℕ))
list_affected lattice affected [] = ok []
list_affected lattice affected (id ∷ ids) = do
  node ← or_raise key_error (get lattice.nodes_by_id id)
  depth ← or_raise key_error (get affected id)
  rest ← list_affected lattice affected ids
  ok ((node, depth) ∷ rest)

-- impact
unfoldable pub impact : Lattice → Text → Option ℕ → Outcome (List (Node × ℕ))
unfolding expand_targets walk work_left list_affected
impact lattice token max_depth =
    if has lattice.index (parse_ref token)
    then (do
      roots ← expand_targets lattice token
      affected ←
          walk lattice max_depth (length roots + work_left lattice (keys lattice.nodes_by_id) [])
            (at_depth 0 roots) [] []
      list_affected lattice affected (sorted (keys affected)))
    else err (unknown_target token)
