-- ===== src/Lint.antt =====
-- lint.py: the authority ladder over the derives_from edges.
pub mod Ladder
pub mod Total
use doc_lattice.Prelude.{
  ℕ, ◌+◌, Option, none, some, List, [], ◌∷◌, ◌++◌, ltb, if◌then◌else◌, nat_eq, list_eq, option_eq,
}
use doc_lattice.Text.{Text}
use doc_lattice.Sorting.{sorted}
use doc_lattice.Dict.{Dict, keys, get}
use doc_lattice.Model.{TargetId, target_eq, Authority, DocumentOrigin, Edge, Lattice}
use doc_lattice.Origins.{edge_origins}
use doc_lattice.Resolve.{node_for_path}
use doc_lattice.Result.{◌>>=◌, ok, or_raise}
use doc_lattice.Errors.{Outcome, key_error}
use doc_lattice.Check.{EdgeStatus, ambiguous_edges}

pub record LadderViolation : Type 0 where
  pub source_id : Text
  pub source_authority : Authority
  pub target_id : TargetId
  pub target_ref : Text
  pub target_authority : Authority
  pub origins : Dict Text DocumentOrigin

-- constants.py: SkipReason
pub data SkipReason : Type 0 where
  source_unannotated target_unannotated : SkipReason

pub record SkippedEdge : Type 0 where
  pub source_id : Text
  pub target_ref : Text
  pub target_id : TargetId
  pub reason : SkipReason
  pub origins : Dict Text DocumentOrigin

pub record LintResult : Type 0 where
  pub violations : List LadderViolation
  pub skipped : List SkippedEdge
  pub ambiguous : List EdgeStatus

-- _rank: the place in AUTHORITY_LADDER.
abbrev pub rank : Authority → ℕ
rank Authority.exploratory = 0
rank Authority.derived = 1
rank Authority.binding = 2

-- _target_authority
unfoldable pub target_authority : Lattice → TargetId → Outcome (Option Authority)
target_authority lattice target_id = do
  location ← or_raise key_error (get lattice.index target_id)
  node ← node_for_path lattice location.path
  ok node.authority

-- The two lists that lint_lattice fills.
abbrev pub Findings : Type 0
Findings = List LadderViolation × List SkippedEdge

abbrev pub skip_of : Lattice → Text → Edge → TargetId → SkipReason → Findings
skip_of lattice node_id edge target_id reason = (
  [],
  record {
    source_id = node_id;
    target_ref = edge.target_ref;
    target_id = target_id;
    reason = reason;
    origins = edge_origins lattice node_id edge;
  }
      ∷ [],
)

-- What the loop body adds, once both authorities are known.
unfoldable pub judge :
    Lattice → Text → Edge → TargetId → Option Authority → Option Authority → Findings
judge lattice node_id edge target_id none target =
    skip_of lattice node_id edge target_id source_unannotated
judge lattice node_id edge target_id (some source) none =
    skip_of lattice node_id edge target_id target_unannotated
judge lattice node_id edge target_id (some source) (some target) =
    if ltb (rank target) (rank source)
    then (
      record {
        source_id = node_id;
        source_authority = source;
        target_id = target_id;
        target_ref = edge.target_ref;
        target_authority = target;
        origins = edge_origins lattice node_id edge;
      }
          ∷ [],
      [],
    )
    else ([], [])

-- The body of the loop over the edges of one node; a broken edge adds nothing.
unfoldable pub lint_edge : Lattice → Text → Option Authority → Edge → Outcome Findings
unfolding target_authority judge
lint_edge lattice node_id source edge = elim edge.target_id [
  | none ↦ ok ([], [])
  | some target_id ↦ (do
    target ← target_authority lattice target_id
    ok (judge lattice node_id edge target_id source target))
]

unfoldable pub lint_edges : Lattice → Text → Option Authority → List Edge → Outcome Findings
unfolding lint_edge
lint_edges lattice node_id source [] = ok ([], [])
lint_edges lattice node_id source (edge ∷ edges) = do
  first ← lint_edge lattice node_id source edge
  rest ← lint_edges lattice node_id source edges
  ok (first.0 ++ rest.0, first.1 ++ rest.1)

unfoldable pub lint_nodes : Lattice → List Text → Outcome Findings
unfolding lint_edges
lint_nodes lattice [] = ok ([], [])
lint_nodes lattice (node_id ∷ ids) = do
  node ← or_raise key_error (get lattice.nodes_by_id node_id)
  here ← lint_edges lattice node_id node.authority node.derives_from
  rest ← lint_nodes lattice ids
  ok (here.0 ++ rest.0, here.1 ++ rest.1)

-- lint_lattice
unfoldable pub lint_lattice : Lattice → Outcome LintResult
unfolding lint_nodes
lint_lattice lattice = do
  found ← lint_nodes lattice (sorted (keys lattice.nodes_by_id))
  ambiguous ← ambiguous_edges lattice
  ok (record { violations = found.0; skipped = found.1; ambiguous = ambiguous })
