-- ===== src/StaleShipped.antt =====
-- stale_shipped.py: which nodes the audit looks at, and the grading of their tickets.
pub mod Order
pub mod Verdicts
pub mod Loop
pub mod Grading
pub mod Collecting
pub mod Scope
use doc_lattice.Prelude.{
  ℕ, ◌+◌, Bool, true, false, not, ◌&&◌, ◌||◌, Option, none, some, List, [], ◌∷◌, ◌++◌, ltb,
  if◌then◌else◌, is_some, is_empty, ◌==◌, nat_eq, list_eq, option_eq, contains,
}
use doc_lattice.Text.{Text}
use doc_lattice.Sorting.{text_leb}
use doc_lattice.Dict.{Dict, get, has, put, get_or}
use doc_lattice.Sets.{add, union}
use doc_lattice.Model.{TargetId, target_eq, file_target, DocumentOrigin, Node, Edge, Lattice}
use doc_lattice.Origins.{external_origins}
use doc_lattice.Result.{◌>>=◌, ok, or_raise}
use doc_lattice.Errors.{Outcome, key_error}
use doc_lattice.Check.{EdgeState, EdgeStatus, check_lattice}
use doc_lattice.Impact.{expand_targets, impact}
use doc_lattice.Tickets.{
  LinearStateType, Severity, danger, blocked, warning, info, BlockedReason, not_found, Ticket,
  Finding,
}

abbrev pub Trigger : Type 0
Trigger = Dict Text (List Text)

-- `status.state in ("STALE", "AMBIGUOUS")`
abbrev pub is_trigger : EdgeState → Bool
is_trigger EdgeState.stale = true
is_trigger EdgeState.ambiguous = true
is_trigger _ = false

-- The loop that fills `grouped`.
unfoldable pub group_refs : List EdgeStatus → Trigger → Trigger
group_refs [] grouped = grouped
group_refs (status ∷ statuses) grouped = group_refs statuses (
    if is_trigger status.state
    then put grouped status.source_id (get_or grouped status.source_id [] ++ status.target_ref ∷ [])
    else grouped)

-- `{node.id for node, _ in impact(lattice, target)}`
unfoldable pub affected_ids : List (Node × ℕ) → List Text
affected_ids [] = []
affected_ids ((node, _) ∷ rest) = add node.id (affected_ids rest)

-- `{tid.file_id for tid in … if tid.anchor is None and tid.file_id in lattice.nodes_by_id}`
unfoldable pub own_nodes : Lattice → List TargetId → List Text
own_nodes lattice [] = []
own_nodes lattice (tid ∷ tids) =
    let rest = own_nodes lattice tids in
    if not (is_some tid.anchor) && has lattice.nodes_by_id tid.file_id
    then add tid.file_id rest
    else rest

-- `{node_id: refs for node_id, refs in trigger.items() if node_id in affected}`
unfoldable pub narrow : List Text → Trigger → Trigger
narrow affected [] = []
narrow affected ((node_id, refs) ∷ trigger) =
    let rest = narrow affected trigger in
    if contains affected node_id then (node_id, refs) ∷ rest else rest

-- build_audit_trigger
unfoldable pub build_audit_trigger : (Text → Text) → Lattice → Option Text → Outcome Trigger
unfolding group_refs affected_ids own_nodes narrow
build_audit_trigger sha256_hex lattice target = do
  statuses ← check_lattice sha256_hex lattice
  let trigger = group_refs statuses []
  elim target [
    | none ↦ ok trigger
    | some id ↦ (do
      report ← impact lattice id none
      roots ← expand_targets lattice id
      ok (narrow (union (affected_ids report) (own_nodes lattice roots)) trigger))
  ]

-- The loop that fills `closure`.
unfoldable pub close_over : Lattice → List (Node × ℕ) → List TargetId → Outcome (List TargetId)
close_over lattice [] closure = ok closure
close_over lattice ((node, _) ∷ rest) closure = do
  anchors ← or_raise key_error (get lattice.anchors_by_path node.path)
  close_over lattice rest (union (add (file_target node.id) closure) anchors)

-- `tuple(edge.target_ref for edge in … if edge.target_id in closure)`
unfoldable pub refs_into : List TargetId → List Edge → List Text
refs_into closure [] = []
refs_into closure (edge ∷ edges) =
    let rest = refs_into closure edges in
    elim edge.target_id [
      | none ↦ rest
      | some t ↦ if contains closure t then edge.target_ref ∷ rest else rest
    ]

unfoldable pub connect : List TargetId → List (Node × ℕ) → Trigger → Trigger
unfolding refs_into
connect closure [] trigger = trigger
connect closure ((node, _) ∷ rest) trigger =
    let refs = refs_into closure node.derives_from in
    connect closure rest (if is_empty refs then trigger else put trigger node.id refs)

-- build_from_trigger
unfoldable pub build_from_trigger : Lattice → Text → Outcome Trigger
unfolding close_over connect
build_from_trigger lattice from_id = do
  affected ← impact lattice from_id none
  roots ← expand_targets lattice from_id
  closure ← close_over lattice affected roots
  ok (connect closure affected [])

-- `_STATE_SEVERITY.get(state)`
abbrev pub state_severity : LinearStateType → Option Severity
state_severity LinearStateType.completed = some danger
state_severity LinearStateType.started = some warning
state_severity LinearStateType.unstarted = some info
state_severity LinearStateType.backlog = some info
state_severity _ = none

-- `_SEVERITY_RANK`
abbrev pub severity_rank : Severity → ℕ
severity_rank Severity.danger = 0
severity_rank Severity.blocked = 1
severity_rank Severity.warning = 2
severity_rank Severity.info = 3

-- `participants`, behind the node itself.
unfoldable pub upstream_files : List Text → List Edge → List Text
upstream_files refs [] = []
upstream_files refs (edge ∷ edges) =
    let rest = upstream_files refs edges in
    elim edge.target_id [
      | none ↦ rest
      | some t ↦ if contains refs edge.target_ref then t.file_id ∷ rest else rest
    ]

module _ (lattice : Lattice) (tickets : Dict Text Ticket) (rejected : Dict Text BlockedReason) where
  -- The severity, the reason and the ticket of one ref; nothing where its state is not graded.
  unfoldable pub grade : Text → Option (Severity × Option BlockedReason × Option Ticket)
  grade ref = elim (get tickets ref) [
    | some ticket ↦ elim (state_severity ticket.state.type) [
      | none ↦ none
      | some graded ↦ some (graded, none, some ticket)
    ]
    | none ↦ some (blocked, some (get_or rejected ref not_found), none)
  ]

  abbrev pub finding_of :
      Node
      → Text
      → List Text
      → Dict Text DocumentOrigin
      → Text
      → Severity × Option BlockedReason × Option Ticket
      → Finding
  finding_of node node_id refs origins ref (severity, reason, ticket) = record {
    severity = severity;
    node_id = node_id;
    node_title = node.title;
    node_path = node.path;
    drifted_refs = refs;
    ticket_ref = ref;
    reason = reason;
    ticket = ticket;
    origins = origins;
  }

  -- The loop over `dict.fromkeys(node.tickets)`, over the refs that are not in `done` yet.
  unfoldable pub grade_tickets :
      Node → Text → List Text → Dict Text DocumentOrigin → List Text → List Text → List Finding
  unfolding grade
  grade_tickets node node_id refs origins done [] = []
  grade_tickets node node_id refs origins done (ref ∷ rest) =
      let skipped = grade_tickets node node_id refs origins done rest in
      let later = grade_tickets node node_id refs origins (ref ∷ done) rest in
      if contains done ref then skipped else elim (grade ref) [
        | none ↦ later
        | some graded ↦ finding_of node node_id refs origins ref graded ∷ later
      ]

  unfoldable pub grade_nodes : Trigger → Outcome (List Finding)
  unfolding grade_tickets upstream_files
  grade_nodes [] = ok []
  grade_nodes ((node_id, refs) ∷ trigger) = do
    node ← or_raise key_error (get lattice.nodes_by_id node_id)
    let origins = external_origins lattice (node_id ∷ upstream_files refs node.derives_from)
    rest ← grade_nodes trigger
    ok (grade_tickets node node_id refs origins [] node.tickets ++ rest)

  -- `<=` on the sort keys `(severity rank, node_id, ticket_ref)`
  unfoldable pub finding_leb : Finding → Finding → Bool
  finding_leb a b =
      ltb (severity_rank a.severity) (severity_rank b.severity)
      || severity_rank a.severity == severity_rank b.severity
        && ((text_leb a.node_id b.node_id && not (a.node_id == b.node_id))
            || a.node_id == b.node_id && text_leb a.ticket_ref b.ticket_ref)

  unfoldable pub insert_finding : Finding → List Finding → List Finding
  unfolding finding_leb
  insert_finding x [] = x ∷ []
  insert_finding x (y ∷ ys) =
      let rest = insert_finding x ys in if finding_leb x y then x ∷ y ∷ ys else y ∷ rest

  -- `findings.sort(key=…)`, which is stable.
  unfoldable pub sort_findings : List Finding → List Finding
  unfolding insert_finding
  sort_findings [] = []
  sort_findings (x ∷ xs) = insert_finding x (sort_findings xs)

  -- stale_shipped
  unfoldable pub stale_shipped : Trigger → Outcome (List Finding)
  unfolding grade_nodes sort_findings
  stale_shipped trigger = do findings ← grade_nodes trigger; ok (sort_findings findings)
