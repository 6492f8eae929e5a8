-- ===== src/StaleShipped/Grading.antt =====
-- What stale_shipped reports.
use doc_lattice.Prelude.{
  ◌≡◌, ◌↔◌, refl, sym, ap, ◌∙◌, subst, some, List, [], ◌∷◌, Memᴰ, nat_eq, list_eq, option_eq,
  contains,
}
use doc_lattice.Text.{Text}
use doc_lattice.Dict.{Dict, keys, get}
use doc_lattice.Dict.Keys.{AllDistinct}
use doc_lattice.StaleShipped.Order.{
  Ordered, Once, sort_findings-mem, sort_findings-Ordered, sort_findings-Once,
}
use doc_lattice.StaleShipped.Verdicts.{
  Verdict, grade-Verdict, Upstream, upstream_files-Upstream, Upstream-unique,
}
use doc_lattice.Model.{Node, Lattice}
use doc_lattice.Origins.{external_origins}
use doc_lattice.Result.{ok, >>=-eq-ok}
use doc_lattice.Tickets.{BlockedReason, Ticket, Finding}
use doc_lattice.StaleShipped.{
  Trigger, upstream_files, finding_of, grade_tickets, grade_nodes, sort_findings, stale_shipped,
}
use doc_lattice.StaleShipped.Loop.{IsGraded, grade_tickets-mem, grade_nodes-mem, grade_nodes-Once}

module _ (lattice : Lattice) (tickets : Dict Text Ticket) (rejected : Dict Text BlockedReason) where
  -- The finding is about the node and one of its tickets, names the drifted refs of the node, has the verdict on the
  -- ticket, and the external origins of the node and of the files that its drifted refs lead to.
  pub record IsOf (node_id : Text) (refs : List Text) (node : Node) (f : Finding) : Type 0 where
    owner : f.node_id ≡ node_id
    title : f.node_title ≡ node.title
    path : f.node_path ≡ node.path
    drifted : f.drifted_refs ≡ refs
    listed : Memᴰ f.ticket_ref node.tickets
    verdict : Verdict tickets rejected f.ticket_ref f.severity f.reason f.ticket
    upstream : List Text
    leads : Upstream refs node.derives_from upstream
    origins : f.origins ≡ external_origins lattice (node_id ∷ upstream)

  -- A finding of a node of the trigger.
  abbrev pub IsDue : Trigger → Finding → Type 0
  IsDue trigger f =
      (node_id : Text) × (refs : List Text) × (node : Node) × Memᴰ (node_id, refs) trigger
      × (get lattice.nodes_by_id node_id ≡ some node)
      × IsOf node_id refs node f

  IsGraded-IsOf :
      (node_id : Text) (refs : List Text) (node : Node) (f : Finding)
      → IsGraded lattice tickets rejected node node_id refs
          (external_origins lattice (node_id ∷ upstream_files refs node.derives_from))
          []
          node.tickets
          f
        ↔ IsOf node_id refs node f
  unfolding IsGraded contains
  IsGraded-IsOf node_id refs node f = (
    λ (ref, (severity, reason, ticket), m, _, at_ref, e).
        let verdict =
          (grade-Verdict tickets rejected lattice ref severity reason ticket).0 at_ref in
        record {
          owner = ap (λ (x : Finding). x.node_id) e;
          title = ap (λ (x : Finding). x.node_title) e;
          path = ap (λ (x : Finding). x.node_path) e;
          drifted = ap (λ (x : Finding). x.drifted_refs) e;
          listed = subst (λ (x : Finding). Memᴰ x.ticket_ref node.tickets) (sym e) m;
          verdict =
              subst
                (λ (x : Finding).
                  Verdict tickets rejected x.ticket_ref x.severity x.reason x.ticket)
                (sym e) verdict;
          upstream = upstream_files refs node.derives_from;
          leads = upstream_files-Upstream refs node.derives_from;
          origins = ap (λ (x : Finding). x.origins) e;
        },
    λ h. (
      f.ticket_ref,
      (f.severity, f.reason, f.ticket),
      h.listed,
      refl,
      (grade-Verdict tickets rejected lattice f.ticket_ref f.severity f.reason f.ticket).1
          h.verdict,
      whole h,
    ),
  )
    where
      whole :
          (h : IsOf node_id refs node f)
          → f
            ≡ finding_of lattice tickets rejected node node_id refs
                (external_origins lattice (node_id ∷ upstream_files refs node.derives_from))
                f.ticket_ref
                (f.severity, f.reason, f.ticket)
      whole h =
          let from =
            h.origins
            ∙ ap (λ u. external_origins lattice (node_id ∷ u))
                (Upstream-unique refs node.derives_from h.upstream h.leads) in
          λ i. record {
            severity = f.severity;
            node_id = h.owner i;
            node_title = h.title i;
            node_path = h.path i;
            drifted_refs = h.drifted i;
            ticket_ref = f.ticket_ref;
            reason = f.reason;
            ticket = f.ticket;
            origins = from i;
          }

  grade_nodes-IsDue :
      (trigger : Trigger) (findings : List Finding) (f : Finding)
      → grade_nodes lattice tickets rejected trigger ≡ ok findings
      → Memᴰ f findings ↔ IsDue trigger f
  grade_nodes-IsDue trigger findings f e =
      let (sound, complete) = grade_nodes-mem lattice tickets rejected trigger findings f e in
      (
        λ m.
            let (id, refs, node, k, at_id, l) = sound m in
            (
              id,
              refs,
              node,
              k,
              at_id,
              (IsGraded-IsOf id refs node f).0 ((listed_of id refs node).0 l),
            ),
        λ (id, refs, node, k, at_id, h). complete (
          id,
          refs,
          node,
          k,
          at_id,
          (listed_of id refs node).1 ((IsGraded-IsOf id refs node f).1 h),
        ),
      )
    where
      listed_of :
          (id : Text) (refs : List Text) (node : Node)
          → Memᴰ f (
              grade_tickets lattice tickets rejected node id refs
                (external_origins lattice (id ∷ upstream_files refs node.derives_from))
                []
                node.tickets)
            ↔ IsGraded lattice tickets rejected node id refs
                (external_origins lattice (id ∷ upstream_files refs node.derives_from))
                []
                node.tickets
                f
      listed_of id refs node =
          grade_tickets-mem lattice tickets rejected node id refs
            (external_origins lattice (id ∷ upstream_files refs node.derives_from)) [] node.tickets
            f

  -- For a trigger with no node id twice, where stale_shipped returns, the report has exactly one finding for each node of the trigger and each ref among the
  -- tickets of that node that has a verdict. The finding names the node and its drifted refs, the verdict (danger for a
  -- completed ticket, warning for a started one, info for one that is unstarted or in the backlog, blocked with the
  -- reason for a ref without a ticket, nothing for other states), and the origins of the node and of the files that its
  -- drifted refs lead to. The findings come by severity (danger, blocked, warning, info), then by node id, then by ref.
  pub stale_shipped_exact :
      (trigger : Trigger) (findings : List Finding)
      → AllDistinct (keys trigger)
      → stale_shipped lattice tickets rejected trigger ≡ ok findings
      → Ordered findings × Once findings × ((f : Finding) → Memᴰ f findings ↔ IsDue trigger f)
  unfolding stale_shipped
  stale_shipped_exact trigger findings distinct e =
      let (unsorted, e1, whole) = >>=-eq-ok (grade_nodes lattice tickets rejected trigger) _ e in
      let sorted' : sort_findings lattice tickets rejected unsorted ≡ findings = cc (whole) in
      subst (λ all. Ordered all × Once all × ((f : Finding) → Memᴰ f all ↔ IsDue trigger f)) sorted'
        (
          sort_findings-Ordered lattice tickets rejected unsorted,
          sort_findings-Once lattice tickets rejected unsorted
              (grade_nodes-Once lattice tickets rejected trigger unsorted distinct e1),
          λ f.
              let (sound, complete) = grade_nodes-IsDue trigger unsorted f e1 in
              let (out, into) = sort_findings-mem lattice tickets rejected f unsorted in
              (λ m. sound (out m), λ h. into (complete h)),
        )
