-- ===== src/StaleShipped/Verdicts.antt =====
-- What is due for a ref of a node: its severity, its reason and its ticket, and who takes part in the drift.
use doc_lattice.Prelude.{
  ◌≡◌, ◌↔◌, ◌⊎◌, inl, inr, refl, sym, ap, ◌∙◌, subst, Option, none, some, List, [], ◌∷◌, Memᴰ,
  arith, Option-cases, Bool-cases, nat_eq, list_eq, option_eq, contains, contains_iff,
}
use doc_lattice.Text.{Text}
use doc_lattice.Dict.{Dict, get, get_or}
use doc_lattice.Model.{TargetId, Edge, Lattice}
use doc_lattice.Tickets.{LinearStateType, Severity, BlockedReason, Ticket}
use doc_lattice.StaleShipped.{state_severity, upstream_files, grade}

-- The severity of a ticket whose node has drifted, by the state of the ticket. A ticket in triage, canceled or a
-- duplicate has none.
pub data StateSeverity : LinearStateType → Severity → Type 0 where
  shipped :
      {type : LinearStateType} {severity : Severity}
      → type ≡ LinearStateType.completed
      → severity ≡ Severity.danger
      → StateSeverity type severity
  in_work :
      {type : LinearStateType} {severity : Severity}
      → type ≡ LinearStateType.started
      → severity ≡ Severity.warning
      → StateSeverity type severity
  ahead :
      {type : LinearStateType} {severity : Severity}
      → (type ≡ LinearStateType.unstarted) ⊎ (type ≡ LinearStateType.backlog)
      → severity ≡ Severity.info
      → StateSeverity type severity

state_severity-StateSeverity :
    (type : LinearStateType) (severity : Severity)
    → state_severity type ≡ some severity
    → StateSeverity type severity
state_severity-StateSeverity LinearStateType.completed severity e = shipped refl (cc)
state_severity-StateSeverity LinearStateType.started severity e = in_work refl (cc)
state_severity-StateSeverity LinearStateType.unstarted severity e = ahead (inl refl) (cc)
state_severity-StateSeverity LinearStateType.backlog severity e = ahead (inr refl) (cc)
state_severity-StateSeverity LinearStateType.triage severity e = cc
state_severity-StateSeverity LinearStateType.canceled severity e = cc
state_severity-StateSeverity LinearStateType.duplicate severity e = cc

StateSeverity-state_severity :
    (type : LinearStateType) (severity : Severity)
    → StateSeverity type severity
    → state_severity type ≡ some severity
StateSeverity-state_severity type severity (shipped t s) = rw (t, s) refl
StateSeverity-state_severity type severity (in_work t s) = rw (t, s) refl
StateSeverity-state_severity type severity (ahead (inl t) s) = rw (t, s) refl
StateSeverity-state_severity type severity (ahead (inr t) s) = rw (t, s) refl

module _ (tickets : Dict Text Ticket) (rejected : Dict Text BlockedReason) where
  -- The verdict on a ref: a ticket is graded by its state; a ref that no ticket was found for is blocked, under the
  -- reason that it was refused for, or as not found.
  pub data Verdict (ref : Text) (severity : Severity) (reason : Option BlockedReason)
      (ticket : Option Ticket) : Type 0 where
    graded :
        (t : Ticket)
        → get tickets ref ≡ some t
        → StateSeverity t.state.type severity
        → reason ≡ none
        → ticket ≡ some t
        → Verdict ref severity reason ticket
    refused :
        (r : BlockedReason)
        → get tickets ref ≡ none
        → get rejected ref ≡ some r
        → severity ≡ Severity.blocked
        → reason ≡ some r
        → ticket ≡ none
        → Verdict ref severity reason ticket
    missing :
        get tickets ref ≡ none
        → get rejected ref ≡ none
        → severity ≡ Severity.blocked
        → reason ≡ some BlockedReason.not_found
        → ticket ≡ none
        → Verdict ref severity reason ticket

  module _ (lattice : Lattice) where
    pub grade-Verdict :
        (ref : Text) (severity : Severity) (reason : Option BlockedReason) (ticket : Option Ticket)
        → (grade lattice tickets rejected ref ≡ some (severity, reason, ticket))
          ↔ Verdict ref severity reason ticket
    unfolding grade
    grade-Verdict ref severity reason ticket = (reads, written)
      where
        reads :
            grade lattice tickets rejected ref ≡ some (severity, reason, ticket)
            → Verdict ref severity reason ticket
        reads e = elim (Option-cases (get tickets ref)) [
          | inr (t, found) ↦ elim (Option-cases (state_severity t.state.type)) [
            | inl none' ↦ absurd (ground (arith, found, none'))
            | inr (s, known) ↦
                let same : s ≡ severity = ground (arith, found, known) in
                graded t found
                  (state_severity-StateSeverity t.state.type severity (known ∙ ap some same))
                  (ground (arith, found, known)) (ground (arith, found, known))
          ]
          | inl none' ↦ elim (Option-cases (get rejected ref)) [
            | inr (r, why) ↦
                refused r none' why (ground (arith, none', why)) (ground (arith, none', why))
                  (ground (arith, none', why))
            | inl unknown ↦
                missing none' unknown (ground (arith, none', unknown))
                  (ground (arith, none', unknown)) (ground (arith, none', unknown))
          ]
        ]

        written :
            Verdict ref severity reason ticket
            → grade lattice tickets rejected ref ≡ some (severity, reason, ticket)
        written (graded t found state r k) =
            let known = StateSeverity-state_severity t.state.type severity state in
            rw (grade, found, known, r, k) refl
        written (refused r none' why s e k) = rw (grade, none', get_or, why, s, e, k) refl
        written (missing none' unknown s e k) = rw (grade, none', get_or, unknown, s, e, k) refl

-- The files of the targets of the edges whose refs are among the drifted ones, in the order of the edges.
pub data Upstream (refs : List Text) : List Edge → List Text → Type 0 where
  no_edge :
      {edges : List Edge} {files : List Text} → edges ≡ [] → files ≡ [] → Upstream refs edges files
  drifted_edge :
      {edge : Edge} {edges : List Edge} {files : List Text} (t : TargetId)
      → edge.target_id ≡ some t
      → Memᴰ edge.target_ref refs
      → Upstream refs edges files
      → Upstream refs (edge ∷ edges) (t.file_id ∷ files)
  no_target :
      {edge : Edge} {edges : List Edge} {files : List Text}
      → edge.target_id ≡ none
      → Upstream refs edges files
      → Upstream refs (edge ∷ edges) files
  kept_edge :
      {edge : Edge} {edges : List Edge} {files : List Text}
      → (¬ Memᴰ edge.target_ref refs)
      → Upstream refs edges files
      → Upstream refs (edge ∷ edges) files

pub upstream_files-Upstream :
    (refs : List Text) (edges : List Edge) → Upstream refs edges (upstream_files refs edges)
unfolding upstream_files
upstream_files-Upstream refs [] = no_edge refl refl
upstream_files-Upstream refs (edge ∷ edges) =
    let rest = upstream_files-Upstream refs edges in
    let listed = contains_iff refs edge.target_ref in
    elim (Option-cases edge.target_id) [
      | inl none' ↦ by (upstream_files refs edges) (rw none' refl) (no_target none' rest)
      | inr (t, target) ↦ elim (Bool-cases (contains refs edge.target_ref)) [
        | inl hit ↦
            by (t.file_id ∷ upstream_files refs edges) (rw (target, hit) refl)
              (drifted_edge t target (listed.0 hit) rest)
        | inr miss ↦
            by (upstream_files refs edges) (rw (target, miss) refl)
              (kept_edge (λ m. cc (listed.1 m, miss)) rest)
      ]
    ]
  where
    by :
        (files : List Text)
        → upstream_files refs (edge ∷ edges) ≡ files
        → Upstream refs (edge ∷ edges) files
        → Upstream refs (edge ∷ edges) (upstream_files refs (edge ∷ edges))
    by files e u = subst (Upstream refs (edge ∷ edges)) (sym e) u

-- They are determined.
pub Upstream-unique :
    (refs : List Text) (edges : List Edge) (files : List Text)
    → Upstream refs edges files
    → files ≡ upstream_files refs edges
unfolding upstream_files
Upstream-unique refs edges files (no_edge e f) = rw (e, f) refl
Upstream-unique refs (edge ∷ edges) (file ∷ files) (drifted_edge t target m rest) =
    rw (target, (contains_iff refs edge.target_ref).1 m)
      (ap (λ fs. t.file_id ∷ fs) (Upstream-unique refs edges files rest))
Upstream-unique refs (edge ∷ edges) files (no_target none' rest) =
    rw none' (Upstream-unique refs edges files rest)
Upstream-unique refs (edge ∷ edges) files (kept_edge miss rest) =
    elim (Option-cases edge.target_id) [
      | inl none' ↦ rw none' (Upstream-unique refs edges files rest)
      | inr (t, target) ↦ elim (Bool-cases (contains refs edge.target_ref)) [
        | inl hit ↦ absurd (miss ((contains_iff refs edge.target_ref).0 hit))
        | inr other ↦ rw (target, other) (Upstream-unique refs edges files rest)
      ]
    ]
