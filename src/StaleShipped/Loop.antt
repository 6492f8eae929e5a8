-- ===== src/StaleShipped/Loop.antt =====
-- The loops of stale_shipped over the trigger and over the tickets of a node.
use doc_lattice.Prelude.{
  ◌≡◌, ◌≢◌, ◌↔◌, ◌⊎◌, inl, inr, ⊎_elim, refl, sym, ap, ◌∙◌, subst, true, false, Option, none, some,
  List, [], ◌∷◌, ◌++◌, Memᴰ, Memᴰ-append, arith, Bool-cases, Option-cases, ◌==◌, ==_iff, nat_eq,
  list_eq, option_eq, contains,
}
use mathlib.Core.List.Memᴰ
use doc_lattice.Text.{Text}
use doc_lattice.Dict.{Dict, keys, get}
use doc_lattice.Dict.Keys.{AllDistinct}
use doc_lattice.Dict.Laws.{mem-keys}
use doc_lattice.StaleShipped.Order.{Once, Once-append}
use doc_lattice.Model.{DocumentOrigin, Node, Lattice}
use doc_lattice.Origins.{external_origins}
use doc_lattice.Result.{ok, or_raise, >>=-eq-ok}
use doc_lattice.Errors.{key_error}
use doc_lattice.Tickets.{Severity, BlockedReason, Ticket, Finding}
use doc_lattice.StaleShipped.{
  Trigger, upstream_files, grade, finding_of, grade_tickets, grade_nodes,
}

module _ (lattice : Lattice) (tickets : Dict Text Ticket) (rejected : Dict Text BlockedReason) where
  abbrev pub Graded : Type 0
  Graded = Severity × Option BlockedReason × Option Ticket

  -- The finding of one of the refs that is not in `done` and has a grade.
  unfoldable pub IsGraded :
      Node → Text → List Text → Dict Text DocumentOrigin → List Text → List Text → Finding → Type 0
  IsGraded node node_id refs origins done listed f =
      (ref : Text) × (graded : Graded) × Memᴰ ref listed
      × (contains done ref ≡ false)
      × (grade lattice tickets rejected ref ≡ some graded)
      × (f ≡ finding_of lattice tickets rejected node node_id refs origins ref graded)

  module _ (node : Node) (node_id : Text) (refs : List Text)
      (origins : Dict Text DocumentOrigin) where
    abbrev Listed : List Text → List Text → Finding → Type 0
    Listed done listed f = IsGraded node node_id refs origins done listed f

    -- Past a ref that is done, past one with no grade, and past one that is reported.
    Listed-skip :
        (done : List Text) (ref : Text) (rest : List Text) (f : Finding)
        → contains done ref ≡ true
        → Listed done rest f ↔ Listed done (ref ∷ rest) f
    unfolding IsGraded
    Listed-skip done ref rest f old = (
      λ (r, g, m, new, at_r, e). (r, g, Memᴰ.tail m, new, at_r, e),
      λ (r, g, m, new, at_r, e). elim (Memᴰ.cases_cons m) [
        | inl same ↦ cc (old, same, new)
        | inr later ↦ (r, g, later, new, at_r, e)
      ],
    )

    Listed-pass :
        (done : List Text) (ref : Text) (rest : List Text) (f : Finding)
        → contains done ref ≡ false
        → (P : Type 0) → (P → Listed done (ref ∷ rest) f)
        → ((g : Graded)
            → grade lattice tickets rejected ref ≡ some g
            → f ≡ finding_of lattice tickets rejected node node_id refs origins ref g
            → P)
        → Listed done (ref ∷ rest) f ↔ (P ⊎ Listed (ref ∷ done) rest f)
    unfolding IsGraded contains
    Listed-pass done ref rest f new P from to = (
      λ (r, g, m, new', at_r, e). elim (Bool-cases (ref == r)) [
        | inl same ↦
            let here : r ≡ ref = sym ((==_iff ref r).0 same) in
            inl (
              to g (ap (grade lattice tickets rejected) (sym here) ∙ at_r) (
                e
                ∙ ap (λ x. finding_of lattice tickets rejected node node_id refs origins x g) here))
        | inr other ↦ elim (Memᴰ.cases_cons m) [
          | inl same ↦ cc ((==_iff ref r).1 (sym same), other)
          | inr later ↦ inr (r, g, later, rw (other, new') refl, at_r, e)
        ]
      ],
      ⊎_elim from (λ (r, g, m, new', at_r, e). (r, g, Memᴰ.tail m, ground arith, at_r, e)),
    )

    pub grade_tickets-mem :
        (done listed : List Text) (f : Finding)
        → Memᴰ f (grade_tickets lattice tickets rejected node node_id refs origins done listed)
          ↔ Listed done listed f
    unfolding grade_tickets
    grade_tickets-mem done [] f = (
      λ m. absurd (Memᴰ.not-nil m),
      unfold IsGraded in λ (ref, graded, m, _, _, _). absurd (Memᴰ.not-nil m),
    )
    grade_tickets-mem done (ref ∷ rest) f =
        let next = grade_tickets-mem (ref ∷ done) rest f in
        elim (Bool-cases (contains done ref)) [
          | inl old ↦ rw old (
              let this = grade_tickets-mem done rest f in
              let skip = Listed-skip done ref rest f old in
              (λ m. skip.0 (this.0 m), λ l. this.1 (skip.1 l)))
          | inr new ↦ elim (Option-cases (grade lattice tickets rejected ref)) [
            | inl ungraded ↦
                rw (new, ungraded)
                  (let pass =
                      Listed-pass done ref rest f new (f ≢ f) (λ no. absurd (no refl))
                        (λ g at_ref _. cc (ungraded, at_ref)) in
                    (
                      λ m. pass.1 (inr (next.0 m)),
                      λ l. ⊎_elim (λ no. absurd (no refl)) next.1 (pass.0 l),
                    ))
            | inr (graded, at_ref) ↦
                rw (new, at_ref)
                  (let here =
                      finding_of lattice tickets rejected node node_id refs origins ref graded in
                    let pass =
                      Listed-pass done ref rest f new (f ≡ here)
                        (λ e. unfold IsGraded in (ref, graded, Memᴰ.head refl, new, at_ref, e))
                        (λ g at_ref' e. cc (at_ref, at_ref', e)) in
                    (
                      λ m. pass.1 (elim (Memᴰ.cases_cons m) [
                        | inl e ↦ inl e
                        | inr later ↦ inr (next.0 later)
                      ]),
                      λ l. ⊎_elim (λ e. Memᴰ.head e) (λ later. Memᴰ.tail (next.1 later)) (pass.0 l),
                    ))
          ]
        ]

  abbrev Reported : Trigger → Finding → Type 0
  Reported trigger f =
      (node_id : Text) × (refs : List Text) × (node : Node) × Memᴰ (node_id, refs) trigger
      × (get lattice.nodes_by_id node_id ≡ some node)
      × Memᴰ f (
          grade_tickets lattice tickets rejected node node_id refs
            (external_origins lattice (node_id ∷ upstream_files refs node.derives_from)) []
            node.tickets)

  pub grade_nodes-mem :
      (trigger : Trigger) (findings : List Finding) (f : Finding)
      → grade_nodes lattice tickets rejected trigger ≡ ok findings
      → Memᴰ f findings ↔ Reported trigger f
  unfolding grade_nodes
  grade_nodes-mem [] findings f e =
      let none_left : findings ≡ [] = ground arith in
      (
        λ m. absurd (Memᴰ.not-nil (rw none_left at m)),
        λ (id, refs, node, m, _, _). absurd (Memᴰ.not-nil m),
      )
  grade_nodes-mem ((node_id, refs) ∷ trigger) findings f e =
      let (node, at_id', e') =
        >>=-eq-ok (or_raise key_error (get lattice.nodes_by_id node_id)) _ e in
      let (rest, e1, whole) = >>=-eq-ok (grade_nodes lattice tickets rejected trigger) _ e' in
      let here =
        grade_tickets lattice tickets rejected node node_id refs
          (external_origins lattice (node_id ∷ upstream_files refs node.derives_from)) []
          node.tickets in
      let parts : here ++ rest ≡ findings = ground arith in
      let at_id = or_raise_ok (get lattice.nodes_by_id node_id) node at_id' in
      let (sound, complete) = grade_nodes-mem trigger rest f e1 in
      subst (λ all. Memᴰ f all ↔ Reported ((node_id, refs) ∷ trigger) f) parts
        (
          λ m. elim ((Memᴰ-append f here rest).0 m) [
            | inl mine ↦ (node_id, refs, node, Memᴰ.head refl, at_id, mine)
            | inr theirs ↦
                (let (j, rs, n, k, at_j, l) = sound theirs in (j, rs, n, Memᴰ.tail k, at_j, l))
          ],
          λ (j, rs, n, k, at_j, l). (Memᴰ-append f here rest).1 (elim (Memᴰ.cases_cons k) [
            | inl same ↦ inl (
                let same_id = ap (λ (p : Text × List Text). p.0) same in
                let same_refs = ap (λ (p : Text × List Text). p.1) same in
                let same_node : n ≡ node = cc (same_id, at_j, at_id) in
                subst
                  (λ (x : Node). Memᴰ f (
                    grade_tickets lattice tickets rejected x node_id refs
                      (external_origins lattice (node_id ∷ upstream_files refs x.derives_from)) []
                      x.tickets))
                  same_node
                  (subst
                    (λ i. Memᴰ f (
                      grade_tickets lattice tickets rejected n i refs
                        (external_origins lattice (i ∷ upstream_files refs n.derives_from)) []
                        n.tickets))
                    same_id
                    (subst
                      (λ x. Memᴰ f (
                        grade_tickets lattice tickets rejected n j x
                          (external_origins lattice (j ∷ upstream_files x n.derives_from)) []
                          n.tickets))
                      same_refs l)))
            | inr later ↦ inr (complete (j, rs, n, later, at_j, l))
          ]),
        )
    where
      or_raise_ok : (o : Option Node) (a : Node) → or_raise key_error o ≡ ok a → o ≡ some a
      or_raise_ok none a h = cc
      or_raise_ok (some b) a h = cc

  grade_tickets-Once :
      (node : Node) (node_id : Text) (refs : List Text) (origins : Dict Text DocumentOrigin)
      (done listed : List Text)
      → Once (grade_tickets lattice tickets rejected node node_id refs origins done listed)
  unfolding grade_tickets
  grade_tickets-Once node node_id refs origins done [] = tt
  grade_tickets-Once node node_id refs origins done (ref ∷ rest) =
      let next = grade_tickets-Once node node_id refs origins (ref ∷ done) rest in
      elim (Bool-cases (contains done ref)) [
        | inl old ↦ rw old (grade_tickets-Once node node_id refs origins done rest)
        | inr new ↦ elim (Option-cases (grade lattice tickets rejected ref)) [
          | inl ungraded ↦ rw (new, ungraded) next
          | inr (graded, at_ref) ↦
              rw (new, at_ref)
                (
                  λ y m same.
                      unfold IsGraded contains in
                      let (other, _, _, fresh, _, e) =
                        (grade_tickets-mem node node_id refs origins (ref ∷ done) rest y).0 m in
                      let at_other : ref ≡ other = same.1 ∙ ap (λ (x : Finding). x.ticket_ref) e in
                      ground (arith, fresh, (==_iff ref other).1 at_other),
                  next,
                )
        ]
      ]

  Reported-owner :
      (trigger : Trigger) (f : Finding) → Reported trigger f → Memᴰ f.node_id (keys trigger)
  unfolding IsGraded
  Reported-owner trigger f (id, refs, node, k, _, l) =
      let (_, _, _, _, _, e) =
        (grade_tickets-mem node id refs
            (external_origins lattice (id ∷ upstream_files refs node.derives_from)) [] node.tickets
            f).0
          l in
      subst (λ x. Memᴰ x (keys trigger)) (sym (ap (λ (x : Finding). x.node_id) e))
        (mem-keys trigger id refs k)

  pub grade_nodes-Once :
      (trigger : Trigger) (findings : List Finding)
      → AllDistinct (keys trigger)
      → grade_nodes lattice tickets rejected trigger ≡ ok findings
      → Once findings
  unfolding grade_nodes keys IsGraded
  grade_nodes-Once [] findings distinct e =
      let none_left : findings ≡ [] = ground arith in rw none_left tt
  grade_nodes-Once ((node_id, refs) ∷ trigger) findings distinct e =
      let (node, at_id, e') =
        >>=-eq-ok (or_raise key_error (get lattice.nodes_by_id node_id)) _ e in
      let (rest, e1, whole) = >>=-eq-ok (grade_nodes lattice tickets rejected trigger) _ e' in
      let origins = external_origins lattice (node_id ∷ upstream_files refs node.derives_from) in
      let here = grade_tickets lattice tickets rejected node node_id refs origins [] node.tickets in
      let parts : here ++ rest ≡ findings = ground arith in
      subst Once parts (
        Once-append here rest (grade_tickets-Once node node_id refs origins [] node.tickets)
          (grade_nodes-Once trigger rest distinct.1 e1)
          λ x y m n same.
            let (_, _, _, _, _, mine) =
              (grade_tickets-mem node node_id refs origins [] node.tickets x).0 m in
            let theirs = Reported-owner trigger y ((grade_nodes-mem trigger rest y e1).0 n) in
            distinct.0 (
              subst (λ i. Memᴰ i (keys trigger)) (sym same.0 ∙ ap (λ (f : Finding). f.node_id) mine)
                theirs))
