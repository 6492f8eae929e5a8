-- ===== src/StaleShipped/Collecting.antt =====
-- What the helpers of build_audit_trigger collect.
use doc_lattice.Prelude.{
  ℕ, ◌≡◌, ◌≢◌, ◌↔◌, ◌⊎◌, Memᴰ, Option-cases, inl, inr, refl, sym, ap, ◌∙◌, Bool, true, false, ◌&&◌,
  Option, none, some, List, [], ◌∷◌, ◌++◌, arith, if◌then◌else◌, Bool-cases, ◌==◌, ==_iff, nat_eq,
  list_eq, option_eq, contains,
}
use doc_lattice.Text.{Text}
use doc_lattice.Dict.{get, has, put, get_or}
use doc_lattice.Dict.Laws.{get-put}
use mathlib.Core.List.Memᴰ
use doc_lattice.Sets.{add-mem}
use doc_lattice.Model.{TargetId, target_eq, Node, Lattice, file_target}
use doc_lattice.Check.{EdgeState, EdgeStatus}
use doc_lattice.StaleShipped.{Trigger, is_trigger, group_refs, affected_ids, own_nodes, narrow}

-- The refs of the edges of one node that is_trigger takes.
pub refs_of : Text → List EdgeStatus → List Text
refs_of id [] = []
refs_of id (s ∷ statuses) =
    let rest = refs_of id statuses in
    if is_trigger s.state && s.source_id == id then s.target_ref ∷ rest else rest

snoc_append : (xs : List Text) (x : Text) (ys : List Text) → (xs ++ x ∷ []) ++ ys ≡ xs ++ x ∷ ys
snoc_append [] x ys = refl
snoc_append (y ∷ xs) x ys = ap (y ∷◌) (snoc_append xs x ys)

append_nil : (xs : List Text) → xs ++ [] ≡ xs
append_nil [] = refl
append_nil (x ∷ xs) = ap (x ∷◌) (append_nil xs)

pub group_refs-refs_of :
    (statuses : List EdgeStatus) (grouped : Trigger) (id : Text)
    → get_or (group_refs statuses grouped) id [] ≡ get_or grouped id [] ++ refs_of id statuses
unfolding group_refs refs_of
group_refs-refs_of [] grouped id = sym (append_nil (get_or grouped id []))
group_refs-refs_of (s ∷ statuses) grouped id = elim (Bool-cases (is_trigger s.state)) [
  | inr quiet ↦ rw quiet (group_refs-refs_of statuses grouped id)
  | inl loud ↦ rw loud (
      let entry = get_or grouped s.source_id [] ++ s.target_ref ∷ [] in
      group_refs-refs_of statuses (put grouped s.source_id entry) id
      ∙ by_id (s.source_id == id) refl)
]
  where
    by_id :
        (b : Bool)
        → (s.source_id == id) ≡ b
        → get_or
              (put grouped s.source_id (get_or grouped s.source_id [] ++ s.target_ref ∷ []))
              id
              []
            ++ refs_of id statuses
          ≡ get_or grouped id []
            ++ (if b then s.target_ref ∷ refs_of id statuses else refs_of id statuses)
    by_id true same =
        ap (λ (o : Option (List Text)). elim o [ none ↦ [] | some w ↦ w ] ++ refs_of id statuses)
          (get-put grouped s.source_id id _
            ∙ ap
                (λ b.
                  if b
                  then some (get_or grouped s.source_id [] ++ s.target_ref ∷ [])
                  else get grouped id)
                same)
        ∙ snoc_append (get_or grouped s.source_id []) s.target_ref (refs_of id statuses)
        ∙ ap (λ x. get_or grouped x [] ++ s.target_ref ∷ refs_of id statuses)
            ((==_iff s.source_id id).0 same)
    by_id false other =
        ap (λ (o : Option (List Text)). elim o [ none ↦ [] | some w ↦ w ] ++ refs_of id statuses)
          (get-put grouped s.source_id id _
            ∙ ap
                (λ b.
                  if b
                  then some (get_or grouped s.source_id [] ++ s.target_ref ∷ [])
                  else get grouped id)
                other)

pub narrow-get :
    (affected : List Text) (trigger : Trigger) (id : Text)
    → get_or (narrow affected trigger) id []
      ≡ (if contains affected id then get_or trigger id [] else [])
unfolding narrow get
narrow-get affected [] id = ground arith
narrow-get affected ((j, refs) ∷ trigger) id = elim (Bool-cases (j == id)) [
  | inl same ↦
      let here : contains affected j ≡ contains affected id =
        ap (contains affected) ((==_iff j id).0 same) in
      ground (arith, here, narrow-get affected trigger id)
  | inr other ↦ ground (arith, narrow-get affected trigger id)
]

-- The refs of the STALE and AMBIGUOUS edges of the node, in the order of the edges.
pub data Collects (id : Text) : List EdgeStatus → List Text → Type 0 where
  none_left :
      {statuses : List EdgeStatus} {refs : List Text}
      → statuses ≡ []
      → refs ≡ []
      → Collects id statuses refs
  drifted :
      {s : EdgeStatus} {statuses : List EdgeStatus} {refs : List Text}
      → s.source_id ≡ id
      → (s.state ≡ EdgeState.stale) ⊎ (s.state ≡ EdgeState.ambiguous)
      → Collects id statuses refs
      → Collects id (s ∷ statuses) (s.target_ref ∷ refs)
  of_another :
      {s : EdgeStatus} {statuses : List EdgeStatus} {refs : List Text}
      → s.source_id ≢ id
      → Collects id statuses refs
      → Collects id (s ∷ statuses) refs
  not_drifted :
      {s : EdgeStatus} {statuses : List EdgeStatus} {refs : List Text}
      → s.state ≢ EdgeState.stale
      → s.state ≢ EdgeState.ambiguous
      → Collects id statuses refs
      → Collects id (s ∷ statuses) refs

is_trigger-cases :
    (state : EdgeState)
    → ((is_trigger state ≡ true) × ((state ≡ EdgeState.stale) ⊎ (state ≡ EdgeState.ambiguous)))
      ⊎ ((is_trigger state ≡ false) × (state ≢ EdgeState.stale) × (state ≢ EdgeState.ambiguous))
is_trigger-cases EdgeState.stale = inl (refl, inl refl)
is_trigger-cases EdgeState.ambiguous = inl (refl, inr refl)
is_trigger-cases EdgeState.in_sync = inr (refl, λ e. cc, λ e. cc)
is_trigger-cases EdgeState.unreconciled = inr (refl, λ e. cc, λ e. cc)
is_trigger-cases EdgeState.broken = inr (refl, λ e. cc, λ e. cc)

pub refs_of-Collects :
    (id : Text) (statuses : List EdgeStatus) → Collects id statuses (refs_of id statuses)
unfolding refs_of
refs_of-Collects id [] = none_left refl refl
refs_of-Collects id (s ∷ statuses) =
    let rest = refs_of-Collects id statuses in
    elim (is_trigger-cases s.state) [
      | inr (quiet, not_stale, not_ambiguous) ↦ rw quiet (not_drifted not_stale not_ambiguous rest)
      | inl (loud, which) ↦ elim (Bool-cases (s.source_id == id)) [
        | inl mine ↦ rw (loud, mine) (drifted ((==_iff s.source_id id).0 mine) which rest)
        | inr theirs ↦
            rw (loud, theirs) (of_another (λ e. cc ((==_iff s.source_id id).1 e, theirs)) rest)
      ]
    ]

pub affected_ids-mem :
    (report : List (Node × ℕ)) (id : Text)
    → Memᴰ id (affected_ids report)
      ↔ ((node : Node) × (k : ℕ) × Memᴰ (node, k) report × (node.id ≡ id))
unfolding affected_ids
affected_ids-mem [] id = (λ m. absurd (Memᴰ.not-nil m), λ (_, _, m, _). absurd (Memᴰ.not-nil m))
affected_ids-mem ((first, depth) ∷ report) id =
    let added = add-mem first.id id (affected_ids report) in
    let later = affected_ids-mem report id in
    (
      λ m. elim (added.0 m) [
        | inl same ↦ (first, depth, Memᴰ.head refl, sym same)
        | inr n ↦ let (node, k, l, e) = later.0 n in (node, k, Memᴰ.tail l, e)
      ],
      λ (node, k, m, e). added.1 (elim (Memᴰ.cases_cons m) [
        | inl here ↦ inl (sym e ∙ ap (λ (p : Node × ℕ). p.0.id) here)
        | inr n ↦ inr (later.1 (node, k, n, e))
      ]),
    )

pub own_nodes-mem :
    (lattice : Lattice) (tids : List TargetId) (id : Text)
    → Memᴰ id (own_nodes lattice tids)
      ↔ (Memᴰ (file_target id) tids × (has lattice.nodes_by_id id ≡ true))
unfolding own_nodes
own_nodes-mem lattice [] id = (λ m. absurd (Memᴰ.not-nil m), λ (m, _). absurd (Memᴰ.not-nil m))
own_nodes-mem lattice (tid ∷ tids) id =
    let later = own_nodes-mem lattice tids id in
    elim (Option-cases tid.anchor) [
      | inr (anchor, section) ↦ rw section (
        λ m. (Memᴰ.tail (later.0 m).0, (later.0 m).1),
        λ (m, known). elim (Memᴰ.cases_cons m) [
          | inl here ↦ cc (ap (λ (t : TargetId). t.anchor) here, section)
          | inr n ↦ later.1 (n, known)
        ],
      )
      | inl whole ↦ elim (Bool-cases (has lattice.nodes_by_id tid.file_id)) [
        | inr missing ↦
            rw (whole, missing)
              (
                λ m. (Memᴰ.tail (later.0 m).0, (later.0 m).1),
                λ (m, known). elim (Memᴰ.cases_cons m) [
                  | inl here ↦ cc (
                    ap (λ (t : TargetId). has lattice.nodes_by_id t.file_id) here,
                    known,
                    missing,
                  )
                  | inr n ↦ later.1 (n, known)
                ],
              )
        | inl present ↦
            rw (whole, present)
              (let added = add-mem tid.file_id id (own_nodes lattice tids) in
                (
                  λ m. elim (added.0 m) [
                    | inl same ↦ (
                      Memᴰ.head (ap file_target same),
                      ap (has lattice.nodes_by_id) same ∙ present,
                    )
                    | inr n ↦ (Memᴰ.tail (later.0 n).0, (later.0 n).1)
                  ],
                  λ (m, known). added.1 (elim (Memᴰ.cases_cons m) [
                    | inl here ↦ inl (ap (λ (t : TargetId). t.file_id) here)
                    | inr n ↦ inr (later.1 (n, known))
                  ]),
                ))
      ]
    ]
