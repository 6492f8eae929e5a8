-- ===== src/StaleShipped/Order.antt =====
-- The order of the report: `findings.sort(key=…)`.
use doc_lattice.Prelude.{
  ◌<◌, ◌≡◌, ◌≢◌, ◌↔◌, ◌⊎◌, inl, inr, refl, sym, subst, true, false, List, [], ◌∷◌, ◌++◌, Memᴰ,
  Memᴰ-cons, Memᴰ-append, arith, Bool-cases, ◌==◌, ==_iff, nat_eq, list_eq, option_eq,
}
use mathlib.Core.List.Memᴰ
use doc_lattice.Text.{Text}
use doc_lattice.Sorting.{text_leb, text_leb_trans, text_leb_total, text_leb_antisym}
use doc_lattice.Dict.{Dict}
use doc_lattice.Model.{Lattice}
use doc_lattice.Tickets.{Severity, BlockedReason, Ticket, Finding}
use doc_lattice.StaleShipped.{severity_rank, finding_leb, insert_finding, sort_findings}

-- The graver severity: danger, then blocked, then warning, then info.
abbrev pub Graver : Severity → Severity → Type 0
Graver Severity.danger Severity.blocked = Unit
Graver Severity.danger Severity.warning = Unit
Graver Severity.danger Severity.info = Unit
Graver Severity.blocked Severity.warning = Unit
Graver Severity.blocked Severity.info = Unit
Graver Severity.warning Severity.info = Unit
Graver _ _ = ⊥

-- A graver finding comes first; under one severity, the lesser node id; under one node, the lesser ref.
abbrev pub Precedes : Finding → Finding → Type 0
Precedes a b =
    Graver a.severity b.severity
    ⊎ ((a.severity ≡ b.severity)
        × (((text_leb a.node_id b.node_id ≡ true) × (a.node_id ≢ b.node_id))
            ⊎ ((a.node_id ≡ b.node_id) × (text_leb a.ticket_ref b.ticket_ref ≡ true))))

-- Every finding precedes all later ones.
abbrev pub Ordered : List Finding → Type 0
Ordered [] = Unit
Ordered (x ∷ xs) = ((y : Finding) → Memᴰ y xs → Precedes x y) × Ordered xs

-- The findings are about one node and one ref.
abbrev pub SameKey : Finding → Finding → Type 0
SameKey a b = (a.node_id ≡ b.node_id) × (a.ticket_ref ≡ b.ticket_ref)

-- No two findings are about one node and one ref.
abbrev pub Once : List Finding → Type 0
Once [] = Unit
Once (x ∷ xs) = ((y : Finding) → Memᴰ y xs → SameKey x y → ⊥) × Once xs

pub Once-append :
    (xs ys : List Finding)
    → Once xs
    → Once ys
    → ((x y : Finding) → Memᴰ x xs → Memᴰ y ys → SameKey x y → ⊥)
    → Once (xs ++ ys)
Once-append [] ys h k apart = k
Once-append (x ∷ xs) ys (first, h) k apart = (
  λ y m. elim ((Memᴰ-append y xs ys).0 m) [
    | inl l ↦ first y l
    | inr r ↦ apart x y (Memᴰ.head refl) r
  ],
  Once-append xs ys h k (λ a b m n. apart a b (Memᴰ.tail m) n),
)

rank-Graver : (s t : Severity) → severity_rank s < severity_rank t → Graver s t
rank-Graver Severity.danger Severity.danger h = absurd (omega arith)
rank-Graver Severity.danger Severity.blocked h = tt
rank-Graver Severity.danger Severity.warning h = tt
rank-Graver Severity.danger Severity.info h = tt
rank-Graver Severity.blocked Severity.danger h = absurd (omega arith)
rank-Graver Severity.blocked Severity.blocked h = absurd (omega arith)
rank-Graver Severity.blocked Severity.warning h = tt
rank-Graver Severity.blocked Severity.info h = tt
rank-Graver Severity.warning Severity.danger h = absurd (omega arith)
rank-Graver Severity.warning Severity.blocked h = absurd (omega arith)
rank-Graver Severity.warning Severity.warning h = absurd (omega arith)
rank-Graver Severity.warning Severity.info h = tt
rank-Graver Severity.info Severity.danger h = absurd (omega arith)
rank-Graver Severity.info Severity.blocked h = absurd (omega arith)
rank-Graver Severity.info Severity.warning h = absurd (omega arith)
rank-Graver Severity.info Severity.info h = absurd (omega arith)

rank_inj : (s t : Severity) → severity_rank s ≡ severity_rank t → s ≡ t
rank_inj Severity.danger Severity.danger h = refl
rank_inj Severity.danger Severity.blocked h = absurd (omega arith)
rank_inj Severity.danger Severity.warning h = absurd (omega arith)
rank_inj Severity.danger Severity.info h = absurd (omega arith)
rank_inj Severity.blocked Severity.danger h = absurd (omega arith)
rank_inj Severity.blocked Severity.blocked h = refl
rank_inj Severity.blocked Severity.warning h = absurd (omega arith)
rank_inj Severity.blocked Severity.info h = absurd (omega arith)
rank_inj Severity.warning Severity.danger h = absurd (omega arith)
rank_inj Severity.warning Severity.blocked h = absurd (omega arith)
rank_inj Severity.warning Severity.warning h = refl
rank_inj Severity.warning Severity.info h = absurd (omega arith)
rank_inj Severity.info Severity.danger h = absurd (omega arith)
rank_inj Severity.info Severity.blocked h = absurd (omega arith)
rank_inj Severity.info Severity.warning h = absurd (omega arith)
rank_inj Severity.info Severity.info h = refl

module _ (lattice : Lattice) (tickets : Dict Text Ticket) (rejected : Dict Text BlockedReason) where
  leb-Precedes : (a b : Finding) → finding_leb lattice tickets rejected a b ≡ true → Precedes a b
  unfolding finding_leb
  leb-Precedes a b h = elim (Bool-cases (severity_rank a.severity == severity_rank b.severity)) [
    | inr other ↦ inl (
        rank-Graver a.severity b.severity
          (ground (arith, ==_iff (severity_rank a.severity) (severity_rank b.severity))))
    | inl level ↦
        let same = (==_iff (severity_rank a.severity) (severity_rank b.severity)).0 level in
        inr (
          rank_inj a.severity b.severity same,
          elim (Bool-cases (a.node_id == b.node_id)) [
            | inl node ↦ inr ((==_iff a.node_id b.node_id).0 node, ground arith)
            | inr other ↦ inl (ground arith, λ e. cc ((==_iff a.node_id b.node_id).1 e, other))
          ],
        )
  ]

  leb_total :
      (a b : Finding)
      → finding_leb lattice tickets rejected a b ≡ false
      → finding_leb lattice tickets rejected b a ≡ true
  unfolding finding_leb
  leb_total a b h = ground (
    arith,
    ==_iff (severity_rank a.severity) (severity_rank b.severity),
    ==_iff (severity_rank b.severity) (severity_rank a.severity),
    ==_iff a.node_id b.node_id,
    ==_iff b.node_id a.node_id,
    text_leb_total a.node_id b.node_id,
    text_leb_total a.ticket_ref b.ticket_ref,
  )

  leb_trans :
      (a b c : Finding)
      → finding_leb lattice tickets rejected a b ≡ true
      → finding_leb lattice tickets rejected b c ≡ true
      → finding_leb lattice tickets rejected a c ≡ true
  unfolding finding_leb
  leb_trans a b c h k = ground (
    arith,
    ==_iff (severity_rank a.severity) (severity_rank b.severity),
    ==_iff (severity_rank b.severity) (severity_rank c.severity),
    ==_iff (severity_rank a.severity) (severity_rank c.severity),
    ==_iff a.node_id b.node_id,
    ==_iff b.node_id c.node_id,
    ==_iff a.node_id c.node_id,
    text_leb_trans a.node_id b.node_id c.node_id,
    text_leb_antisym a.node_id b.node_id,
    text_leb_trans a.ticket_ref b.ticket_ref c.ticket_ref,
  )

  insert_finding-mem :
      (f x : Finding) (ys : List Finding)
      → Memᴰ f (insert_finding lattice tickets rejected x ys) ↔ ((f ≡ x) ⊎ Memᴰ f ys)
  unfolding insert_finding
  insert_finding-mem f x [] = Memᴰ-cons f x []
  insert_finding-mem f x (y ∷ ys) = elim (Bool-cases (finding_leb lattice tickets rejected x y)) [
    | inl e ↦ rw e (Memᴰ-cons f x (y ∷ ys))
    | inr e ↦ rw e (
        ground (
          arith,
          Memᴰ-cons f y (insert_finding lattice tickets rejected x ys),
          Memᴰ-cons f y ys,
          insert_finding-mem f x ys,
        ))
  ]

  pub sort_findings-mem :
      (f : Finding) (xs : List Finding)
      → Memᴰ f (sort_findings lattice tickets rejected xs) ↔ Memᴰ f xs
  unfolding sort_findings
  sort_findings-mem f [] = (λ m. m, λ m. m)
  sort_findings-mem f (x ∷ xs) = ground (
    arith,
    insert_finding-mem f x (sort_findings lattice tickets rejected xs),
    Memᴰ-cons f x xs,
    sort_findings-mem f xs,
  )

  -- The same order, by the comparison of the code.
  Sorted : List Finding → Type 0
  Sorted [] = Unit {0}
  Sorted (x ∷ xs) =
      ((y : Finding) → Memᴰ y xs → finding_leb lattice tickets rejected x y ≡ true) × Sorted xs

  insert_finding-Sorted :
      (x : Finding) (ys : List Finding)
      → Sorted ys
      → Sorted (insert_finding lattice tickets rejected x ys)
  unfolding insert_finding Sorted
  insert_finding-Sorted x [] h = (λ y m. absurd (Memᴰ.not-nil m), tt)
  insert_finding-Sorted x (y ∷ ys) (least, h) =
      elim (Bool-cases (finding_leb lattice tickets rejected x y)) [
        | inl e ↦ rw e (
          λ z m. elim (Memᴰ.cases_cons m) [
            | inl same ↦ subst (λ w. finding_leb lattice tickets rejected x w ≡ true) (sym same) e
            | inr later ↦ leb_trans x y z e (least z later)
          ],
          (least, h),
        )
        | inr e ↦ rw e (
          λ z m. elim ((insert_finding-mem z x ys).0 m) [
            | inl same ↦
                subst (λ w. finding_leb lattice tickets rejected y w ≡ true) (sym same)
                  (leb_total x y e)
            | inr later ↦ least z later
          ],
          insert_finding-Sorted x ys h,
        )
      ]

  Sorted-Ordered : (xs : List Finding) → Sorted xs → Ordered xs
  unfolding Sorted
  Sorted-Ordered [] h = tt
  Sorted-Ordered (x ∷ xs) (least, h) = (λ y m. leb-Precedes x y (least y m), Sorted-Ordered xs h)

  sort_findings-Sorted : (xs : List Finding) → Sorted (sort_findings lattice tickets rejected xs)
  unfolding sort_findings
  sort_findings-Sorted [] = unfold Sorted in tt
  sort_findings-Sorted (x ∷ xs) =
      insert_finding-Sorted x (sort_findings lattice tickets rejected xs) (sort_findings-Sorted xs)

  -- The sorted findings are in their order.
  pub sort_findings-Ordered :
      (xs : List Finding) → Ordered (sort_findings lattice tickets rejected xs)
  sort_findings-Ordered xs =
      Sorted-Ordered (sort_findings lattice tickets rejected xs) (sort_findings-Sorted xs)

  insert_finding-Once :
      (x : Finding) (ys : List Finding)
      → Once ys
      → ((y : Finding) → Memᴰ y ys → SameKey x y → ⊥)
      → Once (insert_finding lattice tickets rejected x ys)
  unfolding insert_finding
  insert_finding-Once x [] h apart = (λ y m. absurd (Memᴰ.not-nil m), tt)
  insert_finding-Once x (y ∷ ys) (first, h) apart =
      elim (Bool-cases (finding_leb lattice tickets rejected x y)) [
        | inl e ↦ rw e (apart, (first, h))
        | inr e ↦ rw e (
          λ z m same. elim ((insert_finding-mem z x ys).0 m) [
            | inl is ↦
                let back : SameKey y x = subst (SameKey y) is same in
                apart y (Memᴰ.head refl) (sym back.0, sym back.1)
            | inr later ↦ first z later same
          ],
          insert_finding-Once x ys h (λ z m. apart z (Memᴰ.tail m)),
        )
      ]

  -- Sorting repeats nothing.
  pub sort_findings-Once :
      (xs : List Finding) → Once xs → Once (sort_findings lattice tickets rejected xs)
  unfolding sort_findings
  sort_findings-Once [] h = tt
  sort_findings-Once (x ∷ xs) (first, h) =
      insert_finding-Once x (sort_findings lattice tickets rejected xs) (sort_findings-Once xs h)
        (λ y m. first y ((sort_findings-mem y xs).0 m))
