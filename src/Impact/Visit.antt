-- ===== src/Impact/Visit.antt =====
-- The inner loop of impact over the dependents of one target.
use doc_lattice.Prelude.{
  ℕ, suc, ◌+◌, ◌≤◌, ◌≡◌, ◌⊎◌, inl, inr, refl, sym, ap, ◌∙◌, subst, true, false, Option, some, List,
  [], ◌∷◌, ◌++◌, Memᴰ, Memᴰ-append, length, length-append, arith, if◌then◌else◌, Bool-cases, ◌==◌,
  ==_iff, ==_refl, nat_eq, list_eq, option_eq,
}
use mathlib.Core.List.Memᴰ
use mathlib.Core.List.{append_assoc, append-nil}
use doc_lattice.Text.{Text}
use doc_lattice.Dict.{Dict, keys, get, has, put}
use doc_lattice.Dict.Laws.{get-put, has-put, has_iff, has-get, get-has}
use doc_lattice.Model.{TargetId, target_eq, file_target, Node, Lattice}
use doc_lattice.Loader.Coherence.{IsCoherent}
use doc_lattice.Result.{ok}
use doc_lattice.Impact.{
  Queue, at_depth, can_expand_source, enqueue_source, visit_sources, source_weight, work_left,
}
use doc_lattice.Impact.Reach.{Within, can_expand_source_iff, Contributes}

pub length-at_depth : (n : ℕ) (ts : List TargetId) → length (at_depth n ts) ≡ length ts
unfolding at_depth
length-at_depth n [] = refl
length-at_depth n (t ∷ ts) = ap suc (length-at_depth n ts)

pub at_depth-mem :
    (n : ℕ) (ts : List TargetId) (w : TargetId) (k : ℕ)
    → Memᴰ (w, k) (at_depth n ts)
    → (k ≡ n) × Memᴰ w ts
unfolding at_depth
at_depth-mem n [] w k m = absurd (Memᴰ.not-nil m)
at_depth-mem n (t ∷ ts) w k m = elim (Memᴰ.cases_cons m) [
  | inl e ↦ (ap (λ (p : TargetId × ℕ). p.1) e, Memᴰ.head (ap (λ (p : TargetId × ℕ). p.0) e))
  | inr r ↦ let (same, later) = at_depth-mem n ts w k r in (same, Memᴰ.tail later)
]

pub mem-at_depth :
    (n : ℕ) (ts : List TargetId) (w : TargetId) → Memᴰ w ts → Memᴰ (w, n) (at_depth n ts)
unfolding at_depth
mem-at_depth n [] w m = absurd (Memᴰ.not-nil m)
mem-at_depth n (t ∷ ts) w m = elim (Memᴰ.cases_cons m) [
  | inl e ↦ Memᴰ.head (ap (λ (x : TargetId). (x, n)) e)
  | inr r ↦ Memᴰ.tail (mem-at_depth n ts w r)
]

module _ (lattice : Lattice) where
  source_weight-eq :
      (s : Text) (node : Node) (anchors : List TargetId)
      → get lattice.nodes_by_id s ≡ some node
      → get lattice.anchors_by_path node.path ≡ some anchors
      → source_weight lattice s ≡ 1 + length anchors
  unfolding source_weight
  source_weight-eq s node anchors found at_path = ground arith

  work_left-put_le :
      (ids : List Text) (A : Dict Text ℕ) (s : Text) (n : ℕ)
      → work_left lattice ids (put A s n) ≤ work_left lattice ids A
  unfolding work_left
  work_left-put_le [] A s n = omega arith
  work_left-put_le (id ∷ ids) A s n = ground (arith, has-put A s id n, work_left-put_le ids A s n)

  work_left-put :
      (ids : List Text) (A : Dict Text ℕ) (s : Text) (n : ℕ)
      → Memᴰ s ids
      → has A s ≡ false
      → work_left lattice ids (put A s n) + source_weight lattice s ≤ work_left lattice ids A
  unfolding work_left
  work_left-put [] A s n m new = absurd (Memᴰ.not-nil m)
  work_left-put (id ∷ ids) A s n m new = elim (Memᴰ.cases_cons m) [
    | inl e ↦ ground (arith, has-put A s id n, ==_refl s, work_left-put_le ids A s n)
    | inr r ↦ ground (arith, has-put A s id n, work_left-put ids A s n r new)
  ]

module _ (lattice : Lattice) (max_depth : Option ℕ) (coherent : IsCoherent lattice) (n : ℕ) where
  abbrev work : Dict Text ℕ → ℕ
  work A = work_left lattice (keys lattice.nodes_by_id) A

  -- What visiting `sources` does to the queue and to the affected nodes.
  pub record Visits (sources : List Text) (q : Queue) (A : Dict Text ℕ) (q' : Queue)
      (A' : Dict Text ℕ) : Type 0 where
    pub kept : (s : Text) (k : ℕ) → get A s ≡ some k → get A' s ≡ some k
    pub covered : (s : Text) → Memᴰ s sources → has A' s ≡ true
    pub fresh :
        (s : Text) (k : ℕ)
        → get A' s ≡ some k
        → (get A s ≡ some k)
          ⊎ ((k ≡ n)
              × Memᴰ s sources
              × (Within max_depth n → (w : TargetId) → Contributes lattice s w → Memᴰ (w, n) q'))
    pub more : Queue
    pub appended : q' ≡ q ++ more
    pub origin :
        (w : TargetId) (k : ℕ)
        → Memᴰ (w, k) more
        → (k ≡ n) × Within max_depth n × (s : Text) × Memᴰ s sources × Contributes lattice s w
    pub shrinks : length q' + work A' ≤ length q + work A

  -- One newly affected source: the queue that it makes.
  record Enters (s : Text) (q q' : Queue) : Type 0 where
    more : Queue
    appended : q' ≡ q ++ more
    all : Within max_depth n → (w : TargetId) → Contributes lattice s w → Memᴰ (w, n) q'
    origin :
        (w : TargetId) (k : ℕ)
        → Memᴰ (w, k) more
        → (k ≡ n) × Within max_depth n × Contributes lattice s w
    fits : length q' ≤ length q + source_weight lattice s

  enqueue-Enters :
      (s : Text) (q : Queue)
      → has lattice.nodes_by_id s ≡ true
      → (q' : Queue) × ((if can_expand_source max_depth n
            then enqueue_source lattice max_depth s n q
            else ok q)
          ≡ ok q')
        × Enters s q q'
  unfolding enqueue_source source_weight
  enqueue-Enters s q known = elim (Bool-cases (can_expand_source max_depth n)) [
    | inr bounded ↦ (
      q,
      rw bounded,
      record {
        more = [];
        appended = sym (append-nil q);
        all = λ within. absurd (ground (arith, (can_expand_source_iff max_depth n).1 within));
        origin = λ w k m. absurd (Memᴰ.not-nil m);
        fits = omega arith;
      },
    )
    | inl open' ↦
        let (node, found) = has-get lattice.nodes_by_id s known in
        let (anchors, at_path) =
          has-get lattice.anchors_by_path node.path (coherent.anchored s node found) in
        let more = (file_target s, n) ∷ at_depth n anchors in
        (
          q ++ more,
          rw (open', found, at_path),
          record {
            more = more;
            appended = refl;
            all = λ within w c. Memᴰ.append_right q (elim c [
              | inl e ↦ Memᴰ.head (ap (λ (x : TargetId). (x, n)) e)
              | inr (node', anchors', found', at', m) ↦ Memᴰ.tail (
                  mem-at_depth n anchors w (
                    let same : anchors' ≡ anchors = cc (found, found', at', at_path) in
                    subst (λ (l : List TargetId). Memᴰ w l) same m))
            ]);
            origin = λ w k m. elim (Memᴰ.cases_cons m) [
              | inl e ↦ (
                ap (λ (p : TargetId × ℕ). p.1) e,
                (can_expand_source_iff max_depth n).0 open',
                inl (ap (λ (p : TargetId × ℕ). p.0) e),
              )
              | inr r ↦
                  let (same, here) = at_depth-mem n anchors w k r in
                  (
                    same,
                    (can_expand_source_iff max_depth n).0 open',
                    inr (node, anchors, found, at_path, here),
                  )
            ];
            fits = omega (
              arith,
              length-append q more,
              length-at_depth n anchors,
              source_weight-eq lattice s node anchors found at_path,
            );
          },
        )
  ]

  Visits-nil : (q : Queue) (A : Dict Text ℕ) → Visits [] q A q A
  Visits-nil q A = record {
    kept = λ s k e. e;
    covered = λ s m. absurd (Memᴰ.not-nil m);
    fresh = λ s k e. inl e;
    more = [];
    appended = sym (append-nil q);
    origin = λ w k m. absurd (Memᴰ.not-nil m);
    shrinks = omega arith;
  }

  Visits-skip :
      (s : Text) (ss : List Text) (q : Queue) (A : Dict Text ℕ) (q' : Queue) (A' : Dict Text ℕ)
      → has A s ≡ true
      → Visits ss q A q' A'
      → Visits (s ∷ ss) q A q' A'
  Visits-skip s ss q A q' A' old v = record {
    kept = v.kept;
    covered = λ x m. elim (Memᴰ.cases_cons m) [
      | inl e ↦
          let (k, at_s) = has-get A s old in
          let kept_s = v.kept s k at_s in unfold has in ground arith
      | inr r ↦ v.covered x r
    ];
    fresh = λ x k e. elim (v.fresh x k e) [
      | inl before ↦ inl before
      | inr (same, m, all) ↦ inr (same, Memᴰ.tail m, all)
    ];
    more = v.more;
    appended = v.appended;
    origin = λ w k m.
        let (same, within, x, listed, c) = v.origin w k m in (same, within, x, Memᴰ.tail listed, c);
    shrinks = v.shrinks;
  }

  Visits-enter :
      (s : Text) (ss : List Text) (q : Queue) (A : Dict Text ℕ) (q1 q' : Queue) (A' : Dict Text ℕ)
      → has A s ≡ false
      → has lattice.nodes_by_id s ≡ true
      → Enters s q q1
      → Visits ss q1 (put A s n) q' A'
      → Visits (s ∷ ss) q A q' A'
  Visits-enter s ss q A q1 q' A' new known e v = record {
    kept = λ x k at_x. v.kept x k (rw (get-put A s x n, other_key x k at_x) at_x);
    covered = λ x m. elim (Memᴰ.cases_cons m) [
      | inl same ↦
          let here = v.kept s n (rw (get-put A s s n, ==_refl s)) in unfold has in ground arith
      | inr r ↦ v.covered x r
    ];
    fresh = λ x k at_x. elim (v.fresh x k at_x) [
      | inr (same, m, all) ↦ inr (same, Memᴰ.tail m, all)
      | inl before ↦ elim (Bool-cases (s == x)) [
        | inr other ↦ inl (rw (get-put A s x n, other) at before)
        | inl same ↦ inr (
          ground (arith, get-put A s x n),
          Memᴰ.head (sym ((==_iff s x).0 same)),
          λ within w c.
              subst (λ (l : Queue). Memᴰ (w, n) l) (sym v.appended)
                (Memᴰ.append_left v.more (
                  e.all within w
                    (subst (λ y. Contributes lattice y w) (sym ((==_iff s x).0 same)) c))),
        )
      ]
    ];
    more = e.more ++ v.more;
    appended =
        v.appended ∙ ap (λ (l : Queue). l ++ v.more) e.appended ∙ append_assoc q e.more v.more;
    origin = λ w k m. elim ((Memᴰ-append (w, k) e.more v.more).0 m) [
      | inl now ↦ let (same, within, c) = e.origin w k now in (same, within, s, Memᴰ.head refl, c)
      | inr later ↦
          let (same, within, x, listed, c) = v.origin w k later in
          (same, within, x, Memᴰ.tail listed, c)
    ];
    shrinks = omega (
      arith,
      v.shrinks,
      e.fits,
      work_left-put lattice (keys lattice.nodes_by_id) A s n
          ((has_iff lattice.nodes_by_id s).0 known) new,
    );
  }
    where
      other_key : (x : Text) (k : ℕ) → get A x ≡ some k → (s == x) ≡ false
      other_key x k at_x = elim (Bool-cases (s == x)) [
        | inr other ↦ other
        | inl same ↦
            cc (get-has A s k (subst (λ y. get A y ≡ some k) (sym ((==_iff s x).0 same)) at_x), new)
      ]

  -- The inner loop raises nothing when its sources are nodes.
  pub visit_sources-Visits :
      (sources : List Text) (q : Queue) (A : Dict Text ℕ)
      → ((s : Text) → Memᴰ s sources → has lattice.nodes_by_id s ≡ true)
      → (q' : Queue) × (A' : Dict Text ℕ) × (visit_sources lattice max_depth n sources q A
          ≡ ok (q', A'))
        × Visits sources q A q' A'
  unfolding visit_sources
  visit_sources-Visits [] q A h = (q, A, refl, Visits-nil q A)
  visit_sources-Visits (s ∷ ss) q A h = elim (Bool-cases (has A s)) [
    | inl old ↦
        let (q', A', e, v) = visit_sources-Visits ss q A (λ x m. h x (Memᴰ.tail m)) in
        (q', A', rw old e, Visits-skip s ss q A q' A' old v)
    | inr new ↦
        let (q1, e1, enters) = enqueue-Enters s q (h s (Memᴰ.head refl)) in
        let (q', A', e, v) = visit_sources-Visits ss q1 (put A s n) (λ x m. h x (Memᴰ.tail m)) in
        (q', A', rw (new, e1) e, Visits-enter s ss q A q1 q' A' new (h s (Memᴰ.head refl)) enters v)
  ]
