-- ===== src/Impact/Walk.antt =====
-- The queue loop of impact, its rounds, and the depths at which it finds nodes.
use doc_lattice.Prelude.{
  ℕ, zero, suc, ◌+◌, ◌≤◌, ◌≡◌, ◌⊎◌, inl, inr, refl, sym, ap, ◌∙◌, subst, true, Option, some, List,
  [], ◌∷◌, Memᴰ, Memᴰ-append, length, arith, if◌then◌else◌, Bool-cases, ◌==◌, ==_iff, ==_refl,
  nat_eq, list_eq, option_eq, contains, contains_iff,
}
use mathlib.Core.List.Memᴰ
use doc_lattice.Text.{Text}
use doc_lattice.Sets.{add, add-mem}
use doc_lattice.Dict.{Dict, keys, get}
use doc_lattice.Dict.Laws.{has-get}
use doc_lattice.Model.{TargetId, target_eq, Lattice}
use doc_lattice.Loader.Coherence.{IsCoherent}
use doc_lattice.Loader.Dependents.{sources_of}
use doc_lattice.Result.{ok}
use doc_lattice.Errors.{Outcome}
use doc_lattice.Impact.{at_depth, Queue, depth_limit_reached, walk, work_left}
use doc_lattice.Impact.Reach.{
  Within, Within-le, depth_limit_reached_iff, Contributes, Reaches, root, hop, AffectedAt,
}
use doc_lattice.Impact.Queue.{AllAt-Ordered, Ordered, Ordered-pop, Ordered-append, All-of-mem}
use doc_lattice.Impact.Visit.{
  Visits, visit_sources-Visits, length-at_depth, at_depth-mem, mem-at_depth,
}

-- What the walk should find: each affected node, at the least of its depths.
pub record IsExact (lattice : Lattice) (max_depth : Option ℕ) (roots : List TargetId)
    (A : Dict Text ℕ) : Type 0 where
  pub sound : (s : Text) (k : ℕ) → get A s ≡ some k → AffectedAt lattice max_depth roots s k
  pub least :
      (s : Text) (n : ℕ)
      → AffectedAt lattice max_depth roots s n
      → (k : ℕ) × (get A s ≡ some k) × (k ≤ n)

module _ (lattice : Lattice) (max_depth : Option ℕ) (coherent : IsCoherent lattice)
    (roots : List TargetId) where
  -- Visited at a depth of at most `k`, or waiting at one. `level` says at which depth a target was
  -- visited, which the program does not store.
  abbrev Seen : Queue → List TargetId → (TargetId → ℕ) → ℕ → TargetId → Type 0
  Seen q V level k w = (Memᴰ w V × (level w ≤ k)) ⊎ ((d : ℕ) × Memᴰ (w, d) q × (d ≤ k))

  record Inv (e : ℕ) (q : Queue) (V : List TargetId) (level : TargetId → ℕ) (A : Dict Text ℕ)
      : Type 0 where
    ordered : Ordered e q
    early : (t : TargetId) → Memᴰ t V → level t ≤ e
    bounded : (s : Text) (k : ℕ) → get A s ≡ some k → k ≤ e + 1
    waiting : (t : TargetId) (d : ℕ) → Memᴰ (t, d) q → Reaches lattice max_depth roots t d
    sound : (s : Text) (k : ℕ) → get A s ≡ some k → AffectedAt lattice max_depth roots s k
    closed_visited :
        (t : TargetId)
        → Memᴰ t V
        → Within max_depth (level t)
        → (s : Text) → Memᴰ s (sources_of lattice.dependents t)
        → (k : ℕ) × (get A s ≡ some k) × (k ≤ level t + 1)
    closed_affected :
        (s : Text) (k : ℕ)
        → get A s ≡ some k
        → Within max_depth k
        → (w : TargetId) → Contributes lattice s w
        → Seen q V level k w
    started : (t : TargetId) → Memᴰ t roots → Seen q V level 0 t

  -- With an empty queue everything reachable is visited.
  Inv-visited :
      {e : ℕ} {V : List TargetId} {level : TargetId → ℕ} {A : Dict Text ℕ}
      → Inv e [] V level A
      → {t : TargetId} {d : ℕ} → Reaches lattice max_depth roots t d
      → Memᴰ t V × (level t ≤ d)
  Inv-visited inv (root {t} {depth} m zero') = elim (inv.started t m) [
    | inl (v, le) ↦ (v, omega arith)
    | inr (k, n, _) ↦ absurd (Memᴰ.not-nil n)
  ]
  Inv-visited {level} inv (hop {t} {w} {depth} {next} s chain m one within c) =
      let (v, le) = Inv-visited inv chain in
      let (k, at_s, k_le) =
        inv.closed_visited t v (Within-le max_depth (level t) next (omega arith) within) s m in
      elim (inv.closed_affected s k at_s (Within-le max_depth k next (omega arith) within) w c) [
        | inl (v', le') ↦ (v', omega arith)
        | inr (k', n, _) ↦ absurd (Memᴰ.not-nil n)
      ]

  Inv-IsExact :
      {e : ℕ} {V : List TargetId} {level : TargetId → ℕ} {A : Dict Text ℕ}
      → Inv e [] V level A
      → IsExact lattice max_depth roots A
  Inv-IsExact {level} inv = record {
    sound = inv.sound;
    least = λ s n a.
        let (v, le) = Inv-visited inv a.chain in
        let (k, at_s, k_le) =
          inv.closed_visited a.target v (Within-le max_depth (level a.target) a.before le a.within)
            s a.source in
        (k, at_s, omega (arith, a.one_more));
  }

  module _ (e d : ℕ) (t : TargetId) (q : Queue) (V : List TargetId) (level : TargetId → ℕ)
      (A : Dict Text ℕ) (inv : Inv e ((t, d) ∷ q) V level A) where
    -- A target that was visited before is dropped.
    Inv-known : Memᴰ t V → Inv d q V level A
    Inv-known old =
        let (low, high, rest) = Ordered-pop e d t q inv.ordered in
        record {
          ordered = rest;
          early = λ u m. omega (arith, inv.early u m);
          bounded = λ s k at_s. omega (arith, inv.bounded s k at_s);
          waiting = λ u k m. inv.waiting u k (Memᴰ.tail m);
          sound = inv.sound;
          closed_visited = inv.closed_visited;
          closed_affected =
              λ s k at_s within w c. drop_known low k w (inv.closed_affected s k at_s within w c);
          started = λ u m. drop_known low 0 u (inv.started u m);
        }
      where
        drop_known :
            e ≤ d → (k : ℕ) (w : TargetId) → Seen ((t, d) ∷ q) V level k w → Seen q V level k w
        drop_known low k w (inl v) = inl v
        drop_known low k w (inr (j, m, le)) = elim (Memᴰ.cases_cons m) [
          | inr later ↦ inr (j, later, le)
          | inl here ↦ inl (
            subst (λ x. Memᴰ x V) (sym (ap (λ (p : TargetId × ℕ). p.0) here)) old,
            omega (
              arith,
              inv.early t old,
              ap (λ (p : TargetId × ℕ). p.1) here,
              ap (λ (p : TargetId × ℕ). level p.0) here,
            ),
          )
        ]

    -- The ghost levels once `t` is visited at depth `d`.
    abbrev level' : TargetId → ℕ
    level' u = if t == u then d else level u

    level'_old : ¬ Memᴰ t V → (u : TargetId) → Memᴰ u V → level' u ≡ level u
    level'_old new u m = elim (Bool-cases (t == u)) [
      | inl same ↦ absurd (new (subst (λ x. Memᴰ x V) (sym ((==_iff t u).0 same)) m))
      | inr other ↦ rw other
    ]

    level'_self : level' t ≡ d
    level'_self = rw (==_refl t)

    Seen-visit :
        ¬ Memᴰ t V
        → (q' : Queue) → ((w : TargetId) (k : ℕ) → Memᴰ (w, k) q → Memᴰ (w, k) q')
        → (k : ℕ) (w : TargetId) → Seen ((t, d) ∷ q) V level k w
        → Seen q' (add t V) level' k w
    Seen-visit new q' sub k w (inl (m, le)) =
        inl ((add-mem t w V).1 (inr m), omega (arith, level'_old new w m))
    Seen-visit new q' sub k w (inr (j, m, le)) = elim (Memᴰ.cases_cons m) [
      | inr later ↦ inr (j, sub w j later, le)
      | inl here ↦
          let same : w ≡ t = ap (λ (p : TargetId × ℕ). p.0) here in
          inl (
            (add-mem t w V).1 (inl same),
            subst (λ x. level' x ≤ k) (sym same)
                (omega (arith, level'_self, ap (λ (p : TargetId × ℕ). p.1) here)),
          )
    ]

    -- At the depth limit the target is visited, and nothing else happens.
    Inv-bounded : ¬ Memᴰ t V → depth_limit_reached max_depth d ≡ true → Inv d q (add t V) level' A
    Inv-bounded new limit =
        let (low, high, rest) = Ordered-pop e d t q inv.ordered in
        record {
          ordered = rest;
          early = λ u m. elim ((add-mem t u V).0 m) [
            | inl same ↦ subst (λ x. level' x ≤ d) (sym same) (omega (arith, level'_self))
            | inr old ↦ omega (arith, inv.early u old, level'_old new u old)
          ];
          bounded = λ s k at_s. omega (arith, inv.bounded s k at_s);
          waiting = λ u k m. inv.waiting u k (Memᴰ.tail m);
          sound = inv.sound;
          closed_visited = λ u m within s source. elim ((add-mem t u V).0 m) [
            | inl same ↦
                absurd (
                  past_limit
                    (subst (λ x. Within max_depth x) (ap level' same ∙ level'_self) within))
            | inr old ↦
                let (k, at_s, le) =
                  inv.closed_visited u old
                    (subst (λ x. Within max_depth x) (level'_old new u old) within) s source in
                (k, at_s, omega (arith, level'_old new u old))
          ];
          closed_affected = λ s k at_s within w c.
              Seen-visit new q (λ _ _ m. m) k w (inv.closed_affected s k at_s within w c);
          started = λ u m. Seen-visit new q (λ _ _ m. m) 0 u (inv.started u m);
        }
      where
        past_limit : ¬ Within max_depth d
        past_limit within = cc ((depth_limit_reached_iff max_depth d).1 within, limit)

    -- Otherwise its dependents are affected at the next depth.
    Inv-entered :
        ¬ Memᴰ t V
        → Within max_depth d
        → (q' : Queue) (A' : Dict Text ℕ)
        → Visits lattice max_depth coherent (d + 1) (sources_of lattice.dependents t) q A q' A'
        → Inv d q' (add t V) level' A'
    Inv-entered new within q' A' v =
        let (low, high, rest) = Ordered-pop e d t q inv.ordered in
        record {
          ordered =
              subst (Ordered d) (sym v.appended) (
                Ordered-append d q v.more rest (All-of-mem _ v.more (λ w k m. (v.origin w k m).0)));
          early = λ u m. elim ((add-mem t u V).0 m) [
            | inl same ↦ subst (λ x. level' x ≤ d) (sym same) (omega (arith, level'_self))
            | inr old ↦ omega (arith, inv.early u old, level'_old new u old)
          ];
          bounded = at_most low;
          waiting = λ u k m.
              elim ((Memᴰ-append (u, k) q v.more).0
                (subst (λ (l : Queue). Memᴰ (u, k) l) v.appended m)) [
                  | inl old ↦ inv.waiting u k (Memᴰ.tail old)
                  | inr pushed ↦
                      let (at_next, inside, s, source, c) = v.origin u k pushed in
                      hop s (inv.waiting t d (Memᴰ.head refl)) source at_next
                        (subst (Within max_depth) (sym at_next) inside) c
                ];
          sound = λ s k at_s. elim (v.fresh s k at_s) [
            | inl old ↦ inv.sound s k old
            | inr (at_next, source, _) ↦ record {
              target = t;
              before = d;
              chain = inv.waiting t d (Memᴰ.head refl);
              within = within;
              source = source;
              one_more = at_next;
            }
          ];
          closed_visited = λ u m inside s source. elim ((add-mem t u V).0 m) [
            | inl same ↦
                let (k, at_s) = has-get A' s (
                  v.covered s
                    (subst (λ x. Memᴰ s (sources_of lattice.dependents x)) same source)) in
                (
                  k,
                  at_s,
                  subst (λ x. k ≤ level' x + 1) (sym same)
                      (omega (arith, level'_self, at_most low s k at_s)),
                )
            | inr old ↦
                let (k, at_s, le) =
                  inv.closed_visited u old
                    (subst (λ x. Within max_depth x) (level'_old new u old) inside) s source in
                (k, v.kept s k at_s, omega (arith, level'_old new u old))
          ];
          closed_affected = λ s k at_s inside w c. elim (v.fresh s k at_s) [
            | inl old ↦ Seen-visit new q' kept_waiting k w (inv.closed_affected s k old inside w c)
            | inr (at_next, source, all) ↦
                inr (d + 1, all (subst (Within max_depth) at_next inside) w c, omega arith)
          ];
          started = λ u m. Seen-visit new q' kept_waiting 0 u (inv.started u m);
        }
      where
        at_most : e ≤ d → (s : Text) (k : ℕ) → get A' s ≡ some k → k ≤ d + 1
        at_most low s k at_s = elim (v.fresh s k at_s) [
          | inl old ↦ omega (arith, inv.bounded s k old)
          | inr (at_next, _, _) ↦ omega arith
        ]

        kept_waiting : (w : TargetId) (k : ℕ) → Memᴰ (w, k) q → Memᴰ (w, k) q'
        kept_waiting w k m =
            subst (λ (l : Queue). Memᴰ (w, k) l) (sym v.appended) (Memᴰ.append_left v.more m)

  abbrev pub Finds : Outcome (Dict Text ℕ) → Type 0
  Finds outcome = (A : Dict Text ℕ) × (outcome ≡ ok A) × IsExact lattice max_depth roots A

  -- From the invariant, with a round for each waiting target and for each that can still come, the
  -- loop ends, and what it found is exact.
  walk-Finds :
      (fuel e : ℕ) (q : Queue) (V : List TargetId) (level : TargetId → ℕ) (A : Dict Text ℕ)
      → Inv e q V level A
      → length q + work_left lattice (keys lattice.nodes_by_id) A ≤ fuel
      → Finds (walk lattice max_depth fuel q V A)
  unfolding walk
  walk-Finds fuel e [] V level A inv enough = (A, refl, Inv-IsExact inv)
  walk-Finds zero e ((t, d) ∷ q) V level A inv enough = absurd (omega arith)
  walk-Finds (suc fuel) e ((t, d) ∷ q) V level A inv enough = elim (Bool-cases (contains V t)) [
    | inl old ↦ rw old (
        walk-Finds fuel d q V level A (Inv-known e d t q V level A inv ((contains_iff V t).0 old))
          (omega arith))
    | inr fresh ↦
        let new : ¬ Memᴰ t V = λ m. cc ((contains_iff V t).1 m, fresh) in
        elim (Bool-cases (depth_limit_reached max_depth d)) [
          | inl limit ↦
              rw (fresh, limit)
                (walk-Finds fuel d q (add t V) (level' e d t q V level A inv) A
                  (Inv-bounded e d t q V level A inv new limit) (omega arith))
          | inr open' ↦
              let sources = sources_of lattice.dependents t in
              let (q', A', visited, v) =
                visit_sources-Visits lattice max_depth coherent (d + 1) sources q A
                  (λ s m. coherent.dependents t s m) in
              rw (fresh, open', visited)
                (walk-Finds fuel d q' (add t V) (level' e d t q V level A inv) A'
                  (Inv-entered e d t q V level A inv new
                    ((depth_limit_reached_iff max_depth d).0 open') q' A' v)
                  (omega (arith, v.shrinks)))
        ]
  ]

  Inv-start : Inv 0 (at_depth 0 roots) [] (λ _. 0) []
  Inv-start = record {
    ordered =
        AllAt-Ordered 0 (at_depth 0 roots)
          (All-of-mem _ (at_depth 0 roots) (λ w k m. (at_depth-mem 0 roots w k m).0));
    early = λ t m. absurd (Memᴰ.not-nil m);
    bounded = λ s k h. absurd (nothing s k h);
    waiting = λ t d m. let (same, listed) = at_depth-mem 0 roots t d m in root listed same;
    sound = λ s k h. absurd (nothing s k h);
    closed_visited = λ t m. absurd (Memᴰ.not-nil m);
    closed_affected = λ s k h. absurd (nothing s k h);
    started = λ t m. inr (0, mem-at_depth 0 roots t m, omega arith);
  }
    where
      nothing : (s : Text) (k : ℕ) → ¬ (get {V = ℕ} [] s ≡ some k)
      nothing s k h = unfold get in cc

  -- The walk of impact finds exactly the affected nodes, at their least depths.
  pub walk_exact : Finds (
      walk lattice max_depth
        (length roots + work_left lattice (keys lattice.nodes_by_id) [])
        (at_depth 0 roots)
        []
        [])
  walk_exact =
      walk-Finds _ 0 (at_depth 0 roots) [] (λ _. 0) [] Inv-start
        (omega (arith, length-at_depth 0 roots))
