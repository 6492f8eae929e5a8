-- ===== src/Loader/Dependents.antt =====
-- The reverse adjacency that build_lattice computes.
use doc_lattice.Prelude.{
  ◌≡◌, ◌⊎◌, inl, inr, refl, sym, ap, ◌∙◌, subst, some, List, [], ◌∷◌, Memᴰ, arith, if◌then◌else◌,
  Bool-cases, Option-cases, ◌==◌, ==_iff, nat_eq, list_eq, option_eq, true,
}
use mathlib.Core.List.Memᴰ
use doc_lattice.Text.{Text}
use doc_lattice.Sets.{add, add-mem}
use doc_lattice.Dict.{Dict, get, put, get_or}
use doc_lattice.Dict.Laws.{get-put}
use doc_lattice.Model.{TargetId, target_eq, ParsedDoc, Node, Edge}
use doc_lattice.Result.{ok, or_raise, >>=-eq-ok}
use doc_lattice.Errors.{Outcome, key_error}
use doc_lattice.Loader.{Registry, resolve_edges, add_dependents, build_nodes}

-- The sources recorded for a target.
abbrev pub sources_of : Dict TargetId (List Text) → TargetId → List Text
sources_of d t = get_or d t []

pub get_or-put :
    (d : Dict TargetId (List Text)) (t u : TargetId) (v : List Text)
    → get_or (put d t v) u [] ≡ (if t == u then v else get_or d u [])
get_or-put d t u v = ground (arith, get-put d t u v)

pub add_dependents-mem :
    (id : Text) (edges : List Edge) (d : Dict TargetId (List Text)) (t : TargetId) (s : Text)
    → Memᴰ s (sources_of (add_dependents id edges d) t)
    → ((s ≡ id) × ((e : Edge) × Memᴰ e edges × (e.target_id ≡ some t))) ⊎ Memᴰ s (sources_of d t)
unfolding add_dependents
add_dependents-mem id [] d t s m = inr m
add_dependents-mem id (edge ∷ edges) d t s m = elim (Option-cases edge.target_id) [
  | inl none' ↦ elim (add_dependents-mem id edges d t s (rw none' at m)) [
    | inl (same, (e, k, at')) ↦ inl (same, (e, Memᴰ.tail k, at'))
    | inr old ↦ inr old
  ]
  | inr (u, some') ↦
      elim (add_dependents-mem id edges (put d u (add id (get_or d u []))) t s (rw some' at m)) [
        | inl (same, (e, k, at')) ↦ inl (same, (e, Memᴰ.tail k, at'))
        | inr old ↦ elim (Bool-cases (u == t)) [
          | inr other ↦ inr (rw (get_or-put d u t (add id (get_or d u [])), other) at old)
          | inl hit ↦
              elim ((add-mem id s (get_or d u [])).0
                (rw (get_or-put d u t (add id (get_or d u [])), hit) at old)) [
                  | inl same ↦
                      inl (same, (edge, Memᴰ.head refl, some' ∙ ap some ((==_iff u t).0 hit)))
                  | inr kept ↦ inr (subst (λ x. Memᴰ s (sources_of d x)) ((==_iff u t).0 hit) kept)
                ]
        ]
      ]
]

module _ (r : Registry) where
  pub build_nodes-dependents :
      (docs : List ParsedDoc) (nodes : Dict Text Node) (dependents : Dict TargetId (List Text))
      (built : Dict Text Node × Dict TargetId (List Text))
      → build_nodes r docs nodes dependents ≡ ok built
      → (t : TargetId) (s : Text) → Memᴰ s (sources_of built.1 t)
      → ((doc : ParsedDoc) × Memᴰ doc docs
          × (doc.meta.id ≡ s)
          × ((e : Edge) × Memᴰ e (resolve_edges doc r.index) × (e.target_id ≡ some t)))
        ⊎ Memᴰ s (sources_of dependents t)
  unfolding build_nodes
  build_nodes-dependents [] nodes dependents built e t s m = inr (
      subst (λ (b : Dict Text Node × Dict TargetId (List Text)). Memᴰ s (sources_of b.1 t))
        (ok_inj built (nodes, dependents) (sym e)) m)
    where
      ok_inj :
          (a b : Dict Text Node × Dict TargetId (List Text))
          → ◌≡◌ {A = Outcome (Dict Text Node × Dict TargetId (List Text))} (ok a) (ok b)
          → a ≡ b
      ok_inj a b k = cc
  build_nodes-dependents (doc ∷ docs) nodes dependents built e t s m =
      let (origin, found, rest) = >>=-eq-ok (or_raise key_error (get r.origins doc.meta.id)) _ e in
      elim (build_nodes-dependents docs _ _ built rest t s m) [
        | inl (d, k, same, edge) ↦ inl (d, Memᴰ.tail k, same, edge)
        | inr here ↦
            elim (add_dependents-mem doc.meta.id (resolve_edges doc r.index) dependents t s here) [
              | inl (same, edge) ↦ inl (doc, Memᴰ.head refl, sym same, edge)
              | inr old ↦ inr old
            ]
      ]

-- What is recorded stays, and the source of an edge is recorded for its target.
add_dependents-into :
    (id : Text) (edges : List Edge) (d : Dict TargetId (List Text)) (t : TargetId) (s : Text)
    → ((s ≡ id) × ((e : Edge) × Memᴰ e edges × (e.target_id ≡ some t))) ⊎ Memᴰ s (sources_of d t)
    → Memᴰ s (sources_of (add_dependents id edges d) t)
unfolding add_dependents
add_dependents-into id [] d t s (inl (_, (_, m, _))) = absurd (Memᴰ.not-nil m)
add_dependents-into id [] d t s (inr m) = m
add_dependents-into id (edge ∷ edges) d t s h = elim (Option-cases edge.target_id) [
  | inl none' ↦ rw none' (
      add_dependents-into id edges d t s (elim h [
        | inr old ↦ inr old
        | inl (same, (e, m, at')) ↦ elim (Memᴰ.cases_cons m) [
          | inl here ↦ cc (ap (λ (x : Edge). x.target_id) here, none', at')
          | inr later ↦ inl (same, (e, later, at'))
        ]
      ]))
  | inr (u, some') ↦ rw some' (
      let recorded = add id (get_or d u []) in
      let into = (add-mem id s (get_or d u [])).1 in
      add_dependents-into id edges (put d u recorded) t s (elim h [
        | inr old ↦ inr (elim (Bool-cases (u == t)) [
          | inr other ↦ rw (get_or-put d u t recorded, other) old
          | inl hit ↦
              rw (get_or-put d u t recorded, hit)
                (into (inr (subst (λ x. Memᴰ s (sources_of d x)) (sym ((==_iff u t).0 hit)) old)))
        ])
        | inl (same, (e, m, at')) ↦ elim (Memᴰ.cases_cons m) [
          | inl here ↦ inr (
              let hit : (u == t) ≡ true =
                (==_iff u t).1 (cc (ap (λ (x : Edge). x.target_id) here, some', at')) in
              rw (get_or-put d u t recorded, hit) (into (inl same)))
          | inr later ↦ inl (same, (e, later, at'))
        ]
      ]))
]

module _ (r : Registry) where
  pub build_nodes-into :
      (docs : List ParsedDoc) (nodes : Dict Text Node) (dependents : Dict TargetId (List Text))
      (built : Dict Text Node × Dict TargetId (List Text))
      → build_nodes r docs nodes dependents ≡ ok built
      → (t : TargetId) (s : Text)
      → ((doc : ParsedDoc) × Memᴰ doc docs
          × (doc.meta.id ≡ s)
          × ((e : Edge) × Memᴰ e (resolve_edges doc r.index) × (e.target_id ≡ some t)))
        ⊎ Memᴰ s (sources_of dependents t)
      → Memᴰ s (sources_of built.1 t)
  unfolding build_nodes
  build_nodes-into [] nodes dependents built e t s (inl (_, m, _, _)) = absurd (Memᴰ.not-nil m)
  build_nodes-into [] nodes dependents built e t s (inr m) =
      subst (λ (b : Dict Text Node × Dict TargetId (List Text)). Memᴰ s (sources_of b.1 t))
        (ok_inj (nodes, dependents) built e) m
    where
      ok_inj :
          (a b : Dict Text Node × Dict TargetId (List Text))
          → ◌≡◌ {A = Outcome (Dict Text Node × Dict TargetId (List Text))} (ok a) (ok b)
          → a ≡ b
      ok_inj a b k = cc
  build_nodes-into (doc ∷ docs) nodes dependents built e t s h =
      let (origin, found, rest) = >>=-eq-ok (or_raise key_error (get r.origins doc.meta.id)) _ e in
      let into = add_dependents-into doc.meta.id (resolve_edges doc r.index) dependents t s in
      build_nodes-into docs _ _ built rest t s (elim h [
        | inr old ↦ inr (into (inr old))
        | inl (d, m, same, (x, k, at')) ↦ elim (Memᴰ.cases_cons m) [
          | inl here ↦ inr (
              into (
                inl (
                  sym same ∙ ap (λ (y : ParsedDoc). y.meta.id) here,
                  (x, subst (λ y. Memᴰ x (resolve_edges y r.index)) here k, at'),
                )))
          | inr later ↦ inl (d, later, same, (x, k, at'))
        ]
      ])
