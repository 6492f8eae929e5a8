-- ===== src/Loader/Paths.antt =====
-- The path lookups that build_lattice precomputes.
use doc_lattice.Prelude.{
  ◌≡◌, ◌≢◌, ◌↔◌, ◌⊎◌, ⊎_elim, ◌∙◌, subst, Option, some, ◌++◌, ◌==◌, Bool-cases, Memᴰ-append,
  if◌then◌else◌, inl, inr, refl, sym, ap, true, List, [], ◌∷◌, Memᴰ, arith, ==_iff, nat_eq, list_eq,
  option_eq,
}
use mathlib.Core.List.Memᴰ
use doc_lattice.Text.{Text}
use doc_lattice.Dict.{Dict, get, has, put, get_or}
use doc_lattice.Dict.Laws.{has-put, mem-put, get-put}
use doc_lattice.Model.{TargetId, target_eq, LocationKind, Location, Node}
use doc_lattice.Loader.{index_paths, group_sections, anchor_sets}

-- What the path index says, from the nodes it is built of.
pub index_paths-has :
    (nodes : Dict Text Node) (d : Dict Text Text) (p : Text)
    → (has d p ≡ true) ⊎ ((id : Text) × (node : Node) × Memᴰ (id, node) nodes × (node.path ≡ p))
    → has (index_paths nodes d) p ≡ true
unfolding index_paths
index_paths-has [] d p (inl h) = h
index_paths-has [] d p (inr (id, node, m, e)) = absurd (Memᴰ.not-nil m)
index_paths-has ((j, other) ∷ nodes) d p h = index_paths-has nodes (put d other.path j) p (elim h [
  | inl old ↦ inl (ground (arith, has-put d other.path p j))
  | inr (id, node, m, e) ↦ elim (Memᴰ.cases_cons m) [
    | inl same ↦ inl (
        ground (
          arith,
          has-put d other.path p j,
          ==_iff other.path p,
          ap (λ (x : Text × Node). x.1.path) same,
        ))
    | inr later ↦ inr (id, node, later, e)
  ]
])

pub index_paths-mem :
    (nodes : Dict Text Node) (d : Dict Text Text) (p id : Text)
    → Memᴰ (p, id) (index_paths nodes d)
    → Memᴰ (p, id) d ⊎ ((node : Node) × Memᴰ (id, node) nodes × (node.path ≡ p))
unfolding index_paths
index_paths-mem [] d p id m = inl m
index_paths-mem ((j, other) ∷ nodes) d p id m =
    elim (index_paths-mem nodes (put d other.path j) p id m) [
      | inr (node, later, e) ↦ inr (node, Memᴰ.tail later, e)
      | inl here ↦ elim (mem-put d other.path p j id here) [
        | inl (at_path, same) ↦ inr (other, Memᴰ.head (ap (λ i. (i, other)) same), sym at_path)
        | inr old ↦ inl old
      ]
    ]

pub anchor_sets-has :
    (grouped : Dict Text (List TargetId)) (paths : Dict Text Text) (p : Text)
    → has (anchor_sets grouped paths) p ≡ has paths p
unfolding anchor_sets has get
anchor_sets-has grouped [] p = refl
anchor_sets-has grouped ((q, id) ∷ paths) p = ground (arith, anchor_sets-has grouped paths p)

pub anchor_sets-get :
    (grouped : Dict Text (List TargetId)) (paths : Dict Text Text) (p : Text) (ids : List TargetId)
    → get (anchor_sets grouped paths) p ≡ some ids
    → ids ≡ get_or grouped p []
unfolding anchor_sets get
anchor_sets-get grouped [] p ids e = cc
anchor_sets-get grouped ((q, id) ∷ paths) p ids e = elim (Bool-cases (q == p)) [
  | inl here ↦
      some_inj ids (get_or grouped q []) (rw here at e)
      ∙ ap (λ x. get_or grouped x []) ((==_iff q p).0 here)
  | inr other ↦ anchor_sets-get grouped paths p ids (rw other at e)
]
  where
    some_inj : (a b : List TargetId) → ◌≡◌ {A = Option (List TargetId)} (some b) (some a) → a ≡ b
    some_inj a b k = cc

get_or-put_path :
    (d : Dict Text (List TargetId)) (p q : Text) (v : List TargetId)
    → get_or (put d p v) q [] ≡ (if p == q then v else get_or d q [])
get_or-put_path d p q v = ground (arith, get-put d p q v)

kind_cases : (k : LocationKind) → (k ≡ LocationKind.file) ⊎ (k ≡ LocationKind.section)
kind_cases LocationKind.file = inl refl
kind_cases LocationKind.section = inr refl

-- The sections that are grouped under a path are those of the index at that path.
pub group_sections-mem :
    (index : Dict TargetId Location) (d : Dict Text (List TargetId)) (p : Text) (t : TargetId)
    → Memᴰ t (get_or (group_sections index d) p []) ↔ (
        ((loc : Location) × Memᴰ (t, loc) index
          × (loc.kind ≡ LocationKind.section)
          × (loc.path ≡ p))
        ⊎ Memᴰ t (get_or d p []))
unfolding group_sections
group_sections-mem [] d p t = (inr, ⊎_elim (λ (_, m, _, _). absurd (Memᴰ.not-nil m)) (λ m. m))
group_sections-mem ((u, place) ∷ index) d p t = elim (kind_cases place.kind) [
  | inl file' ↦ rw file' (
      let later = group_sections-mem index d p t in
      (
        λ m. elim (later.0 m) [
          | inl (loc, k, kind, path) ↦ inl (loc, Memᴰ.tail k, kind, path)
          | inr old ↦ inr old
        ],
        λ h. later.1 (elim h [
          | inr old ↦ inr old
          | inl (loc, k, kind, path) ↦ elim (Memᴰ.cases_cons k) [
            | inl here ↦
                absurd (no_section (sym (ap (λ (x : TargetId × Location). x.1.kind) here) ∙ kind))
            | inr n ↦ inl (loc, n, kind, path)
          ]
        ]),
      ))
  | inr section' ↦ rw section' (
      let grown = get_or d place.path [] ++ u ∷ [] in
      let later = group_sections-mem index (put d place.path grown) p t in
      let at_path = get_or-put_path d place.path p grown in
      (
        λ m. elim (later.0 m) [
          | inl (loc, k, kind, path) ↦ inl (loc, Memᴰ.tail k, kind, path)
          | inr new ↦ elim (Bool-cases (place.path == p)) [
            | inr other ↦ inr (rw (at_path, other) at new)
            | inl hit ↦
                let same = (==_iff place.path p).0 hit in
                elim ((Memᴰ-append t (get_or d place.path []) (u ∷ [])).0
                  (rw (at_path, hit) at new)) [
                    | inl old ↦ inr (subst (λ x. Memᴰ t (get_or d x [])) same old)
                    | inr last ↦ inl (
                      record place { kind = LocationKind.section },
                      Memᴰ.head (
                          ap (λ x. (x, record place { kind = LocationKind.section }))
                            (Memᴰ.eq_of_singleton last)),
                      refl,
                      same,
                    )
                  ]
          ]
        ],
        λ h. later.1 (elim h [
          | inr old ↦ inr (elim (Bool-cases (place.path == p)) [
            | inr other ↦ rw (at_path, other) old
            | inl hit ↦
                rw (at_path, hit)
                  (Memᴰ.append_left (u ∷ [])
                    (subst (λ x. Memᴰ t (get_or d x [])) (sym ((==_iff place.path p).0 hit)) old))
          ])
          | inl (loc, k, kind, path) ↦ elim (Memᴰ.cases_cons k) [
            | inr n ↦ inl (loc, n, kind, path)
            | inl here ↦ inr (
                let hit : (place.path == p) ≡ true =
                  (==_iff place.path p).1
                    (sym (ap (λ (x : TargetId × Location). x.1.path) here) ∙ path) in
                rw (at_path, hit)
                  (Memᴰ.append_right (get_or d place.path [])
                    (Memᴰ.head (ap (λ (x : TargetId × Location). x.0) here))))
          ]
        ]),
      ))
]
  where
    no_section : ◌≢◌ {A = LocationKind} LocationKind.file LocationKind.section
    no_section e = cc
