-- ===== src/Impact/Exact.antt =====
-- What impact returns.
use doc_lattice.Prelude.{
  ℕ, ◌≤◌, ◌≡◌, ◌↔◌, ◌⊎◌, inl, inr, refl, sym, ap, ◌∙◌, subst, true, false, Option, some, List, [],
  ◌∷◌, Memᴰ, arith, nat_eq, list_eq, option_eq,
}
use mathlib.Core.List.Memᴰ
use doc_lattice.Text.{Text}
use doc_lattice.Sets.{add, union}
use doc_lattice.Sorting.{sorted, sorted-mem}
use doc_lattice.Dict.{Dict, keys, get, has}
use doc_lattice.Dict.Laws.{has_iff, has-get, get-has}
use doc_lattice.Model.{
  TargetId, target_eq, file_target, parse_ref, LocationKind, Location, Node, Lattice,
}
use doc_lattice.Loader.Coherence.{IsCoherent}
use doc_lattice.Result.{ok, err}
use doc_lattice.Errors.{unknown_target}
use doc_lattice.Impact.{expand_targets, expand_location, list_affected, impact}
use doc_lattice.Impact.Reach.{AffectedAt}
use doc_lattice.Impact.Walk.{IsExact, walk_exact}

kind_cases : (k : LocationKind) → (k ≡ LocationKind.file) ⊎ (k ≡ LocationKind.section)
kind_cases LocationKind.file = inl refl
kind_cases LocationKind.section = inr refl

module _ (lattice : Lattice) where
  expand_file :
      (t : TargetId) (loc : Location) (anchors : List TargetId)
      → loc.kind ≡ LocationKind.file
      → get lattice.anchors_by_path loc.path ≡ some anchors
      → expand_location lattice t loc ≡ ok (union (t ∷ []) anchors)
  unfolding expand_location
  expand_file t loc anchors kind found = ground arith

  expand_section :
      (t : TargetId) (loc : Location) (ancestors : List TargetId) (id : Text)
      → loc.kind ≡ LocationKind.section
      → get lattice.ancestors t ≡ some ancestors
      → get lattice.file_id_by_path loc.path ≡ some id
      → expand_location lattice t loc ≡ ok (add (file_target id) (union (t ∷ []) ancestors))
  unfolding expand_location
  expand_section t loc ancestors id kind found owner = ground arith

  expand_targets_at :
      (token : Text) (loc : Location)
      → get lattice.index (parse_ref token) ≡ some loc
      → expand_targets lattice token ≡ expand_location lattice (parse_ref token) loc
  unfolding expand_targets
  expand_targets_at token loc found = ground arith

  list_affected-at :
      (A : Dict Text ℕ) (id : Text) (ids : List Text) (node : Node) (k : ℕ) (rest : List (Node × ℕ))
      → get lattice.nodes_by_id id ≡ some node
      → get A id ≡ some k
      → list_affected lattice A ids ≡ ok rest
      → list_affected lattice A (id ∷ ids) ≡ ok ((node, k) ∷ rest)
  unfolding list_affected
  list_affected-at A id ids node k rest found at_id later = ground arith

  -- The report lists each given id with its node and its depth.
  Lists : Dict Text ℕ → List Text → List (Node × ℕ) → Type 0
  Lists A ids result =
      (node : Node) (k : ℕ)
      → Memᴰ (node, k) result ↔ (
          (id : Text) × Memᴰ id ids
          × (get lattice.nodes_by_id id ≡ some node)
          × (get A id ≡ some k))

  list_affected-Lists :
      (A : Dict Text ℕ) (ids : List Text)
      → ((id : Text) → Memᴰ id ids → has lattice.nodes_by_id id ≡ true)
      → ((id : Text) → Memᴰ id ids → has A id ≡ true)
      → (result : List (Node × ℕ)) × (list_affected lattice A ids ≡ ok result) × Lists A ids result
  unfolding Lists
  list_affected-Lists A [] h g = (
    [],
    unfold list_affected in refl,
    λ node k. (λ m. absurd (Memᴰ.not-nil m), λ (id, m, _, _). absurd (Memᴰ.not-nil m)),
  )
  list_affected-Lists A (id ∷ ids) h g =
      let (node, found) = has-get lattice.nodes_by_id id (h id (Memᴰ.head refl)) in
      let (k, at_id) = has-get A id (g id (Memᴰ.head refl)) in
      let (rest, e, lists) =
        list_affected-Lists A ids (λ j m. h j (Memᴰ.tail m)) (λ j m. g j (Memᴰ.tail m)) in
      (
        (node, k) ∷ rest,
        list_affected-at A id ids node k rest found at_id e,
        λ node' k'. (
          λ m. elim (Memᴰ.cases_cons m) [
            | inl here ↦ (
              id,
              Memᴰ.head refl,
              found ∙ ap some (sym (ap (λ (p : Node × ℕ). p.0) here)),
              at_id ∙ ap some (sym (ap (λ (p : Node × ℕ). p.1) here)),
            )
            | inr later ↦
                let (j, listed, found', at_j) = (lists node' k').0 later in
                (j, Memᴰ.tail listed, found', at_j)
          ],
          λ (j, listed, found', at_j). elim (Memᴰ.cases_cons listed) [
            | inl same ↦
                Memᴰ.head
                  (pair_eq node node' k k' (cc (same, found, found')) (cc (same, at_id, at_j)))
            | inr later ↦ Memᴰ.tail ((lists node' k').1 (j, later, found', at_j))
          ],
        ),
      )
    where
      pair_eq : (a b : Node) (m n : ℕ) → b ≡ a → n ≡ m → ◌≡◌ {A = Node × ℕ} (b, n) (a, m)
      pair_eq a b m n p q = ground arith

module _ (lattice : Lattice) (coherent : IsCoherent lattice) where
  -- An indexed token expands to a set of targets, with no lookup that misses.
  expand_targets-total :
      (token : Text)
      → has lattice.index (parse_ref token) ≡ true
      → (roots : List TargetId) × (expand_targets lattice token ≡ ok roots)
  expand_targets-total token known =
      let t = parse_ref token in
      let (loc, found) = has-get lattice.index t known in
      let (id, node, owner, _) = coherent.owned t loc found in
      let (anchors, at_path) =
        has-get lattice.anchors_by_path loc.path (coherent.located t loc found) in
      elim (kind_cases loc.kind) [
        | inl file' ↦ (
          union (t ∷ []) anchors,
          expand_targets_at lattice token loc found
              ∙ expand_file lattice t loc anchors file' at_path,
        )
        | inr section' ↦
            let (ancestors, at_id) =
              has-get lattice.ancestors t (coherent.traced t loc found section') in
            (
              add (file_target id) (union (t ∷ []) ancestors),
              expand_targets_at lattice token loc found
                  ∙ expand_section lattice t loc ancestors id section' at_id owner,
            )
      ]

  -- The least depth of the node in the walk from the roots.
  abbrev pub IsLeastDepth : Option ℕ → List TargetId → Text → ℕ → Type 0
  IsLeastDepth max_depth roots id k =
      AffectedAt lattice max_depth roots id k
      × ((n : ℕ) → AffectedAt lattice max_depth roots id n → k ≤ n)

  -- An affected node has a least depth.
  pub least_depth :
      (max_depth : Option ℕ) (roots : List TargetId) (id : Text) (n : ℕ)
      → AffectedAt lattice max_depth roots id n
      → (k : ℕ) × IsLeastDepth max_depth roots id k
  least_depth max_depth roots id n affected =
      let (A, walked, exact) = walk_exact lattice max_depth coherent roots in
      let (k, at_id, le) = exact.least id n affected in
      (
        k,
        (
          exact.sound id k at_id,
          λ m other.
              let (j, at', le') = exact.least id m other in
              let same : k ≡ j = cc (at_id, at') in omega (arith, same, le'),
        ),
      )

  -- For a token in the index impact returns, and its report pairs exactly the nodes that a chain of
  -- dependents reaches from the expanded token, within the depth bound, with the length of a
  -- shortest such chain.
  pub impact_exact :
      (token : Text) (max_depth : Option ℕ)
      → has lattice.index (parse_ref token) ≡ true
      → (roots : List TargetId) × (result : List (Node × ℕ)) × (expand_targets lattice token
          ≡ ok roots)
        × (impact lattice token max_depth ≡ ok result)
        × ((node : Node) (k : ℕ)
            → Memᴰ (node, k) result ↔ (
                (get lattice.nodes_by_id node.id ≡ some node)
                × IsLeastDepth max_depth roots node.id k))
  unfolding impact Lists
  impact_exact token max_depth known =
      let (roots, expanded) = expand_targets-total token known in
      let (A, walked, exact) = walk_exact lattice max_depth coherent roots in
      let (result, listed, lists) =
        list_affected-Lists lattice A (sorted (keys A))
          (λ id m. node_known A exact id (key_of A id m)) (λ id m. key_of A id m) in
      (
        roots,
        result,
        expanded,
        rw (known, expanded, walked) listed,
        λ node k. (
          λ m.
              let (id, _, found, at_id) = (lists node k).0 m in
              let same = coherent.named id node found in
              (
                subst (λ x. get lattice.nodes_by_id x ≡ some node) (sym same) found,
                subst (IsLeastDepth max_depth roots node.id) refl (
                    subst (λ x. IsLeastDepth max_depth roots x k) (sym same)
                      (least_of A exact id k at_id)),
              ),
          λ (found, (affected, least)).
              let (j, at_id, le) = exact.least node.id k affected in
              (lists node k).1 (
                node.id,
                (sorted-mem node.id (keys A)).1 ((has_iff A node.id).0 (get-has A node.id j at_id)),
                found,
                at_id ∙ ap some (omega (arith, least j (exact.sound node.id j at_id))),
              ),
        ),
      )
    where
      key_of : (A : Dict Text ℕ) (id : Text) → Memᴰ id (sorted (keys A)) → has A id ≡ true
      key_of A id m = (has_iff A id).1 ((sorted-mem id (keys A)).0 m)

      node_known :
          (A : Dict Text ℕ)
          → IsExact lattice max_depth (expand_targets-total token known).0 A
          → (id : Text) → has A id ≡ true
          → has lattice.nodes_by_id id ≡ true
      node_known A exact id h =
          let (k, at_id) = has-get A id h in
          let a = exact.sound id k at_id in coherent.dependents a.target id a.source

      least_of :
          (A : Dict Text ℕ)
          → IsExact lattice max_depth (expand_targets-total token known).0 A
          → (id : Text) (k : ℕ) → get A id ≡ some k
          → IsLeastDepth max_depth (expand_targets-total token known).0 id k
      least_of A exact id k at_id = (
        exact.sound id k at_id,
        λ n a.
            let (j, at_j, le) = exact.least id n a in
            let same : j ≡ k = cc (at_id, at_j) in omega arith,
      )

-- An unknown token is refused.
pub impact_unknown :
    (lattice : Lattice) (token : Text) (max_depth : Option ℕ)
    → has lattice.index (parse_ref token) ≡ false
    → impact lattice token max_depth ≡ err (unknown_target token)
unfolding impact
impact_unknown lattice token max_depth unknown = rw unknown
