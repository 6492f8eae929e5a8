-- ===== src/Check/Caching.antt =====
-- The hash cache of check_lattice.
use doc_lattice.Prelude.{
  ◌≡◌, inl, inr, refl, sym, ap, ◌∙◌, subst, Option, none, some, List, [], ◌∷◌, ◌++◌, if◌then◌else◌,
  Bool-cases, ◌==◌, ==_iff, nat_eq, list_eq, option_eq,
}
use doc_lattice.Text.{Text}
use doc_lattice.Sorting.{sorted}
use doc_lattice.Dict.{keys, get, put}
use doc_lattice.Dict.Laws.{get-put}
use doc_lattice.Model.{TargetId, target_eq, CollisionMember, Node, Edge, Lattice}
use doc_lattice.Origins.{edge_origins}
use doc_lattice.Resolve.{cached_target_hash, target_hash}
use doc_lattice.Result.{ok, err, ◌>>=◌, or_raise}
use doc_lattice.Errors.{Outcome, key_error}
use doc_lattice.Check.{
  EdgeStatus, status_of, broken, ambiguous_status, compare_seen, Cache, classify, classify_edges,
  check_nodes, check_lattice,
}

module _ (sha256_hex : Text → Text) (lattice : Lattice) where
  -- The status of one edge, its hash computed afresh.
  unfoldable pub fresh_status : Text → Edge → Outcome EdgeStatus
  fresh_status source_id edge =
      let origins = edge_origins lattice source_id edge in
      elim edge.target_id [
        | none ↦ ok (status_of source_id edge none broken edge.seen none [] origins)
        | some target_id ↦ elim (get lattice.collisions target_id) [
          | some collision ↦ ok (ambiguous_status source_id edge collision origins)
          | none ↦ do
            hash ← target_hash sha256_hex lattice target_id
            ok (compare_seen source_id edge target_id hash origins)
        ]
      ]

  unfoldable pub fresh_edges : Text → List Edge → Outcome (List EdgeStatus)
  fresh_edges source_id [] = ok []
  fresh_edges source_id (edge ∷ edges) = do
    first ← fresh_status source_id edge
    rest ← fresh_edges source_id edges
    ok (first ∷ rest)

  unfoldable pub fresh_nodes : List Text → Outcome (List EdgeStatus)
  fresh_nodes [] = ok []
  fresh_nodes (node_id ∷ ids) = do
    node ← or_raise key_error (get lattice.nodes_by_id node_id)
    here ← fresh_edges node_id node.derives_from
    rest ← fresh_nodes ids
    ok (here ++ rest)

  -- The reference: node after node in id order, edge after edge, no hash remembered.
  unfoldable pub fresh_check : Outcome (List EdgeStatus)
  fresh_check = fresh_nodes (sorted (keys lattice.nodes_by_id))

  -- What the cache remembers is right.
  abbrev IsFaithful : Cache → Type 0
  IsFaithful cache =
      (t : TargetId) (h : Text) → get cache t ≡ some h → target_hash sha256_hex lattice t ≡ ok h

  abbrev Agrees : {A : Type 0} → Outcome (A × Cache) → Outcome A → Type 0
  Agrees (ok a) (ok b) = (a.0 ≡ b) × IsFaithful a.1
  Agrees (err x) (err y) = x ≡ y
  Agrees _ _ = ⊥

  Agrees-bind :
      {A B : Type 0} (m : Outcome (A × Cache)) (n : Outcome A) (f : A × Cache → Outcome (B × Cache))
      (g : A → Outcome B)
      → Agrees m n
      → ((a : A) (c : Cache) → IsFaithful c → Agrees (f (a, c)) (g a))
      → Agrees (m >>= f) (n >>= g)
  Agrees-bind (ok a) (ok b) f g h k = subst (λ x. Agrees (f a) (g x)) h.0 (k a.0 a.1 h.1)
  Agrees-bind (err x) (err y) f g h k = h
  Agrees-bind (ok a) (err y) f g h k = absurd h
  Agrees-bind (err x) (ok b) f g h k = absurd h

  cached_target_hash-Agrees :
      (t : TargetId) (cache : Cache)
      → IsFaithful cache
      → Agrees (cached_target_hash sha256_hex lattice t cache) (target_hash sha256_hex lattice t)
  unfolding cached_target_hash
  cached_target_hash-Agrees t cache h =
      split (get cache t) refl (target_hash sha256_hex lattice t) refl
    where
      split :
          (o : Option Text)
          → get cache t ≡ o
          → (r : Outcome Text) → target_hash sha256_hex lattice t ≡ r
          → Agrees
              (elim o [
                | some known ↦ ok (known, cache)
                | none ↦ (r >>= λ hash. ok (hash, put cache t hash))
              ])
              r
      split (some known) e (ok hash) q = (cc (h t known e), h)
      split (some known) e (err x) q = cc (h t known e)
      split none e (err x) q = refl
      split none e (ok hash) q = (
        refl,
        λ u k at'. elim (Bool-cases (t == u)) [
          | inl same ↦ cc (
            get-put cache t u hash,
            ap (λ b. if b then some hash else get cache u) same,
            (==_iff t u).0 same,
          )
          | inr other ↦ h u k (
              sym (get-put cache t u hash ∙ ap (λ b. if b then some hash else get cache u) other)
              ∙ at')
        ],
      )

  classify-Agrees :
      (source_id : Text) (edge : Edge) (cache : Cache)
      → IsFaithful cache
      → Agrees (classify sha256_hex lattice source_id edge cache) (fresh_status source_id edge)
  unfolding classify fresh_status
  classify-Agrees source_id edge cache h = split edge.target_id
    where
      resolved :
          (t : TargetId) (o : Option (List CollisionMember))
          → Agrees
              (elim o [
                | some collision ↦ ok (
                  ambiguous_status source_id edge collision (edge_origins lattice source_id edge),
                  cache,
                )
                | none ↦
                    (cached_target_hash sha256_hex lattice t cache >>= λ hashed. ok (
                      compare_seen source_id edge t hashed.0 (edge_origins lattice source_id edge),
                      hashed.1,
                    ))
              ])
              (elim o [
                | some collision ↦ ok (
                    ambiguous_status source_id edge collision (edge_origins lattice source_id edge))
                | none ↦
                    (target_hash sha256_hex lattice t >>= λ hash.
                    ok (compare_seen source_id edge t hash (edge_origins lattice source_id edge)))
              ])
      resolved t (some collision) = (refl, h)
      resolved t none =
          Agrees-bind _ _ _ _ (cached_target_hash-Agrees t cache h) (λ a c k. (refl, k))

      split :
          (o : Option TargetId)
          → Agrees
              (elim o [
                | none ↦ ok (
                  status_of source_id edge none broken edge.seen none []
                      (edge_origins lattice source_id edge),
                  cache,
                )
                | some t ↦ elim (get lattice.collisions t) [
                  | some collision ↦ ok (
                    ambiguous_status source_id edge collision (edge_origins lattice source_id edge),
                    cache,
                  )
                  | none ↦
                      (cached_target_hash sha256_hex lattice t cache >>= λ hashed. ok (
                        compare_seen source_id edge t hashed.0
                            (edge_origins lattice source_id edge),
                        hashed.1,
                      ))
                ]
              ])
              (elim o [
                | none ↦ ok (
                    status_of source_id edge none broken edge.seen none []
                      (edge_origins lattice source_id edge))
                | some t ↦ elim (get lattice.collisions t) [
                  | some collision ↦ ok (
                      ambiguous_status source_id edge collision
                        (edge_origins lattice source_id edge))
                  | none ↦
                      (target_hash sha256_hex lattice t >>= λ hash.
                      ok (compare_seen source_id edge t hash (edge_origins lattice source_id edge)))
                ]
              ])
      split none = (refl, h)
      split (some t) = resolved t (get lattice.collisions t)

  classify_edges-Agrees :
      (source_id : Text) (edges : List Edge) (cache : Cache)
      → IsFaithful cache
      → Agrees
          (classify_edges sha256_hex lattice source_id edges cache)
          (fresh_edges source_id edges)
  unfolding classify_edges fresh_edges
  classify_edges-Agrees source_id [] cache h = (refl, h)
  classify_edges-Agrees source_id (edge ∷ edges) cache h =
      Agrees-bind _ _ _ _ (classify-Agrees source_id edge cache h) λ first c k.
        Agrees-bind _ _ _ _ (classify_edges-Agrees source_id edges c k) λ rest d l. (refl, l)

  check_nodes-Agrees :
      (ids : List Text) (cache : Cache)
      → IsFaithful cache
      → Agrees (check_nodes sha256_hex lattice ids cache) (fresh_nodes ids)
  unfolding check_nodes fresh_nodes
  check_nodes-Agrees [] cache h = (refl, h)
  check_nodes-Agrees (node_id ∷ ids) cache h =
      check_node (or_raise key_error (get lattice.nodes_by_id node_id)) (check_nodes-Agrees ids)
    where
      check_node :
          (n : Outcome Node)
          → ((c : Cache)
              → IsFaithful c
              → Agrees (check_nodes sha256_hex lattice ids c) (fresh_nodes ids))
          → Agrees
              (n >>= λ node.
                (classify_edges sha256_hex lattice node_id node.derives_from cache >>= λ here.
                (check_nodes sha256_hex lattice ids here.1 >>= λ rest.
                ok (here.0 ++ rest.0, rest.1))))
              (n >>= λ node.
                (fresh_edges node_id node.derives_from >>= λ here.
                (fresh_nodes ids >>= λ rest. ok (here ++ rest))))
      check_node (err x) later = refl
      check_node (ok node) later =
          Agrees-bind _ _ _ _ (classify_edges-Agrees node_id node.derives_from cache h)
            λ here c k. Agrees-bind _ _ _ _ (later c k) λ rest d l. (refl, l)

  -- check_lattice reports, in node-id then edge order, what each edge gets with its hash computed
  -- afresh, and raises the error that this raises.
  pub check_lattice-eq-fresh_check : check_lattice sha256_hex lattice ≡ fresh_check
  unfolding check_lattice fresh_check
  check_lattice-eq-fresh_check =
      first_part (check_nodes sha256_hex lattice (sorted (keys lattice.nodes_by_id)) [])
        (fresh_nodes (sorted (keys lattice.nodes_by_id)))
        (check_nodes-Agrees (sorted (keys lattice.nodes_by_id)) [] (λ t h e. unfold get in cc))
    where
      first_part :
          (m : Outcome (List EdgeStatus × Cache)) (n : Outcome (List EdgeStatus))
          → Agrees m n
          → (m >>= λ checked. ok checked.0) ≡ n
      first_part (ok a) (ok b) h = cc (h.0)
      first_part (err x) (err y) h = cc
      first_part (ok a) (err y) h = absurd h
      first_part (err x) (ok b) h = absurd h
