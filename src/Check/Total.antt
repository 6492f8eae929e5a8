-- ===== src/Check/Total.antt =====
-- When check_lattice raises.
use doc_lattice.Prelude.{
  ◌≡◌, refl, ◌∙◌, true, Option, none, some, List, [], ◌∷◌, ◌++◌, Memᴰ, nat_eq, list_eq, option_eq,
}
use doc_lattice.Text.{Text}
use doc_lattice.Sorting.{sorted, sorted-mem}
use doc_lattice.Dict.{keys, get, has}
use doc_lattice.Dict.Laws.{has_iff, has-get}
use doc_lattice.Model.{TargetId, target_eq, CollisionMember, Edge, Lattice, ParsedDoc, FileSections}
use doc_lattice.Loader.{build_lattice}
use doc_lattice.Loader.Coherence.{IsCoherent, build_lattice-IsCoherent}
use doc_lattice.Origins.{edge_origins}
use doc_lattice.Resolve.{node_for_path, target_content, target_hash, covered_text}
use doc_lattice.Result.{ok, ◌>>=◌}
use doc_lattice.Errors.{Outcome}
use doc_lattice.Check.{EdgeStatus, ambiguous_status, status_of, broken, compare_seen, check_lattice}
use doc_lattice.Check.Caching.{
  fresh_status, fresh_edges, fresh_nodes, fresh_check, check_lattice-eq-fresh_check,
}
use doc_lattice.Check.Gate.{Returns}

pub Returns-bind :
    {A B : Type 0} (m : Outcome A) (f : A → Outcome B)
    → Returns m
    → ((a : A) → m ≡ ok a → Returns (f a))
    → Returns (m >>= f)
Returns-bind m f (a, e) k = let (b, q) = k a e in (b, rw e q)

module _ (sha256_hex : Text → Text) (lattice : Lattice) (coherent : IsCoherent lattice) where
  -- The target of an index entry has content.
  pub target_content-Returns :
      (t : TargetId) → has lattice.index t ≡ true → Returns (target_content lattice t)
  unfolding target_content node_for_path
  target_content-Returns t h =
      let (loc, at_t) = has-get lattice.index t h in
      let (id, node, owner, found) = coherent.owned t loc at_t in
      (covered_text lattice t loc node, rw (at_t, owner, found))

  target_hash-Returns :
      (t : TargetId) → has lattice.index t ≡ true → Returns (target_hash sha256_hex lattice t)
  unfolding target_hash
  target_hash-Returns t h =
      Returns-bind (target_content lattice t) _ (target_content-Returns t h)
        (λ content _. (_, refl))

  fresh_status-Returns :
      (source_id : Text) (edge : Edge)
      → ((t : TargetId) → edge.target_id ≡ some t → has lattice.index t ≡ true)
      → Returns (fresh_status sha256_hex lattice source_id edge)
  unfolding fresh_status
  fresh_status-Returns source_id edge h = by_target edge.target_id h
    where
      by_clash :
          (t : TargetId)
          → has lattice.index t ≡ true
          → (o : Option (List CollisionMember))
          → Returns (elim o [
            | some collision ↦
                ok (ambiguous_status source_id edge collision (edge_origins lattice source_id edge))
            | none ↦
                (target_hash sha256_hex lattice t >>= λ hash.
                ok (compare_seen source_id edge t hash (edge_origins lattice source_id edge)))
          ])
      by_clash t k (some collision) = (_, refl)
      by_clash t k none =
          Returns-bind (target_hash sha256_hex lattice t) _ (target_hash-Returns t k)
            (λ hash _. (_, refl))

      by_target :
          (o : Option TargetId)
          → ((t : TargetId) → o ≡ some t → has lattice.index t ≡ true)
          → Returns (elim o [
            | none ↦ ok (
                status_of source_id edge none broken edge.seen none []
                  (edge_origins lattice source_id edge))
            | some t ↦ elim (get lattice.collisions t) [
              | some collision ↦
                  ok (
                    ambiguous_status source_id edge collision (edge_origins lattice source_id edge))
              | none ↦
                  (target_hash sha256_hex lattice t >>= λ hash.
                  ok (compare_seen source_id edge t hash (edge_origins lattice source_id edge)))
            ]
          ])
      by_target none k = (_, refl)
      by_target (some t) k = by_clash t (k t refl) (get lattice.collisions t)

  fresh_edges-Returns :
      (source_id : Text) (edges : List Edge)
      → ((e : Edge) (t : TargetId)
          → Memᴰ e edges
          → e.target_id ≡ some t
          → has lattice.index t ≡ true)
      → Returns (fresh_edges sha256_hex lattice source_id edges)
  unfolding fresh_edges
  fresh_edges-Returns source_id [] h = ([], refl)
  fresh_edges-Returns source_id (edge ∷ edges) h =
      Returns-bind (fresh_status sha256_hex lattice source_id edge) _
        (fresh_status-Returns source_id edge (λ t e. h edge t (Memᴰ.head refl) e))
        λ first _.
          Returns-bind (fresh_edges sha256_hex lattice source_id edges) _
            (fresh_edges-Returns source_id edges (λ e t m. h e t (Memᴰ.tail m)))
            λ rest _. (first ∷ rest, refl)

  fresh_nodes-Returns :
      (ids : List Text)
      → ((id : Text) → Memᴰ id ids → has lattice.nodes_by_id id ≡ true)
      → Returns (fresh_nodes sha256_hex lattice ids)
  unfolding fresh_nodes
  fresh_nodes-Returns [] h = ([], refl)
  fresh_nodes-Returns (id ∷ ids) h =
      let (node, found) = has-get lattice.nodes_by_id id (h id (Memᴰ.head refl)) in
      let (here, e1) =
        fresh_edges-Returns id node.derives_from
          (λ e t m at'. (coherent.edges id node e t found m at').1) in
      let (rest, e2) = fresh_nodes-Returns ids (λ j m. h j (Memᴰ.tail m)) in
      (here ++ rest, rw (found, e1, e2))

  pub check_lattice-Returns : Returns (check_lattice sha256_hex lattice)
  check_lattice-Returns =
      let (statuses, e) =
        fresh_nodes-Returns (sorted (keys lattice.nodes_by_id))
          (λ id m. (has_iff lattice.nodes_by_id id).1 ((sorted-mem id _).0 m)) in
      (statuses, check_lattice-eq-fresh_check sha256_hex lattice ∙ (unfold fresh_check in e))

-- On a lattice that build_lattice returned, check_lattice returns a list of statuses: no lookup of it
-- can miss.
pub check_built_returns :
    (sha256_hex : Text → Text) (derive : Text → FileSections) (docs : List ParsedDoc)
    (lattice : Lattice)
    → build_lattice derive docs ≡ ok lattice
    → (statuses : List EdgeStatus) × (check_lattice sha256_hex lattice ≡ ok statuses)
check_built_returns sha256_hex derive docs lattice e =
    check_lattice-Returns sha256_hex lattice (build_lattice-IsCoherent derive docs lattice e)
