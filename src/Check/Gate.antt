-- ===== src/Check/Gate.antt =====
-- What the CI gate of `check` decides: when check_lattice returns, and when has_drift is false.
use doc_lattice.Prelude.{
  ◌≡◌, ◌↔◌, ◌⊎◌, inl, inr, refl, sym, ap, ◌∙◌, subst, true, false, ◌||◌, Option, none, some, List,
  [], ◌∷◌, ◌++◌, Memᴰ, arith, Option-cases, ==_iff, ==_refl, nat_eq, list_eq, option_eq,
}
use mathlib.Core.List.Memᴰ
use doc_lattice.Text.{Text}
use doc_lattice.Sorting.{sorted, sorted-mem}
use doc_lattice.Dict.{keys, get, has}
use doc_lattice.Dict.Laws.{has_iff}
use doc_lattice.Model.{TargetId, target_eq, Node, Edge, Lattice}
use doc_lattice.Resolve.{target_hash}
use doc_lattice.Result.{ok, err, or_raise, >>=-eq-ok}
use doc_lattice.Errors.{Error, Outcome, key_error}
use doc_lattice.Check.{
  EdgeStatus, ambiguous_status, compare_seen, check_lattice, is_in_sync, has_drift,
}
use doc_lattice.Check.Caching.{
  fresh_status, fresh_edges, fresh_nodes, fresh_check, check_lattice-eq-fresh_check,
}

abbrev pub Returns : {A : Type 0} → Outcome A → Type 0
Returns {A = A} m = (a : A) × (m ≡ ok a)

module _ (sha256_hex : Text → Text) (lattice : Lattice) where
  -- An edge whose locked hash is the hash of the content that its target has now.
  pub record IsInSync (edge : Edge) : Type 0 where
    pub target : TargetId
    pub hash : Text
    pub resolved : edge.target_id ≡ some target
    pub unambiguous : get lattice.collisions target ≡ none
    pub current : target_hash sha256_hex lattice target ≡ ok hash
    pub locked : edge.seen ≡ some hash

  fresh_status_sound :
      (source_id : Text) (edge : Edge) (s : EdgeStatus)
      → fresh_status sha256_hex lattice source_id edge ≡ ok s
      → is_in_sync s.state ≡ true
      → IsInSync edge
  unfolding fresh_status compare_seen ambiguous_status
  fresh_status_sound source_id edge s e sync = elim (Option-cases edge.target_id) [
    | inl none' ↦ ground arith
    | inr (t, some') ↦ elim (Option-cases (get lattice.collisions t)) [
      | inr (c, clash) ↦ ground arith
      | inl clear ↦
          by_hash t some' clear (target_hash sha256_hex lattice t) refl (Option-cases edge.seen)
    ]
  ]
    where
      by_hash :
          (t : TargetId)
          → edge.target_id ≡ some t
          → get lattice.collisions t ≡ none
          → (o : Outcome Text) → target_hash sha256_hex lattice t ≡ o
          → (edge.seen ≡ none) ⊎ ((a : Text) × (edge.seen ≡ some a))
          → IsInSync edge
      by_hash t some' clear (err x) q seen = ground arith
      by_hash t some' clear (ok h) q (inl unseen) = ground arith
      by_hash t some' clear (ok h) q (inr (a, seen)) = record {
        target = t;
        hash = h;
        resolved = some';
        unambiguous = clear;
        current = q;
        locked = seen ∙ ap some (ground (arith, ==_iff h a));
      }

  fresh_status_complete :
      (source_id : Text) (edge : Edge) (s : EdgeStatus)
      → fresh_status sha256_hex lattice source_id edge ≡ ok s
      → IsInSync edge
      → is_in_sync s.state ≡ true
  unfolding fresh_status compare_seen
  fresh_status_complete source_id edge s e h = ground (arith, ==_refl h.hash)

  abbrev AllInSync : List Edge → Type 0
  AllInSync edges = (e : Edge) → Memᴰ e edges → IsInSync e

  -- `statuses` has no drift exactly when every one of `edges` is in sync.
  abbrev Gates : List EdgeStatus → Type 0 → Type 0
  Gates statuses P = (has_drift statuses ≡ false) ↔ P

  fresh_edges-Gates :
      (source_id : Text) (edges : List Edge) (statuses : List EdgeStatus)
      → fresh_edges sha256_hex lattice source_id edges ≡ ok statuses
      → Gates statuses (AllInSync edges)
  unfolding fresh_edges has_drift
  fresh_edges-Gates source_id [] statuses e = (λ _ x m. absurd (Memᴰ.not-nil m), λ _. ground arith)
  fresh_edges-Gates source_id (edge ∷ edges) statuses e =
      let (first, e1, more) = >>=-eq-ok (fresh_status sha256_hex lattice source_id edge) _ e in
      let (rest, e2, whole) = >>=-eq-ok (fresh_edges sha256_hex lattice source_id edges) _ more in
      let (sound, complete) = fresh_edges-Gates source_id edges rest e2 in
      let whole' : first ∷ rest ≡ statuses = cc (whole) in
      subst (λ r. Gates r (AllInSync (edge ∷ edges))) whole'
        (
          λ quiet x m. elim (Memᴰ.cases_cons m) [
            | inl here ↦
                subst IsInSync (sym here)
                  (fresh_status_sound source_id edge first e1 (ground arith))
            | inr later ↦ sound (ground arith) x later
          ],
          λ all. ground (
            arith,
            fresh_status_complete source_id edge first e1 (all edge (Memᴰ.head refl)),
            complete (λ x m. all x (Memᴰ.tail m)),
          ),
        )

  has_drift-append :
      (xs ys : List EdgeStatus) → has_drift (xs ++ ys) ≡ (has_drift xs || has_drift ys)
  unfolding has_drift
  has_drift-append [] ys = refl
  has_drift-append (x ∷ xs) ys = ground (arith, has_drift-append xs ys)

  abbrev NodesInSync : List Text → Type 0
  NodesInSync ids =
      (id : Text) (node : Node) (e : Edge)
      → Memᴰ id ids
      → get lattice.nodes_by_id id ≡ some node
      → Memᴰ e node.derives_from
      → IsInSync e

  fresh_nodes-Gates :
      (ids : List Text) (statuses : List EdgeStatus)
      → fresh_nodes sha256_hex lattice ids ≡ ok statuses
      → Gates statuses (NodesInSync ids)
  unfolding fresh_nodes
  fresh_nodes-Gates [] statuses e =
      (λ _ id node x m. absurd (Memᴰ.not-nil m), λ _. unfold has_drift in ground arith)
  fresh_nodes-Gates (id ∷ ids) statuses e =
      let (node, found, e') = >>=-eq-ok (or_raise key_error (get lattice.nodes_by_id id)) _ e in
      let (here, e1, more) = >>=-eq-ok (fresh_edges sha256_hex lattice id node.derives_from) _ e' in
      let (rest, e2, whole) = >>=-eq-ok (fresh_nodes sha256_hex lattice ids) _ more in
      let (sound, complete) = fresh_nodes-Gates ids rest e2 in
      let (sound1, complete1) = fresh_edges-Gates id node.derives_from here e1 in
      let whole' : here ++ rest ≡ statuses = cc (whole) in
      let at_id : get lattice.nodes_by_id id ≡ some node =
        or_raise_ok key_error (get lattice.nodes_by_id id) node found in
      subst (λ r. Gates r (NodesInSync (id ∷ ids))) whole'
        (
          λ quiet j n x m at' k. elim (Memᴰ.cases_cons m) [
            | inl same ↦ sound1 (ground (arith, has_drift-append here rest)) x (
                let same_node : n ≡ node = cc (same, at', at_id) in
                subst (λ (y : Node). Memᴰ x y.derives_from) same_node k)
            | inr later ↦ sound (ground (arith, has_drift-append here rest)) j n x later at' k
          ],
          λ all. ground (
            arith,
            has_drift-append here rest,
            complete1 (λ x m. all id node x (Memᴰ.head refl) at_id m),
            complete (λ j n x m at' k. all j n x (Memᴰ.tail m) at' k),
          ),
        )
    where
      or_raise_ok :
          {A : Type 0} (x : Error) (o : Option A) (a : A) → or_raise x o ≡ ok a → o ≡ some a
      or_raise_ok x none a h = cc
      or_raise_ok x (some b) a h = cc

  -- Where check_lattice returns, has_drift is false exactly when every edge of every node resolves to
  -- an unambiguous target whose current hash is the one that the edge has locked.
  pub has_drift_exact :
      (statuses : List EdgeStatus)
      → check_lattice sha256_hex lattice ≡ ok statuses
      → (has_drift statuses ≡ false) ↔ (
          (id : Text) (node : Node) (e : Edge)
          → get lattice.nodes_by_id id ≡ some node
          → Memᴰ e node.derives_from
          → IsInSync e)
  unfolding fresh_check
  has_drift_exact statuses e =
      let (sound, complete) =
        fresh_nodes-Gates (sorted (keys lattice.nodes_by_id)) statuses
          (sym (check_lattice-eq-fresh_check sha256_hex lattice) ∙ e) in
      (
        λ quiet id node x found m.
            sound quiet id node x
              ((sorted-mem id _).1
                ((has_iff lattice.nodes_by_id id).0 (unfold has in ground arith)))
              found m,
        λ all. complete (λ id node x _ found m. all id node x found m),
      )
