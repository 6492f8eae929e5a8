-- ===== src/Loader/Nodes.antt =====
-- The edges and the nodes of a built lattice come from its documents.
use doc_lattice.Prelude.{
  ◌≡◌, ◌⊎◌, inl, inr, refl, sym, ap, subst, true, Option, some, List, [], ◌∷◌, Memᴰ, arith, ==_iff,
  nat_eq, list_eq, option_eq,
}
use mathlib.Core.List.Memᴰ
use doc_lattice.Text.{Text}
use doc_lattice.Dict.{Dict, values, get, has}
use doc_lattice.Dict.Laws.{has-put, mem-put}
use doc_lattice.Model.{
  TargetId, target_eq, parse_ref, RawEdge, resolve, Location, DocumentOrigin, ParsedDoc, Node, Edge,
}
use doc_lattice.Result.{ok, or_raise, >>=-eq-ok}
use doc_lattice.Errors.{Outcome, key_error}
use doc_lattice.Loader.{Registry, dedupe_edges, resolve_edges, node_of, build_nodes}

-- Every edge of the dictionary is a declared entry, resolved, under its target.
abbrev pub Resolved : Dict TargetId Location → List RawEdge → TargetId → Edge → Type 0
Resolved index raws t e =
    (raw : RawEdge) × Memᴰ raw raws × (t ≡ parse_ref raw.ref) × (e ≡ resolve raw.ref raw.seen index)

pub dedupe_edges-Resolved :
    (index : Dict TargetId Location) (all raws : List RawEdge) (d : Dict TargetId Edge)
    (warned : List TargetId)
    → ((raw : RawEdge) → Memᴰ raw raws → Memᴰ raw all)
    → ((t : TargetId) (e : Edge) → Memᴰ (t, e) d → Resolved index all t e)
    → (t : TargetId) (e : Edge) → Memᴰ (t, e) (dedupe_edges index raws d warned).0
    → Resolved index all t e
unfolding dedupe_edges
dedupe_edges-Resolved index all [] d warned sub h = h
dedupe_edges-Resolved index all (raw ∷ raws) d warned sub h =
    dedupe_edges-Resolved index all raws _ _ (λ r m. sub r (Memᴰ.tail m))
      λ t e m. elim (mem-put d (parse_ref raw.ref) t (resolve raw.ref raw.seen index) e m) [
        | inl (same, made) ↦ (raw, sub raw (Memᴰ.head refl), same, made)
        | inr old ↦ h t e old
      ]

pub mem-values {ℓ κ} :
    {K : Type ℓ} {V : Type κ} (d : Dict K V) (v : V) → Memᴰ v (values d) → (k : K) × Memᴰ (k, v) d
unfolding values
mem-values [] v m = absurd (Memᴰ.not-nil m)
mem-values ((k, w) ∷ d) v m = elim (Memᴰ.cases_cons m) [
  | inl e ↦ (k, Memᴰ.head (ap (λ x. (k, x)) e))
  | inr r ↦ let (j, n) = mem-values d v r in (j, Memᴰ.tail n)
]

-- An edge of a document is one of its entries, resolved against the index.
pub resolve_edges-mem :
    (doc : ParsedDoc) (index : Dict TargetId Location) (e : Edge)
    → Memᴰ e (resolve_edges doc index)
    → (raw : RawEdge) × Memᴰ raw doc.meta.derives_from × (e ≡ resolve raw.ref raw.seen index)
unfolding resolve_edges
resolve_edges-mem doc index e m =
    let (t, n) = mem-values _ e m in
    let (raw, listed, _, made) =
      dedupe_edges-Resolved index doc.meta.derives_from doc.meta.derives_from [] [] (λ _ k. k)
        (λ t' e' k. absurd (Memᴰ.not-nil k)) t e n in
    (raw, listed, made)

-- A resolved edge has its target in the index, and the target is what the ref spells.
pub resolve-target :
    (ref : Text) (seen : Option Text) (index : Dict TargetId Location) (t : TargetId)
    → (resolve ref seen index).target_id ≡ some t
    → (t ≡ parse_ref ref) × (has index t ≡ true)
unfolding resolve
resolve-target ref seen index t h = ground arith

-- Every node that the second loop builds stands for one of the documents.
abbrev pub Stands : Registry → List ParsedDoc → Text → Node → Type 0
Stands r docs id node =
    (doc : ParsedDoc) × Memᴰ doc docs
    × (id ≡ doc.meta.id)
    × (origin : DocumentOrigin) × (node ≡ node_of doc (resolve_edges doc r.index) (some origin))

module _ (r : Registry) (all : List ParsedDoc) where
  pub build_nodes-Stands :
      (docs : List ParsedDoc) (nodes : Dict Text Node) (dependents : Dict TargetId (List Text))
      (built : Dict Text Node × Dict TargetId (List Text))
      → ((doc : ParsedDoc) → Memᴰ doc docs → Memᴰ doc all)
      → ((id : Text) (node : Node) → Memᴰ (id, node) nodes → Stands r all id node)
      → build_nodes r docs nodes dependents ≡ ok built
      → (id : Text) (node : Node) → Memᴰ (id, node) built.0
      → Stands r all id node
  unfolding build_nodes
  build_nodes-Stands [] nodes dependents built sub h e = λ id node m. h id node (
      subst (λ (b : Dict Text Node × Dict TargetId (List Text)). Memᴰ (id, node) b.0)
        (ok_inj built (nodes, dependents) (sym e)) m)
    where
      ok_inj :
          (a b : Dict Text Node × Dict TargetId (List Text))
          → ◌≡◌ {A = Outcome (Dict Text Node × Dict TargetId (List Text))} (ok a) (ok b)
          → a ≡ b
      ok_inj a b k = cc
  build_nodes-Stands (doc ∷ docs) nodes dependents built sub h e =
      let (origin, found, rest) = >>=-eq-ok (or_raise key_error (get r.origins doc.meta.id)) _ e in
      build_nodes-Stands docs _ _ built (λ d m. sub d (Memᴰ.tail m))
        (λ id node m.
          elim (mem-put nodes doc.meta.id id (node_of doc (resolve_edges doc r.index) (some origin))
            node m) [
              | inl (same, made) ↦ (doc, sub doc (Memᴰ.head refl), same, origin, made)
              | inr old ↦ h id node old
            ])
        rest

  -- The document's id is a key of the nodes at the end.
  pub build_nodes-has :
      (docs : List ParsedDoc) (nodes : Dict Text Node) (dependents : Dict TargetId (List Text))
      (built : Dict Text Node × Dict TargetId (List Text)) (id : Text)
      → build_nodes r docs nodes dependents ≡ ok built
      → (has nodes id ≡ true) ⊎ ((doc : ParsedDoc) × Memᴰ doc docs × (doc.meta.id ≡ id))
      → has built.0 id ≡ true
  unfolding build_nodes
  build_nodes-has [] nodes dependents built id e (inl h) = cc
  build_nodes-has [] nodes dependents built id e (inr (doc, m, s)) = absurd (Memᴰ.not-nil m)
  build_nodes-has (doc ∷ docs) nodes dependents built id e h =
      let (origin, found, rest) = >>=-eq-ok (or_raise key_error (get r.origins doc.meta.id)) _ e in
      let node = node_of doc (resolve_edges doc r.index) (some origin) in
      build_nodes-has docs _ _ built id rest (elim h [
        | inl old ↦ inl (ground (arith, has-put nodes doc.meta.id id node))
        | inr (d, m, s) ↦ elim (Memᴰ.cases_cons m) [
          | inl same ↦ inl (
              ground (
                arith,
                has-put nodes doc.meta.id id node,
                ==_iff doc.meta.id id,
                ap (λ (x : ParsedDoc). x.meta.id) same,
              ))
          | inr later ↦ inr (d, later, s)
        ]
      ])
