-- ===== src/Loader/Coherence.antt =====
-- The maps of a built lattice, which check, lint and impact look into (build_lattice).
use doc_lattice.Prelude.{
  ◌≡◌, ◌↔◌, inl, inr, refl, sym, ap, ◌∙◌, subst, true, some, List, [], Memᴰ, nat_eq, list_eq,
  option_eq,
}
use mathlib.Core.List.Memᴰ
use doc_lattice.Text.{Text}
use doc_lattice.Dict.{keys, get, has, get_or}
use doc_lattice.Dict.Laws.{has_iff, has-get, get-mem, mem-keys}
use doc_lattice.Dict.Keys.{mem-get, AllDistinct}
use doc_lattice.Model.{
  TargetId, target_eq, parse_ref, resolve, LocationKind, Location, FileSections, ParsedDoc, Node,
  Edge, Lattice,
}
use doc_lattice.Result.{ok}
use doc_lattice.Loader.{resolve_edges, group_sections, build_lattice, index_paths, assemble}
use doc_lattice.Loader.Registration.{Entries, docs_entries}
use doc_lattice.Loader.Documents.{docs_entries-mem, same_doc}
use doc_lattice.Loader.Build.{Built, build_lattice-Built}
use doc_lattice.Loader.Nodes.{
  resolve_edges-mem, resolve-target, Stands, build_nodes-Stands, build_nodes-has,
}
use doc_lattice.Loader.Paths.{
  index_paths-has, index_paths-mem, anchor_sets-has, anchor_sets-get, group_sections-mem,
}
use doc_lattice.Loader.Dependents.{sources_of, build_nodes-dependents, build_nodes-into}

pub record IsCoherent (lattice : Lattice) : Type 0 where
  -- the path of every indexed id belongs to a node
  pub owned :
      (t : TargetId) (loc : Location)
      → get lattice.index t ≡ some loc
      → (id : Text) × (node : Node) × (get lattice.file_id_by_path loc.path ≡ some id)
        × (get lattice.nodes_by_id id ≡ some node)
  -- and has its set of anchors
  pub located :
      (t : TargetId) (loc : Location)
      → get lattice.index t ≡ some loc
      → has lattice.anchors_by_path loc.path ≡ true
  pub anchored :
      (id : Text) (node : Node)
      → get lattice.nodes_by_id id ≡ some node
      → has lattice.anchors_by_path node.path ≡ true
  -- every section has its ancestors
  pub traced :
      (t : TargetId) (loc : Location)
      → get lattice.index t ≡ some loc
      → loc.kind ≡ LocationKind.section
      → has lattice.ancestors t ≡ true
  -- a node is stored under its own id
  pub named : (id : Text) (node : Node) → get lattice.nodes_by_id id ≡ some node → node.id ≡ id
  -- an edge with a target has it in the index, and it is what the ref spells
  pub edges :
      (id : Text) (node : Node) (e : Edge) (t : TargetId)
      → get lattice.nodes_by_id id ≡ some node
      → Memᴰ e node.derives_from
      → e.target_id ≡ some t
      → (t ≡ parse_ref e.target_ref) × (has lattice.index t ≡ true)
  -- the node that a path leads to stands at that path
  pub placed :
      (p id : Text) (node : Node)
      → get lattice.file_id_by_path p ≡ some id
      → get lattice.nodes_by_id id ≡ some node
      → node.path ≡ p
  -- the anchors of a path are the sections of the index at that path
  pub sections :
      (p : Text) (ids : List TargetId)
      → get lattice.anchors_by_path p ≡ some ids
      → (t : TargetId)
      → Memᴰ t ids ↔ (
          (loc : Location) × (get lattice.index t ≡ some loc)
          × (loc.kind ≡ LocationKind.section)
          × (loc.path ≡ p))
  -- the dependents of a target are the nodes that have an edge to it
  pub sources :
      (t : TargetId) (s : Text)
      → Memᴰ s (sources_of lattice.dependents t) ↔ (
          (node : Node) × (e : Edge) × (get lattice.nodes_by_id s ≡ some node)
          × Memᴰ e node.derives_from
          × (e.target_id ≡ some t))
  -- a recorded dependent is a node
  pub dependents :
      (t : TargetId) (s : Text)
      → Memᴰ s (sources_of lattice.dependents t)
      → has lattice.nodes_by_id s ≡ true

module _ (derive : Text → FileSections) where
  module _ (docs : List ParsedDoc) (lattice : Lattice) (b : Built derive docs lattice) where
    abbrev assembled : Lattice
    assembled = assemble b.registry b.nodes b.dependents

    Built-Stands :
        (id : Text) (node : Node) → get b.nodes id ≡ some node → Stands b.registry docs id node
    Built-Stands id node e =
        build_nodes-Stands b.registry docs docs [] [] (b.nodes, b.dependents) (λ _ m. m)
          (λ i n m. absurd (Memᴰ.not-nil m)) b.made id node (get-mem b.nodes id node e)

    Built-listed :
        (id : Text) (node : Node) → Memᴰ (id, node) b.nodes → Stands b.registry docs id node
    Built-listed id node m =
        build_nodes-Stands b.registry docs docs [] [] (b.nodes, b.dependents) (λ _ k. k)
          (λ i n k. absurd (Memᴰ.not-nil k)) b.made id node m

    index_get :
        (t : TargetId) (loc : Location)
        → Memᴰ (t, loc) b.registry.index
        → get b.registry.index t ≡ some loc
    index_get t loc m =
        mem-get b.registry.index t loc
          (subst (λ (d : Entries). AllDistinct (keys d)) (sym b.index) b.distinct) m

    no_group : (p : Text) (t : TargetId) → ¬ Memᴰ t (get_or [] p [])
    unfolding get
    no_group p t m = Memᴰ.not-nil m

    Built-entry :
        (t : TargetId) (loc : Location)
        → get b.registry.index t ≡ some loc
        → Memᴰ (t, loc) (docs_entries derive docs)
    Built-entry t loc e =
        subst (λ (d : Entries). Memᴰ (t, loc) d) b.index (get-mem b.registry.index t loc e)

    nothing : (t : TargetId) (s : Text) → ¬ Memᴰ s (sources_of [] t)
    unfolding get
    nothing t s m = Memᴰ.not-nil m

    Built-Coherent : IsCoherent assembled
    unfolding assemble
    Built-Coherent = record {
      owned = λ t loc e.
          let (doc, m, path, _) = docs_entries-mem derive docs t loc (Built-entry t loc e) in
          let (id, found) =
            has-get (index_paths b.nodes []) loc.path (path_has loc.path doc m path) in
          let (node, k, at') = index_node loc.path id found in
          let (held, at_id) =
            has-get b.nodes id ((has_iff b.nodes id).1 (mem-keys b.nodes id node k)) in
          (id, held, found, at_id);
      located = λ t loc e.
          let (doc, m, path, _) = docs_entries-mem derive docs t loc (Built-entry t loc e) in
          anchor_sets-has _ (index_paths b.nodes []) loc.path ∙ path_has loc.path doc m path;
      anchored = λ id node e.
          anchor_sets-has _ (index_paths b.nodes []) node.path
          ∙ index_paths-has b.nodes [] node.path (inr (id, node, get-mem b.nodes id node e, refl));
      traced = λ t loc e k. b.traced t loc (Built-entry t loc e) k;
      named = λ id node e.
          let (doc, m, same, origin, made) = Built-Stands id node e in
          ap (λ (n : Node). n.id) made ∙ sym same;
      edges = λ id node e t found m at'.
          let (doc, _, same, origin, made) = Built-Stands id node found in
          let (raw, _, resolved) =
            resolve_edges-mem doc b.registry.index e
              (subst (λ (n : Node). Memᴰ e n.derives_from) made m) in
          let (spelled, held) =
            resolve-target raw.ref raw.seen b.registry.index t
              (ap (λ (x : Edge). x.target_id) (sym resolved) ∙ at') in
          (
            spelled
                ∙ ap parse_ref (unfold resolve in ap (λ (x : Edge). x.target_ref) (sym resolved)),
            held,
          );
      placed = λ p id node found at_id.
          let (other, k, path) = index_node p id found in
          let (doc, m, same, origin, made) = Built-Stands id node at_id in
          let (doc', m', same', origin', made') = Built-listed id other k in
          ap (λ (n : Node). n.path) made
          ∙ ap (λ (x : ParsedDoc). x.path)
              (same_doc derive docs doc doc' b.distinct m m' (sym same ∙ same'))
          ∙ sym (ap (λ (n : Node). n.path) made')
          ∙ path;
      sections = λ p ids found t.
          let exact =
            anchor_sets-get (group_sections b.registry.index []) (index_paths b.nodes []) p ids
              found in
          let (out, into) = group_sections-mem b.registry.index [] p t in
          (
            λ m. elim (out (subst (λ x. Memᴰ t x) exact m)) [
              | inl (loc, k, kind, path) ↦ (loc, index_get t loc k, kind, path)
              | inr old ↦ absurd (no_group p t old)
            ],
            λ (loc, at_t, kind, path).
                subst (λ x. Memᴰ t x) (sym exact)
                  (into (inl (loc, get-mem b.registry.index t loc at_t, kind, path))),
          );
      sources = λ t s. (
        λ m.
            elim (build_nodes-dependents b.registry docs [] [] (b.nodes, b.dependents) b.made t s
              m) [
                | inr old ↦ absurd (nothing t s old)
                | inl (doc, k, same, (e, listed, at')) ↦
                    let (node, found) = has-get b.nodes s (
                      build_nodes-has b.registry docs docs [] [] (b.nodes, b.dependents) s b.made
                        (inr (doc, k, same))) in
                    let (other, m', same', origin, made) = Built-Stands s node found in
                    let one = same_doc derive docs doc other b.distinct k m' (same ∙ same') in
                    (
                      node,
                      e,
                      found,
                      subst (λ (n : Node). Memᴰ e n.derives_from) (sym made)
                          (subst (λ x. Memᴰ e (resolve_edges x b.registry.index)) one listed),
                      at',
                    )
              ],
        λ (node, e, found, listed, at').
            let (doc, m, same, origin, made) = Built-Stands s node found in
            build_nodes-into b.registry docs [] [] (b.nodes, b.dependents) b.made t s
              (inl (
                doc,
                m,
                sym same,
                (e, subst (λ (n : Node). Memᴰ e n.derives_from) made listed, at'),
              )),
      );
      dependents = λ t s m.
          elim (build_nodes-dependents b.registry docs [] [] (b.nodes, b.dependents) b.made t s m) [
            | inl (doc, k, same, edge) ↦
                build_nodes-has b.registry docs docs [] [] (b.nodes, b.dependents) s b.made
                  (inr (doc, k, same))
            | inr old ↦ absurd (nothing t s old)
          ];
    }
      where
        index_node :
            (p id : Text)
            → get (index_paths b.nodes []) p ≡ some id
            → (node : Node) × Memᴰ (id, node) b.nodes × (node.path ≡ p)
        index_node p id e =
            elim (index_paths-mem b.nodes [] p id (get-mem (index_paths b.nodes []) p id e)) [
              | inl none' ↦ absurd (Memᴰ.not-nil none')
              | inr found ↦ found
            ]

        path_has :
            (p : Text) (doc : ParsedDoc)
            → Memᴰ doc docs
            → p ≡ doc.path
            → has (index_paths b.nodes []) p ≡ true
        path_has p doc m e =
            let (node, found) = has-get b.nodes doc.meta.id (
              build_nodes-has b.registry docs docs [] [] (b.nodes, b.dependents) doc.meta.id b.made
                (inr (doc, m, refl))) in
            let (other, k, same, origin, made) = Built-Stands doc.meta.id node found in
            index_paths-has b.nodes [] p (
              inr (
                doc.meta.id,
                node,
                get-mem b.nodes doc.meta.id node found,
                ap (λ (n : Node). n.path) made
                    ∙ ap (λ (x : ParsedDoc). x.path)
                        (sym (same_doc derive docs doc other b.distinct m k same))
                    ∙ sym e,
              ))

-- In a lattice that build_lattice returns, the path of every indexed id leads to a node that stands there, a node is
-- stored under its own id, an edge with a target has it in the index and spells it, the anchors of a path are exactly
-- the sections of the index at that path, the dependents of a target are exactly the nodes that have an edge to it, and
-- every section of the index has an entry among the ancestors.
pub build_lattice-IsCoherent :
    (derive : Text → FileSections) (docs : List ParsedDoc) (lattice : Lattice)
    → build_lattice derive docs ≡ ok lattice
    → IsCoherent lattice
build_lattice-IsCoherent derive docs lattice e =
    let b = build_lattice-Built derive docs lattice e in
    subst IsCoherent (sym b.whole) (Built-Coherent derive docs lattice b)
