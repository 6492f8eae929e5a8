-- ===== src/Loader/Build.antt =====
-- When build_lattice succeeds, and what its lattice holds then.
use doc_lattice.Prelude.{
  ◌≡◌, ◌↔◌, ◌⊎◌, inl, inr, refl, sym, ap, ◌∙◌, subst, Bool, true, false, ◌||◌, some, List, [], ◌∷◌,
  ◌++◌, Memᴰ, Memᴰ-append, arith, ==_refl, nat_eq, list_eq, option_eq, contains_iff,
}
use mathlib.Core.List.Memᴰ
use mathlib.Core.List.{append_assoc, append-nil}
use doc_lattice.Text.{Text}
use doc_lattice.Dict.{Dict, keys, has, put}
use doc_lattice.Dict.Laws.{has-put, has-get, mem-keys}
use doc_lattice.Dict.Keys.{AllDistinct, keys-append}
use doc_lattice.Model.{
  TargetId, target_eq, LocationKind, Location, SectionRecord, FileSections, ParsedDoc, Node,
  Lattice,
}
use doc_lattice.Result.{ok, err}
use doc_lattice.Errors.{Outcome}
use doc_lattice.Loader.{
  Registry, empty, register_docs, resolve_edges, add_dependents, node_of, build_nodes, assemble,
  build_lattice,
}
use doc_lattice.Loader.Registration.{
  Entries, section_entries, doc_entries, docs_entries, Holds, Refused, Grown, register_doc-attempt,
}

IsSection : Location → Type 0
IsSection loc = loc.kind ≡ LocationKind.section

module _ (path file_id : Text) where
  pub section_entries-mem :
      (xs : List SectionRecord) (t : TargetId) (loc : Location)
      → Memᴰ (t, loc) (section_entries path file_id xs)
      → (loc.path ≡ path) × (t.file_id ≡ file_id) × (loc.kind ≡ LocationKind.section)
  unfolding section_entries
  section_entries-mem [] t loc m = absurd (Memᴰ.not-nil m)
  section_entries-mem (x ∷ xs) t loc m = elim (Memᴰ.cases_cons m) [
    | inl e ↦ (
      ap (λ (p : TargetId × Location). p.1.path) e,
      ap (λ (p : TargetId × Location). p.0.file_id) e,
      ap (λ (p : TargetId × Location). p.1.kind) e,
    )
    | inr r ↦ section_entries-mem xs t loc r
  ]

module _ (derive : Text → FileSections) where
  -- What registering the documents one after the other adds to a registry.
  record GrownAll (docs : List ParsedDoc) (entries : Entries) (r r' : Registry) : Type 0 where
    holds : Holds (entries ++ docs_entries derive docs) r'
    traced :
        (t : TargetId) (loc : Location)
        → Memᴰ (t, loc) (docs_entries derive docs)
        → IsSection loc
        → has r'.ancestors t ≡ true
    kept : (t : TargetId) → has r.ancestors t ≡ true → has r'.ancestors t ≡ true
    origins : (doc : ParsedDoc) → Memᴰ doc docs → has r'.origins doc.meta.id ≡ true
    origins_kept : (id : Text) → has r.origins id ≡ true → has r'.origins id ≡ true

  doc_traced :
      (doc : ParsedDoc) (entries : Entries) (r r' : Registry) (t : TargetId) (loc : Location)
      → Grown derive doc entries r r'
      → Memᴰ (t, loc) (doc_entries derive doc)
      → IsSection loc
      → has r'.ancestors t ≡ true
  unfolding doc_entries IsSection
  doc_traced doc entries r r' t loc g m kind = elim (Memᴰ.cases_cons m) [
    | inl e ↦ cc (ap (λ (p : TargetId × Location). p.1.kind) e)
    | inr n ↦ ground (arith, g.traced t, (contains_iff _ t).1 (mem-keys _ t loc n))
  ]

  register_docs-attempt :
      (docs : List ParsedDoc) (entries : Entries) (r : Registry)
      → Holds entries r
      → ((r' : Registry) × (register_docs derive docs r ≡ ok r') × GrownAll docs entries r r')
        ⊎ ((¬ AllDistinct (keys (entries ++ docs_entries derive docs)))
            × Refused {A = Outcome Registry} err (register_docs derive docs r))
  unfolding register_docs docs_entries
  register_docs-attempt [] entries r h = inl (
    r,
    refl,
    record {
      holds = rw append-nil h;
      traced = λ t loc m k. absurd (Memᴰ.not-nil m);
      kept = λ t k. k;
      origins = λ doc m. absurd (Memᴰ.not-nil m);
      origins_kept = λ id k. k;
    },
  )
  register_docs-attempt (doc ∷ docs) entries r h =
      elim (register_doc-attempt derive doc entries r h) [
        | inr (dup, (t, first, again, e)) ↦ inr (
          λ d. dup (
              distinct_left (keys (entries ++ doc_entries derive doc)) _
                (rw (append_assoc_r entries doc docs, keys-append) at d)),
          (t, first, again, rw e),
        )
        | inl (r1, e1, g) ↦
            elim (register_docs-attempt docs (entries ++ doc_entries derive doc) r1 g.holds) [
              | inr (dup, (t, first, again, e)) ↦
                  inr (rw append_assoc at dup, (t, first, again, rw (e1, e)))
              | inl (r2, e2, a) ↦ inl (
                r2,
                rw (e1, e2),
                record {
                  holds = rw append_assoc at a.holds;
                  traced = λ t loc m k.
                      elim ((Memᴰ-append (t, loc) (doc_entries derive doc) _).0 m) [
                        | inl now ↦ a.kept t (doc_traced doc entries r r1 t loc g now k)
                        | inr later ↦ a.traced t loc later k
                      ];
                  kept = λ t k. a.kept t (ground (arith, g.traced t));
                  origins = λ d m. elim (Memᴰ.cases_cons m) [
                    | inl e ↦ a.origins_kept d.meta.id (
                        rw (
                          e,
                          g.origins,
                          has-put r.origins doc.meta.id doc.meta.id,
                          ==_refl doc.meta.id,
                        ))
                    | inr n ↦ a.origins d n
                  ];
                  origins_kept = λ id k.
                      a.origins_kept id
                        (rw (g.origins, has-put r.origins doc.meta.id id, k) (or_true _));
                },
              )
            ]
      ]
    where
      distinct_left : (xs ys : List TargetId) → AllDistinct (xs ++ ys) → AllDistinct xs
      distinct_left [] ys d = tt
      distinct_left (x ∷ xs) ys d = (λ m. d.0 (Memᴰ.append_left ys m), distinct_left xs ys d.1)

      append_assoc_r :
          (es : Entries) (d : ParsedDoc) (ds : List ParsedDoc)
          → es ++ (doc_entries derive d ++ docs_entries derive ds)
            ≡ (es ++ doc_entries derive d) ++ docs_entries derive ds
      append_assoc_r es d ds = sym (append_assoc es _ _)

      or_true : (b : Bool) → (b || true) ≡ true
      or_true true = refl
      or_true false = refl

-- The second loop raises nothing once every document has its origin.
build_nodes-total :
    (r : Registry) (docs : List ParsedDoc) (nodes : Dict Text Node)
    (dependents : Dict TargetId (List Text))
    → ((doc : ParsedDoc) → Memᴰ doc docs → has r.origins doc.meta.id ≡ true)
    → (built : Dict Text Node × Dict TargetId (List Text)) × (build_nodes r docs nodes dependents
        ≡ ok built)
unfolding build_nodes
build_nodes-total r [] nodes dependents h = ((nodes, dependents), refl)
build_nodes-total r (doc ∷ docs) nodes dependents h =
    let (origin, found) = has-get r.origins doc.meta.id (h doc (Memᴰ.head refl)) in
    let (built, e) =
      build_nodes-total r docs
        (put nodes doc.meta.id (node_of doc (resolve_edges doc r.index) (some origin)))
        (add_dependents doc.meta.id (resolve_edges doc r.index) dependents)
        (λ d m. h d (Memᴰ.tail m)) in
    (built, rw found e)

-- The ids that the documents declare: each file id, then its section ids, in document order.
unfoldable pub declared_ids : (Text → FileSections) → List ParsedDoc → List TargetId
declared_ids derive docs = keys (docs_entries derive docs)

-- The parts of a successful build.
pub record Built (derive : Text → FileSections) (docs : List ParsedDoc) (lattice : Lattice)
    : Type 0 where
  pub registry : Registry
  pub nodes : Dict Text Node
  pub dependents : Dict TargetId (List Text)
  pub made : build_nodes registry docs [] [] ≡ ok (nodes, dependents)
  pub whole : lattice ≡ assemble registry nodes dependents
  pub index : registry.index ≡ docs_entries derive docs
  pub distinct : AllDistinct (keys (docs_entries derive docs))
  pub traced :
      (t : TargetId) (loc : Location)
      → Memᴰ (t, loc) (docs_entries derive docs)
      → loc.kind ≡ LocationKind.section
      → has registry.ancestors t ≡ true

module _ (derive : Text → FileSections) (docs : List ParsedDoc) where
  Holds-empty : Holds [] empty
  unfolding keys
  Holds-empty = record { index = refl; sites = refl; distinct = tt }

  build_lattice-attempt :
      ((lattice : Lattice) × (build_lattice derive docs ≡ ok lattice) × Built derive docs lattice)
      ⊎ ((¬ AllDistinct (keys (docs_entries derive docs)))
          × Refused {A = Outcome Lattice} err (build_lattice derive docs))
  unfolding build_lattice IsSection
  build_lattice-attempt = elim (register_docs-attempt derive docs [] empty Holds-empty) [
    | inr (dup, (t, first, again, e)) ↦ inr (dup, (t, first, again, rw e))
    | inl (r, e, g) ↦
        let (built, made) = build_nodes-total r docs [] [] g.origins in
        inl (
          assemble r built.0 built.1,
          rw (e, made),
          record {
            registry = r;
            nodes = built.0;
            dependents = built.1;
            made = made;
            whole = refl;
            index = g.holds.index;
            distinct = g.holds.distinct;
            traced = g.traced;
          },
        )
  ]

  -- build_lattice returns a lattice exactly when no declared id is declared twice.
  pub build_lattice_succeeds :
      ((lattice : Lattice) × (build_lattice derive docs ≡ ok lattice))
      ↔ AllDistinct (declared_ids derive docs)
  unfolding declared_ids
  build_lattice_succeeds = (
    λ (lattice, e). elim build_lattice-attempt [
      | inl (l, e', b) ↦ b.distinct
      | inr (dup, (t, first, again, e')) ↦ cc
    ],
    λ d. elim build_lattice-attempt [
      | inl (l, e', b) ↦ (l, e')
      | inr (dup, refused) ↦ absurd (dup d)
    ],
  )

  -- When an id is declared twice, build_lattice raises DuplicateIdError, and no other error.
  pub build_lattice_refuses :
      (¬ AllDistinct (declared_ids derive docs))
      → Refused {A = Outcome Lattice} err (build_lattice derive docs)
  unfolding declared_ids
  build_lattice_refuses dup = elim build_lattice-attempt [
    | inl (l, e', b) ↦ absurd (dup b.distinct)
    | inr (_, refused) ↦ refused
  ]

  pub build_lattice-Built :
      (lattice : Lattice) → build_lattice derive docs ≡ ok lattice → Built derive docs lattice
  build_lattice-Built lattice e = elim build_lattice-attempt [
    | inl (l, e', b) ↦ subst (Built derive docs) (ok_inj l lattice (sym e' ∙ e)) b
    | inr (dup, (t, first, again, e')) ↦ cc
  ]
    where
      ok_inj : (a b : Lattice) → ◌≡◌ {A = Outcome Lattice} (ok a) (ok b) → a ≡ b
      ok_inj a b h = cc
