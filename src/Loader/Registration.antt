-- ===== src/Loader/Registration.antt =====
-- The first loop of build_lattice: what it registers, and when it refuses.
use doc_lattice.Prelude.{
  ℕ, ◌≡◌, ◌⊎◌, inl, inr, refl, sym, ap, ◌∙◌, subst, true, false, ◌||◌, List, [], ◌∷◌, ◌++◌, Memᴰ,
  All, All-append, arith, Bool-cases, ==_refl, nat_eq, list_eq, option_eq, contains,
}
use mathlib.Core.List.Memᴰ
use mathlib.Core.Path.{ap₂}
use mathlib.Core.List.{append_assoc, append-nil}
use doc_lattice.Text.{Text}
use doc_lattice.Dict.{Dict, keys, has, put}
use doc_lattice.Dict.Laws.{has-put, has_iff, has-get}
use doc_lattice.Dict.Keys.{AllDistinct, AllDistinct-snoc, keys-append, put_new}
use doc_lattice.Model.{
  TargetId, target_eq, file_target, LocationKind, Location, SectionRecord, FileSections,
  DocumentOrigin, ParsedDoc,
}
use doc_lattice.Result.{ok, err}
use doc_lattice.Errors.{Site, file_site, anchor_site, Error, Outcome, duplicate_id}
use doc_lattice.Loader.{
  Registry, register, Sectioned, section_target, note_section, register_section, register_sections,
  record_ancestors, pop_below, stack_ids, origin_of, sections_of, register_doc,
}

abbrev pub Entries : Type 0
Entries = Dict TargetId Location

-- The index entries of one document, in the order of its headings.
unfoldable pub section_entries : Text → Text → List SectionRecord → Entries
section_entries path file_id [] = []
section_entries path file_id (s ∷ rest) =
    (
      section_target file_id s,
      record { path = path; kind = LocationKind.section; span = (s.start, s.stop) },
    )
    ∷ section_entries path file_id rest

module _ (derive_file_sections : Text → FileSections) where
  unfoldable pub doc_entries : ParsedDoc → Entries
  doc_entries doc =
      (
        file_target doc.meta.id,
        record {
          path = doc.path;
          kind = LocationKind.file;
          span = (1, (sections_of derive_file_sections doc).total_lines);
        },
      )
      ∷ section_entries doc.path doc.meta.id (sections_of derive_file_sections doc).sections

  unfoldable pub docs_entries : List ParsedDoc → Entries
  docs_entries [] = []
  docs_entries (doc ∷ docs) = doc_entries doc ++ docs_entries docs

-- `index` holds `entries`, and `sources` names a site for each.
pub record Holds (entries : Entries) (r : Registry) : Type 0 where
  pub index : r.index ≡ entries
  pub sites : keys r.sources ≡ keys entries
  pub distinct : AllDistinct (keys entries)

-- A refusal names an id twice registered.
abbrev pub Refused {ℓ} : {A : Type ℓ} → (Error → A) → A → Type ℓ
Refused raise outcome =
    (t : TargetId) × (first : Site) × (again : Site) × (outcome
      ≡ raise (duplicate_id t first again))

pub repeated : (t : TargetId) (xs ys : List TargetId) → Memᴰ t xs → ¬ AllDistinct (xs ++ t ∷ ys)
repeated t [] ys m d = Memᴰ.not-nil m
repeated t (x ∷ xs) ys m d = elim (Memᴰ.cases_cons m) [
  | inl e ↦ d.0 (Memᴰ.append_right xs (Memᴰ.head (sym e)))
  | inr r ↦ repeated t xs ys r d.1
]

module _ {entries : Entries} {r : Registry} (h : Holds entries r) (id : TargetId)
    (location : Location) (place : Site) where
  known_at : has r.index id ≡ true → Memᴰ id (keys entries)
  known_at e = subst (λ (d : Entries). Memᴰ id (keys d)) h.index ((has_iff r.index id).0 e)

  register-refuses :
      has r.index id ≡ true → Refused {A = Outcome Registry} err (register id location place r)
  unfolding register
  register-refuses e =
      let source : has r.sources id ≡ true =
        (has_iff r.sources id).1 (subst (Memᴰ id) (sym h.sites) (known_at e)) in
      let (first, found) = has-get r.sources id source in (id, first, place, rw (e, found))

  register-accepts :
      has r.index id ≡ false
      → (r' : Registry) × (register id location place r ≡ ok r')
        × Holds (entries ++ (id, location) ∷ []) r'
        × (r'.ancestors ≡ r.ancestors)
        × (r'.origins ≡ r.origins)
  unfolding register keys
  register-accepts e =
      let missing : has r.sources id ≡ false = elim (Bool-cases (has r.sources id)) [
        | inl yes' ↦ cc (
          e,
          (has_iff r.index id).1 (
              subst (λ (d : Entries). Memᴰ id (keys d)) (sym h.index)
                (subst (Memᴰ id) h.sites ((has_iff r.sources id).0 yes'))),
        )
        | inr no' ↦ no'
      ] in
      (
        record r { index = put r.index id location; sources = put r.sources id place },
        rw e,
        record {
          index =
              put_new r.index id location e
              ∙ ap (λ (d : Entries). d ++ (id, location) ∷ []) h.index;
          sites =
              ap keys (put_new r.sources id place missing)
              ∙ keys-append r.sources _
              ∙ ap (λ ks. ks ++ id ∷ []) h.sites
              ∙ sym (keys-append entries _);
          distinct = rw (keys-append entries) (
              AllDistinct-snoc (keys entries) id h.distinct (λ m. cc (
                e,
                (has_iff r.index id).1 (subst (λ (d : Entries). Memᴰ id (keys d)) (sym h.index) m),
              )));
        },
        refl,
        refl,
      )

-- Every anchor that was collected has a span.
abbrev pub Covered : Sectioned → Type 0
Covered s = All (λ t. has s.spans t ≡ true) s.anchored

Covered-put :
    (spans : Dict TargetId (ℕ × ℕ)) (t : TargetId) (span : ℕ × ℕ) (ts : List TargetId)
    → All (λ u. has spans u ≡ true) ts
    → All (λ u. has (put spans t span) u ≡ true) ts
Covered-put spans t span [] h = tt
Covered-put spans t span (u ∷ ts) h =
    (ground (arith, has-put spans t u span, h.0), Covered-put spans t span ts h.1)

-- The outcome of registering `more` behind `entries`: all of it, or a refusal of a repeated id.
record Registered (entries more : Entries) (s s' : Sectioned) : Type 0 where
  holds : Holds (entries ++ more) s'.registry
  covered : Covered s'
  anchored : s'.anchored ≡ s.anchored ++ keys more
  ancestors : s'.registry.ancestors ≡ s.registry.ancestors
  origins : s'.registry.origins ≡ s.registry.origins

abbrev Attempt : Entries → Entries → Sectioned → Outcome Sectioned → Type 0
Attempt entries more s outcome =
    ((s' : Sectioned) × (outcome ≡ ok s') × Registered entries more s s')
    ⊎ ((¬ AllDistinct (keys (entries ++ more))) × Refused {A = Outcome Sectioned} err outcome)

module _ (path file_id : Text) (origin : DocumentOrigin) where
  abbrev entry_of : SectionRecord → TargetId × Location
  entry_of x = (
    section_target file_id x,
    record { path = path; kind = LocationKind.section; span = (x.start, x.stop) },
  )

  register_section-attempt :
      (x : SectionRecord) (entries : Entries) (s : Sectioned)
      → Holds entries s.registry
      → Covered s
      → ((s' : Sectioned) × (register_section path file_id origin x s ≡ ok s')
          × Registered entries (entry_of x ∷ []) s s')
        ⊎ (Memᴰ (section_target file_id x) (keys entries)
            × Refused {A = Outcome Sectioned} err (register_section path file_id origin x s))
  unfolding register_section
  register_section-attempt x entries s h c =
      let tid = section_target file_id x in
      let noted = note_section tid x s.registry in
      let held : Holds entries noted =
        unfold note_section in record { index = h.index; sites = h.sites; distinct = h.distinct } in
      elim (Bool-cases (has noted.index tid)) [
        | inl old ↦
            let (t, first, again, e) =
              register-refuses held tid (entry_of x).1 (anchor_site tid origin) old in
            inr (
              known_at held tid (entry_of x).1 (anchor_site tid origin) old,
              (t, first, again, rw e),
            )
        | inr new ↦
            let (r, e, holds, same, kept) =
              register-accepts held tid (entry_of x).1 (anchor_site tid origin) new in
            inl (
              record {
                registry = r;
                anchored = s.anchored ++ tid ∷ [];
                spans = put s.spans tid (x.start, x.stop);
              },
              rw e,
              record {
                holds = holds;
                covered =
                    All-append _ s.anchored (tid ∷ []) (Covered-put s.spans tid _ s.anchored c)
                      (rw (has-put s.spans tid tid, ==_refl tid), tt);
                anchored = unfold keys in refl;
                ancestors = same ∙ (unfold note_section in refl);
                origins = kept ∙ (unfold note_section in refl);
              },
            )
      ]

  register_sections-Attempt :
      (xs : List SectionRecord) (entries : Entries) (s : Sectioned)
      → Holds entries s.registry
      → Covered s
      → Attempt entries
          (section_entries path file_id xs)
          s
          (register_sections path file_id origin xs s)
  unfolding register_sections section_entries keys
  register_sections-Attempt [] entries s h c = inl (
    s,
    refl,
    record {
      holds = rw append-nil h;
      covered = c;
      anchored = sym (append-nil s.anchored);
      ancestors = refl;
      origins = refl;
    },
  )
  register_sections-Attempt (x ∷ xs) entries s h c =
      elim (register_section-attempt x entries s h c) [
        | inr (m, (t, first, again, e)) ↦ inr (
          λ d. repeated _ (keys entries) _ m (rw (keys-append entries) at d),
          (t, first, again, rw e),
        )
        | inl (s1, e1, done) ↦
            elim (register_sections-Attempt xs (entries ++ entry_of x ∷ []) s1 done.holds
              done.covered) [
                | inr (dup, (t, first, again, e)) ↦
                    inr (rw append_assoc at dup, (t, first, again, rw (e1, e)))
                | inl (s2, e2, rest) ↦ inl (
                  s2,
                  rw (e1, e2),
                  record {
                    holds = rw append_assoc at rest.holds;
                    covered = rest.covered;
                    anchored =
                        rest.anchored
                        ∙ ap (λ ts. ts ++ keys (section_entries path file_id xs)) done.anchored
                        ∙ (append_assoc s.anchored _ _);
                    ancestors = rest.ancestors ∙ done.ancestors;
                    origins = rest.origins ∙ done.origins;
                  },
                )
              ]
      ]

-- The loop of _record_ancestors writes one entry for each anchor, and raises nothing.
record Traced (anchored : List TargetId) (before after : Dict TargetId (List TargetId))
    : Type 0 where
  pub known : (t : TargetId) → has after t ≡ (contains anchored t || has before t)

record_ancestors_traces :
    (anchored : List TargetId) (spans : Dict TargetId (ℕ × ℕ)) (stack : List (ℕ × TargetId))
    (before : Dict TargetId (List TargetId))
    → All (λ t. has spans t ≡ true) anchored
    → (after : Dict TargetId (List TargetId)) × (record_ancestors anchored spans stack before
        ≡ ok after)
      × Traced anchored before after
unfolding record_ancestors contains
record_ancestors_traces [] spans stack before h = (before, refl, record { known = λ t. refl })
record_ancestors_traces (a ∷ as') spans stack before h =
    let (span, found) = has-get spans a h.0 in
    let enclosing = pop_below span.1 stack in
    let next = put before a (stack_ids enclosing) in
    let (after, e, traced) = record_ancestors_traces as' spans ((span.1, a) ∷ enclosing) next h.1 in
    (
      after,
      rw found e,
      record {
        known = λ t. ground (arith, traced.known t, has-put before a t (stack_ids enclosing));
      },
    )

module _ (derive_file_sections : Text → FileSections) where
  -- What registering a document adds to a registry.
  pub record Grown (doc : ParsedDoc) (entries : Entries) (r r' : Registry) : Type 0 where
    pub holds : Holds (entries ++ doc_entries derive_file_sections doc) r'
    pub traced :
        (t : TargetId)
        → has r'.ancestors t ≡ (
            contains
              (keys (
                section_entries doc.path doc.meta.id
                  (sections_of derive_file_sections doc).sections))
              t
            || has r.ancestors t)
    pub origins : r'.origins ≡ put r.origins doc.meta.id (origin_of doc)

  pub register_doc-attempt :
      (doc : ParsedDoc) (entries : Entries) (r : Registry)
      → Holds entries r
      → ((r' : Registry) × (register_doc derive_file_sections doc r ≡ ok r')
          × Grown doc entries r r')
        ⊎ ((¬ AllDistinct (keys (entries ++ doc_entries derive_file_sections doc)))
            × Refused {A = Outcome Registry} err (register_doc derive_file_sections doc r))
  unfolding register_doc doc_entries keys
  register_doc-attempt doc entries r h =
      let id = file_target doc.meta.id in
      let sections = (sections_of derive_file_sections doc).sections in
      let location : Location = record {
        path = doc.path;
        kind = LocationKind.file;
        span = (1, (sections_of derive_file_sections doc).total_lines);
      } in
      let place = file_site (origin_of doc) in
      elim (Bool-cases (has r.index id)) [
        | inl old ↦
            let (t, first, again, e) = register-refuses h id location place old in
            inr (
              λ d.
                  repeated id (keys entries) _ (known_at h id location place old)
                    (rw (keys-append entries) at d),
              (t, first, again, rw e),
            )
        | inr new ↦
            let (r1, e1, holds, same, kept) = register-accepts h id location place new in
            let start : Sectioned = record {
              registry = record r1 { origins = put r1.origins doc.meta.id (origin_of doc) };
              anchored = [];
              spans = [];
            } in
            let held : Holds (entries ++ (id, location) ∷ []) start.registry = record {
              index = holds.index;
              sites = holds.sites;
              distinct = holds.distinct;
            } in
            elim (register_sections-Attempt doc.path doc.meta.id (origin_of doc) sections _ start
              held tt) [
                | inr (dup, (t, first, again, e)) ↦
                    inr (rw append_assoc at dup, (t, first, again, rw (e1, e)))
                | inl (s, e2, done) ↦
                    let (after, e3, traced) =
                      record_ancestors_traces s.anchored s.spans [] s.registry.ancestors
                        done.covered in
                    inl (
                      record s.registry { ancestors = after },
                      rw (e1, e2, e3),
                      record {
                        holds = rw append_assoc at (
                            let k : Holds
                                ((entries ++ (id, location) ∷ [])
                                  ++ section_entries doc.path doc.meta.id sections)
                                (record s.registry { ancestors = after }) =
                              record {
                                index = done.holds.index;
                                sites = done.holds.sites;
                                distinct = done.holds.distinct;
                              } in
                            k);
                        traced = λ t.
                            traced.known t
                            ∙ ap₂
                                (λ ts (d : Dict TargetId (List TargetId)). contains ts t || has d t)
                                done.anchored (done.ancestors ∙ same);
                        origins =
                            done.origins
                            ∙ ap
                                (λ (o : Dict Text DocumentOrigin).
                                  put o doc.meta.id (origin_of doc))
                                kept;
                      },
                    )
              ]
      ]
