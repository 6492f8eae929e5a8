-- ===== src/Loader/Documents.antt =====
-- The entries that documents declare, and the documents that declare them.
use doc_lattice.Prelude.{
  ◌≡◌, inl, inr, refl, sym, ap, ◌∙◌, List, [], ◌∷◌, Memᴰ, Memᴰ-append, nat_eq, list_eq, option_eq,
}
use mathlib.Core.List.Memᴰ
use doc_lattice.Text.{Text}
use doc_lattice.Dict.{keys}
use doc_lattice.Dict.Keys.{AllDistinct, AllDistinct_apart, AllDistinct_right, keys-append}
use doc_lattice.Model.{TargetId, target_eq, file_target, Location, FileSections, ParsedDoc}
use doc_lattice.Loader.{sections_of}
use doc_lattice.Loader.Registration.{section_entries, doc_entries, docs_entries}
use doc_lattice.Loader.Build.{section_entries-mem}

module _ (derive : Text → FileSections) where
  pub docs_entries-mem :
      (docs : List ParsedDoc) (t : TargetId) (loc : Location)
      → Memᴰ (t, loc) (docs_entries derive docs)
      → (doc : ParsedDoc) × Memᴰ doc docs × (loc.path ≡ doc.path) × (t.file_id ≡ doc.meta.id)
  unfolding docs_entries doc_entries
  docs_entries-mem [] t loc m = absurd (Memᴰ.not-nil m)
  docs_entries-mem (doc ∷ docs) t loc m =
      elim ((Memᴰ-append (t, loc) (doc_entries derive doc) _).0 m) [
        | inr later ↦
            let (d, k, path, id) = docs_entries-mem docs t loc later in (d, Memᴰ.tail k, path, id)
        | inl here ↦ elim (Memᴰ.cases_cons here) [
          | inl e ↦ (
            doc,
            Memᴰ.head refl,
            ap (λ (p : TargetId × Location). p.1.path) e,
            ap (λ (p : TargetId × Location). p.0.file_id) e,
          )
          | inr n ↦
              let (path, id, _) = section_entries-mem doc.path doc.meta.id _ t loc n in
              (doc, Memᴰ.head refl, path, id)
        ]
      ]

  pub file_id-mem :
      (docs : List ParsedDoc) (doc : ParsedDoc)
      → Memᴰ doc docs
      → Memᴰ (file_target doc.meta.id) (keys (docs_entries derive docs))
  unfolding docs_entries doc_entries keys
  file_id-mem [] doc m = absurd (Memᴰ.not-nil m)
  file_id-mem (d ∷ docs) doc m = elim (Memᴰ.cases_cons m) [
    | inl e ↦ Memᴰ.head (ap (λ (x : ParsedDoc). file_target x.meta.id) e)
    | inr later ↦ Memᴰ.tail (
        rw (keys-append (section_entries d.path d.meta.id (sections_of derive d).sections))
          (Memᴰ.append_right _ (file_id-mem docs doc later)))
  ]

  -- Where no id is declared twice, a document is determined by its file id.
  pub same_doc :
      (docs : List ParsedDoc) (a c : ParsedDoc)
      → AllDistinct (keys (docs_entries derive docs))
      → Memᴰ a docs
      → Memᴰ c docs
      → a.meta.id ≡ c.meta.id
      → a ≡ c
  unfolding docs_entries
  same_doc [] a c distinct m n e = absurd (Memᴰ.not-nil m)
  same_doc (d ∷ docs) a c distinct m n e =
      let split = rw (keys-append (doc_entries derive d)) at distinct in
      let head_id : (x : ParsedDoc)
          → x ≡ d
          → Memᴰ (file_target x.meta.id) (keys (doc_entries derive d)) =
        λ x same.
          unfold doc_entries keys in
          Memᴰ.head (ap (λ (y : ParsedDoc). file_target y.meta.id) same) in
      elim (Memᴰ.cases_cons m) [
        | inl here ↦ elim (Memᴰ.cases_cons n) [
          | inl too ↦ here ∙ sym too
          | inr later ↦ absurd (
              AllDistinct_apart (keys (doc_entries derive d)) (keys (docs_entries derive docs))
                (file_target a.meta.id) split (head_id a here) (rw e (file_id-mem docs c later)))
        ]
        | inr before ↦ elim (Memᴰ.cases_cons n) [
          | inl here ↦ absurd (
              AllDistinct_apart (keys (doc_entries derive d)) (keys (docs_entries derive docs))
                (file_target a.meta.id) split (rw e (head_id c here)) (file_id-mem docs a before))
          | inr later ↦
              same_doc docs a c
                (AllDistinct_right (keys (doc_entries derive d)) (keys (docs_entries derive docs))
                  split)
                before later e
        ]
      ]
