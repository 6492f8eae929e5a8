-- ===== src/Transaction/Moves.antt =====
-- What removing an image, writing the journal, and renaming an image to its destination do to a condition.
use doc_lattice.Prelude.{
  ◌≡◌, ◌≢◌, ◌⊎◌, inl, inr, refl, sym, ◌∙◌, Option, none, some, List, [], ◌∷◌, Memᴰ, if◌then◌else◌,
  Bool-cases, ◌==◌, nat_eq, list_eq, option_eq,
}
use mathlib.Core.List.Memᴰ
use doc_lattice.Text.{Text}
use doc_lattice.Disk.{Bytes, FilePath, Node, Disk, store, remove, node_at}
use doc_lattice.Disk.Updates.{
  node_at-remove, node_at-store_other, node_at-remove_other, node_at-store_self,
  node_at-remove_self,
}
use doc_lattice.Transaction.{Entry, staged_artifacts}
use doc_lattice.Transaction.Images.{Fits, FitAll, KeepAll}
use doc_lattice.Transaction.Conditions.{Apart, Condition, Settled}

-- The entry that an image belongs to.
OfEntry : List Entry → FilePath → Text → Type 0
OfEntry entries staged expected =
    (e : Entry) × Memᴰ e entries
    × (((staged ≡ e.before_path) × (expected ≡ e.before_sha256))
        ⊎ ((staged ≡ e.after_path) × (expected ≡ e.after_sha256)))

staged_artifacts-OfEntry :
    (entries : List Entry) (staged : FilePath) (expected : Text) (destination : FilePath)
    → Memᴰ (staged, expected, destination) (staged_artifacts entries)
    → OfEntry entries staged expected
unfolding OfEntry staged_artifacts
staged_artifacts-OfEntry [] staged expected destination m = absurd (Memᴰ.not-nil m)
staged_artifacts-OfEntry (e ∷ entries) staged expected destination m = elim (Memᴰ.cases_cons m) [
  | inl same ↦ (e, Memᴰ.head refl, inl (cc, cc))
  | inr rest ↦ elim (Memᴰ.cases_cons rest) [
    | inl same ↦ (e, Memᴰ.head refl, inr (cc, cc))
    | inr later ↦
        let found = staged_artifacts-OfEntry entries staged expected destination later in
        (found.0, Memᴰ.tail found.1, found.2)
  ]
]

module _ (sha256_hex : Bytes → Text) (entries : List Entry) (journal : FilePath)
    (apart : Apart entries journal) where
  -- A condition under which both images of every entry fit.
  pub images-FitAll :
      (F : Entry → Option Node → Option Node → Option Node → Type 0) (G : Option Node → Type 0)
      → ((e : Entry) (destination before after : Option Node)
          → F e destination before after
          → Fits sha256_hex before e.before_sha256 × Fits sha256_hex after e.after_sha256)
      → (Noisy : Type 0)
      → FitAll sha256_hex Noisy (Condition entries journal F G) (staged_artifacts entries)
  unfolding OfEntry
  images-FitAll F G fits Noisy staged expected destination m d c =
      let (e, mem, which) = staged_artifacts-OfEntry entries staged expected destination m in
      let both = fits e _ _ _ (c.entry_holds e mem) in
      elim which [ inl (p, x) ↦ rw (p, x) both.0 | inr (p, x) ↦ rw (p, x) both.1 ]

  Fits-remove :
      (d : Disk) (p q : FilePath) (digest : Text)
      → Fits sha256_hex (node_at d q) digest
      → Fits sha256_hex (node_at (remove p d) q) digest
  Fits-remove d p q digest fits = elim (Bool-cases (p == q)) [
    | inl same ↦ rw (node_at-remove d p q, same, if◌then◌else◌) tt
    | inr other ↦ rw (node_at-remove d p q, other, if◌then◌else◌) fits
  ]

  pub Settled-KeepAll :
      (side : Entry → Text) (G : Option Node → Type 0) (Noisy : Type 0)
      → KeepAll sha256_hex Noisy
          (Condition entries journal (Settled sha256_hex side) G)
          (staged_artifacts entries)
  unfolding remove node_at OfEntry
  Settled-KeepAll side G Noisy staged expected destination m d c = record {
    reserved = c.reserved;
    entry_holds = λ e' m'.
        let (holds, before, after) = c.entry_holds e' m' in
        (
          rw (node_at-remove_other d staged e'.destination (not_destination e' m')) holds,
          Fits-remove d staged e'.before_path e'.before_sha256 before,
          Fits-remove d staged e'.after_path e'.after_sha256 after,
        );
    journal_holds = rw (node_at-remove_other d staged journal not_journal) c.journal_holds;
  }
    where
      found : OfEntry entries staged expected
      found = staged_artifacts-OfEntry entries staged expected destination m

      not_destination : (e' : Entry) → Memᴰ e' entries → staged ≢ e'.destination
      not_destination e' m' same = elim found.2 [
        | inl (p, x) ↦ apart.destination_before e' found.0 m' found.1 (sym same ∙ p)
        | inr (p, x) ↦ apart.destination_after e' found.0 m' found.1 (sym same ∙ p)
      ]

      not_journal : staged ≢ journal
      not_journal same = elim found.2 [
        | inl (p, x) ↦ apart.journal_before found.0 found.1 (sym same ∙ p)
        | inr (p, x) ↦ apart.journal_after found.0 found.1 (sym same ∙ p)
      ]

  module _ (F : Entry → Option Node → Option Node → Option Node → Type 0) where
    pub remove_journal :
        (G : Option Node → Type 0)
        → G none
        → (d : Disk) → Condition entries journal F G d
        → Condition entries journal F G (remove journal d)
    unfolding remove node_at
    remove_journal G gone d c = record {
      reserved = c.reserved;
      entry_holds = λ e m.
          rw
            (
              node_at-remove_other d journal e.destination (apart.journal_destination e m),
              node_at-remove_other d journal e.before_path (apart.journal_before e m),
              node_at-remove_other d journal e.after_path (apart.journal_after e m),
            )
            (c.entry_holds e m);
      journal_holds = rw (node_at-remove_self d journal) gone;
    }

    pub store_journal :
        (G G' : Option Node → Type 0) (d : Disk) (node : Node)
        → G' (some node)
        → Condition entries journal F G d
        → Condition entries journal F G' (store journal node d)
    unfolding store node_at
    store_journal G G' d node placed c = record {
      reserved = c.reserved;
      entry_holds = λ e m.
          rw
            (
              node_at-store_other d journal e.destination node (apart.journal_destination e m),
              node_at-store_other d journal e.before_path node (apart.journal_before e m),
              node_at-store_other d journal e.after_path node (apart.journal_after e m),
            )
            (c.entry_holds e m);
      journal_holds = rw (node_at-store_self d journal node) placed;
    }
