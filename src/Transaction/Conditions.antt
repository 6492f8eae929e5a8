-- ===== src/Transaction/Conditions.antt =====
-- What is known of the disk of a transaction: of the three files of each entry, of the journal, and of the names that
-- helper stages of the journal may still take.
use doc_lattice.Prelude.{
  ℕ, ◌≡◌, ◌≢◌, ◌⊎◌, refl, sym, subst, Option, none, some, List, Memᴰ, nat_eq, list_eq, option_eq,
}
use doc_lattice.Text.{Text}
use doc_lattice.Dict.Keys.{AllDistinct}
use doc_lattice.Disk.{Bytes, FilePath, parent, Node, regular, Disk, store, remove, node_at}
use doc_lattice.Disk.Updates.{node_at-store_other, node_at-remove_other}
use doc_lattice.Transaction.{Entry, journal_stage_prefix}
use doc_lattice.Transaction.Staging.{Guarded, helper_path}
use doc_lattice.Transaction.Images.{HashesTo, Fits}

-- The paths of the entries do not collide: what _load_journal validates. Each rewrite changes its file.
pub record Apart (entries : List Entry) (journal : FilePath) : Type 0 where
  pub same_destination :
      (e e' : Entry) → Memᴰ e entries → Memᴰ e' entries → e.destination ≡ e'.destination → e ≡ e'
  pub same_before :
      (e e' : Entry) → Memᴰ e entries → Memᴰ e' entries → e.before_path ≡ e'.before_path → e ≡ e'
  pub same_after :
      (e e' : Entry) → Memᴰ e entries → Memᴰ e' entries → e.after_path ≡ e'.after_path → e ≡ e'
  pub destination_before :
      (e e' : Entry) → Memᴰ e entries → Memᴰ e' entries → e.destination ≢ e'.before_path
  pub destination_after :
      (e e' : Entry) → Memᴰ e entries → Memᴰ e' entries → e.destination ≢ e'.after_path
  pub before_after :
      (e e' : Entry) → Memᴰ e entries → Memᴰ e' entries → e.before_path ≢ e'.after_path
  pub journal_destination : (e : Entry) → Memᴰ e entries → journal ≢ e.destination
  pub journal_before : (e : Entry) → Memᴰ e entries → journal ≢ e.before_path
  pub journal_after : (e : Entry) → Memᴰ e entries → journal ≢ e.after_path
  pub before_beside : (e : Entry) → Memᴰ e entries → parent e.before_path ≡ parent e.destination
  pub after_beside : (e : Entry) → Memᴰ e entries → parent e.after_path ≡ parent e.destination
  pub no_repeat : AllDistinct entries
  pub changes : (e : Entry) → Memᴰ e entries → e.before_sha256 ≢ e.after_sha256

module _ (entries : List Entry) (journal : FilePath) where
  -- The paths that conditions speak of.
  pub data Watched (q : FilePath) : Type 0 where
    the_journal : q ≡ journal → Watched q
    a_destination : (e : Entry) → Memᴰ e entries → q ≡ e.destination → Watched q
    a_before : (e : Entry) → Memᴰ e entries → q ≡ e.before_path → Watched q
    an_after : (e : Entry) → Memᴰ e entries → q ≡ e.after_path → Watched q

  -- No name that `mkstemp` may still give to a helper stage of the journal is one of them.
  abbrev pub ReservedIn : List (ℕ × Text) → Type 0
  ReservedIn names =
      (inode : ℕ) (random : Text)
      → Memᴰ (inode, random) names
      → ¬ (Watched (helper_path journal journal_stage_prefix random))

  -- A condition on each entry and on the journal.
  pub record Condition (F : Entry → Option Node → Option Node → Option Node → Type 0)
      (G : Option Node → Type 0) (d : Disk) : Type 0 where
    pub reserved : ReservedIn d.names
    pub entry_holds :
        (e : Entry)
        → Memᴰ e entries
        → F e (node_at d e.destination) (node_at d e.before_path) (node_at d e.after_path)
    pub journal_holds : G (node_at d journal)

  module _ (F : Entry → Option Node → Option Node → Option Node → Type 0)
      (G : Option Node → Type 0) where
    Condition-alike :
        (d d' : Disk)
        → ReservedIn d'.names
        → ((x : FilePath) → Watched x → node_at d' x ≡ node_at d x)
        → Condition F G d
        → Condition F G d'
    Condition-alike d d' reserved same c = record {
      reserved = reserved;
      entry_holds = λ e m.
          rw
            (
              same e.destination (a_destination e m refl),
              same e.before_path (a_before e m refl),
              same e.after_path (an_after e m refl),
            )
            (c.entry_holds e m);
      journal_holds = rw (same journal (the_journal refl)) c.journal_holds;
    }

    pub Condition-Guarded : Guarded Watched journal journal_stage_prefix (Condition F G)
    unfolding store remove node_at
    Condition-Guarded = record {
      stored = λ d q node unwatched c.
          Condition-alike d (store q node d) c.reserved
            (λ x watched.
              node_at-store_other d q x node (λ e. unwatched (subst Watched (sym e) watched)))
            c;
      removed = λ d q unwatched c.
          Condition-alike d (remove q d) c.reserved
            (λ x watched.
              node_at-remove_other d q x (λ e. unwatched (subst Watched (sym e) watched)))
            c;
      consumed = λ d taken names e c.
          Condition-alike d (record d { names = names })
            (λ inode random m. c.reserved inode random (rw e (Memᴰ.tail m))) (λ x watched. refl) c;
      fresh = λ d inode random names e c. c.reserved inode random (rw e (Memᴰ.head refl));
    }

module _ (sha256_hex : Bytes → Text) where
  -- The destination is one of the images, and the before image is there.
  abbrev pub Armed : Entry → Option Node → Option Node → Option Node → Type 0
  Armed e destination before after =
      (HashesTo sha256_hex destination e.before_sha256
        ⊎ HashesTo sha256_hex destination e.after_sha256)
      × HashesTo sha256_hex before e.before_sha256
      × Fits sha256_hex after e.after_sha256

  -- The destination is the before image; or it is the after image, and the before image is there.
  abbrev pub Undecided : Entry → Option Node → Option Node → Option Node → Type 0
  Undecided e destination before after =
      ((HashesTo sha256_hex destination e.before_sha256 × Fits sha256_hex before e.before_sha256)
        ⊎ (HashesTo sha256_hex destination e.after_sha256
            × HashesTo sha256_hex before e.before_sha256))
      × Fits sha256_hex after e.after_sha256

  -- The destination is settled; the images are right or gone.
  abbrev pub Settled : (Entry → Text) → Entry → Option Node → Option Node → Option Node → Type 0
  Settled side e destination before after =
      HashesTo sha256_hex destination (side e)
      × Fits sha256_hex before e.before_sha256
      × Fits sha256_hex after e.after_sha256

-- The journal has these bytes.
abbrev pub JournalIs : Bytes → Option Node → Type 0
JournalIs bytes o = (inode : ℕ) × (o ≡ some (regular inode bytes))

-- The journal has these bytes, or it is gone.
abbrev pub JournalOrNone : Bytes → Option Node → Type 0
JournalOrNone bytes o = (o ≡ none) ⊎ JournalIs bytes o

abbrev pub NoJournal : Option Node → Type 0
NoJournal o = o ≡ none
