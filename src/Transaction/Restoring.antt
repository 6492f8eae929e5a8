-- ===== src/Transaction/Restoring.antt =====
-- The rename of a before image to its destination, under a schedule.
use doc_lattice.Prelude.{
  ℕ, ◌≡◌, ◌≢◌, inl, inr, sym, ap, subst, Option, List, ◌∷◌, Memᴰ, Bool-cases, ◌==◌, ==_iff, nat_eq,
  list_eq, option_eq,
}
use mathlib.Core.List.Memᴰ
use doc_lattice.Text.{Text}
use doc_lattice.Disk.{Bytes, FilePath, Node, regular, Disk, remove, store, node_at}
use doc_lattice.Transaction.{Entry}
use doc_lattice.Transaction.Images.{HashesTo}
use doc_lattice.Transaction.Conditions.{Apart, Condition}
use doc_lattice.Transaction.Renames.{
  moved, node_at-moved, node_at-moved_other, node_at-moved_source, Fits-moved, Rolling,
}

module _ (sha256_hex : Bytes → Text) (entries : List Entry) (journal : FilePath)
    (apart : Apart entries journal) where
  module _ (G : Option Node → Type 0) (e : Entry) (mem : Memᴰ e entries) (d : Disk) (inode : ℕ)
      (bytes : Bytes) where
    pub restore_moves :
        (rolled : List Entry)
        → sha256_hex bytes ≡ e.before_sha256
        → Condition entries journal (Rolling sha256_hex entries journal apart rolled) G d
        → Condition entries journal
            (Rolling sha256_hex entries journal apart (e ∷ rolled))
            G
            (moved e.before_path e.destination (regular inode bytes) d)
    unfolding store remove node_at
    restore_moves rolled hashes c = record {
      reserved = c.reserved;
      entry_holds = holds;
      journal_holds =
          rw
            (node_at-moved_other e.before_path e.destination journal (regular inode bytes) d
              (λ x. apart.journal_before e mem (sym x))
              (λ x. apart.journal_destination e mem (sym x)))
            c.journal_holds;
    }
      where
        after_disk : Disk
        after_disk = moved e.before_path e.destination (regular inode bytes) d

        own :
            Rolling sha256_hex entries journal apart
              (e ∷ rolled)
              e
              (node_at after_disk e.destination)
              (node_at after_disk e.before_path)
              (node_at after_disk e.after_path)
        own =
            let restored : HashesTo sha256_hex (node_at after_disk e.destination) e.before_sha256 =
              rw (node_at-moved e.before_path e.destination (regular inode bytes) d) hashes in
            (
              (
                inl (
                  restored,
                  rw
                      (node_at-moved_source e.before_path e.destination (regular inode bytes) d
                        (apart.destination_before e e mem mem))
                      tt,
                ),
                Fits-moved sha256_hex entries journal apart e.before_path e.destination e.after_path
                    (regular inode bytes) d e.after_sha256 (apart.destination_after e e mem mem)
                    (c.entry_holds e mem).0.1,
              ),
              λ _. restored,
            )

        other :
            (e' : Entry)
            → Memᴰ e' entries
            → e.destination ≢ e'.destination
            → Rolling sha256_hex entries journal apart
                (e ∷ rolled)
                e'
                (node_at after_disk e'.destination)
                (node_at after_disk e'.before_path)
                (node_at after_disk e'.after_path)
        other e' mem' different =
            rw
              (
                node_at-moved_other e.before_path e.destination e'.destination (regular inode bytes)
                    d (λ x. apart.destination_before e' e mem' mem (sym x)) different,
                node_at-moved_other e.before_path e.destination e'.before_path (regular inode bytes)
                    d
                    (λ x.
                      different
                        (ap (λ (y : Entry). y.destination) (apart.same_before e e' mem mem' x)))
                    (apart.destination_before e e' mem mem'),
                node_at-moved_other e.before_path e.destination e'.after_path (regular inode bytes)
                    d (apart.before_after e e' mem mem') (apart.destination_after e e' mem mem'),
              )
              (
                (c.entry_holds e' mem').0,
                λ m. elim (Memᴰ.cases_cons m) [
                  | inl is ↦ absurd (different (ap (λ (y : Entry). y.destination) (sym is)))
                  | inr later ↦ (c.entry_holds e' mem').1 later
                ],
              )

        holds :
            (e' : Entry)
            → Memᴰ e' entries
            → Rolling sha256_hex entries journal apart
                (e ∷ rolled)
                e'
                (node_at after_disk e'.destination)
                (node_at after_disk e'.before_path)
                (node_at after_disk e'.after_path)
        holds e' mem' = elim (Bool-cases (e.destination == e'.destination)) [
          | inl same ↦
              subst
                (λ (x : Entry).
                  Rolling sha256_hex entries journal apart (e ∷ rolled) x
                    (node_at after_disk x.destination) (node_at after_disk x.before_path)
                    (node_at after_disk x.after_path))
                (apart.same_destination e e' mem mem'
                  ((==_iff e.destination e'.destination).0 same))
                own
          | inr differs ↦ other e' mem' (λ x. cc ((==_iff e.destination e'.destination).1 x))
        ]
