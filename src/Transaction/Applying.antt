-- ===== src/Transaction/Applying.antt =====
-- The rename of an after image to its destination, under a schedule.
use doc_lattice.Prelude.{
  ℕ, ◌≡◌, ◌≢◌, ◌⊎◌, inl, inr, refl, sym, ap, subst, Option, List, ◌∷◌, Memᴰ, Bool-cases, ◌==◌,
  ==_iff, nat_eq, list_eq, option_eq,
}
use mathlib.Core.List.Memᴰ
use doc_lattice.Text.{Text}
use doc_lattice.Disk.{Bytes, FilePath, Node, regular, Disk, remove, store, node_at}
use doc_lattice.Transaction.{Entry}
use doc_lattice.Transaction.Images.{HashesTo, Fits}
use doc_lattice.Transaction.Conditions.{Apart, Condition}
use doc_lattice.Transaction.Renames.{
  moved, node_at-moved, node_at-moved_other, node_at-moved_source, Applying,
}

module _ (sha256_hex : Bytes → Text) (entries : List Entry) (journal : FilePath)
    (apart : Apart entries journal) where
  module _ (G : Option Node → Type 0) (e : Entry) (mem : Memᴰ e entries) (d : Disk) (inode : ℕ)
      (bytes : Bytes) where
    pub apply_moves :
        (applied pending : List Entry)
        → sha256_hex bytes ≡ e.after_sha256
        → Condition entries journal
            (Applying sha256_hex entries journal apart applied (e ∷ pending))
            G
            d
        → Condition entries journal
            (Applying sha256_hex entries journal apart (e ∷ applied) pending)
            G
            (moved e.after_path e.destination (regular inode bytes) d)
    unfolding store remove node_at
    apply_moves applied pending hashes c = record {
      reserved = c.reserved;
      entry_holds = holds;
      journal_holds =
          rw
            (node_at-moved_other e.after_path e.destination journal (regular inode bytes) d
              (λ x. apart.journal_after e mem (sym x))
              (λ x. apart.journal_destination e mem (sym x)))
            c.journal_holds;
    }
      where
        after_disk : Disk
        after_disk = moved e.after_path e.destination (regular inode bytes) d

        Progress : Entry → Type 0
        Progress x =
            (Memᴰ x pending
              × HashesTo sha256_hex (node_at after_disk x.destination) x.before_sha256
              × HashesTo sha256_hex (node_at after_disk x.after_path) x.after_sha256)
            ⊎ (Memᴰ x (e ∷ applied)
                × HashesTo sha256_hex (node_at after_disk x.destination) x.after_sha256
                × Fits sha256_hex (node_at after_disk x.after_path) x.after_sha256)

        image :
            (e' : Entry)
            → Memᴰ e' entries
            → HashesTo sha256_hex (node_at after_disk e'.before_path) e'.before_sha256
        image e' mem' =
            rw
              (node_at-moved_other e.after_path e.destination e'.before_path (regular inode bytes) d
                (λ x. apart.before_after e' e mem' mem (sym x))
                (apart.destination_before e e' mem mem'))
              (c.entry_holds e' mem').1

        waiting :
            (e' : Entry) → Memᴰ e' (e ∷ pending) → e.destination ≢ e'.destination → Memᴰ e' pending
        waiting e' m different = elim (Memᴰ.cases_cons m) [
          | inl is ↦ absurd (different (ap (λ (y : Entry). y.destination) (sym is)))
          | inr later ↦ later
        ]

        progress_other :
            (e' : Entry) → Memᴰ e' entries → e.destination ≢ e'.destination → Progress e'
        progress_other e' mem' different =
            let at_destination : node_at after_disk e'.destination ≡ node_at d e'.destination =
              node_at-moved_other e.after_path e.destination e'.destination (regular inode bytes) d
                (λ x. apart.destination_after e' e mem' mem (sym x)) different in
            let at_after : node_at after_disk e'.after_path ≡ node_at d e'.after_path =
              node_at-moved_other e.after_path e.destination e'.after_path (regular inode bytes) d
                (λ x.
                  different (ap (λ (y : Entry). y.destination) (apart.same_after e e' mem mem' x)))
                (apart.destination_after e e' mem mem') in
            rw (at_destination, at_after)
              (elim (c.entry_holds e' mem').0 [
                | inl (m, h, k) ↦ inl (waiting e' m different, h, k)
                | inr (m, h, k) ↦ inr (Memᴰ.tail m, h, k)
              ])

        progress : (e' : Entry) → Memᴰ e' entries → Progress e'
        progress e' mem' = elim (Bool-cases (e.destination == e'.destination)) [
          | inl same ↦
              subst Progress
                (apart.same_destination e e' mem mem'
                  ((==_iff e.destination e'.destination).0 same))
                (inr (
                  Memᴰ.head refl,
                  rw (node_at-moved e.after_path e.destination (regular inode bytes) d) hashes,
                  rw
                      (node_at-moved_source e.after_path e.destination (regular inode bytes) d
                        (apart.destination_after e e mem mem))
                      tt,
                ))
          | inr differs ↦
              progress_other e' mem' (λ x. cc ((==_iff e.destination e'.destination).1 x))
        ]

        holds :
            (e' : Entry)
            → Memᴰ e' entries
            → Applying sha256_hex entries journal apart
                (e ∷ applied)
                pending
                e'
                (node_at after_disk e'.destination)
                (node_at after_disk e'.before_path)
                (node_at after_disk e'.after_path)
        holds e' mem' = (progress e' mem', image e' mem')
