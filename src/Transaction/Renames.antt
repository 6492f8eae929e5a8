-- ===== src/Transaction/Renames.antt =====
-- Renaming a staged image to its destination, under a schedule, and what it does to the other entries.
use doc_lattice.Prelude.{
  ℕ, ◌≡◌, ◌≢◌, ◌⊎◌, inl, inr, refl, ap, ◌∙◌, true, Option, none, some, List, Memᴰ, if◌then◌else◌,
  Bool-cases, Option-cases, ◌==◌, ==_iff, nat_eq, list_eq, option_eq,
}
use doc_lattice.Text.{Text}
use doc_lattice.Disk.{
  Bytes, FilePath, parent, Node, regular, irregular, Disk, World, is_os_error, remove, store,
  node_at, replace, replace_at, rename_on,
}
use doc_lattice.Disk.Updates.{
  node_at-store_other, node_at-store_self, node_at-remove, node_at-remove_other,
  node_at-remove_self,
}
use doc_lattice.Persistence.{replace_staged}
use doc_lattice.Transaction.{Entry}
use doc_lattice.Transaction.Runs.{Calm, Ends, resume-Ends, weaken, call-Ends}
use doc_lattice.Transaction.Calls.{Plain, sync-Ends}
use doc_lattice.Transaction.Images.{HashesTo, Fits}
use doc_lattice.Transaction.Conditions.{Apart, Undecided}

-- The disk after `os.replace(source, destination)`.
abbrev pub moved : FilePath → FilePath → Node → Disk → Disk
moved source destination node d = store destination node (remove source d)

pub node_at-moved_kept :
    (source destination x : FilePath) (node : Node) (d : Disk)
    → destination ≢ x
    → node_at (moved source destination node d) x ≡ node_at (remove source d) x
node_at-moved_kept source destination x node d different =
    node_at-store_other (remove source d) destination x node different

pub node_at-moved_other :
    (source destination x : FilePath) (node : Node) (d : Disk)
    → source ≢ x
    → destination ≢ x
    → node_at (moved source destination node d) x ≡ node_at d x
node_at-moved_other source destination x node d not_source not_destination =
    node_at-moved_kept source destination x node d not_destination
    ∙ node_at-remove_other d source x not_source

pub node_at-moved :
    (source destination : FilePath) (node : Node) (d : Disk)
    → node_at (moved source destination node d) destination ≡ some node
node_at-moved source destination node d = node_at-store_self (remove source d) destination node

pub node_at-moved_source :
    (source destination : FilePath) (node : Node) (d : Disk)
    → destination ≢ source
    → node_at (moved source destination node d) source ≡ none
node_at-moved_source source destination node d different =
    node_at-moved_kept source destination source node d different ∙ node_at-remove_self d source

module _ (Noisy : Type 0) (P P' : Disk → Type 0) (source destination : FilePath)
    (beside : parent source ≡ parent destination)
    (plain : (d : Disk) → P d → Plain (node_at d destination))
    (moves : (d : Disk) (inode : ℕ) (bytes : Bytes)
      → P d
      → node_at d source ≡ some (regular inode bytes)
      → P' (moved source destination (regular inode bytes) d)) where
  pub replace_staged-Ends :
      (w : World) (inode : ℕ) (bytes : Bytes)
      → Calm Noisy w
      → P w.disk
      → node_at w.disk source ≡ some (regular inode bytes)
      → Ends Noisy
          (λ _ d. P' d)
          (λ failure d. (P d ⊎ P' d) × Noisy × (is_os_error failure ≡ true))
          (λ d. P d ⊎ P' d)
          (replace_staged source destination w)
  unfolding replace_staged replace
  replace_staged-Ends w inode bytes calm p e =
      rw ((==_iff (parent source) (parent destination)).1 beside, if◌then◌else◌)
        (resume-Ends _ _
          (call-Ends (replace_at source destination) w calm (λ n. (inl p, n, refl)) (λ _. inl p)
            (elim (Option-cases (node_at w.disk destination)) [
              | inl free ↦ rw (e, free, replace_at, rename_on) (moves w.disk inode bytes p e)
              | inr (regular i b, taken) ↦
                  rw (e, taken, replace_at, rename_on) (moves w.disk inode bytes p e)
              | inr (irregular, taken) ↦ absurd (rw taken at (plain w.disk p))
            ]))
          λ _ w' calm' p'.
            weaken _ (sync-Ends Noisy P' w' calm' p' (parent destination)) (λ _ d h. h)
              (λ failure d (e', h, n). (inr h, n, ap is_os_error e')) λ d h. inr h)

module _ (sha256_hex : Bytes → Text) (entries : List Entry) (journal : FilePath)
    (apart : Apart entries journal) where
  -- Of the entries, those that were rolled back are at their before image.
  abbrev pub Rolling : List Entry → Entry → Option Node → Option Node → Option Node → Type 0
  Rolling rolled e destination before after =
      Undecided sha256_hex e destination before after
      × (Memᴰ e rolled → HashesTo sha256_hex destination e.before_sha256)

  -- Of the entries, those to be applied are at their before image and those applied are at their after image.
  abbrev pub Applying :
      List Entry → List Entry → Entry → Option Node → Option Node → Option Node → Type 0
  Applying applied pending e destination before after =
      ((Memᴰ e pending
          × HashesTo sha256_hex destination e.before_sha256
          × HashesTo sha256_hex after e.after_sha256)
        ⊎ (Memᴰ e applied
            × HashesTo sha256_hex destination e.after_sha256
            × Fits sha256_hex after e.after_sha256))
      × HashesTo sha256_hex before e.before_sha256

  pub Fits-moved :
      (source destination x : FilePath) (node : Node) (d : Disk) (digest : Text)
      → destination ≢ x
      → Fits sha256_hex (node_at d x) digest
      → Fits sha256_hex (node_at (moved source destination node d) x) digest
  Fits-moved source destination x node d digest apart_from fits = elim (Bool-cases (source == x)) [
    | inl same ↦
        rw
          (
            node_at-moved_kept source destination x node d apart_from,
            node_at-remove d source x,
            same,
            if◌then◌else◌,
          )
          tt
    | inr other ↦
        rw
          (
            node_at-moved_kept source destination x node d apart_from,
            node_at-remove d source x,
            other,
            if◌then◌else◌,
          )
          fits
  ]
