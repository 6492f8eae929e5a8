-- ===== src/Transaction/Calls.antt =====
-- How the calls of the operating system end, for a condition on the disk that they keep.
use doc_lattice.Prelude.{
  ℕ, ◌≡◌, ◌≢◌, ◌⊎◌, inl, inr, refl, false, Option, none, some, Option-cases, nat_eq, list_eq,
  option_eq,
}
use doc_lattice.Text.{Text}
use doc_lattice.Disk.{
  Bytes, FilePath, Node, regular, irregular, Disk, World, Failure, os_error, file_not_found,
  is_os_error, lstat, lstat_on, sync_on, read_on, unlink_at, read_bytes, unlink, sync_directory,
  remove, node_at,
}
use doc_lattice.Disk.Updates.{node_at-remove_self}
use doc_lattice.Persistence.{file_sha256}
use doc_lattice.Transaction.Runs.{Calm, Ends, resume-Ends, call-Ends}

-- The path holds no directory or the like.
abbrev pub Plain : Option Node → Type 0
Plain none = Unit {0}
Plain (some (regular inode bytes)) = Unit {0}
Plain (some irregular) = ⊥

module _ (Noisy : Type 0) (P : Disk → Type 0) where
  -- An exception that a call of the operating system raises for an absent file, or by permission.
  abbrev pub Missing : FilePath → Failure → Disk → Type 0
  Missing path failure d =
      P d
      × (((failure ≡ file_not_found) × (node_at d path ≡ none)) ⊎ ((failure ≡ os_error) × Noisy))

  -- A failure that is permitted, with the condition kept.
  abbrev pub Harmless : Failure → Disk → Type 0
  Harmless failure d = P d × Noisy

  pub Missing-is_os_error :
      (path : FilePath) (failure : Failure) (d : Disk)
      → Missing path failure d
      → is_os_error failure ≢ false
  Missing-is_os_error path failure d (p, why) h = elim why [ inl (e, m) ↦ cc | inr (e, noise) ↦ cc ]

  module _ (w : World) (calm : Calm Noisy w) (p : P w.disk) where
    pub lstat-Ends :
        (path : FilePath)
        → Ends Noisy (λ node d. P d × (node_at d path ≡ some node)) (Missing path) P (lstat path w)
    unfolding lstat
    lstat-Ends path =
        call-Ends (lstat_on path) w calm (λ noise. (p, inr (refl, noise))) (λ noise. p)
          (elim (Option-cases (node_at w.disk path)) [
            | inl e ↦ rw (e, lstat_on) (p, inl (refl, e))
            | inr (node, e) ↦ rw (e, lstat_on) (p, e)
          ])

    pub sync-Ends :
        (path : FilePath)
        → Ends Noisy
            (λ _ d. P d)
            (λ failure d. (failure ≡ os_error) × P d × Noisy)
            P
            (sync_directory path w)
    unfolding sync_directory
    sync-Ends path = call-Ends sync_on w calm (λ noise. (refl, p, noise)) (λ noise. p) p

    pub read-Ends :
        (path : FilePath)
        → Plain (node_at w.disk path)
        → Ends Noisy
            (λ bytes d. P d × (inode : ℕ) × (node_at d path ≡ some (regular inode bytes)))
            (Missing path)
            P
            (read_bytes path w)
    unfolding read_bytes
    read-Ends path plain =
        call-Ends (read_on path) w calm (λ noise. (p, inr (refl, noise))) (λ noise. p)
          (elim (Option-cases (node_at w.disk path)) [
            | inl e ↦ rw e (p, inl (refl, e))
            | inr (regular inode bytes, e) ↦ rw e (p, inode, e)
            | inr (irregular, e) ↦ absurd (rw e at plain)
          ])

    -- What a file hashes to.
    pub file_sha256-Ends :
        (sha256_hex : Bytes → Text) (path : FilePath)
        → Plain (node_at w.disk path)
        → Ends Noisy
            (λ digest d.
              P d
              × (inode : ℕ) × (bytes : Bytes) × (node_at d path ≡ some (regular inode bytes))
              × (digest ≡ sha256_hex bytes))
            (Missing path)
            P
            (file_sha256 sha256_hex path w)
    unfolding file_sha256
    file_sha256-Ends sha256_hex path plain =
        resume-Ends _ _ (read-Ends path plain) λ bytes w' calm' (p', inode, e). record {
          calm = calm';
          holds = (p', inode, bytes, e, refl);
        }

    -- A removal, by a condition that removing the path keeps.
    module _ (path : FilePath) (keep : (d : Disk) → P d → P (remove path d)) where
      pub unlink-Ends :
          Plain (node_at w.disk path)
          → Ends Noisy (λ _ d. P d × (node_at d path ≡ none)) (Missing path) P (unlink path w)
      unfolding unlink
      unlink-Ends plain =
          call-Ends (unlink_at path) w calm (λ noise. (p, inr (refl, noise))) (λ noise. p)
            (elim (Option-cases (node_at w.disk path)) [
              | inl e ↦ rw (e, unlink_at) (p, inl (refl, e))
              | inr (regular inode bytes, e) ↦
                  rw (e, unlink_at) (keep w.disk p, node_at-remove_self w.disk path)
              | inr (irregular, e) ↦ absurd (rw e at plain)
            ])
