-- ===== src/Transaction/Publishing.antt =====
-- atomic_create_bytes and atomic_replace_bytes, under a schedule.
use doc_lattice.Prelude.{
  ℕ, ◌≡◌, ◌⊎◌, inl, inr, refl, ap, true, arith, if◌then◌else◌, Option-cases, ==_iff, nat_eq,
  list_eq, option_eq,
}
use doc_lattice.Text.{Text}
use doc_lattice.Disk.{
  Bytes, FilePath, regular, irregular, Disk, World, Failure, is_os_error, remove, store, node_at,
  parent, link, link_at, link_on, replace, replace_at, rename_on, sync_directory,
}
use doc_lattice.Disk.Updates.{node_at-store, node_at-remove_self}
use doc_lattice.Persistence.{
  clean_and_raise, replace_staged, atomic_create_bytes, atomic_replace_bytes,
}
use doc_lattice.Transaction.Runs.{Calm, Ends, resume-Ends, weaken, try-Ends, call-Ends}
use doc_lattice.Transaction.Calls.{sync-Ends}
use doc_lattice.Transaction.Removals.{durable_unlink-Ends}
use doc_lattice.Transaction.Staging.{
  Guarded, Written, Owned, Owned-remove, Written-Owned, clean_and_raise-Ends, stage_bytes-Ends,
}

module _ (Noisy : Type 0) (Watched : FilePath → Type 0) (path : FilePath) (prefix : Text)
    (P P' : Disk → Type 0) (guarded : Guarded Watched path prefix P)
    (guarded' : Guarded Watched path prefix P') (noise : Noisy) (bytes : Bytes)
    (places : (d : Disk) (inode : ℕ) → P d → P' (store path (regular inode bytes) d)) where
  -- The old file, or the new one.
  abbrev pub Either : Disk → Type 0
  Either d = P d ⊎ P' d

  abbrev Old : FilePath → Disk → Type 0
  Old q d = Owned Noisy Watched path prefix P guarded noise q d

  abbrev New : FilePath → Disk → Type 0
  New q d = Owned Noisy Watched path prefix P' guarded' noise q d

  -- A stage of ours is in the way of one outcome or of the other.
  abbrev HeldEither : FilePath → Disk → Type 0
  HeldEither q d = Old q d ⊎ New q d

  Held-Either : (q : FilePath) (d : Disk) → HeldEither q d → Either d
  Held-Either q d held = elim held [ inl o ↦ inl o.0 | inr n ↦ inr n.0 ]

  after_link :
      (q : FilePath) (d : Disk) (inode : ℕ)
      → Written Noisy Watched path prefix P guarded noise q bytes d
      → New q (store path (regular inode bytes) d)
  after_link q d inode (p, stage, i, e) =
      (places d inode p, stage, ground (arith, node_at-store d path q (regular inode bytes), e))

  link-Ends :
      (q : FilePath) (w : World)
      → Calm Noisy w
      → Written Noisy Watched path prefix P guarded noise q bytes w.disk
      → Ends Noisy
          (λ _ d. New q d)
          (λ failure d. HeldEither q d × (is_os_error failure ≡ true))
          Either
          (link q path w)
  unfolding link
  link-Ends q w calm (p, stage, inode, e) =
      call-Ends (link_at q path) w calm (λ _. (old, refl)) (λ _. inl p)
        (elim (Option-cases (node_at w.disk path)) [
          | inl free ↦
              rw (e, free, link_at, link_on) (after_link q w.disk inode (p, stage, inode, e))
          | inr (node, taken) ↦ rw (e, taken, link_at, link_on) (old, refl)
        ])
    where
      old : HeldEither q w.disk
      old = inl (
          Written-Owned Noisy Watched path prefix P guarded noise q bytes w.disk
            (p, stage, inode, e))

  replace-Ends :
      (q : FilePath) (w : World)
      → Calm Noisy w
      → Written Noisy Watched path prefix P guarded noise q bytes w.disk
      → Ends Noisy
          (λ _ d. New q d)
          (λ failure d. HeldEither q d × (is_os_error failure ≡ true))
          Either
          (replace q path w)
  unfolding replace
  replace-Ends q w calm (p, stage, inode, e) =
      call-Ends (replace_at q path) w calm (λ _. (old, refl)) (λ _. inl p)
        (elim (Option-cases (node_at w.disk path)) [
          | inl free ↦ rw (e, free, replace_at, rename_on) new
          | inr (regular i b, taken) ↦ rw (e, taken, replace_at, rename_on) new
          | inr (irregular, taken) ↦ rw (e, taken, replace_at, rename_on) (old, refl)
        ])
    where
      old : HeldEither q w.disk
      old = inl (
          Written-Owned Noisy Watched path prefix P guarded noise q bytes w.disk
            (p, stage, inode, e))

      new : New q (store path (regular inode bytes) (remove q w.disk))
      new = (
        places (remove q w.disk) inode (guarded.removed w.disk q stage.0 p),
        stage,
        ground (
          arith,
          node_at-store (remove q w.disk) path q (regular inode bytes),
          node_at-remove_self w.disk q,
        ),
      )

  -- The clean-up of a stage, whichever file is in place.
  clean-Either-Ends :
      {Q : Unit {0} → Disk → Type 0} (q : FilePath) (failure : Failure) (w : World)
      → Calm Noisy w
      → HeldEither q w.disk
      → Ends Noisy Q (λ failure d. Either d × Noisy) Either (clean_and_raise q failure w)
  clean-Either-Ends q failure w calm (inl o) =
      weaken _ (clean_and_raise-Ends Noisy Watched path prefix P guarded noise w calm q failure o)
        (λ _ d h. h) (λ failure' d (p, n). (inl p, n)) λ d p. inl p
  clean-Either-Ends q failure w calm (inr o) =
      weaken _ (clean_and_raise-Ends Noisy Watched path prefix P' guarded' noise w calm q failure o)
        (λ _ d h. h) (λ failure' d (p, n). (inr p, n)) λ d p. inr p

  -- Syncing the directory, once the new file is in place.
  sync-New-Ends :
      (q : FilePath) (w : World)
      → Calm Noisy w
      → New q w.disk
      → Ends Noisy
          (λ _ d. New q d)
          (λ failure d. HeldEither q d × (is_os_error failure ≡ true))
          Either
          (sync_directory (parent path) w)
  sync-New-Ends q w calm new =
      weaken _ (sync-Ends Noisy (New q) w calm new (parent path)) (λ _ d h. h)
        (λ failure d (e, h, n). (inr h, ap is_os_error e)) λ d h. inr h.0

  pub atomic_create_bytes-Ends :
      (w : World)
      → Calm Noisy w
      → P w.disk
      → Ends Noisy
          (λ _ d. P' d)
          (λ failure d. Either d × Noisy)
          Either
          (atomic_create_bytes path bytes prefix w)
  unfolding atomic_create_bytes
  atomic_create_bytes-Ends w calm p =
      resume-Ends _ _
        (weaken _ (stage_bytes-Ends Noisy Watched path prefix P guarded noise bytes w calm p)
          (λ q d h. h) (λ failure d (p', n). (inl p', n)) λ d p'. inl p')
        λ q w' calm' written.
          try-Ends is_os_error _ _
            (resume-Ends _ _ (link-Ends q w' calm' written)
              λ _ w2 calm2 new. sync-New-Ends q w2 calm2 new)
            (λ failure d (held, e) uncaught. cc)
            (λ failure w2 calm2 (held, e) in_clause. clean-Either-Ends q failure w2 calm2 held)
            λ _ w2 calm2 new.
              weaken _
                (durable_unlink-Ends Noisy (New q) q
                  (Owned-remove Noisy Watched path prefix P' guarded' noise q) w2 calm2 new new.2)
                (λ _ d gone. gone.0.0) (λ failure d (o, n, e). (inr o.0, n)) λ d o. inr o.0

  replace_staged-Ends :
      (q : FilePath) (w : World)
      → Calm Noisy w
      → Written Noisy Watched path prefix P guarded noise q bytes w.disk
      → Ends Noisy
          (λ _ d. New q d)
          (λ failure d. HeldEither q d × (is_os_error failure ≡ true))
          Either
          (replace_staged q path w)
  unfolding replace_staged
  replace_staged-Ends q w calm (p, stage, inode, e) =
      rw ((==_iff (parent q) (parent path)).1 stage.1, if◌then◌else◌)
        (resume-Ends _ _ (replace-Ends q w calm (p, stage, inode, e))
          λ _ w' calm' new. sync-New-Ends q w' calm' new)

  pub atomic_replace_bytes-Ends :
      (w : World)
      → Calm Noisy w
      → P w.disk
      → Ends Noisy
          (λ _ d. P' d)
          (λ failure d. Either d × Noisy)
          Either
          (atomic_replace_bytes path bytes prefix w)
  unfolding atomic_replace_bytes
  atomic_replace_bytes-Ends w calm p =
      resume-Ends _ _
        (weaken _ (stage_bytes-Ends Noisy Watched path prefix P guarded noise bytes w calm p)
          (λ q d h. h) (λ failure d (p', n). (inl p', n)) λ d p'. inl p')
        λ q w' calm' written.
          try-Ends is_os_error _ _ (replace_staged-Ends q w' calm' written)
            (λ failure d (held, e) uncaught. cc)
            (λ failure w2 calm2 (held, e) in_clause. clean-Either-Ends q failure w2 calm2 held)
            λ _ w2 calm2 new. record { calm = calm2; holds = new.0 }
