-- ===== src/Transaction/Staging.antt =====
-- Writing the journal in place, under a schedule: a helper stage is written beside it, and linked or renamed to it.
use doc_lattice.Prelude.{
  ℕ, ◌≡◌, inl, inr, refl, ap, true, some, List, [], ◌∷◌, ◌++◌, Bool-cases, nat_eq, list_eq,
  option_eq,
}
use doc_lattice.Text.{Text}
use doc_lattice.Dict.{Dict, has}
use doc_lattice.Disk.{
  Bytes, FilePath, Node, regular, Disk, World, Failure, is_os_error, is_not_found, End, done,
  raised, crashed, remove, store, node_at, parent, first_free, mkstemp, mkstemp_on, write_bytes,
  write_at,
}
use doc_lattice.Disk.Updates.{node_at-store_self, node_at-remove_self}
use doc_lattice.Persistence.{
  temp_suffix, clean_and_raise, fill_stage, stage_bytes, durable_unlink,
  durable_unlink_preserving_error,
}
use doc_lattice.Transaction.Runs.{
  Calm, Ends, resume-Ends, weaken, relax, try-Ends, call-Ends, Finishes,
}
use doc_lattice.Transaction.Calls.{Plain, lstat-Ends, sync-Ends}
use doc_lattice.Transaction.Removals.{durable_unlink-Ends}

-- A helper stage for a file: beside it, with the prefix and the suffix.
abbrev pub helper_path : FilePath → Text → Text → FilePath
helper_path path prefix random = (prefix ++ (random ++ temp_suffix)) ∷ parent path

-- A condition that says nothing of helper stages, and that no name still to come is looked at.
pub record Guarded (Watched : FilePath → Type 0) (path : FilePath) (prefix : Text)
    (P : Disk → Type 0) : Type 0 where
  pub stored : (d : Disk) (q : FilePath) (node : Node) → ¬ (Watched q) → P d → P (store q node d)
  pub removed : (d : Disk) (q : FilePath) → ¬ (Watched q) → P d → P (remove q d)
  pub consumed :
      (d : Disk) (taken : ℕ × Text) (names : List (ℕ × Text))
      → d.names ≡ taken ∷ names
      → P d
      → P (record d { names = names })
  pub fresh :
      (d : Disk) (inode : ℕ) (random : Text) (names : List (ℕ × Text))
      → d.names ≡ (inode, random) ∷ names
      → P d
      → ¬ (Watched (helper_path path prefix random))

module _ (Noisy : Type 0) (Watched : FilePath → Type 0) (path : FilePath) (prefix : Text) where
  -- A stage of ours.
  abbrev pub Stage : FilePath → Type 0
  Stage q = (¬ (Watched q)) × (parent q ≡ parent path)

  module _ (P : Disk → Type 0) (guarded : Guarded Watched path prefix P) (noise : Noisy) where
    -- A file that is written.
    abbrev pub Written : FilePath → Bytes → Disk → Type 0
    Written q bytes d = P d × Stage q × (inode : ℕ) × (node_at d q ≡ some (regular inode bytes))

    -- What `mkstemp` makes.
    Made : End FilePath → Disk → Type 0
    Made (done q) d = P d × Stage q × (inode : ℕ) × (node_at d q ≡ some (regular inode []))
    Made (raised failure) d = P d
    Made _ d = ⊥

    made :
        (r : End FilePath × Disk)
        → Made r.0 r.1
        → Finishes Noisy (λ q d. Written q [] d) (λ failure d. P d × Noisy) P r.0 r.1
    unfolding Made
    made (done q, d) m = m
    made (raised failure, d) m = (m, noise)
    made (crashed, d) m = absurd m

    first_free-Made :
        (files : Dict FilePath Node) (names : List (ℕ × Text))
        → P (record { files = files; names = names })
        → Made
            (first_free (parent path) prefix temp_suffix files names).0
            (first_free (parent path) prefix temp_suffix files names).1
    unfolding first_free Made store
    first_free-Made files [] p = p
    first_free-Made files ((inode, random) ∷ names) p =
        elim (Bool-cases (has files (helper_path path prefix random))) [
          | inl taken ↦
              rw taken
                (first_free-Made files names (guarded.consumed _ (inode, random) names refl p))
          | inr free ↦ rw free (
            guarded.stored _ _ (regular inode []) (guarded.fresh _ inode random names refl p)
                (guarded.consumed _ (inode, random) names refl p),
            (guarded.fresh _ inode random names refl p, refl),
            inode,
            node_at-store_self (record { files = files; names = names })
                (helper_path path prefix random) (regular inode []),
          )
        ]

    -- A file of ours that may be removed.
    abbrev pub Owned : FilePath → Disk → Type 0
    Owned q d = P d × Stage q × Plain (node_at d q)

    pub Written-Owned : (q : FilePath) (bytes : Bytes) (d : Disk) → Written q bytes d → Owned q d
    Written-Owned q bytes d (p, stage, inode, e) = (p, stage, rw e tt)

    pub Owned-remove : (q : FilePath) (d : Disk) → Owned q d → Owned q (remove q d)
    Owned-remove q d (p, stage, plain) =
        (guarded.removed d q stage.0 p, stage, rw (node_at-remove_self d q) tt)

    module _ (w : World) (calm : Calm Noisy w) where
      mkstemp-Ends :
          P w.disk
          → Ends Noisy
              (λ q d. Written q [] d)
              (λ failure d. P d × Noisy)
              P
              (mkstemp (parent path) prefix temp_suffix w)
      unfolding mkstemp
      mkstemp-Ends p =
          call-Ends (mkstemp_on (parent path) prefix temp_suffix) w calm (λ _. (p, noise)) (λ _. p)
            (made (first_free (parent path) prefix temp_suffix w.disk.files w.disk.names)
              (first_free-Made w.disk.files w.disk.names p))

      write-Ends :
          (q : FilePath) (bytes : Bytes)
          → Written q [] w.disk
          → Ends Noisy
              (λ _ d. Written q bytes d)
              (λ failure d. Owned q d × (is_os_error failure ≡ true))
              P
              (write_bytes q bytes w)
      unfolding write_bytes
      write-Ends q bytes (p, stage, inode, e) =
          call-Ends (write_at q bytes) w calm (λ _. ((p, stage, rw e tt), refl)) (λ _. p)
            (rw (e, write_at)
              (
                guarded.stored w.disk q (regular inode bytes) stage.0 p,
                stage,
                inode,
                node_at-store_self w.disk q (regular inode bytes),
              ))

      pub clean_and_raise-Ends :
          {A : Type 0} {Q : A → Disk → Type 0} (q : FilePath) (failure : Failure)
          → Owned q w.disk
          → Ends Noisy Q (λ failure d. P d × Noisy) P (clean_and_raise q failure w)
      unfolding clean_and_raise durable_unlink_preserving_error durable_unlink
      clean_and_raise-Ends q failure owned =
          resume-Ends _ _
            (try-Ends is_os_error _ _
              (relax _ (durable_unlink-Ends Noisy (Owned q) q (Owned-remove q) w calm owned owned.2)
                (λ d o. o.0))
              (λ failure d (o, n, e) uncaught. (o.0, n))
              (λ failure w' calm' (o, n, e) in_clause. record { calm = calm'; holds = o.0 })
              λ _ w' calm' (o, e). record { calm = calm'; holds = o.0 })
            λ cleaned w' calm' (p : P w'.disk). record { calm = calm'; holds = (p, noise) }

    module _ (bytes : Bytes) where
      fill_stage-Ends :
          (q : FilePath) (w : World)
          → Calm Noisy w
          → Written q [] w.disk
          → Ends Noisy
              (λ q d. Written q bytes d)
              (λ failure d. P d × Noisy)
              P
              (fill_stage path q bytes w)
      unfolding fill_stage
      fill_stage-Ends q w calm written =
          try-Ends is_os_error _ _
            (resume-Ends _ _ (write-Ends w calm q bytes written) λ _ w' calm' written'.
              weaken _ (sync-Ends Noisy (Written q bytes) w' calm' written' (parent path))
                (λ _ d h. h) (λ failure d (e, h, n). (Written-Owned q bytes d h, ap is_os_error e))
                λ d h. h.0)
            (λ failure d (o, e) uncaught. cc)
            (λ failure w' calm' (o, e) in_clause. clean_and_raise-Ends w' calm' q failure o)
            λ _ w' calm' written'. record { calm = calm'; holds = written' }

      pub stage_bytes-Ends :
          (w : World)
          → Calm Noisy w
          → P w.disk
          → Ends Noisy
              (λ q d. Written q bytes d)
              (λ failure d. P d × Noisy)
              P
              (stage_bytes path bytes prefix w)
      unfolding stage_bytes fill_stage
      stage_bytes-Ends w calm p =
          try-Ends is_not_found _ _ (lstat-Ends Noisy P w calm p path)
            (λ failure d (p', why) uncaught. elim why [ inl (e, m) ↦ cc | inr (e, n) ↦ (p', n) ])
            (λ failure w' calm' m in_clause.
              resume-Ends _ _ (mkstemp-Ends w' calm' m.0)
                λ q w2 calm2 written. fill_stage-Ends q w2 calm2 written)
            λ node w' calm' (p', e).
              resume-Ends _ _ (mkstemp-Ends w' calm' p')
                λ q w2 calm2 written. fill_stage-Ends q w2 calm2 written
