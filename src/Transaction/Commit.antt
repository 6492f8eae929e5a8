-- ===== src/Transaction/Commit.antt =====
-- reconcile_transaction.py: applying a prepared transaction, its commit marker, and how it is aborted.
use doc_lattice.Prelude.{
  ◌⊎◌, inl, inr, Bool, true, false, not, some, List, [], ◌∷◌, if◌then◌else◌, is_empty, ◌==◌, nat_eq,
  list_eq, option_eq,
}
use doc_lattice.Text.{Text}
use doc_lattice.Disk.{
  Bytes, FilePath, Failure, file_not_found, is_os_error, is_persistence, operation_failed,
  reset_failed, changed_after_validation, rolled_back, rollback_failed, rollback_incomplete,
  rollback_not_attempted, Action, pure, raise, ◌>>=◌, ◌>>◌, attempt, read_bytes,
}
use doc_lattice.Persistence.{file_sha256, replace_staged, atomic_create_bytes, atomic_replace_bytes}
use doc_lattice.Transaction.{Entry, staged_artifacts, journal_stage_prefix}
use doc_lattice.Transaction.Artifacts.{
  is_exact, exact_journal_status, authenticate_staged_artifact, authenticate_transaction_artifacts,
  cleanup_transaction_artifacts,
}
use doc_lattice.Transaction.Rollback.{RollbackOutcome, rollback_prepared, is_rename_error}

-- _PreparedTransaction
pub record PreparedTransaction : Type 0 where
  pub entries : List Entry
  pub journal : FilePath
  pub journal_bytes : Bytes

module _ (sha256_hex : Bytes → Text) where
  abbrev pub authenticate_if : Bool → List Entry → Action (Unit {0})
  authenticate_if all entries =
      if all
      then authenticate_transaction_artifacts sha256_hex (staged_artifacts entries)
      else pure tt

  -- How _abort_prepared ends.
  abbrev pub raise_aborted : {A : Type 0} → Failure → Failure ⊎ RollbackOutcome → Action A
  raise_aborted primary (inl failure) = raise (rollback_failed primary failure)
  raise_aborted primary (inr outcome) =
      if is_empty outcome.unresolved
      then raise (rolled_back primary)
      else raise (rollback_incomplete primary outcome.unresolved)

  -- _abort_prepared
  unfoldable pub abort_prepared :
      {A : Type 0} → PreparedTransaction → Failure → List FilePath → Bool → Action A
  unfolding authenticate_transaction_artifacts rollback_prepared
  abort_prepared transaction primary candidates authenticate_all =
      attempt is_persistence (
        authenticate_if authenticate_all transaction.entries
        >> rollback_prepared sha256_hex transaction.entries transaction.journal
            transaction.journal_bytes (some candidates))
      >>= raise_aborted primary

  -- The end of _reset_prepared_journal: the journal is looked at once more.
  abbrev pub verify_reset : PreparedTransaction → Action (Unit {0})
  verify_reset transaction = do
    status ← exact_journal_status transaction.journal transaction.journal_bytes
    if is_exact status then pure tt else raise (reset_failed transaction.journal)

  abbrev pub then_verify : PreparedTransaction → Failure ⊎ Unit {0} → Action (Unit {0})
  then_verify transaction (inl failed) = raise (operation_failed transaction.journal)
  then_verify transaction (inr _) = verify_reset transaction

  abbrev pub reset_read : PreparedTransaction → Bytes → Failure ⊎ Bytes → Action (Unit {0})
  reset_read transaction committed_bytes (inl file_not_found) =
      attempt is_os_error
        (atomic_create_bytes transaction.journal transaction.journal_bytes journal_stage_prefix)
      >>= then_verify transaction
  reset_read transaction committed_bytes (inl failure) =
      raise (operation_failed transaction.journal)
  reset_read transaction committed_bytes (inr current) =
      if current == transaction.journal_bytes
      then pure tt
      else if not (current == committed_bytes)
      then raise (reset_failed transaction.journal)
      else attempt is_os_error
          (atomic_replace_bytes transaction.journal transaction.journal_bytes journal_stage_prefix)
        >>= then_verify transaction

  -- _reset_prepared_journal
  unfoldable pub reset_prepared_journal : PreparedTransaction → Bytes → Action (Unit {0})
  unfolding atomic_create_bytes atomic_replace_bytes exact_journal_status
  reset_prepared_journal transaction committed_bytes =
      attempt is_os_error (read_bytes transaction.journal)
      >>= reset_read transaction committed_bytes

  -- _abort_failed_marker
  abbrev pub after_reset :
      PreparedTransaction → Failure → List FilePath → Failure ⊎ Unit {0} → Action (Unit {0})
  after_reset transaction primary candidates (inl failure) =
      raise (rollback_not_attempted primary failure)
  after_reset transaction primary candidates (inr _) =
      abort_prepared transaction primary candidates true

  unfoldable pub abort_failed_marker :
      PreparedTransaction → Bytes → Failure → List FilePath → Action (Unit {0})
  unfolding reset_prepared_journal abort_prepared
  abort_failed_marker transaction committed_bytes primary candidates =
      attempt is_persistence (reset_prepared_journal transaction committed_bytes)
      >>= after_reset transaction primary candidates

  -- The body of the loop of _commit_rewrites_locked.
  abbrev pub applied :
      PreparedTransaction → Entry → List FilePath → Failure ⊎ Unit {0} → Action (Unit {0})
  applied transaction entry candidates (inl failed) =
      abort_prepared transaction (operation_failed entry.destination) candidates true
  applied transaction entry candidates (inr _) = pure tt

  abbrev pub apply_staged :
      PreparedTransaction → Entry → List FilePath → Failure ⊎ Bool → Action (Unit {0})
  apply_staged transaction entry candidates (inl failure) =
      abort_prepared transaction failure candidates false
  apply_staged transaction entry candidates (inr false) =
      abort_prepared transaction (operation_failed entry.destination) candidates false
  apply_staged transaction entry candidates (inr true) =
      attempt is_rename_error (replace_staged entry.after_path entry.destination)
      >>= applied transaction entry (entry.destination ∷ candidates)

  abbrev pub apply_fingerprint :
      PreparedTransaction → Entry → List FilePath → Failure ⊎ Text → Action (Unit {0})
  apply_fingerprint transaction entry candidates (inl failed) =
      abort_prepared transaction (operation_failed entry.destination) candidates true
  apply_fingerprint transaction entry candidates (inr current) =
      if not (current == entry.before_sha256)
      then abort_prepared transaction (changed_after_validation entry.destination) candidates true
      else attempt is_persistence
          (authenticate_staged_artifact sha256_hex entry.after_path entry.after_sha256)
        >>= apply_staged transaction entry candidates

  unfoldable pub apply_entry : PreparedTransaction → Entry → List FilePath → Action (Unit {0})
  unfolding abort_prepared authenticate_staged_artifact replace_staged file_sha256
  apply_entry transaction entry candidates =
      attempt is_os_error (file_sha256 sha256_hex entry.destination)
      >>= apply_fingerprint transaction entry candidates

  -- The loop of _commit_rewrites_locked, with the set `candidates`; it returns the set.
  unfoldable pub apply_entries :
      PreparedTransaction → List Entry → List FilePath → Action (List FilePath)
  unfolding apply_entry
  apply_entries transaction [] candidates = pure candidates
  apply_entries transaction (entry ∷ entries) candidates =
      apply_entry transaction entry candidates
      >> apply_entries transaction entries (entry.destination ∷ candidates)

  abbrev pub marked :
      PreparedTransaction → Bytes → List FilePath → Failure ⊎ Unit {0} → Action (Unit {0})
  marked transaction committed_bytes candidates (inl failed) =
      abort_failed_marker transaction committed_bytes (operation_failed transaction.journal)
        candidates
  marked transaction committed_bytes candidates (inr _) = pure tt

  -- The commit marker.
  unfoldable pub mark_committed : PreparedTransaction → Bytes → List FilePath → Action (Unit {0})
  unfolding abort_failed_marker atomic_replace_bytes
  mark_committed transaction committed_bytes candidates =
      attempt is_os_error
        (atomic_replace_bytes transaction.journal committed_bytes journal_stage_prefix)
      >>= marked transaction committed_bytes candidates

  -- _commit_rewrites_locked, from the prepared transaction on.
  unfoldable pub commit_prepared : PreparedTransaction → Bytes → Action (Unit {0})
  unfolding apply_entries mark_committed cleanup_transaction_artifacts
  commit_prepared transaction committed_bytes = do
    candidates ← apply_entries transaction transaction.entries []
    mark_committed transaction committed_bytes candidates
    cleanup_transaction_artifacts sha256_hex transaction.entries transaction.journal committed_bytes
