-- ===== src/Transaction/Artifacts.antt =====
-- reconcile_transaction.py: the checks and the cleaning of staged images and of the journal.
use doc_lattice.Prelude.{
  ℕ, ◌⊎◌, inl, inr, Bool, true, false, not, List, [], ◌∷◌, if◌then◌else◌, ◌==◌, nat_eq, list_eq,
  option_eq,
}
use doc_lattice.Text.{Text}
use doc_lattice.Disk.{
  Bytes, FilePath, Node, regular, irregular, parent, Failure, file_not_found, is_os_error,
  unsafe_artifact, operation_failed, unverified_journal, Action, pure, raise, ◌>>=◌, ◌>>◌, attempt,
  lstat, read_bytes, sync_directory,
}
use doc_lattice.Persistence.{file_sha256, durable_unlink, atomic_create_bytes}
use doc_lattice.Transaction.{Artifact, Entry, staged_artifacts, journal_stage_prefix}

-- `_JournalStatus`
pub data JournalStatus : Type 0 where
  absent invalid exact : JournalStatus

abbrev pub is_exact : JournalStatus → Bool
is_exact exact = true
is_exact _ = false

abbrev pub is_absent : JournalStatus → Bool
is_absent absent = true
is_absent _ = false

-- What _exact_journal_status makes of `lstat` and of `read_bytes`.
abbrev pub status_of_bytes : Bytes → Failure ⊎ Bytes → JournalStatus
status_of_bytes expected (inl failure) = invalid
status_of_bytes expected (inr current) = if current == expected then exact else invalid

abbrev pub status_of_node : FilePath → Bytes → Failure ⊎ Node → Action JournalStatus
status_of_node journal expected (inl file_not_found) = pure absent
status_of_node journal expected (inl failure) = pure invalid
status_of_node journal expected (inr irregular) = pure invalid
status_of_node journal expected (inr (regular inode bytes)) = do
  current ← attempt is_os_error (read_bytes journal)
  pure (status_of_bytes expected current)

unfoldable pub exact_journal_status : FilePath → Bytes → Action JournalStatus
exact_journal_status journal expected =
    attempt is_os_error (lstat journal) >>= status_of_node journal expected

-- The second `lstat` of _authenticate_staged_artifact, and what is compared after it.
abbrev pub same_identity : ℕ → Node → Bool
same_identity inode (regular verified bytes) = verified == inode
same_identity inode irregular = false

abbrev pub verify_identity : FilePath → ℕ → Text → Text → Failure ⊎ Node → Action Bool
verify_identity staged inode expected actual (inl file_not_found) = pure false
verify_identity staged inode expected actual (inl failure) = raise (unsafe_artifact staged)
verify_identity staged inode expected actual (inr node) =
    if not (same_identity inode node)
    then raise (unsafe_artifact staged)
    else if not (actual == expected)
    then raise (unsafe_artifact staged)
    else pure true

abbrev pub verify_digest : FilePath → ℕ → Text → Failure ⊎ Text → Action Bool
verify_digest staged inode expected (inl file_not_found) = pure false
verify_digest staged inode expected (inl failure) = raise (unsafe_artifact staged)
verify_digest staged inode expected (inr actual) =
    attempt is_os_error (lstat staged) >>= verify_identity staged inode expected actual

-- _resync_after_unlink: whether the path is durably gone after all. `path.exists()` is `lstat` here,
-- and an error of it means absence, as in pathlib.
abbrev pub still_absent : Failure ⊎ Node → Action Bool
still_absent (inl file_not_found) = pure true
still_absent _ = pure false

abbrev pub resync : FilePath → Failure ⊎ Node → Action Bool
resync path (inr node) = pure false
resync path (inl failure) = attempt is_os_error (sync_directory (parent path)) >>= λ synced.
    elim synced [
      | inl failed ↦ pure false
      | inr _ ↦ attempt is_os_error (lstat path) >>= still_absent
    ]

unfoldable pub resync_after_unlink : FilePath → Action Bool
resync_after_unlink path = attempt is_os_error (lstat path) >>= resync path

-- What _cleanup_staged_artifact does when the image is absent, and when it is there.
abbrev pub check_absence : FilePath → Failure ⊎ Node → Action (Unit {0})
check_absence staged (inl file_not_found) = pure tt
check_absence staged _ = raise (unsafe_artifact staged)

abbrev pub cleanup_present : FilePath → Bool → Action (Unit {0})
cleanup_present staged false = attempt is_os_error (sync_directory (parent staged)) >>= λ synced.
    elim synced [
      | inl failed ↦ raise (operation_failed staged)
      | inr _ ↦ attempt is_os_error (lstat staged) >>= check_absence staged
    ]
cleanup_present staged true = attempt is_os_error (durable_unlink staged) >>= λ outcome.
    elim outcome [
      | inl failed ↦ resync_after_unlink staged >>= λ gone.
          if gone then pure tt else raise (operation_failed staged)
      | inr _ ↦ pure tt
    ]

-- _restore_journal
abbrev pub restore_absent : FilePath → Bytes → JournalStatus → Action Bool
restore_absent journal bytes exact = pure true
restore_absent journal bytes invalid = pure false
restore_absent journal bytes absent = do
  attempt is_os_error (atomic_create_bytes journal bytes journal_stage_prefix)
  status ← exact_journal_status journal bytes
  pure (is_exact status)

unfoldable pub restore_journal : FilePath → Bytes → Action Bool
unfolding exact_journal_status
restore_journal journal bytes = exact_journal_status journal bytes >>= restore_absent journal bytes

-- _cleanup_journal
abbrev pub cleanup_exact : FilePath → Bytes → Bool → Action (Unit {0})
cleanup_exact journal bytes false = raise (unverified_journal journal)
cleanup_exact journal bytes true = attempt is_os_error (durable_unlink journal) >>= λ outcome.
    elim outcome [
      | inr _ ↦ pure tt
      | inl failed ↦ resync_after_unlink journal >>= λ gone.
          if gone
          then pure tt
          else (restore_journal journal bytes >> raise (operation_failed journal))
    ]

unfoldable pub cleanup_journal : FilePath → Bytes → Action (Unit {0})
unfolding exact_journal_status resync_after_unlink restore_journal durable_unlink
cleanup_journal journal bytes =
    exact_journal_status journal bytes >>= λ status. cleanup_exact journal bytes (is_exact status)

module _ (sha256_hex : Bytes → Text) where
  abbrev pub verify_node : FilePath → Text → Failure ⊎ Node → Action Bool
  verify_node staged expected (inl file_not_found) = pure false
  verify_node staged expected (inl failure) = raise (unsafe_artifact staged)
  verify_node staged expected (inr irregular) = raise (unsafe_artifact staged)
  verify_node staged expected (inr (regular inode bytes)) =
      attempt is_os_error (file_sha256 sha256_hex staged) >>= verify_digest staged inode expected

  -- _authenticate_staged_artifact: whether the image is there; raised when it is not the expected one.
  unfoldable pub authenticate_staged_artifact : FilePath → Text → Action Bool
  unfolding file_sha256
  authenticate_staged_artifact staged expected =
      attempt is_os_error (lstat staged) >>= verify_node staged expected

  -- _authenticate_transaction_artifacts
  unfoldable pub authenticate_transaction_artifacts : List Artifact → Action (Unit {0})
  unfolding authenticate_staged_artifact
  authenticate_transaction_artifacts [] = pure tt
  authenticate_transaction_artifacts ((staged, expected, destination) ∷ artifacts) =
      authenticate_staged_artifact staged expected >> authenticate_transaction_artifacts artifacts

  -- _cleanup_staged_artifact
  unfoldable pub cleanup_staged_artifact : FilePath → Text → Action (Unit {0})
  unfolding authenticate_staged_artifact resync_after_unlink durable_unlink
  cleanup_staged_artifact staged expected =
      authenticate_staged_artifact staged expected >>= cleanup_present staged

  unfoldable pub cleanup_staged_artifacts : List Artifact → Action (Unit {0})
  unfolding cleanup_staged_artifact
  cleanup_staged_artifacts [] = pure tt
  cleanup_staged_artifacts ((staged, expected, destination) ∷ artifacts) =
      cleanup_staged_artifact staged expected >> cleanup_staged_artifacts artifacts

  -- _cleanup_transaction_artifacts
  unfoldable pub cleanup_transaction_artifacts : List Entry → FilePath → Bytes → Action (Unit {0})
  unfolding authenticate_transaction_artifacts cleanup_staged_artifacts cleanup_journal
      staged_artifacts
  cleanup_transaction_artifacts entries journal bytes = do
    authenticate_transaction_artifacts (staged_artifacts entries)
    cleanup_staged_artifacts (staged_artifacts entries)
    cleanup_journal journal bytes
