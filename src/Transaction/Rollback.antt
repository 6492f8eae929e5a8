-- ===== src/Transaction/Rollback.antt =====
-- reconcile_transaction.py: rolling prepared destinations back.
use doc_lattice.Prelude.{
  ◌⊎◌, inl, inr, Bool, true, false, ◌||◌, Option, none, some, List, [], ◌∷◌, ◌++◌, if◌then◌else◌,
  is_empty, ◌==◌, nat_eq, list_eq, option_eq, contains,
}
use doc_lattice.Text.{Text}
use doc_lattice.Disk.{
  Bytes, FilePath, Failure, file_not_found, is_os_error, is_value_error, unsafe_before,
  operation_failed, Action, pure, raise, ◌>>=◌, ◌>>◌, attempt,
}
use doc_lattice.Persistence.{file_sha256, replace_staged}
use doc_lattice.Transaction.{Entry}
use doc_lattice.Transaction.Artifacts.{authenticate_staged_artifact, cleanup_transaction_artifacts}

-- `_DestinationState`
pub data DestinationState : Type 0 where
  after before other : DestinationState

-- _RollbackOutcome
pub record RollbackOutcome : Type 0 where
  pub restored : List FilePath
  pub already_before : List FilePath
  pub unresolved : List FilePath
  pub untouched : List FilePath

abbrev pub classify_digest : Entry → Text → DestinationState
classify_digest entry current =
    if current == entry.after_sha256
    then after
    else if current == entry.before_sha256
    then before
    else other

abbrev pub classify_read : Entry → Failure ⊎ Text → Action DestinationState
classify_read entry (inl file_not_found) = pure other
classify_read entry (inl failure) = raise (operation_failed entry.destination)
classify_read entry (inr current) = pure (classify_digest entry current)

abbrev pub is_rename_error : Failure → Bool
is_rename_error failure = is_os_error failure || is_value_error failure

-- `candidates is None or entry.destination in candidates`
abbrev pub is_candidate : Option (List FilePath) → FilePath → Bool
is_candidate none path = true
is_candidate (some candidates) path = contains candidates path

-- What the loop of _rollback_prepared appends for an entry.
abbrev pub record_state :
    Option (List FilePath) → FilePath → DestinationState → RollbackOutcome → RollbackOutcome
record_state candidates path after so_far = record so_far {
  restored = so_far.restored ++ path ∷ [];
}
record_state candidates path before so_far = record so_far {
  already_before = so_far.already_before ++ path ∷ [];
}
record_state candidates path other so_far =
    if is_candidate candidates path
    then record so_far { unresolved = so_far.unresolved ++ path ∷ [] }
    else record so_far { untouched = so_far.untouched ++ path ∷ [] }

abbrev pub is_after : DestinationState → Bool
is_after after = true
is_after _ = false

abbrev pub nothing_yet : RollbackOutcome
nothing_yet = record { restored = []; already_before = []; unresolved = []; untouched = [] }

-- `reversed(entries)`
unfoldable pub reversed : List Entry → List Entry
reversed [] = []
reversed (entry ∷ entries) = reversed entries ++ entry ∷ []

module _ (sha256_hex : Bytes → Text) where
  -- _classify_destination
  unfoldable pub classify_destination : Entry → Action DestinationState
  unfolding file_sha256
  classify_destination entry =
      attempt is_os_error (file_sha256 sha256_hex entry.destination) >>= classify_read entry

  -- _restore_destination
  abbrev pub restore_present : Entry → Bool → Action (Unit {0})
  restore_present entry false = raise (unsafe_before entry.destination)
  restore_present entry true =
      attempt is_rename_error (replace_staged entry.before_path entry.destination) >>= λ outcome.
      elim outcome [ inl failed ↦ raise (operation_failed entry.destination) | inr _ ↦ pure tt ]

  unfoldable pub restore_destination : Entry → Action (Unit {0})
  unfolding authenticate_staged_artifact replace_staged
  restore_destination entry =
      authenticate_staged_artifact sha256_hex entry.before_path entry.before_sha256
      >>= restore_present entry

  abbrev pub restore_if_after : Entry → DestinationState → Action (Unit {0})
  restore_if_after entry state = if is_after state then restore_destination entry else pure tt

  -- The loop of _rollback_prepared, over the reversed entries.
  unfoldable pub rollback_entries :
      Option (List FilePath) → List Entry → RollbackOutcome → Action RollbackOutcome
  unfolding classify_destination restore_destination
  rollback_entries candidates [] so_far = pure so_far
  rollback_entries candidates (entry ∷ entries) so_far = do
    state ← classify_destination entry
    restore_if_after entry state
    rollback_entries candidates entries (record_state candidates entry.destination state so_far)

  abbrev pub finish_rollback :
      List Entry → FilePath → Bytes → RollbackOutcome → Action RollbackOutcome
  finish_rollback entries journal bytes outcome =
      if is_empty outcome.unresolved
      then (cleanup_transaction_artifacts sha256_hex entries journal bytes >> pure outcome)
      else pure outcome

  -- _rollback_prepared
  unfoldable pub rollback_prepared :
      List Entry → FilePath → Bytes → Option (List FilePath) → Action RollbackOutcome
  unfolding rollback_entries reversed cleanup_transaction_artifacts
  rollback_prepared entries journal bytes candidates =
      rollback_entries candidates (reversed entries) nothing_yet
      >>= finish_rollback entries journal bytes
