-- ===== src/Transaction/Recover.antt =====
-- reconcile_transaction.py: loading a journal, and recovery after an interruption.
use doc_lattice.Prelude.{
  ℕ, ◌⊎◌, inl, inr, Bool, true, false, not, ◌&&◌, ◌||◌, Option, none, some, List, [], ◌∷◌, length,
  if◌then◌else◌, is_empty, nat_eq, list_eq, option_eq, contains,
}
use doc_lattice.Text.{Text}
use doc_lattice.Dict.{keys}
use doc_lattice.Disk.{
  Bytes, FilePath, base_name, Node, regular, irregular, Failure, file_not_found, is_os_error,
  is_value_error, unsafe_path, invalid_journal, Action, pure, raise, ◌>>=◌, ◌>>◌, attempt, lstat,
  read_bytes,
}
use doc_lattice.Transaction.{
  Entry, JournalState, prepared, committed, LoadedJournal, WireModels, JournalProvenance,
  parse_journal, staged_artifacts, validate_path_roles, artifact_name_fits, before_infix,
  after_infix, is_transaction_artifact_name,
}
use doc_lattice.Transaction.Artifacts.{
  authenticate_transaction_artifacts, cleanup_transaction_artifacts,
}
use doc_lattice.Transaction.Rollback.{RollbackOutcome, rollback_prepared}

-- The end of _validate_artifact_path: the image is a regular file or absent.
abbrev pub check_artifact_node : FilePath → Failure ⊎ Node → Action (Unit {0})
check_artifact_node artifact (inl file_not_found) = pure tt
check_artifact_node artifact (inl failure) = raise (unsafe_path artifact)
check_artifact_node artifact (inr irregular) = raise (unsafe_path artifact)
check_artifact_node artifact (inr (regular inode bytes)) = pure tt

-- _validate_artifact_path
unfoldable pub validate_artifact_path : FilePath → FilePath → Text → Action (Unit {0})
unfolding artifact_name_fits
validate_artifact_path destination artifact infix_text =
    if not (artifact_name_fits destination artifact infix_text)
    then raise (unsafe_path artifact)
    else attempt is_os_error (lstat artifact) >>= check_artifact_node artifact

-- The last loop of _load_journal.
unfoldable pub validate_artifact_paths : List Entry → Action (Unit {0})
unfolding validate_artifact_path
validate_artifact_paths [] = pure tt
validate_artifact_paths (entry ∷ entries) = do
  validate_artifact_path entry.destination entry.before_path before_infix
  validate_artifact_path entry.destination entry.after_path after_infix
  validate_artifact_paths entries

-- _journal_is_present
abbrev pub present_node : Failure ⊎ Node → Action Bool
present_node (inl file_not_found) = pure false
present_node (inl failure) = raise invalid_journal
present_node (inr irregular) = raise invalid_journal
present_node (inr (regular inode bytes)) = pure true

unfoldable pub journal_is_present : FilePath → Action Bool
journal_is_present journal = attempt is_os_error (lstat journal) >>= present_node

abbrev pub or_invalid : {A : Type 0} → Failure ⊎ A → Action A
or_invalid (inl failure) = raise invalid_journal
or_invalid (inr value) = pure value

module _ (models : WireModels) where
  abbrev pub load_present : FilePath → Bool → Action (LoadedJournal × Bytes)
  load_present journal false = raise invalid_journal
  load_present journal true = do
    encoded ← attempt is_os_error (read_bytes journal) >>= or_invalid
    loaded ← or_invalid (parse_journal models encoded)
    or_invalid (validate_path_roles loaded.entries journal)
    attempt is_value_error (validate_artifact_paths loaded.entries) >>= or_invalid
    pure (loaded, encoded)

  -- _load_journal
  unfoldable pub load_journal : FilePath → Action (LoadedJournal × Bytes)
  unfolding journal_is_present
  load_journal journal = journal_is_present journal >>= load_present journal

-- `RecoveryAction`
pub data RecoveryAction : Type 0 where
  nothing rolled_back partially_rolled_back cleaned_committed : RecoveryAction

-- RecoveryResult, without the failures of the directory walk.
pub record RecoveryResult : Type 0 where
  pub action : RecoveryAction
  pub restored : ℕ
  pub already_before : ℕ
  pub unresolved : List FilePath
  pub orphans : List FilePath
  pub journal_version : Option ℕ
  pub provenance : Option JournalProvenance

-- RecoveryResult.is_incomplete
unfoldable pub is_incomplete : RecoveryResult → Bool
is_incomplete result = not (is_empty result.unresolved) || not (is_empty result.orphans)

-- _retained_artifacts
unfoldable pub retained_artifacts : List Entry → FilePath → List FilePath
retained_artifacts [] journal = journal ∷ []
retained_artifacts (entry ∷ entries) journal =
    entry.before_path ∷ entry.after_path ∷ retained_artifacts entries journal

-- The loop of _scan_orphan_artifacts over the paths that the walk names.
unfoldable pub orphans_among : List FilePath → List FilePath → List FilePath
unfolding is_transaction_artifact_name
orphans_among [] referenced = []
orphans_among (path ∷ paths) referenced =
    let later = orphans_among paths referenced in
    if is_transaction_artifact_name (base_name path) && not (contains referenced path)
    then path ∷ later
    else later

-- _scan_orphan_artifacts, which reads the names of all files.
unfoldable pub scan_orphan_artifacts : List FilePath → Action (List FilePath)
unfolding orphans_among keys
scan_orphan_artifacts referenced w = pure (orphans_among (keys w.disk.files) referenced) w

-- The three results of _recover_transaction_locked.
abbrev pub result_none : List FilePath → RecoveryResult
result_none orphans = record {
  action = nothing;
  restored = 0;
  already_before = 0;
  unresolved = [];
  orphans = orphans;
  journal_version = none;
  provenance = none;
}

abbrev pub result_committed : LoadedJournal → List FilePath → RecoveryResult
result_committed loaded orphans = record {
  action = cleaned_committed;
  restored = 0;
  already_before = 0;
  unresolved = [];
  orphans = orphans;
  journal_version = some loaded.version;
  provenance = loaded.provenance;
}

abbrev pub result_prepared : LoadedJournal → RollbackOutcome → List FilePath → RecoveryResult
result_prepared loaded outcome orphans = record {
  action = if is_empty outcome.unresolved then rolled_back else partially_rolled_back;
  restored = length outcome.restored;
  already_before = length outcome.already_before;
  unresolved = outcome.unresolved;
  orphans = orphans;
  journal_version = some loaded.version;
  provenance = loaded.provenance;
}

module _ (sha256_hex : Bytes → Text) (models : WireModels) where
  abbrev pub recover_state : FilePath → LoadedJournal → Bytes → JournalState → Action RecoveryResult
  recover_state journal loaded bytes committed = do
    cleanup_transaction_artifacts sha256_hex loaded.entries journal bytes
    orphans ← scan_orphan_artifacts []
    pure (result_committed loaded orphans)
  recover_state journal loaded bytes prepared = do
    outcome ← rollback_prepared sha256_hex loaded.entries journal bytes none
    orphans ←
        scan_orphan_artifacts
          (if is_empty outcome.unresolved then [] else retained_artifacts loaded.entries journal)
    pure (result_prepared loaded outcome orphans)

  abbrev pub recover_loaded : FilePath → LoadedJournal × Bytes → Action RecoveryResult
  recover_loaded journal (loaded, bytes) =
      authenticate_transaction_artifacts sha256_hex (staged_artifacts loaded.entries)
      >> recover_state journal loaded bytes loaded.state

  abbrev pub recover_present : FilePath → Bool → Action RecoveryResult
  recover_present journal false = do orphans ← scan_orphan_artifacts []; pure (result_none orphans)
  recover_present journal true = load_journal models journal >>= recover_loaded journal

  -- _recover_transaction_locked
  unfoldable pub recover_transaction_locked : FilePath → Action RecoveryResult
  unfolding journal_is_present load_journal
  recover_transaction_locked journal = journal_is_present journal >>= recover_present journal
