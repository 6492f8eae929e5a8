-- ===== src/Transaction.antt =====
-- reconcile_transaction.py: the journal and its entries, and what is asked of them without a file.
-- The names of the staged images, the roles of the paths, and the versions of the wire format.
pub mod Artifacts
pub mod Runs
pub mod Calls
pub mod Lock
pub mod Atomic
pub mod Disjoint
pub mod Roles
pub mod Recovering
pub mod Recovery
pub mod Redo
pub mod Abort
pub mod Mark
pub mod Undo
pub mod Classify
pub mod Renames
pub mod Restoring
pub mod Applying
pub mod Cleanup
pub mod Moves
pub mod Conditions
pub mod Publishing
pub mod Staging
pub mod Images
pub mod Removals
pub mod Rollback
pub mod Recover
pub mod Commit
use doc_lattice.Prelude.{
  ℕ, zero, suc, ◌+◌, ◌-◌, ◌≤◌, ◌<◌, ◌≡◌, ◌≢◌, ◌↔◌, ◌⊎◌, inl, inr, ⊎_elim, refl, sym, ap, ◌∙◌, subst,
  Bool, true, false, not, ◌&&◌, ◌||◌, Option, none, some, List, [], ◌∷◌, ◌++◌, map, Memᴰ, Memᴰ-cons,
  Memᴰ-append, All, All-append, length, length-append, length-map, take, drop, arith, ltb, leb,
  nat_eqb, nat_eqb_iff, if◌then◌else◌, is_some, is_empty, Bool-cases, Option-cases, List-cases, Eq,
  ◌==◌, ==_iff, ==_refl, nat_eq, list_eq, option_eq, contains, contains_iff,
}
use doc_lattice.Text.{Text, codes}
use doc_lattice.Disk.{
  Bytes, FilePath, parent, base_name, Failure, alias_of_journal, alias_of_destination,
  alias_of_artifact, unsafe_path, unsupported_version, invalid_journal,
}
use doc_lattice.Persistence.{temp_suffix}

-- `_JOURNAL_STAGE_PREFIX`
abbrev pub journal_stage_prefix : Text
journal_stage_prefix = codes ".doc-lattice-reconcile.json."

abbrev pub journal_name : Text
journal_name = codes ".doc-lattice-reconcile.json"

-- _journal_path
abbrev pub journal_path : FilePath
journal_path = journal_name ∷ []

-- _ResolvedEntry
pub record Entry : Type 0 where
  pub destination : FilePath
  pub before_path : FilePath
  pub before_sha256 : Text
  pub after_path : FilePath
  pub after_sha256 : Text

pub data JournalState : Type 0 where
  prepared committed : JournalState

-- ReconcileSelectorMode
pub data SelectorMode : Type 0 where
  downstream all_documents : SelectorMode

pub record JournalSelector : Type 0 where
  pub mode : SelectorMode
  pub downstream_id : Option Text
  pub ref : Option Text

pub record JournalProvenance : Type 0 where
  pub created_at : Text
  pub tool_version : Text
  pub selector : JournalSelector

-- _LoadedJournal, with its entries resolved.
pub record LoadedJournal : Type 0 where
  pub version : ℕ
  pub state : JournalState
  pub entries : List Entry
  pub provenance : Option JournalProvenance

-- JournalV1 and JournalV2, with their entries resolved.
pub record JournalV1 : Type 0 where
  pub version : ℕ
  pub state : JournalState
  pub entries : List Entry

pub record JournalV2 : Type 0 where
  pub version : ℕ
  pub state : JournalState
  pub provenance : JournalProvenance
  pub entries : List Entry

-- JournalSelector._reject_mode_and_downstream_id_disagreement: whether the selector is accepted.
abbrev pub has_id : Option Text → Bool
has_id none = false
has_id (some id) = not (is_empty id)

abbrev pub agrees : SelectorMode → Option Text → Bool
agrees downstream id = has_id id
agrees all_documents id = not (is_some id)

unfoldable pub selector_agrees : JournalSelector → Bool
selector_agrees selector = agrees selector.mode selector.downstream_id

-- The wire models, which validate the decoded text: `none` is a ValidationError.
pub record WireModels : Type 0 where
  pub probe : Bytes → Option ℕ
  pub validate_v1 : Bytes → Option JournalV1
  pub validate_v2 : Bytes → Option JournalV2

abbrev pub read_v1 : Option JournalV1 → Failure ⊎ LoadedJournal
read_v1 none = inl invalid_journal
read_v1 (some legacy) = inr (record {
  version = legacy.version;
  state = legacy.state;
  entries = legacy.entries;
  provenance = none;
})

abbrev pub read_v2 : Option JournalV2 → Failure ⊎ LoadedJournal
read_v2 none = inl invalid_journal
read_v2 (some current) = inr (record {
  version = current.version;
  state = current.state;
  entries = current.entries;
  provenance = some current.provenance;
})

-- _parse_journal, the models of the wire being a parameter.
abbrev pub parse_version : WireModels → Bytes → Option ℕ → Failure ⊎ LoadedJournal
parse_version models decoded none = inl invalid_journal
parse_version models decoded (some version) =
    if version == 1
    then read_v1 (models.validate_v1 decoded)
    else if version == 2
    then read_v2 (models.validate_v2 decoded)
    else inl unsupported_version

unfoldable pub parse_journal : WireModels → Bytes → Failure ⊎ LoadedJournal
parse_journal models decoded = parse_version models decoded (models.probe decoded)

-- _staged_artifacts
abbrev pub Artifact : Type 0
Artifact = FilePath × Text × FilePath

unfoldable pub staged_artifacts : List Entry → List Artifact
staged_artifacts [] = []
staged_artifacts (entry ∷ entries) =
    (entry.before_path, entry.before_sha256, entry.destination)
    ∷ (entry.after_path, entry.after_sha256, entry.destination)
    ∷ staged_artifacts entries

-- The first loop of _validate_path_roles. `seen` is the dict `destinations`.
unfoldable pub check_destinations : FilePath → List Entry → List FilePath → Failure ⊎ List FilePath
check_destinations journal [] seen = inr seen
check_destinations journal (entry ∷ entries) seen =
    let rest = check_destinations journal entries (entry.destination ∷ seen) in
    if entry.destination == journal
    then inl (alias_of_journal entry.destination)
    else if contains seen entry.destination
    then inl (alias_of_destination entry.destination)
    else rest

-- Its second loop, over the two stages of each entry. `seen` is the dict `artifacts`.
unfoldable pub check_artifacts :
    FilePath → List FilePath → List FilePath → List FilePath → Failure ⊎ List FilePath
check_artifacts journal destinations [] seen = inr seen
check_artifacts journal destinations (artifact ∷ artifacts) seen =
    let rest = check_artifacts journal destinations artifacts (artifact ∷ seen) in
    if artifact == journal
    then inl (alias_of_journal artifact)
    else if contains destinations artifact
    then inl (alias_of_destination artifact)
    else if contains seen artifact
    then inl (alias_of_artifact artifact)
    else rest

unfoldable pub artifact_paths : List Entry → List FilePath
artifact_paths [] = []
artifact_paths (entry ∷ entries) = entry.before_path ∷ entry.after_path ∷ artifact_paths entries

-- _validate_path_roles
abbrev pub artifacts_after :
    FilePath → List Entry → Failure ⊎ List FilePath → Failure ⊎ List FilePath
artifacts_after journal entries (inl failure) = inl failure
artifacts_after journal entries (inr destinations) =
    check_artifacts journal destinations (artifact_paths entries) []

unfoldable pub validate_path_roles : List Entry → FilePath → Failure ⊎ List FilePath
unfolding check_destinations check_artifacts artifact_paths
validate_path_roles entries journal =
    artifacts_after journal entries (check_destinations journal entries [])

-- `name.startswith(prefix)`
unfoldable pub starts_with : Text → Text → Bool
starts_with name [] = true
starts_with [] (c ∷ prefix) = false
starts_with (d ∷ name) (c ∷ prefix) = d == c && starts_with name prefix

-- `name.endswith(suffix)`
unfoldable pub ends_with : Text → Text → Bool
unfolding starts_with
ends_with [] suffix = is_empty suffix
ends_with (c ∷ name) suffix = (c ∷ name) == suffix || ends_with name suffix

-- `infix in name`
unfoldable pub has_infix : Text → Text → Bool
unfolding starts_with
has_infix [] part = is_empty part
has_infix (c ∷ name) part = starts_with (c ∷ name) part || has_infix name part

-- `RECONCILE_BEFORE_IMAGE_INFIX` and `RECONCILE_AFTER_IMAGE_INFIX`
abbrev pub before_infix : Text
before_infix = codes ".doc-lattice-before."

abbrev pub after_infix : Text
after_infix = codes ".doc-lattice-after."

-- _is_transaction_artifact_name
unfoldable pub is_transaction_artifact_name : Text → Bool
unfolding starts_with ends_with has_infix
is_transaction_artifact_name name =
    if not (ends_with name temp_suffix)
    then false
    else if starts_with name journal_stage_prefix
    then true
    else starts_with name (codes ".") && (has_infix name before_infix || has_infix name after_infix)

-- The prefix of the staged image of a destination: `f".{destination.name}{infix}"`.
abbrev pub stage_prefix : FilePath → Text → Text
stage_prefix destination infix_text = codes "." ++ (base_name destination ++ infix_text)

-- The two checks of _validate_artifact_path that read no file.
unfoldable pub artifact_name_fits : FilePath → FilePath → Text → Bool
unfolding starts_with ends_with
artifact_name_fits destination artifact infix_text =
    let prefix = stage_prefix destination infix_text in
    let name = base_name artifact in
    parent artifact == parent destination
    && starts_with name prefix
    && ends_with name temp_suffix
    && ltb (length prefix + length temp_suffix) (length name)
