-- ===== src/Examples/Commits.antt =====
-- Tests and instances for the reconcile transaction.
use doc_lattice.Prelude.{
  ℕ, ◌≡◌, ◌≢◌, refl, ap, ◌∙◌, true, false, none, some, List, [], ◌∷◌, Memᴰ, if◌then◌else◌, ◌==◌,
  ==_iff, nat_eq, list_eq, option_eq, contains, list_beq,
}
use mathlib.Core.List.Memᴰ
use doc_lattice.Text.{Text, codes}
use doc_lattice.Disk.{
  Bytes, FilePath, regular, Disk, Fault, proceeds, fails, crashes, World, End, done, raised,
  crashed, node_at, read_bytes, lstat, replace, sync_directory, store, remove, mkstemp, write_bytes,
  unlink,
}
use doc_lattice.Transaction.{
  Entry, WireModels, JournalProvenance, all_documents, prepared, committed, parse_journal,
  validate_path_roles, artifact_name_fits, journal_path, journal_stage_prefix,
}
use doc_lattice.Transaction.Recover.{RecoveryResult, recover_transaction_locked}
use doc_lattice.Transaction.Commit.{commit_prepared}
use doc_lattice.Transaction.Staging.{helper_path}
use doc_lattice.Transaction.Conditions.{
  Watched, the_journal, a_destination, a_before, an_after, Condition, JournalIs, Apart,
}
use doc_lattice.Transaction.Recovering.{Readable, At}
use doc_lattice.Transaction.Lock.{
  ReconcileLock, Requested, require_reconcile_lock, Accepts, operation_lease, leased,
  operation_lease_excludes, leased_releases,
}
use doc_lattice.Disk.{lock_in_use}
use doc_lattice.Transaction.Disjoint.{validate_path_roles-Apart}
use doc_lattice.Transaction.Conditions.{Apart}
use doc_lattice.Transaction.Atomic.{
  Staged, commit-Repairable, start, Resolved, recoveries, commit-recover-Resolved, recover,
  Repairable, commit, commit-At, recover-Repairable, recover-Resolved,
}

abbrev digest : Bytes → Text
digest bytes = bytes

abbrev entry : Entry
entry = record {
  destination = codes "a.md" ∷ codes "docs" ∷ [];
  before_path = codes ".a.md.doc-lattice-before.x.tmp" ∷ codes "docs" ∷ [];
  before_sha256 = codes "old";
  after_path = codes ".a.md.doc-lattice-after.y.tmp" ∷ codes "docs" ∷ [];
  after_sha256 = codes "new";
}

abbrev entries : List Entry
entries = entry ∷ []

abbrev prepared_bytes : Bytes
prepared_bytes = codes "prepared"

abbrev committed_bytes : Bytes
committed_bytes = codes "committed"

abbrev provenance : JournalProvenance
provenance = record {
  created_at = codes "2026-01-01T00:00:00Z";
  tool_version = codes "1.0";
  selector = record { mode = all_documents; downstream_id = none; ref = none };
}

abbrev models : WireModels
models = record {
  probe = λ _. some 2;
  validate_v1 = λ _. none;
  validate_v2 = λ b. some (record {
    version = 2;
    state = if b == prepared_bytes then prepared else committed;
    provenance = provenance;
    entries = entries;
  });
}

readable : Readable entries journal_path prepared_bytes committed_bytes models
unfolding parse_journal validate_path_roles artifact_name_fits list_beq contains
readable = record {
  version = 2;
  provenance = some provenance;
  paths = entry.after_path ∷ entry.before_path ∷ [];
  reads_prepared = refl;
  reads_committed = refl;
  roles = refl;
  names_fit = λ e m. rw (Memᴰ.eq_of_singleton m) (refl, refl);
}

abbrev disk : Disk
disk = record {
  files =
      (entry.destination, regular 1 (codes "old"))
      ∷ (entry.before_path, regular 2 (codes "old"))
      ∷ (entry.after_path, regular 3 (codes "new"))
      ∷ (journal_path, regular 4 prepared_bytes)
      ∷ [];
  names = (5, codes "q") ∷ [];
}

differ : (p q : FilePath) → (p == q) ≡ false → p ≢ q
differ p q apart same = cc ((==_iff p q).1 same)

distinct_texts : (p q : Text) → (p == q) ≡ false → p ≢ q
distinct_texts p q apart same = cc ((==_iff p q).1 same)

abbrev helper : FilePath
helper = helper_path journal_path journal_stage_prefix (codes "q")

helper-unwatched : ¬ (Watched entries journal_path helper)
unfolding list_beq
helper-unwatched (the_journal e) = differ helper journal_path refl e
helper-unwatched (a_destination x m e) =
    differ helper entry.destination refl
      (e ∙ ap (λ (y : Entry). y.destination) (Memᴰ.eq_of_singleton m))
helper-unwatched (a_before x m e) =
    differ helper entry.before_path refl
      (e ∙ ap (λ (y : Entry). y.before_path) (Memᴰ.eq_of_singleton m))
helper-unwatched (an_after x m e) =
    differ helper entry.after_path refl
      (e ∙ ap (λ (y : Entry). y.after_path) (Memᴰ.eq_of_singleton m))

ready : Condition entries journal_path (Staged digest) (JournalIs prepared_bytes) disk
unfolding node_at list_beq
ready = record {
  reserved =
      λ inode random m. rw (ap (λ (p : ℕ × Text). p.1) (Memᴰ.eq_of_singleton m)) helper-unwatched;
  entry_holds = λ e m. rw (Memᴰ.eq_of_singleton m) (refl, refl, refl);
  journal_holds = (4, refl);
}

changes : (e : Entry) → Memᴰ e entries → e.before_sha256 ≢ e.after_sha256
unfolding list_beq
changes e m =
    rw (Memᴰ.eq_of_singleton m) (distinct_texts entry.before_sha256 entry.after_sha256 refl)

different : prepared_bytes ≢ committed_bytes
unfolding list_beq
different = distinct_texts prepared_bytes committed_bytes refl

-- The commit is killed at its fifth call.
abbrev broken_commit : List Fault
broken_commit = proceeds ∷ proceeds ∷ proceeds ∷ proceeds ∷ crashes ∷ []

-- One recovery fails at its third call, and the next is killed at its second.
abbrev broken_recoveries : List (List Fault)
broken_recoveries = (proceeds ∷ proceeds ∷ fails ∷ []) ∷ (proceeds ∷ crashes ∷ []) ∷ []

abbrev run_commit : List Fault → End (Unit {0}) × World
run_commit schedule =
    commit digest models entries journal_path prepared_bytes committed_bytes readable changes
      different (start schedule disk)

abbrev run_recover : Disk → End RecoveryResult × World
run_recover d =
    recover digest models entries journal_path prepared_bytes committed_bytes readable changes
      different (start [] d)

abbrev IsRepairable : Disk → Type 0
IsRepairable =
    Repairable digest models entries journal_path prepared_bytes committed_bytes readable changes
      different

abbrev IsResolved : Disk → Type 0
IsResolved =
    Resolved digest models entries journal_path prepared_bytes committed_bytes readable changes
      different

abbrev is_apart : Apart entries journal_path
is_apart =
    validate_path_roles-Apart entries journal_path readable.paths readable.roles readable.names_fit
      changes

abbrev IsAt : (Entry → Text) → Disk → Type 0
IsAt = At digest entries journal_path is_apart prepared_bytes committed_bytes different

broken-IsRepairable : IsRepairable (run_commit broken_commit).1.disk
broken-IsRepairable =
    commit-Repairable digest models entries journal_path prepared_bytes committed_bytes readable
      changes different (start broken_commit disk) ready

commit-Repairable_example : IsRepairable (run_commit broken_commit).1.disk
commit-Repairable_example =
    commit-Repairable digest models entries journal_path prepared_bytes committed_bytes readable
      changes different (start broken_commit disk) ready

abbrev after_recoveries : Disk
after_recoveries =
    recoveries digest models entries journal_path prepared_bytes committed_bytes readable changes
      different broken_recoveries (run_commit broken_commit).1.disk

commit-recover-Resolved_example :
    (result : RecoveryResult) × (w : World) × (run_recover after_recoveries ≡ (done result, w))
    × IsResolved w.disk
commit-recover-Resolved_example =
    commit-recover-Resolved digest models entries journal_path prepared_bytes committed_bytes
      readable changes different (start broken_commit disk) broken_recoveries ready

commit_returns : (run_commit []).0 ≡ done tt
unfolding commit_prepared list_beq node_at read_bytes lstat replace sync_directory store remove
    mkstemp write_bytes unlink
commit_returns = refl

commit-At_example : IsAt (λ e. e.after_sha256) (run_commit []).1.disk
commit-At_example =
    commit-At digest models entries journal_path prepared_bytes committed_bytes readable changes
      different (start [] disk) ready commit_returns

recover-Resolved_example :
    (result : RecoveryResult) × (w : World) × (run_recover (run_commit broken_commit).1.disk
      ≡ (done result, w))
    × IsResolved w.disk
recover-Resolved_example =
    recover-Resolved digest models entries journal_path prepared_bytes committed_bytes readable
      changes different (run_commit broken_commit).1.disk broken-IsRepairable

recover-Repairable_example :
    IsRepairable
      (recover digest models entries journal_path prepared_bytes committed_bytes readable changes
        different
        (start (proceeds ∷ fails ∷ []) (run_commit broken_commit).1.disk)).1.disk
recover-Repairable_example =
    recover-Repairable digest models entries journal_path prepared_bytes committed_bytes readable
      changes different (start (proceeds ∷ fails ∷ []) (run_commit broken_commit).1.disk)
      broken-IsRepairable

validate_path_roles-Apart_example : Apart entries journal_path
validate_path_roles-Apart_example =
    validate_path_roles-Apart entries journal_path readable.paths readable.roles readable.names_fit
      changes

abbrev lock : ReconcileLock
lock = record { project_root = []; directory_identity = 7; active = true; in_use = false }

abbrev requested : Requested
requested = record { resolved = some []; identity = some 7 }

accepted : Accepts lock requested
unfolding require_reconcile_lock list_beq
accepted = refl

abbrev world : World
world = start [] (run_commit broken_commit).1.disk

abbrev run : World → End RecoveryResult × World
run = recover_transaction_locked digest models journal_path

recovered :
    (result : RecoveryResult) × (w : World) × (run_recover world.disk ≡ (done result, w))
    × IsResolved w.disk
recovered =
    recover-Resolved digest models entries journal_path prepared_bytes committed_bytes readable
      changes different world.disk broken-IsRepairable

run_returns : (run world).0 ≢ crashed
run_returns e =
    let (result, w, same, resolved) = recovered in
    cc (ap (λ (r : End RecoveryResult × World). r.0) same)

operation_lease_excludes_example :
    operation_lease requested (operation_lease requested (leased requested run)) (lock, world)
    ≡ (raised lock_in_use, lock, world)
operation_lease_excludes_example =
    operation_lease_excludes requested lock accepted refl (leased requested run) world

leased_releases_example : leased requested run (lock, world) ≡ ((run world).0, lock, (run world).1)
leased_releases_example = leased_releases requested lock accepted refl run world run_returns
