-- ===== src/Transaction/Mark.antt =====
-- Marking the journal committed, and the whole commit, under a schedule.
use doc_lattice.Prelude.{
  ℕ, ◌≡◌, ◌≢◌, ◌⊎◌, inl, inr, refl, sym, ◌∙◌, true, Option, some, List, [], if◌then◌else◌,
  Bool-cases, ◌==◌, ==_iff, nat_eq, list_eq, option_eq,
}
use mathlib.Core.List.Memᴰ
use doc_lattice.Text.{Text}
use doc_lattice.Disk.{
  Bytes, FilePath, Node, regular, Disk, World, Failure, is_os_error, is_persistence, node_at, pure,
  raise, reset_failed,
}
use doc_lattice.Persistence.{atomic_replace_bytes}
use doc_lattice.Transaction.{Entry, journal_stage_prefix}
use doc_lattice.Transaction.Artifacts.{is_exact, JournalStatus, exact, absent, invalid}
use doc_lattice.Transaction.Runs.{Calm, Ends, resume-Ends, weaken, relax, try-Ends}
use doc_lattice.Transaction.Calls.{Plain, Missing-is_os_error, read-Ends}
use doc_lattice.Transaction.Images.{HashesTo-Fits}
use doc_lattice.Transaction.Conditions.{
  Apart, Watched, Condition, Condition-Guarded, Settled, JournalIs, NoJournal,
}
use doc_lattice.Transaction.Moves.{store_journal}
use doc_lattice.Transaction.Publishing.{atomic_replace_bytes-Ends}
use doc_lattice.Transaction.Cleanup.{
  Loose, Report, exact_journal_status-Ends, cleanup_transaction-Ends,
}
use doc_lattice.Transaction.Commit.{
  PreparedTransaction, verify_reset, reset_read, reset_prepared_journal, abort_failed_marker,
  mark_committed, commit_prepared,
}
use doc_lattice.Transaction.Abort
use doc_lattice.Transaction.Redo
use doc_lattice.Transaction.Abort.{abort_prepared-Ends}
use doc_lattice.Transaction.Redo.{Progress, apply_entries-Ends}

module _ (sha256_hex : Bytes → Text) (Noisy : Type 0) (entries : List Entry) (journal : FilePath)
    (apart : Apart entries journal) (bytes : Bytes) where
  abbrev Aborted : Disk → Type 0
  Aborted = Abort.Aborted sha256_hex Noisy entries journal apart bytes

  abbrev Whole : Disk → Type 0
  Whole = Abort.Whole sha256_hex Noisy entries journal apart bytes

  abbrev transaction : PreparedTransaction
  transaction = Abort.transaction sha256_hex Noisy entries journal apart bytes

  abbrev AfterImages : Entry → Option Node → Option Node → Option Node → Type 0
  AfterImages = Redo.AfterImages sha256_hex Noisy entries journal apart bytes

  module _ (committed_bytes : Bytes) (different : bytes ≢ committed_bytes) (noise : Noisy) where
    abbrev Before : Disk → Type 0
    Before = Condition entries journal AfterImages (JournalIs bytes)

    abbrev Marked : Disk → Type 0
    Marked = Condition entries journal AfterImages (JournalIs committed_bytes)

    -- Settled at the after images, the committed journal there or gone.
    abbrev pub Committed : Disk → Type 0
    Committed =
        Loose sha256_hex entries journal apart Noisy committed_bytes
          (Settled sha256_hex (λ e. e.after_sha256))

    -- How a commit may leave the disk.
    abbrev pub Final : Disk → Type 0
    Final d = Aborted d ⊎ Committed d

    Before-Whole : (d : Disk) → Before d → Whole d
    Before-Whole d c = record {
      reserved = c.reserved;
      entry_holds = λ e m. let (h, there, k) = c.entry_holds e m in (inr (h, there), k);
      journal_holds = c.journal_holds;
    }

    Marked-Settled :
        (d : Disk)
        → Marked d
        → Condition entries journal
            (Settled sha256_hex (λ e. e.after_sha256))
            (JournalIs committed_bytes)
            d
    Marked-Settled d c = record {
      reserved = c.reserved;
      entry_holds = λ e m.
          let (h, there, k) = c.entry_holds e m in (h, HashesTo-Fits sha256_hex _ _ there, k);
      journal_holds = c.journal_holds;
    }

    Marked-Committed : (d : Disk) → Marked d → Committed d
    Marked-Committed d c =
        let s = Marked-Settled d c in
        record {
          reserved = s.reserved;
          entry_holds = s.entry_holds;
          journal_holds = inr s.journal_holds;
        }

    final : (d : Disk) → Before d ⊎ Marked d → Final d
    final d (inl h) = inl (inl (Before-Whole d h))
    final d (inr h) = inr (Marked-Committed d h)

    mark-Ends :
        (w : World)
        → Calm Noisy w
        → Before w.disk
        → Ends Noisy
            (λ _ d. Marked d)
            (λ failure d. (Before d ⊎ Marked d) × Noisy)
            (λ d. Before d ⊎ Marked d)
            (atomic_replace_bytes journal committed_bytes journal_stage_prefix w)
    mark-Ends w calm c =
        atomic_replace_bytes-Ends Noisy (Watched entries journal) journal journal_stage_prefix
          Before Marked (Condition-Guarded entries journal AfterImages (JournalIs bytes))
          (Condition-Guarded entries journal AfterImages (JournalIs committed_bytes)) noise
          committed_bytes
          (λ d inode h.
            store_journal sha256_hex entries journal apart AfterImages (JournalIs bytes)
              (JournalIs committed_bytes) d (regular inode committed_bytes) (inode, refl) h)
          w calm c

    unmark-Ends :
        (w : World)
        → Calm Noisy w
        → Marked w.disk
        → Ends Noisy
            (λ _ d. Before d)
            (λ failure d. (Marked d ⊎ Before d) × Noisy)
            (λ d. Marked d ⊎ Before d)
            (atomic_replace_bytes journal bytes journal_stage_prefix w)
    unmark-Ends w calm c =
        atomic_replace_bytes-Ends Noisy (Watched entries journal) journal journal_stage_prefix
          Marked Before (Condition-Guarded entries journal AfterImages (JournalIs committed_bytes))
          (Condition-Guarded entries journal AfterImages (JournalIs bytes)) noise bytes
          (λ d inode h.
            store_journal sha256_hex entries journal apart AfterImages (JournalIs committed_bytes)
              (JournalIs bytes) d (regular inode bytes) (inode, refl) h)
          w calm c

    verify_reset-Ends :
        (w : World)
        → Calm Noisy w
        → Before w.disk
        → Ends Noisy
            (λ _ d. Before d)
            (λ failure d. Final d × Noisy)
            Final
            (verify_reset sha256_hex transaction w)
    verify_reset-Ends w calm c =
        resume-Ends _ _
          (relax _ (exact_journal_status-Ends Noisy Before journal bytes w calm c)
            (λ d h. final d (inl h)))
          reported
      where
        reported :
            (status : JournalStatus) (w' : World)
            → Calm Noisy w'
            → Report Noisy Before journal bytes status w'.disk
            → Ends Noisy
                (λ _ d. Before d)
                (λ failure d. Final d × Noisy)
                Final
                ((if is_exact status then pure tt else raise (reset_failed journal)) w')
        reported exact w' calm' r = record { calm = calm'; holds = r.0 }
        reported absent w' calm' r = record {
          calm = calm';
          holds = (final w'.disk (inl r.0), noise);
        }
        reported invalid w' calm' r = record {
          calm = calm';
          holds = (final w'.disk (inl r.0), noise);
        }

    journal_file :
        (d : Disk)
        → Before d ⊎ Marked d
        → (inode : ℕ) × (found : Bytes) × (node_at d journal ≡ some (regular inode found))
    journal_file d (inl h) = let (inode, e) = h.journal_holds in (inode, bytes, e)
    journal_file d (inr h) = let (inode, e) = h.journal_holds in (inode, committed_bytes, e)

    journal-Plain : (d : Disk) → Before d ⊎ Marked d → Plain (node_at d journal)
    journal-Plain d h = let (inode, found, e) = journal_file d h in rw e tt

    read-Marked-Ends :
        (current : Bytes) (w : World)
        → Calm Noisy w
        → Marked w.disk
        → current ≡ committed_bytes
        → Ends Noisy
            (λ _ d. Before d)
            (λ failure d. Final d × Noisy)
            Final
            (reset_read sha256_hex transaction committed_bytes (inr current) w)
    read-Marked-Ends current w calm c is = elim (Bool-cases (current == bytes)) [
      | inl same ↦ absurd (different (sym ((==_iff current bytes).0 same) ∙ is))
      | inr other_bytes ↦
          rw (other_bytes, (==_iff current committed_bytes).1 is, if◌then◌else◌)
            (try-Ends {R = λ failure d. (Marked d ⊎ Before d) × Noisy} is_os_error _ _
              (relax _ (unmark-Ends w calm c) swapped)
              (λ failure d (h, n) uncaught. (swapped d h, n))
              (λ failure w' calm' (h, n) in_clause. record {
                calm = calm';
                holds = (swapped w'.disk h, n);
              })
              λ _ w' calm' h. verify_reset-Ends w' calm' h)
    ]
      where
        swapped : (d : Disk) → Marked d ⊎ Before d → Final d
        swapped d (inl h) = final d (inr h)
        swapped d (inr h) = final d (inl h)

    read-reset-Ends :
        (current : Bytes) (inode : ℕ) (w : World)
        → Calm Noisy w
        → Before w.disk ⊎ Marked w.disk
        → node_at w.disk journal ≡ some (regular inode current)
        → Ends Noisy
            (λ _ d. Before d)
            (λ failure d. Final d × Noisy)
            Final
            (reset_read sha256_hex transaction committed_bytes (inr current) w)
    read-reset-Ends current inode w calm (inl h) held =
        let (i, e) = h.journal_holds in
        rw ((==_iff current bytes).1 (cc), if◌then◌else◌) (record { calm = calm; holds = h })
    read-reset-Ends current inode w calm (inr h) held =
        let (i, e) = h.journal_holds in read-Marked-Ends current w calm h (cc)

    reset-Ends :
        (w : World)
        → Calm Noisy w
        → Before w.disk ⊎ Marked w.disk
        → Ends Noisy
            (λ _ d. Before d)
            (λ failure d. Final d × Noisy)
            Final
            (reset_prepared_journal sha256_hex transaction committed_bytes w)
    unfolding reset_prepared_journal
    reset-Ends w calm c =
        try-Ends is_os_error _ _
          (relax _
            (read-Ends Noisy (λ d. Before d ⊎ Marked d) w calm c journal (journal-Plain w.disk c))
            final)
          (λ failure d m uncaught.
            absurd
              (Missing-is_os_error Noisy (λ d. Before d ⊎ Marked d) journal failure d m uncaught))
          (λ failure w' calm' (h, why) in_clause. elim why [
            | inl (is, missing) ↦ let (i, b, e) = journal_file w'.disk h in cc
            | inr (is, n) ↦
                rw (is, reset_read) (record { calm = calm'; holds = (final w'.disk h, n) })
          ])
          λ current w' calm' (h, inode, held). read-reset-Ends current inode w' calm' h held

    abort_failed_marker-Ends :
        {Q : Unit {0} → Disk → Type 0} (primary : Failure) (candidates : List FilePath) (w : World)
        → Calm Noisy w
        → Before w.disk ⊎ Marked w.disk
        → Ends Noisy Q
            (λ failure d. Final d × Noisy)
            Final
            (abort_failed_marker sha256_hex transaction committed_bytes primary candidates w)
    unfolding abort_failed_marker
    abort_failed_marker-Ends primary candidates w calm c =
        try-Ends {R = λ failure d. Final d × Noisy} is_persistence _ _ (reset-Ends w calm c)
          (λ failure d h uncaught. h)
          (λ failure w' calm' h in_clause. record { calm = calm'; holds = h })
          λ _ w' calm' h.
            weaken _
              (abort_prepared-Ends sha256_hex Noisy entries journal apart bytes primary candidates
                true w' calm' noise (Before-Whole w'.disk h))
              (λ _ d q. q) (λ failure d (a, n). (inl a, n)) λ d a. inl a

    mark_committed-Ends :
        (candidates : List FilePath) (w : World)
        → Calm Noisy w
        → Before w.disk
        → Ends Noisy
            (λ _ d. Marked d)
            (λ failure d. Final d × Noisy)
            Final
            (mark_committed sha256_hex transaction committed_bytes candidates w)
    unfolding mark_committed
    mark_committed-Ends candidates w calm c =
        try-Ends {R = λ failure d. (Before d ⊎ Marked d) × Noisy} is_os_error _ _
          (relax _ (mark-Ends w calm c) final) (λ failure d (h, n) uncaught. (final d h, n))
          (λ failure w' calm' (h, n) in_clause. abort_failed_marker-Ends _ candidates w' calm' h)
          λ _ w' calm' h. record { calm = calm'; holds = h }

    pub commit_prepared-Ends :
        (w : World)
        → Calm Noisy w
        → Progress sha256_hex Noisy entries journal apart bytes [] entries w.disk
        → Ends Noisy
            (λ _ d.
              Condition entries journal (Settled sha256_hex (λ e. e.after_sha256)) NoJournal d)
            (λ failure d. Final d × Noisy)
            Final
            (commit_prepared sha256_hex transaction committed_bytes w)
    unfolding commit_prepared
    commit_prepared-Ends w calm c =
        resume-Ends _ _
          (weaken _
            (apply_entries-Ends sha256_hex Noisy entries journal apart bytes entries [] []
              (λ e m. m) (λ e m. absurd (Memᴰ.not-nil m)) apart.no_repeat w calm c)
            (λ _ d h. h) (λ failure d (h, n). (inl h, n)) λ d h. inl h)
          λ candidates w' calm' c'.
            resume-Ends _ _ (mark_committed-Ends candidates w' calm' c') λ _ w2 calm2 c2.
              weaken _
                (cleanup_transaction-Ends sha256_hex entries journal apart Noisy committed_bytes
                  (λ e. e.after_sha256) w2 calm2 (Marked-Settled w2.disk c2))
                (λ _ d h. h) (λ failure d (h, n). (inr h, n)) λ d h. inr h
