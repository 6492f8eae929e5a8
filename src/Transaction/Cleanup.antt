-- ===== src/Transaction/Cleanup.antt =====
-- Cleaning a settled transaction, under a schedule (_cleanup_transaction_artifacts).
use doc_lattice.Prelude.{
  ℕ, ◌≡◌, ◌⊎◌, inl, inr, refl, ap, ◌∙◌, true, false, Option, none, some, List, if◌then◌else◌,
  Bool-cases, ◌==◌, ==_iff, nat_eq, list_eq, option_eq,
}
use doc_lattice.Text.{Text}
use doc_lattice.Disk.{
  Bytes, FilePath, Node, regular, irregular, Disk, World, Failure, is_os_error, node_at, pure,
  ◌>>=◌, End,
}
use doc_lattice.Transaction.{Entry, staged_artifacts, journal_stage_prefix}
use doc_lattice.Transaction.Artifacts.{
  JournalStatus, absent, invalid, exact, is_exact, status_of_node, status_of_bytes,
  exact_journal_status, restore_absent, restore_journal, cleanup_exact, cleanup_journal,
  cleanup_transaction_artifacts,
}
use doc_lattice.Transaction.Runs.{Calm, Ends, resume-Ends, resume-Bool, weaken, relax, try-Ends}
use doc_lattice.Transaction.Calls.{Plain, Missing-is_os_error, lstat-Ends, read-Ends}
use doc_lattice.Transaction.Removals.{durable_unlink-Ends, resync_after_unlink-Ends}
use doc_lattice.Transaction.Images.{FitAll, KeepAll, authenticate_all-Ends, cleanup_all-Ends}
use doc_lattice.Transaction.Conditions.{
  Apart, Watched, Condition, Condition-Guarded, Settled, JournalIs, JournalOrNone, NoJournal,
}
use doc_lattice.Transaction.Moves.{images-FitAll, Settled-KeepAll, remove_journal, store_journal}
use doc_lattice.Transaction.Publishing.{atomic_create_bytes-Ends}

module _ (Noisy : Type 0) (P : Disk → Type 0) (journal : FilePath) (bytes : Bytes) where
  -- What _exact_journal_status reports.
  abbrev pub Report : JournalStatus → Disk → Type 0
  Report exact d = P d × JournalIs bytes (node_at d journal)
  Report absent d = P d × (node_at d journal ≡ none)
  Report invalid d = P d × (JournalIs bytes (node_at d journal) → Noisy)

  Seen : Option Node → Disk → Type 0
  Seen o d = P d × (node_at d journal ≡ o)

  module _ {R : Failure → Disk → Type 0} where
    node-Ends :
        (node : Node) (w : World)
        → Calm Noisy w
        → P w.disk
        → node_at w.disk journal ≡ some node
        → Ends Noisy Report R P (status_of_node journal bytes (inr node) w)
    unfolding Seen
    node-Ends irregular w calm p e = record { calm = calm; holds = (p, λ is. cc) }
    node-Ends (regular inode found) w calm p e =
        try-Ends is_os_error _ _
          (relax _
            (read-Ends Noisy (Seen (some (regular inode found))) w calm (p, e) journal (rw e tt))
            (λ d h. h.0))
          (λ failure d m uncaught. absurd (
            Missing-is_os_error Noisy (Seen (some (regular inode found))) journal failure d m
              uncaught))
          (λ failure w' calm' (h, why) in_clause. elim why [
            | inl (e', m) ↦ cc
            | inr (e', noise) ↦ record { calm = calm'; holds = (h.0, λ _. noise) }
          ])
          λ current w' calm' (h, inode', e'). compared current w' calm' h.0 inode' e'
      where
        compared :
            (current : Bytes) (w' : World)
            → Calm Noisy w'
            → P w'.disk
            → (inode' : ℕ) → node_at w'.disk journal ≡ some (regular inode' current)
            → Ends Noisy Report R P (pure (status_of_bytes bytes (inr current)) w')
        compared current w' calm' p' inode' e' = elim (Bool-cases (current == bytes)) [
          | inl same ↦
              rw (same, if◌then◌else◌)
                (record {
                  calm = calm';
                  holds = (
                    p',
                    (
                      inode',
                      e' ∙ ap (λ b. some (regular inode' b)) ((==_iff current bytes).0 same),
                    ),
                  );
                })
          | inr other ↦
              rw (other, if◌then◌else◌)
                (record { calm = calm'; holds = (p', λ (i, is). absurd (different other (cc))) })
        ]
          where
            different : (current == bytes) ≡ false → current ≡ bytes → ⊥
            different other same = cc ((==_iff current bytes).1 same)

    pub exact_journal_status-Ends :
        (w : World)
        → Calm Noisy w
        → P w.disk
        → Ends Noisy Report R P (exact_journal_status journal bytes w)
    unfolding exact_journal_status
    exact_journal_status-Ends w calm p =
        try-Ends is_os_error _ _ (lstat-Ends Noisy P w calm p journal)
          (λ failure d m uncaught.
            absurd (Missing-is_os_error Noisy P journal failure d m uncaught))
          (λ failure w' calm' (p', why) in_clause. elim why [
            | inl (e, missing) ↦
                rw (e, status_of_node) (record { calm = calm'; holds = (p', missing) })
            | inr (e, noise) ↦
                rw (e, status_of_node) (record { calm = calm'; holds = (p', λ _. noise) })
          ])
          λ node w' calm' (p', e). node-Ends node w' calm' p' e

module _ (sha256_hex : Bytes → Text) (entries : List Entry) (journal : FilePath)
    (apart : Apart entries journal) (Noisy : Type 0) (bytes : Bytes) where
  module _ (F : Entry → Option Node → Option Node → Option Node → Type 0) where
    -- The condition, whether the journal is there or gone.
    abbrev pub Loose : Disk → Type 0
    Loose = Condition entries journal F (JournalOrNone bytes)

    Exactly : Disk → Type 0
    Exactly = Condition entries journal F (JournalIs bytes)

    loosen : (d : Disk) → Exactly d → Loose d
    unfolding Exactly
    loosen d c = record {
      reserved = c.reserved;
      entry_holds = c.entry_holds;
      journal_holds = inr c.journal_holds;
    }

    gone : (d : Disk) → Loose d → node_at d journal ≡ none → Condition entries journal F NoJournal d
    gone d c e = record { reserved = c.reserved; entry_holds = c.entry_holds; journal_holds = e }

    one : (d : Disk) → Loose d ⊎ Loose d → Loose d
    one d (inl h) = h
    one d (inr h) = h

    looked :
        (w : World)
        → Calm Noisy w
        → Loose w.disk
        → Ends Noisy
            (λ _ d. Loose d)
            (λ failure d. Loose d × Noisy)
            Loose
            ((exact_journal_status journal bytes >>= λ status. pure (is_exact status)) w)
    looked w calm h =
        resume-Ends _ _ (exact_journal_status-Ends Noisy Loose journal bytes w calm h) reported
      where
        reported :
            (status : JournalStatus) (w' : World)
            → Calm Noisy w'
            → Report Noisy Loose journal bytes status w'.disk
            → Ends Noisy
                (λ _ d. Loose d)
                (λ failure d. Loose d × Noisy)
                Loose
                (pure (is_exact status) w')
        reported exact w' calm' r = record { calm = calm'; holds = r.0 }
        reported invalid w' calm' r = record { calm = calm'; holds = r.0 }
        reported absent w' calm' r = record { calm = calm'; holds = r.0 }

    restore_journal-Ends :
        (w : World)
        → Calm Noisy w
        → Noisy
        → Loose w.disk
        → Ends Noisy
            (λ _ d. Loose d)
            (λ failure d. Loose d × Noisy)
            Loose
            (restore_journal journal bytes w)
    unfolding restore_journal
    restore_journal-Ends w calm noise c =
        resume-Ends _ _ (exact_journal_status-Ends Noisy Loose journal bytes w calm c) cases
      where
        cases :
            (status : JournalStatus) (w' : World)
            → Calm Noisy w'
            → Report Noisy Loose journal bytes status w'.disk
            → Ends Noisy
                (λ _ d. Loose d)
                (λ failure d. Loose d × Noisy)
                Loose
                (restore_absent journal bytes status w')
        cases exact w' calm' r = record { calm = calm'; holds = r.0 }
        cases invalid w' calm' r = record { calm = calm'; holds = r.0 }
        cases absent w' calm' r =
            try-Ends is_os_error _ _
              (weaken _
                (atomic_create_bytes-Ends Noisy (Watched entries journal) journal
                  journal_stage_prefix Loose Loose
                  (Condition-Guarded entries journal F (JournalOrNone bytes))
                  (Condition-Guarded entries journal F (JournalOrNone bytes)) noise bytes
                  (λ d inode c'.
                    store_journal sha256_hex entries journal apart F (JournalOrNone bytes)
                      (JournalOrNone bytes) d (regular inode bytes) (inr (inode, refl)) c')
                  w' calm' r.0)
                (λ _ d h. h) (λ failure d (h, n). (one d h, n)) one)
              (λ failure d h uncaught. h) (λ failure w2 calm2 (h, n) in_clause. looked w2 calm2 h)
              λ _ w2 calm2 h. looked w2 calm2 h

    cleanup_journal-Ends :
        (w : World)
        → Calm Noisy w
        → Exactly w.disk
        → Ends Noisy
            (λ _ d. Condition entries journal F NoJournal d)
            (λ failure d. Loose d × Noisy)
            Loose
            (cleanup_journal journal bytes w)
    unfolding cleanup_journal Exactly
    cleanup_journal-Ends w calm c =
        resume-Ends _ _
          (relax _ (exact_journal_status-Ends Noisy Exactly journal bytes w calm c) loosen) cases
      where
        unlinked :
            (w' : World)
            → Calm Noisy w'
            → Loose w'.disk
            → Plain (node_at w'.disk journal)
            → Ends Noisy
                (λ _ d. Condition entries journal F NoJournal d)
                (λ failure d. Loose d × Noisy)
                Loose
                (cleanup_exact journal bytes true w')
        unlinked w' calm' c' plain =
            try-Ends is_os_error _ _
              (durable_unlink-Ends Noisy Loose journal
                (λ d h.
                  remove_journal sha256_hex entries journal apart F (JournalOrNone bytes) (inl refl)
                    d h)
                w' calm' c' plain)
              (λ failure d (h, n, e) uncaught. (h, n))
              (λ failure w2 calm2 (h, n, e) in_clause.
                resume-Bool _ _ (resync_after_unlink-Ends Noisy Loose journal w2 calm2 h)
                  (λ w3 calm3 v. record { calm = calm3; holds = gone w3.disk v.0 (v.1 refl) })
                  λ w3 calm3 v.
                    resume-Ends _ _ (restore_journal-Ends w3 calm3 n v.0)
                      λ _ w4 calm4 h4. record { calm = calm4; holds = (h4, n) })
              λ _ w2 calm2 (h, e). record { calm = calm2; holds = gone w2.disk h e }

        cases :
            (status : JournalStatus) (w' : World)
            → Calm Noisy w'
            → Report Noisy Exactly journal bytes status w'.disk
            → Ends Noisy
                (λ _ d. Condition entries journal F NoJournal d)
                (λ failure d. Loose d × Noisy)
                Loose
                (cleanup_exact journal bytes (is_exact status) w')
        cases exact w' calm' (c', (inode, e)) = unlinked w' calm' (loosen w'.disk c') (rw e tt)
        cases absent w' calm' (c', e) = let (inode, is) = c'.journal_holds in cc
        cases invalid w' calm' (c', noisy) = record {
          calm = calm';
          holds = (loosen w'.disk c', noisy c'.journal_holds);
        }

  -- _cleanup_transaction_artifacts, once the destinations are settled.
  pub cleanup_transaction-Ends :
      (side : Entry → Text) (w : World)
      → Calm Noisy w
      → Condition entries journal (Settled sha256_hex side) (JournalIs bytes) w.disk
      → Ends Noisy
          (λ _ d. Condition entries journal (Settled sha256_hex side) NoJournal d)
          (λ failure d. Loose (Settled sha256_hex side) d × Noisy)
          (Loose (Settled sha256_hex side))
          (cleanup_transaction_artifacts sha256_hex entries journal bytes w)
  unfolding cleanup_transaction_artifacts Exactly
  cleanup_transaction-Ends side w calm c =
      resume-Ends _ _
        (kept _
          (authenticate_all-Ends sha256_hex Noisy Whole (staged_artifacts entries) fit w calm c))
        λ _ w' calm' c'.
          resume-Ends _ _
            (kept _ (
              cleanup_all-Ends sha256_hex Noisy Whole (staged_artifacts entries) fit keep w' calm'
                c'))
            λ _ w2 calm2 c2. cleanup_journal-Ends (Settled sha256_hex side) w2 calm2 c2
    where
      Whole : Disk → Type 0
      Whole = Condition entries journal (Settled sha256_hex side) (JournalIs bytes)

      fit : FitAll sha256_hex Noisy Whole (staged_artifacts entries)
      fit =
          images-FitAll sha256_hex entries journal apart (Settled sha256_hex side) (JournalIs bytes)
            (λ e destination before after f. (f.1, f.2)) Noisy

      keep : KeepAll sha256_hex Noisy Whole (staged_artifacts entries)
      keep = Settled-KeepAll sha256_hex entries journal apart side (JournalIs bytes) Noisy

      kept :
          (r : End (Unit {0}) × World)
          → Ends Noisy (λ _ d. Whole d) (λ failure d. Whole d × Noisy) Whole r
          → Ends Noisy
              (λ _ d. Whole d)
              (λ failure d. Loose (Settled sha256_hex side) d × Noisy)
              (Loose (Settled sha256_hex side))
              r
      kept r ends =
          weaken r ends (λ _ d h. h) (λ failure d (h, n). (loosen (Settled sha256_hex side) d h, n))
            λ d h. loosen (Settled sha256_hex side) d h
