-- ===== src/Transaction/Recovering.antt =====
-- _recover_transaction_locked under a schedule, from any disk that a commit or another recovery may leave.
use doc_lattice.Prelude.{
  ℕ, ◌≡◌, ◌≢◌, ◌⊎◌, inl, inr, refl, Option, none, List, Memᴰ, nat_eq, list_eq, option_eq,
}
use doc_lattice.Text.{Text}
use doc_lattice.Disk.{Bytes, FilePath, Node, Disk, World, Failure, node_at}
use doc_lattice.Transaction.{
  Entry, WireModels, LoadedJournal, JournalProvenance, prepared, committed, parse_journal,
  validate_path_roles, staged_artifacts,
}
use doc_lattice.Transaction.Recover.{
  RecoveryResult, recover_loaded, scan_orphan_artifacts, recover_transaction_locked,
}
use doc_lattice.Transaction.Runs.{Calm, Ends, resume-Ends, resume-Bool, weaken}
use doc_lattice.Transaction.Calls.{Plain}
use doc_lattice.Transaction.Images.{HashesTo-Fits, Fits, Fits-Plain, FitAll, authenticate_all-Ends}
use doc_lattice.Transaction.Conditions.{
  Apart, Condition, Undecided, Settled, JournalIs, JournalOrNone, NoJournal,
}
use doc_lattice.Transaction.Moves.{images-FitAll}
use doc_lattice.Transaction.Cleanup.{cleanup_transaction-Ends}
use doc_lattice.Transaction.Undo.{rollback_prepared-Ends}
use doc_lattice.Transaction.Abort.{Aborted}
use doc_lattice.Transaction.Recovery.{
  NamesFit, journal_absent-Ends, journal_present-Ends, load_journal-Ends,
}

-- What the wire models make of the two journals of the transaction.
pub record Readable (entries : List Entry) (journal : FilePath) (bytes committed_bytes : Bytes)
    (models : WireModels) : Type 0 where
  pub version : ℕ
  pub provenance : Option JournalProvenance
  pub paths : List FilePath
  pub reads_prepared :
      parse_journal models bytes
      ≡ inr (record {
        version = version;
        state = prepared;
        entries = entries;
        provenance = provenance;
      })
  pub reads_committed :
      parse_journal models committed_bytes
      ≡ inr (record {
        version = version;
        state = committed;
        entries = entries;
        provenance = provenance;
      })
  pub roles : validate_path_roles entries journal ≡ inr paths
  pub names_fit : NamesFit entries

module _ (sha256_hex : Bytes → Text) (entries : List Entry) (journal : FilePath)
    (apart : Apart entries journal) (bytes committed_bytes : Bytes)
    (different : bytes ≢ committed_bytes) where
  -- All destinations at the given images, with no journal left.
  abbrev pub At : (Entry → Text) → Disk → Type 0
  At side = Condition entries journal (Settled sha256_hex side) NoJournal

  -- What recovery reaches: all destinations at their before images, or all at their after images.
  abbrev pub Decided : Disk → Type 0
  Decided d = At (λ e. e.before_sha256) d ⊎ At (λ e. e.after_sha256) d

  -- The disk is one that a commit may leave, whatever happened to it.
  abbrev pub Recoverable : Disk → Type 0
  Recoverable d =
      Condition entries journal (Undecided sha256_hex) (JournalIs bytes) d
      ⊎ (Condition entries journal (Settled sha256_hex (λ e. e.before_sha256)) (JournalOrNone bytes)
            d
          ⊎ Condition entries journal (Settled sha256_hex (λ e. e.after_sha256))
              (JournalOrNone committed_bytes) d)

  module _ (Noisy : Type 0) where
    abbrev Outcome : RecoveryResult → Disk → Type 0
    Outcome _ d = Decided d

    abbrev Broken : Failure → Disk → Type 0
    Broken _ d = Recoverable d × Noisy

    nothing-Ends :
        (models : WireModels) (side : Entry → Text) (w : World)
        → ((d : Disk) → At side d → Decided d)
        → ((d : Disk) → At side d → Recoverable d)
        → Calm Noisy w
        → At side w.disk
        → Ends Noisy Outcome Broken Recoverable
            (recover_transaction_locked sha256_hex models journal w)
    unfolding recover_transaction_locked scan_orphan_artifacts
    nothing-Ends models side w decided recoverable calm c =
        resume-Bool _ _
          (weaken _ (journal_absent-Ends Noisy (At side) journal (λ d h. h.journal_holds) w calm c)
            (λ _ d h. h) (λ failure d (h, n). (recoverable d h, n)) recoverable)
          (λ w' calm' (h, never). cc)
          λ w' calm' (h, _). record { calm = calm'; holds = decided w'.disk h }

    module _ (models : WireModels) (loaded : LoadedJournal) (paths : List FilePath)
        (is_ours : loaded.entries ≡ entries)
        (roles : validate_path_roles loaded.entries journal ≡ inr paths)
        (fits : NamesFit loaded.entries) where
      open-Ends :
          parse_journal models bytes ≡ inr loaded
          → loaded.state ≡ prepared
          → (w : World) → Calm Noisy w
          → Condition entries journal (Undecided sha256_hex) (JournalIs bytes) w.disk
          → Ends Noisy Outcome Broken Recoverable
              (recover_transaction_locked sha256_hex models journal w)
      unfolding recover_transaction_locked scan_orphan_artifacts
      open-Ends parses state w calm c =
          resume-Bool _ _
            (weaken _
              (journal_present-Ends Noisy Whole journal bytes (λ d h. h.journal_holds) w calm c)
              (λ _ d h. h) (λ failure d (h, n). (inl h, n)) λ d h. inl h)
            (λ w' calm' (h, _).
              resume-Ends _ _
                (weaken _
                  (load_journal-Ends Noisy Whole journal models bytes loaded paths
                    (λ d k. k.journal_holds) parses roles fits plain w' calm' h)
                  (λ _ d k. k) (λ failure d (k, n). (inl k, n)) λ d k. inl k)
                λ r w2 calm2 (h2, is).
                  rw (is, is_ours, state, recover_loaded)
                    (resume-Ends _ _
                      (weaken _
                        (authenticate_all-Ends sha256_hex Noisy Whole (staged_artifacts entries) fit
                          w2 calm2 h2)
                        (λ _ d k. k) (λ failure d (k, n). (inl k, n)) λ d k. inl k)
                      λ _ w3 calm3 h3.
                        resume-Ends _ _
                          (weaken _
                            (rollback_prepared-Ends sha256_hex Noisy entries journal apart bytes
                              none w3 calm3 h3)
                            (λ _ d k. k) (λ failure d (k, n). (undone d k, n)) undone)
                          λ outcome w4 calm4 (resolved, h4). record {
                            calm = calm4;
                            holds = inl h4;
                          }))
            λ w' calm' (h, never). cc
        where
          Whole : Disk → Type 0
          Whole = Condition entries journal (Undecided sha256_hex) (JournalIs bytes)

          undone :
              (d : Disk) → Aborted sha256_hex Noisy entries journal apart bytes d → Recoverable d
          undone d (inl k) = inl k
          undone d (inr k) = inr (inl k)

          both_fit :
              (e : Entry) (destination before after : Option Node)
              → Undecided sha256_hex e destination before after
              → Fits sha256_hex before e.before_sha256 × Fits sha256_hex after e.after_sha256
          both_fit e destination before after f =
              (elim f.0 [ inl (h, k) ↦ k | inr (h, k) ↦ HashesTo-Fits sha256_hex _ _ k ], f.1)

          fit : FitAll sha256_hex Noisy Whole (staged_artifacts entries)
          fit =
              images-FitAll sha256_hex entries journal apart (Undecided sha256_hex)
                (JournalIs bytes) both_fit Noisy

          plain :
              (e : Entry)
              → Memᴰ e loaded.entries
              → (d : Disk) → Whole d
              → Plain (node_at d e.before_path) × Plain (node_at d e.after_path)
          plain e m d k =
              let both = both_fit e _ _ _ (k.entry_holds e (rw is_ours at m)) in
              (Fits-Plain sha256_hex _ _ both.0, Fits-Plain sha256_hex _ _ both.1)

      committed-Ends :
          parse_journal models committed_bytes ≡ inr loaded
          → loaded.state ≡ committed
          → (w : World) → Calm Noisy w
          → Condition entries journal
              (Settled sha256_hex (λ e. e.after_sha256))
              (JournalIs committed_bytes)
              w.disk
          → Ends Noisy Outcome Broken Recoverable
              (recover_transaction_locked sha256_hex models journal w)
      unfolding recover_transaction_locked scan_orphan_artifacts
      committed-Ends parses state w calm c =
          resume-Bool _ _
            (weaken _
              (journal_present-Ends Noisy Whole journal committed_bytes (λ d h. h.journal_holds) w
                calm c)
              (λ _ d h. h) (λ failure d (h, n). (still d h, n)) still)
            (λ w' calm' (h, _).
              resume-Ends _ _
                (weaken _
                  (load_journal-Ends Noisy Whole journal models committed_bytes loaded paths
                    (λ d k. k.journal_holds) parses roles fits plain w' calm' h)
                  (λ _ d k. k) (λ failure d (k, n). (still d k, n)) still)
                λ r w2 calm2 (h2, is).
                  rw (is, is_ours, state, recover_loaded)
                    (resume-Ends _ _
                      (weaken _
                        (authenticate_all-Ends sha256_hex Noisy Whole (staged_artifacts entries) fit
                          w2 calm2 h2)
                        (λ _ d k. k) (λ failure d (k, n). (still d k, n)) still)
                      λ _ w3 calm3 h3.
                        resume-Ends _ _
                          (weaken _
                            (cleanup_transaction-Ends sha256_hex entries journal apart Noisy
                              committed_bytes (λ e. e.after_sha256) w3 calm3 h3)
                            (λ _ d k. k) (λ failure d (k, n). (inr (inr k), n)) λ d k. inr (inr k))
                          λ _ w4 calm4 h4. record { calm = calm4; holds = inr h4 }))
            λ w' calm' (h, never). cc
        where
          Whole : Disk → Type 0
          Whole =
              Condition entries journal (Settled sha256_hex (λ e. e.after_sha256))
                (JournalIs committed_bytes)

          still : (d : Disk) → Whole d → Recoverable d
          still d k = inr (
              inr (record {
                reserved = k.reserved;
                entry_holds = k.entry_holds;
                journal_holds = inr k.journal_holds;
              }))

          fit : FitAll sha256_hex Noisy Whole (staged_artifacts entries)
          fit =
              images-FitAll sha256_hex entries journal apart
                (Settled sha256_hex (λ e. e.after_sha256)) (JournalIs committed_bytes)
                (λ e destination before after f. (f.1, f.2)) Noisy

          plain :
              (e : Entry)
              → Memᴰ e loaded.entries
              → (d : Disk) → Whole d
              → Plain (node_at d e.before_path) × Plain (node_at d e.after_path)
          plain e m d k =
              let f = k.entry_holds e (rw is_ours at m) in
              (Fits-Plain sha256_hex _ _ f.1, Fits-Plain sha256_hex _ _ f.2)

    pub recover-Ends :
        (models : WireModels)
        → Readable entries journal bytes committed_bytes models
        → (w : World) → Calm Noisy w
        → Recoverable w.disk
        → Ends Noisy Outcome Broken Recoverable
            (recover_transaction_locked sha256_hex models journal w)
    recover-Ends models r w calm (inl c) =
        open-Ends models _ r.paths refl r.roles r.names_fit r.reads_prepared refl w calm c
    recover-Ends models r w calm (inr (inl c)) = elim c.journal_holds [
      | inl gone ↦
          nothing-Ends models (λ e. e.before_sha256) w (λ d h. inl h) (λ d h. inr (inl (loose d h)))
            calm
            (record { reserved = c.reserved; entry_holds = c.entry_holds; journal_holds = gone })
      | inr there ↦
          open-Ends models _ r.paths refl r.roles r.names_fit r.reads_prepared refl w calm (record {
            reserved = c.reserved;
            entry_holds = λ e m. let (h, b, a) = c.entry_holds e m in (inl (h, b), a);
            journal_holds = there;
          })
    ]
      where
        loose :
            (d : Disk)
            → At (λ e. e.before_sha256) d
            → Condition entries journal
                (Settled sha256_hex (λ e. e.before_sha256))
                (JournalOrNone bytes)
                d
        loose d h = record {
          reserved = h.reserved;
          entry_holds = h.entry_holds;
          journal_holds = inl h.journal_holds;
        }
    recover-Ends models r w calm (inr (inr c)) = elim c.journal_holds [
      | inl gone ↦
          nothing-Ends models (λ e. e.after_sha256) w (λ d h. inr h) (λ d h. inr (inr (loose d h)))
            calm
            (record { reserved = c.reserved; entry_holds = c.entry_holds; journal_holds = gone })
      | inr there ↦
          committed-Ends models _ r.paths refl r.roles r.names_fit r.reads_committed refl w calm
            (record { reserved = c.reserved; entry_holds = c.entry_holds; journal_holds = there })
    ]
      where
        loose :
            (d : Disk)
            → At (λ e. e.after_sha256) d
            → Condition entries journal
                (Settled sha256_hex (λ e. e.after_sha256))
                (JournalOrNone committed_bytes)
                d
        loose d h = record {
          reserved = h.reserved;
          entry_holds = h.entry_holds;
          journal_holds = inl h.journal_holds;
        }
