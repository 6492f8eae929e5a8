-- ===== src/Transaction/Abort.antt =====
-- Aborting a prepared transaction, under a schedule (_abort_prepared).
use doc_lattice.Prelude.{
  ◌⊎◌, inl, inr, Bool, true, false, some, List, if◌then◌else◌, is_empty, Bool-cases, nat_eq,
  list_eq, option_eq,
}
use doc_lattice.Text.{Text}
use doc_lattice.Disk.{Bytes, FilePath, Disk, World, Failure, is_persistence}
use doc_lattice.Transaction.{Entry, staged_artifacts}
use doc_lattice.Transaction.Runs.{Calm, Ends, resume-Ends, weaken, try-Ends}
use doc_lattice.Transaction.Images.{HashesTo-Fits, FitAll, authenticate_all-Ends}
use doc_lattice.Transaction.Conditions.{Apart, Condition, Undecided, Settled, JournalIs, NoJournal}
use doc_lattice.Transaction.Moves.{images-FitAll}
use doc_lattice.Transaction.Undo.{Open, RolledBack, rollback_prepared-Ends}
use doc_lattice.Transaction.Commit.{
  PreparedTransaction, authenticate_if, raise_aborted, abort_prepared,
}

module _ (sha256_hex : Bytes → Text) (Noisy : Type 0) (entries : List Entry) (journal : FilePath)
    (apart : Apart entries journal) (bytes : Bytes) where
  -- Undecided with its journal, or settled at the before images.
  abbrev pub Aborted : Disk → Type 0
  Aborted d =
      Open sha256_hex Noisy entries journal apart bytes d
      ⊎ RolledBack sha256_hex Noisy entries journal apart bytes d

  abbrev pub Whole : Disk → Type 0
  Whole = Open sha256_hex Noisy entries journal apart bytes

  abbrev pub transaction : PreparedTransaction
  transaction = record { entries = entries; journal = journal; journal_bytes = bytes }

  pub abort_prepared-Ends :
      {A : Type 0} {Q : A → Disk → Type 0} (primary : Failure) (candidates : List FilePath)
      (all : Bool) (w : World)
      → Calm Noisy w
      → Noisy
      → Whole w.disk
      → Ends Noisy Q
          (λ failure d. Aborted d × Noisy)
          Aborted
          (abort_prepared sha256_hex transaction primary candidates all w)
  unfolding abort_prepared
  abort_prepared-Ends primary candidates all w calm noise c =
      try-Ends {R = λ failure d. Aborted d × Noisy} is_persistence _ _
        (resume-Ends _ _ (authenticated all) λ _ w' calm' c'.
          weaken _
            (rollback_prepared-Ends sha256_hex Noisy entries journal apart bytes (some candidates)
              w' calm' c')
            (λ outcome d (resolved, h). RolledBack-of d h) (λ failure d h. h) λ d h. h)
        (λ failure d h uncaught. h)
        (λ failure w' calm' h in_clause. record { calm = calm'; holds = h })
        λ outcome w' calm' h. elim (Bool-cases (is_empty outcome.unresolved)) [
          | inl nothing_left ↦
              rw (nothing_left, raise_aborted, if◌then◌else◌)
                (record { calm = calm'; holds = (h, noise) })
          | inr some_left ↦
              rw (some_left, raise_aborted, if◌then◌else◌)
                (record { calm = calm'; holds = (h, noise) })
        ]
    where
      RolledBack-of :
          (d : Disk)
          → Condition entries journal (Settled sha256_hex (λ e. e.before_sha256)) NoJournal d
          → Aborted d
      RolledBack-of d h = inr (record {
        reserved = h.reserved;
        entry_holds = h.entry_holds;
        journal_holds = inl h.journal_holds;
      })

      fit : FitAll sha256_hex Noisy Whole (staged_artifacts entries)
      fit =
          images-FitAll sha256_hex entries journal apart (Undecided sha256_hex) (JournalIs bytes)
            (λ e destination before after f. (
              elim f.0 [
                | inl (h, fits) ↦ fits
                | inr (h, there) ↦ HashesTo-Fits sha256_hex _ _ there
              ],
              f.1,
            ))
            Noisy

      authenticated :
          (all : Bool)
          → Ends Noisy
              (λ _ d. Whole d)
              (λ failure d. Aborted d × Noisy)
              Aborted
              (authenticate_if sha256_hex all entries w)
      authenticated true =
          weaken _
            (authenticate_all-Ends sha256_hex Noisy Whole (staged_artifacts entries) fit w calm c)
            (λ _ d h. h) (λ failure d (h, n). (inl h, n)) λ d h. inl h
      authenticated false = record { calm = calm; holds = c }
