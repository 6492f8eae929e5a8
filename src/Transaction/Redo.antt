-- ===== src/Transaction/Redo.antt =====
-- Applying the images of a prepared transaction, under a schedule.
use doc_lattice.Prelude.{
  ℕ, ◌≡◌, ◌⊎◌, inl, inr, refl, ◌∙◌, subst, Bool, true, false, Option, none, some, List, [], ◌∷◌,
  Memᴰ, if◌then◌else◌, ==_iff, nat_eq, list_eq, option_eq,
}
use mathlib.Core.List.Memᴰ
use doc_lattice.Text.{Text}
use doc_lattice.Dict.Keys.{AllDistinct}
use doc_lattice.Disk.{
  Bytes, FilePath, Node, regular, irregular, Disk, World, Failure, is_os_error, is_persistence,
  node_at,
}
use doc_lattice.Transaction.{Entry}
use doc_lattice.Transaction.Rollback.{is_rename_error}
use doc_lattice.Transaction.Runs.{Calm, Ends, resume-Ends, relax, try-Ends}
use doc_lattice.Transaction.Calls.{Missing-is_os_error, file_sha256-Ends}
use doc_lattice.Transaction.Images.{
  HashesTo, HashesTo-Plain, HashesTo-Fits, Fits, Answer, authenticate-Ends,
}
use doc_lattice.Transaction.Conditions.{Apart, Condition, JournalIs}
use doc_lattice.Transaction.Renames.{Applying, replace_staged-Ends}
use doc_lattice.Transaction.Applying.{apply_moves}
use doc_lattice.Transaction.Commit.{
  PreparedTransaction, abort_prepared, apply_staged, apply_fingerprint, apply_entry, apply_entries,
}
use doc_lattice.Transaction.Abort
use doc_lattice.Transaction.Abort.{abort_prepared-Ends}

module _ (sha256_hex : Bytes → Text) (Noisy : Type 0) (entries : List Entry) (journal : FilePath)
    (apart : Apart entries journal) (bytes : Bytes) where
  abbrev Aborted : Disk → Type 0
  Aborted = Abort.Aborted sha256_hex Noisy entries journal apart bytes

  abbrev Whole : Disk → Type 0
  Whole = Abort.Whole sha256_hex Noisy entries journal apart bytes

  abbrev transaction : PreparedTransaction
  transaction = Abort.transaction sha256_hex Noisy entries journal apart bytes

  abbrev pub Progress : List Entry → List Entry → Disk → Type 0
  Progress done_entries pending =
      Condition entries journal (Applying sha256_hex entries journal apart done_entries pending)
        (JournalIs bytes)

  Progress-Whole :
      (done_entries pending : List Entry) (d : Disk) → Progress done_entries pending d → Whole d
  Progress-Whole done_entries pending d c = record {
    reserved = c.reserved;
    entry_holds = λ e m.
        let (progress, there) = c.entry_holds e m in
        elim progress [
          | inl (p, h, k) ↦
              (inl (h, HashesTo-Fits sha256_hex _ _ there), HashesTo-Fits sha256_hex _ _ k)
          | inr (p, h, k) ↦ (inr (h, there), k)
        ];
    journal_holds = c.journal_holds;
  }

  module _ (e : Entry) (mem : Memᴰ e entries) (done_entries pending : List Entry)
      (candidates : List FilePath) (fresh : ¬ (Memᴰ e done_entries)) where
    abbrev Now : Disk → Type 0
    Now = Progress done_entries (e ∷ pending)

    abbrev Next : Disk → Type 0
    Next = Progress (e ∷ done_entries) pending

    at_before :
        (d : Disk)
        → Now d
        → HashesTo sha256_hex (node_at d e.destination) e.before_sha256
          × HashesTo sha256_hex (node_at d e.after_path) e.after_sha256
    at_before d c = elim (c.entry_holds e mem).0 [
      | inl (m, h, k) ↦ (h, k)
      | inr (m, h, k) ↦ absurd (fresh m)
    ]

    stop :
        {Q : Unit {0} → Disk → Type 0} (primary : Failure) (cands : List FilePath) (all : Bool)
        (w : World)
        → Calm Noisy w
        → Noisy
        → Now w.disk ⊎ Next w.disk
        → Ends Noisy Q
            (λ failure d. Aborted d × Noisy)
            Aborted
            (abort_prepared sha256_hex transaction primary cands all w)
    stop primary cands all w calm noise c =
        abort_prepared-Ends sha256_hex Noisy entries journal apart bytes primary cands all w calm
          noise
          (elim c [
            | inl h ↦ Progress-Whole done_entries (e ∷ pending) w.disk h
            | inr h ↦ Progress-Whole (e ∷ done_entries) pending w.disk h
          ])

    safe : (d : Disk) → Now d ⊎ Next d → Aborted d
    safe d (inl h) = inl (Progress-Whole done_entries (e ∷ pending) d h)
    safe d (inr h) = inl (Progress-Whole (e ∷ done_entries) pending d h)

    file_of :
        (o : Option Node) (digest : Text)
        → HashesTo sha256_hex o digest
        → (inode : ℕ) × (found : Bytes) × (o ≡ some (regular inode found))
    file_of none digest h = absurd h
    file_of (some (regular inode found)) digest h = (inode, found, refl)
    file_of (some irregular) digest h = absurd h

    replaced-Ends :
        (present : Bool) (w : World)
        → Calm Noisy w
        → Now w.disk
        → present ≡ true
        → Ends Noisy
            (λ _ d. Next d)
            (λ failure d. Aborted d × Noisy)
            Aborted
            (apply_staged sha256_hex transaction e candidates (inr present) w)
    replaced-Ends false w calm c there = cc
    replaced-Ends true w calm c there =
        let (inode, found, held) =
          file_of (node_at w.disk e.after_path) e.after_sha256 (at_before w.disk c).1 in
        try-Ends {R = λ failure d. (Now d ⊎ Next d) × Noisy × (is_os_error failure ≡ true)}
          is_rename_error _ _
          (relax _
            (replace_staged-Ends Noisy Now Next e.after_path e.destination
              (apart.after_beside e mem) (λ d c'. HashesTo-Plain sha256_hex _ _ (at_before d c').0)
              (λ d i b c' at.
                apply_moves sha256_hex entries journal apart (JournalIs bytes) e mem d i b
                  done_entries pending (rw at at (at_before d c').1) c')
              w inode found calm c held)
            safe)
          (λ failure d (h, n, is) uncaught. (safe d h, n))
          (λ failure w' calm' (h, n, is) in_clause. stop _ _ true w' calm' n h)
          λ _ w' calm' h. record { calm = calm'; holds = h }

    fingerprinted-Ends :
        (current : Text) (w : World)
        → Calm Noisy w
        → Now w.disk
        → current ≡ e.before_sha256
        → Ends Noisy
            (λ _ d. Next d)
            (λ failure d. Aborted d × Noisy)
            Aborted
            (apply_fingerprint sha256_hex transaction e candidates (inr current) w)
    fingerprinted-Ends current w calm c same =
        rw ((==_iff current e.before_sha256).1 same, if◌then◌else◌)
          (try-Ends {R = λ failure d. Now d × Noisy} is_persistence _ _
            (relax _
              (authenticate-Ends sha256_hex Noisy Now e.after_path e.after_sha256 w calm c
                (HashesTo-Fits sha256_hex _ _ (at_before w.disk c).1))
              (λ d h. safe d (inl h)))
            (λ failure d (h, n) uncaught. (safe d (inl h), n))
            (λ failure w' calm' (h, n) in_clause. stop _ _ false w' calm' n (inl h)) answered)
      where
        answered :
            (present : Bool) (w' : World)
            → Calm Noisy w'
            → Answer sha256_hex Noisy Now e.after_path e.after_sha256 present w'.disk
            → Ends Noisy
                (λ _ d. Next d)
                (λ failure d. Aborted d × Noisy)
                Aborted
                (apply_staged sha256_hex transaction e candidates (inr present) w')
        answered true w' calm' h = replaced-Ends true w' calm' h.0 refl
        answered false w' calm' (h, missing) = absurd (rw missing at (at_before w'.disk h).1)

    apply_entry-Ends :
        (w : World)
        → Calm Noisy w
        → Now w.disk
        → Ends Noisy
            (λ _ d. Next d)
            (λ failure d. Aborted d × Noisy)
            Aborted
            (apply_entry sha256_hex transaction e candidates w)
    unfolding apply_entry
    apply_entry-Ends w calm c =
        try-Ends is_os_error _ _
          (relax _
            (file_sha256-Ends Noisy Now w calm c sha256_hex e.destination
              (HashesTo-Plain sha256_hex _ _ (at_before w.disk c).0))
            (λ d h. safe d (inl h)))
          (λ failure d m uncaught.
            absurd (Missing-is_os_error Noisy Now e.destination failure d m uncaught))
          (λ failure w' calm' (h, why) in_clause. elim why [
            | inl (is, missing) ↦ absurd (rw missing at (at_before w'.disk h).0)
            | inr (is, n) ↦ stop _ _ true w' calm' n (inl h)
          ])
          λ digest w' calm' (h, inode, found, held, is).
            fingerprinted-Ends digest w' calm' h (is ∙ (rw held at (at_before w'.disk h).0))

  -- Every entry is at its after image, and its before image is there.
  abbrev pub AfterImages : Entry → Option Node → Option Node → Option Node → Type 0
  AfterImages e destination before after =
      HashesTo sha256_hex destination e.after_sha256
      × HashesTo sha256_hex before e.before_sha256
      × Fits sha256_hex after e.after_sha256

  all_applied :
      (done_entries : List Entry) (d : Disk)
      → Progress done_entries [] d
      → Condition entries journal AfterImages (JournalIs bytes) d
  all_applied done_entries d c = record {
    reserved = c.reserved;
    entry_holds = λ e m.
        let (progress, there) = c.entry_holds e m in
        elim progress [
          | inl (none_left, h, k) ↦ absurd (Memᴰ.not-nil none_left)
          | inr (p, h, k) ↦ (h, there, k)
        ];
    journal_holds = c.journal_holds;
  }

  pub apply_entries-Ends :
      (pending done_entries : List Entry) (candidates : List FilePath)
      → ((e : Entry) → Memᴰ e pending → Memᴰ e entries)
      → ((e : Entry) → Memᴰ e done_entries → ¬ (Memᴰ e pending))
      → AllDistinct pending
      → (w : World) → Calm Noisy w
      → Progress done_entries pending w.disk
      → Ends Noisy
          (λ _ d. Condition entries journal AfterImages (JournalIs bytes) d)
          (λ failure d. Aborted d × Noisy)
          Aborted
          (apply_entries sha256_hex transaction pending candidates w)
  unfolding apply_entries
  apply_entries-Ends [] done_entries candidates within apart_from distinct w calm c = record {
    calm = calm;
    holds = all_applied done_entries w.disk c;
  }
  apply_entries-Ends (e ∷ pending) done_entries candidates within apart_from distinct w calm c =
      resume-Ends _ _
        (apply_entry-Ends e (within e (Memᴰ.head refl)) done_entries pending candidates
          (λ m. apart_from e m (Memᴰ.head refl)) w calm c)
        λ _ w' calm' c'.
          apply_entries-Ends pending (e ∷ done_entries) (e.destination ∷ candidates)
            (λ x m. within x (Memᴰ.tail m))
            (λ x m still. elim (Memᴰ.cases_cons m) [
              | inl same ↦ distinct.0 (subst (λ (y : Entry). Memᴰ y pending) same still)
              | inr earlier ↦ apart_from x earlier (Memᴰ.tail still)
            ])
            distinct.1 w' calm' c'
