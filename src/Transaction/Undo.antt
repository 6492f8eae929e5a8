-- ===== src/Transaction/Undo.antt =====
-- Rolling a prepared transaction back, under a schedule (_rollback_prepared).
use doc_lattice.Prelude.{
  ℕ, ◌≡◌, ◌⊎◌, inl, inr, refl, sym, ◌∙◌, subst, true, Option, none, some, List, [], ◌∷◌, Memᴰ,
  if◌then◌else◌, is_empty, nat_eq, list_eq, option_eq,
}
use mathlib.Core.List.Memᴰ
use doc_lattice.Text.{Text}
use doc_lattice.Disk.{
  Bytes, FilePath, Node, regular, irregular, Disk, World, is_os_error, node_at, ◌>>=◌,
}
use doc_lattice.Transaction.{Entry}
use doc_lattice.Transaction.Runs.{Calm, Ends, resume-Ends, resume-Bool, weaken, try-Ends}
use doc_lattice.Transaction.Calls.{Plain}
use doc_lattice.Transaction.Images.{HashesTo, HashesTo-Fits, HashesTo-Plain, authenticate-Ends}
use doc_lattice.Transaction.Conditions.{Apart, Condition, Undecided, Settled, JournalIs, NoJournal}
use doc_lattice.Transaction.Renames.{Rolling, replace_staged-Ends}
use doc_lattice.Transaction.Restoring.{restore_moves}
use doc_lattice.Transaction.Cleanup.{Loose, cleanup_transaction-Ends}
use doc_lattice.Transaction.Rollback.{
  DestinationState, after, before, other, RollbackOutcome, is_rename_error, restore_destination,
  restore_if_after, record_state, nothing_yet, reversed, rollback_entries, finish_rollback,
  rollback_prepared,
}
use doc_lattice.Transaction.Classify.{
  reversed-mem, mem-reversed, Classified, AtImage, classify_destination-Ends,
}

module _ (sha256_hex : Bytes → Text) (Noisy : Type 0) (entries : List Entry) (journal : FilePath)
    (apart : Apart entries journal) (bytes : Bytes) where
  -- The entries are undecided, and the journal is there.
  abbrev pub Open : Disk → Type 0
  Open = Condition entries journal (Undecided sha256_hex) (JournalIs bytes)

  abbrev Back : List Entry → Disk → Type 0
  Back rolled =
      Condition entries journal (Rolling sha256_hex entries journal apart rolled) (JournalIs bytes)

  Back-Open : (rolled : List Entry) (d : Disk) → Back rolled d → Open d
  Back-Open rolled d c = record {
    reserved = c.reserved;
    entry_holds = λ e m. (c.entry_holds e m).0;
    journal_holds = c.journal_holds;
  }

  module _ (e : Entry) (mem : Memᴰ e entries) (rolled : List Entry) where
    note_before :
        (d : Disk)
        → HashesTo sha256_hex (node_at d e.destination) e.before_sha256
        → Back rolled d
        → Back (e ∷ rolled) d
    note_before d hashes c = record {
      reserved = c.reserved;
      entry_holds = λ e' m. (
        (c.entry_holds e' m).0,
        λ which. elim (Memᴰ.cases_cons which) [
          | inl same ↦
              subst (λ (x : Entry). HashesTo sha256_hex (node_at d x.destination) x.before_sha256)
                (sym same) hashes
          | inr later ↦ (c.entry_holds e' m).1 later
        ],
      );
      journal_holds = c.journal_holds;
    }

    -- The destination is the after image, so the before image is there.
    before_image :
        (d : Disk)
        → HashesTo sha256_hex (node_at d e.destination) e.after_sha256
        → Back rolled d
        → HashesTo sha256_hex (node_at d e.before_path) e.before_sha256
    before_image d is_after c = elim (c.entry_holds e mem).0.0 [
      | inl (is_before, fits) ↦
          absurd (apart.changes e mem (both (node_at d e.destination) is_before is_after))
      | inr (_, there) ↦ there
    ]
      where
        both :
            (o : Option Node)
            → HashesTo sha256_hex o e.before_sha256
            → HashesTo sha256_hex o e.after_sha256
            → e.before_sha256 ≡ e.after_sha256
        both none h k = absurd h
        both (some (regular inode found)) h k = sym h ∙ k
        both (some irregular) h k = absurd h

    destination-Plain : (d : Disk) → Back rolled d → Plain (node_at d e.destination)
    destination-Plain d c = elim (c.entry_holds e mem).0.0 [
      | inl (h, fits) ↦ HashesTo-Plain sha256_hex _ _ h
      | inr (h, there) ↦ HashesTo-Plain sha256_hex _ _ h
    ]

    After : Disk → Type 0
    After d = Back rolled d × HashesTo sha256_hex (node_at d e.destination) e.after_sha256

    -- A regular file is at a path that hashes.
    file_of :
        (o : Option Node) (digest : Text)
        → HashesTo sha256_hex o digest
        → (inode : ℕ) × (found : Bytes) × (o ≡ some (regular inode found))
    file_of none digest h = absurd h
    file_of (some (regular inode found)) digest h = (inode, found, refl)
    file_of (some irregular) digest h = absurd h

    restore_destination-Ends :
        (w : World)
        → Calm Noisy w
        → After w.disk
        → Ends Noisy
            (λ _ d. Back (e ∷ rolled) d)
            (λ failure d. Open d × Noisy)
            Open
            (restore_destination sha256_hex e w)
    unfolding restore_destination After
    restore_destination-Ends w calm (c, is_after) =
        resume-Bool _ _
          (weaken _
            (authenticate-Ends sha256_hex Noisy After e.before_path e.before_sha256 w calm
              (c, is_after) (HashesTo-Fits sha256_hex _ _ (before_image w.disk is_after c)))
            (λ _ d h. h) (λ failure d (h, n). (Back-Open rolled d h.0, n))
            (λ d h. Back-Open rolled d h.0))
          (λ w' calm' ((c', after'), there).
            let (inode, found, held) =
              file_of (node_at w'.disk e.before_path) e.before_sha256 there in
            try-Ends {R = λ failure d. Open d × Noisy × (is_os_error failure ≡ true)}
              is_rename_error _ _
              (weaken _
                (replace_staged-Ends Noisy After (Back (e ∷ rolled)) e.before_path e.destination
                  (apart.before_beside e mem) (λ d a. destination-Plain d a.0)
                  (λ d i b a at.
                    restore_moves sha256_hex entries journal apart (JournalIs bytes) e mem d i b
                      rolled (rw at at (before_image d a.1 a.0)) a.0)
                  w' inode found calm' (c', after') held)
                (λ _ d h. h) (λ failure d (h, n, is). (opened d h, n, is)) opened)
              (λ failure d (h, n, is) uncaught. (h, n))
              (λ failure w2 calm2 (h, n, is) in_clause. record { calm = calm2; holds = (h, n) })
              λ _ w2 calm2 h. record { calm = calm2; holds = h })
          λ w' calm' ((c', after'), missing).
            absurd (rw missing at (before_image w'.disk after' c'))
      where
        opened : (d : Disk) → After d ⊎ Back (e ∷ rolled) d → Open d
        opened d (inl a) = Back-Open rolled d a.0
        opened d (inr b) = Back-Open (e ∷ rolled) d b

  -- Every entry that is still to come or was rolled back.
  Covered : List Entry → List Entry → Type 0
  Covered todo rolled = (e : Entry) → Memᴰ e entries → Memᴰ e todo ⊎ Memᴰ e rolled

  -- What the loop returns.
  abbrev Looped : RollbackOutcome → Disk → Type 0
  Looped outcome d =
      (outcome.unresolved ≡ [])
      × Condition entries journal (Settled sha256_hex (λ e. e.before_sha256)) (JournalIs bytes) d

  all-Back :
      (rolled : List Entry)
      → Covered [] rolled
      → (d : Disk) → Back rolled d
      → Condition entries journal (Settled sha256_hex (λ e. e.before_sha256)) (JournalIs bytes) d
  unfolding Covered
  all-Back rolled covered d c = record {
    reserved = c.reserved;
    entry_holds = λ e m.
        let (undecided, back) = c.entry_holds e m in
        (
          back (elim (covered e m) [
            | inl none_left ↦ absurd (Memᴰ.not-nil none_left)
            | inr in_rolled ↦ in_rolled
          ]),
          elim undecided.0 [
            | inl (h, fits) ↦ fits
            | inr (h, there) ↦ HashesTo-Fits sha256_hex _ _ there
          ],
          undecided.1,
        );
    journal_holds = c.journal_holds;
  }

  Covered-next :
      (e : Entry) (todo rolled : List Entry) → Covered (e ∷ todo) rolled → Covered todo (e ∷ rolled)
  unfolding Covered
  Covered-next e todo rolled covered x m = elim (covered x m) [
    | inl in_todo ↦ elim (Memᴰ.cases_cons in_todo) [
      | inl same ↦ inr (Memᴰ.head same)
      | inr later ↦ inl later
    ]
    | inr in_rolled ↦ inr (Memᴰ.tail in_rolled)
  ]

  rollback_entries-Ends :
      (candidates : Option (List FilePath)) (todo rolled : List Entry) (so_far : RollbackOutcome)
      → ((e : Entry) → Memᴰ e todo → Memᴰ e entries)
      → Covered todo rolled
      → so_far.unresolved ≡ []
      → (w : World) → Calm Noisy w
      → Back rolled w.disk
      → Ends Noisy Looped
          (λ failure d. Open d × Noisy)
          Open
          (rollback_entries sha256_hex candidates todo so_far w)
  unfolding rollback_entries After
  rollback_entries-Ends candidates [] rolled so_far within covered none_yet w calm c = record {
    calm = calm;
    holds = (none_yet, all-Back rolled covered w.disk c);
  }
  rollback_entries-Ends candidates (e ∷ todo) rolled so_far within covered none_yet w calm c =
      resume-Ends _ _
        (weaken _ (classify_destination-Ends sha256_hex Noisy (Back rolled) e known w calm c)
          (λ _ d h. h) (λ failure d (h, n). (Back-Open rolled d h, n)) (Back-Open rolled))
        (cases λ so_far' none_yet' w' calm' c'.
          rollback_entries-Ends candidates todo (e ∷ rolled) so_far' (λ x m. within x (Memᴰ.tail m))
            (Covered-next e todo rolled covered) none_yet' w' calm' c')
    where
      mem : Memᴰ e entries
      mem = within e (Memᴰ.head refl)

      known : (d : Disk) → Back rolled d → AtImage sha256_hex Noisy (Back rolled) e d
      known d h = elim (h.entry_holds e mem).0.0 [ inl (x, fits) ↦ inl x | inr (x, there) ↦ inr x ]

      Next : Type 0
      Next =
          (so_far' : RollbackOutcome)
          → so_far'.unresolved ≡ []
          → (w' : World) → Calm Noisy w'
          → Back (e ∷ rolled) w'.disk
          → Ends Noisy Looped (λ failure d. Open d × Noisy) Open
              (rollback_entries sha256_hex candidates todo so_far' w')

      cases :
          Next
          → (state : DestinationState) (w' : World) → Calm Noisy w'
          → Classified sha256_hex Noisy (Back rolled) e state w'.disk
          → Ends Noisy Looped
              (λ failure d. Open d × Noisy)
              Open
              ((restore_if_after sha256_hex e state >>= λ _.
                  rollback_entries sha256_hex candidates todo
                    (record_state candidates e.destination state so_far))
                w')
      cases next after w' calm' h =
          resume-Ends _ _ (restore_destination-Ends e mem rolled w' calm' h)
            λ _ w2 calm2 c2. next _ none_yet w2 calm2 c2
      cases next before w' calm' (c', h) =
          next _ none_yet w' calm' (note_before e mem rolled w'.disk h c')
      cases next other w' calm' h = absurd h

  -- Settled at the before images, the journal there or gone.
  abbrev pub RolledBack : Disk → Type 0
  RolledBack =
      Loose sha256_hex entries journal apart Noisy bytes (Settled sha256_hex (λ e. e.before_sha256))

  pub rollback_prepared-Ends :
      (candidates : Option (List FilePath)) (w : World)
      → Calm Noisy w
      → Open w.disk
      → Ends Noisy
          (λ outcome d.
            (outcome.unresolved ≡ [])
            × Condition entries journal (Settled sha256_hex (λ e. e.before_sha256)) NoJournal d)
          (λ failure d. (Open d ⊎ RolledBack d) × Noisy)
          (λ d. Open d ⊎ RolledBack d)
          (rollback_prepared sha256_hex entries journal bytes candidates w)
  unfolding rollback_prepared Covered
  rollback_prepared-Ends candidates w calm c =
      resume-Ends _ _
        (weaken _
          (rollback_entries-Ends candidates (reversed entries) [] nothing_yet
            (λ e m. mem-reversed entries e m) (λ e m. inl (reversed-mem entries e m)) refl w calm
            start)
          (λ _ d h. h) (λ failure d (h, n). (inl h, n)) λ d h. inl h)
        λ outcome w' calm' (resolved, c').
          rw (is_nil outcome.unresolved resolved, finish_rollback, if◌then◌else◌)
            (resume-Ends _ _
              (weaken _
                (cleanup_transaction-Ends sha256_hex entries journal apart Noisy bytes
                  (λ e. e.before_sha256) w' calm' c')
                (λ _ d h. h) (λ failure d (h, n). (inr h, n)) λ d h. inr h)
              λ _ w2 calm2 h. record { calm = calm2; holds = (resolved, h) })
    where
      is_nil : (paths : List FilePath) → paths ≡ [] → is_empty paths ≡ true
      is_nil paths e = rw e refl

      start : Back [] w.disk
      start = record {
        reserved = c.reserved;
        entry_holds = λ e m. (c.entry_holds e m, λ n. absurd (Memᴰ.not-nil n));
        journal_holds = c.journal_holds;
      }
