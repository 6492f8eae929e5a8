-- ===== src/Transaction/Recovery.antt =====
-- The states that a commit or a recovery may leave, and loading the journal in them, under a schedule.
use doc_lattice.Prelude.{
  ℕ, ◌≡◌, inl, inr, refl, sym, ◌∙◌, true, false, some, List, [], ◌∷◌, Memᴰ, if◌then◌else◌, nat_eq,
  list_eq, option_eq,
}
use doc_lattice.Text.{Text}
use doc_lattice.Disk.{
  Bytes, FilePath, Node, regular, irregular, Disk, World, is_os_error, is_value_error, node_at,
  ◌>>=◌, attempt, read_bytes,
}
use doc_lattice.Transaction.{
  Entry, WireModels, LoadedJournal, parse_journal, validate_path_roles, artifact_name_fits,
  before_infix, after_infix,
}
use doc_lattice.Transaction.Recover.{
  check_artifact_node, validate_artifact_path, validate_artifact_paths, present_node,
  journal_is_present, or_invalid, load_journal,
}
use doc_lattice.Transaction.Runs.{Calm, Ends, resume-Ends, resume-Bool, try-Ends}
use doc_lattice.Transaction.Calls.{Plain, Missing-is_os_error, lstat-Ends, read-Ends}
use doc_lattice.Transaction.Conditions.{JournalIs, NoJournal}

-- The names of the staged images are the ones that journal validation expects.
abbrev pub NamesFit : List Entry → Type 0
NamesFit entries =
    (e : Entry)
    → Memᴰ e entries
    → (artifact_name_fits e.destination e.before_path before_infix ≡ true)
      × (artifact_name_fits e.destination e.after_path after_infix ≡ true)

module _ (Noisy : Type 0) (P : Disk → Type 0) where
  validate_artifact_path-Ends :
      (destination artifact : FilePath) (infix_text : Text)
      → artifact_name_fits destination artifact infix_text ≡ true
      → ((d : Disk) → P d → Plain (node_at d artifact))
      → (w : World) → Calm Noisy w
      → P w.disk
      → Ends Noisy
          (λ _ d. P d)
          (λ failure d. P d × Noisy)
          P
          (validate_artifact_path destination artifact infix_text w)
  unfolding validate_artifact_path
  validate_artifact_path-Ends destination artifact infix_text fits plain w calm p =
      rw (fits, if◌then◌else◌)
        (try-Ends is_os_error _ _ (lstat-Ends Noisy P w calm p artifact)
          (λ failure d m uncaught.
            absurd (Missing-is_os_error Noisy P artifact failure d m uncaught))
          (λ failure w' calm' (h, why) in_clause. elim why [
            | inl (is, missing) ↦ rw (is, check_artifact_node) (record { calm = calm'; holds = h })
            | inr (is, n) ↦ rw (is, check_artifact_node) (record { calm = calm'; holds = (h, n) })
          ])
          checked)
    where
      checked :
          (node : Node) (w' : World)
          → Calm Noisy w'
          → P w'.disk × (node_at w'.disk artifact ≡ some node)
          → Ends Noisy
              (λ _ d. P d)
              (λ failure d. P d × Noisy)
              P
              (check_artifact_node artifact (inr node) w')
      checked (regular inode bytes) w' calm' (h, e) = record { calm = calm'; holds = h }
      checked irregular w' calm' (h, e) = absurd (rw e at (plain w'.disk h))

  validate_artifact_paths-Ends :
      (entries : List Entry)
      → NamesFit entries
      → ((e : Entry)
          → Memᴰ e entries
          → (d : Disk) → P d
          → Plain (node_at d e.before_path) × Plain (node_at d e.after_path))
      → (w : World) → Calm Noisy w
      → P w.disk
      → Ends Noisy (λ _ d. P d) (λ failure d. P d × Noisy) P (validate_artifact_paths entries w)
  unfolding validate_artifact_paths
  validate_artifact_paths-Ends [] fits plain w calm p = record { calm = calm; holds = p }
  validate_artifact_paths-Ends (e ∷ entries) fits plain w calm p =
      resume-Ends _ _
        (validate_artifact_path-Ends e.destination e.before_path before_infix
          (fits e (Memᴰ.head refl)).0 (λ d h. (plain e (Memᴰ.head refl) d h).0) w calm p)
        λ _ w' calm' p'.
          resume-Ends _ _
            (validate_artifact_path-Ends e.destination e.after_path after_infix
              (fits e (Memᴰ.head refl)).1 (λ d h. (plain e (Memᴰ.head refl) d h).1) w' calm' p')
            λ _ w2 calm2 p2.
              validate_artifact_paths-Ends entries (λ x m. fits x (Memᴰ.tail m))
                (λ x m. plain x (Memᴰ.tail m)) w2 calm2 p2

  module _ (journal : FilePath) where
    pub journal_present-Ends :
        (bytes : Bytes)
        → ((d : Disk) → P d → JournalIs bytes (node_at d journal))
        → (w : World) → Calm Noisy w
        → P w.disk
        → Ends Noisy
            (λ present d. P d × (present ≡ true))
            (λ failure d. P d × Noisy)
            P
            (journal_is_present journal w)
    unfolding journal_is_present
    journal_present-Ends bytes there w calm p =
        try-Ends is_os_error _ _ (lstat-Ends Noisy P w calm p journal)
          (λ failure d m uncaught.
            absurd (Missing-is_os_error Noisy P journal failure d m uncaught))
          (λ failure w' calm' (h, why) in_clause. elim why [
            | inl (is, missing) ↦ let (inode, e) = there w'.disk h in cc
            | inr (is, n) ↦ rw (is, present_node) (record { calm = calm'; holds = (h, n) })
          ])
          λ node w' calm' (h, e).
            let (inode, e') = there w'.disk h in
            rw (node_is node inode (sym e ∙ e'), present_node)
              (record { calm = calm'; holds = (h, refl) })
      where
        node_is :
            (node : Node) (inode : ℕ)
            → some node ≡ some (regular inode bytes)
            → node ≡ regular inode bytes
        node_is node inode e = cc

    pub journal_absent-Ends :
        ((d : Disk) → P d → NoJournal (node_at d journal))
        → (w : World) → Calm Noisy w
        → P w.disk
        → Ends Noisy
            (λ present d. P d × (present ≡ false))
            (λ failure d. P d × Noisy)
            P
            (journal_is_present journal w)
    unfolding journal_is_present
    journal_absent-Ends gone w calm p =
        try-Ends is_os_error _ _ (lstat-Ends Noisy P w calm p journal)
          (λ failure d m uncaught.
            absurd (Missing-is_os_error Noisy P journal failure d m uncaught))
          (λ failure w' calm' (h, why) in_clause. elim why [
            | inl (is, missing) ↦ rw (is, present_node) (record { calm = calm'; holds = (h, refl) })
            | inr (is, n) ↦ rw (is, present_node) (record { calm = calm'; holds = (h, n) })
          ])
          λ node w' calm' (h, e). let none_there = gone w'.disk h in cc

    pub load_journal-Ends :
        (models : WireModels) (bytes : Bytes) (loaded : LoadedJournal) (paths : List FilePath)
        → ((d : Disk) → P d → JournalIs bytes (node_at d journal))
        → parse_journal models bytes ≡ inr loaded
        → validate_path_roles loaded.entries journal ≡ inr paths
        → NamesFit loaded.entries
        → ((e : Entry)
            → Memᴰ e loaded.entries
            → (d : Disk) → P d
            → Plain (node_at d e.before_path) × Plain (node_at d e.after_path))
        → (w : World) → Calm Noisy w
        → P w.disk
        → Ends Noisy
            (λ r d. P d × (r ≡ (loaded, bytes)))
            (λ failure d. P d × Noisy)
            P
            (load_journal models journal w)
    unfolding load_journal
    load_journal-Ends models bytes loaded paths there parses roles fits plain w calm p =
        resume-Bool _ _ (journal_present-Ends bytes there w calm p)
          (λ w' calm' (h, _).
            resume-Ends {Q = λ encoded d. P d × (encoded ≡ bytes)} _ _ (read_it w' calm' h)
              λ encoded w2 calm2 (h2, is).
                rw (is, parses, roles, or_invalid)
                  (resume-Ends _ _ (validated w2 calm2 h2)
                    λ _ w3 calm3 h3. record { calm = calm3; holds = (h3, refl) }))
          λ w' calm' (h, never). cc
      where
        read_it :
            (w' : World)
            → Calm Noisy w'
            → P w'.disk
            → Ends Noisy
                (λ encoded d. P d × (encoded ≡ bytes))
                (λ failure d. P d × Noisy)
                P
                ((attempt is_os_error (read_bytes journal) >>= or_invalid) w')
        read_it w' calm' h =
            try-Ends is_os_error _ _
              (read-Ends Noisy P w' calm' h journal (let (inode, e) = there w'.disk h in rw e tt))
              (λ failure d m uncaught.
                absurd (Missing-is_os_error Noisy P journal failure d m uncaught))
              (λ failure w2 calm2 (h2, why) in_clause. elim why [
                | inl (is, missing) ↦ let (inode, e) = there w2.disk h2 in cc
                | inr (is, n) ↦ record { calm = calm2; holds = (h2, n) }
              ])
              λ found w2 calm2 (h2, inode, held). record {
                calm = calm2;
                holds = (h2, (let (i, e) = there w2.disk h2 in cc));
              }

        validated :
            (w' : World)
            → Calm Noisy w'
            → P w'.disk
            → Ends Noisy
                (λ _ d. P d)
                (λ failure d. P d × Noisy)
                P
                ((attempt is_value_error (validate_artifact_paths loaded.entries) >>= or_invalid)
                  w')
        validated w' calm' h =
            try-Ends {R = λ failure d. P d × Noisy} is_value_error _ _
              (validate_artifact_paths-Ends loaded.entries fits plain w' calm' h)
              (λ failure d h2 uncaught. h2)
              (λ failure w2 calm2 (h2, n) in_clause. record { calm = calm2; holds = (h2, n) })
              λ _ w2 calm2 h2. record { calm = calm2; holds = h2 }
