-- ===== src/Transaction/Atomic.antt =====
-- A commit, and the recoveries after it, seen as one transaction on the destinations (reconcile_transaction.py).
use doc_lattice.Prelude.{
  ◌≡◌, ◌≢◌, inl, inr, refl, Option, List, [], ◌∷◌, Memᴰ, nat_eq, list_eq, option_eq,
}
use doc_lattice.Text.{Text}
use doc_lattice.Disk.{Bytes, FilePath, Node, Disk, Fault, World, End, done, raised, crashed}
use doc_lattice.Transaction.{Entry, WireModels}
use doc_lattice.Transaction.Recover.{RecoveryResult, recover_transaction_locked}
use doc_lattice.Transaction.Commit.{commit_prepared}
use doc_lattice.Transaction.Runs.{Ends}
use doc_lattice.Transaction.Images.{HashesTo}
use doc_lattice.Transaction.Conditions.{Apart, Condition, JournalIs}
use doc_lattice.Transaction.Mark.{commit_prepared-Ends, Final}
use doc_lattice.Transaction.Recovering.{At, Decided, Recoverable, Readable, recover-Ends}
use doc_lattice.Transaction.Disjoint.{validate_path_roles-Apart}

-- A process that starts on the disk, under a schedule.
abbrev pub start : List Fault → Disk → World
start schedule d = record { disk = d; schedule = schedule }

-- Where an action ends, for every schedule.
left_behind :
    {A : Type 0} {Q : A → Disk → Type 0} {X : Disk → Type 0} (r : End A × World)
    → Ends (Unit {0}) Q (λ failure d. X d × Unit {0}) X r
    → ((a : A) → Q a r.1.disk → X r.1.disk)
    → X r.1.disk
left_behind (done a, w) ends settled = settled a ends.holds
left_behind (raised failure, w) ends settled = ends.holds.0
left_behind (crashed, w) ends settled = ends.holds.0

returned :
    {A : Type 0} {Q : A → Disk → Type 0} {X : Disk → Type 0} (r : End A × World) (a : A)
    → Ends (Unit {0}) Q (λ failure d. X d × Unit {0}) X r
    → r.0 ≡ done a
    → (b : A) × Q b r.1.disk
returned (done b, w) a ends h = (b, ends.holds)
returned (raised failure, w) a ends h = cc
returned (crashed, w) a ends h = cc

-- An action that may not fail returns.
returns :
    {A : Type 0} {Q : A → Disk → Type 0} {X : Disk → Type 0} (r : End A × World)
    → Ends ⊥ Q (λ failure d. X d × ⊥) X r
    → (a : A) × (w : World) × (r ≡ (done a, w)) × Q a w.disk
returns (done a, w) ends = (a, w, refl, ends.holds)
returns (raised failure, w) ends = absurd ends.holds.1
returns (crashed, w) ends = absurd ends.holds.1

-- Every entry has both of its images, and its destination is its before image.
abbrev pub Staged : (Bytes → Text) → Entry → Option Node → Option Node → Option Node → Type 0
Staged sha256_hex e destination before after =
    HashesTo sha256_hex destination e.before_sha256
    × HashesTo sha256_hex before e.before_sha256
    × HashesTo sha256_hex after e.after_sha256

module _ (sha256_hex : Bytes → Text) (models : WireModels) (entries : List Entry)
    (journal : FilePath) (bytes committed_bytes : Bytes)
    (readable : Readable entries journal bytes committed_bytes models)
    (changes : (e : Entry) → Memᴰ e entries → e.before_sha256 ≢ e.after_sha256)
    (different : bytes ≢ committed_bytes) where
  -- The paths are apart, since the journal is accepted.
  abbrev apart : Apart entries journal
  apart =
      validate_path_roles-Apart entries journal readable.paths readable.roles readable.names_fit
        changes

  abbrev pub Ready : Disk → Type 0
  Ready = Condition entries journal (Staged sha256_hex) (JournalIs bytes)

  abbrev pub Repairable : Disk → Type 0
  Repairable = Recoverable sha256_hex entries journal apart bytes committed_bytes different

  abbrev pub Resolved : Disk → Type 0
  Resolved = Decided sha256_hex entries journal apart bytes committed_bytes different

  abbrev pub commit : World → End (Unit {0}) × World
  commit =
      commit_prepared sha256_hex
        (record { entries = entries; journal = journal; journal_bytes = bytes }) committed_bytes

  abbrev pub recover : World → End RecoveryResult × World
  recover = recover_transaction_locked sha256_hex models journal

  -- The disk after recoveries under some schedules, one after the other.
  abbrev pub recoveries : List (List Fault) → Disk → Disk
  recoveries [] d = d
  recoveries (schedule ∷ later) d = recoveries later (recover (start schedule d)).1.disk

  commit-Ends :
      (w : World)
      → Ready w.disk
      → Ends
          (Unit {0})
          (λ _ d.
            At sha256_hex entries journal apart bytes committed_bytes different
              (λ e. e.after_sha256)
              d)
          (λ failure d.
            Final sha256_hex (Unit {0}) entries journal apart bytes committed_bytes different tt d
            × Unit {0})
          (Final sha256_hex (Unit {0}) entries journal apart bytes committed_bytes different tt)
          (commit w)
  commit-Ends w c =
      commit_prepared-Ends sha256_hex (Unit {0}) entries journal apart bytes committed_bytes
        different tt w (inr tt)
        (record {
          reserved = c.reserved;
          entry_holds = λ e m. let (h, b, a) = c.entry_holds e m in (inl (m, h, a), b);
          journal_holds = c.journal_holds;
        })

  Final-Repairable :
      (d : Disk)
      → Final sha256_hex (Unit {0}) entries journal apart bytes committed_bytes different tt d
      → Repairable d
  Final-Repairable d (inl (inl h)) = inl h
  Final-Repairable d (inl (inr h)) = inr (inl h)
  Final-Repairable d (inr h) = inr (inr h)

  -- From a disk where every entry is staged, every run of a commit, whatever its schedule fails or kills, leaves a disk that recovery can repair.
  pub commit-Repairable : (w : World) → Ready w.disk → Repairable (commit w).1.disk
  commit-Repairable w c = Final-Repairable _ (
      left_behind (commit w) (commit-Ends w c) (λ _ h. inr (record {
        reserved = h.reserved;
        entry_holds = h.entry_holds;
        journal_holds = inl h.journal_holds;
      })))

  -- From a disk where every entry is staged, a commit that returns, whatever its schedule fails, has put every
  -- destination at its after image and removed the journal.
  pub commit-At :
      (w : World)
      → Ready w.disk
      → (commit w).0 ≡ done tt
      → At sha256_hex entries journal apart bytes committed_bytes different
          (λ e. e.after_sha256)
          (commit w).1.disk
  commit-At w c h = (returned (commit w) tt (commit-Ends w c) h).1

  -- From a disk that recovery can repair, every run of a recovery, whatever its schedule fails or kills, leaves a disk that recovery can repair.
  pub recover-Repairable : (w : World) → Repairable w.disk → Repairable (recover w).1.disk
  recover-Repairable w c =
      left_behind (recover w)
        (recover-Ends sha256_hex entries journal apart bytes committed_bytes different (Unit {0})
          models readable w (inr tt) c)
        (λ _ h. decided h)
    where
      decided : {d : Disk} → Resolved d → Repairable d
      decided (inl h) = inr (
          inl (record {
            reserved = h.reserved;
            entry_holds = h.entry_holds;
            journal_holds = inl h.journal_holds;
          }))
      decided (inr h) = inr (
          inr (record {
            reserved = h.reserved;
            entry_holds = h.entry_holds;
            journal_holds = inl h.journal_holds;
          }))

  -- From a disk that recovery can repair, a recovery in which no call fails returns, with every destination at its before
  -- image, or every one at its after image, and no journal.
  pub recover-Resolved :
      (d : Disk)
      → Repairable d
      → (result : RecoveryResult) × (w : World) × (recover (start [] d) ≡ (done result, w))
        × Resolved w.disk
  recover-Resolved d c = returns (recover (start [] d)) (
      recover-Ends sha256_hex entries journal apart bytes committed_bytes different ⊥ models
        readable (start [] d) (inl refl) c)

  recoveries-Repairable :
      (schedules : List (List Fault)) (d : Disk)
      → Repairable d
      → Repairable (recoveries schedules d)
  recoveries-Repairable [] d c = c
  recoveries-Repairable (schedule ∷ later) d c =
      recoveries-Repairable later (recover (start schedule d)).1.disk
        (recover-Repairable (start schedule d) c)

  -- From a disk where every entry is staged: after a commit under any schedule, and any number of recoveries under any
  -- schedules, a recovery in which no call fails returns, with every destination at its before image, or every one at its
  -- after image, and no journal.
  pub commit-recover-Resolved :
      (w : World) (schedules : List (List Fault))
      → Ready w.disk
      → (result : RecoveryResult) × (w' : World) × (recover
            (start [] (recoveries schedules (commit w).1.disk))
          ≡ (done result, w'))
        × Resolved w'.disk
  commit-recover-Resolved w schedules c =
      recover-Resolved (recoveries schedules (commit w).1.disk)
        (recoveries-Repairable schedules (commit w).1.disk (commit-Repairable w c))
