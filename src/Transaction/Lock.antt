-- ===== src/Transaction/Lock.antt =====
-- reconcile_transaction.py: the lock capability, and the lease under which an operation runs. What the file system
-- says of the project root is an argument; the mutex of the capability and `flock` are left out.
use doc_lattice.Prelude.{
  ℕ, ◌≡◌, ◌≢◌, ◌⊎◌, inl, inr, refl, ◌∙◌, Bool, true, false, not, Option, none, some, if◌then◌else◌,
  Bool-cases, ◌==◌, nat_eq, list_eq, option_eq,
}
use doc_lattice.Disk.{
  FilePath, World, Failure, lock_inactive, lock_in_use, lock_elsewhere, End, done, raised, crashed,
}

-- ReconcileLock
pub record ReconcileLock : Type 0 where
  pub project_root : FilePath
  pub directory_identity : ℕ
  pub active : Bool
  pub in_use : Bool

-- ReconcileLock._claim_operation
unfoldable pub claim_operation : ReconcileLock → Failure ⊎ ReconcileLock
claim_operation lock =
    if not lock.active
    then inl lock_inactive
    else if lock.in_use
    then inl lock_in_use
    else inr (record lock { in_use = true })

-- ReconcileLock._release_operation
unfoldable pub release_operation : ReconcileLock → ReconcileLock
release_operation lock = record lock { in_use = false }

-- ReconcileLock._deactivate
unfoldable pub deactivate : ReconcileLock → ReconcileLock
deactivate lock = record lock { active = false }

-- ReconcileLock._protects_directory
unfoldable pub protects_directory : ReconcileLock → ℕ → Bool
protects_directory lock identity = lock.directory_identity == identity

-- What `project_root.resolve()` and the `stat` of it answer; `none` is an error.
pub record Requested : Type 0 where
  pub resolved : Option FilePath
  pub identity : Option ℕ

-- _require_reconcile_lock: the exception, if the lock is refused.
abbrev pub check_identity : ReconcileLock → Option ℕ → Option Failure
check_identity lock none = some lock_elsewhere
check_identity lock (some identity) =
    if not (protects_directory lock identity) then some lock_elsewhere else none

abbrev pub check_root : ReconcileLock → Option ℕ → Option FilePath → Option Failure
check_root lock identity none = some lock_elsewhere
check_root lock identity (some root) =
    if not (lock.project_root == root) then some lock_elsewhere else check_identity lock identity

unfoldable pub require_reconcile_lock : ReconcileLock → Requested → Option Failure
unfolding protects_directory
require_reconcile_lock lock requested =
    if not lock.active
    then some lock_inactive
    else check_root lock requested.identity requested.resolved

-- An operation on the lock and the world.
abbrev pub Locked : Type 0 → Type 0
Locked A = ReconcileLock × World → End A × ReconcileLock × World

-- `finally: release`. A killed process releases nothing.
abbrev pub finally_release :
    {A : Type 0} → End A × ReconcileLock × World → End A × ReconcileLock × World
finally_release (done a, lock, w) = (done a, release_operation lock, w)
finally_release (raised failure, lock, w) = (raised failure, release_operation lock, w)
finally_release (crashed, lock, w) = (crashed, lock, w)

abbrev pub claimed :
    {A : Type 0}
    → Locked A
    → ReconcileLock
    → World
    → Failure ⊎ ReconcileLock
    → End A × ReconcileLock × World
claimed body lock w (inl failure) = (raised failure, lock, w)
claimed body lock w (inr held) = finally_release (body (held, w))

abbrev pub validated :
    {A : Type 0} → Locked A → ReconcileLock → World → Option Failure → End A × ReconcileLock × World
validated body lock w (some failure) = (raised failure, lock, w)
validated body lock w none = claimed body lock w (claim_operation lock)

-- `with _reconcile_operation_lease(lock, project_root): body`
unfoldable pub operation_lease : {A : Type 0} → Requested → Locked A → Locked A
unfolding claim_operation release_operation require_reconcile_lock
operation_lease requested body (lock, w) =
    validated body lock w (require_reconcile_lock lock requested)

-- commit_rewrites and recover_transaction: the locked operation, under a lease.
unfoldable pub leased : {A : Type 0} → Requested → (World → End A × World) → Locked A
unfolding operation_lease
leased requested operation =
    operation_lease requested λ state. let (end, w) = operation state.1 in (end, state.0, w)

-- The lock is accepted for the project root.
abbrev pub Accepts : ReconcileLock → Requested → Type 0
Accepts lock requested = require_reconcile_lock lock requested ≡ none

claim_idle :
    (lock : ReconcileLock)
    → lock.active ≡ true
    → lock.in_use ≡ false
    → claim_operation lock ≡ inr (record lock { in_use = true })
unfolding claim_operation
claim_idle lock active idle = rw (active, idle, if◌then◌else◌) refl

claim_held :
    (lock : ReconcileLock)
    → lock.active ≡ true
    → claim_operation (record lock { in_use = true }) ≡ inl lock_in_use
unfolding claim_operation
claim_held lock active = rw (active, if◌then◌else◌) refl

Accepts-active :
    (lock : ReconcileLock) (requested : Requested) → Accepts lock requested → lock.active ≡ true
unfolding require_reconcile_lock
Accepts-active lock requested accepted = elim (Bool-cases lock.active) [
  | inl active ↦ active
  | inr inactive ↦ cc (rw (inactive, if◌then◌else◌) at accepted)
]

release_held :
    (lock : ReconcileLock)
    → lock.in_use ≡ false
    → release_operation (record lock { in_use = true }) ≡ lock
unfolding release_operation
release_held lock idle = cc

module _ {A : Type 0} (requested : Requested) (lock : ReconcileLock)
    (accepted : Accepts lock requested) (idle : lock.in_use ≡ false) where
  inner :
      (body : Locked A) (w : World)
      → operation_lease requested body (record lock { in_use = true }, w)
        ≡ (raised lock_in_use, record lock { in_use = true }, w)
  unfolding operation_lease require_reconcile_lock
  inner body w =
      rw (accepted, claim_held lock (Accepts-active lock requested accepted), validated, claimed)
        refl

  -- A lease on an idle lock runs its body with the lock held.
  lease_runs :
      (body : Locked A) (w : World)
      → operation_lease requested body (lock, w)
        ≡ finally_release (body (record lock { in_use = true }, w))
  unfolding operation_lease
  lease_runs body w =
      rw
        (
          accepted,
          claim_idle lock (Accepts-active lock requested accepted) idle,
          validated,
          claimed,
        )
        refl

  -- With an accepted, idle lock: an operation that is started under the lease of another is refused and the world stays
  -- as it was; when that refusal leaves the outer operation, the lock is idle again.
  pub operation_lease_excludes :
      (body : Locked A) (w : World)
      → operation_lease requested (operation_lease requested body) (lock, w)
        ≡ (raised lock_in_use, lock, w)
  operation_lease_excludes body w =
      lease_runs (operation_lease requested body) w
      ∙ (rw (inner body w, finally_release, release_held lock idle) refl)

  -- With an accepted, idle lock: an operation that is not killed ends under a lease as it does without one, and the lock
  -- is idle again.
  pub leased_releases :
      (operation : World → End A × World) (w : World)
      → (operation w).0 ≢ crashed
      → leased requested operation (lock, w) ≡ ((operation w).0, lock, (operation w).1)
  unfolding leased
  leased_releases operation w alive =
      lease_runs (λ state. let (end, w') = operation state.1 in (end, state.0, w')) w
      ∙ ended (operation w) alive
    where
      ended :
          (r : End A × World)
          → r.0 ≢ crashed
          → finally_release (r.0, record lock { in_use = true }, r.1) ≡ (r.0, lock, r.1)
      ended (done a, w') alive' = rw (release_held lock idle) refl
      ended (raised failure, w') alive' = rw (release_held lock idle) refl
      ended (crashed, w') alive' = absurd (alive' refl)
