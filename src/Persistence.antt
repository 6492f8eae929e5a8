-- ===== src/Persistence.antt =====
-- persistence.py: staging a file beside its destination, and putting it in place. File modes and the
-- notes on exceptions are left out.
use doc_lattice.Prelude.{
  inl, inr, Bool, true, false, if◌then◌else◌, ◌==◌, nat_eq, list_eq, option_eq,
}
use doc_lattice.Text.{Text, codes}
use doc_lattice.Disk.{
  Bytes, FilePath, parent, Failure, wrong_directory, Action, pure, raise, ◌>>=◌, ◌>>◌, attempt,
  lstat, read_bytes, unlink, sync_directory, replace, link, mkstemp, write_bytes, is_not_found,
  is_os_error,
}

-- `PERSISTENCE_TEMP_SUFFIX`
abbrev pub temp_suffix : Text
temp_suffix = codes ".tmp"

-- file_sha256, with `hashlib.sha256(…).hexdigest()` as `sha256_hex`
unfoldable pub file_sha256 : (Bytes → Text) → FilePath → Action Text
file_sha256 sha256_hex path = do bytes ← read_bytes path; pure (sha256_hex bytes)

unfoldable pub durable_unlink : FilePath → Action (Unit {0})
durable_unlink path = attempt is_not_found (unlink path) >>= λ outcome. elim outcome [
  | inl missing ↦ pure tt
  | inr _ ↦ sync_directory (parent path)
]

-- _durable_unlink_preserving_error: whether the stage is gone.
unfoldable pub durable_unlink_preserving_error : FilePath → Action Bool
unfolding durable_unlink
durable_unlink_preserving_error staged = attempt is_os_error (durable_unlink staged) >>= λ outcome.
    elim outcome [ inl failure ↦ pure false | inr _ ↦ pure true ]

-- The `except OSError as primary` blocks: the stage is cleaned, and the exception raised again.
unfoldable pub clean_and_raise : {A : Type 0} → FilePath → Failure → Action A
unfolding durable_unlink_preserving_error
clean_and_raise staged failure = do durable_unlink_preserving_error staged; raise failure

-- What stage_bytes does with the file that mkstemp made.
unfoldable pub fill_stage : FilePath → FilePath → Bytes → Action FilePath
unfolding clean_and_raise
fill_stage destination staged bytes =
    attempt is_os_error (write_bytes staged bytes >> sync_directory (parent destination))
    >>= λ outcome. elim outcome [
      | inl failure ↦ clean_and_raise staged failure
      | inr _ ↦ pure staged
    ]

unfoldable pub stage_bytes : FilePath → Bytes → Text → Action FilePath
unfolding fill_stage
stage_bytes destination bytes prefix = do
  attempt is_not_found (lstat destination)
  staged ← mkstemp (parent destination) prefix temp_suffix
  fill_stage destination staged bytes

unfoldable pub replace_staged : FilePath → FilePath → Action (Unit {0})
replace_staged staged destination =
    if parent staged == parent destination
    then (do replace staged destination; sync_directory (parent destination))
    else raise wrong_directory

unfoldable pub atomic_replace_bytes : FilePath → Bytes → Text → Action (Unit {0})
unfolding stage_bytes replace_staged clean_and_raise
atomic_replace_bytes path bytes prefix = do
  staged ← stage_bytes path bytes prefix
  attempt is_os_error (replace_staged staged path) >>= λ outcome. elim outcome [
    | inl failure ↦ clean_and_raise staged failure
    | inr _ ↦ pure tt
  ]

unfoldable pub atomic_create_bytes : FilePath → Bytes → Text → Action (Unit {0})
unfolding stage_bytes clean_and_raise durable_unlink
atomic_create_bytes path bytes prefix = do
  staged ← stage_bytes path bytes prefix
  attempt is_os_error (link staged path >> sync_directory (parent path)) >>= λ outcome.
      elim outcome [ inl failure ↦ clean_and_raise staged failure | inr _ ↦ durable_unlink staged ]
