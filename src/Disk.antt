-- ===== src/Disk.antt =====
-- What persistence.py and reconcile_transaction.py ask of the file system and of `tempfile`: the calls
-- of the standard library, as actions on a disk. A schedule says for each call whether it goes through,
-- fails with an OSError and no effect, or finds the process killed. A path is its list of components,
-- the last one first, canonical (as `Path.resolve` returns it) and below the project root.
pub mod Updates
use doc_lattice.Prelude.{
  ℕ, zero, suc, ◌+◌, ◌-◌, ◌≤◌, ◌<◌, ◌≡◌, ◌≢◌, ◌↔◌, ◌⊎◌, inl, inr, ⊎_elim, refl, sym, ap, ◌∙◌, subst,
  Bool, true, false, not, ◌&&◌, ◌||◌, Option, none, some, List, [], ◌∷◌, ◌++◌, map, Memᴰ, Memᴰ-cons,
  Memᴰ-append, All, All-append, length, length-append, length-map, take, drop, arith, ltb, leb,
  nat_eqb, nat_eqb_iff, if◌then◌else◌, is_some, is_empty, Bool-cases, Option-cases, List-cases, Eq,
  ◌==◌, ==_iff, ==_refl, nat_eq, list_eq, option_eq, contains, contains_iff,
}
use doc_lattice.Text.{Text}
use doc_lattice.Dict.{Dict, get, has, put}

abbrev pub Bytes : Type 0
Bytes = Text

abbrev pub FilePath : Type 0
FilePath = List Text

-- `path.parent`
abbrev pub parent : FilePath → FilePath
parent [] = []
parent (name ∷ directory) = directory

-- `path.name`
abbrev pub base_name : FilePath → Text
base_name [] = []
base_name (name ∷ directory) = name

-- What `lstat` shows: a regular file with its inode number and its bytes, or anything else.
pub data Node : Type 0 where
  regular : ℕ → Bytes → Node
  irregular : Node

-- The files, and what the next calls of `mkstemp` will try: an inode number and a random name part.
pub record Disk : Type 0 where
  pub files : Dict FilePath Node
  pub names : List (ℕ × Text)

pub data Fault : Type 0 where
  proceeds fails crashes : Fault

pub record World : Type 0 where
  pub disk : Disk
  pub schedule : List Fault

-- The exceptions. `os_error` is any OSError that is neither FileNotFoundError nor FileExistsError;
-- `wrong_directory` is the ValueError of replace_staged.
pub data Failure : Type 0 where
  os_error file_not_found file_exists wrong_directory : Failure
  -- ValueError of journal validation
  alias_of_journal alias_of_destination alias_of_artifact unsafe_path : FilePath → Failure
  unsupported_version : Failure
  -- ReconcilePersistenceError: what is named, and the path that it names
  invalid_journal : Failure
  unsafe_artifact unsafe_before operation_failed journal_exists unverified_journal :
      FilePath → Failure
  reset_failed : FilePath → Failure
  -- ReconcileConflictError
  changed_after_validation : FilePath → Failure
  -- how an aborted commit ended
  rolled_back : Failure → Failure
  rollback_failed : Failure → Failure → Failure
  rollback_incomplete : Failure → List FilePath → Failure
  rollback_not_attempted : Failure → Failure → Failure
  -- ReconcileInProgressError
  lock_inactive lock_in_use lock_elsewhere : Failure

-- How a call ends: it returns, it raises, or the process was killed in it.
pub data End (A : Type 0) : Type 0 where
  done : A → End A
  raised : Failure → End A
  crashed : End A

abbrev pub Action : Type 0 → Type 0
Action A = World → End A × World

abbrev pub pure : {A : Type 0} → A → Action A
pure a w = (done a, w)

abbrev pub raise : {A : Type 0} → Failure → Action A
raise failure w = (raised failure, w)

abbrev pub resume : {A B : Type 0} → (A → Action B) → End A × World → End B × World
resume next (done a, w) = next a w
resume next (raised failure, w) = (raised failure, w)
resume next (crashed, w) = (crashed, w)

infixl 5 ◌>>=◌ ◌>>◌
abbrev pub ◌>>=◌ : {A B : Type 0} → Action A → (A → Action B) → Action B
◌>>=◌ m next w = resume next (m w)

abbrev pub ◌>>◌ : {A B : Type 0} → Action A → Action B → Action B
m >> k = m >>= λ _. k

-- What `try` with an `except` clause sees: the value, or an exception of the clause. Another exception
-- goes on, and a killed process sees nothing.
abbrev pub caught : {A : Type 0} → (Failure → Bool) → End A × World → End (Failure ⊎ A) × World
caught clause (done a, w) = (done (inr a), w)
caught clause (raised failure, w) =
    (if clause failure then done (inl failure) else raised failure, w)
caught clause (crashed, w) = (crashed, w)

abbrev pub attempt : {A : Type 0} → (Failure → Bool) → Action A → Action (Failure ⊎ A)
attempt clause m w = caught clause (m w)

-- `except FileNotFoundError`
abbrev pub is_not_found : Failure → Bool
is_not_found file_not_found = true
is_not_found _ = false

-- `except OSError`
abbrev pub is_os_error : Failure → Bool
is_os_error os_error = true
is_os_error file_not_found = true
is_os_error file_exists = true
is_os_error _ = false

-- `except ValueError`, of the functions that raise one
abbrev pub is_value_error : Failure → Bool
is_value_error wrong_directory = true
is_value_error (alias_of_journal path) = true
is_value_error (alias_of_destination path) = true
is_value_error (alias_of_artifact path) = true
is_value_error (unsafe_path path) = true
is_value_error unsupported_version = true
is_value_error _ = false

-- `except ReconcilePersistenceError`
abbrev pub is_persistence : Failure → Bool
is_persistence invalid_journal = true
is_persistence (unsafe_artifact path) = true
is_persistence (unsafe_before path) = true
is_persistence (operation_failed path) = true
is_persistence (journal_exists path) = true
is_persistence (unverified_journal path) = true
is_persistence (reset_failed path) = true
is_persistence _ = false

-- One call of the operating system.
abbrev pub perform :
    {A : Type 0} → (Disk → End A × Disk) → Fault → Disk → List Fault → End A × World
perform op proceeds d later = let (end, d') = op d in (end, record { disk = d'; schedule = later })
perform op fails d later = (raised os_error, record { disk = d; schedule = later })
perform op crashes d later = (crashed, record { disk = d; schedule = later })

abbrev pub scheduled : {A : Type 0} → (Disk → End A × Disk) → Disk → List Fault → End A × World
scheduled op d [] = perform op proceeds d []
scheduled op d (fault ∷ later) = perform op fault d later

unfoldable pub call : {A : Type 0} → (Disk → End A × Disk) → Action A
call op w = scheduled op w.disk w.schedule

-- `del files[path]`
unfoldable pub delete : Dict FilePath Node → FilePath → Dict FilePath Node
delete [] path = []
delete ((p, node) ∷ rest) path =
    let kept = delete rest path in if p == path then kept else (p, node) ∷ kept

unfoldable pub remove : FilePath → Disk → Disk
unfolding delete
remove path d = record d { files = delete d.files path }

unfoldable pub store : FilePath → Node → Disk → Disk
unfolding put
store path node d = record d { files = put d.files path node }

unfoldable pub node_at : Disk → FilePath → Option Node
unfolding get
node_at d path = get d.files path

-- `path.lstat()`
abbrev pub lstat_on : FilePath → Disk → End Node × Disk
lstat_on path d =
    (elim (node_at d path) [ none ↦ raised file_not_found | some node ↦ done node ], d)

unfoldable pub lstat : FilePath → Action Node
unfolding call
lstat path = call (lstat_on path)

abbrev pub contents : Option Node → End Bytes
contents none = raised file_not_found
contents (some (regular inode bytes)) = done bytes
contents (some irregular) = raised os_error

-- `path.read_bytes()`
abbrev pub read_on : FilePath → Disk → End Bytes × Disk
read_on path d = (contents (node_at d path), d)

unfoldable pub read_bytes : FilePath → Action Bytes
unfolding call
read_bytes path = call (read_on path)

abbrev pub unlink_on : FilePath → Option Node → Disk → End (Unit {0}) × Disk
unlink_on path none d = (raised file_not_found, d)
unlink_on path (some (regular inode bytes)) d = (done tt, remove path d)
unlink_on path (some irregular) d = (raised os_error, d)

abbrev pub unlink_at : FilePath → Disk → End (Unit {0}) × Disk
unlink_at path d = unlink_on path (node_at d path) d

-- `path.unlink()`
unfoldable pub unlink : FilePath → Action (Unit {0})
unfolding call
unlink path = call (unlink_at path)

abbrev pub sync_on : Disk → End (Unit {0}) × Disk
sync_on d = (done tt, d)

-- `sync_directory(path)`, which changes no file.
unfoldable pub sync_directory : FilePath → Action (Unit {0})
unfolding call
sync_directory directory = call sync_on

abbrev pub rename_on :
    FilePath → FilePath → Option Node → Option Node → Disk → End (Unit {0}) × Disk
rename_on source path none target d = (raised file_not_found, d)
rename_on source path (some irregular) target d = (raised os_error, d)
rename_on source path (some (regular inode bytes)) (some irregular) d = (raised os_error, d)
rename_on source path (some (regular inode bytes)) target d =
    (done tt, store path (regular inode bytes) (remove source d))

abbrev pub replace_at : FilePath → FilePath → Disk → End (Unit {0}) × Disk
replace_at source path d = rename_on source path (node_at d source) (node_at d path) d

-- `os.replace(source, path)`
unfoldable pub replace : FilePath → FilePath → Action (Unit {0})
unfolding call
replace source path = call (replace_at source path)

abbrev pub link_on : FilePath → Option Node → Option Node → Disk → End (Unit {0}) × Disk
link_on path none target d = (raised file_not_found, d)
link_on path (some node) (some taken) d = (raised file_exists, d)
link_on path (some node) none d = (done tt, store path node d)

abbrev pub link_at : FilePath → FilePath → Disk → End (Unit {0}) × Disk
link_at source path d = link_on path (node_at d source) (node_at d path) d

-- `os.link(source, path)`
unfoldable pub link : FilePath → FilePath → Action (Unit {0})
unfolding call
link source path = call (link_at source path)

-- `mkstemp(dir=directory, prefix=prefix, suffix=suffix)`: the first candidate that is not taken.
unfoldable pub first_free :
    FilePath → Text → Text → Dict FilePath Node → List (ℕ × Text) → End FilePath × Disk
unfolding has
first_free directory prefix suffix files [] =
    (raised file_exists, record { files = files; names = [] })
first_free directory prefix suffix files ((inode, random) ∷ names) =
    let path : FilePath = (prefix ++ (random ++ suffix)) ∷ directory in
    let later = first_free directory prefix suffix files names in
    if has files path
    then later
    else (done path, record { files = put files path (regular inode []); names = names })

abbrev pub mkstemp_on : FilePath → Text → Text → Disk → End FilePath × Disk
mkstemp_on directory prefix suffix d = first_free directory prefix suffix d.files d.names

unfoldable pub mkstemp : FilePath → Text → Text → Action FilePath
unfolding call first_free
mkstemp directory prefix suffix = call (mkstemp_on directory prefix suffix)

abbrev pub write_on : FilePath → Bytes → Option Node → Disk → End (Unit {0}) × Disk
write_on path bytes (some (regular inode old)) d = (done tt, store path (regular inode bytes) d)
write_on path bytes other d = (raised os_error, d)

abbrev pub write_at : FilePath → Bytes → Disk → End (Unit {0}) × Disk
write_at path bytes d = write_on path bytes (node_at d path) d

-- Writing, flushing and syncing the handle of a file that `mkstemp` made.
unfoldable pub write_bytes : FilePath → Bytes → Action (Unit {0})
unfolding call
write_bytes path bytes = call (write_at path bytes)
