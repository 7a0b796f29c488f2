-- ===== src/Core/Storage.antt =====
-- crates/passman-core/src/storage.rs. The file system is what one directory holds of the vault: the
-- file at the vault's path and the temporary sibling, whose random name no other file has.
pub mod Atomic
mod Examples
use passman.Prelude.{
  ℕ, ◌*◌, String, List, [], ◌∷◌, Option, none, some, Bool, true, false, Result, ok, err, length,
  ltb, take, if◌then◌else◌,
}
use passman.Core.Error.{CoreError, already_running, io}

abbrev pub max_vault_bytes : ℕ
max_vault_bytes = 64 * 1024 * 1024

-- A file's contents, and whether they were flushed to stable storage.
pub record File : Type 0 where
  pub bytes : List ℕ
  pub synced : Bool

pub record Disk : Type 0 where
  pub target : Option File
  pub temp : Option File

-- Which calls of the operating system fail during one operation. A failed write has written `partial`
-- bytes.
pub record Faults : Type 0 where
  pub stat_fails : Bool
  pub read_fails : Bool
  pub no_parent : Bool
  pub create_fails : Bool
  pub write_fails : Bool
  pub partial : ℕ
  pub sync_fails : Bool
  pub rename_fails : Bool
  pub remove_fails : Bool

unfoldable pub read_file : Faults → Option File → Result CoreError (List ℕ)
read_file f none = err (io "stat vault file")
read_file f (some file) =
    if f.stat_fails
    then err (io "stat vault file")
    else if ltb max_vault_bytes (length file.bytes)
    then err (io "vault file exceeds maximum size")
    else if f.read_fails
    then err (io "read vault file")
    else ok file.bytes

unfoldable pub read : Faults → Disk → Result CoreError (List ℕ)
unfolding read_file
read f d = read_file f d.target

-- What a sequence of calls returned, and the disks that it went through, the latest first.
pub record Outcome : Type 0 where
  pub result : Result CoreError (Unit {0})
  pub disk : Disk
  pub before : List Disk

abbrev file_of : List ℕ → Bool → Option File
file_of bytes synced = some (record { bytes = bytes; synced = synced })

abbrev with_temp : Disk → Option File → Disk
with_temp d t = record d { temp = t }

-- The closure that creates, writes and flushes the temporary file.
unfoldable pub write_temp : Faults → List ℕ → Disk → Outcome
write_temp f bytes d =
    if f.create_fails
    then record { result = err (io "create temp vault file"); disk = d; before = [] }
    else if f.write_fails
    then record {
      result = err (io "write temp vault file");
      disk = with_temp d (file_of (take f.partial bytes) false);
      before = with_temp d (file_of [] false) ∷ d ∷ [];
    }
    else if f.sync_fails
    then record {
      result = err (io "fsync temp vault file");
      disk = with_temp d (file_of bytes false);
      before = with_temp d (file_of [] false) ∷ d ∷ [];
    }
    else record {
      result = ok tt;
      disk = with_temp d (file_of bytes true);
      before = with_temp d (file_of bytes false) ∷ with_temp d (file_of [] false) ∷ d ∷ [];
    }

-- `let _ = remove_file(..)` on the way out with an error.
unfoldable pub clean_up : Faults → CoreError → Disk → List Disk → Outcome
clean_up f e d before = record {
  result = err e;
  disk = if f.remove_fails then d else with_temp d none;
  before = d ∷ before;
}

unfoldable pub rename_over : Faults → Disk → List Disk → Outcome
unfolding clean_up
rename_over f d before =
    if f.rename_fails
    then clean_up f (io "rename temp vault file over target") d before
    else record {
      result = ok tt;
      disk = record { target = d.temp; temp = none };
      before = d ∷ before;
    }

unfoldable pub finish : Faults → Result CoreError (Unit {0}) → Disk → List Disk → Outcome
unfolding clean_up rename_over
finish f (err e) d before = clean_up f e d before
finish f (ok done) d before = rename_over f d before

-- The flush of the directory at the end changes no contents, and its errors are ignored.
unfoldable pub atomic_write : Faults → List ℕ → Disk → Outcome
unfolding write_temp finish
atomic_write f bytes d =
    if f.no_parent
    then record { result = err (io "resolve vault parent directory"); disk = d; before = [] }
    else let w = write_temp f bytes d in finish f w.result w.disk w.before

-- What `File::try_lock` answers.
pub data TryLock : Type 0 where
  taken would_block unsupported lock_error : TryLock

unfoldable pub classify_lock : TryLock → Result CoreError Bool
classify_lock taken = ok true
classify_lock would_block = err already_running
classify_lock unsupported = ok false
classify_lock lock_error = err (io "lock instance lockfile")

-- `InstanceLock::acquire`: whether an advisory lock is held.
unfoldable pub acquire : Bool → TryLock → Result CoreError Bool
unfolding classify_lock
acquire open_fails outcome =
    if open_fails then err (io "open instance lockfile") else classify_lock outcome
