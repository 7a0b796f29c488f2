-- ===== src/Core/Storage/Atomic.antt =====
-- What an atomic write leaves (crates/passman-core/src/storage.rs).
use passman.Prelude.{ℕ, ◌≡◌, List, Option, none, some, true, Result, ok, err, arith, All, ◌⊎◌}
use passman.Core.Error.{CoreError}
use passman.Core.Storage.{File, Disk, Faults, atomic_write}

-- What the vault's path can hold after the power fails: of a file that was not flushed, anything.
abbrev pub AfterCrash : Option File → Option (List ℕ) → Type 0
AfterCrash none contents = contents ≡ none
AfterCrash (some file) contents = file.synced ≡ true → contents ≡ some file.bytes

abbrev contents_of : Option File → Option (List ℕ)
contents_of none = none
contents_of (some file) = some file.bytes

-- A vault file that stood through a flush before.
abbrev pub IsDurable : Option File → Type 0
IsDurable none = Unit
IsDurable (some file) = file.synced ≡ true

-- A crash at this disk leaves the old contents or the new ones.
abbrev pub IsWhole : Option File → List ℕ → Disk → Type 0
IsWhole old bytes d =
    (contents : Option (List ℕ))
    → AfterCrash d.target contents
    → (contents ≡ contents_of old) ⊎ (contents ≡ some bytes)

-- What a completed write leaves at the path, and a failed one.
abbrev pub Leaves : Option File → List ℕ → Result CoreError (Unit {0}) → Option File → Type 0
Leaves old bytes (ok done) target = target ≡ some (record { bytes = bytes; synced = true })
Leaves old bytes (err e) target = target ≡ old

-- Whichever calls fail, and wherever in the write the power fails, the vault's path holds the old
-- contents or the whole of the new ones, where the old file was flushed. When the write returns, it
-- holds the new file, flushed, if it succeeded, and the old one as it was if it failed.
pub atomic_write-IsWhole :
    (f : Faults) (bytes : List ℕ) (d : Disk)
    → IsDurable d.target
    → let o = atomic_write f bytes d in
      IsWhole d.target bytes o.disk
      × All (IsWhole d.target bytes) o.before
      × Leaves d.target bytes o.result o.disk.target
unfolding atomic_write
atomic_write-IsWhole f bytes d h = ground arith
