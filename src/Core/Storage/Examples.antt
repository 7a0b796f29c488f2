-- ===== src/Core/Storage/Examples.antt =====
-- Runs of the storage (crates/passman-core/src/storage.rs), and the theorem at one.
use passman.Prelude.{◌≡◌, refl, [], ◌∷◌, none, some, true, false, ok, err, All}
use passman.Core.Error.{already_running}
use passman.Core.Storage.{
  File, Disk, Faults, atomic_write, write_temp, clean_up, finish, read, read_file, acquire,
  classify_lock, would_block, unsupported,
}
use passman.Core.Storage.Atomic.{IsWhole, Leaves, atomic_write-IsWhole}

abbrev old_file : File
old_file = record { bytes = 1 ∷ 2 ∷ []; synced = true }

abbrev disk₀ : Disk
disk₀ = record { target = some old_file; temp = none }

-- The file is not flushed.
abbrev sync_fault : Faults
sync_fault = record {
  stat_fails = false;
  read_fails = false;
  no_parent = false;
  create_fails = false;
  write_fails = false;
  partial = 0;
  sync_fails = true;
  rename_fails = false;
  remove_fails = true;
}

-- The temporary file is left where it cannot be removed.
failed_write :
    (atomic_write sync_fault (3 ∷ []) disk₀).disk
    ≡ record { target = some old_file; temp = some (record { bytes = 3 ∷ []; synced = false }) }
unfolding atomic_write write_temp finish clean_up
failed_write = refl

read_back : read sync_fault disk₀ ≡ ok (1 ∷ 2 ∷ [])
unfolding read read_file
read_back = refl

second_instance : acquire false would_block ≡ err already_running
unfolding acquire classify_lock
second_instance = refl

no_locks : acquire false unsupported ≡ ok false
unfolding acquire classify_lock
no_locks = refl

atomic_write-IsWhole_example :
    let o = atomic_write sync_fault (3 ∷ []) disk₀ in
    IsWhole disk₀.target (3 ∷ []) o.disk
    × All (IsWhole disk₀.target (3 ∷ [])) o.before
    × Leaves disk₀.target (3 ∷ []) o.result o.disk.target
atomic_write-IsWhole_example = atomic_write-IsWhole sync_fault (3 ∷ []) disk₀ refl
