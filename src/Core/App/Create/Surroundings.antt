-- ===== src/Core/App/Create/Surroundings.antt =====
-- What the first unlock of a created vault finds (crates/passman-core/src/app.rs).
use passman.Prelude.{
  ℕ, ◌<◌, ◌≤◌, ◌^◌, ◌≡◌, eq→==, refl, List, [], Option, none, some, true, false, ok, and_then-ok,
  map_err, arith, length, ltb, IsArray, IsBlob, IsBytes,
}
use passman.Prelude.Int.{pos}
use passman.Crypto.{Primitives}
use passman.Crypto.Kdf.{KdfParams, IsParams, within_limits, argon2id_within_memory, check_memory}
use passman.Hsm.{vault_key, totp_seed, available, WrappedBlob}
use passman.Hsm.Blob
use passman.Vault.{Vault}
use passman.Vault.Postcard.{Postcard}
use passman.Core.Error.{CoreError}
use passman.Core.Error
use passman.Core.Lockout.{remaining, lockout_minutes, reset}
use passman.Core.Storage.{File, Disk, Faults, max_vault_bytes, read, read_file, atomic_write}
use passman.Core.App.{App, Env, backend_allowed}
use passman.Core.App.Keys.{unwrap_blob, derive_master, derive_master_from_bytes}
use passman.Core.App.Failures.{header_state, merge, clear_failures}
use passman.Core.App.Throttle.{no_faults}
use passman.Core.App.Create.{Draws}
use passman.Core.App.Create.Made.{map_err-ok}

-- The surroundings of the first unlock: the key store gives back what was enrolled, nothing is locked,
-- the file is read, and the host has the memory.
pub record Suits (env env' : Env) (draws : Draws) (kdf : KdfParams) (app' : App) : Type 0 where
  pub allowed : backend_allowed env'.store app' ≡ true
  pub keeps_key :
      (blob : WrappedBlob)
      → env.store.enroll vault_key draws.k_hsm env.prompter ≡ ok blob
      → IsBlob (2 ^ 16) (Blob.to_bytes blob)
        × (unwrap_blob env' vault_key (Blob.to_bytes blob) ≡ ok draws.k_hsm)
  pub keeps_seed :
      (blob : WrappedBlob)
      → env.store.enroll totp_seed draws.seed env.prompter ≡ ok blob
      → IsBlob (2 ^ 16) (Blob.to_bytes blob)
        × (unwrap_blob env' totp_seed (Blob.to_bytes blob) ≡ ok draws.seed)
  pub unlocked : env'.store.lockout_status ≡ ok available
  pub fine : env'.faults ≡ no_faults
  pub small : (file : File) → app'.disk.target ≡ some file → length file.bytes ≤ max_vault_bytes
  pub memory : check_memory kdf.m_kib env'.available_kib ≡ ok tt

-- The draws have their lengths, and the parameters and the clock their widths.
pub record AreDraws (post : Postcard) (env : Env) (draws : Draws) (kdf : KdfParams) (bytes : List ℕ)
    : Type 0 where
  pub key_size : length draws.k_hsm ≡ 32
  pub salt_size : IsArray 32 draws.vault_salt
  pub probe_size : IsArray 24 draws.probe_nonce
  pub index_size : IsArray 24 draws.index_nonce
  pub params : IsParams kdf
  pub serialized : post.to_stdvec [] ≡ some bytes
  pub short : length bytes < 2 ^ 31
  pub empty : IsBytes bytes

pub written-target :
    (f : Faults) (bytes : List ℕ) (d : Disk)
    → (atomic_write f bytes d).result ≡ ok tt
    → (atomic_write f bytes d).disk.target ≡ some (record { bytes = bytes; synced = true })
unfolding atomic_write
written-target f bytes d e = ground arith

pub read-target :
    (f : Faults) (d : Disk) (file : File)
    → f ≡ no_faults
    → d.target ≡ some file
    → length file.bytes ≤ max_vault_bytes
    → read f d ≡ ok file.bytes
unfolding read read_file
read-target f d file fine e small = rw fine (rw e (rw (not_over (length file.bytes) small) refl))
  where
    not_over : (n : ℕ) → n ≤ max_vault_bytes → ltb max_vault_bytes n ≡ false
    not_over n h = ground arith

pub quiet_vault :
    (v : Vault) (now : ℕ) → v.rl_counter ≡ 0 → remaining (merge (header_state v) reset) now ≡ none
unfolding remaining merge header_state reset lockout_minutes
quiet_vault v now e = rw e refl

pub clean :
    (env : Env) (v : Vault) (app : App)
    → v.rl_counter ≡ 0
    → v.rl_last_failure ≡ pos 0
    → (clear_failures env v app).disk ≡ app.disk
unfolding clear_failures
clean env v app e e' = rw e (rw e' refl)

module _ ⦃p : Primitives⦄ where
  pub from_key :
      (env : Env) (password salt : List ℕ) (kdf : KdfParams) (k_hsm : List ℕ)
      → length k_hsm ≡ 32
      → derive_master_from_bytes env password salt kdf k_hsm
        ≡ derive_master env password salt kdf k_hsm
  unfolding derive_master_from_bytes
  from_key env password salt kdf k_hsm e = rw (eq→== (length k_hsm) 32 e) refl

  -- The key does not depend on the memory that the host reports.
  argon2-memory :
      (password salt : List ℕ) (kdf : KdfParams) (a b : Option ℕ) (k : List ℕ)
      → argon2id_within_memory password salt kdf a ≡ ok k
      → check_memory kdf.m_kib b ≡ ok tt
      → (within_limits kdf ≡ true) × (argon2id_within_memory password salt kdf b ≡ ok k)
  unfolding argon2id_within_memory
  argon2-memory password salt kdf a b k e m = ground arith

  pub derive_master-memory :
      (env env' : Env) (password salt : List ℕ) (kdf : KdfParams) (k_hsm k : List ℕ)
      → derive_master env password salt kdf k_hsm ≡ ok k
      → check_memory kdf.m_kib env'.available_kib ≡ ok tt
      → (within_limits kdf ≡ true) × (derive_master env' password salt kdf k_hsm ≡ ok k)
  unfolding derive_master
  derive_master-memory env env' password salt kdf k_hsm k e m =
      let (k_pw, q, r) =
        and_then-ok _
          (map_err Error.crypto (argon2id_within_memory password salt kdf env.available_kib)) k e in
      let (within, again) =
        argon2-memory password salt kdf env.available_kib env'.available_kib k_pw
          (map_err-ok _ _ k_pw r) m in
      (within, rw again q)
