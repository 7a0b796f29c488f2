-- ===== src/Core/App/Unlock.antt =====
-- `App::unlock` of crates/passman-core/src/app.rs.
pub mod Admission
pub mod Replays
pub mod Verdict
use passman.Prelude.{ℕ, List, ok, guard, map_err}
use passman.Crypto.{Primitives, kdf, backend}
use passman.Crypto.Kdf.{within_limits}
use passman.Hsm.{vault_key, totp_seed}
use passman.Totp.Hotp.{Hmac}
use passman.Vault.Format
use passman.Vault.Postcard.{Postcard}
use passman.Vault.Sealing.{open_index, verify_probe}
use passman.Core.Error.{
  CoreError, UnlockError, cancelled, retryable, route_to_recovery, bad_credentials, locked_out,
  hsm_failed, malformed_vault, software_refused,
}
use passman.Core.Error
use passman.Vault.{Vault}
use passman.Core.Lockout.{LockoutState, remaining}
use passman.Core.Storage.{Disk, Faults, acquire, TryLock}
use passman.Core.Storage
use passman.Core.Act.{Act, ◌>>=◌, ◌>>◌, lift, reading, modify}
use passman.Core.App.{App, Env, Session, backend_allowed, build_unlocked}
use passman.Core.App.Keys.{unwrap_slot, derive_master_from_bytes}
use passman.Core.App.Failures.{
  header_state, merge, put_lockout, check_hsm_lockout, check_advisory, count_failure, verify_totp,
  clear_failures,
}

abbrev pub out_of_range : UnlockError
out_of_range =
    malformed_vault
      (Error.crypto (kdf (backend "vault KDF parameters are outside the permitted range")))

-- Steps 1 to 3: the vault is read and parsed, the advisory counters are merged, and both lockouts are
-- checked.
unfoldable pub admit : Env → Act App UnlockError (Vault × LockoutState)
admit env = do
  reading λ app. guard (backend_allowed env.store app) software_refused
  bytes ← reading λ app. map_err malformed_vault (Storage.read env.faults app.disk)
  v ← lift (map_err (λ e. malformed_vault (Error.vault e)) (Format.from_bytes bytes))
  lift (guard (within_limits v.kdf_params) out_of_range)
  modify λ app. put_lockout (merge (header_state v) app.lockout_mem) app
  state ← reading λ app. ok app.lockout_mem
  lift (check_hsm_lockout env.store.lockout_status state env.now)
  lift (check_advisory (remaining state env.now))
  lift (ok (v, state))

module _ ⦃p : Primitives⦄ ⦃h : Hmac⦄ (post : Postcard) where
  -- Steps 4 to 8, with both slots unwrapped.
  unfoldable pub authenticate :
      Env
      → List ℕ
      → List ℕ
      → List ℕ
      → Vault
      → LockoutState
      → List ℕ
      → List ℕ
      → Act App UnlockError Session
  authenticate env token password totp_code v state k_hsm seed = do
    λ app. count_failure env v state (verify_totp env seed totp_code app)
    k_master ← lift (
        map_err (λ e. bad_credentials)
          (derive_master_from_bytes env password v.salt v.kdf_params k_hsm))
    λ app. count_failure env v state (verify_probe v k_master, app)
    index ← lift (map_err (λ e. malformed_vault (Error.vault e)) (open_index post v k_master))
    modify (clear_failures env v)
    lift (ok (build_unlocked env token k_master seed index))

  unfoldable pub unlock : Env → List ℕ → List ℕ → List ℕ → Act App UnlockError Session
  unlock env token password totp_code = do
    (v, state) ← admit env
    k_hsm ← lift (unwrap_slot env vault_key v.k_hsm_wrap_blob)
    seed ← lift (unwrap_slot env totp_seed v.totp_seed_wrap_blob)
    authenticate env token password totp_code v state k_hsm seed
