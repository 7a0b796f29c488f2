-- ===== src/Core/App/Keys.antt =====
-- The keys of crates/passman-core/src/app.rs: unwrapping and enrolling the slots, and the derivation
-- of the master key.
use passman.Prelude.{
  ℕ, ◌+◌, ◌-◌, ◌^◌, min, max, String, List, [], ◌∷◌, ◌++◌, Option, none, some, Bool, true, false,
  not, ◌&&◌, ◌||◌, Result, ok, err, guard, ok_or, map_err, length, ltb, ◌==◌, if◌then◌else◌,
}
use passman.Prelude
use passman.Crypto.{Primitives}
use passman.Crypto.Derive.{hkdf_master}
use passman.Crypto.Kdf.{KdfParams, argon2id_within_memory}
use passman.Hsm.{
  HsmError, HsmSlot, vault_key, totp_seed, HsmKind, software_mock, HsmLockoutStatus, available,
  Prompter, WrappedBlob, UnwrapHandle, HardwareKeyStore, malformed_blob,
}
use passman.Hsm
use passman.Hsm.Blob
use passman.Core.Error.{
  CoreError, UnlockError, cancelled, retryable, route_to_recovery, bad_credentials, locked_out,
  hsm_failed, malformed_vault, software_refused,
}
use passman.Core.Error
use passman.Core.App.{master_info, Env, into_key}

unfoldable pub map_hsm_unlock : HsmError → UnlockError
map_hsm_unlock Hsm.cancelled = cancelled
map_hsm_unlock Hsm.transient = retryable
map_hsm_unlock Hsm.permanently_invalidated = route_to_recovery
map_hsm_unlock Hsm.hardware_absent = route_to_recovery
map_hsm_unlock (Hsm.backend why) = hsm_failed (Hsm.backend why)
map_hsm_unlock (Hsm.malformed_blob reason) = hsm_failed (Hsm.malformed_blob reason)

-- Both phases of an unwrap, from the bytes of the blob.
unfoldable pub unwrap_blob : Env → HsmSlot → List ℕ → Result HsmError (List ℕ)
unwrap_blob env slot blob_bytes = Prelude.◌>>=◌ (Hsm.Blob.from_bytes blob_bytes) λ blob.
    Prelude.◌>>=◌ (env.store.begin_unwrap slot blob)
      λ handle. env.store.complete_unwrap handle env.prompter

unfoldable pub unwrap_slot : Env → HsmSlot → List ℕ → Result UnlockError (List ℕ)
unfolding unwrap_blob
unwrap_slot env slot blob_bytes = map_err map_hsm_unlock (unwrap_blob env slot blob_bytes)

unfoldable pub unwrap_slot_core : Env → HsmSlot → List ℕ → Result CoreError (List ℕ)
unfolding unwrap_blob
unwrap_slot_core env slot blob_bytes = map_err Error.hsm (unwrap_blob env slot blob_bytes)

unfoldable pub enroll_slot : Env → HsmSlot → List ℕ → Result CoreError WrappedBlob
enroll_slot env slot material = map_err Error.hsm (env.store.enroll slot material env.prompter)

module _ ⦃p : Primitives⦄ where
  unfoldable pub derive_master :
      Env → List ℕ → List ℕ → KdfParams → List ℕ → Result CoreError (List ℕ)
  derive_master env password vault_salt params k_hsm =
      Prelude.◌>>=◌
        (map_err Error.crypto (argon2id_within_memory password vault_salt params env.available_kib))
        λ k_pw. ok (hkdf_master vault_salt (k_pw ++ k_hsm) master_info)

  unfoldable pub derive_master_from_bytes :
      Env → List ℕ → List ℕ → KdfParams → List ℕ → Result CoreError (List ℕ)
  unfolding into_key derive_master
  derive_master_from_bytes env password vault_salt params k_hsm =
      Prelude.◌>>=◌
        (ok_or (into_key k_hsm) (Error.hsm (malformed_blob "unwrapped K_hsm is not 32 bytes")))
        λ arr. derive_master env password vault_salt params arr
