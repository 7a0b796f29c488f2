-- ===== src/Core/Unlocked/Master.antt =====
-- The change of the master password in crates/passman-core/src/unlocked.rs.
pub mod Rows
use passman.Prelude.{
  ℕ, suc, List, [], ◌∷◌, Option, none, some, Bool, true, false, Result, ok, err, map_err,
}
use passman.Prelude
use passman.Crypto.{Primitives}
use passman.Crypto.Kdf.{KdfParams}
use passman.Hsm.{vault_key}
use passman.Vault.{VaultError, VaultMetadata, Vault}
use passman.Vault.Index.{Index}
use passman.Vault.Postcard.{Postcard}
use passman.Vault.Create.{create}
use passman.Vault.Sealing.{open_index, verify_probe, decrypt_entry}
use passman.Vault.Operations
use passman.Core.Act.{Act, ◌>>=◌, ◌>>◌, lift, reading, modify}
use passman.Core.Error.{CoreError}
use passman.Core.Error
use passman.Core.App.{Env, save, unix_secs}
use passman.Core.App.Keys.{unwrap_slot_core, derive_master_from_bytes}
use passman.Core.Unlocked.{
  World, Nonces, ensure_unlocked, load_vault, in_app, put_session, put_index,
}

-- What the change draws: the salt, the nonces of the probe and of the empty index, and those of the
-- entries in the order of the index.
pub record Draws : Type 0 where
  pub new_salt : List ℕ
  pub probe_nonce : List ℕ
  pub index_nonce : List ℕ
  pub nonces : ℕ → Nonces

abbrev is_some {ℓ} : {A : Type ℓ} → Option A → Bool
is_some none = false
is_some (some a) = true

-- The vault that a method on it leaves, where it succeeds.
abbrev pub done_with : Result VaultError (Unit {0}) × Vault → Result VaultError Vault
done_with (ok done, v) = ok v
done_with (err e, v) = err e

abbrev put_master : List ℕ → World → World
put_master k w = put_session (record w.session { k_master = k }) w

abbrev pub changed_at : Env → Vault → VaultMetadata
changed_at env source = record source.metadata { last_password_change = unix_secs env.session_now }

module _ ⦃p : Primitives⦄ (post : Postcard) where
  -- The loop over the rows of the index, on the vault that is rebuilt.
  unfoldable pub reencrypt_rows :
      Vault → List ℕ → List ℕ → (ℕ → Nonces) → ℕ → Index → Operations.Act (Unit {0})
  reencrypt_rows source old_master new_master nonces i [] rebuilt = (ok tt, rebuilt)
  reencrypt_rows source old_master new_master nonces i (row ∷ rows) rebuilt =
      Operations.◌>>=◌ (Operations.lift (decrypt_entry source old_master row.id))
        (λ entry.
          Operations.◌>>=◌
            (Operations.add_or_update_entry post (nonces i).entry (nonces i).index new_master row.id
              row.label row.policy entry)
            (λ done. reencrypt_rows source old_master new_master nonces (suc i) rows))
        rebuilt

  unfoldable pub reencrypt_vault :
      Env → Draws → Vault → KdfParams → List ℕ → List ℕ → Index → Result CoreError Vault
  unfolding reencrypt_rows
  reencrypt_vault env draws source kdf old_master new_master index = map_err Error.vault (
      Prelude.◌>>=◌
        (create post draws.probe_nonce draws.index_nonce kdf draws.new_salt source.k_hsm_wrap_blob
          source.totp_seed_wrap_blob (changed_at env source) new_master)
        λ rebuilt.
          done_with (reencrypt_rows source old_master new_master draws.nonces 0 index rebuilt))

  -- Whether an export that exists is stale now.
  unfoldable pub change_master_password :
      Env → Draws → List ℕ → List ℕ → KdfParams → Act World CoreError Bool
  change_master_password env draws old new kdf = do
    reading (ensure_unlocked env)
    v ← reading (load_vault env)
    k_hsm ← lift (unwrap_slot_core env vault_key v.k_hsm_wrap_blob)
    old_master ← lift (derive_master_from_bytes env old v.salt v.kdf_params k_hsm)
    lift (map_err Error.vault (verify_probe v old_master))
    new_master ← lift (derive_master_from_bytes env new draws.new_salt kdf k_hsm)
    rebuilt ←
        reading λ w. reencrypt_vault env draws v kdf w.session.k_master new_master w.session.index
    in_app (save env rebuilt)
    modify (put_master new_master)
    index ← lift (map_err Error.vault (open_index post rebuilt new_master))
    modify (put_index index)
    lift (ok (is_some v.metadata.last_export_at))
