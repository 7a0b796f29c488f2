-- ===== src/Core/Unlocked/Export.antt =====
-- The recovery export of crates/passman-core/src/unlocked.rs, and the import of app.rs.
pub mod Imports
use passman.Prelude.{
  ℕ, suc, List, [], ◌∷◌, Option, none, some, Bool, Result, ok, err, guard, ok_or, map_err, length,
}
use passman.Prelude
use passman.Crypto.{Primitives, aead_auth}
use passman.Crypto.Kdf.{KdfParams}
use passman.Hsm.{vault_key, totp_seed, malformed_blob}
use passman.Hsm.Blob
use passman.Policy.Request.{EntryPolicy}
use passman.Recovery.{malformed_payload, RecoveryEntry}
use passman.Recovery.Cost.{RecoveryPreset, params}
use passman.Recovery.Format.{export_within_memory, import_within_memory}
use passman.Totp.{TotpConfig}
use passman.Totp.Hotp.{Hmac}
use passman.Vault.{VaultError, Vault, malformed_record}
use passman.Vault
use passman.Vault.Index.{Index, IndexEntry}
use passman.Vault.Postcard.{Postcard}
use passman.Vault.Record.{EntryRecord}
use passman.Vault.Create.{create}
use passman.Vault.Sealing.{open_index, verify_probe, decrypt_entry}
use passman.Vault.Operations
use passman.Core.Act.{Act, ◌>>=◌, ◌>>◌, lift, reading, modify}
use passman.Core.Error.{CoreError, weak_password_for_export}
use passman.Core.Error
use passman.Core.App.{
  App, Env, Session, backend_allowed, build_unlocked, into_key, save, set_totp_config, unix_secs,
}
use passman.Core.App.Keys.{unwrap_slot_core, enroll_slot, derive_master, derive_master_from_bytes}
use passman.Core.App.Failures.{verify_totp}
use passman.Core.App.Create.{new_metadata, Provisioning}
use passman.Core.Unlocked.{World, Nonces, ensure_unlocked, load_vault, in_app}
use passman.Core.Unlocked.Master.{done_with}

-- postcard at `EntryPolicy`.
pub record PolicyCodec : Type 0 where
  pub to_allocvec : EntryPolicy → Option (List ℕ)
  pub of_bytes : List ℕ → Option EntryPolicy

unfoldable pub recovery_entry_from :
    PolicyCodec → IndexEntry → EntryRecord → Result CoreError RecoveryEntry
recovery_entry_from codec row r =
    Prelude.◌>>=◌
      (ok_or (codec.to_allocvec row.policy)
        (Error.vault (malformed_record "failed to serialize EntryPolicy for export")))
      λ policy_bytes. ok (record {
        id = row.id;
        label = row.label;
        username = r.username;
        password = r.password;
        url = r.url;
        notes = r.notes;
        policy = policy_bytes;
      })

-- Id, label, policy and record of an entry.
unfoldable pub import_entry_parts :
    PolicyCodec → RecoveryEntry → Result CoreError (IndexEntry × EntryRecord)
import_entry_parts codec e =
    Prelude.◌>>=◌
      (ok_or (codec.of_bytes e.policy)
        (Error.recovery (malformed_payload "entry policy bytes are not valid postcard")))
      λ policy. ok (
        record { id = e.id; label = e.label; policy = policy },
        record { username = e.username; password = e.password; url = e.url; notes = e.notes },
      )

-- The vault with the time of its export.
unfoldable pub exported : Env → Vault → Vault
exported env v =
    Operations.set_metadata
      (record v.metadata { last_export_at = some (unix_secs env.session_now) }) v

-- The errors of the fresh re-authentication by code.
abbrev pub code_refused : Unit {0} → CoreError
code_refused e = Error.vault (Vault.crypto aead_auth)

module _ ⦃p : Primitives⦄ (codec : PolicyCodec) where
  -- The loop over the rows of the index.
  unfoldable pub export_entries : Vault → List ℕ → Index → Result CoreError (List RecoveryEntry)
  export_entries v k_master [] = ok []
  export_entries v k_master (row ∷ rows) =
      Prelude.◌>>=◌ (map_err Error.vault (decrypt_entry v k_master row.id)) λ r.
        Prelude.◌>>=◌ (recovery_entry_from codec row r)
          λ e. Prelude.◌>>=◌ (export_entries v k_master rows) λ es. ok (e ∷ es)

module _ ⦃p : Primitives⦄ ⦃h : Hmac⦄ (codec : PolicyCodec) where
  -- Whether the strength of the master password allows an export is the argument `allows`: the score is
  -- that of the zxcvbn crate. The salt and the nonce of the file are arguments.
  unfoldable pub export_recovery :
      Env
      → (List ℕ → Bool)
      → List ℕ
      → List ℕ
      → List ℕ
      → List ℕ
      → RecoveryPreset
      → Act World CoreError (List ℕ)
  export_recovery env allows recovery_salt nonce master_for_reauth totp_for_reauth preset = do
    reading (ensure_unlocked env)
    v ← reading (load_vault env)
    lift (guard (allows master_for_reauth) weak_password_for_export)
    k_hsm ← lift (unwrap_slot_core env vault_key v.k_hsm_wrap_blob)
    seed ← lift (unwrap_slot_core env totp_seed v.totp_seed_wrap_blob)
    in_app λ app.
        let (r, app') = verify_totp env seed totp_for_reauth app in (map_err code_refused r, app')
    reauth_master ← lift (derive_master_from_bytes env master_for_reauth v.salt v.kdf_params k_hsm)
    lift (map_err Error.vault (verify_probe v reauth_master))
    seed_arr ←
        lift
          (ok_or (into_key seed) (Error.hsm (malformed_blob "unwrapped TOTP seed is not 32 bytes")))
    entries ← reading λ w. export_entries codec v reauth_master w.session.index
    file ← lift (
        map_err Error.recovery (
          export_within_memory recovery_salt nonce
            (record { totp_seed = seed_arr; original_vault_kdf = v.kdf_params; entries = entries })
            master_for_reauth (params preset) env.available_kib))
    in_app (save env (exported env v))
    lift (ok file)

-- What an import draws: the hardware key, the salt, the nonces of the probe and of the empty index,
-- those of the entries, and the session token.
pub record ImportDraws : Type 0 where
  pub k_hsm : List ℕ
  pub vault_salt : List ℕ
  pub probe_nonce : List ℕ
  pub index_nonce : List ℕ
  pub nonces : ℕ → Nonces
  pub session_token : List ℕ

module _ ⦃p : Primitives⦄ (post : Postcard) (codec : PolicyCodec) where
  -- The loop over the entries of the payload, on the fresh vault.
  unfoldable pub import_entries :
      List ℕ → (ℕ → Nonces) → ℕ → List RecoveryEntry → Vault → Result CoreError Vault
  import_entries k_master nonces i [] v = ok v
  import_entries k_master nonces i (e ∷ es) v =
      Prelude.◌>>=◌ (import_entry_parts codec e) λ (row, r).
        Prelude.◌>>=◌
          (map_err Error.vault (
            done_with (
              Operations.add_or_update_entry post (nonces i).entry (nonces i).index k_master row.id
                row.label row.policy r v)))
          λ v'. import_entries k_master nonces (suc i) es v'

  unfoldable pub import_recovery :
      Env
      → ImportDraws
      → List ℕ
      → List ℕ
      → KdfParams
      → TotpConfig
      → Act App CoreError (Session × Provisioning)
  import_recovery env draws recovery_file password new_kdf totp_cfg = do
    reading λ app. guard (backend_allowed env.store app) Error.software_hsm_refused
    payload ←
        lift
          (map_err Error.recovery (import_within_memory recovery_file password env.available_kib))
    k_hsm_blob ← lift (enroll_slot env vault_key draws.k_hsm)
    seed_blob ← lift (enroll_slot env totp_seed payload.totp_seed)
    k_master ← lift (derive_master env password draws.vault_salt new_kdf draws.k_hsm)
    fresh ← lift (
        map_err Error.vault (
          create post draws.probe_nonce draws.index_nonce new_kdf draws.vault_salt
            (Blob.to_bytes k_hsm_blob) (Blob.to_bytes seed_blob) (new_metadata env.now) k_master))
    v ← lift (import_entries k_master draws.nonces 0 payload.entries fresh)
    save env v
    modify (set_totp_config totp_cfg)
    index ← lift (map_err Error.vault (open_index post v k_master))
    lift (
        ok (
          build_unlocked env draws.session_token k_master payload.totp_seed index,
          record { seed = payload.totp_seed; config = totp_cfg },
        ))
