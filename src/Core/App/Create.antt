-- ===== src/Core/App/Create.antt =====
-- `App::create_vault` of crates/passman-core/src/app.rs.
pub mod Made
pub mod Surroundings
pub mod Unlocks
use passman.Prelude.{ℕ, List, ok, guard, map_err, none}
use passman.Crypto.{Primitives}
use passman.Crypto.Kdf.{KdfParams}
use passman.Hsm.{vault_key, totp_seed}
use passman.Hsm.Blob
use passman.Totp.{TotpConfig}
use passman.Vault.{VaultMetadata}
use passman.Vault.Postcard.{Postcard}
use passman.Vault.Create.{create}
use passman.Vault.Sealing.{open_index}
use passman.Core.Error.{CoreError}
use passman.Core.Error
use passman.Core.Act.{Act, ◌>>=◌, ◌>>◌, lift, reading, modify}
use passman.Core.App.{
  App, Env, Session, backend_allowed, build_unlocked, save, set_totp_config, unix_secs,
}
use passman.Core.App.Keys.{enroll_slot, derive_master}

-- What the operating system's generator gives, in the order of its use.
pub record Draws : Type 0 where
  pub k_hsm : List ℕ
  pub seed : List ℕ
  pub vault_salt : List ℕ
  pub probe_nonce : List ℕ
  pub index_nonce : List ℕ
  pub session_token : List ℕ

-- `VaultMetadata::new`
abbrev pub new_metadata : ℕ → VaultMetadata
new_metadata now = record { last_password_change = unix_secs now; last_export_at = none }

-- What the provisioning URI carries: the seed and the configuration. Its text is left out.
pub record Provisioning : Type 0 where
  pub seed : List ℕ
  pub config : TotpConfig

module _ ⦃p : Primitives⦄ (post : Postcard) where
  unfoldable pub create_vault :
      Env → Draws → List ℕ → KdfParams → TotpConfig → Act App CoreError (Session × Provisioning)
  create_vault env draws password kdf totp_cfg = do
    reading λ app. guard (backend_allowed env.store app) Error.software_hsm_refused
    k_hsm_blob ← lift (enroll_slot env vault_key draws.k_hsm)
    seed_blob ← lift (enroll_slot env totp_seed draws.seed)
    k_master ← lift (derive_master env password draws.vault_salt kdf draws.k_hsm)
    v ← lift (
        map_err Error.vault (
          create post draws.probe_nonce draws.index_nonce kdf draws.vault_salt
            (Blob.to_bytes k_hsm_blob) (Blob.to_bytes seed_blob) (new_metadata env.now) k_master))
    save env v
    modify (set_totp_config totp_cfg)
    index ← lift (map_err Error.vault (open_index post v k_master))
    lift (
        ok (
          build_unlocked env draws.session_token k_master draws.seed index,
          record { seed = draws.seed; config = totp_cfg },
        ))
