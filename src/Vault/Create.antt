-- ===== src/Vault/Create.antt =====
-- `Vault::create` of crates/passman-vault/src/vault.rs.
pub mod Fresh
pub mod Valid
use passman.Prelude.{ℕ, List, [], Option, Result, ok, err, ◌>>=◌, ◌>>◌, ok_or, map_err}
use passman.Prelude.Int.{pos}
use passman.Crypto.{Primitives}
use passman.Crypto.Aead.{encrypt}
use passman.Crypto.Kdf.{KdfParams}
use passman.Vault.{
  VaultError, crypto, malformed_record, VaultMetadata, Vault, format_version_current,
  kdf_algorithm_argon2id, probe_ct_len,
}
use passman.Vault.Postcard.{Postcard}
use passman.Vault.Sealing.{
  probe_plaintext, probe_associated_data, check_blob_len, into_fixed, seal_index,
}

module _ ⦃p : Primitives⦄ (post : Postcard) where
  -- The two random nonces are the first arguments.
  unfoldable pub create :
      List ℕ
      → List ℕ
      → KdfParams
      → List ℕ
      → List ℕ
      → List ℕ
      → VaultMetadata
      → List ℕ
      → Result VaultError Vault
  create probe_nonce index_nonce kdf_params vault_salt k_hsm_wrap_blob totp_seed_wrap_blob metadata
        k_master =
      do
        check_blob_len k_hsm_wrap_blob "k_hsm_wrap_blob"
        check_blob_len totp_seed_wrap_blob "totp_seed_wrap_blob"
        let probe_ad =
            probe_associated_data format_version_current kdf_algorithm_argon2id kdf_params
              vault_salt
        probe_ct_vec ← map_err crypto (encrypt k_master probe_nonce probe_ad probe_plaintext)
        probe_ct ←
            ok_or (into_fixed probe_ct_len probe_ct_vec)
              (malformed_record "probe ciphertext was not 32 bytes")
        (sealed_index_nonce, sealed_index_ct) ←
            seal_index post index_nonce [] format_version_current k_master
        ok (record {
          format_version = format_version_current;
          kdf_algorithm_id = kdf_algorithm_argon2id;
          kdf_params = kdf_params;
          salt = vault_salt;
          probe_nonce = probe_nonce;
          probe_ct = probe_ct;
          k_hsm_wrap_blob = k_hsm_wrap_blob;
          totp_seed_wrap_blob = totp_seed_wrap_blob;
          rl_counter = 0;
          rl_last_failure = pos 0;
          metadata = metadata;
          sealed_index_nonce = sealed_index_nonce;
          sealed_index_ct = sealed_index_ct;
          envelopes = [];
        })
