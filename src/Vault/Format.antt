-- ===== src/Vault/Format.antt =====
-- The binary layout of a vault: `to_bytes` and `from_bytes` of crates/passman-vault/src/vault.rs.
pub mod RoundTrip
pub mod Canonical
mod Examples
use passman.Prelude.{
  ℕ, zero, suc, ◌^◌, String, List, [], ◌∷◌, ◌++◌, Option, none, some, Bool, not, ◌&&◌, Result, ok,
  err, clamp, length, to_le, ◌==◌, if◌then◌else◌,
}
use passman.Prelude.Int.{ℤ, pos, i64_bits}
use passman.Reader.{
  Read, ◌>>=◌, ◌>>◌, pure, lift, reject, run, expect_eof, take, take_array, read_u8, read_u32_le,
  read_u64_le, read_i64_le, read_u16_prefixed_vec, read_u32_prefixed_vec,
}
use passman.Crypto.Kdf.{kdf_params_len}
use passman.Crypto.Kdf
use passman.Vault.{
  VaultError, unsupported_version, unsupported_kdf_algorithm, invalid_flag, VaultMetadata,
  EntryEnvelope, Vault, vault_read_errors, entry_id_len, salt_len, probe_ct_len,
  format_version_current, format_version_legacy_v1, kdf_algorithm_argon2id,
}
use passman.Crypto.Aead.{nonce_len}

unfoldable pub u16_prefixed : List ℕ → List ℕ
u16_prefixed blob = to_le 2 (clamp 2 (length blob)) ++ blob

unfoldable pub u32_prefixed : List ℕ → List ℕ
u32_prefixed blob = to_le 4 (clamp 4 (length blob)) ++ blob

-- The present flag and the timestamp, 0 when absent.
unfoldable pub export_bytes : Option ℤ → List ℕ
export_bytes (some ts) = 1 ∷ to_le 8 (i64_bits ts)
export_bytes none = 0 ∷ to_le 8 (i64_bits (pos 0))

-- Of an envelope, the length on disk is that of the ciphertext, and not the field `ct_len`.
unfoldable pub envelope_bytes : EntryEnvelope → List ℕ
envelope_bytes env = env.id ++ (env.nonce ++ u32_prefixed env.ciphertext_and_tag)

unfoldable pub envelopes_bytes : List EntryEnvelope → List ℕ
envelopes_bytes [] = []
envelopes_bytes (env ∷ rest) = envelope_bytes env ++ envelopes_bytes rest

-- `out` is only appended to, so it is the concatenation of what is appended.
unfoldable pub to_bytes : Vault → List ℕ
to_bytes v =
    (v.format_version ∷ [])
    ++ ((v.kdf_algorithm_id ∷ [])
        ++ (Kdf.to_bytes v.kdf_params
            ++ (v.salt
                ++ (v.probe_nonce
                    ++ (v.probe_ct
                        ++ (u16_prefixed v.k_hsm_wrap_blob
                            ++ (u16_prefixed v.totp_seed_wrap_blob
                                ++ (to_le 8 v.rl_counter
                                    ++ (to_le 8 (i64_bits v.rl_last_failure)
                                        ++ (to_le 8 (i64_bits v.metadata.last_password_change)
                                            ++ (export_bytes v.metadata.last_export_at
                                                ++ (v.sealed_index_nonce
                                                    ++ (u32_prefixed v.sealed_index_ct
                                                        ++ (to_le 4 (clamp 4 (length v.envelopes))
                                                            ++ envelopes_bytes
                                                            v.envelopes))))))))))))))

-- The flag decides whether the timestamp counts.
unfoldable pub read_export_at : Read VaultError (Option ℤ)
read_export_at = do
  export_present ← read_u8 "meta.last_export_present"
  last_export_raw ← read_i64_le "meta.last_export_at"
  reject (not (export_present == 0) && not (export_present == 1))
      (invalid_flag "meta.last_export_present" export_present)
  pure (if export_present == 1 then some last_export_raw else none)

unfoldable pub read_envelope : Read VaultError EntryEnvelope
read_envelope = do
  id ← take_array entry_id_len "entry.id"
  nonce ← take_array nonce_len "entry.nonce"
  ct_len ← read_u32_le "entry.ct_len"
  ciphertext_and_tag ← take ct_len "entry.ciphertext"
  pure (record { id = id; nonce = nonce; ct_len = ct_len; ciphertext_and_tag = ciphertext_and_tag })

-- The loop `for _ in 0..entries_count`.
unfoldable pub read_envelopes : ℕ → Read VaultError (List EntryEnvelope)
read_envelopes zero = pure []
read_envelopes (suc n) = do env ← read_envelope; rest ← read_envelopes n; pure (env ∷ rest)

-- The body of `from_bytes`, which is it on a fresh cursor.
unfoldable pub parse : Read VaultError Vault
parse = do
  format_version ← read_u8 "format_version"
  reject
      (not (format_version == format_version_current)
        && not (format_version == format_version_legacy_v1))
      (unsupported_version format_version format_version_current)
  kdf_algorithm_id ← read_u8 "kdf_algorithm_id"
  reject (not (kdf_algorithm_id == kdf_algorithm_argon2id))
      (unsupported_kdf_algorithm kdf_algorithm_id)
  kdf_bytes ← take_array kdf_params_len "kdf_params"
  vault_salt ← take_array salt_len "vault_salt"
  probe_nonce ← take_array nonce_len "probe_nonce"
  probe_ct ← take_array probe_ct_len "probe_ct"
  k_hsm_wrap_blob ← read_u16_prefixed_vec "k_hsm_wrap_blob"
  totp_seed_wrap_blob ← read_u16_prefixed_vec "totp_seed_wrap_blob"
  rl_counter ← read_u64_le "rl_counter"
  rl_last_failure ← read_i64_le "rl_last_failure"
  last_password_change ← read_i64_le "meta.last_password_change"
  last_export_at ← read_export_at
  sealed_index_nonce ← take_array nonce_len "sealed_index_nonce"
  sealed_index_ct ← read_u32_prefixed_vec "sealed_index_ct"
  entries_count ← read_u32_le "entries_count"
  envelopes ← read_envelopes entries_count
  expect_eof
  pure (record {
    format_version = format_version;
    kdf_algorithm_id = kdf_algorithm_id;
    kdf_params = Kdf.from_bytes kdf_bytes;
    salt = vault_salt;
    probe_nonce = probe_nonce;
    probe_ct = probe_ct;
    k_hsm_wrap_blob = k_hsm_wrap_blob;
    totp_seed_wrap_blob = totp_seed_wrap_blob;
    rl_counter = rl_counter;
    rl_last_failure = rl_last_failure;
    metadata = record {
      last_password_change = last_password_change;
      last_export_at = last_export_at;
    };
    sealed_index_nonce = sealed_index_nonce;
    sealed_index_ct = sealed_index_ct;
    envelopes = envelopes;
  })

unfoldable pub from_bytes : List ℕ → Result VaultError Vault
from_bytes bytes = run parse bytes
