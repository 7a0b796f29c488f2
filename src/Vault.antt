-- ===== src/Vault.antt =====
-- crates/passman-vault: the encrypted container. Its data is here; the children are its files.
pub mod Record
pub mod Keyed
pub mod Index
pub mod Sets
pub mod Format
pub mod Postcard
pub mod Padding
pub mod Sealing
pub mod Operations
pub mod Create
pub mod Toy
use passman.Prelude.{
  ℕ, ◌<◌, ◌^◌, ◌≡◌, String, List, Option, none, some, length, All, ◌⊎◌, IsArray, IsBlob,
}
use passman.Prelude.Int.{ℤ, IsI64}
use passman.Reader.{ReadErrors}
use passman.Crypto.{CryptoError}
use passman.Crypto.Kdf.{KdfParams, IsParams}

pub data VaultError : Type 0 where
  truncated : String → ℕ → VaultError
  trailing_bytes : ℕ → VaultError
  unsupported_version : ℕ → ℕ → VaultError
  unsupported_kdf_algorithm : ℕ → VaultError
  invalid_flag : String → ℕ → VaultError
  index_mismatch : VaultError
  malformed_record : String → VaultError
  entry_not_found : VaultError
  blob_too_large : String → VaultError
  crypto : CryptoError → VaultError

instance abbrev pub vault_read_errors : ReadErrors VaultError
vault_read_errors = record { truncated = truncated; trailing_bytes = trailing_bytes }

abbrev pub entry_id_len : ℕ
entry_id_len = 16

abbrev pub salt_len : ℕ
salt_len = 32

abbrev pub probe_ct_len : ℕ
probe_ct_len = 32

abbrev pub format_version_current : ℕ
format_version_current = 2

abbrev pub format_version_legacy_v1 : ℕ
format_version_legacy_v1 = 1

abbrev pub kdf_algorithm_argon2id : ℕ
kdf_algorithm_argon2id = 0

pub record VaultMetadata : Type 0 where
  pub last_password_change : ℤ
  pub last_export_at : Option ℤ

-- An `EntryId` is its sixteen bytes.
pub record EntryEnvelope : Type 0 where
  pub id : List ℕ
  pub nonce : List ℕ
  pub ct_len : ℕ
  pub ciphertext_and_tag : List ℕ

pub record Vault : Type 0 where
  pub format_version : ℕ
  pub kdf_algorithm_id : ℕ
  pub kdf_params : KdfParams
  pub salt : List ℕ
  pub probe_nonce : List ℕ
  pub probe_ct : List ℕ
  pub k_hsm_wrap_blob : List ℕ
  pub totp_seed_wrap_blob : List ℕ
  pub rl_counter : ℕ
  pub rl_last_failure : ℤ
  pub metadata : VaultMetadata
  pub sealed_index_nonce : List ℕ
  pub sealed_index_ct : List ℕ
  pub envelopes : List EntryEnvelope

abbrev pub IsTimestamp : Option ℤ → Type 0
IsTimestamp none = Unit
IsTimestamp (some z) = IsI64 z

pub record IsEnvelope (e : EntryEnvelope) : Type 0 where
  pub id : IsArray 16 e.id
  pub nonce : IsArray 24 e.nonce
  pub body : IsBlob (2 ^ 32) e.ciphertext_and_tag
  -- What the field's comment promises.
  pub ct_len : e.ct_len ≡ length e.ciphertext_and_tag

-- The fields fit their types, and the lengths fit the prefixes of the layout.
pub record IsVault (v : Vault) : Type 0 where
  pub version : (v.format_version ≡ 2) ⊎ (v.format_version ≡ 1)
  pub algorithm : v.kdf_algorithm_id ≡ 0
  pub kdf_params : IsParams v.kdf_params
  pub salt : IsArray 32 v.salt
  pub probe_nonce : IsArray 24 v.probe_nonce
  pub probe_ct : IsArray 32 v.probe_ct
  pub k_hsm_wrap_blob : IsBlob (2 ^ 16) v.k_hsm_wrap_blob
  pub totp_seed_wrap_blob : IsBlob (2 ^ 16) v.totp_seed_wrap_blob
  pub rl_counter : v.rl_counter < 2 ^ 64
  pub rl_last_failure : IsI64 v.rl_last_failure
  pub last_password_change : IsI64 v.metadata.last_password_change
  pub last_export_at : IsTimestamp v.metadata.last_export_at
  pub sealed_index_nonce : IsArray 24 v.sealed_index_nonce
  pub sealed_index_ct : IsBlob (2 ^ 32) v.sealed_index_ct
  pub count : length v.envelopes < 2 ^ 32
  pub envelopes : All IsEnvelope v.envelopes
