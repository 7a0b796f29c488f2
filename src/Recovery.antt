-- ===== src/Recovery.antt =====
-- crates/passman-recovery: the password-only export. Its errors and data are here.
pub mod Cost
pub mod Payload
pub mod Format
use passman.Prelude.{ℕ, ◌<◌, ◌^◌, ◌≡◌, String, List, length, All, IsArray, IsBlob}
use passman.Reader.{ReadErrors}
use passman.Utf8.{is_utf8}
use passman.Crypto.{CryptoError}
use passman.Crypto.Kdf.{KdfParams, IsParams}
use passman.Vault.Record.Decode.{IsUtf8}

pub data RecoveryError : Type 0 where
  truncated : String → ℕ → RecoveryError
  trailing_bytes : ℕ → RecoveryError
  bad_magic : RecoveryError
  unsupported_version : ℕ → ℕ → RecoveryError
  unsupported_kdf_algorithm : ℕ → RecoveryError
  -- The parameters that were given, and the floor's.
  weak_params : KdfParams → KdfParams → RecoveryError
  kdf_params_out_of_range : KdfParams → RecoveryError
  decrypt_failed : RecoveryError
  malformed_payload : String → RecoveryError
  crypto : CryptoError → RecoveryError

instance abbrev pub recovery_read_errors : ReadErrors RecoveryError
recovery_read_errors = record { truncated = truncated; trailing_bytes = trailing_bytes }

abbrev pub totp_seed_len : ℕ
totp_seed_len = 32

-- A secret string is the bytes of its text.
pub record RecoveryEntry : Type 0 where
  pub id : List ℕ
  pub label : List ℕ
  pub username : List ℕ
  pub password : List ℕ
  pub url : List ℕ
  pub notes : List ℕ
  pub policy : List ℕ

pub record ExportPayload : Type 0 where
  pub totp_seed : List ℕ
  pub original_vault_kdf : KdfParams
  pub entries : List RecoveryEntry

-- Well-formed text whose length fits its prefix.
pub record IsText (t : List ℕ) : Type 0 where
  pub blob : IsBlob (2 ^ 32) t
  pub utf8 : IsUtf8 t

pub record IsEntry (e : RecoveryEntry) : Type 0 where
  pub id : IsArray 16 e.id
  pub label : IsText e.label
  pub username : IsText e.username
  pub password : IsText e.password
  pub url : IsText e.url
  pub notes : IsText e.notes
  pub policy : IsBlob (2 ^ 32) e.policy

pub record IsPayload (p : ExportPayload) : Type 0 where
  pub totp_seed : IsArray 32 p.totp_seed
  pub kdf : IsParams p.original_vault_kdf
  pub count : length p.entries < 2 ^ 32
  pub entries : All IsEntry p.entries
