-- ===== src/Vault/Sealing.antt =====
-- The functions of crates/passman-vault/src/vault.rs that seal and open one part of a vault: the
-- index, an entry and the probe. A random nonce is an argument.
pub mod Opens
use passman.Prelude.{
  ℕ, ◌^◌, String, List, [], ◌∷◌, ◌++◌, Option, none, some, Bool, Result, ok, err, ◌>>=◌, ◌>>◌,
  guard, ok_or, map_err, clamp, length, not, ltb, ◌==◌, if◌then◌else◌,
}
use passman.Crypto.{CryptoError, aead_auth, invalid_length, kdf, Primitives}
use passman.Crypto.Aead.{encrypt, decrypt, ct_eq}
use passman.Crypto.Derive.{hkdf_expand}
use passman.Crypto.Kdf.{KdfParams}
use passman.Crypto.Kdf
use passman.Vault.{
  VaultError, crypto, malformed_record, entry_not_found, blob_too_large, EntryEnvelope, Vault,
  format_version_legacy_v1,
}
use passman.Vault.Index.{Index, index_info, entry_info}
use passman.Vault.Keyed.{find}
use passman.Vault.Sets.{envelope_id, check_index_envelope_sets}
use passman.Vault.Record.{EntryRecord, encode_padded, decode}
use passman.Vault.Postcard.{Postcard}
use passman.Vault.Padding.{pad_index_plaintext, strip_index_padding}

-- b"PASSMAN_VAULT_v0" and b"probe-v0"
abbrev pub probe_plaintext : List ℕ
probe_plaintext =
    b'P' ∷ b'A' ∷ b'S' ∷ b'S' ∷ b'M' ∷ b'A' ∷ b'N' ∷ b'_' ∷ b'V' ∷ b'A' ∷ b'U' ∷ b'L' ∷ b'T' ∷ b'_'
    ∷ b'v' ∷ b'0' ∷ []

abbrev pub probe_ad_tag : List ℕ
probe_ad_tag = b'p' ∷ b'r' ∷ b'o' ∷ b'b' ∷ b'e' ∷ b'-' ∷ b'v' ∷ b'0' ∷ []

-- `u16::MAX`
abbrev pub max_hsm_blob_len : ℕ
max_hsm_blob_len = 65535

-- What an operation gives that never panics; the default stands for the panic.
abbrev pub unwrap : Option (List ℕ) → List ℕ
unwrap none = []
unwrap (some a) = a

unfoldable pub probe_associated_data : ℕ → ℕ → KdfParams → List ℕ → List ℕ
probe_associated_data format_version kdf_algorithm_id kdf_params vault_salt =
    (format_version ∷ [])
    ++ ((kdf_algorithm_id ∷ []) ++ (Kdf.to_bytes kdf_params ++ (vault_salt ++ probe_ad_tag)))

unfoldable pub entry_associated_data : ℕ → List ℕ → List ℕ
entry_associated_data format_version id = format_version ∷ id

unfoldable pub check_blob_len : List ℕ → String → Result VaultError (Unit {0})
check_blob_len blob which =
    if ltb max_hsm_blob_len (length blob) then err (blob_too_large which) else ok tt

unfoldable pub into_fixed : ℕ → List ℕ → Option (List ℕ)
into_fixed n slice = if length slice == n then some slice else none

unfoldable pub auth_failure : CryptoError → VaultError
auth_failure (invalid_length what expected actual) = crypto aead_auth
auth_failure aead_auth = crypto aead_auth
auth_failure (kdf why) = crypto (kdf why)

module _ ⦃p : Primitives⦄ (post : Postcard) where
  unfoldable pub seal_index : List ℕ → Index → ℕ → List ℕ → Result VaultError (List ℕ × List ℕ)
  seal_index nonce index format_version k_master = do
    let key = hkdf_expand k_master index_info
    postcard_bytes ←
        ok_or (post.to_stdvec index) (malformed_record "failed to serialize sealed index")
    let plaintext =
        if format_version == format_version_legacy_v1
        then postcard_bytes
        else unwrap (pad_index_plaintext postcard_bytes)
    ct ← map_err crypto (encrypt key nonce (format_version ∷ []) plaintext)
    ok (nonce, ct)

  unfoldable pub decrypt_index : Vault → List ℕ → Result VaultError Index
  decrypt_index v k_master = do
    let key = hkdf_expand k_master index_info
    plaintext ←
        map_err auth_failure
          (decrypt key v.sealed_index_nonce (v.format_version ∷ []) v.sealed_index_ct)
    postcard_bytes ←
        if v.format_version == format_version_legacy_v1
        then ok plaintext
        else strip_index_padding plaintext
    ok_or (post.from_bytes postcard_bytes) (malformed_record "sealed index is not valid postcard")

  unfoldable pub open_index : Vault → List ℕ → Result VaultError Index
  open_index v k_master = do
    index ← decrypt_index v k_master
    check_index_envelope_sets v.envelopes index
    ok index

module _ ⦃p : Primitives⦄ where
  -- Encoding the record never panics.
  unfoldable pub encrypt_entry :
      List ℕ → List ℕ → ℕ → List ℕ → EntryRecord → Result VaultError EntryEnvelope
  encrypt_entry nonce k_master format_version id entry = do
    let key = hkdf_expand k_master (entry_info id)
    let padded = unwrap (encode_padded entry)
    ct ← map_err crypto (encrypt key nonce (entry_associated_data format_version id) padded)
    ok (record { id = id; nonce = nonce; ct_len = clamp 4 (length ct); ciphertext_and_tag = ct })

  unfoldable pub decrypt_entry : Vault → List ℕ → List ℕ → Result VaultError EntryRecord
  decrypt_entry v k_master id = do
    envelope ← ok_or (find envelope_id id v.envelopes) entry_not_found
    let key = hkdf_expand k_master (entry_info id)
    plaintext ← map_err auth_failure (
        decrypt key envelope.nonce (entry_associated_data v.format_version id)
          envelope.ciphertext_and_tag)
    decode plaintext

  unfoldable pub verify_probe : Vault → List ℕ → Result VaultError (Unit {0})
  verify_probe v k_master = do
    let ad = probe_associated_data v.format_version v.kdf_algorithm_id v.kdf_params v.salt
    recovered ← map_err auth_failure (decrypt k_master v.probe_nonce ad v.probe_ct)
    if ct_eq recovered probe_plaintext then ok tt else err (crypto aead_auth)
