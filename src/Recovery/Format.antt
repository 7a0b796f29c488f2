-- ===== src/Recovery/Format.antt =====
-- crates/passman-recovery/src/format.rs: the recovery file. The random salt and nonce are arguments.
pub mod Import
pub mod Export
mod Examples
use passman.Prelude.{
  ℕ, String, List, [], ◌∷◌, ◌++◌, Option, none, Bool, not, Result, ok, err, clamp, length, to_le,
  ltb, ◌==◌, bytes_eq, map_err, guard,
}
use passman.Prelude
use passman.Reader.{
  Read, ◌>>=◌, ◌>>◌, pure, lift, reject, run, expect_eof, take, take_array, read_u8, read_u32_le,
}
use passman.Crypto.{CryptoError, aead_auth, invalid_length, kdf, Primitives}
use passman.Crypto.Aead.{encrypt, decrypt, tag_len, nonce_len}
use passman.Crypto.Kdf.{KdfParams, within_limits}
use passman.Recovery.{
  RecoveryError, bad_magic, unsupported_version, unsupported_kdf_algorithm, weak_params,
  kdf_params_out_of_range, decrypt_failed, crypto, recovery_read_errors, ExportPayload,
}
use passman.Recovery.Cost.{floor_params, meets_floor, derive_recovery_key}
use passman.Recovery.Payload.{encode_payload, decode_payload}

-- b"PSMREC"
abbrev pub magic_bytes : List ℕ
magic_bytes = b'P' ∷ b'S' ∷ b'M' ∷ b'R' ∷ b'E' ∷ b'C' ∷ []

abbrev pub format_version : ℕ
format_version = 1

abbrev pub kdf_algorithm_argon2id : ℕ
kdf_algorithm_argon2id = 0

-- b"PSMREC-v0"
abbrev pub recovery_ad : List ℕ
recovery_ad = b'P' ∷ b'S' ∷ b'M' ∷ b'R' ∷ b'E' ∷ b'C' ∷ b'-' ∷ b'v' ∷ b'0' ∷ []

abbrev pub salt_len : ℕ
salt_len = 32

-- The file that `seal` puts together.
unfoldable pub file_bytes : KdfParams → List ℕ → List ℕ → List ℕ → List ℕ
file_bytes params recovery_salt nonce ciphertext =
    magic_bytes
    ++ ((format_version ∷ [])
        ++ ((kdf_algorithm_argon2id ∷ [])
            ++ (to_le 4 params.m_kib
                ++ (to_le 4 params.t
                    ++ ((params.p ∷ [])
                        ++ (recovery_salt
                            ++ (nonce
                                ++ (to_le 4 (clamp 4 (length ciphertext)) ++ ciphertext))))))))

-- How `import` maps a failure of the decryption.
unfoldable pub decrypt_failure : CryptoError → RecoveryError
decrypt_failure aead_auth = decrypt_failed
decrypt_failure (invalid_length what expected actual) = decrypt_failed
decrypt_failure (kdf why) = crypto (kdf why)

-- The file, where the key and the ciphertext are made.
abbrev pub bind_result :
    {A B : Type 0} → Result RecoveryError A → (A → Result RecoveryError B) → Result RecoveryError B
bind_result (ok a) f = f a
bind_result (err e) f = err e

module _ ⦃prim : Primitives⦄ where
  unfoldable pub seal :
      List ℕ
      → List ℕ
      → ExportPayload
      → List ℕ
      → KdfParams
      → Option ℕ
      → Result RecoveryError (List ℕ)
  seal recovery_salt nonce payload password recovery_params available_kib =
      let plaintext = encode_payload payload in
      bind_result (derive_recovery_key password recovery_salt recovery_params available_kib)
        λ k_recovery.
          bind_result (map_err crypto (encrypt k_recovery nonce recovery_ad plaintext))
            λ ciphertext. ok (file_bytes recovery_params recovery_salt nonce ciphertext)

  unfoldable pub export_within_memory :
      List ℕ
      → List ℕ
      → ExportPayload
      → List ℕ
      → KdfParams
      → Option ℕ
      → Result RecoveryError (List ℕ)
  export_within_memory recovery_salt nonce payload password recovery_params available_kib =
      bind_result (guard (meets_floor recovery_params) (weak_params recovery_params floor_params))
        λ _. seal recovery_salt nonce payload password recovery_params available_kib

  unfoldable pub export_file :
      List ℕ → List ℕ → ExportPayload → List ℕ → KdfParams → Result RecoveryError (List ℕ)
  export_file recovery_salt nonce payload password recovery_params =
      export_within_memory recovery_salt nonce payload password recovery_params none

  unfoldable pub parse_file : List ℕ → Option ℕ → Read RecoveryError ExportPayload
  parse_file password available_kib = do
    magic ← take_array 6 "magic"
    reject (not (bytes_eq magic magic_bytes)) bad_magic
    version ← read_u8 "format_version"
    reject (not (version == format_version)) (unsupported_version version format_version)
    kdf_id ← read_u8 "kdf_algorithm_id"
    reject (not (kdf_id == kdf_algorithm_argon2id)) (unsupported_kdf_algorithm kdf_id)
    m_kib ← read_u32_le "argon2.m"
    t ← read_u32_le "argon2.t"
    p ← read_u8 "argon2.p"
    let recovery_params : KdfParams = record { m_kib = m_kib; t = t; p = p }
    reject (not (within_limits recovery_params)) (kdf_params_out_of_range recovery_params)
    recovery_salt ← take_array salt_len "recovery_salt"
    nonce ← take_array nonce_len "nonce"
    payload_ct_len ← read_u32_le "payload_ct_len"
    ciphertext ← take payload_ct_len "payload_ct"
    expect_eof
    reject (ltb (length ciphertext) tag_len) decrypt_failed
    k_recovery ← lift (derive_recovery_key password recovery_salt recovery_params available_kib)
    plaintext ← lift (map_err decrypt_failure (decrypt k_recovery nonce recovery_ad ciphertext))
    lift (decode_payload plaintext)

  unfoldable pub import_within_memory :
      List ℕ → List ℕ → Option ℕ → Result RecoveryError ExportPayload
  unfolding parse_file
  import_within_memory file_bytes password available_kib =
      run (parse_file password available_kib) file_bytes

  unfoldable pub import_file : List ℕ → List ℕ → Result RecoveryError ExportPayload
  import_file file_bytes password = import_within_memory file_bytes password none
