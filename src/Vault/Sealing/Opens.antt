-- ===== src/Vault/Sealing/Opens.antt =====
-- What is sealed is opened again, and nothing else is (crates/passman-vault/src/vault.rs).
use passman.Prelude.{
  ℕ, ◌+◌, ◌<◌, ◌^◌, ◌≡◌, ◌↔◌, refl, ap, ◌∙◌, List, [], ◌∷◌, ◌++◌, some, true, Result, ok, err,
  arith, clamp, length, length-append, length-to_le, length-replicate, replicate, to_le, ◌==◌,
  if◌then◌else◌, inl, inr, Bool-cases, Result-cases,
}
use passman.Crypto.{aead_auth, Primitives, IsAead}
use passman.Crypto.Aead.{
  encrypt, decrypt, ct_eq, ct_eq_refl, ct_eq→eq, encrypt_some, decrypt-encrypt, encrypt-decrypt,
}
use passman.Crypto.Derive.{hkdf_expand}
use passman.Vault.{VaultError, crypto, EntryEnvelope, Vault, format_version_legacy_v1}
use passman.Vault.Index.{Index, index_info, entry_info}
use passman.Vault.Keyed.{find}
use passman.Vault.Sets.{envelope_id}
use passman.Vault.Record.{EntryRecord, fields, record_len, div_ceil, encode_padded}
use passman.Vault.Record.Encode.{fields_bytes, length-fields_bytes, padding, encode_padded_lem}
use passman.Vault.Record.Decode.{IsRecord, decode-encode_padded}
use passman.Vault.Postcard.{Postcard, IsPostcard}
use passman.Vault.Padding.{
  pad_index_plaintext, strip_index_padding, pad_index_plaintext_lem,
  strip_index_padding-pad_index_plaintext, index_padding,
}
use passman.Vault.Sealing.{
  unwrap, probe_plaintext, probe_associated_data, entry_associated_data, seal_index, decrypt_index,
  encrypt_entry, decrypt_entry, verify_probe,
}

-- The plaintext of an index: padded, but in the legacy format.
unfoldable pub index_plaintext : ℕ → List ℕ → List ℕ
index_plaintext format_version bytes =
    if format_version == format_version_legacy_v1 then bytes else unwrap (pad_index_plaintext bytes)

-- The bytes of the rows are what postcard makes of them, and short enough for the length prefix.
pub record Serializes (post : Postcard) (rows : Index) (bytes : List ℕ) : Type 0 where
  pub serialized : post.to_stdvec rows ≡ some bytes
  pub size : length bytes < 2 ^ 32

pub length-index_plaintext :
    (format_version : ℕ) (bytes : List ℕ)
    → length bytes < 2 ^ 32
    → length (index_plaintext format_version bytes) < 2 ^ 38
unfolding index_plaintext div_ceil
length-index_plaintext version bytes h =
    let region = bytes ++ replicate (index_padding bytes) 0 in
    let size : length (unwrap (pad_index_plaintext bytes))
        ≡ 4 + (length bytes + index_padding bytes) =
      ap (λ o. length (unwrap o)) (pad_index_plaintext_lem bytes)
      ∙ omega (
        arith,
        length-append (to_le 4 (clamp 4 (length bytes))) region,
        length-to_le 4 (clamp 4 (length bytes)),
        length-append bytes (replicate (index_padding bytes) 0),
        length-replicate {A = ℕ} (index_padding bytes) 0,
      ) in
    elim (Bool-cases (version == format_version_legacy_v1)) [
      | inl e ↦ rw e (omega arith)
      | inr e ↦ rw e (omega arith)
    ]

strip-index_plaintext :
    (format_version : ℕ) (bytes : List ℕ)
    → length bytes < 2 ^ 32
    → (if format_version == format_version_legacy_v1
        then ok (index_plaintext format_version bytes)
        else strip_index_padding (index_plaintext format_version bytes))
      ≡ ok bytes
unfolding index_plaintext
strip-index_plaintext version bytes h = elim (Bool-cases (version == format_version_legacy_v1)) [
  | inl e ↦ rw e refl
  | inr e ↦ rw e (
      rw (pad_index_plaintext_lem bytes)
        (strip_index_padding-pad_index_plaintext bytes _ h (pad_index_plaintext_lem bytes)).0)
]

module _ ⦃p : Primitives⦄ (laws : IsAead p) (post : Postcard) (codec : IsPostcard post) where
  -- Rows that postcard serializes to less than 4 GiB are sealed, under the stored format version.
  pub seal_index_some :
      (nonce k_master bytes : List ℕ) (rows : Index) (format_version : ℕ)
      → Serializes post rows bytes
      → (ct : List ℕ) × (seal_index post nonce rows format_version k_master ≡ ok (nonce, ct))
  unfolding seal_index
  seal_index_some nonce k bytes rows version h =
      let (ct, e, _) =
        encrypt_some laws (hkdf_expand k index_info) nonce (version ∷ [])
          (index_plaintext version bytes) (length-index_plaintext version bytes h.size) in
      (ct, rw h.serialized (unfold index_plaintext in rw e refl))

  pub seal_index-encrypt :
      (nonce k_master bytes ct : List ℕ) (rows : Index) (format_version : ℕ)
      → Serializes post rows bytes
      → seal_index post nonce rows format_version k_master ≡ ok (nonce, ct)
      → encrypt
          (hkdf_expand k_master index_info)
          nonce
          (format_version ∷ [])
          (index_plaintext format_version bytes)
        ≡ ok ct
  unfolding seal_index index_plaintext
  seal_index-encrypt nonce k bytes ct rows version h e = ground (arith, h.serialized)

  -- An index is decrypted from what `seal_index` made of it, under the same format version.
  pub decrypt_index-seal_index :
      (v : Vault) (k_master bytes : List ℕ) (rows : Index)
      → Serializes post rows bytes
      → seal_index post v.sealed_index_nonce rows v.format_version k_master
        ≡ ok (v.sealed_index_nonce, v.sealed_index_ct)
      → decrypt_index post v k_master ≡ ok rows
  unfolding decrypt_index
  decrypt_index-seal_index v k bytes rows h e =
      let sealed =
        seal_index-encrypt v.sealed_index_nonce k bytes v.sealed_index_ct rows v.format_version h
          e in
      rw (decrypt-encrypt laws _ _ _ _ _ sealed) (
        rw (strip-index_plaintext v.format_version bytes h.size)
          (rw (codec.from_bytes-to_stdvec rows bytes h.serialized) refl))

abbrev Outcome : Type 0
Outcome = Result VaultError (Unit {0})

accepted :
    (m : List ℕ)
    → Path Outcome (if ct_eq m probe_plaintext then ok tt else err (crypto aead_auth)) (ok tt)
    → ct_eq m probe_plaintext ≡ true
accepted m e = ground arith

err≢ok : {x : VaultError} → Path Outcome (err x) (ok tt) → ⊥
err≢ok e = cc

module _ ⦃p : Primitives⦄ (laws : IsAead p) where
  -- The probe is accepted exactly under a key, a nonce and header fields that encrypt the probe
  -- plaintext to the stored ciphertext.
  pub verify_probe_iff :
      (v : Vault) (k_master : List ℕ)
      → (verify_probe v k_master ≡ ok tt) ↔ (
          encrypt k_master v.probe_nonce
            (probe_associated_data v.format_version v.kdf_algorithm_id v.kdf_params v.salt)
            probe_plaintext
          ≡ ok v.probe_ct)
  unfolding verify_probe
  verify_probe_iff v k =
      let ad = probe_associated_data v.format_version v.kdf_algorithm_id v.kdf_params v.salt in
      (
        λ e. elim (Result-cases (decrypt k v.probe_nonce ad v.probe_ct)) [
          | inl (m, opened) ↦
              let same : m ≡ probe_plaintext =
                ct_eq→eq m probe_plaintext (accepted m (rw opened at e)) in
              encrypt-decrypt laws k v.probe_nonce ad probe_plaintext v.probe_ct
                (opened ∙ ap ok same)
          | inr (x, failed) ↦ absurd (err≢ok (rw failed at e))
        ],
        λ e. rw (decrypt-encrypt laws _ _ _ _ _ e) (rw (ct_eq_refl probe_plaintext) refl),
      )

  padded-length :
      (entry : EntryRecord) → IsRecord entry → length (unwrap (encode_padded entry)) < 2 ^ 38
  unfolding div_ceil
  padded-length entry h =
      let region = fields_bytes (fields entry) ++ replicate (padding entry) 0 in
      let prefix = to_le 4 (clamp 4 (record_len (fields entry))) in
      let size : length (unwrap (encode_padded entry))
          ≡ 4 + (record_len (fields entry) + padding entry) =
        ap (λ o. length (unwrap o)) (encode_padded_lem entry).0
        ∙ omega (
          arith,
          length-append prefix region,
          length-to_le 4 (clamp 4 (record_len (fields entry))),
          length-append (fields_bytes (fields entry)) (replicate (padding entry) 0),
          length-fields_bytes (fields entry),
          length-replicate {A = ℕ} (padding entry) 0,
        ) in
      omega (arith, h.size, (encode_padded_lem entry).1)

  -- Every record of well-formed text is encrypted.
  pub encrypt_entry_some :
      (nonce k_master id : List ℕ) (format_version : ℕ) (entry : EntryRecord)
      → IsRecord entry
      → (e : EntryEnvelope) × (encrypt_entry nonce k_master format_version id entry ≡ ok e)
        × (e.id ≡ id)
  unfolding encrypt_entry
  encrypt_entry_some nonce k id version entry h =
      let (ct, e, _) =
        encrypt_some laws (hkdf_expand k (entry_info id)) nonce (entry_associated_data version id)
          (unwrap (encode_padded entry)) (padded-length entry h) in
      (
        record { id = id; nonce = nonce; ct_len = clamp 4 (length ct); ciphertext_and_tag = ct },
        rw e refl,
        refl,
      )

  pub encrypt_entry-encrypt :
      (nonce k_master id : List ℕ) (format_version : ℕ) (entry : EntryRecord) (e : EntryEnvelope)
      → encrypt_entry nonce k_master format_version id entry ≡ ok e
      → (e.id ≡ id)
        × (encrypt
              (hkdf_expand k_master (entry_info id))
              e.nonce
              (entry_associated_data format_version id)
              (unwrap (encode_padded entry))
            ≡ ok e.ciphertext_and_tag)
  unfolding encrypt_entry
  encrypt_entry-encrypt nonce k id version entry e made = ground arith

  -- An entry is decrypted from the envelope that is found under its id.
  pub decrypt_entry-encrypt_entry :
      (v : Vault) (nonce k_master id : List ℕ) (entry : EntryRecord) (e : EntryEnvelope)
      → IsRecord entry
      → encrypt_entry nonce k_master v.format_version id entry ≡ ok e
      → find envelope_id id v.envelopes ≡ some e
      → decrypt_entry v k_master id ≡ ok entry
  unfolding decrypt_entry encrypt_entry
  decrypt_entry-encrypt_entry v nonce k id entry e h made found =
      let (_, sealed) = encrypt_entry-encrypt nonce k id v.format_version entry e made in
      rw found (
        rw (decrypt-encrypt laws _ _ _ _ _ sealed) (
          rw ((encode_padded_lem entry).0)
            (decode-encode_padded entry _ h ((encode_padded_lem entry).0))))
