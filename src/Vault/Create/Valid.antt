-- ===== src/Vault/Create/Valid.antt =====
-- A created vault is well-formed (crates/passman-vault/src/vault.rs).
use passman.Prelude.{
  ℕ, zero, suc, ◌+◌, length-append, length-to_le, length-replicate, to_le, ◌<◌, ◌^◌, ◌≡◌, refl, sym,
  ap, ◌∙◌, subst, List, [], ◌∷◌, ◌++◌, some, Result, ok, arith, length, IsArray, IsBlob, IsBytes,
  IsByte, All-append, to_le-IsBytes, clamp, replicate, inl,
}
use passman.Prelude.Int.{pos, IsI64}
use passman.Crypto.{Primitives, IsAead}
use passman.Crypto.Aead.{encrypt_some, encrypt-eq-ok}
use passman.Crypto.Derive.{hkdf_expand}
use passman.Crypto.Kdf.{KdfParams, IsParams}
use passman.Vault.Record.{div_ceil}
use passman.Vault.{VaultError, VaultMetadata, Vault, IsVault, IsTimestamp}
use passman.Vault.Postcard.{Postcard, IsPostcard}
use passman.Vault.Padding.{pad_index_plaintext, pad_index_plaintext_lem, index_padding}
use passman.Vault.Create.{create}
use passman.Vault.Create.Fresh.{create_opens, check_blob_len-ok, into_fixed-some}
use passman.Vault.Index.{index_info}
use passman.Vault.Sealing.{unwrap, probe_plaintext, probe_associated_data, verify_probe, open_index}
use passman.Vault.Sealing.Opens.{Serializes, index_plaintext, seal_index_some, seal_index-encrypt}

zeros-IsBytes : (n : ℕ) → IsBytes (replicate n 0)
zeros-IsBytes zero = tt
zeros-IsBytes (suc n) = (omega arith, zeros-IsBytes n)

index_plaintext-IsBytes : (bytes : List ℕ) → IsBytes bytes → IsBytes (index_plaintext 2 bytes)
unfolding index_plaintext
index_plaintext-IsBytes bytes h = rw (pad_index_plaintext_lem bytes) (
    All-append IsByte (to_le 4 (clamp 4 (length bytes))) _
      (to_le-IsBytes 4 (clamp 4 (length bytes)))
      (All-append IsByte bytes _ h (zeros-IsBytes (index_padding bytes))))

-- Padding adds less than a bucket and the prefix.
length-index_plaintext-lt :
    (bytes : List ℕ) → length bytes < 2 ^ 31 → length (index_plaintext 2 bytes) < 2 ^ 31 + 260
unfolding index_plaintext div_ceil
length-index_plaintext-lt bytes h =
    let region = bytes ++ replicate (index_padding bytes) 0 in
    let size : length (unwrap (pad_index_plaintext bytes))
        ≡ 4 + (length bytes + index_padding bytes) =
      ap (λ o. length (unwrap o)) (pad_index_plaintext_lem bytes)
      ∙ omega (
        arith,
        length-append (to_le 4 (clamp 4 (length bytes))) region,
        length-to_le 4 (clamp 4 (length bytes)),
        length-append bytes (replicate (index_padding bytes) 0),
        length-replicate {A = ℕ} (index_padding bytes) 0,
      ) in
    omega arith

ok-injective_vault : {v v' : Vault} → Path (Result VaultError Vault) (ok v) (ok v') → v ≡ v'
ok-injective_vault e = cc

-- What the arguments of `create` are by their types, and the bytes of an empty index.
pub record AreFit (post : Postcard) (probe_nonce index_nonce : List ℕ) (kdf_params : KdfParams)
    (vault_salt k_hsm_wrap_blob totp_seed_wrap_blob : List ℕ) (metadata : VaultMetadata)
    (bytes : List ℕ) : Type 0 where
  pub probe_nonce_fits : IsArray 24 probe_nonce
  pub index_nonce_fits : IsArray 24 index_nonce
  pub kdf_fits : IsParams kdf_params
  pub salt_fits : IsArray 32 vault_salt
  pub k_hsm_fits : IsBlob (2 ^ 16) k_hsm_wrap_blob
  pub totp_seed_fits : IsBlob (2 ^ 16) totp_seed_wrap_blob
  pub changed : IsI64 metadata.last_password_change
  pub exported : IsTimestamp metadata.last_export_at
  pub serialized : post.to_stdvec [] ≡ some bytes
  pub small : length bytes < 2 ^ 31
  pub empty : IsBytes bytes

module _ ⦃p : Primitives⦄ (post : Postcard) where
  created_fields :
      (pn n : List ℕ) (kdf : KdfParams) (salt kb tb : List ℕ) (metadata : VaultMetadata)
      (k : List ℕ) (v : Vault)
      → create post pn n kdf salt kb tb metadata k ≡ ok v
      → (v.kdf_params ≡ kdf)
        × (v.salt ≡ salt)
        × (v.k_hsm_wrap_blob ≡ kb)
        × (v.totp_seed_wrap_blob ≡ tb)
        × (v.rl_counter ≡ 0)
        × (v.rl_last_failure ≡ pos 0)
  unfolding create
  created_fields pn n kdf salt kb tb metadata k v made = ground arith

module _ ⦃p : Primitives⦄ (laws : IsAead p) (post : Postcard) (codec : IsPostcard post) where
  create-IsVault :
      (pn n : List ℕ) (kdf : KdfParams) (salt kb tb : List ℕ) (metadata : VaultMetadata)
      (k bytes : List ℕ) (v : Vault)
      → AreFit post pn n kdf salt kb tb metadata bytes
      → create post pn n kdf salt kb tb metadata k ≡ ok v
      → IsVault v
  unfolding create
  create-IsVault pn n kdf salt kb tb metadata k bytes v f made =
      let ad = probe_associated_data 2 0 kdf salt in
      let (probe, sealed_probe, len) = encrypt_some laws k pn ad probe_plaintext (omega arith) in
      let s : Serializes post [] bytes = record {
        serialized = f.serialized;
        size = omega (arith, f.small);
      } in
      let (ct, sealed) = seal_index_some laws post codec n k bytes [] 2 s in
      let key = hkdf_expand k index_info in
      let inner =
        encrypt-eq-ok laws key n (2 ∷ []) (index_plaintext 2 bytes) ct
          (seal_index-encrypt laws post codec n k bytes ct [] 2 s sealed) in
      let v₀ : Vault = record {
        format_version = 2;
        kdf_algorithm_id = 0;
        kdf_params = kdf;
        salt = salt;
        probe_nonce = pn;
        probe_ct = probe;
        k_hsm_wrap_blob = kb;
        totp_seed_wrap_blob = tb;
        rl_counter = 0;
        rl_last_failure = pos 0;
        metadata = metadata;
        sealed_index_nonce = n;
        sealed_index_ct = ct;
        envelopes = [];
      } in
      let run : create post pn n kdf salt kb tb metadata k ≡ ok v₀ =
        rw (check_blob_len-ok kb "k_hsm_wrap_blob" (omega (arith, f.k_hsm_fits.size))) (
          rw (check_blob_len-ok tb "totp_seed_wrap_blob" (omega (arith, f.totp_seed_fits.size))) (
            rw sealed_probe
              (rw (into_fixed-some 32 probe (omega (arith, len))) (rw sealed refl)))) in
      subst IsVault (ok-injective_vault (sym run ∙ made)) (record {
        version = inl refl;
        algorithm = refl;
        kdf_params = f.kdf_fits;
        salt = f.salt_fits;
        probe_nonce = f.probe_nonce_fits;
        probe_ct = record {
          size = omega (arith, len);
          bytes =
              laws.seal-IsBytes k pn ad probe_plaintext probe
                (encrypt-eq-ok laws k pn ad probe_plaintext probe sealed_probe) (omega arith);
        };
        k_hsm_wrap_blob = f.k_hsm_fits;
        totp_seed_wrap_blob = f.totp_seed_fits;
        rl_counter = omega arith;
        rl_last_failure = omega arith;
        last_password_change = f.changed;
        last_export_at = f.exported;
        sealed_index_nonce = f.index_nonce_fits;
        sealed_index_ct = record {
          size = omega (
            arith,
            laws.length-seal key n (2 ∷ []) (index_plaintext 2 bytes) ct inner,
            length-index_plaintext-lt bytes f.small,
          );
          bytes =
              laws.seal-IsBytes key n (2 ∷ []) (index_plaintext 2 bytes) ct inner
                (index_plaintext-IsBytes bytes f.empty);
        };
        count = omega arith;
        envelopes = tt;
      })

  -- What a created vault is.
  pub record IsCreated (kdf : KdfParams) (salt kb tb k : List ℕ) (v : Vault) : Type 0 where
    pub valid : IsVault v
    pub params : v.kdf_params ≡ kdf
    pub salted : v.salt ≡ salt
    pub key_blob : v.k_hsm_wrap_blob ≡ kb
    pub seed_blob : v.totp_seed_wrap_blob ≡ tb
    pub no_failures : v.rl_counter ≡ 0
    pub never : v.rl_last_failure ≡ pos 0
    pub probe : verify_probe v k ≡ ok tt
    pub opened : open_index post v k ≡ ok []

  pub create-IsCreated :
      (pn n : List ℕ) (kdf : KdfParams) (salt kb tb : List ℕ) (metadata : VaultMetadata)
      (k bytes : List ℕ) (v : Vault)
      → AreFit post pn n kdf salt kb tb metadata bytes
      → create post pn n kdf salt kb tb metadata k ≡ ok v
      → IsCreated kdf salt kb tb k v
  create-IsCreated pn n kdf salt kb tb metadata k bytes v f made =
      let (v₀, run, probe, opened) =
        create_opens laws post codec pn n kdf salt kb tb metadata k bytes
          (omega (arith, f.k_hsm_fits.size)) (omega (arith, f.totp_seed_fits.size))
          (record { serialized = f.serialized; size = omega (arith, f.small) }) in
      let same : v₀ ≡ v = ok-injective_vault (sym run ∙ made) in
      let fields = created_fields post pn n kdf salt kb tb metadata k v made in
      record {
        valid = create-IsVault pn n kdf salt kb tb metadata k bytes v f made;
        params = fields.0;
        salted = fields.1;
        key_blob = fields.2;
        seed_blob = fields.3;
        no_failures = fields.4;
        never = fields.5;
        probe = subst (λ z. verify_probe z k ≡ ok tt) same probe;
        opened = subst (λ z. open_index post z k ≡ ok []) same opened;
      }
