-- ===== src/Vault/Create/Fresh.antt =====
-- A created vault can be opened (crates/passman-vault/src/vault.rs).
use passman.Prelude.{ℕ, ◌≤◌, ◌≡◌, refl, List, [], ok, arith, length, eq→==, some}
use passman.Prelude.{String}
use passman.Prelude.Int.{pos}
use passman.Crypto.{Primitives, IsAead}
use passman.Crypto.Aead.{encrypt_some}
use passman.Crypto.Kdf.{KdfParams}
use passman.Vault.{VaultMetadata, Vault}
use passman.Vault.Sets.{check_id_sets, check_index_envelope_sets, sort_unstable, has_repeat, ids_eq}
use passman.Vault.Postcard.{Postcard, IsPostcard}
use passman.Vault.Create.{create}
use passman.Vault.Sealing.{
  probe_plaintext, probe_associated_data, check_blob_len, into_fixed, open_index, verify_probe,
  max_hsm_blob_len,
}
use passman.Vault.Sealing.Opens.{
  Serializes, seal_index_some, decrypt_index-seal_index, verify_probe_iff,
}

pub check_blob_len-ok :
    (blob : List ℕ) (which : String)
    → length blob ≤ max_hsm_blob_len
    → check_blob_len blob which ≡ ok tt
unfolding check_blob_len
check_blob_len-ok blob which h = ground arith

pub into_fixed-some : (n : ℕ) (slice : List ℕ) → length slice ≡ n → into_fixed n slice ≡ some slice
unfolding into_fixed
into_fixed-some n slice h = rw (eq→== (length slice) n h) refl

module _ ⦃p : Primitives⦄ (laws : IsAead p) (post : Postcard) (codec : IsPostcard post) where
  -- With blobs that fit their length prefixes, a vault is created, and under the key of its creation
  -- its probe is accepted and its index opens as empty.
  pub create_opens :
      (probe_nonce index_nonce : List ℕ) (kdf_params : KdfParams)
      (vault_salt k_hsm_wrap_blob totp_seed_wrap_blob : List ℕ) (metadata : VaultMetadata)
      (k_master bytes : List ℕ)
      → length k_hsm_wrap_blob ≤ max_hsm_blob_len
      → length totp_seed_wrap_blob ≤ max_hsm_blob_len
      → Serializes post [] bytes
      → (v : Vault) × (create post probe_nonce index_nonce kdf_params vault_salt k_hsm_wrap_blob
            totp_seed_wrap_blob metadata k_master
          ≡ ok v)
        × (verify_probe v k_master ≡ ok tt)
        × (open_index post v k_master ≡ ok [])
  unfolding create
  create_opens pn n kdf salt kb tb metadata k bytes hk ht h =
      let ad = probe_associated_data 2 0 kdf salt in
      let (probe, sealed_probe, len) = encrypt_some laws k pn ad probe_plaintext (omega arith) in
      let (ct, sealed) = seal_index_some laws post codec n k bytes [] 2 h in
      let v : Vault = record {
        format_version = 2;
        kdf_algorithm_id = 0;
        kdf_params = kdf;
        salt = salt;
        probe_nonce = pn;
        probe_ct = probe;
        k_hsm_wrap_blob = kb;
        totp_seed_wrap_blob = tb;
        rl_counter = 0;
        rl_last_failure = pos 0;
        metadata = metadata;
        sealed_index_nonce = n;
        sealed_index_ct = ct;
        envelopes = [];
      } in
      (
        v,
        rw (check_blob_len-ok kb "k_hsm_wrap_blob" hk) (
            rw (check_blob_len-ok tb "totp_seed_wrap_blob" ht) (
              rw sealed_probe
                (rw (into_fixed-some 32 probe (omega (arith, len))) (rw sealed refl)))),
        (verify_probe_iff laws v k).1 sealed_probe,
        (unfold open_index check_index_envelope_sets check_id_sets sort_unstable has_repeat
              ids_eq in
            rw (decrypt_index-seal_index laws post codec v k bytes [] h sealed) refl),
      )
