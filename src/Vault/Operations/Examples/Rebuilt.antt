-- ===== src/Vault/Operations/Examples/Rebuilt.antt =====
-- The change of the master password of the vault with one entry, and the import of its export
-- (crates/passman-core/src/unlocked.rs and app.rs).
use passman.Prelude.{
  ℕ, IsArray, IsBlob, subst, ap, sym, ◌∙◌, ◌≡◌, ◌^◌, refl, List, [], ◌∷◌, Option, none, some, ok,
  inl, inr, Bool-cases, if◌then◌else◌, arith, replicate, to_le,
}
use passman.Crypto.Kdf
use passman.Crypto.Toy.{toy, toy-IsAead, toy_seal, tag_of, sum}
use passman.Crypto.Derive.{hkdf_expand}
use passman.Vault.{Vault, IsVault, EntryEnvelope, IsEnvelope}
use passman.Vault.Index.{entry_info, Index}
use passman.Vault.Keyed.{replace_or_push}
use passman.Vault.Operations.Examples.{
  key, other_key, id₁, index₁, entry₁, vault₀, vault₁, index₁_bytes, empty_bytes, empty-Serializes,
  index₁-Serializes, open_index-vault₁, open_index-vault₀, entry₁-IsRecord, add-vault₁, opt,
}
use passman.Vault.Operations.Entries.{add_or_update_entry_lem}
use passman.Policy.Request.{default_policy}
use passman.Vault.Operations.Refinement.{contents}
use passman.Vault.Record.{
  encode_padded, write_fields, record_len, copy_into, write_u32_le, div_ceil,
}
use passman.Vault.Padding.{pad_index_plaintext}
use passman.Vault.Sealing.{decrypt_entry, open_index, probe_associated_data, entry_associated_data}
use passman.Core.Unlocked.Export.{PolicyCodec, export_entries, import_entries, recovery_entry_from}
use passman.Core.Unlocked.Export.Imports.{IsPolicyCodec, import_entries-export_entries}
use passman.Recovery.{RecoveryEntry}
use passman.Vault.Toy.{is_default, all_none, all_none-eq, toy_postcard, toy_postcard-IsPostcard}
use passman.Core.Toy.{env₀}
use passman.Core.Unlocked.Master.{Draws, reencrypt_vault}
use passman.Core.Unlocked.Master.Rows.{Fits, reencrypt_vault-contents}

abbrev draws₀ : Draws
draws₀ = record {
  new_salt = replicate 32 21;
  probe_nonce = replicate 24 22;
  index_nonce = replicate 24 23;
  nonces = λ i. record { entry = replicate 24 24; index = replicate 24 25 };
}

probe_ct-IsArray : IsArray 32 vault₁.probe_ct
unfolding vault₁ vault₀ probe_associated_data Kdf.to_bytes to_le toy_seal tag_of sum
probe_ct-IsArray = record { size = refl; bytes = omega arith }

index_ct-IsBlob : IsBlob (2 ^ 32) vault₁.sealed_index_ct
unfolding vault₁ vault₀ toy_seal tag_of sum hkdf_expand pad_index_plaintext copy_into write_u32_le
    div_ceil to_le
index_ct-IsBlob = record { size = omega arith; bytes = omega arith }

abbrev envelope₁ : EntryEnvelope
envelope₁ = record {
  id = id₁;
  nonce = replicate 24 7;
  ct_len = 272;
  ciphertext_and_tag = opt (
      toy_seal (hkdf_expand key (entry_info id₁)) (replicate 24 7) (entry_associated_data 2 id₁)
        (opt (encode_padded entry₁)));
}

envelope₁-IsEnvelope : IsEnvelope envelope₁
unfolding toy_seal tag_of sum hkdf_expand entry_info entry_associated_data encode_padded
    write_fields record_len copy_into write_u32_le div_ceil to_le
envelope₁-IsEnvelope = record {
  id = record { size = refl; bytes = omega arith };
  nonce = record { size = refl; bytes = omega arith };
  body = record { size = omega arith; bytes = omega arith };
  ct_len = refl;
}

vault₁-IsVault : IsVault vault₁
unfolding vault₁ vault₀ replace_or_push
vault₁-IsVault = record {
  version = inl refl;
  algorithm = refl;
  kdf_params = record { m_kib_fits = omega arith; t_fits = omega arith; p_fits = omega arith };
  salt = record { size = refl; bytes = omega arith };
  probe_nonce = record { size = refl; bytes = omega arith };
  probe_ct = probe_ct-IsArray;
  k_hsm_wrap_blob = record { size = omega arith; bytes = omega arith };
  totp_seed_wrap_blob = record { size = omega arith; bytes = omega arith };
  rl_counter = omega arith;
  rl_last_failure = omega arith;
  last_password_change = omega arith;
  last_export_at = tt;
  sealed_index_nonce = record { size = refl; bytes = omega arith };
  sealed_index_ct = index_ct-IsBlob;
  count = omega arith;
  envelopes = (envelope₁-IsEnvelope, tt);
}

decrypted : decrypt_entry vault₁ key id₁ ≡ ok entry₁
decrypted =
    let (v, ran, opened, this, others) =
      add_or_update_entry_lem toy_postcard toy-IsAead toy_postcard-IsPostcard vault₀
        (replicate 24 7) (replicate 24 8) key id₁ (120 ∷ []) index₁_bytes default_policy entry₁ []
        entry₁-IsRecord open_index-vault₀ index₁-Serializes in
    subst (λ z. decrypt_entry z key id₁ ≡ ok entry₁) (ap (λ z. z.1) (sym ran ∙ add-vault₁)) this

index₁-Fits : Fits toy_postcard [] index₁
unfolding Fits
index₁-Fits = ((index₁_bytes, index₁-Serializes), tt)

reencrypt_vault-contents_example :
    (v : Vault) × (reencrypt_vault toy_postcard env₀ draws₀ vault₁ Kdf.low key other_key index₁
      ≡ ok v)
    × ((index' : Index) × (open_index toy_postcard v other_key ≡ ok index'))
    × ((id : List ℕ) → contents toy_postcard other_key v id ≡ contents toy_postcard key vault₁ id)
reencrypt_vault-contents_example =
    reencrypt_vault-contents toy-IsAead toy_postcard toy_postcard-IsPostcard env₀ draws₀ vault₁
      Kdf.low key other_key empty_bytes index₁ vault₁-IsVault open_index-vault₁
      ((entry₁, decrypted), tt) empty-Serializes index₁-Fits

-- Default policies are no bytes.
abbrev codec : PolicyCodec
codec = record {
  to_allocvec = λ policy. if is_default policy then some [] else none;
  of_bytes = λ bytes. some default_policy;
}

codec-IsPolicyCodec : IsPolicyCodec codec
codec-IsPolicyCodec = record {
  of_bytes-to_allocvec = λ policy bytes h. elim (Bool-cases (is_default policy)) [
    | inl d ↦ ap some (
        sym (
          unfold is_default in
          all_none-eq policy.length policy.charset_override policy.required_classes_override
            policy.user_note d))
    | inr d ↦ absurd (none≢some (rw d at h))
  ];
}
  where
    none≢some : {x : List ℕ} → Path (Option (List ℕ)) none (some x) → ⊥
    none≢some p = cc

abbrev exported₁ : RecoveryEntry
exported₁ = record {
  id = id₁;
  label = 120 ∷ [];
  username = entry₁.username;
  password = entry₁.password;
  url = entry₁.url;
  notes = entry₁.notes;
  policy = [];
}

export-vault₁ : export_entries codec vault₁ key index₁ ≡ ok (exported₁ ∷ [])
unfolding export_entries recovery_entry_from is_default all_none
export-vault₁ = rw decrypted refl

import_entries-export_entries_example :
    (v : Vault) × (import_entries toy_postcard codec key draws₀.nonces 0 (exported₁ ∷ []) vault₀
      ≡ ok v)
    × ((index' : Index) × (open_index toy_postcard v key ≡ ok index'))
    × ((id : List ℕ) → contents toy_postcard key v id ≡ contents toy_postcard key vault₁ id)
import_entries-export_entries_example =
    import_entries-export_entries toy-IsAead toy_postcard toy_postcard-IsPostcard codec
      codec-IsPolicyCodec vault₁ vault₀ key key draws₀.nonces index₁ (exported₁ ∷ []) vault₁-IsVault
      open_index-vault₁ ((entry₁, decrypted), tt) index₁-Fits export-vault₁ open_index-vault₀
