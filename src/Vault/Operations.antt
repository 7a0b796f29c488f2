-- ===== src/Vault/Operations.antt =====
-- The operations of `Vault` in crates/passman-vault/src/vault.rs that create and change it.
pub mod Entries
pub mod Refinement
mod Examples
use passman.Prelude.{
  ℕ, String, List, [], ◌==◌, length, Option, Result, ok, err, guard, ok_or, map_err, not,
}
use passman.Prelude
use passman.Prelude.Int.{ℤ, pos}
use passman.Crypto.{Primitives}
use passman.Crypto.Aead.{encrypt}
use passman.Crypto.Kdf.{KdfParams}
use passman.Policy.Request.{EntryPolicy}
use passman.Vault.{
  VaultError, crypto, malformed_record, entry_not_found, VaultMetadata, EntryEnvelope, Vault,
  format_version_current, kdf_algorithm_argon2id, probe_ct_len,
}
use passman.Vault.Index.{Index, upsert, remove}
use passman.Vault.Keyed.{replace_or_push, retain_ne}
use passman.Vault.Sets.{envelope_id}
use passman.Vault.Record.{EntryRecord}
use passman.Vault.Postcard.{Postcard}
use passman.Vault.Sealing.{
  probe_plaintext, probe_associated_data, check_blob_len, into_fixed, seal_index, decrypt_index,
  encrypt_entry,
}

-- A method on `&mut self`: the vault after it stands beside the result, also beside an error.
abbrev pub Act : Type 0 → Type 0
Act A = Vault → Result VaultError A × Vault

abbrev pub bind :
    {A B : Type 0} → Result VaultError A × Vault → (A → Act B) → Result VaultError B × Vault
bind (ok a, v) f = f a v
bind (err e, v) f = (err e, v)

infixl 5 ◌>>=◌ ◌>>◌
abbrev pub ◌>>=◌ : {A B : Type 0} → Act A → (A → Act B) → Act B
◌>>=◌ m f v = bind (m v) f

abbrev pub ◌>>◌ : {B : Type 0} → Act (Unit {0}) → Act B → Act B
m >> k = m >>= λ _. k

abbrev pub lift : {A : Type 0} → Result VaultError A → Act A
lift r v = (r, v)

-- A computation that only reads the vault.
abbrev pub reading : {A : Type 0} → (Vault → Result VaultError A) → Act A
reading f v = (f v, v)

abbrev pub modify : (Vault → Vault) → Act (Unit {0})
modify f v = (ok tt, f v)

abbrev pub put_envelopes : List EntryEnvelope → Vault → Vault
put_envelopes es v = record v { envelopes = es }

abbrev pub put_index : List ℕ × List ℕ → Vault → Vault
put_index (nonce, ct) v = record v { sealed_index_nonce = nonce; sealed_index_ct = ct }

abbrev pub put_hsm_blobs : List ℕ → List ℕ → Vault → Vault
put_hsm_blobs k_hsm totp_seed v = record v {
  k_hsm_wrap_blob = k_hsm;
  totp_seed_wrap_blob = totp_seed;
}

unfoldable pub set_metadata : VaultMetadata → Vault → Vault
set_metadata metadata v = record v { metadata = metadata }

unfoldable pub set_rate_limit : ℕ → ℤ → Vault → Vault
set_rate_limit counter last_failure v = record v {
  rl_counter = counter;
  rl_last_failure = last_failure;
}

unfoldable pub set_hsm_blobs : List ℕ → List ℕ → Act (Unit {0})
set_hsm_blobs k_hsm_wrap_blob totp_seed_wrap_blob = do
  lift (check_blob_len k_hsm_wrap_blob "k_hsm_wrap_blob")
  lift (check_blob_len totp_seed_wrap_blob "totp_seed_wrap_blob")
  modify (put_hsm_blobs k_hsm_wrap_blob totp_seed_wrap_blob)

module _ ⦃p : Primitives⦄ (post : Postcard) where
  unfoldable pub reseal_index : List ℕ → Index → List ℕ → Act (Unit {0})
  reseal_index nonce index k_master = do
    sealed ← reading λ v. seal_index post nonce index v.format_version k_master
    modify (put_index sealed)

  unfoldable pub add_or_update_entry :
      List ℕ → List ℕ → List ℕ → List ℕ → List ℕ → EntryPolicy → EntryRecord → Act (Unit {0})
  add_or_update_entry nonce index_nonce k_master id label policy entry = do
    envelope ← reading λ v. encrypt_entry nonce k_master v.format_version id entry
    modify λ v. put_envelopes (replace_or_push envelope_id envelope v.envelopes) v
    index ← reading λ v. decrypt_index post v k_master
    reseal_index index_nonce (upsert index (record { id = id; label = label; policy = policy }))
        k_master

  unfoldable pub remove_entry : List ℕ → List ℕ → List ℕ → Act (Unit {0})
  remove_entry index_nonce k_master id = do
    before ← reading λ v. ok (length v.envelopes)
    modify λ v. put_envelopes (retain_ne envelope_id id v.envelopes) v
    reading λ v. guard (not (length v.envelopes == before)) entry_not_found
    index ← reading λ v. decrypt_index post v k_master
    reseal_index index_nonce (remove index id).0 k_master
