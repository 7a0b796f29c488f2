-- ===== src/Vault/Operations/Examples.antt =====
-- A vault that is created, given two entries and relieved of one (crates/passman-vault/src/vault.rs),
-- and the theorems at it.
mod Rebuilt
use passman.Prelude.{
  ℕ, ◌≡◌, ◌≢◌, ◌↔◌, refl, List, [], ◌∷◌, ◌++◌, map, Option, none, some, ok, err, arith, replicate,
  to_le, of_le, bytes_eq,
}
use passman.Prelude.Int.{pos}
use passman.Crypto.{aead_auth}
use passman.Crypto.Aead.{encrypt, decrypt}
use passman.Crypto.Derive.{hkdf_expand}
use passman.Crypto.Kdf
use passman.Crypto.Toy.{toy, toy-IsAead, toy_seal, toy_unseal, tag_of, sum}
use passman.Policy.Request.{default_policy}
use passman.Utf8.{is_utf8}
use passman.Vault.{Vault, crypto, index_mismatch, entry_not_found}
use passman.Vault.Keyed.{find, replace_or_push, retain_ne}
use passman.Vault.Index.{Index, get, upsert, remove, entry_info, index_info}
use passman.Vault.Sets.{
  envelope_id, check_index_envelope_sets, check_id_sets, sort_unstable, has_repeat, ids_eq, insert,
  id_leb,
}
use passman.Vault.Sets.Exact.{IsMatched}
use passman.Vault.Record.{
  EntryRecord, record_len, div_ceil, copy_into, write_u32_le, write_fields, encode_padded,
  read_u32_le, checked_add,
}
use passman.Vault.Record.Decode.{IsRecord}
use passman.Vault.Padding.{pad_index_plaintext, strip_index_padding}
use passman.Vault.Toy.{
  toy_postcard, toy_postcard-IsPostcard, to_stdvec_toy, from_bytes_toy, counted, row_bytes,
  push_row, is_default, all_none, part, read_rows,
}
use passman.Vault.Create.{create}
use passman.Vault.Sealing.{
  probe_plaintext, probe_associated_data, entry_associated_data, check_blob_len, into_fixed,
  auth_failure, seal_index, decrypt_index, open_index, encrypt_entry, decrypt_entry, verify_probe,
}
use passman.Vault.Sealing.Opens.{Serializes, verify_probe_iff}
use passman.Vault.Create.Fresh.{create_opens}
use passman.Vault.Operations.{reseal_index, add_or_update_entry, remove_entry}
use passman.Vault.Operations.Entries.{
  row, open_index_iff, add_or_update_entry_lem, remove_entry_lem,
}
use passman.Vault.Operations.Refinement.{
  Command, add, contents, specified_all, added, Run, stop, step, Run-specified,
}

abbrev key : List ℕ
key = replicate 32 1

abbrev other_key : List ℕ
other_key = replicate 32 9

abbrev probe_nonce : List ℕ
probe_nonce = replicate 24 2

abbrev index_nonce : List ℕ
index_nonce = replicate 24 3

abbrev salt : List ℕ
salt = replicate 32 4

abbrev opt : Option (List ℕ) → List ℕ
opt none = []
opt (some x) = x

-- What `create` makes of the inputs.
vault₀ : Vault
unfolding probe_associated_data Kdf.to_bytes to_le toy_seal tag_of sum
vault₀ = record {
  format_version = 2;
  kdf_algorithm_id = 0;
  kdf_params = Kdf.low;
  salt = salt;
  probe_nonce = probe_nonce;
  probe_ct =
      opt (toy_seal key probe_nonce (probe_associated_data 2 0 Kdf.low salt) probe_plaintext);
  k_hsm_wrap_blob = 1 ∷ [];
  totp_seed_wrap_blob = 2 ∷ [];
  rl_counter = 0;
  rl_last_failure = pos 0;
  metadata = record { last_password_change = pos 7; last_export_at = none };
  sealed_index_nonce = index_nonce;
  sealed_index_ct = opt (
      toy_seal (hkdf_expand key index_info) index_nonce (2 ∷ []) (1 ∷ 0 ∷ 0 ∷ 0 ∷ replicate 252 0));
  envelopes = [];
}

create-vault₀ :
    create toy_postcard probe_nonce index_nonce Kdf.low salt
      (1 ∷ [])
      (2 ∷ [])
      (record { last_password_change = pos 7; last_export_at = none })
      key
    ≡ ok vault₀
unfolding vault₀ create check_blob_len probe_associated_data Kdf.to_bytes to_le toy_seal tag_of sum
    encrypt into_fixed seal_index hkdf_expand to_stdvec_toy counted row_bytes pad_index_plaintext
    div_ceil copy_into write_u32_le
create-vault₀ = refl

open_index-vault₀ : open_index toy_postcard vault₀ key ≡ ok []
unfolding vault₀ open_index decrypt_index decrypt toy_unseal bytes_eq strip_index_padding
    checked_add read_u32_le of_le from_bytes_toy read_rows check_index_envelope_sets check_id_sets
    sort_unstable has_repeat ids_eq toy_seal tag_of sum hkdf_expand
open_index-vault₀ = refl

-- Another key is refused.
open_index-other_key : open_index toy_postcard vault₀ other_key ≡ err (crypto aead_auth)
unfolding vault₀ open_index decrypt_index decrypt toy_unseal bytes_eq toy_seal tag_of sum
    hkdf_expand auth_failure
open_index-other_key = refl

-- An envelope's bytes are bound to its id.
abbrev id₁ : List ℕ
id₁ = replicate 16 5

abbrev id₂ : List ℕ
id₂ = replicate 16 6

abbrev entry₁ : EntryRecord
entry₁ = record { username = 97 ∷ []; password = 98 ∷ []; url = []; notes = [] }

entry₁-IsRecord : IsRecord entry₁
unfolding is_utf8 record_len
entry₁-IsRecord = record { texts = (refl, (refl, (refl, (refl, tt)))); size = omega arith }

abbrev index₁ : Index
index₁ = row id₁ (120 ∷ []) default_policy ∷ []

abbrev empty_bytes : List ℕ
empty_bytes = 0 ∷ []

abbrev index₁_bytes : List ℕ
index₁_bytes = 1 ∷ 16 ∷ id₁ ++ (1 ∷ 120 ∷ [])

empty-Serializes : Serializes toy_postcard [] empty_bytes
unfolding to_stdvec_toy counted row_bytes
empty-Serializes = record { serialized = refl; size = omega arith }

index₁-Serializes :
    Serializes toy_postcard (upsert [] (row id₁ (120 ∷ []) default_policy)) index₁_bytes
unfolding to_stdvec_toy counted row_bytes push_row is_default all_none upsert replace_or_push
index₁-Serializes = record { serialized = refl; size = omega arith }

create_opens_example :
    (v : Vault) × (create toy_postcard probe_nonce index_nonce Kdf.low salt
        (1 ∷ [])
        (2 ∷ [])
        (record { last_password_change = pos 7; last_export_at = none })
        key
      ≡ ok v)
    × (verify_probe v key ≡ ok tt)
    × (open_index toy_postcard v key ≡ ok [])
create_opens_example =
    create_opens toy-IsAead toy_postcard toy_postcard-IsPostcard probe_nonce index_nonce Kdf.low
      salt (1 ∷ []) (2 ∷ []) (record { last_password_change = pos 7; last_export_at = none }) key
      empty_bytes (omega arith) (omega arith) empty-Serializes

verify_probe_iff_example : (verify_probe vault₀ key ≡ ok tt) ↔ (
    encrypt key vault₀.probe_nonce
      (probe_associated_data vault₀.format_version vault₀.kdf_algorithm_id vault₀.kdf_params
        vault₀.salt)
      probe_plaintext
    ≡ ok vault₀.probe_ct)
verify_probe_iff_example = verify_probe_iff toy-IsAead vault₀ key

open_index_iff_example : (open_index toy_postcard vault₀ key ≡ ok []) ↔ (
    (decrypt_index toy_postcard vault₀ key ≡ ok [])
    × IsMatched [] (map envelope_id vault₀.envelopes))
open_index_iff_example = open_index_iff toy_postcard vault₀ key []

add_or_update_entry_lem_example :
    (v' : Vault) × (add_or_update_entry toy_postcard
        (replicate 24 7)
        (replicate 24 8)
        key
        id₁
        (120 ∷ [])
        default_policy
        entry₁
        vault₀
      ≡ (ok tt, v'))
    × (open_index toy_postcard v' key ≡ ok (upsert [] (row id₁ (120 ∷ []) default_policy)))
    × (decrypt_entry v' key id₁ ≡ ok entry₁)
    × ((other : List ℕ) → id₁ ≢ other → decrypt_entry v' key other ≡ decrypt_entry vault₀ key other)
add_or_update_entry_lem_example =
    add_or_update_entry_lem toy_postcard toy-IsAead toy_postcard-IsPostcard vault₀ (replicate 24 7)
      (replicate 24 8) key id₁ (120 ∷ []) index₁_bytes default_policy entry₁ [] entry₁-IsRecord
      open_index-vault₀ index₁-Serializes

-- The vault with one entry.
vault₁ : Vault
unfolding vault₀
vault₁ = record vault₀ {
  sealed_index_nonce = replicate 24 8;
  sealed_index_ct = opt (
      toy_seal (hkdf_expand key index_info) (replicate 24 8) (2 ∷ [])
        (opt (pad_index_plaintext index₁_bytes)));
  envelopes =
      replace_or_push envelope_id
        (record {
          id = id₁;
          nonce = replicate 24 7;
          ct_len = 272;
          ciphertext_and_tag = opt (
              toy_seal (hkdf_expand key (entry_info id₁)) (replicate 24 7)
                (entry_associated_data 2 id₁) (opt (encode_padded entry₁)));
        })
        [];
}

add-vault₁ :
    add_or_update_entry toy_postcard
      (replicate 24 7)
      (replicate 24 8)
      key
      id₁
      (120 ∷ [])
      default_policy
      entry₁
      vault₀
    ≡ (ok tt, vault₁)
unfolding vault₁ vault₀ add_or_update_entry reseal_index upsert replace_or_push seal_index
    encrypt_entry encrypt decrypt hkdf_expand decrypt_index to_stdvec_toy counted row_bytes push_row
    is_default all_none pad_index_plaintext copy_into write_u32_le div_ceil to_le toy_seal
    toy_unseal tag_of sum bytes_eq strip_index_padding checked_add read_u32_le of_le from_bytes_toy
    read_rows entry_info entry_associated_data encode_padded write_fields record_len
add-vault₁ = refl

open_index-vault₁ : open_index toy_postcard vault₁ key ≡ ok index₁
unfolding vault₁ vault₀ open_index decrypt_index decrypt toy_unseal bytes_eq strip_index_padding
    checked_add read_u32_le of_le from_bytes_toy read_rows part check_index_envelope_sets
    check_id_sets sort_unstable has_repeat ids_eq insert id_leb toy_seal tag_of sum hkdf_expand
    pad_index_plaintext copy_into write_u32_le div_ceil to_le replace_or_push
open_index-vault₁ = refl

removed-Serializes : Serializes toy_postcard (remove index₁ id₁).0 empty_bytes
unfolding to_stdvec_toy counted row_bytes remove retain_ne bytes_eq
removed-Serializes = record { serialized = refl; size = omega arith }

get-id₁ : get index₁ id₁ ≡ some (row id₁ (120 ∷ []) default_policy)
unfolding get find bytes_eq
get-id₁ = refl

get-id₂ : get index₁ id₂ ≡ none
unfolding get find bytes_eq
get-id₂ = refl

remove_entry_lem_example :
    (v' : Vault) × (remove_entry toy_postcard (replicate 24 9) key id₁ vault₁ ≡ (ok tt, v'))
    × (open_index toy_postcard v' key ≡ ok (remove index₁ id₁).0)
    × (decrypt_entry v' key id₁ ≡ err entry_not_found)
    × ((other : List ℕ) → id₁ ≢ other → decrypt_entry v' key other ≡ decrypt_entry vault₁ key other)
remove_entry_lem_example =
    remove_entry_lem toy_postcard toy-IsAead toy_postcard-IsPostcard vault₁ (replicate 24 9) key id₁
      empty_bytes index₁ (row id₁ (120 ∷ []) default_policy) open_index-vault₁ get-id₁
      removed-Serializes

abbrev command₁ : Command
command₁ = add id₁ (120 ∷ []) default_policy entry₁

run₁ : Run toy_postcard key vault₀ (command₁ ∷ []) vault₁
run₁ =
    step vault₀ command₁ vault₁ [] vault₁
      (added (replicate 24 7) (replicate 24 8) id₁ (120 ∷ []) index₁_bytes default_policy entry₁ []
        vault₁ entry₁-IsRecord open_index-vault₀ index₁-Serializes add-vault₁)
      (stop vault₁)

Run-specified_example :
    ((index' : Index) × (open_index toy_postcard vault₁ key ≡ ok index'))
    × ((id : List ℕ)
        → contents toy_postcard key vault₁ id
          ≡ specified_all (command₁ ∷ []) (contents toy_postcard key vault₀) id)
Run-specified_example =
    Run-specified toy-IsAead toy_postcard toy_postcard-IsPostcard key vault₀ (command₁ ∷ []) vault₁
      [] open_index-vault₀ run₁

-- Adding under another key fails once the envelope is stored, and the vault in memory is left with
-- an envelope that the index does not have.
add_other_key :
    open_index toy_postcard
      (add_or_update_entry toy_postcard
        (replicate 24 7)
        (replicate 24 8)
        other_key
        id₁
        (120 ∷ [])
        default_policy
        entry₁
        vault₀).1
      key
    ≡ err index_mismatch
unfolding vault₀ add_or_update_entry replace_or_push encrypt_entry encrypt decrypt hkdf_expand
    decrypt_index auth_failure toy_seal toy_unseal tag_of sum bytes_eq strip_index_padding
    checked_add read_u32_le of_le from_bytes_toy read_rows entry_info entry_associated_data
    encode_padded write_fields record_len copy_into write_u32_le div_ceil to_le open_index
    check_index_envelope_sets check_id_sets
add_other_key = refl
