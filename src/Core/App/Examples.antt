-- ===== src/Core/App/Examples.antt =====
-- A vault that the application creates at the mock key store and unlocks (crates/passman-core/src/app.rs),
-- and the theorems at it.
mod Again
use passman.Prelude.{
  ℕ, ◌^◌, IsBlob, subst, ap, ◌≡◌, ◌≤◌, ◌↔◌, refl, List, [], ◌∷◌, ◌++◌, Option, none, some, true,
  false, Result, ok, arith, length, replicate, to_le, of_le, bytes_eq,
}
use passman.Prelude.Int.{i64_bits}
use passman.Crypto.Kdf
use passman.Crypto.Toy.{toy, toy-IsAead}
use passman.Hsm.{vault_key, totp_seed}
use passman.Hsm.{HsmError, WrappedBlob, software_mock, to_byte, tag, from_byte, into_mock}
use passman.Hsm.Blob.{from_parts}
use passman.Hsm.Blob
use passman.Hsm.Mock.{
  key_store, enroll, check_forced, check_prompt, aad, begin_unwrap, complete_unwrap, lockout_status,
}
use passman.Crypto.Aead.{encrypt, decrypt}
use passman.Crypto.Derive.{hkdf_expand, hkdf_master}
use passman.Crypto.Toy.{toy_seal, toy_unseal, tag_of, sum}
use passman.Vault.Create.{create}
use passman.Vault.Sets.{check_index_envelope_sets, check_id_sets, sort_unstable, has_repeat, ids_eq}
use passman.Vault.Record.{div_ceil, copy_into, write_u32_le, read_u32_le, checked_add}
use passman.Vault.Padding.{pad_index_plaintext, strip_index_padding}
use passman.Vault.Toy.{to_stdvec_toy, from_bytes_toy, counted, row_bytes, read_rows}
use passman.Vault.Sealing.{
  probe_associated_data, check_blob_len, into_fixed, seal_index, decrypt_index, open_index,
}
use passman.Core.Storage.{atomic_write, write_temp, finish, rename_over}
use passman.Core.App.{backend_allowed, is_software, save, set_totp_config}
use passman.Core.App.Keys.{unwrap_blob, enroll_slot, derive_master}
use passman.Totp.{default_config}
use passman.Totp.Hotp.{Hmac}
use passman.Vault.Toy.{toy_postcard, toy_postcard-IsPostcard}
use passman.Core.App.{App, build_unlocked}
use passman.Core.App.Create.Surroundings.{AreDraws, Suits}
use passman.Core.App.Create.Unlocks.{create_vault-unlock}
use passman.Crypto.Aead.{ct_eq}
use passman.Totp.Hotp.{is_ascii_digit, hotp_value, truncate, to_be, format_padded, fill}
use passman.Totp.Hotp
use passman.Totp.Verifier.{TotpVerifier}
use passman.Totp.Verifier
use passman.Core.Toy.{small, agrees, env₀, app₀, draws₀, password, code, key₀, session₀, prov₀}
use passman.Core.App.Create.{create_vault}
use passman.Core.App.Unlock.{unlock}
use passman.Core.App.Unlock.Verdict.{IsUnlocked, unlock_iff}
use passman.Core.Storage.{File, max_vault_bytes}
use passman.Vault.Format

pub app₁ : App
unfolding create_vault
app₁ = (create_vault toy_postcard env₀ draws₀ password Kdf.low default_config app₀).1

created :
    create_vault toy_postcard env₀ draws₀ password Kdf.low default_config app₀
    ≡ (ok (session₀, prov₀), app₁)
unfolding app₁ backend_allowed is_software key_store enroll_slot enroll check_forced check_prompt
    encrypt toy_seal tag_of sum from_parts derive_master Kdf.argon2id_within_memory
    Kdf.within_limits Kdf.check_memory create check_blob_len Blob.to_bytes to_byte to_le seal_index
    hkdf_master hkdf_expand to_stdvec_toy counted row_bytes pad_index_plaintext div_ceil copy_into
    write_u32_le probe_associated_data Kdf.to_bytes into_fixed save atomic_write write_temp finish
    rename_over set_totp_config open_index decrypt_index decrypt toy_unseal bytes_eq
    strip_index_padding checked_add read_u32_le of_le from_bytes_toy read_rows
    check_index_envelope_sets check_id_sets sort_unstable has_repeat ids_eq build_unlocked aad tag
created = refl

abbrev held : Option File → File
held none = record { bytes = []; synced = false }
held (some file) = file

file₁ : File
unfolding app₁
file₁ = held app₁.disk.target

length-file₁ : length file₁.bytes ≡ 594
unfolding file₁ app₁ backend_allowed is_software key_store enroll_slot enroll check_forced
    check_prompt encrypt toy_seal tag_of sum from_parts derive_master Kdf.argon2id_within_memory
    Kdf.within_limits Kdf.check_memory create check_blob_len Blob.to_bytes to_byte to_le seal_index
    hkdf_master hkdf_expand to_stdvec_toy counted row_bytes pad_index_plaintext div_ceil copy_into
    write_u32_le probe_associated_data Kdf.to_bytes into_fixed save atomic_write write_temp finish
    rename_over set_totp_config open_index decrypt_index decrypt toy_unseal bytes_eq
    strip_index_padding checked_add read_u32_le of_le from_bytes_toy read_rows
    check_index_envelope_sets check_id_sets sort_unstable has_repeat ids_eq build_unlocked aad tag
    Format.to_bytes Format.u16_prefixed Format.u32_prefixed Format.export_bytes
    Format.envelopes_bytes i64_bits
length-file₁ = refl

abbrev pub token : List ℕ
token = replicate 16 17

abbrev accepted_verifier : TotpVerifier
accepted_verifier = record { config = default_config; last_accepted_step = some 2 }

accepted :
    Verifier.verify (Verifier.new default_config) draws₀.seed code 90 ≡ (ok tt, accepted_verifier)
unfolding Verifier.new Verifier.verify Verifier.verify_parsed Verifier.parse_code
    Verifier.all_digits is_ascii_digit Verifier.first_step Verifier.last_step Verifier.current_step
    Verifier.expected Verifier.scan Verifier.is_replay Verifier.accept ct_eq bytes_eq hotp_value
    Hotp.tag_of truncate to_be format_padded fill
accepted = refl

draws₀-AreDraws : AreDraws toy_postcard env₀ draws₀ Kdf.low (0 ∷ [])
unfolding to_stdvec_toy counted row_bytes
draws₀-AreDraws = record {
  key_size = refl;
  salt_size = record { size = refl; bytes = omega arith };
  probe_size = record { size = refl; bytes = omega arith };
  index_size = record { size = refl; bytes = omega arith };
  params = record { m_kib_fits = omega arith; t_fits = omega arith; p_fits = omega arith };
  serialized = refl;
  short = omega arith;
  empty = omega arith;
}

-- The blobs of both slots: tag, nonce, ciphertext and its tag.
abbrev key_blob : WrappedBlob
key_blob = record {
  kind = software_mock;
  payload = 0 ∷ replicate 24 2 ++ (replicate 32 11 ++ replicate 16 10);
}

abbrev seed_blob : WrappedBlob
seed_blob = record {
  kind = software_mock;
  payload = 1 ∷ replicate 24 2 ++ (replicate 32 12 ++ replicate 16 15);
}

key_enrolled : env₀.store.enroll vault_key draws₀.k_hsm agrees ≡ ok key_blob
unfolding key_store enroll check_forced check_prompt encrypt toy_seal tag_of sum from_parts aad tag
key_enrolled = refl

seed_enrolled : env₀.store.enroll totp_seed draws₀.seed agrees ≡ ok seed_blob
unfolding key_store enroll check_forced check_prompt encrypt toy_seal tag_of sum from_parts aad tag
seed_enrolled = refl

key_unwrapped : unwrap_blob env₀ vault_key (Blob.to_bytes key_blob) ≡ ok draws₀.k_hsm
unfolding unwrap_blob Blob.from_bytes Blob.to_bytes to_byte from_byte to_le of_le key_store
    begin_unwrap complete_unwrap check_forced check_prompt into_mock decrypt toy_unseal bytes_eq
    tag_of sum aad tag
key_unwrapped = refl

seed_unwrapped : unwrap_blob env₀ totp_seed (Blob.to_bytes seed_blob) ≡ ok draws₀.seed
unfolding unwrap_blob Blob.from_bytes Blob.to_bytes to_byte from_byte to_le of_le key_store
    begin_unwrap complete_unwrap check_forced check_prompt into_mock decrypt toy_unseal bytes_eq
    tag_of sum aad tag
seed_unwrapped = refl

key_blob-IsBlob : IsBlob (2 ^ 16) (Blob.to_bytes key_blob)
unfolding Blob.to_bytes to_byte to_le
key_blob-IsBlob = record { size = omega arith; bytes = omega arith }

seed_blob-IsBlob : IsBlob (2 ^ 16) (Blob.to_bytes seed_blob)
unfolding Blob.to_bytes to_byte to_le
seed_blob-IsBlob = record { size = omega arith; bytes = omega arith }

blob_eq : {r : Result HsmError WrappedBlob} {a b : WrappedBlob} → r ≡ ok a → r ≡ ok b → a ≡ b
blob_eq p q = cc

held_app₁ : (file : File) → app₁.disk.target ≡ some file → file₁ ≡ file
unfolding file₁
held_app₁ file e = ap held e

app₁-allows : app₁.allow_software_hsm ≡ true
unfolding app₁ backend_allowed is_software key_store enroll_slot enroll check_forced check_prompt
    encrypt toy_seal tag_of sum from_parts derive_master Kdf.argon2id_within_memory
    Kdf.within_limits Kdf.check_memory create check_blob_len Blob.to_bytes to_byte to_le seal_index
    hkdf_master hkdf_expand to_stdvec_toy counted row_bytes pad_index_plaintext div_ceil copy_into
    write_u32_le probe_associated_data Kdf.to_bytes into_fixed save atomic_write write_temp finish
    rename_over set_totp_config open_index decrypt_index decrypt toy_unseal bytes_eq
    strip_index_padding checked_add read_u32_le of_le from_bytes_toy read_rows
    check_index_envelope_sets check_id_sets sort_unstable has_repeat ids_eq build_unlocked aad tag
app₁-allows = refl

app₁-allowed : backend_allowed env₀.store app₁ ≡ true
unfolding backend_allowed is_software key_store
app₁-allowed = rw app₁-allows refl

env₀-Suits : Suits env₀ env₀ draws₀ Kdf.low app₁
env₀-Suits = record {
  allowed = app₁-allowed;
  keeps_key = λ blob e.
      subst
        (λ b.
          IsBlob (2 ^ 16) (Blob.to_bytes b)
          × (unwrap_blob env₀ vault_key (Blob.to_bytes b) ≡ ok draws₀.k_hsm))
        (blob_eq key_enrolled e) (key_blob-IsBlob, key_unwrapped);
  keeps_seed = λ blob e.
      subst
        (λ b.
          IsBlob (2 ^ 16) (Blob.to_bytes b)
          × (unwrap_blob env₀ totp_seed (Blob.to_bytes b) ≡ ok draws₀.seed))
        (blob_eq seed_enrolled e) (seed_blob-IsBlob, seed_unwrapped);
  unlocked = unfold key_store lockout_status in refl;
  fine = refl;
  small = λ file e.
      subst (λ f. length f.bytes ≤ max_vault_bytes) (held_app₁ file e)
        (omega (arith, length-file₁));
  memory = unfold Kdf.check_memory in refl;
}

create_vault-unlock_example :
    (app₂ : App) × (unlock toy_postcard env₀ token password code app₁
      ≡ (ok (build_unlocked env₀ token session₀.k_master draws₀.seed []), app₂))
    × (app₂.disk ≡ app₁.disk)
create_vault-unlock_example =
    create_vault-unlock toy_postcard toy-IsAead toy_postcard-IsPostcard env₀ env₀ draws₀ password
      token code (0 ∷ []) Kdf.low default_config app₀ app₁ session₀ prov₀ accepted_verifier created
      draws₀-AreDraws refl env₀-Suits accepted

abbrev pub app₂ : App
app₂ = (unlock toy_postcard env₀ token password code app₁).1

unlock_iff_example :
    (unlock toy_postcard env₀ token password code app₁
      ≡ (ok (build_unlocked env₀ token key₀ draws₀.seed []), app₂))
    ↔ IsUnlocked toy_postcard env₀ token password code app₁
        (build_unlocked env₀ token key₀ draws₀.seed [])
        app₂
unlock_iff_example =
    unlock_iff toy_postcard env₀ token password code app₁
      (build_unlocked env₀ token key₀ draws₀.seed []) app₂
