-- ===== src/Core/App/Examples/Again.antt =====
-- A vault that is unlocked twice in one process (crates/passman-core/src/app.rs), with a code that comes again
-- in between.
use passman.Prelude.{
  ℕ, ◌≡◌, refl, subst, ap₂, Option, List, [], ◌∷◌, some, ok, err, arith, to_le, of_le, bytes_eq,
}
use passman.Prelude.Int.{i64_bits, i64_of_bits}
use passman.Crypto.Kdf
use passman.Crypto.Toy.{toy}
use passman.Hsm.{to_byte, tag, from_byte, into_mock}
use passman.Hsm.Blob.{from_parts}
use passman.Hsm.Blob
use passman.Hsm.Mock.{
  key_store, enroll, check_forced, check_prompt, aad, begin_unwrap, complete_unwrap, lockout_status,
}
use passman.Crypto.Aead.{encrypt, decrypt}
use passman.Crypto.Derive.{hkdf_expand, hkdf_master}
use passman.Crypto.Toy.{toy_seal, toy_unseal, tag_of, sum}
use passman.Vault.Create.{create}
use passman.Vault.Sets.{check_index_envelope_sets, check_id_sets, sort_unstable, has_repeat, ids_eq}
use passman.Vault.Record.{div_ceil, copy_into, write_u32_le, read_u32_le, checked_add}
use passman.Vault.Padding.{pad_index_plaintext, strip_index_padding}
use passman.Vault.Toy.{to_stdvec_toy, from_bytes_toy, counted, row_bytes, read_rows}
use passman.Vault.Sealing.{
  probe_associated_data, check_blob_len, into_fixed, seal_index, decrypt_index, open_index,
}
use passman.Core.Storage.{atomic_write, write_temp, finish, rename_over}
use passman.Core.App.{backend_allowed, is_software, save, set_totp_config}
use passman.Core.App.Keys.{unwrap_blob, enroll_slot, derive_master}
use passman.Totp.Hotp.{Hmac}
use passman.Vault.Toy.{toy_postcard}
use passman.Core.App.{App, build_unlocked}
use passman.Crypto.Aead.{ct_eq}
use passman.Totp.Hotp.{is_ascii_digit, hotp_value, truncate, to_be, format_padded, fill}
use passman.Totp.Hotp
use passman.Totp.Verifier.{TotpVerifier}
use passman.Totp.Verifier
use passman.Core.Toy.{small, env₀, draws₀, password, code, key₀}
use passman.Core.App.Unlock.{unlock}
use passman.Core.Storage.{File, max_vault_bytes}
use passman.Vault.Format
use passman.Core.App.Unlock
use passman.Core.App.Keys
use passman.Core.App.Failures
use passman.Core.Storage
use passman.Core.Lockout
use passman.Reader
use passman.Vault.Sealing
use passman.Core.App.{Env}
use passman.Vault.Operations.{set_rate_limit}
use passman.Core.Error.{bad_credentials}
use passman.Core.App.Unlock.Replays.{
  accepted_step, Unlocks, ended, failed, passed, Unlocks-Ascends, Ascends,
}
use passman.Core.App.Examples.{app₁, app₂, token}

abbrev app₃ : App
app₃ = (unlock toy_postcard env₀ token password code app₂).1

-- Half a minute later, with the code of step 3, "000003".
abbrev env₁ : Env
env₁ = record env₀ { now = 120; totp_now = 120; session_now = 120 }

abbrev next_code : List ℕ
next_code = 48 ∷ 48 ∷ 48 ∷ 48 ∷ 48 ∷ 51 ∷ []

abbrev app₄ : App
app₄ = (unlock toy_postcard env₁ token password next_code app₃).1

three_unlocks :
    (unlock toy_postcard env₀ token password code app₁
      ≡ (ok (build_unlocked env₀ token key₀ draws₀.seed []), app₂))
    × (accepted_step app₂ ≡ some 2)
    × (unlock toy_postcard env₀ token password code app₂ ≡ (err bad_credentials, app₃))
    × (unlock toy_postcard env₁ token password next_code app₃
        ≡ (ok (build_unlocked env₁ token key₀ draws₀.seed []), app₄))
    × (accepted_step app₄ ≡ some 3)
unfolding app₁ backend_allowed is_software key_store enroll_slot enroll check_forced check_prompt
    encrypt toy_seal tag_of sum from_parts derive_master Kdf.argon2id_within_memory
    Kdf.within_limits Kdf.check_memory create check_blob_len Blob.to_bytes to_byte to_le seal_index
    hkdf_master hkdf_expand to_stdvec_toy counted row_bytes pad_index_plaintext div_ceil copy_into
    write_u32_le probe_associated_data Kdf.to_bytes into_fixed save atomic_write write_temp finish
    rename_over set_totp_config open_index decrypt_index decrypt toy_unseal bytes_eq
    strip_index_padding checked_add read_u32_le of_le from_bytes_toy read_rows
    check_index_envelope_sets check_id_sets sort_unstable has_repeat ids_eq build_unlocked aad tag
    Format.to_bytes Format.u16_prefixed Format.u32_prefixed Format.export_bytes
    Format.envelopes_bytes i64_bits Unlock.admit Unlock.authenticate Storage.read Storage.read_file
    Format.from_bytes Format.parse Format.read_envelopes Format.read_export_at Reader.reject
    Reader.new Reader.remaining Reader.expect_eof Reader.take Reader.take_array Reader.read_u8
    Reader.read_u16_le Reader.read_u32_le Reader.read_u64_le Reader.read_i64_le
    Reader.read_u16_prefixed_vec Reader.read_u32_prefixed_vec Kdf.from_bytes Failures.header_state
    Failures.merge Failures.check_hsm_lockout lockout_status Lockout.remaining
    Lockout.lockout_minutes Failures.check_advisory Keys.unwrap_slot unwrap_blob Blob.from_bytes
    from_byte begin_unwrap complete_unwrap into_mock Failures.count_failure Failures.verify_totp
    Failures.verifier_or Failures.after_verify Verifier.new Verifier.verify Verifier.verify_parsed
    Verifier.parse_code Verifier.all_digits is_ascii_digit Verifier.first_step Verifier.last_step
    Verifier.current_step Verifier.expected Verifier.scan Verifier.is_replay Verifier.accept ct_eq
    hotp_value Hotp.tag_of truncate to_be format_padded fill Keys.derive_master_from_bytes
    Sealing.verify_probe Failures.clear_failures Failures.record_failure Failures.save_quietly
    Failures.rate_limited Lockout.after_failure Lockout.reset set_rate_limit unlock i64_of_bits
three_unlocks = (refl, refl, refl, refl, refl)

abbrev steps : List (Option ℕ)
steps = some 2 ∷ some 3 ∷ []

run : Unlocks toy_postcard app₁ (accepted_step app₂ ∷ accepted_step app₄ ∷ []) app₄
run =
    let (first, second_step, again, last, third_step) = three_unlocks in
    passed env₀ token password code _ app₁ app₂ app₄ _ (omega arith) first (
      failed env₀ token password code _ app₂ app₃ app₄ _ (omega arith) again
        (passed env₁ token password next_code _ app₃ app₄ app₄ [] (omega arith) last (ended app₄)))

two_steps : Unlocks toy_postcard app₁ steps app₄
two_steps =
    let (first, second_step, again, last, third_step) = three_unlocks in
    subst (λ z. Unlocks toy_postcard app₁ z app₄) (ap₂ (λ a b. a ∷ b ∷ []) second_step third_step)
      run

Unlocks-Ascends_example : Ascends (accepted_step app₁) steps
Unlocks-Ascends_example = Unlocks-Ascends toy_postcard app₁ steps app₄ two_steps
