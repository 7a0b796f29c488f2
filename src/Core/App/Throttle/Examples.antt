-- ===== src/Core/App/Throttle/Examples.antt =====
-- Three guesses at a small vault, and the theorem at them (crates/passman-core/src/app.rs).
use passman.Prelude.{
  ℕ, suc, take, inl, inr, Result-cases, ◌∙◌, ◌<◌, ◌≤◌, ◌^◌, ◌≡◌, refl, List, [], ◌∷◌, ◌++◌, none,
  some, true, false, Result, ok, err, arith, length, replicate, to_le, of_le, bytes_eq, subst, sym,
  ap,
}
use passman.Prelude.Int.{pos}
use passman.Crypto.Kdf
use passman.Crypto.Toy.{toy}
use passman.Hsm.{
  HsmError, time_based, available, software_mock, vault_key, totp_seed, authenticated, Prompter,
  HardwareKeyStore, of_tpm2, tpm2,
}
use passman.Hsm
use passman.Totp.{default_config}
use passman.Totp.Hotp.{Hmac}
use passman.Vault.{Vault, IsVault}
use passman.Vault.Format
use passman.Vault.Toy.{toy_postcard}
use passman.Core.App.{App, Env}
use passman.Core.App.Throttle.{no_faults}
use passman.Core.App.Unlock.{unlock}
use passman.Core.Error.{bad_credentials}
use passman.Core.Storage.{
  read, read_file, File, max_vault_bytes, atomic_write, write_temp, finish, rename_over,
}
use passman.Core.Lockout.{remaining, lockout_minutes, after_failure}
use passman.Vault.Format.RoundTrip.{from_bytes-to_bytes_vault}
use passman.Vault.Operations.{set_rate_limit}
use passman.Core.App.Keys.{unwrap_blob, derive_master, derive_master_from_bytes}
use passman.Core.App.Throttle.Guesses.{Derives, Attempts, none_yet, guessed, Attempts-throttled}
use passman.Hsm.{HsmSlot, from_byte}
use passman.Hsm.Blob
use passman.Core.Error.{UnlockError}
use passman.Crypto.Derive.{hkdf_master}
use passman.Core.App.{master_info, into_key, backend_allowed, is_software}
use passman.Core.App.Failures.{
  merge, header_state, check_hsm_lockout, verify_totp, after_verify, verifier_or, count_failure,
  record_failure, save_quietly, rate_limited,
}
use passman.Core.App.Unlock.{authenticate}
use passman.Core.App.Unlock.Admission.{IsAdmitted, Refuses, merged}
use passman.Core.App.Unlock.Verdict.{Unwraps, unlock-unwrapped}
use passman.Crypto.Aead.{ct_eq}
use passman.Totp.Hotp.{is_ascii_digit, hotp_value, truncate, to_be, format_padded, fill}
use passman.Totp.Hotp
use passman.Totp.Verifier

instance abbrev small : Hmac
small = record {
  hmac_sha1 = λ seed msg. replicate 20 0;
  hmac_sha256 = λ seed msg. replicate 20 0;
  hmac_sha512 = λ seed msg. replicate 20 0;
}

-- A store that gives back the same bytes for each slot.
abbrev easy_store : HardwareKeyStore
easy_store = record {
  kind = tpm2;
  capabilities = record {
    biometric_supported = true;
    strongbox_backed = false;
    pcr_bound = false;
    max_attempts_before_lockout = none;
    lockout_recovery = time_based 0;
    supports_distinct_slot_pin = true;
  };
  lockout_status = ok available;
  enroll = λ slot material prompter. err Hsm.cancelled;
  begin_unwrap = λ slot blob. ok (of_tpm2 []);
  complete_unwrap = λ handle prompter. ok (replicate 32 11);
  invalidate = λ slot blob. ok tt;
}

abbrev env₀ : Env
env₀ = record {
  store = easy_store;
  prompter = λ reason. ok authenticated;
  now = 90;
  totp_now = 90;
  session_now = 90;
  available_kib = none;
  faults = no_faults;
}

-- The vault after so many failures, the last at that time.
abbrev vault_at : ℕ → ℕ → Vault
vault_at counter last = record {
  format_version = 2;
  kdf_algorithm_id = 0;
  kdf_params = Kdf.low;
  salt = replicate 32 4;
  probe_nonce = replicate 24 5;
  probe_ct = replicate 32 6;
  k_hsm_wrap_blob = 0 ∷ 0 ∷ 0 ∷ 0 ∷ [];
  totp_seed_wrap_blob = 0 ∷ 0 ∷ 0 ∷ 0 ∷ [];
  rl_counter = counter;
  rl_last_failure = pos last;
  metadata = record { last_password_change = pos 7; last_export_at = none };
  sealed_index_nonce = replicate 24 7;
  sealed_index_ct = [];
  envelopes = [];
}

vault_at-IsVault : (c l : ℕ) → c < 2 ^ 64 → l < 2 ^ 63 → IsVault (vault_at c l)
vault_at-IsVault c l a b = record {
  version = inl refl;
  algorithm = refl;
  kdf_params = record { m_kib_fits = omega arith; t_fits = omega arith; p_fits = omega arith };
  salt = record { size = refl; bytes = omega arith };
  probe_nonce = record { size = refl; bytes = omega arith };
  probe_ct = record { size = refl; bytes = omega arith };
  k_hsm_wrap_blob = record { size = omega arith; bytes = omega arith };
  totp_seed_wrap_blob = record { size = omega arith; bytes = omega arith };
  rl_counter = a;
  rl_last_failure = b;
  last_password_change = omega arith;
  last_export_at = tt;
  sealed_index_nonce = record { size = refl; bytes = omega arith };
  sealed_index_ct = record { size = omega arith; bytes = tt };
  count = omega arith;
  envelopes = tt;
}

abbrev file_at : ℕ → ℕ → File
file_at counter last = record { bytes = Format.to_bytes (vault_at counter last); synced = true }

abbrev app_at : ℕ → ℕ → App
app_at counter last = record {
  disk = record { target = some (file_at counter last); temp = none };
  allow_software_hsm = false;
  totp_config = default_config;
  verifier = some (record { config = default_config; last_accepted_step = none });
  lockout_mem = record { counter = counter; last_failure = pos last };
}

-- The code is "000000" in every step, and the guess is "000009".
abbrev wrong_code : List ℕ
wrong_code = 48 ∷ 48 ∷ 48 ∷ 48 ∷ 48 ∷ 57 ∷ []

length-file_at : (c l : ℕ) → length (file_at c l).bytes ≤ max_vault_bytes
unfolding Format.to_bytes Format.u16_prefixed Format.u32_prefixed Format.export_bytes
    Format.envelopes_bytes Kdf.to_bytes to_le
length-file_at c l = omega arith

-- Less than three failures do not lock.
few : (c l : ℕ) → c < 3 → remaining (record { counter = c; last_failure = pos l }) 90 ≡ none
unfolding remaining lockout_minutes
few c l h = ground arith

merged_app : (c l : ℕ) → merged (vault_at c l) (app_at c l) ≡ app_at c l
unfolding merge header_state
merged_app c l = ground arith

read-file_at : (c l : ℕ) → read no_faults (app_at c l).disk ≡ ok (file_at c l).bytes
unfolding read read_file
read-file_at c l = ground (arith, length-file_at c l)

counted :
    (c l : ℕ)
    → c < 3
    → after_failure (record { counter = c; last_failure = pos l }) 90
      ≡ record { counter = suc c; last_failure = pos 90 }
unfolding after_failure
counted c l h = ground arith

app_at-IsAdmitted : (c l : ℕ) → c < 3 → l < 2 ^ 63 → IsAdmitted env₀ (app_at c l) (vault_at c l)
app_at-IsAdmitted c l h k = record {
  bytes = (file_at c l).bytes;
  allowed = unfold backend_allowed is_software in refl;
  was_read = read-file_at c l;
  parsed = from_bytes-to_bytes_vault (vault_at c l) (vault_at-IsVault c l (omega arith) k);
  within = unfold Kdf.within_limits in refl;
  hardware = unfold check_hsm_lockout in refl;
  advisory = subst (λ a. remaining a.lockout_mem 90 ≡ none) (sym (merged_app c l)) (few c l h);
}

abbrev seed : List ℕ
seed = replicate 32 11

refused_code :
    (c l : ℕ)
    → c < 3
    → authenticate toy_postcard env₀ [] [] wrong_code
        (vault_at c l)
        (app_at c l).lockout_mem
        seed
        seed
        (app_at c l)
      ≡ (err bad_credentials, app_at (suc c) 90)
unfolding authenticate verify_totp after_verify verifier_or count_failure record_failure
    save_quietly rate_limited set_rate_limit atomic_write write_temp finish rename_over
    Verifier.verify Verifier.verify_parsed Verifier.parse_code Verifier.all_digits is_ascii_digit
    Verifier.first_step Verifier.last_step Verifier.current_step Verifier.expected Verifier.scan
    Verifier.is_replay Verifier.accept ct_eq bytes_eq hotp_value Hotp.tag_of truncate to_be
    format_padded fill
refused_code c l h = rw (counted c l h) refl

vault_at-Unwraps : (c l : ℕ) → Unwraps env₀ (vault_at c l) seed seed
vault_at-Unwraps c l = record {
  key = unfold unwrap_blob Blob.from_bytes from_byte of_le in refl;
  code_seed = unfold unwrap_blob Blob.from_bytes from_byte of_le in refl;
}

guess_at :
    (c l : ℕ)
    → c < 3
    → l < 2 ^ 63
    → unlock toy_postcard env₀ [] [] wrong_code (app_at c l)
      ≡ (err bad_credentials, app_at (suc c) 90)
guess_at c l h k =
    unlock-unwrapped toy_postcard env₀ [] [] wrong_code (vault_at c l) seed seed (app_at c l)
      (app_at-IsAdmitted c l h k) (vault_at-Unwraps c l)
    ∙ ap
        (λ a.
          authenticate toy_postcard env₀ [] [] wrong_code (vault_at c l) a.lockout_mem seed seed a)
        (merged_app c l)
    ∙ refused_code c l h

easy_unwrap : (slot : HsmSlot) (bytes k : List ℕ) → unwrap_blob env₀ slot bytes ≡ ok k → seed ≡ k
unfolding unwrap_blob
easy_unwrap slot bytes k e = elim (Result-cases (Blob.from_bytes bytes)) [
  | inl (blob, parsed) ↦ ok-injective (sym (rw parsed refl) ∙ e)
  | inr (x, failed) ↦ absurd (err≢ok {a = x} (sym (rw failed refl) ∙ e))
]
  where
    ok-injective : {a b : List ℕ} → Path (Result HsmError (List ℕ)) (ok a) (ok b) → a ≡ b
    ok-injective q = cc

    err≢ok : {a : HsmError} {b : List ℕ} → Path (Result HsmError (List ℕ)) (err a) (ok b) → ⊥
    err≢ok q = cc

easy_derive :
    (v : Vault) (password k_hsm : List ℕ)
    → Kdf.within_limits v.kdf_params ≡ true
    → seed ≡ k_hsm
    → (k : List ℕ) × (derive_master_from_bytes env₀ password v.salt v.kdf_params k_hsm ≡ ok k)
unfolding derive_master_from_bytes into_key derive_master Kdf.argon2id_within_memory
    Kdf.check_memory
easy_derive v password k_hsm within e =
    subst
      (λ z. (k : List ℕ) × (derive_master_from_bytes env₀ password v.salt v.kdf_params z ≡ ok k)) e
      (
        hkdf_master v.salt (take 32 (password ++ (v.salt ++ replicate 32 0)) ++ seed) master_info,
        rw within refl,
      )

env₀-Derives : (app : App) → Derives toy_postcard env₀ app
env₀-Derives app v password k_hsm a e =
    easy_derive v password k_hsm a.within (easy_unwrap vault_key v.k_hsm_wrap_blob k_hsm e)

three : Attempts toy_postcard (app_at 0 0) 3 90 (app_at 3 90)
three =
    guessed env₀ [] [] wrong_code
      (guessed env₀ [] [] wrong_code
        (guessed env₀ [] [] wrong_code none_yet refl (omega arith) (env₀-Derives _)
          (guess_at 0 0 (omega arith) (omega arith)))
        refl (omega arith) (env₀-Derives _) (guess_at 1 90 (omega arith) (omega arith)))
      refl (omega arith) (env₀-Derives _) (guess_at 2 90 (omega arith) (omega arith))

-- Nine and a half minutes after the third guess.
Attempts-throttled_example :
    (e : UnlockError) × (app' : App) × (unlock toy_postcard
        (record env₀ { now = 660 })
        []
        (112 ∷ [])
        wrong_code
        (app_at 3 90)
      ≡ (err e, app'))
    × Refuses (app_at 3 90) e app'
Attempts-throttled_example =
    Attempts-throttled toy_postcard (app_at 0 0) (app_at 3 90) 3 90 (record env₀ { now = 660 }) []
      (112 ∷ []) wrong_code (file_at 0 0) (vault_at 0 0) refl
      (from_bytes-to_bytes_vault (vault_at 0 0) (vault_at-IsVault 0 0 (omega arith) (omega arith)))
      (vault_at-IsVault 0 0 (omega arith) (omega arith)) three (omega arith) (omega arith)
      (omega arith) (omega arith)
