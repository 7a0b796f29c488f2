-- ===== src/Core/App/Throttle.antt =====
-- What the advisory counter of crates/passman-core/src/app.rs holds off: guesses that are made one after
-- another, in one process or with restarts between them.
pub mod Guesses
mod Examples
use passman.Prelude.{
  ℕ, zero, suc, ◌+◌, ◌-◌, ◌*◌, ◌^◌, ◌<◌, ◌≤◌, ◌≡◌, ◌≢◌, min, max, refl, sym, ap, subst, ◌∙◌, List,
  Option, none, some, some-injective, Bool, true, false, Result, ok, err, arith, tests, ltb, leb,
  ◌==◌, if◌then◌else◌, Bool-cases, inl, inr, ◌⊎◌,
}
use passman.Prelude.Int.{ℤ, pos, negsuc, IsI64}
use passman.Crypto.{Primitives}
use passman.Hsm.{HsmError, vault_key}
use passman.Totp.Hotp.{Hmac}
use passman.Totp.{default_config}
use passman.Vault.{VaultError, Vault, IsVault}
use passman.Vault.Format
use passman.Vault.Format.RoundTrip.{from_bytes-to_bytes_vault}
use passman.Vault.Postcard.{Postcard}
use passman.Vault.Operations.{set_rate_limit}
use passman.Core.Error.{CoreError, UnlockError, bad_credentials}
use passman.Core.Lockout.{
  LockoutState, lockout_minutes, remaining, remaining_since, remaining_from, after_failure, reset,
  lockout_minutes_mono, lockout_minutes-at-least_ten,
}
use passman.Core.Storage.{File, Disk, Faults, read, read_file, atomic_write}
use passman.Core.App.{App, Env, Session}
use passman.Core.App.Keys.{map_hsm_unlock, unwrap_blob, derive_master_from_bytes}
use passman.Core.App.Failures.{
  max_ℤ, header_state, merge, put_lockout, put_verifier, rate_limited, record_failure, save_quietly,
}
use passman.Core.App.Unlock.{unlock}
use passman.Core.App.Unlock.Admission.{
  IsAdmitted, IsRefusal, software, malformed, locked, Refuses, err-injective, merged,
}
use passman.Core.App.Unlock.Verdict.{
  Unwraps, Ends, wrong_code, not_derived, wrong_key, tampered, unlocked, Verdict, refused,
  not_unwrapped, tried, unlock-Verdict,
}

-- A failure time that is at `t` or later.
abbrev pub Since : ℕ → ℤ → Type 0
Since t (pos n) = t ≤ n
Since t (negsuc n) = ⊥

-- No call of the file system fails.
abbrev pub no_faults : Faults
no_faults = record {
  stat_fails = false;
  read_fails = false;
  no_parent = false;
  create_fails = false;
  write_fails = false;
  partial = 0;
  sync_fails = false;
  rename_fails = false;
  remove_fails = false;
}

-- The process ends, and another one opens the vault.
abbrev pub restart : App → App
restart app = record app { totp_config = default_config; verifier = none; lockout_mem = reset }

-- The vault on disk, that counts at least `n` failures, the last at `t` or later.
pub record Counts (n t : ℕ) (app : App) : Type 0 where
  pub file : File
  pub v : Vault
  pub target : app.disk.target ≡ some file
  pub parsed : Format.from_bytes file.bytes ≡ ok v
  pub valid : IsVault v
  pub count : min n (2 ^ 64 - 1) ≤ v.rl_counter
  pub last : (n ≡ 0) ⊎ Since t v.rl_last_failure

waits :
    (m : ℕ) (last : ℤ) (t now : ℕ)
    → 10 ≤ m
    → m ≤ 1440
    → Since t last
    → 0 < t
    → t < 2 ^ 62
    → now < t + 600
    → (if m == 0 then none else remaining_since last (min (m * 60) (2 ^ 64 - 1)) now) ≢ none
unfolding remaining_since remaining_from
waits m (negsuc k) t now ten day since some_time early soon = absurd since
waits m (pos zero) t now ten day since some_time early soon = absurd (omega arith)
waits m (pos (suc k)) t now ten day since some_time early soon = λ e. ground arith

-- A lockout of ten minutes at least is running.
pub still_locked :
    (s : LockoutState) (t now : ℕ)
    → 3 ≤ s.counter
    → Since t s.last_failure
    → 0 < t
    → t < 2 ^ 62
    → now < t + 600
    → remaining s now ≢ none
unfolding remaining
still_locked s t now three since some_time early soon =
    let ten = lockout_minutes-at-least_ten s.counter three in
    let day = (lockout_minutes_mono s.counter s.counter (omega arith)).1 in
    waits (lockout_minutes s.counter) s.last_failure t now ten day since some_time early soon

pub read-bytes :
    (f : Faults) (d : Disk) (file : File) (bytes : List ℕ)
    → d.target ≡ some file
    → read f d ≡ ok bytes
    → bytes ≡ file.bytes
unfolding read read_file
read-bytes f d file bytes e h = ground arith

rate_limited-IsVault :
    (s : LockoutState) (v : Vault)
    → IsVault v
    → s.counter < 2 ^ 64
    → IsI64 s.last_failure
    → IsVault (rate_limited s v)
unfolding rate_limited set_rate_limit
rate_limited-IsVault s v h c l = record {
  version = h.version;
  algorithm = h.algorithm;
  kdf_params = h.kdf_params;
  salt = h.salt;
  probe_nonce = h.probe_nonce;
  probe_ct = h.probe_ct;
  k_hsm_wrap_blob = h.k_hsm_wrap_blob;
  totp_seed_wrap_blob = h.totp_seed_wrap_blob;
  rl_counter = c;
  rl_last_failure = l;
  last_password_change = h.last_password_change;
  last_export_at = h.last_export_at;
  sealed_index_nonce = h.sealed_index_nonce;
  sealed_index_ct = h.sealed_index_ct;
  count = h.count;
  envelopes = h.envelopes;
}

saved :
    (bytes : List ℕ) (d : Disk)
    → (atomic_write no_faults bytes d).disk.target ≡ some (record { bytes = bytes; synced = true })
unfolding atomic_write
saved bytes d = refl

-- A failure that is recorded is counted on disk.
pub recorded :
    (env : Env) (v : Vault) (state : LockoutState) (app w : App) (n : ℕ)
    → env.faults ≡ no_faults
    → env.now < 2 ^ 62
    → IsVault v
    → min n (2 ^ 64 - 1) ≤ state.counter
    → w ≡ record_failure env v state app
    → Counts (suc n) env.now w
recorded env v state app w n fine early valid count same =
    let state' = after_failure state env.now in
    let v' = rate_limited state' v in
    let valid' =
      rate_limited-IsVault state' v valid (unfold after_failure in omega arith)
        (unfold after_failure in omega arith) in
    record {
      file = record { bytes = Format.to_bytes v'; synced = true };
      v = v';
      target =
          ap (λ a. a.disk.target) same
          ∙ unfold record_failure in
            ap (λ f. (atomic_write f (Format.to_bytes v') app.disk).disk.target) fine
            ∙ saved (Format.to_bytes v') app.disk;
      parsed = from_bytes-to_bytes_vault v' valid';
      valid = valid';
      count = unfold rate_limited set_rate_limit after_failure in omega arith;
      last = inr (unfold rate_limited set_rate_limit after_failure in omega arith);
    }

pub same_pair :
    {r : Result UnlockError Session × App} (e e' : UnlockError) (a a' : App)
    → r ≡ (err e, a)
    → r ≡ (err e', a')
    → (e ≡ e') × (a ≡ a')
same_pair e e' a a' p q = (err-injective (ap (λ z. z.0) (sym p ∙ q)), ap (λ z. z.1) (sym p ∙ q))

pub not_both :
    {r : Result UnlockError Session × App} (e : UnlockError) (s : Session) (a a' : App)
    → r ≡ (err e, a)
    → r ≡ (ok s, a')
    → ⊥
not_both e s a a' p q = cc (ap (λ z. z.0) (sym p ∙ q))

pub refusal-ne : (e : UnlockError) → IsRefusal e → e ≢ bad_credentials
refusal-ne e software = λ h. cc
refusal-ne e (malformed x) = λ h. cc
refusal-ne e (locked left) = λ h. cc

pub map_hsm_unlock-ne : (x : HsmError) → map_hsm_unlock x ≢ bad_credentials
unfolding map_hsm_unlock
map_hsm_unlock-ne x = λ h. ground arith

ok-injective_vault : {v v' : Vault} → Path (Result VaultError Vault) (ok v) (ok v') → v ≡ v'
ok-injective_vault e = cc

-- The vault that an attempt reads is the one on disk.
pub same_vault :
    (env : Env) (n t : ℕ) (app : App) (v : Vault) (c : Counts n t app)
    → IsAdmitted env app v
    → c.v ≡ v
same_vault env n t app v c a = ok-injective_vault (
    sym c.parsed
    ∙ ap Format.from_bytes (sym (read-bytes env.faults app.disk c.file a.bytes c.target a.was_read))
    ∙ a.parsed)

pub merged_counter :
    (v : Vault) (mem : LockoutState) (n : ℕ)
    → n ≤ v.rl_counter
    → n ≤ (merge (header_state v) mem).counter
unfolding merge header_state
merged_counter v mem n h = omega arith

pub merged_last :
    (v : Vault) (mem : LockoutState) (t : ℕ)
    → Since t v.rl_last_failure
    → Since t (merge (header_state v) mem).last_failure
unfolding merge header_state
merged_last v mem t h = later v.rl_last_failure mem.last_failure h
  where
    later : (a b : ℤ) → Since t a → Since t (max_ℤ a b)
    later (pos a) (pos b) h = omega arith
    later (pos a) (negsuc b) h = h
    later (negsuc a) b h = absurd h
