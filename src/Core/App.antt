-- ===== src/Core/App.antt =====
-- crates/passman-core/src/app.rs: the locked application, creation and the unlock pipeline. A method
-- returns the application after it beside its result. Random draws are arguments, in the order of
-- their use; the progress sink, which is cosmetic, is left out.
pub mod Keys
pub mod Failures
pub mod Unlock
pub mod Throttle
pub mod Create
mod Examples
use passman.Prelude.{
  ◌≡◌, refl, ap, ℕ, ◌+◌, ◌-◌, ◌^◌, min, max, String, List, [], ◌∷◌, ◌++◌, Option, none, some, Bool,
  true, false, not, ◌&&◌, ◌||◌, Result, ok, err, guard, ok_or, map_err, length, ltb, ◌==◌,
  if◌then◌else◌,
}
use passman.Prelude
use passman.Prelude.Int.{ℤ, pos, negsuc}
use passman.Crypto.{Primitives, kdf, backend}
use passman.Crypto.Derive.{hkdf_master}
use passman.Crypto.Kdf.{KdfParams, within_limits, argon2id_within_memory}
use passman.Hsm.{
  HsmError, HsmSlot, vault_key, totp_seed, HsmKind, software_mock, HsmLockoutStatus, available,
  Prompter, WrappedBlob, UnwrapHandle, HardwareKeyStore, malformed_blob,
}
use passman.Hsm
use passman.Hsm.Blob
use passman.Totp.{TotpError, TotpConfig, default_config}
use passman.Totp.Hotp.{Hmac}
use passman.Totp.Verifier.{TotpVerifier}
use passman.Totp.Verifier
use passman.Vault.{VaultMetadata, Vault}
use passman.Vault.Format
use passman.Vault.Index.{Index}
use passman.Vault.Postcard.{Postcard}
use passman.Vault.Create.{create}
use passman.Vault.Sealing.{open_index, verify_probe}
use passman.Vault.Operations.{set_rate_limit}
use passman.Core.Act.{Act, bind, ◌>>=◌, ◌>>◌, lift, reading, modify}
use passman.Core.Error.{
  CoreError, UnlockError, cancelled, retryable, route_to_recovery, bad_credentials, locked_out,
  hsm_failed, malformed_vault, software_refused,
}
use passman.Core.Error
use passman.Core.Lockout.{LockoutState, remaining, after_failure, reset}
use passman.Core.Storage.{Disk, Faults, acquire, TryLock}
use passman.Core.Storage

abbrev pub key_len : ℕ
key_len = 32

abbrev pub session_secs : ℕ
session_secs = 120

-- b"passman-master-v0"
abbrev pub master_info : List ℕ
master_info =
    b'p' ∷ b'a' ∷ b's' ∷ b's' ∷ b'm' ∷ b'a' ∷ b'n' ∷ b'-' ∷ b'm' ∷ b'a' ∷ b's' ∷ b't' ∷ b'e' ∷ b'r'
    ∷ b'-' ∷ b'v' ∷ b'0' ∷ []

-- `Duration::from_mins(1)`
abbrev pub hsm_lockout_fallback : ℕ
hsm_lockout_fallback = 60

-- The application, with the vault's directory that it owns.
pub record App : Type 0 where
  pub disk : Disk
  pub allow_software_hsm : Bool
  pub totp_config : TotpConfig
  pub verifier : Option TotpVerifier
  pub lockout_mem : LockoutState

-- What surrounds one operation: the backend and the prompt as they answer, the readings of the clock
-- (the first one, that of the code's check, and that of the session), the memory that the host
-- reports, and the failures of the file system.
pub record Env : Type 0 where
  pub store : HardwareKeyStore
  pub prompter : Prompter
  pub now : ℕ
  pub totp_now : ℕ
  pub session_now : ℕ
  pub available_kib : Option ℕ
  pub faults : Faults

-- `UnlockedApp`, less the parent that it borrows.
pub record Session : Type 0 where
  pub k_master : List ℕ
  pub totp_seed : List ℕ
  pub index : Index
  pub session_expiry : ℕ
  pub session_token : List ℕ

abbrev pub map_ok : {E A B : Type 0} → (A → B) → Result E A → Result E B
map_ok f (ok a) = ok (f a)
map_ok f (err e) = err e

abbrev pub or_else : Option ℕ → ℕ → ℕ
or_else none d = d
or_else (some a) d = a

-- `App::open`, from what the lock file answers.
unfoldable pub open_app : Bool → TryLock → Disk → Result CoreError App
open_app open_fails outcome disk =
    map_ok
      (λ held. record {
        disk = disk;
        allow_software_hsm = false;
        totp_config = default_config;
        verifier = none;
        lockout_mem = reset;
      })
      (acquire open_fails outcome)

-- `App::open_allowing_software_hsm`
unfoldable pub open_allowing : Bool → TryLock → Disk → Result CoreError App
unfolding open_app
open_allowing open_fails outcome disk =
    map_ok {A = App} (λ app. record app { allow_software_hsm = true })
      (open_app open_fails outcome disk)

unfoldable pub is_software : HsmKind → Bool
is_software software_mock = true
is_software _ = false

unfoldable pub backend_allowed : HardwareKeyStore → App → Bool
unfolding is_software
backend_allowed store app = not (is_software store.kind && not app.allow_software_hsm)

unfoldable pub into_key : List ℕ → Option (List ℕ)
into_key bytes = if length bytes == key_len then some bytes else none

-- `u64::saturating_add`
abbrev pub saturating_add : ℕ → ℕ → ℕ
saturating_add a b = min (a + b) (2 ^ 64 - 1)

unfoldable pub build_unlocked : Env → List ℕ → List ℕ → List ℕ → Index → Session
build_unlocked env token k_master seed index = record {
  k_master = k_master;
  totp_seed = seed;
  index = index;
  session_expiry = saturating_add env.session_now session_secs;
  session_token = token;
}

-- The vault is written, and an error of the write is returned.
unfoldable pub save : Env → Vault → Act App CoreError (Unit {0})
save env v app =
    let o = Storage.atomic_write env.faults (Format.to_bytes v) app.disk in
    (o.result, record app { disk = o.disk })

unfoldable pub set_totp_config : TotpConfig → App → App
set_totp_config cfg app = record app { totp_config = cfg; verifier = none }

-- `i64::try_from(now).unwrap_or(i64::MAX)`
unfoldable pub unix_secs : ℕ → ℤ
unix_secs now = pos (min now (2 ^ 63 - 1))
