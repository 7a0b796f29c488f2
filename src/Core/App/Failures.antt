-- ===== src/Core/App/Failures.antt =====
-- Failed attempts in crates/passman-core/src/app.rs: the code check, the advisory counter in memory
-- and in the vault, and the checks of it.
use passman.Prelude.{
  ℕ, min, max, List, Option, none, some, Bool, false, not, ◌||◌, Result, ok, err, ◌==◌,
  if◌then◌else◌,
}
use passman.Prelude.Int.{ℤ, pos, negsuc}
use passman.Hsm.{
  HsmError, HsmSlot, vault_key, totp_seed, HsmKind, software_mock, HsmLockoutStatus, available,
  Prompter, WrappedBlob, UnwrapHandle, HardwareKeyStore, malformed_blob,
}
use passman.Hsm
use passman.Totp.{TotpError, TotpConfig}
use passman.Totp.Hotp.{Hmac}
use passman.Totp.Verifier.{TotpVerifier}
use passman.Totp.Verifier
use passman.Vault.{Vault}
use passman.Vault.Format
use passman.Vault.Operations.{set_rate_limit}
use passman.Core.Error.{UnlockError, bad_credentials, locked_out}
use passman.Core.Lockout.{LockoutState, remaining, after_failure, reset}
use passman.Core.Storage.{Disk, Faults, acquire, TryLock}
use passman.Core.Storage
use passman.Core.Act.{Act}
use passman.Core.App.{hsm_lockout_fallback, App, Env, or_else}

abbrev pub max_ℤ : ℤ → ℤ → ℤ
max_ℤ (pos a) (pos b) = pos (max a b)
max_ℤ (pos a) (negsuc b) = pos a
max_ℤ (negsuc a) (pos b) = pos b
max_ℤ (negsuc a) (negsuc b) = negsuc (min a b)

unfoldable pub merge : LockoutState → LockoutState → LockoutState
merge disk mem = record {
  counter = max disk.counter mem.counter;
  last_failure = max_ℤ disk.last_failure mem.last_failure;
}

abbrev pub put_lockout : LockoutState → App → App
put_lockout s app = record app { lockout_mem = s }

-- `let _ = atomic_write(..)`
unfoldable pub save_quietly : Env → Vault → App → App
save_quietly env v app = record app {
  disk = (Storage.atomic_write env.faults (Format.to_bytes v) app.disk).disk;
}

unfoldable pub rate_limited : LockoutState → Vault → Vault
rate_limited s v = set_rate_limit s.counter s.last_failure v

unfoldable pub record_failure : Env → Vault → LockoutState → App → App
unfolding save_quietly rate_limited
record_failure env v state app =
    let state' = after_failure state env.now in
    save_quietly env (rate_limited state' v) (put_lockout state' app)

-- An action whose failure is a failed attempt.
unfoldable pub count_failure :
    {E A : Type 0} → Env → Vault → LockoutState → Result E A × App → Result UnlockError A × App
unfolding record_failure
count_failure env v state (ok a, app) = (ok a, app)
count_failure env v state (err e, app) = (err bad_credentials, record_failure env v state app)

unfoldable pub check_hsm_lockout :
    Result HsmError HsmLockoutStatus → LockoutState → ℕ → Result UnlockError (Unit {0})
check_hsm_lockout (err e) state now = ok tt
check_hsm_lockout (ok available) state now = ok tt
check_hsm_lockout (ok (Hsm.locked_out retry_after)) state now =
    err (locked_out (or_else retry_after (or_else (remaining state now) hsm_lockout_fallback)))

unfoldable pub check_advisory : Option ℕ → Result UnlockError (Unit {0})
check_advisory none = ok tt
check_advisory (some left) = err (locked_out left)

unfoldable pub header_state : Vault → LockoutState
header_state v = record { counter = v.rl_counter; last_failure = v.rl_last_failure }

abbrev is_zero : ℤ → Bool
is_zero (pos n) = n == 0
is_zero (negsuc n) = false

-- After an unlock that succeeded.
unfoldable pub clear_failures : Env → Vault → App → App
unfolding save_quietly rate_limited
clear_failures env v app =
    if not (v.rl_counter == 0) || not (is_zero v.rl_last_failure)
    then save_quietly env (rate_limited reset v) (put_lockout reset app)
    else put_lockout reset app

-- The verifier that lives as long as the process.
unfoldable pub verifier_or : TotpConfig → Option TotpVerifier → TotpVerifier
verifier_or cfg none = Verifier.new cfg
verifier_or cfg (some v) = v

abbrev pub put_verifier : TotpVerifier → App → App
put_verifier v app = record app { verifier = some v }

unfoldable pub after_verify :
    Result TotpError (Unit {0}) × TotpVerifier → App → Result (Unit {0}) (Unit {0}) × App
after_verify (ok done, v) app = (ok tt, put_verifier v app)
after_verify (err e, v) app = (err tt, put_verifier v app)

module _ ⦃h : Hmac⦄ where
  unfoldable pub verify_totp : Env → List ℕ → List ℕ → Act App (Unit {0}) (Unit {0})
  unfolding verifier_or after_verify
  verify_totp env seed code app =
      after_verify
        (Verifier.verify (verifier_or app.totp_config app.verifier) seed code env.totp_now) app
