-- ===== src/Core/App/Unlock/Admission.antt =====
-- What an unlock is let through on, before any slot is unwrapped (crates/passman-core/src/app.rs).
use passman.Prelude.{
  ℕ, ◌≡◌, refl, subst, List, none, true, Result, ok, err, Bool-cases, Option-cases, Result-cases,
  inl, inr, ◌⊎◌,
}
use passman.Crypto.{kdf, backend}
use passman.Crypto.Kdf.{within_limits}
use passman.Hsm.{HsmError, HsmLockoutStatus, available, vault_key, totp_seed}
use passman.Hsm
use passman.Vault.{Vault}
use passman.Vault.Format
use passman.Core.Error.{
  CoreError, UnlockError, bad_credentials, locked_out, malformed_vault, software_refused,
}
use passman.Core.Error
use passman.Core.Lockout.{LockoutState, remaining}
use passman.Core.Storage
use passman.Core.App.{App, Env, backend_allowed}
use passman.Core.App.Failures.{header_state, merge, put_lockout, check_hsm_lockout, check_advisory}
use passman.Core.App.Unlock.{out_of_range, admit}

-- Refused before any slot is unwrapped.
pub data IsRefusal : UnlockError → Type 0 where
  software : IsRefusal software_refused
  malformed : (e : CoreError) → IsRefusal (malformed_vault e)
  locked : (left : ℕ) → IsRefusal (locked_out left)

-- The application whose counter is merged with that of a vault.
abbrev pub merged : Vault → App → App
merged v app = put_lockout (merge (header_state v) app.lockout_mem) app

-- The vault that was read, and the state that its lockouts were checked at.
pub record IsAdmitted (env : Env) (app : App) (v : Vault) : Type 0 where
  pub bytes : List ℕ
  pub allowed : backend_allowed env.store app ≡ true
  pub was_read : Storage.read env.faults app.disk ≡ ok bytes
  pub parsed : Format.from_bytes bytes ≡ ok v
  pub within : within_limits v.kdf_params ≡ true
  pub hardware :
      check_hsm_lockout env.store.lockout_status (merged v app).lockout_mem env.now ≡ ok tt
  pub advisory : remaining (merged v app).lockout_mem env.now ≡ none

-- A refusal changes no more than the counter in memory.
pub record Refuses (app : App) (e : UnlockError) (app' : App) : Type 0 where
  pub refusal : IsRefusal e
  pub disk : app'.disk ≡ app.disk
  pub verifier : app'.verifier ≡ app.verifier

pub err-injective : {E A : Type 0} {a b : E} → Path (Result E A) (err a) (err b) → a ≡ b
err-injective e = cc

hsm_lockout-IsRefusal :
    (status : Result HsmError HsmLockoutStatus) (state : LockoutState) (now : ℕ) (e : UnlockError)
    → check_hsm_lockout status state now ≡ err e
    → IsRefusal e
unfolding check_hsm_lockout
hsm_lockout-IsRefusal (err x) state now e h = cc
hsm_lockout-IsRefusal (ok available) state now e h = cc
hsm_lockout-IsRefusal (ok (Hsm.locked_out retry_after)) state now e h =
    subst IsRefusal (err-injective h) (locked _)

pub admit_outcome :
    (env : Env) (app : App)
    → ((v : Vault) × IsAdmitted env app v
        × (admit env app ≡ (ok (v, (merged v app).lockout_mem), merged v app)))
      ⊎ ((e : UnlockError) × (app' : App) × (admit env app ≡ (err e, app')) × Refuses app e app')
unfolding admit check_advisory
admit_outcome env app = elim (Bool-cases (backend_allowed env.store app)) [
  | inr refused ↦ inr (
    software_refused,
    app,
    rw refused refl,
    record { refusal = software; disk = refl; verifier = refl },
  )
  | inl allowed ↦ elim (Result-cases (Storage.read env.faults app.disk)) [
    | inr (e, failed) ↦ inr (
      malformed_vault e,
      app,
      rw allowed (rw failed refl),
      record { refusal = malformed e; disk = refl; verifier = refl },
    )
    | inl (bytes, was_read) ↦ elim (Result-cases (Format.from_bytes bytes)) [
      | inr (e, failed) ↦ inr (
        malformed_vault (Error.vault e),
        app,
        rw allowed (rw was_read (rw failed refl)),
        record { refusal = malformed (Error.vault e); disk = refl; verifier = refl },
      )
      | inl (v, parsed) ↦ elim (Bool-cases (within_limits v.kdf_params)) [
        | inr over ↦ inr (
          out_of_range,
          app,
          rw allowed (rw was_read (rw parsed (rw over refl))),
          record {
            refusal = malformed (
                Error.crypto
                  (kdf (backend "vault KDF parameters are outside the permitted range")));
            disk = refl;
            verifier = refl;
          },
        )
        | inl within ↦
            elim (Result-cases
              (check_hsm_lockout env.store.lockout_status (merged v app).lockout_mem env.now)) [
                | inr (e, closed) ↦ inr (
                  e,
                  merged v app,
                  rw allowed (rw was_read (rw parsed (rw within (rw closed refl)))),
                  record {
                    refusal =
                        hsm_lockout-IsRefusal env.store.lockout_status (merged v app).lockout_mem
                          env.now e closed;
                    disk = refl;
                    verifier = refl;
                  },
                )
                | inl (done, hardware) ↦
                    elim (Option-cases (remaining (merged v app).lockout_mem env.now)) [
                      | inr (left, waits) ↦ inr (
                        locked_out left,
                        merged v app,
                        rw allowed
                            (rw was_read (rw parsed (rw within (rw hardware (rw waits refl))))),
                        record { refusal = locked left; disk = refl; verifier = refl },
                      )
                      | inl free ↦ inl (
                        v,
                        record {
                          bytes = bytes;
                          allowed = allowed;
                          was_read = was_read;
                          parsed = parsed;
                          within = within;
                          hardware = hardware;
                          advisory = free;
                        },
                        rw allowed
                            (rw was_read (rw parsed (rw within (rw hardware (rw free refl))))),
                      )
                    ]
              ]
      ]
    ]
  ]
]

pub admit-IsAdmitted :
    (env : Env) (app : App) (v : Vault)
    → IsAdmitted env app v
    → admit env app ≡ (ok (v, (merged v app).lockout_mem), merged v app)
unfolding admit check_advisory
admit-IsAdmitted env app v a =
    rw a.allowed (rw a.was_read (rw a.parsed (rw a.within (rw a.hardware (rw a.advisory refl)))))
