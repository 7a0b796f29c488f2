-- ===== src/Core/App/Unlock/Verdict.antt =====
-- How an unlock can end (crates/passman-core/src/app.rs).
use passman.Prelude.{
  ℕ, ◌≡◌, refl, sym, ap, ◌∙◌, ap₂, ◌↔◌, List, Result, ok, err, Result-cases, inl, inr, ◌⊎◌,
}
use passman.Crypto.{Primitives}
use passman.Hsm.{HsmError, vault_key, totp_seed}
use passman.Totp.{TotpError}
use passman.Totp.Hotp.{Hmac}
use passman.Totp.Verifier.{TotpVerifier}
use passman.Totp.Verifier
use passman.Vault.{VaultError, Vault}
use passman.Vault.Index.{Index}
use passman.Vault.Postcard.{Postcard}
use passman.Vault.Sealing.{open_index, verify_probe}
use passman.Core.Error.{
  CoreError, UnlockError, bad_credentials, locked_out, malformed_vault, software_refused,
}
use passman.Core.Error
use passman.Core.App.{App, Env, Session, build_unlocked}
use passman.Core.App.Keys.{unwrap_blob, unwrap_slot, map_hsm_unlock, derive_master_from_bytes}
use passman.Core.App.Failures.{
  put_verifier, verifier_or, record_failure, count_failure, verify_totp, after_verify,
  clear_failures,
}
use passman.Core.App.Unlock.{authenticate, unlock}
use passman.Core.App.Unlock.Admission.{merged, IsAdmitted, Refuses, admit_outcome, admit-IsAdmitted}

ok≢err :
    {s : Session} {e : UnlockError} {a b : App}
    → Path (Result UnlockError Session × App) (ok s, a) (err e, b)
    → ⊥
ok≢err q = cc (ap (λ z. z.0) q)

ok-injective_session : {s s' : Session} → Path (Result UnlockError Session) (ok s) (ok s') → s ≡ s'
ok-injective_session e = cc

pair_cases :
    (r : Result TotpError (Unit {0}) × TotpVerifier)
    → ((w : TotpVerifier) × (r ≡ (ok tt, w)))
      ⊎ ((e : TotpError) × (w : TotpVerifier) × (r ≡ (err e, w)))
pair_cases (ok done, w) = inl (w, refl)
pair_cases (err e, w) = inr (e, w, refl)

-- Both slots give their secrets.
pub record Unwraps (env : Env) (v : Vault) (k_hsm seed : List ℕ) : Type 0 where
  pub key : unwrap_blob env vault_key v.k_hsm_wrap_blob ≡ ok k_hsm
  pub code_seed : unwrap_blob env totp_seed v.totp_seed_wrap_blob ≡ ok seed

module _ ⦃p : Primitives⦄ ⦃h : Hmac⦄ (post : Postcard) (env : Env)
    (token password totp_code : List ℕ) where
  module _ (v : Vault) (k_hsm seed : List ℕ) (app : App) where
    -- The code is that of the seed, by the verifier that lives as long as the process.
    abbrev pub checked : Result TotpError (Unit {0}) × TotpVerifier
    checked = Verifier.verify (verifier_or app.totp_config app.verifier) seed totp_code env.totp_now

    -- The ways in which the factors can fail or hold.
    pub data Ends (r : Result UnlockError Session × App) : Type 0 where
      wrong_code :
          (e : TotpError) (w : TotpVerifier)
          → checked ≡ (err e, w)
          → r ≡ (err bad_credentials, record_failure env v app.lockout_mem (put_verifier w app))
          → Ends r
      not_derived :
          (w : TotpVerifier) (e : CoreError)
          → checked ≡ (ok tt, w)
          → derive_master_from_bytes env password v.salt v.kdf_params k_hsm ≡ err e
          → r ≡ (err bad_credentials, put_verifier w app)
          → Ends r
      wrong_key :
          (w : TotpVerifier) (k_master : List ℕ) (e : VaultError)
          → checked ≡ (ok tt, w)
          → derive_master_from_bytes env password v.salt v.kdf_params k_hsm ≡ ok k_master
          → verify_probe v k_master ≡ err e
          → r ≡ (err bad_credentials, record_failure env v app.lockout_mem (put_verifier w app))
          → Ends r
      tampered :
          (w : TotpVerifier) (k_master : List ℕ) (e : VaultError)
          → checked ≡ (ok tt, w)
          → derive_master_from_bytes env password v.salt v.kdf_params k_hsm ≡ ok k_master
          → verify_probe v k_master ≡ ok tt
          → open_index post v k_master ≡ err e
          → r ≡ (err (malformed_vault (Error.vault e)), put_verifier w app)
          → Ends r
      unlocked :
          (w : TotpVerifier) (k_master : List ℕ) (index : Index)
          → checked ≡ (ok tt, w)
          → derive_master_from_bytes env password v.salt v.kdf_params k_hsm ≡ ok k_master
          → verify_probe v k_master ≡ ok tt
          → open_index post v k_master ≡ ok index
          → r ≡ (
            ok (build_unlocked env token k_master seed index),
            clear_failures env v (put_verifier w app),
          )
          → Ends r

    authenticate-Ends :
        Ends (authenticate post env token password totp_code v app.lockout_mem k_hsm seed app)
    unfolding authenticate verify_totp after_verify count_failure
    authenticate-Ends = elim (pair_cases checked) [
      | inr (e, w, no_code) ↦ wrong_code e w no_code (rw no_code refl)
      | inl (w, code) ↦
          elim (Result-cases (derive_master_from_bytes env password v.salt v.kdf_params k_hsm)) [
            | inr (e, failed) ↦ not_derived w e code failed (rw code (rw failed refl))
            | inl (k_master, derived) ↦ elim (Result-cases (verify_probe v k_master)) [
              | inr (e, other) ↦
                  wrong_key w k_master e code derived other (rw code (rw derived (rw other refl)))
              | inl (done, probe) ↦ elim (Result-cases (open_index post v k_master)) [
                | inr (e, broken) ↦
                    tampered w k_master e code derived probe broken
                      (rw code (rw derived (rw probe (rw broken refl))))
                | inl (index, opened) ↦
                    unlocked w k_master index code derived probe opened
                      (rw code (rw derived (rw probe (rw opened refl))))
              ]
            ]
          ]
    ]

    pub authenticate-unlocked :
        (w : TotpVerifier) (k_master : List ℕ) (index : Index)
        → checked ≡ (ok tt, w)
        → derive_master_from_bytes env password v.salt v.kdf_params k_hsm ≡ ok k_master
        → verify_probe v k_master ≡ ok tt
        → open_index post v k_master ≡ ok index
        → authenticate post env token password totp_code v app.lockout_mem k_hsm seed app ≡ (
          ok (build_unlocked env token k_master seed index),
          clear_failures env v (put_verifier w app),
        )
    unfolding authenticate verify_totp after_verify count_failure
    authenticate-unlocked w k_master index code derived probe opened =
        rw code (rw derived (rw probe (rw opened refl)))

    pub unlock-unwrapped :
        IsAdmitted env app v
        → Unwraps env v k_hsm seed
        → unlock post env token password totp_code app
          ≡ authenticate post env token password totp_code v
              (merged v app).lockout_mem
              k_hsm
              seed
              (merged v app)
    unfolding unlock unwrap_slot
    unlock-unwrapped a u = rw (admit-IsAdmitted env app v a) (rw u.key (rw u.code_seed refl))

  module _ (app : App) where
    -- The ways in which an unlock can end.
    pub data Verdict (r : Result UnlockError Session × App) : Type 0 where
      refused : (e : UnlockError) (app' : App) → Refuses app e app' → r ≡ (err e, app') → Verdict r
      not_unwrapped :
          (v : Vault) (e : HsmError)
          → IsAdmitted env app v
          → r ≡ (err (map_hsm_unlock e), merged v app)
          → Verdict r
      tried :
          (v : Vault) (k_hsm seed : List ℕ)
          → IsAdmitted env app v
          → Unwraps env v k_hsm seed
          → Ends v k_hsm seed (merged v app) r
          → Verdict r

    pub unlock-Verdict : Verdict (unlock post env token password totp_code app)
    unfolding unlock unwrap_slot
    unlock-Verdict = elim (admit_outcome env app) [
      | inr (e, app', failed, r) ↦ refused e app' r (rw failed refl)
      | inl (v, a, admitted) ↦ elim (Result-cases (unwrap_blob env vault_key v.k_hsm_wrap_blob)) [
        | inr (e, failed) ↦ not_unwrapped v e a (rw admitted (rw failed refl))
        | inl (k_hsm, key) ↦ elim (Result-cases (unwrap_blob env totp_seed v.totp_seed_wrap_blob)) [
          | inr (e, failed) ↦ not_unwrapped v e a (rw admitted (rw key (rw failed refl)))
          | inl (seed, code_seed) ↦
              tried v k_hsm seed a (record { key = key; code_seed = code_seed })
                (rw admitted
                  (rw key (rw code_seed (authenticate-Ends v k_hsm seed (merged v app)))))
        ]
      ]
    ]

    -- What an unlock that succeeds has found, and what it leaves.
    pub record IsUnlocked (session : Session) (app' : App) : Type 0 where
      pub v : Vault
      pub k_hsm : List ℕ
      pub seed : List ℕ
      pub w : TotpVerifier
      pub k_master : List ℕ
      pub index : Index
      pub admitted : IsAdmitted env app v
      pub unwrapped : Unwraps env v k_hsm seed
      pub code : checked v k_hsm seed (merged v app) ≡ (ok tt, w)
      pub derived : derive_master_from_bytes env password v.salt v.kdf_params k_hsm ≡ ok k_master
      pub probe : verify_probe v k_master ≡ ok tt
      pub opened : open_index post v k_master ≡ ok index
      pub session_built : session ≡ build_unlocked env token k_master seed index
      pub left : app' ≡ clear_failures env v (put_verifier w (merged v app))

    -- An unlock succeeds exactly where the vault is read and let through, both slots are unwrapped, the
    -- code is accepted, the password gives a key that the probe accepts, and the index opens under it.
    pub unlock_iff :
        (session : Session) (app' : App)
        → (unlock post env token password totp_code app ≡ (ok session, app'))
          ↔ IsUnlocked session app'
    unlock_iff session app' = (λ e. by_verdict e unlock-Verdict, forward)
      where
        by_verdict :
            unlock post env token password totp_code app ≡ (ok session, app')
            → Verdict (unlock post env token password totp_code app)
            → IsUnlocked session app'
        by_verdict e (refused x b r q) = absurd (ok≢err (sym e ∙ q))
        by_verdict e (not_unwrapped v x a q) = absurd (ok≢err (sym e ∙ q))
        by_verdict e (tried v k_hsm seed a u (wrong_code x w bad q)) = absurd (ok≢err (sym e ∙ q))
        by_verdict e (tried v k_hsm seed a u (not_derived w x good underived q)) =
            absurd (ok≢err (sym e ∙ q))
        by_verdict e (tried v k_hsm seed a u (wrong_key w k x good derived bad q)) =
            absurd (ok≢err (sym e ∙ q))
        by_verdict e (tried v k_hsm seed a u (tampered w k x good derived probe broken q)) =
            absurd (ok≢err (sym e ∙ q))
        by_verdict e (tried v k_hsm seed a u (unlocked w k index good derived probe opened q)) =
            record {
              v = v;
              k_hsm = k_hsm;
              seed = seed;
              w = w;
              k_master = k;
              index = index;
              admitted = a;
              unwrapped = u;
              code = good;
              derived = derived;
              probe = probe;
              opened = opened;
              session_built = ok-injective_session (ap (λ z. z.0) (sym e ∙ q));
              left = ap (λ z. z.1) (sym e ∙ q);
            }

        forward :
            IsUnlocked session app'
            → unlock post env token password totp_code app ≡ (ok session, app')
        forward s =
            unlock-unwrapped s.v s.k_hsm s.seed app s.admitted s.unwrapped
            ∙ authenticate-unlocked s.v s.k_hsm s.seed (merged s.v app) s.w s.k_master s.index
                s.code s.derived s.probe s.opened
            ∙ ap₂ (λ x y. (ok x, y)) (sym s.session_built) (sym s.left)
