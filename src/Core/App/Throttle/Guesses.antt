-- ===== src/Core/App/Throttle/Guesses.antt =====
-- Guesses at the credentials, one after another (crates/passman-core/src/app.rs).
use passman.Prelude.{
  ℕ, suc, ◌+◌, ◌-◌, ◌^◌, ◌<◌, ◌≤◌, ◌≡◌, ◌≢◌, min, refl, sym, ap, subst, ◌∙◌, List, some, Result, ok,
  err, arith, inl, inr, ◌⊎◌,
}
use passman.Crypto.{Primitives}
use passman.Hsm.{vault_key}
use passman.Totp.Hotp.{Hmac}
use passman.Vault.{Vault, IsVault}
use passman.Vault.Format
use passman.Vault.Postcard.{Postcard}
use passman.Core.Error.{CoreError, UnlockError, bad_credentials}
use passman.Core.Storage.{File}
use passman.Core.App.{App, Env}
use passman.Core.App.Keys.{unwrap_blob, derive_master_from_bytes}
use passman.Core.App.Failures.{put_verifier, record_failure}
use passman.Core.App.Unlock.{unlock}
use passman.Core.App.Unlock.Admission.{IsAdmitted, malformed, Refuses, merged}
use passman.Core.App.Unlock.Verdict.{
  Ends, wrong_code, not_derived, wrong_key, tampered, unlocked, Verdict, refused, not_unwrapped,
  tried, unlock-Verdict,
}
use passman.Core.Error
use passman.Core.App.Throttle.{
  Since, Counts, no_faults, restart, still_locked, recorded, same_vault, merged_counter,
  merged_last, same_pair, not_both, refusal-ne, map_hsm_unlock-ne,
}

moved : {n t : ℕ} {app app' : App} → app'.disk ≡ app.disk → Counts n t app → Counts n t app'
moved d k = record {
  file = k.file;
  v = k.v;
  target = ap (λ z. z.target) d ∙ k.target;
  parsed = k.parsed;
  valid = k.valid;
  count = k.count;
  last = k.last;
}

module _ ⦃p : Primitives⦄ ⦃h : Hmac⦄ (post : Postcard) where
  -- Where the key of a vault that is let through is derived, whatever the password.
  abbrev pub Derives : Env → App → Type 0
  Derives env app =
      (v : Vault) (password k_hsm : List ℕ)
      → IsAdmitted env app v
      → unwrap_blob env vault_key v.k_hsm_wrap_blob ≡ ok k_hsm
      → (k : List ℕ) × (derive_master_from_bytes env password v.salt v.kdf_params k_hsm ≡ ok k)

  -- Attempts that fail, and restarts, from one state to another: how many were answered by bad
  -- credentials, and when the last of those was made.
  pub data Attempts (start : App) : ℕ → ℕ → App → Type 0 where
    none_yet : Attempts start 0 0 start
    guessed :
        {n t : ℕ} {app app' : App} (env : Env) (token password code : List ℕ)
        → Attempts start n t app
        → env.faults ≡ no_faults
        → env.now < 2 ^ 62
        → Derives env app
        → unlock post env token password code app ≡ (err bad_credentials, app')
        → Attempts start (suc n) env.now app'
    turned_away :
        {n t : ℕ} {app app' : App} (env : Env) (token password code : List ℕ) (e : UnlockError)
        → Attempts start n t app
        → e ≢ bad_credentials
        → unlock post env token password code app ≡ (err e, app')
        → Attempts start n t app'
    restarted : {n t : ℕ} {app : App} → Attempts start n t app → Attempts start n t (restart app)

  derived_failed :
      {r : Result CoreError (List ℕ)} {x : CoreError} → (k : List ℕ) × (r ≡ ok k) → r ≡ err x → ⊥
  derived_failed (k, e) f = cc

  guess-Counts :
      (env : Env) (token password code : List ℕ) (n t : ℕ) (app app' : App)
      → Counts n t app
      → env.faults ≡ no_faults
      → env.now < 2 ^ 62
      → Derives env app
      → unlock post env token password code app ≡ (err bad_credentials, app')
      → Counts (suc n) env.now app'
  guess-Counts env token password code n t app app' c fine early derives e =
      by_verdict (unlock-Verdict post env token password code app)
    where
      counted :
          (v : Vault)
          → IsAdmitted env app v
          → (w : App) → record_failure env v (merged v app).lockout_mem w ≡ app'
          → Counts (suc n) env.now app'
      counted v a w same =
          let here = same_vault env n t app v c a in
          recorded env v (merged v app).lockout_mem w app' n fine early (subst IsVault here c.valid)
            (merged_counter v app.lockout_mem _
              (subst (λ z. min n (2 ^ 64 - 1) ≤ z.rl_counter) here c.count))
            (sym same)

      by_verdict :
          Verdict post env token password code app (unlock post env token password code app)
          → Counts (suc n) env.now app'
      by_verdict (refused x b r same) =
          absurd (refusal-ne x r.refusal (same_pair x bad_credentials b app' same e).0)
      by_verdict (not_unwrapped v x a same) =
          absurd (map_hsm_unlock-ne x (same_pair _ bad_credentials _ app' same e).0)
      by_verdict (tried v k_hsm seed a u ends) = by_ends ends
        where
          by_ends :
              Ends post env token password code v k_hsm seed
                (merged v app)
                (unlock post env token password code app)
              → Counts (suc n) env.now app'
          by_ends (wrong_code x w bad same) =
              counted v a (put_verifier w (merged v app))
                (same_pair bad_credentials bad_credentials _ app' same e).1
          by_ends (not_derived w x good underived same) =
              absurd (derived_failed (derives v password k_hsm a u.key) underived)
          by_ends (wrong_key w k x good derived other same) =
              counted v a (put_verifier w (merged v app))
                (same_pair bad_credentials bad_credentials _ app' same e).1
          by_ends (tampered w k x good derived probe broken same) = absurd (
              refusal-ne _ (malformed (Error.vault x))
                (same_pair _ bad_credentials _ app' same e).0)
          by_ends (unlocked w k index good derived probe opened same) =
              absurd (not_both bad_credentials _ app' _ e same)

  -- A failure that is no guess leaves the vault's file.
  turned_away-disk :
      (env : Env) (token password code : List ℕ) (e : UnlockError) (app app' : App)
      → e ≢ bad_credentials
      → unlock post env token password code app ≡ (err e, app')
      → app'.disk ≡ app.disk
  turned_away-disk env token password code e app app' other same =
      by_verdict (unlock-Verdict post env token password code app)
    where
      to :
          (x : UnlockError) (b : App)
          → unlock post env token password code app ≡ (err x, b)
          → b.disk ≡ app.disk
          → app'.disk ≡ app.disk
      to x b q d = ap (λ z. z.disk) (same_pair e x app' b same q).1 ∙ d

      no_guess : {b : App} → unlock post env token password code app ≡ (err bad_credentials, b) → ⊥
      no_guess {b} q = other (same_pair e bad_credentials app' b same q).0

      by_verdict :
          Verdict post env token password code app (unlock post env token password code app)
          → app'.disk ≡ app.disk
      by_verdict (refused x b r q) = to x b q r.disk
      by_verdict (not_unwrapped v x a q) = to _ _ q refl
      by_verdict (tried v k_hsm seed a u (wrong_code x w bad q)) = absurd (no_guess q)
      by_verdict (tried v k_hsm seed a u (not_derived w x good underived q)) = absurd (no_guess q)
      by_verdict (tried v k_hsm seed a u (wrong_key w k x good derived bad q)) = absurd (no_guess q)
      by_verdict (tried v k_hsm seed a u (tampered w k x good derived probe broken q)) =
          to _ _ q refl
      by_verdict (tried v k_hsm seed a u (unlocked w k index good derived probe opened q)) =
          absurd (not_both e _ app' _ same q)

  Attempts-Counts :
      {start : App} {n t : ℕ} {app : App}
      → Counts 0 0 start
      → Attempts start n t app
      → Counts n t app
  Attempts-Counts c none_yet = c
  Attempts-Counts c (guessed env token password code before fine early derives e) =
      guess-Counts env token password code _ _ _ _ (Attempts-Counts c before) fine early derives e
  Attempts-Counts c (turned_away env token password code x before other e) =
      moved (turned_away-disk env token password code x _ _ other e) (Attempts-Counts c before)
  Attempts-Counts c (restarted before) = moved refl (Attempts-Counts c before)

  -- After three guesses or more on a well-formed vault, the last one at a clock above 0, each attempt
  -- before ten minutes after the last guess, or with the clock moved back behind it, is refused before a
  -- slot is unwrapped, a code is checked or a key is derived, whatever the password and the code, and the
  -- vault's file stays; restarts between the guesses do not help. A guess is an attempt that was answered
  -- by bad credentials, where no file operation failed, the key was derived, and the clock was below
  -- 2 ^ 62. A guess at the clock 0 is stored as no failure, so that nothing is claimed after one.
  pub Attempts-throttled :
      (start app : App) (n t : ℕ) (env : Env) (token password code : List ℕ) (file : File)
      (v : Vault)
      → start.disk.target ≡ some file
      → Format.from_bytes file.bytes ≡ ok v
      → IsVault v
      → Attempts start n t app
      → 3 ≤ n
      → 0 < t
      → t < 2 ^ 62
      → env.now < t + 600
      → (e : UnlockError) × (app' : App) × (unlock post env token password code app ≡ (err e, app'))
        × Refuses app e app'
  Attempts-throttled start app n t env token password code file v target parsed valid attempts three
        some_time early soon =
      by_verdict (unlock-Verdict post env token password code app)
    where
      c : Counts n t app
      c =
          Attempts-Counts
            (record {
              file = file;
              v = v;
              target = target;
              parsed = parsed;
              valid = valid;
              count = omega arith;
              last = inl refl;
            })
            attempts

      since : (n ≡ 0) ⊎ Since t c.v.rl_last_failure → Since t c.v.rl_last_failure
      since (inl z) = absurd (omega arith)
      since (inr h) = h

      closed : (w : Vault) → IsAdmitted env app w → ⊥
      closed w a =
          let here = same_vault env n t app w c a in
          still_locked (merged w app).lockout_mem t env.now
            (merged_counter w app.lockout_mem 3
              (omega (arith, subst (λ z. min n (2 ^ 64 - 1) ≤ z.rl_counter) here c.count)))
            (merged_last w app.lockout_mem t
              (subst (λ z. Since t z.rl_last_failure) here (since c.last)))
            some_time early soon a.advisory

      by_verdict :
          Verdict post env token password code app (unlock post env token password code app)
          → (e : UnlockError) × (app' : App) × (unlock post env token password code app
              ≡ (err e, app'))
            × Refuses app e app'
      by_verdict (refused x b r q) = (x, b, q, r)
      by_verdict (not_unwrapped w x a q) = absurd (closed w a)
      by_verdict (tried w k_hsm seed a u ends) = absurd (closed w a)
