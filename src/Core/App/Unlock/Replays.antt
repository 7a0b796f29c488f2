-- ===== src/Core/App/Unlock/Replays.antt =====
-- The codes that the unlocks of one process accept (crates/passman-core/src/app.rs).
use passman.Prelude.{
  ℕ, ◌<◌, ◌≤◌, ◌^◌, ◌≡◌, refl, sym, ap, subst, ◌∙◌, List, [], ◌∷◌, Option, none, some, Result, ok,
  err, arith,
}
use passman.Crypto.{Primitives}
use passman.Totp.{TotpError}
use passman.Totp.Hotp.{Hmac}
use passman.Totp.Verifier.{TotpVerifier}
use passman.Totp.Verifier
use passman.Totp.Verifier.Accept.{IsFresh, verify_iff, verify_refused}
use passman.Vault.{Vault}
use passman.Vault.Postcard.{Postcard}
use passman.Core.Error.{UnlockError}
use passman.Core.Lockout.{LockoutState}
use passman.Core.App.{App, Env, Session}
use passman.Core.App.Failures.{
  verifier_or, put_verifier, record_failure, save_quietly, clear_failures,
}
use passman.Core.App.Unlock.{unlock}
use passman.Core.App.Unlock.Admission.{merged}
use passman.Core.App.Unlock.Verdict.{
  checked, wrong_code, not_derived, wrong_key, tampered, unlocked, Verdict, refused, not_unwrapped,
  tried, unlock-Verdict, unlock_iff,
}

-- The last step that the process has accepted, where it has a verifier.
abbrev pub accepted_step : App → Option ℕ
accepted_step app = elim app.verifier [ none ↦ none | some v ↦ v.last_accepted_step ]

-- The second is not behind the first.
abbrev pub Reaches : Option ℕ → Option ℕ → Type 0
Reaches none o = Unit
Reaches (some a) none = ⊥
Reaches (some a) (some b) = a ≤ b

Reaches-refl : (o : Option ℕ) → Reaches o o
Reaches-refl none = tt
Reaches-refl (some a) = omega arith

fresh-Reaches : (o : Option ℕ) (step : ℕ) → IsFresh o step → Reaches o (some step)
fresh-Reaches none step h = tt
fresh-Reaches (some a) step h = omega arith

-- Each unlock has left a step, which is behind the one that the unlock before it has left, the first one
-- behind the given one.
abbrev pub Ascends : Option ℕ → List (Option ℕ) → Type 0
Ascends last [] = Unit
Ascends last (none ∷ steps) = ⊥
Ascends last (some step ∷ steps) = IsFresh last step × Ascends (some step) steps

Reaches-Ascends :
    (o o' : Option ℕ) (steps : List (Option ℕ)) → Reaches o o' → Ascends o' steps → Ascends o steps
Reaches-Ascends o o' [] r h = tt
Reaches-Ascends o o' (none ∷ steps) r h = absurd h
Reaches-Ascends none o' (some step ∷ steps) r h = (tt, h.1)
Reaches-Ascends (some a) none (some step ∷ steps) r h = absurd r
Reaches-Ascends (some a) (some b) (some step ∷ steps) r h = (omega (arith, r, h.0), h.1)

kept-step :
    (app : App) → (verifier_or app.totp_config app.verifier).last_accepted_step ≡ accepted_step app
unfolding verifier_or Verifier.new
kept-step app = by_verifier app.verifier
  where
    by_verifier :
        (o : Option TotpVerifier)
        → (verifier_or app.totp_config o).last_accepted_step
          ≡ elim o [ none ↦ none | some v ↦ v.last_accepted_step ]
    by_verifier none = refl
    by_verifier (some v) = refl

record_failure-step :
    (env : Env) (v : Vault) (s : LockoutState) (app : App)
    → accepted_step (record_failure env v s app) ≡ accepted_step app
unfolding record_failure save_quietly
record_failure-step env v s app = refl

clear_failures-step :
    (env : Env) (v : Vault) (app : App)
    → accepted_step (clear_failures env v app) ≡ accepted_step app
unfolding clear_failures save_quietly
clear_failures-step env v app = ground arith

module _ ⦃p : Primitives⦄ ⦃h : Hmac⦄ (post : Postcard) where
  -- Unlocks of one process, that succeed or fail, and whatever is done between them that does
  -- not take the verifier back, with the last accepted step that each success leaves.
  pub data Unlocks : App → List (Option ℕ) → App → Type 0 where
    ended : (app : App) → Unlocks app [] app
    between :
        (app app' app'' : App) (steps : List (Option ℕ))
        → Reaches (accepted_step app) (accepted_step app')
        → Unlocks app' steps app''
        → Unlocks app steps app''
    failed :
        (env : Env) (token password code : List ℕ) (e : UnlockError) (app app' app'' : App)
        (steps : List (Option ℕ))
        → env.totp_now < 2 ^ 64
        → unlock post env token password code app ≡ (err e, app')
        → Unlocks app' steps app''
        → Unlocks app steps app''
    passed :
        (env : Env) (token password code : List ℕ) (session : Session) (app app' app'' : App)
        (steps : List (Option ℕ))
        → env.totp_now < 2 ^ 64
        → unlock post env token password code app ≡ (ok session, app')
        → Unlocks app' steps app''
        → Unlocks app (accepted_step app' ∷ steps) app''

  module _ (env : Env) (token password code : List ℕ) (app : App)
      (bound : env.totp_now < 2 ^ 64) where
    checked-err :
        (v : Vault) (k_hsm seed : List ℕ) (e : TotpError) (w : TotpVerifier)
        → checked post env token password code v k_hsm seed (merged v app) ≡ (err e, w)
        → w.last_accepted_step ≡ accepted_step app
    checked-err v k_hsm seed e w bad =
        ap (λ u. u.last_accepted_step) (verify_refused _ seed code env.totp_now e w bad)
        ∙ kept-step app

    checked-ok :
        (v : Vault) (k_hsm seed : List ℕ) (w : TotpVerifier)
        → checked post env token password code v k_hsm seed (merged v app) ≡ (ok tt, w)
        → (step : ℕ) × IsFresh (accepted_step app) step × (w.last_accepted_step ≡ some step)
    checked-ok v k_hsm seed w good =
        let a = (verify_iff _ seed code env.totp_now w bound).0 good in
        (
          a.step,
          subst (λ o. IsFresh o a.step) (kept-step app) a.fresh,
          ap (λ u. u.last_accepted_step) a.state,
        )

    -- An unlock never goes back.
    unlock-Reaches :
        (r : Result UnlockError Session) (app' : App)
        → unlock post env token password code app ≡ (r, app')
        → Reaches (accepted_step app) (accepted_step app')
    unlock-Reaches r app' same = by_verdict (unlock-Verdict post env token password code app)
      where
        at :
            (b : App) (x : Result UnlockError Session)
            → unlock post env token password code app ≡ (x, b)
            → Reaches (accepted_step app) (accepted_step b)
            → Reaches (accepted_step app) (accepted_step app')
        at b x q =
            subst (λ z. Reaches (accepted_step app) (accepted_step z))
              (ap (λ z. z.1) (sym q ∙ same))

        went :
            (v : Vault) (k_hsm seed : List ℕ) (w : TotpVerifier)
            → checked post env token password code v k_hsm seed (merged v app) ≡ (ok tt, w)
            → Reaches (accepted_step app) w.last_accepted_step
        went v k_hsm seed w good =
            let (step, fresh, there) = checked-ok v k_hsm seed w good in
            subst (Reaches (accepted_step app)) (sym there)
              (fresh-Reaches (accepted_step app) step fresh)

        by_verdict :
            Verdict post env token password code app (unlock post env token password code app)
            → Reaches (accepted_step app) (accepted_step app')
        by_verdict (refused x b z q) = at b _ q (
            subst
              (λ o.
                Reaches (accepted_step app)
                  (elim o [ none ↦ none | some v ↦ v.last_accepted_step ]))
              (sym z.verifier) (Reaches-refl (accepted_step app)))
        by_verdict (not_unwrapped v x a q) = at _ _ q (Reaches-refl (accepted_step app))
        by_verdict (tried v k_hsm seed a u (wrong_code x w bad q)) = at _ _ q (
            subst (Reaches (accepted_step app))
              (sym (checked-err v k_hsm seed x w bad)
                ∙ sym (
                    record_failure-step env v (merged v app).lockout_mem
                      (put_verifier w (merged v app))))
              (Reaches-refl (accepted_step app)))
        by_verdict (tried v k_hsm seed a u (not_derived w x good underived q)) =
            at _ _ q (went v k_hsm seed w good)
        by_verdict (tried v k_hsm seed a u (wrong_key w k x good derived bad q)) = at _ _ q (
            subst (Reaches (accepted_step app))
              (sym (
                record_failure-step env v (merged v app).lockout_mem
                  (put_verifier w (merged v app))))
              (went v k_hsm seed w good))
        by_verdict (tried v k_hsm seed a u (tampered w k x good derived probe broken q)) =
            at _ _ q (went v k_hsm seed w good)
        by_verdict (tried v k_hsm seed a u (unlocked w k index good derived probe opened q)) =
            at _ _ q (
              subst (Reaches (accepted_step app))
                (sym (clear_failures-step env v (put_verifier w (merged v app))))
                (went v k_hsm seed w good))

    -- One that succeeds moves on.
    unlock-fresh :
        (session : Session) (app' : App)
        → unlock post env token password code app ≡ (ok session, app')
        → (step : ℕ) × IsFresh (accepted_step app) step × (accepted_step app' ≡ some step)
    unlock-fresh session app' same =
        let s = (unlock_iff post env token password code app session app').0 same in
        let (step, fresh, last) = checked-ok s.v s.k_hsm s.seed s.w s.code in
        (
          step,
          fresh,
          ap (λ z. accepted_step z) s.left
              ∙ clear_failures-step env s.v (put_verifier s.w (merged s.v app))
              ∙ last,
        )

  moved_on :
      (last o : Option ℕ) (step : ℕ) (steps : List (Option ℕ))
      → IsFresh last step
      → o ≡ some step
      → Ascends o steps
      → Ascends last (o ∷ steps)
  moved_on last o step steps fresh there rest =
      subst (λ z. Ascends last (z ∷ steps)) (sym there)
        (fresh, subst (λ z. Ascends z steps) there rest)

  -- In one process, no time step unlocks twice, whatever the passwords, the codes and the failures, and
  -- whatever is done between the unlocks that does not take the verifier back, as a creation or an import
  -- of a vault does, where the clock of each attempt is below 2 ^ 64: each unlock that succeeds leaves an
  -- accepted step, and these ascend, from behind the last step that was accepted before.
  pub Unlocks-Ascends :
      (app : App) (steps : List (Option ℕ)) (app' : App)
      → Unlocks app steps app'
      → Ascends (accepted_step app) steps
  Unlocks-Ascends _ _ _ (ended app) = tt
  Unlocks-Ascends _ _ _ (between app app' app'' steps later rest) =
      Reaches-Ascends (accepted_step app) (accepted_step app') steps later
        (Unlocks-Ascends app' steps app'' rest)
  Unlocks-Ascends _ _ _ (failed env token password code e app app' app'' steps bound same rest) =
      Reaches-Ascends (accepted_step app) (accepted_step app') steps
        (unlock-Reaches env token password code app bound (err e) app' same)
        (Unlocks-Ascends app' steps app'' rest)
  Unlocks-Ascends _ _ _
        (passed env token password code session app app' app'' steps bound same rest) =
      let (step, fresh, there) = unlock-fresh env token password code app bound session app' same in
      moved_on (accepted_step app) (accepted_step app') step steps fresh there
        (Unlocks-Ascends app' steps app'' rest)
