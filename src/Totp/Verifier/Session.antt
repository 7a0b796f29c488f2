-- ===== src/Totp/Verifier/Session.antt =====
-- The life of one verifier (crates/passman-totp/src/verifier.rs): any attempts at it, in any order.
use passman.Prelude.{
  ℕ, ◌<◌, ◌^◌, ◌≡◌, refl, sym, ap, ◌∙◌, subst, List, [], ◌∷◌, Option, some, some-injective, ok, err,
  arith, le→leb,
}
use passman.Totp.{TotpError, replayed}
use passman.Totp.Hotp.{Hmac}
use passman.Totp.Verifier.{TotpVerifier, verify, accept, is_replay}
use passman.Totp.Verifier.Accept.{IsFresh, accepted, verify_iff, verify_refused, verify-accept}

-- Each step is behind the one before it, the first one behind the given one.
abbrev pub Ascending : Option ℕ → List ℕ → Type 0
Ascending last [] = Unit
Ascending last (step ∷ steps) = IsFresh last step × Ascending (some step) steps

again :
    (v : TotpVerifier) (step : ℕ)
    → accept (accepted v step) (some step) ≡ (err replayed, accepted v step)
unfolding accept is_replay
again v step = rw (le→leb step step (omega arith)) refl

module _ ⦃h : Hmac⦄ where
  -- Attempts at any seeds, codes and times, with the steps of those that are accepted.
  pub data Session : TotpVerifier → List ℕ → TotpVerifier → Type 0 where
    ended : (v : TotpVerifier) → Session v [] v
    refused :
        (v : TotpVerifier) (seed code : List ℕ) (now : ℕ) (e : TotpError) (v' v'' : TotpVerifier)
        (steps : List ℕ)
        → verify v seed code now ≡ (err e, v')
        → Session v' steps v''
        → Session v steps v''
    passed :
        (v : TotpVerifier) (seed code : List ℕ) (now step : ℕ) (v' v'' : TotpVerifier)
        (steps : List ℕ)
        → now < 2 ^ 64
        → verify v seed code now ≡ (ok tt, v')
        → v'.last_accepted_step ≡ some step
        → Session v' steps v''
        → Session v (step ∷ steps) v''

  -- While one verifier is kept, no time step is accepted twice, whatever the seeds, the codes and the
  -- times of the attempts, where those that are accepted have a time below 2 ^ 64: the accepted steps
  -- ascend, from behind the last step that the verifier held. A verifier that takes its place, as after a
  -- creation or an import in the same process, starts with no step.
  pub Session-Ascending :
      (v : TotpVerifier) (steps : List ℕ) (v' : TotpVerifier)
      → Session v steps v'
      → Ascending v.last_accepted_step steps
  Session-Ascending _ _ _ (ended v) = tt
  Session-Ascending _ _ _ (refused v seed code now e v' v'' steps failed rest) =
      subst (λ o. Ascending o steps)
        (ap (λ u. u.last_accepted_step) (verify_refused v seed code now e v' failed))
        (Session-Ascending v' steps v'' rest)
  Session-Ascending _ _ _ (passed v seed code now step v' v'' steps bound went at rest) =
      let a = (verify_iff v seed code now v' bound).0 went in
      let same : a.step ≡ step =
        some-injective _ _ (sym (ap (λ u. u.last_accepted_step) a.state) ∙ at) in
      (
        subst (IsFresh v.last_accepted_step) same a.fresh,
        subst (λ o. Ascending o steps) at (Session-Ascending v' steps v'' rest),
      )

  -- A code that was accepted is refused as a replay when it comes again at the same time.
  pub verify-replayed :
      (v : TotpVerifier) (seed code : List ℕ) (now : ℕ) (v' : TotpVerifier)
      → now < 2 ^ 64
      → verify v seed code now ≡ (ok tt, v')
      → verify v' seed code now ≡ (err replayed, v')
  verify-replayed v seed code now v' bound went =
      let a = (verify_iff v seed code now v' bound).0 went in
      subst (λ u. verify u seed code now ≡ (err replayed, u)) (sym a.state)
        (verify-accept (accepted v a.step) seed code now a.step bound a.last ∙ again v a.step)
