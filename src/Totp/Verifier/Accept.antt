-- ===== src/Totp/Verifier/Accept.antt =====
-- When `verify` of crates/passman-totp/src/verifier.rs accepts, and what it leaves in the cache.
use passman.Prelude.{
  ℕ, suc, ◌+◌, ◌-◌, ◌^◌, ◌<◌, ◌≡◌, ◌↔◌, max, refl, sym, ap, ◌∙◌, subst, List, [], ◌∷◌, Option, none,
  some, true, false, ok, err, arith, length, eq→==, Bool-cases, Result-cases, inl, inr,
}
use native.Mathlib.Nat.{div-le_self, mod-lt, one-le-pow}
use passman.Totp.{TotpError, TotpConfig}
use passman.Totp.Hotp.{Hmac, hotp_value, format_padded_lem, IsDigits}
use passman.Totp.Verifier.{
  TotpVerifier, current_step, all_digits, parse_code, first_step, last_step, expected, is_replay,
  accept, verify_parsed, verify,
}
use passman.Totp.Verifier.Scan.{IsLast, Matches, scan_iff}

-- A step that is behind the last accepted one.
abbrev pub IsFresh : Option ℕ → ℕ → Type 0
IsFresh none step = Unit
IsFresh (some last) step = last < step

all_digits-IsDigits : (code : List ℕ) → IsDigits code → all_digits code ≡ true
unfolding all_digits
all_digits-IsDigits [] h = refl
all_digits-IsDigits (b ∷ bs) (h, hs) = rw h (all_digits-IsDigits bs hs)

fresh : (o : Option ℕ) (step : ℕ) → is_replay o step ≡ false → IsFresh o step
unfolding is_replay
fresh none step e = tt
fresh (some last) step e = ground arith

not_replay : (o : Option ℕ) (step : ℕ) → IsFresh o step → is_replay o step ≡ false
unfolding is_replay
not_replay none step h = refl
not_replay (some last) step h = ground arith

window_size :
    (c : TotpConfig) (now : ℕ)
    → now < 2 ^ 64
    → first_step c now + (suc (last_step c now) - first_step c now) ≡ suc (last_step c now)
unfolding first_step last_step current_step
window_size c now h = omega (arith, div-le_self now (max c.period 1))

-- The state that accepting a step leaves.
abbrev pub accepted : TotpVerifier → ℕ → TotpVerifier
accepted v step = record v { last_accepted_step = some step }

accept-ok :
    (v : TotpVerifier) (o : Option ℕ) (v' : TotpVerifier)
    → accept v o ≡ (ok tt, v')
    → (step : ℕ) × (o ≡ some step) × IsFresh v.last_accepted_step step × (v' ≡ accepted v step)
unfolding accept
accept-ok v none v' e = cc (ap (λ p. p.0) e)
accept-ok v (some step) v' e = elim (Bool-cases (is_replay v.last_accepted_step step)) [
  | inl r ↦ cc (ap (λ p. p.0) (rw r at e))
  | inr r ↦ (step, refl, fresh v.last_accepted_step step r, sym (ap (λ p. p.1) (rw r at e)))
]

accept-fresh :
    (v : TotpVerifier) (step : ℕ)
    → IsFresh v.last_accepted_step step
    → accept v (some step) ≡ (ok tt, accepted v step)
unfolding accept
accept-fresh v step h = rw (not_replay v.last_accepted_step step h) refl

parsed_ok :
    (code : List ℕ) (digits : ℕ) (candidate : List ℕ)
    → parse_code code digits ≡ ok candidate
    → candidate ≡ code
unfolding parse_code
parsed_ok code digits candidate e = ground arith

accept-err :
    (v : TotpVerifier) (o : Option ℕ) (e : TotpError) (v' : TotpVerifier)
    → accept v o ≡ (err e, v')
    → v' ≡ v
unfolding accept
accept-err v none e v' h = sym (ap (λ p. p.1) h)
accept-err v (some step) e v' h = elim (Bool-cases (is_replay v.last_accepted_step step)) [
  | inl r ↦ sym (ap (λ p. p.1) (rw r at h))
  | inr r ↦ cc (ap (λ p. p.0) (rw r at h))
]

module _ ⦃h : Hmac⦄ where
  parse_code-expected :
      (c : TotpConfig) (seed code : List ℕ) (step : ℕ)
      → Matches c seed code step
      → parse_code code c.digits ≡ ok code
  unfolding parse_code expected hotp_value
  parse_code-expected c seed code step m =
      let value = hotp_value c.algorithm seed step c.digits in
      let small : value < 10 ^ c.digits = mod-lt _ (one-le-pow c.digits 10 (omega arith)) in
      let (len, digits, _) = format_padded_lem value c.digits small in
      rw (eq→== (length code) c.digits (ap length m ∙ len))
        (rw (all_digits-IsDigits code (subst IsDigits (sym m) digits)) refl)

  -- The step that a code was accepted at: the last one in the window with that code, and behind the
  -- last accepted one.
  pub record IsAccepted (v : TotpVerifier) (seed code : List ℕ) (now : ℕ) (v' : TotpVerifier)
      : Type 0 where
    pub step : ℕ
    pub last :
        IsLast v.config seed code (first_step v.config now) (suc (last_step v.config now)) step
    pub fresh : IsFresh v.last_accepted_step step
    pub state : v' ≡ accepted v step

  parsed-IsAccepted :
      (v : TotpVerifier) (seed code : List ℕ) (now : ℕ) (v' : TotpVerifier)
      → now < 2 ^ 64
      → verify_parsed v seed now (ok code) ≡ (ok tt, v')
      → IsAccepted v seed code now v'
  unfolding verify_parsed
  parsed-IsAccepted v seed code now v' bound e =
      let (step, found, behind, state) = accept-ok v _ v' e in
      record {
        step = step;
        last =
            subst (λ n. IsLast v.config seed code (first_step v.config now) n step)
              (window_size v.config now bound)
              ((scan_iff v.config seed code _ (first_step v.config now) step).0 found);
        fresh = behind;
        state = state;
      }

  -- The code of a step in the window is accepted or a replay, by the cache alone.
  pub verify-accept :
      (v : TotpVerifier) (seed code : List ℕ) (now step : ℕ)
      → now < 2 ^ 64
      → IsLast v.config seed code (first_step v.config now) (suc (last_step v.config now)) step
      → verify v seed code now ≡ accept v (some step)
  unfolding verify verify_parsed
  verify-accept v seed code now step bound l =
      rw (parse_code-expected v.config seed code step l.code) (
        rw
          ((scan_iff v.config seed code (suc (last_step v.config now) - first_step v.config now)
              (first_step v.config now) step).1
            (subst (λ n. IsLast v.config seed code (first_step v.config now) n step)
              (sym (window_size v.config now bound)) l))
          refl)

  -- `verify` accepts a code exactly where it is the code of a step within the skew of the current one,
  -- and the last such step is behind the last accepted step; that step is then the last accepted.
  pub verify_iff :
      (v : TotpVerifier) (seed code : List ℕ) (now : ℕ) (v' : TotpVerifier)
      → now < 2 ^ 64
      → (verify v seed code now ≡ (ok tt, v')) ↔ IsAccepted v seed code now v'
  unfolding verify
  verify_iff v seed code now v' bound = (
    λ e. elim (Result-cases (parse_code code v.config.digits)) [
      | inl (candidate, parsed) ↦
          from_parsed candidate (parsed_ok code v.config.digits candidate parsed) (rw parsed at e)
      | inr (x, failed) ↦ cc (ap (λ p. p.0) (unfold verify_parsed in rw failed at e))
    ],
    λ a.
        verify-accept v seed code now a.step bound a.last
        ∙ accept-fresh v a.step a.fresh
        ∙ ap (λ u. (ok tt, u)) (sym a.state),
  )
    where
      from_parsed :
          (candidate : List ℕ)
          → candidate ≡ code
          → verify_parsed v seed now (ok candidate) ≡ (ok tt, v')
          → IsAccepted v seed code now v'
      from_parsed candidate same e =
          parsed-IsAccepted v seed code now v' bound
            (subst (λ z. verify_parsed v seed now (ok z) ≡ (ok tt, v')) same e)

  -- A code that is not accepted leaves the verifier as it was.
  pub verify_refused :
      (v : TotpVerifier) (seed code : List ℕ) (now : ℕ) (e : TotpError) (v' : TotpVerifier)
      → verify v seed code now ≡ (err e, v')
      → v' ≡ v
  unfolding verify
  verify_refused v seed code now e v' h = elim (Result-cases (parse_code code v.config.digits)) [
    | inl (candidate, parsed) ↦ accept-err v _ e v' (unfold verify_parsed in rw parsed at h)
    | inr (x, failed) ↦ sym (ap (λ p. p.1) (unfold verify_parsed in rw failed at h))
  ]
