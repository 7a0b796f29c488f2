-- ===== src/Totp/Verifier.antt =====
-- crates/passman-totp/src/verifier.rs: RFC 6238 with a replay cache. A method on `&mut self` returns
-- the verifier after it beside its result.
pub mod Scan
pub mod Accept
pub mod Session
mod Examples
use passman.Prelude.{
  ℕ, zero, suc, ◌+◌, ◌-◌, ◌/◌, ◌^◌, min, max, List, [], ◌∷◌, Option, none, some, Bool, true, false,
  not, ◌&&◌, Result, ok, err, guard, ◌>>=◌, ◌>>◌, length, ltb, leb, ◌==◌, if◌then◌else◌,
}
use passman.Crypto.Aead.{ct_eq}
use passman.Totp.{TotpError, malformed_code, replayed, rejected, TotpConfig}
use passman.Totp.Hotp.{Hmac, hotp_value, format_padded, is_ascii_digit}

unfoldable pub current_step : ℕ → ℕ → ℕ
current_step ts period = ts / max period 1

pub record TotpVerifier : Type 0 where
  pub config : TotpConfig
  pub last_accepted_step : Option ℕ

unfoldable pub new : TotpConfig → TotpVerifier
new config = record { config = config; last_accepted_step = none }

unfoldable pub all_digits : List ℕ → Bool
all_digits [] = true
all_digits (b ∷ bs) = is_ascii_digit b && all_digits bs

unfoldable pub parse_code : List ℕ → ℕ → Result TotpError (List ℕ)
unfolding all_digits
parse_code code digits = do
  guard (length code == digits) malformed_code
  guard (all_digits code) malformed_code
  ok code

-- `saturating_sub` and `saturating_add` on u64.
unfoldable pub first_step : TotpConfig → ℕ → ℕ
first_step c now = current_step now c.period - c.skew_steps

unfoldable pub last_step : TotpConfig → ℕ → ℕ
last_step c now = min (current_step now c.period + c.skew_steps) (2 ^ 64 - 1)

-- `is_some_and(|last| step <= last)`
unfoldable pub is_replay : Option ℕ → ℕ → Bool
is_replay none step = false
is_replay (some last) step = leb step last

unfoldable pub accept : TotpVerifier → Option ℕ → Result TotpError (Unit {0}) × TotpVerifier
accept v none = (err rejected, v)
accept v (some step) =
    if is_replay v.last_accepted_step step
    then (err replayed, v)
    else (ok tt, record v { last_accepted_step = some step })

module _ ⦃h : Hmac⦄ where
  -- The code of a step.
  unfoldable pub expected : TotpConfig → List ℕ → ℕ → List ℕ
  expected c seed step = format_padded (hotp_value c.algorithm seed step c.digits) c.digits

  -- The loop over `first..=last`: the last step that matches.
  unfoldable pub scan : TotpConfig → List ℕ → List ℕ → ℕ → ℕ → Option ℕ → Option ℕ
  scan c seed candidate zero step matched = matched
  scan c seed candidate (suc n) step matched =
      scan c seed candidate n (suc step)
        (if ct_eq candidate (expected c seed step) then some step else matched)

  unfoldable pub verify_parsed :
      TotpVerifier
      → List ℕ
      → ℕ
      → Result TotpError (List ℕ)
      → Result TotpError (Unit {0}) × TotpVerifier
  verify_parsed v seed now (err e) = (err e, v)
  verify_parsed v seed now (ok candidate) =
      let first = first_step v.config now in
      let last = last_step v.config now in
      accept v (scan v.config seed candidate (suc last - first) first none)

  unfoldable pub verify :
      TotpVerifier → List ℕ → List ℕ → ℕ → Result TotpError (Unit {0}) × TotpVerifier
  unfolding verify_parsed accept parse_code
  verify v seed code now = verify_parsed v seed now (parse_code code v.config.digits)
