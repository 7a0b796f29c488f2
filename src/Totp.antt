-- ===== src/Totp.antt =====
-- crates/passman-totp: the second factor. Its errors and configuration (config.rs) are here; a
-- timestamp is whole seconds (time.rs).
pub mod Hotp
pub mod Verifier
use passman.Prelude.{
  ℕ, ◌<◌, ◌≤◌, ◌^◌, ◌≡◌, String, List, Bool, not, ◌&&◌, Result, ok, err, ◌>>=◌, ◌>>◌, guard, leb,
  ◌==◌, arith,
}

pub data TotpError : Type 0 where
  invalid_config : String → TotpError
  malformed_code : TotpError
  replayed : TotpError
  rejected : TotpError
  clock_before_epoch : TotpError

pub data TotpAlgorithm : Type 0 where
  sha1 sha256 sha512 : TotpAlgorithm

abbrev pub min_digits : ℕ
min_digits = 6

abbrev pub max_digits : ℕ
max_digits = 8

pub record TotpConfig : Type 0 where
  pub algorithm : TotpAlgorithm
  pub digits : ℕ
  pub period : ℕ
  pub skew_steps : ℕ

unfoldable pub new_config : TotpAlgorithm → ℕ → ℕ → ℕ → Result TotpError TotpConfig
new_config algorithm digits period skew_steps = do
  guard (leb min_digits digits && leb digits max_digits) (invalid_config "digits must be in 6..=8")
  guard (not (period == 0)) (invalid_config "period must be greater than 0")
  ok (record { algorithm = algorithm; digits = digits; period = period; skew_steps = skew_steps })

abbrev pub default_config : TotpConfig
default_config = record { algorithm = sha1; digits = 6; period = 30; skew_steps = 1 }

-- What `new` has seen to.
pub record IsConfig (c : TotpConfig) : Type 0 where
  pub wide : 6 ≤ c.digits
  pub narrow : c.digits ≤ 8
  pub period : 0 < c.period

pub new_config-IsConfig :
    (algorithm : TotpAlgorithm) (digits period skew_steps : ℕ) (c : TotpConfig)
    → new_config algorithm digits period skew_steps ≡ ok c
    → IsConfig c
unfolding new_config
new_config-IsConfig algorithm digits period skew_steps c e = ground arith
