-- ===== src/Core/Error.antt =====
-- crates/passman-core/src/error.rs. The `From` conversions are the constructors.
use passman.Prelude.{ℕ, String}
use passman.Crypto.{CryptoError}
use passman.Hsm.{HsmError}
use passman.Policy.Generate.{PolicyError}
use passman.Recovery.{RecoveryError}
use passman.Vault.{VaultError}

pub data CoreError : Type 0 where
  already_running locked weak_password_for_export software_hsm_refused : CoreError
  -- The context names the step that failed.
  io : String → CoreError
  vault : VaultError → CoreError
  hsm : HsmError → CoreError
  recovery : RecoveryError → CoreError
  policy : PolicyError → CoreError
  crypto : CryptoError → CoreError

pub data UnlockError : Type 0 where
  cancelled retryable route_to_recovery bad_credentials : UnlockError
  -- The remaining seconds.
  locked_out : ℕ → UnlockError
  hsm_failed : HsmError → UnlockError
  malformed_vault : CoreError → UnlockError
  software_refused : UnlockError
