-- ===== src/Hsm.antt =====
-- crates/passman-hsm: the interface of a hardware key store (error.rs, slot.rs, capabilities.rs,
-- prompt.rs, store.rs and handle.rs). The children are blob.rs and mock.rs.
pub mod Blob
pub mod Mock
mod Examples
use passman.Prelude.{ℕ, String, List, Option, Bool, Result, ok, err, ◌==◌, if◌then◌else◌}

pub data HsmError : Type 0 where
  transient cancelled hardware_absent permanently_invalidated : HsmError
  malformed_blob : String → HsmError
  backend : String → HsmError

pub data HsmSlot : Type 0 where
  vault_key totp_seed : HsmSlot

unfoldable pub tag : HsmSlot → ℕ
tag vault_key = 0x00
tag totp_seed = 0x01

pub data HsmKind : Type 0 where
  tpm2 ncrypt_rsa android_gcm secure_enclave secret_service software_mock : HsmKind

unfoldable pub to_byte : HsmKind → ℕ
to_byte tpm2 = 0x00
to_byte ncrypt_rsa = 0x01
to_byte android_gcm = 0x02
to_byte secure_enclave = 0x03
to_byte secret_service = 0x04
to_byte software_mock = 0xFF

unfoldable pub from_byte : ℕ → Result HsmError HsmKind
from_byte byte =
    if byte == 0x00
    then ok tpm2
    else if byte == 0x01
    then ok ncrypt_rsa
    else if byte == 0x02
    then ok android_gcm
    else if byte == 0x03
    then ok secure_enclave
    else if byte == 0x04
    then ok secret_service
    else if byte == 0xFF
    then ok software_mock
    else err (malformed_blob "unknown hsm_kind byte")

pub data LockoutRecovery : Type 0 where
  time_based : ℕ → LockoutRecovery
  factory_reset_only user_account_reset : LockoutRecovery

pub record HsmCapabilities : Type 0 where
  pub biometric_supported : Bool
  pub strongbox_backed : Bool
  pub pcr_bound : Bool
  pub max_attempts_before_lockout : Option ℕ
  pub lockout_recovery : LockoutRecovery
  pub supports_distinct_slot_pin : Bool

-- Durations are in seconds.
pub data HsmLockoutStatus : Type 0 where
  available : HsmLockoutStatus
  locked_out : Option ℕ → HsmLockoutStatus

pub data PromptResult : Type 0 where
  authenticated : PromptResult
  fallback_to_pin : List ℕ → PromptResult
  cancelled_prompt : PromptResult

-- `BiometricPrompter`: what the platform's prompt answers to a reason.
abbrev pub Prompter : Type 0
Prompter = String → Result HsmError PromptResult

-- `WrappedBlob`
pub record WrappedBlob : Type 0 where
  pub kind : HsmKind
  pub payload : List ℕ

-- `MockUnwrapState`
pub record MockUnwrapState : Type 0 where
  pub slot_tag : ℕ
  pub nonce : List ℕ
  pub ciphertext : List ℕ
  pub key : List ℕ

-- `HandleInner`. The states of the backends that are not modelled are bytes.
pub data UnwrapHandle : Type 0 where
  mock : MockUnwrapState → UnwrapHandle
  of_secret_service of_tpm2 of_android : List ℕ → UnwrapHandle

unfoldable pub into_mock : UnwrapHandle → Result HsmError MockUnwrapState
into_mock (mock state) = ok state
into_mock _ = err (malformed_blob "unwrap handle was not minted by the mock backend")

-- The trait `HardwareKeyStore`: how a backend answers during one operation of its client, with the
-- platform's context and its random draws fixed.
pub record HardwareKeyStore : Type 0 where
  pub kind : HsmKind
  pub capabilities : HsmCapabilities
  pub lockout_status : Result HsmError HsmLockoutStatus
  pub enroll : HsmSlot → List ℕ → Prompter → Result HsmError WrappedBlob
  pub begin_unwrap : HsmSlot → WrappedBlob → Result HsmError UnwrapHandle
  pub complete_unwrap : UnwrapHandle → Prompter → Result HsmError (List ℕ)
  pub invalidate : HsmSlot → WrappedBlob → Result HsmError (Unit {0})
