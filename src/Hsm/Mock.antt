-- ===== src/Hsm/Mock.antt =====
-- crates/passman-hsm/src/mock.rs: the software simulation of a key store. The random key of a
-- constructor and the random nonce of `enroll` are arguments.
pub mod Unwraps
use passman.Prelude.{
  ℕ, String, List, [], ◌∷◌, ◌++◌, ◌+◌, ◌-◌, ◌&&◌, Option, none, some, Bool, true, false, not,
  Result, ok, err, ◌>>=◌, ◌>>◌, guard, ok_or, map_err, length, take, drop, get_or, ltb, leb, ◌==◌,
  if◌then◌else◌,
}
use passman.Crypto.{Primitives}
use passman.Crypto.Aead.{encrypt, decrypt, nonce_len}
use passman.Hsm.{
  HsmError, transient, cancelled, hardware_absent, permanently_invalidated, malformed_blob, backend,
  HsmSlot, tag, HsmKind, software_mock, time_based, HsmCapabilities, HsmLockoutStatus, available,
  locked_out, PromptResult, authenticated, fallback_to_pin, cancelled_prompt, Prompter, WrappedBlob,
  MockUnwrapState, UnwrapHandle, mock, into_mock, HardwareKeyStore,
}
use passman.Hsm.Blob.{from_parts, get_from}

-- b"passman-hsm-mock-v0"
abbrev pub mock_aad_domain : List ℕ
mock_aad_domain =
    b'p' ∷ b'a' ∷ b's' ∷ b's' ∷ b'm' ∷ b'a' ∷ b'n' ∷ b'-' ∷ b'h' ∷ b's' ∷ b'm' ∷ b'-' ∷ b'm' ∷ b'o'
    ∷ b'c' ∷ b'k' ∷ b'-' ∷ b'v' ∷ b'0' ∷ []

pub data MockFailure : Type 0 where
  fail_transient fail_hardware_absent fail_permanently_invalidated fail_cancelled : MockFailure

unfoldable pub to_error : MockFailure → HsmError
to_error fail_transient = transient
to_error fail_hardware_absent = hardware_absent
to_error fail_permanently_invalidated = permanently_invalidated
to_error fail_cancelled = cancelled

pub record MockKeyStore : Type 0 where
  pub key : List ℕ
  pub forced_failure : Option MockFailure
  pub lockout : Option ℕ

unfoldable pub new : List ℕ → MockKeyStore
new key = record { key = key; forced_failure = none; lockout = none }

unfoldable pub locked_for : List ℕ → ℕ → MockKeyStore
locked_for key retry_after = record { key = key; forced_failure = none; lockout = some retry_after }

unfoldable pub failure_of : HsmError → MockFailure
failure_of cancelled = fail_cancelled
failure_of hardware_absent = fail_hardware_absent
failure_of permanently_invalidated = fail_permanently_invalidated
failure_of transient = fail_transient
failure_of (backend why) = fail_transient
failure_of (malformed_blob reason) = fail_transient

unfoldable pub failing : List ℕ → HsmError → MockKeyStore
failing key error = record { key = key; forced_failure = some (failure_of error); lockout = none }

-- The associated data: domain and slot tag.
unfoldable pub aad : ℕ → List ℕ
aad slot_tag = mock_aad_domain ++ slot_tag ∷ []

unfoldable pub check_forced : MockKeyStore → Result HsmError (Unit {0})
check_forced m = elim m.forced_failure [ none ↦ ok tt | some failure ↦ err (to_error failure) ]

-- `bytes.get(from..to)` and `first`
abbrev get_range : ℕ → ℕ → List ℕ → Option (List ℕ)
get_range from to bytes =
    if leb from to && leb to (length bytes) then some (take (to - from) (drop from bytes)) else none

abbrev first : List ℕ → Option ℕ
first [] = none
first (x ∷ xs) = some x

abbrev is_mock : HsmKind → Bool
is_mock software_mock = true
is_mock _ = false

-- A prompt is answered, or it ends the operation.
unfoldable pub check_prompt : PromptResult → Result HsmError (Unit {0})
check_prompt authenticated = ok tt
check_prompt (fallback_to_pin pin) = ok tt
check_prompt cancelled_prompt = err cancelled

unfoldable pub lockout_status : MockKeyStore → Result HsmError HsmLockoutStatus
lockout_status m =
    ok (elim m.lockout [ none ↦ available | some retry_after ↦ locked_out (some retry_after) ])

unfoldable pub begin_unwrap : MockKeyStore → HsmSlot → WrappedBlob → Result HsmError UnwrapHandle
begin_unwrap m slot wrapped = do
  check_forced m
  guard (is_mock wrapped.kind) (malformed_blob "blob kind is not SoftwareMock")
  let payload = wrapped.payload
  stored_tag ← ok_or (first payload) (malformed_blob "mock payload missing slot tag")
  nonce ←
      ok_or (get_range 1 (1 + nonce_len) payload)
        (malformed_blob "mock payload truncated before nonce end")
  ct ← ok_or (get_from (1 + nonce_len) payload) (malformed_blob "mock payload missing ciphertext")
  guard (stored_tag == tag slot)
      (malformed_blob "mock payload slot tag does not match requested slot")
  ok (mock (record { slot_tag = tag slot; nonce = nonce; ciphertext = ct; key = m.key }))

module _ ⦃p : Primitives⦄ where
  -- The payload is the slot tag, the nonce and the ciphertext with its tag.
  unfoldable pub enroll :
      List ℕ → MockKeyStore → HsmSlot → List ℕ → Prompter → Result HsmError WrappedBlob
  enroll nonce m slot material prompter = do
    check_forced m
    answer ← prompter "Enroll passman key"
    check_prompt answer
    ct ←
        map_err (λ _. backend "mock AEAD encrypt failed")
          (encrypt m.key nonce (aad (tag slot)) material)
    from_parts software_mock (tag slot ∷ nonce ++ ct)

  unfoldable pub complete_unwrap : MockKeyStore → UnwrapHandle → Prompter → Result HsmError (List ℕ)
  complete_unwrap m handle prompter = do
    check_forced m
    answer ← prompter "Unlock passman key"
    check_prompt answer
    state ← into_mock handle
    map_err (λ _. backend "mock AEAD decrypt/verify failed")
        (decrypt state.key state.nonce (aad state.slot_tag) state.ciphertext)

  -- The implementation of the trait, at the nonce that `enroll` draws.
  unfoldable pub key_store : List ℕ → MockKeyStore → HardwareKeyStore
  key_store nonce m = record {
    kind = software_mock;
    capabilities = record {
      biometric_supported = true;
      strongbox_backed = false;
      pcr_bound = false;
      max_attempts_before_lockout = none;
      lockout_recovery = time_based 0;
      supports_distinct_slot_pin = true;
    };
    lockout_status = lockout_status m;
    enroll = enroll nonce m;
    begin_unwrap = begin_unwrap m;
    complete_unwrap = complete_unwrap m;
    invalidate = λ slot wrapped. check_forced m;
  }
