-- ===== src/Hsm/Examples.antt =====
-- Tests of the wrap blob and of the mock key store (crates/passman-hsm/src/blob.rs and mock.rs), and the
-- theorems at them.
use passman.Prelude.{
  ℕ, ◌≡◌, ◌≤◌, ◌↔◌, refl, List, [], ◌∷◌, ◌++◌, none, ok, err, ◌>>=◌, arith, length, replicate,
  of_le,
}
use passman.Crypto.Toy.{toy, toy-IsAead}
use passman.Hsm.{
  malformed_blob, cancelled, vault_key, totp_seed, software_mock, from_byte, authenticated,
  Prompter, WrappedBlob, from_byte,
}
use passman.Hsm.Blob.{from_bytes, to_bytes}
use passman.Hsm.Blob.Framing.{from_bytes_iff_blob}
use passman.Hsm.Mock.{
  MockKeyStore, failing, begin_unwrap, check_forced, to_error, failure_of, key_store,
}
use passman.Hsm.Mock.Unwraps.{unwrap-enroll_mock}

abbrev small_bytes : List ℕ
small_bytes = 0 ∷ 255 ∷ 2 ∷ 0 ∷ 7 ∷ 8 ∷ []

abbrev small_blob : WrappedBlob
small_blob = record { kind = software_mock; payload = 7 ∷ 8 ∷ [] }

parsed_blob : from_bytes small_bytes ≡ ok small_blob
unfolding from_bytes from_byte of_le
parsed_blob = refl

trailing_byte :
    from_bytes (small_bytes ++ 9 ∷ []) ≡ err (malformed_blob "trailing bytes after payload")
unfolding from_bytes from_byte of_le
trailing_byte = refl

unknown_version :
    from_bytes (1 ∷ 255 ∷ 0 ∷ 0 ∷ []) ≡ err (malformed_blob "unsupported blob_version")
unfolding from_bytes
unknown_version = refl

abbrev mock_store : MockKeyStore
mock_store = record { key = replicate 32 1; forced_failure = none; lockout = none }

abbrev agrees : Prompter
agrees reason = ok authenticated

-- A failure that is forced comes first.
forced_failure :
    begin_unwrap (failing (replicate 32 1) cancelled) vault_key small_blob ≡ err cancelled
unfolding begin_unwrap check_forced failing to_error failure_of
forced_failure = refl

from_bytes_iff_blob_example :
    (from_bytes small_bytes ≡ ok small_blob)
    ↔ ((small_bytes ≡ to_bytes small_blob) × (length small_blob.payload ≤ 65535))
from_bytes_iff_blob_example = from_bytes_iff_blob small_bytes small_blob (omega arith)

-- Enrolled in the slot of the vault's key, and asked for there and in that of the seed.
unwrap-enroll_mock_example :
    (blob : WrappedBlob) × ((key_store ⦃p = toy⦄ (replicate 24 2) mock_store).enroll vault_key
        (replicate 32 5)
        agrees
      ≡ ok blob)
    × ((do
      handle ← (key_store ⦃p = toy⦄ (replicate 24 3) mock_store).begin_unwrap vault_key blob
      (key_store ⦃p = toy⦄ (replicate 24 3) mock_store).complete_unwrap handle agrees)
        ≡ ok (replicate 32 5))
    × ((do
      handle ← (key_store ⦃p = toy⦄ (replicate 24 3) mock_store).begin_unwrap totp_seed blob
      (key_store ⦃p = toy⦄ (replicate 24 3) mock_store).complete_unwrap handle agrees)
        ≡ err (malformed_blob "mock payload slot tag does not match requested slot"))
unwrap-enroll_mock_example =
    unwrap-enroll_mock toy-IsAead mock_store (replicate 24 2) (replicate 24 3) (replicate 32 5)
      vault_key agrees refl refl (omega arith) λ reason. refl
