-- ===== src/Crypto.antt =====
-- crates/passman-crypto: errors, and the external primitives (RustCrypto's XChaCha20-Poly1305, HKDF
-- and Argon2id) as a parameter.
pub mod Aead
pub mod Kdf
pub mod Derive
pub mod Toy
use passman.Prelude.{ℕ, ◌+◌, ◌<◌, ◌^◌, ◌≡◌, String, List, Option, some, Result, length, IsBytes}

-- The text of a `Kdf` error: which of the two guards refused, or what the library said.
pub data KdfFailure : Type 0 where
  out_of_range : KdfFailure
  exceeds_memory : ℕ → ℕ → KdfFailure
  backend : String → KdfFailure

pub data CryptoError : Type 0 where
  kdf : KdfFailure → CryptoError
  aead_auth : CryptoError
  invalid_length : String → ℕ → ℕ → CryptoError

-- Keys, nonces, salts and messages are lists of bytes.
pub record Primitives : Type 0 where
  -- XChaCha20Poly1305: key, nonce, associated data, message.
  pub seal : List ℕ → List ℕ → List ℕ → List ℕ → Option (List ℕ)
  pub unseal : List ℕ → List ℕ → List ℕ → List ℕ → Option (List ℕ)
  -- Hkdf<Sha256>: salt and input key; pseudo-random key and info, at 32 bytes of output.
  pub hkdf_extract : List ℕ → List ℕ → List ℕ
  pub hkdf_expand_32 : List ℕ → List ℕ → List ℕ
  -- argon2: `Params::new` (m, t, p), and the hash of a password under a salt and those.
  pub argon2_params : ℕ → ℕ → ℕ → Result String (Unit {0})
  pub argon2_hash : List ℕ → List ℕ → ℕ → ℕ → ℕ → Result String (List ℕ)

-- What the AEAD documents: decryption inverts encryption and accepts nothing else, the tag adds 16
-- bytes, the output is bytes, and a message of less than 256 GiB is encrypted.
pub record IsAead (p : Primitives) : Type 0 where
  pub unseal-seal : (k n a m c : List ℕ) → p.seal k n a m ≡ some c → p.unseal k n a c ≡ some m
  pub seal-unseal : (k n a m c : List ℕ) → p.unseal k n a c ≡ some m → p.seal k n a m ≡ some c
  pub length-seal : (k n a m c : List ℕ) → p.seal k n a m ≡ some c → length c ≡ length m + 16
  pub seal-IsBytes : (k n a m c : List ℕ) → p.seal k n a m ≡ some c → IsBytes m → IsBytes c
  pub unseal-IsBytes : (k n a m c : List ℕ) → p.unseal k n a c ≡ some m → IsBytes c → IsBytes m
  pub seals : (k n a m : List ℕ) → length m < 2 ^ 38 → (c : List ℕ) × (p.seal k n a m ≡ some c)
