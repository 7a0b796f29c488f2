-- ===== src/Crypto/Kdf/Encoding.antt =====
-- The 9-byte form of `KdfParams` (crates/passman-crypto/src/kdf.rs).
use passman.Prelude.{
  ℕ, ◌≡◌, refl, List, [], ◌∷◌, arith, length, to_le, of_le, IsBytes, IsByte, to_le-IsBytes,
  All-append,
}
use passman.Crypto.Kdf.{KdfParams, IsParams, to_bytes, from_bytes, kdf_params_len}

pub length-to_bytes : (k : KdfParams) → length (to_bytes k) ≡ kdf_params_len
unfolding to_bytes to_le
length-to_bytes k = refl

pub to_bytes-IsBytes : (k : KdfParams) → IsParams k → IsBytes (to_bytes k)
unfolding to_bytes
to_bytes-IsBytes k h =
    All-append IsByte (to_le 4 k.m_kib) _ (to_le-IsBytes 4 k.m_kib)
      (All-append IsByte (to_le 4 k.t) _ (to_le-IsBytes 4 k.t) (h.p_fits, tt))

-- Every parameter set whose fields fit their Rust types survives encoding and decoding.
pub from_bytes-to_bytes : (k : KdfParams) → IsParams k → from_bytes (to_bytes k) ≡ k
unfolding to_bytes from_bytes to_le of_le
from_bytes-to_bytes k h = ground arith

-- Every nine bytes are the encoding of the parameters that they decode to, and those fit.
pub to_bytes-from_bytes :
    (bytes : List ℕ)
    → length bytes ≡ kdf_params_len
    → IsBytes bytes
    → (to_bytes (from_bytes bytes) ≡ bytes) × IsParams (from_bytes bytes)
unfolding to_bytes from_bytes to_le of_le
to_bytes-from_bytes (m₀ ∷ m₁ ∷ m₂ ∷ m₃ ∷ t₀ ∷ t₁ ∷ t₂ ∷ t₃ ∷ p ∷ []) len h =
    (ground arith, omega arith)
to_bytes-from_bytes _ len h = absurd (omega arith)
