-- ===== src/Crypto/Kdf.antt =====
-- crates/passman-crypto/src/kdf.rs
pub mod Encoding
pub mod Limits
mod Examples
use passman.Prelude.{
  ℕ, ◌+◌, ◌*◌, ◌/◌, ◌<◌, ◌≤◌, ◌^◌, ◌-◌, ◌≡◌, String, List, [], ◌∷◌, ◌++◌, Option, none, some, Bool,
  true, false, not, ◌&&◌, Result, ok, err, ◌>>=◌, ◌>>◌, guard, map_err, length, ltb, leb, ◌==◌,
  if◌then◌else◌, arith, take, drop, get_or, to_le, of_le, min,
}
use passman.Crypto.{CryptoError, kdf, out_of_range, exceeds_memory, backend, Primitives}

abbrev pub kdf_params_len : ℕ
kdf_params_len = 9

abbrev pub max_m_kib : ℕ
max_m_kib = 8 * 1024 * 1024

abbrev pub max_t : ℕ
max_t = 24

abbrev pub max_p : ℕ
max_p = 16

-- `m_kib` and `t` are u32, `p` is u8.
pub record KdfParams : Type 0 where
  pub m_kib : ℕ
  pub t : ℕ
  pub p : ℕ

pub record IsParams (k : KdfParams) : Type 0 where
  pub m_kib_fits : k.m_kib < 2 ^ 32
  pub t_fits : k.t < 2 ^ 32
  pub p_fits : k.p < 256

abbrev pub low : KdfParams
low = record { m_kib = 262_144; t = 4; p = 1 }

abbrev pub medium : KdfParams
medium = record { m_kib = 1_048_576; t = 4; p = 1 }

abbrev pub high : KdfParams
high = record { m_kib = 4_194_304; t = 6; p = 1 }

unfoldable pub to_bytes : KdfParams → List ℕ
to_bytes k = to_le 4 k.m_kib ++ (to_le 4 k.t ++ k.p ∷ [])

unfoldable pub from_bytes : List ℕ → KdfParams
from_bytes bytes = record {
  m_kib = of_le (take 4 bytes);
  t = of_le (take 4 (drop 4 bytes));
  p = get_or bytes 8 0;
}

-- `8u32.saturating_mul(p)`
abbrev saturating_mul_u32 : ℕ → ℕ → ℕ
saturating_mul_u32 a b = min (a * b) (2 ^ 32 - 1)

unfoldable pub within_limits : KdfParams → Bool
within_limits k =
    leb 1 k.p
    && leb k.p max_p
    && leb 1 k.t
    && leb k.t max_t
    && leb k.m_kib max_m_kib
    && leb (saturating_mul_u32 8 k.p) k.m_kib

unfoldable pub memory_cost_fits : ℕ → ℕ → Bool
memory_cost_fits m_kib available_kib = leb m_kib (available_kib / 5 * 4)

abbrev backend_error : {A : Type 0} → Result String A → Result CryptoError A
backend_error = map_err (λ e. kdf (backend e))

-- The host check, which is skipped where the caller could not measure.
unfoldable pub check_memory : ℕ → Option ℕ → Result CryptoError (Unit {0})
unfolding memory_cost_fits
check_memory m_kib none = ok tt
check_memory m_kib (some available_kib) =
    guard (memory_cost_fits m_kib available_kib) (kdf (exceeds_memory m_kib available_kib))

module _ ⦃prim : Primitives⦄ where
  unfoldable pub argon2id_within_memory :
      List ℕ → List ℕ → KdfParams → Option ℕ → Result CryptoError (List ℕ)
  argon2id_within_memory password salt params available_kib = do
    guard (within_limits params) (kdf out_of_range)
    check_memory params.m_kib available_kib
    backend_error (prim.argon2_params params.m_kib params.t params.p)
    backend_error (prim.argon2_hash password salt params.m_kib params.t params.p)

  unfoldable pub argon2id : List ℕ → List ℕ → KdfParams → Result CryptoError (List ℕ)
  argon2id password salt params = argon2id_within_memory password salt params none
