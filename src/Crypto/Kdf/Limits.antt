-- ===== src/Crypto/Kdf/Limits.antt =====
-- Which parameters Argon2id is run with (crates/passman-crypto/src/kdf.rs).
use passman.Prelude.{
  ℕ, ◌*◌, ◌≤◌, ◌≡◌, List, Option, none, some, true, ok, err, arith, Bool-cases, inl, inr,
}
use passman.Crypto.{Primitives, kdf, out_of_range}
use passman.Crypto.Kdf.{KdfParams, IsParams, within_limits, check_memory, argon2id_within_memory}

-- The limits in plain arithmetic.
pub record InBounds (k : KdfParams) : Type 0 where
  pub p_low : 1 ≤ k.p
  pub p_high : k.p ≤ 16
  pub t_low : 1 ≤ k.t
  pub t_high : k.t ≤ 24
  pub m_low : 8 * k.p ≤ k.m_kib
  pub m_high : k.m_kib ≤ 8_388_608

within_limits→InBounds : (k : KdfParams) → IsParams k → within_limits k ≡ true → InBounds k
unfolding within_limits
within_limits→InBounds k h e = ground arith

-- The host's memory, where it was measured, holds the cost and a quarter of it besides.
abbrev pub Fits : KdfParams → Option ℕ → Type 0
Fits k none = Unit
Fits k (some available_kib) = 5 * k.m_kib ≤ 4 * available_kib

module _ ⦃prim : Primitives⦄ (password salt : List ℕ) where
  -- A derivation that succeeds had parameters within the bounds, and a cost that the host holds, where
  -- its memory was measured; the key is Argon2's.
  pub argon2id_guarded :
      (k : KdfParams) (available : Option ℕ) (key : List ℕ)
      → IsParams k
      → argon2id_within_memory password salt k available ≡ ok key
      → InBounds k × Fits k available × (prim.argon2_hash password salt k.m_kib k.t k.p ≡ ok key)
  unfolding argon2id_within_memory check_memory
  argon2id_guarded k none key h e =
      let w : within_limits k ≡ true = ground arith in
      (within_limits→InBounds k h w, tt, ground arith)
  argon2id_guarded k (some a) key h e =
      let w : within_limits k ≡ true = ground arith in
      (within_limits→InBounds k h w, ground arith, ground arith)

  -- Parameters out of bounds are refused, whatever the host and the library would say.
  pub argon2id_out_of_range :
      (k : KdfParams) (available : Option ℕ)
      → IsParams k
      → ¬ InBounds k
      → argon2id_within_memory password salt k available ≡ err (kdf out_of_range)
  unfolding argon2id_within_memory
  argon2id_out_of_range k available h outside = elim (Bool-cases (within_limits k)) [
    | inl e ↦ absurd (outside (within_limits→InBounds k h e))
    | inr e ↦ rw e
  ]
