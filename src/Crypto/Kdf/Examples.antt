-- ===== src/Crypto/Kdf/Examples.antt =====
-- The default parameters (crates/passman-crypto/src/kdf.rs), and the theorems at them.
use passman.Prelude.{ℕ, ◌≡◌, refl, List, [], ◌∷◌, some, ok, arith, replicate}
use passman.Crypto.Kdf.{
  KdfParams, low, within_limits, argon2id_within_memory, check_memory, memory_cost_fits,
}
use passman.Crypto.Kdf.Limits.{InBounds, Fits, argon2id_guarded}
use passman.Crypto.Toy.{toy}

abbrev bytes : List ℕ
bytes = 1 ∷ 0 ∷ 0 ∷ 0 ∷ 2 ∷ 0 ∷ 0 ∷ 0 ∷ 3 ∷ []

abbrev huge : KdfParams
huge = record { m_kib = 16_777_216; t = 4; p = 1 }

huge_outside : ¬ InBounds huge
huge_outside h = absurd (omega (arith, h.m_high))

abbrev password : List ℕ
password = replicate 32 7

derived : argon2id_within_memory password [] low (some 400_000) ≡ ok password
unfolding argon2id_within_memory within_limits check_memory memory_cost_fits
derived = refl

argon2id_guarded_example :
    InBounds low × Fits low (some 400_000) × (toy.argon2_hash password [] 262_144 4 1 ≡ ok password)
argon2id_guarded_example =
    argon2id_guarded password [] low (some 400_000) password (omega arith) derived
