-- ===== src/Recovery/Cost.antt =====
-- crates/passman-recovery/src/kdf.rs: the presets, the floor and the recovery key.
use passman.Prelude.{
  ℕ, ◌≤◌, ◌≡◌, List, [], ◌∷◌, Option, Bool, true, ◌&&◌, Result, ok, err, ◌>>=◌, map_err, leb, arith,
  Bool-cases, inl, inr,
}
use passman.Crypto.{Primitives}
use passman.Crypto.Kdf.{KdfParams, argon2id_within_memory, within_limits}
use passman.Crypto.Derive.{hkdf_master}
use passman.Recovery.{RecoveryError, crypto}

-- b"recovery-export-v0"
abbrev pub recovery_info : List ℕ
recovery_info =
    b'r' ∷ b'e' ∷ b'c' ∷ b'o' ∷ b'v' ∷ b'e' ∷ b'r' ∷ b'y' ∷ b'-' ∷ b'e' ∷ b'x' ∷ b'p' ∷ b'o' ∷ b'r'
    ∷ b't' ∷ b'-' ∷ b'v' ∷ b'0' ∷ []

pub data RecoveryPreset : Type 0 where
  floor default paranoid : RecoveryPreset

unfoldable pub params : RecoveryPreset → KdfParams
params floor = record { m_kib = 1_048_576; t = 4; p = 1 }
params default = record { m_kib = 4_194_304; t = 8; p = 1 }
params paranoid = record { m_kib = 8_388_608; t = 12; p = 1 }

unfoldable pub floor_params : KdfParams
unfolding params
floor_params = params floor

unfoldable pub meets_floor : KdfParams → Bool
unfolding floor_params
meets_floor k = leb floor_params.m_kib k.m_kib && leb floor_params.t k.t && leb floor_params.p k.p

module _ ⦃prim : Primitives⦄ where
  unfoldable pub derive_recovery_key :
      List ℕ → List ℕ → KdfParams → Option ℕ → Result RecoveryError (List ℕ)
  derive_recovery_key password recovery_salt recovery_params available_kib = do
    k_recovery_pw ←
        map_err crypto (argon2id_within_memory password recovery_salt recovery_params available_kib)
    ok (hkdf_master recovery_salt k_recovery_pw recovery_info)

-- At least the floor on every axis.
pub record AtLeastFloor (k : KdfParams) : Type 0 where
  pub m_kib : 1_048_576 ≤ k.m_kib
  pub t : 4 ≤ k.t
  pub p : 1 ≤ k.p

pub meets_floor→AtLeastFloor : (k : KdfParams) → meets_floor k ≡ true → AtLeastFloor k
unfolding meets_floor floor_params params
meets_floor→AtLeastFloor k h = ground arith

module _ ⦃prim : Primitives⦄ where
  -- A recovery key is derived from parameters within the limits only.
  pub derived-within_limits :
      (password salt : List ℕ) (k : KdfParams) (available : Option ℕ) (key : List ℕ)
      → derive_recovery_key password salt k available ≡ ok key
      → within_limits k ≡ true
  unfolding derive_recovery_key argon2id_within_memory
  derived-within_limits password salt k available key e = elim (Bool-cases (within_limits k)) [
    | inl w ↦ w
    | inr w ↦ absurd (refused (rw w at e))
  ]
    where
      refused : {x : RecoveryError} → Path (Result RecoveryError (List ℕ)) (err x) (ok key) → ⊥
      refused q = cc
