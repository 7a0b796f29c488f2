-- ===== src/Crypto/Derive.antt =====
-- crates/passman-crypto/src/derive.rs. An output of 32 bytes is below HKDF's limit, so the source's
-- error branches are unreachable and `expand` is total here.
use passman.Prelude.{ℕ, List}
use passman.Crypto.{Primitives}

module _ ⦃p : Primitives⦄ where
  unfoldable pub hkdf_master : List ℕ → List ℕ → List ℕ → List ℕ
  hkdf_master salt ikm info = p.hkdf_expand_32 (p.hkdf_extract salt ikm) info

  unfoldable pub hkdf_expand : List ℕ → List ℕ → List ℕ
  hkdf_expand prk info = p.hkdf_expand_32 prk info
