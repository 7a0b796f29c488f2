-- ===== src/Crypto/Aead.antt =====
-- crates/passman-crypto/src/aead.rs and ct.rs
use passman.Prelude.{
  ℕ, ◌+◌, ◌<◌, ◌^◌, ◌≡◌, List, some, Bool, Result, ok, err, ok_or, length, ltb, ◌==◌, bytes_eq,
  if◌then◌else◌, arith, ap, true, false, bytes_eq_refl, bytes_eq→eq, IsBytes,
}
use passman.Crypto.{CryptoError, aead_auth, invalid_length, Primitives, IsAead}

abbrev pub tag_len : ℕ
tag_len = 16

abbrev pub nonce_len : ℕ
nonce_len = 24

unfoldable pub ct_eq : List ℕ → List ℕ → Bool
ct_eq a b = if length a == length b then bytes_eq a b else false

module _ ⦃p : Primitives⦄ where
  unfoldable pub encrypt : List ℕ → List ℕ → List ℕ → List ℕ → Result CryptoError (List ℕ)
  encrypt key nonce aad plaintext = ok_or (p.seal key nonce aad plaintext) aead_auth

  unfoldable pub decrypt : List ℕ → List ℕ → List ℕ → List ℕ → Result CryptoError (List ℕ)
  decrypt key nonce aad ciphertext_and_tag =
      if ltb (length ciphertext_and_tag) tag_len
      then err (invalid_length "ciphertext_and_tag" tag_len (length ciphertext_and_tag))
      else ok_or (p.unseal key nonce aad ciphertext_and_tag) aead_auth

pub ct_eq_refl : (a : List ℕ) → ct_eq a a ≡ true
unfolding ct_eq
ct_eq_refl a = ground (arith, bytes_eq_refl a)

pub ct_eq→eq : (a b : List ℕ) → ct_eq a b ≡ true → a ≡ b
unfolding ct_eq
ct_eq→eq a b h = ground (arith, bytes_eq→eq a b)

module _ ⦃p : Primitives⦄ (laws : IsAead p) where
  -- A message short enough is encrypted.
  pub encrypt_some :
      (k n a m : List ℕ)
      → length m < 2 ^ 38
      → (c : List ℕ) × (encrypt k n a m ≡ ok c) × (length c ≡ length m + 16)
  unfolding encrypt
  encrypt_some k n a m h =
      let (c, e) = laws.seals k n a m h in
      (c, ap (λ o. ok_or o aead_auth) e, laws.length-seal k n a m c e)

  pub encrypt-eq-ok : (k n a m c : List ℕ) → encrypt k n a m ≡ ok c → p.seal k n a m ≡ some c
  unfolding encrypt
  encrypt-eq-ok k n a m c h = ground arith

  -- `decrypt` inverts `encrypt`.
  pub decrypt-encrypt : (k n a m c : List ℕ) → encrypt k n a m ≡ ok c → decrypt k n a c ≡ ok m
  unfolding decrypt
  decrypt-encrypt k n a m c h =
      let e = encrypt-eq-ok k n a m c h in
      ground (arith, laws.unseal-seal k n a m c e, laws.length-seal k n a m c e)

  -- Nothing is decrypted but what `encrypt` makes of it under the same key, nonce and data.
  pub encrypt-decrypt : (k n a m c : List ℕ) → decrypt k n a c ≡ ok m → encrypt k n a m ≡ ok c
  unfolding decrypt encrypt
  encrypt-decrypt k n a m c h = ground (arith, laws.seal-unseal k n a m c)

  pub decrypt-IsBytes : (k n a m c : List ℕ) → decrypt k n a c ≡ ok m → IsBytes c → IsBytes m
  unfolding decrypt
  decrypt-IsBytes k n a m c h b = laws.unseal-IsBytes k n a m c (ground arith) b
