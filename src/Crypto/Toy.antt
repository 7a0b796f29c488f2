-- ===== src/Crypto/Toy.antt =====
-- A value of `Primitives` with the laws, for concrete runs: the tag is sixteen equal bytes that
-- depend on the key, the nonce and the associated data.
use passman.Prelude.{
  ℕ, ◌+◌, ◌-◌, ◌*◌, ◌%◌, ◌≡◌, refl, ap, List, [], ◌∷◌, ◌++◌, Option, none, some, ok, arith, length,
  length-append, length-replicate, take, drop, replicate, take-append, drop-append,
  take-append-drop, bytes_eq, bytes_eq_refl, bytes_eq→eq, if◌then◌else◌, IsBytes, IsByte,
  All-append, All-take, Bool-cases, inl, inr, subst, some-injective,
}
use passman.Crypto.{Primitives, IsAead}

unfoldable pub sum : List ℕ → ℕ
sum [] = 0
sum (x ∷ xs) = x + sum xs

-- The three inputs are told apart by their weights.
unfoldable pub tag_of : List ℕ → List ℕ → List ℕ → List ℕ
unfolding sum
tag_of k n a = replicate 16 ((sum k + 3 * sum n + 5 * sum a) % 256)

unfoldable pub toy_seal : List ℕ → List ℕ → List ℕ → List ℕ → Option (List ℕ)
unfolding tag_of
toy_seal k n a m = some (m ++ tag_of k n a)

unfoldable pub toy_unseal : List ℕ → List ℕ → List ℕ → List ℕ → Option (List ℕ)
unfolding tag_of bytes_eq
toy_unseal k n a c =
    if bytes_eq (drop (length c - 16) c) (tag_of k n a) then some (take (length c - 16) c) else none

instance abbrev pub toy : Primitives
toy = record {
  seal = toy_seal;
  unseal = toy_unseal;
  hkdf_extract = λ salt ikm. take 32 (ikm ++ (salt ++ replicate 32 0));
  hkdf_expand_32 = λ prk info. take 32 (info ++ (prk ++ replicate 32 0));
  argon2_params = λ m t p. ok tt;
  argon2_hash = λ password salt m t p. ok (take 32 (password ++ (salt ++ replicate 32 0)));
}

length-tag_of : (k n a : List ℕ) → length (tag_of k n a) ≡ 16
unfolding tag_of
length-tag_of k n a = length-replicate {A = ℕ} 16 ((sum k + 3 * sum n + 5 * sum a) % 256)

split_at : (k n a m : List ℕ) → length (m ++ tag_of k n a) - 16 ≡ length m
split_at k n a m = omega (arith, length-append m (tag_of k n a), length-tag_of k n a)

unseal-seal_toy : (k n a m c : List ℕ) → toy_seal k n a m ≡ some c → toy_unseal k n a c ≡ some m
unfolding toy_seal toy_unseal
unseal-seal_toy k n a m c e =
    subst (λ (x : List ℕ). toy_unseal k n a x ≡ some m) (some-injective _ _ e)
      (rw (split_at, drop-append, bytes_eq_refl, take-append))

seal-unseal_toy : (k n a m c : List ℕ) → toy_unseal k n a c ≡ some m → toy_seal k n a m ≡ some c
unfolding toy_seal toy_unseal
seal-unseal_toy k n a m c e = elim (Bool-cases (bytes_eq (drop (length c - 16) c) (tag_of k n a))) [
  | inl same ↦ rw (← some-injective _ _ (rw same at e)) (
      subst (λ t. some (take (length c - 16) c ++ t) ≡ some c) (bytes_eq→eq _ _ same)
        (ap some (take-append-drop (length c - 16) c)))
  | inr other ↦ absurd (none≢some (rw other at e))
]
  where
    none≢some : {x : List ℕ} → none ≡ some x → ⊥
    none≢some p = cc

unseal-IsBytes_toy : (k n a m c : List ℕ) → toy_unseal k n a c ≡ some m → IsBytes c → IsBytes m
unfolding toy_unseal
unseal-IsBytes_toy k n a m c e h =
    elim (Bool-cases (bytes_eq (drop (length c - 16) c) (tag_of k n a))) [
      | inl same ↦
          subst IsBytes (some-injective _ _ (rw same at e)) (All-take IsByte (length c - 16) c h)
      | inr other ↦ absurd (none≢some (rw other at e))
    ]
  where
    none≢some : {x : List ℕ} → none ≡ some x → ⊥
    none≢some p = cc

tag_of-IsBytes : (k n a : List ℕ) → IsBytes (tag_of k n a)
unfolding tag_of
tag_of-IsBytes k n a = omega arith

pub toy-IsAead : IsAead toy
toy-IsAead = record {
  unseal-seal = unseal-seal_toy;
  seal-unseal = seal-unseal_toy;
  length-seal = λ k n a m c e.
      unfold toy_seal in
      rw (← some-injective _ _ e)
        (omega (arith, length-append m (tag_of k n a), length-tag_of k n a));
  seal-IsBytes = λ k n a m c e h.
      unfold toy_seal in
      subst IsBytes (some-injective _ _ e)
        (All-append IsByte m (tag_of k n a) h (tag_of-IsBytes k n a));
  unseal-IsBytes = unseal-IsBytes_toy;
  seals = λ k n a m h. (m ++ tag_of k n a, unfold toy_seal in refl);
}
