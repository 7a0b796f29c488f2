-- ===== src/Vault/Sets/Updates.antt =====
-- How the vector operations of the index and the envelopes change the ids they hold.
use passman.Prelude.{
  ℕ, ◌+◌, length, none, some, ◌<◌, ◌≤◌, ◌≡◌, refl, sym, ap, ◌∙◌, subst, List, [], ◌∷◌, map, arith,
  bytes_eq, bytes_eq→eq, false, Bool-cases, inl, inr,
}
use passman.Vault.Keyed.{find, replace_or_push, retain_ne}
use passman.Vault.Sets.Order.{count}
use passman.Vault.Sets.Exact.{IsMatched, Nat-cases}

module _ {A : Type 0} (key : A → List ℕ) where
  count-push :
      (a : A) (b : List ℕ) (xs : List A)
      → count (key a) (map key xs) ≡ 0
      → count b (map key (replace_or_push key a xs)) ≡ count b (key a ∷ map key xs)
  unfolding count replace_or_push
  count-push a b [] h = refl
  count-push a b (x ∷ xs) h = ground (arith, count-push a b xs)

  count-replace :
      (a : A) (b : List ℕ) (xs : List A)
      → 0 < count (key a) (map key xs)
      → count b (map key (replace_or_push key a xs)) ≡ count b (map key xs)
  unfolding count replace_or_push
  count-replace a b [] h = absurd (omega arith)
  count-replace a b (x ∷ xs) h =
      ground (arith, count-replace a b xs, bytes_eq→eq (key x) (key a), ap (λ z. bytes_eq z b))

  count-retain_self : (id : List ℕ) (xs : List A) → count id (map key (retain_ne key id xs)) ≡ 0
  unfolding count retain_ne
  count-retain_self id [] = refl
  count-retain_self id (x ∷ xs) = ground (arith, count-retain_self id xs)

  count-retain_ne :
      (id b : List ℕ) (xs : List A)
      → bytes_eq id b ≡ false
      → count b (map key (retain_ne key id xs)) ≡ count b (map key xs)
  unfolding count retain_ne
  count-retain_ne id b [] h = refl
  count-retain_ne id b (x ∷ xs) h =
      ground (arith, count-retain_ne id b xs, bytes_eq→eq (key x) id, ap (λ z. bytes_eq z b))

  -- Each removed element is one that was counted.
  pub length-retain_ne :
      (id : List ℕ) (xs : List A) → length (retain_ne key id xs) + count id (map key xs) ≡ length xs
  unfolding count retain_ne
  length-retain_ne id [] = omega arith
  length-retain_ne id (x ∷ xs) = ground (arith, length-retain_ne id xs)

  pub count-find :
      (id : List ℕ) (xs : List A) (x : A) → find key id xs ≡ some x → 0 < count id (map key xs)
  unfolding count find
  count-find id [] x h = cc
  count-find id (y ∷ ys) x h = ground (arith, count-find id ys x)

  pub find-count :
      (id : List ℕ) (xs : List A)
      → 0 < count id (map key xs)
      → (x : A) × (find key id xs ≡ some x) × (key x ≡ id)
  unfolding count find
  find-count id [] h = absurd (omega arith)
  find-count id (y ∷ ys) h = elim (Bool-cases (bytes_eq (key y) id)) [
    | inl e ↦ (y, rw e refl, bytes_eq→eq (key y) id e)
    | inr e ↦ let (x, found, same) = find-count id ys (rw e at h) in (x, rw e found, same)
  ]

  pub find-none→count :
      (id : List ℕ) (xs : List A) → find key id xs ≡ none → count id (map key xs) ≡ 0
  unfolding count find
  find-none→count id [] h = refl
  find-none→count id (y ∷ ys) h = ground (arith, find-none→count id ys)

  pub retain_ne_absent :
      (id : List ℕ) (xs : List A) → count id (map key xs) ≡ 0 → retain_ne key id xs ≡ xs
  unfolding count retain_ne
  retain_ne_absent id [] h = refl
  retain_ne_absent id (y ∷ ys) h = ground (arith, retain_ne_absent id ys)

module _ {A B : Type 0} (key_a : A → List ℕ) (key_b : B → List ℕ) where
  -- Adding an id on both sides keeps the ids matched.
  pub IsMatched-replace_or_push :
      (a : A) (b : B) (xs : List A) (ys : List B)
      → key_a a ≡ key_b b
      → IsMatched (map key_a xs) (map key_b ys)
      → IsMatched (map key_a (replace_or_push key_a a xs)) (map key_b (replace_or_push key_b b ys))
  unfolding count
  IsMatched-replace_or_push a b xs ys same h =
      let level : count (key_a a) (map key_a xs) ≡ count (key_b b) (map key_b ys) =
        h.same (key_a a) ∙ ap (λ z. count z (map key_b ys)) same in
      elim (Nat-cases (count (key_a a) (map key_a xs))) [
        | inl absent ↦ record {
          once = λ c. rw (count-push key_a a c xs absent) (once_pushed h.once c absent);
          same = λ c.
              count-push key_a a c xs absent
              ∙ ground (arith, h.same c, ap (λ z. bytes_eq z c) same)
              ∙ sym (count-push key_b b c ys (sym level ∙ absent));
        }
        | inr present ↦ record {
          once = λ c. rw (count-replace key_a a c xs present) (h.once c);
          same = λ c.
              count-replace key_a a c xs present
              ∙ h.same c
              ∙ sym (count-replace key_b b c ys (omega (arith, level)));
        }
      ]
    where
      once_pushed :
          ((c : List ℕ) → count c (map key_a xs) ≤ 1)
          → (c : List ℕ) → Path ℕ (count (key_a a) (map key_a xs)) 0
          → count c (key_a a ∷ map key_a xs) ≤ 1
      once_pushed h c absent =
          ground (arith, h c, bytes_eq→eq (key_a a) c, ap (λ z. count z (map key_a xs)))

  -- Removing an id on both sides keeps the ids matched.
  pub IsMatched-retain_ne :
      (id : List ℕ) (xs : List A) (ys : List B)
      → IsMatched (map key_a xs) (map key_b ys)
      → IsMatched (map key_a (retain_ne key_a id xs)) (map key_b (retain_ne key_b id ys))
  IsMatched-retain_ne id xs ys h = record {
    once = λ c. elim (Bool-cases (bytes_eq id c)) [
      | inl e ↦
          subst (λ z. count z (map key_a (retain_ne key_a id xs)) ≤ 1) (bytes_eq→eq id c e)
            (omega (arith, count-retain_self key_a id xs))
      | inr e ↦ rw (count-retain_ne key_a id c xs e) (h.once c)
    ];
    same = λ c. elim (Bool-cases (bytes_eq id c)) [
      | inl e ↦
          subst
            (λ z.
              count z (map key_a (retain_ne key_a id xs))
              ≡ count z (map key_b (retain_ne key_b id ys)))
            (bytes_eq→eq id c e)
            (count-retain_self key_a id xs ∙ sym (count-retain_self key_b id ys))
      | inr e ↦ count-retain_ne key_a id c xs e ∙ h.same c ∙ sym (count-retain_ne key_b id c ys e)
    ];
  }
