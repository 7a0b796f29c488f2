-- ===== src/Vault/Sets/Exact.antt =====
-- What the tamper check of crates/passman-vault/src/vault.rs accepts.
use passman.Prelude.{
  ℕ, zero, suc, ◌<◌, ◌≤◌, ◌≡◌, ◌↔◌, ◌⊎◌, refl, sym, ap, ap₂, ◌∙◌, subst, List, [], ◌∷◌, Bool, true,
  false, ok, arith, eq→==, bytes_eq, bytes_eq→eq, bytes_eq_refl, Bool-cases, inl, inr, length,
}
use native.Mathlib.Nat.{le_trans}
use passman.Vault.Sets.{id_leb, sort_unstable, has_repeat, ids_eq, check_id_sets}
use passman.Vault.Sets.Order.{
  count, IsSorted, sort_unstable-IsSorted, count-sort_unstable, count_self, head-le,
  id_leb_antisymm, length-sort_unstable,
}

differ : {b : Bool} → b ≡ true → b ≡ false → ⊥
differ p q = cc

pub Nat-cases : (n : ℕ) → (n ≡ 0) ⊎ (0 < n)
Nat-cases zero = inl refl
Nat-cases (suc n) = inr (omega arith)

count_other :
    (a x : List ℕ) (xs : List (List ℕ)) → bytes_eq x a ≡ false → count a (x ∷ xs) ≡ count a xs
unfolding count
count_other a x xs e = rw e

count_tail : (a x : List ℕ) (xs : List (List ℕ)) → count a xs ≤ count a (x ∷ xs)
unfolding count
count_tail a x xs = ground arith

tails_count :
    (x y : List ℕ) (xs ys : List (List ℕ))
    → x ≡ y
    → ((a : List ℕ) → count a (x ∷ xs) ≡ count a (y ∷ ys))
    → (a : List ℕ) → count a xs ≡ count a ys
unfolding count
tails_count x y xs ys e h a = ground (arith, h a, ap (λ z. bytes_eq z a) e)

sorted_unique :
    (xs ys : List (List ℕ))
    → IsSorted xs
    → IsSorted ys
    → ((a : List ℕ) → count a xs ≡ count a ys)
    → xs ≡ ys
sorted_unique [] [] h k e = refl
sorted_unique [] (y ∷ ys) h k e = absurd (omega (arith, e y, count_self y ys, no_count y))
  where
    no_count : (a : List ℕ) → count a [] ≡ 0
    no_count a = unfold count in refl
sorted_unique (x ∷ xs) [] h k e = absurd (omega (arith, e x, count_self x xs, no_count x))
  where
    no_count : (a : List ℕ) → count a [] ≡ 0
    no_count a = unfold count in refl
sorted_unique (x ∷ xs) (y ∷ ys) h k e =
    let same : x ≡ y =
      id_leb_antisymm x y (head-le x y xs h (omega (arith, e y, count_self y ys)))
        (head-le y x ys k (omega (arith, e x, count_self x xs))) in
    ap₂ ◌∷◌ same (sorted_unique xs ys h.1 k.1 (tails_count x y xs ys same e))

no_repeat→once :
    (xs : List (List ℕ)) → IsSorted xs → has_repeat xs ≡ false → (a : List ℕ) → count a xs ≤ 1
unfolding has_repeat
no_repeat→once [] h r a = unfold count in omega arith
no_repeat→once (x ∷ []) h r a = unfold count in ground arith
no_repeat→once (x ∷ y ∷ ys) (h, hs) r a = elim (Bool-cases (bytes_eq x y)) [
  | inl e ↦ absurd (ground arith)
  | inr e ↦
      let rest = no_repeat→once (y ∷ ys) hs (rw e at r) a in
      elim (Bool-cases (bytes_eq x a)) [
        | inl same ↦ first_again (bytes_eq→eq x a same) e rest
        | inr other ↦ rw (count_other a x (y ∷ ys) other) rest
      ]
]
  where
    first_again : x ≡ a → bytes_eq x y ≡ false → count a (y ∷ ys) ≤ 1 → count a (x ∷ y ∷ ys) ≤ 1
    first_again p e rest = elim (Nat-cases (count a (y ∷ ys))) [
      | inl none_left ↦
          subst (λ z. count z (x ∷ y ∷ ys) ≤ 1) p
            (omega
              (arith, count_self x (y ∷ ys), subst (λ z. count z (y ∷ ys) ≡ 0) (sym p) none_left))
      | inr more ↦
          let below : id_leb y x ≡ true =
            subst (λ z. id_leb y z ≡ true) (sym p) (head-le y a ys hs more) in
          absurd (
            differ
              (subst (λ z. bytes_eq x z ≡ true) (id_leb_antisymm x y h.0 below) (bytes_eq_refl x))
              e)
    ]

once→no_repeat : (xs : List (List ℕ)) → ((a : List ℕ) → count a xs ≤ 1) → has_repeat xs ≡ false
unfolding has_repeat
once→no_repeat [] h = refl
once→no_repeat (x ∷ []) h = refl
once→no_repeat (x ∷ y ∷ ys) h = elim (Bool-cases (bytes_eq x y)) [
  | inl e ↦ absurd (
      omega (
        arith,
        h x,
        count_self x (y ∷ ys),
        subst (λ z. count z (y ∷ ys) ≡ suc (count z ys)) (sym (bytes_eq→eq x y e))
            (count_self y ys),
      ))
  | inr e ↦ rw e (once→no_repeat (y ∷ ys) (λ a. le_trans (count_tail a x (y ∷ ys)) (h a)))
]

ids_eq_refl : (xs : List (List ℕ)) → ids_eq xs xs ≡ true
unfolding ids_eq
ids_eq_refl [] = refl
ids_eq_refl (x ∷ xs) = rw (bytes_eq_refl x) (ids_eq_refl xs)

ids_eq→eq : (xs ys : List (List ℕ)) → ids_eq xs ys ≡ true → xs ≡ ys
unfolding ids_eq
ids_eq→eq [] [] h = refl
ids_eq→eq [] (y ∷ ys) h = cc
ids_eq→eq (x ∷ xs) [] h = cc
ids_eq→eq (x ∷ xs) (y ∷ ys) h = ground (arith, bytes_eq→eq x y, ids_eq→eq xs ys)

-- No id occurs twice, and the two lists have the same ids.
pub record IsMatched (index_ids env_ids : List (List ℕ)) : Type 0 where
  pub once : (a : List ℕ) → count a index_ids ≤ 1
  pub same : (a : List ℕ) → count a index_ids ≡ count a env_ids

check_id_sets_parts :
    (xs ys : List (List ℕ))
    → check_id_sets xs ys ≡ ok tt
    → (has_repeat (sort_unstable xs) ≡ false)
      × (ids_eq (sort_unstable xs) (sort_unstable ys) ≡ true)
unfolding check_id_sets
check_id_sets_parts xs ys h = ground arith

check_id_sets→IsMatched : (xs ys : List (List ℕ)) → check_id_sets xs ys ≡ ok tt → IsMatched xs ys
check_id_sets→IsMatched xs ys h =
    let (unique, equal) = check_id_sets_parts xs ys h in
    record {
      once = λ a.
          rw (← count-sort_unstable a xs)
            (no_repeat→once (sort_unstable xs) (sort_unstable-IsSorted xs) unique a);
      same = λ a.
          sym (count-sort_unstable a xs)
          ∙ ap (count a) (ids_eq→eq (sort_unstable xs) (sort_unstable ys) equal)
          ∙ count-sort_unstable a ys;
    }

IsMatched→check_id_sets : (xs ys : List (List ℕ)) → IsMatched xs ys → check_id_sets xs ys ≡ ok tt
unfolding check_id_sets
IsMatched→check_id_sets xs ys h =
    let equal : sort_unstable xs ≡ sort_unstable ys =
      sorted_unique _ _ (sort_unstable-IsSorted xs) (sort_unstable-IsSorted ys)
        (λ a. count-sort_unstable a xs ∙ h.same a ∙ sym (count-sort_unstable a ys)) in
    let len : length xs ≡ length ys =
      sym (length-sort_unstable xs) ∙ ap length equal ∙ length-sort_unstable ys in
    let unique : has_repeat (sort_unstable xs) ≡ false =
      once→no_repeat (sort_unstable xs) (λ a. rw (count-sort_unstable a xs) (h.once a)) in
    rw (eq→== _ _ len) (
      rw unique (
        rw (subst (λ l. has_repeat l ≡ false) equal unique) (
          rw (
            subst (λ l. ids_eq (sort_unstable xs) l ≡ true) equal
              (ids_eq_refl (sort_unstable xs))))))

-- The check passes exactly where no id occurs twice and the index and the envelopes have the same
-- ids: a missing, an extra or a repeated id fails it.
pub check_id_sets_iff :
    (index_ids env_ids : List (List ℕ))
    → (check_id_sets index_ids env_ids ≡ ok tt) ↔ IsMatched index_ids env_ids
check_id_sets_iff index_ids env_ids =
    (check_id_sets→IsMatched index_ids env_ids, IsMatched→check_id_sets index_ids env_ids)
