-- ===== src/Vault/Sets/Order.antt =====
-- The order on ids is total, and the sort of crates/passman-vault/src/vault.rs keeps the elements.
use passman.Prelude.{
  ℕ, suc, ◌<◌, ◌≡◌, refl, ap, ◌∙◌, subst, List, [], ◌∷◌, true, false, arith, bytes_eq, bytes_eq→eq,
  bytes_eq_refl, if◌then◌else◌, All, length, Bool-cases, inl, inr,
}
use passman.Vault.Sets.{id_leb, insert, sort_unstable}

-- How often an id occurs.
unfoldable pub count : List ℕ → List (List ℕ) → ℕ
count a [] = 0
count a (x ∷ xs) = let rest = count a xs in if bytes_eq x a then suc rest else rest

pub id_leb_refl : (a : List ℕ) → id_leb a a ≡ true
unfolding id_leb
id_leb_refl [] = refl
id_leb_refl (x ∷ xs) = ground (arith, id_leb_refl xs)

pub id_leb_total : (a b : List ℕ) → id_leb a b ≡ false → id_leb b a ≡ true
unfolding id_leb
id_leb_total [] b h = cc
id_leb_total (x ∷ xs) [] h = refl
id_leb_total (x ∷ xs) (y ∷ ys) h = ground (arith, id_leb_total xs ys)

pub id_leb_antisymm : (a b : List ℕ) → id_leb a b ≡ true → id_leb b a ≡ true → a ≡ b
unfolding id_leb
id_leb_antisymm [] [] h k = refl
id_leb_antisymm [] (y ∷ ys) h k = cc
id_leb_antisymm (x ∷ xs) [] h k = cc
id_leb_antisymm (x ∷ xs) (y ∷ ys) h k = ground (arith, id_leb_antisymm xs ys)

pub id_leb_trans : (a b c : List ℕ) → id_leb a b ≡ true → id_leb b c ≡ true → id_leb a c ≡ true
unfolding id_leb
id_leb_trans [] b c h k = refl
id_leb_trans (x ∷ xs) [] c h k = cc
id_leb_trans (x ∷ xs) (y ∷ ys) [] h k = cc
id_leb_trans (x ∷ xs) (y ∷ ys) (z ∷ zs) h k = ground (arith, id_leb_trans xs ys zs)

abbrev pub AtLeast : List ℕ → List (List ℕ) → Type 0
AtLeast a = All (λ x. id_leb a x ≡ true)

abbrev pub IsSorted : List (List ℕ) → Type 0
IsSorted [] = Unit
IsSorted (x ∷ xs) = AtLeast x xs × IsSorted xs

AtLeast-trans :
    (a b : List ℕ) (xs : List (List ℕ)) → id_leb a b ≡ true → AtLeast b xs → AtLeast a xs
AtLeast-trans a b [] h k = tt
AtLeast-trans a b (x ∷ xs) h (k, ks) = (id_leb_trans a b x h k, AtLeast-trans a b xs h ks)

insert-AtLeast :
    (a b : List ℕ) (xs : List (List ℕ)) → id_leb a b ≡ true → AtLeast a xs → AtLeast a (insert b xs)
unfolding insert
insert-AtLeast a b [] h k = (h, tt)
insert-AtLeast a b (x ∷ xs) h (k, ks) = elim (Bool-cases (id_leb b x)) [
  | inl e ↦ rw e (h, (k, ks))
  | inr e ↦ rw e (k, insert-AtLeast a b xs h ks)
]

insert-IsSorted : (a : List ℕ) (xs : List (List ℕ)) → IsSorted xs → IsSorted (insert a xs)
unfolding insert
insert-IsSorted a [] h = (tt, tt)
insert-IsSorted a (x ∷ xs) (h, hs) = elim (Bool-cases (id_leb a x)) [
  | inl e ↦ rw e ((e, AtLeast-trans a x xs e h), (h, hs))
  | inr e ↦ rw e (insert-AtLeast x a xs (id_leb_total a x e) h, insert-IsSorted a xs hs)
]

pub sort_unstable-IsSorted : (xs : List (List ℕ)) → IsSorted (sort_unstable xs)
unfolding sort_unstable
sort_unstable-IsSorted [] = tt
sort_unstable-IsSorted (x ∷ xs) = insert-IsSorted x (sort_unstable xs) (sort_unstable-IsSorted xs)

count-insert : (a b : List ℕ) (xs : List (List ℕ)) → count a (insert b xs) ≡ count a (b ∷ xs)
unfolding count insert
count-insert a b [] = refl
count-insert a b (x ∷ xs) = ground (arith, count-insert a b xs)

pub count-sort_unstable :
    (a : List ℕ) (xs : List (List ℕ)) → count a (sort_unstable xs) ≡ count a xs
unfolding count sort_unstable
count-sort_unstable a [] = refl
count-sort_unstable a (x ∷ xs) =
    count-insert a x (sort_unstable xs) ∙ ground (arith, count-sort_unstable a xs)

pub AtLeast-count :
    (a b : List ℕ) (xs : List (List ℕ)) → AtLeast a xs → 0 < count b xs → id_leb a b ≡ true
unfolding count
AtLeast-count a b [] h k = absurd (omega arith)
AtLeast-count a b (x ∷ xs) (h, hs) k = elim (Bool-cases (bytes_eq x b)) [
  | inl e ↦ subst (λ c. id_leb a c ≡ true) (bytes_eq→eq x b e) h
  | inr e ↦ AtLeast-count a b xs hs (rw e at k)
]

pub count_self : (a : List ℕ) (xs : List (List ℕ)) → count a (a ∷ xs) ≡ suc (count a xs)
unfolding count
count_self a xs = rw (bytes_eq_refl a)

-- The head of a sorted list is at most whatever occurs in the list.
pub head-le :
    (x a : List ℕ) (xs : List (List ℕ))
    → IsSorted (x ∷ xs)
    → 0 < count a (x ∷ xs)
    → id_leb x a ≡ true
head-le x a xs (h, hs) k = AtLeast-count x a (x ∷ xs) (id_leb_refl x, h) k

length-insert : (a : List ℕ) (xs : List (List ℕ)) → length (insert a xs) ≡ suc (length xs)
unfolding insert
length-insert a [] = refl
length-insert a (x ∷ xs) = ground (arith, length-insert a xs)

pub length-sort_unstable : (xs : List (List ℕ)) → length (sort_unstable xs) ≡ length xs
unfolding sort_unstable
length-sort_unstable [] = refl
length-sort_unstable (x ∷ xs) =
    length-insert x (sort_unstable xs) ∙ ap suc (length-sort_unstable xs)
