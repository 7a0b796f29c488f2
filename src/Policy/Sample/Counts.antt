-- ===== src/Policy/Sample/Counts.antt =====
-- What sampling draws and what the shuffle keeps (crates/passman-policy/src/generate.rs).
use passman.Prelude.{
  ℕ, zero, suc, ◌+◌, ◌-◌, ◌<◌, ◌≤◌, ◌≡◌, refl, sym, ap, ◌∙◌, subst, List, [], ◌∷◌, ◌++◌, Option,
  none, some, some-injective, Bool, true, arith, clamp, length, get_or, ltb, tests, if◌then◌else◌,
  Bool-cases, inl, inr, All,
}
use native.Mathlib.Nat.{mod-lt}
use passman.Policy.Charset.{contains}
use passman.Policy.Sample.{
  ◌>>?◌, zone, index_of, retry, uniform_index, uniform_from, set_at, swap, shuffle_from, shuffle,
}

-- How many characters satisfy a test.
unfoldable pub count_where : (ℕ → Bool) → List ℕ → ℕ
count_where p [] = 0
count_where p (c ∷ cs) = let rest = count_where p cs in if p c then suc rest else rest

pub count_where-append :
    (p : ℕ → Bool) (xs ys : List ℕ) → count_where p (xs ++ ys) ≡ count_where p xs + count_where p ys
unfolding count_where
count_where-append p [] ys = omega arith
count_where-append p (x ∷ xs) ys = ground (arith, count_where-append p xs ys)

pub count_where-All :
    (p : ℕ → Bool) (xs : List ℕ) → All (λ c. p c ≡ true) xs → count_where p xs ≡ length xs
unfolding count_where
count_where-All p [] h = refl
count_where-All p (x ∷ xs) (h, hs) = rw h (ap suc (count_where-All p xs hs))

count_where_le : (p : ℕ → Bool) (xs : List ℕ) → count_where p xs ≤ length xs
unfolding count_where
count_where_le p [] = omega arith
count_where_le p (x ∷ xs) = ground (arith, count_where_le p xs)

pub All-count_where :
    (p : ℕ → Bool) (xs : List ℕ) → count_where p xs ≡ length xs → All (λ c. p c ≡ true) xs
unfolding count_where
All-count_where p [] h = tt
All-count_where p (x ∷ xs) h = elim (Bool-cases (p x)) [
  | inl e ↦ (e, All-count_where p xs (ground (arith)))
  | inr e ↦ absurd (ground (arith, count_where_le p xs))
]

-- A weight of 1 for a character that satisfies the test.
weight : (ℕ → Bool) → ℕ → ℕ
weight p c = if p c then 1 else 0

length-set_at : (xs : List ℕ) (i v : ℕ) → length (set_at xs i v) ≡ length xs
unfolding set_at
length-set_at [] i v = refl
length-set_at (x ∷ xs) zero v = refl
length-set_at (x ∷ xs) (suc i) v = ap suc (length-set_at xs i v)

count_where-set_at :
    (p : ℕ → Bool) (xs : List ℕ) (i v : ℕ)
    → i < length xs
    → count_where p (set_at xs i v) + weight p (get_or xs i 0) ≡ count_where p xs + weight p v
unfolding count_where set_at weight
count_where-set_at p [] i v h = absurd (omega arith)
count_where-set_at p (x ∷ xs) zero v h = ground arith
count_where-set_at p (x ∷ xs) (suc i) v h =
    ground (arith, count_where-set_at p xs i v (omega arith))

get_or-set_at : (xs : List ℕ) (i j : ℕ) → get_or (set_at xs i (get_or xs j 0)) j 0 ≡ get_or xs j 0
unfolding set_at
get_or-set_at [] i j = refl
get_or-set_at (x ∷ xs) zero zero = refl
get_or-set_at (x ∷ xs) zero (suc j) = refl
get_or-set_at (x ∷ xs) (suc i) zero = refl
get_or-set_at (x ∷ xs) (suc i) (suc j) = get_or-set_at xs i j

-- Swapping two places keeps the length and every count.
swap-keeps :
    (p : ℕ → Bool) (xs : List ℕ) (i j : ℕ)
    → i < length xs
    → j < length xs
    → (length (swap xs i j) ≡ length xs) × (count_where p (swap xs i j) ≡ count_where p xs)
unfolding swap
swap-keeps p xs i j hi hj =
    let once = set_at xs i (get_or xs j 0) in
    let len = length-set_at xs i (get_or xs j 0) in
    (
      length-set_at once j (get_or xs i 0) ∙ len,
      omega (
        arith,
        count_where-set_at p xs i (get_or xs j 0) hi,
        count_where-set_at p once j (get_or xs i 0) (omega (arith, len)),
        ap (weight p) (get_or-set_at xs i j),
      ),
    )

-- A character that is drawn is one of the pool, and the loop ends within the draws.
pub uniform_index-lt :
    (n : ℕ) (draws : List ℕ) (j : ℕ) (rest : List ℕ)
    → 0 < n
    → uniform_index n draws ≡ some (j, rest)
    → j < n
unfolding uniform_index retry index_of
uniform_index-lt n [] j rest h e = cc
uniform_index-lt n (r ∷ draws) j rest h e = elim (Bool-cases (ltb r (zone n))) [
  | inl below ↦ subst (λ z. z < n) (ap (λ q. q.0) (some-injective _ _ (rw below at e))) (mod-lt r h)
  | inr above ↦ uniform_index-lt n draws j rest h (rw above at e)
]

contains-get_or : (xs : List ℕ) (i : ℕ) → i < length xs → contains xs (get_or xs i 0) ≡ true
unfolding contains
contains-get_or [] i h = absurd (omega arith)
contains-get_or (x ∷ xs) zero h = ground arith
contains-get_or (x ∷ xs) (suc i) h = ground (arith, contains-get_or xs i (omega arith))

pub chain_some :
    {A B : Type 0} (o : Option A) (f : A → Option B) (b : B)
    → (o >>? f) ≡ some b
    → (a : A) × (o ≡ some a) × (f a ≡ some b)
chain_some none f b e = cc
chain_some (some a) f b e = (a, refl, e)

pub uniform_from-contains :
    (pool draws : List ℕ) (c : ℕ) (rest : List ℕ)
    → 0 < length pool
    → uniform_from pool draws ≡ some (c, rest)
    → contains pool c ≡ true
unfolding uniform_from
uniform_from-contains pool draws c rest h e =
    let ((j, left), drawn, picked) =
      chain_some (uniform_index (clamp 4 (length pool)) draws)
        (λ (p : ℕ × List ℕ). some (get_or pool p.0 0, p.1)) (c, rest) e in
    let low = uniform_index-lt (clamp 4 (length pool)) draws j left (omega arith) drawn in
    subst (λ z. contains pool z ≡ true) (ap (λ q. q.0) (some-injective _ _ picked))
      (contains-get_or pool j (omega arith))

-- The shuffle keeps the length and every count.
shuffle_from-keeps :
    (p : ℕ → Bool) (i : ℕ) (buf draws out rest : List ℕ)
    → i < length buf
    → shuffle_from i buf draws ≡ some (out, rest)
    → (length out ≡ length buf) × (count_where p out ≡ count_where p buf)
unfolding shuffle_from
shuffle_from-keeps p zero buf draws out rest h e =
    let same : buf ≡ out = ap (λ q. q.0) (some-injective _ _ e) in
    (ap length (sym same), ap (count_where p) (sym same))
shuffle_from-keeps p (suc i) buf draws out rest h e =
    let ((j, left), drawn, went) =
      chain_some (uniform_index (suc (suc i)) draws)
        (λ (q : ℕ × List ℕ). shuffle_from i (swap buf (suc i) q.0) q.1) (out, rest) e in
    let low = uniform_index-lt (suc (suc i)) draws j left (omega arith) drawn in
    let (len, same) = swap-keeps p buf (suc i) j h (omega arith) in
    let (len', same') =
      shuffle_from-keeps p i (swap buf (suc i) j) left out rest (omega arith) went in
    (len' ∙ len, same' ∙ same)

pub shuffle-keeps :
    (p : ℕ → Bool) (buf draws out rest : List ℕ)
    → shuffle buf draws ≡ some (out, rest)
    → (length out ≡ length buf) × (count_where p out ≡ count_where p buf)
unfolding shuffle
shuffle-keeps p buf draws out rest e = elim (Bool-cases (ltb (length buf) 2)) [
  | inl short ↦
      let same : buf ≡ out = ap (λ q. q.0) (some-injective _ _ (rw short at e)) in
      (ap length (sym same), ap (count_where p) (sym same))
  | inr long ↦
      shuffle_from-keeps p (length buf - 1) buf draws out rest (omega (tests, long)) (rw long at e)
]
