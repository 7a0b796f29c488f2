-- ===== src/Policy/Effective.antt =====
-- The effective character sets of crates/passman-policy/src/charset.rs.
use passman.Prelude.{
  ℕ, ◌≡◌, refl, List, [], ◌∷◌, ◌++◌, Bool, true, false, not, ◌||◌, ◌==◌, if◌then◌else◌, arith,
  Bool-cases, inl, inr,
}
use passman.Policy.Charset.{Charset, chars, contains, lowercase_chars, uppercase_chars, digit_chars}

-- `filter(|c| !self.disallow.contains(c))`
unfoldable pub allowed : List ℕ → List ℕ → List ℕ
allowed disallow [] = []
allowed disallow (c ∷ cs) =
    let rest = allowed disallow cs in if contains disallow c then rest else c ∷ rest

unfoldable pub filter_class : Charset → Bool → List ℕ → List ℕ
filter_class s enabled class = if not enabled then [] else allowed s.disallow class

unfoldable pub effective_lowercase : Charset → List ℕ
effective_lowercase s = filter_class s s.lowercase lowercase_chars

unfoldable pub effective_uppercase : Charset → List ℕ
effective_uppercase s = filter_class s s.uppercase uppercase_chars

unfoldable pub effective_digits : Charset → List ℕ
effective_digits s = filter_class s s.digits digit_chars

unfoldable pub effective_symbols : Charset → List ℕ
effective_symbols s = allowed s.disallow (chars s.symbols)

-- The loop that pushes what `seen.insert` has not met.
unfoldable pub distinct : List ℕ → List ℕ → List ℕ
distinct seen [] = []
distinct seen (c ∷ cs) =
    let again = distinct seen cs in
    let first = distinct (c ∷ seen) cs in if contains seen c then again else c ∷ first

unfoldable pub effective_set : Charset → List ℕ
effective_set s = distinct [] (
    effective_lowercase s ++ (effective_uppercase s ++ (effective_digits s ++ effective_symbols s)))

contains-append :
    (xs ys : List ℕ) (c : ℕ) → contains (xs ++ ys) c ≡ (contains xs c || contains ys c)
unfolding contains
contains-append [] ys c = refl
contains-append (x ∷ xs) ys c = ground (arith, contains-append xs ys c)

contains-distinct :
    (seen xs : List ℕ) (c : ℕ)
    → contains xs c ≡ true
    → contains seen c ≡ false
    → contains (distinct seen xs) c ≡ true
unfolding contains distinct
contains-distinct seen [] c h k = cc
contains-distinct seen (x ∷ xs) c h k = elim (Bool-cases (contains seen x)) [
  | inl met ↦ rw met (contains-distinct seen xs c (later h (ground arith)) k)
  | inr new ↦ rw new (elim (Bool-cases (c == x)) [
    | inl e ↦ ground arith
    | inr e ↦ ground (arith, contains-distinct (x ∷ seen) xs c)
  ])
]
  where
    later : contains (x ∷ xs) c ≡ true → (c == x) ≡ false → contains xs c ≡ true
    later p q = ground arith

-- Every character of a class that survives is in the effective set.
pub contains-effective_set :
    (s : Charset) (c : ℕ)
    → (contains (effective_lowercase s) c
        || contains (effective_uppercase s) c
        || contains (effective_digits s) c
        || contains (effective_symbols s) c)
      ≡ true
    → contains (effective_set s) c ≡ true
unfolding effective_set
contains-effective_set s c h = contains-distinct [] _ c (joined h) (unfold contains in refl)
  where
    joined :
        (contains (effective_lowercase s) c
            || contains (effective_uppercase s) c
            || contains (effective_digits s) c
            || contains (effective_symbols s) c)
          ≡ true
        → contains
            (effective_lowercase s
              ++ (effective_uppercase s ++ (effective_digits s ++ effective_symbols s)))
            c
          ≡ true
    joined p = rw (contains-append, contains-append, contains-append) (ground arith)
