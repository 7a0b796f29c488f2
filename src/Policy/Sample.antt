-- ===== src/Policy/Sample.antt =====
-- Unbiased sampling and the shuffle of crates/passman-policy/src/generate.rs. The random number
-- generator is the list of the u32 values that it draws; `none` where a loop draws beyond it.
pub mod Counts
use passman.Prelude.{
  ℕ, zero, suc, ◌+◌, ◌-◌, ◌*◌, ◌/◌, ◌%◌, ◌^◌, ◌<◌, ◌≤◌, ◌≡◌, ◌↔◌, refl, sym, ap, ◌∙◌, subst, List,
  [], ◌∷◌, ◌++◌, Option, none, some, some-injective, Bool, true, false, arith, clamp, length,
  get_or, ltb, ltb→lt, lt→ltb, ◌==◌, if◌then◌else◌, Bool-cases, Option-cases, inl, inr,
}
use native.Mathlib.Nat.{
  div-add-mod', mul-le-mul_right, suc-mul, mod-lt, div-lt_iff_lt-mul, mul-add-mod_self_right,
  mod-eq_of_lt,
}
use passman.Policy.Charset.{contains}

infixl 5 ◌>>?◌
abbrev pub ◌>>?◌ : {A B : Type 0} → Option A → (A → Option B) → Option B
none >>? f = none
some a >>? f = f a

-- The largest multiple of `n` up to `u32::MAX`.
unfoldable pub zone : ℕ → ℕ
zone n = (2 ^ 32 - 1) - (2 ^ 32 - 1) % n

-- One round of the rejection loop.
unfoldable pub index_of : ℕ → ℕ → Option ℕ
unfolding zone
index_of n r = if ltb r (zone n) then some (r % n) else none

unfoldable pub retry : Option ℕ → Option (ℕ × List ℕ) → List ℕ → Option (ℕ × List ℕ)
retry none again draws = again
retry (some j) again draws = some (j, draws)

unfoldable pub uniform_index : ℕ → List ℕ → Option (ℕ × List ℕ)
unfolding index_of retry
uniform_index n [] = none
uniform_index n (r ∷ draws) = let again = uniform_index n draws in retry (index_of n r) again draws

unfoldable pub uniform_from : List ℕ → List ℕ → Option (ℕ × List ℕ)
unfolding uniform_index
uniform_from pool draws =
    uniform_index (clamp 4 (length pool)) draws >>? λ (j, rest). some (get_or pool j 0, rest)

-- `buf[i] = v`
unfoldable pub set_at : List ℕ → ℕ → ℕ → List ℕ
set_at [] i v = []
set_at (x ∷ xs) zero v = v ∷ xs
set_at (x ∷ xs) (suc i) v = x ∷ set_at xs i v

unfoldable pub swap : List ℕ → ℕ → ℕ → List ℕ
unfolding set_at
swap buf i j = set_at (set_at buf i (get_or buf j 0)) j (get_or buf i 0)

-- The loop from `i` down to 1.
unfoldable pub shuffle_from : ℕ → List ℕ → List ℕ → Option (List ℕ × List ℕ)
unfolding swap
shuffle_from zero buf draws = some (buf, draws)
shuffle_from (suc i) buf draws =
    uniform_index (suc (suc i)) draws >>? λ (j, rest). shuffle_from i (swap buf (suc i) j) rest

unfoldable pub shuffle : List ℕ → List ℕ → Option (List ℕ × List ℕ)
unfolding shuffle_from
shuffle buf draws =
    if ltb (length buf) 2 then some (buf, draws) else shuffle_from (length buf - 1) buf draws

zone_multiple : (n : ℕ) → zone n ≡ (2 ^ 32 - 1) / n * n
unfolding zone
zone_multiple n = omega (arith, div-add-mod' (2 ^ 32 - 1) n)

inside : (n j q parts : ℕ) → j < n → q < parts → q * n + j < parts * n
inside n j q parts hj hq =
    let step : suc q * n ≤ parts * n = mul-le-mul_right n hq in omega (arith, step, suc-mul q n)

-- Every index below `n` is made of the same number of draws: it is the remainder of exactly the
-- values `q * n + j` with `q` below `(2 ^ 32 - 1) / n`.
pub index_of_iff :
    (n r j : ℕ)
    → 0 < n
    → (index_of n r ≡ some j) ↔ ((j < n) × ((q : ℕ) × (q < (2 ^ 32 - 1) / n) × (r ≡ q * n + j)))
unfolding index_of
index_of_iff n r j h = (
  λ e. elim (Bool-cases (ltb r (zone n))) [
    | inl below ↦
        let same : r % n ≡ j = some-injective _ _ (rw below at e) in
        let less : r < (2 ^ 32 - 1) / n * n =
          subst (λ z. r < z) (zone_multiple n) (ltb→lt r (zone n) below) in
        (
          subst (λ z. z < n) same (mod-lt r h),
          (
            r / n,
            (div-lt_iff_lt-mul h).1 less,
            sym (div-add-mod' r n) ∙ ap (λ z. r / n * n + z) same,
          ),
        )
    | inr above ↦ cc (rw above at e)
  ],
  λ (hj, (q, hq, e)).
      let less : r < zone n =
        subst (λ z. r < z) (sym (zone_multiple n))
          (subst (λ z. z < (2 ^ 32 - 1) / n * n) (sym e) (inside n j q ((2 ^ 32 - 1) / n) hj hq)) in
      rw (lt→ltb r (zone n) less)
        (ap some (ap (λ z. z % n) e ∙ mul-add-mod_self_right q n j ∙ mod-eq_of_lt hj)),
)
