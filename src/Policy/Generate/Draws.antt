-- ===== src/Policy/Generate/Draws.antt =====
-- The rejection loops of crates/passman-policy/src/generate.rs end on draws that none of them rejects.
use passman.Prelude.{
  ℕ, zero, suc, ◌+◌, ◌-◌, ◌%◌, ◌^◌, ◌<◌, ◌≤◌, ◌≡◌, refl, List, [], ◌∷◌, Option, some, arith, clamp,
  length, get_or, ltb, lt→ltb, All, Bool-cases, inl, inr, ◌⊎◌,
}
use native.Mathlib.Nat.{mod-lt}
use passman.Policy.Sample.{
  zone, index_of, retry, uniform_index, uniform_from, swap, shuffle_from, shuffle,
}
use passman.Policy.Generate.{push_from}

-- Draws in the lower half of u32, which no loop rejects.
abbrev pub IsLow : List ℕ → Type 0
IsLow = All (λ r. r < 2 ^ 31)

-- A loop that returns, having taken `n` of the draws.
pub record Takes {A : Type 0} (o : Option (A × List ℕ)) (draws : List ℕ) (n : ℕ) : Type 0 where
  pub value : A
  pub rest : List ℕ
  pub returned : o ≡ some (value, rest)
  pub used : length rest + n ≡ length draws
  pub low : IsLow rest

uniform_index-Takes :
    (n : ℕ) (draws : List ℕ)
    → 0 < n
    → n ≤ 2 ^ 31
    → 1 ≤ length draws
    → IsLow draws
    → Takes (uniform_index n draws) draws 1
unfolding uniform_index index_of retry zone
uniform_index-Takes n [] h k l low = absurd (omega arith)
uniform_index-Takes n (r ∷ draws) h k l (hr, hrs) = record {
  value = r % n;
  rest = draws;
  returned =
      rw (lt→ltb r ((2 ^ 32 - 1) - (2 ^ 32 - 1) % n) (omega (arith, mod-lt (2 ^ 32 - 1) h))) refl;
  used = omega arith;
  low = hrs;
}

uniform_from-Takes :
    (pool draws : List ℕ)
    → 0 < length pool
    → length pool ≤ 2 ^ 31
    → 1 ≤ length draws
    → IsLow draws
    → Takes (uniform_from pool draws) draws 1
unfolding uniform_from
uniform_from-Takes pool draws h k l low =
    let t = uniform_index-Takes (clamp 4 (length pool)) draws (omega arith) (omega arith) l low in
    record {
      value = get_or pool t.value 0;
      rest = t.rest;
      returned = rw t.returned refl;
      used = t.used;
      low = t.low;
    }

pub push_from-Takes :
    (n : ℕ) (pool draws : List ℕ)
    → (n ≡ 0) ⊎ (0 < length pool)
    → length pool ≤ 2 ^ 31
    → n ≤ length draws
    → IsLow draws
    → Takes (push_from n pool draws) draws n
unfolding push_from
push_from-Takes zero pool draws h k l low = record {
  value = [];
  rest = draws;
  returned = refl;
  used = omega arith;
  low = low;
}
push_from-Takes (suc n) pool draws h k l low =
    let some_pool = nonempty h in
    let t = uniform_from-Takes pool draws some_pool k (omega arith) low in
    let u = push_from-Takes n pool t.rest (inr some_pool) k (omega (arith, t.used)) t.low in
    record {
      value = t.value ∷ u.value;
      rest = u.rest;
      returned = rw t.returned (rw u.returned refl);
      used = omega (arith, t.used, u.used);
      low = u.low;
    }
  where
    nonempty : (suc n ≡ 0) ⊎ (0 < length pool) → 0 < length pool
    nonempty (inl z) = absurd (omega arith)
    nonempty (inr p) = p

shuffle_from-Takes :
    (i : ℕ) (buf draws : List ℕ)
    → i < 2 ^ 30
    → i ≤ length draws
    → IsLow draws
    → Takes (shuffle_from i buf draws) draws i
unfolding shuffle_from
shuffle_from-Takes zero buf draws h l low = record {
  value = buf;
  rest = draws;
  returned = refl;
  used = omega arith;
  low = low;
}
shuffle_from-Takes (suc i) buf draws h l low =
    let t = uniform_index-Takes (suc (suc i)) draws (omega arith) (omega arith) (omega arith) low in
    let u =
      shuffle_from-Takes i (swap buf (suc i) t.value) t.rest (omega arith) (omega (arith, t.used))
        t.low in
    record {
      value = u.value;
      rest = u.rest;
      returned = rw t.returned u.returned;
      used = omega (arith, t.used, u.used);
      low = u.low;
    }

pub shuffle-returns :
    (buf draws : List ℕ)
    → length buf ≤ 256
    → length buf ≤ length draws
    → IsLow draws
    → (r : List ℕ × List ℕ) × (shuffle buf draws ≡ some r)
unfolding shuffle
shuffle-returns buf draws h l low = elim (Bool-cases (ltb (length buf) 2)) [
  | inl short ↦ ((buf, draws), rw short refl)
  | inr long ↦
      let t = shuffle_from-Takes (length buf - 1) buf draws (omega arith) (omega arith) low in
      ((t.value, t.rest), rw long t.returned)
]
