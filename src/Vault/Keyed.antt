-- ===== src/Vault/Keyed.antt =====
-- The vector operations that the index and the envelopes share: the first element with an id, its
-- replacement or a push, and the removal of all with an id.
use passman.Prelude.{
  ℕ, ◌≡◌, ◌≢◌, refl, List, [], ◌∷◌, Option, none, some, arith, bytes_eq, bytes_eq_iff,
  bytes_eq_refl, if◌then◌else◌,
}

module _ {A : Type 0} (key : A → List ℕ) where
  -- `iter().find(|e| e.id == id)`
  unfoldable pub find : List ℕ → List A → Option A
  find id [] = none
  find id (x ∷ xs) = if bytes_eq (key x) id then some x else find id xs

  -- Assign to the first element with the id of `a`, or push `a`.
  unfoldable pub replace_or_push : A → List A → List A
  replace_or_push a [] = a ∷ []
  replace_or_push a (x ∷ xs) =
      let rest = replace_or_push a xs in if bytes_eq (key x) (key a) then a ∷ xs else x ∷ rest

  -- `retain(|e| e.id != id)`
  unfoldable pub retain_ne : List ℕ → List A → List A
  retain_ne id [] = []
  retain_ne id (x ∷ xs) =
      let rest = retain_ne id xs in if bytes_eq (key x) id then rest else x ∷ rest

  pub find-replace_or_push_self :
      (a : A) (xs : List A) → find (key a) (replace_or_push a xs) ≡ some a
  unfolding find replace_or_push
  find-replace_or_push_self a [] = ground (arith, bytes_eq_refl (key a))
  find-replace_or_push_self a (x ∷ xs) =
      ground (arith, bytes_eq_refl (key a), find-replace_or_push_self a xs)

  pub find-replace_or_push_ne :
      (a : A) (id : List ℕ) (xs : List A) → key a ≢ id → find id (replace_or_push a xs) ≡ find id xs
  unfolding find replace_or_push
  find-replace_or_push_ne a id [] ne = ground (arith, bytes_eq_iff (key a) id)
  find-replace_or_push_ne a id (x ∷ xs) ne = ground (
    arith,
    bytes_eq_iff (key a) id,
    bytes_eq_iff (key x) id,
    bytes_eq_iff (key x) (key a),
    find-replace_or_push_ne a id xs ne,
  )

  pub find-retain_ne_self : (id : List ℕ) (xs : List A) → find id (retain_ne id xs) ≡ none
  unfolding find retain_ne
  find-retain_ne_self id [] = refl
  find-retain_ne_self id (x ∷ xs) = ground (arith, find-retain_ne_self id xs)

  pub find-retain_ne_other :
      (id other : List ℕ) (xs : List A) → id ≢ other → find other (retain_ne id xs) ≡ find other xs
  unfolding find retain_ne
  find-retain_ne_other id other [] ne = refl
  find-retain_ne_other id other (x ∷ xs) ne = ground (
    arith,
    bytes_eq_iff (key x) id,
    bytes_eq_iff (key x) other,
    find-retain_ne_other id other xs ne,
  )
