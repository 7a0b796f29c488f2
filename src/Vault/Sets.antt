-- ===== src/Vault/Sets.antt =====
-- The tamper check of crates/passman-vault/src/vault.rs: the index and the envelopes have the same
-- ids, each once. `sort_unstable` of the standard library is an insertion sort here: ids that compare
-- as equal are equal, so every sort gives the same vector.
pub mod Exact
pub mod Updates
mod Examples
pub mod Order
use passman.Prelude.{
  ℕ, List, [], ◌∷◌, Bool, true, false, ◌&&◌, ◌||◌, Result, ok, err, ◌>>=◌, ◌>>◌, guard, not, length,
  ltb, ◌==◌, bytes_eq, if◌then◌else◌, map,
}
use passman.Vault.{VaultError, index_mismatch, EntryEnvelope}
use passman.Vault.Index.{Index, row_id}

-- The derived order of `[u8; 16]`: lexicographic.
unfoldable pub id_leb : List ℕ → List ℕ → Bool
id_leb [] ys = true
id_leb (x ∷ xs) [] = false
id_leb (x ∷ xs) (y ∷ ys) = ltb x y || (x == y && id_leb xs ys)

unfoldable pub insert : List ℕ → List (List ℕ) → List (List ℕ)
insert a [] = a ∷ []
insert a (x ∷ xs) = let rest = insert a xs in if id_leb a x then a ∷ (x ∷ xs) else x ∷ rest

unfoldable pub sort_unstable : List (List ℕ) → List (List ℕ)
unfolding insert
sort_unstable [] = []
sort_unstable (x ∷ xs) = insert x (sort_unstable xs)

-- The loop over `windows(2)`: whether some neighbours are equal.
unfoldable pub has_repeat : List (List ℕ) → Bool
has_repeat [] = false
has_repeat (x ∷ []) = false
has_repeat (x ∷ y ∷ ys) = bytes_eq x y || has_repeat (y ∷ ys)

-- `!=` on vectors of ids.
unfoldable pub ids_eq : List (List ℕ) → List (List ℕ) → Bool
ids_eq [] [] = true
ids_eq (x ∷ xs) (y ∷ ys) = bytes_eq x y && ids_eq xs ys
ids_eq _ _ = false

abbrev pub envelope_id : EntryEnvelope → List ℕ
envelope_id e = e.id

unfoldable pub check_id_sets : List (List ℕ) → List (List ℕ) → Result VaultError (Unit {0})
check_id_sets index_ids env_ids = do
  guard (length index_ids == length env_ids) index_mismatch
  let sorted_index = sort_unstable index_ids
  let sorted_env = sort_unstable env_ids
  guard (not (has_repeat sorted_index)) index_mismatch
  guard (not (has_repeat sorted_env)) index_mismatch
  guard (ids_eq sorted_index sorted_env) index_mismatch

unfoldable pub check_index_envelope_sets : List EntryEnvelope → Index → Result VaultError (Unit {0})
check_index_envelope_sets envelopes index =
    check_id_sets (map row_id index) (map envelope_id envelopes)
