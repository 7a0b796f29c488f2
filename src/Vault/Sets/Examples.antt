-- ===== src/Vault/Sets/Examples.antt =====
-- The tamper check and the padding at small inputs (crates/passman-vault/src/vault.rs).
use passman.Prelude.{
  ℕ, ◌≡◌, ◌↔◌, refl, List, [], ◌∷◌, ◌++◌, ok, err, some, bytes_eq, replicate, to_le,
}
use passman.Vault.{index_mismatch}
use passman.Vault.Record.{copy_into, write_u32_le, div_ceil}
use passman.Vault.Sets.{check_id_sets, sort_unstable, insert, id_leb, has_repeat, ids_eq}
use passman.Vault.Sets.Exact.{IsMatched, check_id_sets_iff}
use passman.Vault.Padding.{pad_index_plaintext}

abbrev first : List ℕ
first = replicate 16 1

abbrev second : List ℕ
second = replicate 16 2

other_order : check_id_sets (first ∷ second ∷ []) (second ∷ first ∷ []) ≡ ok tt
unfolding check_id_sets sort_unstable insert id_leb has_repeat ids_eq bytes_eq
other_order = refl

repeated : check_id_sets (first ∷ first ∷ []) (first ∷ second ∷ []) ≡ err index_mismatch
unfolding check_id_sets sort_unstable insert id_leb has_repeat ids_eq bytes_eq
repeated = refl

check_id_sets_iff_example :
    (check_id_sets (first ∷ second ∷ []) (second ∷ first ∷ []) ≡ ok tt)
    ↔ IsMatched (first ∷ second ∷ []) (second ∷ first ∷ [])
check_id_sets_iff_example = check_id_sets_iff (first ∷ second ∷ []) (second ∷ first ∷ [])

abbrev padded : List ℕ
padded = (2 ∷ 0 ∷ 0 ∷ 0 ∷ 8 ∷ 9 ∷ []) ++ replicate 250 0

padded_as : pad_index_plaintext (8 ∷ 9 ∷ []) ≡ some padded
unfolding pad_index_plaintext copy_into write_u32_le div_ceil to_le
padded_as = refl
