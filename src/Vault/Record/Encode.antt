-- ===== src/Vault/Record/Encode.antt =====
-- What `encode_padded` writes into its zeroed buffer (crates/passman-vault/src/record.rs).
use passman.Prelude.{
  ℕ, zero, suc, ◌+◌, ◌-◌, ◌*◌, ◌/◌, ◌%◌, ◌<◌, ◌≤◌, ◌≡◌, refl, sym, ap, ◌∙◌, List, [], ◌∷◌, ◌++◌,
  append-nil, append_assoc, some, true, arith, clamp, length, length-append, length-replicate,
  length-to_le, take-append, drop, drop-append, drop-drop, replicate, to_le, le→leb, ap₂, leb,
}
use passman.Vault.Record.{
  EntryRecord, fields, copy_into, write_u32_le, record_len, div_ceil, write_fields, encode_padded,
  bucket,
}

-- The record region: each field behind its length.
unfoldable pub fields_bytes : List (List ℕ) → List ℕ
fields_bytes [] = []
fields_bytes (f ∷ fs) = to_le 4 (clamp 4 (length f)) ++ (f ++ fields_bytes fs)

pub length-fields_bytes : (fs : List (List ℕ)) → length (fields_bytes fs) ≡ record_len fs
unfolding fields_bytes record_len
length-fields_bytes [] = refl
length-fields_bytes (f ∷ fs) = omega (
  arith,
  length-append (to_le 4 (clamp 4 (length f))) (f ++ fields_bytes fs),
  length-append f (fields_bytes fs),
  length-to_le 4 (clamp 4 (length f)),
  length-fields_bytes fs,
)

pub replicate_same : (j k : ℕ) → j ≡ k → replicate {A = ℕ} j 0 ≡ replicate k 0
replicate_same j k e = ap (λ n. replicate n 0) e

drop-replicate : (n k : ℕ) → drop {A = ℕ} n (replicate k 0) ≡ replicate (k - n) 0
drop-replicate zero k = replicate_same k (k - 0) (omega arith)
drop-replicate (suc n) zero = replicate_same 0 (0 - suc n) (omega arith)
drop-replicate (suc n) (suc k) =
    drop-replicate n k ∙ replicate_same (k - n) (suc k - suc n) (omega arith)

-- A buffer whose written part is `xs`, with `k` zeros behind it.
unfoldable pub zeroed : List ℕ → ℕ → List ℕ
zeroed xs k = xs ++ replicate k 0

pub copy_into-zeroed :
    (xs bytes : List ℕ) (k off : ℕ)
    → off ≡ length xs
    → length bytes ≤ k
    → copy_into (zeroed xs k) off bytes ≡ some (zeroed (xs ++ bytes) (k - length bytes))
unfolding copy_into zeroed
copy_into-zeroed xs bytes k off at room =
    let fits : leb (off + length bytes) (length (xs ++ replicate k 0)) ≡ true =
      le→leb _ _ (omega (arith, length-append xs (replicate k 0), length-replicate {A = ℕ} k 0)) in
    let tail : drop (length xs + length bytes) (xs ++ replicate k 0)
        ≡ replicate (k - length bytes) 0 =
      sym (drop-drop (length xs) (length bytes) (xs ++ replicate k 0))
      ∙ ap (drop (length bytes)) (drop-append xs (replicate k 0))
      ∙ drop-replicate (length bytes) k in
    rw fits (rw at (rw (take-append, tail, append_assoc)))

pub write_u32_le-zeroed :
    (xs : List ℕ) (k off value : ℕ)
    → off ≡ length xs
    → 4 ≤ k
    → write_u32_le (zeroed xs k) off value ≡ some (zeroed (xs ++ to_le 4 (clamp 4 value)) (k - 4))
unfolding write_u32_le
write_u32_le-zeroed xs k off value at room =
    let four = length-to_le 4 (clamp 4 value) in
    copy_into-zeroed xs (to_le 4 (clamp 4 value)) k off at (omega (arith, four))
    ∙ ap (λ n. some (zeroed (xs ++ to_le 4 (clamp 4 value)) (k - n))) four

write_fields-zeroed :
    (xs : List ℕ) (fs : List (List ℕ)) (k off : ℕ)
    → off ≡ length xs
    → record_len fs ≤ k
    → write_fields (zeroed xs k) off fs ≡ some (zeroed (xs ++ fields_bytes fs) (k - record_len fs))
unfolding write_fields record_len fields_bytes
write_fields-zeroed xs [] k off at room =
    ap₂ (λ l n. some (zeroed l n)) (sym (append-nil xs)) (omega arith)
write_fields-zeroed xs (f ∷ fs) k off at room =
    let prefix = to_le 4 (clamp 4 (length f)) in
    let at' : off + 4 ≡ length (xs ++ prefix) =
      omega (arith, length-append xs prefix, length-to_le 4 (clamp 4 (length f))) in
    let at'' : off + 4 + length f ≡ length ((xs ++ prefix) ++ f) =
      omega (arith, length-append (xs ++ prefix) f) in
    rw (write_u32_le-zeroed xs k off (length f) at (omega arith)) (
      rw (copy_into-zeroed (xs ++ prefix) f (k - 4) (off + 4) at' (omega arith)) (
        write_fields-zeroed ((xs ++ prefix) ++ f) fs (k - 4 - length f) (off + 4 + length f) at''
          (omega arith)
        ∙ ap₂ (λ l n. some (zeroed l n))
            (append_assoc (xs ++ prefix) f (fields_bytes fs)
              ∙ append_assoc xs prefix (f ++ fields_bytes fs))
            (omega arith)))

-- The padding: zeros up to the next multiple of the bucket.
abbrev pub padding : EntryRecord → ℕ
padding r = let unpadded = 4 + record_len (fields r) in div_ceil unpadded bucket * bucket - unpadded

-- Encoding never leaves its buffer, and makes the length of the record region, the region and the
-- padding, which has less than a bucket and completes a multiple of the bucket.
pub encode_padded_lem :
    (r : EntryRecord)
    → (encode_padded r
        ≡ some (
            to_le 4 (clamp 4 (record_len (fields r)))
            ++ (fields_bytes (fields r) ++ replicate (padding r) 0)))
      × (padding r < bucket)
      × ((4 + record_len (fields r) + padding r) % bucket ≡ 0)
unfolding encode_padded div_ceil zeroed
encode_padded_lem r =
    let len = record_len (fields r) in
    let padded = (4 + len + 255) / 256 * 256 in
    (
      rw (write_u32_le-zeroed [] padded 0 len refl (omega arith)) (
          write_fields-zeroed (to_le 4 (clamp 4 len)) (fields r) (padded - 4) 4
            (sym (length-to_le 4 (clamp 4 len))) (omega arith)
          ∙ ap some (
              append_assoc (to_le 4 (clamp 4 len)) (fields_bytes (fields r))
                (replicate (padded - 4 - len) 0)
              ∙ ap (λ l. to_le 4 (clamp 4 len) ++ (fields_bytes (fields r) ++ l))
                  (replicate_same (padded - 4 - len) (padding r) (omega arith)))),
      omega arith,
      omega arith,
    )
