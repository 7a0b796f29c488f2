-- ===== src/Vault/Padding.antt =====
-- The padded plaintext of the sealed index: `pad_index_plaintext` and `strip_index_padding` of
-- crates/passman-vault/src/vault.rs.
use passman.Prelude.{
  ℕ, ◌+◌, ◌-◌, ◌*◌, ◌/◌, ◌%◌, ◌<◌, ◌^◌, ◌≡◌, refl, sym, ap, ◌∙◌, subst, List, [], ◌++◌,
  append_assoc, Option, some, some-injective, Result, ok, ◌>>=◌, ◌>>◌, guard, ok_or, arith, clamp,
  clamp-eq, length, length-append, length-to_le, length-replicate, take, take-append, drop,
  drop-append, replicate, to_le, leb, le→leb,
}
use passman.Vault.{VaultError, malformed_record}
use passman.Vault.Record.{
  bucket, ◌>>?◌, copy_into, write_u32_le, read_u32_le, checked_add, div_ceil,
}
use passman.Vault.Record.Encode.{copy_into-zeroed, write_u32_le-zeroed, replicate_same, zeroed}
use passman.Vault.Record.Decode.{read_u32_le-prefix, checked_add-some}

-- `none` is a panic.
unfoldable pub pad_index_plaintext : List ℕ → Option (List ℕ)
pad_index_plaintext postcard_bytes =
    let true_len = length postcard_bytes in
    let unpadded = 4 + length postcard_bytes in
    let padded = div_ceil unpadded bucket * bucket in
    let buf = replicate padded 0 in
    write_u32_le buf 0 true_len >>? λ buf'. copy_into buf' 4 postcard_bytes

unfoldable pub strip_index_padding : List ℕ → Result VaultError (List ℕ)
strip_index_padding plaintext = do
  guard (leb 4 (length plaintext)) (malformed_record "sealed index missing true-length prefix")
  end ←
      ok_or (checked_add 4 (read_u32_le plaintext 0))
        (malformed_record "sealed index length overflows")
  guard (leb end (length plaintext)) (malformed_record "sealed index length exceeds plaintext")
  ok (take (end - 4) (drop 4 plaintext))

-- The padding: zeros up to the next multiple of the bucket.
abbrev pub index_padding : List ℕ → ℕ
index_padding bytes = div_ceil (4 + length bytes) bucket * bucket - (4 + length bytes)

-- Padding never leaves its buffer.
pub pad_index_plaintext_lem :
    (bytes : List ℕ)
    → pad_index_plaintext bytes
      ≡ some (to_le 4 (clamp 4 (length bytes)) ++ (bytes ++ replicate (index_padding bytes) 0))
unfolding pad_index_plaintext div_ceil zeroed
pad_index_plaintext_lem bytes =
    let n = length bytes in
    let padded = (4 + n + 255) / 256 * 256 in
    let prefix = to_le 4 (clamp 4 n) in
    rw (write_u32_le-zeroed [] padded 0 n refl (omega arith)) (
      copy_into-zeroed prefix bytes (padded - 4) 4 (sym (length-to_le 4 (clamp 4 n))) (omega arith)
      ∙ ap some (
          append_assoc prefix bytes (replicate (padded - 4 - n) 0)
          ∙ ap (λ l. prefix ++ (bytes ++ l))
              (replicate_same (padded - 4 - n) (index_padding bytes) (omega arith))))

four_less : (n : ℕ) → 4 + n - 4 ≡ n
four_less n = omega arith

-- Index bytes below 4 GiB are padded to a multiple of the bucket, and stripping the padding gives
-- them back.
pub strip_index_padding-pad_index_plaintext :
    (bytes padded : List ℕ)
    → length bytes < 2 ^ 32
    → pad_index_plaintext bytes ≡ some padded
    → (strip_index_padding padded ≡ ok bytes) × (length padded % bucket ≡ 0)
unfolding strip_index_padding div_ceil
strip_index_padding-pad_index_plaintext bytes padded h e =
    let n = length bytes in
    let region = bytes ++ replicate (index_padding bytes) 0 in
    let form : padded ≡ to_le 4 n ++ region =
      some-injective _ _ (sym e ∙ pad_index_plaintext_lem bytes)
      ∙ ap (λ k. to_le 4 k ++ region) (clamp-eq 4 n h) in
    let size : length padded ≡ 4 + (n + index_padding bytes) =
      ap length form
      ∙ omega (
        arith,
        length-append (to_le 4 n) region,
        length-to_le 4 n,
        length-append bytes (replicate (index_padding bytes) 0),
        length-replicate {A = ℕ} (index_padding bytes) 0,
      ) in
    let behind : drop 4 padded ≡ region =
      ap (drop 4) form
      ∙ subst (λ k. drop k (to_le 4 n ++ region) ≡ region) (length-to_le 4 n)
          (drop-append (to_le 4 n) region) in
    (
      rw (le→leb 4 (length padded) (omega arith)) (
          rw (read_u32_le-prefix padded 0 n region h form) (
            rw (checked_add-some 4 n (omega (arith, h))) (
              rw (le→leb (4 + n) (length padded) (omega arith)) (
                rw behind (
                  rw (four_less n)
                    (ap ok (take-append bytes (replicate (index_padding bytes) 0)))))))),
      omega arith,
    )
