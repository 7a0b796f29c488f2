-- ===== src/Vault/Record/Decode.antt =====
-- `decode` reads back what `encode_padded` wrote (crates/passman-vault/src/record.rs).
use passman.Prelude.{
  ℕ, ◌+◌, ◌<◌, ◌≤◌, ◌^◌, ◌≡◌, refl, sym, ap, ◌∙◌, subst, List, [], ◌∷◌, ◌++◌, append_assoc, some,
  some-injective, true, ok, arith, clamp-eq, length, length-append, length-replicate, length-to_le,
  of_le-to_le, take, take-append, drop, drop-append, drop-drop, replicate, to_le, le→leb, lt→ltb,
  eq→==, All,
}
use passman.Utf8.{is_utf8}
use passman.Vault.Record.{
  EntryRecord, fields, read_u32_le, record_len, checked_add, decode_field, decode_fields, collect,
  decode, encode_padded,
}
use passman.Vault.Record.Encode.{fields_bytes, length-fields_bytes, padding, encode_padded_lem}

abbrev pub IsUtf8 : List ℕ → Type 0
IsUtf8 f = is_utf8 f ≡ true

pub read_u32_le-prefix :
    (bytes : List ℕ) (off n : ℕ) (more : List ℕ)
    → n < 2 ^ 32
    → drop off bytes ≡ to_le 4 n ++ more
    → read_u32_le bytes off ≡ n
unfolding read_u32_le
read_u32_le-prefix bytes off n more h e =
    let front : take 4 (to_le 4 n ++ more) ≡ to_le 4 n =
      subst (λ k. take k (to_le 4 n ++ more) ≡ to_le 4 n) (length-to_le 4 n)
        (take-append (to_le 4 n) more) in
    rw e (rw front (of_le-to_le 4 n (omega arith)))

pub checked_add-some : (a b : ℕ) → a + b < 2 ^ 64 → checked_add a b ≡ some (a + b)
unfolding checked_add
checked_add-some a b h = rw (lt→ltb _ _ h)

-- What is left behind a part that was read.
drop_behind :
    (off : ℕ) (bytes xs more : List ℕ) (n : ℕ)
    → drop off bytes ≡ xs ++ more
    → length xs ≡ n
    → drop (off + n) bytes ≡ more
drop_behind off bytes xs more n e len =
    sym (drop-drop off n bytes)
    ∙ ap (drop n) e
    ∙ subst (λ k. drop k (xs ++ more) ≡ more) len (drop-append xs more)

decode_field-ok :
    (bytes : List ℕ) (region_end cursor : ℕ) (f more : List ℕ)
    → drop cursor bytes ≡ to_le 4 (length f) ++ (f ++ more)
    → cursor + 4 + length f ≤ region_end
    → length f < 2 ^ 32
    → region_end < 2 ^ 64
    → IsUtf8 f
    → decode_field bytes region_end cursor ≡ ok (f, cursor + 4 + length f)
unfolding decode_field
decode_field-ok bytes region_end cursor f more e room small bound u =
    let body : take (length f) (drop (cursor + 4) bytes) ≡ f =
      ap (take (length f))
        (drop_behind cursor bytes (to_le 4 (length f)) (f ++ more) 4 e (length-to_le 4 (length f)))
      ∙ take-append f more in
    rw (le→leb (cursor + 4) region_end (omega arith)) (
      rw (read_u32_le-prefix bytes cursor (length f) (f ++ more) small e) (
        rw (checked_add-some (cursor + 4) (length f) (omega arith))
          (rw (le→leb (cursor + 4 + length f) region_end room) (rw body (rw u)))))

decode_fields-ok :
    (fs : List (List ℕ)) (bytes : List ℕ) (region_end cursor : ℕ) (more : List ℕ)
    → drop cursor bytes ≡ fields_bytes fs ++ more
    → cursor + record_len fs ≤ region_end
    → record_len fs < 2 ^ 32
    → region_end < 2 ^ 64
    → All IsUtf8 fs
    → decode_fields (length fs) bytes region_end cursor ≡ ok (fs, cursor + record_len fs)
unfolding decode_fields fields_bytes record_len
decode_fields-ok [] bytes region_end cursor more e room small bound u =
    ap (λ n. ok ([], n)) (omega arith)
decode_fields-ok (f ∷ fs) bytes region_end cursor more e room small bound (u, us) =
    let front : drop cursor bytes ≡ to_le 4 (length f) ++ (f ++ (fields_bytes fs ++ more)) =
      e ∙ simp (append_assoc, clamp-eq 4 (length f) (omega arith)) in
    let behind : drop (cursor + 4 + length f) bytes ≡ fields_bytes fs ++ more =
      drop_behind (cursor + 4) bytes f (fields_bytes fs ++ more) (length f)
        (drop_behind cursor bytes (to_le 4 (length f)) _ 4 front (length-to_le 4 (length f)))
        refl in
    rw (decode_field-ok bytes region_end cursor f _ front (omega arith) (omega arith) bound u) (
      rw
        (decode_fields-ok fs bytes region_end (cursor + 4 + length f) more behind (omega arith)
          (omega arith) bound us)
        (ap (λ n. ok (f ∷ fs, n)) (omega arith)))

-- The four fields are well-formed text, and the region's length fits its prefix.
pub record IsRecord (r : EntryRecord) : Type 0 where
  pub texts : All IsUtf8 (fields r)
  pub size : record_len (fields r) < 2 ^ 32

-- Every record of well-formed text, padded and encoded, is decoded to itself.
pub decode-encode_padded :
    (r : EntryRecord) (bytes : List ℕ)
    → IsRecord r
    → encode_padded r ≡ some bytes
    → decode bytes ≡ ok r
unfolding decode collect
decode-encode_padded r bytes h e =
    let len = record_len (fields r) in
    let region = fields_bytes (fields r) ++ replicate (padding r) 0 in
    let form : bytes ≡ to_le 4 len ++ region =
      some-injective _ _ (sym e ∙ (encode_padded_lem r).0)
      ∙ ap (λ n. to_le 4 n ++ region) (clamp-eq 4 len h.size) in
    let size : length bytes ≡ 4 + (len + padding r) =
      ap length form
      ∙ omega (
        arith,
        length-append (to_le 4 len) region,
        length-to_le 4 len,
        length-append (fields_bytes (fields r)) (replicate (padding r) 0),
        length-fields_bytes (fields r),
        length-replicate {A = ℕ} (padding r) 0,
      ) in
    rw (le→leb 4 (length bytes) (omega arith)) (
      rw (read_u32_le-prefix bytes 0 len region h.size form) (
        rw (checked_add-some 4 len (omega (arith, h.size))) (
          rw (le→leb (4 + len) (length bytes) (omega arith)) (
            rw
              (decode_fields-ok (fields r) bytes (4 + len) 4 (replicate (padding r) 0)
                (drop_behind 0 bytes (to_le 4 len) region 4 form (length-to_le 4 len)) (omega arith)
                h.size (omega (arith, h.size)) h.texts)
              (rw (eq→== (4 + len) (4 + len) refl))))))
