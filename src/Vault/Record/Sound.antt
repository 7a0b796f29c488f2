-- ===== src/Vault/Record/Sound.antt =====
-- What `decode` accepts (crates/passman-vault/src/record.rs).
use passman.Prelude.{
  ℕ, zero, suc, ◌+◌, ◌<◌, ◌≤◌, ◌^◌, ◌≡◌, refl, sym, ap, ap₂, ◌∙◌, subst, subst₂, List, [], ◌∷◌,
  ◌++◌, append_assoc, Result, ok, err, ◌>>=◌, arith, clamp-eq, length, length-take, length-drop,
  take, take-append-drop, drop, drop-drop, to_le, of_le, to_le-of_le, of_le-lt, All, All-take,
  All-drop, IsBytes, IsByte, and_then-ok, Result-cases, inl, inr,
}
use passman.Vault.{VaultError}
use passman.Vault.Record.{
  EntryRecord, fields, read_u32_le, record_len, checked_add, decode_field, decode_fields, collect,
  decode,
}
use passman.Vault.Record.Encode.{fields_bytes}
use passman.Vault.Record.Decode.{IsUtf8, IsRecord}

err-ne-ok : {A : Type 0} {x : VaultError} {b : A} → ◌≡◌ {A = Result VaultError A} (err x) (ok b) → ⊥
err-ne-ok p = cc

-- The four bytes of a length that lies within the input.
read_u32_le-bytes :
    (bytes : List ℕ) (off : ℕ)
    → IsBytes bytes
    → off + 4 ≤ length bytes
    → (drop off bytes ≡ to_le 4 (read_u32_le bytes off) ++ drop (off + 4) bytes)
      × (read_u32_le bytes off < 2 ^ 32)
unfolding read_u32_le
read_u32_le-bytes bytes off h room =
    let four : List ℕ = take 4 (drop off bytes) in
    let size : length four ≡ 4 =
      omega (arith, length-take 4 (drop off bytes), length-drop off bytes) in
    let bs : IsBytes four = All-take IsByte 4 (drop off bytes) (All-drop IsByte off bytes h) in
    (
      sym (take-append-drop 4 (drop off bytes))
          ∙ ap₂ ◌++◌ (sym (subst (λ k. to_le k (of_le four) ≡ four) size (to_le-of_le four bs)))
              (drop-drop off 4 bytes),
      subst (λ k. of_le four < 256 ^ k) size (of_le-lt four bs),
    )

-- A field that was read at `cursor`, up to `end`.
record IsField (bytes : List ℕ) (region_end cursor : ℕ) (f : List ℕ) (end : ℕ) : Type 0 where
  at : drop cursor bytes ≡ to_le 4 (length f) ++ (f ++ drop end bytes)
  ends : end ≡ cursor + 4 + length f
  within : end ≤ region_end
  size : length f < 2 ^ 32
  text : IsUtf8 f

module _ (bytes : List ℕ) (region_end : ℕ) where
  -- What the guards have seen to.
  decode_field_parts :
      (cursor : ℕ) (f : List ℕ) (end : ℕ)
      → decode_field bytes region_end cursor ≡ ok (f, end)
      → (cursor + 4 ≤ region_end)
        × (f ≡ take (read_u32_le bytes cursor) (drop (cursor + 4) bytes))
        × (end ≡ cursor + 4 + read_u32_le bytes cursor)
        × (end ≤ region_end)
        × IsUtf8 f
  unfolding decode_field checked_add
  decode_field_parts cursor f end e = ground arith

  decode_fields_parts :
      (n cursor : ℕ) (fs : List (List ℕ)) (end : ℕ)
      → decode_fields (suc n) bytes region_end cursor ≡ ok (fs, end)
      → (f : List ℕ) × (next : ℕ) × (rest : List (List ℕ)) × (decode_field bytes region_end cursor
          ≡ ok (f, next))
        × (decode_fields n bytes region_end next ≡ ok (rest, end))
        × (fs ≡ f ∷ rest)
  unfolding decode_fields
  decode_fields_parts n cursor fs end e =
      let ((f, next), e2, e1) =
        and_then-ok (decode_rest n) (decode_field bytes region_end cursor) (fs, end) e in
      let ((rest, last), e4, e3) =
        and_then-ok (λ (q : List (List ℕ) × ℕ). ok (f ∷ q.0, q.1))
          (decode_fields n bytes region_end next) (fs, end) e2 in
      let whole : ◌≡◌ {A = Result VaultError (List (List ℕ) × ℕ)} (ok (f ∷ rest, last))
          (ok (fs, end)) =
        e4 in
      (f, next, rest, e1, e3 ∙ cc whole, cc whole)
    where
      decode_rest : ℕ → List ℕ × ℕ → Result VaultError (List (List ℕ) × ℕ)
      decode_rest n (f, next) =
          decode_fields n bytes region_end next >>= λ (q : List (List ℕ) × ℕ). ok (f ∷ q.0, q.1)

-- The fields that were read from `cursor` on, up to `end`.
record IsRegion (bytes : List ℕ) (n cursor : ℕ) (fs : List (List ℕ)) (end : ℕ) : Type 0 where
  number : length fs ≡ n
  texts : All IsUtf8 fs
  ends : end ≡ cursor + record_len fs
  at : drop cursor bytes ≡ fields_bytes fs ++ drop end bytes

no_fields : (bytes : List ℕ) (cursor : ℕ) → IsRegion bytes 0 cursor [] cursor
unfolding record_len fields_bytes
no_fields bytes cursor = record { number = refl; texts = tt; ends = omega arith; at = refl }

module _ (bytes : List ℕ) (region_end : ℕ) (h : IsBytes bytes)
    (inside : region_end ≤ length bytes) where
  decode_field-IsField :
      (cursor : ℕ) (f : List ℕ) (end : ℕ)
      → decode_field bytes region_end cursor ≡ ok (f, end)
      → IsField bytes region_end cursor f end
  decode_field-IsField cursor f end e =
      let flen : ℕ = read_u32_le bytes cursor in
      let (room, value, ends, within, text) = decode_field_parts bytes region_end cursor f end e in
      let (at, small) = read_u32_le-bytes bytes cursor h (omega (arith, room, inside)) in
      let size : length f ≡ flen =
        ap length value
        ∙ omega (
          arith,
          length-take flen (drop (cursor + 4) bytes),
          length-drop (cursor + 4) bytes,
          ends,
          within,
          inside,
        ) in
      let body : drop (cursor + 4) bytes ≡ f ++ drop end bytes =
        sym (take-append-drop flen (drop (cursor + 4) bytes))
        ∙ ap₂ ◌++◌ (sym value)
            (drop-drop (cursor + 4) flen bytes ∙ ap (λ n. drop n bytes) (sym ends)) in
      record {
        at = at ∙ ap₂ (λ n l. to_le 4 n ++ l) (sym size) body;
        ends = omega (arith, ends, size);
        within = within;
        size = omega (arith, size, small);
        text = text;
      }

  one_more :
      (n cursor : ℕ) (f : List ℕ) (next : ℕ) (rest : List (List ℕ)) (end : ℕ)
      → IsField bytes region_end cursor f next
      → IsRegion bytes n next rest end
      → IsRegion bytes (suc n) cursor (f ∷ rest) end
  unfolding record_len fields_bytes
  one_more n cursor f next rest end field region = record {
    number = ap suc region.number;
    texts = (field.text, region.texts);
    ends = omega (arith, field.ends, region.ends);
    at = field.at ∙ rw region.at (simp (append_assoc, clamp-eq 4 (length f) field.size));
  }

  decode_fields-IsRegion :
      (n cursor : ℕ) (fs : List (List ℕ)) (end : ℕ)
      → decode_fields n bytes region_end cursor ≡ ok (fs, end)
      → IsRegion bytes n cursor fs end
  decode_fields-IsRegion zero cursor fs end e =
      let whole : ◌≡◌ {A = Result VaultError (List (List ℕ) × ℕ)} (ok ([], cursor)) (ok (fs, end)) =
        unfold decode_fields in e in
      subst₂ (λ gs m. IsRegion bytes 0 cursor gs m) (cc whole) (cc whole) (no_fields bytes cursor)
  decode_fields-IsRegion (suc n) cursor fs end e =
      let (f, next, rest, e1, e2, e3) = decode_fields_parts bytes region_end n cursor fs end e in
      let field = decode_field-IsField cursor f next e1 in
      let region = decode_fields-IsRegion n next rest end e2 in
      subst (λ gs. IsRegion bytes (suc n) cursor gs end) (sym e3)
        (one_more n cursor f next rest end field region)

collect-fields :
    (fs : List (List ℕ)) (r : EntryRecord) → length fs ≡ 4 → collect fs ≡ ok r → fs ≡ fields r
unfolding collect
collect-fields (a ∷ b ∷ c ∷ d ∷ []) r len e = cc
collect-fields _ r len e = absurd (omega arith)

decode_parts :
    (bytes : List ℕ) (r : EntryRecord)
    → decode bytes ≡ ok r
    → (4 ≤ length bytes)
      × (4 + read_u32_le bytes 0 ≤ length bytes)
      × ((fs : List (List ℕ)) × (decode_fields 4 bytes (4 + read_u32_le bytes 0) 4
            ≡ ok (fs, 4 + read_u32_le bytes 0))
          × (collect fs ≡ ok r))
unfolding decode checked_add
decode_parts bytes r e = (
  ground arith,
  ground arith,
  elim (Result-cases (decode_fields 4 bytes (4 + read_u32_le bytes 0) 4)) [
    | inl ((fs, c), e1) ↦ (fs, ground arith, ground arith)
    | inr (x, e1) ↦ absurd (ground arith)
  ],
)

-- A plaintext that is decoded is the length of the record's region, the region and some padding, and
-- the fields are well-formed text.
pub decode-region :
    (bytes : List ℕ) (r : EntryRecord)
    → IsBytes bytes
    → decode bytes ≡ ok r
    → IsRecord r
      × ((tail : List ℕ) × (bytes
            ≡ to_le 4 (record_len (fields r)) ++ (fields_bytes (fields r) ++ tail)))
decode-region bytes r h e =
    let (four, inside, (fs, read, collected)) = decode_parts bytes r e in
    let end : ℕ = 4 + read_u32_le bytes 0 in
    let region = decode_fields-IsRegion bytes end h inside 4 4 fs end read in
    let (prefix, small) = read_u32_le-bytes bytes 0 h four in
    let same = collect-fields fs r region.number collected in
    let len : read_u32_le bytes 0 ≡ record_len (fields r) =
      omega (arith, region.ends, ap record_len same) in
    (
      record { texts = subst (All IsUtf8) same region.texts; size = omega (arith, len, small) },
      (
        drop end bytes,
        prefix
            ∙ ap₂ (λ n l. to_le 4 n ++ l) len
                (region.at ∙ ap (λ gs. fields_bytes gs ++ drop end bytes) same),
      ),
    )
