-- ===== src/Vault/Record/Examples.antt =====
-- A small record and its plaintext (crates/passman-vault/src/record.rs), and the theorems at it.
use passman.Prelude.{
  ℕ, ◌+◌, ◌%◌, ◌<◌, ◌≡◌, refl, List, [], ◌∷◌, ◌++◌, some, ok, err, arith, clamp, replicate, to_le,
  of_le,
}
use passman.Utf8.{is_utf8}
use passman.Vault.{malformed_record}
use passman.Vault.Record.{
  EntryRecord, fields, record_len, bucket, div_ceil, copy_into, write_u32_le, write_fields,
  encode_padded, read_u32_le, checked_add, decode_field, decode_fields, collect, decode,
}
use passman.Vault.Record.Encode.{fields_bytes, padding, encode_padded_lem}
use passman.Vault.Record.Decode.{IsRecord, decode-encode_padded}
use passman.Vault.Record.Sound.{decode-region}

-- "al", "pä", "" and "n".
abbrev sample : EntryRecord
sample = record {
  username = 97 ∷ 108 ∷ [];
  password = 112 ∷ 0xc3 ∷ 0xa4 ∷ [];
  url = [];
  notes = 110 ∷ [];
}

abbrev sample_plaintext : List ℕ
sample_plaintext =
    (22 ∷ 0 ∷ 0 ∷ 0 ∷ 2 ∷ 0 ∷ 0 ∷ 0 ∷ 97 ∷ 108 ∷ 3 ∷ 0 ∷ 0 ∷ 0 ∷ 112 ∷ 0xc3 ∷ 0xa4 ∷ [])
    ++ ((0 ∷ 0 ∷ 0 ∷ 0 ∷ 1 ∷ 0 ∷ 0 ∷ 0 ∷ 110 ∷ []) ++ replicate 230 0)

sample-IsRecord : IsRecord sample
unfolding is_utf8 record_len
sample-IsRecord = record { texts = (refl, (refl, (refl, (refl, tt)))); size = omega arith }

encode_padded-sample : encode_padded sample ≡ some sample_plaintext
unfolding encode_padded write_fields write_u32_le copy_into record_len div_ceil to_le
encode_padded-sample = refl

decode-sample : decode sample_plaintext ≡ ok sample
unfolding decode decode_fields decode_field collect checked_add read_u32_le of_le is_utf8
decode-sample = refl

-- A field whose length overruns the record's region.
decode_overrun :
    decode (4 ∷ 0 ∷ 0 ∷ 0 ∷ 1 ∷ 0 ∷ 0 ∷ 0 ∷ [])
    ≡ err (malformed_record "field body overruns record")
unfolding decode decode_fields decode_field collect checked_add read_u32_le of_le is_utf8
decode_overrun = refl

encode_padded_lem_example :
    (encode_padded sample
      ≡ some (
          to_le 4 (clamp 4 (record_len (fields sample)))
          ++ (fields_bytes (fields sample) ++ replicate (padding sample) 0)))
    × (padding sample < bucket)
    × ((4 + record_len (fields sample) + padding sample) % bucket ≡ 0)
encode_padded_lem_example = encode_padded_lem sample

decode-encode_padded_example : decode sample_plaintext ≡ ok sample
decode-encode_padded_example =
    decode-encode_padded sample sample_plaintext sample-IsRecord encode_padded-sample

decode-region_example :
    IsRecord sample
    × ((tail : List ℕ) × (sample_plaintext
          ≡ to_le 4 (record_len (fields sample)) ++ (fields_bytes (fields sample) ++ tail)))
decode-region_example = decode-region sample_plaintext sample (omega arith) decode-sample
