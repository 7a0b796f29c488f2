-- ===== src/Vault/Record.antt =====
-- crates/passman-vault/src/record.rs: an entry's four secret fields and their padded plaintext.
pub mod Encode
pub mod Decode
pub mod Sound
mod Examples
use passman.Prelude.{
  ℕ, zero, suc, ◌+◌, ◌-◌, ◌*◌, ◌/◌, ◌^◌, List, [], ◌∷◌, ◌++◌, Option, none, some, Bool, not, Result,
  ok, err, ◌>>=◌, ◌>>◌, guard, ok_or, clamp, length, take, drop, replicate, to_le, of_le, ltb, leb,
  ◌==◌, if◌then◌else◌, ◌≡◌, true,
}
use passman.Utf8.{is_utf8}
use passman.Vault.{VaultError, malformed_record}

abbrev pub bucket : ℕ
bucket = 256

abbrev pub field_count : ℕ
field_count = 4

-- A secret string is the bytes of its text.
pub record EntryRecord : Type 0 where
  pub username : List ℕ
  pub password : List ℕ
  pub url : List ℕ
  pub notes : List ℕ

abbrev pub fields : EntryRecord → List (List ℕ)
fields r = r.username ∷ r.password ∷ r.url ∷ r.notes ∷ []

-- A fallible slice operation: `none` is a panic.
infixl 5 ◌>>?◌
abbrev pub ◌>>?◌ {ℓ κ} : {A : Type ℓ} {B : Type κ} → Option A → (A → Option B) → Option B
none >>? f = none
some a >>? f = f a

-- `buf[off..off + bytes.len()].copy_from_slice(bytes)`
unfoldable pub copy_into : List ℕ → ℕ → List ℕ → Option (List ℕ)
copy_into buf off bytes =
    if leb (off + length bytes) (length buf)
    then some (take off buf ++ (bytes ++ drop (off + length bytes) buf))
    else none

unfoldable pub write_u32_le : List ℕ → ℕ → ℕ → Option (List ℕ)
write_u32_le buf off value = copy_into buf off (to_le 4 (clamp 4 value))

-- Callers have seen to the bounds.
unfoldable pub read_u32_le : List ℕ → ℕ → ℕ
read_u32_le buf off = of_le (take 4 (drop off buf))

-- The sum over the fields of `4 + f.len()`.
unfoldable pub record_len : List (List ℕ) → ℕ
record_len [] = 0
record_len (f ∷ fs) = 4 + length f + record_len fs

unfoldable pub div_ceil : ℕ → ℕ → ℕ
div_ceil n d = (n + (d - 1)) / d

-- The loop over the fields, from the offset `off` on.
unfoldable pub write_fields : List ℕ → ℕ → List (List ℕ) → Option (List ℕ)
write_fields buf off [] = some buf
write_fields buf off (field ∷ rest) = write_u32_le buf off (length field) >>? λ buf'.
    copy_into buf' (off + 4) field >>? λ buf''. write_fields buf'' (off + 4 + length field) rest

unfoldable pub encode_padded : EntryRecord → Option (List ℕ)
encode_padded r =
    let len = record_len (fields r) in
    let unpadded = 4 + len in
    let padded = div_ceil unpadded bucket * bucket in
    let buf = replicate padded 0 in
    write_u32_le buf 0 len >>? λ buf'. write_fields buf' 4 (fields r)

-- `usize::checked_add`
unfoldable pub checked_add : ℕ → ℕ → Option ℕ
checked_add a b = if ltb (a + b) (2 ^ 64) then some (a + b) else none

-- One round of the decoding loop: the field at `cursor`, and the cursor behind it.
unfoldable pub decode_field : List ℕ → ℕ → ℕ → Result VaultError (List ℕ × ℕ)
decode_field bytes region_end cursor = do
  guard (leb (cursor + 4) region_end) (malformed_record "field length prefix overruns record")
  let flen = read_u32_le bytes cursor
  field_end ← ok_or (checked_add (cursor + 4) flen) (malformed_record "field length overflows")
  guard (leb field_end region_end) (malformed_record "field body overruns record")
  let field = take flen (drop (cursor + 4) bytes)
  guard (is_utf8 field) (malformed_record "field is not valid UTF-8")
  ok (field, field_end)

unfoldable pub decode_fields : ℕ → List ℕ → ℕ → ℕ → Result VaultError (List (List ℕ) × ℕ)
decode_fields zero bytes region_end cursor = ok ([], cursor)
decode_fields (suc n) bytes region_end cursor = do
  (field, cursor') ← decode_field bytes region_end cursor
  (rest, end) ← decode_fields n bytes region_end cursor'
  ok (field ∷ rest, end)

unfoldable pub next_field : List (List ℕ) → Result VaultError (List ℕ × List (List ℕ))
next_field [] = err (malformed_record "fewer fields than expected")
next_field (f ∷ rest) = ok (f, rest)

-- The fields out of the vector, in order.
unfoldable pub collect : List (List ℕ) → Result VaultError EntryRecord
unfolding next_field
collect field_values = do
  (username, iter) ← next_field field_values
  (password, iter') ← next_field iter
  (url, iter'') ← next_field iter'
  (notes, _) ← next_field iter''
  ok (record { username = username; password = password; url = url; notes = notes })

unfoldable pub decode : List ℕ → Result VaultError EntryRecord
decode bytes = do
  guard (leb 4 (length bytes)) (malformed_record "missing true-length prefix")
  region_end ←
      ok_or (checked_add 4 (read_u32_le bytes 0)) (malformed_record "record length overflows")
  guard (leb region_end (length bytes)) (malformed_record "record length exceeds plaintext")
  (field_values, cursor) ← decode_fields field_count bytes region_end 4
  guard (cursor == region_end) (malformed_record "record region not fully consumed")
  collect field_values
