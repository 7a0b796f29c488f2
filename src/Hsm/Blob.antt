-- ===== src/Hsm/Blob.antt =====
-- crates/passman-hsm/src/blob.rs: the outer framing of a wrap blob.
pub mod Framing
use passman.Prelude.{
  ℕ, zero, suc, String, List, [], ◌∷◌, ◌++◌, Option, none, some, not, Result, ok, err, ◌>>=◌, ◌>>◌,
  guard, ok_or, clamp, length, take, drop, get_or, to_le, of_le, ltb, leb, ◌==◌, if◌then◌else◌,
}
use passman.Hsm.{HsmError, malformed_blob, HsmKind, to_byte, from_byte, WrappedBlob}

abbrev pub blob_version : ℕ
blob_version = 0x00

abbrev pub header_len : ℕ
header_len = 4

-- `bytes.get(..n)` and `bytes.get(n..)`
abbrev pub get_to : ℕ → List ℕ → Option (List ℕ)
get_to n bytes = if leb n (length bytes) then some (take n bytes) else none

abbrev pub get_from : ℕ → List ℕ → Option (List ℕ)
get_from n bytes = if leb n (length bytes) then some (drop n bytes) else none

unfoldable pub from_parts : HsmKind → List ℕ → Result HsmError WrappedBlob
from_parts kind payload =
    if ltb 65535 (length payload)
    then err (malformed_blob "payload exceeds u16::MAX")
    else ok (record { kind = kind; payload = payload })

unfoldable pub to_bytes : WrappedBlob → List ℕ
unfolding to_byte
to_bytes b = blob_version ∷ to_byte b.kind ∷ to_le 2 (clamp 2 (length b.payload)) ++ b.payload

unfoldable pub from_bytes : List ℕ → Result HsmError WrappedBlob
unfolding from_byte
from_bytes bytes = do
  header ← ok_or (get_to header_len bytes) (malformed_blob "input shorter than 4-byte header")
  guard (get_or header 0 0 == blob_version) (malformed_blob "unsupported blob_version")
  kind ← from_byte (get_or header 1 0)
  let payload_len = of_le (get_or header 2 0 ∷ get_or header 3 0 ∷ [])
  payload ← ok_or (get_from header_len bytes) (malformed_blob "missing payload region")
  guard (not (ltb (length payload) payload_len))
      (malformed_blob "payload_len exceeds remaining input")
  guard (not (ltb payload_len (length payload))) (malformed_blob "trailing bytes after payload")
  ok (record { kind = kind; payload = payload })
