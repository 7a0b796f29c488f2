-- ===== src/Hsm/Blob/Framing.antt =====
-- The framing of crates/passman-hsm/src/blob.rs and its parser agree.
use passman.Prelude.{
  ℕ, ◌≤◌, ◌<◌, ◌≡◌, ◌↔◌, refl, sym, ap, ◌∙◌, subst, List, [], ◌∷◌, ◌++◌, ok, arith, clamp, length,
  to_le, of_le, ◌%◌, ◌/◌, IsBytes, ap₂,
}
use passman.Hsm.{HsmKind, to_byte, from_byte, WrappedBlob}
use passman.Hsm.Blob.{to_bytes, from_bytes}

from_byte-to_byte : (kind : HsmKind) → from_byte (to_byte kind) ≡ ok kind
unfolding from_byte to_byte
from_byte-to_byte kind = ground arith

to_byte-from_byte : (b : ℕ) (kind : HsmKind) → from_byte b ≡ ok kind → to_byte kind ≡ b
unfolding from_byte to_byte
to_byte-from_byte b kind h = ground arith

low_high : (a b n : ℕ) → a < 256 → b < 256 → of_le (a ∷ b ∷ []) ≡ n → to_le 2 n ≡ a ∷ b ∷ []
unfolding of_le to_le
low_high a b n ha hb h =
    subst (λ z. to_le 2 z ≡ a ∷ b ∷ []) h
      (unfold to_le in ap₂ ◌∷◌ (omega arith) (ap₂ ◌∷◌ (omega arith) refl))

-- What a blob that was parsed, of a known kind, says of its bytes.
parsed :
    (v k a c : ℕ) (payload : List ℕ) (b : WrappedBlob)
    → from_bytes (v ∷ k ∷ a ∷ c ∷ payload) ≡ ok b
    → (v ≡ 0)
      × (from_byte k ≡ ok b.kind)
      × (of_le (a ∷ c ∷ []) ≡ length payload)
      × (b.payload ≡ payload)
unfolding from_bytes
parsed v k a c payload b e = ground arith

to_bytes-parsed :
    (bytes : List ℕ) (b : WrappedBlob)
    → IsBytes bytes
    → from_bytes bytes ≡ ok b
    → (bytes ≡ to_bytes b) × (length b.payload ≤ 65535)
to_bytes-parsed [] b h e = unfold from_bytes in absurd (ground arith)
to_bytes-parsed (v ∷ []) b h e = unfold from_bytes in absurd (ground arith)
to_bytes-parsed (v ∷ k ∷ []) b h e = unfold from_bytes in absurd (ground arith)
to_bytes-parsed (v ∷ k ∷ a ∷ []) b h e = unfold from_bytes in absurd (ground arith)
to_bytes-parsed (v ∷ k ∷ a ∷ c ∷ payload) b h e =
    let (version, kind, len, rest) = parsed v k a c payload b e in
    let same_len : length b.payload ≡ length payload = ap length rest in
    let small : length b.payload ≤ 65535 = unfold of_le in omega (arith, len, same_len) in
    (
      unfold to_bytes in
          ap₂ ◌∷◌ version (
            ap₂ ◌∷◌ (sym (to_byte-from_byte k b.kind kind)) (
              ap₂ ◌++◌
                (sym (
                  low_high a c (clamp 2 (length b.payload)) h.1.1.0 h.1.1.1.0
                    (omega (arith, len, same_len, small))))
                (sym rest))),
      small,
    )

parses :
    (k a c : ℕ) (kind : HsmKind) (payload : List ℕ)
    → from_byte k ≡ ok kind
    → of_le (a ∷ c ∷ []) ≡ length payload
    → from_bytes (0 ∷ k ∷ a ∷ c ∷ payload) ≡ ok (record { kind = kind; payload = payload })
unfolding from_bytes
parses k a c kind payload known len = ground arith

from_bytes-to_bytes_blob :
    (b : WrappedBlob) → length b.payload ≤ 65535 → from_bytes (to_bytes b) ≡ ok b
unfolding to_bytes to_le
from_bytes-to_bytes_blob b small =
    parses (to_byte b.kind) (clamp 2 (length b.payload) % 256)
      (clamp 2 (length b.payload) / 256 % 256) b.kind b.payload (from_byte-to_byte b.kind)
      (unfold of_le in omega arith)

-- Bytes are accepted as a blob exactly where they are its serialisation, and its payload fits the
-- length field.
pub from_bytes_iff_blob :
    (bytes : List ℕ) (b : WrappedBlob)
    → IsBytes bytes
    → (from_bytes bytes ≡ ok b) ↔ ((bytes ≡ to_bytes b) × (length b.payload ≤ 65535))
from_bytes_iff_blob bytes b h =
    (to_bytes-parsed bytes b h, λ (e, small). ap from_bytes e ∙ from_bytes-to_bytes_blob b small)
