-- ===== src/Hsm/Mock/Unwraps.antt =====
-- What the mock store of crates/passman-hsm/src/mock.rs gives back of what was enrolled.
use passman.Prelude.{
  ℕ, ◌≤◌, ◌≡◌, ◌∙◌, refl, ap, String, List, ◌∷◌, ◌++◌, none, Bool, true, false, Result, ok, err,
  ◌>>=◌, arith, length, length-append, take, drop, take-append, drop-append, leb, ◌==◌,
  if◌then◌else◌, le→leb, subst, ==→eq, Bool-cases, inl, inr,
}
use passman.Crypto.{Primitives, IsAead}
use passman.Crypto.Aead.{encrypt, encrypt_some, decrypt-encrypt}
use passman.Hsm.{
  HsmError, malformed_blob, HsmSlot, vault_key, totp_seed, tag, authenticated, Prompter,
  WrappedBlob, software_mock, HsmKind, mock, into_mock,
}
use passman.Hsm.Blob.{from_parts}
use passman.Hsm.Mock.{
  MockKeyStore, aad, check_forced, check_prompt, begin_unwrap, enroll, complete_unwrap, key_store,
}

-- Working: no failure is forced.
abbrev IsWorking : MockKeyStore → Type 0
IsWorking m = m.forced_failure ≡ none

-- The prompt is answered.
abbrev IsAnswered : Prompter → Type 0
IsAnswered p = (reason : String) → p reason ≡ ok authenticated

from_parts-ok :
    (kind : HsmKind) (payload : List ℕ)
    → length payload ≤ 65535
    → from_parts kind payload ≡ ok (record { kind = kind; payload = payload })
unfolding from_parts
from_parts-ok kind payload h = ground arith

-- The slot that is not this one.
abbrev pub other_slot : HsmSlot → HsmSlot
other_slot vault_key = totp_seed
other_slot totp_seed = vault_key

tag-same : (slot : HsmSlot) → (tag slot == tag slot) ≡ true
unfolding tag
tag-same vault_key = refl
tag-same totp_seed = refl

tag-other : (slot : HsmSlot) → (tag slot == tag (other_slot slot)) ≡ false
unfolding tag
tag-other vault_key = refl
tag-other totp_seed = refl

module _ ⦃p : Primitives⦄ (laws : IsAead p) where
  -- What enrolment makes of a slot's material.
  enroll-blob :
      (m : MockKeyStore) (nonce material : List ℕ) (slot : HsmSlot) (prompter : Prompter)
      → IsWorking m
      → length nonce ≡ 24
      → length material ≤ 65_494
      → IsAnswered prompter
      → (ct : List ℕ) × (encrypt m.key nonce (aad (tag slot)) material ≡ ok ct)
        × (enroll nonce m slot material prompter
            ≡ ok (record { kind = software_mock; payload = tag slot ∷ nonce ++ ct }))
  unfolding enroll check_forced check_prompt
  enroll-blob m nonce material slot prompter working size small answered =
      let (ct, made, len) = encrypt_some laws m.key nonce (aad (tag slot)) material (omega arith) in
      (
        ct,
        made,
        rw working (
            rw (answered "Enroll passman key") (
              rw made
                (from_parts-ok software_mock _ (omega (arith, len, length-append nonce ct))))),
      )

  begin_unwrap-blob :
      (m : MockKeyStore) (nonce ct : List ℕ) (slot asked : HsmSlot)
      → IsWorking m
      → length nonce ≡ 24
      → begin_unwrap m asked (record { kind = software_mock; payload = tag slot ∷ nonce ++ ct }) ≡ (
          if tag slot == tag asked
          then ok
              (mock (record { slot_tag = tag asked; nonce = nonce; ciphertext = ct; key = m.key }))
          else err (malformed_blob "mock payload slot tag does not match requested slot"))
  unfolding begin_unwrap check_forced
  begin_unwrap-blob m nonce ct slot asked working size =
      let room : leb 25 (length (tag slot ∷ nonce ++ ct)) ≡ true =
        le→leb 25 _ (omega (arith, length-append nonce ct)) in
      let head : take 24 (nonce ++ ct) ≡ nonce =
        subst (λ n. take n (nonce ++ ct) ≡ nonce) size (take-append nonce ct) in
      let last : drop 24 (nonce ++ ct) ≡ ct =
        subst (λ n. drop n (nonce ++ ct) ≡ ct) size (drop-append nonce ct) in
      rw working (rw room (rw head (rw last (ground arith))))

  unwraps-blob :
      (m : MockKeyStore) (nonce ct material : List ℕ) (slot asked : HsmSlot) (prompter : Prompter)
      → IsWorking m
      → length nonce ≡ 24
      → IsAnswered prompter
      → encrypt m.key nonce (aad (tag slot)) material ≡ ok ct
      → (do
        handle ←
            begin_unwrap m asked (record { kind = software_mock; payload = tag slot ∷ nonce ++ ct })
        complete_unwrap m handle prompter)
        ≡ (if tag slot == tag asked
            then ok material
            else err (malformed_blob "mock payload slot tag does not match requested slot"))
  unwraps-blob m nonce ct material slot asked prompter working size answered made =
      rw (begin_unwrap-blob m nonce ct slot asked working size)
        (elim (Bool-cases (tag slot == tag asked)) [
          | inl same ↦ rw same (
              unfold complete_unwrap check_forced check_prompt into_mock in
              rw working (
                rw (answered "Unlock passman key") (
                  rw (← ==→eq (tag slot) (tag asked) same) (
                    rw (decrypt-encrypt laws m.key nonce (aad (tag slot)) material ct made) refl))))
          | inr other ↦ rw other refl
        ])

  -- Material of up to 65494 bytes that is enrolled in a slot of the mock store, with no failure forced
  -- and the prompts answered, is unwrapped from that slot, and from the other slot the blob is refused
  -- as malformed.
  pub unwrap-enroll_mock :
      (m : MockKeyStore) (nonce other_nonce material : List ℕ) (slot : HsmSlot)
      (prompter : Prompter)
      → m.forced_failure ≡ none
      → length nonce ≡ 24
      → length material ≤ 65_494
      → ((reason : String) → prompter reason ≡ ok authenticated)
      → (blob : WrappedBlob) × ((key_store nonce m).enroll slot material prompter ≡ ok blob)
        × ((do
          handle ← (key_store other_nonce m).begin_unwrap slot blob
          (key_store other_nonce m).complete_unwrap handle prompter)
            ≡ ok material)
        × ((do
          handle ← (key_store other_nonce m).begin_unwrap (other_slot slot) blob
          (key_store other_nonce m).complete_unwrap handle prompter)
            ≡ err (malformed_blob "mock payload slot tag does not match requested slot"))
  unfolding key_store
  unwrap-enroll_mock m nonce other_nonce material slot prompter working size small answered =
      let (ct, made, enrolled) =
        enroll-blob m nonce material slot prompter working size small answered in
      (
        record { kind = software_mock; payload = tag slot ∷ nonce ++ ct },
        enrolled,
        unwraps-blob m nonce ct material slot slot prompter working size answered made
            ∙ ap outcome (tag-same slot),
        unwraps-blob m nonce ct material slot (other_slot slot) prompter working size answered made
            ∙ ap outcome (tag-other slot),
      )
    where
      outcome : Bool → Result HsmError (List ℕ)
      outcome = λ b.
          if b
          then ok material
          else err (malformed_blob "mock payload slot tag does not match requested slot")
