-- ===== src/Recovery/Payload/Canonical.antt =====
-- What `decode_payload` accepts (crates/passman-recovery/src/payload.rs).
use passman.Prelude.{
  not-false, ℕ, zero, suc, ◌<◌, ◌^◌, ◌≡◌, refl, sym, ap, ap₂, ◌∙◌, String, List, [], ◌∷◌, ◌++◌,
  append-nil, false, not, ok, arith, clamp, clamp-eq, length, to_le, All, ◌==◌, IsArray, IsBlob,
  IsByte, IsBytes,
}
use passman.Reader.{read_u32_prefixed_vec}
use passman.Reader.Consumes.{
  ConsumesAll, Consumes-pure, Consumes-weaken, ConsumesAll-pure, ConsumesAll-eof, run-ConsumesAll,
  Consumes-read_u8, Consumes-read_u32_le,
}
use passman.Reader.Parses.{
  Parses, ConsumesAll-parses, Consumes-parses, ConsumesAll-reject, Consumes-rejected,
  Parses-take_array, Parses-read_u32_prefixed_vec,
}
use passman.Utf8.{is_utf8}
use passman.Crypto.Kdf.Encoding.{to_bytes-from_bytes}
use passman.Recovery.{
  RecoveryError, recovery_read_errors, RecoveryEntry, ExportPayload, IsText, IsEntry, IsPayload,
}
use passman.Recovery.Payload.{
  push_u32_prefixed, entry_bytes, entries_bytes, encode_payload, read_text,
  read_u32_prefixed_secret_string, read_entry, read_entries, parse_payload, decode_payload,
}

push_u32_prefixed-blob :
    (bs : List ℕ) → IsBlob (2 ^ 32) bs → push_u32_prefixed bs ≡ to_le 4 (length bs) ++ bs
unfolding push_u32_prefixed
push_u32_prefixed-blob bs h = ap (λ n. to_le 4 n ++ bs) (clamp-eq 4 (length bs) h.size)

Parses-u32_vec :
    (field : String)
    → Parses {E = RecoveryError} (read_u32_prefixed_vec field) push_u32_prefixed (IsBlob (2 ^ 32))
Parses-u32_vec field =
    Consumes-weaken (Parses-read_u32_prefixed_vec field)
      λ a xs (e, h). (push_u32_prefixed-blob a h ∙ e, h)

Parses-read_text :
    (field reason : String) → Parses (read_text field reason) push_u32_prefixed IsText
unfolding read_text
Parses-read_text field reason =
    Consumes-parses _ _ push_u32_prefixed (IsBlob (2 ^ 32)) (Parses-u32_vec field) λ body h.
      Consumes-rejected _ _ _ λ valid.
        Consumes-pure _
          (sym (append-nil _), record { blob = h; utf8 = not-false (is_utf8 body) valid })

Parses-secret :
    (field : String) → Parses (read_u32_prefixed_secret_string field) push_u32_prefixed IsText
unfolding read_u32_prefixed_secret_string
Parses-secret field = Parses-read_text field _

Parses-read_entry : Parses read_entry entry_bytes IsEntry
unfolding read_entry entry_bytes
Parses-read_entry =
    Consumes-parses _ _ (λ a. a) (IsArray 16) (Parses-take_array 16 _)
      λ id hid. Consumes-parses _ _ push_u32_prefixed IsText (Parses-read_text _ _) λ label hlabel.
        Consumes-parses _ _ push_u32_prefixed IsText (Parses-secret _) λ username husername.
          Consumes-parses _ _ push_u32_prefixed IsText (Parses-secret _) λ password hpassword.
            Consumes-parses _ _ push_u32_prefixed IsText (Parses-secret _) λ url hurl.
              Consumes-parses _ _ push_u32_prefixed IsText (Parses-secret _) λ notes hnotes.
                Consumes-parses _ _ push_u32_prefixed (IsBlob (2 ^ 32)) (Parses-u32_vec _)
                  λ policy hpolicy. Consumes-pure _ (
                    simp append-nil,
                    record {
                      id = hid;
                      label = hlabel;
                      username = husername;
                      password = hpassword;
                      url = hurl;
                      notes = hnotes;
                      policy = hpolicy;
                    },
                  )

Parses-read_entries :
    (n : ℕ) → Parses (read_entries n) entries_bytes (λ es. (length es ≡ n) × All IsEntry es)
unfolding read_entries entries_bytes
Parses-read_entries zero = Consumes-pure _ (refl, (refl, tt))
Parses-read_entries (suc n) = Consumes-parses _ _ entry_bytes IsEntry Parses-read_entry λ e he.
    Consumes-parses _ _ entries_bytes _ (Parses-read_entries n) λ es (len, hes).
      Consumes-pure _ (
        ap (λ l. entry_bytes e ++ l) (sym (append-nil (entries_bytes es))),
        (ap suc len, (he, hes)),
      )

version_known : (n : ℕ) → not (n == 1) ≡ false → n ≡ 1
version_known n h = ground arith

entry_count_same :
    (es : List RecoveryEntry) (n : ℕ) → length es ≡ n → n < 2 ^ 32 → clamp 4 (length es) ≡ n
entry_count_same es n len h = omega arith

ConsumesAll-parse_payload :
    ConsumesAll parse_payload (λ p bytes. (encode_payload p ≡ bytes) × IsPayload p)
unfolding parse_payload encode_payload
ConsumesAll-parse_payload =
    ConsumesAll-parses _ _ (λ a. a ∷ []) IsByte (Consumes-read_u8 _)
      λ version _. ConsumesAll-reject _ _ _ λ known.
        ConsumesAll-parses _ _ (λ a. a) (IsArray 32) (Parses-take_array 32 _)
          λ seed hseed.
            ConsumesAll-parses _ _ (λ a. a) (IsArray 9) (Parses-take_array 9 _)
              λ kdf hkdf.
                ConsumesAll-parses _ _ (to_le 4) (λ n. n < 2 ^ 32) (Consumes-read_u32_le _)
                  λ n hn.
                    ConsumesAll-parses _ _ entries_bytes _ (Parses-read_entries n) λ es (len, hes).
                      ConsumesAll-eof _ (
                        ConsumesAll-pure _ λ _. (
                          ap₂ (λ v l. (v ∷ []) ++ (seed ++ l)) (sym (version_known version known))
                              (ap₂ (λ k m. k ++ (to_le 4 m ++ entries_bytes es))
                                  (to_bytes-from_bytes kdf hkdf.size hkdf.bytes).0
                                  (entry_count_same es n len hn)
                                ∙ simp append-nil),
                          record {
                            totp_seed = hseed;
                            kdf = (to_bytes-from_bytes kdf hkdf.size hkdf.bytes).1;
                            count = omega (arith, len, hn);
                            entries = hes;
                          },
                        ))

-- Bytes that are decoded are the encoding of the payload, which is well-formed: no other bytes stand
-- for it.
pub encode_payload-decode_payload :
    (bytes : List ℕ) (p : ExportPayload)
    → IsBytes bytes
    → decode_payload bytes ≡ ok p
    → (encode_payload p ≡ bytes) × IsPayload p
unfolding decode_payload
encode_payload-decode_payload bytes p hb e =
    run-ConsumesAll parse_payload bytes p ConsumesAll-parse_payload hb e
