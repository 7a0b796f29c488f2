-- ===== src/Recovery/Payload/RoundTrip.antt =====
-- `decode_payload` reads back what `encode_payload` wrote (crates/passman-recovery/src/payload.rs).
use passman.Prelude.{
  ℕ, ◌<◌, ◌^◌, ◌≡◌, refl, ap, ◌∙◌, String, List, [], ◌∷◌, ◌++◌, append-nil, not, ok, arith, clamp,
  length, to_le, All,
}
use passman.Reader.{read_u32_le, read_u32_prefixed_vec}
use passman.Reader.Reads.{
  Reads, Reads-pure, Reads-bind, Reads-cast, Reads-map, Reads-take_array, Reads-read_u8,
  Reads-read_u32_le, Reads-read_u32_prefixed_vec, Reads-reject, ReadsAll, ReadsAll-bind,
  ReadsAll-end, ReadsAll-eof, ReadsAll-pure, run-ReadsAll,
}
use passman.Crypto.Kdf
use passman.Crypto.Kdf.Encoding.{length-to_bytes, from_bytes-to_bytes}
use passman.Recovery.{
  RecoveryError, recovery_read_errors, RecoveryEntry, ExportPayload, IsText, IsEntry, IsPayload,
}
use passman.Recovery.Payload.{
  push_u32_prefixed, entry_bytes, entries_bytes, encode_payload, read_text,
  read_u32_prefixed_secret_string, read_entry, read_entries, parse_payload, decode_payload,
}

Reads-blob :
    (bs : List ℕ) (field : String)
    → length bs < 2 ^ 32
    → Reads {E = RecoveryError} (read_u32_prefixed_vec field) (push_u32_prefixed bs) bs
unfolding push_u32_prefixed
Reads-blob bs field h =
    Reads-cast (ap (λ n. to_le 4 n ++ bs) (omega arith)) refl
      (Reads-read_u32_prefixed_vec bs field h)

Reads-read_text :
    (bs : List ℕ) (field reason : String)
    → IsText bs
    → Reads (read_text field reason) (push_u32_prefixed bs) bs
unfolding read_text
Reads-read_text bs field reason h = Reads-cast (append-nil _) refl (
    Reads-bind _ (Reads-blob bs field h.blob.size)
      (Reads-bind _ (Reads-reject _ _ (ap not h.utf8)) (Reads-pure bs)))

Reads-secret :
    (bs : List ℕ) (field : String)
    → IsText bs
    → Reads (read_u32_prefixed_secret_string field) (push_u32_prefixed bs) bs
unfolding read_u32_prefixed_secret_string
Reads-secret bs field h = Reads-read_text bs field _ h

Reads-read_entry : (e : RecoveryEntry) → IsEntry e → Reads read_entry (entry_bytes e) e
unfolding read_entry entry_bytes
Reads-read_entry e h = Reads-bind _ (Reads-take_array 16 e.id _ h.id.size) (
    Reads-bind _ (Reads-read_text e.label _ _ h.label) (
      Reads-bind _ (Reads-secret e.username _ h.username) (
        Reads-bind _ (Reads-secret e.password _ h.password) (
          Reads-bind _ (Reads-secret e.url _ h.url) (
            Reads-bind _ (Reads-secret e.notes _ h.notes)
              (Reads-map _ (Reads-blob e.policy _ h.policy.size)))))))

Reads-read_entries :
    (es : List RecoveryEntry)
    → All IsEntry es
    → Reads (read_entries (length es)) (entries_bytes es) es
unfolding read_entries entries_bytes
Reads-read_entries [] h = Reads-pure []
Reads-read_entries (e ∷ es) (h, hs) =
    Reads-bind _ (Reads-read_entry e h) (Reads-map _ (Reads-read_entries es hs))

Reads-entry_count :
    (es : List RecoveryEntry)
    → length es < 2 ^ 32
    → Reads {E = RecoveryError}
        (read_u32_le "entry_count")
        (to_le 4 (clamp 4 (length es)))
        (length es)
Reads-entry_count es h =
    Reads-cast (ap (to_le 4) (omega arith)) refl (Reads-read_u32_le (length es) _ h)

ReadsAll-parse_payload :
    (p : ExportPayload)
    → IsPayload p
    → ReadsAll parse_payload
        (encode_payload p)
        (record p { original_vault_kdf = Kdf.from_bytes (Kdf.to_bytes p.original_vault_kdf) })
unfolding parse_payload encode_payload
ReadsAll-parse_payload p h = ReadsAll-bind _ (Reads-read_u8 1 _) (
    ReadsAll-bind _ (Reads-reject _ _ refl) (
      ReadsAll-bind _ (Reads-take_array 32 p.totp_seed _ h.totp_seed.size) (
        ReadsAll-bind _
          (Reads-take_array 9 (Kdf.to_bytes p.original_vault_kdf) _
            (length-to_bytes p.original_vault_kdf))
          (ReadsAll-bind _ (Reads-entry_count p.entries h.count) (
            ReadsAll-end _ (Reads-read_entries p.entries h.entries)
              (ReadsAll-eof _ (ReadsAll-pure _ [])))))))

-- A well-formed payload that is encoded is decoded to itself.
pub decode_payload-encode_payload :
    (p : ExportPayload) → IsPayload p → decode_payload (encode_payload p) ≡ ok p
unfolding decode_payload
decode_payload-encode_payload p h =
    run-ReadsAll parse_payload (encode_payload p) _ (ReadsAll-parse_payload p h)
    ∙ ap (λ k. ok (record p { original_vault_kdf = k }))
        (from_bytes-to_bytes p.original_vault_kdf h.kdf)
