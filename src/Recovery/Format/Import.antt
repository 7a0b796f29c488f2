-- ===== src/Recovery/Format/Import.antt =====
-- What an exported file is imported to (crates/passman-recovery/src/format.rs).
use passman.Prelude.{
  ℕ, ◌+◌, ◌<◌, ◌≤◌, ◌^◌, ◌≡◌, refl, ap, List, [], Option, true, false, not, Result, ok, err,
  map_err, arith, clamp, length, to_le, ltb, bytes_eq_refl, IsArray,
}
use passman.Reader.{lift, read_u32_le}
use passman.Reader.Reads.{
  Reads, Reads-cast, Reads-take, Reads-take_array, Reads-read_u8, Reads-read_u32_le, Reads-reject,
  ReadsAll, ReadsAll-bind, ReadsAll-end, ReadsAll-eof, ReadsAll-lift, run-ReadsAll, Reads-pure,
}
use passman.Crypto.{Primitives, IsAead}
use passman.Crypto.Aead.{encrypt, encrypt_some, decrypt-encrypt, tag_len}
use passman.Crypto.Kdf.{KdfParams, IsParams, within_limits}
use passman.Recovery.{RecoveryError, recovery_read_errors, ExportPayload, IsPayload}
use passman.Recovery.Cost.{meets_floor, derive_recovery_key, derived-within_limits}
use passman.Recovery.Payload.{encode_payload}
use passman.Recovery.Payload.RoundTrip.{decode_payload-encode_payload}
use passman.Recovery.Format.{
  magic_bytes, recovery_ad, file_bytes, decrypt_failure, seal, export_within_memory, parse_file,
  import_within_memory,
}

Reads-lift : {A : Type 0} (m : Result RecoveryError A) (a : A) → m ≡ ok a → Reads (lift m) [] a
Reads-lift (ok b) a h = let same : b ≡ a = cc in Reads-cast refl same (Reads-pure b)
Reads-lift (err b) a h = cc

Reads-length :
    (ct : List ℕ)
    → length ct < 2 ^ 32
    → Reads {E = RecoveryError}
        (read_u32_le "payload_ct_len")
        (to_le 4 (clamp 4 (length ct)))
        (length ct)
Reads-length ct h = Reads-cast (ap (to_le 4) (omega arith)) refl (Reads-read_u32_le (length ct) _ h)

long_enough : (ct : List ℕ) → 16 ≤ length ct → ltb (length ct) tag_len ≡ false
long_enough ct h = ground arith

module _ ⦃prim : Primitives⦄ (laws : IsAead prim) (password : List ℕ) (available : Option ℕ) where
  ReadsAll-parse_file :
      (k : KdfParams) (salt nonce key ct : List ℕ) (p : ExportPayload)
      → IsPayload p
      → IsParams k
      → within_limits k ≡ true
      → IsArray 32 salt
      → IsArray 24 nonce
      → length ct < 2 ^ 32
      → 16 ≤ length ct
      → derive_recovery_key password salt k available ≡ ok key
      → encrypt key nonce recovery_ad (encode_payload p) ≡ ok ct
      → ReadsAll (parse_file password available) (file_bytes k salt nonce ct) p
  unfolding parse_file file_bytes
  ReadsAll-parse_file k salt nonce key ct p hp hk w hs hn small long derived sealed =
      ReadsAll-bind _ (Reads-take_array 6 magic_bytes _ refl) (
        ReadsAll-bind _ (Reads-reject _ _ (ap not (bytes_eq_refl magic_bytes))) (
          ReadsAll-bind _ (Reads-read_u8 1 _) (
            ReadsAll-bind _ (Reads-reject _ _ refl) (
              ReadsAll-bind _ (Reads-read_u8 0 _) (
                ReadsAll-bind _ (Reads-reject _ _ refl) (
                  ReadsAll-bind _ (Reads-read_u32_le k.m_kib _ hk.m_kib_fits) (
                    ReadsAll-bind _ (Reads-read_u32_le k.t _ hk.t_fits) (
                      ReadsAll-bind _ (Reads-read_u8 k.p _) (
                        ReadsAll-bind _ (Reads-reject _ _ (ap not w)) (
                          ReadsAll-bind _ (Reads-take_array 32 salt _ hs.size) (
                            ReadsAll-bind _ (Reads-take_array 24 nonce _ hn.size) (
                              ReadsAll-bind _ (Reads-length ct small) (
                                ReadsAll-end _ (Reads-take (length ct) ct _ refl) (
                                  ReadsAll-eof _ (
                                    ReadsAll-bind _ (Reads-reject _ _ (long_enough ct long)) (
                                      ReadsAll-bind _ (Reads-lift _ key derived) (
                                        ReadsAll-bind _
                                          (Reads-lift _ (encode_payload p) (
                                            ap (map_err decrypt_failure) (
                                              decrypt-encrypt laws key nonce recovery_ad
                                                (encode_payload p) ct sealed)))
                                          (ReadsAll-lift _ p []
                                            (decode_payload-encode_payload p hp)))))))))))))))))))

  -- A well-formed payload whose encoding fits, exported at parameters that meet the floor and under
  -- which a key is derived, gives a file, and the file is imported to the payload.
  pub import-export :
      (p : ExportPayload) (k : KdfParams) (salt nonce key : List ℕ)
      → IsPayload p
      → IsParams k
      → IsArray 32 salt
      → IsArray 24 nonce
      → length (encode_payload p) + 16 < 2 ^ 32
      → meets_floor k ≡ true
      → derive_recovery_key password salt k available ≡ ok key
      → (file : List ℕ) × (export_within_memory salt nonce p password k available ≡ ok file)
        × (import_within_memory file password available ≡ ok p)
  unfolding export_within_memory seal import_within_memory
  import-export p k salt nonce key hp hk hs hn small floor derived =
      let (ct, sealed, len) =
        encrypt_some laws key nonce recovery_ad (encode_payload p) (omega (arith, small)) in
      (
        file_bytes k salt nonce ct,
        rw floor (rw derived (rw sealed refl)),
        run-ReadsAll (parse_file password available) _ p (
            ReadsAll-parse_file k salt nonce key ct p hp hk
              (derived-within_limits password salt k available key derived) hs hn
              (omega (arith, small, len)) (omega (arith, len)) derived sealed),
      )
