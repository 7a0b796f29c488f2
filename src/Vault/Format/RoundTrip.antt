-- ===== src/Vault/Format/RoundTrip.antt =====
-- `from_bytes` reads back what `to_bytes` wrote (crates/passman-vault/src/vault.rs).
use passman.Prelude.{
  ℕ, ◌<◌, ◌^◌, ◌≡◌, refl, sym, ap, ◌∙◌, String, List, [], ◌∷◌, ◌++◌, append-nil, Option, none, some,
  false, not, ◌&&◌, ok, arith, clamp, length, to_le, ◌==◌, All, ◌⊎◌,
}
use passman.Prelude.Int.{ℤ, pos}
use passman.Reader.{ReadErrors, read_u32_le, read_u16_prefixed_vec, read_u32_prefixed_vec}
use passman.Reader.Reads.{
  Reads, Reads-pure, Reads-bind, Reads-cast, Reads-take, Reads-take_array, Reads-read_u8,
  Reads-read_u32_le, Reads-read_u64_le, Reads-read_i64_le, Reads-read_u16_prefixed_vec,
  Reads-read_u32_prefixed_vec, Reads-reject, ReadsAll, ReadsAll-bind, ReadsAll-end, Reads-map,
  ReadsAll-pure, ReadsAll-eof, run-ReadsAll,
}
use passman.Crypto.Kdf
use passman.Crypto.Kdf.Encoding.{length-to_bytes, from_bytes-to_bytes}
use passman.Vault.{
  VaultError, EntryEnvelope, Vault, vault_read_errors, IsTimestamp, IsEnvelope, IsVault,
}
use passman.Vault.Format.{
  u16_prefixed, u32_prefixed, export_bytes, envelope_bytes, envelopes_bytes, to_bytes,
  read_export_at, read_envelope, read_envelopes, parse, from_bytes,
}

module _ {E : Type 0} ⦃fail : ReadErrors E⦄ (bs : List ℕ) (field : String) where
  pub Reads-u16_prefixed :
      length bs < 2 ^ 16 → Reads {E = E} (read_u16_prefixed_vec field) (u16_prefixed bs) bs
  unfolding u16_prefixed
  Reads-u16_prefixed h =
      Reads-cast (ap (λ n. to_le 2 n ++ bs) (omega arith)) refl
        (Reads-read_u16_prefixed_vec bs field h)

  pub Reads-u32_prefixed :
      length bs < 2 ^ 32 → Reads {E = E} (read_u32_prefixed_vec field) (u32_prefixed bs) bs
  unfolding u32_prefixed
  Reads-u32_prefixed h =
      Reads-cast (ap (λ n. to_le 4 n ++ bs) (omega arith)) refl
        (Reads-read_u32_prefixed_vec bs field h)

Reads-read_export_at : (o : Option ℤ) → IsTimestamp o → Reads read_export_at (export_bytes o) o
unfolding read_export_at export_bytes
Reads-read_export_at none h = Reads-cast (ap (λ l. 0 ∷ l) (append-nil _)) refl (
    Reads-bind _ (Reads-read_u8 0 _) (
      Reads-bind _ (Reads-read_i64_le (pos 0) _ (omega arith))
        (Reads-bind _ (Reads-reject _ _ refl) (Reads-pure none))))
Reads-read_export_at (some z) h = Reads-cast (ap (λ l. 1 ∷ l) (append-nil _)) refl (
    Reads-bind _ (Reads-read_u8 1 _) (
      Reads-bind _ (Reads-read_i64_le z _ h)
        (Reads-bind _ (Reads-reject _ _ refl) (Reads-pure (some z)))))

Reads-read_envelope :
    (env : EntryEnvelope) → IsEnvelope env → Reads read_envelope (envelope_bytes env) env
unfolding read_envelope envelope_bytes u32_prefixed
Reads-read_envelope env h =
    let body = env.ciphertext_and_tag in
    let size : length body ≡ clamp 4 (length body) = omega (arith, h.body.size) in
    Reads-cast (ap (λ n. env.id ++ (env.nonce ++ (to_le 4 n ++ body))) size)
      (ap (λ n. record env { ct_len = n }) (sym h.ct_len))
      (Reads-bind _ (Reads-take_array 16 env.id _ h.id.size) (
        Reads-bind _ (Reads-take_array 24 env.nonce _ h.nonce.size) (
          Reads-bind _ (Reads-read_u32_le (length body) _ h.body.size)
            (Reads-map _ (Reads-take (length body) body _ refl)))))

Reads-read_envelopes :
    (es : List EntryEnvelope)
    → All IsEnvelope es
    → Reads (read_envelopes (length es)) (envelopes_bytes es) es
unfolding read_envelopes envelopes_bytes
Reads-read_envelopes [] h = Reads-pure []
Reads-read_envelopes (env ∷ es) (h, hs) =
    Reads-bind _ (Reads-read_envelope env h) (Reads-map _ (Reads-read_envelopes es hs))

known_version : (n : ℕ) → (n ≡ 2) ⊎ (n ≡ 1) → (not (n == 2) && not (n == 1)) ≡ false
known_version n h = ground arith

known_algorithm : (n : ℕ) → n ≡ 0 → not (n == 0) ≡ false
known_algorithm n h = ground arith

Reads-entries_count :
    (es : List EntryEnvelope)
    → length es < 2 ^ 32
    → Reads {E = VaultError}
        (read_u32_le "entries_count")
        (to_le 4 (clamp 4 (length es)))
        (length es)
Reads-entries_count es h =
    Reads-cast (ap (to_le 4) (omega arith)) refl (Reads-read_u32_le (length es) _ h)

ReadsAll-parse :
    (v : Vault)
    → IsVault v
    → ReadsAll parse
        (to_bytes v)
        (record v { kdf_params = Kdf.from_bytes (Kdf.to_bytes v.kdf_params) })
unfolding parse to_bytes
ReadsAll-parse v h = ReadsAll-bind _ (Reads-read_u8 v.format_version _) (
    ReadsAll-bind _ (Reads-reject _ _ (known_version v.format_version h.version)) (
      ReadsAll-bind _ (Reads-read_u8 v.kdf_algorithm_id _) (
        ReadsAll-bind _ (Reads-reject _ _ (known_algorithm v.kdf_algorithm_id h.algorithm)) (
          ReadsAll-bind _
            (Reads-take_array 9 (Kdf.to_bytes v.kdf_params) _ (length-to_bytes v.kdf_params))
            (ReadsAll-bind _ (Reads-take_array 32 v.salt _ h.salt.size) (
              ReadsAll-bind _ (Reads-take_array 24 v.probe_nonce _ h.probe_nonce.size) (
                ReadsAll-bind _ (Reads-take_array 32 v.probe_ct _ h.probe_ct.size) (
                  ReadsAll-bind _ (Reads-u16_prefixed v.k_hsm_wrap_blob _ h.k_hsm_wrap_blob.size) (
                    ReadsAll-bind _
                      (Reads-u16_prefixed v.totp_seed_wrap_blob _ h.totp_seed_wrap_blob.size)
                      (ReadsAll-bind _ (Reads-read_u64_le v.rl_counter _ h.rl_counter) (
                        ReadsAll-bind _ (Reads-read_i64_le v.rl_last_failure _ h.rl_last_failure) (
                          ReadsAll-bind _
                            (Reads-read_i64_le v.metadata.last_password_change _
                              h.last_password_change)
                            (ReadsAll-bind _
                              (Reads-read_export_at v.metadata.last_export_at h.last_export_at)
                              (ReadsAll-bind _
                                (Reads-take_array 24 v.sealed_index_nonce _
                                  h.sealed_index_nonce.size)
                                (ReadsAll-bind _
                                  (Reads-u32_prefixed v.sealed_index_ct _ h.sealed_index_ct.size)
                                  (ReadsAll-bind _ (Reads-entries_count v.envelopes h.count) (
                                    ReadsAll-end _ (Reads-read_envelopes v.envelopes h.envelopes)
                                      (ReadsAll-eof _ (ReadsAll-pure _ [])))))))))))))))))))

-- A well-formed vault that is written out is read back as it was, field for field.
pub from_bytes-to_bytes_vault : (v : Vault) → IsVault v → from_bytes (to_bytes v) ≡ ok v
unfolding from_bytes
from_bytes-to_bytes_vault v h =
    run-ReadsAll parse (to_bytes v) _ (ReadsAll-parse v h)
    ∙ ap (λ k. ok (record v { kdf_params = k })) (from_bytes-to_bytes v.kdf_params h.kdf_params)
