-- ===== src/Vault/Format/Canonical.antt =====
-- What `from_bytes` accepts (crates/passman-vault/src/vault.rs).
use passman.Prelude.{
  ℕ, zero, suc, ◌<◌, ◌^◌, ◌≡◌, refl, sym, ap, ◌∙◌, List, [], ◌∷◌, ◌++◌, append-nil, Option, none,
  some, false, not, ◌&&◌, ok, arith, inl, inr, clamp, clamp-eq, length, length-append, length-to_le,
  ap₂, to_le, ◌==◌, ==→eq, Bool-cases, All, ◌⊎◌, if◌then◌else◌, IsArray, IsByte, IsBytes,
}
use passman.Prelude.Int.{ℤ, pos, IsI64, i64_bits}
use passman.Reader.Consumes.{
  Consumes, Consumes-pure, ConsumesAll, ConsumesAll-bind, ConsumesAll-pure, ConsumesAll-eof,
  run-ConsumesAll, Consumes-read_u8, Consumes-read_u32_le, Consumes-read_u64_le,
  Consumes-read_i64_le,
}
use passman.Reader.Parses.{
  Parses, ConsumesAll-parses, Consumes-parses, ConsumesAll-reject, Consumes-rejected, Parses-take,
  Parses-take_array, Parses-read_u16_prefixed_vec, Parses-read_u32_prefixed_vec,
}
use passman.Crypto.Kdf
use passman.Crypto.Kdf.Encoding.{to_bytes-from_bytes}
use passman.Vault.{Vault, vault_read_errors, IsTimestamp, IsEnvelope, IsVault}
use passman.Vault.Format.{
  u16_prefixed, u32_prefixed, export_bytes, envelope_bytes, envelopes_bytes, to_bytes,
  read_export_at, read_envelope, read_envelopes, parse, from_bytes,
}
use passman.Vault.Format.RoundTrip.{from_bytes-to_bytes_vault}

-- The nine bytes of the flag and the timestamp: where the flag is 0 the timestamp may be anything.
abbrev pub ExportField : Option ℤ → List ℕ → Type 0
ExportField none x = (raw : ℤ) × (x ≡ 0 ∷ to_le 8 (i64_bits raw))
ExportField (some z) x = x ≡ 1 ∷ to_le 8 (i64_bits z)

Consumes-read_export_at : Consumes read_export_at (λ o xs. ExportField o xs × IsTimestamp o)
unfolding read_export_at
Consumes-read_export_at =
    Consumes-parses _ _ (λ a. a ∷ []) IsByte (Consumes-read_u8 _)
      λ flag hf.
        Consumes-parses _ _ (λ z. to_le 8 (i64_bits z)) IsI64 (Consumes-read_i64_le _)
          λ raw hr. Consumes-rejected _ _ _ λ known. Consumes-pure _ (field flag raw known hr)
  where
    field :
        (flag : ℕ) (raw : ℤ)
        → (not (flag == 0) && not (flag == 1)) ≡ false
        → IsI64 raw
        → ExportField
            (if flag == 1 then some raw else none)
            ((flag ∷ []) ++ (to_le 8 (i64_bits raw) ++ []))
          × IsTimestamp (if flag == 1 then some raw else none)
    field zero raw known hr = ((raw, ap (λ l. 0 ∷ l) (append-nil _)), tt)
    field (suc zero) raw known hr = (ap (λ l. 1 ∷ l) (append-nil _), hr)
    field (suc (suc n)) raw known hr = absurd (ground arith)

Parses-read_envelope : Parses read_envelope envelope_bytes IsEnvelope
unfolding read_envelope envelope_bytes u32_prefixed
Parses-read_envelope =
    Consumes-parses _ _ (λ a. a) (IsArray 16) (Parses-take_array 16 _)
      λ id hid.
        Consumes-parses _ _ (λ a. a) (IsArray 24) (Parses-take_array 24 _)
          λ nonce hnonce.
            Consumes-parses _ _ (to_le 4) (λ n. n < 2 ^ 32) (Consumes-read_u32_le _)
              λ n hn.
                Consumes-parses _ _ (λ a. a) (IsArray n) (Parses-take n _)
                  λ body hbody. Consumes-pure _ (
                    ap (λ l. id ++ (nonce ++ l)) (prefixed n body hn hbody),
                    record {
                      id = hid;
                      nonce = hnonce;
                      body = record { size = omega (arith, hbody.size); bytes = hbody.bytes };
                      ct_len = sym hbody.size;
                    },
                  )
  where
    prefixed :
        (n : ℕ) (body : List ℕ)
        → n < 2 ^ 32
        → IsArray n body
        → to_le 4 (clamp 4 (length body)) ++ body ≡ to_le 4 n ++ (body ++ [])
    prefixed n body hn hbody =
        let size : clamp 4 (length body) ≡ n = omega (arith, hbody.size) in
        rw append-nil (ap (λ k. to_le 4 k ++ body) size)

Parses-read_envelopes :
    (n : ℕ) → Parses (read_envelopes n) envelopes_bytes (λ es. (length es ≡ n) × All IsEnvelope es)
unfolding read_envelopes envelopes_bytes
Parses-read_envelopes zero = Consumes-pure _ (refl, (refl, tt))
Parses-read_envelopes (suc n) =
    Consumes-parses _ _ envelope_bytes IsEnvelope Parses-read_envelope λ env henv.
      Consumes-parses _ _ envelopes_bytes _ (Parses-read_envelopes n) λ es (len, hes).
        Consumes-pure _ (
          ap (λ l. envelope_bytes env ++ l) (sym (append-nil (envelopes_bytes es))),
          (ap suc len, (henv, hes)),
        )

-- The layout with the bytes of the KDF parameters and of the export field given.
layout : Vault → List ℕ → List ℕ → List ℕ
layout v kdf_bytes export_field =
    (v.format_version ∷ [])
    ++ ((v.kdf_algorithm_id ∷ [])
        ++ (kdf_bytes
            ++ (v.salt
                ++ (v.probe_nonce
                    ++ (v.probe_ct
                        ++ ((to_le 2 (length v.k_hsm_wrap_blob) ++ v.k_hsm_wrap_blob)
                            ++ ((to_le 2 (length v.totp_seed_wrap_blob) ++ v.totp_seed_wrap_blob)
                                ++ (to_le 8 v.rl_counter
                                    ++ (to_le 8 (i64_bits v.rl_last_failure)
                                        ++ (to_le 8 (i64_bits v.metadata.last_password_change)
                                            ++ (export_field
                                                ++ (v.sealed_index_nonce
                                                    ++ ((to_le 4 (length v.sealed_index_ct)
                                                          ++ v.sealed_index_ct)
                                                        ++ (to_le 4 (length v.envelopes)
                                                            ++ envelopes_bytes
                                                            v.envelopes))))))))))))))

-- A vault read from `bytes`: what `parse` has seen to.
record IsReadFrom (bytes : List ℕ) (v : Vault) : Type 0 where
  valid : IsVault v
  kdf_bytes : List ℕ
  kdf_same : Kdf.to_bytes v.kdf_params ≡ kdf_bytes
  export_field : List ℕ
  export_same : ExportField v.metadata.last_export_at export_field
  same : bytes ≡ layout v kdf_bytes export_field

version_known : (n : ℕ) → (not (n == 2) && not (n == 1)) ≡ false → (n ≡ 2) ⊎ (n ≡ 1)
version_known n h = elim (Bool-cases (n == 2)) [
  | inl e ↦ inl (==→eq n 2 e)
  | inr e ↦ inr (ground arith)
]

algorithm_known : (n : ℕ) → not (n == 0) ≡ false → n ≡ 0
algorithm_known n h = ground arith

ConsumesAll-parse : ConsumesAll parse (λ v bytes. IsReadFrom bytes v)
unfolding parse layout
ConsumesAll-parse =
    ConsumesAll-parses _ _ (λ a. a ∷ []) IsByte (Consumes-read_u8 _)
      λ version _. ConsumesAll-reject _ _ _ λ known.
        ConsumesAll-parses _ _ (λ a. a ∷ []) IsByte (Consumes-read_u8 _)
          λ algorithm _. ConsumesAll-reject _ _ _ λ argon.
            ConsumesAll-parses _ _ (λ a. a) (IsArray 9) (Parses-take_array 9 _)
              λ kdf hkdf.
                ConsumesAll-parses _ _ (λ a. a) (IsArray 32) (Parses-take_array 32 _)
                  λ salt hsalt.
                    ConsumesAll-parses _ _ (λ a. a) (IsArray 24) (Parses-take_array 24 _)
                      λ pn hpn.
                        ConsumesAll-parses _ _ (λ a. a) (IsArray 32) (Parses-take_array 32 _)
                          λ pc hpc.
                            ConsumesAll-parses _ _ _ _ (Parses-read_u16_prefixed_vec _) λ kb hkb.
                              ConsumesAll-parses _ _ _ _ (Parses-read_u16_prefixed_vec _) λ tb htb.
                                ConsumesAll-parses _ _ (to_le 8) (λ n. n < 2 ^ 64)
                                  (Consumes-read_u64_le _)
                                  λ counter hcounter.
                                    ConsumesAll-parses _ _ (λ z. to_le 8 (i64_bits z)) IsI64
                                      (Consumes-read_i64_le _)
                                      λ failure hfailure.
                                        ConsumesAll-parses _ _ (λ z. to_le 8 (i64_bits z)) IsI64
                                          (Consumes-read_i64_le _)
                                          λ change hchange.
                                            ConsumesAll-bind _ _ Consumes-read_export_at
                                              λ at field (hfield, hat).
                                                ConsumesAll-parses _ _ (λ a. a) (IsArray 24)
                                                  (Parses-take_array 24 _)
                                                  λ sn hsn.
                                                    ConsumesAll-parses _ _ _ _
                                                      (Parses-read_u32_prefixed_vec _)
                                                      λ sc hsc.
                                                        ConsumesAll-parses _ _ (to_le 4)
                                                          (λ n. n < 2 ^ 32) (Consumes-read_u32_le _)
                                                          λ n hn.
                                                            ConsumesAll-parses _ _ envelopes_bytes _
                                                            (Parses-read_envelopes n)
                                                            λ es (len, hes). ConsumesAll-eof _ (
                                                            ConsumesAll-pure _ λ _. record {
                                                            valid = record {
                                                            version = version_known version known;
                                                            algorithm =
                                                            algorithm_known algorithm argon;
                                                            kdf_params =
                                                            (to_bytes-from_bytes kdf hkdf.size
                                                            hkdf.bytes).1;
                                                            salt = hsalt;
                                                            probe_nonce = hpn;
                                                            probe_ct = hpc;
                                                            k_hsm_wrap_blob = hkb;
                                                            totp_seed_wrap_blob = htb;
                                                            rl_counter = hcounter;
                                                            rl_last_failure = hfailure;
                                                            last_password_change = hchange;
                                                            last_export_at = hat;
                                                            sealed_index_nonce = hsn;
                                                            sealed_index_ct = hsc;
                                                            count = omega (arith, len, hn);
                                                            envelopes = hes;
                                                            };
                                                            kdf_bytes = kdf;
                                                            kdf_same =
                                                            (to_bytes-from_bytes kdf hkdf.size
                                                            hkdf.bytes).0;
                                                            export_field = field;
                                                            export_same = hfield;
                                                            same = simp (append-nil, len);
                                                            })

read_from :
    (bytes : List ℕ) (v : Vault) → IsBytes bytes → from_bytes bytes ≡ ok v → IsReadFrom bytes v
unfolding from_bytes
read_from bytes v hb e = run-ConsumesAll parse bytes v ConsumesAll-parse hb e

to_bytes-layout :
    (v : Vault)
    → IsVault v
    → to_bytes v ≡ layout v (Kdf.to_bytes v.kdf_params) (export_bytes v.metadata.last_export_at)
unfolding to_bytes layout u16_prefixed u32_prefixed
to_bytes-layout v h = simp (
  clamp-eq 2 (length v.k_hsm_wrap_blob) h.k_hsm_wrap_blob.size,
  clamp-eq 2 (length v.totp_seed_wrap_blob) h.totp_seed_wrap_blob.size,
  clamp-eq 4 (length v.sealed_index_ct) h.sealed_index_ct.size,
  clamp-eq 4 (length v.envelopes) h.count,
)

export_bytes_unique :
    (o : Option ℤ) (x : List ℕ) (z : ℤ) → ExportField o x → o ≡ some z → export_bytes o ≡ x
unfolding export_bytes
export_bytes_unique none x z h e = cc
export_bytes_unique (some y) x z h e = sym h

length-export_bytes :
    (o : Option ℤ) (x : List ℕ) → ExportField o x → length x ≡ length (export_bytes o)
unfolding export_bytes
length-export_bytes none x (raw, h) =
    rw h (ap suc (length-to_le 8 (i64_bits raw) ∙ sym (length-to_le 8 (i64_bits (pos 0)))))
length-export_bytes (some z) x h = rw h

length-layout :
    (v : Vault) (k x y : List ℕ)
    → length x ≡ length y
    → length (layout v k x) ≡ length (layout v k y)
unfolding layout
length-layout v k x y h = simp (length-append, h)

-- Bytes that are accepted, and whose vault has been exported, are the serialisation of that vault:
-- no other bytes stand for it.
pub to_bytes-from_bytes_vault :
    (bytes : List ℕ) (v : Vault) (z : ℤ)
    → IsBytes bytes
    → from_bytes bytes ≡ ok v
    → v.metadata.last_export_at ≡ some z
    → to_bytes v ≡ bytes
to_bytes-from_bytes_vault bytes v z hb e hz =
    let r = read_from bytes v hb e in
    to_bytes-layout v r.valid
    ∙ ap₂ (layout v) r.kdf_same
        (export_bytes_unique v.metadata.last_export_at r.export_field z r.export_same hz)
    ∙ sym r.same

-- Whatever bytes are accepted give a well-formed vault, which is read back from its own
-- serialisation, and that has as many bytes as were read.
pub from_bytes-IsVault :
    (bytes : List ℕ) (v : Vault)
    → IsBytes bytes
    → from_bytes bytes ≡ ok v
    → IsVault v × (from_bytes (to_bytes v) ≡ ok v) × (length (to_bytes v) ≡ length bytes)
from_bytes-IsVault bytes v hb e =
    let r = read_from bytes v hb e in
    (
      r.valid,
      from_bytes-to_bytes_vault v r.valid,
      ap length (to_bytes-layout v r.valid)
          ∙ length-layout v _ _ _ (sym (length-export_bytes _ r.export_field r.export_same))
          ∙ ap (λ k. length (layout v k r.export_field)) r.kdf_same
          ∙ ap length (sym r.same),
    )
