-- ===== src/Recovery/Format/Export.antt =====
-- What `export_within_memory` and `import_within_memory` accept (crates/passman-recovery/src/format.rs).
use passman.Prelude.{
  not-false, ℕ, ◌<◌, ◌^◌, ◌≡◌, refl, sym, ap, List, [], ◌∷◌, ◌++◌, append-nil, Option, true, false,
  not, Result, ok, err, map_err, arith, clamp-eq, length, to_le, ◌==◌, bytes_eq→eq, IsBytes, IsByte,
  IsArray, Bool-cases, inl, inr, Result-cases,
}
use passman.Reader.{Read, ◌>>=◌, lift}
use passman.Reader.Consumes.{
  ConsumesAll, ConsumesAll-lift, ConsumesAll-eof, run-ConsumesAll, Consumes-read_u8,
  Consumes-read_u32_le,
}
use passman.Reader.Parses.{ConsumesAll-parses, ConsumesAll-reject, Parses-take_array, Parses-take}
use passman.Crypto.{CryptoError, Primitives, IsAead}
use passman.Crypto.Aead.{decrypt, encrypt-decrypt, decrypt-IsBytes}
use passman.Crypto.Kdf.{KdfParams, IsParams, within_limits, argon2id_within_memory}
use passman.Crypto.Kdf.Limits.{InBounds, Fits, argon2id_guarded}
use passman.Recovery.{RecoveryError, recovery_read_errors, ExportPayload, IsPayload}
use passman.Recovery.Cost.{meets_floor, meets_floor→AtLeastFloor, AtLeastFloor, derive_recovery_key}
use passman.Recovery.Payload.{decode_payload}
use passman.Recovery.Payload.Canonical.{encode_payload-decode_payload}
use passman.Recovery.Format.{
  magic_bytes, recovery_ad, file_bytes, decrypt_failure, seal, export_within_memory, parse_file,
  import_within_memory,
}

-- What was read: the parts of a file, and the payload in it.
record IsSealed ⦃prim : Primitives⦄ (password : List ℕ) (available : Option ℕ) (p : ExportPayload)
    (file : List ℕ) : Type 0 where
  k : KdfParams
  salt : List ℕ
  nonce : List ℕ
  key : List ℕ
  ct : List ℕ
  plaintext : List ℕ
  params : IsParams k
  limits : within_limits k ≡ true
  salt_size : IsArray 32 salt
  nonce_size : IsArray 24 nonce
  ct_bytes : IsBytes ct
  same : file ≡ file_bytes k salt nonce ct
  derived : derive_recovery_key password salt k available ≡ ok key
  opened : map_err decrypt_failure (decrypt key nonce recovery_ad ct) ≡ ok plaintext
  decoded : decode_payload plaintext ≡ ok p

same_file :
    (magic salt nonce ct : List ℕ) (version id m t p n : ℕ)
    → magic ≡ magic_bytes
    → version ≡ 1
    → id ≡ 0
    → length ct ≡ n
    → n < 2 ^ 32
    → magic
        ++ ((version ∷ [])
            ++ ((id ∷ [])
                ++ (to_le 4 m
                    ++ (to_le 4 t
                        ++ ((p ∷ []) ++ (salt ++ (nonce ++ (to_le 4 n ++ (ct ++ [])))))))))
      ≡ file_bytes (record { m_kib = m; t = t; p = p }) salt nonce ct
unfolding file_bytes
same_file magic salt nonce ct version id m t p n e₀ e₁ e₂ len h =
    simp (e₀, e₁, e₂, append-nil, len, clamp-eq 4 n h)

lifted :
    {A B : Type 0} (m : Result RecoveryError A) (f : A → Read RecoveryError B)
    {T : B → List ℕ → Type 0}
    → ((a : A) → m ≡ ok a → ConsumesAll (f a) T)
    → ConsumesAll (lift m >>= f) T
lifted (ok a) f h = record { at = (h a refl).at }
lifted (err x) f h = record { at = λ r b hb e. cc }

is_one : (n : ℕ) → not (n == 1) ≡ false → n ≡ 1
is_one n h = ground arith

is_zero : (n : ℕ) → not (n == 0) ≡ false → n ≡ 0
is_zero n h = ground arith

module _ ⦃prim : Primitives⦄ (password : List ℕ) (available : Option ℕ) where
  ConsumesAll-parse_file :
      ConsumesAll (parse_file password available) (λ p file. IsSealed password available p file)
  unfolding parse_file file_bytes
  ConsumesAll-parse_file =
      ConsumesAll-parses _ _ (λ a. a) (IsArray 6) (Parses-take_array 6 _)
        λ magic hmagic. ConsumesAll-reject _ _ _ λ known_magic.
          ConsumesAll-parses _ _ (λ a. a ∷ []) IsByte (Consumes-read_u8 _)
            λ version _. ConsumesAll-reject _ _ _ λ known_version.
              ConsumesAll-parses _ _ (λ a. a ∷ []) IsByte (Consumes-read_u8 _)
                λ id _. ConsumesAll-reject _ _ _ λ known_id.
                  ConsumesAll-parses _ _ (to_le 4) (λ n. n < 2 ^ 32) (Consumes-read_u32_le _)
                    λ m hm.
                      ConsumesAll-parses _ _ (to_le 4) (λ n. n < 2 ^ 32) (Consumes-read_u32_le _)
                        λ t ht.
                          ConsumesAll-parses _ _ (λ a. a ∷ []) IsByte (Consumes-read_u8 _)
                            λ p hp. ConsumesAll-reject _ _ _ λ limited.
                              ConsumesAll-parses _ _ (λ a. a) (IsArray 32) (Parses-take_array 32 _)
                                λ salt hsalt.
                                  ConsumesAll-parses _ _ (λ a. a) (IsArray 24)
                                    (Parses-take_array 24 _)
                                    λ nonce hnonce.
                                      ConsumesAll-parses _ _ (to_le 4) (λ n. n < 2 ^ 32)
                                        (Consumes-read_u32_le _)
                                        λ n hn.
                                          ConsumesAll-parses _ _ (λ a. a) (IsArray n)
                                            (Parses-take n _)
                                            λ ct hct. ConsumesAll-eof _ (
                                              ConsumesAll-reject _ _ _ λ long.
                                                lifted _ _ λ key derived.
                                                  lifted _ _ λ plaintext opened.
                                                    ConsumesAll-lift _ λ payload _ decoded. record {
                                                      k = record { m_kib = m; t = t; p = p };
                                                      salt = salt;
                                                      nonce = nonce;
                                                      key = key;
                                                      ct = ct;
                                                      plaintext = plaintext;
                                                      params = record {
                                                        m_kib_fits = hm;
                                                        t_fits = ht;
                                                        p_fits = hp;
                                                      };
                                                      limits = not-false _ limited;
                                                      salt_size = hsalt;
                                                      nonce_size = hnonce;
                                                      ct_bytes = hct.bytes;
                                                      same =
                                                          same_file magic salt nonce ct version id m
                                                            t p n
                                                            (bytes_eq→eq magic magic_bytes
                                                            (not-false _ known_magic))
                                                            (is_one version known_version)
                                                            (is_zero id known_id) hct.size hn;
                                                      derived = derived;
                                                      opened = opened;
                                                      decoded = decoded;
                                                    })

opened_ok :
    (r : Result CryptoError (List ℕ)) (m : List ℕ) → map_err decrypt_failure r ≡ ok m → r ≡ ok m
opened_ok (ok x) m h = ground arith
opened_ok (err x) m h = cc

module _ ⦃prim : Primitives⦄ (laws : IsAead prim) (password : List ℕ) (available : Option ℕ) where
  -- A file that is imported is what sealing the payload under the password makes at some parameters
  -- within the limits, some salt and some nonce: no byte of it can be another. The payload is
  -- well-formed.
  pub seal-import :
      (file : List ℕ) (p : ExportPayload)
      → IsBytes file
      → import_within_memory file password available ≡ ok p
      → (k : KdfParams) × (salt : List ℕ) × (nonce : List ℕ) × (seal salt nonce p password k
            available
          ≡ ok file)
        × (within_limits k ≡ true)
        × IsPayload p
  unfolding import_within_memory seal
  seal-import file p hb e =
      let s =
        run-ConsumesAll (parse_file password available) file p
          (ConsumesAll-parse_file password available) hb e in
      let opened = opened_ok (decrypt s.key s.nonce recovery_ad s.ct) s.plaintext s.opened in
      let (encoded, valid) =
        encode_payload-decode_payload s.plaintext p
          (decrypt-IsBytes laws s.key s.nonce recovery_ad s.plaintext s.ct opened s.ct_bytes)
          s.decoded in
      (
        s.k,
        s.salt,
        s.nonce,
        rw s.derived (
            rw encoded (
              rw (encrypt-decrypt laws s.key s.nonce recovery_ad s.plaintext s.ct opened)
                (ap ok (sym s.same)))),
        s.limits,
        valid,
      )

module _ ⦃prim : Primitives⦄ (password : List ℕ) (available : Option ℕ) where
  -- A file is exported only at parameters that are at least the floor on every axis and within the
  -- limits, and whose memory the host holds, where its memory was measured.
  pub export-AtLeastFloor :
      (salt nonce file : List ℕ) (p : ExportPayload) (k : KdfParams)
      → IsParams k
      → export_within_memory salt nonce p password k available ≡ ok file
      → AtLeastFloor k × InBounds k × Fits k available
  unfolding export_within_memory seal derive_recovery_key
  export-AtLeastFloor salt nonce file p k h e = elim (Bool-cases (meets_floor k)) [
    | inl f ↦ elim (Result-cases (argon2id_within_memory password salt k available)) [
      | inl (key, derived) ↦
          let (bounds, fits, _) = argon2id_guarded password salt k available key h derived in
          (meets_floor→AtLeastFloor k f, bounds, fits)
      | inr (x, failed) ↦ absurd (err≢ok (rw failed at (rw f at e)))
    ]
    | inr f ↦ absurd (err≢ok (rw f at e))
  ]
    where
      err≢ok : {x : RecoveryError} → Path (Result RecoveryError (List ℕ)) (err x) (ok file) → ⊥
      err≢ok q = cc
