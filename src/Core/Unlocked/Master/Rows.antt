-- ===== src/Core/Unlocked/Master/Rows.antt =====
-- What the change of the master password makes of the entries (crates/passman-core/src/unlocked.rs).
use passman.Prelude.{
  ℕ, suc, some-injective, ok_or, ◌≢◌, ◌≡◌, refl, sym, ap, ◌∙◌, subst, List, [], ◌∷◌, map, Option,
  none, some, Result, ok, err, map_err, arith, All, bytes_eq, bytes_eq→eq, bytes_eq_iff,
  if◌then◌else◌, Bool-cases, Option-cases, inl, inr, and_then-ok,
}
use passman.Crypto.{Primitives, IsAead}
use passman.Crypto.Aead.{decrypt, decrypt-IsBytes}
use passman.Crypto.Kdf.{KdfParams}
use passman.Vault.{Vault, IsVault, EntryEnvelope, IsEnvelope, entry_not_found}
use passman.Vault.Create.Fresh.{create_opens}
use passman.Vault.Index.{Index, IndexEntry, upsert}
use passman.Vault.Keyed.{find}
use passman.Vault.Operations.Entries.{row, open_index_iff, add_or_update_entry_lem}
use passman.Vault.Operations.Refinement.{Contents, readable, contents}
use passman.Vault.Postcard.{Postcard, IsPostcard}
use passman.Vault.Record.{EntryRecord}
use passman.Vault.Record.Decode.{IsRecord}
use passman.Vault.Record.Sound.{decode-region}
use passman.Vault.Sealing.{open_index, decrypt_entry}
use passman.Vault.Sealing.Opens.{Serializes}
use passman.Vault.Sets.{envelope_id}
use passman.Vault.Sets.Order.{count}
use passman.Vault.Sets.Updates.{count-find}
use passman.Core.App.{Env}
use passman.Core.Unlocked.{Nonces}
use passman.Crypto.Derive.{hkdf_expand}
use passman.Vault.Index.{entry_info}
use passman.Vault.Sealing.{auth_failure, entry_associated_data}
use passman.Core.Unlocked.Master.{Draws, changed_at, reencrypt_rows, reencrypt_vault}

abbrev pub row_id : IndexEntry → List ℕ
row_id e = e.id

-- Postcard serializes every index on the way from `current`, as the rows are added to it.
unfoldable pub Fits : Postcard → Index → Index → Type 0
Fits post current [] = Unit {0}
Fits post current (r ∷ rows) =
    ((bytes : List ℕ) × Serializes post (upsert current (row r.id r.label r.policy)) bytes)
    × Fits post (upsert current (row r.id r.label r.policy)) rows

-- The records of the rows, over what was there before.
unfoldable pub over : Index → Contents → Contents → Contents
over [] m n id = n id
over (r ∷ rows) m n id = over rows m (λ x. if bytes_eq r.id x then m x else n x) id

pub over_same :
    (rows : Index) (m n n' : Contents)
    → ((x : List ℕ) → n x ≡ n' x)
    → (id : List ℕ) → over rows m n id ≡ over rows m n' id
unfolding over
over_same [] m n n' h id = h id
over_same (r ∷ rows) m n n' h id = over_same rows m _ _ (λ x. rw (h x) refl) id

pub over_all :
    (rows : Index) (m n : Contents) (id : List ℕ)
    → (count id (map row_id rows) ≡ 0 → n id ≡ m id)
    → over rows m n id ≡ m id
unfolding over count
over_all [] m n id h = h refl
over_all (r ∷ rows) m n id h = over_all rows m _ id λ c. elim (Bool-cases (bytes_eq r.id id)) [
  | inl same ↦ rw same refl
  | inr other ↦ rw other (h (rw other c))
]

pub ok_or-some : {A E : Type 0} (o : Option A) (e : E) (a : A) → ok_or o e ≡ ok a → o ≡ some a
ok_or-some none e a h = cc
ok_or-some (some b) e a h = cc

pub map_err-ok :
    {E F A : Type 0} (f : E → F) (r : Result E A) (a : A) → map_err f r ≡ ok a → r ≡ ok a
map_err-ok f (ok b) a e = cc
map_err-ok f (err x) a e = cc

module _ ⦃p : Primitives⦄ where
  -- Every row of the index is that of an entry that can be decrypted.
  abbrev pub Decrypts : Vault → List ℕ → IndexEntry → Type 0
  Decrypts v k r = (entry : EntryRecord) × (decrypt_entry v k r.id ≡ ok entry)

module _ ⦃p : Primitives⦄ (laws : IsAead p) (post : Postcard) (codec : IsPostcard post) where
  -- An id without a row has no entry.
  pub absent :
      (v : Vault) (k : List ℕ) (index : Index) (id : List ℕ)
      → open_index post v k ≡ ok index
      → count id (map row_id index) ≡ 0
      → contents post k v id ≡ none
  unfolding decrypt_entry
  absent v k index id opened c = elim (Option-cases (find envelope_id id v.envelopes)) [
    | inl missing ↦ rw missing refl
    | inr (e, found) ↦ absurd (
        omega (
          arith,
          ((open_index_iff post v k index).0 opened).1.same id,
          count-find envelope_id id v.envelopes e found,
        ))
  ]

  found-IsEnvelope :
      (id : List ℕ) (es : List EntryEnvelope) (e : EntryEnvelope)
      → All IsEnvelope es
      → find envelope_id id es ≡ some e
      → IsEnvelope e
  unfolding find
  found-IsEnvelope id [] e h f = cc
  found-IsEnvelope id (x ∷ xs) e h f = elim (Bool-cases (bytes_eq x.id id)) [
    | inl same ↦ subst IsEnvelope (some-injective _ _ (rw same at f)) h.0
    | inr other ↦ found-IsEnvelope id xs e h.1 (rw other at f)
  ]

  -- What is decrypted of a well-formed vault can be encoded again.
  pub decrypted-IsRecord :
      (v : Vault) (k id : List ℕ) (entry : EntryRecord)
      → IsVault v
      → decrypt_entry v k id ≡ ok entry
      → IsRecord entry
  unfolding decrypt_entry
  decrypted-IsRecord v k id entry h e =
      let (env, e₁, found) =
        and_then-ok _ (ok_or (find envelope_id id v.envelopes) entry_not_found) entry e in
      let (plaintext, e₂, opened) =
        and_then-ok _
          (map_err auth_failure (
            decrypt (hkdf_expand k (entry_info id)) env.nonce
              (entry_associated_data v.format_version id) env.ciphertext_and_tag))
          entry e₁ in
      let here =
        found-IsEnvelope id v.envelopes env h.envelopes
          (ok_or-some (find envelope_id id v.envelopes) entry_not_found env found) in
      (decode-region plaintext entry
        (decrypt-IsBytes laws _ env.nonce _ plaintext env.ciphertext_and_tag
          (map_err-ok auth_failure _ plaintext opened) here.body.bytes)
        e₂).0

  module _ (source : Vault) (old new : List ℕ) (valid : IsVault source) (nonces : ℕ → Nonces) where
    pub added_row :
        (v w : Vault) (r : IndexEntry) (entry : EntryRecord)
        → decrypt_entry source old r.id ≡ ok entry
        → decrypt_entry w new r.id ≡ ok entry
        → ((other : List ℕ) → r.id ≢ other → decrypt_entry w new other ≡ decrypt_entry v new other)
        → (x : List ℕ)
        → contents post new w x
          ≡ (if bytes_eq r.id x then contents post old source x else contents post new v x)
    added_row v w r entry read this others x = elim (Bool-cases (bytes_eq r.id x)) [
      | inl same ↦ rw same (
          subst (λ z. contents post new w z ≡ contents post old source z) (bytes_eq→eq r.id x same)
            (ap readable (this ∙ sym read)))
      | inr other ↦ rw other (ap readable (others x (λ q. ground (arith, bytes_eq_iff r.id x))))
    ]

    rows-over :
        (i : ℕ) (rows current : Index) (v : Vault)
        → open_index post v new ≡ ok current
        → All (Decrypts source old) rows
        → Fits post current rows
        → (v' : Vault) × (reencrypt_rows post source old new nonces i rows v ≡ (ok tt, v'))
          × ((index' : Index) × (open_index post v' new ≡ ok index'))
          × ((id : List ℕ)
              → contents post new v' id
                ≡ over rows (contents post old source) (contents post new v) id)
    unfolding reencrypt_rows Fits over
    rows-over i [] current v opened d f = (v, refl, (current, opened), λ id. refl)
    rows-over i (r ∷ rows) current v opened ((entry, read), d) ((bytes, s), f) =
        let (w, ran, opens, this, others) =
          add_or_update_entry_lem post laws codec v (nonces i).entry (nonces i).index new r.id
            r.label bytes r.policy entry current
            (decrypted-IsRecord source old r.id entry valid read) opened s in
        let (v', ran', opens', now) = rows-over (suc i) rows _ w opens d f in
        (
          v',
          rw read (rw ran ran'),
          opens',
          λ id. now id ∙ over_same rows _ _ _ (added_row v w r entry read this others) id,
        )

  -- A change of the master password rebuilds the vault: where every entry of a well-formed, opened vault
  -- can be decrypted, and postcard serializes each index on the way, the new vault opens under the new
  -- key and decrypts, for every id, to what the old one did under the old key.
  pub reencrypt_vault-contents :
      (env : Env) (draws : Draws) (source : Vault) (kdf : KdfParams) (old new bytes : List ℕ)
      (index : Index)
      → IsVault source
      → open_index post source old ≡ ok index
      → All (Decrypts source old) index
      → Serializes post [] bytes
      → Fits post [] index
      → (v : Vault) × (reencrypt_vault post env draws source kdf old new index ≡ ok v)
        × ((index' : Index) × (open_index post v new ≡ ok index'))
        × ((id : List ℕ) → contents post new v id ≡ contents post old source id)
  unfolding reencrypt_vault count
  reencrypt_vault-contents env draws source kdf old new bytes index valid opened d s f =
      let (v₀, made, probe, empty) =
        create_opens laws post codec draws.probe_nonce draws.index_nonce kdf draws.new_salt
          source.k_hsm_wrap_blob source.totp_seed_wrap_blob (changed_at env source) new bytes
          (omega (arith, valid.k_hsm_wrap_blob.size))
          (omega (arith, valid.totp_seed_wrap_blob.size)) s in
      let (v, ran, opens, now) =
        rows-over source old new valid draws.nonces 0 index [] v₀ empty d f in
      (
        v,
        rw made (rw ran refl),
        opens,
        λ id.
            now id
            ∙ over_all index (contents post old source) (contents post new v₀) id
                (λ c. absent v₀ new [] id empty refl ∙ sym (absent source old index id opened c)),
      )
