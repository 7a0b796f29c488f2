-- ===== src/Core/Unlocked/Export/Imports.antt =====
-- What an import makes of exported entries (crates/passman-core/src/unlocked.rs and app.rs).
use passman.Prelude.{
  ℕ, suc, ◌≡◌, refl, sym, ◌∙◌, subst, List, [], ◌∷◌, some, Result, ok, map_err, ok_or, All,
  and_then-ok,
}
use passman.Crypto.{Primitives, IsAead}
use passman.Policy.Request.{EntryPolicy}
use passman.Recovery.{RecoveryEntry}
use passman.Vault.{Vault, IsVault, malformed_record}
use passman.Vault.Index.{Index, IndexEntry}
use passman.Vault.Operations.Entries.{add_or_update_entry_lem}
use passman.Vault.Operations.Refinement.{contents}
use passman.Vault.Postcard.{Postcard, IsPostcard}
use passman.Vault.Record.{EntryRecord}
use passman.Vault.Sets.Order.{count}
use passman.Vault.Sealing.{open_index, decrypt_entry}
use passman.Core.Error.{CoreError}
use passman.Core.Error
use passman.Core.Unlocked.{Nonces}
use passman.Core.Unlocked.Master.Rows.{
  Fits, Decrypts, over, over_same, over_all, absent, decrypted-IsRecord, added_row, ok_or-some,
  map_err-ok,
}
use passman.Core.Unlocked.Export.{
  PolicyCodec, recovery_entry_from, import_entry_parts, export_entries, import_entries,
}

-- What postcard documents at policies: a policy that is serialized is read back.
pub record IsPolicyCodec (codec : PolicyCodec) : Type 0 where
  pub of_bytes-to_allocvec :
      (policy : EntryPolicy) (bytes : List ℕ)
      → codec.to_allocvec policy ≡ some bytes
      → codec.of_bytes bytes ≡ some policy

ok-injective : {E A : Type 0} {a b : A} → Path (Result E A) (ok a) (ok b) → a ≡ b
ok-injective e = cc

parts-recovery_entry_from :
    (codec : PolicyCodec) (r : IndexEntry) (entry : EntryRecord) (e : RecoveryEntry)
    → IsPolicyCodec codec
    → recovery_entry_from codec r entry ≡ ok e
    → import_entry_parts codec e ≡ ok (r, entry)
unfolding recovery_entry_from import_entry_parts
parts-recovery_entry_from codec r entry e laws made =
    let refusal = Error.vault (malformed_record "failed to serialize EntryPolicy for export") in
    let (bytes, built, serialized) =
      and_then-ok _ (ok_or (codec.to_allocvec r.policy) refusal) e made in
    let read =
      laws.of_bytes-to_allocvec r.policy bytes
        (ok_or-some (codec.to_allocvec r.policy) refusal bytes serialized) in
    subst (λ z. import_entry_parts codec z ≡ ok (r, entry)) (ok-injective built) (rw read refl)

-- The exports of a row and of the rows behind it.
exported_row :
    ⦃p : Primitives⦄ (codec : PolicyCodec) (v : Vault) (k : List ℕ) (r : IndexEntry) (rows : Index)
    (entry : EntryRecord) (es : List RecoveryEntry)
    → decrypt_entry v k r.id ≡ ok entry
    → export_entries codec v k (r ∷ rows) ≡ ok es
    → (e : RecoveryEntry) × (others : List RecoveryEntry) × (recovery_entry_from codec r entry
        ≡ ok e)
      × (export_entries codec v k rows ≡ ok others)
      × (e ∷ others ≡ es)
unfolding export_entries
exported_row codec v k r rows entry es read made =
    let (entry', made₁, read') =
      and_then-ok _ (map_err Error.vault (decrypt_entry v k r.id)) es made in
    let (e, made₂, built) = and_then-ok _ (recovery_entry_from codec r entry') es made₁ in
    let (others, made₃, rest) = and_then-ok _ (export_entries codec v k rows) es made₂ in
    let same : entry' ≡ entry =
      ok-injective (sym (map_err-ok Error.vault (decrypt_entry v k r.id) entry' read') ∙ read) in
    (
      e,
      others,
      subst (λ z. recovery_entry_from codec r z ≡ ok e) same built,
      rest,
      ok-injective made₃,
    )

module _ ⦃p : Primitives⦄ (laws : IsAead p) (post : Postcard) (post_laws : IsPostcard post)
    (codec : PolicyCodec) (codec_laws : IsPolicyCodec codec) where
  module _ (source : Vault) (old new : List ℕ) (valid : IsVault source) (nonces : ℕ → Nonces) where
    imports-over :
        (i : ℕ) (rows current : Index) (v : Vault) (es : List RecoveryEntry)
        → open_index post v new ≡ ok current
        → All (Decrypts source old) rows
        → Fits post current rows
        → export_entries codec source old rows ≡ ok es
        → (v' : Vault) × (import_entries post codec new nonces i es v ≡ ok v')
          × ((index' : Index) × (open_index post v' new ≡ ok index'))
          × ((id : List ℕ)
              → contents post new v' id
                ≡ over rows (contents post old source) (contents post new v) id)
    unfolding import_entries export_entries Fits over
    imports-over i [] current v es opened d f made = (
      v,
      subst (λ z. import_entries post codec new nonces i z v ≡ ok v) (ok-injective made) refl,
      (current, opened),
      λ id. refl,
    )
    imports-over i (r ∷ rows) current v es opened ((entry, read), d) ((bytes, s), f) made =
        let (e, others, built, rest, same) =
          exported_row codec source old r rows entry es read made in
        let parts = parts-recovery_entry_from codec r entry e codec_laws built in
        let (w, ran, opens, this, kept) =
          add_or_update_entry_lem post laws post_laws v (nonces i).entry (nonces i).index new r.id
            r.label bytes r.policy entry current
            (decrypted-IsRecord laws post post_laws source old r.id entry valid read) opened s in
        let (v', ran', opens', now) = imports-over (suc i) rows _ w others opens d f rest in
        (
          v',
          subst (λ z. import_entries post codec new nonces i z v ≡ ok v') same
              (rw parts (rw ran ran')),
          opens',
          λ id.
              now id
              ∙ over_same rows _ _ _
                  (added_row laws post post_laws source old new valid nonces v w r entry read this
                    kept)
                  id,
        )

  -- The entries that are exported of a well-formed, opened vault are imported into an empty one under a
  -- new key, where every entry can be decrypted, and postcard reads back each policy and serializes each
  -- index on the way: the new vault opens and decrypts, for every id, to what the old one did.
  pub import_entries-export_entries :
      (source fresh : Vault) (old new : List ℕ) (nonces : ℕ → Nonces) (index : Index)
      (es : List RecoveryEntry)
      → IsVault source
      → open_index post source old ≡ ok index
      → All (Decrypts source old) index
      → Fits post [] index
      → export_entries codec source old index ≡ ok es
      → open_index post fresh new ≡ ok []
      → (v : Vault) × (import_entries post codec new nonces 0 es fresh ≡ ok v)
        × ((index' : Index) × (open_index post v new ≡ ok index'))
        × ((id : List ℕ) → contents post new v id ≡ contents post old source id)
  unfolding count
  import_entries-export_entries source fresh old new nonces index es valid opened d f made empty =
      let (v, ran, opens, now) =
        imports-over source old new valid nonces 0 index [] fresh es empty d f made in
      (
        v,
        ran,
        opens,
        λ id.
            now id
            ∙ over_all index (contents post old source) (contents post new fresh) id (λ c.
              absent laws post post_laws fresh new [] id empty refl
              ∙ sym (absent laws post post_laws source old index id opened c)),
      )
