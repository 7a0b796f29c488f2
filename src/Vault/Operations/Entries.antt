-- ===== src/Vault/Operations/Entries.antt =====
-- What adding and removing an entry do to an opened vault (crates/passman-vault/src/vault.rs).
use passman.Prelude.{
  ℕ, ◌<◌, ◌≡◌, ◌≢◌, ◌↔◌, ◌>>=◌, ◌>>◌, refl, sym, ◌∙◌, subst, List, map, none, some, false, Result,
  ok, err, arith, length, ◌==◌, ==→eq, eq→==, Bool-cases, inl, inr,
}
use passman.Crypto.{Primitives, IsAead}
use passman.Policy.Request.{EntryPolicy}
use passman.Vault.{VaultError, entry_not_found, EntryEnvelope, Vault}
use passman.Vault.Index.{Index, IndexEntry, row_id, get, upsert, remove}
use passman.Vault.Keyed.{
  find, replace_or_push, retain_ne, find-replace_or_push_self, find-replace_or_push_ne,
  find-retain_ne_self, find-retain_ne_other,
}
use passman.Vault.Sets.{envelope_id, check_id_sets, check_index_envelope_sets}
use passman.Vault.Sets.Order.{count}
use passman.Vault.Sets.Exact.{IsMatched, check_id_sets_iff}
use passman.Vault.Sets.Updates.{
  IsMatched-replace_or_push, IsMatched-retain_ne, length-retain_ne, count-find, find-none→count,
  retain_ne_absent,
}
use passman.Vault.Record.{EntryRecord}
use passman.Vault.Record.Decode.{IsRecord}
use passman.Vault.Postcard.{Postcard, IsPostcard}
use passman.Vault.Sealing.{decrypt_index, open_index, decrypt_entry}
use passman.Vault.Sealing.Opens.{
  Serializes, seal_index_some, decrypt_index-seal_index, encrypt_entry_some,
  decrypt_entry-encrypt_entry,
}
use passman.Vault.Operations.{
  put_envelopes, put_index, reseal_index, add_or_update_entry, remove_entry,
}

abbrev pub row : List ℕ → List ℕ → EntryPolicy → IndexEntry
row id label policy = record { id = id; label = label; policy = policy }

shorter :
    (id : List ℕ) (es : List EntryEnvelope)
    → 0 < count id (map envelope_id es)
    → (length (retain_ne envelope_id id es) == length es) ≡ false
shorter id es h = elim (Bool-cases (length (retain_ne envelope_id id es) == length es)) [
  | inl e ↦ absurd (omega (arith, ==→eq _ _ e, length-retain_ne envelope_id id es))
  | inr e ↦ e
]

opened_parts :
    (r : Result VaultError Index) (es : List EntryEnvelope) (index : Index)
    → (do i ← r; check_index_envelope_sets es i; ok i) ≡ ok index
    → (r ≡ ok index) × (check_id_sets (map row_id index) (map envelope_id es) ≡ ok tt)
unfolding check_index_envelope_sets
opened_parts (ok i) es index h = ground arith
opened_parts (err e) es index h = cc

module _ ⦃p : Primitives⦄ (post : Postcard) where
  -- An index opens exactly where it is decrypted and its ids and those of the envelopes are matched.
  pub open_index_iff :
      (v : Vault) (k_master : List ℕ) (index : Index)
      → (open_index post v k_master ≡ ok index) ↔ (
          (decrypt_index post v k_master ≡ ok index)
          × IsMatched (map row_id index) (map envelope_id v.envelopes))
  unfolding open_index
  open_index_iff v k index = (
    λ h.
        let (decrypted, checked) = opened_parts (decrypt_index post v k) v.envelopes index h in
        (decrypted, (check_id_sets_iff _ _).0 checked),
    λ (decrypted, matched). rw decrypted (
        unfold check_index_envelope_sets in
        rw ((check_id_sets_iff (map row_id index) (map envelope_id v.envelopes)).1 matched) refl),
  )

  module _ (laws : IsAead p) (codec : IsPostcard post) where
    reseal_index-ok :
        (v : Vault) (nonce k_master bytes : List ℕ) (index : Index)
        → Serializes post index bytes
        → (ct : List ℕ) × (reseal_index post nonce index k_master v
            ≡ (ok tt, put_index (nonce, ct) v))
          × (decrypt_index post (put_index (nonce, ct) v) k_master ≡ ok index)
    unfolding reseal_index
    reseal_index-ok v nonce k bytes index h =
        let (ct, sealed) = seal_index_some laws post codec nonce k bytes index v.format_version h in
        (
          ct,
          rw sealed refl,
          decrypt_index-seal_index laws post codec (put_index (nonce, ct) v) k bytes index h sealed,
        )

    -- An entry is added or updated in an opened vault: it is decrypted to the record, the other
    -- entries are decrypted as before, and the index opens as the one with the updated row.
    pub add_or_update_entry_lem :
        (v : Vault) (nonce index_nonce k_master id label bytes : List ℕ) (policy : EntryPolicy)
        (entry : EntryRecord) (index : Index)
        → IsRecord entry
        → open_index post v k_master ≡ ok index
        → Serializes post (upsert index (row id label policy)) bytes
        → (v' : Vault) × (add_or_update_entry post nonce index_nonce k_master id label policy entry
              v
            ≡ (ok tt, v'))
          × (open_index post v' k_master ≡ ok (upsert index (row id label policy)))
          × (decrypt_entry v' k_master id ≡ ok entry)
          × ((other : List ℕ)
              → id ≢ other
              → decrypt_entry v' k_master other ≡ decrypt_entry v k_master other)
    unfolding add_or_update_entry
    add_or_update_entry_lem v nonce n k id label bytes policy entry index h opened s =
        let (decrypted, matched) = (open_index_iff v k index).0 opened in
        let (e, made, same) = encrypt_entry_some laws nonce k id v.format_version entry h in
        let v₁ = put_envelopes (replace_or_push envelope_id e v.envelopes) v in
        let (ct, resealed, again) =
          reseal_index-ok v₁ n k bytes (upsert index (row id label policy)) s in
        let decrypted₁ : decrypt_index post v₁ k ≡ ok index = unfold decrypt_index in decrypted in
        let v₂ = put_index (n, ct) v₁ in
        (
          v₂,
          rw made (rw decrypted₁ (rw resealed refl)),
          (open_index_iff v₂ k _).1 (
            again,
            unfold upsert in
                IsMatched-replace_or_push row_id envelope_id (row id label policy) e index
                  v.envelopes (sym same) matched,
          ),
          decrypt_entry-encrypt_entry laws v₂ nonce k id entry e h made (
              subst (λ z. find envelope_id z v₂.envelopes ≡ some e) same
                (find-replace_or_push_self envelope_id e v.envelopes)),
          λ other ne.
              unfold decrypt_entry in
              rw (find-replace_or_push_ne envelope_id e other v.envelopes (λ q. ne (sym same ∙ q)))
                refl,
        )

    -- An entry that an opened vault has is removed: it is not found afterwards, the other entries are
    -- decrypted as before, and the index opens as the one without the row.
    pub remove_entry_lem :
        (v : Vault) (index_nonce k_master id bytes : List ℕ) (index : Index) (found : IndexEntry)
        → open_index post v k_master ≡ ok index
        → get index id ≡ some found
        → Serializes post (remove index id).0 bytes
        → (v' : Vault) × (remove_entry post index_nonce k_master id v ≡ (ok tt, v'))
          × (open_index post v' k_master ≡ ok (remove index id).0)
          × (decrypt_entry v' k_master id ≡ err entry_not_found)
          × ((other : List ℕ)
              → id ≢ other
              → decrypt_entry v' k_master other ≡ decrypt_entry v k_master other)
    unfolding remove_entry
    remove_entry_lem v n k id bytes index found opened has s =
        let (decrypted, matched) = (open_index_iff v k index).0 opened in
        let v₁ = put_envelopes (retain_ne envelope_id id v.envelopes) v in
        let (ct, resealed, again) = reseal_index-ok v₁ n k bytes (remove index id).0 s in
        let decrypted₁ : decrypt_index post v₁ k ≡ ok index = unfold decrypt_index in decrypted in
        let v₂ = put_index (n, ct) v₁ in
        (
          v₂,
          rw
              (shorter id v.envelopes (
                omega
                  (arith, matched.same id, count-find row_id id index found (unfold get in has))))
              (rw decrypted₁ (rw resealed refl)),
          (open_index_iff v₂ k _).1 (
            again,
            unfold remove in IsMatched-retain_ne row_id envelope_id id index v.envelopes matched,
          ),
          (unfold decrypt_entry in rw (find-retain_ne_self envelope_id id v.envelopes) refl),
          λ other ne.
              unfold decrypt_entry in
              rw (find-retain_ne_other envelope_id id other v.envelopes ne) refl,
        )

    -- An id that the index of an opened vault does not have is refused, and the vault is as it was.
    pub remove_entry_absent :
        (v : Vault) (index_nonce k_master id : List ℕ) (index : Index)
        → open_index post v k_master ≡ ok index
        → get index id ≡ none
        → remove_entry post index_nonce k_master id v ≡ (err entry_not_found, v)
    unfolding remove_entry
    remove_entry_absent v n k id index opened absent =
        let (_, matched) = (open_index_iff v k index).0 opened in
        let zero_left : count id (map envelope_id v.envelopes) ≡ 0 =
          sym (matched.same id) ∙ find-none→count row_id id index (unfold get in absent) in
        rw (retain_ne_absent envelope_id id v.envelopes zero_left)
          (rw (eq→== (length v.envelopes) (length v.envelopes) refl) refl)
