-- ===== src/Vault/Operations/Refinement.antt =====
-- The vault of crates/passman-vault/src/vault.rs as a map from ids to records.
use passman.Prelude.{
  ℕ, ◌≡◌, refl, sym, ap, ◌∙◌, subst, List, [], ◌∷◌, Option, none, some, Result, ok, err, bytes_eq,
  bytes_eq→eq, bytes_eq_iff, if◌then◌else◌, Bool-cases, inl, inr, arith,
}
use passman.Crypto.{Primitives, IsAead}
use passman.Policy.Request.{EntryPolicy}
use passman.Vault.{VaultError, Vault}
use passman.Vault.Index.{Index, IndexEntry, get, upsert, remove}
use passman.Vault.Record.{EntryRecord}
use passman.Vault.Record.Decode.{IsRecord}
use passman.Vault.Postcard.{Postcard, IsPostcard}
use passman.Vault.Sealing.{open_index, decrypt_entry}
use passman.Vault.Sealing.Opens.{Serializes}
use passman.Vault.Operations.{add_or_update_entry, remove_entry}
use passman.Vault.Operations.Entries.{row, add_or_update_entry_lem, remove_entry_lem}

pub data Command : Type 0 where
  add : List ℕ → List ℕ → EntryPolicy → EntryRecord → Command
  delete : List ℕ → Command

-- The specification: what every id stands for.
abbrev pub Contents : Type 0
Contents = List ℕ → Option EntryRecord

unfoldable pub specified : Command → Contents → Contents
specified (add id label policy entry) m x = if bytes_eq id x then some entry else m x
specified (delete id) m x = if bytes_eq id x then none else m x

unfoldable pub specified_all : List Command → Contents → Contents
specified_all [] m = m
specified_all (c ∷ cs) m = specified_all cs (specified c m)

abbrev pub readable : Result VaultError EntryRecord → Option EntryRecord
readable (ok entry) = some entry
readable (err e) = none

module _ ⦃p : Primitives⦄ (post : Postcard) (k_master : List ℕ) where
  -- What the vault decrypts to under the key.
  abbrev pub contents : Vault → Contents
  contents v id = readable (decrypt_entry v k_master id)

  -- A command whose operation is run on an opened vault, with the nonces it draws, and whose new
  -- index postcard can serialize.
  pub data Step (v : Vault) : Command → Vault → Type 0 where
    added :
        (nonce index_nonce id label bytes : List ℕ) (policy : EntryPolicy) (entry : EntryRecord)
        (index : Index) (v' : Vault)
        → IsRecord entry
        → open_index post v k_master ≡ ok index
        → Serializes post (upsert index (row id label policy)) bytes
        → add_or_update_entry post nonce index_nonce k_master id label policy entry v ≡ (ok tt, v')
        → Step v (add id label policy entry) v'
    deleted :
        (index_nonce id bytes : List ℕ) (index : Index) (found : IndexEntry) (v' : Vault)
        → open_index post v k_master ≡ ok index
        → get index id ≡ some found
        → Serializes post (remove index id).0 bytes
        → remove_entry post index_nonce k_master id v ≡ (ok tt, v')
        → Step v (delete id) v'

  pub data Run : Vault → List Command → Vault → Type 0 where
    stop : (v : Vault) → Run v [] v
    step :
        (v : Vault) (c : Command) (v' : Vault) (cs : List Command) (v'' : Vault)
        → Step v c v'
        → Run v' cs v''
        → Run v (c ∷ cs) v''

-- The second components of equal pairs.
pair_snd : {A : Type 0} {a : A} {x y : Vault} {p : A × Vault} → p ≡ (a, x) → p ≡ (a, y) → x ≡ y
pair_snd e e' = ap (λ q. q.1) (sym e ∙ e')

module _ ⦃p : Primitives⦄ (laws : IsAead p) (post : Postcard) (codec : IsPostcard post)
    (k_master : List ℕ) where
  pub Step-specified :
      (v : Vault) (c : Command) (v' : Vault)
      → Step post k_master v c v'
      → ((index : Index) × (open_index post v' k_master ≡ ok index))
        × ((id : List ℕ) → contents post k_master v' id ≡ specified c (contents post k_master v) id)
  unfolding specified
  Step-specified v _ _ (added nonce n id label bytes policy entry index v' h opened s run) =
      let (w, ran, opens, this, others) =
        add_or_update_entry_lem post laws codec v nonce n k_master id label bytes policy entry index
          h opened s in
      let same : w ≡ v' = pair_snd ran run in
      subst
        (λ u.
          ((i : Index) × (open_index post u k_master ≡ ok i))
          × ((x : List ℕ)
              → contents post k_master u x
                ≡ specified (add id label policy entry) (contents post k_master v) x))
        same
        (
          (_, opens),
          λ x. elim (Bool-cases (bytes_eq id x)) [
            | inl e ↦ rw e (
                subst (λ z. contents post k_master w z ≡ some entry) (bytes_eq→eq id x e)
                  (ap readable this))
            | inr e ↦ rw e (ap readable (others x (λ q. ground (arith, bytes_eq_iff id x))))
          ],
        )
  Step-specified v _ _ (deleted n id bytes index found v' opened has s run) =
      let (w, ran, opens, this, others) =
        remove_entry_lem post laws codec v n k_master id bytes index found opened has s in
      let same : w ≡ v' = pair_snd ran run in
      subst
        (λ u.
          ((i : Index) × (open_index post u k_master ≡ ok i))
          × ((x : List ℕ)
              → contents post k_master u x ≡ specified (delete id) (contents post k_master v) x))
        same
        (
          (_, opens),
          λ x. elim (Bool-cases (bytes_eq id x)) [
            | inl e ↦ rw e (
                subst (λ z. contents post k_master w z ≡ none) (bytes_eq→eq id x e)
                  (ap readable this))
            | inr e ↦ rw e (ap readable (others x (λ q. ground (arith, bytes_eq_iff id x))))
          ],
        )

  specified_same :
      (c : Command) (m m' : Contents)
      → ((id : List ℕ) → m id ≡ m' id)
      → (id : List ℕ) → specified c m id ≡ specified c m' id
  unfolding specified
  specified_same (add id label policy entry) m m' h x = rw (h x) refl
  specified_same (delete id) m m' h x = rw (h x) refl

  specified_all_same :
      (cs : List Command) (m m' : Contents)
      → ((id : List ℕ) → m id ≡ m' id)
      → (id : List ℕ) → specified_all cs m id ≡ specified_all cs m' id
  unfolding specified_all
  specified_all_same [] m m' h id = h id
  specified_all_same (c ∷ cs) m m' h id =
      specified_all_same cs (specified c m) (specified c m') (specified_same c m m' h) id

  -- Any run of additions and removals on an opened vault leaves a vault that opens and decrypts to
  -- what the same commands make of a map from ids to records.
  pub Run-specified :
      (v : Vault) (cs : List Command) (v' : Vault) (index : Index)
      → open_index post v k_master ≡ ok index
      → Run post k_master v cs v'
      → ((index' : Index) × (open_index post v' k_master ≡ ok index'))
        × ((id : List ℕ)
            → contents post k_master v' id ≡ specified_all cs (contents post k_master v) id)
  unfolding specified_all
  Run-specified _ _ _ index opened (stop v) = ((index, opened), λ id. refl)
  Run-specified _ _ _ index opened (step v c v' cs v'' first rest) =
      let ((index', opened'), now) = Step-specified v c v' first in
      let (ends, after) = Run-specified v' cs v'' index' opened' rest in
      (ends, λ id. after id ∙ specified_all_same cs _ _ now id)
