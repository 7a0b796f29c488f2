-- ===== src/Core/Unlocked.antt =====
-- crates/passman-core/src/unlocked.rs: the operations of an unlocked session. The state is the
-- application that the session borrows, the session, and the clipboard. A second reading of the clock is
-- `session_now`.
pub mod Master
pub mod Export
use passman.Prelude.{
  ℕ, ◌^◌, ◌-◌, min, List, [], ◌∷◌, map, Option, none, some, Bool, true, false, not, Result, ok, err,
  guard, ok_or, map_err, ltb, leb, if◌then◌else◌,
}
use passman.Crypto.{Primitives}
use passman.Policy.Request.{EntryPolicy}
use passman.Policy.Generate.{PolicyError, GenerationRequest, generate}
use passman.Totp.Hotp.{Hmac}
use passman.Vault.{VaultError, Vault, entry_not_found}
use passman.Vault.Format
use passman.Vault.Index.{Index, IndexEntry, get}
use passman.Vault.Postcard.{Postcard}
use passman.Vault.Record.{EntryRecord}
use passman.Vault.Sealing.{open_index, decrypt_entry}
use passman.Vault.Operations
use passman.Core.Act.{Act, bind, ◌>>=◌, ◌>>◌, lift, reading, modify}
use passman.Core.Error.{CoreError, locked}
use passman.Core.Error
use passman.Core.Storage
use passman.Core.Clipboard.{Clipboard, ClipboardCookie, ClearOutcome, clear_clipboard_impl}
use passman.Core.Clipboard
use passman.Core.App.{App, Env, Session, saturating_add, save}
use passman.Core.App.Failures.{verify_totp}

pub record World : Type 0 where
  pub app : App
  pub session : Session
  pub clipboard : Option (List ℕ)

pub data RevealField : Type 0 where
  username password url notes : RevealField

pub record EntryHandle : Type 0 where
  pub id : List ℕ
  pub label : List ℕ

abbrev pub post_copy_secs : ℕ
post_copy_secs = 30

abbrev pub put_session : Session → World → World
put_session s w = record w { session = s }

abbrev pub put_index : Index → World → World
put_index index w = record w { session = record w.session { index = index } }

unfoldable pub select_field : EntryRecord → RevealField → List ℕ
select_field r username = r.username
select_field r password = r.password
select_field r url = r.url
select_field r notes = r.notes

-- An action of the application, or of the clipboard, in the whole state.
abbrev pub in_app : {E A : Type 0} → Act App E A → Act World E A
in_app m w = let (r, app) = m w.app in (r, record w { app = app })

abbrev pub in_clipboard :
    {A : Type 0} → (Option (List ℕ) → Result CoreError A × Option (List ℕ)) → Act World CoreError A
in_clipboard m w = let (r, text) = m w.clipboard in (r, record w { clipboard = text })

unfoldable pub is_expired : Env → World → Bool
is_expired env w = leb w.session.session_expiry env.now

unfoldable pub ensure_unlocked : Env → World → Result CoreError (Unit {0})
unfolding is_expired
ensure_unlocked env w = guard (not (is_expired env w)) locked

unfoldable pub load_vault : Env → World → Result CoreError Vault
load_vault env w = elim (Storage.read env.faults w.app.disk) [
  | ok bytes ↦ map_err Error.vault (Format.from_bytes bytes)
  | err e ↦ err e
]

abbrev to_handle : IndexEntry → EntryHandle
to_handle e = record { id = e.id; label = e.label }

unfoldable pub list_entries : Env → Act World CoreError (List EntryHandle)
list_entries env = do reading (ensure_unlocked env); reading λ w. ok (map to_handle w.session.index)

-- The session ends 30 seconds after a copy, or before.
unfoldable pub clamp_session : Env → World → World
clamp_session env w =
    put_session
      (record w.session {
        session_expiry =
            min w.session.session_expiry (saturating_add env.session_now post_copy_secs);
      })
      w

-- Clearing works in an expired session too.
unfoldable pub clear_clipboard_with :
    Clipboard → ℕ → Bool → ClipboardCookie → World → ClearOutcome × World
clear_clipboard_with c byte fact_overwrite cookie w =
    let (outcome, text) = clear_clipboard_impl c byte fact_overwrite cookie w.clipboard in
    (outcome, record w { clipboard = text })

-- What is drawn for an entry: the nonce of its envelope and that of the index.
pub record Nonces : Type 0 where
  pub entry : List ℕ
  pub index : List ℕ

-- A change of the vault on disk: loaded, changed, written, and its index taken over.
module _ ⦃p : Primitives⦄ (post : Postcard) (env : Env) where
  unfoldable pub persist_and_refresh : Vault → Act World CoreError (Unit {0})
  persist_and_refresh v = do
    in_app (save env v)
    k_master ← reading λ w. ok w.session.k_master
    index ← lift (map_err Error.vault (open_index post v k_master))
    modify (put_index index)

  -- A method of the vault, in the whole state.
  unfoldable pub changing : (List ℕ → Operations.Act (Unit {0})) → Act World CoreError (Unit {0})
  unfolding persist_and_refresh
  changing change = do
    v ← reading (load_vault env)
    k_master ← reading λ w. ok w.session.k_master
    let (result, v') = change k_master v
    lift (map_err Error.vault result)
    persist_and_refresh v'

  unfoldable pub upsert_entry :
      Nonces → List ℕ → List ℕ → EntryPolicy → EntryRecord → Act World CoreError (Unit {0})
  unfolding changing
  upsert_entry nonces id label policy entry = changing λ k_master.
      Operations.add_or_update_entry post nonces.entry nonces.index k_master id label policy entry

  -- The fresh id is an argument.
  unfoldable pub add_entry :
      Nonces → List ℕ → List ℕ → EntryPolicy → EntryRecord → Act World CoreError (List ℕ)
  unfolding upsert_entry
  add_entry nonces id label policy entry = do
    reading (ensure_unlocked env)
    upsert_entry nonces id label policy entry
    lift (ok id)

  unfoldable pub update_entry :
      Nonces → List ℕ → List ℕ → EntryPolicy → EntryRecord → Act World CoreError (Unit {0})
  unfolding upsert_entry
  update_entry nonces id label policy entry = do
    reading (ensure_unlocked env)
    row ← reading λ w. ok_or (get w.session.index id) (Error.vault entry_not_found)
    upsert_entry nonces id label policy entry

  unfoldable pub remove_entry : List ℕ → List ℕ → Act World CoreError (Unit {0})
  unfolding changing
  remove_entry index_nonce id = do
    reading (ensure_unlocked env)
    changing λ k_master. Operations.remove_entry post index_nonce k_master id

module _ ⦃p : Primitives⦄ (env : Env) where
  unfoldable pub with_revealed : {R : Type 0} → List ℕ → (EntryRecord → R) → Act World CoreError R
  with_revealed id f = do
    reading (ensure_unlocked env)
    v ← reading (load_vault env)
    entry ← reading λ w. map_err Error.vault (decrypt_entry v w.session.k_master id)
    lift (ok (f entry))

  unfoldable pub copy_to_clipboard :
      Clipboard → List ℕ → RevealField → Act World CoreError ClipboardCookie
  unfolding clamp_session
  copy_to_clipboard c id field = do
    reading (ensure_unlocked env)
    v ← reading (load_vault env)
    entry ← reading λ w. map_err Error.vault (decrypt_entry v w.session.k_master id)
    cookie ← in_clipboard (Clipboard.write c (select_field entry field))
    modify (clamp_session env)
    lift (ok cookie)

-- The draws of the generator are values of u32; `none` where its loops draw beyond them.
unfoldable pub generate_password :
    Env → List ℕ → GenerationRequest → Act World CoreError (Option (List ℕ))
generate_password env draws req = do
  reading (ensure_unlocked env)
  lift (map_err Error.policy (generate req draws))

-- The session is not checked.
unfoldable pub verify_totp_code : ⦃h : Hmac⦄ → Env → List ℕ → World → Bool × World
verify_totp_code env code w =
    let (r, w') = in_app (verify_totp env w.session.totp_seed code) w in
    (elim r [ ok done ↦ true | err e ↦ false ], w')
