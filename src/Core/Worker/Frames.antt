-- ===== src/Core/Worker/Frames.antt =====
-- The operations that leave the clipboard (crates/passman-core/src/worker.rs).
use passman.Prelude.{ℕ, ◌≡◌, refl, ◌∙◌, List, Bool, Result, ok, err, ok_or, map_err, guard}
use passman.Crypto.{Primitives}
use passman.Policy.Request.{EntryPolicy}
use passman.Recovery.Cost.{RecoveryPreset, params}
use passman.Totp.Hotp.{Hmac}
use passman.Vault.{Vault}
use passman.Vault.Postcard.{Postcard}
use passman.Vault.Record.{EntryRecord}
use passman.Vault.Sealing.{open_index, verify_probe}
use passman.Vault.Operations
use passman.Core.Act.{Act, bind, ◌>>=◌, ◌>>◌, lift, reading, modify}
use passman.Core.Error.{CoreError, weak_password_for_export}
use passman.Core.Error
use passman.Recovery.{RecoveryEntry}
use passman.Vault.Index.{Index}
use passman.Core.App.{App, Env, save, into_key}
use passman.Core.App.Keys.{unwrap_slot_core, derive_master_from_bytes}
use passman.Core.App.Failures
use passman.Hsm.{vault_key, totp_seed, malformed_blob}
use passman.Recovery.Format.{export_within_memory}
use passman.Core.Unlocked.{
  World, Nonces, list_entries, ensure_unlocked, load_vault, put_index, in_app, changing,
  persist_and_refresh, upsert_entry, add_entry, remove_entry, with_revealed, generate_password,
}
use passman.Core.Unlocked.Export.{PolicyCodec}
use passman.Core.Unlocked.Export
use passman.Core.Worker.{
  Request, create, refresh, reveal, copy, clear_clipboard, generate, add, remove, export_recovery,
  verify_totp, lock, quit, Response, entries, revealed, generated, Flow, continue, lock_session,
  quit_worker, Turn, Mode, locked_mode, unlocked_mode, stopped, Event, received, timeout,
  disconnected,
}
use passman.Core.Worker

-- An action that leaves the clipboard.
pub Frames : {A : Type 0} → Act World CoreError A → Type 0
Frames m = (w : World) → (m w).1.clipboard ≡ w.clipboard

pub clipboard-Frames :
    {A : Type 0} (m : Act World CoreError A)
    → Frames m
    → (w : World) → (m w).1.clipboard ≡ w.clipboard
unfolding Frames
clipboard-Frames m f w = f w

pub bind-Frames :
    {A B : Type 0} (m : Act World CoreError A) (f : A → Act World CoreError B)
    → Frames m
    → ((a : A) → Frames (f a))
    → Frames (m >>= f)
unfolding Frames
bind-Frames {A = A} m f fm ff w = after (m w) (fm w)
  where
    after :
        (r : Result CoreError A × World)
        → r.1.clipboard ≡ w.clipboard
        → (bind r f).1.clipboard ≡ w.clipboard
    after (ok a, w') e = ff a w' ∙ e
    after (err x, w') e = e

pub lift-Frames : {A : Type 0} (r : Result CoreError A) → Frames (lift r)
unfolding Frames
lift-Frames r w = refl

pub reading-Frames : {A : Type 0} (f : World → Result CoreError A) → Frames (reading f)
unfolding Frames
reading-Frames f w = refl

pub in_app-Frames : {A : Type 0} (m : Act App CoreError A) → Frames (in_app m)
unfolding Frames
in_app-Frames m w = refl

put_index-Frames : (index : Index) → Frames (modify (put_index index))
unfolding Frames
put_index-Frames index w = refl

pub list_entries-Frames : (env : Env) → Frames (list_entries env)
unfolding list_entries
list_entries-Frames env =
    bind-Frames _ _ (reading-Frames (ensure_unlocked env)) λ u. reading-Frames _

pub generate_password-Frames :
    (env : Env) (draws : List ℕ) (n : Worker.GenerationRequest)
    → Frames (generate_password env draws n)
unfolding generate_password
generate_password-Frames env draws n =
    bind-Frames _ _ (reading-Frames (ensure_unlocked env)) λ u. lift-Frames _

pub with_revealed-Frames :
    ⦃p : Primitives⦄ {R : Type 0} (env : Env) (id : List ℕ) (f : EntryRecord → R)
    → Frames (with_revealed env id f)
unfolding with_revealed
with_revealed-Frames env id f = bind-Frames _ _ (reading-Frames (ensure_unlocked env)) λ u.
    bind-Frames _ _ (reading-Frames (load_vault env))
      λ v. bind-Frames {A = EntryRecord} _ _ (reading-Frames _) λ entry. lift-Frames (ok (f entry))

module _ ⦃p : Primitives⦄ (post : Postcard) (env : Env) where
  persist_and_refresh-Frames : (v : Vault) → Frames (persist_and_refresh post env v)
  unfolding persist_and_refresh
  persist_and_refresh-Frames v = bind-Frames {A = Unit {0}} _ _ (in_app-Frames (save env v)) λ u.
      bind-Frames {A = List ℕ} _ _ (reading-Frames λ w. ok w.session.k_master) λ k.
        bind-Frames {A = Index} _ _ (lift-Frames (map_err Error.vault (open_index post v k)))
          λ index. put_index-Frames index

  changing-Frames :
      (change : List ℕ → Operations.Act (Unit {0})) → Frames (changing post env change)
  unfolding changing
  changing-Frames change = bind-Frames _ _ (reading-Frames (load_vault env)) λ v.
      bind-Frames {A = List ℕ} _ _ (reading-Frames λ w. ok w.session.k_master) λ k.
        bind-Frames {A = Unit {0}} _ _ (lift-Frames (map_err Error.vault (change k v).0))
          λ u. persist_and_refresh-Frames (change k v).1

  pub add_entry-Frames :
      (nonces : Nonces) (id label : List ℕ) (policy : EntryPolicy) (entry : EntryRecord)
      → Frames (add_entry post env nonces id label policy entry)
  unfolding add_entry upsert_entry
  add_entry-Frames nonces id label policy entry =
      bind-Frames _ _ (reading-Frames (ensure_unlocked env))
        λ u. bind-Frames {A = Unit {0}} _ _ (changing-Frames _) λ u. lift-Frames (ok id)

  pub remove_entry-Frames : (nonce id : List ℕ) → Frames (remove_entry post env nonce id)
  unfolding remove_entry
  remove_entry-Frames nonce id =
      bind-Frames _ _ (reading-Frames (ensure_unlocked env)) λ u. changing-Frames _

pub export_recovery-Frames :
    ⦃p : Primitives⦄ ⦃h : Hmac⦄ (codec : PolicyCodec) (env : Env) (allows : List ℕ → Bool)
    (salt nonce master code : List ℕ) (preset : RecoveryPreset)
    → Frames (Export.export_recovery codec env allows salt nonce master code preset)
unfolding Export.export_recovery
export_recovery-Frames codec env allows salt nonce master code preset =
    bind-Frames _ _ (reading-Frames (ensure_unlocked env)) λ u.
      bind-Frames _ _ (reading-Frames (load_vault env)) λ v.
        bind-Frames {A = Unit {0}} _ _
          (lift-Frames (guard (allows master) weak_password_for_export))
          λ u.
            bind-Frames {A = List ℕ} _ _
              (lift-Frames (unwrap_slot_core env vault_key v.k_hsm_wrap_blob))
              λ k_hsm.
                bind-Frames {A = List ℕ} _ _
                  (lift-Frames (unwrap_slot_core env totp_seed v.totp_seed_wrap_blob))
                  λ seed. bind-Frames {A = Unit {0}} _ _ (in_app-Frames (re_authenticate seed)) λ u.
                    bind-Frames {A = List ℕ} _ _
                      (lift-Frames (derive_master_from_bytes env master v.salt v.kdf_params k_hsm))
                      λ k. checked-Frames v seed k
  where
    re_authenticate : List ℕ → Act App CoreError (Unit {0})
    re_authenticate seed app =
        let (r, app') = Failures.verify_totp env seed code app in
        (map_err Export.code_refused r, app')

    file_of : Vault → List ℕ → List RecoveryEntry → Result CoreError (List ℕ)
    file_of v arr es = map_err Error.recovery (
        export_within_memory salt nonce
          (record { totp_seed = arr; original_vault_kdf = v.kdf_params; entries = es }) master
          (params preset) env.available_kib)

    key_of : List ℕ → Result CoreError (List ℕ)
    key_of seed =
        ok_or (into_key seed) (Error.hsm (malformed_blob "unwrapped TOTP seed is not 32 bytes"))

    checked-Frames :
        (v : Vault) (seed k : List ℕ)
        → Frames do
          lift (map_err Error.vault (verify_probe v k))
          arr ← lift (key_of seed)
          es ← reading λ w. Export.export_entries codec v k w.session.index
          file ← lift (file_of v arr es)
          in_app (save env (Export.exported env v))
          lift (ok file)
    checked-Frames v seed k =
        bind-Frames {A = Unit {0}} _ _ (lift-Frames (map_err Error.vault (verify_probe v k))) λ u.
          bind-Frames {A = List ℕ} _ _ (lift-Frames (key_of seed)) λ arr.
            bind-Frames {A = List RecoveryEntry} _ _
              (reading-Frames λ w. Export.export_entries codec v k w.session.index)
              λ es. bind-Frames {A = List ℕ} _ _ (lift-Frames (file_of v arr es)) λ file.
                bind-Frames {A = Unit {0}} _ _ (in_app-Frames (save env (Export.exported env v)))
                  λ u. lift-Frames (ok file)
