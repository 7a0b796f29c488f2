-- ===== src/Core/Worker/Effects.antt =====
-- What an operation does to the clipboard (crates/passman-core/src/worker.rs).
use passman.Prelude.{
  ℕ, ◌≡◌, refl, ◌∙◌, List, Option, some, Result, ok, err, map_err, Result-cases, Bool-cases, inl,
  inr,
}
use passman.Crypto.{Primitives}
use passman.Vault.Sealing.{decrypt_entry}
use passman.Core.Error.{CoreError, locked}
use passman.Core.Error
use passman.Core.Clipboard.{
  Clipboard, ClipboardCookie, random_fact, clear_clipboard_impl, clear_held, overwrite,
}
use passman.Core.Clipboard
use passman.Core.App.{Env}
use passman.Core.Unlocked.{
  World, RevealField, select_field, clamp_session, list_entries, ensure_unlocked, load_vault,
  copy_to_clipboard,
}
use passman.Core.Worker.{Response, entries}
use passman.Core.Worker.Frames.{clipboard-Frames, list_entries-Frames}
use passman.Core.Worker.Handle.{
  Handled, on_op_error, on_export_error, respond, then_list, respond_export,
}

-- A handler that leaves the live cookie and the clipboard.
abbrev pub Same : World → Option ClipboardCookie → Handled → Type 0
Same w live h = (h.live ≡ live) × (h.world.clipboard ≡ w.clipboard)

module _ (w : World) (live : Option ClipboardCookie) where
  pub op_error-Same :
      (e : CoreError) (w' : World)
      → w'.clipboard ≡ w.clipboard
      → Same w live (on_op_error e w' live)
  unfolding on_op_error
  op_error-Same locked w' k = (refl, k)
  op_error-Same Error.already_running w' k = (refl, k)
  op_error-Same Error.weak_password_for_export w' k = (refl, k)
  op_error-Same Error.software_hsm_refused w' k = (refl, k)
  op_error-Same (Error.io s) w' k = (refl, k)
  op_error-Same (Error.vault e) w' k = (refl, k)
  op_error-Same (Error.hsm e) w' k = (refl, k)
  op_error-Same (Error.recovery e) w' k = (refl, k)
  op_error-Same (Error.policy e) w' k = (refl, k)
  op_error-Same (Error.crypto e) w' k = (refl, k)

  export_error-Same :
      (e : CoreError) (w' : World)
      → w'.clipboard ≡ w.clipboard
      → Same w live (on_export_error e w' live)
  unfolding on_export_error
  export_error-Same locked w' k = (refl, k)
  export_error-Same Error.already_running w' k = (refl, k)
  export_error-Same Error.weak_password_for_export w' k = (refl, k)
  export_error-Same Error.software_hsm_refused w' k = (refl, k)
  export_error-Same (Error.io s) w' k = (refl, k)
  export_error-Same (Error.vault e) w' k = (refl, k)
  export_error-Same (Error.hsm e) w' k = (refl, k)
  export_error-Same (Error.recovery e) w' k = (refl, k)
  export_error-Same (Error.policy e) w' k = (refl, k)
  export_error-Same (Error.crypto e) w' k = (refl, k)

  pub respond-Same :
      {A : Type 0} (f : A → Response) (r : Result CoreError A × World)
      → r.1.clipboard ≡ w.clipboard
      → Same w live (respond f live r)
  unfolding respond
  respond-Same f (ok a, w') k = (refl, k)
  respond-Same f (err e, w') k = op_error-Same e w' k

  pub respond_export-Same :
      (r : Result CoreError (List ℕ) × World)
      → r.1.clipboard ≡ w.clipboard
      → Same w live (respond_export live r)
  unfolding respond_export
  respond_export-Same (ok a, w') k = (refl, k)
  respond_export-Same (err e, w') k = export_error-Same e w' k

  pub then_list-Same :
      {A : Type 0} (after : Env) (r : Result CoreError A × World)
      → r.1.clipboard ≡ w.clipboard
      → Same w live (then_list after live r)
  unfolding then_list
  then_list-Same after (ok a, w') k =
      respond-Same entries (list_entries after w')
        (clipboard-Frames _ (list_entries-Frames after) w' ∙ k)
  then_list-Same after (err e, w') k = op_error-Same e w' k

-- How a copy ends: its text is written and its cookie is that of the text, or nothing is written.
pub data Copies (c : Clipboard) (w : World) (r : Result CoreError ClipboardCookie × World)
    : Type 0 where
  written :
      (secret : List ℕ) (cookie : ClipboardCookie)
      → r.0 ≡ ok cookie
      → cookie.digest ≡ c.digest_of secret
      → r.1.clipboard ≡ some secret
      → Copies c w r
  failed : (e : CoreError) → r.0 ≡ err e → r.1.clipboard ≡ w.clipboard → Copies c w r

pub copy-Copies :
    ⦃p : Primitives⦄ (env : Env) (c : Clipboard) (id : List ℕ) (field : RevealField) (w : World)
    → Copies c w (copy_to_clipboard env c id field w)
unfolding copy_to_clipboard Clipboard.write clamp_session
copy-Copies env c id field w = elim (Result-cases (ensure_unlocked env w)) [
  | inr (x, closed) ↦ failed x (rw closed refl) (rw closed refl)
  | inl (u, opened) ↦ elim (Result-cases (load_vault env w)) [
    | inr (x, broken) ↦ failed x (rw opened (rw broken refl)) (rw opened (rw broken refl))
    | inl (v, loaded) ↦
        elim (Result-cases (map_err Error.vault (decrypt_entry v w.session.k_master id))) [
          | inr (x, missing) ↦
              failed x (rw opened (rw loaded (rw missing refl)))
                (rw opened (rw loaded (rw missing refl)))
          | inl (entry, found) ↦ elim (Bool-cases c.write_fails) [
            | inl refused ↦
                failed (Error.io "clipboard write")
                  (rw opened (rw loaded (rw found (rw refused refl))))
                  (rw opened (rw loaded (rw found (rw refused refl))))
            | inr works ↦
                written (select_field entry field)
                  (record { digest = c.digest_of (select_field entry field); written_at = c.time })
                  (rw opened (rw loaded (rw found (rw works refl)))) refl
                  (rw opened (rw loaded (rw found (rw works refl))))
          ]
        ]
  ]
]
