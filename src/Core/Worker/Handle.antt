-- ===== src/Core/Worker/Handle.antt =====
-- The two loops of crates/passman-core/src/worker.rs, one event at a time. A handler gives the flow, the
-- responses that it sends, the state and the live cookie.
use passman.Prelude.{ℕ, List, [], ◌∷◌, Option, none, some, Bool, Result, ok, err, if◌then◌else◌}
use passman.Crypto.{Primitives}
use passman.Policy.Charset.{default_vault}
use passman.Policy.Request.{one_of_each, default_policy}
use passman.Policy.Generate.{GenerationRequest}
use passman.Totp.{default_config}
use passman.Totp.Hotp.{Hmac}
use passman.Vault.Postcard.{Postcard}
use passman.Core.Error.{CoreError, UnlockError, locked}
use passman.Core.Clipboard.{Clipboard, ClipboardCookie}
use passman.Core.App.{App, Env, Session}
use passman.Core.App.Create.{create_vault}
use passman.Core.App.Unlock
use passman.Core.Unlocked.{
  World, RevealField, EntryHandle, select_field, is_expired, list_entries, clear_clipboard_with,
  add_entry, remove_entry, with_revealed, copy_to_clipboard, generate_password, verify_totp_code,
}
use passman.Core.Unlocked.Export.{PolicyCodec}
use passman.Core.Unlocked.Export
use passman.Core.Worker.{
  Request, create, refresh, reveal, copy, clear_clipboard, generate, add, remove, export_recovery,
  verify_totp, lock, quit, Message, text, Response, created, create_failed, unlock_failed, entries,
  revealed, copied, generated, recovery_exported, recovery_export_failed, totp_checked, error, Flow,
  continue, lock_session, quit_worker, Turn, create_message, unlock_message, operation_message,
  Mode, locked_mode, unlocked_mode, stopped, Event, received, timeout, disconnected,
}
use passman.Core.Worker
use passman.Core.Worker.Text.{trim}

pub record Handled : Type 0 where
  pub flow : Flow
  pub responses : List Response
  pub world : World
  pub live : Option ClipboardCookie

abbrev pub reply : Response → World → Option ClipboardCookie → Handled
reply r w live = record { flow = continue; responses = r ∷ []; world = w; live = live }

abbrev pub silent : Flow → World → Option ClipboardCookie → Handled
silent flow w live = record { flow = flow; responses = []; world = w; live = live }

unfoldable pub on_op_error : CoreError → World → Option ClipboardCookie → Handled
on_op_error locked w live = silent lock_session w live
on_op_error e w live = reply (error (operation_message e)) w live

-- An export's failure has its own response.
unfoldable pub on_export_error : CoreError → World → Option ClipboardCookie → Handled
on_export_error locked w live = silent lock_session w live
on_export_error e w live = reply (recovery_export_failed (operation_message e)) w live

-- An operation's value is sent in a response, and its error by `on_op_error`.
unfoldable pub respond :
    {A : Type 0} → (A → Response) → Option ClipboardCookie → Result CoreError A × World → Handled
unfolding on_op_error
respond f live (ok a, w) = reply (f a) w live
respond f live (err e, w) = on_op_error e w live

-- The cookie of a copy is live from then on.
unfoldable pub respond_copied :
    Option ClipboardCookie → Result CoreError ClipboardCookie × World → Handled
unfolding on_op_error
respond_copied live (ok cookie, w) = reply (copied cookie) w (some cookie)
respond_copied live (err e, w) = on_op_error e w live

-- After a change the entries are listed.
unfoldable pub then_list :
    {A : Type 0} → Env → Option ClipboardCookie → Result CoreError A × World → Handled
unfolding respond
then_list after live (ok a, w) = respond entries live (list_entries after w)
then_list after live (err e, w) = on_op_error e w live

unfoldable pub respond_export : Option ClipboardCookie → Result CoreError (List ℕ) × World → Handled
unfolding on_export_error
respond_export live (ok file, w) = reply (recovery_exported file) w live
respond_export live (err e, w) = on_export_error e w live

unfoldable pub copy_request :
    ⦃p : Primitives⦄
    → Env
    → List ℕ
    → RevealField
    → World
    → Option ClipboardCookie
    → Option Clipboard
    → Handled
unfolding respond_copied
copy_request env id field w live none = reply (error (text "the clipboard is unavailable")) w live
copy_request env id field w live (some c) = respond_copied live (copy_to_clipboard env c id field w)

unfoldable pub clear_request : ℕ → Bool → ClipboardCookie → World → Option Clipboard → World
clear_request byte fact_overwrite cookie w none = w
clear_request byte fact_overwrite cookie w (some c) =
    (clear_clipboard_with c byte fact_overwrite cookie w).1

unfoldable pub wipe_clipboard_on_exit : Bool → Turn → World → Option ClipboardCookie → World
unfolding clear_request
wipe_clipboard_on_exit fact_overwrite turn w none = w
wipe_clipboard_on_exit fact_overwrite turn w (some cookie) =
    clear_request turn.fact_byte fact_overwrite cookie w turn.clipboard

abbrev pub generation_request : ℕ → GenerationRequest
generation_request length = record {
  length = length;
  charset = default_vault;
  required_classes = one_of_each;
}

abbrev or_empty : Result CoreError (List EntryHandle) → List EntryHandle
or_empty (ok es) = es
or_empty (err e) = []

-- The end of the inner loop.
unfoldable pub drive_unlocked : Turn → Bool → Handled → Mode × List Response
unfolding wipe_clipboard_on_exit
drive_unlocked turn fact_overwrite h = elim h.flow [
  | continue ↦ (unlocked_mode h.world h.live, h.responses)
  | lock_session ↦
      let w = wipe_clipboard_on_exit fact_overwrite turn h.world h.live in
      (locked_mode w.app w.clipboard, Worker.locked ∷ [])
  | quit_worker ↦
      let w = wipe_clipboard_on_exit fact_overwrite turn h.world h.live in (stopped w.clipboard, [])
]

module _ ⦃p : Primitives⦄ ⦃h : Hmac⦄ (post : Postcard) (codec : PolicyCodec)
    (allows : List ℕ → Bool) (fact_overwrite : Bool) where
  unfoldable pub handle_unlocked : Turn → Request → World → Option ClipboardCookie → Handled
  unfolding respond copy_request clear_request then_list respond_export
  handle_unlocked turn lock w live = silent lock_session w live
  handle_unlocked turn quit w live = silent quit_worker w live
  handle_unlocked turn (create master kdf) w live = silent continue w live
  handle_unlocked turn (Worker.unlock master code) w live = silent continue w live
  handle_unlocked turn refresh w live = respond entries live (list_entries turn.env w)
  handle_unlocked turn (reveal id field) w live =
      respond (revealed field) live (with_revealed turn.env id (λ r. select_field r field) w)
  handle_unlocked turn (copy id field) w live = copy_request turn.env id field w live turn.clipboard
  handle_unlocked turn (clear_clipboard cookie) w live =
      silent continue (clear_request turn.fact_byte fact_overwrite cookie w turn.clipboard) none
  handle_unlocked turn (generate length) w live =
      respond generated live
        (generate_password turn.env turn.generator (generation_request length) w)
  handle_unlocked turn (add label username password url notes) w live = then_list turn.after live (
      add_entry post turn.env turn.nonces turn.id label default_policy
        (record { username = username; password = password; url = url; notes = notes }) w)
  handle_unlocked turn (remove id) w live =
      then_list turn.after live (remove_entry post turn.env turn.nonces.index id w)
  handle_unlocked turn (export_recovery master code preset) w live = respond_export live (
      Export.export_recovery codec turn.env allows turn.recovery_salt turn.recovery_nonce master
        (trim code) preset w)
  handle_unlocked turn (verify_totp code) w live =
      let (valid, w') = verify_totp_code turn.env (trim code) w in
      reply (totp_checked valid) w' live

  -- A poll that ends: the session's hard timeout.
  unfoldable pub unlocked_event : Turn → Event → World → Option ClipboardCookie → Handled
  unfolding handle_unlocked is_expired
  unlocked_event turn (received r) w live = handle_unlocked turn r w live
  unlocked_event turn timeout w live =
      if is_expired turn.env w then silent lock_session w live else silent continue w live
  unlocked_event turn disconnected w live = silent quit_worker w live

  -- A new session starts without a live cookie.
  unfoldable pub enter :
      Turn → (List EntryHandle → Response) → Session → App → Option (List ℕ) → Mode × List Response
  enter turn f session app clipboard =
      let (listed, w) =
        list_entries turn.after (record { app = app; session = session; clipboard = clipboard }) in
      (unlocked_mode w none, f (or_empty listed) ∷ [])

  unfoldable pub finish_create :
      Turn
      → Option (List ℕ)
      → Result CoreError (Session × Worker.Create.Provisioning) × App
      → Mode × List Response
  unfolding enter
  finish_create turn clipboard (ok (session, uri), app) =
      enter turn (created uri) session app clipboard
  finish_create turn clipboard (err e, app) =
      (locked_mode app clipboard, create_failed (create_message e) ∷ [])

  unfoldable pub finish_unlock :
      Turn → Option (List ℕ) → Result UnlockError Session × App → Mode × List Response
  unfolding enter
  finish_unlock turn clipboard (ok session, app) = enter turn Worker.unlocked session app clipboard
  finish_unlock turn clipboard (err e, app) =
      (locked_mode app clipboard, unlock_failed (unlock_message e) ∷ [])

  unfoldable pub locked_request : Turn → Request → App → Option (List ℕ) → Mode × List Response
  unfolding finish_create finish_unlock
  locked_request turn (create master kdf) app clipboard =
      finish_create turn clipboard
        (create_vault post turn.env turn.draws master kdf default_config app)
  locked_request turn (Worker.unlock master code) app clipboard =
      finish_unlock turn clipboard (Unlock.unlock post turn.env turn.token master (trim code) app)
  locked_request turn quit app clipboard = (stopped clipboard, [])
  locked_request turn (clear_clipboard cookie) app clipboard = (locked_mode app clipboard, [])
  locked_request turn r app clipboard = (locked_mode app clipboard, Worker.locked ∷ [])

  -- The outer loop waits without a limit, so a poll does not end there.
  unfoldable pub step : Turn → Event → Mode → Mode × List Response
  unfolding locked_request unlocked_event drive_unlocked
  step turn (received r) (locked_mode app clipboard) = locked_request turn r app clipboard
  step turn timeout (locked_mode app clipboard) = (locked_mode app clipboard, [])
  step turn disconnected (locked_mode app clipboard) = (stopped clipboard, [])
  step turn e (unlocked_mode w live) =
      drive_unlocked turn fact_overwrite (unlocked_event turn e w live)
  step turn e (stopped clipboard) = (stopped clipboard, [])
