-- ===== src/Core/Worker/Expiry.antt =====
-- The hard timeout of a session (crates/passman-core/src/worker.rs and unlocked.rs).
use passman.Prelude.{ℕ, ◌≡◌, ap, ◌∙◌, refl, List, [], ◌∷◌, Option, none, some, Bool, true}
use passman.Crypto.{Primitives}
use passman.Totp.Hotp.{Hmac}
use passman.Vault.Postcard.{Postcard}
use passman.Core.Clipboard.{Clipboard, ClipboardCookie}
use passman.Core.Unlocked.{
  World, clear_clipboard_with, is_expired, ensure_unlocked, list_entries, add_entry, remove_entry,
  with_revealed, copy_to_clipboard, generate_password,
}
use passman.Core.Unlocked.Export.{PolicyCodec}
use passman.Core.Unlocked.Export
use passman.Core.Worker.{
  Request, create, refresh, reveal, copy, clear_clipboard, generate, add, remove, export_recovery,
  verify_totp, lock, quit, Turn, Event, received, timeout, disconnected, Mode, locked_mode,
  unlocked_mode, Response, lock_session,
}
use passman.Core.Worker
use passman.Core.Worker.Handle.{
  silent, on_op_error, on_export_error, respond, respond_copied, then_list, respond_export,
  copy_request, clear_request, wipe_clipboard_on_exit, drive_unlocked, handle_unlocked,
  unlocked_event, step,
}

-- The events that check the session: not a copy without a clipboard, and not the check of a code.
pub data NeedsSession (c : Clipboard) (turn : Turn) : Event → Type 0 where
  refreshes : NeedsSession c turn (received refresh)
  reveals :
      (id : List ℕ) (field : Worker.RevealField) → NeedsSession c turn (received (reveal id field))
  copies :
      (id : List ℕ) (field : Worker.RevealField)
      → turn.clipboard ≡ some c
      → NeedsSession c turn (received (copy id field))
  generates : (n : ℕ) → NeedsSession c turn (received (generate n))
  adds :
      (label username password url notes : List ℕ)
      → NeedsSession c turn (received (add label username password url notes))
  removes : (id : List ℕ) → NeedsSession c turn (received (remove id))
  exports :
      (master code : List ℕ) (preset : Worker.RecoveryPreset)
      → NeedsSession c turn (received (export_recovery master code preset))
  polls : NeedsSession c turn timeout

clear_request-app :
    (byte : ℕ) (b : Bool) (cookie : ClipboardCookie) (w : World) (c : Option Clipboard)
    → (clear_request byte b cookie w c).app ≡ w.app
unfolding clear_request clear_clipboard_with
clear_request-app byte b cookie w none = refl
clear_request-app byte b cookie w (some c) = refl

wipe-app :
    (b : Bool) (turn : Turn) (w : World) (live : Option ClipboardCookie)
    → (wipe_clipboard_on_exit b turn w live).app ≡ w.app
unfolding wipe_clipboard_on_exit
wipe-app b turn w none = refl
wipe-app b turn w (some cookie) = clear_request-app turn.fact_byte b cookie w turn.clipboard

module _ ⦃p : Primitives⦄ ⦃h : Hmac⦄ (post : Postcard) (codec : PolicyCodec)
    (allows : List ℕ → Bool) (fact_overwrite : Bool) where
  unlocked_event-expired :
      (c : Clipboard) (turn : Turn) (e : Event) (w : World) (live : Option ClipboardCookie)
      → NeedsSession c turn e
      → is_expired turn.env w ≡ true
      → unlocked_event post codec allows fact_overwrite turn e w live ≡ silent lock_session w live
  unfolding unlocked_event handle_unlocked respond respond_copied then_list respond_export
      copy_request on_op_error on_export_error list_entries add_entry remove_entry with_revealed
      copy_to_clipboard generate_password Export.export_recovery ensure_unlocked
  unlocked_event-expired c turn _ w live refreshes late = rw late refl
  unlocked_event-expired c turn _ w live (reveals id field) late = rw late refl
  unlocked_event-expired c turn _ w live (copies id field here) late = rw here (rw late refl)
  unlocked_event-expired c turn _ w live (generates n) late = rw late refl
  unlocked_event-expired c turn _ w live (adds a b d e f) late = rw late refl
  unlocked_event-expired c turn _ w live (removes id) late = rw late refl
  unlocked_event-expired c turn _ w live (exports a b d) late = rw late refl
  unlocked_event-expired c turn _ w live polls late = rw late refl

  -- In a session whose time is over, a request to list, reveal, generate, add, remove or export, one to
  -- copy where there is a clipboard, and the end of a poll lock it: nothing is read, shown or written,
  -- the clipboard is wiped as at every end, and the one response is that the session is locked.
  pub step-expired :
      (c : Clipboard) (turn : Turn) (e : Event) (w : World) (live : Option ClipboardCookie)
      → NeedsSession c turn e
      → is_expired turn.env w ≡ true
      → step post codec allows fact_overwrite turn e (unlocked_mode w live) ≡ (
        locked_mode w.app (wipe_clipboard_on_exit fact_overwrite turn w live).clipboard,
        Worker.locked ∷ [],
      )
  unfolding step drive_unlocked
  step-expired c turn e w live n late =
      ap (drive_unlocked turn fact_overwrite) (unlocked_event-expired c turn e w live n late)
      ∙ ap
          (λ app. (
            locked_mode app (wipe_clipboard_on_exit fact_overwrite turn w live).clipboard,
            Worker.locked ∷ [],
          ))
          (wipe-app fact_overwrite turn w live)
