-- ===== src/Core/Worker/Replies.antt =====
-- How many responses an event of the worker gets (crates/passman-core/src/worker.rs).
use passman.Prelude.{
  ℕ, ◌≡◌, refl, List, Option, none, some, Bool, true, false, Result, ok, err, length,
}
use passman.Crypto.{Primitives}
use passman.Totp.Hotp.{Hmac}
use passman.Vault.Postcard.{Postcard}
use passman.Core.Error.{CoreError, UnlockError, locked}
use passman.Core.Error
use passman.Core.Clipboard.{Clipboard, ClipboardCookie}
use passman.Core.App.{App, Env, Session}
use passman.Core.App.Create
use passman.Core.Unlocked.{World, RevealField, list_entries, copy_to_clipboard}
use passman.Core.Unlocked.Export.{PolicyCodec}
use passman.Core.Worker.{
  Request, create, refresh, reveal, copy, clear_clipboard, generate, add, remove, export_recovery,
  verify_totp, lock, quit, Response, entries, revealed, generated, Flow, continue, lock_session,
  quit_worker, Turn, Mode, locked_mode, unlocked_mode, stopped, Event, received, timeout,
  disconnected,
}
use passman.Core.Worker
use passman.Core.Worker.Handle.{
  copy_request, Handled, on_op_error, on_export_error, respond, respond_copied, then_list,
  respond_export, drive_unlocked, finish_create, finish_unlock, step,
}

-- The requests whose sender waits for a response: in an unlocked session all but the ones that the
-- worker ignores, clears the clipboard for, or stops at.
unfoldable pub awaits : Mode → Request → Bool
awaits (stopped clipboard) r = false
awaits (locked_mode app clipboard) (clear_clipboard cookie) = false
awaits (locked_mode app clipboard) quit = false
awaits (locked_mode app clipboard) r = true
awaits (unlocked_mode w live) (clear_clipboard cookie) = false
awaits (unlocked_mode w live) quit = false
awaits (unlocked_mode w live) (create master kdf) = false
awaits (unlocked_mode w live) (Worker.unlock master code) = false
awaits (unlocked_mode w live) r = true

abbrev pub expected : Bool → ℕ
expected true = 1
expected false = 0

-- One response in all: that of the handler, or the one that a lock sends.
unfoldable FlowOwesOne : Flow → List Response → Type 0
FlowOwesOne continue rs = length rs ≡ 1
FlowOwesOne lock_session rs = Unit {0}
FlowOwesOne quit_worker rs = ⊥

OwesOne : Handled → Type 0
unfolding FlowOwesOne
OwesOne h = FlowOwesOne h.flow h.responses

op_error-OwesOne :
    (e : CoreError) (w : World) (live : Option ClipboardCookie) → OwesOne (on_op_error e w live)
unfolding OwesOne on_op_error
op_error-OwesOne locked w live = tt
op_error-OwesOne Error.already_running w live = refl
op_error-OwesOne Error.weak_password_for_export w live = refl
op_error-OwesOne Error.software_hsm_refused w live = refl
op_error-OwesOne (Error.io s) w live = refl
op_error-OwesOne (Error.vault e) w live = refl
op_error-OwesOne (Error.hsm e) w live = refl
op_error-OwesOne (Error.recovery e) w live = refl
op_error-OwesOne (Error.policy e) w live = refl
op_error-OwesOne (Error.crypto e) w live = refl

export_error-OwesOne :
    (e : CoreError) (w : World) (live : Option ClipboardCookie) → OwesOne (on_export_error e w live)
unfolding OwesOne on_export_error
export_error-OwesOne locked w live = tt
export_error-OwesOne Error.already_running w live = refl
export_error-OwesOne Error.weak_password_for_export w live = refl
export_error-OwesOne Error.software_hsm_refused w live = refl
export_error-OwesOne (Error.io s) w live = refl
export_error-OwesOne (Error.vault e) w live = refl
export_error-OwesOne (Error.hsm e) w live = refl
export_error-OwesOne (Error.recovery e) w live = refl
export_error-OwesOne (Error.policy e) w live = refl
export_error-OwesOne (Error.crypto e) w live = refl

respond-OwesOne :
    {A : Type 0} (f : A → Response) (live : Option ClipboardCookie) (r : Result CoreError A × World)
    → OwesOne (respond f live r)
unfolding OwesOne respond
respond-OwesOne f live (ok a, w) = refl
respond-OwesOne f live (err e, w) = op_error-OwesOne e w live

respond_copied-OwesOne :
    (live : Option ClipboardCookie) (r : Result CoreError ClipboardCookie × World)
    → OwesOne (respond_copied live r)
unfolding OwesOne respond_copied
respond_copied-OwesOne live (ok a, w) = refl
respond_copied-OwesOne live (err e, w) = op_error-OwesOne e w live

respond_export-OwesOne :
    (live : Option ClipboardCookie) (r : Result CoreError (List ℕ) × World)
    → OwesOne (respond_export live r)
unfolding OwesOne respond_export
respond_export-OwesOne live (ok a, w) = refl
respond_export-OwesOne live (err e, w) = export_error-OwesOne e w live

then_list-OwesOne :
    {A : Type 0} (after : Env) (live : Option ClipboardCookie) (r : Result CoreError A × World)
    → OwesOne (then_list after live r)
unfolding then_list
then_list-OwesOne after live (ok a, w) = respond-OwesOne entries live (list_entries after w)
then_list-OwesOne after live (err e, w) = op_error-OwesOne e w live

copy-OwesOne :
    ⦃p : Primitives⦄ (env : Env) (id : List ℕ) (field : RevealField) (w : World)
    (live : Option ClipboardCookie) (c : Option Clipboard)
    → OwesOne (copy_request env id field w live c)
unfolding OwesOne copy_request
copy-OwesOne env id field w live none = refl
copy-OwesOne env id field w live (some c) =
    respond_copied-OwesOne live (copy_to_clipboard env c id field w)

drive_unlocked-one :
    (turn : Turn) (fact_overwrite : Bool) (h : Handled)
    → OwesOne h
    → length (drive_unlocked turn fact_overwrite h).1 ≡ 1
unfolding OwesOne FlowOwesOne drive_unlocked
drive_unlocked-one turn fact_overwrite h = by_flow h.flow h.responses h.world h.live
  where
    by_flow :
        (flow : Flow) (rs : List Response) (w : World) (live : Option ClipboardCookie)
        → FlowOwesOne flow rs
        → length
            (drive_unlocked turn fact_overwrite
              (record { flow = flow; responses = rs; world = w; live = live })).1
          ≡ 1
    by_flow continue rs w live one = one
    by_flow lock_session rs w live one = refl
    by_flow quit_worker rs w live one = absurd one

module _ ⦃p : Primitives⦄ ⦃h : Hmac⦄ (post : Postcard) (codec : PolicyCodec)
    (allows : List ℕ → Bool) (fact_overwrite : Bool) where
  finish_create-one :
      (turn : Turn) (clipboard : Option (List ℕ))
      (r : Result CoreError (Session × Create.Provisioning) × App)
      → length (finish_create post codec allows fact_overwrite turn clipboard r).1 ≡ 1
  unfolding finish_create
  finish_create-one turn clipboard (ok (s, uri), app) = refl
  finish_create-one turn clipboard (err e, app) = refl

  finish_unlock-one :
      (turn : Turn) (clipboard : Option (List ℕ)) (r : Result UnlockError Session × App)
      → length (finish_unlock post codec allows fact_overwrite turn clipboard r).1 ≡ 1
  unfolding finish_unlock
  finish_unlock-one turn clipboard (ok s, app) = refl
  finish_unlock-one turn clipboard (err e, app) = refl

  -- A request gets exactly one response where its sender waits for one, and none else: not where it
  -- clears the clipboard or stops the worker, nor where an unlocked session is asked to create or
  -- unlock, nor after the worker has stopped.
  pub step-one_response :
      (turn : Turn) (m : Mode) (r : Request)
      → length (step post codec allows fact_overwrite turn (received r) m).1 ≡ expected (awaits m r)
  unfolding step awaits
  step-one_response turn (locked_mode app clipboard) (create master kdf) =
      finish_create-one turn clipboard _
  step-one_response turn (locked_mode app clipboard) (Worker.unlock master code) =
      finish_unlock-one turn clipboard _
  step-one_response turn (locked_mode app clipboard) refresh = refl
  step-one_response turn (locked_mode app clipboard) (reveal id field) = refl
  step-one_response turn (locked_mode app clipboard) (copy id field) = refl
  step-one_response turn (locked_mode app clipboard) (clear_clipboard cookie) = refl
  step-one_response turn (locked_mode app clipboard) (generate n) = refl
  step-one_response turn (locked_mode app clipboard) (add a b c d e) = refl
  step-one_response turn (locked_mode app clipboard) (remove id) = refl
  step-one_response turn (locked_mode app clipboard) (export_recovery a b c) = refl
  step-one_response turn (locked_mode app clipboard) (verify_totp code) = refl
  step-one_response turn (locked_mode app clipboard) lock = refl
  step-one_response turn (locked_mode app clipboard) quit = refl
  step-one_response turn (unlocked_mode w live) (create master kdf) = refl
  step-one_response turn (unlocked_mode w live) (Worker.unlock master code) = refl
  step-one_response turn (unlocked_mode w live) refresh =
      drive_unlocked-one turn fact_overwrite _ (respond-OwesOne entries live _)
  step-one_response turn (unlocked_mode w live) (reveal id field) =
      drive_unlocked-one turn fact_overwrite _ (respond-OwesOne (revealed field) live _)
  step-one_response turn (unlocked_mode w live) (copy id field) =
      drive_unlocked-one turn fact_overwrite _
        (copy-OwesOne turn.env id field w live turn.clipboard)
  step-one_response turn (unlocked_mode w live) (clear_clipboard cookie) = refl
  step-one_response turn (unlocked_mode w live) (generate n) =
      drive_unlocked-one turn fact_overwrite _ (respond-OwesOne generated live _)
  step-one_response turn (unlocked_mode w live) (add a b c d e) =
      drive_unlocked-one turn fact_overwrite _ (then_list-OwesOne turn.after live _)
  step-one_response turn (unlocked_mode w live) (remove id) =
      drive_unlocked-one turn fact_overwrite _ (then_list-OwesOne turn.after live _)
  step-one_response turn (unlocked_mode w live) (export_recovery a b c) =
      drive_unlocked-one turn fact_overwrite _ (respond_export-OwesOne live _)
  step-one_response turn (unlocked_mode w live) (verify_totp code) = refl
  step-one_response turn (unlocked_mode w live) lock = refl
  step-one_response turn (unlocked_mode w live) quit = refl
  step-one_response turn (stopped clipboard) r = refl
