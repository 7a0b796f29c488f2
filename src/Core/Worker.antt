-- ===== src/Core/Worker.antt =====
-- crates/passman-core/src/worker.rs: the session actor. Its two nested loops are a machine with three
-- modes, which receives an event and gives responses.
pub mod Text
mod Examples
pub mod Handle
pub mod Replies
pub mod Expiry
pub mod Frames
pub mod Effects
pub mod Wipes
use passman.Prelude.{
  ℕ, max, String, List, [], ◌∷◌, Option, none, some, Bool, true, false, Result, ok, err,
  if◌then◌else◌,
}
use passman.Crypto.{Primitives}
use passman.Crypto.Kdf.{KdfParams}
use passman.Hsm.{HsmError}
use passman.Hsm
use passman.Policy.Generate.{GenerationRequest}
use passman.Recovery.Cost.{RecoveryPreset}
use passman.Vault
use passman.Core.Error.{CoreError, UnlockError}
use passman.Core.Error
use passman.Core.Clipboard.{Clipboard, ClipboardCookie}
use passman.Core.App.{App, Env}
use passman.Core.App.Create
use passman.Core.Unlocked.{World, RevealField, EntryHandle, Nonces}

pub data Request : Type 0 where
  create : List ℕ → KdfParams → Request
  unlock : List ℕ → List ℕ → Request
  refresh : Request
  reveal : List ℕ → RevealField → Request
  copy : List ℕ → RevealField → Request
  clear_clipboard : ClipboardCookie → Request
  generate : ℕ → Request
  -- Label, username, password, url and notes.
  add : List ℕ → List ℕ → List ℕ → List ℕ → List ℕ → Request
  remove : List ℕ → Request
  export_recovery : List ℕ → List ℕ → RecoveryPreset → Request
  verify_totp : List ℕ → Request
  lock quit : Request

-- A message for the user; that of a lockout carries its seconds.
pub data Message : Type 0 where
  text : String → Message
  locked_out_for : ℕ → Message

pub data Response : Type 0 where
  created : Create.Provisioning → List EntryHandle → Response
  create_failed : Message → Response
  unlocked : List EntryHandle → Response
  unlock_failed : Message → Response
  entries : List EntryHandle → Response
  revealed : RevealField → List ℕ → Response
  copied : ClipboardCookie → Response
  -- `none` where the draws that were given for the generator ran out.
  generated : Option (List ℕ) → Response
  locked : Response
  recovery_exported : List ℕ → Response
  recovery_export_failed : Message → Response
  totp_checked : Bool → Response
  error : Message → Response

pub data Flow : Type 0 where
  continue lock_session quit_worker : Flow

-- What surrounds one event: the environment, that of the listing which follows a change, the clipboard
-- where there is one, and the draws.
pub record Turn : Type 0 where
  pub env : Env
  pub after : Env
  pub clipboard : Option Clipboard
  pub fact_byte : ℕ
  pub draws : Create.Draws
  pub token : List ℕ
  pub id : List ℕ
  pub nonces : Nonces
  pub generator : List ℕ
  pub recovery_salt : List ℕ
  pub recovery_nonce : List ℕ

abbrev pub keystore_refused : Message
keystore_refused =
    text "This device's secure storage refused to use the vault key. Please try again."

unfoldable pub create_message : CoreError → Message
create_message Error.already_running = text "Another passman instance is using this vault."
create_message Error.software_hsm_refused = text "This device has no acceptable hardware key store."
create_message (Error.hsm Hsm.hardware_absent) =
    text
      "Set a screen lock (PIN, pattern or password) on this device first. passman needs it to protect its secure key."
create_message (Error.hsm (Hsm.backend why)) = keystore_refused
create_message _ = text "The vault could not be created."

unfoldable pub unlock_message : UnlockError → Message
unlock_message Error.bad_credentials = text "Incorrect master password or TOTP code."
unlock_message (Error.locked_out remaining) = locked_out_for (max remaining 1)
unlock_message Error.cancelled = text "Unlock cancelled."
unlock_message Error.retryable = text "Transient hardware error; please retry."
unlock_message Error.route_to_recovery =
    text "The hardware key is unavailable; recover from a backup."
unlock_message Error.software_refused =
    text "This vault uses a software backend (run with --allow-software-hsm)."
unlock_message (Error.hsm_failed (Hsm.backend why)) = keystore_refused
unlock_message _ = text "The vault could not be unlocked."

unfoldable pub operation_message : CoreError → Message
operation_message (Error.vault Vault.entry_not_found) = text "That entry no longer exists."
operation_message Error.weak_password_for_export =
    text "The master password is too weak for a recovery export."
operation_message _ = text "The operation failed."

-- The modes: the outer loop, the inner loop with the cookie that is live, and the end of the thread.
pub data Mode : Type 0 where
  locked_mode : App → Option (List ℕ) → Mode
  unlocked_mode : World → Option ClipboardCookie → Mode
  stopped : Option (List ℕ) → Mode

-- What the channel gives: a request, the end of a poll, or its closing.
pub data Event : Type 0 where
  received : Request → Event
  timeout disconnected : Event
