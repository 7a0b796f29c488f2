-- ===== src/Core/Worker/Examples.antt =====
-- Events of the worker (crates/passman-core/src/worker.rs), and the theorems at them.
use passman.Prelude.{
  bytes_eq, ℕ, ◌≡◌, refl, List, [], ◌∷◌, none, some, true, false, length, replicate,
}
use passman.Crypto.Kdf
use passman.Crypto.Toy.{toy}
use passman.Policy.Request.{default_policy}
use passman.Vault.Toy.{toy_postcard}
use passman.Core.Toy.{small, env₀, app₀, draws₀, password, session₀}
use passman.Core.App.{Env}
use passman.Core.Clipboard.{Clipboard, ClipboardCookie, clear_clipboard_impl, clear_held, overwrite}
use passman.Core.Unlocked.{World, is_expired, clear_clipboard_with}
use passman.Core.Unlocked
use passman.Core.Unlocked.Export.{PolicyCodec}
use passman.Core.Worker.{
  Turn, Mode, locked_mode, unlocked_mode, received, Request, create, refresh, reveal, copy, add,
  lock, locked, clear_clipboard,
}
use passman.Core.Worker.Text.{trim, strip, white_front, white_back, white_1, white_2, white_3}
use passman.Core.Worker.Handle.{
  step, wipe_clipboard_on_exit, clear_request, drive_unlocked, unlocked_event, handle_unlocked,
}
use passman.Crypto.Aead.{ct_eq}
use passman.Core.Worker.Replies.{awaits, expected, step-one_response}
use passman.Core.Worker.Expiry.{reveals, step-expired}
use passman.Core.Worker.Wipes.{left_behind}
use passman.Core.Worker.Wipes.Runs.{Runs}

-- An ideographic space and a space around two digits.
trimmed : trim (0xE3 ∷ 0x80 ∷ 0x80 ∷ 49 ∷ 50 ∷ 32 ∷ []) ≡ 49 ∷ 50 ∷ []
unfolding trim strip white_front white_back white_1 white_2 white_3
trimmed = refl

abbrev codec : PolicyCodec
codec = record { to_allocvec = λ policy. some []; of_bytes = λ bytes. some default_policy }

-- The digest of a text is the text.
abbrev clipboard₀ : Clipboard
clipboard₀ = record {
  digest_of = λ t. t;
  write_fails = false;
  read_fails = false;
  set_fails = false;
  time = 95;
}

abbrev turn_at : Env → Turn
turn_at env = record {
  env = env;
  after = env;
  clipboard = some clipboard₀;
  fact_byte = 0;
  draws = draws₀;
  token = [];
  id = replicate 16 5;
  nonces = record { entry = replicate 24 6; index = replicate 24 7 };
  generator = [];
  recovery_salt = [];
  recovery_nonce = [];
}

abbrev turn₀ : Turn
turn₀ = turn_at env₀

abbrev secret : List ℕ
secret = 98 ∷ []

abbrev world₀ : World
world₀ = record { app = app₀; session = session₀; clipboard = some secret }

abbrev cookie₀ : ClipboardCookie
cookie₀ = record { digest = secret; written_at = 95 }

step-one_response_example :
    length
      (step toy_postcard codec
        (λ s. true)
        true
        turn₀
        (received refresh)
        (unlocked_mode world₀ none)).1
    ≡ expected (awaits (unlocked_mode world₀ none) refresh)
step-one_response_example =
    step-one_response toy_postcard codec (λ s. true) true turn₀ (unlocked_mode world₀ none) refresh

-- A request to reveal at 300, where the session ended at 210.
abbrev late_turn : Turn
late_turn = turn_at (record env₀ { now = 300 })

late : is_expired late_turn.env world₀ ≡ true
unfolding is_expired
late = refl

step-expired_example :
    step toy_postcard codec
      (λ s. true)
      true
      late_turn
      (received (reveal (replicate 16 5) Unlocked.password))
      (unlocked_mode world₀ (some cookie₀))
    ≡ (
      locked_mode world₀.app
          (wipe_clipboard_on_exit true late_turn world₀ (some cookie₀)).clipboard,
      locked ∷ [],
    )
step-expired_example =
    step-expired toy_postcard codec (λ s. true) true clipboard₀ late_turn _ world₀ (some cookie₀)
      (reveals (replicate 16 5) Unlocked.password) late

-- The same turn, with the clipboard written to half a minute later.
abbrev later_turn : Turn
later_turn = record turn₀ { clipboard = some (record clipboard₀ { time = 125 }) }

-- A vault is created and given an entry, its username and then its password are copied, at different
-- times, and the session is locked.
abbrev after_event : Request → Mode → Mode
after_event r m = (step toy_postcard codec (λ s. true) true turn₀ (received r) m).0

abbrev last_mode : Mode
last_mode = after_event lock (
    (step toy_postcard codec (λ s. true) true later_turn
      (received (copy (replicate 16 5) Unlocked.password))
      (after_event (copy (replicate 16 5) Unlocked.username) (
        after_event (add (120 ∷ []) (97 ∷ []) secret [] [])
          (after_event (create password Kdf.low) (locked_mode app₀ none))))).0)

-- The digest of a text is the text.
abbrev same_text : List ℕ → List ℕ
same_text text = text

-- A request to clear an earlier copy, then a lock: the worker has forgotten the cookie of the later copy,
-- and leaves its secret.
stale_cookie :
    left_behind (
      after_event lock (
        after_event
          (clear_clipboard (record { digest = 97 ∷ []; written_at = 80 }))
          (unlocked_mode world₀ (some cookie₀))))
    ≡ some secret
unfolding left_behind step drive_unlocked unlocked_event handle_unlocked clear_request
    wipe_clipboard_on_exit clear_clipboard_with clear_clipboard_impl clear_held ct_eq bytes_eq
stale_cookie = refl

-- With overwriting turned off, the lock leaves the secret of the live cookie too.
no_overwrite :
    left_behind
      (step toy_postcard codec
        (λ s. true)
        false
        turn₀
        (received lock)
        (unlocked_mode world₀ (some cookie₀))).0
    ≡ some secret
unfolding left_behind step drive_unlocked unlocked_event handle_unlocked clear_request
    wipe_clipboard_on_exit clear_clipboard_with clear_clipboard_impl clear_held overwrite ct_eq
    bytes_eq
no_overwrite = refl
