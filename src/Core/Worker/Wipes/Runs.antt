-- ===== src/Core/Worker/Wipes/Runs.antt =====
-- Whole runs of the worker, and the secret that they copied (crates/passman-core/src/worker.rs).
use passman.Prelude.{ℕ, ◌≢◌, List, Bool, true}
use passman.Crypto.{Primitives}
use passman.Totp.Hotp.{Hmac}
use passman.Vault.Postcard.{Postcard}
use passman.Core.Clipboard.{random_fact}
use passman.Core.App.{App}
use passman.Core.Unlocked.Export.{PolicyCodec}
use passman.Core.Worker.{text, error, Request, Flow, lock_session, quit_worker, Turn, Mode, Event}
use passman.Core.Worker
use passman.Core.Worker.Handle.{step}
use passman.Core.Worker.Wipes.{Works, IsCurrent}

module _ ⦃p : Primitives⦄ ⦃h : Hmac⦄ (post : Postcard) (codec : PolicyCodec)
    (allows : List ℕ → Bool) (digest_of : List ℕ → List ℕ) (s : List ℕ) where
  -- Runs in which each turn has a clipboard that works with the one digest, at a time of its own, no fact
  -- is the secret, and a request to clear carries the cookie that is live.
  pub data Runs (start : Mode) : Mode → Type 0 where
    begins : Runs start start
    goes_on :
        {m : Mode} (turn : Turn) (e : Event)
        → Runs start m
        → Works turn digest_of
        → random_fact turn.fact_byte ≢ s
        → IsCurrent e m
        → Runs start (step post codec allows true turn e m).0
