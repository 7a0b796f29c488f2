-- ===== src/Core/Worker/Wipes.antt =====
-- The clipboard at the end of a session (crates/passman-core/src/worker.rs).
pub mod Runs
use passman.Prelude.{
  ℕ, ◌≡◌, ◌≢◌, refl, subst, ap, sym, ◌∙◌, some-injective, List, [], ◌∷◌, Option, none, some, Bool,
  true, false, Result, ok, err, map_err, Result-cases, arith, Option-cases, Bool-cases, inl, inr,
  ◌⊎◌,
}
use passman.Crypto.{Primitives}
use passman.Crypto.Aead.{ct_eq, ct_eq_refl}
use passman.Policy.Request.{default_policy}
use passman.Core.Worker.Text.{trim}
use passman.Totp.Hotp.{Hmac}
use passman.Vault.{Vault}
use passman.Vault.Postcard.{Postcard}
use passman.Vault.Record.{EntryRecord}
use passman.Vault.Sealing.{decrypt_entry}
use passman.Core.Act.{Act}
use passman.Core.Error.{CoreError, locked}
use passman.Core.Error
use passman.Core.Clipboard.{
  Clipboard, ClipboardCookie, random_fact, clear_clipboard_impl, clear_held, overwrite,
}
use passman.Core.Clipboard
use passman.Core.App.{App, Env}
use passman.Core.Unlocked.{
  World, select_field, list_entries, is_expired, ensure_unlocked, load_vault, clear_clipboard_with,
  copy_to_clipboard,
}
use passman.Core.Unlocked.Export.{PolicyCodec}
use passman.Core.Worker.{
  Request, create, refresh, reveal, copy, clear_clipboard, generate, add, remove, export_recovery,
  verify_totp, lock, quit, Response, entries, revealed, generated, Flow, continue, lock_session,
  quit_worker, Turn, Mode, locked_mode, unlocked_mode, stopped, Event, received, timeout,
  disconnected,
}
use passman.Core.Worker
use passman.Core.Worker.Frames.{
  Frames, clipboard-Frames, list_entries-Frames, with_revealed-Frames, generate_password-Frames,
  add_entry-Frames, remove_entry-Frames, export_recovery-Frames,
}
use passman.Core.Worker.Effects.{
  Same, op_error-Same, respond-Same, respond_export-Same, then_list-Same, Copies, written, failed,
  copy-Copies,
}
use passman.Core.Worker.Handle.{
  clear_request, Handled, silent, on_op_error, on_export_error, respond, respond_copied, then_list,
  respond_export, wipe_clipboard_on_exit, drive_unlocked, handle_unlocked, unlocked_event, step,
}

-- What a session that has ended leaves on the clipboard.
unfoldable pub left_behind : Mode → Option (List ℕ)
left_behind (locked_mode app clipboard) = clipboard
left_behind (unlocked_mode w live) = none
left_behind (stopped clipboard) = clipboard

-- A clipboard that can be read and set, and that takes this digest. The time of a write and whether one
-- fails may change from turn to turn.
pub record Works (turn : Turn) (digest_of : List ℕ → List ℕ) : Type 0 where
  pub clip : Clipboard
  pub present : turn.clipboard ≡ some clip
  pub reads : clip.read_fails ≡ false
  pub sets : clip.set_fails ≡ false
  pub digests : (text : List ℕ) → clip.digest_of text ≡ digest_of text

ok≢err : {E A : Type 0} {a : A} {e : E} → Path (Result E A) (ok a) (err e) → ⊥
ok≢err q = cc

ok-injective : {E A : Type 0} {a b : A} → Path (Result E A) (ok a) (ok b) → a ≡ b
ok-injective q = cc

pub none≢some : {A : Type 0} {a : A} → Path (Option A) none (some a) → ⊥
none≢some e = cc

-- What a clearing leaves is a fact, or a text of another digest.
pub impl-wiped :
    (c : Clipboard) (byte : ℕ) (cookie : ClipboardCookie) (text : Option (List ℕ)) (t : List ℕ)
    → c.read_fails ≡ false
    → c.set_fails ≡ false
    → (clear_clipboard_impl c byte true cookie text).1 ≡ some t
    → (t ≡ random_fact byte) ⊎ ((text ≡ some t) × (cookie.digest ≢ c.digest_of t))
unfolding clear_clipboard_impl clear_held overwrite
impl-wiped c byte cookie none t reads sets e = absurd (none≢some (sym (rw reads refl) ∙ e))
impl-wiped c byte cookie (some u) t reads sets e =
    elim (Bool-cases (ct_eq (c.digest_of u) cookie.digest)) [
      | inl same ↦ inl (sym (some-injective _ _ (sym (rw reads (rw same (rw sets refl))) ∙ e)))
      | inr other ↦
          let kept : Path (Option (List ℕ)) (some u) (some t) =
            sym (rw reads (rw other refl)) ∙ e in
          inr (kept, λ d. ground (arith, ct_eq_refl (c.digest_of u), some-injective _ _ kept))
    ]

module _ (digest_of : List ℕ → List ℕ) (s : List ℕ) where
  -- A secret on the clipboard is that of the live cookie.
  abbrev pub Guarded : World → Option ClipboardCookie → Type 0
  Guarded w live =
      w.clipboard ≡ some s
      → (cookie : ClipboardCookie) × (live ≡ some cookie) × (cookie.digest ≡ digest_of s)

  -- Once the session has ended, it is not there.
  unfoldable pub Kept : Mode → Type 0
  Kept (locked_mode app clipboard) = clipboard ≢ some s
  Kept (unlocked_mode w live) = Guarded w live
  Kept (stopped clipboard) = clipboard ≢ some s

  -- The same of what a handler leaves.
  unfoldable pub Guards : Handled → Type 0
  Guards h = Guarded h.world h.live

  pub Same-Guards :
      (w : World) (live : Option ClipboardCookie) (h : Handled)
      → Same w live h
      → Guarded w live
      → Guards h
  unfolding Guards
  Same-Guards w live h (k, l) g e = let (cookie, m, d) = g (sym l ∙ e) in (cookie, k ∙ m, d)

  pub clear_request-Kept :
      (turn : Turn) (w : World) (cookie : ClipboardCookie)
      → Works turn digest_of
      → random_fact turn.fact_byte ≢ s
      → Guarded w (some cookie)
      → (clear_request turn.fact_byte true cookie w turn.clipboard).clipboard ≢ some s
  unfolding clear_request clear_clipboard_with
  clear_request-Kept turn w cookie works fact g e =
      elim (impl-wiped works.clip turn.fact_byte cookie w.clipboard s works.reads works.sets
        (sym (rw works.present refl) ∙ e)) [
          | inl f ↦ fact (sym f)
          | inr (here, other) ↦
              let (live_one, m, d) = g here in
              other (ap (λ z. z.digest) (some-injective _ _ m) ∙ d ∙ sym (works.digests s))
        ]

  wipe-Kept :
      (turn : Turn) (w : World) (live : Option ClipboardCookie)
      → Works turn digest_of
      → random_fact turn.fact_byte ≢ s
      → Guarded w live
      → (wipe_clipboard_on_exit true turn w live).clipboard ≢ some s
  unfolding wipe_clipboard_on_exit
  wipe-Kept turn w none works fact g e = let (cookie, m, d) = g e in none≢some m
  wipe-Kept turn w (some cookie) works fact g e = clear_request-Kept turn w cookie works fact g e

  pub drive_unlocked-Kept :
      (turn : Turn) (h : Handled)
      → Works turn digest_of
      → random_fact turn.fact_byte ≢ s
      → Guards h
      → Kept (drive_unlocked turn true h).0
  unfolding drive_unlocked Kept Guards
  drive_unlocked-Kept turn h works fact g = by_flow h.flow h.responses h.world h.live g
    where
      by_flow :
          (flow : Flow) (rs : List Response) (w : World) (live : Option ClipboardCookie)
          → Guarded w live
          → Kept
              (drive_unlocked turn true
                (record { flow = flow; responses = rs; world = w; live = live })).0
      by_flow continue rs w live g = g
      by_flow lock_session rs w live g = wipe-Kept turn w live works fact g
      by_flow quit_worker rs w live g = wipe-Kept turn w live works fact g

  pub respond_copied-Guards :
      (c : Clipboard) (w : World) (live : Option ClipboardCookie)
      (r : Result CoreError ClipboardCookie × World)
      → ((text : List ℕ) → c.digest_of text ≡ digest_of text)
      → Copies c w r
      → Guarded w live
      → Guards (respond_copied live r)
  unfolding respond_copied Guards
  respond_copied-Guards c w live (ok cookie, w') same (written secret new made d k) g e = (
    cookie,
    refl,
    ap (λ z. z.digest) (ok-injective made)
        ∙ d
        ∙ ap c.digest_of (some-injective _ _ (sym k ∙ e))
        ∙ same s,
  )
  respond_copied-Guards c w live (ok cookie, w') same (failed x bad k) g e = absurd (ok≢err bad)
  respond_copied-Guards c w live (err x, w') same (written secret new made d k) g e =
      absurd (ok≢err (sym made))
  respond_copied-Guards c w live (err x, w') same (failed y bad k) g e =
      Same-Guards w live (on_op_error x w' live) (op_error-Same w live x w' k) g e

-- A request to clear carries the cookie that is live.
unfoldable pub IsCurrent : Event → Mode → Type 0
IsCurrent (received (clear_clipboard cookie)) (unlocked_mode w live) = live ≡ some cookie
IsCurrent e m = Unit {0}
