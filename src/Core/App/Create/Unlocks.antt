-- ===== src/Core/App/Create/Unlocks.antt =====
-- A created vault can be unlocked (crates/passman-core/src/app.rs).
use passman.Prelude.{ℕ, ◌≡◌, ap₂, refl, sym, ap, ◌∙◌, List, [], some, true, ok, arith}
use passman.Crypto.{Primitives, IsAead}
use passman.Crypto.Kdf.{KdfParams, within_limits}
use passman.Hsm.{vault_key, totp_seed}
use passman.Hsm.Blob
use passman.Totp.{TotpConfig}
use passman.Totp.Hotp.{Hmac}
use passman.Totp.Verifier.{TotpVerifier}
use passman.Totp.Verifier
use passman.Vault.Format
use passman.Vault.Format.RoundTrip.{from_bytes-to_bytes_vault}
use passman.Vault.Postcard.{Postcard, IsPostcard}
use passman.Vault.Create.Valid.{IsCreated, create-IsCreated}
use passman.Core.Lockout.{remaining, reset}
use passman.Core.App.{App, Env, Session, build_unlocked, save, set_totp_config, unix_secs}
use passman.Core.App.Keys.{unwrap_blob, derive_master_from_bytes}
use passman.Core.App.Failures.{
  header_state, merge, put_verifier, verifier_or, check_hsm_lockout, clear_failures,
}
use passman.Core.App.Unlock.{unlock}
use passman.Core.App.Unlock.Admission.{merged, IsAdmitted}
use passman.Core.App.Unlock.Verdict.{Unwraps, unlock_iff, IsUnlocked}
use passman.Core.App.Create.{Draws, Provisioning, new_metadata, create_vault}
use passman.Core.App.Create.Made.{Made, create_vault-Made}
use passman.Core.App.Create.Surroundings.{
  Suits, AreDraws, written-target, read-target, quiet_vault, clean, from_key, derive_master-memory,
}

module _ ⦃p : Primitives⦄ (post : Postcard) (laws : IsAead p) (codec : IsPostcard post)
    (env env' : Env) (draws : Draws) (password : List ℕ) (kdf : KdfParams) (cfg : TotpConfig)
    (app app' : App) (session : Session) (m : Made post env draws password kdf cfg app session app')
    (s : Suits env env' draws kdf app') where
  -- The vault that was made is in the file.
  made-target : app'.disk.target ≡ some (record { bytes = Format.to_bytes m.v; synced = true })
  made-target =
      ap (λ a. a.disk.target) m.left
      ∙ unfold set_totp_config in
        unfold save in
        written-target env.faults (Format.to_bytes m.v) app.disk (unfold save in m.written)

  made-config : verifier_or app'.totp_config app'.verifier ≡ Verifier.new cfg
  made-config =
      ap (λ a. verifier_or a.totp_config a.verifier) m.left
      ∙ unfold set_totp_config in unfold verifier_or in refl

  made-lockout : app.lockout_mem ≡ reset → app'.lockout_mem ≡ reset
  made-lockout quiet =
      ap (λ a. a.lockout_mem) m.left ∙ unfold set_totp_config in unfold save in quiet

  made-IsCreated :
      (bytes : List ℕ)
      → AreDraws post env draws kdf bytes
      → IsCreated laws post codec kdf draws.vault_salt
          (Blob.to_bytes m.k_hsm_blob)
          (Blob.to_bytes m.seed_blob)
          m.k_master
          m.v
  made-IsCreated bytes d =
      create-IsCreated laws post codec draws.probe_nonce draws.index_nonce kdf draws.vault_salt
        (Blob.to_bytes m.k_hsm_blob) (Blob.to_bytes m.seed_blob) (new_metadata env.now) m.k_master
        bytes m.v
        (record {
          probe_nonce_fits = d.probe_size;
          index_nonce_fits = d.index_size;
          kdf_fits = d.params;
          salt_fits = d.salt_size;
          k_hsm_fits = (s.keeps_key m.k_hsm_blob m.key_enrolled).0;
          totp_seed_fits = (s.keeps_seed m.seed_blob m.seed_enrolled).0;
          changed = unfold unix_secs in omega arith;
          exported = tt;
          serialized = d.serialized;
          small = d.short;
          empty = d.empty;
        })
        m.created

  made-IsAdmitted :
      (bytes : List ℕ)
      → AreDraws post env draws kdf bytes
      → app.lockout_mem ≡ reset
      → IsAdmitted env' app' m.v
  made-IsAdmitted bytes d quiet =
      let c = made-IsCreated bytes d in
      record {
        bytes = Format.to_bytes m.v;
        allowed = s.allowed;
        was_read = read-target env'.faults app'.disk _ s.fine made-target (s.small _ made-target);
        parsed = from_bytes-to_bytes_vault m.v c.valid;
        within =
            ap within_limits c.params
            ∙ (derive_master-memory env env' password draws.vault_salt kdf draws.k_hsm m.k_master
                m.derived s.memory).0;
        hardware =
            ap (λ x. check_hsm_lockout x (merged m.v app').lockout_mem env'.now) s.unlocked
            ∙ unfold check_hsm_lockout in refl;
        advisory =
            ap (λ x. remaining (merge (header_state m.v) x) env'.now) (made-lockout quiet)
            ∙ quiet_vault m.v env'.now c.no_failures;
      }

  made-derived :
      (bytes : List ℕ)
      → AreDraws post env draws kdf bytes
      → derive_master_from_bytes env' password m.v.salt m.v.kdf_params draws.k_hsm ≡ ok m.k_master
  made-derived bytes d =
      let c = made-IsCreated bytes d in
      ap₂ (λ x y. derive_master_from_bytes env' password x y draws.k_hsm) c.salted c.params
      ∙ from_key env' password draws.vault_salt kdf draws.k_hsm d.key_size
      ∙ (derive_master-memory env env' password draws.vault_salt kdf draws.k_hsm m.k_master
          m.derived s.memory).1

  made-Unwraps :
      (bytes : List ℕ) → AreDraws post env draws kdf bytes → Unwraps env' m.v draws.k_hsm draws.seed
  made-Unwraps bytes d =
      let c = made-IsCreated bytes d in
      record {
        key =
            ap (unwrap_blob env' vault_key) c.key_blob
            ∙ (s.keeps_key m.k_hsm_blob m.key_enrolled).1;
        code_seed =
            ap (unwrap_blob env' totp_seed) c.seed_blob
            ∙ (s.keeps_seed m.seed_blob m.seed_enrolled).1;
      }

  module _ ⦃h : Hmac⦄ (token code bytes : List ℕ) (w : TotpVerifier) where
    made-IsUnlocked :
        AreDraws post env draws kdf bytes
        → app.lockout_mem ≡ reset
        → Verifier.verify (Verifier.new cfg) draws.seed code env'.totp_now ≡ (ok tt, w)
        → IsUnlocked post env' token password code app'
            (build_unlocked env' token m.k_master draws.seed [])
            (clear_failures env' m.v (put_verifier w (merged m.v app')))
    made-IsUnlocked d quiet accepted =
        let c = made-IsCreated bytes d in
        record {
          v = m.v;
          k_hsm = draws.k_hsm;
          seed = draws.seed;
          w = w;
          k_master = m.k_master;
          index = [];
          admitted = made-IsAdmitted bytes d quiet;
          unwrapped = made-Unwraps bytes d;
          code = ap (λ x. Verifier.verify x draws.seed code env'.totp_now) made-config ∙ accepted;
          derived = made-derived bytes d;
          probe = c.probe;
          opened = c.opened;
          session_built = refl;
          left = refl;
        }

module _ ⦃p : Primitives⦄ ⦃h : Hmac⦄ (post : Postcard) (laws : IsAead p)
    (codec : IsPostcard post) where
  -- A vault that is created by a process with no failed attempts is unlocked under the same password
  -- and a valid code, as an empty vault under the same key, where the key store gives back what was
  -- enrolled, nothing is locked, the file is read and the host has the memory; its file stays.
  pub create_vault-unlock :
      (env env' : Env) (draws : Draws) (password token code bytes : List ℕ) (kdf : KdfParams)
      (cfg : TotpConfig) (app app' : App) (session : Session) (prov : Provisioning)
      (w : TotpVerifier)
      → create_vault post env draws password kdf cfg app ≡ (ok (session, prov), app')
      → AreDraws post env draws kdf bytes
      → app.lockout_mem ≡ reset
      → Suits env env' draws kdf app'
      → Verifier.verify (Verifier.new cfg) draws.seed code env'.totp_now ≡ (ok tt, w)
      → (app'' : App) × (unlock post env' token password code app'
          ≡ (ok (build_unlocked env' token session.k_master draws.seed []), app''))
        × (app''.disk ≡ app'.disk)
  create_vault-unlock env env' draws password token code bytes kdf cfg app app' session prov w e d
        quiet s accepted =
      let m = create_vault-Made post env draws password kdf cfg app session prov app' e in
      let c =
        made-IsCreated post laws codec env env' draws password kdf cfg app app' session m s bytes
          d in
      (
        clear_failures env' m.v (put_verifier w (merged m.v app')),
        (unlock_iff post env' token password code app' _ _).1 (
              made-IsUnlocked post laws codec env env' draws password kdf cfg app app' session m s
                token code bytes w d quiet accepted)
            ∙ ap
                (λ k. (
                  ok (build_unlocked env' token k draws.seed []),
                  clear_failures env' m.v (put_verifier w (merged m.v app')),
                ))
                (sym m.key),
        clean env' m.v (put_verifier w (merged m.v app')) c.no_failures c.never,
      )
