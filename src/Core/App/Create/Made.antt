-- ===== src/Core/App/Create/Made.antt =====
-- What a vault creation that succeeds went through (crates/passman-core/src/app.rs).
use passman.Prelude.{ℕ, ◌≡◌, sym, ap, List, Result, ok, err, map_err, guard}
use passman.Crypto.{Primitives}
use passman.Crypto.Kdf.{KdfParams}
use passman.Hsm.{vault_key, totp_seed, WrappedBlob}
use passman.Hsm.Blob
use passman.Totp.{TotpConfig}
use passman.Vault.{Vault}
use passman.Vault.Postcard.{Postcard}
use passman.Vault.Create.{create}
use passman.Vault.Sealing.{open_index}
use passman.Core.Error.{CoreError}
use passman.Core.Error
use passman.Core.Act.{lift-ok}
use passman.Core.App.{App, Env, Session, backend_allowed, build_unlocked, save, set_totp_config}
use passman.Core.App.Keys.{enroll_slot, derive_master}
use passman.Core.App.Create.{Draws, Provisioning, new_metadata, create_vault}

ok-injective : {E A : Type 0} {a b : A} → Path (Result E A) (ok a) (ok b) → a ≡ b
ok-injective e = cc

pub map_err-ok :
    {E F A : Type 0} (f : E → F) (r : Result E A) (a : A) → map_err f r ≡ ok a → r ≡ ok a
map_err-ok f (ok b) a e = cc
map_err-ok f (err x) a e = cc

module _ ⦃p : Primitives⦄ (post : Postcard) (env : Env) (draws : Draws) (password : List ℕ)
    (kdf : KdfParams) (cfg : TotpConfig) (app : App) where
  -- What a creation that succeeded went through.
  pub record Made (session : Session) (app' : App) : Type 0 where
    pub k_hsm_blob : WrappedBlob
    pub seed_blob : WrappedBlob
    pub k_master : List ℕ
    pub v : Vault
    pub key_enrolled : env.store.enroll vault_key draws.k_hsm env.prompter ≡ ok k_hsm_blob
    pub seed_enrolled : env.store.enroll totp_seed draws.seed env.prompter ≡ ok seed_blob
    pub derived : derive_master env password draws.vault_salt kdf draws.k_hsm ≡ ok k_master
    pub created :
        create post draws.probe_nonce draws.index_nonce kdf draws.vault_salt
          (Blob.to_bytes k_hsm_blob)
          (Blob.to_bytes seed_blob)
          (new_metadata env.now)
          k_master
        ≡ ok v
    pub written : (save env v app).0 ≡ ok tt
    pub left : app' ≡ set_totp_config cfg (save env v app).1
    pub key : session.k_master ≡ k_master

  pub create_vault-Made :
      (session : Session) (prov : Provisioning) (app' : App)
      → create_vault post env draws password kdf cfg app ≡ (ok (session, prov), app')
      → Made session app'
  unfolding create_vault enroll_slot
  create_vault-Made session prov app' e =
      let (_, allowed, e₁) =
        lift-ok (guard (backend_allowed env.store app) Error.software_hsm_refused) app _
          (session, prov) app' e in
      let (kb, key, e₂) =
        lift-ok (map_err Error.hsm (env.store.enroll vault_key draws.k_hsm env.prompter)) app _
          (session, prov) app' e₁ in
      let (sb, seed, e₃) =
        lift-ok (map_err Error.hsm (env.store.enroll totp_seed draws.seed env.prompter)) app _
          (session, prov) app' e₂ in
      let (k, derived, e₄) =
        lift-ok (derive_master env password draws.vault_salt kdf draws.k_hsm) app _ (session, prov)
          app' e₃ in
      let (v, made, e₅) =
        lift-ok
          (map_err Error.vault (
            create post draws.probe_nonce draws.index_nonce kdf draws.vault_salt (Blob.to_bytes kb)
              (Blob.to_bytes sb) (new_metadata env.now) k))
          app _ (session, prov) app' e₄ in
      let (_, written, e₆) =
        lift-ok (save env v app).0 (save env v app).1 _ (session, prov) app' e₅ in
      let (index, opened, e₇) =
        lift-ok (map_err Error.vault (open_index post v k)) (set_totp_config cfg (save env v app).1)
          _ (session, prov) app' e₆ in
      record {
        k_hsm_blob = kb;
        seed_blob = sb;
        k_master = k;
        v = v;
        key_enrolled = map_err-ok _ _ kb key;
        seed_enrolled = map_err-ok _ _ sb seed;
        derived = derived;
        created = map_err-ok _ _ v made;
        written = written;
        left = sym (ap (λ z. z.1) e₇);
        key =
            sym (unfold build_unlocked in ap (λ z. z.0.k_master) (ok-injective (ap (λ z. z.0) e₇)));
      }
