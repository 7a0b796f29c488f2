-- ===== src/Core/Toy.antt =====
-- Surroundings of the application for concrete runs: the mock key store, an HMAC and inputs.
use passman.Prelude.{ℕ, List, [], ◌∷◌, ◌++◌, none, true, ok, replicate}
use passman.Crypto.Toy.{toy}
use passman.Hsm.{authenticated, Prompter}
use passman.Hsm.Mock.{MockKeyStore, key_store}
use passman.Totp.{default_config}
use passman.Totp.Hotp.{Hmac}
use passman.Vault.Toy.{toy_postcard}
use passman.Core.App.{App, Env, Session, master_info}
use passman.Core.App.Create.{Draws, Provisioning}
use passman.Core.App.Throttle.{no_faults}
use passman.Core.Lockout.{reset}

-- The message stands in a tag of twenty bytes that select the first window.
abbrev pub small_tag : List ℕ → List ℕ → List ℕ
small_tag seed (a ∷ b ∷ c ∷ d ∷ e ∷ f ∷ g ∷ h ∷ []) = (0 ∷ f ∷ g ∷ h ∷ []) ++ replicate 16 0
small_tag seed msg = replicate 20 0

instance abbrev pub small : Hmac
small = record { hmac_sha1 = small_tag; hmac_sha256 = small_tag; hmac_sha512 = small_tag }

abbrev pub mock_store : MockKeyStore
mock_store = record { key = replicate 32 1; forced_failure = none; lockout = none }

abbrev pub agrees : Prompter
agrees reason = ok authenticated

-- In the third step of the clock's code.
abbrev pub env₀ : Env
env₀ = record {
  store = key_store ⦃p = toy⦄ (replicate 24 2) mock_store;
  prompter = agrees;
  now = 90;
  totp_now = 90;
  session_now = 90;
  available_kib = none;
  faults = no_faults;
}

abbrev pub app₀ : App
app₀ = record {
  disk = record { target = none; temp = none };
  allow_software_hsm = true;
  totp_config = default_config;
  verifier = none;
  lockout_mem = reset;
}

abbrev pub draws₀ : Draws
draws₀ = record {
  k_hsm = replicate 32 11;
  seed = replicate 32 12;
  vault_salt = replicate 32 13;
  probe_nonce = replicate 24 14;
  index_nonce = replicate 24 15;
  session_token = replicate 16 16;
}

abbrev pub password : List ℕ
password = 112 ∷ 119 ∷ []

-- The code of step 2, "000002".
abbrev pub code : List ℕ
code = 48 ∷ 48 ∷ 48 ∷ 48 ∷ 48 ∷ 50 ∷ []

abbrev pub key₀ : List ℕ
key₀ = master_info ++ (password ++ replicate 13 13)

abbrev pub session₀ : Session
session₀ = record {
  k_master = key₀;
  totp_seed = draws₀.seed;
  index = [];
  session_expiry = 210;
  session_token = draws₀.session_token;
}

abbrev pub prov₀ : Provisioning
prov₀ = record { seed = draws₀.seed; config = default_config }
