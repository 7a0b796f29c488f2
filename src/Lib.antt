-- ===== src/Lib.antt =====
-- passman is a password manager. Its core is a set of pure crates, and shells (command line,
-- desktop, mobile) around passman-core. This library models the pure crates: the encrypted
-- vault, the cryptographic wrappers that it is built on, the recovery export, the second factor
-- and the password policy; of the hardware key stores the interface, the wrap blob and the mock;
-- and passman-core on top of them: the lockout, storage, creation and unlock, the session and
-- its worker.
--
-- The parts and how they interact. The vault (crates/passman-vault) holds one sealed envelope
-- per entry and a sealed index of labels and policies; it derives an index key and a key per
-- entry from the master key by HKDF, and encrypts by the AEAD of crates/passman-crypto. The
-- index and the envelopes must have the same ids, which is checked when the index is opened. The
-- recovery file (crates/passman-recovery) carries all entries and the TOTP seed under a key that
-- Argon2id and HKDF make of the password. The second factor (crates/passman-totp) verifies codes
-- with a replay cache. A key store (crates/passman-hsm) wraps a secret per slot into a blob that
-- the vault's header carries. The application (crates/passman-core/src/app.rs) creates a vault
-- and unlocks it: it reads the file, merges the advisory counter of the header with that of the
-- process (lockout.rs), unwraps both slots, checks the code, derives the master key from the
-- password and the unwrapped key, and verifies the probe; failures are counted in the header. A
-- session (unlocked.rs) works on the file until its time is over, and the worker (worker.rs)
-- drives both by requests and wipes the clipboard when a session ends.
--
-- Correspondence of files and code:
--   Prelude: bytes, fixed-width integers, results with `?` as bind, lists measured by native
--     numbers.
--   Utf8: `str::from_utf8`'s acceptance, after the table of the Unicode standard.
--   Reader: crates/passman-vault/src/reader.rs and the copy of it in
--     crates/passman-recovery/src/reader.rs. A `&mut self` method returns the cursor after it.
--     Reader/Reads has rules for what a parser reads of an encoding, Reader/Consumes and
--     Reader/Parses for what it can have accepted.
--   Crypto: crates/passman-crypto. `Primitives` is the external code (XChaCha20-Poly1305,
--     HKDF-SHA256, Argon2id) and `IsAead` its documented laws; Crypto/Toy is a value with the
--     laws, for concrete runs. Crypto/Aead is aead.rs and ct.rs, Crypto/Kdf kdf.rs,
--     Crypto/Derive derive.rs.
--   Vault: crates/passman-vault. Vault/Record is record.rs, Vault/Index and Vault/Keyed
--     index.rs; of vault.rs, Vault/Format is `to_bytes` and `from_bytes`, Vault/Sets the tamper
--     check, Vault/Padding the padding of the index, Vault/Sealing the functions that seal and
--     open one part, Vault/Create `create`, and Vault/Operations the methods that change a
--     vault. Vault/Postcard is the external serialization of the index's rows.
--   Recovery: crates/passman-recovery. Recovery/Cost is kdf.rs, Recovery/Payload payload.rs,
--     Recovery/Format format.rs.
--   Totp: crates/passman-totp. Totp/Hotp is hotp.rs, Totp/Verifier verifier.rs; Totp itself
--     has config.rs.
--   Hsm: crates/passman-hsm: error.rs, slot.rs, capabilities.rs, prompt.rs, store.rs and
--     handle.rs. `HardwareKeyStore` is the trait, as a record of what a backend answers during
--     one operation. Hsm/Blob is blob.rs, Hsm/Mock mock.rs.
--   Core: crates/passman-core. Core/Act is the pattern of a method that can fail, Core/Error
--     error.rs, Core/Lockout lockout.rs, Core/Storage storage.rs, and Core/Clipboard
--     clipboard.rs. Core/App is app.rs: Core/App/Keys has the slots and derivations,
--     Core/App/Failures the counting of failures, Core/App/Unlock `unlock` and Core/App/Create
--     `create_vault`. Core/Unlocked is unlocked.rs, with the change of the master password in
--     Core/Unlocked/Master and export and import in Core/Unlocked/Export, and what these make of
--     a whole vault in Core/Unlocked/Master/Rows and Core/Unlocked/Export/Imports. Core/Worker
--     is worker.rs: its messages, and in Core/Worker/Handle the handlers and both loops, as
--     `step` from one mode to the next. Core/Toy has inputs for concrete runs.
--   Policy: crates/passman-policy. Policy/Request is the data of policy.rs and Policy/Charset
--     that of charset.rs, whose effective sets are Policy/Effective. Policy/Sample is the
--     sampling and the shuffle of generate.rs, and Policy/Generate its generate; what OsRng
--     draws is a list of u32 values. Policy/Validate is validate.rs.
--
-- State and errors. A struct is a record, an enum a data type, and a method that changes its
-- object returns the object after it beside its result, also beside an error. A key, a nonce, a
-- salt and a text are lists of bytes. Random nonces and salts are arguments, in the order of
-- their draws. What surrounds an operation of the core (the clock's readings, the key store, the
-- prompt, the memory of the host, the calls of the file system that fail) is the record Env, and
-- the vault's directory is a value, whose states during a write are listed so that a crash can
-- fall between them. What the worker's channel gives is a sequence of events. A write out of a
-- buffer's range would panic: such a write is an option whose `none` is the panic, and the
-- theorems show that it never happens.
--
-- Bounds. Integers are natural numbers; where the code wraps, clamps or saturates the model does
-- so too, and the well-formedness records (IsParams, IsVault, IsPayload) give the widths.
-- `usize` has 64 bits. No recursion needs fuel, except for the rejection loops of the random
-- draws, which end with the list of draws.
--
-- Not modelled: zeroization and constant time; the hardware backends of the key store (TPM,
-- Android keystore, Secret Service); entropy estimates (floating point, around the zxcvbn
-- crate), of which an export takes the verdict as an argument; the progress sink, the text of
-- the provisioning URI, threads and channels; settings and paths, which read the environment;
-- and the shells.
pub mod Prelude
pub mod Reader
pub mod Crypto
pub mod Utf8
pub mod Policy
pub mod Vault
pub mod Recovery
pub mod Core
pub mod Totp
pub mod Hsm
