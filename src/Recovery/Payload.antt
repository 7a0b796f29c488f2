-- ===== src/Recovery/Payload.antt =====
-- crates/passman-recovery/src/payload.rs, with the text reader of its reader.rs.
pub mod RoundTrip
pub mod Canonical
use passman.Prelude.{
  ℕ, zero, suc, String, List, [], ◌∷◌, ◌++◌, Bool, not, Result, ok, err, clamp, length, to_le, ◌==◌,
}
use passman.Reader.{
  Read, ◌>>=◌, ◌>>◌, pure, reject, run, expect_eof, take, take_array, read_u8, read_u32_le,
  read_u32_prefixed_vec,
}
use passman.Utf8.{is_utf8}
use passman.Crypto.Kdf.{kdf_params_len}
use passman.Crypto.Kdf
use passman.Recovery.{
  RecoveryError, malformed_payload, recovery_read_errors, RecoveryEntry, ExportPayload,
  totp_seed_len,
}

abbrev pub payload_version : ℕ
payload_version = 1

abbrev entry_id_len : ℕ
entry_id_len = 16

unfoldable pub push_u32_prefixed : List ℕ → List ℕ
push_u32_prefixed body = to_le 4 (clamp 4 (length body)) ++ body

-- The buffer is only appended to, so it is the concatenation of what is appended.
unfoldable pub entry_bytes : RecoveryEntry → List ℕ
entry_bytes e =
    e.id
    ++ (push_u32_prefixed e.label
        ++ (push_u32_prefixed e.username
            ++ (push_u32_prefixed e.password
                ++ (push_u32_prefixed e.url
                    ++ (push_u32_prefixed e.notes ++ push_u32_prefixed e.policy)))))

unfoldable pub entries_bytes : List RecoveryEntry → List ℕ
entries_bytes [] = []
entries_bytes (e ∷ rest) = entry_bytes e ++ entries_bytes rest

unfoldable pub encode_payload : ExportPayload → List ℕ
encode_payload payload =
    (payload_version ∷ [])
    ++ (payload.totp_seed
        ++ (Kdf.to_bytes payload.original_vault_kdf
            ++ (to_le 4 (clamp 4 (length payload.entries)) ++ entries_bytes payload.entries)))

-- `from_utf8` on the bytes that were read.
unfoldable pub read_text : String → String → Read RecoveryError (List ℕ)
read_text field reason = do
  body ← read_u32_prefixed_vec field
  reject (not (is_utf8 body)) (malformed_payload reason)
  pure body

unfoldable pub read_u32_prefixed_secret_string : String → Read RecoveryError (List ℕ)
unfolding read_text
read_u32_prefixed_secret_string field = read_text field "text field is not valid UTF-8"

-- One round of the loop over the entries.
unfoldable pub read_entry : Read RecoveryError RecoveryEntry
read_entry = do
  id ← take_array entry_id_len "entry_id"
  label ← read_text "label" "label is not valid UTF-8"
  username ← read_u32_prefixed_secret_string "username"
  password ← read_u32_prefixed_secret_string "password"
  url ← read_u32_prefixed_secret_string "url"
  notes ← read_u32_prefixed_secret_string "notes"
  policy ← read_u32_prefixed_vec "policy"
  pure (record {
    id = id;
    label = label;
    username = username;
    password = password;
    url = url;
    notes = notes;
    policy = policy;
  })

unfoldable pub read_entries : ℕ → Read RecoveryError (List RecoveryEntry)
read_entries zero = pure []
read_entries (suc n) = do e ← read_entry; rest ← read_entries n; pure (e ∷ rest)

unfoldable pub parse_payload : Read RecoveryError ExportPayload
parse_payload = do
  version ← read_u8 "payload_version"
  reject (not (version == payload_version)) (malformed_payload "unsupported payload version")
  totp_seed ← take_array totp_seed_len "totp_seed"
  kdf_bytes ← take_array kdf_params_len "original_vault_kdf"
  entry_count ← read_u32_le "entry_count"
  entries ← read_entries entry_count
  expect_eof
  pure (record {
    totp_seed = totp_seed;
    original_vault_kdf = Kdf.from_bytes kdf_bytes;
    entries = entries;
  })

unfoldable pub decode_payload : List ℕ → Result RecoveryError ExportPayload
unfolding parse_payload
decode_payload plaintext = run parse_payload plaintext
