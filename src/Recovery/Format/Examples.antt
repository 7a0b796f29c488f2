-- ===== src/Recovery/Format/Examples.antt =====
-- A small recovery file (crates/passman-recovery), and the theorems at it.
use passman.Prelude.{
  ℕ, ◌+◌, ◌<◌, ◌^◌, ◌≡◌, refl, true, List, [], ◌∷◌, ◌++◌, Option, none, some, ok, err, arith,
  length, replicate, to_le, of_le, bytes_eq, IsBytes,
}
use passman.Utf8.{is_utf8}
use passman.Reader.{
  new, reject, remaining, expect_eof, take, take_array, read_u8, read_u32_le, read_u32_prefixed_vec,
}
use passman.Crypto.{kdf, exceeds_memory}
use passman.Crypto.Aead.{encrypt, decrypt}
use passman.Crypto.Derive.{hkdf_master}
use passman.Crypto.Kdf
use passman.Crypto.Kdf.{
  KdfParams, argon2id_within_memory, within_limits, check_memory, memory_cost_fits,
}
use passman.Crypto.Kdf.Limits.{InBounds, Fits}
use passman.Crypto.Toy.{toy, toy-IsAead, toy_seal, toy_unseal, tag_of, sum}
use passman.Recovery.{ExportPayload, IsPayload, bad_magic, weak_params, crypto}
use passman.Recovery.Cost.{params, floor_params, meets_floor, AtLeastFloor, derive_recovery_key}
use passman.Recovery.Payload.{
  push_u32_prefixed, entry_bytes, entries_bytes, encode_payload, read_text,
  read_u32_prefixed_secret_string, read_entry, read_entries, parse_payload, decode_payload,
}
use passman.Recovery.Payload.RoundTrip.{decode_payload-encode_payload}
use passman.Recovery.Payload.Canonical.{encode_payload-decode_payload}
use passman.Recovery.Format.{
  file_bytes, seal, export_within_memory, parse_file, import_within_memory,
}
use passman.Recovery.Format.Import.{import-export}
use passman.Recovery.Format.Export.{seal-import, export-AtLeastFloor}

abbrev sample : ExportPayload
sample = record {
  totp_seed = replicate 32 1;
  original_vault_kdf = Kdf.low;
  entries =
      record {
        id = replicate 16 2;
        label = 97 ∷ [];
        username = 98 ∷ [];
        password = 112 ∷ 0xc3 ∷ 0xa4 ∷ [];
        url = [];
        notes = [];
        policy = 255 ∷ [];
      }
      ∷ [];
}

sample-IsPayload : IsPayload sample
unfolding is_utf8
sample-IsPayload = record {
  totp_seed = omega arith;
  kdf = omega arith;
  count = omega arith;
  entries = (
    record {
      id = omega arith;
      label = record { blob = omega arith; utf8 = refl };
      username = record { blob = omega arith; utf8 = refl };
      password = record { blob = omega arith; utf8 = refl };
      url = record { blob = omega arith; utf8 = refl };
      notes = record { blob = omega arith; utf8 = refl };
      policy = omega arith;
    },
    tt,
  );
}

abbrev floor_kdf : KdfParams
floor_kdf = record { m_kib = 1_048_576; t = 4; p = 1 }

abbrev password : List ℕ
password = replicate 32 7

abbrev salt : List ℕ
salt = replicate 32 3

abbrev nonce : List ℕ
nonce = replicate 24 4

-- A host with 1.4 GB.
abbrev available : Option ℕ
available = some 1_400_000

abbrev key : List ℕ
key =
    114
    ∷ 101
    ∷ 99
    ∷ 111
    ∷ 118
    ∷ 101
    ∷ 114
    ∷ 121
    ∷ 45
    ∷ 101
    ∷ 120
    ∷ 112
    ∷ 111
    ∷ 114
    ∷ 116
    ∷ 45
    ∷ 118
    ∷ 48
    ∷ replicate 14 7

derived : derive_recovery_key password salt floor_kdf available ≡ ok key
unfolding derive_recovery_key argon2id_within_memory within_limits check_memory memory_cost_fits
    hkdf_master
derived = refl

meets_floor-floor : meets_floor floor_kdf ≡ true
unfolding meets_floor floor_params params
meets_floor-floor = refl

-- A cost below the floor is refused.
export_weak :
    export_within_memory salt nonce sample password Kdf.low none
    ≡ err (weak_params Kdf.low floor_kdf)
unfolding export_within_memory meets_floor floor_params params
export_weak = refl

-- On a host with 1 GiB the floor's cost is refused.
derive_small_host :
    derive_recovery_key password salt floor_kdf (some 1_048_576)
    ≡ err (crypto (kdf (exceeds_memory 1_048_576 1_048_576)))
unfolding derive_recovery_key argon2id_within_memory within_limits check_memory memory_cost_fits
derive_small_host = refl

-- Another kind of file.
import_bad_magic : import_within_memory (replicate 80 0) password none ≡ err bad_magic
unfolding import_within_memory parse_file take_array take new reject remaining bytes_eq
import_bad_magic = refl

file : List ℕ
unfolding file_bytes to_le encode_payload Kdf.to_bytes entries_bytes entry_bytes push_u32_prefixed
    toy_seal tag_of sum
file = file_bytes floor_kdf salt nonce (
    encode_payload sample
    ++ tag_of key nonce (b'P' ∷ b'S' ∷ b'M' ∷ b'R' ∷ b'E' ∷ b'C' ∷ b'-' ∷ b'v' ∷ b'0' ∷ []))

exported : export_within_memory salt nonce sample password floor_kdf available ≡ ok file
unfolding file export_within_memory meets_floor floor_params params seal derive_recovery_key
    argon2id_within_memory within_limits check_memory memory_cost_fits hkdf_master encrypt toy_seal
exported = refl

imported : import_within_memory file password available ≡ ok sample
unfolding file import_within_memory parse_file take_array take new reject remaining bytes_eq read_u8
    read_u32_le of_le expect_eof derive_recovery_key argon2id_within_memory within_limits
    check_memory memory_cost_fits hkdf_master decrypt toy_unseal tag_of sum decode_payload
    parse_payload read_entries read_entry read_text read_u32_prefixed_secret_string
    read_u32_prefixed_vec is_utf8 Kdf.from_bytes file_bytes to_le encode_payload Kdf.to_bytes
    entries_bytes entry_bytes push_u32_prefixed
imported = refl

file-IsBytes : IsBytes file
unfolding file file_bytes to_le encode_payload Kdf.to_bytes entries_bytes entry_bytes
    push_u32_prefixed tag_of sum
file-IsBytes = omega arith

sample-size : length (encode_payload sample) + 16 < 2 ^ 32
unfolding to_le encode_payload Kdf.to_bytes entries_bytes entry_bytes push_u32_prefixed
sample-size = omega arith

decode_payload-encode_payload_example : decode_payload (encode_payload sample) ≡ ok sample
decode_payload-encode_payload_example = decode_payload-encode_payload sample sample-IsPayload

encode_payload-IsBytes : IsBytes (encode_payload sample)
unfolding to_le encode_payload Kdf.to_bytes entries_bytes entry_bytes push_u32_prefixed
encode_payload-IsBytes = omega arith

encode_payload-decode_payload_example :
    (encode_payload sample ≡ encode_payload sample) × IsPayload sample
encode_payload-decode_payload_example =
    encode_payload-decode_payload (encode_payload sample) sample encode_payload-IsBytes
      (decode_payload-encode_payload sample sample-IsPayload)

import-export_example :
    (f : List ℕ) × (export_within_memory salt nonce sample password floor_kdf available ≡ ok f)
    × (import_within_memory f password available ≡ ok sample)
import-export_example =
    import-export toy-IsAead password available sample floor_kdf salt nonce key sample-IsPayload
      (omega arith) (omega arith) (omega arith) sample-size meets_floor-floor derived

seal-import_example :
    (k : KdfParams) × (s : List ℕ) × (n : List ℕ) × (seal s n sample password k available ≡ ok file)
    × (within_limits k ≡ true)
    × IsPayload sample
seal-import_example = seal-import toy-IsAead password available file sample file-IsBytes imported

export-AtLeastFloor_example : AtLeastFloor floor_kdf × InBounds floor_kdf × Fits floor_kdf available
export-AtLeastFloor_example =
    export-AtLeastFloor password available salt nonce file sample floor_kdf (omega arith) exported
