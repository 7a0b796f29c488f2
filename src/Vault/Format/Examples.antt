-- ===== src/Vault/Format/Examples.antt =====
-- The layout of a small vault (crates/passman-vault/src/vault.rs), and the theorems at it.
use passman.Prelude.{
  ℕ, ◌≡◌, refl, List, [], ◌∷◌, ◌++◌, some, ok, err, arith, length, replicate, IsBytes, to_le, of_le,
}
use passman.Prelude.Int.{pos, negsuc, i64_bits, i64_of_bits}
use passman.Reader.{
  new, reject, expect_eof, take, take_array, read_u8, read_u16_le, read_u32_le, read_u64_le,
  read_i64_le, read_u16_prefixed_vec, read_u32_prefixed_vec,
}
use passman.Crypto.Kdf
use passman.Vault.{Vault, IsVault, unsupported_version}
use passman.Vault.Format.{
  to_bytes, from_bytes, parse, read_export_at, read_envelope, read_envelopes, envelope_bytes,
  envelopes_bytes, export_bytes, u16_prefixed, u32_prefixed,
}
use passman.Vault.Format.RoundTrip.{from_bytes-to_bytes_vault}
use passman.Vault.Format.Canonical.{to_bytes-from_bytes_vault, from_bytes-IsVault}

abbrev sample : Vault
sample = record {
  format_version = 2;
  kdf_algorithm_id = 0;
  kdf_params = Kdf.low;
  salt = replicate 32 7;
  probe_nonce = replicate 24 8;
  probe_ct = replicate 32 9;
  k_hsm_wrap_blob = 1 ∷ 2 ∷ [];
  totp_seed_wrap_blob = 3 ∷ [];
  rl_counter = 258;
  rl_last_failure = negsuc 0;
  metadata = record { last_password_change = pos 1; last_export_at = some (pos 5) };
  sealed_index_nonce = replicate 24 10;
  sealed_index_ct = 4 ∷ [];
  envelopes =
      record {
        id = replicate 16 11;
        nonce = replicate 24 12;
        ct_len = 2;
        ciphertext_and_tag = 5 ∷ 6 ∷ [];
      }
      ∷ [];
}

abbrev sample_bytes : List ℕ
sample_bytes =
    (2 ∷ 0 ∷ 0 ∷ 0 ∷ 4 ∷ 0 ∷ 4 ∷ 0 ∷ 0 ∷ 0 ∷ 1 ∷ [])
    ++ (replicate 32 7
        ++ (replicate 24 8
            ++ (replicate 32 9
                ++ ((2 ∷ 0 ∷ 1 ∷ 2 ∷ 1 ∷ 0 ∷ 3 ∷ [])
                    ++ ((2 ∷ 1 ∷ replicate 6 0)
                        ++ (replicate 8 255
                            ++ ((1 ∷ replicate 7 0)
                                ++ ((1 ∷ 5 ∷ replicate 7 0)
                                    ++ (replicate 24 10
                                        ++ ((1 ∷ 0 ∷ 0 ∷ 0 ∷ 4 ∷ 1 ∷ 0 ∷ 0 ∷ 0 ∷ [])
                                            ++ (replicate 16 11
                                                ++ (replicate 24 12
                                                    ++ (2 ∷ 0 ∷ 0 ∷ 0 ∷ 5 ∷ 6 ∷ [])))))))))))))

-- A vault with no envelopes, by the eight bytes behind its export flag of 0.
abbrev absent_bytes : List ℕ → List ℕ
absent_bytes ts =
    (2 ∷ 0 ∷ 0 ∷ 0 ∷ 4 ∷ 0 ∷ 4 ∷ 0 ∷ 0 ∷ 0 ∷ 1 ∷ [])
    ++ (replicate 32 7
        ++ (replicate 24 8
            ++ (replicate 32 9
                ++ (replicate 4 0
                    ++ (replicate 8 0
                        ++ (replicate 8 0
                            ++ (replicate 8 0
                                ++ ((0 ∷ [])
                                    ++ (ts
                                        ++ (replicate 24 10
                                            ++ (replicate 4 0 ++ replicate 4 0)))))))))))

sample-IsVault : IsVault sample
sample-IsVault = omega arith

to_bytes-sample : to_bytes sample ≡ sample_bytes
unfolding to_bytes to_le i64_bits envelopes_bytes envelope_bytes export_bytes u16_prefixed
    u32_prefixed Kdf.to_bytes
to_bytes-sample = refl

from_bytes-sample : from_bytes sample_bytes ≡ ok sample
unfolding from_bytes parse of_le i64_of_bits new reject expect_eof take take_array read_u8
    read_u16_le read_u32_le read_u64_le read_i64_le read_u16_prefixed_vec read_u32_prefixed_vec
    read_export_at read_envelope read_envelopes Kdf.from_bytes
from_bytes-sample = refl

sample_bytes-IsBytes : IsBytes sample_bytes
sample_bytes-IsBytes = omega arith

-- A version that is neither the current nor the legacy one.
from_bytes_version : from_bytes (3 ∷ 0 ∷ []) ≡ err (unsupported_version 3 2)
unfolding from_bytes parse new reject take read_u8
from_bytes_version = refl

-- The parse is not canonical where the export flag is 0: the timestamp behind it is dropped.
from_bytes_absent :
    from_bytes (absent_bytes (9 ∷ replicate 7 0)) ≡ from_bytes (absent_bytes (replicate 8 0))
unfolding from_bytes parse of_le i64_of_bits new reject expect_eof take take_array read_u8
    read_u16_le read_u32_le read_u64_le read_i64_le read_u16_prefixed_vec read_u32_prefixed_vec
    read_export_at read_envelope read_envelopes Kdf.from_bytes
from_bytes_absent = refl

from_bytes-to_bytes_vault_example : from_bytes (to_bytes sample) ≡ ok sample
from_bytes-to_bytes_vault_example = from_bytes-to_bytes_vault sample sample-IsVault

to_bytes-from_bytes_vault_example : to_bytes sample ≡ sample_bytes
to_bytes-from_bytes_vault_example =
    to_bytes-from_bytes_vault sample_bytes sample (pos 5) sample_bytes-IsBytes from_bytes-sample
      refl

from_bytes-IsVault_example :
    IsVault sample
    × (from_bytes (to_bytes sample) ≡ ok sample)
    × (length (to_bytes sample) ≡ length sample_bytes)
from_bytes-IsVault_example =
    from_bytes-IsVault sample_bytes sample sample_bytes-IsBytes from_bytes-sample
