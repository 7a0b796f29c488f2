-- ===== src/Totp/Verifier/Examples.antt =====
-- A verifier at a small HMAC (crates/passman-totp), and the theorems at it.
use passman.Prelude.{
  ℕ, ◌≡◌, ◌↔◌, refl, List, [], ◌∷◌, ◌++◌, none, some, ok, err, arith, length, replicate, bytes_eq,
}
use passman.Crypto.Aead.{ct_eq}
use passman.Totp.{
  sha1, default_config, new_config, IsConfig, new_config-IsConfig, replayed, rejected,
  malformed_code,
}
use passman.Totp.Hotp.{
  Hmac, to_be, truncate, tag_of, hotp_value, fill, format_padded, code_value, is_ascii_digit,
  IsDigits, format_padded_lem,
}
use passman.Totp.Verifier.{
  TotpVerifier, current_step, all_digits, parse_code, first_step, last_step, expected, scan,
  is_replay, accept, verify_parsed, verify,
}
use passman.Totp.Verifier.Accept.{IsAccepted, verify_iff, verify_refused}
use passman.Totp.Verifier.Session.{
  Ascending, Session, ended, refused, passed, Session-Ascending, verify-replayed,
}

-- The message stands in a tag of twenty bytes that select the first window.
abbrev small_tag : List ℕ → List ℕ → List ℕ
small_tag (a ∷ b ∷ c ∷ d ∷ e ∷ f ∷ g ∷ h ∷ []) msg = replicate 20 0
small_tag seed (a ∷ b ∷ c ∷ d ∷ e ∷ f ∷ g ∷ h ∷ []) = (0 ∷ f ∷ g ∷ h ∷ []) ++ replicate 16 0
small_tag seed msg = replicate 20 0

instance abbrev small : Hmac
small = record { hmac_sha1 = small_tag; hmac_sha256 = small_tag; hmac_sha512 = small_tag }

abbrev fresh_verifier : TotpVerifier
fresh_verifier = record { config = default_config; last_accepted_step = none }

-- The code of step 2, "000002".
abbrev code : List ℕ
code = 48 ∷ 48 ∷ 48 ∷ 48 ∷ 48 ∷ 50 ∷ []

abbrev after : TotpVerifier
after = record { config = default_config; last_accepted_step = some 2 }

-- The current step is 3.
accepted_code : verify fresh_verifier [] code 90 ≡ (ok tt, after)
unfolding verify verify_parsed parse_code all_digits is_ascii_digit first_step last_step
    current_step expected scan is_replay accept ct_eq bytes_eq hotp_value tag_of truncate to_be
    format_padded fill
accepted_code = refl

rejected_code : verify fresh_verifier [] code 300 ≡ (err rejected, fresh_verifier)
unfolding verify verify_parsed parse_code all_digits is_ascii_digit first_step last_step
    current_step expected scan is_replay accept ct_eq bytes_eq hotp_value tag_of truncate to_be
    format_padded fill
rejected_code = refl

short_code : verify fresh_verifier [] (48 ∷ []) 300 ≡ (err malformed_code, fresh_verifier)
unfolding verify verify_parsed parse_code
short_code = refl

made_config : new_config sha1 6 30 1 ≡ ok default_config
unfolding new_config
made_config = refl

new_config-IsConfig_example : IsConfig default_config
new_config-IsConfig_example = new_config-IsConfig sha1 6 30 1 default_config made_config

format_padded_lem_example :
    (length (format_padded 287082 6) ≡ 6)
    × IsDigits (format_padded 287082 6)
    × (code_value 0 (format_padded 287082 6) ≡ 287082)
format_padded_lem_example = format_padded_lem 287082 6 (omega arith)

verify_iff_example :
    (verify fresh_verifier [] code 90 ≡ (ok tt, after)) ↔ IsAccepted fresh_verifier [] code 90 after
verify_iff_example = verify_iff fresh_verifier [] code 90 after (omega arith)

verify_refused_example : fresh_verifier ≡ fresh_verifier
verify_refused_example =
    verify_refused fresh_verifier [] code 300 rejected fresh_verifier rejected_code

verify-replayed_example : verify after [] code 90 ≡ (err replayed, after)
verify-replayed_example =
    verify-replayed fresh_verifier [] code 90 after (omega arith) accepted_code

-- The code of step 3, "000003".
abbrev next_code : List ℕ
next_code = 48 ∷ 48 ∷ 48 ∷ 48 ∷ 48 ∷ 51 ∷ []

abbrev after_next : TotpVerifier
after_next = record { config = default_config; last_accepted_step = some 3 }

replayed_code : verify after [] code 90 ≡ (err replayed, after)
unfolding verify verify_parsed parse_code all_digits is_ascii_digit first_step last_step
    current_step expected scan is_replay accept ct_eq bytes_eq hotp_value tag_of truncate to_be
    format_padded fill
replayed_code = refl

accepted_next : verify after [] next_code 90 ≡ (ok tt, after_next)
unfolding verify verify_parsed parse_code all_digits is_ascii_digit first_step last_step
    current_step expected scan is_replay accept ct_eq bytes_eq hotp_value tag_of truncate to_be
    format_padded fill
accepted_next = refl

-- A refusal, a code, the same code again, and the next one.
session : Session fresh_verifier (2 ∷ 3 ∷ []) after_next
session =
    refused fresh_verifier [] code 300 rejected fresh_verifier after_next (2 ∷ 3 ∷ []) rejected_code
      (passed fresh_verifier [] code 90 2 after after_next (3 ∷ []) (omega arith) accepted_code refl
        (refused after [] code 90 replayed after after_next (3 ∷ []) replayed_code (
          passed after [] next_code 90 3 after_next after_next [] (omega arith) accepted_next refl
            (ended after_next))))

Session-Ascending_example : Ascending none (2 ∷ 3 ∷ [])
Session-Ascending_example = Session-Ascending fresh_verifier (2 ∷ 3 ∷ []) after_next session
