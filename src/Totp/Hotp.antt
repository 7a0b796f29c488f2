-- ===== src/Totp/Hotp.antt =====
-- crates/passman-totp/src/hotp.rs: RFC 4226. HMAC under the three digests is an external crate's.
use passman.Prelude.{
  ℕ, zero, suc, ◌+◌, ◌-◌, ◌*◌, ◌/◌, ◌%◌, ◌^◌, ◌<◌, ◌≡◌, sym, ap, ◌∙◌, List, [], ◌∷◌, Bool, true,
  ◌&&◌, length, get_or, arith, leb, All,
}
use native.Mathlib.Nat.{pow-suc, mul_assoc}
use passman.Totp.{TotpAlgorithm, sha1, sha256, sha512}

-- The tag of a message under a seed.
pub record Hmac : Type 0 where
  pub hmac_sha1 : List ℕ → List ℕ → List ℕ
  pub hmac_sha256 : List ℕ → List ℕ → List ℕ
  pub hmac_sha512 : List ℕ → List ℕ → List ℕ

-- `u64::to_be_bytes` at a width of `k` bytes.
unfoldable pub to_be : ℕ → ℕ → List ℕ
to_be zero n = []
to_be (suc k) n = (n / 256 ^ k % 256) ∷ to_be k n

-- The window of four bytes, its high bit masked, read as a big-endian u32.
unfoldable pub truncate : List ℕ → ℕ
truncate tag =
    let offset = get_or tag (length tag - 1) 0 % 16 in
    ((get_or tag offset 0 % 128 * 256 + get_or tag (offset + 1) 0) * 256
        + get_or tag (offset + 2) 0)
      * 256
    + get_or tag (offset + 3) 0

module _ ⦃h : Hmac⦄ where
  unfoldable pub tag_of : TotpAlgorithm → List ℕ → List ℕ → List ℕ
  tag_of sha1 seed msg = h.hmac_sha1 seed msg
  tag_of sha256 seed msg = h.hmac_sha256 seed msg
  tag_of sha512 seed msg = h.hmac_sha512 seed msg

  -- `POW10[digits]`, at most 8 digits.
  unfoldable pub hotp_value : TotpAlgorithm → List ℕ → ℕ → ℕ → ℕ
  unfolding tag_of
  hotp_value algorithm seed counter digits =
      truncate (tag_of algorithm seed (to_be 8 counter)) % 10 ^ digits

-- The loop over the slots, from the last one backwards.
unfoldable pub fill : ℕ → ℕ → List ℕ → List ℕ
fill zero remaining behind = behind
fill (suc slots) remaining behind = fill slots (remaining / 10) ((48 + remaining % 10) ∷ behind)

unfoldable pub format_padded : ℕ → ℕ → List ℕ
unfolding fill
format_padded value digits = fill digits value []

-- `u8::is_ascii_digit`
unfoldable pub is_ascii_digit : ℕ → Bool
is_ascii_digit b = leb 48 b && leb b 57

-- The number that a code reads as, behind the digits that were read.
unfoldable pub code_value : ℕ → List ℕ → ℕ
code_value read [] = read
code_value read (c ∷ cs) = code_value (read * 10 + (c - 48)) cs

abbrev pub IsDigits : List ℕ → Type 0
IsDigits = All (λ b. is_ascii_digit b ≡ true)

length-fill :
    (slots remaining : ℕ) (behind : List ℕ)
    → length (fill slots remaining behind) ≡ slots + length behind
unfolding fill
length-fill zero remaining behind = omega arith
length-fill (suc slots) remaining behind =
    omega (arith, length-fill slots (remaining / 10) ((48 + remaining % 10) ∷ behind))

fill-IsDigits :
    (slots remaining : ℕ) (behind : List ℕ)
    → IsDigits behind
    → IsDigits (fill slots remaining behind)
unfolding fill is_ascii_digit
fill-IsDigits zero remaining behind h = h
fill-IsDigits (suc slots) remaining behind h =
    fill-IsDigits slots (remaining / 10) _ (ground arith, h)

code_value-fill :
    (slots remaining read : ℕ) (behind : List ℕ)
    → remaining < 10 ^ slots
    → code_value read (fill slots remaining behind)
      ≡ code_value (read * 10 ^ slots + remaining) behind
unfolding fill code_value
code_value-fill zero remaining read behind h = ap (λ n. code_value n behind) (omega arith)
code_value-fill (suc slots) remaining read behind h =
    let power : 10 ^ suc slots ≡ 10 ^ slots * 10 = pow-suc 10 slots in
    let scaled : read * 10 ^ suc slots ≡ read * 10 ^ slots * 10 =
      ap (λ n. read * n) power ∙ sym (mul_assoc read (10 ^ slots) 10) in
    code_value-fill slots (remaining / 10) read _ (omega (arith, power))
    ∙ ap (λ n. code_value n behind) (omega (arith, scaled))

-- A value that has at most `digits` decimals is written as that many digits, which read as the value:
-- no two values have the same code.
pub format_padded_lem :
    (value digits : ℕ)
    → value < 10 ^ digits
    → (length (format_padded value digits) ≡ digits)
      × IsDigits (format_padded value digits)
      × (code_value 0 (format_padded value digits) ≡ value)
unfolding format_padded
format_padded_lem value digits h = (
  omega (arith, length-fill digits value []),
  fill-IsDigits digits value [] tt,
  code_value-fill digits value 0 [] h ∙ unfold code_value in omega arith,
)
