-- ===== src/Utf8.antt =====
-- `core::str::from_utf8`: the well-formed byte sequences of the Unicode standard (table 3-7). A text
-- is its bytes.
use passman.Prelude.{
  ℕ, zero, suc, List, [], ◌∷◌, Option, none, some, Bool, true, false, ◌&&◌, ◌≡◌, leb, ltb, ◌==◌,
  if◌then◌else◌, refl,
}

-- How many bytes follow a first byte, and the range of the next of them.
record Lead : Type 0 where
  need : ℕ
  low : ℕ
  high : ℕ

abbrev lead : ℕ → ℕ → ℕ → Option Lead
lead n lo hi = some (record { need = n; low = lo; high = hi })

first_byte : ℕ → Option Lead
first_byte b =
    if ltb b 0x80
    then lead 0 0x80 0xbf
    else if ltb b 0xc2
    then none
    else if ltb b 0xe0
    then lead 1 0x80 0xbf
    else if b == 0xe0
    then lead 2 0xa0 0xbf
    else if b == 0xed
    then lead 2 0x80 0x9f
    else if ltb b 0xf0
    then lead 2 0x80 0xbf
    else if b == 0xf0
    then lead 3 0x90 0xbf
    else if ltb b 0xf4
    then lead 3 0x80 0xbf
    else if b == 0xf4
    then lead 3 0x80 0x8f
    else none

-- The first number counts the bytes still due of a character; the range is that of the next.
scan : ℕ → ℕ → ℕ → List ℕ → Bool
scan zero lo hi [] = true
scan (suc n) lo hi [] = false
scan zero lo hi (b ∷ bs) = elim (first_byte b) [
  | none ↦ false
  | some l ↦ scan l.need l.low l.high bs
]
scan (suc n) lo hi (b ∷ bs) =
    let rest = scan n 0x80 0xbf bs in if leb lo b && leb b hi then rest else false

unfoldable pub is_utf8 : List ℕ → Bool
unfolding scan first_byte
is_utf8 bs = scan 0 0x80 0xbf bs

-- "é€𝄞" is well formed; an overlong form, a surrogate and a cut character are not.
accepts : is_utf8 (0xc3 ∷ 0xa9 ∷ 0xe2 ∷ 0x82 ∷ 0xac ∷ 0xf0 ∷ 0x9d ∷ 0x84 ∷ 0x9e ∷ []) ≡ true
unfolding is_utf8
accepts = refl

rejects :
    (is_utf8 (0xc0 ∷ 0x80 ∷ []) ≡ false)
    × (is_utf8 (0xed ∷ 0xa0 ∷ 0x80 ∷ []) ≡ false)
    × (is_utf8 (0xe2 ∷ 0x82 ∷ []) ≡ false)
unfolding is_utf8
rejects = (refl, refl, refl)
