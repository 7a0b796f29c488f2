-- ===== src/Core/Worker/Text.antt =====
-- `str::trim` on UTF-8 bytes: the characters of the Unicode property White_Space at either end.
use passman.Prelude.{
  ℕ, zero, suc, List, [], ◌∷◌, Bool, ◌&&◌, ◌||◌, leb, ◌==◌, if◌then◌else◌, drop, length,
}
use mathlib.Core.List.{reverse}

abbrev between : ℕ → ℕ → ℕ → Bool
between lo hi b = leb lo b && leb b hi

-- U+0009 to U+000D and U+0020.
unfoldable pub white_1 : ℕ → Bool
white_1 a = between 0x09 0x0D a || a == 0x20

-- U+0085 and U+00A0.
unfoldable pub white_2 : ℕ → ℕ → Bool
white_2 a b = a == 0xC2 && (b == 0x85 || b == 0xA0)

-- U+1680, U+2000 to U+200A, U+2028, U+2029, U+202F, U+205F and U+3000.
unfoldable pub white_3 : ℕ → ℕ → ℕ → Bool
white_3 a b c =
    (a == 0xE1 && b == 0x9A && c == 0x80)
    || (a == 0xE2 && b == 0x80 && (between 0x80 0x8A c || c == 0xA8 || c == 0xA9 || c == 0xAF))
    || (a == 0xE2 && b == 0x81 && c == 0x9F)
    || (a == 0xE3 && b == 0x80 && c == 0x80)

-- How many bytes of white space a text begins with, in one character.
unfoldable pub white_front : List ℕ → ℕ
unfolding white_1 white_2 white_3
white_front [] = 0
white_front (a ∷ []) = if white_1 a then 1 else 0
white_front (a ∷ b ∷ []) = if white_1 a then 1 else if white_2 a b then 2 else 0
white_front (a ∷ b ∷ c ∷ r) =
    if white_1 a then 1 else if white_2 a b then 2 else if white_3 a b c then 3 else 0

-- The same for a text from its end.
unfoldable pub white_back : List ℕ → ℕ
unfolding white_1 white_2 white_3
white_back [] = 0
white_back (a ∷ []) = if white_1 a then 1 else 0
white_back (b ∷ a ∷ []) = if white_1 b then 1 else if white_2 a b then 2 else 0
white_back (c ∷ b ∷ a ∷ r) =
    if white_1 c then 1 else if white_2 b c then 2 else if white_3 a b c then 3 else 0

-- A character has a byte at least, so as many rounds as bytes are enough.
unfoldable pub strip : (List ℕ → ℕ) → ℕ → List ℕ → List ℕ
strip white zero s = s
strip white (suc n) s =
    let rest = strip white n (drop (white s) s) in if white s == 0 then s else rest

unfoldable pub trim : List ℕ → List ℕ
unfolding strip white_front white_back
trim s = let t = strip white_front (length s) s in reverse (strip white_back (length t) (reverse t))
