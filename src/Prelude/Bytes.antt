-- ===== src/Prelude/Bytes.antt =====
-- Fixed-width little-endian integers as lists of bytes: `to_le_bytes` and `from_le_bytes`.
use Prim.Native.Nat.{ℕ, zero, suc, ◌+◌, ◌-◌, ◌*◌, ◌/◌, ◌%◌, ◌^◌, ◌<◌, min}
use mathlib.Core.Path.{◌≡◌, refl, ap, ap₂, ◌∙◌}
use mathlib.Core.List.{List, [], ◌∷◌}
use native.Mathlib.Omega.{arith}
use native.Mathlib.Nat.{pow-suc}
use passman.Prelude.Lists.{length, All}

abbrev pub IsByte : ℕ → Type 0
IsByte b = b < 256

abbrev pub IsBytes : List ℕ → Type 0
IsBytes = All IsByte

-- `[u8; N]`
pub record IsArray (n : ℕ) (bs : List ℕ) : Type 0 where
  pub size : length bs ≡ n
  pub bytes : IsBytes bs

-- A `Vec<u8>` whose length is below `limit`.
pub record IsBlob (limit : ℕ) (bs : List ℕ) : Type 0 where
  pub size : length bs < limit
  pub bytes : IsBytes bs

-- The `k` low bytes of `n`, the lowest first.
unfoldable pub to_le : ℕ → ℕ → List ℕ
to_le zero n = []
to_le (suc k) n = (n % 256) ∷ to_le k (n / 256)

unfoldable pub of_le : List ℕ → ℕ
of_le [] = 0
of_le (b ∷ bs) = b + 256 * of_le bs

pub length-to_le : (k n : ℕ) → length (to_le k n) ≡ k
unfolding to_le
length-to_le zero n = refl
length-to_le (suc k) n = ap suc (length-to_le k (n / 256))

pub to_le-IsBytes : (k n : ℕ) → IsBytes (to_le k n)
unfolding to_le
to_le-IsBytes zero n = tt
to_le-IsBytes (suc k) n = (omega arith, to_le-IsBytes k (n / 256))

pub of_le-to_le : (k n : ℕ) → n < 256 ^ k → of_le (to_le k n) ≡ n
unfolding to_le of_le
of_le-to_le zero n h = omega arith
of_le-to_le (suc k) n h = omega (arith, of_le-to_le k (n / 256) (omega (arith, pow-suc 256 k)))

high : (b r : ℕ) → b < 256 → (b + 256 * r) / 256 ≡ r
high b r h = omega arith

pub to_le-of_le : (bs : List ℕ) → IsBytes bs → to_le (length bs) (of_le bs) ≡ bs
unfolding to_le of_le
to_le-of_le [] h = refl
to_le-of_le (b ∷ bs) (hb, hbs) =
    ap₂ ◌∷◌ (omega arith) (ap (to_le (length bs)) (high b (of_le bs) hb) ∙ to_le-of_le bs hbs)

pub of_le-lt : (bs : List ℕ) → IsBytes bs → of_le bs < 256 ^ length bs
unfolding of_le
of_le-lt [] h = omega arith
of_le-lt (b ∷ bs) (hb, hbs) = omega (arith, of_le-lt bs hbs, pow-suc 256 (length bs))

-- `uN::try_from(n).unwrap_or(uN::MAX)` at a width of `k` bytes.
abbrev pub clamp : ℕ → ℕ → ℕ
clamp k n = min n (256 ^ k - 1)

pub clamp-eq : (k n : ℕ) → n < 256 ^ k → clamp k n ≡ n
clamp-eq k n h = omega arith
