-- ===== src/Policy/Charset.antt =====
-- crates/passman-policy/src/charset.rs. A `char` is its code point, and a `BTreeSet<char>` the list
-- of its elements in order.
use Prim.Native.Char.{code}
use passman.Prelude.{ℕ, String, List, [], ◌∷◌, ◌++◌, Bool, true, false, ◌||◌, ◌==◌}

abbrev codes : String → List ℕ
codes String.[] = []
codes (String.◌∷◌ c s) = code c ∷ codes s

abbrev pub lowercase_chars : List ℕ
lowercase_chars = codes "abcdefghijklmnopqrstuvwxyz"

abbrev pub uppercase_chars : List ℕ
uppercase_chars = codes "ABCDEFGHIJKLMNOPQRSTUVWXYZ"

abbrev pub digit_chars : List ℕ
digit_chars = codes "0123456789"

abbrev pub basic_symbols : List ℕ
basic_symbols = codes "!@#$%^&*-_=+"

abbrev pub full_symbols : List ℕ
full_symbols =
    b'!' ∷ b'"' ∷ b'#' ∷ b'$' ∷ b'%' ∷ b'&' ∷ 39 ∷ codes "()*+,-./:;<=>?@[" ++ 92 ∷ codes "]^_`{|}~"

pub data SymbolSet : Type 0 where
  none_set basic full : SymbolSet
  custom : List ℕ → SymbolSet

unfoldable pub chars : SymbolSet → List ℕ
chars none_set = []
chars basic = basic_symbols
chars full = full_symbols
chars (custom set) = set

pub record Charset : Type 0 where
  pub lowercase : Bool
  pub uppercase : Bool
  pub digits : Bool
  pub symbols : SymbolSet
  pub disallow : List ℕ

abbrev pub default_vault : Charset
default_vault = record {
  lowercase = true;
  uppercase = true;
  digits = true;
  symbols = full;
  disallow = [];
}

unfoldable pub contains : List ℕ → ℕ → Bool
contains [] c = false
contains (x ∷ xs) c = c == x || contains xs c
