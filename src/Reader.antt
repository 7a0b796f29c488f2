-- ===== src/Reader.antt =====
-- The checked cursor of crates/passman-vault/src/reader.rs. The recovery crate has its own copy of
-- it (Recovery/Reader); both are the functions below, at their own error type.
pub mod Reads
pub mod Consumes
pub mod Parses
use passman.Prelude.{
  ℕ, ◌+◌, ◌-◌, String, List, drop, take as take_list, length, get_or, of_le, Bool, true, false,
  Result, ok, err, ltb, ◌==◌, if◌then◌else◌,
}
use passman.Prelude.Int.{ℤ, i64_of_bits}

pub record Reader : Type 0 where
  pub buf : List ℕ
  pub pos : ℕ

-- The two errors of a crate that its cursor reports.
pub record ReadErrors (E : Type 0) : Type 0 where
  pub truncated : String → ℕ → E
  pub trailing_bytes : ℕ → E

-- A method on `&mut self`: the cursor after it stands beside the result. An error ends the parse, so
-- the cursor is dropped with it.
abbrev pub Read : Type 0 → Type 0 → Type 0
Read E A = Reader → Result E (A × Reader)

abbrev pub bind : {E A B : Type 0} → Result E (A × Reader) → (A → Read E B) → Result E (B × Reader)
bind (ok (a, r)) f = f a r
bind (err e) f = err e

infixl 5 ◌>>=◌ ◌>>◌
abbrev pub ◌>>=◌ : {E A B : Type 0} → Read E A → (A → Read E B) → Read E B
◌>>=◌ m f r = bind (m r) f

abbrev pub ◌>>◌ : {E B : Type 0} → Read E (Unit {0}) → Read E B → Read E B
m >> k = m >>= λ _. k

abbrev pub pure : {E A : Type 0} → A → Read E A
pure a r = ok (a, r)

abbrev pub lift : {E A : Type 0} → Result E A → Read E A
lift (ok a) r = ok (a, r)
lift (err e) r = err e

-- `if c { return Err(e) }`
unfoldable pub reject : {E : Type 0} → Bool → E → Read E (Unit {0})
reject true e r = err e
reject false e r = ok (tt, r)

abbrev pub drop_reader : {E A : Type 0} → Result E (A × Reader) → Result E A
drop_reader (ok (a, r)) = ok a
drop_reader (err e) = err e

unfoldable pub new : List ℕ → Reader
new buf = record { buf = buf; pos = 0 }

unfoldable pub remaining : Reader → ℕ
remaining r = length r.buf - r.pos

-- A parser's body, on a fresh cursor over `bytes`.
abbrev pub run : {E A : Type 0} → Read E A → List ℕ → Result E A
run m bytes = drop_reader (m (new bytes))

module _ {E : Type 0} ⦃fail : ReadErrors E⦄ where
  unfoldable pub expect_eof : Read E (Unit {0})
  unfolding remaining
  expect_eof r = if remaining r == 0 then ok (tt, r) else err (fail.trailing_bytes (remaining r))

  unfoldable pub take : ℕ → String → Read E (List ℕ)
  unfolding remaining
  take n field r =
      if ltb (remaining r) n
      then err (fail.truncated field r.pos)
      else ok (take_list n (drop r.pos r.buf), record r { pos = r.pos + n })

  -- `[u8; N]` is a list of `N` bytes.
  unfoldable pub take_array : ℕ → String → Read E (List ℕ)
  take_array n field = take n field

  unfoldable pub read_u8 : String → Read E ℕ
  read_u8 field = do bs ← take 1 field; pure (get_or bs 0 0)

  unfoldable pub read_u16_le : String → Read E ℕ
  read_u16_le field = do bs ← take_array 2 field; pure (of_le bs)

  unfoldable pub read_u32_le : String → Read E ℕ
  read_u32_le field = do bs ← take_array 4 field; pure (of_le bs)

  unfoldable pub read_u64_le : String → Read E ℕ
  read_u64_le field = do bs ← take_array 8 field; pure (of_le bs)

  unfoldable pub read_i64_le : String → Read E ℤ
  read_i64_le field = do bs ← take_array 8 field; pure (i64_of_bits (of_le bs))

  unfoldable pub read_u16_prefixed_vec : String → Read E (List ℕ)
  read_u16_prefixed_vec field = do len ← read_u16_le field; take len field

  unfoldable pub read_u32_prefixed_vec : String → Read E (List ℕ)
  read_u32_prefixed_vec field = do len ← read_u32_le field; take len field
