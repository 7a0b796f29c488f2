-- ===== src/Policy/Request.antt =====
-- crates/passman-policy/src/policy.rs
use passman.Prelude.{ℕ, ◌+◌, List, Option, none}
use passman.Policy.Charset.{Charset}

abbrev pub min_length : ℕ
min_length = 16

abbrev pub max_length : ℕ
max_length = 256

abbrev pub default_length : ℕ
default_length = 40

pub record RequiredClasses : Type 0 where
  pub min_lowercase : ℕ
  pub min_uppercase : ℕ
  pub min_digits : ℕ
  pub min_symbols : ℕ

abbrev pub one_of_each : RequiredClasses
one_of_each = record { min_lowercase = 1; min_uppercase = 1; min_digits = 1; min_symbols = 1 }

unfoldable pub total : RequiredClasses → ℕ
total c = c.min_lowercase + c.min_uppercase + c.min_digits + c.min_symbols

-- A note is the bytes of its text.
pub record EntryPolicy : Type 0 where
  pub length : Option ℕ
  pub charset_override : Option Charset
  pub required_classes_override : Option RequiredClasses
  pub user_note : Option (List ℕ)

abbrev pub default_policy : EntryPolicy
default_policy = record {
  length = none;
  charset_override = none;
  required_classes_override = none;
  user_note = none;
}
