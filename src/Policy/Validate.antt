-- ===== src/Policy/Validate.antt =====
-- crates/passman-policy/src/validate.rs. A password is its characters, as code points, and an issue is
-- what its message tells.
pub mod Reports
mod Examples
use passman.Prelude.{
  ℕ, suc, ◌+◌, String, List, [], ◌∷◌, ◌++◌, Bool, true, false, not, ◌&&◌, ◌||◌, length, ltb, leb,
  ◌==◌, if◌then◌else◌,
}
use passman.Policy.Charset.{contains, default_vault}
use passman.Policy.Effective.{effective_set}
use passman.Policy.Generate.{GenerationRequest, resolve_over}
use passman.Policy.Request.{EntryPolicy, one_of_each, min_length, max_length, default_length}

pub data Issue : Type 0 where
  below_minimum above_maximum : ℕ → Issue
  not_permitted : List ℕ → Issue
  -- Class, count and minimum.
  class_short : String → ℕ → ℕ → Issue

pub record ValidationReport : Type 0 where
  pub ok : Bool
  pub issues : List Issue

abbrev pub is_empty {ℓ} : {A : Type ℓ} → List A → Bool
is_empty [] = true
is_empty (x ∷ xs) = false

unfoldable pub from_issues : List Issue → ValidationReport
from_issues issues = record { ok = is_empty issues; issues = issues }

-- `GenerationRequest::default_vault`
abbrev pub default_request : GenerationRequest
default_request = record {
  length = default_length;
  charset = default_vault;
  required_classes = one_of_each;
}

unfoldable pub length_issues : ℕ → List Issue
length_issues len =
    if ltb len min_length
    then below_minimum len ∷ []
    else if ltb max_length len
    then above_maximum len ∷ []
    else []

-- `BTreeSet::insert`
unfoldable pub set_insert : ℕ → List ℕ → List ℕ
set_insert c [] = c ∷ []
set_insert c (x ∷ xs) =
    let rest = set_insert c xs in
    if c == x then x ∷ xs else if ltb c x then c ∷ x ∷ xs else x ∷ rest

-- The loop over the characters outside of the effective set, from what it has met.
unfoldable pub offending_from : List ℕ → List ℕ → List ℕ → List ℕ
offending_from allowed met [] = met
offending_from allowed met (c ∷ cs) =
    offending_from allowed (if contains allowed c then met else set_insert c met) cs

unfoldable pub charset_issues : List ℕ → List Issue
charset_issues offending = if is_empty offending then [] else not_permitted offending ∷ []

abbrev between : ℕ → ℕ → ℕ → Bool
between lo hi c = leb lo c && leb c hi

abbrev pub is_lower : ℕ → Bool
is_lower c = between 0x61 0x7A c

abbrev pub is_upper : ℕ → Bool
is_upper c = between 0x41 0x5A c

abbrev pub is_digit : ℕ → Bool
is_digit c = between 0x30 0x39 c

abbrev pub is_punctuation : ℕ → Bool
is_punctuation c =
    between 0x21 0x2F c || between 0x3A 0x40 c || between 0x5B 0x60 c || between 0x7B 0x7E c

pub record Counts : Type 0 where
  pub lo : ℕ
  pub up : ℕ
  pub di : ℕ
  pub sy : ℕ

-- One round of the loop over the characters.
unfoldable pub count_class : ℕ → Counts → Counts
count_class c n =
    if is_lower c
    then record n { lo = suc n.lo }
    else if is_upper c
    then record n { up = suc n.up }
    else if is_digit c
    then record n { di = suc n.di }
    else if is_punctuation c
    then record n { sy = suc n.sy }
    else n

unfoldable pub count_classes : List ℕ → Counts → Counts
unfolding count_class
count_classes [] n = n
count_classes (c ∷ cs) n = count_classes cs (count_class c n)

unfoldable pub check_class : String → ℕ → ℕ → List Issue
check_class name have want = if ltb have want then class_short name have want ∷ [] else []

unfoldable pub validate : List ℕ → EntryPolicy → ValidationReport
unfolding from_issues length_issues offending_from charset_issues count_classes check_class
validate password policy =
    let req = resolve_over policy default_request in
    let n = count_classes password (record { lo = 0; up = 0; di = 0; sy = 0 }) in
    from_issues (
      length_issues (length password)
      ++ (charset_issues (offending_from (effective_set req.charset) [] password)
          ++ (check_class "lowercase" n.lo req.required_classes.min_lowercase
              ++ (check_class "uppercase" n.up req.required_classes.min_uppercase
                  ++ (check_class "digit" n.di req.required_classes.min_digits
                      ++ check_class "symbol" n.sy req.required_classes.min_symbols)))))
