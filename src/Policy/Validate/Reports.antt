-- ===== src/Policy/Validate/Reports.antt =====
-- When a report has no issues (crates/passman-policy/src/validate.rs).
use passman.Prelude.{
  ℕ, suc, ◌+◌, ◌≡◌, ◌≤◌, ◌↔◌, refl, List, [], ◌∷◌, ◌++◌, Bool, true, false, ◌&&◌, length, leb,
  if◌then◌else◌, arith, String, sym, ◌∙◌, Bool-cases, inl, inr,
}
use passman.Policy.Charset.{contains}
use passman.Policy.Effective.{effective_set}
use passman.Policy.Generate.{GenerationRequest, resolve_over}
use passman.Policy.Request.{EntryPolicy, min_length, max_length}
use passman.Policy.Sample.Counts.{count_where}
use passman.Policy.Validate.{
  is_empty, from_issues, default_request, length_issues, set_insert, offending_from, charset_issues,
  is_lower, is_upper, is_digit, is_punctuation, Counts, count_class, count_classes, check_class,
  validate,
}

-- A count of the loop is that of its class.
counted :
    (field : Counts → ℕ) (class : ℕ → Bool)
    → ((c : ℕ) (n : Counts)
        → field (count_class c n) ≡ (if class c then suc (field n) else field n))
    → (cs : List ℕ) (n : Counts) → field (count_classes cs n) ≡ field n + count_where class cs
unfolding count_classes count_where
counted field class one [] n = omega arith
counted field class one (c ∷ cs) n = elim (Bool-cases (class c)) [
  | inl is ↦ rw is (omega (arith, counted field class one cs (count_class c n), rw is at (one c n)))
  | inr not_is ↦
      rw not_is
        (omega (arith, counted field class one cs (count_class c n), rw not_is at (one c n)))
]

-- The classes exclude each other.
count_class-lo :
    (c : ℕ) (n : Counts) → (count_class c n).lo ≡ (if is_lower c then suc n.lo else n.lo)
unfolding count_class
count_class-lo c n = ground arith

count_class-up :
    (c : ℕ) (n : Counts) → (count_class c n).up ≡ (if is_upper c then suc n.up else n.up)
unfolding count_class
count_class-up c n = ground arith

count_class-di :
    (c : ℕ) (n : Counts) → (count_class c n).di ≡ (if is_digit c then suc n.di else n.di)
unfolding count_class
count_class-di c n = ground arith

count_class-sy :
    (c : ℕ) (n : Counts) → (count_class c n).sy ≡ (if is_punctuation c then suc n.sy else n.sy)
unfolding count_class
count_class-sy c n = ground arith

empty-append : {A : Type 0} (xs ys : List A) → is_empty (xs ++ ys) ≡ (is_empty xs && is_empty ys)
empty-append [] ys = refl
empty-append (x ∷ xs) ys = refl

set_insert-nonempty : (c : ℕ) (xs : List ℕ) → is_empty (set_insert c xs) ≡ false
unfolding set_insert
set_insert-nonempty c [] = refl
set_insert-nonempty c (x ∷ xs) = ground arith

abbrev all_in : List ℕ → List ℕ → Bool
all_in allowed [] = true
all_in allowed (c ∷ cs) = contains allowed c && all_in allowed cs

empty-offending_from :
    (allowed met cs : List ℕ)
    → is_empty (offending_from allowed met cs) ≡ (is_empty met && all_in allowed cs)
unfolding offending_from
empty-offending_from allowed met [] = ground arith
empty-offending_from allowed met (c ∷ cs) = elim (Bool-cases (contains allowed c)) [
  | inl inside ↦ rw inside (empty-offending_from allowed met cs)
  | inr outside ↦ rw outside (
      empty-offending_from allowed (set_insert c met) cs
      ∙ rw (set_insert-nonempty c met) (ground arith))
]

empty-check_class :
    (name : String) (have want : ℕ) → is_empty (check_class name have want) ≡ leb want have
unfolding check_class
empty-check_class name have want = ground arith

empty-length_issues :
    (len : ℕ) → is_empty (length_issues len) ≡ (leb min_length len && leb len max_length)
unfolding length_issues
empty-length_issues len = ground arith

empty-charset_issues : (cs : List ℕ) → is_empty (charset_issues cs) ≡ is_empty cs
unfolding charset_issues
empty-charset_issues [] = refl
empty-charset_issues (c ∷ cs) = refl

-- A password of a permitted length and permitted characters, with the least number of each ASCII class.
pub record Passes (req : GenerationRequest) (password : List ℕ) : Type 0 where
  pub low : min_length ≤ length password
  pub high : length password ≤ max_length
  pub permitted : all_in (effective_set req.charset) password ≡ true
  pub lowercase : req.required_classes.min_lowercase ≤ count_where is_lower password
  pub uppercase : req.required_classes.min_uppercase ≤ count_where is_upper password
  pub digits : req.required_classes.min_digits ≤ count_where is_digit password
  pub symbols : req.required_classes.min_symbols ≤ count_where is_punctuation password

from_zero :
    (field : Counts → ℕ) (class : ℕ → Bool)
    → ((c : ℕ) (n : Counts)
        → field (count_class c n) ≡ (if class c then suc (field n) else field n))
    → (n : Counts) → field n ≡ 0
    → (cs : List ℕ) → field (count_classes cs n) ≡ count_where class cs
from_zero field class one n z cs = omega (arith, z, counted field class one cs n)

report_ok :
    (password : List ℕ) (policy : EntryPolicy)
    → let req = resolve_over policy default_request in
      (validate password policy).ok ≡ (
        (leb min_length (length password) && leb (length password) max_length)
        && (all_in (effective_set req.charset) password
            && (leb req.required_classes.min_lowercase (count_where is_lower password)
                && (leb req.required_classes.min_uppercase (count_where is_upper password)
                    && (leb req.required_classes.min_digits (count_where is_digit password)
                        && leb req.required_classes.min_symbols
                            (count_where is_punctuation password))))))
unfolding validate from_issues
report_ok password policy =
    rw
      (
        empty-append,
        empty-append,
        empty-append,
        empty-append,
        empty-append,
        empty-length_issues,
        empty-charset_issues,
        empty-offending_from,
        empty-check_class,
        empty-check_class,
        empty-check_class,
        empty-check_class,
        from_zero (λ n. n.lo) is_lower count_class-lo (record { lo = 0; up = 0; di = 0; sy = 0 })
            refl password,
        from_zero (λ n. n.up) is_upper count_class-up (record { lo = 0; up = 0; di = 0; sy = 0 })
            refl password,
        from_zero (λ n. n.di) is_digit count_class-di (record { lo = 0; up = 0; di = 0; sy = 0 })
            refl password,
        from_zero (λ n. n.sy) is_punctuation count_class-sy
            (record { lo = 0; up = 0; di = 0; sy = 0 }) refl password,
      )
      refl

-- A report has no issues exactly where the password passes the policy, resolved over the default.
pub validate_iff :
    (password : List ℕ) (policy : EntryPolicy)
    → ((validate password policy).ok ≡ true) ↔ Passes (resolve_over policy default_request) password
validate_iff password policy = (
  λ e.
      let h = sym (report_ok password policy) ∙ e in
      record {
        low = ground (arith, h);
        high = ground (arith, h);
        permitted = ground (arith, h);
        lowercase = ground (arith, h);
        uppercase = ground (arith, h);
        digits = ground (arith, h);
        symbols = ground (arith, h);
      },
  λ q.
      report_ok password policy
      ∙ ground (arith, q.low, q.high, q.permitted, q.lowercase, q.uppercase, q.digits, q.symbols),
)
