-- ===== src/Policy/Validate/Examples.antt =====
-- Reports on passwords (crates/passman-policy/src/validate.rs).
use passman.Prelude.{ℕ, ◌↔◌, ◌≡◌, refl, List, [], ◌∷◌, true, false, replicate}
use passman.Policy.Validate.Reports.{Passes, validate_iff}
use passman.Policy.Charset.{contains, chars}
use passman.Policy.Request.{default_policy}
use passman.Policy.Generate.{resolve_over}
use passman.Policy.Effective.{
  effective_set, distinct, effective_lowercase, filter_class, allowed, effective_uppercase,
  effective_digits, effective_symbols,
}
use passman.Policy.Validate.{
  default_request, validate, from_issues, length_issues, offending_from, set_insert, charset_issues,
  count_class, count_classes, check_class, class_short, not_permitted, below_minimum,
}

-- Two spaces, a tab and "Ab1".
short_report : validate (32 ∷ 32 ∷ 9 ∷ 65 ∷ 98 ∷ 49 ∷ []) default_policy ≡ record {
  ok = false;
  issues = below_minimum 6 ∷ not_permitted (9 ∷ 32 ∷ []) ∷ class_short "symbol" 0 1 ∷ [];
}
unfolding validate from_issues length_issues offending_from set_insert charset_issues count_class
    count_classes check_class resolve_over effective_set contains distinct effective_lowercase
    filter_class allowed effective_uppercase effective_digits effective_symbols chars
short_report = refl

-- Forty characters of all classes.
abbrev good_password : List ℕ
good_password = 65 ∷ 98 ∷ 49 ∷ 33 ∷ replicate 36 97

validate_iff_example :
    ((validate good_password default_policy).ok ≡ true)
    ↔ Passes (resolve_over default_policy default_request) good_password
validate_iff_example = validate_iff good_password default_policy
