-- ===== src/Policy/Generate.antt =====
-- `generate` of crates/passman-policy/src/generate.rs, and the request it resolves (policy.rs).
pub mod Checked
pub mod Meets
pub mod Draws
pub mod Returns
mod Examples
use passman.Prelude.{
  ℕ, zero, suc, ◌+◌, ◌-◌, String, List, [], ◌∷◌, ◌++◌, Option, none, some, Bool, not, ◌&&◌, Result,
  ok, err, ◌>>=◌, ◌>>◌, guard, length, ltb, leb, ◌==◌,
}
use passman.Policy.Charset.{Charset}
use passman.Policy.Request.{RequiredClasses, EntryPolicy, total, min_length, max_length}
use passman.Policy.Effective.{
  effective_set, effective_lowercase, effective_uppercase, effective_digits, effective_symbols,
}
use passman.Policy.Sample.{◌>>?◌, uniform_from, shuffle}

pub data PolicyError : Type 0 where
  empty_charset : PolicyError
  impossible_constraints : ℕ → ℕ → PolicyError
  required_class_unavailable : String → ℕ → PolicyError
  length_out_of_range : ℕ → PolicyError

pub record GenerationRequest : Type 0 where
  pub length : ℕ
  pub charset : Charset
  pub required_classes : RequiredClasses

abbrev unwrap_or {ℓ} : {A : Type ℓ} → Option A → A → A
unwrap_or none d = d
unwrap_or (some a) d = a

unfoldable pub resolve_over : EntryPolicy → GenerationRequest → GenerationRequest
resolve_over policy default = record {
  length = unwrap_or policy.length default.length;
  charset = unwrap_or policy.charset_override default.charset;
  required_classes = unwrap_or policy.required_classes_override default.required_classes;
}

-- One round of the loop over the classes.
unfoldable pub check_class_pool : String → ℕ → List ℕ → Result PolicyError (Unit {0})
check_class_pool class minimum pool =
    guard (not (ltb 0 minimum && (length pool == 0))) (required_class_unavailable class minimum)

-- A loop that pushes so many characters from a pool.
unfoldable pub push_from : ℕ → List ℕ → List ℕ → Option (List ℕ × List ℕ)
push_from zero pool draws = some ([], draws)
push_from (suc n) pool draws = uniform_from pool draws >>? λ (c, rest).
    push_from n pool rest >>? λ (cs, left). some (c ∷ cs, left)

-- The four loops over the required classes.
unfoldable pub push_required : RequiredClasses → Charset → List ℕ → Option (List ℕ × List ℕ)
unfolding push_from
push_required classes charset draws =
    push_from classes.min_lowercase (effective_lowercase charset) draws >>? λ (lower, d₁).
    push_from classes.min_uppercase (effective_uppercase charset) d₁ >>? λ (upper, d₂).
    push_from classes.min_digits (effective_digits charset) d₂ >>? λ (digits, d₃).
    push_from classes.min_symbols (effective_symbols charset) d₃ >>? λ (symbols, d₄).
    some (lower ++ (upper ++ (digits ++ symbols)), d₄)

-- Steps 3 and 4, once the checks have passed.
unfoldable pub assemble : GenerationRequest → List ℕ → Option (List ℕ × List ℕ)
unfolding push_required
assemble req draws = push_required req.required_classes req.charset draws >>? λ (required, d).
    push_from (req.length - length required) (effective_set req.charset) d >>? λ (others, d').
    shuffle (required ++ others) d'

abbrev pub password_of : Option (List ℕ × List ℕ) → Option (List ℕ)
password_of none = none
password_of (some (buf, draws)) = some buf

unfoldable pub check_request : GenerationRequest → Result PolicyError (Unit {0})
check_request req = do
  guard (leb min_length req.length && leb req.length max_length) (length_out_of_range req.length)
  guard (not (ltb (length (effective_set req.charset)) 2)) empty_charset
  guard (not (ltb req.length (total req.required_classes)))
      (impossible_constraints (total req.required_classes) req.length)
  check_class_pool "lowercase" req.required_classes.min_lowercase (effective_lowercase req.charset)
  check_class_pool "uppercase" req.required_classes.min_uppercase (effective_uppercase req.charset)
  check_class_pool "digits" req.required_classes.min_digits (effective_digits req.charset)
  check_class_pool "symbols" req.required_classes.min_symbols (effective_symbols req.charset)

-- `ok none` where the loops draw beyond the given values.
unfoldable pub generate : GenerationRequest → List ℕ → Result PolicyError (Option (List ℕ))
unfolding check_request assemble
generate req draws = do check_request req; ok (password_of (assemble req draws))
