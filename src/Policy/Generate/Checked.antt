-- ===== src/Policy/Generate/Checked.antt =====
-- What the checks of `generate` in crates/passman-policy/src/generate.rs see to, and its loops push.
use passman.Prelude.{
  ℕ, zero, suc, ◌<◌, ◌≤◌, ◌≡◌, refl, sym, ap, ◌∙◌, subst, String, List, [], ◌∷◌, some,
  some-injective, Bool, true, false, not, ◌&&◌, Result, ok, guard, ◌>>◌, arith, length, ltb, leb,
  ◌==◌, All, inl, inr, ◌⊎◌,
}
use passman.Policy.Charset.{contains}
use passman.Policy.Request.{total, min_length, max_length}
use passman.Policy.Effective.{
  effective_set, effective_lowercase, effective_uppercase, effective_digits, effective_symbols,
}
use passman.Policy.Sample.{◌>>?◌, uniform_from}
use passman.Policy.Sample.Counts.{uniform_from-contains, chain_some}
use passman.Policy.Generate.{
  PolicyError, length_out_of_range, empty_charset, impossible_constraints,
  required_class_unavailable, GenerationRequest, check_class_pool, push_from, check_request,
}

abbrev pub IsFrom : List ℕ → List ℕ → Type 0
IsFrom pool cs = All (λ c. contains pool c ≡ true) cs

pub push_from-IsFrom :
    (n : ℕ) (pool draws cs rest : List ℕ)
    → n ≡ 0 ⊎ (0 < length pool)
    → push_from n pool draws ≡ some (cs, rest)
    → (length cs ≡ n) × IsFrom pool cs
unfolding push_from
push_from-IsFrom zero pool draws cs rest h e =
    let same : [] ≡ cs = ap (λ q. q.0) (some-injective _ _ e) in
    (ap length (sym same), subst (IsFrom pool) same tt)
push_from-IsFrom (suc n) pool draws cs rest h e =
    let ((c, d), drawn, went) =
      chain_some (uniform_from pool draws)
        (λ (q : ℕ × List ℕ).
          push_from n pool q.1 >>? λ (p : List ℕ × List ℕ). some (q.0 ∷ p.0, p.1))
        (cs, rest) e in
    let ((ds, d'), pushed, ends) =
      chain_some (push_from n pool d) (λ (p : List ℕ × List ℕ). some (c ∷ p.0, p.1)) (cs, rest)
        went in
    let some_pool : 0 < length pool = nonempty h in
    let (len, from) = push_from-IsFrom n pool d ds d' (inr some_pool) pushed in
    let same : c ∷ ds ≡ cs = ap (λ q. q.0) (some-injective _ _ ends) in
    (
      ap length (sym same) ∙ ap suc len,
      subst (IsFrom pool) same (uniform_from-contains pool draws c d some_pool drawn, from),
    )
  where
    nonempty : (suc n ≡ 0) ⊎ (0 < length pool) → 0 < length pool
    nonempty (inl z) = absurd (omega arith)
    nonempty (inr p) = p

-- What the checks have seen to.
pub record IsChecked (req : GenerationRequest) : Type 0 where
  pub low : min_length ≤ req.length
  pub high : req.length ≤ max_length
  pub distinct : 2 ≤ length (effective_set req.charset)
  pub fits : total req.required_classes ≤ req.length
  pub lowercase :
      (req.required_classes.min_lowercase ≡ 0) ⊎ (0 < length (effective_lowercase req.charset))
  pub uppercase :
      (req.required_classes.min_uppercase ≡ 0) ⊎ (0 < length (effective_uppercase req.charset))
  pub digits : (req.required_classes.min_digits ≡ 0) ⊎ (0 < length (effective_digits req.charset))
  pub symbols :
      (req.required_classes.min_symbols ≡ 0) ⊎ (0 < length (effective_symbols req.charset))

-- A guard in a chain that succeeded let it pass.
passed :
    {B : Type 0} (b : Bool) (x : PolicyError) (k : Result PolicyError B) (c : B)
    → (guard b x >> k) ≡ ok c
    → (b ≡ true) × (k ≡ ok c)
passed true x k c e = (refl, e)
passed false x k c e = cc

pool_passed :
    {B : Type 0} (class : String) (minimum : ℕ) (pool : List ℕ) (k : Result PolicyError B) (c : B)
    → (check_class_pool class minimum pool >> k) ≡ ok c
    → ((minimum ≡ 0) ⊎ (0 < length pool)) × (k ≡ ok c)
unfolding check_class_pool
pool_passed class zero pool k c e = (
  inl refl,
  (passed (not (ltb 0 (zero) && (length pool == 0))) (required_class_unavailable class (zero)) k c
      e).1,
)
pool_passed class (suc n) [] k c e = absurd (
    ground (
      arith,
      (passed (not (ltb 0 (suc n) && (length {A = ℕ} [] == 0)))
          (required_class_unavailable class (suc n)) k c e).0,
    ))
pool_passed class (suc n) (x ∷ xs) k c e = (
  inr (omega arith),
  (passed (not (ltb 0 (suc n) && (length (x ∷ xs) == 0))) (required_class_unavailable class (suc n))
      k c e).1,
)

pool_last :
    (class : String) (minimum : ℕ) (pool : List ℕ)
    → check_class_pool class minimum pool ≡ ok tt
    → (minimum ≡ 0) ⊎ (0 < length pool)
unfolding check_class_pool
pool_last class zero pool e = inl refl
pool_last class (suc n) [] e = absurd (ground arith)
pool_last class (suc n) (x ∷ xs) e = inr (omega arith)

pub check_request-IsChecked : (req : GenerationRequest) → check_request req ≡ ok tt → IsChecked req
unfolding check_request
check_request-IsChecked req e =
    let c = req.required_classes in
    let (bounds, e₁) =
      passed (leb min_length req.length && leb req.length max_length)
        (length_out_of_range req.length) _ tt e in
    let (two, e₂) =
      passed (not (ltb (length (effective_set req.charset)) 2)) empty_charset _ tt e₁ in
    let (room, e₃) =
      passed (not (ltb req.length (total req.required_classes)))
        (impossible_constraints (total req.required_classes) req.length) _ tt e₂ in
    let (lower, e₄) =
      pool_passed "lowercase" c.min_lowercase (effective_lowercase req.charset) _ tt e₃ in
    let (upper, e₅) =
      pool_passed "uppercase" c.min_uppercase (effective_uppercase req.charset) _ tt e₄ in
    let (digit, e₆) = pool_passed "digits" c.min_digits (effective_digits req.charset) _ tt e₅ in
    record {
      low = ground (arith, bounds);
      high = ground (arith, bounds);
      distinct = ground (arith, two);
      fits = ground (arith, room);
      lowercase = lower;
      uppercase = upper;
      digits = digit;
      symbols = pool_last "symbols" c.min_symbols (effective_symbols req.charset) e₆;
    }
