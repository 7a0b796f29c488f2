-- ===== src/Policy/Generate/Returns.antt =====
-- The rejection loops of crates/passman-policy/src/generate.rs end: enough draws give a password.
use passman.Prelude.{
  ℕ, ◌+◌, ◌-◌, ◌*◌, ◌^◌, ◌≤◌, ◌≡◌, refl, ap, ◌∙◌, List, [], ◌∷◌, ◌++◌, Option, none, some,
  some-injective, Bool, true, false, ok, arith, length, length-append, inr,
}
use passman.Policy.Charset.{Charset, chars, lowercase_chars, uppercase_chars, digit_chars}
use passman.Policy.Request.{RequiredClasses, total}
use passman.Policy.Effective.{
  allowed, filter_class, distinct, effective_set, effective_lowercase, effective_uppercase,
  effective_digits, effective_symbols,
}
use passman.Policy.Sample.{◌>>?◌, shuffle}
use passman.Policy.Generate.{
  GenerationRequest, push_from, push_required, assemble, check_request, generate,
}
use passman.Policy.Generate.Checked.{IsChecked, check_request-IsChecked, push_from-IsFrom}
use passman.Policy.Generate.Draws.{IsLow, push_from-Takes, shuffle-returns}

length-allowed : (disallow cs : List ℕ) → length (allowed disallow cs) ≤ length cs
unfolding allowed
length-allowed disallow [] = omega arith
length-allowed disallow (c ∷ cs) = ground (arith, length-allowed disallow cs)

length-filter_class :
    (s : Charset) (enabled : Bool) (class : List ℕ)
    → length (filter_class s enabled class) ≤ length class
unfolding filter_class
length-filter_class s true class = length-allowed s.disallow class
length-filter_class s false class = omega arith

length-distinct : (seen cs : List ℕ) → length (distinct seen cs) ≤ length cs
unfolding distinct
length-distinct seen [] = omega arith
length-distinct seen (c ∷ cs) =
    ground (arith, length-distinct seen cs, length-distinct (c ∷ seen) cs)

-- No more symbols than there are code points.
abbrev pub IsCharset : Charset → Type 0
IsCharset s = length (chars s.symbols) ≤ 1_114_112

record AreSmall (s : Charset) : Type 0 where
  lower : length (effective_lowercase s) ≤ 26
  upper : length (effective_uppercase s) ≤ 26
  digits : length (effective_digits s) ≤ 10
  symbols : length (effective_symbols s) ≤ 1_114_112
  all : length (effective_set s) ≤ 2 ^ 31

IsCharset-AreSmall : (s : Charset) → IsCharset s → AreSmall s
unfolding effective_lowercase effective_uppercase effective_digits effective_symbols effective_set
IsCharset-AreSmall s h =
    let lower = effective_lowercase s in
    let upper = effective_uppercase s in
    let digits = effective_digits s in
    let symbols = effective_symbols s in
    let a : length lower ≤ 26 = omega (arith, length-filter_class s s.lowercase lowercase_chars) in
    let b : length upper ≤ 26 = omega (arith, length-filter_class s s.uppercase uppercase_chars) in
    let c : length digits ≤ 10 = omega (arith, length-filter_class s s.digits digit_chars) in
    let d : length symbols ≤ 1_114_112 =
      omega (arith, h, length-allowed s.disallow (chars s.symbols)) in
    record {
      lower = a;
      upper = b;
      digits = c;
      symbols = d;
      all = omega (
        arith,
        a,
        b,
        c,
        d,
        length-distinct [] (lower ++ (upper ++ (digits ++ symbols))),
        length-append lower (upper ++ (digits ++ symbols)),
        length-append upper (digits ++ symbols),
        length-append digits symbols,
      );
    }

goes_on : {A B : Type 0} (o : Option A) (a : A) (f : A → Option B) → o ≡ some a → (o >>? f) ≡ f a
goes_on none a f e = cc
goes_on (some x) a f e = ap f (some-injective _ _ e)

-- The four loops over the classes, from what each returns.
push_required_from :
    (classes : RequiredClasses) (s : Charset)
    (draws lower d₁ upper d₂ digits d₃ symbols d₄ : List ℕ)
    → push_from classes.min_lowercase (effective_lowercase s) draws ≡ some (lower, d₁)
    → push_from classes.min_uppercase (effective_uppercase s) d₁ ≡ some (upper, d₂)
    → push_from classes.min_digits (effective_digits s) d₂ ≡ some (digits, d₃)
    → push_from classes.min_symbols (effective_symbols s) d₃ ≡ some (symbols, d₄)
    → push_required classes s draws ≡ some (lower ++ (upper ++ (digits ++ symbols)), d₄)
unfolding push_required
push_required_from classes s draws lower d₁ upper d₂ digits d₃ symbols d₄ e₁ e₂ e₃ e₄ =
    goes_on (push_from classes.min_lowercase (effective_lowercase s) draws) (lower, d₁) _ e₁
    ∙ goes_on (push_from classes.min_uppercase (effective_uppercase s) d₁) (upper, d₂) _ e₂
    ∙ goes_on (push_from classes.min_digits (effective_digits s) d₂) (digits, d₃) _ e₃
    ∙ goes_on (push_from classes.min_symbols (effective_symbols s) d₃) (symbols, d₄) _ e₄

assemble_from :
    (req : GenerationRequest) (draws required d others d' : List ℕ) (r : List ℕ × List ℕ)
    → push_required req.required_classes req.charset draws ≡ some (required, d)
    → push_from (req.length - length required) (effective_set req.charset) d ≡ some (others, d')
    → shuffle (required ++ others) d' ≡ some r
    → assemble req draws ≡ some r
unfolding assemble
assemble_from req draws required d others d' r e e' shuffled =
    goes_on (push_required req.required_classes req.charset draws) (required, d) _ e
    ∙ goes_on (push_from (req.length - length required) (effective_set req.charset) d) (others, d')
        _ e'
    ∙ shuffled

module _ (req : GenerationRequest) where
  assemble-returns :
      (draws : List ℕ)
      → IsChecked req
      → IsCharset req.charset
      → 2 * req.length ≤ length draws
      → IsLow draws
      → (r : List ℕ × List ℕ) × (assemble req draws ≡ some r)
  unfolding total
  assemble-returns draws h small enough low =
      let s = req.charset in
      let c = req.required_classes in
      let k = IsCharset-AreSmall s small in
      let t₁ =
        push_from-Takes c.min_lowercase (effective_lowercase s) draws h.lowercase
          (omega (arith, k.lower)) (omega (arith, h.fits)) low in
      let t₂ =
        push_from-Takes c.min_uppercase (effective_uppercase s) t₁.rest h.uppercase
          (omega (arith, k.upper)) (omega (arith, h.fits, t₁.used)) t₁.low in
      let t₃ =
        push_from-Takes c.min_digits (effective_digits s) t₂.rest h.digits (omega (arith, k.digits))
          (omega (arith, h.fits, t₁.used, t₂.used)) t₂.low in
      let t₄ =
        push_from-Takes c.min_symbols (effective_symbols s) t₃.rest h.symbols
          (omega (arith, k.symbols)) (omega (arith, h.fits, t₁.used, t₂.used, t₃.used)) t₃.low in
      let n₁ =
        (push_from-IsFrom c.min_lowercase (effective_lowercase s) draws t₁.value t₁.rest h.lowercase
          t₁.returned).0 in
      let n₂ =
        (push_from-IsFrom c.min_uppercase (effective_uppercase s) t₁.rest t₂.value t₂.rest
          h.uppercase t₂.returned).0 in
      let n₃ =
        (push_from-IsFrom c.min_digits (effective_digits s) t₂.rest t₃.value t₃.rest h.digits
          t₃.returned).0 in
      let n₄ =
        (push_from-IsFrom c.min_symbols (effective_symbols s) t₃.rest t₄.value t₄.rest h.symbols
          t₄.returned).0 in
      let required = t₁.value ++ (t₂.value ++ (t₃.value ++ t₄.value)) in
      let size : length required ≡ total c = omega (
        arith,
        n₁,
        n₂,
        n₃,
        n₄,
        length-append t₁.value (t₂.value ++ (t₃.value ++ t₄.value)),
        length-append t₂.value (t₃.value ++ t₄.value),
        length-append t₃.value t₄.value,
      ) in
      let spare : length t₄.rest + total c ≡ length draws =
        omega (arith, t₁.used, t₂.used, t₃.used, t₄.used) in
      let t₅ =
        push_from-Takes (req.length - length required) (effective_set s) t₄.rest
          (inr (omega (arith, h.distinct))) k.all (omega (arith, size, spare, enough)) t₄.low in
      let n₅ =
        (push_from-IsFrom (req.length - length required) (effective_set s) t₄.rest t₅.value t₅.rest
          (inr (omega (arith, h.distinct))) t₅.returned).0 in
      let whole : length (required ++ t₅.value) ≡ req.length =
        omega (arith, length-append required t₅.value, n₅, size, h.fits) in
      let (r, e) =
        shuffle-returns (required ++ t₅.value) t₅.rest (omega (arith, whole, h.high))
          (omega (arith, whole, t₅.used, spare, size, enough, h.fits)) t₅.low in
      let e₀ =
        push_required_from c s draws t₁.value t₁.rest t₂.value t₂.rest t₃.value t₃.rest t₄.value
          t₄.rest t₁.returned t₂.returned t₃.returned t₄.returned in
      (r, assemble_from req draws required t₄.rest t₅.value t₅.rest r e₀ t₅.returned e)

  -- A request that passes the checks, and has no more symbols than there are code points, is answered:
  -- from twice as many draws as it has characters, none of them in the upper half of u32, a password
  -- is generated.
  pub generate-returns :
      (draws : List ℕ)
      → check_request req ≡ ok tt
      → IsCharset req.charset
      → 2 * req.length ≤ length draws
      → IsLow draws
      → (password : List ℕ) × (generate req draws ≡ ok (some password))
  unfolding generate
  generate-returns draws checked small enough low =
      let (r, e) = assemble-returns draws (check_request-IsChecked req checked) small enough low in
      (r.0, rw checked (rw e refl))
