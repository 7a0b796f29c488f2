-- ===== src/Policy/Generate/Meets.antt =====
-- What a generated password satisfies (crates/passman-policy/src/generate.rs).
use passman.Prelude.{
  ℕ, ◌-◌, ◌≤◌, ◌≡◌, refl, sym, ap, ◌∙◌, subst, List, [], ◌∷◌, ◌++◌, Option, none, some,
  some-injective, Bool, true, Result, ok, arith, length, length-append, append_assoc, All,
  All-append, inl, inr, Result-cases,
}
use passman.Policy.Charset.{contains}
use passman.Policy.Request.{RequiredClasses, total, min_length, max_length}
use passman.Policy.Effective.{
  effective_set, effective_lowercase, effective_uppercase, effective_digits, effective_symbols,
  contains-effective_set,
}
use passman.Policy.Sample.Counts.{
  count_where, count_where-append, count_where-All, All-count_where, shuffle-keeps, chain_some,
}
use passman.Policy.Generate.{
  PolicyError, GenerationRequest, push_from, push_required, assemble, check_request, generate,
  password_of,
}
use passman.Policy.Generate.Checked.{IsFrom, push_from-IsFrom, IsChecked, check_request-IsChecked}

module _ (req : GenerationRequest) where
  abbrev classes : RequiredClasses
  classes = req.required_classes

  abbrev effective : List ℕ
  effective = effective_set req.charset

  -- The password has the length that was asked for, within the limits; every character is in the
  -- effective set, and each class has its minimum.
  pub record IsSatisfied (password : List ℕ) : Type 0 where
    pub low : min_length ≤ length password
    pub high : length password ≤ max_length
    pub size : length password ≡ req.length
    pub permitted : IsFrom effective password
    pub lowercase :
        classes.min_lowercase ≤ count_where (contains (effective_lowercase req.charset)) password
    pub uppercase :
        classes.min_uppercase ≤ count_where (contains (effective_uppercase req.charset)) password
    pub digits : classes.min_digits ≤ count_where (contains (effective_digits req.charset)) password
    pub symbols :
        classes.min_symbols ≤ count_where (contains (effective_symbols req.charset)) password

  -- The parts that the loops over the classes push.
  record IsRequired (start : List ℕ) (required left : List ℕ) : Type 0 where
    lower : List ℕ
    upper : List ℕ
    digit : List ℕ
    symbol : List ℕ
    lower_from :
        (length lower ≡ classes.min_lowercase) × IsFrom (effective_lowercase req.charset) lower
    upper_from :
        (length upper ≡ classes.min_uppercase) × IsFrom (effective_uppercase req.charset) upper
    digit_from : (length digit ≡ classes.min_digits) × IsFrom (effective_digits req.charset) digit
    symbol_from :
        (length symbol ≡ classes.min_symbols) × IsFrom (effective_symbols req.charset) symbol
    whole : required ≡ lower ++ (upper ++ (digit ++ symbol))

  push_required-IsRequired :
      (draws required left : List ℕ)
      → IsChecked req
      → push_required req.required_classes req.charset draws ≡ some (required, left)
      → IsRequired draws required left
  unfolding push_required
  push_required-IsRequired draws required left h e =
      let ((lower, d₁), e₁, k₁) =
        chain_some (push_from classes.min_lowercase (effective_lowercase req.charset) draws) _
          (required, left) e in
      let ((upper, d₂), e₂, k₂) =
        chain_some (push_from classes.min_uppercase (effective_uppercase req.charset) d₁) _
          (required, left) k₁ in
      let ((digit, d₃), e₃, k₃) =
        chain_some (push_from classes.min_digits (effective_digits req.charset) d₂) _
          (required, left) k₂ in
      let ((symbol, d₄), e₄, k₄) =
        chain_some (push_from classes.min_symbols (effective_symbols req.charset) d₃) _
          (required, left) k₃ in
      record {
        lower = lower;
        upper = upper;
        digit = digit;
        symbol = symbol;
        lower_from =
            push_from-IsFrom classes.min_lowercase (effective_lowercase req.charset) draws lower d₁
              h.lowercase e₁;
        upper_from =
            push_from-IsFrom classes.min_uppercase (effective_uppercase req.charset) d₁ upper d₂
              h.uppercase e₂;
        digit_from =
            push_from-IsFrom classes.min_digits (effective_digits req.charset) d₂ digit d₃ h.digits
              e₃;
        symbol_from =
            push_from-IsFrom classes.min_symbols (effective_symbols req.charset) d₃ symbol d₄
              h.symbols e₄;
        whole = sym (ap (λ q. q.0) (some-injective _ _ k₄));
      }

IsFrom-widen :
    (pool wide cs : List ℕ)
    → ((c : ℕ) → contains pool c ≡ true → contains wide c ≡ true)
    → IsFrom pool cs
    → IsFrom wide cs
IsFrom-widen pool wide [] k h = tt
IsFrom-widen pool wide (c ∷ cs) k (h, hs) = (k c h, IsFrom-widen pool wide cs k hs)

-- A part of a text counts in the text.
count_where-part :
    (p : ℕ → Bool) (xs part ys : List ℕ)
    → All (λ c. p c ≡ true) part
    → length part ≤ count_where p (xs ++ (part ++ ys))
count_where-part p xs part ys h = omega (
  arith,
  count_where-append p xs (part ++ ys),
  count_where-append p part ys,
  count_where-All p part h,
)

ok-injective :
    {a b : Option (List ℕ)} → Path (Result PolicyError (Option (List ℕ))) (ok a) (ok b) → a ≡ b
ok-injective e = cc

module _ (req : GenerationRequest) where
  -- The text before the shuffle has all that the password must have.
  before_shuffle :
      (draws required left others : List ℕ)
      → IsChecked req
      → IsRequired req draws required left
      → length others ≡ req.length - length required
      → IsFrom (effective_set req.charset) others
      → (password : List ℕ) → length password ≡ length (required ++ others)
      → ((p : ℕ → Bool) → count_where p password ≡ count_where p (required ++ others))
      → IsSatisfied req password
  unfolding total
  before_shuffle draws required left others h r size from password len same =
      let s = req.charset in
      let four : required ++ others ≡ r.lower ++ (r.upper ++ (r.digit ++ (r.symbol ++ others))) =
        ap (λ l. l ++ others) r.whole ∙ simp append_assoc in
      let long : length required ≡ total req.required_classes =
        ap length r.whole
        ∙ omega (
          arith,
          length-append r.lower (r.upper ++ (r.digit ++ r.symbol)),
          length-append r.upper (r.digit ++ r.symbol),
          length-append r.digit r.symbol,
          r.lower_from.0,
          r.upper_from.0,
          r.digit_from.0,
          r.symbol_from.0,
        ) in
      let exact : length password ≡ req.length =
        omega (arith, len, length-append required others, size, long, h.fits) in
      let all : IsFrom (effective_set s) (required ++ others) =
        subst (IsFrom (effective_set s)) (sym four) (
          All-append (λ c. contains (effective_set s) c ≡ true) r.lower _
            (IsFrom-widen (effective_lowercase s) _ r.lower
              (λ c k. contains-effective_set s c (rw k (ground arith))) r.lower_from.1)
            (All-append (λ c. contains (effective_set s) c ≡ true) r.upper _
              (IsFrom-widen (effective_uppercase s) _ r.upper
                (λ c k. contains-effective_set s c (rw k (ground arith))) r.upper_from.1)
              (All-append (λ c. contains (effective_set s) c ≡ true) r.digit _
                (IsFrom-widen (effective_digits s) _ r.digit
                  (λ c k. contains-effective_set s c (rw k (ground arith))) r.digit_from.1)
                (All-append (λ c. contains (effective_set s) c ≡ true) r.symbol _
                  (IsFrom-widen (effective_symbols s) _ r.symbol
                    (λ c k. contains-effective_set s c (rw k (ground arith))) r.symbol_from.1)
                  from)))) in
      record {
        low = omega (arith, exact, h.low);
        high = omega (arith, exact, h.high);
        size = exact;
        permitted = All-count_where (contains (effective_set s)) password (
            same (contains (effective_set s))
            ∙ count_where-All (contains (effective_set s)) _ all
            ∙ sym len);
        lowercase = counted (effective_lowercase s) [] r.lower _ r.lower_from four;
        uppercase = counted (effective_uppercase s) r.lower r.upper _ r.upper_from four;
        digits =
            counted (effective_digits s) (r.lower ++ r.upper) r.digit (r.symbol ++ others)
              r.digit_from (four ∙ simp append_assoc);
        symbols =
            counted (effective_symbols s) (r.lower ++ (r.upper ++ r.digit)) r.symbol others
              r.symbol_from (four ∙ simp append_assoc);
      }
    where
      counted :
          (pool xs part ys : List ℕ) {minimum : ℕ}
          → ((length part ≡ minimum) × IsFrom pool part)
          → required ++ others ≡ xs ++ (part ++ ys)
          → minimum ≤ count_where (contains pool) password
      counted pool xs part ys (size, from) at = omega (
        arith,
        size,
        same (contains pool),
        ap (count_where (contains pool)) at,
        count_where-part (contains pool) xs part ys from,
      )

  assembled-IsSatisfied :
      (draws password rest : List ℕ)
      → IsChecked req
      → assemble req draws ≡ some (password, rest)
      → IsSatisfied req password
  unfolding assemble
  assembled-IsSatisfied draws password rest h e =
      let ((required, d), e₁, k₁) =
        chain_some (push_required req.required_classes req.charset draws) _ (password, rest) e in
      let ((others, d'), e₂, shuffled) =
        chain_some (push_from (req.length - length required) (effective_set req.charset) d) _
          (password, rest) k₁ in
      let (size, from) =
        push_from-IsFrom (req.length - length required) (effective_set req.charset) d others d'
          (inr (omega (arith, h.distinct))) e₂ in
      let kept = λ (p : ℕ → Bool). shuffle-keeps p (required ++ others) d' password rest shuffled in
      before_shuffle draws required d others h (push_required-IsRequired req draws required d h e₁)
        size from password (kept (λ c. true)).0 (λ p. (kept p).1)

  from_password :
      (draws password : List ℕ) (o : Option (List ℕ × List ℕ))
      → IsChecked req
      → assemble req draws ≡ o
      → password_of o ≡ some password
      → IsSatisfied req password
  from_password draws password none h a e = cc
  from_password draws password (some (buf, rest)) h a e =
      subst (IsSatisfied req) (some-injective _ _ e) (assembled-IsSatisfied draws buf rest h a)

  -- A password that is generated has the length that was asked for, from 16 to 256; every character
  -- of it is in the effective set, and each class has its minimum.
  pub generate-IsSatisfied :
      (draws password : List ℕ) → generate req draws ≡ ok (some password) → IsSatisfied req password
  unfolding generate
  generate-IsSatisfied draws password e = elim (Result-cases (check_request req)) [
    | inl (u, checked) ↦
        from_password draws password (assemble req draws) (check_request-IsChecked req checked) refl
          (ok-injective (rw checked at e))
    | inr (x, failed) ↦ cc (rw failed at e)
  ]
