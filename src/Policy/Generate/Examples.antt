-- ===== src/Policy/Generate/Examples.antt =====
-- Tests of the sampling and of `generate`, and witnesses of their theorems.
use passman.Prelude.{
  ℕ, suc, zero, ◌∷◌, ◌≡◌, ◌<◌, ◌≤◌, ◌^◌, refl, List, [], Option, none, some, ok, err, Result, true,
  false, arith, length, ◌↔◌, ◌-◌, ◌/◌, ◌*◌, ◌+◌,
}
use passman.Policy.Charset.{Charset, none_set, contains, chars}
use passman.Policy.Request.{one_of_each, RequiredClasses, total}
use passman.Policy.Effective.{
  allowed, filter_class, distinct, effective_set, effective_lowercase, effective_uppercase,
  effective_digits, effective_symbols,
}
use passman.Policy.Sample.{
  zone, index_of, retry, uniform_index, uniform_from, set_at, swap, shuffle_from, shuffle,
  index_of_iff,
}
use passman.Policy.Generate.{
  PolicyError, length_out_of_range, required_class_unavailable, GenerationRequest, check_class_pool,
  push_from, push_required, assemble, check_request, generate,
}
use passman.Policy.Generate.Meets.{IsSatisfied, generate-IsSatisfied}
use passman.Policy.Generate.Draws.{IsLow}
use passman.Policy.Generate.Returns.{generate-returns}

abbrev pool : Charset
pool = record {
  lowercase = true;
  uppercase = false;
  digits = true;
  symbols = none_set;
  disallow = b'a' ∷ b'l' ∷ [];
}

abbrev classes : RequiredClasses
classes = record { min_lowercase = 1; min_uppercase = 0; min_digits = 2; min_symbols = 0 }

abbrev req : GenerationRequest
req = record { length = 16; charset = pool; required_classes = classes }

abbrev draws_from : ℕ → ℕ → List ℕ
draws_from zero r = []
draws_from (suc n) r = (r + 7 * n) ∷ draws_from n r

abbrev draws : List ℕ
draws = draws_from 40 3

abbrev answer : Result PolicyError (Option (List ℕ)) → List ℕ
answer (ok (some password)) = password
answer (ok none) = []
answer (err e) = []

generate_size : length (answer (generate req draws)) ≡ 16
unfolding generate check_request check_class_pool total assemble push_required push_from
    uniform_from uniform_index index_of retry zone shuffle shuffle_from swap set_at effective_set
    distinct effective_lowercase effective_uppercase effective_digits effective_symbols filter_class
    allowed chars contains
generate_size = refl

generate_short :
    generate (record { length = 15; charset = pool; required_classes = classes }) draws
    ≡ err (length_out_of_range 15)
unfolding generate check_request
generate_short = refl

generate_unavailable :
    generate (record { length = 16; charset = pool; required_classes = one_of_each }) draws
    ≡ err (required_class_unavailable "uppercase" 1)
unfolding generate check_request check_class_pool total effective_set distinct effective_lowercase
    effective_uppercase effective_digits effective_symbols filter_class allowed chars contains
generate_unavailable = refl

generate_ok : generate req draws ≡ ok (some (answer (generate req draws)))
unfolding generate check_request check_class_pool total assemble push_required push_from
    uniform_from uniform_index index_of retry zone shuffle shuffle_from swap set_at effective_set
    distinct effective_lowercase effective_uppercase effective_digits effective_symbols filter_class
    allowed chars contains
generate_ok = refl

checked : check_request req ≡ ok tt
unfolding check_request check_class_pool total effective_set distinct effective_lowercase
    effective_uppercase effective_digits effective_symbols filter_class allowed chars contains
checked = refl

draws-IsLow : (n : ℕ) → n ≤ 1000 → IsLow (draws_from n 3)
draws-IsLow zero h = tt
draws-IsLow (suc n) h = (omega arith, draws-IsLow n (omega arith))

generate-IsSatisfied_example : IsSatisfied req (answer (generate req draws))
generate-IsSatisfied_example =
    generate-IsSatisfied req draws (answer (generate req draws)) generate_ok

generate-returns_example : (password : List ℕ) × (generate req draws ≡ ok (some password))
generate-returns_example =
    generate-returns req draws checked (unfold chars in omega arith) (omega arith)
      (draws-IsLow 40 (omega arith))

index_of_iff_example :
    (index_of 10 27 ≡ some 7) ↔ ((7 < 10) × ((q : ℕ) × (q < (2 ^ 32 - 1) / 10) × (27 ≡ q * 10 + 7)))
index_of_iff_example = index_of_iff 10 27 7 (omega arith)
