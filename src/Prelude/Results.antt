-- ===== src/Prelude/Results.antt =====
-- `Result<A, E>` with `?` as bind.
use mathlib.Core.Path.{◌≡◌, refl}
use mathlib.Core.Logic.{◌⊎◌, inl, inr}
use mathlib.Core.Bool.{Bool, true, false}
use mathlib.Core.Option.{Option, none, some}

pub data Result {ℓ κ} (E : Type κ) (A : Type ℓ) : Type (ℓ ⊔ κ) where
  ok : A → Result E A
  err : E → Result E A

-- `if !b { return Err(e) }`
abbrev pub guard {κ} : {E : Type κ} → Bool → E → Result E (Unit {0})
guard b e = elim b [ false ↦ err e | true ↦ ok tt ]

abbrev pub and_then {ℓ ι κ} :
    {E : Type κ} {A : Type ℓ} {B : Type ι} → (A → Result E B) → Result E A → Result E B
and_then f (err e) = err e
and_then f (ok a) = f a

infixl 5 ◌>>=◌
abbrev pub ◌>>=◌ {ℓ ι κ} :
    {E : Type κ} {A : Type ℓ} {B : Type ι} → Result E A → (A → Result E B) → Result E B
r >>= f = and_then f r

infixl 5 ◌>>◌
abbrev pub ◌>>◌ {ι κ} : {E : Type κ} {B : Type ι} → Result E (Unit {0}) → Result E B → Result E B
r >> next = and_then (λ _. next) r

abbrev pub ok_or {ℓ κ} : {E : Type κ} {A : Type ℓ} → Option A → E → Result E A
ok_or none e = err e
ok_or (some a) e = ok a

abbrev pub map_err {ℓ ι κ} :
    {E : Type κ} {F : Type ι} {A : Type ℓ} → (E → F) → Result E A → Result F A
map_err f (ok a) = ok a
map_err f (err e) = err (f e)

pub Result-cases {ℓ κ} :
    {E : Type κ} {A : Type ℓ} (r : Result E A) → ((a : A) × (r ≡ ok a)) ⊎ ((e : E) × (r ≡ err e))
Result-cases (ok a) = inl (a, refl)
Result-cases (err e) = inr (e, refl)

-- What a chain that succeeded went through: its first result, and the second step at that.
pub and_then-ok {ℓ ι κ} :
    {E : Type κ} {A : Type ℓ} {B : Type ι} (f : A → Result E B) (first : Result E A) (last : B)
    → and_then f first ≡ ok last
    → (mid : A) × (f mid ≡ ok last) × (first ≡ ok mid)
and_then-ok f (err x) last e = cc
and_then-ok f (ok mid) last e = (mid, e, refl)
