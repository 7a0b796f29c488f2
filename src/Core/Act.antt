-- ===== src/Core/Act.antt =====
-- A method on `&mut self` that can fail: the state after it stands beside the result, also beside an
-- error.
use passman.Prelude.{◌≡◌, refl, ap, Result, ok, err}

abbrev pub Act : Type 0 → Type 0 → Type 0 → Type 0
Act S E A = S → Result E A × S

abbrev pub bind : {S E A B : Type 0} → Result E A × S → (A → Act S E B) → Result E B × S
bind (ok a, s) f = f a s
bind (err e, s) f = (err e, s)

infixl 5 ◌>>=◌ ◌>>◌
abbrev pub ◌>>=◌ : {S E A B : Type 0} → Act S E A → (A → Act S E B) → Act S E B
◌>>=◌ m f s = bind (m s) f

abbrev pub ◌>>◌ : {S E B : Type 0} → Act S E (Unit {0}) → Act S E B → Act S E B
m >> k = m >>= λ _. k

abbrev pub lift : {S E A : Type 0} → Result E A → Act S E A
lift r s = (r, s)

-- A computation that only reads the state.
abbrev pub reading : {S E A : Type 0} → (S → Result E A) → Act S E A
reading f s = (f s, s)

abbrev pub modify : {S E : Type 0} → (S → S) → Act S E (Unit {0})
modify f s = (ok tt, f s)

-- What a chain that succeeded went through.
pub lift-ok :
    {S E A B : Type 0} (r : Result E A) (s : S) (f : A → Act S E B) (b : B) (s' : S)
    → bind (r, s) f ≡ (ok b, s')
    → (a : A) × (r ≡ ok a) × (f a s ≡ (ok b, s'))
lift-ok (ok a) s f b s' e = (a, refl, e)
lift-ok (err x) s f b s' e = cc (ap (λ z. z.0) e)
