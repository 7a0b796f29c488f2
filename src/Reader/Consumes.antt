-- ===== src/Reader/Consumes.antt =====
-- What the bytes were that a successful read has taken: the converse of Reads.
use passman.Prelude.{
  ℕ, ◌<◌, ◌^◌, ◌≡◌, refl, sym, ap, ◌∙◌, String, List, [], ◌∷◌, ◌++◌, append_assoc, append-nil, Bool,
  true, false, Result, ok, err, arith, drop, take as take_list, length, length-take,
  take-append-drop, drop-drop, get_or, of_le, to_le, IsBytes, IsByte, All-take, All-drop, of_le-lt,
  to_le-of_le, ltb, Bool-cases, inl, inr, subst, subst₂, ◌==◌, tests,
}
use passman.Prelude.Int.{IsI64, i64_of_bits-IsI64, i64_bits, i64_of_bits, i64_bits-i64_of_bits}
use passman.Reader.{
  Reader, ReadErrors, Read, ◌>>=◌, pure, bind, lift, reject, drop_reader, run, new, ◌>>◌, remaining,
  expect_eof, take, take_array, read_u8, read_u16_le, read_u32_le, read_u64_le, read_i64_le,
  read_u16_prefixed_vec, read_u32_prefixed_vec,
}
use passman.Reader.Reads.{unread, remaining-unread}

-- Whatever `m` returns, it has taken bytes that `R` relates to the result.
pub record Consumes {E A : Type 0} (m : Read E A) (R : A → List ℕ → Type 0) : Type 0 where
  pub at :
      (r : Reader) (a : A) (r' : Reader)
      → IsBytes (unread r)
      → m r ≡ ok (a, r')
      → (xs : List ℕ) × (unread r ≡ xs ++ unread r') × IsBytes (unread r') × R a xs

-- The same for a parse that goes on to the end of the input.
pub record ConsumesAll {E A : Type 0} (m : Read E A) (T : A → List ℕ → Type 0) : Type 0 where
  pub at : (r : Reader) (a : A) → IsBytes (unread r) → drop_reader (m r) ≡ ok a → T a (unread r)

err-ne-ok : {E A : Type 0} {x : E} {b : A} → ◌≡◌ {A = Result E A} (err x) (ok b) → ⊥
err-ne-ok p = cc

ok-injective : {E A : Type 0} {a b : A} → ◌≡◌ {A = Result E A} (ok a) (ok b) → a ≡ b
ok-injective p = cc

module _ {E A : Type 0} where
  returned :
      {a b : A} {r r' : Reader}
      → ◌≡◌ {A = Result E (A × Reader)} (ok (a, r)) (ok (b, r'))
      → (a ≡ b) × (r ≡ r')
  returned e = (cc, cc)

  pub bind-eq-ok :
      {B : Type 0} (x : Result E (A × Reader)) (f : A → Read E B) {b : B} {r' : Reader}
      → bind x f ≡ ok (b, r')
      → (a : A) × (s : Reader) × (x ≡ ok (a, s)) × (f a s ≡ ok (b, r'))
  bind-eq-ok (ok (a, s)) f h = (a, s, refl, h)
  bind-eq-ok (err e) f h = cc

  pub drop_reader-bind-eq-ok :
      {B : Type 0} (x : Result E (A × Reader)) (f : A → Read E B) {b : B}
      → drop_reader (bind x f) ≡ ok b
      → (a : A) × (s : Reader) × (x ≡ ok (a, s)) × (drop_reader (f a s) ≡ ok b)
  drop_reader-bind-eq-ok (ok (a, s)) f h = (a, s, refl, h)
  drop_reader-bind-eq-ok (err e) f h = cc

module _ {E : Type 0} where
  pub Consumes-pure :
      {A : Type 0} (a : A) {R : A → List ℕ → Type 0} → R a [] → Consumes {E = E} (pure a) R
  Consumes-pure a {R} h = record {
    at = λ r b r' hb e.
        let (ea, er) = returned e in
        subst₂ (λ x s. (xs : List ℕ) × (unread r ≡ xs ++ unread s) × IsBytes (unread s) × R x xs) ea
          er ([], refl, hb, h);
  }

  pub Consumes-bind :
      {A B : Type 0} (m : Read E A) (f : A → Read E B) {R : A → List ℕ → Type 0}
      {T : B → List ℕ → Type 0}
      → Consumes m R
      → ((a : A) (xs : List ℕ) → R a xs → Consumes (f a) (λ b ys. T b (xs ++ ys)))
      → Consumes (m >>= f) T
  Consumes-bind m f hm hf = record {
    at = λ r b r'' hb e.
        let (a, s, ea, eb) = bind-eq-ok (m r) f e in
        let (xs, split, hs, ra) = hm.at r a s hb ea in
        let (ys, split', ht, tb) = (hf a xs ra).at s b r'' hs eb in
        (
          xs ++ ys,
          split ∙ ap (λ l. xs ++ l) split' ∙ sym (append_assoc xs ys (unread r'')),
          ht,
          tb,
        );
  }

  pub Consumes-weaken :
      {A : Type 0} {m : Read E A} {R S : A → List ℕ → Type 0}
      → Consumes m R
      → ((a : A) (xs : List ℕ) → R a xs → S a xs)
      → Consumes m S
  Consumes-weaken hm k = record {
    at = λ r a r' hb e. let (xs, split, hs, ra) = hm.at r a r' hb e in (xs, split, hs, k a xs ra);
  }

  pub Consumes-reject : (b : Bool) (e : E) → Consumes (reject b e) (λ _ xs. (b ≡ false) × (xs ≡ []))
  unfolding reject
  Consumes-reject true e = record { at = λ r a r' hb h. cc }
  Consumes-reject false e = Consumes-pure tt (refl, refl)

  pub ConsumesAll-bind :
      {A B : Type 0} (m : Read E A) (f : A → Read E B) {R : A → List ℕ → Type 0}
      {T : B → List ℕ → Type 0}
      → Consumes m R
      → ((a : A) (xs : List ℕ) → R a xs → ConsumesAll (f a) (λ b ys. T b (xs ++ ys)))
      → ConsumesAll (m >>= f) T
  ConsumesAll-bind m f {T = T} hm hf = record {
    at = λ r b hb e.
        let (a, s, ea, eb) = drop_reader-bind-eq-ok (m r) f e in
        let (xs, split, hs, ra) = hm.at r a s hb ea in
        subst (T b) (sym split) ((hf a xs ra).at s b hs eb);
  }

  pub ConsumesAll-pure :
      {A : Type 0} (a : A) {T : A → List ℕ → Type 0}
      → ((ys : List ℕ) → T a ys)
      → ConsumesAll {E = E} (pure a) T
  ConsumesAll-pure a {T} h = record {
    at = λ r b hb e. subst (λ x. T x (unread r)) (ok-injective e) (h (unread r));
  }

  pub ConsumesAll-lift :
      {A : Type 0} (m : Result E A) {T : A → List ℕ → Type 0}
      → ((a : A) (ys : List ℕ) → m ≡ ok a → T a ys)
      → ConsumesAll (lift m) T
  ConsumesAll-lift (ok a) {T} h = record { at = λ r b hb e. h b (unread r) e }
  ConsumesAll-lift (err x) h = record { at = λ r b hb e. cc }

  pub run-ConsumesAll :
      {A : Type 0} (m : Read E A) {T : A → List ℕ → Type 0} (bs : List ℕ) (a : A)
      → ConsumesAll m T
      → IsBytes bs
      → run m bs ≡ ok a
      → T a bs
  unfolding new
  run-ConsumesAll m bs a h hb e = h.at (new bs) a hb e

-- A length prefix and the body that it announces.
prefixed :
    (k limit n : ℕ) (xs bs ys : List ℕ)
    → to_le k n ≡ xs
    → n < limit
    → bs ≡ ys
    → length ys ≡ n
    → IsBytes ys
    → (to_le k (length bs) ++ bs ≡ xs ++ ys) × (length bs < limit) × IsBytes bs
prefixed k limit n xs bs ys e lt same len hb = rw (same, len) (ap (λ l. l ++ ys) e, lt, hb)

module _ {E : Type 0} ⦃fail : ReadErrors E⦄ where
  pub ConsumesAll-eof :
      {A : Type 0} (k : Read E A) {T : A → List ℕ → Type 0}
      → ConsumesAll k (λ b _. T b [])
      → ConsumesAll (expect_eof >> k) T
  unfolding expect_eof
  ConsumesAll-eof k {T} h = record {
    at = λ r b hb e. elim (Bool-cases (remaining r == 0)) [
      | inl done ↦
          subst (T b) (sym (empty (unread r) (omega (tests, done, remaining-unread r))))
            (h.at r b hb (rw done at e))
      | inr more ↦ absurd (err-ne-ok (rw more at e))
    ];
  }
    where
      empty : (xs : List ℕ) → length xs ≡ 0 → xs ≡ []
      empty [] p = refl
      empty (x ∷ xs) p = absurd (omega arith)

  pub Consumes-take :
      (n : ℕ) (field : String)
      → Consumes {E = E} (take n field) (λ a xs. (a ≡ xs) × (length xs ≡ n) × IsBytes xs)
  unfolding take
  Consumes-take n field = record {
    at = λ r a r' hb e. elim (Bool-cases (ltb (remaining r) n)) [
      | inl short ↦ absurd (err-ne-ok (rw short at e))
      | inr enough ↦
          let (ea, er) = returned (rw enough at e) in
          let xs = take_list n (unread r) in
          let rest : drop n (unread r) ≡ unread r' = drop-drop r.pos n r.buf ∙ ap unread er in
          (
            xs,
            sym (take-append-drop n (unread r)) ∙ ap (λ l. xs ++ l) rest,
            subst IsBytes rest (All-drop IsByte n (unread r) hb),
            (
              sym ea,
              omega (tests, enough, remaining-unread r, length-take n (unread r)),
              All-take IsByte n (unread r) hb,
            ),
          )
    ];
  }

  pub Consumes-take_array :
      (n : ℕ) (field : String)
      → Consumes {E = E} (take_array n field) (λ a xs. (a ≡ xs) × (length xs ≡ n) × IsBytes xs)
  unfolding take_array
  Consumes-take_array n field = Consumes-take n field

  pub Consumes-read_u8 :
      (field : String) → Consumes {E = E} (read_u8 field) (λ a xs. (a ∷ [] ≡ xs) × IsByte a)
  unfolding read_u8
  Consumes-read_u8 field =
      Consumes-bind _ _ (Consumes-take 1 field)
        λ bs xs (e, len, hb). Consumes-pure _ (one bs xs e len hb)
    where
      one :
          (bs xs : List ℕ)
          → bs ≡ xs
          → length xs ≡ 1
          → IsBytes xs
          → (get_or bs 0 0 ∷ [] ≡ xs ++ []) × IsByte (get_or bs 0 0)
      one bs [] e len hb = absurd (omega arith)
      one bs (x ∷ []) e len hb = rw e (refl, hb.0)
      one bs (x ∷ y ∷ ys) e len hb = absurd (omega arith)

  -- An integer of `k` bytes, turned into an `A` by `g`.
  Consumes-le :
      {A : Type 0} (k : ℕ) (g : ℕ → A) (R : A → List ℕ → Type 0) (field : String)
      → ((n : ℕ) → n < 256 ^ k → R (g n) (to_le k n))
      → Consumes {E = E} (take_array k field >>= λ bs. pure (g (of_le bs))) R
  Consumes-le k g R field h = Consumes-bind _ _ (Consumes-take_array k field) λ bs xs (e, len, hb).
      Consumes-pure _ (
        subst₂ (λ n l. R (g n) l) (ap of_le (sym e)) (bytes xs len hb)
          (h (of_le xs) (bound xs len hb)))
    where
      bytes : (xs : List ℕ) → length xs ≡ k → IsBytes xs → to_le k (of_le xs) ≡ xs ++ []
      bytes xs len hb = rw (append-nil xs) (rw (← len) (to_le-of_le xs hb))

      bound : (xs : List ℕ) → length xs ≡ k → IsBytes xs → of_le xs < 256 ^ k
      bound xs len hb = rw (← len) (of_le-lt xs hb)

  pub Consumes-read_u16_le :
      (field : String)
      → Consumes {E = E} (read_u16_le field) (λ n xs. (to_le 2 n ≡ xs) × (n < 2 ^ 16))
  unfolding read_u16_le
  Consumes-read_u16_le field = Consumes-le 2 (λ n. n) _ field (λ n h. (refl, omega arith))

  pub Consumes-read_u32_le :
      (field : String)
      → Consumes {E = E} (read_u32_le field) (λ n xs. (to_le 4 n ≡ xs) × (n < 2 ^ 32))
  unfolding read_u32_le
  Consumes-read_u32_le field = Consumes-le 4 (λ n. n) _ field (λ n h. (refl, omega arith))

  pub Consumes-read_u64_le :
      (field : String)
      → Consumes {E = E} (read_u64_le field) (λ n xs. (to_le 8 n ≡ xs) × (n < 2 ^ 64))
  unfolding read_u64_le
  Consumes-read_u64_le field = Consumes-le 8 (λ n. n) _ field (λ n h. (refl, omega arith))

  pub Consumes-read_i64_le :
      (field : String)
      → Consumes {E = E} (read_i64_le field) (λ z xs. (to_le 8 (i64_bits z) ≡ xs) × IsI64 z)
  unfolding read_i64_le
  Consumes-read_i64_le field = Consumes-le 8 i64_of_bits _ field λ n h.
      (ap (to_le 8) (i64_bits-i64_of_bits n (omega arith)), i64_of_bits-IsI64 n (omega arith))

  pub Consumes-read_u16_prefixed_vec :
      (field : String)
      → Consumes {E = E}
          (read_u16_prefixed_vec field)
          (λ bs xs. (to_le 2 (length bs) ++ bs ≡ xs) × (length bs < 2 ^ 16) × IsBytes bs)
  unfolding read_u16_prefixed_vec
  Consumes-read_u16_prefixed_vec field =
      Consumes-bind _ _ (Consumes-read_u16_le field) λ n xs (e, lt).
        Consumes-weaken (Consumes-take n field)
          λ bs ys (same, len, hb). prefixed 2 (2 ^ 16) n xs bs ys e lt same len hb

  pub Consumes-read_u32_prefixed_vec :
      (field : String)
      → Consumes {E = E}
          (read_u32_prefixed_vec field)
          (λ bs xs. (to_le 4 (length bs) ++ bs ≡ xs) × (length bs < 2 ^ 32) × IsBytes bs)
  unfolding read_u32_prefixed_vec
  Consumes-read_u32_prefixed_vec field =
      Consumes-bind _ _ (Consumes-read_u32_le field) λ n xs (e, lt).
        Consumes-weaken (Consumes-take n field)
          λ bs ys (same, len, hb). prefixed 4 (2 ^ 32) n xs bs ys e lt same len hb
