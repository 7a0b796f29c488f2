-- ===== src/Reader/Reads.antt =====
-- What a read returns when the unread bytes begin with an encoding.
use passman.Prelude.{
  ℕ, ◌+◌, ◌≤◌, ◌<◌, ◌^◌, ◌≡◌, refl, sym, ap, ◌∙◌, String, List, [], ◌∷◌, ◌++◌, append_assoc, Bool,
  true, false, Result, ok, err, arith, drop, take as take_list, length, length-append, length-drop,
  take-append, drop-append, drop-drop, of_le, to_le, length-to_le, of_le-to_le, ltb, Bool-cases,
  inl, inr, subst, subst₂, append-nil, tests,
}
use passman.Prelude.Int.{ℤ, IsI64, i64_bits, i64_of_bits, i64_bits-lt, i64_of_bits-i64_bits}
use passman.Reader.{
  Reader, ReadErrors, Read, ◌>>=◌, pure, lift, reject, drop_reader, run, new, ◌>>◌, remaining,
  expect_eof, take, take_array, read_u8, read_u16_le, read_u32_le, read_u64_le, read_i64_le,
  read_u16_prefixed_vec, read_u32_prefixed_vec,
}

abbrev pub unread : Reader → List ℕ
unread r = drop r.pos r.buf

abbrev pub advance : ℕ → Reader → Reader
advance n r = record r { pos = r.pos + n }

-- `m` reads exactly `bs`, whatever follows, and returns `a`.
pub record Reads {E A : Type 0} (m : Read E A) (bs : List ℕ) (a : A) : Type 0 where
  pub at :
      (r : Reader) (more : List ℕ) → unread r ≡ bs ++ more → m r ≡ ok (a, advance (length bs) r)

pub remaining-unread : (r : Reader) → remaining r ≡ length (unread r)
unfolding remaining
remaining-unread r = sym (length-drop r.pos r.buf)

pub unread-advance :
    (r : Reader) (bs more : List ℕ) → unread r ≡ bs ++ more → unread (advance (length bs) r) ≡ more
unread-advance r bs more h =
    sym (drop-drop r.pos (length bs) r.buf) ∙ ap (drop (length bs)) h ∙ drop-append bs more

pub Reads-pure : {E A : Type 0} (a : A) → Reads {E = E} (pure a) [] a
Reads-pure a = record { at = λ r more e. ap (λ k. ok (a, record r { pos = k })) (omega arith) }

pub Reads-bind :
    {E A B : Type 0} {m : Read E A} (f : A → Read E B) {xs ys : List ℕ} {a : A} {b : B}
    → Reads m xs a
    → Reads (f a) ys b
    → Reads (m >>= f) (xs ++ ys) b
Reads-bind f {xs} {ys} {a} {b} hm hf = record {
  at = λ r more e.
      let e' : unread r ≡ xs ++ (ys ++ more) = e ∙ append_assoc xs ys more in
      let far : r.pos + length xs + length ys ≡ r.pos + length (xs ++ ys) =
        omega (arith, length-append xs ys) in
      rw (hm.at r (ys ++ more) e') (
        hf.at (advance (length xs) r) more (unread-advance r xs (ys ++ more) e')
        ∙ ap (λ k. ok (b, record r { pos = k })) far);
}

-- A read whose bytes are given in another form.
pub Reads-cast :
    {E A : Type 0} {m : Read E A} {bs bs' : List ℕ} {a a' : A}
    → bs ≡ bs'
    → a ≡ a'
    → Reads m bs a
    → Reads m bs' a'
Reads-cast {m} p q h = subst₂ (λ x y. Reads m x y) p q h

module _ {E : Type 0} ⦃fail : ReadErrors E⦄ where
  pub Reads-take :
      (n : ℕ) (bs : List ℕ) (field : String) → length bs ≡ n → Reads {E = E} (take n field) bs bs
  unfolding take
  Reads-take n bs field len = record {
    at = λ r more e. rw (← len) (elim (Bool-cases (ltb (remaining r) (length bs))) [
      | inl short ↦ absurd (omega (tests, short, fits r more e))
      | inr enough ↦ rw enough (
          ap (λ xs. ok (xs, advance (length bs) r))
            (ap (take_list (length bs)) e ∙ take-append bs more))
    ]);
  }
    where
      fits : (r : Reader) (more : List ℕ) → unread r ≡ bs ++ more → length bs ≤ remaining r
      fits r more e = omega (arith, remaining-unread r, ap length e, length-append bs more)

  pub Reads-take_array :
      (n : ℕ) (bs : List ℕ) (field : String)
      → length bs ≡ n
      → Reads {E = E} (take_array n field) bs bs
  unfolding take_array
  Reads-take_array n bs field len = Reads-take n bs field len

  pub Reads-read_u8 : (b : ℕ) (field : String) → Reads {E = E} (read_u8 field) (b ∷ []) b
  unfolding read_u8
  Reads-read_u8 b field = Reads-bind _ (Reads-take 1 (b ∷ []) field refl) (Reads-pure b)

  Reads-le :
      {A : Type 0} (k n : ℕ) (g : ℕ → A) (field : String)
      → n < 256 ^ k
      → Reads {E = E} (take_array k field >>= λ bs. pure (g (of_le bs))) (to_le k n) (g n)
  Reads-le k n g field h =
      Reads-cast (append-nil (to_le k n)) (ap g (of_le-to_le k n h))
        (Reads-bind _ (Reads-take_array k (to_le k n) field (length-to_le k n)) (Reads-pure _))

  pub Reads-read_u16_le :
      (n : ℕ) (field : String) → n < 2 ^ 16 → Reads {E = E} (read_u16_le field) (to_le 2 n) n
  unfolding read_u16_le
  Reads-read_u16_le n field h = Reads-le 2 n (λ x. x) field (omega arith)

  pub Reads-read_u32_le :
      (n : ℕ) (field : String) → n < 2 ^ 32 → Reads {E = E} (read_u32_le field) (to_le 4 n) n
  unfolding read_u32_le
  Reads-read_u32_le n field h = Reads-le 4 n (λ x. x) field (omega arith)

  pub Reads-read_u64_le :
      (n : ℕ) (field : String) → n < 2 ^ 64 → Reads {E = E} (read_u64_le field) (to_le 8 n) n
  unfolding read_u64_le
  Reads-read_u64_le n field h = Reads-le 8 n (λ x. x) field (omega arith)

  pub Reads-read_i64_le :
      (z : ℤ) (field : String)
      → IsI64 z
      → Reads {E = E} (read_i64_le field) (to_le 8 (i64_bits z)) z
  unfolding read_i64_le
  Reads-read_i64_le z field h =
      Reads-cast refl (i64_of_bits-i64_bits z h)
        (Reads-le 8 (i64_bits z) i64_of_bits field (omega (arith, i64_bits-lt z h)))

  pub Reads-read_u16_prefixed_vec :
      (bs : List ℕ) (field : String)
      → length bs < 2 ^ 16
      → Reads {E = E} (read_u16_prefixed_vec field) (to_le 2 (length bs) ++ bs) bs
  unfolding read_u16_prefixed_vec
  Reads-read_u16_prefixed_vec bs field h =
      Reads-bind _ (Reads-read_u16_le (length bs) field h) (Reads-take _ bs field refl)

  pub Reads-read_u32_prefixed_vec :
      (bs : List ℕ) (field : String)
      → length bs < 2 ^ 32
      → Reads {E = E} (read_u32_prefixed_vec field) (to_le 4 (length bs) ++ bs) bs
  unfolding read_u32_prefixed_vec
  Reads-read_u32_prefixed_vec bs field h =
      Reads-bind _ (Reads-read_u32_le (length bs) field h) (Reads-take _ bs field refl)

-- The last read of a body, whose result goes into the value returned.
pub Reads-map :
    {E A B : Type 0} {m : Read E A} (g : A → B) {xs : List ℕ} {a : A}
    → Reads m xs a
    → Reads (m >>= λ x. pure (g x)) xs (g a)
Reads-map g {xs} h =
    Reads-cast (append-nil xs) refl (Reads-bind (λ x. pure (g x)) h (Reads-pure (g _)))

pub Reads-reject : {E : Type 0} (b : Bool) (e : E) → b ≡ false → Reads (reject b e) [] tt
unfolding reject
Reads-reject true e h = cc
Reads-reject false e h = Reads-pure tt

-- `m` succeeds with `a` where exactly `bs` is left to read.
pub record ReadsAll {E A : Type 0} (m : Read E A) (bs : List ℕ) (a : A) : Type 0 where
  pub at : (r : Reader) → unread r ≡ bs → drop_reader (m r) ≡ ok a

module _ {E : Type 0} where
  pub ReadsAll-bind :
      {A B : Type 0} {m : Read E A} (f : A → Read E B) {xs ys : List ℕ} {a : A} {b : B}
      → Reads m xs a
      → ReadsAll (f a) ys b
      → ReadsAll (m >>= f) (xs ++ ys) b
  ReadsAll-bind f {xs} {ys} hm hf = record {
    at = λ r e. rw (hm.at r ys e) (hf.at (advance (length xs) r) (unread-advance r xs ys e));
  }

  pub ReadsAll-end :
      {A B : Type 0} {m : Read E A} (f : A → Read E B) {xs : List ℕ} {a : A} {b : B}
      → Reads m xs a
      → ReadsAll (f a) [] b
      → ReadsAll (m >>= f) xs b
  ReadsAll-end {m} f {xs} {b = b} hm hf =
      subst (λ l. ReadsAll (m >>= f) l b) (append-nil xs) (ReadsAll-bind f hm hf)

  pub ReadsAll-pure : {A : Type 0} (a : A) (bs : List ℕ) → ReadsAll {E = E} (pure a) bs a
  ReadsAll-pure a bs = record { at = λ r e. refl }

  pub ReadsAll-lift :
      {A : Type 0} (m : Result E A) (a : A) (bs : List ℕ) → m ≡ ok a → ReadsAll (lift m) bs a
  ReadsAll-lift (ok b) a bs h = record { at = λ r e. h }
  ReadsAll-lift (err b) a bs h = cc

  pub ReadsAll-eof :
      ⦃fail : ReadErrors E⦄ {A : Type 0} (k : Read E A) {a : A}
      → ReadsAll k [] a
      → ReadsAll (expect_eof >> k) [] a
  unfolding expect_eof
  ReadsAll-eof k h = record {
    at = λ r e.
        let empty : remaining r ≡ 0 = remaining-unread r ∙ ap length e in rw empty (h.at r e);
  }

  pub run-ReadsAll :
      {A : Type 0} (m : Read E A) (bs : List ℕ) (a : A) → ReadsAll m bs a → run m bs ≡ ok a
  unfolding new
  run-ReadsAll m bs a h = h.at (new bs) refl
