-- ===== src/Reader/Parses.antt =====
-- Reads that invert an encoding: a result `a` was read from exactly `enc a`, and satisfies `P`.
use passman.Prelude.{
  ℕ, ◌^◌, ◌≡◌, sym, subst, String, List, ◌++◌, Bool, false, length, to_le, IsArray, IsBlob,
}
use passman.Reader.{
  ReadErrors, Read, ◌>>=◌, ◌>>◌, reject, take, take_array, read_u16_prefixed_vec,
  read_u32_prefixed_vec,
}
use passman.Reader.Consumes.{
  Consumes, ConsumesAll, Consumes-bind, Consumes-weaken, Consumes-reject, ConsumesAll-bind,
  Consumes-take, Consumes-read_u16_prefixed_vec, Consumes-read_u32_prefixed_vec,
}

abbrev pub Parses : {E A : Type 0} → Read E A → (A → List ℕ) → (A → Type 0) → Type 0
Parses m enc P = Consumes m (λ a xs. (enc a ≡ xs) × P a)

module _ {E : Type 0} where
  pub ConsumesAll-parses :
      {A B : Type 0} (m : Read E A) (f : A → Read E B) (enc : A → List ℕ) (P : A → Type 0)
      {T : B → List ℕ → Type 0}
      → Parses m enc P
      → ((a : A) → P a → ConsumesAll (f a) (λ b ys. T b (enc a ++ ys)))
      → ConsumesAll (m >>= f) T
  ConsumesAll-parses m f enc P {T} hm hf =
      ConsumesAll-bind m f hm
        λ a xs (e, pa). subst (λ l. ConsumesAll (f a) (λ b ys. T b (l ++ ys))) e (hf a pa)

  pub Consumes-parses :
      {A B : Type 0} (m : Read E A) (f : A → Read E B) (enc : A → List ℕ) (P : A → Type 0)
      {T : B → List ℕ → Type 0}
      → Parses m enc P
      → ((a : A) → P a → Consumes (f a) (λ b ys. T b (enc a ++ ys)))
      → Consumes (m >>= f) T
  Consumes-parses m f enc P {T} hm hf =
      Consumes-bind m f hm
        λ a xs (e, pa). subst (λ l. Consumes (f a) (λ b ys. T b (l ++ ys))) e (hf a pa)

  pub ConsumesAll-reject :
      {B : Type 0} (b : Bool) (e : E) (k : Read E B) {T : B → List ℕ → Type 0}
      → (b ≡ false → ConsumesAll k T)
      → ConsumesAll (reject b e >> k) T
  ConsumesAll-reject b e k {T} h =
      ConsumesAll-bind _ _ (Consumes-reject b e) λ u xs (off, none_read).
        subst (λ l. ConsumesAll k (λ x ys. T x (l ++ ys))) (sym none_read) (h off)

  pub Consumes-rejected :
      {B : Type 0} (b : Bool) (e : E) (k : Read E B) {T : B → List ℕ → Type 0}
      → (b ≡ false → Consumes k T)
      → Consumes (reject b e >> k) T
  Consumes-rejected b e k {T} h = Consumes-bind _ _ (Consumes-reject b e) λ u xs (off, none_read).
      subst (λ l. Consumes k (λ x ys. T x (l ++ ys))) (sym none_read) (h off)

module _ {E : Type 0} ⦃fail : ReadErrors E⦄ where
  pub Parses-take : (n : ℕ) (field : String) → Parses {E = E} (take n field) (λ a. a) (IsArray n)
  Parses-take n field = Consumes-weaken (Consumes-take n field) λ a xs (e, size, bytes).
      (e, subst (IsArray n) (sym e) (record { size = size; bytes = bytes }))

  pub Parses-take_array :
      (n : ℕ) (field : String) → Parses {E = E} (take_array n field) (λ a. a) (IsArray n)
  unfolding take_array
  Parses-take_array n field = Parses-take n field

  pub Parses-read_u16_prefixed_vec :
      (field : String)
      → Parses {E = E}
          (read_u16_prefixed_vec field)
          (λ bs. to_le 2 (length bs) ++ bs)
          (IsBlob (2 ^ 16))
  Parses-read_u16_prefixed_vec field =
      Consumes-weaken (Consumes-read_u16_prefixed_vec field)
        λ a xs (e, size, bytes). (e, record { size = size; bytes = bytes })

  pub Parses-read_u32_prefixed_vec :
      (field : String)
      → Parses {E = E}
          (read_u32_prefixed_vec field)
          (λ bs. to_le 4 (length bs) ++ bs)
          (IsBlob (2 ^ 32))
  Parses-read_u32_prefixed_vec field =
      Consumes-weaken (Consumes-read_u32_prefixed_vec field)
        λ a xs (e, size, bytes). (e, record { size = size; bytes = bytes })
