-- ===== src/Vault/Toy.antt =====
-- A value of `Postcard` with its law, for concrete runs: it serializes the rows with default policies.
use passman.Prelude.{
  ℕ, zero, suc, ◌≡◌, refl, sym, ap, ap₂, subst, List, [], ◌∷◌, ◌++◌, Option, none, some,
  some-injective, Bool, true, false, length, take, drop, take-append, drop-append, if◌then◌else◌,
  Bool-cases, inl, inr,
}
use passman.Policy.Request.{EntryPolicy, default_policy, RequiredClasses}
use passman.Policy.Charset.{Charset}
use passman.Vault.Index.{Index, IndexEntry}
use passman.Vault.Postcard.{Postcard, IsPostcard}

unfoldable pub all_none :
    Option ℕ → Option Charset → Option RequiredClasses → Option (List ℕ) → Bool
all_none none none none none = true
all_none _ _ _ _ = false

pub all_none-eq :
    (a : Option ℕ) (b : Option Charset) (c : Option RequiredClasses) (d : Option (List ℕ))
    → all_none a b c d ≡ true
    → record { length = a; charset_override = b; required_classes_override = c; user_note = d }
      ≡ default_policy
unfolding all_none
all_none-eq none none none none h = refl
all_none-eq none none none (some d) h = cc
all_none-eq none none (some c) d h = cc
all_none-eq none (some b) c d h = cc
all_none-eq (some a) b c d h = cc

unfoldable pub is_default : EntryPolicy → Bool
unfolding all_none
is_default p = all_none p.length p.charset_override p.required_classes_override p.user_note

-- A row, before the bytes of the others.
unfoldable pub push_row : IndexEntry → Option (List ℕ) → Option (List ℕ)
unfolding is_default
push_row e none = none
push_row e (some more) =
    if is_default e.policy
    then some (length e.id ∷ e.id ++ (length e.label ∷ e.label ++ more))
    else none

unfoldable pub row_bytes : Index → Option (List ℕ)
unfolding push_row
row_bytes [] = some []
row_bytes (e ∷ rest) = push_row e (row_bytes rest)

unfoldable pub counted : ℕ → Option (List ℕ) → Option (List ℕ)
counted n none = none
counted n (some bytes) = some (n ∷ bytes)

unfoldable pub to_stdvec_toy : Index → Option (List ℕ)
unfolding row_bytes counted
to_stdvec_toy rows = counted (length rows) (row_bytes rows)

-- A part behind its length, and what follows.
unfoldable pub part : List ℕ → List ℕ × List ℕ
part [] = ([], [])
part (n ∷ bytes) = (take n bytes, drop n bytes)

unfoldable pub read_rows : ℕ → List ℕ → Index
unfolding part
read_rows zero bytes = []
read_rows (suc n) bytes =
    let (id, behind) = part bytes in
    let (label, rest) = part behind in
    record { id = id; label = label; policy = default_policy } ∷ read_rows n rest

unfoldable pub from_bytes_toy : List ℕ → Option Index
unfolding read_rows
from_bytes_toy [] = none
from_bytes_toy (n ∷ bytes) = some (read_rows n bytes)

row-eq :
    (e : IndexEntry)
    → is_default e.policy ≡ true
    → record { id = e.id; label = e.label; policy = default_policy } ≡ e
unfolding is_default
row-eq e h =
    ap (λ p. record { id = e.id; label = e.label; policy = p })
      (sym (
        all_none-eq e.policy.length e.policy.charset_override e.policy.required_classes_override
          e.policy.user_note h))

none≢some : {x : List ℕ} → Path (Option (List ℕ)) none (some x) → ⊥
none≢some p = cc

read_rows-row_bytes :
    (rows : Index) (bytes : List ℕ)
    → row_bytes rows ≡ some bytes
    → read_rows (length rows) bytes ≡ rows
unfolding read_rows row_bytes push_row part
read_rows-row_bytes [] bytes h = refl
read_rows-row_bytes (e ∷ rest) bytes h = pushed (row_bytes rest) h (read_rows-row_bytes rest)
  where
    pushed :
        (o : Option (List ℕ))
        → push_row e o ≡ some bytes
        → ((more : List ℕ) → o ≡ some more → read_rows (length rest) more ≡ rest)
        → read_rows (suc (length rest)) bytes ≡ e ∷ rest
    pushed none k ih = cc
    pushed (some more) k ih = elim (Bool-cases (is_default e.policy)) [
      | inl d ↦
          subst (λ z. read_rows (suc (length rest)) z ≡ e ∷ rest) (some-injective _ _ (rw d at k))
            (rw (take-append, drop-append)
              (rw (take-append, drop-append) (ap₂ ◌∷◌ (row-eq e d) (ih more refl))))
      | inr d ↦ absurd (none≢some (rw d at k))
    ]

instance abbrev pub toy_postcard : Postcard
toy_postcard = record { to_stdvec = to_stdvec_toy; from_bytes = from_bytes_toy }

pub toy_postcard-IsPostcard : IsPostcard toy_postcard
unfolding counted from_bytes_toy to_stdvec_toy
toy_postcard-IsPostcard = record {
  from_bytes-to_stdvec = λ rows bytes h. reads rows bytes (row_bytes rows) refl h;
}
  where
    reads :
        (rows : Index) (bytes : List ℕ) (o : Option (List ℕ))
        → row_bytes rows ≡ o
        → counted (length rows) o ≡ some bytes
        → from_bytes_toy bytes ≡ some rows
    reads rows bytes none q h = cc
    reads rows bytes (some more) q h =
        subst (λ z. from_bytes_toy z ≡ some rows) (some-injective _ _ h)
          (ap some (read_rows-row_bytes rows more q))
