-- ===== src/Totp/Verifier/Scan.antt =====
-- What the scan of crates/passman-totp/src/verifier.rs finds.
use passman.Prelude.{
  ℕ, zero, suc, ◌+◌, ◌<◌, ◌≤◌, ◌≡◌, ◌⊎◌, sym, ap, ◌∙◌, subst, List, Option, none, some,
  some-injective, true, false, arith, Bool-cases, Option-cases, ◌↔◌, ◌==◌, ==→eq, eq→==, ltb,
  ltb→lt, ltb→ge, inl, inr,
}
use passman.Crypto.Aead.{ct_eq, ct_eq→eq, ct_eq_refl}
use passman.Totp.{TotpConfig}
use passman.Totp.Hotp.{Hmac}
use passman.Totp.Verifier.{expected, scan}

from_or_above : (from k : ℕ) → from ≤ k → (from ≡ k) ⊎ (from < k)
from_or_above from k h = elim (Bool-cases (from == k)) [
  | inl e ↦ inl (==→eq from k e)
  | inr e ↦ inr (ground (arith, eq→== from k))
]

ordered : (a b : ℕ) → (a < b) ⊎ ((b < a) ⊎ (a ≡ b))
ordered a b = elim (Bool-cases (ltb a b)) [
  | inl e ↦ inl (ltb→lt a b e)
  | inr e ↦ elim (from_or_above b a (ltb→ge a b e)) [
    | inl same ↦ inr (inr (sym same))
    | inr less ↦ inr (inl less)
  ]
]

some≢none : {x : ℕ} → Path (Option ℕ) (some x) none → ⊥
some≢none e = cc

module _ ⦃h : Hmac⦄ (c : TotpConfig) (seed candidate : List ℕ) where
  abbrev pub Matches : ℕ → Type 0
  Matches step = candidate ≡ expected c seed step

  -- The last step of a range that matches.
  pub record IsLast (from to step : ℕ) : Type 0 where
    pub low : from ≤ step
    pub high : step < to
    pub code : Matches step
    pub later : (k : ℕ) → step < k → k < to → ¬ Matches k

  no_match : (k : ℕ) → ct_eq candidate (expected c seed k) ≡ false → ¬ Matches k
  no_match k e m = cc (subst (λ x. ct_eq candidate x ≡ true) m (ct_eq_refl candidate))

  earlier :
      (n from step : ℕ) → IsLast (suc from) (suc from + n) step → IsLast from (from + suc n) step
  earlier n from step l = record {
    low = omega (arith, l.low);
    high = omega (arith, l.high);
    code = l.code;
    later = λ k above below. l.later k above (omega arith);
  }

  -- A scan that starts with a match reports it unless a later one is found.
  scan-found :
      (n from : ℕ) (matched : Option ℕ) (step : ℕ)
      → scan c seed candidate n from matched ≡ some step
      → IsLast from (from + n) step
        ⊎ ((matched ≡ some step) × ((k : ℕ) → from ≤ k → k < from + n → ¬ Matches k))
  unfolding scan
  scan-found zero from matched step e = inr (e, λ k low high. absurd (omega arith))
  scan-found (suc n) from matched step e =
      elim (Bool-cases (ct_eq candidate (expected c seed from))) [
        | inl m ↦ elim (scan-found n (suc from) (some from) step (rw m at e)) [
          | inl l ↦ inl (earlier n from step l)
          | inr (same, none_left) ↦ inl (
              subst (IsLast from (from + suc n)) (some-injective from step same) (record {
                low = omega arith;
                high = omega arith;
                code = ct_eq→eq candidate (expected c seed from) m;
                later = λ k above below. none_left k above (omega arith);
              }))
        ]
        | inr m ↦ elim (scan-found n (suc from) matched step (rw m at e)) [
          | inl l ↦ inl (earlier n from step l)
          | inr (same, none_left) ↦ inr (
            same,
            λ k low high. elim (from_or_above from k low) [
              | inl at ↦ subst (λ z. ¬ Matches z) at (no_match from m)
              | inr above ↦ none_left k above (omega arith)
            ],
          )
        ]
      ]

  scan-none :
      (n from : ℕ) (matched : Option ℕ)
      → scan c seed candidate n from matched ≡ none
      → (matched ≡ none) × ((k : ℕ) → from ≤ k → k < from + n → ¬ Matches k)
  unfolding scan
  scan-none zero from matched e = (e, λ k low high. absurd (omega arith))
  scan-none (suc n) from matched e = elim (Bool-cases (ct_eq candidate (expected c seed from))) [
    | inl m ↦ absurd (some≢none (scan-none n (suc from) (some from) (rw m at e)).0)
    | inr m ↦
        let (same, none_left) = scan-none n (suc from) matched (rw m at e) in
        (
          same,
          λ k low high. elim (from_or_above from k low) [
            | inl at ↦ subst (λ z. ¬ Matches z) at (no_match from m)
            | inr above ↦ none_left k above (omega arith)
          ],
        )
  ]

  IsLast-unique : (from to a b : ℕ) → IsLast from to a → IsLast from to b → a ≡ b
  IsLast-unique from to a b p q = elim (ordered a b) [
    | inl below ↦ absurd (p.later b below q.high q.code)
    | inr (inl above) ↦ absurd (q.later a above p.high p.code)
    | inr (inr same) ↦ same
  ]

  -- The scan from an empty record finds a step exactly where that step is the last match.
  pub scan_iff :
      (n from step : ℕ)
      → (scan c seed candidate n from none ≡ some step) ↔ IsLast from (from + n) step
  scan_iff n from step = (
    λ e. elim (scan-found n from none step e) [
      | inl l ↦ l
      | inr (same, _) ↦ absurd (some≢none (sym same))
    ],
    λ l. elim (Option-cases (scan c seed candidate n from none)) [
      | inl e ↦ absurd ((scan-none n from none e).1 step l.low l.high l.code)
      | inr (k, e) ↦ elim (scan-found n from none k e) [
        | inl l' ↦ e ∙ ap some (IsLast-unique from (from + n) k step l' l)
        | inr (same, _) ↦ absurd (some≢none (sym same))
      ]
    ],
  )
