-- ===== src/Core/Lockout.antt =====
-- crates/passman-core/src/lockout.rs: the advisory timer. A timestamp is whole seconds (u64), a
-- duration is in seconds.
mod Examples
use passman.Prelude.{
  ℕ, zero, suc, ◌+◌, ◌-◌, ◌*◌, ◌^◌, ◌<◌, ◌≤◌, ◌≡◌, min, max, Option, none, some, Bool, true, false,
  ltb, leb, ◌==◌, if◌then◌else◌, arith, tests, ◌↔◌, ◌⊎◌, inl, inr, refl, ap, ◌∙◌, Bool-cases,
}
use native.Mathlib.Nat.{pow-le-pow_right, one-le-pow}
use passman.Prelude.Int.{ℤ, pos, negsuc}

abbrev pub secs_per_min : ℕ
secs_per_min = 60

abbrev pub max_lockout_min : ℕ
max_lockout_min = 1440

abbrev pub free_attempts : ℕ
free_attempts = 3

abbrev pub cap_at_attempts : ℕ
cap_at_attempts = 11

abbrev u64_max : ℕ
u64_max = 2 ^ 64 - 1

-- The shift is by at most 7.
unfoldable pub lockout_minutes : ℕ → ℕ
lockout_minutes counter =
    if ltb counter free_attempts
    then 0
    else if leb cap_at_attempts counter
    then max_lockout_min
    else min (10 * 2 ^ (counter - free_attempts)) max_lockout_min

pub record LockoutState : Type 0 where
  pub counter : ℕ
  pub last_failure : ℤ

-- From `last`, a failure time that is positive and was converted to u64.
unfoldable pub remaining_from : ℕ → ℕ → ℕ → Option ℕ
remaining_from window_secs last now_secs =
    let unlock_at = min (last + window_secs) u64_max in
    if leb unlock_at now_secs
    then none
    else if ltb now_secs last
    then some window_secs
    else some (unlock_at - now_secs)

unfoldable pub remaining_since : ℤ → ℕ → ℕ → Option ℕ
unfolding remaining_from
remaining_since (negsuc n) window_secs now = none
remaining_since (pos zero) window_secs now = none
remaining_since (pos (suc n)) window_secs now = remaining_from window_secs (suc n) now

unfoldable pub remaining : LockoutState → ℕ → Option ℕ
remaining s now =
    let window_min = lockout_minutes s.counter in
    if window_min == 0
    then none
    else remaining_since s.last_failure (min (window_min * secs_per_min) u64_max) now

-- `i64::try_from(now).unwrap_or(i64::MAX)` and a saturating increment.
unfoldable pub after_failure : LockoutState → ℕ → LockoutState
after_failure s now = record {
  counter = min (s.counter + 1) u64_max;
  last_failure = pos (min now (2 ^ 63 - 1));
}

unfoldable pub reset : LockoutState
reset = record { counter = 0; last_failure = pos 0 }

-- A clock behind the failure counts as one at the failure.
left :
    (k now window : ℕ)
    → (if leb (suc k + window) now
        then none
        else if ltb now (suc k)
        then some window
        else some (suc k + window - now))
      ≡ (if leb (suc k + window) now then none else some (suc k + window - max now (suc k)))
left k now window = elim (Bool-cases (ltb now (suc k))) [
  | inl e ↦ rw e (ap (λ n. if leb (suc k + window) now then none else some n) (omega (tests, e)))
  | inr e ↦ rw e (ap (λ n. if leb (suc k + window) now then none else some n) (omega (tests, e)))
]

from_failure :
    (m failed_at now window : ℕ)
    → 10 ≤ m
    → m ≤ 1440
    → failed_at < 2 ^ 63
    → window ≡ 60 * m
    → (if m == 0
        then none
        else remaining_since
            (pos (min failed_at (2 ^ 63 - 1)))
            (min (m * secs_per_min) u64_max)
            now)
      ≡ (if failed_at == 0
          then none
          else if leb (failed_at + window) now
          then none
          else some (failed_at + window - max now failed_at))
unfolding remaining_since remaining_from
from_failure m zero now window ten day early w = ground arith
from_failure m (suc k) now window ten day early w =
    let locked : (m == 0) ≡ false = ground arith in
    let time : min (suc k) (2 ^ 63 - 1) ≡ suc k = omega arith in
    let size : min (m * secs_per_min) u64_max ≡ window = omega arith in
    let unlock : min (suc k + window) u64_max ≡ suc k + window = omega arith in
    let positive : (suc k == 0) ≡ false = ground arith in
    rw locked (rw time (rw size (rw unlock (rw positive (left k now window)))))

-- More failures never shorten the window, and it is at most a day.
pub lockout_minutes_mono :
    (n m : ℕ)
    → n ≤ m
    → (lockout_minutes n ≤ lockout_minutes m) × (lockout_minutes m ≤ max_lockout_min)
unfolding lockout_minutes
lockout_minutes_mono n m h =
    let powers : 2 ^ (n - 3) ≤ 2 ^ (m - 3) =
      pow-le-pow_right {n = 2} (omega arith) {i = n - 3} {j = m - 3} (omega arith) in
    (ground (arith, powers), ground arith)

-- The third failure and each one after it locks for ten minutes at least.
pub lockout_minutes-at-least_ten : (n : ℕ) → 3 ≤ n → 10 ≤ lockout_minutes n
unfolding lockout_minutes
lockout_minutes-at-least_ten n h = ground (arith, one-le-pow (n - 3) 2 (omega arith))

-- After a failure at a clock below 2 ^ 63 seconds, with two failures or more before it, the vault stays
-- locked until the window of that count, which is not empty, has passed, for exactly what is left of it,
-- and is not locked then; a later clock that is behind the failure counts as one at the failure, so that
-- the whole window is left. A failure at the clock 0 is the exception: it is stored as no failure, and
-- locks nothing at any time.
pub remaining-after_failure :
    (s : LockoutState) (failed_at now window : ℕ)
    → 2 ≤ s.counter
    → failed_at < 2 ^ 63
    → window ≡ 60 * lockout_minutes (after_failure s failed_at).counter
    → (0 < window)
      × (remaining (after_failure s failed_at) now ≡ (
          if failed_at == 0
          then none
          else if leb (failed_at + window) now
          then none
          else some (failed_at + window - max now failed_at)))
unfolding remaining after_failure
remaining-after_failure s failed_at now window two early w =
    let c = min (s.counter + 1) u64_max in
    let ten = lockout_minutes-at-least_ten c (omega arith) in
    let day = (lockout_minutes_mono c c (omega arith)).1 in
    (omega arith, from_failure (lockout_minutes c) failed_at now window ten day early w)
