-- ===== src/Core/Lockout/Examples.antt =====
-- The schedule of crates/passman-core/src/lockout.rs at its first steps, and the theorems at a failure.
use passman.Prelude.{
  ◌+◌, ◌-◌, ◌*◌, ◌<◌, ◌≡◌, max, refl, none, some, arith, leb, ◌==◌, if◌then◌else◌,
}
use passman.Prelude.Int.{pos}
use passman.Core.Lockout.{
  lockout_minutes, LockoutState, remaining, remaining_since, remaining_from, after_failure, reset,
  remaining-after_failure,
}

minutes_third : lockout_minutes 3 ≡ 10
unfolding lockout_minutes
minutes_third = refl

minutes_tenth : lockout_minutes 10 ≡ 1280
unfolding lockout_minutes
minutes_tenth = refl

minutes_eleventh : lockout_minutes 11 ≡ 1440
unfolding lockout_minutes
minutes_eleventh = refl

reset_unlocked : remaining reset 5 ≡ none
unfolding remaining reset lockout_minutes
reset_unlocked = refl

abbrev third : LockoutState
third = record { counter = 2; last_failure = pos 900 }

locked_for : remaining (after_failure third 1000) 1100 ≡ some 500
unfolding remaining after_failure lockout_minutes remaining_since remaining_from
locked_for = refl

-- The clock is moved back before the failure.
clock_back : remaining (after_failure third 1000) 40 ≡ some 600
unfolding remaining after_failure lockout_minutes remaining_since remaining_from
clock_back = refl

-- The third failure at a clock of 0, and a guess at the same clock: nothing waits.
clock_zero : remaining (after_failure third 0) 0 ≡ none
unfolding remaining after_failure lockout_minutes remaining_since
clock_zero = refl

window : 600 ≡ 60 * lockout_minutes (after_failure third 1000).counter
unfolding lockout_minutes after_failure
window = refl

remaining-after_failure_example :
    (0 < 600)
    × (remaining (after_failure third 1000) 1100 ≡ (
        if 1000 == 0
        then none
        else if leb (1000 + 600) 1100
        then none
        else some (1000 + 600 - max 1100 1000)))
remaining-after_failure_example =
    remaining-after_failure third 1000 1100 600 (omega arith) (omega arith) window
