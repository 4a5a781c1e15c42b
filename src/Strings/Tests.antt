-- ===== src/Strings/Tests.antt =====
-- The theorems on redis/src/t_string.c at concrete inputs, and a few runs.
use coffee_table.Prelude.{ℕ, ◌^◌, ◌≡◌, refl, false, not, none, some, List, [], ◌∷◌, arith}
use coffee_table.Prelude.Int.{ℤ, pos, negsuc, ◌+ℤ◌, ◌-ℤ◌}
use coffee_table.Util.{fits_long, llong_max}
use coffee_table.Object.{raw}
use coffee_table.Db.Fixture.{number_keys}
use coffee_table.Strings.{would_overflow}
use coffee_table.Strings.Ranges.{range, range_end}
use coffee_table.Strings.Counters.{would_overflow_lem, range_stays_inside}
use coffee_table.Strings.Calls.{Call, call_set, call_expire, call_rename, call_append, call_incr}

abbrev forty_two : List ℕ
forty_two = 52 ∷ 50 ∷ []

-- a key set, given ten seconds, renamed, appended to and counted
abbrev busy_day : List (ℤ × Call ℕ)
busy_day =
    (pos 100, call_set false 1 (raw forty_two))
    ∷ (pos 110, call_expire 1 (raw (49 ∷ 48 ∷ [])))
    ∷ (pos 120, call_rename false 1 2)
    ∷ (pos 130, call_append false 2 forty_two)
    ∷ (pos 99999, call_incr 2)
    ∷ []

would_overflow_lem_example :
    would_overflow (pos 1) (pos llong_max) ≡ not (fits_long (pos llong_max +ℤ pos 1))
would_overflow_lem_example = would_overflow_lem (pos 1) (pos llong_max) refl refl

range_stays_inside_example : (bytes : List ℕ) × (range forty_two (negsuc 8) (pos 77) ≡ some bytes)
range_stays_inside_example = range_stays_inside forty_two (negsuc 8) (pos 77) (omega arith) refl

-- an end of 2 ^ 32 counts as 0 in the test against the length, so that the reply reads on behind it
range_outside : range forty_two (pos 0) (pos (2 ^ 32)) ≡ none
unfolding range range_end ◌-ℤ◌
range_outside = refl
