-- ===== src/Strings/Counters.antt =====
-- redis/src/t_string.c: the overflow test of `incrDecrCommand`, and the bounds of `getrangeCommand`.
use coffee_table.Prelude.{
  [], ℕ, ◌+◌, ◌^◌, ◌≤◌, ◌<◌, ◌≡◌, refl, true, false, not, some, List, arith, length, leb,
  Bool-cases, inl, inr, take, drop,
}
use coffee_table.Prelude.Int.{ℤ, pos, negsuc, ltb_ℤ, pos_part, neg_part, ◌+ℤ◌, ◌-ℤ◌}
use coffee_table.Util.{fits_long}
use coffee_table.Strings.{would_overflow}
use coffee_table.Strings.Ranges.{from_end, range_end, range}

-- For two long long numbers `incrDecrCommand` refuses exactly the increments whose sum is no long long.
pub would_overflow_lem :
    (incr oldvalue : ℤ)
    → fits_long incr ≡ true
    → fits_long oldvalue ≡ true
    → would_overflow incr oldvalue ≡ not (fits_long (oldvalue +ℤ incr))
unfolding would_overflow ◌+ℤ◌ ◌-ℤ◌
would_overflow_lem (pos a) (pos b) h k = ground arith
would_overflow_lem (pos a) (negsuc b) h k = ground arith
would_overflow_lem (negsuc a) (pos b) h k = ground arith
would_overflow_lem (negsuc a) (negsuc b) h k = ground arith

start_nonneg : (n : ℕ) (i : ℤ) → neg_part (from_end n i) ≡ 0
unfolding ◌+ℤ◌
start_nonneg n (pos a) = ground arith
start_nonneg n (negsuc a) = ground arith

end_below :
    (n : ℕ) (i : ℤ)
    → n < 2 ^ 32
    → ltb_ℤ i (pos (2 ^ 32)) ≡ true
    → pos_part (range_end n i) + 1 ≤ n + neg_part (range_end n i)
unfolding range_end ◌+ℤ◌ ◌-ℤ◌
end_below n (pos a) h k = ground arith
end_below n (negsuc a) h k = ground arith

span_fits :
    (n : ℕ) (a b : ℤ)
    → neg_part a ≡ 0
    → pos_part b + 1 ≤ n + neg_part b
    → ltb_ℤ b a ≡ false
    → leb (pos_part a + (pos_part (b -ℤ a) + 1)) n ≡ true
unfolding ◌-ℤ◌
span_fits n (pos a) (pos b) h k e = ground arith
span_fits n (pos a) (negsuc b) h k e = ground arith
span_fits n (negsuc a) b h k e = ground arith

-- For a string below 4 GB and an end below 2 ^ 32, whatever the start and however negative the end,
-- `getrangeCommand` never reads outside the string: it replies some of its bytes.
pub range_stays_inside :
    (s : List ℕ) (start end : ℤ)
    → length s < 2 ^ 32
    → ltb_ℤ end (pos (2 ^ 32)) ≡ true
    → (bytes : List ℕ) × (range s start end ≡ some bytes)
unfolding range
range_stays_inside s start end small low =
    let first = from_end (length s) start in
    let last = range_end (length s) end in
    elim (Bool-cases (ltb_ℤ last first)) [
      | inl e ↦ ([], rw e refl)
      | inr e ↦ (
        take (pos_part (last -ℤ first) + 1) (drop (pos_part first) s),
        rw
            (
              e,
              span_fits (length s) first last (start_nonneg (length s) start)
                  (end_below (length s) end small low) e,
            )
            refl,
      )
    ]
