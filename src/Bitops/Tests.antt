-- ===== src/Bitops/Tests.antt =====
-- The theorems on redis/src/bitops.c at concrete inputs.
use coffee_table.Prelude.{ℕ, ◌≡◌, List, [], ◌∷◌, if◌then◌else◌, ◌==◌, arith}
use coffee_table.Bitops.{popcount, get_bit, set_bit}
use coffee_table.Bitops.Count.{AreBytes, all_ones}
use coffee_table.Bitops.Rounds.{popcount_lem}
use coffee_table.Bitops.Setbit.{set_bit_lem}

-- a round of sixteen bytes, and two more
abbrev eighteen : List ℕ
eighteen =
    1 ∷ 2 ∷ 3 ∷ 255 ∷ 128 ∷ 64 ∷ 170 ∷ 85 ∷ 0 ∷ 7 ∷ 15 ∷ 31 ∷ 200 ∷ 201 ∷ 254 ∷ 17 ∷ 99 ∷ 240 ∷ []

eighteen-AreBytes : AreBytes eighteen
eighteen-AreBytes = (
  omega arith,
  (
    omega arith,
    (
      omega arith,
      (
        omega arith,
        (
          omega arith,
          (
            omega arith,
            (
              omega arith,
              (
                omega arith,
                (
                  omega arith,
                  (
                    omega arith,
                    (
                      omega arith,
                      (
                        omega arith,
                        (
                          omega arith,
                          (
                            omega arith,
                            (omega arith, (omega arith, (omega arith, (omega arith, tt)))),
                          ),
                        ),
                      ),
                    ),
                  ),
                ),
              ),
            ),
          ),
        ),
      ),
    ),
  ),
)

popcount_lem_example : popcount eighteen ≡ all_ones eighteen
popcount_lem_example = popcount_lem eighteen eighteen-AreBytes

eighteen_count : popcount eighteen ≡ 58
eighteen_count = popcount_lem_example

-- a bit behind the end of two bytes
set_bit_lem_example :
    ((set_bit (1 ∷ 255 ∷ []) 30 1).1 ≡ get_bit (1 ∷ 255 ∷ []) 30)
    × ((p : ℕ)
        → get_bit (set_bit (1 ∷ 255 ∷ []) 30 1).0 p
          ≡ (if 30 == p then 1 == 1 else get_bit (1 ∷ 255 ∷ []) p))
set_bit_lem_example = set_bit_lem (1 ∷ 255 ∷ []) 30 1 (omega arith, (omega arith, tt)) (omega arith)
