-- ===== src/Bitops/Rounds.antt =====
-- redis/src/bitops.c: the rounds of `popcount`, and then the remaining bytes.
use coffee_table.Prelude.{
  ℕ, zero, suc, ◌+◌, ◌*◌, ◌/◌, ◌≤◌, ◌≡◌, refl, ◌∙◌, List, length, drop, length-drop, drop-drop,
  arith,
}
use coffee_table.Bitops.{ones_in_word, word, popcount_rounds, popcount_bytes, popcount}
use coffee_table.Bitops.Count.{AreBytes, all_ones, word_lem, bytes_dropped, popcount_bytes_lem}

word_after :
    (n : ℕ) (p : List ℕ)
    → AreBytes p
    → n + 4 ≤ length p
    → all_ones (drop n p) ≡ ones_in_word (word (drop n p)) + all_ones (drop (n + 4) p)
word_after n p h enough =
    word_lem (drop n p) (bytes_dropped n p h) (omega (arith, length-drop n p))
    ∙ rw (drop-drop 4 n p) refl

round_lem :
    (p : List ℕ)
    → AreBytes p
    → 16 ≤ length p
    → all_ones p
      ≡ ones_in_word (word p)
        + ones_in_word (word (drop 4 p))
        + ones_in_word (word (drop 8 p))
        + ones_in_word (word (drop 12 p))
        + all_ones (drop 16 p)
round_lem p h enough = omega (
  arith,
  word_after 0 p h (omega arith),
  word_after 4 p h (omega arith),
  word_after 8 p h (omega arith),
  word_after 12 p h (omega arith),
)

rounds_lem :
    (n : ℕ) (p : List ℕ)
    → AreBytes p
    → 16 * n ≤ length p
    → (popcount_rounds n p).0 + popcount_bytes (popcount_rounds n p).1 ≡ all_ones p
unfolding popcount_rounds
rounds_lem zero p h enough = omega (arith, popcount_bytes_lem p h)
rounds_lem (suc n) p h enough = omega (
  arith,
  round_lem p h (omega arith),
  rounds_lem n (drop 16 p) (bytes_dropped 16 p h) (omega (arith, length-drop 16 p)),
)

-- `popcount` of any number of bytes, with its sums of masked words and its table, is the number of
-- binary digits 1 of all the bytes.
pub popcount_lem : (p : List ℕ) → AreBytes p → popcount p ≡ all_ones p
unfolding popcount
popcount_lem p h = rounds_lem (length p / 16) p h (omega arith)
