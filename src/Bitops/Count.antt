-- ===== src/Bitops/Count.antt =====
-- redis/src/bitops.c: `popcount` counts the one bits.
use coffee_table.Prelude.{
  ℕ, zero, suc, ◌+◌, ◌-◌, ◌*◌, ◌/◌, ◌%◌, ◌^◌, ◌≤◌, ◌<◌, ◌≡◌, refl, ◌∙◌, List, [], ◌∷◌, get_or,
  length, drop, bit_and, arith,
}
use coffee_table.Bitops.{ones_in_word, word, popcount_bytes}
use coffee_table.Bitops.Word.{
  ones, pairs_of, halves_of, pairs_masked, pairs_le, halves_masked, halves_small, halves_count,
  low_half, table_ones, join, bit_and-join,
}

half-join :
    (a b c d : ℕ)
    → join a b c d / 2
      ≡ join
          (a / 2 + 128 * (b % 2))
          (b / 2 + 128 * (c % 2))
          (c / 2 + 128 * (d % 2))
          (d / 2 + 128 * 0)
half-join a b c d = omega arith

quarter-join :
    (a b c d : ℕ)
    → join a b c d / 4
      ≡ join (a / 4 + 64 * (b % 4)) (b / 4 + 64 * (c % 4)) (c / 4 + 64 * (d % 4)) (d / 4 + 64 * 0)
quarter-join a b c d = omega arith

sixteenth-join :
    (a b c d : ℕ)
    → join a b c d + join a b c d / 16
      ≡ join
          (a + a / 16 + 16 * (b % 16))
          (b + b / 16 + 16 * (c % 16))
          (c + c / 16 + 16 * (d % 16))
          (d + d / 16)
sixteenth-join a b c d = omega arith

pairs-join :
    (a b c d : ℕ)
    → a < 256
    → b < 256
    → c < 256
    → d < 256
    → (join a b c d + 2 ^ 32 - bit_and (join a b c d / 2) 0x55555555) % 2 ^ 32
      ≡ join (pairs_of a) (pairs_of b) (pairs_of c) (pairs_of d)
pairs-join a b c d ha hb hc hd =
    rw
      (
        half-join a b c d,
        bit_and-join (a / 2 + 128 * (b % 2)) (b / 2 + 128 * (c % 2)) (c / 2 + 128 * (d % 2))
            (d / 2 + 128 * 0) 0x55 0x55 0x55 0x55 (omega arith) (omega arith) (omega arith)
            (omega arith) (omega arith) (omega arith),
        pairs_masked a (b % 2) ha (omega arith),
        pairs_masked b (c % 2) hb (omega arith),
        pairs_masked c (d % 2) hc (omega arith),
        pairs_masked d 0 hd (omega arith),
      )
      (omega (arith, pairs_le a ha, pairs_le b hb, pairs_le c hc, pairs_le d hd))

halves-join :
    (a b c d : ℕ)
    → a < 256
    → b < 256
    → c < 256
    → d < 256
    → bit_and (join a b c d) 0x33333333 + bit_and (join a b c d / 4) 0x33333333
      ≡ join
          (bit_and a 0x33 + bit_and (a / 4) 0x33)
          (bit_and b 0x33 + bit_and (b / 4) 0x33)
          (bit_and c 0x33 + bit_and (c / 4) 0x33)
          (bit_and d 0x33 + bit_and (d / 4) 0x33)
halves-join a b c d ha hb hc hd =
    rw
      (
        quarter-join a b c d,
        bit_and-join (a / 4 + 64 * (b % 4)) (b / 4 + 64 * (c % 4)) (c / 4 + 64 * (d % 4))
            (d / 4 + 64 * 0) 0x33 0x33 0x33 0x33 (omega arith) (omega arith) (omega arith)
            (omega arith) (omega arith) (omega arith),
        bit_and-join a b c d 0x33 0x33 0x33 0x33 ha hb hc (omega arith) (omega arith) (omega arith),
        halves_masked a (b % 4) ha (omega arith),
        halves_masked b (c % 4) hb (omega arith),
        halves_masked c (d % 4) hc (omega arith),
        halves_masked d 0 hd (omega arith),
      )
      (omega arith)

abbrev AreHalves : ℕ → Type 0
AreHalves a = (a ≤ 68) × (a % 16 ≤ 4)

low-join :
    (a b c d : ℕ)
    → AreHalves a
    → AreHalves b
    → AreHalves c
    → AreHalves d
    → bit_and ((join a b c d + join a b c d / 16) % 2 ^ 32) 0x0f0f0f0f
      ≡ join
          ((a + a / 16 + 16 * (b % 16)) % 16)
          ((b + b / 16 + 16 * (c % 16)) % 16)
          ((c + c / 16 + 16 * (d % 16)) % 16)
          ((d + d / 16) % 16)
low-join a b c d (ha, ha') (hb, hb') (hc, hc') (hd, hd') =
    let a1 : a + a / 16 + 16 * (b % 16) < 256 = omega arith in
    let b1 : b + b / 16 + 16 * (c % 16) < 256 = omega arith in
    let c1 : c + c / 16 + 16 * (d % 16) < 256 = omega arith in
    let d1 : d + d / 16 < 256 = omega arith in
    let whole : (join a b c d + join a b c d / 16) % 2 ^ 32
        ≡ join (a + a / 16 + 16 * (b % 16)) (b + b / 16 + 16 * (c % 16))
            (c + c / 16 + 16 * (d % 16)) (d + d / 16) =
      rw (sixteenth-join a b c d) (omega arith) in
    rw
      (
        whole,
        bit_and-join (a + a / 16 + 16 * (b % 16)) (b + b / 16 + 16 * (c % 16))
            (c + c / 16 + 16 * (d % 16)) (d + d / 16) 0x0f 0x0f 0x0f 0x0f a1 b1 c1 (omega arith)
            (omega arith) (omega arith),
        low_half (a + a / 16 + 16 * (b % 16)) a1,
        low_half (b + b / 16 + 16 * (c % 16)) b1,
        low_half (c + c / 16 + 16 * (d % 16)) c1,
        low_half (d + d / 16) d1,
      )
      refl

-- the multiplication adds up the four counts in the highest byte
sum-join :
    (a b c d : ℕ)
    → AreHalves a
    → AreHalves b
    → AreHalves c
    → AreHalves d
    → bit_and ((join a b c d + join a b c d / 16) % 2 ^ 32) 0x0f0f0f0f
        * 0x01010101
        % 2 ^ 32
        / 2 ^ 24
      ≡ (a + a / 16) % 16 + (b + b / 16) % 16 + (c + c / 16) % 16 + (d + d / 16) % 16
sum-join a b c d ha hb hc hd = rw (low-join a b c d ha hb hc hd) (omega arith)

joined_small :
    (a b c d : ℕ) → a ≤ 68 → b ≤ 68 → c ≤ 68 → d ≤ 68 → join a b c d % 2 ^ 32 ≡ join a b c d
joined_small a b c d ha hb hc hd = omega arith

ones_in_word-join :
    (a b c d : ℕ)
    → a < 256
    → b < 256
    → c < 256
    → d < 256
    → ones_in_word (join a b c d) ≡ ones a + ones b + ones c + ones d
unfolding ones_in_word
ones_in_word-join a b c d ha hb hc hd =
    rw
      (
        pairs-join a b c d ha hb hc hd,
        halves-join (pairs_of a) (pairs_of b) (pairs_of c) (pairs_of d) (omega arith) (omega arith)
            (omega arith) (omega arith),
        joined_small (halves_of a) (halves_of b) (halves_of c) (halves_of d) (halves_small a ha).0
            (halves_small b hb).0 (halves_small c hc).0 (halves_small d hd).0,
        sum-join (halves_of a) (halves_of b) (halves_of c) (halves_of d) (halves_small a ha)
            (halves_small b hb) (halves_small c hc) (halves_small d hd),
        halves_count a ha,
        halves_count b hb,
        halves_count c hc,
        halves_count d hd,
      )
      refl

-- every element is a byte
abbrev pub AreBytes : List ℕ → Type 0
AreBytes [] = Unit {0}
AreBytes (b ∷ p) = (b < 256) × AreBytes p

-- the one bits of all the bytes
abbrev pub all_ones : List ℕ → ℕ
all_ones [] = 0
all_ones (b ∷ p) = ones b + all_ones p

pub popcount_bytes_lem : (p : List ℕ) → AreBytes p → popcount_bytes p ≡ all_ones p
popcount_bytes_lem [] h = refl
popcount_bytes_lem (b ∷ p) (hb, h) = rw (table_ones b hb, popcount_bytes_lem p h) refl

pub bytes_below : (p : List ℕ) (i : ℕ) → AreBytes p → get_or p i 0 < 256
bytes_below [] i h = omega arith
bytes_below (b ∷ p) zero (hb, h) = hb
bytes_below (b ∷ p) (suc i) (hb, h) = bytes_below p i h

pub bytes_dropped : (n : ℕ) (p : List ℕ) → AreBytes p → AreBytes (drop n p)
bytes_dropped zero p h = h
bytes_dropped (suc n) [] h = tt
bytes_dropped (suc n) (b ∷ p) (hb, h) = bytes_dropped n p h

first_four :
    (p : List ℕ)
    → 4 ≤ length p
    → all_ones p
      ≡ ones (get_or p 0 0)
        + ones (get_or p 1 0)
        + ones (get_or p 2 0)
        + ones (get_or p 3 0)
        + all_ones (drop 4 p)
first_four (a ∷ b ∷ c ∷ d ∷ p) h = omega arith
first_four (a ∷ b ∷ c ∷ []) h = absurd (omega arith)
first_four (a ∷ b ∷ []) h = absurd (omega arith)
first_four (a ∷ []) h = absurd (omega arith)
first_four [] h = absurd (omega arith)

-- a word counted, of the bytes that are left
pub word_lem :
    (p : List ℕ)
    → AreBytes p
    → 4 ≤ length p
    → all_ones p ≡ ones_in_word (word p) + all_ones (drop 4 p)
word_lem p h enough =
    first_four p enough
    ∙ rw
        (ones_in_word-join (get_or p 0 0) (get_or p 1 0) (get_or p 2 0) (get_or p 3 0)
          (bytes_below p 0 h) (bytes_below p 1 h) (bytes_below p 2 h) (bytes_below p 3 h))
        refl
