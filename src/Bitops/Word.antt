-- ===== src/Bitops/Word.antt =====
-- redis/src/bitops.c: a round of `popcount` counts the one bits of four bytes.
use coffee_table.Prelude.{
  ℕ, zero, suc, ◌+◌, ◌-◌, ◌*◌, ◌/◌, ◌%◌, ◌≤◌, ◌<◌, ◌≡◌, refl, ap, Bool, true, ◌&&◌, get_or, leb,
  ◌==◌, ==_iff, bit_and, arith,
}
use coffee_table.Prelude.Bits.{bit_and-bytes, both_right, holds_under, holds_at}
use coffee_table.Bitops.{bits_in_byte}

-- the binary digits of a byte
abbrev pub ones : ℕ → ℕ
ones b =
    b % 2 + b / 2 % 2 + b / 4 % 2 + b / 8 % 2 + b / 16 % 2 + b / 32 % 2 + b / 64 % 2 + b / 128 % 2

-- the two steps on one byte: the digits of each pair counted, then of each half
abbrev pub pairs_of : ℕ → ℕ
pairs_of b = b - bit_and (b / 2) 0x55

abbrev pub halves_of : ℕ → ℕ
halves_of b = bit_and (pairs_of b) 0x33 + bit_and (pairs_of b / 4) 0x33

-- what the four bytes need of each byte, decided on all of them
abbrev pairs_fit : ℕ → Bool
pairs_fit b = (bit_and (b / 2 + 128) 0x55 == bit_and (b / 2) 0x55) && leb (bit_and (b / 2) 0x55) b

abbrev halves_fit : ℕ → Bool
halves_fit b =
    (bit_and (b / 4 + 64) 0x33 == bit_and (b / 4) 0x33)
    && (bit_and (b / 4 + 128) 0x33 == bit_and (b / 4) 0x33)
    && (bit_and (b / 4 + 192) 0x33 == bit_and (b / 4) 0x33)

abbrev counts_fit : ℕ → Bool
counts_fit b =
    leb (halves_of b) 68
    && leb (halves_of b % 16) 4
    && ((halves_of b + halves_of b / 16) % 16 == ones b)

abbrev digits_fit : ℕ → Bool
digits_fit b = (bit_and b 0x0f == b % 16) && (get_or bits_in_byte b 0 == ones b)

all_pairs_fit : holds_under pairs_fit 256 ≡ true
unfolding holds_under
all_pairs_fit = refl

all_halves_fit : holds_under halves_fit 256 ≡ true
unfolding holds_under
all_halves_fit = refl

all_counts_fit : holds_under counts_fit 256 ≡ true
unfolding holds_under
all_counts_fit = refl

all_digits_fit : holds_under digits_fit 256 ≡ true
unfolding holds_under
all_digits_fit = refl

pub pairs_masked :
    (b c : ℕ) → b < 256 → c < 2 → bit_and (b / 2 + 128 * c) 0x55 ≡ bit_and (b / 2) 0x55
pairs_masked b zero hb hc =
    let same : b / 2 + 128 * 0 ≡ b / 2 = omega arith in ap (λ i. bit_and i 0x55) same
pairs_masked b (suc zero) hb hc = let h = holds_at pairs_fit 256 b hb all_pairs_fit in ground arith
pairs_masked b (suc (suc c)) hb hc = absurd (omega arith)

pub pairs_le : (b : ℕ) → b < 256 → bit_and (b / 2) 0x55 ≤ b
pairs_le b hb = let h = holds_at pairs_fit 256 b hb all_pairs_fit in ground arith

pub halves_masked :
    (b c : ℕ) → b < 256 → c < 4 → bit_and (b / 4 + 64 * c) 0x33 ≡ bit_and (b / 4) 0x33
halves_masked b zero hb hc =
    let same : b / 4 + 64 * 0 ≡ b / 4 = omega arith in ap (λ i. bit_and i 0x33) same
halves_masked b (suc zero) hb hc =
    let h = holds_at halves_fit 256 b hb all_halves_fit in ground arith
halves_masked b (suc (suc zero)) hb hc =
    let h = holds_at halves_fit 256 b hb all_halves_fit in ground arith
halves_masked b (suc (suc (suc zero))) hb hc =
    let h = holds_at halves_fit 256 b hb all_halves_fit in ground arith
halves_masked b (suc (suc (suc (suc c)))) hb hc = absurd (omega arith)

pub halves_small : (b : ℕ) → b < 256 → (halves_of b ≤ 68) × (halves_of b % 16 ≤ 4)
halves_small b hb =
    let h = holds_at counts_fit 256 b hb all_counts_fit in (ground arith, ground arith)

pub halves_count : (b : ℕ) → b < 256 → (halves_of b + halves_of b / 16) % 16 ≡ ones b
halves_count b hb = let h = holds_at counts_fit 256 b hb all_counts_fit in ground arith

pub low_half : (b : ℕ) → b < 256 → bit_and b 0x0f ≡ b % 16
low_half b hb = let h = holds_at digits_fit 256 b hb all_digits_fit in ground arith

pub table_ones : (b : ℕ) → b < 256 → get_or bits_in_byte b 0 ≡ ones b
table_ones b hb = (==_iff _ _).0 (both_right _ _ (holds_at digits_fit 256 b hb all_digits_fit))

-- four bytes, the lowest first
abbrev pub join : ℕ → ℕ → ℕ → ℕ → ℕ
join a b c d = a + 256 * (b + 256 * (c + 256 * d))

pub bit_and-join :
    (a b c d m n p q : ℕ)
    → a < 256
    → b < 256
    → c < 256
    → m < 256
    → n < 256
    → p < 256
    → bit_and (join a b c d) (join m n p q)
      ≡ join (bit_and a m) (bit_and b n) (bit_and c p) (bit_and d q)
bit_and-join a b c d m n p q ha hb hc hm hn hp =
    rw
      (
        bit_and-bytes a (b + 256 * (c + 256 * d)) m (n + 256 * (p + 256 * q)) ha hm,
        bit_and-bytes b (c + 256 * d) n (p + 256 * q) hb hn,
        bit_and-bytes c d p q hc hp,
      )
      refl
