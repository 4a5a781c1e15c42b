-- ===== src/Bitops/Setbit.antt =====
-- redis/src/bitops.c: what GETBIT reads after SETBIT.
use coffee_table.Prelude.{
  ℕ, zero, suc, ◌+◌, ◌-◌, ◌*◌, ◌/◌, ◌%◌, ◌^◌, ◌<◌, ◌≡◌, refl, ap, sym, ◌∙◌, Bool, true, false, not,
  List, [], ◌∷◌, ◌++◌, length, get_or, set, replicate, if◌then◌else◌, ltb, ◌==◌, ==_iff, Bool-cases,
  inl, inr, bit_and, arith, length-append,
}
use coffee_table.Prelude.Bits.{bit_or, bit_and-le, low_bits, holds_under, holds_at}
use Prim.Native.Nat.{bit_and-bitwise}
use coffee_table.Strings.Ranges.{grow_zero}
use coffee_table.Bitops.{get_bit, set_bit}
use coffee_table.Bitops.Count.{AreBytes, bytes_below}

abbrev agree : Bool → Bool → Bool
agree true b = b
agree false b = not b

agree_lem : (a b : Bool) → agree a b ≡ true → a ≡ b
agree_lem true true h = refl
agree_lem true false h = sym h
agree_lem false true h = h
agree_lem false false h = refl

-- bit `j` of a byte after bit `i` is set to `on`, on all bytes and bits
abbrev written_byte : ℕ → ℕ → ℕ → ℕ
written_byte b i on = bit_or (bit_and b (255 - 2 ^ i)) (bit_and on 1 * 2 ^ i)

abbrev byte_fits : ℕ → ℕ → ℕ → ℕ → Bool
byte_fits on i j b =
    agree (not (bit_and (written_byte b i on) (2 ^ j) == 0))
      (if i == j then on == 1 else not (bit_and b (2 ^ j) == 0))

all_fit :
    holds_under
      (λ on. holds_under (λ i. holds_under (λ j. holds_under (byte_fits on i j) 256) 8) 8)
      2
    ≡ true
unfolding holds_under
all_fit = refl

written_bit :
    (b i j on : ℕ)
    → b < 256
    → i < 8
    → j < 8
    → on < 2
    → not (bit_and (written_byte b i on) (2 ^ j) == 0)
      ≡ (if i == j then on == 1 else not (bit_and b (2 ^ j) == 0))
written_bit b i j on hb hi hj hon =
    let at_on = holds_at _ 2 on hon all_fit in
    let at_i = holds_at _ 8 i hi at_on in
    let at_j = holds_at _ 8 j hj at_i in agree_lem _ _ (holds_at (byte_fits on i j) 256 b hb at_j)

-- bytes appended and replaced, with 0 behind the end
get_or-replicate : (n k : ℕ) → get_or (replicate {A = ℕ} n 0) k 0 ≡ 0
get_or-replicate zero k = refl
get_or-replicate (suc n) zero = refl
get_or-replicate (suc n) (suc k) = get_or-replicate n k

get_or-grow_zero : (s : List ℕ) (n k : ℕ) → get_or (s ++ replicate n 0) k 0 ≡ get_or s k 0
get_or-grow_zero [] n k = get_or-replicate n k
get_or-grow_zero (b ∷ s) n zero = refl
get_or-grow_zero (b ∷ s) n (suc k) = get_or-grow_zero s n k

length-replicate : (n : ℕ) → length (replicate {A = ℕ} n 0) ≡ n
length-replicate zero = refl
length-replicate (suc n) = ap suc (length-replicate n)

grown_enough : (s : List ℕ) (n : ℕ) → n < length (grow_zero s (n + 1))
grown_enough s n =
    omega
      (arith, length-append s (replicate (n + 1 - length s) 0), length-replicate (n + 1 - length s))

get_or-set :
    (s : List ℕ) (i k v : ℕ)
    → i < length s
    → get_or (set s i v) k 0 ≡ (if i == k then v else get_or s k 0)
get_or-set [] i k v h = absurd (omega arith)
get_or-set (b ∷ s) zero zero v h = refl
get_or-set (b ∷ s) zero (suc k) v h = ground arith
get_or-set (b ∷ s) (suc i) zero v h = ground arith
get_or-set (b ∷ s) (suc i) (suc k) v h = ground (arith, get_or-set s i k v (omega arith))

get_or_outside : (s : List ℕ) (k : ℕ) → ltb k (length s) ≡ false → get_or s k 0 ≡ 0
get_or_outside [] k h = refl
get_or_outside (b ∷ s) zero h = absurd (ground arith)
get_or_outside (b ∷ s) (suc k) h = get_or_outside s k (ground arith)

sevens_fit : holds_under (λ o. bit_and o 7 == o) 8 ≡ true
unfolding holds_under
sevens_fit = refl

bit_and-seven : (o : ℕ) → bit_and o 7 ≡ o % 8
bit_and-seven o =
    let parts : o ≡ o % 8 + 8 * (o / 8) = omega arith in
    let low = (==_iff _ _).0 (holds_at _ 8 (o % 8) (omega arith) sevens_fit) in
    ap (λ i. bit_and i 7) parts
    ∙ omega (
      arith,
      low_bits 3 (o % 8) (o / 8) 7 0 (omega arith) (omega arith),
      bit_and-le (o / 8) 0,
      low,
    )

nothing : (m : ℕ) → not (bit_and 0 m == 0) ≡ false
nothing m = rw (bit_and-bitwise 0 m) refl

-- the bit that GETBIT answers, whether the byte is there or not
get_bit_lem :
    (s : List ℕ) (o : ℕ) → get_bit s o ≡ not (bit_and (get_or s (o / 8) 0) (2 ^ (7 - o % 8)) == 0)
unfolding get_bit
get_bit_lem s o = elim (Bool-cases (ltb (o / 8) (length s))) [
  | inl there ↦ rw (there, bit_and-seven o) refl
  | inr outside ↦ rw (outside, get_or_outside s (o / 8) outside) (sym (nothing (2 ^ (7 - o % 8))))
]

-- bit `o` of the value that SETBIT leaves, by its byte
set_byte_lem :
    (s : List ℕ) (o on k : ℕ)
    → get_or (set_bit s o on).0 k 0
      ≡ (if o / 8 == k then written_byte (get_or s (o / 8) 0) (7 - o % 8) on else get_or s k 0)
unfolding set_bit
set_byte_lem s o on k =
    let grown = grow_zero s (o / 8 + 1) in
    get_or-set grown (o / 8) k _ (grown_enough s (o / 8))
    ∙ rw
        (
          bit_and-seven o,
          get_or-grow_zero s (o / 8 + 1 - length s) (o / 8),
          get_or-grow_zero s (o / 8 + 1 - length s) k,
        )
        refl

same_bit : (o p : ℕ) → o / 8 ≡ p / 8 → ((7 - o % 8) == (7 - p % 8)) ≡ (o == p)
same_bit o p h = ground arith

other_bit : (o p : ℕ) → (o / 8 == p / 8) ≡ false → (o == p) ≡ false
other_bit o p h = ground arith

old_bit : (s : List ℕ) (o on : ℕ) → (set_bit s o on).1 ≡ get_bit s o
unfolding set_bit
old_bit s o on =
    rw (bit_and-seven o, get_or-grow_zero s (o / 8 + 1 - length s) (o / 8)) (sym (get_bit_lem s o))

new_bit :
    (s : List ℕ) (o on p : ℕ)
    → AreBytes s
    → on < 2
    → get_bit (set_bit s o on).0 p ≡ (if o == p then on == 1 else get_bit s p)
new_bit s o on p bytes bit = elim (Bool-cases (o / 8 == p / 8)) [
  | inr apart ↦
      get_bit_lem (set_bit s o on).0 p
      ∙ rw (set_byte_lem s o on (p / 8), apart, other_bit o p apart) (sym (get_bit_lem s p))
  | inl together ↦
      let same : o / 8 ≡ p / 8 = (==_iff (o / 8) (p / 8)).0 together in
      let after =
        written_bit (get_or s (o / 8) 0) (7 - o % 8) (7 - p % 8) on (bytes_below s (o / 8) bytes)
          (omega arith) (omega arith) bit in
      get_bit_lem (set_bit s o on).0 p
      ∙ rw (set_byte_lem s o on (p / 8), together)
          (after ∙ rw (same_bit o p same, same, get_bit_lem s p) refl)
]

-- The old bit that SETBIT answers is the bit that GETBIT read before, and after it GETBIT reads the new
-- bit at that offset and the same as before at every other offset, also where the string had to grow.
pub set_bit_lem :
    (s : List ℕ) (o on : ℕ)
    → AreBytes s
    → on < 2
    → ((set_bit s o on).1 ≡ get_bit s o)
      × ((p : ℕ) → get_bit (set_bit s o on).0 p ≡ (if o == p then on == 1 else get_bit s p))
set_bit_lem s o on bytes bit = (old_bit s o on, λ p. new_bit s o on p bytes bit)
