-- ===== src/Prelude/Bits.antt =====
-- Masks: a masked number does not pass its mask, bytes are masked one by one, and a fact about every
-- byte is checked on all of them.
use Prim.Native.Nat.{min, digits, bit_and-bitwise, bit_or}
use native.Mathlib.Nat.{pow-suc}
use mathlib.Core.Path.{ap}
use coffee_table.Prelude.{
  ℕ, zero, suc, ◌+◌, ◌*◌, ◌/◌, ◌%◌, ◌^◌, ◌≤◌, ◌<◌, ◌≡◌, refl, ◌∙◌, arith, bit_and, Bool, true,
  false, ◌&&◌, sym, ◌==◌, ==_iff, Bool-cases, inl, inr,
}
pub use Prim.Native.Nat.{bit_or}

digits-le : (fuel a mask : ℕ) → digits (λ b. zero) min fuel a mask ≤ mask
digits-le zero a mask = omega arith
digits-le (suc fuel) zero mask = omega arith
digits-le (suc fuel) (suc a) mask = omega (arith, digits-le fuel (suc a / 2) (mask / 2))

pub bit_and-le : (a mask : ℕ) → bit_and a mask ≤ mask
bit_and-le a mask = omega (arith, bit_and-bitwise a mask, digits-le a a mask)

-- enough fuel gives the masked number
settled :
    (k fuel a mask : ℕ) → fuel ≤ k → a ≤ fuel → digits (λ b. zero) min fuel a mask ≡ bit_and a mask
settled k zero zero mask small enough = sym (bit_and-bitwise 0 mask)
settled k (suc fuel) zero mask small enough = sym (bit_and-bitwise 0 mask)
settled k zero (suc a) mask small enough = absurd (omega arith)
settled zero (suc fuel) (suc a) mask small enough = absurd (omega arith)
settled (suc k) (suc fuel) (suc a) mask small enough =
    let here = settled k fuel (suc a / 2) (mask / 2) (omega arith) (omega arith) in
    let there = settled k a (suc a / 2) (mask / 2) (omega arith) (omega arith) in
    omega (arith, bit_and-bitwise (suc a) mask, here, there)

bit_and-halves :
    (a mask : ℕ) → bit_and a mask ≡ 2 * bit_and (a / 2) (mask / 2) + min (a % 2) (mask % 2)
bit_and-halves zero mask = omega (arith, bit_and-bitwise 0 mask, bit_and-bitwise 0 (mask / 2))
bit_and-halves (suc a) mask =
    let half = settled a a (suc a / 2) (mask / 2) (omega arith) (omega arith) in
    omega (arith, bit_and-bitwise (suc a) mask, half)

twice : (k x : ℕ) → 2 ^ suc k * x ≡ 2 * (2 ^ k * x)
twice k x = omega (arith, ap (λ (t : ℕ). t * x) (pow-suc 2 k))

halved : (k a x : ℕ) → (a + 2 ^ suc k * x) / 2 ≡ a / 2 + 2 ^ k * x
halved k a x = omega (arith, twice k x)

parity : (k a x : ℕ) → (a + 2 ^ suc k * x) % 2 ≡ a % 2
parity k a x = omega (arith, twice k x)

one_times : (x : ℕ) → 0 + 2 ^ 0 * x ≡ x
one_times x = omega arith

-- the lowest bits apart from the others
pub low_bits :
    (k a x b y : ℕ)
    → a < 2 ^ k
    → b < 2 ^ k
    → bit_and (a + 2 ^ k * x) (b + 2 ^ k * y) ≡ bit_and a b + 2 ^ k * bit_and x y
low_bits zero zero x zero y ha hb = rw (one_times x, one_times y) (omega arith)
low_bits zero zero x (suc b) y ha hb = absurd (omega arith)
low_bits zero (suc a) x b y ha hb = absurd (omega arith)
low_bits (suc k) a x b y ha hb =
    bit_and-halves (a + 2 ^ suc k * x) (b + 2 ^ suc k * y)
    ∙ rw
        (
          halved k a x,
          halved k b y,
          parity k a x,
          parity k b y,
          low_bits k (a / 2) x (b / 2) y (omega (arith, pow-suc 2 k)) (omega (arith, pow-suc 2 k)),
        )
        (omega (arith, bit_and-halves a b, twice k (bit_and x y)))

pub bit_and-bytes :
    (a x b y : ℕ)
    → a < 256
    → b < 256
    → bit_and (a + 256 * x) (b + 256 * y) ≡ bit_and a b + 256 * bit_and x y
bit_and-bytes a x b y ha hb = low_bits 8 a x b y ha hb

both_left : (x y : Bool) → (x && y) ≡ true → x ≡ true
both_left true y h = refl
both_left false y h = h

pub both_right : (x y : Bool) → (x && y) ≡ true → y ≡ true
both_right true y h = h
both_right false true h = refl
both_right false false h = h

-- a test passed by every number under a bound
unfoldable pub holds_under : (ℕ → Bool) → ℕ → Bool
holds_under test zero = true
holds_under test (suc bound) = holds_under test bound && test bound

pub holds_at :
    (test : ℕ → Bool) (bound i : ℕ) → i < bound → holds_under test bound ≡ true → test i ≡ true
unfolding holds_under
holds_at test zero i small passed = absurd (omega arith)
holds_at test (suc bound) i small passed = elim (Bool-cases (i == bound)) [
  | inl last ↦ ap test ((==_iff i bound).0 last) ∙ both_right _ _ passed
  | inr before ↦ holds_at test bound i (ground arith) (both_left _ _ passed)
]
