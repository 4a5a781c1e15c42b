-- ===== src/Intset/Valid.antt =====
-- redis/src/intset.c: when a set is valid, and which integers it holds.
use coffee_table.Prelude.{
  ℕ, zero, suc, ◌+◌, ◌-◌, ◌*◌, ◌^◌, ◌≤◌, ◌<◌, ◌≡◌, refl, sym, ap, ◌∙◌, Bool, true, false, ◌||◌,
  some, arith, if◌then◌else◌, ltb, leb, ◌==◌, Bool-cases, inl, inr,
}
use coffee_table.Prelude.Int.{ℤ, pos_part, neg_part}
use coffee_table.Intset.{Intset, Enc, width, fits, cell, get_encoded, get_value, eqb_ℤ}

infix 50 ◌<ℤ◌
abbrev pub ◌<ℤ◌ : ℤ → ℤ → Type 0
a <ℤ b = pos_part a + neg_part b < pos_part b + neg_part a

abbrev pub Values : Type 0
Values = ℕ → ℤ

abbrev pub IsSorted : Values → ℕ → Type 0
IsSorted v n = (i j : ℕ) → i < j → j < n → v i <ℤ v j

-- The set `is` holds the values `v`: its first cells, strictly ascending, in the encoding's range, with
-- exactly the bytes that they need, fewer than 2 ^ 32 of them.
pub record IsIntset (is : Intset) (v : Values) : Type 0 where
  pub cells : (i : ℕ) → i < is.length → cell is.encoding is.contents i ≡ v i
  pub in_range : (i : ℕ) → i < is.length → fits is.encoding (v i) ≡ true
  pub sorted : IsSorted v is.length
  pub sized : is.size ≡ is.length * width is.encoding
  pub small : is.length * 8 < 2 ^ 32

-- whether one of the first `n` values is `x`
unfoldable pub member : Values → ℕ → ℤ → Bool
member v zero x = false
member v (suc n) x = eqb_ℤ (v n) x || member v n x

-- the values with `x` put in at `p`, and with the one at `p` taken out
abbrev pub insert_at : ℕ → ℤ → Values → Values
insert_at p x v i = if ltb i p then v i else if i == p then x else v (i - 1)

abbrev pub delete_at : ℕ → Values → Values
delete_at p v i = if ltb i p then v i else v (i + 1)

pub cell_fits : (e : Enc) (i n : ℕ) → i < n → leb ((i + 1) * width e) (n * width e) ≡ true
cell_fits Enc.int16 i n h = ground arith
cell_fits Enc.int32 i n h = ground arith
cell_fits Enc.int64 i n h = ground arith

pub get_value-runs :
    (is : Intset) (v : Values) (i : ℕ) → IsIntset is v → i < is.length → get_value is i ≡ some (v i)
unfolding get_encoded
get_value-runs is v i ok h = rw (ok.sized, cell_fits is.encoding i is.length h, ok.cells i h) refl

module _ (v : Values) (p : ℕ) (x : ℤ) where
  below_same : (n : ℕ) → n ≤ p → (y : ℤ) → member (insert_at p x v) n y ≡ member v n y
  unfolding member
  below_same zero h y = refl
  below_same (suc n) h y =
      let below : ltb n p ≡ true = ground arith in rw (below, below_same n (omega arith) y) refl

swap_or : (a b c : Bool) → (a || (b || c)) ≡ (b || (a || c))
swap_or true true c = refl
swap_or true false c = refl
swap_or false b c = refl

member-insert_at_end :
    (v : Values) (p : ℕ) (x : ℤ) (n : ℕ)
    → n ≡ p
    → (y : ℤ) → member (insert_at p x v) (suc n) y ≡ (eqb_ℤ x y || member v n y)
unfolding member
member-insert_at_end v p x n h y =
    let start : ltb n p ≡ false = ground arith in
    let here : (n == p) ≡ true = ground arith in
    rw (start, here, below_same v p x n (omega arith) y) refl

-- Putting a value in adds it to the members.
pub member-insert_at :
    (v : Values) (p : ℕ) (x : ℤ) (n : ℕ)
    → p ≤ n
    → (y : ℤ) → member (insert_at p x v) (suc n) y ≡ (eqb_ℤ x y || member v n y)
unfolding member
member-insert_at v p x zero h y = member-insert_at_end v p x zero (omega arith) y
member-insert_at v p x (suc m) h y = elim (Bool-cases (suc m == p)) [
  | inl here ↦ member-insert_at_end v p x (suc m) (ground arith) y
  | inr past ↦
      let start : ltb (suc m) p ≡ false = ground arith in
      let back : suc m - 1 ≡ m = omega arith in
      rw (start, past, back, member-insert_at v p x m (ground arith) y)
        (swap_or (eqb_ℤ (v m) y) (eqb_ℤ x y) (member v m y))
]

delete_below : (v : Values) (p n : ℕ) → n ≤ p → (y : ℤ) → member (delete_at p v) n y ≡ member v n y
unfolding member
delete_below v p zero h y = refl
delete_below v p (suc n) h y =
    let below : ltb n p ≡ true = ground arith in rw (below, delete_below v p n (omega arith) y) refl

member-delete_at_end :
    (v : Values) (p n : ℕ)
    → n ≡ p
    → (y : ℤ) → member v (suc n) y ≡ (eqb_ℤ (v p) y || member (delete_at p v) n y)
unfolding member
member-delete_at_end v p n h y =
    ap (λ b. eqb_ℤ (v n) y || b) (sym (delete_below v p n (omega arith) y))
    ∙ ap (λ q. eqb_ℤ (v q) y || member (delete_at p v) n y) h

-- Taking the value at `p` out: the members were that value and those that are left.
pub member-delete_at :
    (v : Values) (p n : ℕ)
    → p ≤ n
    → (y : ℤ) → member v (suc n) y ≡ (eqb_ℤ (v p) y || member (delete_at p v) n y)
unfolding member
member-delete_at v p zero h y = member-delete_at_end v p zero (omega arith) y
member-delete_at v p (suc m) h y = elim (Bool-cases (suc m == p)) [
  | inl here ↦ member-delete_at_end v p (suc m) (ground arith) y
  | inr past ↦
      let start : ltb m p ≡ false = ground arith in
      let forward : m + 1 ≡ suc m = omega arith in
      rw (start, forward)
        (ap (λ b. eqb_ℤ (v (suc m)) y || b) (member-delete_at v p m (ground arith) y)
          ∙ swap_or (eqb_ℤ (v (suc m)) y) (eqb_ℤ (v p) y) (member (delete_at p v) m y))
]

pub not_member :
    (v : Values) (n : ℕ) (y : ℤ) → ((i : ℕ) → i < n → eqb_ℤ (v i) y ≡ false) → member v n y ≡ false
unfolding member
not_member v zero y h = refl
not_member v (suc n) y h = rw (h n (omega arith), not_member v n y (λ i k. h i (omega arith))) refl

pub is_member :
    (v : Values) (n : ℕ) (y : ℤ) (i : ℕ) → i < n → eqb_ℤ (v i) y ≡ true → member v n y ≡ true
unfolding member
is_member v zero y i h e = absurd (omega arith)
is_member v (suc n) y i h e = elim (Bool-cases (i == n)) [
  | inl last ↦ let same : i ≡ n = ground arith in rw (← same, e) refl
  | inr below ↦ rw (is_member v n y i (ground arith) e) (or_true (eqb_ℤ (v n) y))
]
  where
    or_true : (b : Bool) → (b || true) ≡ true
    or_true true = refl
    or_true false = refl

pub eqb_ℤ-eq : (a b : ℤ) → eqb_ℤ a b ≡ true → a ≡ b
eqb_ℤ-eq a b h = ground arith

pub eqb_ℤ_refl : (a : ℤ) → eqb_ℤ a a ≡ true
eqb_ℤ_refl a = ground arith

pub eqb_ℤ-ne : (a b : ℤ) → a <ℤ b → (eqb_ℤ a b ≡ false) × (eqb_ℤ b a ≡ false)
eqb_ℤ-ne a b h = (ground arith, ground arith)

pub insert_at-IsSorted :
    (v : Values) (p n : ℕ) (x : ℤ)
    → p ≤ n
    → IsSorted v n
    → ((i : ℕ) → i < p → v i <ℤ x)
    → ((i : ℕ) → p ≤ i → i < n → x <ℤ v i)
    → IsSorted (insert_at p x v) (n + 1)
insert_at-IsSorted v p n x h sorted low high i j lt last =
    ground (arith, sorted i j, sorted i (j - 1), sorted (i - 1) (j - 1), low i, high (j - 1))

pub delete_at-IsSorted : (v : Values) (p n : ℕ) → IsSorted v (n + 1) → IsSorted (delete_at p v) n
delete_at-IsSorted v p n sorted i j lt last =
    ground (arith, sorted i j, sorted i (j + 1), sorted (i + 1) (j + 1))

-- To show a property of each value after an insertion or a deletion.
pub insert_at_rule :
    (Q : ℤ → Type 0) (p : ℕ) (x : ℤ) (v : Values) (i : ℕ)
    → (i < p → Q (v i))
    → (i ≡ p → Q x)
    → (p < i → Q (v (i - 1)))
    → Q (insert_at p x v i)
insert_at_rule Q p x v i low here high = elim (Bool-cases (ltb i p)) [
  | inl l ↦ rw l (low (ground arith))
  | inr ge ↦ elim (Bool-cases (i == p)) [
    | inl e ↦ rw (ge, e) (here (ground arith))
    | inr g ↦ rw (ge, g) (high (ground arith))
  ]
]

pub delete_at_rule :
    (Q : ℤ → Type 0) (p : ℕ) (v : Values) (i : ℕ)
    → (i < p → Q (v i))
    → (p ≤ i → Q (v (i + 1)))
    → Q (delete_at p v i)
delete_at_rule Q p v i low high = elim (Bool-cases (ltb i p)) [
  | inl l ↦ rw l (low (ground arith))
  | inr ge ↦ rw ge (high (ground arith))
]
