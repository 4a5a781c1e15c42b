-- ===== src/Util/Range.antt =====
-- redis/src/util.c: the integers that string2ll answers are in range.
use coffee_table.Prelude.{
  ℕ, zero, suc, ◌≡◌, refl, inl, inr, Bool, true, false, Option, none, some, List, [], ◌∷◌, ltb, leb,
  ◌==◌, ◌&&◌, none≢some, Bool-cases, arith, ◌-◌,
}
use coffee_table.Prelude.Int.{ℤ, pos}
use coffee_table.Util.{
  finish, negate, value_loop, parse_unsigned, parse_signed, string2ll, is_zero_string, fits_long,
  llong_max, llong_min_abs,
}

negate-fits : (w : ℕ) → ltb llong_min_abs w ≡ false → fits_long (negate w) ≡ true
negate-fits zero h = refl
negate-fits (suc n) h = ground arith

finish-fits :
    (negative : Bool) (o : Option (ℕ × List ℕ)) (v : ℤ)
    → finish negative o ≡ some v
    → fits_long v ≡ true
finish-fits negative none v e = absurd (none≢some e)
finish-fits negative (some (w, c ∷ p)) v e = absurd (none≢some e)
finish-fits true (some (w, [])) v e = elim (Bool-cases (ltb llong_min_abs w)) [
  | inl big ↦ absurd (let no = rw big at e in none≢some no)
  | inr fits ↦
      let same : negate w ≡ v = let found = rw fits at e in cc in rw (← same) (negate-fits w fits)
]
finish-fits false (some (w, [])) v e = elim (Bool-cases (ltb llong_max w)) [
  | inl big ↦ absurd (let no = rw big at e in none≢some no)
  | inr fits ↦ let same : pos w ≡ v = let found = rw fits at e in cc in rw (← same) (ground arith)
]

unsigned-fits :
    (negative : Bool) (s : List ℕ) (v : ℤ) → parse_unsigned negative s ≡ some v → fits_long v ≡ true
unfolding parse_unsigned
unsigned-fits negative [] v e = absurd (none≢some e)
unsigned-fits negative (c ∷ p) v e = elim (Bool-cases (leb b'1' c && leb c b'9')) [
  | inr bad ↦ absurd (let no = rw bad at e in none≢some no)
  | inl good ↦ finish-fits negative (value_loop p (c - b'0')) v (rw good at e)
]

signed-fits : (s : List ℕ) (v : ℤ) → parse_signed s ≡ some v → fits_long v ≡ true
unfolding parse_signed
signed-fits [] v e = absurd (none≢some e)
signed-fits (c ∷ p) v e = elim (Bool-cases (c == b'-')) [
  | inl negative ↦ unsigned-fits true p v (rw negative at e)
  | inr positive ↦ unsigned-fits false (c ∷ p) v (rw positive at e)
]

pub string2ll-fits : (s : List ℕ) (v : ℤ) → string2ll s ≡ some v → fits_long v ≡ true
unfolding string2ll
string2ll-fits s v e = elim (Bool-cases (is_zero_string s)) [
  | inl z ↦ let same : pos 0 ≡ v = let found = rw z at e in cc in rw (← same) refl
  | inr z ↦ signed-fits s v (rw z at e)
]
