-- ===== src/Util/Canonical.antt =====
-- `string2ll` accepts only what `ll2string` writes (redis/src/util.c).
use coffee_table.Prelude.{
  ℕ, zero, suc, ◌+◌, ◌-◌, ◌*◌, ◌/◌, ◌%◌, ◌^◌, ◌≤◌, ◌<◌, ◌≡◌, refl, sym, ap, ◌∙◌, Bool, true, false,
  ◌&&◌, Option, none, some, List, [], ◌∷◌, arith, ltb, leb, ◌==◌, if◌then◌else◌, inl, inr,
  Bool-cases, none≢some,
}
use native.Mathlib.Nat.{pow-suc}
use coffee_table.Prelude.Int.{ℤ, pos}
use coffee_table.Util.{
  ullong_max, llong_max, llong_min_abs, magnitude, is_negative, digits_loop, ll2string, value_loop,
  negate, finish, parse_unsigned, parse_signed, is_zero_string, string2ll, is_digit,
}
use coffee_table.Util.Decimal.{printed, ll2string-printed}

-- the digits of `v` in front of `buf` are `out`
data Prints : ℕ → List ℕ → List ℕ → Type 0 where
  last : {v : ℕ} {buf : List ℕ} → v / 10 ≡ 0 → Prints v buf ((b'0' + v % 10) ∷ buf)
  more :
      {v : ℕ} {buf out : List ℕ}
      → 0 < v / 10
      → Prints (v / 10) ((b'0' + v % 10) ∷ buf) out
      → Prints v buf out

last_digit : (v : ℕ) → v / 10 ≡ 0 → (v / 10 == 0) ≡ true
last_digit v h = ground arith

more_digits : (v : ℕ) → 0 < v / 10 → (v / 10 == 0) ≡ false
more_digits v h = ground arith

Prints-digits :
    (fuel : ℕ) {v : ℕ} {buf out : List ℕ}
    → v < 10 ^ suc fuel
    → Prints v buf out
    → digits_loop (suc fuel) v buf ≡ out
unfolding digits_loop
Prints-digits fuel {v} h (last e) = rw (last_digit v e) refl
Prints-digits zero {v} h (more e p) = absurd (omega arith)
Prints-digits (suc fuel) {v} h (more e p) =
    rw (more_digits v e) (Prints-digits fuel (omega (arith, pow-suc 10 (suc fuel))) p)

put_digit :
    (v c : ℕ)
    → is_digit c ≡ true
    → (b'0' + (v * 10 + (c - b'0')) % 10 ≡ c) × ((v * 10 + (c - b'0')) / 10 ≡ v)
put_digit v c h = (ground arith, ground arith)

-- reading on from a number keeps what is printed
value_loop-Prints :
    (p : List ℕ) (v w : ℕ) (out : List ℕ)
    → 0 < v
    → v ≤ ullong_max
    → Prints v p out
    → value_loop p v ≡ some (w, [])
    → Prints w [] out × (w ≤ ullong_max) × (0 < w)
unfolding value_loop
value_loop-Prints [] v w out above max prints e =
    let same : v ≡ w = cc in (rw (← same) prints, rw (← same) max, rw (← same) above)
value_loop-Prints (c ∷ p) v w out above max prints e = elim (Bool-cases (is_digit c)) [
  | inr bad ↦ absurd (let no = rw bad at e in cc)
  | inl digit ↦ elim (Bool-cases (ltb (ullong_max / 10) v)) [
    | inl big ↦ absurd (let no = rw (digit, big) at e in cc)
    | inr fits ↦ elim (Bool-cases (ltb (ullong_max - (c - b'0')) (v * 10))) [
      | inl big ↦ absurd (let no = rw (digit, fits, big) at e in cc)
      | inr fits2 ↦
          let next = rw (digit, fits, fits2) at e in
          let (same, up) = put_digit v c digit in
          value_loop-Prints p (v * 10 + (c - b'0')) w out (omega arith) (ground arith)
            (more (rw up above) (rw (up, same) prints)) next
    ]
  ]
]

finish_value :
    (negative : Bool) (o : Option (ℕ × List ℕ)) (v : ℤ)
    → finish negative o ≡ some v
    → (w : ℕ) × (o ≡ some (w, [])) × (v ≡ (if negative then negate w else pos w))
finish_value negative none v e = absurd (none≢some e)
finish_value negative (some (w, c ∷ p)) v e = absurd (none≢some e)
finish_value true (some (w, [])) v e = elim (Bool-cases (ltb llong_min_abs w)) [
  | inl big ↦ absurd (let no = rw big at e in none≢some no)
  | inr fits ↦ (w, refl, let yes = rw fits at e in cc)
]
finish_value false (some (w, [])) v e = elim (Bool-cases (ltb llong_max w)) [
  | inl big ↦ absurd (let no = rw big at e in none≢some no)
  | inr fits ↦ (w, refl, let yes = rw fits at e in cc)
]

signed_parts :
    (negative : Bool) (w : ℕ)
    → 0 < w
    → (magnitude (if negative then negate w else pos w) ≡ w)
      × (is_negative (if negative then negate w else pos w) ≡ negative)
signed_parts negative zero h = absurd (omega arith)
signed_parts true (suc w) h = (refl, refl)
signed_parts false (suc w) h = (refl, refl)

first_digit :
    (c : ℕ)
    → (leb b'1' c && leb c b'9') ≡ true
    → (0 < c - b'0')
      × (c - b'0' ≤ ullong_max)
      × (b'0' + (c - b'0') % 10 ≡ c)
      × ((c - b'0') / 10 ≡ 0)
first_digit c h = (ground arith, ground arith, ground arith, ground arith)

parse_unsigned-prints :
    (negative : Bool) (s : List ℕ) (v : ℤ)
    → parse_unsigned negative s ≡ some v
    → (digits_loop 20 (magnitude v) [] ≡ s) × (is_negative v ≡ negative)
unfolding parse_unsigned
parse_unsigned-prints negative [] v e = absurd (none≢some e)
parse_unsigned-prints negative (c ∷ p) v e = elim (Bool-cases (leb b'1' c && leb c b'9')) [
  | inr bad ↦ absurd (let no = rw bad at e in none≢some no)
  | inl good ↦
      let (above, max, same, one) = first_digit c good in
      let (w, run, value) = finish_value negative (value_loop p (c - b'0')) v (rw good at e) in
      let first : Prints (c - b'0') p ((b'0' + (c - b'0') % 10) ∷ p) = last one in
      let start : Prints (c - b'0') p (c ∷ p) = rw same at first in
      let (prints, top, positive) = value_loop-Prints p (c - b'0') w (c ∷ p) above max start run in
      let (size, sign) = signed_parts negative w positive in
      (
        ap (λ x. digits_loop 20 (magnitude x) []) value
            ∙ ap (λ n. digits_loop 20 n []) size
            ∙ Prints-digits 19 (omega arith) prints,
        ap is_negative value ∙ sign,
      )
]

zero_string : (s : List ℕ) → is_zero_string s ≡ true → s ≡ b'0' ∷ []
zero_string [] h = cc
zero_string (c ∷ []) h = ground arith
zero_string (c ∷ d ∷ s) h = cc

minus : (c : ℕ) → (c == b'-') ≡ true → b'-' ≡ c
minus c h = ground arith

parse_signed-prints : (s : List ℕ) (v : ℤ) → parse_signed s ≡ some v → printed v ≡ s
unfolding parse_signed
parse_signed-prints [] v e = absurd (none≢some e)
parse_signed-prints (c ∷ p) v e = elim (Bool-cases (c == b'-')) [
  | inl negative ↦
      let (digits, sign) = parse_unsigned-prints true p v (rw negative at e) in
      rw (sign, digits, minus c negative) refl
  | inr positive ↦
      let (digits, sign) = parse_unsigned-prints false (c ∷ p) v (rw positive at e) in
      rw (sign, digits) refl
]

-- `string2ll` accepts a string only in the form that `ll2string` writes: no sign +, no leading zero,
-- no space, and the number in range.
pub ll2string-string2ll :
    (len : ℕ) (s : List ℕ) (v : ℤ) → 22 ≤ len → string2ll s ≡ some v → ll2string len v ≡ s
unfolding string2ll
ll2string-string2ll len s v h e = elim (Bool-cases (is_zero_string s)) [
  | inl z ↦
      let same : pos 0 ≡ v = let e' = rw z at e in cc in
      ll2string-printed len v h
      ∙ ap printed (sym same)
      ∙ unfold digits_loop in sym (zero_string s z)
  | inr z ↦ ll2string-printed len v h ∙ parse_signed-prints s v (rw z at e)
]
