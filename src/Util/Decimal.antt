-- ===== src/Util/Decimal.antt =====
-- `string2ll` reads back what `ll2string` writes (redis/src/util.c).
use native.Mathlib.Nat.{pow-suc}
use coffee_table.Prelude.{
  ℕ, zero, suc, ◌+◌, ◌-◌, ◌*◌, ◌/◌, ◌%◌, ◌^◌, ◌≤◌, ◌<◌, ◌≡◌, refl, sym, ap, ◌∙◌, Bool, true, false,
  ◌&&◌, some, List, [], ◌∷◌, arith, length, ltb, leb, ◌==◌, if◌then◌else◌, inl, inr, Bool-cases,
  take,
}
use coffee_table.Prelude.Int.{ℤ, pos, negsuc}
use coffee_table.Util.{
  ullong_max, llong_max, llong_min_abs, magnitude, is_negative, digits_loop, ll2string, value_loop,
  finish, parse_unsigned, parse_signed, is_zero_string, string2ll, is_digit, fits_long,
}

value_loop_digit :
    (v : ℕ) (p : List ℕ)
    → v ≤ ullong_max
    → value_loop ((b'0' + v % 10) ∷ p) (v / 10) ≡ value_loop p v
unfolding value_loop
value_loop_digit v p h =
    let same : v / 10 * 10 + (b'0' + v % 10 - b'0') ≡ v = omega arith in
    let digit : is_digit (b'0' + v % 10) ≡ true = ground arith in
    let small : ltb (ullong_max / 10) (v / 10) ≡ false = ground arith in
    let fits : ltb (ullong_max - (b'0' + v % 10 - b'0')) (v / 10 * 10) ≡ false = ground arith in
    rw (digit, small, fits, same)

-- The digits of a positive number: the first is not 0, and reading on from it gives the number.
record Digits (v : ℕ) (buf written : List ℕ) : Type 0 where
  head : ℕ
  tail : List ℕ
  split : written ≡ head ∷ tail
  leading : (leb b'1' head && leb head b'9') ≡ true
  reads : value_loop tail (head - b'0') ≡ value_loop buf v
  size : length buf ≤ length tail

digits :
    (fuel v : ℕ) (buf : List ℕ)
    → 0 < v
    → v < 10 ^ fuel
    → v ≤ ullong_max
    → Digits v buf (digits_loop fuel v buf)
unfolding digits_loop
digits zero v buf above lt max = absurd (omega arith)
digits (suc fuel) v buf above lt max = elim (Bool-cases (v / 10 == 0)) [
  | inl last ↦ record {
    head = b'0' + v % 10;
    tail = buf;
    split = rw last;
    leading = ground arith;
    reads = ap (value_loop buf) (ground arith);
    size = omega arith;
  }
  | inr more ↦
      let d =
        digits fuel (v / 10) ((b'0' + v % 10) ∷ buf) (ground arith) (omega (arith, pow-suc 10 fuel))
          (omega arith) in
      record {
        head = d.head;
        tail = d.tail;
        split = rw more d.split;
        leading = d.leading;
        reads = d.reads ∙ value_loop_digit v buf max;
        size = omega (arith, d.size);
      }
]

pub length-digits_loop :
    (fuel v : ℕ) (buf : List ℕ) → length (digits_loop fuel v buf) ≤ fuel + length buf
unfolding digits_loop
length-digits_loop zero v buf = omega arith
length-digits_loop (suc fuel) v buf =
    ground (arith, length-digits_loop fuel (v / 10) ((b'0' + v % 10) ∷ buf))

not_zero_string :
    (c : ℕ) (p : List ℕ) → (leb b'1' c && leb c b'9') ≡ true → is_zero_string (c ∷ p) ≡ false
not_zero_string c [] h = ground arith
not_zero_string c (d ∷ p) h = refl

-- what is written for a positive number reads back, with either sign
parse_unsigned-digits :
    (negative : Bool) (v : ℕ)
    → 0 < v
    → v ≤ ullong_max
    → parse_unsigned negative (digits_loop 20 v []) ≡ finish negative (some (v, []))
unfolding parse_unsigned
parse_unsigned-digits negative v above max =
    let d = digits 20 v [] above (omega arith) max in
    rw (d.split, d.leading, d.reads) (unfold value_loop in refl)

fits_above : (n : ℕ) → fits_long (pos n) ≡ true → ltb llong_max n ≡ false
fits_above n h = ground arith

fits_below : (n : ℕ) → fits_long (negsuc n) ≡ true → ltb llong_min_abs (suc n) ≡ false
fits_below n h = ground arith

-- what is written, if the buffer does not cut it
abbrev pub printed : ℤ → List ℕ
printed v =
    if is_negative v
    then b'-' ∷ digits_loop 20 (magnitude v) []
    else digits_loop 20 (magnitude v) []

length-printed : (v : ℤ) → length (printed v) ≤ 21
length-printed (pos n) = omega (arith, length-digits_loop 20 n [])
length-printed (negsuc n) = omega (arith, length-digits_loop 20 (suc n) [])

not_cut :
    (len : ℕ) (p : List ℕ)
    → length p + 1 ≤ len
    → (if len == 0 then [] else if ltb len (length p + 1) then take (len - 1) p else p) ≡ p
not_cut len p h = ground arith

pub ll2string-printed : (len : ℕ) (v : ℤ) → 22 ≤ len → ll2string len v ≡ printed v
unfolding ll2string
ll2string-printed len v h = not_cut len (printed v) (omega (arith, length-printed v))

no_sign :
    (c : ℕ) (p : List ℕ)
    → (leb b'1' c && leb c b'9') ≡ true
    → parse_signed (c ∷ p) ≡ parse_unsigned false (c ∷ p)
unfolding parse_signed
no_sign c p h = rw (digit c h)
  where
    digit : (d : ℕ) → (leb b'1' d && leb d b'9') ≡ true → (d == b'-') ≡ false
    digit d e = ground arith

minus_string : (p : List ℕ) → 1 ≤ length p → is_zero_string (b'-' ∷ p) ≡ false
minus_string [] h = absurd (omega arith)
minus_string (c ∷ p) h = refl

-- A long long written by `ll2string` into a buffer of 22 bytes or more is read back by `string2ll`.
pub string2ll-ll2string :
    (len : ℕ) (v : ℤ) → 22 ≤ len → fits_long v ≡ true → string2ll (ll2string len v) ≡ some v
string2ll-ll2string len (pos zero) h fits =
    rw (ll2string-printed len (pos 0) h) (unfold digits_loop string2ll in refl)
string2ll-ll2string len (pos (suc n)) h fits =
    let d = digits 20 (suc n) [] (omega arith) (ground arith) (ground arith) in
    ap string2ll (ll2string-printed len (pos (suc n)) h ∙ d.split)
    ∙ unfold string2ll in
      rw (not_zero_string d.head d.tail d.leading) (
        no_sign d.head d.tail d.leading
        ∙ ap (parse_unsigned false) (sym d.split)
        ∙ parse_unsigned-digits false (suc n) (omega arith) (ground arith)
        ∙ rw (fits_above (suc n) fits))
string2ll-ll2string len (negsuc n) h fits =
    let d = digits 20 (suc n) [] (omega arith) (ground arith) (ground arith) in
    let e = parse_unsigned-digits true (suc n) (omega arith) (ground arith) in
    ap string2ll (ll2string-printed len (negsuc n) h)
    ∙ unfold string2ll parse_signed in
      rw (minus_string (digits_loop 20 (suc n) []) (rw d.split (omega arith)), e)
        (rw (fits_below n fits))
