-- ===== src/Util.antt =====
-- redis/src/util.c: integers in decimal. A string is the list of its bytes.
mod Tests
pub mod Glob
pub mod Range
pub mod Decimal
pub mod Canonical
use coffee_table.Prelude.{
  ℕ, zero, suc, ◌+◌, ◌-◌, ◌*◌, ◌/◌, ◌%◌, ◌^◌, Bool, true, false, ◌&&◌, ◌||◌, Option, none, some,
  List, [], ◌∷◌, length, take, ltb, leb, ◌==◌, if◌then◌else◌, ◌>>=◌,
}
use coffee_table.Prelude.Int.{ℤ, pos, negsuc}

abbrev pub ullong_max : ℕ
ullong_max = 2 ^ 64 - 1

abbrev pub llong_max : ℕ
llong_max = 2 ^ 63 - 1

-- -(LLONG_MIN + 1) + 1
abbrev pub llong_min_abs : ℕ
llong_min_abs = 2 ^ 63

-- v = (value < 0) ? -value : value
abbrev pub magnitude : ℤ → ℕ
magnitude (pos n) = n
magnitude (negsuc n) = suc n

abbrev pub is_negative : ℤ → Bool
is_negative (pos n) = false
is_negative (negsuc n) = true

-- `do { *p-- = '0'+(v%10); v /= 10; } while(v)`, in front of what the buffer holds already
unfoldable pub digits_loop : ℕ → ℕ → List ℕ → List ℕ
digits_loop zero v buf = buf
digits_loop (suc fuel) v buf =
    let rest = digits_loop fuel (v / 10) ((b'0' + v % 10) ∷ buf) in
    if v / 10 == 0 then (b'0' + v % 10) ∷ buf else rest

-- `ll2string`: what it writes into a buffer of `len` bytes; 20 rounds write every unsigned long long
unfoldable pub ll2string : ℕ → ℤ → List ℕ
unfolding digits_loop
ll2string len value =
    let s = digits_loop 20 (magnitude value) [] in
    let p = if is_negative value then b'-' ∷ s else s in
    if len == 0 then [] else if ltb len (length p + 1) then take (len - 1) p else p

abbrev pub is_digit : ℕ → Bool
is_digit c = leb b'0' c && leb c b'9'

-- `while (plen < slen && isdigit(p[0]))`, which fails on overflow; with what is left of the string
unfoldable pub value_loop : List ℕ → ℕ → Option (ℕ × List ℕ)
value_loop [] v = some (v, [])
value_loop (c ∷ p) v =
    let rest = value_loop p (v * 10 + (c - b'0')) in
    if is_digit c
    then (if ltb (ullong_max / 10) v
        then none
        else if ltb (ullong_max - (c - b'0')) (v * 10)
        then none
        else rest)
    else some (v, c ∷ p)

abbrev pub negate : ℕ → ℤ
negate zero = pos 0
negate (suc n) = negsuc n

-- the end of `string2ll`: all bytes used, and the value in range
abbrev pub finish : Bool → Option (ℕ × List ℕ) → Option ℤ
finish negative none = none
finish negative (some (v, c ∷ p)) = none
finish negative (some (v, [])) =
    if negative
    then (if ltb llong_min_abs v then none else some (negate v))
    else if ltb llong_max v
    then none
    else some (pos v)

-- behind the sign: the first digit is 1 to 9
unfoldable pub parse_unsigned : Bool → List ℕ → Option ℤ
unfolding value_loop
parse_unsigned negative [] = none
parse_unsigned negative (c ∷ p) =
    if leb b'1' c && leb c b'9' then finish negative (value_loop p (c - b'0')) else none

-- the string "0" is a case of its own
abbrev pub is_zero_string : List ℕ → Bool
is_zero_string (c ∷ []) = c == b'0'
is_zero_string p = false

-- a leading minus
unfoldable pub parse_signed : List ℕ → Option ℤ
unfolding parse_unsigned
parse_signed [] = none
parse_signed (c ∷ p) = if c == b'-' then parse_unsigned true p else parse_unsigned false (c ∷ p)

-- `string2ll`; `none` is the answer 0
unfoldable pub string2ll : List ℕ → Option ℤ
unfolding parse_signed
string2ll s = if is_zero_string s then some (pos 0) else parse_signed s

abbrev pub fits_long : ℤ → Bool
fits_long (pos n) = leb n llong_max
fits_long (negsuc n) = ltb n llong_min_abs

-- `string2l`, where a long has 64 bits
unfoldable pub string2l : List ℕ → Option ℤ
unfolding string2ll
string2l s = do v ← string2ll s; if fits_long v then some v else none
