-- ===== src/Networking/Counts.antt =====
-- redis/src/networking.c: the line of a count, as redis/src/aof.c writes it, read back.
use coffee_table.Prelude.{
  ℕ, zero, suc, ◌+◌, ◌-◌, ◌/◌, ◌%◌, ◌≤◌, ◌<◌, ◌≡◌, refl, ap, sym, ◌∙◌, inl, inr, Bool, true, false,
  some, List, [], ◌∷◌, ◌++◌, length, length-append, length-drop, append_assoc, take, drop,
  drop-drop, get_or, if◌then◌else◌, ltb, ◌==◌, arith,
}
use coffee_table.Prelude.Int.{pos}
use coffee_table.Util.{digits_loop, ll2string, string2ll, llong_max}
use coffee_table.Util.Decimal.{ll2string-printed, string2ll-ll2string, length-digits_loop}
use coffee_table.Aof.{cat_count, crlf}
use coffee_table.Protocol.{find_cr, unfinished, length_at, bulk_line, inline_max_size, max_bulk}
use coffee_table.Networking.Lines.{
  IsPlain, find_cr-line, find_cr-part, take-append_self, get_or-drop,
}

digits-IsPlain : (fuel v : ℕ) (buf : List ℕ) → IsPlain buf → IsPlain (digits_loop fuel v buf)
unfolding digits_loop
digits-IsPlain zero v buf h = h
digits-IsPlain (suc fuel) v buf h =
    let more : IsPlain ((b'0' + v % 10) ∷ buf) = (ground arith, ground arith, h) in
    let rest = digits-IsPlain fuel (v / 10) ((b'0' + v % 10) ∷ buf) more in
    choose (v / 10 == 0) _ _ more rest
  where
    choose : (b : Bool) (s t : List ℕ) → IsPlain s → IsPlain t → IsPlain (if b then s else t)
    choose true s t x y = x
    choose false s t x y = y

-- the number in a line
abbrev pub number : ℕ → List ℕ
number n = ll2string 31 (pos n)

pub number-IsPlain : (n : ℕ) → (IsPlain (number n)) × (length (number n) ≤ 20)
number-IsPlain n =
    let same = ll2string-printed 31 (pos n) (omega arith) in
    rw same (digits-IsPlain 20 n [] tt, omega (arith, length-digits_loop 20 n []))

pub number-read : (n : ℕ) → n ≤ llong_max → string2ll (number n) ≡ some (pos n)
number-read n h = string2ll-ll2string 31 (pos n) (omega arith) (ground arith)

-- the line without its end
abbrev pub line : ℕ → ℕ → List ℕ
line c n = c ∷ number n

pub length-cat_count : (c n : ℕ) → length (cat_count c n) ≡ length (number n) + 3
unfolding cat_count
length-cat_count c n = omega (arith, length-append (number n) crlf)

-- the number between the first character and the end of the line, wherever the line starts
pub number-slice :
    (c n p : ℕ) (buf rest : List ℕ)
    → drop p buf ≡ cat_count c n ++ rest
    → take (length (number n)) (drop (p + 1) buf) ≡ number n
unfolding cat_count
number-slice c n p buf rest e =
    let behind = sym (drop-drop 1 p buf) ∙ ap (drop 1) e in
    let bracket : (number n ++ crlf) ++ rest ≡ number n ++ (crlf ++ rest) =
      append_assoc (number n) crlf rest in
    rw (behind, bracket) (take-append_self (number n) (crlf ++ rest))

pub found_line :
    (c n : ℕ) (rest : List ℕ)
    → (c == 13) ≡ false
    → (c == 0) ≡ false
    → find_cr (cat_count c n ++ rest) ≡ some (length (line c n))
unfolding cat_count
found_line c n rest h1 h2 =
    let bracket : (line c n ++ crlf) ++ rest ≡ line c n ++ (13 ∷ (10 ∷ rest)) =
      append_assoc (line c n) crlf rest in
    rw bracket (find_cr-line (line c n) (10 ∷ rest) (h1, h2, (number-IsPlain n).0))

pub length_known :
    (p : ℕ) (buf s : List ℕ) → drop p buf ≡ s → p ≤ length buf → length buf ≡ p + length s
length_known p buf s e h = omega (arith, length-drop p buf, ap length e)

-- A length that has arrived whole is read, and the position goes behind its line.
pub bulk_line-whole :
    (n p : ℕ) (buf rest : List ℕ)
    → n ≤ max_bulk
    → p ≤ length buf
    → drop p buf ≡ cat_count b'$' n ++ rest
    → bulk_line buf p ≡ length_at n (p + length (cat_count b'$' n))
unfolding bulk_line
bulk_line-whole n p buf rest small inside e =
    let long = length_known p buf (cat_count b'$' n ++ rest) e inside in
    let size = length-cat_count b'$' n in
    let enough : ltb (length buf) (p + length (line b'$' n) + 2) ≡ false =
      ground (arith, length-append (cat_count b'$' n) rest) in
    let dollar : get_or buf p 0 ≡ b'$' = get_or-drop p buf ∙ ap (λ i. get_or i 0 0) e ∙ first in
    let width : length (line b'$' n) - 1 ≡ length (number n) = omega arith in
    let next : p + length (line b'$' n) + 2 ≡ p + length (cat_count b'$' n) = omega arith in
    let fits : ltb max_bulk n ≡ false = ground arith in
    rw
      (
        e,
        found_line b'$' n rest refl refl,
        enough,
        dollar,
        width,
        number-slice b'$' n p buf rest e,
        number-read n (omega arith),
        fits,
      )
      (ap (length_at n) next)
  where
    first : get_or (cat_count b'$' n ++ rest) 0 0 ≡ b'$'
    first = unfold cat_count in refl

-- A length that has not arrived whole is waited for, in a buffer of 64 KB at most.
pub bulk_line-part :
    (n p : ℕ) (buf more : List ℕ)
    → length buf ≤ inline_max_size
    → p ≤ length buf
    → cat_count b'$' n ≡ drop p buf ++ more
    → 0 < length more
    → bulk_line buf p ≡ unfinished
unfolding bulk_line cat_count
bulk_line-part n p buf more small inside e open_end =
    elim (find_cr-part (line b'$' n) (drop p buf) more (refl, refl, (number-IsPlain n).0) e
      open_end) [
        | inl missing ↦
            let short : ltb inline_max_size (length buf) ≡ false = ground arith in
            rw (missing, short) refl
        | inr (found, long) ↦
            let short : ltb (length buf) (p + length (line b'$' n) + 2) ≡ true =
              ground (arith, length-drop p buf) in
            rw (found, short) refl
      ]
