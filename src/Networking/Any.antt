-- ===== src/Networking/Any.antt =====
-- redis/src/networking.c: whatever bytes a client sends.
use coffee_table.Prelude.{
  ℕ, zero, suc, ◌+◌, ◌-◌, ◌≤◌, ◌<◌, ◌≡◌, refl, ◌∙◌, inl, inr, Bool, true, false, ◌&&◌, not, Option,
  none, some, List, length, length-drop, drop, take, get_or, if◌then◌else◌, ltb, leb, ◌==◌,
  Bool-cases, arith,
}
use coffee_table.Prelude.Int.{ℤ, pos, negsuc}
use coffee_table.Util.{string2ll}
use coffee_table.Protocol.{
  find_cr, line_until, line_number, max_bulk, inline_max_size, Reader, multibulk_request, Round,
  stops, moves, Line, unfinished, too_big, no_dollar, bad_length, length_at, trim, bulk_body,
  bulk_length, bulk_round, bulk_line, read_args, mbulk_big_arg,
}

-- what reading a part of a request may end with: the request, a wait for more, or a connection to be closed
pub data Ends (k : ℕ) : Bool × Reader → Type 0 where
  whole : (r : Reader) → length r.querybuf ≤ k → Ends k (true, r)
  partly : (r : Reader) → r.reqtype ≡ multibulk_request → 0 < r.multibulklen → Ends k (false, r)
  closed : (r : Reader) → r.close_after_reply ≡ true → Ends k (false, r)

pub data Moves (n k : ℕ) : Round → Type 0 where
  ends : (x : Bool × Reader) → Ends k x → Moves n k (stops x)
  goes :
      (next : ℕ) (r : Reader)
      → r.reqtype ≡ multibulk_request
      → r.multibulklen ≡ n
      → length r.querybuf - next ≤ k + n
      → Moves n k (moves next r)

trim_type : (p : ℕ) (r : Reader) → (trim p r).reqtype ≡ r.reqtype
trim_type p r = elim (Bool-cases (p == 0)) [ inl h ↦ rw (trim, h) refl | inr h ↦ rw (trim, h) refl ]

trim_count : (p : ℕ) (r : Reader) → (trim p r).multibulklen ≡ r.multibulklen
trim_count p r = elim (Bool-cases (p == 0)) [
  | inl h ↦ rw (trim, h) refl
  | inr h ↦ rw (trim, h) refl
]

trim_close : (p : ℕ) (r : Reader) → (trim p r).close_after_reply ≡ r.close_after_reply
trim_close p r = elim (Bool-cases (p == 0)) [
  | inl h ↦ rw (trim, h) refl
  | inr h ↦ rw (trim, h) refl
]

trim_size : (p : ℕ) (r : Reader) → length (trim p r).querybuf ≡ length r.querybuf - p
trim_size p r = elim (Bool-cases (p == 0)) [
  | inl h ↦ rw (trim, h) (ground arith)
  | inr h ↦ rw (trim, h) (length-drop p r.querybuf)
]

waits_at :
    (p k : ℕ) (r : Reader)
    → r.reqtype ≡ multibulk_request
    → 0 < r.multibulklen
    → Ends k (false, trim p r)
waits_at p k r t h = partly (trim p r) (trim_type p r ∙ t) (omega (arith, trim_count p r))

if_Moves :
    (n k : ℕ) (b : Bool) {x y : Round}
    → (b ≡ true → Moves n k x)
    → (b ≡ false → Moves n k y)
    → Moves n k (if b then x else y)
if_Moves n k true h h' = h refl
if_Moves n k false h h' = h' refl

body-Moves :
    (n k ll p : ℕ) (r : Reader)
    → r.reqtype ≡ multibulk_request
    → r.multibulklen ≡ suc n
    → length r.querybuf - p ≤ k + suc n
    → Moves n k (bulk_body ll p r)
body-Moves n k ll p r t c h =
    let count : r.multibulklen - 1 ≡ n = omega arith in
    if_Moves n k (ltb (length r.querybuf - p) (ll + 2))
      (λ short. ends _ (waits_at p k (record r { bulklen = some ll }) t (omega arith)))
      (λ long.
        if_Moves n k ((p == 0) && leb mbulk_big_arg ll && (length r.querybuf == ll + 2))
          (λ fit. goes 0 _ t count (omega arith))
          (λ other. goes (p + (ll + 2)) _ t count (ground arith)))

abbrev IsAhead : ℕ → Line → Type 0
IsAhead p (length_at ll next) = p ≤ next
IsAhead p unfinished = Unit {0}
IsAhead p too_big = Unit {0}
IsAhead p no_dollar = Unit {0}
IsAhead p bad_length = Unit {0}

if_IsAhead :
    (p : ℕ) (b : Bool) (x y : Line) → IsAhead p x → IsAhead p y → IsAhead p (if b then x else y)
if_IsAhead p true x y h h' = h
if_IsAhead p false x y h h' = h'

number-IsAhead : (p next : ℕ) (o : Option ℤ) → p ≤ next → IsAhead p (line_number next o)
number-IsAhead p next none h = tt
number-IsAhead p next (some (negsuc n)) h = tt
number-IsAhead p next (some (pos n)) h = if_IsAhead p (ltb max_bulk n) _ _ tt h

line-IsAhead : (buf : List ℕ) (p : ℕ) (o : Option ℕ) → IsAhead p (line_until buf p o)
line-IsAhead buf p none = if_IsAhead p (ltb inline_max_size (length buf)) _ _ tt tt
line-IsAhead buf p (some i) = if_IsAhead p (ltb (length buf) (p + i + 2)) _ _ tt (
    if_IsAhead p (not (get_or buf p 0 == b'$')) _ _ tt
      (number-IsAhead p (p + i + 2) (string2ll (take (i - 1) (drop (p + 1) buf))) (omega arith)))

bulk_line-IsAhead : (buf : List ℕ) (p : ℕ) → IsAhead p (bulk_line buf p)
unfolding bulk_line
bulk_line-IsAhead buf p = line-IsAhead buf p (find_cr (drop p buf))

length-Moves :
    (n k p : ℕ) (line : Line) (r : Reader)
    → r.reqtype ≡ multibulk_request
    → r.multibulklen ≡ suc n
    → length r.querybuf - p ≤ k + suc n
    → IsAhead p line
    → Moves n k (bulk_length line p r)
length-Moves n k p unfinished r t c h later = ends _ (waits_at p k r t (omega arith))
length-Moves n k p too_big r t c h later = ends _ (closed _ (trim_close p _))
length-Moves n k p no_dollar r t c h later = ends _ (closed _ refl)
length-Moves n k p bad_length r t c h later = ends _ (closed _ refl)
length-Moves n k p (length_at ll next) r t c h later =
    if_Moves n k (leb mbulk_big_arg ll)
      (λ big.
        body-Moves n k ll 0 (record r { querybuf = drop next r.querybuf }) t c
          (omega (arith, length-drop next r.querybuf)))
      (λ fair. body-Moves n k ll next r t c (omega arith))

round-Moves :
    (n k p : ℕ) (o : Option ℕ) (r : Reader)
    → r.reqtype ≡ multibulk_request
    → r.multibulklen ≡ suc n
    → length r.querybuf - p ≤ k + suc n
    → Moves n k (bulk_round o p r)
round-Moves n k p none r t c h =
    length-Moves n k p (bulk_line r.querybuf p) r t c h (bulk_line-IsAhead r.querybuf p)
round-Moves n k p (some ll) r t c h = body-Moves n k ll p r t c h

after_moves :
    (n k : ℕ) {x : Round}
    → ((next : ℕ) (r : Reader)
        → r.reqtype ≡ multibulk_request
        → r.multibulklen ≡ n
        → length r.querybuf - next ≤ k + n
        → Ends k (read_args n next r))
    → Moves n k x
    → Ends k (elim x [ stops y ↦ y | moves next r ↦ read_args n next r ])
after_moves n k later (ends x h) = h
after_moves n k later (goes next r t c h) = later next r t c h

pub read_args-Ends :
    (n k p : ℕ) (r : Reader)
    → r.reqtype ≡ multibulk_request
    → r.multibulklen ≡ n
    → length r.querybuf - p ≤ k + n
    → Ends k (read_args n p r)
unfolding read_args
read_args-Ends zero k p r t c h = whole (trim p r) (omega (arith, trim_size p r))
read_args-Ends (suc n) k p r t c h =
    after_moves n k (λ next r' t' c' h'. read_args-Ends n k next r' t' c' h')
      (round-Moves n k p r.bulklen r t c h)
