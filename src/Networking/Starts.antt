-- ===== src/Networking/Starts.antt =====
-- redis/src/networking.c: a request from its first line on.
use coffee_table.Prelude.{
  ℕ, ◌+◌, ◌-◌, ◌≤◌, ◌<◌, ◌≡◌, refl, ap, ◌∙◌, inl, inr, Bool, true, false, Option, none, some, List,
  [], ◌++◌, length, length-append, length-drop, drop, ltb, ◌==◌, get_or, Bool-cases, arith,
}
use coffee_table.Aof.{cat_args, cat_count}
use coffee_table.Protocol.{
  Reader, multibulk_request, read_args, inline_max_size, find_cr, process_multibulk_buffer,
  max_args,
}
use coffee_table.Networking.Lines.{split_whole, split_part, find_cr-part, drop-append_self}
use coffee_table.Networking.Counts.{
  line, number, number-IsPlain, number-read, number-slice, found_line, length-cat_count,
}
use coffee_table.Networking.Stream.{reading, expected, IsRequest}
use coffee_table.Networking.Args.{Args, read_args_lem}

-- The line has not arrived whole: nothing changes.
count_part :
    (n : ℕ) (q more : List ℕ) (ran : List (List (List ℕ)))
    → length q ≤ inline_max_size
    → cat_count b'*' n ≡ q ++ more
    → 0 < length more
    → process_multibulk_buffer (reading multibulk_request q 0 none [] ran)
      ≡ some (false, reading multibulk_request q 0 none [] ran)
unfolding process_multibulk_buffer cat_count
count_part n q more ran small e open_end =
    elim (find_cr-part (line b'*' n) q more (refl, refl, (number-IsPlain n).0) e open_end) [
      | inl missing ↦
          let short : ltb inline_max_size (length q) ≡ false = ground arith in
          rw (missing, short) refl
      | inr (found, long) ↦
          let short : ltb (length q) (length (line b'*' n) + 2) ≡ true = ground arith in
          rw (found, short) refl
    ]

-- The line is there: the arguments are read behind it.
count_whole :
    (n : ℕ) (q left : List ℕ) (ran : List (List (List ℕ)))
    → 0 < n
    → n ≤ max_args
    → q ≡ cat_count b'*' n ++ left
    → process_multibulk_buffer (reading multibulk_request q 0 none [] ran)
      ≡ some (read_args n (length (cat_count b'*' n)) (reading multibulk_request q n none [] ran))
unfolding process_multibulk_buffer
count_whole n q left ran some_args few e =
    let size = length-cat_count b'*' n in
    let found : find_cr q ≡ some (length (line b'*' n)) =
      ap find_cr e ∙ found_line b'*' n left refl refl in
    let enough : ltb (length q) (length (line b'*' n) + 2) ≡ false =
      ground (arith, length-append (cat_count b'*' n) left, ap length e) in
    let star : get_or q 0 0 ≡ b'*' = ap (λ i. get_or i 0 0) e ∙ first in
    let width : length (line b'*' n) - 1 ≡ length (number n) = omega arith in
    let next : length (line b'*' n) + 2 ≡ length (cat_count b'*' n) = omega arith in
    let bounded : ltb max_args n ≡ false = ground arith in
    let counted : n == 0 ≡ false = ground arith in
    rw
      (
        found,
        enough,
        star,
        width,
        number-slice b'*' n 0 q left e,
        number-read n (omega arith),
        bounded,
        counted,
        next,
      )
      refl
  where
    first : get_or (cat_count b'*' n ++ left) 0 0 ≡ b'*'
    first = unfold cat_count in refl

-- what becomes of a request from its first line on
pub data Start (args : List (List ℕ)) (s future q : List ℕ) (room : ℕ) (ran : List (List (List ℕ)))
    : Option (Bool × Reader) → Type 0 where
  no_count :
      length q < length (cat_count b'*' (length args))
      → Start args s future q room ran (some (false, reading multibulk_request q 0 none [] ran))
  counted :
      {x : Bool × Reader} → Args args s future room ran x → Start args s future q room ran (some x)

pub start_lem :
    (args : List (List ℕ)) (s future q : List ℕ) (room : ℕ) (ran : List (List (List ℕ)))
    → IsRequest args
    → length q ≤ inline_max_size
    → length q ≤ room + 1
    → q ++ future ≡ cat_count b'*' (length args) ++ (cat_args args ++ s)
    → Start args s future q room ran
        (process_multibulk_buffer (reading multibulk_request q 0 none [] ran))
start_lem args s future q room ran (some_args, few, good) small fits e =
    let header = cat_count b'*' (length args) in
    elim (Bool-cases (ltb (length q) (length header))) [
      | inl short ↦
          let (more, e1, e2) = split_part q future header (cat_args args ++ s) e (ground arith) in
          rw (count_part (length args) q more ran small e1 e2) (no_count (ground arith))
      | inr long ↦
          let (left, e1, e2) = split_whole q future header (cat_args args ++ s) e (ground arith) in
          let rest : drop (length header) q ≡ left =
            ap (λ i. drop (length header) i) e1 ∙ drop-append_self header left in
          let arrived : drop (length header) q ++ future ≡ expected none args ++ s =
            ap (λ i. i ++ future) rest ∙ (unfold expected in e2) in
          let size = length-cat_count b'*' (length args) in
          let room_left : length (drop (length header) q) ≤ room + length args =
            omega (arith, length-drop (length header) q) in
          rw (count_whole (length args) q left ran some_args few e1) (
            counted (
              read_args_lem none args s future q (length header) [] args room ran good
                (ground arith) tt small arrived refl room_left))
    ]
