-- ===== src/Networking/Turns.antt =====
-- redis/src/networking.c: a round of the loop that reads the arguments of a request.
use coffee_table.Prelude.{
  ℕ, Bool, suc, ◌+◌, ◌≤◌, ◌<◌, ◌≡◌, refl, ap, sym, ◌∙◌, inl, inr, ◌⊎◌, true, false, Option, none,
  some, List, [], ◌∷◌, ◌++◌, length, length-append, length-drop, append_assoc, drop, drop-drop,
  if◌then◌else◌, ltb, leb, Bool-cases, arith,
}
use coffee_table.Aof.{crlf, cat_count, cat_args}
use coffee_table.Protocol.{
  multibulk_request, Round, stops, moves, bulk_round, inline_max_size, mbulk_big_arg, max_bulk,
}
use coffee_table.Networking.Lines.{split_whole, split_part, drop-append_self}
use coffee_table.Networking.Counts.{bulk_line-whole, bulk_line-part}
use coffee_table.Networking.Stream.{reading, expected, Fits, piece}
use coffee_table.Networking.Body.{trim_lem, Body, waits, goes_on, bulk_body_lem}

-- what a round may do
pub data Turn (arg : List ℕ) (args : List (List ℕ)) (s future buf : List ℕ) (p m : ℕ)
    (argv : List (List ℕ)) (ran : List (List (List ℕ))) : Round → Type 0 where
  stays :
      (q : List ℕ) (bulk : Option ℕ)
      → Fits bulk (arg ∷ args)
      → q ++ future ≡ expected bulk (arg ∷ args) ++ s
      → length q < length (piece bulk arg)
      → Turn arg args s future buf p m argv ran
          (stops (false, reading multibulk_request q (suc m) bulk argv ran))
  takes :
      (next : ℕ) (left : List ℕ)
      → next ≤ length left
      → length left ≤ inline_max_size
      → drop next left ++ future ≡ cat_args args ++ s
      → length (drop next left) < length (drop p buf)
      → Turn arg args s future buf p m argv ran
          (moves next (reading multibulk_request left m none (argv ++ (arg ∷ [])) ran))

pub expected_length :
    (arg : List ℕ) (args : List (List ℕ)) (s : List ℕ)
    → expected none (arg ∷ args) ++ s
      ≡ cat_count b'$' (length arg) ++ (arg ++ (crlf ++ (cat_args args ++ s)))
unfolding expected cat_args
expected_length arg args s =
    append_assoc (cat_count b'$' (length arg)) (arg ++ (crlf ++ cat_args args)) s
    ∙ ap (λ i. cat_count b'$' (length arg) ++ i) (append_assoc arg (crlf ++ cat_args args) s)

pub expected_bytes :
    (n : ℕ) (arg : List ℕ) (args : List (List ℕ)) (s : List ℕ)
    → expected (some n) (arg ∷ args) ++ s ≡ arg ++ (crlf ++ (cat_args args ++ s))
unfolding expected
expected_bytes n arg args s = append_assoc arg (crlf ++ cat_args args) s

Turn-of :
    (arg : List ℕ) (args : List (List ℕ)) (s future buf : List ℕ) (p m : ℕ) (argv : List (List ℕ))
    (ran : List (List (List ℕ))) (buf' : List ℕ) (p' : ℕ) {x : Round}
    → drop p' buf' ++ future ≡ arg ++ (crlf ++ (cat_args args ++ s))
    → length (drop p' buf') ≤ length (drop p buf)
    → Body arg (cat_args args ++ s) future buf' p' m argv ran x
    → Turn arg args s future buf p m argv ran x
Turn-of arg args s future buf p m argv ran buf' p' e h (waits few) =
    let size : length (arg ++ crlf) ≡ length arg + 2 = length-append arg crlf in
    stays (drop p' buf') (some (length arg)) refl (e ∙ sym (expected_bytes (length arg) arg args s))
      (omega arith)
Turn-of arg args s future buf p m argv ran buf' p' e h (goes_on next left inside small later less) =
    takes next left inside small later (omega arith)

-- where the buffer of a round may be larger than 64 KB
abbrev pub At : Option ℕ → ℕ → List ℕ → Type 0
At none p buf = length buf ≤ inline_max_size
At (some n) p buf =
    (length buf ≤ inline_max_size) ⊎ ((p ≡ 0) × (mbulk_big_arg ≤ n) × (length buf ≤ n + 2))

length_round :
    (arg : List ℕ) (args : List (List ℕ)) (s future buf : List ℕ) (p m : ℕ) (argv : List (List ℕ))
    (ran : List (List (List ℕ)))
    → length arg ≤ max_bulk
    → p ≤ length buf
    → length buf ≤ inline_max_size
    → drop p buf ++ future ≡ cat_count b'$' (length arg) ++ (arg ++ (crlf ++ (cat_args args ++ s)))
    → cat_args (arg ∷ args) ++ s
      ≡ cat_count b'$' (length arg) ++ (arg ++ (crlf ++ (cat_args args ++ s)))
    → Turn arg args s future buf p m argv ran
        (bulk_round none p (reading multibulk_request buf (suc m) none argv ran))
unfolding expected
length_round arg args s future buf p m argv ran fits inside small e bytes =
    let header = cat_count b'$' (length arg) in
    let behind = arg ++ (crlf ++ (cat_args args ++ s)) in
    elim (Bool-cases (ltb (length (drop p buf)) (length header))) [
      | inl short ↦
          let (more, e1, e2) = split_part (drop p buf) future header behind e (ground arith) in
          let line = bulk_line-part (length arg) p buf more small inside e1 e2 in
          rw (line, trim_lem p multibulk_request buf (suc m) none argv ran)
            (stays (drop p buf) none tt (e ∙ sym bytes) (ground arith))
      | inr long ↦
          let (left, e1, e2) = split_whole (drop p buf) future header behind e (ground arith) in
          let line = bulk_line-whole (length arg) p buf left fits inside e1 in
          let next = p + length header in
          let rest : drop next buf ≡ left =
            sym (drop-drop (length header) p buf)
            ∙ ap (λ i. drop (length header) i) e1
            ∙ drop-append_self header left in
          let arrived : drop next buf ++ future ≡ behind = ap (λ i. i ++ future) rest ∙ e2 in
          let inside' : next ≤ length buf = ground (arith, length-drop p buf) in
          let size = length-drop next buf in
          let shorter : length (drop next buf) ≤ length (drop p buf) =
            omega (arith, length-drop p buf) in
          let ahead =
            bulk_body_lem arg (cat_args args ++ s) future (drop next buf) 0 m none argv ran
              (omega arith) arrived (inl (omega arith)) in
          let along =
            bulk_body_lem arg (cat_args args ++ s) future buf next m none argv ran inside' arrived
              (inl small) in
          rw line (
            either_turn (leb mbulk_big_arg (length arg))
              (Turn-of arg args s future buf p m argv ran (drop next buf) 0 arrived shorter ahead)
              (Turn-of arg args s future buf p m argv ran buf next arrived shorter along))
    ]
  where
    either_turn :
        (b : Bool) {x y : Round}
        → Turn arg args s future buf p m argv ran x
        → Turn arg args s future buf p m argv ran y
        → Turn arg args s future buf p m argv ran (if b then x else y)
    either_turn true hx hy = hx
    either_turn false hx hy = hy

pub bulk_round_lem :
    (bulk : Option ℕ) (arg : List ℕ) (args : List (List ℕ)) (s future buf : List ℕ) (p m : ℕ)
    (argv : List (List ℕ)) (ran : List (List (List ℕ)))
    → length arg ≤ max_bulk
    → p ≤ length buf
    → Fits bulk (arg ∷ args)
    → At bulk p buf
    → drop p buf ++ future ≡ expected bulk (arg ∷ args) ++ s
    → Turn arg args s future buf p m argv ran
        (bulk_round bulk p (reading multibulk_request buf (suc m) bulk argv ran))
bulk_round_lem none arg args s future buf p m argv ran fits inside same bound e =
    length_round arg args s future buf p m argv ran fits inside bound
      (e ∙ expected_length arg args s) (unfold expected in expected_length arg args s)
bulk_round_lem (some n) arg args s future buf p m argv ran fits inside same bound e =
    let arrived = e ∙ expected_bytes n arg args s in
    let large : (length buf ≤ inline_max_size)
        ⊎ ((p ≡ 0) × (mbulk_big_arg ≤ length arg) × (length buf ≤ length arg + 2)) =
      elim bound [
        | inl small ↦ inl small
        | inr (start, big, least) ↦ inr (start, omega arith, omega arith)
      ] in
    rw same (
      Turn-of arg args s future buf p m argv ran buf p arrived (omega arith) (
        bulk_body_lem arg (cat_args args ++ s) future buf p m (some (length arg)) argv ran inside
          arrived large))
