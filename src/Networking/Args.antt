-- ===== src/Networking/Args.antt =====
-- redis/src/networking.c: the loop that reads the arguments of a request.
use coffee_table.Prelude.{
  length-drop, ℕ, suc, ◌+◌, ◌≤◌, ◌<◌, ◌≡◌, ◌∙◌, Bool, true, false, Option, none, some, List, [],
  ◌∷◌, ◌++◌, length, append_assoc, append-nil, drop, arith,
}
use coffee_table.Aof.{cat_args}
use coffee_table.Protocol.{
  Reader, multibulk_request, Round, stops, moves, read_args, inline_max_size,
}
use coffee_table.Networking.Stream.{reading, expected, Fits, piece, AreArgs}
use coffee_table.Networking.Body.{trim_lem}
use coffee_table.Networking.Turns.{Turn, stays, takes, bulk_round_lem, At}

-- the loop, which has read all the arguments or waits for more; `room` bounds what it leaves
pub data Args (all : List (List ℕ)) (s future : List ℕ) (room : ℕ) (ran : List (List (List ℕ)))
    : Bool × Reader → Type 0 where
  all_read :
      (q : List ℕ)
      → q ++ future ≡ s
      → length q ≤ room
      → length q ≤ inline_max_size
      → Args all s future room ran (true, reading multibulk_request q 0 none all ran)
  some_read :
      (q : List ℕ) (bulk : Option ℕ) (done : List (List ℕ)) (arg : List ℕ) (args : List (List ℕ))
      → done ++ (arg ∷ args) ≡ all
      → Fits bulk (arg ∷ args)
      → q ++ future ≡ expected bulk (arg ∷ args) ++ s
      → length q < length (piece bulk arg)
      → Args all s future room ran
          (false, reading multibulk_request q (suc (length args)) bulk done ran)

after-Turn :
    (arg : List ℕ) (args : List (List ℕ)) (s future buf : List ℕ) (p : ℕ) (argv all : List (List ℕ))
    (room : ℕ) (ran : List (List (List ℕ))) {x : Round}
    → argv ++ (arg ∷ args) ≡ all
    → ((next : ℕ) (left : List ℕ)
        → next ≤ length left
        → length left ≤ inline_max_size
        → drop next left ++ future ≡ cat_args args ++ s
        → length (drop next left) < length (drop p buf)
        → Args all s future room ran (
            read_args
              (length args)
              next
              (reading multibulk_request left (length args) none (argv ++ (arg ∷ [])) ran)))
    → Turn arg args s future buf p (length args) argv ran x
    → Args all s future room ran
        (elim x [ stops y ↦ y | moves next r ↦ read_args (length args) next r ])
after-Turn arg args s future buf p argv all room ran same later (stays q bulk fits e short) =
    some_read q bulk argv arg args same fits e short
after-Turn arg args s future buf p argv all room ran same later
      (takes next left inside small e less) =
    later next left inside small e less

pub read_args_lem :
    (bulk : Option ℕ) (todo : List (List ℕ)) (s future buf : List ℕ) (p : ℕ)
    (argv all : List (List ℕ)) (room : ℕ) (ran : List (List (List ℕ)))
    → AreArgs todo
    → p ≤ length buf
    → Fits bulk todo
    → At bulk p buf
    → drop p buf ++ future ≡ expected bulk todo ++ s
    → argv ++ todo ≡ all
    → length (drop p buf) ≤ room + length todo
    → Args all s future room ran
        (read_args (length todo) p (reading multibulk_request buf (length todo) bulk argv ran))
unfolding read_args expected
read_args_lem none [] s future buf p argv all room ran good inside fits bound e same h =
    rw (trim_lem p multibulk_request buf 0 none argv ran, ← append-nil argv, same)
      (all_read (drop p buf) (unfold cat_args in e) (omega arith)
        (omega (arith, length-drop p buf)))
read_args_lem (some n) [] s future buf p argv all room ran good inside fits bound e same h =
    absurd (omega arith)
read_args_lem bulk (arg ∷ args) s future buf p argv all room ran (good, more) inside fits bound e
      same h =
    after-Turn arg args s future buf p argv all room ran same
      (λ next left in' small e' less.
        read_args_lem none args s future left next (argv ++ (arg ∷ [])) all room ran more in' tt
          small e' (append_assoc argv (arg ∷ []) args ∙ same) (omega arith))
      (bulk_round_lem bulk arg args s future buf p (length args) argv ran good inside fits bound e)
