-- ===== src/Networking/Requests.antt =====
-- redis/src/networking.c: the loop over the requests in a buffer.
use coffee_table.Prelude.{
  ℕ, zero, suc, ◌≤◌, ◌<◌, ◌≡◌, refl, ap, sym, ◌∙◌, inl, inr, Bool, true, false, Option, none, some,
  List, [], ◌∷◌, ◌++◌, length, length-append, append_assoc, ◌==◌, get_or, arith,
}
use coffee_table.Aof.{cat_append_only_generic_command, cat_args, cat_count, crlf}
use coffee_table.Protocol.{Reader, unknown, multibulk_request, inline_max_size}
use coffee_table.Networking.{Effect, process_command, request_type, process_input_buffer}
use coffee_table.Networking.Counts.{length-cat_count}
use coffee_table.Networking.Stream.{
  reading, kind, piece, Bounded, AreRequests, AreArgs, stream, Stage, idle, starts, inside, IsShort,
  IsBounded,
}
use coffee_table.Networking.Body.{no_more}
use coffee_table.Networking.Turns.{At}
use coffee_table.Networking.Args.{Args, all_read, some_read, read_args_lem}
use coffee_table.Networking.Starts.{Start, no_count, counted, start_lem}

pub stream_step :
    (args : List (List ℕ)) (more : List (List (List ℕ)))
    → stream (args ∷ more) ≡ cat_count b'*' (length args) ++ (cat_args args ++ stream more)
unfolding stream cat_append_only_generic_command cat_count
stream_step args more = append_assoc (cat_count b'*' (length args)) (cat_args args) (stream more)

pub stream_end : (todo : List (List (List ℕ))) → length (stream todo) ≡ 0 → todo ≡ []
stream_end [] h = refl
stream_end (args ∷ more) h = absurd (
    omega (
      arith,
      length-cat_count b'*' (length args),
      length-append (cat_count b'*' (length args)) (cat_args args ++ stream more),
      ap length (stream_step args more),
    ))

pub stream_nil : stream [] ≡ []
unfolding stream
stream_nil = refl

AreArgs-behind : (done args : List (List ℕ)) → AreArgs (done ++ args) → AreArgs args
AreArgs-behind [] args h = h
AreArgs-behind (arg ∷ done) args h = AreArgs-behind done args h.1

-- Behind a request the reader is at the next one, or idle.
pub next_stage :
    (future q : List ℕ) (ran todo : List (List (List ℕ)))
    → q ++ future ≡ stream todo
    → length q ≤ inline_max_size
    → Stage IsBounded future ran todo (reading unknown q 0 none [] ran)
next_stage future q ran [] e h =
    let nothing : q ≡ [] =
      no_more q (omega (arith, length-append q future, ap length (e ∙ stream_nil))) in
    let arrived : future ≡ stream [] = ap (λ i. i ++ future) (sym nothing) ∙ e in
    rw nothing (idle [] arrived)
next_stage future q ran (args ∷ more) e h = starts false q args more e h

module _ (run : List (List ℕ) → Effect) where
  -- commands that neither block the client nor close it, and are run
  abbrev pub AreRun : List (List (List ℕ)) → Type 0
  AreRun [] = Unit {0}
  AreRun (args ∷ more) =
      ((run args).blocks ≡ false)
      × ((run args).closes ≡ false)
      × ((run args).is_ok ≡ true)
      × AreRun more

  command_lem :
      (args q : _) (ran : List (List (List ℕ)))
      → 0 < length args
      → (run args).blocks ≡ false
      → (run args).closes ≡ false
      → (run args).is_ok ≡ true
      → process_command run (reading multibulk_request q 0 none args ran)
        ≡ reading unknown q 0 none [] (ran ++ (args ∷ []))
  command_lem args q ran some_args h1 h2 h3 =
      let full : length args == 0 ≡ false = ground arith in rw (full, h1, h2, h3) refl

  -- what the loop leaves: a part of the requests, and the reader short of the next piece
  pub data Left (future : List ℕ) (all : List (List (List ℕ))) : Option Reader → Type 0 where
    left_at :
        (ran todo : List (List (List ℕ))) (r : Reader)
        → ran ++ todo ≡ all
        → AreRequests todo
        → AreRun todo
        → Stage IsShort future ran todo r
        → Left future all (some r)

  -- the end of a round of the loop
  after-Args :
      (fuel : ℕ) (args : List (List ℕ)) (more : List (List (List ℕ))) (future : List ℕ) (room : ℕ)
      (ran all : List (List (List ℕ))) {x : Bool × Reader}
      → ran ++ (args ∷ more) ≡ all
      → AreRequests (args ∷ more)
      → AreRun (args ∷ more)
      → ((q : List ℕ)
          → length q ≤ room
          → Stage IsBounded future
              (ran ++ (args ∷ []))
              more
              (reading unknown q 0 none [] (ran ++ (args ∷ [])))
          → Left future all
              (process_input_buffer run fuel (reading unknown q 0 none [] (ran ++ (args ∷ [])))))
      → Args args (stream more) future room ran x
      → Left future all (elim x.0 [
        | false ↦ some x.1
        | true ↦ process_input_buffer run fuel (process_command run x.1)
      ])
  after-Args fuel args more future room ran all same (good, goods) (h1, h2, h3, hs) later
        (all_read q e h small) =
      rw (command_lem args q ran good.0 h1 h2 h3)
        (later q h (next_stage future q (ran ++ (args ∷ [])) more e small))
  after-Args fuel args more future room ran all same goods hs later
        (some_read q bulk done arg left e fits arrived short) =
      left_at ran (args ∷ more) (reading multibulk_request q (suc (length left)) bulk done ran) same
        goods hs (rw (← e) (inside q bulk done arg left more fits arrived short))

  after-Start :
      (fuel : ℕ) (args : List (List ℕ)) (more : List (List (List ℕ))) (future q : List ℕ) (room : ℕ)
      (ran all : List (List (List ℕ))) {x : Option (Bool × Reader)}
      → ran ++ (args ∷ more) ≡ all
      → AreRequests (args ∷ more)
      → AreRun (args ∷ more)
      → q ++ future ≡ stream (args ∷ more)
      → ((q : List ℕ)
          → length q ≤ room
          → Stage IsBounded future
              (ran ++ (args ∷ []))
              more
              (reading unknown q 0 none [] (ran ++ (args ∷ [])))
          → Left future all
              (process_input_buffer run fuel (reading unknown q 0 none [] (ran ++ (args ∷ [])))))
      → Start args (stream more) future q room ran x
      → Left future all (elim x [
        | none ↦ none
        | some (ok, r) ↦ elim ok [
          | false ↦ some r
          | true ↦ process_input_buffer run fuel (process_command run r)
        ]
      ])
  after-Start fuel args more future q room ran all same goods hs e later (no_count short) =
      left_at ran (args ∷ more) (reading multibulk_request q 0 none [] ran) same goods hs
        (starts true q args more e short)
  after-Start fuel args more future q room ran all same goods hs e later (counted x) =
      after-Args fuel args more future room ran all same goods hs later x

  star_first :
      (typed : Bool) (c : ℕ) (q future : List ℕ) (args : List (List ℕ))
      (more : List (List (List ℕ))) (ran : List (List (List ℕ)))
      → (c ∷ q) ++ future ≡ stream (args ∷ more)
      → request_type (reading (kind typed) (c ∷ q) 0 none [] ran) ≡ multibulk_request
  star_first true c q future args more ran e = refl
  star_first false c q future args more ran e =
      let star : c ≡ b'*' =
        ap (λ i. get_or i 0 0) (e ∙ stream_step args more) ∙ (unfold cat_count in refl) in
      rw star refl

  At-start : (bulk : Option ℕ) (q : List ℕ) → Bounded bulk q → At bulk 0 q
  At-start none q h = h
  At-start (some n) q (inl small) = inl small
  At-start (some n) q (inr (big, least)) = inr (refl, big, least)

  short_of : (bulk : Option ℕ) (arg : List ℕ) → 0 < length (piece bulk arg)
  short_of none arg = omega (arith, length-cat_count b'$' (length arg))
  short_of (some n) arg = omega (arith, length-append arg crlf)

  pub requests_lem :
      (fuel : ℕ) (future : List ℕ) (ran todo all : List (List (List ℕ))) (r : Reader)
      → ran ++ todo ≡ all
      → Stage IsBounded future ran todo r
      → AreRequests todo
      → AreRun todo
      → length r.querybuf < fuel
      → Left future all (process_input_buffer run fuel r)
  unfolding process_input_buffer
  requests_lem zero future ran todo all r same stage goods hs h = absurd (omega arith)
  requests_lem (suc fuel) future ran todo all _ same (idle _ e) goods hs h =
      left_at ran todo (reading unknown [] 0 none [] ran) same goods hs (idle todo e)
  requests_lem (suc fuel) future ran _ all _ same (starts typed [] args more e small) goods hs h =
      left_at ran (args ∷ more) (reading (kind typed) [] 0 none [] ran) same goods hs
        (starts typed [] args more e (omega (arith, length-cat_count b'*' (length args))))
  requests_lem (suc fuel) future ran _ all _ same (starts typed (c ∷ q) args more e small)
        (good, goods) (h1, h2, h3, hs) h =
      let some_bytes : suc (length q) == 0 ≡ false = ground arith in
      rw (some_bytes, star_first typed c q future args more ran e)
        (after-Start fuel args more future (c ∷ q) (length q) ran all same (good, goods)
          (h1, h2, h3, hs) e
          (λ q' less stage.
            requests_lem fuel future (ran ++ (args ∷ [])) more all _
              (append_assoc ran (args ∷ []) more ∙ same) stage goods hs (omega arith))
          (start_lem args (stream more) future (c ∷ q) (length q) ran good small (omega arith)
            (e ∙ stream_step args more)))
  requests_lem (suc fuel) future ran _ all _ same (inside [] bulk done arg args more fits e bounded)
        goods hs h =
      left_at ran ((done ++ (arg ∷ args)) ∷ more) _ same goods hs
        (inside [] bulk done arg args more fits e (short_of bulk arg))
  requests_lem (suc fuel) future ran _ all _ same
        (inside (c ∷ q) bulk done arg args more fits e bounded) (good, goods) (h1, h2, h3, hs) h =
      let some_bytes : suc (length q) == 0 ≡ false = ground arith in
      let some_args : suc (length args) == 0 ≡ false = ground arith in
      let all_args = done ++ (arg ∷ args) in
      rw (some_bytes, some_args)
        (after-Args fuel all_args more future (length q) ran all same (good, goods) (h1, h2, h3, hs)
          (λ q' less stage.
            requests_lem fuel future (ran ++ (all_args ∷ [])) more all _
              (append_assoc ran (all_args ∷ []) more ∙ same) stage goods hs (omega arith))
          (read_args_lem bulk (arg ∷ args) (stream more) future (c ∷ q) 0 done all_args (length q)
            ran (AreArgs-behind done (arg ∷ args) good.2) (omega arith) fits
            (At-start bulk (c ∷ q) bounded) e refl (omega arith)))
