-- ===== src/Networking/Client.antt =====
-- redis/src/networking.c: all the reads of a client that sends requests.
use coffee_table.Prelude.{
  ℕ, zero, suc, ◌+◌, ◌-◌, ◌≤◌, ◌<◌, ◌≡◌, refl, ap, sym, ◌∙◌, inl, inr, false, Option, none, some,
  List, [], ◌∷◌, ◌++◌, length, length-append, length-drop, append-nil, take, drop, take-append-drop,
  if◌then◌else◌, ltb, ◌==◌, Bool-cases, arith,
}
use coffee_table.Aof.{cat_count, cat_args, crlf}
use coffee_table.Protocol.{Reader, unknown}
use coffee_table.Networking.{Effect, read_length, read_query_from_client, read_event, read_events}
use coffee_table.Networking.Stream.{
  reading, AreRequests, stream, Stage, idle, starts, inside, IsShort,
}
use coffee_table.Networking.Requests.{AreRun, Left, left_at, requests_lem, stream_step, stream_end}
use coffee_table.Networking.Body.{no_more}
use coffee_table.Networking.Turns.{expected_length, expected_bytes}
use coffee_table.Networking.Reads.{after_read, asks_something, with_bytes}

-- a client that has just connected
abbrev pub connected : Reader
connected = reading unknown [] 0 none [] []

-- the reads that give something while the socket is readable
abbrev pub nonempty_reads : List ℕ → ℕ
nonempty_reads [] = 0
nonempty_reads (zero ∷ more) = nonempty_reads more
nonempty_reads (suc n ∷ more) = suc (nonempty_reads more)

abbrev at_least : ℕ → ℕ
at_least zero = 0
at_least (suc n) = 1

take_le : (n : ℕ) (s : List ℕ) → length (take n s) ≤ n
take_le zero s = omega arith
take_le (suc n) [] = omega arith
take_le (suc n) (x ∷ s) = omega (arith, take_le n s)

asked_lem :
    (n k : ℕ) → 0 < k → ((if ltb n k then n else k) ≤ k) × (at_least n ≤ (if ltb n k then n else k))
asked_lem zero k h = (ground arith, omega arith)
asked_lem (suc n) k h = (ground arith, ground arith)

module _ (run : List (List ℕ) → Effect) where
  -- what an event, or all of them, leave
  data Served (all : List (List (List ℕ))) (room : ℕ) : Option (Reader × List ℕ) → Type 0 where
    served :
        (ran todo : List (List (List ℕ))) (r : Reader) (socket : List ℕ)
        → ran ++ todo ≡ all
        → AreRequests todo
        → AreRun run todo
        → Stage IsShort socket ran todo r
        → length socket ≤ room
        → Served all room (some (r, socket))

  Served-of :
      (future : List ℕ) (all : List (List (List ℕ))) (room : ℕ) {x : Option Reader}
      → length future ≤ room
      → Left run future all x
      → Served all room (elim x [ none ↦ none | some r ↦ some (r, future) ])
  Served-of future all room h (left_at ran todo r same goods hs stage) =
      served ran todo r future same goods hs stage h

  event_lem :
      (n : ℕ) (ran todo all : List (List (List ℕ))) (r : Reader) (socket : List ℕ)
      → ran ++ todo ≡ all
      → AreRequests todo
      → AreRun run todo
      → Stage IsShort socket ran todo r
      → Served all (length socket - at_least n) (read_event run n socket r)
  unfolding read_event read_query_from_client
  event_lem n ran todo all r socket same goods hs stage =
      let len = if ltb n (read_length r) then n else read_length r in
      let positive = asks_something socket ran todo r stage in
      let size = length-drop len socket in
      let (most, least) = asked_lem n (read_length r) positive in
      let kept : length (take len socket) + length (drop len socket) ≡ length socket =
        sym (length-append (take len socket) (drop len socket))
        ∙ ap length (take-append-drop len socket) in
      let read_le = take_le len socket in
      elim (Bool-cases (length (take len socket) == 0)) [
        | inl nothing ↦ rw nothing (served ran todo r socket same goods hs stage (ground arith))
        | inr bytes ↦
            let split : take len socket ++ drop len socket ≡ socket = take-append-drop len socket in
            let there : Stage IsShort (take len socket ++ drop len socket) ran todo r =
              rw split stage in
            let asked : length (take len socket) ≤ read_length r = omega arith in
            let rest : length (drop len socket) ≤ length socket - at_least n = ground arith in
            rw bytes (
              Served-of (drop len socket) all (length socket - at_least n) rest (
                requests_lem run (length (r.querybuf ++ take len socket) + 1) (drop len socket) ran
                  todo all (with_bytes (take len socket) r) same
                  (after_read (take len socket) (drop len socket) ran todo r asked there) goods hs
                  (omega arith)))
      ]

  each_event :
      (sizes : List ℕ) (all : List (List (List ℕ))) (room k : ℕ) {x : Option (Reader × List ℕ)}
      → ((ran todo : List (List (List ℕ))) (r : Reader) (socket : List ℕ)
          → ran ++ todo ≡ all
          → AreRequests todo
          → AreRun run todo
          → Stage IsShort socket ran todo r
          → length socket ≤ k
          → Served all room (read_events run sizes socket r))
      → Served all k x
      → Served all room (elim x [ none ↦ none | some (r, left) ↦ read_events run sizes left r ])
  each_event sizes all room k later (served ran todo r socket same goods hs stage small) =
      later ran todo r socket same goods hs stage small

  reads_lem :
      (sizes : List ℕ) (ran todo all : List (List (List ℕ))) (r : Reader) (socket : List ℕ)
      (room : ℕ)
      → ran ++ todo ≡ all
      → AreRequests todo
      → AreRun run todo
      → Stage IsShort socket ran todo r
      → length socket ≤ room + nonempty_reads sizes
      → Served all room (read_events run sizes socket r)
  unfolding read_events
  reads_lem [] ran todo all r socket room same goods hs stage h =
      served ran todo r socket same goods hs stage (omega arith)
  reads_lem (n ∷ sizes) ran todo all r socket room same goods hs stage h =
      let few = enough n h in
      each_event sizes all room (length socket - at_least n)
        (λ ran' todo' r' socket' same' goods' hs' stage' small.
          reads_lem sizes ran' todo' all r' socket' room same' goods' hs' stage' (omega arith))
        (event_lem n ran todo all r socket same goods hs stage)
    where
      enough :
          (n : ℕ)
          → length socket ≤ room + nonempty_reads (n ∷ sizes)
          → length socket - at_least n ≤ room + nonempty_reads sizes
      enough zero h = omega arith
      enough (suc n) h = omega arith

-- A reader that waits for a part of a request has not been given all.
stage_end :
    (ran todo : List (List (List ℕ))) (r : Reader)
    → Stage IsShort [] ran todo r
    → (todo ≡ []) × (r ≡ reading unknown [] 0 none [] ran)
stage_end ran todo _ (idle _ e) = (stream_end todo (ap length (sym e)), refl)
stage_end ran _ _ (starts typed q args more e short) =
    let sum = length-append (cat_count b'*' (length args)) (cat_args args ++ stream more) in
    absurd (omega (arith, ap length (stream_step args more), ap length e, ap length (append-nil q)))
stage_end ran _ _ (inside q none done arg args more fits e short) =
    let behind = arg ++ (crlf ++ (cat_args args ++ stream more)) in
    absurd (
      omega (
        arith,
        ap length (expected_length arg args (stream more)),
        ap length e,
        ap length (append-nil q),
        length-append (cat_count b'$' (length arg)) behind,
      ))
stage_end ran _ _ (inside q (some n) done arg args more fits e short) =
    let behind = cat_args args ++ stream more in
    absurd (
      omega (
        arith,
        ap length (expected_bytes n arg args (stream more)),
        ap length e,
        ap length (append-nil q),
        length-append arg crlf,
        length-append arg (crlf ++ behind),
      ))

fresh_stage : (reqs : List (List (List ℕ))) → Stage IsShort (stream reqs) [] reqs connected
fresh_stage reqs = idle reqs refl

stage_fields :
    (socket : List ℕ) (ran todo : List (List (List ℕ))) (r : Reader)
    → Stage IsShort socket ran todo r
    → (r.executed ≡ ran) × (r.errors ≡ []) × (r.close_after_reply ≡ false)
stage_fields socket ran todo _ (idle _ e) = (refl, refl, refl)
stage_fields socket ran _ _ (starts typed q args more e short) = (refl, refl, refl)
stage_fields socket ran _ _ (inside q bulk done arg args more fits e short) = (refl, refl, refl)

-- A client sends requests of 1 to 1048576 arguments, each of at most 512 MB, in the form that
-- `catAppendOnlyGenericCommand` writes. If their commands answer REDIS_OK and neither block nor close
-- the client, and there are at least as many reads that give something as there are bytes, then
-- whatever the sizes of the reads are, the commands run are the requests, in their order, no error is
-- replied, and nothing is left in the buffer or the socket.
pub served_all :
    (run : List (List ℕ) → Effect) (reqs : List (List (List ℕ))) (sizes : List ℕ)
    → AreRequests reqs
    → AreRun run reqs
    → length (stream reqs) ≤ nonempty_reads sizes
    → read_events run sizes (stream reqs) connected ≡ some (reading unknown [] 0 none [] reqs, [])
served_all run reqs sizes goods hs h = finish (
    reads_lem run sizes [] reqs reqs connected (stream reqs) 0 refl goods hs (fresh_stage reqs)
      (omega arith))
  where
    finish :
        {x : Option (Reader × List ℕ)}
        → Served run reqs 0 x
        → x ≡ some (reading unknown [] 0 none [] reqs, [])
    finish (served ran todo r socket same goods' hs' stage small) =
        let closed = no_more socket (omega arith) in
        let last : Stage IsShort [] ran todo r = rw closed at stage in
        let (none_left, e) = stage_end ran todo r last in
        let every : ran ≡ reqs = sym (append-nil ran) ∙ ap (λ i. ran ++ i) (sym none_left) ∙ same in
        rw (e, closed, every) refl

-- A client sends requests of 1 to 1048576 arguments, each of at most 512 MB, in the form that
-- `catAppendOnlyGenericCommand` writes. If their commands answer REDIS_OK and neither block nor close
-- the client, then after any reads of any sizes none has failed, the commands run so far are the first
-- of its requests, and no protocol error has been found.
pub served_first :
    (run : List (List ℕ) → Effect) (reqs : List (List (List ℕ))) (sizes : List ℕ)
    → AreRequests reqs
    → AreRun run reqs
    → (r : Reader) × (socket : List ℕ) × (todo : List (List (List ℕ))) × (read_events run sizes
          (stream reqs)
          connected
        ≡ some (r, socket))
      × (r.executed ++ todo ≡ reqs)
      × (r.errors ≡ [])
      × (r.close_after_reply ≡ false)
served_first run reqs sizes goods hs = finish (
    reads_lem run sizes [] reqs reqs connected (stream reqs) (length (stream reqs)) refl goods hs
      (fresh_stage reqs) (omega arith))
  where
    finish :
        {x : Option (Reader × List ℕ)}
        → Served run reqs (length (stream reqs)) x
        → (r : Reader) × (socket : List ℕ) × (todo : List (List (List ℕ))) × (x ≡ some (r, socket))
          × (r.executed ++ todo ≡ reqs)
          × (r.errors ≡ [])
          × (r.close_after_reply ≡ false)
    finish (served ran todo r socket same goods' hs' stage small) =
        let (e1, e2, e3) = stage_fields socket ran todo r stage in
        (r, socket, todo, refl, rw e1 same, e2, e3)
