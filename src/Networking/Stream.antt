-- ===== src/Networking/Stream.antt =====
-- redis/src/networking.c: the stages of a reader on a stream of requests, of which `future` has not arrived.
use coffee_table.Prelude.{
  ℕ, suc, ◌+◌, ◌≤◌, ◌<◌, ◌≡◌, ◌⊎◌, Bool, true, false, Option, none, some, List, [], ◌∷◌, ◌++◌,
  length,
}
use coffee_table.Aof.{cat_count, cat_args, crlf, cat_append_only_generic_command}
use coffee_table.Protocol.{
  Reader, RequestType, unknown, multibulk_request, inline_max_size, mbulk_big_arg, max_args,
  max_bulk,
}

-- a reader that has met no error
abbrev pub reading :
    RequestType → List ℕ → ℕ → Option ℕ → List (List ℕ) → List (List (List ℕ)) → Reader
reading t q m bulk argv ran = record {
  querybuf = q;
  reqtype = t;
  multibulklen = m;
  bulklen = bulk;
  argv = argv;
  blocked = false;
  close_after_reply = false;
  errors = [];
  executed = ran;
}

abbrev pub kind : Bool → RequestType
kind false = unknown
kind true = multibulk_request

-- what is left of the arguments, where the length of the first may have been read
unfoldable pub expected : Option ℕ → List (List ℕ) → List ℕ
expected none args = cat_args args
expected (some n) [] = []
expected (some n) (arg ∷ args) = arg ++ (crlf ++ cat_args args)

abbrev pub Fits : Option ℕ → List (List ℕ) → Type 0
Fits none args = Unit {0}
Fits (some n) [] = 1 ≤ 0
Fits (some n) (arg ∷ args) = n ≡ length arg

-- the piece that is read at once
abbrev pub piece : Option ℕ → List ℕ → List ℕ
piece none arg = cat_count b'$' (length arg)
piece (some n) arg = arg ++ crlf

-- A buffer is at most 64 KB, or at most a big argument with the end of its line.
abbrev pub Bounded : Option ℕ → List ℕ → Type 0
Bounded none q = length q ≤ inline_max_size
Bounded (some n) q = (length q ≤ inline_max_size) ⊎ ((mbulk_big_arg ≤ n) × (length q ≤ n + 2))

abbrev pub AreArgs : List (List ℕ) → Type 0
AreArgs [] = Unit {0}
AreArgs (arg ∷ args) = (length arg ≤ max_bulk) × AreArgs args

-- a request that a client may send
abbrev pub IsRequest : List (List ℕ) → Type 0
IsRequest args = (0 < length args) × (length args ≤ max_args) × AreArgs args

abbrev pub AreRequests : List (List (List ℕ)) → Type 0
AreRequests [] = Unit {0}
AreRequests (args ∷ more) = IsRequest args × AreRequests more

-- the requests on the wire
unfoldable pub stream : List (List (List ℕ)) → List ℕ
stream [] = []
stream (args ∷ more) = cat_append_only_generic_command [] args ++ stream more

-- Where a reader stands. With `IsShort` the piece it is at has not arrived whole.
abbrev pub Limit : Type 1
Limit = List ℕ → Option ℕ → List ℕ → Type 0

abbrev pub IsShort : Limit
IsShort next bulk q = length q < length next

abbrev pub IsBounded : Limit
IsBounded next bulk q = Bounded bulk q

pub data Stage (limit : Limit) (future : List ℕ) (ran : List (List (List ℕ)))
    : List (List (List ℕ)) → Reader → Type 0 where
  idle :
      (todo : List (List (List ℕ)))
      → future ≡ stream todo
      → Stage limit future ran todo (reading unknown [] 0 none [] ran)
  starts :
      (typed : Bool) (q : List ℕ) (args : List (List ℕ)) (more : List (List (List ℕ)))
      → q ++ future ≡ stream (args ∷ more)
      → limit (cat_count b'*' (length args)) none q
      → Stage limit future ran (args ∷ more) (reading (kind typed) q 0 none [] ran)
  inside :
      (q : List ℕ) (bulk : Option ℕ) (done : List (List ℕ)) (arg : List ℕ) (args : List (List ℕ))
      (more : List (List (List ℕ)))
      → Fits bulk (arg ∷ args)
      → q ++ future ≡ expected bulk (arg ∷ args) ++ stream more
      → limit (piece bulk arg) bulk q
      → Stage limit future ran
          ((done ++ (arg ∷ args)) ∷ more)
          (reading multibulk_request q (suc (length args)) bulk done ran)
