-- ===== src/Networking.antt =====
-- redis/src/networking.c: what a client sends, read into requests, one after the other. What a command does is an
-- argument.
pub mod Lines
pub mod Counts
pub mod Stream
pub mod Body
pub mod Turns
pub mod Args
pub mod Starts
pub mod Requests
pub mod Reads
pub mod Client
pub mod Inline
pub mod Any
pub mod Sane
mod Tests
use coffee_table.Prelude.{
  ℕ, zero, suc, ◌+◌, ◌-◌, ◌*◌, Bool, true, false, ◌||◌, not, Option, none, some, List, [], ◌∷◌,
  ◌++◌, length, take, drop, get_or, if◌then◌else◌, ltb, leb, ◌==◌,
}
use coffee_table.Protocol.{
  Reader, RequestType, inline_request, iobuf_len, mbulk_big_arg, multibulk_request,
  process_inline_buffer, process_multibulk_buffer, unknown,
}

-- `resetClient`
abbrev pub reset_client : Reader → Reader
reset_client r = record r { argv = []; reqtype = unknown; multibulklen = 0; bulklen = none }

-- what a command does to the client: it may block it or have it closed, and answers REDIS_OK or not
pub record Effect : Type 0 where
  pub blocks : Bool
  pub closes : Bool
  pub is_ok : Bool

abbrev pub request_type : Reader → RequestType
request_type r = elim r.reqtype [
  | unknown ↦ if get_or r.querybuf 0 0 == b'*' then multibulk_request else inline_request
  | t ↦ t
]

-- the requests of either kind
abbrev pub process_request : RequestType → Reader → Option (Bool × Reader)
process_request unknown r = none
process_request inline_request r = some (process_inline_buffer r)
process_request multibulk_request r = process_multibulk_buffer r

-- how much `readQueryFromClient` reads at most
abbrev pub big_argument : RequestType → ℕ → Option ℕ → Option ℕ
big_argument multibulk_request (suc n) (some ll) = if leb mbulk_big_arg ll then some ll else none
big_argument t n bulklen = none

abbrev pub read_limit : ℕ → Option ℕ → ℕ
read_limit len none = iobuf_len
read_limit len (some ll) = if ltb (ll + 2 - len) iobuf_len then ll + 2 - len else iobuf_len

unfoldable pub read_length : Reader → ℕ
read_length r = read_limit (length r.querybuf) (big_argument r.reqtype r.multibulklen r.bulklen)

module _ (run : List (List ℕ) → Effect) where
  -- `processCommand`, and the client reset
  abbrev pub process_command : Reader → Reader
  process_command r =
      let e = run r.argv in
      let r' = record r {
        executed = r.executed ++ (r.argv ∷ []);
        blocked = e.blocks;
        close_after_reply = r.close_after_reply || e.closes;
      } in
      if length r.argv == 0 then reset_client r else if e.is_ok then reset_client r' else r'

  -- `processInputBuffer`, with fuel; out of fuel is `none`
  unfoldable pub process_input_buffer : ℕ → Reader → Option Reader
  unfolding process_inline_buffer process_multibulk_buffer
  process_input_buffer zero r = none
  process_input_buffer (suc fuel) r =
      let typed = record r { reqtype = request_type r } in
      if length r.querybuf == 0
      then some r
      else if r.blocked
      then some r
      else if r.close_after_reply
      then some r
      else elim (process_request typed.reqtype typed) [
        | none ↦ none
        | some (ok, r') ↦ elim ok [
          | false ↦ some r'
          | true ↦ process_input_buffer fuel (process_command r')
        ]
      ]

  -- `readQueryFromClient` behind a read that gave some bytes
  unfoldable pub read_query_from_client : Reader → List ℕ → Option Reader
  unfolding process_input_buffer
  read_query_from_client r bytes =
      process_input_buffer (length (r.querybuf ++ bytes) + 1)
        (record r { querybuf = r.querybuf ++ bytes })

  -- a readable socket: `read` gives at most what was asked for, and here `n` bytes at most
  unfoldable pub read_event : ℕ → List ℕ → Reader → Option (Reader × List ℕ)
  unfolding read_query_from_client read_length
  read_event n socket r =
      let len = if ltb n (read_length r) then n else read_length r in
      if length (take len socket) == 0
      then some (r, socket)
      else elim (read_query_from_client r (take len socket)) [
        | none ↦ none
        | some r' ↦ some (r', drop len socket)
      ]

  -- the events of a client, one after the other
  unfoldable pub read_events : List ℕ → List ℕ → Reader → Option (Reader × List ℕ)
  unfolding read_event
  read_events [] socket r = some (r, socket)
  read_events (n ∷ more) socket r = elim (read_event n socket r) [
    | none ↦ none
    | some (r', left) ↦ read_events more left r'
  ]
