-- ===== src/Protocol.antt =====
-- redis/src/networking.c: the buffer of a client, and a request in either form taken out of it. A buffer is the list of
-- its bytes, with the nul behind them left out; `none` is a failed assertion.
use coffee_table.Prelude.{
  ℕ, zero, suc, ◌+◌, ◌-◌, ◌*◌, Bool, true, false, ◌&&◌, not, Option, none, some, List, [], ◌∷◌,
  ◌++◌, length, take, drop, get_or, if◌then◌else◌, ltb, leb, ◌==◌,
}
use coffee_table.Prelude.Int.{ℤ, pos, negsuc}
use coffee_table.Util.{string2ll}

-- REDIS_IOBUF_LEN, REDIS_INLINE_MAX_SIZE, REDIS_MBULK_BIG_ARG, and the limits of the two counts
abbrev pub iobuf_len : ℕ
iobuf_len = 1024 * 16

abbrev pub inline_max_size : ℕ
inline_max_size = 1024 * 64

abbrev pub mbulk_big_arg : ℕ
mbulk_big_arg = 1024 * 32

abbrev pub max_args : ℕ
max_args = 1024 * 1024

abbrev pub max_bulk : ℕ
max_bulk = 512 * 1024 * 1024

pub data RequestType : Type 0 where
  unknown inline_request multibulk_request : RequestType

pub data ProtocolError : Type 0 where
  big_inline big_mbulk_count bad_mbulk_length big_bulk_count expected_dollar bad_bulk_length :
      ProtocolError

-- what `redisClient` keeps of its input; `bulklen` is -1 at `none`. `executed` lists the commands run.
pub record Reader : Type 0 where
  pub querybuf : List ℕ
  pub reqtype : RequestType
  pub multibulklen : ℕ
  pub bulklen : Option ℕ
  pub argv : List (List ℕ)
  pub blocked : Bool
  pub close_after_reply : Bool
  pub errors : List ProtocolError
  pub executed : List (List (List ℕ))

-- `strchr(s,'\r')`, which stops at a nul
unfoldable pub find_cr : List ℕ → Option ℕ
find_cr [] = none
find_cr (c ∷ s) =
    let rest : Option ℕ = elim (find_cr s) [ none ↦ none | some i ↦ some (suc i) ] in
    if c == 13 then some 0 else if c == 0 then none else rest

-- `sdsrange(querybuf,pos,-1)`, where it is called only if `pos` is not 0
abbrev pub trim : ℕ → Reader → Reader
trim p r = if p == 0 then r else record r { querybuf = drop p r.querybuf }

-- `setProtocolError`, with the error replied
abbrev pub protocol_error : ProtocolError → ℕ → Reader → Reader
protocol_error e p r = record r {
  querybuf = drop p r.querybuf;
  close_after_reply = true;
  errors = r.errors ++ (e ∷ []);
}

-- the line "$<length>\r\n" of an argument
pub data Line : Type 0 where
  unfinished too_big no_dollar bad_length : Line
  length_at : ℕ → ℕ → Line

abbrev pub line_number : ℕ → Option ℤ → Line
line_number next none = bad_length
line_number next (some (negsuc n)) = bad_length
line_number next (some (pos n)) = if ltb max_bulk n then bad_length else length_at n next

abbrev pub line_until : List ℕ → ℕ → Option ℕ → Line
line_until buf p none = if ltb inline_max_size (length buf) then too_big else unfinished
line_until buf p (some i) =
    if ltb (length buf) (p + i + 2)
    then unfinished
    else if not (get_or buf p 0 == b'$')
    then no_dollar
    else line_number (p + i + 2) (string2ll (take (i - 1) (drop (p + 1) buf)))

unfoldable pub bulk_line : List ℕ → ℕ → Line
unfolding find_cr string2ll
bulk_line buf p = line_until buf p (find_cr (drop p buf))

-- a round of the loop of `processMultibulkBuffer`: it leaves the loop, or goes on at a position
pub data Round : Type 0 where
  stops : Bool × Reader → Round
  moves : ℕ → Reader → Round

abbrev pub took : List ℕ → Reader → Reader
took arg r = record r {
  argv = r.argv ++ (arg ∷ []);
  bulklen = none;
  multibulklen = r.multibulklen - 1;
}

abbrev pub bulk_body : ℕ → ℕ → Reader → Round
bulk_body ll p r =
    if ltb (length r.querybuf - p) (ll + 2)
    then stops (false, trim p (record r { bulklen = some ll }))
    else if (p == 0) && leb mbulk_big_arg ll && (length r.querybuf == ll + 2)
    then moves 0 (took (take (length r.querybuf - 2) r.querybuf) (record r { querybuf = [] }))
    else moves (p + (ll + 2)) (took (take ll (drop p r.querybuf)) r)

abbrev pub bulk_length : Line → ℕ → Reader → Round
bulk_length unfinished p r = stops (false, trim p r)
bulk_length too_big p r = stops (false, trim p (protocol_error big_bulk_count 0 r))
bulk_length no_dollar p r = stops (false, protocol_error expected_dollar p r)
bulk_length bad_length p r = stops (false, protocol_error bad_bulk_length p r)
bulk_length (length_at ll next) p r =
    if leb mbulk_big_arg ll
    then bulk_body ll 0 (record r { querybuf = drop next r.querybuf })
    else bulk_body ll next r

abbrev pub bulk_round : Option ℕ → ℕ → Reader → Round
bulk_round none p r = bulk_length (bulk_line r.querybuf p) p r
bulk_round (some ll) p r = bulk_body ll p r

-- the loop, which runs at most `multibulklen` rounds
unfoldable pub read_args : ℕ → ℕ → Reader → Bool × Reader
unfolding bulk_line
read_args zero p r = (true, trim p r)
read_args (suc n) p r = elim (bulk_round r.bulklen p r) [
  | stops x ↦ x
  | moves next r' ↦ read_args n next r'
]

-- the line "*<count>\r\n" of a request
abbrev pub count_number : ℕ → Option ℤ → Reader → Bool × Reader
count_number next none r = (false, protocol_error bad_mbulk_length 0 r)
count_number next (some (negsuc n)) r = (true, record r { querybuf = drop next r.querybuf })
count_number next (some (pos n)) r =
    if ltb max_args n
    then (false, protocol_error bad_mbulk_length 0 r)
    else if n == 0
    then (true, record r { querybuf = drop next r.querybuf })
    else read_args n next (record r { multibulklen = n })

abbrev pub count_until : Option ℕ → Reader → Option (Bool × Reader)
count_until none r = some (
  false,
  if ltb inline_max_size (length r.querybuf) then protocol_error big_mbulk_count 0 r else r,
)
count_until (some i) r =
    if ltb (length r.querybuf) (i + 2)
    then some (false, r)
    else if get_or r.querybuf 0 0 == b'*'
    then some (count_number (i + 2) (string2ll (take (i - 1) (drop 1 r.querybuf))) r)
    else none

-- `processMultibulkBuffer`
unfoldable pub process_multibulk_buffer : Reader → Option (Bool × Reader)
unfolding find_cr string2ll read_args
process_multibulk_buffer r =
    if r.multibulklen == 0
    then (if length r.argv == 0 then count_until (find_cr r.querybuf) r else none)
    else some (read_args r.multibulklen 0 r)

-- `strstr(querybuf,"\r\n")`
unfoldable pub find_crlf : List ℕ → Option ℕ
find_crlf [] = none
find_crlf (c ∷ s) =
    let rest : Option ℕ = elim (find_crlf s) [ none ↦ none | some i ↦ some (suc i) ] in
    if (c == 13) && (get_or s 0 0 == 10) then some 0 else if c == 0 then none else rest

-- `sdssplitlen` by a space, with the empty parts dropped; `token` is read so far
unfoldable pub split_spaces : List ℕ → List ℕ → List (List ℕ)
split_spaces [] token = if length token == 0 then [] else token ∷ []
split_spaces (c ∷ s) token =
    let next = split_spaces s [] in
    let more = split_spaces s (token ++ (c ∷ [])) in
    if c == 32 then (if length token == 0 then next else token ∷ next) else more

abbrev pub inline_until : Option ℕ → Reader → Bool × Reader
inline_until none r =
    (false, if ltb inline_max_size (length r.querybuf) then protocol_error big_inline 0 r else r)
inline_until (some i) r = (
  true,
  record r { querybuf = drop (i + 2) r.querybuf; argv = split_spaces (take i r.querybuf) [] },
)

-- `processInlineBuffer`
unfoldable pub process_inline_buffer : Reader → Bool × Reader
unfolding find_crlf split_spaces
process_inline_buffer r = inline_until (find_crlf r.querybuf) r
