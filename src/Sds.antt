-- ===== src/Sds.antt =====
-- redis/src/sds.c: strings of bytes with spare room. The bytes that `zrealloc` adds are an argument, and a
-- copy outside the allocated bytes is `none`, and so is a count that the `int` of the header does not hold.
mod Tests
pub mod Buffer
pub mod Laws
pub mod Range
use coffee_table.Prelude.{
  ℕ, zero, suc, ◌+◌, ◌-◌, ◌*◌, ◌==◌, ◌||◌, ◌&&◌, ◌^◌, Option, none, some, List, [], ◌∷◌, ◌++◌,
  length, take, drop, replicate, if◌then◌else◌, leb, ltb,
}
use coffee_table.Prelude.Int.{ℤ, pos, negsuc}

-- `struct sdshdr`, with the bytes allocated for `buf`; `len` and `free` are `int`
pub record Sds : Type 0 where
  pub len : ℕ
  pub free : ℕ
  pub buf : List ℕ

-- `memcpy(buf+off,t,length t)`
unfoldable pub write : List ℕ → ℕ → List ℕ → Option (List ℕ)
write buf off t =
    if leb (off + length t) (length buf)
    then some (take off buf ++ (t ++ drop (off + length t) buf))
    else none

-- the bytes written, and the nul behind them
abbrev pub write_nul : List ℕ → ℕ → Option (List ℕ) → Option (List ℕ)
write_nul t off none = none
write_nul t off (some buf) = write buf (off + length t) (0 ∷ [])

-- the bytes of a new block from one position on
abbrev pub fill : (ℕ → ℕ) → ℕ → ℕ → List ℕ
fill fresh i zero = []
fill fresh i (suc n) = fresh i ∷ fill fresh (suc i) n

-- `zrealloc` to `n` bytes of `buf`
abbrev pub realloc : (ℕ → ℕ) → ℕ → List ℕ → List ℕ
realloc fresh n buf = take n buf ++ fill fresh (length buf) (n - length buf)

-- `sdsnewlen` of bytes that are given
unfoldable pub new_len : List ℕ → Sds
new_len init = record { len = length init; free = 0; buf = init ++ (0 ∷ []) }

-- `SDS_MAX_PREALLOC`
abbrev pub max_prealloc : ℕ
max_prealloc = 1024 * 1024

-- `sdsMakeRoomFor`
unfoldable pub make_room_for : (ℕ → ℕ) → Sds → ℕ → Sds
make_room_for fresh s addlen =
    if leb addlen s.free
    then s
    else (let newlen =
          if ltb (s.len + addlen) max_prealloc
          then (s.len + addlen) * 2
          else s.len + addlen + max_prealloc in
        record s { free = newlen - s.len; buf = realloc fresh (newlen + 1) s.buf })

abbrev pub with_buf : ℕ → ℕ → Option (List ℕ) → Option Sds
with_buf len free none = none
with_buf len free (some buf) = some (record { len = len; free = free; buf = buf })

-- the header that is written. The old count or sum of counts that `free` is computed from and the new
-- length are `int`, and one that does not fit is a fault.
abbrev pub with_counts : ℕ → ℕ → ℕ → Option (List ℕ) → Option Sds
with_counts count len free buf =
    if ltb count (2 ^ 31) && ltb len (2 ^ 31) then with_buf len free buf else none

-- `sdscatlen`
unfoldable pub cat_len : (ℕ → ℕ) → Sds → List ℕ → Option Sds
unfolding make_room_for write
cat_len fresh s t =
    let room = make_room_for fresh s (length t) in
    with_counts room.free (s.len + length t) (room.free - length t)
      (write_nul t s.len (write room.buf s.len t))

-- `sdscpylen`
unfoldable pub cpy_len : (ℕ → ℕ) → Sds → List ℕ → Option Sds
unfolding make_room_for write
cpy_len fresh s t =
    let room =
      if ltb (s.free + s.len) (length t) then make_room_for fresh s (length t - s.len) else s in
    with_counts (room.free + room.len) (length t) (room.free + room.len - length t)
      (write_nul t 0 (write room.buf 0 t))

-- `sdsgrowzero`
unfoldable pub grow_zero : (ℕ → ℕ) → Sds → ℕ → Option Sds
unfolding make_room_for write
grow_zero fresh s n =
    if leb n s.len
    then some s
    else (let room = make_room_for fresh s (n - s.len) in
        with_counts (s.len + room.free) n (s.len + room.free - n)
          (write room.buf s.len (replicate (n - s.len + 1) 0)))

-- a nonnegative index of `sdsrange`
abbrev pub index_of : ℕ → ℤ → ℕ
index_of len (pos i) = i
index_of len (negsuc i) = len - (i + 1)

abbrev pub span : ℕ → ℕ → ℕ
span start end = if ltb end start then 0 else end - start + 1

-- the start and the new length of `sdsrange`
abbrev pub bounds_of : ℕ → ℕ → ℕ → ℕ × ℕ
bounds_of len start end =
    if span start end == 0
    then (0, 0)
    else if leb len start
    then (start, 0)
    else if leb len end
    then (start, span start (len - 1))
    else (start, span start end)

abbrev pub cut_to : Sds → ℕ → Option (List ℕ) → Option (List ℕ)
cut_to s newlen none = none
cut_to s newlen (some buf) = write buf newlen (0 ∷ [])

-- `sdsrange`
unfoldable pub range : Sds → ℤ → ℤ → Option Sds
unfolding write
range s start end =
    if s.len == 0
    then some s
    else (let (first, newlen) = bounds_of s.len (index_of s.len start) (index_of s.len end) in
        let moved =
          if (first == 0) || (newlen == 0)
          then some s.buf
          else write s.buf 0 (take newlen (drop first s.buf)) in
        with_buf newlen (s.free + (s.len - newlen)) (cut_to s newlen moved))
