-- ===== src/Rdb.antt =====
-- redis/src/rdb.c: types, lengths and integers of the dump format, over the buffer of redis/src/rio.c,
-- where a write always succeeds. Saving gives the bytes appended to the buffer; loading takes the
-- bytes that are left and gives those left after it. `|` of disjoint bits is written as a sum.
mod Tests
pub mod Roundtrip
use coffee_table.Prelude.{
  ℕ, zero, suc, ◌+◌, ◌-◌, ◌*◌, ◌/◌, ◌%◌, ◌^◌, Bool, true, false, Option, none, some, List, [], ◌∷◌,
  length, if◌then◌else◌, ltb, leb, ◌==◌,
}
use coffee_table.Prelude.Int.{ℤ, pos, negsuc, ltb_ℤ}
use coffee_table.Util.{ll2string}
use coffee_table.Object.{Str, raw, int}

-- `rdbSaveType`, and `rdbLoadType` with its -1
abbrev pub save_type : ℕ → List ℕ
save_type type = type % 256 ∷ []

abbrev pub load_type : List ℕ → ℤ × List ℕ
load_type [] = (negsuc 0, [])
load_type (c ∷ bytes) = (pos c, bytes)

-- `REDIS_RDB_LENERR`, UINT_MAX
abbrev pub lenerr : ℕ
lenerr = 2 ^ 32 - 1

-- `rdbSaveLen` of a uint32_t; `htonl` puts the high byte first
unfoldable pub save_len : ℕ → List ℕ
save_len len =
    if ltb len (2 ^ 6)
    then len % 256 ∷ []
    else if ltb len (2 ^ 14)
    then (len / 256 % 256 + 1 * 64) ∷ len % 256 ∷ []
    else 2 * 64 ∷ len / 2 ^ 24 % 256 ∷ len / 2 ^ 16 % 256 ∷ len / 2 ^ 8 % 256 ∷ len % 256 ∷ []

-- the ends of `rdbLoadLen`, by type: whether the length is an encoding, and the length
abbrev pub load_second : ℕ → List ℕ → Bool × ℕ × List ℕ
load_second buf [] = (false, lenerr, [])
load_second buf (c ∷ bytes) = (false, buf % 64 * 256 + c, bytes)

abbrev pub load_four : List ℕ → Bool × ℕ × List ℕ
load_four (a ∷ b ∷ c ∷ d ∷ bytes) = (false, a * 2 ^ 24 + b * 2 ^ 16 + c * 2 ^ 8 + d, bytes)
load_four bytes = (false, lenerr, bytes)

unfoldable pub load_len : List ℕ → Bool × ℕ × List ℕ
load_len [] = (false, lenerr, [])
load_len (buf ∷ bytes) =
    let type = buf % 256 / 64 in
    if type == 3
    then (true, buf % 64, bytes)
    else if type == 0
    then (false, buf % 64, bytes)
    else if type == 1
    then load_second buf bytes
    else load_four bytes

-- the bits of a long long in two's complement
abbrev pub bits : ℤ → ℕ
bits (pos n) = n
bits (negsuc n) = 2 ^ 64 - 1 - n

-- -(1<<w) <= value && value <= (1<<w)-1
abbrev pub in_range : ℕ → ℤ → Bool
in_range w (pos n) = ltb n (2 ^ w)
in_range w (negsuc n) = ltb n (2 ^ w)

-- `rdbEncodeInteger`: the bytes of `enc`, none when the value is too large
unfoldable pub encode_integer : ℤ → List ℕ
encode_integer value =
    if in_range 7 value
    then (3 * 64 + 0) ∷ bits value % 256 ∷ []
    else if in_range 15 value
    then (3 * 64 + 1) ∷ bits value % 256 ∷ bits value / 2 ^ 8 % 256 ∷ []
    else if in_range 31 value
    then (3 * 64 + 2)
      ∷ bits value % 256
      ∷ bits value / 2 ^ 8 % 256
      ∷ bits value / 2 ^ 16 % 256
      ∷ bits value / 2 ^ 24 % 256
      ∷ []
    else []

-- `n` bytes, the low one first
unfoldable pub little_endian : ℕ → ℕ → List ℕ
little_endian zero v = []
little_endian (suc n) v = v % 256 ∷ little_endian n (v / 256)

-- a number of `w` bits as a signed one
abbrev pub signed : ℕ → ℕ → ℤ
signed w v = if ltb v (2 ^ (w - 1)) then pos v else negsuc (2 ^ w - 1 - v)

-- `rdbSaveMillisecondTime`, where a long long is stored low byte first
unfoldable pub save_millisecond_time : ℤ → List ℕ
unfolding little_endian
save_millisecond_time t = little_endian 8 (bits t)

-- the reads of `rdbLoadIntegerObject`; `none` is its NULL
abbrev pub load_int8 : List ℕ → Option (ℤ × List ℕ)
load_int8 (a ∷ bytes) = some (signed 8 a, bytes)
load_int8 bytes = none

abbrev pub load_int16 : List ℕ → Option (ℤ × List ℕ)
load_int16 (a ∷ b ∷ bytes) = some (signed 16 (a + b * 2 ^ 8), bytes)
load_int16 bytes = none

abbrev pub load_int32 : List ℕ → Option (ℤ × List ℕ)
load_int32 (a ∷ b ∷ c ∷ d ∷ bytes) =
    some (signed 32 (a + b * 2 ^ 8 + c * 2 ^ 16 + d * 2 ^ 24), bytes)
load_int32 bytes = none

abbrev pub integer_object : Bool → Option (ℤ × List ℕ) → Option (Str × List ℕ)
integer_object encode none = none
integer_object encode (some (v, bytes)) =
    some ((if encode then int v else raw (ll2string 32 v)), bytes)

-- `rdbLoadIntegerObject`; the outer `none` is the panic on an unknown encoding
unfoldable pub load_integer_object : ℕ → Bool → List ℕ → Option (Option (Str × List ℕ))
unfolding ll2string
load_integer_object enctype encode bytes =
    if enctype == 0
    then some (integer_object encode (load_int8 bytes))
    else if enctype == 1
    then some (integer_object encode (load_int16 bytes))
    else if enctype == 2
    then some (integer_object encode (load_int32 bytes))
    else none
