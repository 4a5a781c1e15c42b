-- ===== src/Intset.antt =====
-- redis/src/intset.c: a set of integers as a sorted array of cells of 2, 4 or 8 bytes. The host is
-- little endian, so that `intrev32ifbe` and its kin change nothing. A read or write outside the
-- allocated bytes is `none`.
mod Tests
pub mod Cells
pub mod Valid
pub mod Search
pub mod Upgrade
pub mod Add
pub mod Remove
use coffee_table.Prelude.{
  ℕ, zero, suc, ◌+◌, ◌-◌, ◌*◌, ◌/◌, ◌%◌, ◌^◌, Bool, true, false, ◌&&◌, ◌||◌, not, Option, none,
  some, if◌then◌else◌, ◌>>=◌, ltb, leb, ◌==◌,
}
use coffee_table.Prelude.Int.{ℤ, pos, negsuc, ltb_ℤ, pos_part, neg_part}

-- INTSET_ENC_INT16, INTSET_ENC_INT32, INTSET_ENC_INT64
pub data Enc : Type 0 where
  int16 int32 int64 : Enc

-- the number of bytes that the encoding is
abbrev pub width : Enc → ℕ
width int16 = 2
width int32 = 4
width int64 = 8

abbrev pub Memory : Type 0
Memory = ℕ → ℕ

-- `intset`; `size` is the number of bytes allocated for `contents`
pub record Intset : Type 0 where
  pub encoding : Enc
  pub length : ℕ
  pub size : ℕ
  pub contents : Memory

-- INT16_MIN <= v <= INT16_MAX, and so on
abbrev pub bound : Enc → ℕ
bound int16 = 2 ^ 15
bound int32 = 2 ^ 31
bound int64 = 2 ^ 63

abbrev pub fits : Enc → ℤ → Bool
fits e (pos n) = ltb n (bound e)
fits e (negsuc n) = ltb n (bound e)

-- `_intsetValueEncoding`
abbrev pub value_encoding : ℤ → Enc
value_encoding v = if not (fits int32 v) then int64 else if not (fits int16 v) then int32 else int16

-- the bytes of a cell, the low one first
unfoldable pub load : ℕ → ℕ → Memory → ℕ
load zero off m = 0
load (suc w) off m = m off + 256 * load w (off + 1) m

abbrev pub poke : Memory → ℕ → ℕ → Memory
poke m a b i = if i == a then b else m i

unfoldable pub store : ℕ → ℕ → ℕ → Memory → Memory
store zero off v m = m
store (suc w) off v m = store w (off + 1) (v / 256) (poke m off (v % 256))

-- a value in two's complement, cut to the cell, and back
abbrev pub encode : Enc → ℤ → ℕ
encode e (pos n) = n % (2 * bound e)
encode e (negsuc n) = 2 * bound e - 1 - n % (2 * bound e)

abbrev pub decode : Enc → ℕ → ℤ
decode e n = if ltb n (bound e) then pos n else negsuc (2 * bound e - 1 - n)

abbrev pub cell : Enc → Memory → ℕ → ℤ
cell e m i = decode e (load (width e) (i * width e) m)

abbrev pub put_cell : Enc → Memory → ℕ → ℤ → Memory
put_cell e m i v = store (width e) (i * width e) (encode e v) m

-- `_intsetGetEncoded`, `_intsetGet`
unfoldable pub get_encoded : Intset → ℕ → Enc → Option ℤ
unfolding load
get_encoded is p enc =
    if leb ((p + 1) * width enc) is.size then some (cell enc is.contents p) else none

abbrev pub get_value : Intset → ℕ → Option ℤ
get_value is p = get_encoded is p is.encoding

-- `_intsetSet`
unfoldable pub set_value : Intset → ℕ → ℤ → Option Intset
unfolding store
set_value is p value =
    if leb ((p + 1) * width is.encoding) is.size
    then some (record is { contents = put_cell is.encoding is.contents p value })
    else none

-- `intsetNew`
abbrev pub intset_new : Intset
intset_new = record { encoding = int16; length = 0; size = 0; contents = λ i. 0 }

-- `intsetResize`
abbrev pub intset_resize : Intset → ℕ → Intset
intset_resize is len = record is { size = len * width is.encoding % 2 ^ 32 }

abbrev pub eqb_ℤ : ℤ → ℤ → Bool
eqb_ℤ a b = (pos_part a + neg_part b) == (pos_part b + neg_part a)

-- the loop of `intsetSearch`, where `above` is `max + 1`: it ends with `min`, `mid` and `cur`
unfoldable pub search_loop : ℕ → Intset → ℤ → ℕ → ℕ → ℕ → ℤ → Option (ℕ × ℕ × ℤ)
unfolding get_encoded
search_loop zero is value min above mid cur = none
search_loop (suc fuel) is value min above mid cur =
    if not (ltb min above) then some (min, mid, cur) else (do
      let mid' = (min + (above - 1)) / 2
      cur' ← get_value is mid'
      let right = search_loop fuel is value (mid' + 1) above mid' cur'
      let left = search_loop fuel is value min mid' mid' cur'
      if ltb_ℤ cur' value then right else if ltb_ℤ value cur' then left else some (min, mid', cur'))

abbrev pub search_result : ℤ → ℕ × ℕ × ℤ → Option (Bool × ℕ)
search_result value (min, mid, cur) =
    if eqb_ℤ value cur then some (true, mid) else some (false, min)

-- `intsetSearch`: whether the value is there, and the position
unfoldable pub search_value : Intset → ℤ → Option (Bool × ℕ)
unfolding search_loop
search_value is value = if is.length == 0 then some (false, 0) else (do
  last ← get_value is (is.length - 1)
  if ltb_ℤ last value then some (false, is.length) else (do
    first ← get_value is 0
    if ltb_ℤ value first then some (false, 0) else (do
      found ← search_loop (is.length + 1) is value 0 is.length 0 (negsuc 0)
      search_result value found)))

-- `while(length--)` of `intsetUpgradeAndAdd`
unfoldable pub upgrade_loop : ℕ → ℕ → Enc → Intset → Option Intset
unfolding get_encoded set_value
upgrade_loop zero prepend curenc is = some is
upgrade_loop (suc length) prepend curenc is = do
  v ← get_encoded is length curenc
  is' ← set_value is (length + prepend) v
  upgrade_loop length prepend curenc is'

abbrev pub is_negative : ℤ → Bool
is_negative v = ltb_ℤ v (pos 0)

-- `intsetUpgradeAndAdd`
unfoldable pub upgrade_and_add : Intset → ℤ → Option Intset
unfolding upgrade_loop
upgrade_and_add is value = do
  let prepend = if is_negative value then 1 else 0
  let is1 = intset_resize (record is { encoding = value_encoding value }) (is.length + 1)
  is2 ← upgrade_loop is.length prepend is.encoding is1
  is3 ← set_value is2 (if is_negative value then 0 else is2.length) value
  some (record is3 { length = (is3.length + 1) % 2 ^ 32 })

-- `memmove` of `bytes` bytes
abbrev pub memmove : Memory → ℕ → ℕ → ℕ → Memory
memmove m dst src bytes i = if leb dst i && ltb i (dst + bytes) then m (i - dst + src) else m i

-- `intsetMoveTail`
unfoldable pub move_tail : Intset → ℕ → ℕ → Option Intset
move_tail is from to =
    let w = width is.encoding in
    let bytes = (is.length - from) * w % 2 ^ 32 in
    if leb (from * w + bytes) is.size && leb (to * w + bytes) is.size
    then some (record is { contents = memmove is.contents (to * w) (from * w) bytes })
    else none

-- the insertion of `intsetAdd` at the position found
unfoldable pub insert_value : Intset → ℤ → ℕ → Option (Bool × Intset)
unfolding move_tail set_value
insert_value is value p = do
  let is1 = intset_resize is (is.length + 1)
  is2 ← if ltb p is1.length then move_tail is1 p (p + 1) else some is1
  is3 ← set_value is2 p value
  some (true, record is3 { length = (is3.length + 1) % 2 ^ 32 })

-- `intsetAdd`, with `*success`
unfoldable pub intset_add : Intset → ℤ → Option (Bool × Intset)
unfolding upgrade_and_add search_value insert_value
intset_add is value =
    if ltb (width is.encoding) (width (value_encoding value))
    then (do is' ← upgrade_and_add is value; some (true, is'))
    else (do
      (found, p) ← search_value is value
      if found then some (false, is) else insert_value is value p)

-- the deletion of `intsetRemove` at the position found
unfoldable pub delete_value : Intset → ℕ → Option (Bool × Intset)
unfolding move_tail
delete_value is p = do
  is1 ← if ltb p (is.length - 1) then move_tail is (p + 1) p else some is
  some (true, record (intset_resize is1 (is.length - 1)) { length = is.length - 1 })

-- `intsetRemove`, with `*success`
unfoldable pub intset_remove : Intset → ℤ → Option (Bool × Intset)
unfolding search_value delete_value
intset_remove is value =
    if leb (width (value_encoding value)) (width is.encoding)
    then (do
      (found, p) ← search_value is value
      if found then delete_value is p else some (false, is))
    else some (false, is)

-- `intsetFind`
unfoldable pub intset_find : Intset → ℤ → Option Bool
unfolding search_value
intset_find is value =
    if leb (width (value_encoding value)) (width is.encoding)
    then (do (found, p) ← search_value is value; some found)
    else some false

-- `intsetGet`: the value, or 0
unfoldable pub intset_get : Intset → ℕ → Option (Option ℤ)
unfolding get_encoded
intset_get is p = if ltb p is.length then (do v ← get_value is p; some (some v)) else some none

-- `intsetLen`, `intsetBlobLen`; the header has 8 bytes
abbrev pub intset_len : Intset → ℕ
intset_len is = is.length

abbrev pub intset_blob_len : Intset → ℕ
intset_blob_len is = 8 + is.length * width is.encoding % 2 ^ 32
