-- ===== src/Strings/Ranges.antt =====
-- redis/src/t_string.c: the commands on a part of a string. The copy of a shared or encoded object and
-- the write into it are one write under the key.
use coffee_table.Prelude.{
  ℕ, ◌+◌, ◌-◌, ◌%◌, ◌^◌, Bool, Option, none, some, List, [], ◌++◌, length, take, drop, replicate,
  if◌then◌else◌, leb, ◌==◌,
}
use coffee_table.Prelude.Int.{ℤ, pos, negsuc, ltb_ℤ, pos_part, ◌+ℤ◌, ◌-ℤ◌}
use coffee_table.Act.{Act, ◌>>=◌, ◌>>◌, pure, with_state}
use coffee_table.Dict.Bucket.{KeyType}
use coffee_table.Dict.KeyMap.{KeyMap}
use coffee_table.Object.{
  Obj, string, other, Str, raw, Libc, get_long_long, try_object_encoding, decoded,
  string_object_len,
}
use coffee_table.Reply.{
  Reply, integer, bulk, error, out_of_memory, wrong_type, not_an_integer, out_of_range, too_long,
}
use coffee_table.Db.{
  Server, db_add, db_overwrite, lookup_key_read, lookup_key_write, signal_modified_key,
}
use coffee_table.Db.Commands.{wrap64, add_dirty}
use coffee_table.Strings.{too_big}

-- `sdsgrowzero`, and the `memcpy` into it
abbrev pub grow_zero : List ℕ → ℕ → List ℕ
grow_zero s n = s ++ replicate (n - length s) 0

unfoldable pub write_at : List ℕ → ℕ → List ℕ → List ℕ
write_at s offset value =
    let grown = grow_zero s (offset + length value) in
    take offset grown ++ (value ++ drop (offset + length value) grown)

-- the indexes of `getrangeCommand`: a negative one counts from the end, and `(unsigned)end` keeps 32 bits
abbrev pub from_end : ℕ → ℤ → ℤ
from_end strlen i =
    let j = if ltb_ℤ i (pos 0) then pos strlen +ℤ i else i in if ltb_ℤ j (pos 0) then pos 0 else j

unfoldable pub range_end : ℕ → ℤ → ℤ
unfolding ◌+ℤ◌ ◌-ℤ◌
range_end strlen end =
    let j = from_end strlen end in
    if leb strlen (pos_part j % 2 ^ 32) then pos strlen -ℤ pos 1 else j

-- `n` bytes from `str + i` on, if they lie in the string
abbrev pub read_bytes : List ℕ → ℕ → ℕ → Option (List ℕ)
read_bytes s i n = if leb (i + n) (length s) then some (take n (drop i s)) else none

-- the bytes that `getrangeCommand` replies; `none` is a read outside the string
unfoldable pub range : List ℕ → ℤ → ℤ → Option (List ℕ)
unfolding range_end ◌+ℤ◌ ◌-ℤ◌
range s start end =
    let first = from_end (length s) start in
    let last = range_end (length s) end in
    if ltb_ℤ last first
    then some []
    else read_bytes s (pos_part first) (pos_part (last -ℤ first) + 1)

module _ {K : Type 0} ⦃type : KeyType K⦄ (D : KeyMap K Obj) (E : KeyMap K ℤ) where
  -- `getrangeCommand`
  abbrev pub range_of : ℤ → ℤ → Option Obj → Act (Server D E) Reply
  range_of start end none = pure (bulk [])
  range_of start end (some (other k)) = pure (error wrong_type)
  range_of start end (some (string s)) = do
    bytes ← with_state (range (decoded s) start end)
    pure (bulk bytes)

  abbrev pub getrange_params : ℤ → K → Option ℤ → Option ℤ → Act (Server D E) Reply
  getrange_params now k none end = pure (error not_an_integer)
  getrange_params now k (some start) none = pure (error not_an_integer)
  getrange_params now k (some start) (some end) = do
    o ← lookup_key_read D E now k
    range_of start end o

  unfoldable pub getrange : Libc → ℤ → K → Str → Str → Act (Server D E) Reply
  unfolding lookup_key_read get_long_long range decoded
  getrange l now k start end =
      getrange_params now k (get_long_long l (some start)) (get_long_long l (some end))

  abbrev pub write_reply : K → List ℕ → Act (Server D E) Reply
  write_reply k s = do signal_modified_key D E k; add_dirty D E 1; pure (integer (pos (length s)))

  -- `setrangeCommand`, for each object that the key may have. The check of the length sees a long long, so that a
  -- length of 2 ^ 63 or more passes it; `zrealloc` cannot give as many bytes, and the server ends.
  abbrev pub setrange_of : K → ℕ → List ℕ → Option Obj → Act (Server D E) Reply
  setrange_of k offset value none =
      if length value == 0
      then pure (integer (pos 0))
      else if too_big (wrap64 (pos (offset + length value)))
      then pure (error too_long)
      else if leb (2 ^ 63) (offset + length value)
      then pure out_of_memory
      else do
        db_add D E k (string (raw []))
        db_overwrite D E k (string (raw (write_at [] offset value)))
        write_reply k (write_at [] offset value)
  setrange_of k offset value (some (other t)) = pure (error wrong_type)
  setrange_of k offset value (some (string s)) =
      if length value == 0
      then pure (integer (pos (string_object_len s)))
      else if too_big (wrap64 (pos (offset + length value)))
      then pure (error too_long)
      else if leb (2 ^ 63) (offset + length value)
      then pure out_of_memory
      else do
        db_overwrite D E k (string (raw (write_at (decoded s) offset value)))
        write_reply k (write_at (decoded s) offset value)

  abbrev pub setrange_param : ℤ → K → List ℕ → Option ℤ → Act (Server D E) Reply
  setrange_param now k value none = pure (error not_an_integer)
  setrange_param now k value (some (negsuc n)) = pure (error out_of_range)
  setrange_param now k value (some (pos offset)) = do
    o ← lookup_key_write D E now k
    setrange_of k offset value o

  unfoldable pub setrange : Libc → ℤ → K → Str → List ℕ → Act (Server D E) Reply
  unfolding lookup_key_write get_long_long write_at decoded string_object_len db_add db_overwrite
      signal_modified_key add_dirty wrap64
  setrange l now k offset value = setrange_param now k value (get_long_long l (some offset))

  -- `appendCommand`
  abbrev pub append_to : Bool → K → List ℕ → Option Obj → Act (Server D E) Reply
  append_to shared k value none = do
    db_add D E k (string (try_object_encoding shared (raw value)))
    signal_modified_key D E k
    add_dirty D E 1
    pure (integer (pos (string_object_len (try_object_encoding shared (raw value)))))
  append_to shared k value (some (other t)) = pure (error wrong_type)
  append_to shared k value (some (string s)) =
      if too_big (pos (string_object_len s + length value)) then pure (error too_long) else do
        db_overwrite D E k (string (raw (decoded s ++ value)))
        write_reply k (decoded s ++ value)

  unfoldable pub append : Bool → ℤ → K → List ℕ → Act (Server D E) Reply
  unfolding lookup_key_write try_object_encoding decoded string_object_len db_add db_overwrite
      signal_modified_key add_dirty
  append shared now k value = do o ← lookup_key_write D E now k; append_to shared k value o

  -- `strlenCommand`
  abbrev pub strlen_of : Option Obj → Reply
  strlen_of none = integer (pos 0)
  strlen_of (some (string s)) = integer (pos (string_object_len s))
  strlen_of (some (other t)) = error wrong_type

  unfoldable pub strlen : ℤ → K → Act (Server D E) Reply
  unfolding lookup_key_read string_object_len
  strlen now k = do o ← lookup_key_read D E now k; pure (strlen_of o)
