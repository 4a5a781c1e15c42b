-- ===== src/Bitops/Commands.antt =====
-- redis/src/bitops.c: SETBIT, GETBIT and BITCOUNT. The copy of a shared or encoded object and the write
-- into it are one write under the key.
use coffee_table.Prelude.{ℕ, ◌/◌, Bool, false, Option, none, some, List, [], if◌then◌else◌, ◌==◌}
use coffee_table.Prelude.Int.{ℤ, pos, negsuc}
use coffee_table.Act.{Act, ◌>>=◌, ◌>>◌, pure, with_state}
use coffee_table.Dict.Bucket.{KeyType}
use coffee_table.Dict.KeyMap.{KeyMap}
use coffee_table.Object.{Obj, string, other, Str, raw, Libc, get_long_long, decoded}
use coffee_table.Reply.{
  Reply, integer, error, wrong_type, not_an_integer, bad_bit_offset, bad_bit, wrong_arity,
}
use coffee_table.Db.{
  Server, db_add, db_overwrite, lookup_key_read, lookup_key_write, signal_modified_key,
}
use coffee_table.Db.Commands.{add_dirty}
use coffee_table.Strings.Ranges.{range}
use coffee_table.Bitops.{offset_of, get_bit, set_bit, popcount}

-- `on & ~1` is 0
abbrev pub bit_of : Option ℤ → Option ℕ
bit_of none = none
bit_of (some (negsuc n)) = none
bit_of (some (pos n)) = if n / 2 == 0 then some n else none

abbrev pub bit_reply : Bool → Reply
bit_reply b = integer (pos (if b then 1 else 0))

-- the arguments of BITCOUNT behind the key: none, a start and an end, or another number of them
pub data Span : Type 0 where
  whole : Span
  between : Str → Str → Span
  misplaced : Span

module _ {K : Type 0} ⦃type : KeyType K⦄ (D : KeyMap K Obj) (E : KeyMap K ℤ) where
  abbrev pub bit_written : K → List ℕ × Bool → Act (Server D E) Reply
  bit_written k (s, bitval) = do
    db_overwrite D E k (string (raw s))
    signal_modified_key D E k
    add_dirty D E 1
    pure (bit_reply bitval)

  -- `setbitCommand`, for each object that the key may have
  abbrev pub setbit_of : K → ℕ → ℕ → Option Obj → Act (Server D E) Reply
  setbit_of k offset on none = do
    db_add D E k (string (raw []))
    bit_written k (set_bit [] offset on)
  setbit_of k offset on (some (other t)) = pure (error wrong_type)
  setbit_of k offset on (some (string s)) = bit_written k (set_bit (decoded s) offset on)

  abbrev pub setbit_params : ℤ → K → Option ℕ → Option ℕ → Act (Server D E) Reply
  setbit_params now k none on = pure (error bad_bit_offset)
  setbit_params now k (some offset) none = pure (error bad_bit)
  setbit_params now k (some offset) (some on) = do
    o ← lookup_key_write D E now k
    setbit_of k offset on o

  unfoldable pub setbit : Libc → ℤ → K → Str → Str → Act (Server D E) Reply
  unfolding lookup_key_write get_long_long set_bit decoded db_add db_overwrite signal_modified_key
      add_dirty
  setbit l now k offset on =
      setbit_params now k (offset_of (get_long_long l (some offset)))
        (bit_of (get_long_long l (some on)))

  -- `getbitCommand`
  abbrev pub getbit_of : ℕ → Option Obj → Reply
  getbit_of offset none = bit_reply false
  getbit_of offset (some (other t)) = error wrong_type
  getbit_of offset (some (string s)) = bit_reply (get_bit (decoded s) offset)

  abbrev pub getbit_param : ℤ → K → Option ℕ → Act (Server D E) Reply
  getbit_param now k none = pure (error bad_bit_offset)
  getbit_param now k (some offset) = do o ← lookup_key_read D E now k; pure (getbit_of offset o)

  unfoldable pub getbit : Libc → ℤ → K → Str → Act (Server D E) Reply
  unfolding lookup_key_read get_long_long get_bit decoded
  getbit l now k offset = getbit_param now k (offset_of (get_long_long l (some offset)))

  -- `bitcountCommand`, behind the lookup; the bytes read are those of GETRANGE
  abbrev pub count_between : List ℕ → Option ℤ → Option ℤ → Act (Server D E) Reply
  count_between s none end = pure (error not_an_integer)
  count_between s (some start) none = pure (error not_an_integer)
  count_between s (some start) (some end) = do
    bytes ← with_state (range s start end)
    pure (integer (pos (popcount bytes)))

  abbrev pub count_of : Libc → Span → Option Obj → Act (Server D E) Reply
  count_of l span none = pure (integer (pos 0))
  count_of l span (some (other t)) = pure (error wrong_type)
  count_of l whole (some (string s)) = pure (integer (pos (popcount (decoded s))))
  count_of l (between start end) (some (string s)) =
      count_between (decoded s) (get_long_long l (some start)) (get_long_long l (some end))
  count_of l misplaced (some (string s)) = pure (error wrong_arity)

  unfoldable pub bitcount : Libc → ℤ → K → Span → Act (Server D E) Reply
  unfolding lookup_key_read get_long_long range popcount decoded
  bitcount l now k span = do o ← lookup_key_read D E now k; count_of l span o
