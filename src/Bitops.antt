-- ===== src/Bitops.antt =====
-- redis/src/bitops.c: bits of a string of bytes set, read and counted.
mod Tests
pub mod Word
pub mod Count
pub mod Rounds
pub mod Setbit
pub mod Commands
pub mod Safety
use coffee_table.Prelude.{
  ℕ, zero, suc, ◌+◌, ◌-◌, ◌*◌, ◌/◌, ◌%◌, ◌^◌, Bool, true, false, not, Option, none, some, List, [],
  ◌∷◌, ◌++◌, length, take, drop, get_or, set, if◌then◌else◌, ltb, leb, ◌==◌, bit_and,
}
use coffee_table.Prelude.Bits.{bit_or}
use coffee_table.Prelude.Int.{ℤ, pos, negsuc}
use coffee_table.Act.{Act, ◌>>=◌, ◌>>◌, continue, pure, with_state}
use coffee_table.Dict.Bucket.{KeyType}
use coffee_table.Dict.KeyMap.{KeyMap}
use coffee_table.Object.{Obj, string, other, Str, raw, Libc, get_long_long, decoded}
use coffee_table.Reply.{Reply, integer, error, wrong_type, not_an_integer, out_of_range}
use coffee_table.Db.{
  Server, db_add, db_overwrite, lookup_key_read, lookup_key_write, signal_modified_key,
}
use coffee_table.Db.Commands.{add_dirty}
use coffee_table.Strings.Ranges.{grow_zero, range}

-- the table `bitsinbyte`
abbrev pub bits_in_byte : List ℕ
bits_in_byte =
    0 ∷ 1 ∷ 1 ∷ 2 ∷ 1 ∷ 2 ∷ 2 ∷ 3 ∷ 1 ∷ 2 ∷ 2 ∷ 3 ∷ 2 ∷ 3 ∷ 3 ∷ 4 ∷ 1 ∷ 2 ∷ 2 ∷ 3 ∷ 2 ∷ 3 ∷ 3 ∷ 4
    ∷ 2 ∷ 3 ∷ 3 ∷ 4 ∷ 3 ∷ 4 ∷ 4 ∷ 5 ∷ 1 ∷ 2 ∷ 2 ∷ 3 ∷ 2 ∷ 3 ∷ 3 ∷ 4 ∷ 2 ∷ 3 ∷ 3 ∷ 4 ∷ 3 ∷ 4 ∷ 4 ∷ 5
    ∷ 2 ∷ 3 ∷ 3 ∷ 4 ∷ 3 ∷ 4 ∷ 4 ∷ 5 ∷ 3 ∷ 4 ∷ 4 ∷ 5 ∷ 4 ∷ 5 ∷ 5 ∷ 6 ∷ 1 ∷ 2 ∷ 2 ∷ 3 ∷ 2 ∷ 3 ∷ 3 ∷ 4
    ∷ 2 ∷ 3 ∷ 3 ∷ 4 ∷ 3 ∷ 4 ∷ 4 ∷ 5 ∷ 2 ∷ 3 ∷ 3 ∷ 4 ∷ 3 ∷ 4 ∷ 4 ∷ 5 ∷ 3 ∷ 4 ∷ 4 ∷ 5 ∷ 4 ∷ 5 ∷ 5 ∷ 6
    ∷ 2 ∷ 3 ∷ 3 ∷ 4 ∷ 3 ∷ 4 ∷ 4 ∷ 5 ∷ 3 ∷ 4 ∷ 4 ∷ 5 ∷ 4 ∷ 5 ∷ 5 ∷ 6 ∷ 3 ∷ 4 ∷ 4 ∷ 5 ∷ 4 ∷ 5 ∷ 5 ∷ 6
    ∷ 4 ∷ 5 ∷ 5 ∷ 6 ∷ 5 ∷ 6 ∷ 6 ∷ 7 ∷ 1 ∷ 2 ∷ 2 ∷ 3 ∷ 2 ∷ 3 ∷ 3 ∷ 4 ∷ 2 ∷ 3 ∷ 3 ∷ 4 ∷ 3 ∷ 4 ∷ 4 ∷ 5
    ∷ 2 ∷ 3 ∷ 3 ∷ 4 ∷ 3 ∷ 4 ∷ 4 ∷ 5 ∷ 3 ∷ 4 ∷ 4 ∷ 5 ∷ 4 ∷ 5 ∷ 5 ∷ 6 ∷ 2 ∷ 3 ∷ 3 ∷ 4 ∷ 3 ∷ 4 ∷ 4 ∷ 5
    ∷ 3 ∷ 4 ∷ 4 ∷ 5 ∷ 4 ∷ 5 ∷ 5 ∷ 6 ∷ 3 ∷ 4 ∷ 4 ∷ 5 ∷ 4 ∷ 5 ∷ 5 ∷ 6 ∷ 4 ∷ 5 ∷ 5 ∷ 6 ∷ 5 ∷ 6 ∷ 6 ∷ 7
    ∷ 2 ∷ 3 ∷ 3 ∷ 4 ∷ 3 ∷ 4 ∷ 4 ∷ 5 ∷ 3 ∷ 4 ∷ 4 ∷ 5 ∷ 4 ∷ 5 ∷ 5 ∷ 6 ∷ 3 ∷ 4 ∷ 4 ∷ 5 ∷ 4 ∷ 5 ∷ 5 ∷ 6
    ∷ 4 ∷ 5 ∷ 5 ∷ 6 ∷ 5 ∷ 6 ∷ 6 ∷ 7 ∷ 3 ∷ 4 ∷ 4 ∷ 5 ∷ 4 ∷ 5 ∷ 5 ∷ 6 ∷ 4 ∷ 5 ∷ 5 ∷ 6 ∷ 5 ∷ 6 ∷ 6 ∷ 7
    ∷ 4 ∷ 5 ∷ 5 ∷ 6 ∷ 5 ∷ 6 ∷ 6 ∷ 7 ∷ 5 ∷ 6 ∷ 6 ∷ 7 ∷ 6 ∷ 7 ∷ 7 ∷ 8 ∷ []

-- one of the four numbers of a round of `popcount`, a `uint32_t`
unfoldable pub ones_in_word : ℕ → ℕ
ones_in_word aux =
    let pairs = (aux + 2 ^ 32 - bit_and (aux / 2) 0x55555555) % 2 ^ 32 in
    let fours = (bit_and pairs 0x33333333 + bit_and (pairs / 4) 0x33333333) % 2 ^ 32 in
    bit_and ((fours + fours / 16) % 2 ^ 32) 0x0f0f0f0f * 0x01010101 % 2 ^ 32 / 2 ^ 24

-- `*p4`, the lowest byte first
abbrev pub word : List ℕ → ℕ
word p = get_or p 0 0 + 256 * (get_or p 1 0 + 256 * (get_or p 2 0 + 256 * get_or p 3 0))

-- the loop over 16 bytes, for its number of rounds
unfoldable pub popcount_rounds : ℕ → List ℕ → ℕ × List ℕ
unfolding ones_in_word
popcount_rounds zero p = (0, p)
popcount_rounds (suc n) p =
    let rest = popcount_rounds n (drop 16 p) in
    (
      ones_in_word (word p)
          + ones_in_word (word (drop 4 p))
          + ones_in_word (word (drop 8 p))
          + ones_in_word (word (drop 12 p))
          + rest.0,
      rest.1,
    )

-- the loop over the remaining bytes
abbrev pub popcount_bytes : List ℕ → ℕ
popcount_bytes [] = 0
popcount_bytes (b ∷ p) = get_or bits_in_byte b 0 + popcount_bytes p

-- `popcount` of all the bytes
unfoldable pub popcount : List ℕ → ℕ
unfolding popcount_rounds
popcount p = let (bits, rest) = popcount_rounds (length p / 16) p in bits + popcount_bytes rest

-- `getBitOffsetFromArgument`, behind the reading of the number
abbrev pub offset_of : Option ℤ → Option ℕ
offset_of none = none
offset_of (some (negsuc n)) = none
offset_of (some (pos n)) = if leb (512 * 1024 * 1024) (n / 2 ^ 3) then none else some n

-- `1 << bit` for a bit offset
abbrev pub bit_mask : ℕ → ℕ
bit_mask offset = 2 ^ (7 - bit_and offset 7)

-- the bit that `getbitCommand` answers
unfoldable pub get_bit : List ℕ → ℕ → Bool
get_bit s offset =
    let byte = offset / 2 ^ 3 in
    if ltb byte (length s) then not (bit_and (get_or s byte 0) (bit_mask offset) == 0) else false

-- the value that `setbitCommand` leaves, and the old bit
unfoldable pub set_bit : List ℕ → ℕ → ℕ → List ℕ × Bool
set_bit s offset on =
    let byte = offset / 2 ^ 3 in
    let grown = grow_zero s (byte + 1) in
    let byteval = get_or grown byte 0 in
    let bitval = bit_and byteval (bit_mask offset) in
    let cleared = bit_and byteval (255 - bit_mask offset) in
    (set grown byte (bit_or cleared (bit_and on 1 * bit_mask offset)), not (bitval == 0))
