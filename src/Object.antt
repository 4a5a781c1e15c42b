-- ===== src/Object.antt =====
-- redis/src/object.c: string objects and their two encodings. The other types carry no contents here.
mod Tests
pub mod Encoding
use coffee_table.Prelude.{
  ℕ, ◌+◌, ◌≡◌, Bool, true, false, Option, none, some, List, [], ◌∷◌, length, ◌==◌, ◌||◌, not,
  if◌then◌else◌,
}
use coffee_table.Prelude.Int.{ℤ, pos, negsuc}
use coffee_table.Util.{ll2string, string2l, string2ll, fits_long}

pub data Kind : Type 0 where
  list set zset hash : Kind

-- the contents of a string object, raw or encoded as an integer
pub data Str : Type 0 where
  raw : List ℕ → Str
  int : ℤ → Str

-- `robj`: REDIS_STRING or another type. What asserts REDIS_STRING takes a `Str`.
pub data Obj : Type 0 where
  string : Str → Obj
  other : Kind → Obj

-- `tryObjectEncoding`; `shared` says that the reference count is above 1
abbrev pub encode : List ℕ → Option ℤ → Str
encode s none = raw s
encode s (some v) = int v

unfoldable pub try_object_encoding : Bool → Str → Str
unfolding string2l
try_object_encoding shared (raw s) = if shared then raw s else encode s (string2l s)
try_object_encoding shared (int v) = int v

-- the string of `getDecodedObject`
unfoldable pub decoded : Str → List ℕ
unfolding ll2string
decoded (raw s) = s
decoded (int v) = ll2string 32 v

-- `stringObjectLen`
unfoldable pub string_object_len : Str → ℕ
unfolding ll2string
string_object_len (raw s) = length s
string_object_len (int v) = length (ll2string 32 v)

-- libc: `strtoll` with base 10 gives the value, the rest of the string and whether errno is ERANGE
pub record Libc : Type 0 where
  pub strtoll : List ℕ → ℤ × List ℕ × Bool
  pub is_space : ℕ → Bool

-- the string ends, or goes on with a NUL byte
abbrev pub at_nul : List ℕ → Bool
at_nul [] = true
at_nul (c ∷ s) = c == 0

abbrev pub starts_with_space : Libc → List ℕ → Bool
starts_with_space l [] = l.is_space 0
starts_with_space l (c ∷ s) = l.is_space c

-- `getLongLongFromObject`; `none` is REDIS_ERR
unfoldable pub get_long_long : Libc → Option Str → Option ℤ
get_long_long l none = some (pos 0)
get_long_long l (some (raw s)) =
    let (value, rest, erange) = l.strtoll s in
    if starts_with_space l s || not (at_nul rest) || erange then none else some value
get_long_long l (some (int v)) = some v

-- `isObjectRepresentableAsLongLong`; `none` is REDIS_ERR
unfoldable pub representable : Str → Option ℤ
unfolding string2ll
representable (raw s) = string2ll s
representable (int v) = some v

-- `createStringObjectFromLongLong`
unfoldable pub create_from_long_long : ℤ → Str
unfolding ll2string
create_from_long_long value = if fits_long value then int value else raw (ll2string 32 value)
