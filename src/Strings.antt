-- ===== src/Strings.antt =====
-- redis/src/t_string.c: the commands on strings. An argument that is stored is encoded first, which
-- `shared` (its reference count) may refuse; a command's arguments are the strings it reads of argv.
mod Tests
pub mod Ranges
pub mod SetGet
pub mod Counters
pub mod Safety
pub mod Growing
pub mod Calls
use coffee_table.Prelude.{
  ℕ, suc, ◌+◌, ◌-◌, ◌*◌, ◌/◌, ◌%◌, ◌^◌, Bool, true, false, ◌&&◌, ◌||◌, not, Option, none, some,
  List, [], ◌∷◌, ◌++◌, length, if◌then◌else◌, is_some, ltb, leb, ◌==◌,
}
use coffee_table.Prelude.Int.{ℤ, pos, negsuc, ltb_ℤ, ◌+ℤ◌, ◌-ℤ◌, ◌*ℤ◌}
use coffee_table.Act.{Act, ◌>>=◌, ◌>>◌, continue, pure, assert, modify, when_true}
use coffee_table.Dict.Bucket.{KeyType}
use coffee_table.Dict.KeyMap.{KeyMap}
use coffee_table.Util.{llong_max}
use coffee_table.Object.{
  Obj, string, other, Str, raw, int, Libc, get_long_long, create_from_long_long,
  try_object_encoding, decoded, string_object_len,
}
use coffee_table.Reply.{
  Reply, done, integer, bulk, null_bulk, multi_bulk, error, wrong_type, not_an_integer, overflow,
  invalid_expire, too_long, wrong_arity,
}
use coffee_table.Db.{
  Server, db_add, db_overwrite, lookup_key_read, lookup_key_write, set_key, set_expire,
  signal_modified_key,
}
use coffee_table.Db.Commands.{wrap64, add_dirty}

-- `checkStringLength` refuses
abbrev pub too_big : ℤ → Bool
too_big size = ltb_ℤ (pos (512 * 1024 * 1024)) size

-- the overflow test of `incrDecrCommand`
unfoldable pub would_overflow : ℤ → ℤ → Bool
unfolding ◌-ℤ◌
would_overflow incr oldvalue =
    ltb_ℤ incr (pos 0) && ltb_ℤ oldvalue (pos 0) && ltb_ℤ incr (negsuc llong_max -ℤ oldvalue)
    || ltb_ℤ (pos 0) incr && ltb_ℤ (pos 0) oldvalue && ltb_ℤ (pos llong_max -ℤ oldvalue) incr

module _ {K : Type 0} ⦃type : KeyType K⦄ (D : KeyMap K Obj) (E : KeyMap K ℤ) where
  -- `setGenericCommand` behind the check of its expire argument
  unfoldable pub set_value : Bool → ℤ → K → Str → Option ℤ → Act (Server D E) Reply
  unfolding lookup_key_write set_key add_dirty set_expire ◌+ℤ◌ wrap64
  set_value nx now k v milliseconds = do
    old ← lookup_key_write D E now k
    (if is_some old && nx then pure (integer (pos 0)) else do
      set_key D E now k (string v)
      add_dirty D E 1
      (elim milliseconds [ none ↦ pure tt | some t ↦ set_expire D E k (wrap64 (now +ℤ t)) ])
      pure (if nx then integer (pos 1) else done))

  abbrev pub set_param : Bool → ℤ → K → Str → Bool → Option ℤ → Act (Server D E) Reply
  set_param nx now k v seconds none = pure (error not_an_integer)
  set_param nx now k v seconds (some t) =
      if not (ltb_ℤ (pos 0) t)
      then pure (error invalid_expire)
      else set_value nx now k v (some (if seconds then wrap64 (t *ℤ pos 1000) else t))

  -- `setGenericCommand`; `seconds` says that the unit is UNIT_SECONDS
  unfoldable pub set_generic :
      Libc → Bool → ℤ → K → Str → Option Str → Bool → Act (Server D E) Reply
  unfolding set_value get_long_long wrap64 ◌*ℤ◌
  set_generic l nx now k v none seconds = set_value nx now k v none
  set_generic l nx now k v (some param) seconds =
      set_param nx now k v seconds (get_long_long l (some param))

  -- `setCommand`, `setnxCommand`, `setexCommand`, `psetexCommand`
  unfoldable pub set : Libc → Bool → ℤ → K → Str → Act (Server D E) Reply
  unfolding set_generic try_object_encoding
  set l shared now k v = set_generic l false now k (try_object_encoding shared v) none false

  unfoldable pub setnx : Libc → Bool → ℤ → K → Str → Act (Server D E) Reply
  unfolding set_generic try_object_encoding
  setnx l shared now k v = set_generic l true now k (try_object_encoding shared v) none false

  unfoldable pub setex : Libc → Bool → ℤ → K → Str → Str → Act (Server D E) Reply
  unfolding set_generic try_object_encoding
  setex l shared now k t v = set_generic l false now k (try_object_encoding shared v) (some t) true

  unfoldable pub psetex : Libc → Bool → ℤ → K → Str → Str → Act (Server D E) Reply
  unfolding set_generic try_object_encoding
  psetex l shared now k t v =
      set_generic l false now k (try_object_encoding shared v) (some t) false

  -- `getGenericCommand`: whether it is REDIS_OK, and the reply
  abbrev pub get_answer : Option Obj → Bool × Reply
  get_answer none = (true, null_bulk)
  get_answer (some (string s)) = (true, bulk (decoded s))
  get_answer (some (other k)) = (false, error wrong_type)

  unfoldable pub get_generic : ℤ → K → Act (Server D E) (Bool × Reply)
  unfolding lookup_key_read decoded
  get_generic now k = do o ← lookup_key_read D E now k; pure (get_answer o)

  -- `getCommand`
  unfoldable pub get : ℤ → K → Act (Server D E) Reply
  unfolding get_generic
  get now k = do a ← get_generic now k; pure a.1

  -- `getsetCommand`
  unfoldable pub getset : Bool → ℤ → K → Str → Act (Server D E) Reply
  unfolding get_generic set_key try_object_encoding add_dirty
  getset shared now k v = do
    a ← get_generic now k
    when_true a.0 (do set_key D E now k (string (try_object_encoding shared v)); add_dirty D E 1)
    pure a.1

  -- `mgetCommand`
  abbrev pub string_bulk : Option Obj → Option (List ℕ)
  string_bulk none = none
  string_bulk (some (string s)) = some (decoded s)
  string_bulk (some (other k)) = none

  unfoldable pub mget_loop : ℤ → List K → Act (Server D E) (List (Option (List ℕ)))
  unfolding lookup_key_read decoded
  mget_loop now [] = pure []
  mget_loop now (k ∷ ks) = do
    o ← lookup_key_read D E now k
    rest ← mget_loop now ks
    pure (string_bulk o ∷ rest)

  unfoldable pub mget : ℤ → List K → Act (Server D E) Reply
  unfolding mget_loop
  mget now ks = do bulks ← mget_loop now ks; pure (multi_bulk bulks)

  -- the loops of `msetGenericCommand`: the keys that are there, and the new values
  unfoldable pub busy_keys : ℤ → List (K × Str) → Act (Server D E) ℕ
  unfolding lookup_key_write
  busy_keys now [] = pure 0
  busy_keys now ((k, v) ∷ pairs) = do
    o ← lookup_key_write D E now k
    busy ← busy_keys now pairs
    pure ((if is_some o then 1 else 0) + busy)

  unfoldable pub set_pairs : Bool → ℤ → List (K × Str) → Act (Server D E) (Unit {0})
  unfolding set_key try_object_encoding
  set_pairs shared now [] = pure tt
  set_pairs shared now ((k, v) ∷ pairs) = do
    set_key D E now k (string (try_object_encoding shared v))
    set_pairs shared now pairs

  unfoldable pub mset_all : Bool → Bool → ℤ → List (K × Str) → Act (Server D E) Reply
  unfolding set_pairs add_dirty
  mset_all shared nx now pairs = do
    set_pairs shared now pairs
    add_dirty D E (length pairs)
    pure (if nx then integer (pos 1) else done)

  -- `msetGenericCommand`; `unpaired` says that argc is even, so that a key has no value
  unfoldable pub mset_generic : Bool → Bool → ℤ → List (K × Str) → Bool → Act (Server D E) Reply
  unfolding busy_keys mset_all
  mset_generic shared nx now pairs unpaired =
      if unpaired
      then pure (error wrong_arity)
      else if nx
      then (do
        busy ← busy_keys now pairs
        (if busy == 0 then mset_all shared nx now pairs else pure (integer (pos 0))))
      else mset_all shared nx now pairs

  -- `incrDecrCommand`, with the old object and its number
  abbrev pub incr_value : K → ℤ → Option Obj → Option ℤ → Act (Server D E) Reply
  incr_value k incr o none = pure (error not_an_integer)
  incr_value k incr o (some oldvalue) =
      if would_overflow incr oldvalue then pure (error overflow) else do
        (if is_some o
            then db_overwrite D E k (string (create_from_long_long (oldvalue +ℤ incr)))
            else db_add D E k (string (create_from_long_long (oldvalue +ℤ incr))))
        signal_modified_key D E k
        add_dirty D E 1
        pure (integer (oldvalue +ℤ incr))

  abbrev pub incr_object : Libc → K → ℤ → Option Obj → Act (Server D E) Reply
  incr_object l k incr none = incr_value k incr none (get_long_long l none)
  incr_object l k incr (some (string s)) =
      incr_value k incr (some (string s)) (get_long_long l (some s))
  incr_object l k incr (some (other t)) = pure (error wrong_type)

  -- `incrDecrCommand`
  unfoldable pub incr_decr : Libc → ℤ → K → ℤ → Act (Server D E) Reply
  unfolding create_from_long_long lookup_key_write get_long_long would_overflow db_overwrite db_add
      signal_modified_key add_dirty ◌+ℤ◌
  incr_decr l now k incr = do o ← lookup_key_write D E now k; incr_object l k incr o

  -- `incrCommand`, `decrCommand`, `incrbyCommand`, `decrbyCommand`
  unfoldable pub incr : Libc → ℤ → K → Act (Server D E) Reply
  unfolding incr_decr
  incr l now k = incr_decr l now k (pos 1)

  unfoldable pub decr : Libc → ℤ → K → Act (Server D E) Reply
  unfolding incr_decr
  decr l now k = incr_decr l now k (negsuc 0)

  abbrev pub by_param : (ℤ → Act (Server D E) Reply) → Option ℤ → Act (Server D E) Reply
  by_param f none = pure (error not_an_integer)
  by_param f (some n) = f n

  unfoldable pub incrby : Libc → ℤ → K → Str → Act (Server D E) Reply
  unfolding incr_decr get_long_long
  incrby l now k param = by_param (incr_decr l now k) (get_long_long l (some param))

  unfoldable pub decrby : Libc → ℤ → K → Str → Act (Server D E) Reply
  unfolding incr_decr get_long_long ◌-ℤ◌ wrap64
  decrby l now k param =
      by_param (λ n. incr_decr l now k (wrap64 (pos 0 -ℤ n))) (get_long_long l (some param))
