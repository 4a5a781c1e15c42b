-- ===== src/Sets.antt =====
-- redis/src/t_set.c: sets of strings in both encodings. A string is its bytes, also where its object is encoded
-- as an integer. `none` is a fault of the dictionary or the integer set, or a failed assertion.
pub mod Members
pub mod Convert
pub mod Stands
pub mod Adding
pub mod Removing
pub mod Runs
mod Tests
use coffee_table.Prelude.{
  ℕ, zero, suc, ◌+◌, ◌*◌, ◌/◌, Bool, true, false, ◌&&◌, not, Option, none, some, List, length,
  if◌then◌else◌, ltb, ◌==◌, ◌>>=◌, is_some,
}
use coffee_table.Prelude.Int.{ℤ}
use coffee_table.Util.{ll2string, string2ll}
use coffee_table.Intset.{
  Intset, intset_new, intset_add, intset_remove, intset_find, intset_get, intset_len,
}
use coffee_table.Dict.{Dict, create, expand, resize, initial_size}
use coffee_table.Dict.Access.{add, delete, fetch_value, size}
use coffee_table.Dict.Bucket.{KeyType}

-- a set object: REDIS_ENCODING_INTSET or REDIS_ENCODING_HT, whose values are NULL
pub data SetObject : Type 0 where
  ints : Intset → SetObject
  table : Dict (List ℕ) (Unit {0}) → SetObject

-- REDIS_HT_MINFILL
abbrev pub ht_minfill : ℕ
ht_minfill = 10

-- `htNeedsResize`, in percent
abbrev pub ht_needs_resize : Dict (List ℕ) (Unit {0}) → Bool
ht_needs_resize d =
    let slots = d.ht0.size + d.ht1.size in
    not (slots == 0)
    && not (size d == 0)
    && ltb initial_size slots
    && ltb (size d * 100 / slots) ht_minfill

abbrev pub set_type_create : List ℕ → SetObject
set_type_create value = elim (string2ll value) [ none ↦ table create | some n ↦ ints intset_new ]

abbrev pub set_type_size : SetObject → ℕ
set_type_size (ints is) = intset_len is
set_type_size (table d) = size d

-- `can_resize` is dict_can_resize, `max_entries` is server.set_max_intset_entries
module _ ⦃type : KeyType (List ℕ)⦄ (can_resize : Bool) (max_entries : ℕ) where
  -- the loop of `setTypeConvert` from the element at `i` on, with fuel
  unfoldable pub convert_loop :
      ℕ → Intset → ℕ → Dict (List ℕ) (Unit {0}) → Option (Dict (List ℕ) (Unit {0}))
  unfolding intset_get add ll2string
  convert_loop zero is i d = none
  convert_loop (suc fuel) is i d = do
    element ← intset_get is i
    elim element [
      | none ↦ some d
      | some x ↦ do
        (added, d') ← add can_resize d (ll2string 32 x) tt
        if added then convert_loop fuel is (i + 1) d' else none
    ]

  -- `setTypeConvert` to a hash table
  unfoldable pub set_type_convert : Intset → Option (Dict (List ℕ) (Unit {0}))
  unfolding convert_loop expand
  set_type_convert is = do
    (done, d) ← expand create (intset_len is)
    convert_loop (intset_len is + 1) is 0 d

  -- an integer set that has got a new element
  abbrev pub set_type_grow : Intset → Option (Bool × SetObject)
  set_type_grow is =
      if ltb max_entries (intset_len is)
      then (do d ← set_type_convert is; some (true, table d))
      else some (true, ints is)

  abbrev pub set_type_add_integer : Intset → ℤ → Option (Bool × SetObject)
  set_type_add_integer is n = do
    (success, is') ← intset_add is n
    if success then set_type_grow is' else some (false, ints is')

  abbrev pub set_type_add_string : Intset → List ℕ → Option (Bool × SetObject)
  set_type_add_string is value = do
    d ← set_type_convert is
    (added, d') ← add can_resize d value tt
    if added then some (true, table d') else none

  unfoldable pub set_type_add : SetObject → List ℕ → Option (Bool × SetObject)
  unfolding set_type_convert intset_add string2ll add
  set_type_add (table d) value = do (added, d') ← add can_resize d value tt; some (added, table d')
  set_type_add (ints is) value = elim (string2ll value) [
    | some n ↦ set_type_add_integer is n
    | none ↦ set_type_add_string is value
  ]

  abbrev pub shrink : Dict (List ℕ) (Unit {0}) → Option SetObject
  shrink d =
      if ht_needs_resize d
      then (do (done, d') ← resize can_resize d; some (table d'))
      else some (table d)

  unfoldable pub set_type_remove : SetObject → List ℕ → Option (Bool × SetObject)
  unfolding delete resize intset_remove string2ll
  set_type_remove (table d) value = do
    (deleted, d') ← delete d value
    if deleted then (do s ← shrink d'; some (true, s)) else some (false, table d')
  set_type_remove (ints is) value = elim (string2ll value) [
    | some n ↦ do (success, is') ← intset_remove is n; some (success, ints is')
    | none ↦ some (false, ints is)
  ]

  unfoldable pub set_type_is_member : SetObject → List ℕ → Option (Bool × SetObject)
  unfolding fetch_value intset_find string2ll
  set_type_is_member (table d) value = do
    (found, d') ← fetch_value d value
    some (is_some found, table d')
  set_type_is_member (ints is) value = elim (string2ll value) [
    | some n ↦ do found ← intset_find is n; some (found, ints is)
    | none ↦ some (false, ints is)
  ]
