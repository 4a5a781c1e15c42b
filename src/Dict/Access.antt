-- ===== src/Dict/Access.antt =====
-- redis/src/dict.c: the operations that add, find, change and delete an entry.
-- An operation returns `none` only where the C code reads outside a table or fails an `assert`.
use coffee_table.Prelude.{
  ℕ, ◌+◌, ◌-◌, ◌^◌, ltb, Bool, true, false, not, Option, none, some, if◌then◌else◌, ◌>>=◌,
  get_elem?, set, ◌==◌,
}
use coffee_table.Dict.{
  Dictht, Dict, reset, is_rehashing, expand_if_needed, push_entry, slot, rehash_step, dec_used,
}
use coffee_table.Dict.Bucket.{KeyType, find, contains, overwrite, unlink}

-- a bucket as the `int` that `_dictKeyIndex` answers; `none` inside is -1, which says that the key is
-- there, and any other negative index is a fault, as `dictAddRaw` then reads outside the table
abbrev pub int_index : ℕ → Option (Option ℕ)
int_index i = if ltb i (2 ^ 31) then some (some i) else if i == 2 ^ 32 - 1 then some none else none

module _ {ℓ} {K V : Type ℓ} ⦃type : KeyType K⦄ where
  -- the probes of `_dictKeyIndex`
  unfoldable pub probe_index : Dict K V → K → Option (Option ℕ)
  probe_index d k = do
    c0 ← get_elem? d.ht0.table (slot d.ht0 k)
    if contains k c0
        then some none
        else if not (is_rehashing d)
        then int_index (slot d.ht0 k)
        else (do
          c1 ← get_elem? d.ht1.table (slot d.ht1 k)
          if contains k c1 then some none else int_index (slot d.ht1 k))

  -- `_dictKeyIndex`
  unfoldable pub key_index : Bool → Dict K V → K → Option (Option ℕ × Dict K V)
  unfolding probe_index
  key_index can_resize d k = do
    (expanded, d') ← expand_if_needed can_resize d
    if expanded then (do i ← probe_index d' k; some (i, d')) else some (none, d')

  -- the entry linked in the new table during rehashing, else in the old one
  unfoldable pub link_entry : Dict K V → ℕ → K × V → Option (Dict K V)
  link_entry d i e =
      if is_rehashing d
      then (do t ← push_entry d.ht1 i e; some (record d { ht1 = t }))
      else (do t ← push_entry d.ht0 i e; some (record d { ht0 = t }))

  -- `dictAddRaw`, with the value that the caller stores in the entry that it returns
  unfoldable pub add_raw : Bool → Dict K V → K → V → Option (Bool × Dict K V)
  unfolding key_index link_entry
  add_raw can_resize d k v = do
    d1 ← rehash_step d
    (index, d2) ← key_index can_resize d1 k
    elim index [
      | none ↦ some (false, d2)
      | some i ↦ (do d3 ← link_entry d2 i (k, v); some (true, d3))
    ]

  -- `dictAdd`
  unfoldable pub add : Bool → Dict K V → K → V → Option (Bool × Dict K V)
  unfolding add_raw
  add can_resize d k v = add_raw can_resize d k v

  -- the loop of `dictFind` over the two tables: the second one is asked only during rehashing
  unfoldable pub find_second : Dict K V → K → Option V → Option (Option V)
  find_second d k (some v) = some (some v)
  find_second d k none =
      if not (is_rehashing d)
      then some none
      else (do c1 ← get_elem? d.ht1.table (slot d.ht1 k); some (find k c1))

  unfoldable pub find_entry : Dict K V → K → Option (Option V)
  unfolding find_second
  find_entry d k = do c0 ← get_elem? d.ht0.table (slot d.ht0 k); find_second d k (find k c0)

  -- `dictFind` and `dictFetchValue`
  unfoldable pub fetch_value : Dict K V → K → Option (Option V × Dict K V)
  unfolding find_entry
  fetch_value d k =
      if d.ht0.size == 0
      then some (none, d)
      else (do d' ← rehash_step d; v ← find_entry d' k; some (v, d'))

  -- `dictSetVal` on the entry that `dictFind` returned
  unfoldable pub set_val : Dict K V → K → V → Option (Dict K V)
  set_val d k v = do
    c0 ← get_elem? d.ht0.table (slot d.ht0 k)
    if contains k c0
        then some (record d {
          ht0 = record (d.ht0) { table = set d.ht0.table (slot d.ht0 k) (overwrite k v c0) };
        })
        else (do
          c1 ← get_elem? d.ht1.table (slot d.ht1 k)
          some (record d {
            ht1 = record (d.ht1) { table = set d.ht1.table (slot d.ht1 k) (overwrite k v c1) };
          }))

  -- `dictReplace`: `true` if the key was added, `false` if its value was replaced
  unfoldable pub replace : Bool → Dict K V → K → V → Option (Bool × Dict K V)
  unfolding add fetch_value set_val
  replace can_resize d k v = do
    (added, d1) ← add can_resize d k v
    if added then some (true, d1) else (do
      (found, d2) ← fetch_value d1 k
      elim found [ none ↦ none | some old ↦ (do d3 ← set_val d2 k v; some (false, d3)) ])

  -- one table of `dictGenericDelete`
  unfoldable pub delete_from : Dictht K V → K → Option (Bool × Dictht K V)
  delete_from t k = do
    c ← get_elem? t.table (slot t k)
    some (
        if contains k c
        then (
          true,
          record t { table = set t.table (slot t k) (unlink k c); used = dec_used t.used },
        )
        else (false, t))

  -- `dictGenericDelete`; what it frees is no part of the state
  unfoldable pub delete : Dict K V → K → Option (Bool × Dict K V)
  unfolding delete_from
  delete d k = if d.ht0.size == 0 then some (false, d) else (do
    d' ← rehash_step d
    (gone, t0) ← delete_from d'.ht0 k
    if gone
        then some (true, record d' { ht0 = t0 })
        else if not (is_rehashing d')
        then some (false, d')
        else (do (gone1, t1) ← delete_from d'.ht1 k; some (gone1, record d' { ht1 = t1 })))

module _ {ℓ} {K V : Type ℓ} where
  -- `dictEmpty`: both calls of `_dictClear` end in `_dictReset`
  unfoldable pub empty : Dict K V → Dict K V
  empty d = record { ht0 = reset; ht1 = reset; rehashidx = none; iterators = 0 }

  -- `dictSize`
  abbrev pub size : Dict K V → ℕ
  size d = d.ht0.used + d.ht1.used
