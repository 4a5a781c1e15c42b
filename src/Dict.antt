-- ===== src/Dict.antt =====
-- redis/src/dict.c and dict.h: the hash table with incremental rehashing.
-- A bucket is the list of its entries, from `table[i]` along `next`; a NULL table is the empty list.
-- A run that would read outside a table, or fail an `assert`, is `none`, and so is one in which an `int` that
-- counts buckets would leave its range.
pub mod Bucket
pub mod Table
pub mod Moves
pub mod Scan
pub mod Invariant
pub mod Rehash
pub mod Steps
pub mod Expand
pub mod Ready
pub mod Probe
pub mod Add
pub mod Change
pub mod Fetch
pub mod Replace
pub mod Delete
pub mod Client
mod Tests
pub mod KeyMap
pub mod Access
use coffee_table.Prelude.{
  ℕ, zero, suc, ◌+◌, ◌-◌, ◌*◌, ◌/◌, ◌%◌, ◌^◌, ◌≡◌, ◌↔◌, Bool, true, false, ◌&&◌, ◌||◌, not, Option,
  none, some, List, [], ◌∷◌, bit_and, ltb, leb, ◌==◌, if◌then◌else◌, ◌>>=◌, get_elem?, set, drop,
  replicate, length,
}
use Bucket.{Chain, KeyType, contains, find, overwrite, unlink}

-- `dictht`
pub record Dictht {ℓ} (K V : Type ℓ) : Type ℓ where
  pub table : List (Chain K V)
  pub size : ℕ
  pub sizemask : ℕ
  pub used : ℕ

-- `dict`: `rehashidx == -1` is `none`
pub record Dict {ℓ} (K V : Type ℓ) : Type ℓ where
  pub ht0 : Dictht K V
  pub ht1 : Dictht K V
  pub rehashidx : Option ℕ
  pub iterators : ℕ

abbrev pub initial_size : ℕ
initial_size = 4

abbrev pub long_max : ℕ
long_max = 2 ^ 63 - 1

abbrev pub is_null {ℓ} : {A : Type ℓ} → List A → Bool
is_null [] = true
is_null (x ∷ xs) = false

-- `used--` on an unsigned long
abbrev pub dec_used : ℕ → ℕ
dec_used zero = 2 ^ 64 - 1
dec_used (suc n) = n

-- `while (1) { if (i >= size) return i; i *= 2; }`
unfoldable pub next_power_loop : ℕ → ℕ → ℕ → Option ℕ
next_power_loop zero i size = none
next_power_loop (suc fuel) i size =
    let rest = next_power_loop fuel (i * 2) size in if leb size i then some i else rest

unfoldable pub next_power : ℕ → Option ℕ
unfolding next_power_loop
next_power size = if leb long_max size then some long_max else next_power_loop 62 initial_size size

-- `int minimal` of `dictResize`, which keeps 32 bits of the number of entries
abbrev pub minimal_of : ℕ → ℕ
minimal_of used =
    if leb (2 ^ 31) (used % 2 ^ 32) || ltb (used % 2 ^ 32) initial_size
    then initial_size
    else used % 2 ^ 32

module _ {ℓ} {K V : Type ℓ} where
  abbrev pub reset : Dictht K V
  reset = record { table = []; size = 0; sizemask = 0; used = 0 }

  abbrev pub is_rehashing : Dict K V → Bool
  is_rehashing d = elim d.rehashidx [ none ↦ false | some r ↦ true ]

  unfoldable pub create : Dict K V
  create = record { ht0 = reset; ht1 = reset; rehashidx = none; iterators = 0 }

  abbrev pub fresh_table : ℕ → Dictht K V
  fresh_table n = record { table = replicate n []; size = n; sizemask = n - 1; used = 0 }

  unfoldable pub expand : Dict K V → ℕ → Option (Bool × Dict K V)
  expand d size = do
    realsize ← next_power size
    some (
        if is_rehashing d || ltb size d.ht0.used
        then (false, d)
        else if is_null d.ht0.table
        then (true, record d { ht0 = fresh_table realsize })
        else (true, record d { ht1 = fresh_table realsize; rehashidx = some 0 }))

  unfoldable pub resize : Bool → Dict K V → Option (Bool × Dict K V)
  resize can_resize d =
      if not can_resize || is_rehashing d then some (false, d) else expand d (minimal_of d.ht0.used)

  -- `_dictExpandIfNeeded`, with `dict_force_resize_ratio` 5
  unfoldable pub expand_if_needed : Bool → Dict K V → Option (Bool × Dict K V)
  unfolding expand
  expand_if_needed can_resize d =
      if is_rehashing d
      then some (true, d)
      else if d.ht0.size == 0
      then expand d initial_size
      else if leb d.ht0.size d.ht0.used && (can_resize || ltb 5 (d.ht0.used / d.ht0.size))
      then expand d ((if ltb d.ht0.used d.ht0.size then d.ht0.size else d.ht0.used) * 2)
      else some (true, d)

  -- `while (table[i] == NULL) i++`, over the buckets from `i` on
  unfoldable pub scan_used : List (Chain K V) → ℕ → Option ℕ
  scan_used [] i = none
  scan_used ([] ∷ t) i = scan_used t (i + 1)
  scan_used ((e ∷ c) ∷ t) i = some i

  -- `entry->next = table[i]; table[i] = entry; used++`
  unfoldable pub push_entry : Dictht K V → ℕ → K × V → Option (Dictht K V)
  push_entry t i e = do
    c ← get_elem? t.table i
    some (record t { table = set t.table i (e ∷ c); used = t.used + 1 })

module _ {ℓ} {K V : Type ℓ} ⦃type : KeyType K⦄ where
  abbrev pub slot : Dictht K V → K → ℕ
  slot t k = bit_and (type.hash k) t.sizemask

  -- the inner loop of `dictRehash`: `ht[0].used--`, `ht[1].used++`
  unfoldable pub move_chain : Chain K V → Dictht K V → Dictht K V → Option (Dictht K V × Dictht K V)
  unfolding push_entry
  move_chain [] t0 t1 = some (t0, t1)
  move_chain (e ∷ c) t0 t1 = do
    t1' ← push_entry t1 (slot t1 e.0) e
    move_chain c (record t0 { used = dec_used t0.used }) t1'

  -- one round of `while (n--)`; `false` when the table was finished. `rehashidx` is an `int`
  unfoldable pub rehash_bucket : ℕ → Dict K V → Option (Bool × Dict K V)
  unfolding move_chain scan_used
  rehash_bucket r d =
      if d.ht0.used == 0
      then some (false, record d { ht0 = d.ht1; ht1 = reset; rehashidx = none })
      else if ltb r d.ht0.size
      then (do
        i ← scan_used (drop r d.ht0.table) r
        c ← get_elem? d.ht0.table i
        (t0, t1) ← move_chain c d.ht0 d.ht1
        if leb (2 ^ 31) (i + 1)
            then none
            else some (
              true,
              record d {
                ht0 = record t0 { table = set t0.table i [] };
                ht1 = t1;
                rehashidx = some (i + 1);
              },
            ))
      else none

  abbrev pub rehash_round : Dict K V → Option (Bool × Dict K V)
  rehash_round d = elim d.rehashidx [ none ↦ none | some r ↦ rehash_bucket r d ]

  unfoldable pub rehash_loop : ℕ → Dict K V → Option (Bool × Dict K V)
  unfolding rehash_bucket
  rehash_loop zero d = some (true, d)
  rehash_loop (suc n) d = do
    (more, d') ← rehash_round d
    elim more [ true ↦ rehash_loop n d' | false ↦ some (false, d') ]

  unfoldable pub rehash : ℕ → Dict K V → Option (Bool × Dict K V)
  unfolding rehash_loop
  rehash n d = if is_rehashing d then rehash_loop n d else some (false, d)

  -- `if (dictIsRehashing(d)) _dictRehashStep(d)`
  unfoldable pub rehash_step : Dict K V → Option (Dict K V)
  unfolding rehash
  rehash_step d =
      if is_rehashing d && d.iterators == 0 then (do (more, d') ← rehash 1 d; some d') else some d
