-- ===== src/Db.antt =====
-- redis/src/db.c: the keyspace of one database, with the expire times of its keys.
-- A call that fails an assertion aborts the server: `none`. A command reads the clock once, `now`.
mod Tests
pub mod Fixture
pub mod Expiry
pub mod Keys
pub mod Commands
pub mod Updates
pub mod Rename
pub mod Owned
pub mod Safety
use coffee_table.Prelude.{
  ℕ, ◌+◌, Bool, true, false, ◌&&◌, ◌||◌, not, Option, none, some, List, [], ◌∷◌, if◌then◌else◌,
  is_some, ◌≡◌, ltb,
}
use coffee_table.Prelude.Int.{ℤ, pos, negsuc, ltb_ℤ, pos_part, neg_part}
use coffee_table.Act.{Act, ◌>>=◌, ◌>>◌, continue, pure, assert, modify, with_state}
use coffee_table.Dict.KeyMap.{KeyMap}
use coffee_table.Dict.Bucket.{KeyType}
use coffee_table.Object.{Obj}

module _ {K : Type 0} ⦃type : KeyType K⦄ (D : KeyMap K Obj) (E : KeyMap K ℤ) where
  -- `redisDb` and what the keyspace uses of `redisServer`; `modified` lists the signalled keys,
  -- `propagated` the keys whose DEL was sent, the last one first
  pub record Server : Type 0 where
    pub dict : D.Carrier
    pub expires : E.Carrier
    pub dirty : ℕ
    pub stat_expiredkeys : ℕ
    pub stat_keyspace_hits : ℕ
    pub stat_keyspace_misses : ℕ
    pub modified : List K
    pub propagated : List K
    pub loading : Bool
    pub is_slave : Bool

  -- `lookupKey`, `dbExists`
  unfoldable pub lookup_key : K → Act Server (Option Obj)
  lookup_key k s = some (D.look s.dict k, s)

  unfoldable pub db_exists : K → Act Server Bool
  db_exists k s = some (is_some (D.look s.dict k), s)

  unfoldable pub db_add : K → Obj → Act Server (Unit {0})
  db_add k v = do
    there ← db_exists k
    assert (not there)
    modify (λ s. record s { dict = D.put s.dict k v })

  unfoldable pub db_overwrite : K → Obj → Act Server (Unit {0})
  db_overwrite k v = do
    there ← db_exists k
    assert there
    modify (λ s. record s { dict = D.put s.dict k v })

  -- `dbDelete`
  unfoldable pub db_delete : K → Act Server Bool
  db_delete k s =
      some (
        is_some (D.look s.dict k),
        record s { dict = D.drop s.dict k; expires = E.drop s.expires k },
      )

  unfoldable pub remove_expire : K → Act Server Bool
  remove_expire k s =
      if is_some (D.look s.dict k)
      then some (is_some (E.look s.expires k), record s { expires = E.drop s.expires k })
      else none

  unfoldable pub set_expire : K → ℤ → Act Server (Unit {0})
  set_expire k when s =
      if is_some (D.look s.dict k)
      then some (tt, record s { expires = E.put s.expires k when })
      else none

  -- `getExpire`: -1 for a key without expire time
  abbrev pub expire_of : Bool → Option ℤ → Option ℤ
  expire_of exists none = some (negsuc 0)
  expire_of exists (some when) = if exists then some when else none

  unfoldable pub get_expire : K → Act Server ℤ
  get_expire k s = with_state (expire_of (is_some (D.look s.dict k)) (E.look s.expires k)) s

  unfoldable pub signal_modified_key : K → Act Server (Unit {0})
  signal_modified_key k = modify (λ s. record s { modified = k ∷ s.modified })

  unfoldable pub propagate_expire : K → Act Server (Unit {0})
  propagate_expire k = modify (λ s. record s { propagated = k ∷ s.propagated })

  -- `expireIfNeeded`, once the expire time is known
  unfoldable pub expire_at : ℤ → K → ℤ → Act Server Bool
  unfolding propagate_expire db_delete
  expire_at now k when s =
      if ltb_ℤ when (pos 0)
      then some (false, s)
      else if s.loading
      then some (false, s)
      else if s.is_slave
      then some (ltb_ℤ when now, s)
      else if not (ltb_ℤ when now)
      then some (false, s)
      else (do
        modify (λ s. record s { stat_expiredkeys = s.stat_expiredkeys + 1 })
        propagate_expire k
        db_delete k)
          s

  -- `expireIfNeeded`
  unfoldable pub expire_if_needed : ℤ → K → Act Server Bool
  unfolding get_expire expire_at
  expire_if_needed now k = do when ← get_expire k; expire_at now k when

  unfoldable pub lookup_key_read : ℤ → K → Act Server (Option Obj)
  unfolding expire_if_needed lookup_key
  lookup_key_read now k = do
    expire_if_needed now k
    o ← lookup_key k
    modify (λ s.
        if is_some o
        then record s { stat_keyspace_hits = s.stat_keyspace_hits + 1 }
        else record s { stat_keyspace_misses = s.stat_keyspace_misses + 1 })
    pure o

  unfoldable pub lookup_key_write : ℤ → K → Act Server (Option Obj)
  unfolding expire_if_needed lookup_key
  lookup_key_write now k = do expire_if_needed now k; lookup_key k

  -- `setKey`
  unfoldable pub set_key : ℤ → K → Obj → Act Server (Unit {0})
  unfolding lookup_key_write db_add db_overwrite remove_expire signal_modified_key db_exists
  set_key now k v = do
    old ← lookup_key_write now k
    (if is_some old then db_overwrite k v else db_add k v)
    remove_expire k
    signal_modified_key k
