-- ===== src/Db/Commands.antt =====
-- redis/src/db.c: the commands on keys and expire times. A command's arguments are the strings that it
-- reads of argv. How a command is rewritten for replication is no part of the model.
use coffee_table.Prelude.{
  zero, suc, ◌+◌, ℕ, ◌-◌, ◌/◌, ◌%◌, ◌^◌, Bool, true, false, ◌&&◌, not, Option, none, some, List, [],
  ◌∷◌, if◌then◌else◌, is_some, ltb, ◌==◌,
}
use coffee_table.Prelude.Int.{ℤ, pos, negsuc, ltb_ℤ, pos_part, neg_part, ◌+ℤ◌, ◌-ℤ◌, ◌*ℤ◌}
use coffee_table.Dict.Bucket.{KeyType}
use coffee_table.Act.{Act, ◌>>=◌, ◌>>◌, pure, assert, modify, when_true}
use coffee_table.Dict.KeyMap.{KeyMap}
use coffee_table.Object.{Obj, string, other, Str, Libc, get_long_long}
use coffee_table.Reply.{
  TypeName, no_type, string_type, kind_type, status, Reply, done, integer, error, same_object,
  no_such_key, not_an_integer,
}
use coffee_table.Db.{
  Server, db_delete, db_exists, db_add, expire_if_needed, lookup_key_write, lookup_key_read,
  get_expire, set_expire, remove_expire, signal_modified_key,
}

-- a long long after an operation that may leave its range
unfoldable pub wrap64 : ℤ → ℤ
wrap64 z =
    let n = (pos_part z + (2 ^ 64 - neg_part z % 2 ^ 64)) % 2 ^ 64 in
    if ltb n (2 ^ 63) then pos n else negsuc (2 ^ 64 - 1 - n)

abbrev pub is_minus_one : ℤ → Bool
is_minus_one (pos n) = false
is_minus_one (negsuc n) = n == 0

module _ {K : Type 0} ⦃type : KeyType K⦄ (D : KeyMap K Obj) (E : KeyMap K ℤ) where
  unfoldable pub add_dirty : ℕ → Act (Server D E) (Unit {0})
  add_dirty n = modify (λ s. record s { dirty = s.dirty + n })

  -- `renameGenericCommand`, when the source has the value `o`
  unfoldable pub rename_found : Bool → ℤ → K → K → Obj → Act (Server D E) Reply
  rename_found nx now src dst o = do
    expire ← get_expire D E src
    old ← lookup_key_write D E now dst
    (if is_some old && nx then pure (integer (pos 0)) else do
      when_true (is_some old) (do db_delete D E dst; pure tt)
      db_add D E dst o
      when_true (not (is_minus_one expire)) (set_expire D E dst expire)
      db_delete D E src
      signal_modified_key D E src
      signal_modified_key D E dst
      add_dirty 1
      pure (if nx then integer (pos 1) else done))

  abbrev pub rename_from : Bool → ℤ → K → K → Option Obj → Act (Server D E) Reply
  rename_from nx now src dst none = pure (error no_such_key)
  rename_from nx now src dst (some o) = rename_found nx now src dst o

  -- `renameGenericCommand`
  unfoldable pub rename_generic : Bool → ℤ → K → K → Act (Server D E) Reply
  unfolding lookup_key_write rename_found
  rename_generic nx now src dst =
      if type.compare src dst
      then pure (error same_object)
      else do o ← lookup_key_write D E now src; rename_from nx now src dst o

  -- `delCommand`: the loop over the keys, with the number deleted so far
  unfoldable pub del_loop : List K → ℕ → Act (Server D E) ℕ
  unfolding db_delete signal_modified_key add_dirty
  del_loop [] deleted = pure deleted
  del_loop (k ∷ ks) deleted = do
    there ← db_delete D E k
    when_true there (do signal_modified_key D E k; add_dirty 1)
    del_loop ks (if there then suc deleted else deleted)

  unfoldable pub del : List K → Act (Server D E) Reply
  unfolding del_loop
  del ks = do deleted ← del_loop ks 0; pure (integer (pos deleted))

  -- `existsCommand`
  unfoldable pub exists : ℤ → K → Act (Server D E) Reply
  unfolding expire_if_needed db_exists
  exists now k = do
    expire_if_needed D E now k
    there ← db_exists D E k
    pure (integer (pos (if there then 1 else 0)))

  -- `expireGenericCommand`, for a key that is there
  unfoldable pub expire_there : ℤ → K → ℤ → Act (Server D E) Reply
  unfolding db_delete set_expire signal_modified_key add_dirty
  expire_there now k when s =
      (if not (ltb_ℤ now when) && not s.loading && not s.is_slave
          then (do
            deleted ← db_delete D E k
            assert deleted
            add_dirty 1
            signal_modified_key D E k
            pure (integer (pos 1)))
          else (do
            set_expire D E k when
            signal_modified_key D E k
            add_dirty 1
            pure (integer (pos 1))))
        s

  abbrev pub expire_param : ℤ → K → ℤ → Bool → Option ℤ → Act (Server D E) Reply
  expire_param now k basetime seconds none = pure (error not_an_integer)
  expire_param now k basetime seconds (some t) = do
    there ← db_exists D E k
    (if there
        then expire_there now k (wrap64 (wrap64 (if seconds then t *ℤ pos 1000 else t) +ℤ basetime))
        else pure (integer (pos 0)))

  -- `expireGenericCommand`; `seconds` says that the unit is UNIT_SECONDS
  unfoldable pub expire_generic : Libc → ℤ → K → Str → ℤ → Bool → Act (Server D E) Reply
  unfolding get_long_long db_exists expire_there wrap64 ◌+ℤ◌ ◌*ℤ◌
  expire_generic l now k param basetime seconds =
      expire_param now k basetime seconds (get_long_long l (some param))

  -- `/ 1000` on a long long, which truncates to 0
  abbrev pub minus : ℕ → ℤ
  minus zero = pos 0
  minus (suc n) = negsuc n

  abbrev pub in_seconds : ℤ → ℤ
  in_seconds (pos t) = pos (t / 1000)
  in_seconds (negsuc t) = minus ((t + 1) / 1000)

  -- `ttlGenericCommand`, for what `expire-mstime()` is
  abbrev pub ttl_of : ℤ → Bool → ℤ
  ttl_of (pos t) true = pos t
  ttl_of (pos t) false = in_seconds (wrap64 (pos (t + 500)))
  ttl_of (negsuc t) output_ms = negsuc 0

  unfoldable pub ttl_generic : ℤ → K → Bool → Act (Server D E) Reply
  unfolding get_expire ◌-ℤ◌ wrap64
  ttl_generic now k output_ms = do
    expire ← get_expire D E k
    pure (
        integer
          (if is_minus_one expire then negsuc 0 else ttl_of (wrap64 (expire -ℤ now)) output_ms))

  -- `persistCommand`
  unfoldable pub persist : K → Act (Server D E) Reply
  unfolding db_exists remove_expire add_dirty
  persist k = do
    there ← db_exists D E k
    (if there
        then (do
          removed ← remove_expire D E k
          when_true removed (add_dirty 1)
          pure (integer (pos (if removed then 1 else 0))))
        else pure (integer (pos 0)))

  -- `typeCommand`
  abbrev pub type_of : Option Obj → TypeName
  type_of none = no_type
  type_of (some (string s)) = string_type
  type_of (some (other k)) = kind_type k

  unfoldable pub type_command : ℤ → K → Act (Server D E) Reply
  unfolding lookup_key_read
  type_command now k = do o ← lookup_key_read D E now k; pure (status (type_of o))

  -- `expireCommand`, `expireatCommand`, `pexpireCommand`, `pexpireatCommand`
  unfoldable pub expire : Libc → ℤ → K → Str → Act (Server D E) Reply
  unfolding expire_generic
  expire l now k param = expire_generic l now k param now true

  unfoldable pub expireat : Libc → ℤ → K → Str → Act (Server D E) Reply
  unfolding expire_generic
  expireat l now k param = expire_generic l now k param (pos 0) true

  unfoldable pub pexpire : Libc → ℤ → K → Str → Act (Server D E) Reply
  unfolding expire_generic
  pexpire l now k param = expire_generic l now k param now false

  unfoldable pub pexpireat : Libc → ℤ → K → Str → Act (Server D E) Reply
  unfolding expire_generic
  pexpireat l now k param = expire_generic l now k param (pos 0) false

  -- `ttlCommand`, `pttlCommand`
  unfoldable pub ttl : ℤ → K → Act (Server D E) Reply
  unfolding ttl_generic
  ttl now k = ttl_generic now k false

  unfoldable pub pttl : ℤ → K → Act (Server D E) Reply
  unfolding ttl_generic
  pttl now k = ttl_generic now k true
