-- ===== src/Strings/Calls.antt =====
-- redis/src/t_string.c, redis/src/bitops.c and redis/src/db.c: the commands on strings, bits and keys as
-- one sequence of calls, each at its own time. GETRANGE and BITCOUNT are left out, since they read
-- outside the string on some arguments.
use coffee_table.Prelude.{ℕ, Bool, List, [], ◌∷◌}
use coffee_table.Prelude.Int.{ℤ}
use coffee_table.Act.{Act, ◌>>=◌, pure}
use coffee_table.Dict.Bucket.{KeyType}
use coffee_table.Dict.KeyMap.{KeyMap}
use coffee_table.Object.{Obj, Str, Libc}
use coffee_table.Reply.{Reply}
use coffee_table.Db.{Server}
use coffee_table.Db.Commands.{
  del, exists, rename_generic, expire, expireat, pexpire, pexpireat, ttl, pttl, persist,
  type_command,
}
use coffee_table.Strings.{
  set, setnx, setex, psetex, get, getset, mget, mset_generic, incr, decr, incrby, decrby,
}
use coffee_table.Strings.Ranges.{setrange, append, strlen}
use coffee_table.Bitops.Commands.{setbit, getbit}

module _ (K : Type 0) where
  -- a command with its arguments
  pub data Call : Type 0 where
    call_del : List K → Call
    call_exists : K → Call
    call_rename : Bool → K → K → Call
    call_expire : K → Str → Call
    call_expireat : K → Str → Call
    call_pexpire : K → Str → Call
    call_pexpireat : K → Str → Call
    call_ttl : K → Call
    call_pttl : K → Call
    call_persist : K → Call
    call_type : K → Call
    call_set : Bool → K → Str → Call
    call_setnx : Bool → K → Str → Call
    call_setex : Bool → K → Str → Str → Call
    call_psetex : Bool → K → Str → Str → Call
    call_get : K → Call
    call_getset : Bool → K → Str → Call
    call_mget : List K → Call
    call_mset : Bool → Bool → List (K × Str) → Bool → Call
    call_incr : K → Call
    call_decr : K → Call
    call_incrby : K → Str → Call
    call_decrby : K → Str → Call
    call_setrange : K → Str → List ℕ → Call
    call_append : Bool → K → List ℕ → Call
    call_strlen : K → Call
    call_setbit : K → Str → Str → Call
    call_getbit : K → Str → Call

module _ {K : Type 0} ⦃type : KeyType K⦄ (D : KeyMap K Obj) (E : KeyMap K ℤ) (l : Libc) where
  abbrev perform : ℤ → Call K → Act (Server D E) Reply
  perform now (call_del ks) = del D E ks
  perform now (call_exists k) = exists D E now k
  perform now (call_rename nx src dst) = rename_generic D E nx now src dst
  perform now (call_expire k t) = expire D E l now k t
  perform now (call_expireat k t) = expireat D E l now k t
  perform now (call_pexpire k t) = pexpire D E l now k t
  perform now (call_pexpireat k t) = pexpireat D E l now k t
  perform now (call_ttl k) = ttl D E now k
  perform now (call_pttl k) = pttl D E now k
  perform now (call_persist k) = persist D E k
  perform now (call_type k) = type_command D E now k
  perform now (call_set shared k v) = set D E l shared now k v
  perform now (call_setnx shared k v) = setnx D E l shared now k v
  perform now (call_setex shared k t v) = setex D E l shared now k t v
  perform now (call_psetex shared k t v) = psetex D E l shared now k t v
  perform now (call_get k) = get D E now k
  perform now (call_getset shared k v) = getset D E shared now k v
  perform now (call_mget ks) = mget D E now ks
  perform now (call_mset shared nx pairs unpaired) = mset_generic D E shared nx now pairs unpaired
  perform now (call_incr k) = incr D E l now k
  perform now (call_decr k) = decr D E l now k
  perform now (call_incrby k n) = incrby D E l now k n
  perform now (call_decrby k n) = decrby D E l now k n
  perform now (call_setrange k offset v) = setrange D E l now k offset v
  perform now (call_append shared k v) = append D E shared now k v
  perform now (call_strlen k) = strlen D E now k
  perform now (call_setbit k offset on) = setbit D E l now k offset on
  perform now (call_getbit k offset) = getbit D E l now k offset

  -- the calls in order, with the clock that each reads
  unfoldable pub serve : List (ℤ × Call K) → Act (Server D E) (List Reply)
  serve [] = pure []
  serve ((now, call) ∷ calls) = do
    reply ← perform now call
    replies ← serve calls
    pure (reply ∷ replies)
