-- ===== src/Strings/Safety.antt =====
-- redis/src/t_string.c: no command on strings aborts the server, except GETRANGE.
use coffee_table.Prelude.{
  ◌+◌, ◌≡◌, Bool, true, false, ◌&&◌, not, Option, none, some, List, [], ◌∷◌, length, if◌then◌else◌,
  is_some, ◌==◌,
}
use coffee_table.Prelude.Int.{ℤ, pos, ltb_ℤ, ◌+ℤ◌, ◌*ℤ◌}
use coffee_table.Act.{Act, ◌>>◌, pure, when_true}
use coffee_table.Dict.Bucket.{KeyType}
use coffee_table.Dict.KeyMap.{KeyMap}
use coffee_table.Object.{
  Obj, string, other, Str, Libc, get_long_long, create_from_long_long, try_object_encoding,
}
use coffee_table.Reply.{
  done, integer, multi_bulk, error, wrong_type, not_an_integer, overflow, invalid_expire,
  wrong_arity,
}
use coffee_table.Db.{Server, set_expire, set_key}
use coffee_table.Db.Owned.{
  IsOwned, IsFine, after, after_fine, if_fine, pure_fine, lookup_key_write_runs,
  lookup_key_read_runs, set_key_runs, store_runs,
}
use coffee_table.Db.Safety.{reported_fine, dirty_fine, time_moved_fine}
use coffee_table.Db.Commands.{wrap64, add_dirty}
use coffee_table.Strings.{
  would_overflow, set_value, set_param, set_generic, get_answer, get_generic, get, getset,
  string_bulk, mget_loop, mget, busy_keys, set_pairs, mset_all, mset_generic, incr_value,
  incr_object, incr_decr,
}

module _ {K : Type 0} ⦃type : KeyType K⦄ (D : KeyMap K Obj) (E : KeyMap K ℤ) where
  until_fine :
      (k : K) (w : Obj) (now : ℤ) (milliseconds : Option ℤ) (s : Server D E)
      → IsOwned D E s
      → D.look s.dict k ≡ some w
      → (let timed : Act (Server D E) (Unit {0}) = elim milliseconds [
        | none ↦ pure tt
        | some t ↦ set_expire D E k (wrap64 (now +ℤ t))
      ] in
          IsFine D E (timed s))
  until_fine k w now none s ok there = pure_fine D E tt s ok
  until_fine k w now (some t) s ok there =
      time_moved_fine D E k w (wrap64 (now +ℤ t)) true s ok there

  set_value_fine :
      (nx : Bool) (now : ℤ) (k : K) (v : Str) (milliseconds : Option ℤ) (s : Server D E)
      → IsOwned D E s
      → IsFine D E (set_value D E nx now k v milliseconds s)
  unfolding set_value add_dirty
  set_value_fine nx now k v milliseconds s ok =
      after D E (lookup_key_write_runs D E s now k ok) (λ old s1 ok1 there.
        if_fine D E _ _ s1 (is_some old && nx) (λ e. pure_fine D E (integer (pos 0)) s1 ok1)
          (λ e. after D E (set_key_runs D E s1 now k (string v) ok1) (λ a s2 ok2 new.
            after_fine D E
              (until_fine k (string v) now milliseconds (record s2 { dirty = s2.dirty + 1 })
                (record { owned = ok2.owned }) new)
              (λ b s3 ok3. pure_fine D E (if nx then integer (pos 1) else done) s3 ok3))))

  pub set_generic_fine :
      (l : Libc) (nx : Bool) (now : ℤ) (k : K) (v : Str) (param : Option Str) (seconds : Bool)
      (s : Server D E)
      → IsOwned D E s
      → IsFine D E (set_generic D E l nx now k v param seconds s)
  unfolding set_generic
  set_generic_fine l nx now k v none seconds s ok = set_value_fine nx now k v none s ok
  set_generic_fine l nx now k v (some param) seconds s ok = from (get_long_long l (some param))
    where
      from : (t : Option ℤ) → IsFine D E (set_param D E nx now k v seconds t s)
      from none = pure_fine D E (error not_an_integer) s ok
      from (some t) =
          if_fine D E _ _ s (not (ltb_ℤ (pos 0) t)) (λ e. pure_fine D E (error invalid_expire) s ok)
            (λ e.
              set_value_fine nx now k v (some (if seconds then wrap64 (t *ℤ pos 1000) else t)) s ok)

  get_generic_fine :
      (now : ℤ) (k : K) (s : Server D E) → IsOwned D E s → IsFine D E (get_generic D E now k s)
  unfolding get_generic
  get_generic_fine now k s ok =
      after_fine D E (record { ends = lookup_key_read_runs D E s now k ok })
        (λ o s1 ok1. pure_fine D E (get_answer D E o) s1 ok1)

  pub get_fine : (now : ℤ) (k : K) (s : Server D E) → IsOwned D E s → IsFine D E (get D E now k s)
  unfolding get
  get_fine now k s ok =
      after_fine D E (get_generic_fine now k s ok) (λ a s1 ok1. pure_fine D E a.1 s1 ok1)

  pub getset_fine :
      (shared : Bool) (now : ℤ) (k : K) (v : Str) (s : Server D E)
      → IsOwned D E s
      → IsFine D E (getset D E shared now k v s)
  unfolding getset
  getset_fine shared now k v s ok =
      after_fine D E (get_generic_fine now k s ok)
        (λ a s1 ok1. after_fine D E (replaced a.0 s1 ok1) (λ b s2 ok2. pure_fine D E a.1 s2 ok2))
    where
      replaced :
          (b : Bool) (s1 : Server D E)
          → IsOwned D E s1
          → IsFine D E (
              when_true b
                (do set_key D E now k (string (try_object_encoding shared v)); add_dirty D E 1)
                s1)
      replaced true s1 ok1 =
          after D E (set_key_runs D E s1 now k (string (try_object_encoding shared v)) ok1)
            (λ a s2 ok2 new. dirty_fine D E 1 s2 ok2)
      replaced false s1 ok1 = pure_fine D E tt s1 ok1

  mget_loop_fine :
      (now : ℤ) (ks : List K) (s : Server D E) → IsOwned D E s → IsFine D E (mget_loop D E now ks s)
  unfolding mget_loop
  mget_loop_fine now [] s ok = pure_fine D E [] s ok
  mget_loop_fine now (k ∷ ks) s ok =
      after_fine D E (record { ends = lookup_key_read_runs D E s now k ok })
        (λ o s1 ok1.
          after_fine D E (mget_loop_fine now ks s1 ok1)
            (λ rest s2 ok2. pure_fine D E (string_bulk D E o ∷ rest) s2 ok2))

  pub mget_fine :
      (now : ℤ) (ks : List K) (s : Server D E) → IsOwned D E s → IsFine D E (mget D E now ks s)
  unfolding mget
  mget_fine now ks s ok =
      after_fine D E (mget_loop_fine now ks s ok)
        (λ bulks s1 ok1. pure_fine D E (multi_bulk bulks) s1 ok1)

  busy_keys_fine :
      (now : ℤ) (pairs : List (K × Str)) (s : Server D E)
      → IsOwned D E s
      → IsFine D E (busy_keys D E now pairs s)
  unfolding busy_keys
  busy_keys_fine now [] s ok = pure_fine D E 0 s ok
  busy_keys_fine now ((k, v) ∷ pairs) s ok =
      after D E (lookup_key_write_runs D E s now k ok) (λ o s1 ok1 there.
        after_fine D E (busy_keys_fine now pairs s1 ok1)
          (λ busy s2 ok2. pure_fine D E ((if is_some o then 1 else 0) + busy) s2 ok2))

  set_pairs_fine :
      (shared : Bool) (now : ℤ) (pairs : List (K × Str)) (s : Server D E)
      → IsOwned D E s
      → IsFine D E (set_pairs D E shared now pairs s)
  unfolding set_pairs
  set_pairs_fine shared now [] s ok = pure_fine D E tt s ok
  set_pairs_fine shared now ((k, v) ∷ pairs) s ok =
      after D E (set_key_runs D E s now k (string (try_object_encoding shared v)) ok)
        (λ a s1 ok1 new. set_pairs_fine shared now pairs s1 ok1)

  mset_all_fine :
      (shared nx : Bool) (now : ℤ) (pairs : List (K × Str)) (s : Server D E)
      → IsOwned D E s
      → IsFine D E (mset_all D E shared nx now pairs s)
  unfolding mset_all
  mset_all_fine shared nx now pairs s ok =
      after_fine D E (set_pairs_fine shared now pairs s ok) (λ a s1 ok1.
        after_fine D E (dirty_fine D E (length pairs) s1 ok1)
          (λ b s2 ok2. pure_fine D E (if nx then integer (pos 1) else done) s2 ok2))

  pub mset_generic_fine :
      (shared nx : Bool) (now : ℤ) (pairs : List (K × Str)) (unpaired : Bool) (s : Server D E)
      → IsOwned D E s
      → IsFine D E (mset_generic D E shared nx now pairs unpaired s)
  unfolding mset_generic
  mset_generic_fine shared nx now pairs unpaired s ok =
      if_fine D E _ _ s unpaired (λ e. pure_fine D E (error wrong_arity) s ok)
        (λ e.
          if_fine D E _ _ s nx
            (λ f. after_fine D E (busy_keys_fine now pairs s ok) (λ busy s1 ok1.
              if_fine D E _ _ s1 (busy == 0) (λ g. mset_all_fine shared nx now pairs s1 ok1)
                (λ g. pure_fine D E (integer (pos 0)) s1 ok1)))
            (λ f. mset_all_fine shared nx now pairs s ok))

  incr_value_fine :
      (k : K) (incr : ℤ) (o : Option Obj) (n : Option ℤ) (s : Server D E)
      → IsOwned D E s
      → D.look s.dict k ≡ o
      → IsFine D E (incr_value D E k incr o n s)
  incr_value_fine k incr o none s ok there = pure_fine D E (error not_an_integer) s ok
  incr_value_fine k incr o (some oldvalue) s ok there =
      if_fine D E _ _ s (would_overflow incr oldvalue) (λ e. pure_fine D E (error overflow) s ok)
        (λ e.
          after D E
            (store_runs D E s k (string (create_from_long_long (oldvalue +ℤ incr))) o ok there)
            (λ a s1 ok1 new. reported_fine D E k 1 (integer (oldvalue +ℤ incr)) s1 ok1))

  pub incr_decr_fine :
      (l : Libc) (now : ℤ) (k : K) (incr : ℤ) (s : Server D E)
      → IsOwned D E s
      → IsFine D E (incr_decr D E l now k incr s)
  unfolding incr_decr
  incr_decr_fine l now k incr s ok =
      after D E (lookup_key_write_runs D E s now k ok) (λ o s1 ok1 there. from o s1 ok1 there)
    where
      from :
          (o : Option Obj) (s1 : Server D E)
          → IsOwned D E s1
          → D.look s1.dict k ≡ o
          → IsFine D E (incr_object D E l k incr o s1)
      from none s1 ok1 there = incr_value_fine k incr none (get_long_long l none) s1 ok1 there
      from (some (string v)) s1 ok1 there =
          incr_value_fine k incr (some (string v)) (get_long_long l (some v)) s1 ok1 there
      from (some (other t)) s1 ok1 there = pure_fine D E (error wrong_type) s1 ok1
