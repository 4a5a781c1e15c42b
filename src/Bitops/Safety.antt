-- ===== src/Bitops/Safety.antt =====
-- redis/src/bitops.c: SETBIT and GETBIT abort no server.
use coffee_table.Prelude.{ℕ, ◌≡◌, Bool, Option, none, some, List, []}
use coffee_table.Prelude.Int.{ℤ}
use coffee_table.Dict.Bucket.{KeyType}
use coffee_table.Dict.KeyMap.{KeyMap}
use coffee_table.Object.{Obj, string, other, Str, raw, Libc, get_long_long, decoded}
use coffee_table.Reply.{error, wrong_type, bad_bit_offset, bad_bit}
use coffee_table.Db.{Server}
use coffee_table.Db.Owned.{
  IsOwned, IsFine, after, after_fine, pure_fine, lookup_key_write_runs, lookup_key_read_runs,
  db_add_runs, db_overwrite_runs,
}
use coffee_table.Db.Safety.{reported_fine}
use coffee_table.Bitops.{offset_of, set_bit}
use coffee_table.Bitops.Commands.{
  bit_of, bit_reply, bit_written, setbit_of, setbit_params, setbit, getbit_of, getbit_param, getbit,
}

module _ {K : Type 0} ⦃type : KeyType K⦄ (D : KeyMap K Obj) (E : KeyMap K ℤ) where
  bit_written_fine :
      (k : K) (w : Obj) (v : List ℕ) (bitval : Bool) (s : Server D E)
      → IsOwned D E s
      → D.look s.dict k ≡ some w
      → IsFine D E (bit_written D E k (v, bitval) s)
  bit_written_fine k w v bitval s ok there =
      after D E (db_overwrite_runs D E s k (string (raw v)) w ok there)
        (λ a s1 ok1 new. reported_fine D E k 1 (bit_reply bitval) s1 ok1)

  setbit_of_fine :
      (k : K) (offset on : ℕ) (o : Option Obj) (s : Server D E)
      → IsOwned D E s
      → D.look s.dict k ≡ o
      → IsFine D E (setbit_of D E k offset on o s)
  setbit_of_fine k offset on none s ok there =
      after D E (db_add_runs D E s k (string (raw [])) ok there) (λ a s1 ok1 new.
        bit_written_fine k (string (raw [])) (set_bit [] offset on).0 (set_bit [] offset on).1 s1
          ok1 new)
  setbit_of_fine k offset on (some (other t)) s ok there = pure_fine D E (error wrong_type) s ok
  setbit_of_fine k offset on (some (string v)) s ok there =
      bit_written_fine k (string v) (set_bit (decoded v) offset on).0
        (set_bit (decoded v) offset on).1 s ok there

  setbit_params_fine :
      (now : ℤ) (k : K) (offset on : Option ℕ) (s : Server D E)
      → IsOwned D E s
      → IsFine D E (setbit_params D E now k offset on s)
  setbit_params_fine now k none on s ok = pure_fine D E (error bad_bit_offset) s ok
  setbit_params_fine now k (some offset) none s ok = pure_fine D E (error bad_bit) s ok
  setbit_params_fine now k (some offset) (some on) s ok =
      after D E (lookup_key_write_runs D E s now k ok)
        (λ o s1 ok1 there. setbit_of_fine k offset on o s1 ok1 there)

  pub setbit_fine :
      (l : Libc) (now : ℤ) (k : K) (offset on : Str) (s : Server D E)
      → IsOwned D E s
      → IsFine D E (setbit D E l now k offset on s)
  unfolding setbit
  setbit_fine l now k offset on s ok =
      setbit_params_fine now k (offset_of (get_long_long l (some offset)))
        (bit_of (get_long_long l (some on))) s ok

  getbit_param_fine :
      (now : ℤ) (k : K) (offset : Option ℕ) (s : Server D E)
      → IsOwned D E s
      → IsFine D E (getbit_param D E now k offset s)
  getbit_param_fine now k none s ok = pure_fine D E (error bad_bit_offset) s ok
  getbit_param_fine now k (some offset) s ok =
      after_fine D E (record { ends = lookup_key_read_runs D E s now k ok })
        (λ o s1 ok1. pure_fine D E (getbit_of D E offset o) s1 ok1)

  pub getbit_fine :
      (l : Libc) (now : ℤ) (k : K) (offset : Str) (s : Server D E)
      → IsOwned D E s
      → IsFine D E (getbit D E l now k offset s)
  unfolding getbit
  getbit_fine l now k offset s ok =
      getbit_param_fine now k (offset_of (get_long_long l (some offset))) s ok
