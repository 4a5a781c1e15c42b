-- ===== src/Strings/Growing.antt =====
-- redis/src/t_string.c: SETRANGE, APPEND and STRLEN abort no server.
use coffee_table.Prelude.{
  ℕ, ◌+◌, ◌^◌, leb, ◌≡◌, Bool, Option, none, some, List, [], ◌++◌, length, ◌==◌,
}
use coffee_table.Prelude.Int.{ℤ, pos, negsuc}
use coffee_table.Dict.Bucket.{KeyType}
use coffee_table.Dict.KeyMap.{KeyMap}
use coffee_table.Object.{
  Obj, string, other, Str, raw, Libc, get_long_long, try_object_encoding, decoded,
  string_object_len,
}
use coffee_table.Reply.{
  out_of_memory, integer, error, wrong_type, not_an_integer, too_long, out_of_range,
}
use coffee_table.Db.{Server}
use coffee_table.Db.Owned.{
  IsOwned, IsFine, after, after_fine, if_fine, pure_fine, lookup_key_write_runs,
  lookup_key_read_runs, db_add_runs, db_overwrite_runs,
}
use coffee_table.Db.Safety.{reported_fine}
use coffee_table.Db.Commands.{wrap64}
use coffee_table.Strings.{too_big}
use coffee_table.Strings.Ranges.{
  write_at, setrange_of, setrange_param, setrange, append_to, append, strlen_of, strlen,
}

module _ {K : Type 0} ⦃type : KeyType K⦄ (D : KeyMap K Obj) (E : KeyMap K ℤ) where
  setrange_of_fine :
      (k : K) (offset : ℕ) (value : List ℕ) (o : Option Obj) (s : Server D E)
      → IsOwned D E s
      → D.look s.dict k ≡ o
      → IsFine D E (setrange_of D E k offset value o s)
  setrange_of_fine k offset value none s ok there =
      if_fine D E _ _ s (length value == 0) (λ e. pure_fine D E (integer (pos 0)) s ok)
        (λ e.
          if_fine D E _ _ s (too_big (wrap64 (pos (offset + length value))))
            (λ f. pure_fine D E (error too_long) s ok)
            (λ f.
              if_fine D E _ _ s (leb (2 ^ 63) (offset + length value))
                (λ g. pure_fine D E out_of_memory s ok)
                (λ g. after D E (db_add_runs D E s k (string (raw [])) ok there) (λ a s1 ok1 new.
                  after D E
                    (db_overwrite_runs D E s1 k (string (raw (write_at [] offset value)))
                      (string (raw [])) ok1 new)
                    (λ b s2 ok2 last.
                      reported_fine D E k 1 (integer (pos (length (write_at [] offset value)))) s2
                        ok2)))))
  setrange_of_fine k offset value (some (other t)) s ok there =
      pure_fine D E (error wrong_type) s ok
  setrange_of_fine k offset value (some (string v)) s ok there =
      if_fine D E _ _ s (length value == 0)
        (λ e. pure_fine D E (integer (pos (string_object_len v))) s ok)
        (λ e.
          if_fine D E _ _ s (too_big (wrap64 (pos (offset + length value))))
            (λ f. pure_fine D E (error too_long) s ok)
            (λ f.
              if_fine D E _ _ s (leb (2 ^ 63) (offset + length value))
                (λ g. pure_fine D E out_of_memory s ok)
                (λ g.
                  after D E
                    (db_overwrite_runs D E s k (string (raw (write_at (decoded v) offset value)))
                      (string v) ok there)
                    (λ b s1 ok1 last.
                      reported_fine D E k 1
                        (integer (pos (length (write_at (decoded v) offset value)))) s1 ok1))))

  pub setrange_fine :
      (l : Libc) (now : ℤ) (k : K) (offset : Str) (value : List ℕ) (s : Server D E)
      → IsOwned D E s
      → IsFine D E (setrange D E l now k offset value s)
  unfolding setrange
  setrange_fine l now k offset value s ok = from (get_long_long l (some offset))
    where
      from : (n : Option ℤ) → IsFine D E (setrange_param D E now k value n s)
      from none = pure_fine D E (error not_an_integer) s ok
      from (some (negsuc n)) = pure_fine D E (error out_of_range) s ok
      from (some (pos n)) =
          after D E (lookup_key_write_runs D E s now k ok)
            (λ o s1 ok1 there. setrange_of_fine k n value o s1 ok1 there)

  append_to_fine :
      (shared : Bool) (k : K) (value : List ℕ) (o : Option Obj) (s : Server D E)
      → IsOwned D E s
      → D.look s.dict k ≡ o
      → IsFine D E (append_to D E shared k value o s)
  append_to_fine shared k value none s ok there =
      after D E (db_add_runs D E s k (string (try_object_encoding shared (raw value))) ok there)
        (λ a s1 ok1 new.
          reported_fine D E k 1
            (integer (pos (string_object_len (try_object_encoding shared (raw value))))) s1 ok1)
  append_to_fine shared k value (some (other t)) s ok there = pure_fine D E (error wrong_type) s ok
  append_to_fine shared k value (some (string v)) s ok there =
      if_fine D E _ _ s (too_big (pos (string_object_len v + length value)))
        (λ e. pure_fine D E (error too_long) s ok)
        (λ e.
          after D E
            (db_overwrite_runs D E s k (string (raw (decoded v ++ value))) (string v) ok there)
            (λ a s1 ok1 last.
              reported_fine D E k 1 (integer (pos (length (decoded v ++ value)))) s1 ok1))

  pub append_fine :
      (shared : Bool) (now : ℤ) (k : K) (value : List ℕ) (s : Server D E)
      → IsOwned D E s
      → IsFine D E (append D E shared now k value s)
  unfolding append
  append_fine shared now k value s ok =
      after D E (lookup_key_write_runs D E s now k ok)
        (λ o s1 ok1 there. append_to_fine shared k value o s1 ok1 there)

  pub strlen_fine :
      (now : ℤ) (k : K) (s : Server D E) → IsOwned D E s → IsFine D E (strlen D E now k s)
  unfolding strlen
  strlen_fine now k s ok =
      after_fine D E (record { ends = lookup_key_read_runs D E s now k ok })
        (λ o s1 ok1. pure_fine D E (strlen_of D E o) s1 ok1)
