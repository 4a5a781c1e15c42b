-- ===== src/Db/Safety.antt =====
-- redis/src/db.c: no command on keys and expire times aborts the server.
use coffee_table.Prelude.{
  ℕ, suc, ◌+◌, ◌≡◌, refl, ◌∙◌, Bool, true, false, ◌&&◌, not, Option, none, some, List, [], ◌∷◌, inl,
  inr, if◌then◌else◌, is_some, Bool-cases, Option-cases,
}
use coffee_table.Prelude.Int.{ℤ, pos, ltb_ℤ, ◌+ℤ◌, ◌*ℤ◌}
use coffee_table.Act.{assert, ◌>>◌, pure, when_true}
use coffee_table.Dict.Bucket.{KeyType}
use coffee_table.Dict.KeyMap.{KeyMap}
use coffee_table.Object.{Obj, Str, Libc, get_long_long}
use coffee_table.Reply.{
  Reply, done, integer, error, same_object, no_such_key, not_an_integer, status,
}
use coffee_table.Db.{Server, db_delete, db_exists, set_expire, signal_modified_key}
use coffee_table.Db.Expiry.{compare_refl}
use coffee_table.Db.Owned.{
  IsOwned, Runs, IsFine, after, after_fine, if_fine, pure_fine, dropped, get_expire_runs,
  expire_if_needed_runs, lookup_key_write_runs, lookup_key_read_runs, db_add_runs,
  remove_expire_runs, set_expire_runs,
}
use coffee_table.Db.Commands.{
  wrap64, is_minus_one, add_dirty, rename_found, rename_from, rename_generic, del_loop, del, exists,
  expire_there, expire_param, expire_generic, ttl_generic, persist, type_of, type_command,
}

module _ {K : Type 0} ⦃type : KeyType K⦄ (D : KeyMap K Obj) (E : KeyMap K ℤ) where
  del_loop_fine :
      (ks : List K) (n : ℕ) (s : Server D E) → IsOwned D E s → IsFine D E (del_loop D E ks n s)
  unfolding del_loop db_delete signal_modified_key add_dirty
  del_loop_fine [] n s ok = pure_fine D E n s ok
  del_loop_fine (k ∷ ks) n s ok =
      let d = dropped D E s k ok in
      let s1 : Server D E = record s { dict = D.drop s.dict k; expires = E.drop s.expires k } in
      elim (Bool-cases (is_some (D.look s.dict k))) [
        | inl there ↦
            let s2 : Server D E = record s1 { modified = k ∷ s1.modified; dirty = s1.dirty + 1 } in
            rw there (del_loop_fine ks (suc n) s2 (record { owned = d.owned }))
        | inr absent ↦ rw absent (del_loop_fine ks n s1 d)
      ]

  pub del_fine : (ks : List K) (s : Server D E) → IsOwned D E s → IsFine D E (del D E ks s)
  unfolding del
  del_fine ks s ok =
      after_fine D E (del_loop_fine ks 0 s ok) (λ n s' ok'. pure_fine D E (integer (pos n)) s' ok')

  pub exists_fine :
      (now : ℤ) (k : K) (s : Server D E) → IsOwned D E s → IsFine D E (exists D E now k s)
  unfolding exists db_exists
  exists_fine now k s ok =
      after_fine D E (record { ends = expire_if_needed_runs D E s now k ok })
        (λ b s' ok'.
          pure_fine D E (integer (pos (if is_some (D.look s'.dict k) then 1 else 0))) s' ok')

  -- a change reported and counted, before the reply
  pub signal_fine :
      (k : K) (s : Server D E) → IsOwned D E s → IsFine D E (signal_modified_key D E k s)
  unfolding signal_modified_key
  signal_fine k s ok =
      pure_fine D E tt (record s { modified = k ∷ s.modified }) (record { owned = ok.owned })

  pub dirty_fine : (n : ℕ) (s : Server D E) → IsOwned D E s → IsFine D E (add_dirty D E n s)
  unfolding add_dirty
  dirty_fine n s ok =
      pure_fine D E tt (record s { dirty = s.dirty + n }) (record { owned = ok.owned })

  pub reported_fine :
      (k : K) (n : ℕ) (r : Reply) (s : Server D E)
      → IsOwned D E s
      → IsFine D E ((do signal_modified_key D E k; add_dirty D E n; pure r) s)
  reported_fine k n r s ok =
      after_fine D E (signal_fine k s ok)
        (λ a s1 ok1. after_fine D E (dirty_fine n s1 ok1) (λ b s2 ok2. pure_fine D E r s2 ok2))

  delete_runs :
      (k : K) (s : Server D E)
      → IsOwned D E s
      → Runs D E
          (db_delete D E k)
          s
          (λ b s'. (b ≡ is_some (D.look s.dict k)) × (D.look s'.dict k ≡ none))
  unfolding db_delete
  delete_runs k s ok = (
    is_some (D.look s.dict k),
    record s { dict = D.drop s.dict k; expires = E.drop s.expires k },
    refl,
    dropped D E s k ok,
    (refl, D.look-drop s.dict k k ∙ rw (compare_refl D E k) refl),
  )

  -- the key made free, whatever it had
  freed_runs :
      (k : K) (o : Option Obj) (s : Server D E)
      → IsOwned D E s
      → D.look s.dict k ≡ o
      → Runs D E
          (when_true (is_some o) (do db_delete D E k; pure tt))
          s
          (λ a s'. D.look s'.dict k ≡ none)
  freed_runs k none s ok absent = (tt, s, refl, ok, absent)
  freed_runs k (some w) s ok there =
      let (b, s', run, ok', q) = delete_runs k s ok in (tt, s', rw run refl, ok', q.1)

  pub time_moved_fine :
      (k : K) (w : Obj) (when : ℤ) (b : Bool) (s : Server D E)
      → IsOwned D E s
      → D.look s.dict k ≡ some w
      → IsFine D E (when_true b (set_expire D E k when) s)
  time_moved_fine k w when false s ok there = pure_fine D E tt s ok
  time_moved_fine k w when true s ok there =
      let (a, s', run, ok', q) = set_expire_runs D E s k w when ok there in
      record { ends = (a, s', run, ok') }

  rename_found_fine :
      (nx : Bool) (now : ℤ) (src dst : K) (o : Obj) (s : Server D E)
      → IsOwned D E s
      → IsFine D E (rename_found D E nx now src dst o s)
  unfolding rename_found
  rename_found_fine nx now src dst o s ok =
      let (when, read) = get_expire_runs D E s src ok in
      after_fine D E (record { ends = (when, s, read, ok) })
        (λ when s0 ok0. after D E (lookup_key_write_runs D E s0 now dst ok0) (λ old s1 ok1 there.
          if_fine D E _ _ s1 (is_some old && nx) (λ e. pure_fine D E (integer (pos 0)) s1 ok1)
            (λ e. after D E (freed_runs dst old s1 ok1 there) (λ a s2 ok2 free.
              after D E (db_add_runs D E s2 dst o ok2 free) (λ a s3 ok3 new.
                after_fine D E (time_moved_fine dst o when (not (is_minus_one when)) s3 ok3 new)
                  (λ a s4 ok4. after D E (delete_runs src s4 ok4) (λ a s5 ok5 q.
                    after_fine D E (signal_fine src s5 ok5) (λ a s6 ok6.
                      reported_fine dst 1 (if nx then integer (pos 1) else done) s6 ok6))))))))

  pub rename_fine :
      (nx : Bool) (now : ℤ) (src dst : K) (s : Server D E)
      → IsOwned D E s
      → IsFine D E (rename_generic D E nx now src dst s)
  unfolding rename_generic
  rename_fine nx now src dst s ok =
      if_fine D E _ _ s (type.compare src dst) (λ e. pure_fine D E (error same_object) s ok)
        (λ e. after D E (lookup_key_write_runs D E s now src ok) (λ o s1 ok1 there. from o s1 ok1))
    where
      from :
          (o : Option Obj) (s1 : Server D E)
          → IsOwned D E s1
          → IsFine D E (rename_from D E nx now src dst o s1)
      from none s1 ok1 = pure_fine D E (error no_such_key) s1 ok1
      from (some o) s1 ok1 = rename_found_fine nx now src dst o s1 ok1

  deleted_fine :
      (k : K) (b : Bool) (s : Server D E)
      → b ≡ true
      → IsOwned D E s
      → IsFine D E
          ((do assert b; add_dirty D E 1; signal_modified_key D E k; pure (integer (pos 1))) s)
  deleted_fine k true s there ok = after_fine D E (dirty_fine 1 s ok) (λ a s1 ok1.
      after_fine D E (signal_fine k s1 ok1) (λ b s2 ok2. pure_fine D E (integer (pos 1)) s2 ok2))
  deleted_fine k false s there ok = absurd (let wrong = there in cc)

  expire_there_fine :
      (now : ℤ) (k : K) (w : Obj) (when : ℤ) (s : Server D E)
      → IsOwned D E s
      → D.look s.dict k ≡ some w
      → IsFine D E (expire_there D E now k when s)
  unfolding expire_there
  expire_there_fine now k w when s ok there =
      if_fine D E _ _ s (not (ltb_ℤ now when) && not s.loading && not s.is_slave)
        (λ e.
          after D E (delete_runs k s ok)
            (λ deleted s1 ok1 q. deleted_fine k deleted s1 (q.0 ∙ rw there refl) ok1))
        (λ e.
          after D E (set_expire_runs D E s k w when ok there)
            (λ a s1 ok1 q. reported_fine k 1 (integer (pos 1)) s1 ok1))

  pub expire_fine :
      (l : Libc) (now : ℤ) (k : K) (param : Str) (basetime : ℤ) (seconds : Bool) (s : Server D E)
      → IsOwned D E s
      → IsFine D E (expire_generic D E l now k param basetime seconds s)
  unfolding expire_generic db_exists
  expire_fine l now k param basetime seconds s ok = from (get_long_long l (some param))
    where
      from : (t : Option ℤ) → IsFine D E (expire_param D E now k basetime seconds t s)
      from none = pure_fine D E (error not_an_integer) s ok
      from (some t) = elim (Option-cases (D.look s.dict k)) [
        | inl e ↦ rw e (pure_fine D E (integer (pos 0)) s ok)
        | inr (w, e) ↦
            let when = wrap64 (wrap64 (if seconds then t *ℤ pos 1000 else t) +ℤ basetime) in
            rw e (expire_there_fine now k w when s ok e)
      ]

  pub ttl_fine :
      (now : ℤ) (k : K) (output_ms : Bool) (s : Server D E)
      → IsOwned D E s
      → IsFine D E (ttl_generic D E now k output_ms s)
  unfolding ttl_generic
  ttl_fine now k output_ms s ok =
      let (when, read) = get_expire_runs D E s k ok in rw read (pure_fine D E _ s ok)

  pub persist_fine : (k : K) (s : Server D E) → IsOwned D E s → IsFine D E (persist D E k s)
  unfolding persist db_exists
  persist_fine k s ok = elim (Option-cases (D.look s.dict k)) [
    | inl e ↦ rw e (pure_fine D E (integer (pos 0)) s ok)
    | inr (w, e) ↦ rw e (
        after D E (remove_expire_runs D E s k w ok e) (λ removed s1 ok1 q.
          after_fine D E (counted removed s1 ok1)
            (λ a s2 ok2. pure_fine D E (integer (pos (if removed then 1 else 0))) s2 ok2)))
  ]
    where
      counted :
          (b : Bool) (s1 : Server D E)
          → IsOwned D E s1
          → IsFine D E (when_true b (add_dirty D E 1) s1)
      counted true s1 ok1 = dirty_fine 1 s1 ok1
      counted false s1 ok1 = pure_fine D E tt s1 ok1

  pub type_fine :
      (now : ℤ) (k : K) (s : Server D E) → IsOwned D E s → IsFine D E (type_command D E now k s)
  unfolding type_command
  type_fine now k s ok =
      after_fine D E (record { ends = lookup_key_read_runs D E s now k ok })
        (λ o s1 ok1. pure_fine D E (status (type_of D E o)) s1 ok1)
