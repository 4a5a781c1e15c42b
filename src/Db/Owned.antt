-- ===== src/Db/Owned.antt =====
-- redis/src/db.c: on a database whose expire times belong to keys that are there, no assertion fails.
use coffee_table.Prelude.{
  ◌+◌, ◌≡◌, refl, ap, sym, ◌∙◌, Bool, true, false, Option, none, some, ◌∷◌, inl, inr, if◌then◌else◌,
  is_some, Bool-cases, Option-cases, none≢some,
}
use coffee_table.Prelude.Int.{ℤ, pos, negsuc, ltb_ℤ}
use coffee_table.Act.{Act, continue}
use coffee_table.Dict.Bucket.{KeyType}
use coffee_table.Dict.KeyMap.{KeyMap}
use coffee_table.Object.{Obj}
use coffee_table.Db.{
  Server, db_delete, db_add, db_exists, db_overwrite, lookup_key_read, lookup_key_write, lookup_key,
  get_expire, set_expire, remove_expire, signal_modified_key, expire_if_needed, expire_at,
  propagate_expire, set_key,
}
use coffee_table.Db.Expiry.{compare_refl}

module _ {K : Type 0} ⦃type : KeyType K⦄ (D : KeyMap K Obj) (E : KeyMap K ℤ) where
  pub record IsOwned (s : Server D E) : Type 0 where
    pub owned : (q : K) → D.look s.dict q ≡ none → E.look s.expires q ≡ none

  -- The action runs without an abort, keeps expire times with their keys, and ends as `Q` says.
  abbrev pub Runs :
      {A : Type 0} → Act (Server D E) A → Server D E → (A → Server D E → Type 0) → Type 0
  Runs {A} m s Q = (a : A) × (s' : Server D E) × (m s ≡ some (a, s')) × IsOwned s' × Q a s'

  -- the same, with nothing more to say
  abbrev pub Safe : {A : Type 0} → Act (Server D E) A → Server D E → Type 0
  Safe {A} m s = (a : A) × (s' : Server D E) × (m s ≡ some (a, s')) × IsOwned s'

  -- a result that is no abort, on a database that keeps expire times with their keys
  pub record IsFine {A : Type 0} (r : Option (A × Server D E)) : Type 0 where
    pub ends : (a : A) × (s' : Server D E) × (r ≡ some (a, s')) × IsOwned s'

  -- what follows a result
  pub after :
      {A B : Type 0} {r : Option (A × Server D E)} {f : A → Act (Server D E) B}
      {Q : A → Server D E → Type 0}
      → ((a : A) × (s' : Server D E) × (r ≡ some (a, s')) × IsOwned s' × Q a s')
      → ((a : A) (s' : Server D E) → IsOwned s' → Q a s' → IsFine (f a s'))
      → IsFine (continue r f)
  after (a, s1, run1, ok1, q) k =
      let (b, s2, run2, ok2) = (k a s1 ok1 q).ends in record { ends = (b, s2, rw run1 run2, ok2) }

  pub after_fine :
      {A B : Type 0} {r : Option (A × Server D E)} {f : A → Act (Server D E) B}
      → IsFine r
      → ((a : A) (s' : Server D E) → IsOwned s' → IsFine (f a s'))
      → IsFine (continue r f)
  after_fine h k =
      let (a, s1, run1, ok1) = h.ends in
      let (b, s2, run2, ok2) = (k a s1 ok1).ends in record { ends = (b, s2, rw run1 run2, ok2) }

  pub if_fine :
      {A : Type 0} (x y : Act (Server D E) A) (s : Server D E) (b : Bool)
      → (b ≡ true → IsFine (x s))
      → (b ≡ false → IsFine (y s))
      → IsFine ((if b then x else y) s)
  if_fine x y s true h k = h refl
  if_fine x y s false h k = k refl

  pub pure_fine : {A : Type 0} (a : A) (s : Server D E) → IsOwned s → IsFine (some (a, s))
  pure_fine a s ok = record { ends = (a, s, refl, ok) }

  present :
      (s : Server D E) (k : K) (t : ℤ)
      → IsOwned s
      → E.look s.expires k ≡ some t
      → is_some (D.look s.dict k) ≡ true
  present s k t ok h = elim (Option-cases (D.look s.dict k)) [
    | inl e ↦ absurd (none≢some (sym (ok.owned k e) ∙ h))
    | inr (v, e) ↦ rw e refl
  ]

  pub dropped :
      (s : Server D E) (k : K)
      → IsOwned s
      → IsOwned (record s { dict = D.drop s.dict k; expires = E.drop s.expires k })
  dropped s k ok = record {
    owned = λ q h. elim (Bool-cases (type.compare q k)) [
      | inl e ↦ E.look-drop s.expires k q ∙ rw e refl
      | inr e ↦
          E.look-drop s.expires k q
          ∙ rw e (ok.owned q (sym (D.look-drop s.dict k q ∙ rw e refl) ∙ h))
    ];
  }

  pub get_expire_runs :
      (s : Server D E) (k : K) → IsOwned s → (when : ℤ) × (get_expire D E k s ≡ some (when, s))
  unfolding get_expire
  get_expire_runs s k ok = elim (Option-cases (E.look s.expires k)) [
    | inl e ↦ (negsuc 0, rw e refl)
    | inr (t, e) ↦ (t, rw (e, present s k t ok e) refl)
  ]

  expire_at_runs :
      (s : Server D E) (now when : ℤ) (k : K) → IsOwned s → Safe (expire_at D E now k when) s
  unfolding expire_at db_delete propagate_expire
  expire_at_runs s now when k ok = elim (Bool-cases (ltb_ℤ when (pos 0))) [
    | inl none_set ↦ (false, s, rw none_set refl, ok)
    | inr set ↦ elim (Bool-cases s.loading) [
      | inl l ↦ (false, s, rw (set, l) refl, ok)
      | inr l ↦ elim (Bool-cases s.is_slave) [
        | inl m ↦ (ltb_ℤ when now, s, rw (set, l, m) refl, ok)
        | inr m ↦ elim (Bool-cases (ltb_ℤ when now)) [
          | inr later ↦ (false, s, rw (set, l, m, later) refl, ok)
          | inl past ↦
              let d = dropped s k ok in
              (
                is_some (D.look s.dict k),
                record s {
                  dict = D.drop s.dict k;
                  expires = E.drop s.expires k;
                  stat_expiredkeys = s.stat_expiredkeys + 1;
                  propagated = k ∷ s.propagated;
                },
                rw (set, l, m, past) refl,
                record { owned = d.owned },
              )
        ]
      ]
    ]
  ]

  pub expire_if_needed_runs :
      (s : Server D E) (now : ℤ) (k : K) → IsOwned s → Safe (expire_if_needed D E now k) s
  unfolding expire_if_needed
  expire_if_needed_runs s now k ok =
      let (when, read) = get_expire_runs s k ok in
      let (b, s', run, ok') = expire_at_runs s now when k ok in (b, s', rw read run, ok')

  -- the answer of a lookup is what the key has afterwards
  pub lookup_key_write_runs :
      (s : Server D E) (now : ℤ) (k : K)
      → IsOwned s
      → Runs (lookup_key_write D E now k) s (λ o s'. D.look s'.dict k ≡ o)
  unfolding lookup_key_write lookup_key
  lookup_key_write_runs s now k ok =
      let (b, s', run, ok') = expire_if_needed_runs s now k ok in
      (D.look s'.dict k, s', rw run refl, ok', refl)

  pub lookup_key_read_runs :
      (s : Server D E) (now : ℤ) (k : K) → IsOwned s → Safe (lookup_key_read D E now k) s
  unfolding lookup_key_read lookup_key
  lookup_key_read_runs s now k ok =
      let (b, s', run, ok') = expire_if_needed_runs s now k ok in
      elim (Option-cases (D.look s'.dict k)) [
        | inl e ↦ (
          none,
          record s' { stat_keyspace_misses = s'.stat_keyspace_misses + 1 },
          rw (run, e) refl,
          record { owned = ok'.owned },
        )
        | inr (o, e) ↦ (
          some o,
          record s' { stat_keyspace_hits = s'.stat_keyspace_hits + 1 },
          rw (run, e) refl,
          record { owned = ok'.owned },
        )
      ]

  put-IsOwned :
      (s : Server D E) (k : K) (v : Obj)
      → IsOwned s
      → IsOwned (record s { dict = D.put s.dict k v })
  put-IsOwned s k v ok = record {
    owned = λ q h. elim (Bool-cases (type.compare q k)) [
      | inl e ↦ absurd (none≢some {a = v} (sym h ∙ D.look-put s.dict k q v ∙ rw e refl))
      | inr e ↦ ok.owned q (sym (D.look-put s.dict k q v ∙ rw e refl) ∙ h)
    ];
  }

  put_look : (s : Server D E) (k : K) (v : Obj) → D.look (D.put s.dict k v) k ≡ some v
  put_look s k v = D.look-put s.dict k k v ∙ rw (compare_refl D E k) refl

  pub db_add_runs :
      (s : Server D E) (k : K) (v : Obj)
      → IsOwned s
      → D.look s.dict k ≡ none
      → Runs (db_add D E k v) s (λ a s'. D.look s'.dict k ≡ some v)
  unfolding db_add db_exists
  db_add_runs s k v ok absent = (
    tt,
    record s { dict = D.put s.dict k v },
    rw absent refl,
    put-IsOwned s k v ok,
    put_look s k v,
  )

  pub db_overwrite_runs :
      (s : Server D E) (k : K) (v w : Obj)
      → IsOwned s
      → D.look s.dict k ≡ some w
      → Runs (db_overwrite D E k v) s (λ a s'. D.look s'.dict k ≡ some v)
  unfolding db_overwrite db_exists
  db_overwrite_runs s k v w ok there = (
    tt,
    record s { dict = D.put s.dict k v },
    rw there refl,
    put-IsOwned s k v ok,
    put_look s k v,
  )

  pub remove_expire_runs :
      (s : Server D E) (k : K) (w : Obj)
      → IsOwned s
      → D.look s.dict k ≡ some w
      → Runs (remove_expire D E k) s (λ b s'. D.look s'.dict k ≡ some w)
  unfolding remove_expire
  remove_expire_runs s k w ok there = (
    is_some (E.look s.expires k),
    record s { expires = E.drop s.expires k },
    rw there refl,
    record {
      owned = λ q h. elim (Bool-cases (type.compare q k)) [
        | inl e ↦ E.look-drop s.expires k q ∙ rw e refl
        | inr e ↦ E.look-drop s.expires k q ∙ rw e (ok.owned q h)
      ];
    },
    there,
  )

  pub set_expire_runs :
      (s : Server D E) (k : K) (w : Obj) (t : ℤ)
      → IsOwned s
      → D.look s.dict k ≡ some w
      → Runs (set_expire D E k t) s (λ a s'. D.look s'.dict ≡ D.look s.dict)
  unfolding set_expire
  set_expire_runs s k w t ok there = (
    tt,
    record s { expires = E.put s.expires k t },
    rw there refl,
    record {
      owned = λ q h. elim (Bool-cases (type.compare q k)) [
        | inl e ↦
            let same = ap (D.look s.dict) ((type.compare_iff q k).0 e) in
            absurd (none≢some (sym h ∙ same ∙ there))
        | inr e ↦ E.look-put s.expires k q t ∙ rw e (ok.owned q h)
      ];
    },
    refl,
  )

  -- a value stored under a key whose old value is known
  pub store_runs :
      (s : Server D E) (k : K) (v : Obj) (o : Option Obj)
      → IsOwned s
      → D.look s.dict k ≡ o
      → Runs
          (if is_some o then db_overwrite D E k v else db_add D E k v)
          s
          (λ a s'. D.look s'.dict k ≡ some v)
  store_runs s k v none ok absent = db_add_runs s k v ok absent
  store_runs s k v (some w) ok there = db_overwrite_runs s k v w ok there

  pub set_key_runs :
      (s : Server D E) (now : ℤ) (k : K) (v : Obj)
      → IsOwned s
      → Runs (set_key D E now k v) s (λ a s'. D.look s'.dict k ≡ some v)
  unfolding set_key signal_modified_key
  set_key_runs s now k v ok =
      let (o, s1, run1, ok1, there) = lookup_key_write_runs s now k ok in
      let (a, s2, run2, ok2, new) = store_runs s1 k v o ok1 there in
      let (b, s3, run3, ok3, still) = remove_expire_runs s2 k v ok2 new in
      (
        tt,
        record s3 { modified = k ∷ s3.modified },
        rw (run1, run2, run3) refl,
        record { owned = ok3.owned },
        still,
      )
