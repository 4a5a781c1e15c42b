-- ===== src/Db/Updates.antt =====
-- redis/src/db.c: `setKey`, `setExpire` and `dbDelete` on a valid database.
use coffee_table.Prelude.{
  ◌≡◌, refl, ap, sym, ◌∙◌, true, false, Option, none, some, ◌∷◌, inl, inr, is_some, Bool-cases,
  Option-cases,
}
use coffee_table.Prelude.Int.{ℤ, pos, ltb_ℤ}
use coffee_table.Dict.Bucket.{KeyType}
use coffee_table.Dict.KeyMap.{KeyMap}
use coffee_table.Object.{Obj}
use coffee_table.Db.{
  Server, db_exists, db_add, db_overwrite, remove_expire, signal_modified_key, set_key, set_expire,
}
use coffee_table.Db.Expiry.{IsDb, compare_refl}
use coffee_table.Db.Keys.{Becomes, lookup_key_write_lem, seen}

module _ {K : Type 0} ⦃type : KeyType K⦄ (D : KeyMap K Obj) (E : KeyMap K ℤ) where
  -- the server with a value and no expire time under the key
  abbrev put_state : Server D E → K → Obj → Server D E
  put_state s k v = record s {
    dict = D.put s.dict k v;
    expires = E.drop s.expires k;
    modified = k ∷ s.modified;
  }

  put_becomes :
      (s : Server D E) (k : K) (v : Obj)
      → IsDb D E s
      → Becomes D E s k (some v) none (put_state s k v)
  put_becomes s k v ok = record {
    valid = record {
      owned = λ q h. elim (Bool-cases (type.compare q k)) [
        | inl e ↦ E.look-drop s.expires k q ∙ rw e refl
        | inr e ↦
            E.look-drop s.expires k q
            ∙ rw e (ok.owned q (sym (D.look-put s.dict k q v ∙ rw e refl) ∙ h))
      ];
      positive = λ q t h. elim (Bool-cases (type.compare q k)) [
        | inl e ↦
            absurd (let no : none ≡ some t = sym (E.look-drop s.expires k q ∙ rw e refl) ∙ h in cc)
        | inr e ↦ ok.positive q t (sym (E.look-drop s.expires k q ∙ rw e refl) ∙ h)
      ];
    };
    value = D.look-put s.dict k k v ∙ rw (compare_refl D E k) refl;
    expire = E.look-drop s.expires k k ∙ rw (compare_refl D E k) refl;
    other_values = λ q e. D.look-put s.dict k q v ∙ rw e refl;
    other_expires = λ q e. E.look-drop s.expires k q ∙ rw e refl;
  }

  pub followed :
      {s s1 s2 : Server D E} {k : K} {v v' : Option Obj} {t t' : Option ℤ}
      → Becomes D E s k v t s1
      → Becomes D E s1 k v' t' s2
      → Becomes D E s k v' t' s2
  followed b c = record {
    valid = c.valid;
    value = c.value;
    expire = c.expire;
    other_values = λ q e. c.other_values q e ∙ b.other_values q e;
    other_expires = λ q e. c.other_expires q e ∙ b.other_expires q e;
  }

  put_there : (s : Server D E) (k : K) (v : Obj) → is_some (D.look (D.put s.dict k v) k) ≡ true
  put_there s k v = rw (D.look-put s.dict k k v, compare_refl D E k) refl

  pub set_key_lem :
      (s : Server D E) (now : ℤ) (k : K) (v : Obj)
      → IsDb D E s
      → (s' : Server D E) × (set_key D E now k v s ≡ some (tt, s'))
        × Becomes D E s k (some v) none s'
  unfolding set_key db_add db_overwrite db_exists remove_expire signal_modified_key
  set_key_lem s now k v ok =
      let (s1, run, b) = lookup_key_write_lem D E s now k ok in
      (
        put_state s1 k v,
        elim (Option-cases (seen D E s now k (D.look s.dict k))) [
          | inl e ↦ let absent = b.value ∙ e in rw (run, e, absent, put_there s1 k v) refl
          | inr (w, e) ↦ let there = b.value ∙ e in rw (run, e, there, put_there s1 k v) refl
        ],
        followed b (put_becomes s1 k v b.valid),
      )

  pub set_expire_lem :
      (s : Server D E) (k : K) (w : Obj) (t : ℤ)
      → IsDb D E s
      → D.look s.dict k ≡ some w
      → ltb_ℤ t (pos 0) ≡ false
      → (s' : Server D E) × (set_expire D E k t s ≡ some (tt, s'))
        × Becomes D E s k (some w) (some t) s'
  unfolding set_expire
  set_expire_lem s k w t ok there future = (
    record s { expires = E.put s.expires k t },
    rw there refl,
    record {
      valid = record {
        owned = λ q h. elim (Bool-cases (type.compare q k)) [
          | inl e ↦ absurd (
              let same = ap (D.look s.dict) ((type.compare_iff q k).0 e) in
              let no : none ≡ some w = sym h ∙ same ∙ there in cc)
          | inr e ↦ E.look-put s.expires k q t ∙ rw e (ok.owned q h)
        ];
        positive = λ q u h. elim (Bool-cases (type.compare q k)) [
          | inl e ↦
              let same : some t ≡ some u = sym (E.look-put s.expires k q t ∙ rw e refl) ∙ h in cc
          | inr e ↦ ok.positive q u (sym (E.look-put s.expires k q t ∙ rw e refl) ∙ h)
        ];
      };
      value = there;
      expire = E.look-put s.expires k k t ∙ rw (compare_refl D E k) refl;
      other_values = λ q e. refl;
      other_expires = λ q e. E.look-put s.expires k q t ∙ rw e refl;
    },
  )
