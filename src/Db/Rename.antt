-- ===== src/Db/Rename.antt =====
-- redis/src/db.c: RENAME, and the deletion and addition of a key.
use coffee_table.Prelude.{
  ◌≡◌, refl, sym, ◌∙◌, false, Option, none, some, inl, inr, is_some, Bool-cases,
}
use coffee_table.Prelude.Int.{ℤ}
use coffee_table.Act.{◌>>◌}
use coffee_table.Dict.Bucket.{KeyType}
use coffee_table.Dict.KeyMap.{KeyMap}
use coffee_table.Object.{Obj}
use coffee_table.Db.{Server, db_delete}
use coffee_table.Db.Expiry.{IsDb, compare_refl}
use coffee_table.Db.Keys.{Becomes}

module _ {K : Type 0} ⦃type : KeyType K⦄ (D : KeyMap K Obj) (E : KeyMap K ℤ) where
  deleted_valid :
      (s : Server D E) (k : K)
      → IsDb D E s
      → IsDb D E (record s { dict = D.drop s.dict k; expires = E.drop s.expires k })
  deleted_valid s k ok = record {
    owned = λ q h. elim (Bool-cases (type.compare q k)) [
      | inl e ↦ E.look-drop s.expires k q ∙ rw e refl
      | inr e ↦
          E.look-drop s.expires k q
          ∙ rw e (ok.owned q (sym (D.look-drop s.dict k q ∙ rw e refl) ∙ h))
    ];
    positive = λ q t h. elim (Bool-cases (type.compare q k)) [
      | inl e ↦
          absurd (let no : none ≡ some t = sym (E.look-drop s.expires k q ∙ rw e refl) ∙ h in cc)
      | inr e ↦ ok.positive q t (sym (E.look-drop s.expires k q ∙ rw e refl) ∙ h)
    ];
  }

  -- On a valid database `dbDelete` answers whether the key was there and removes it with its expire
  -- time, and no other key. The database stays valid.
  pub db_delete_lem :
      (s : Server D E) (k : K)
      → IsDb D E s
      → (s' : Server D E) × (db_delete D E k s ≡ some (is_some (D.look s.dict k), s'))
        × Becomes D E s k none none s'
  unfolding db_delete
  db_delete_lem s k ok = (
    record s { dict = D.drop s.dict k; expires = E.drop s.expires k },
    refl,
    record {
      valid = deleted_valid s k ok;
      value = D.look-drop s.dict k k ∙ rw (compare_refl D E k) refl;
      expire = E.look-drop s.expires k k ∙ rw (compare_refl D E k) refl;
      other_values = λ q e. D.look-drop s.dict k q ∙ rw e refl;
      other_expires = λ q e. E.look-drop s.expires k q ∙ rw e refl;
    },
  )

  -- The value and the expire time of `src` have moved to `dst`, and nothing else changed.
  pub record Renamed (s : Server D E) (src dst : K) (o : Obj) (t : Option ℤ) (s' : Server D E)
      : Type 0 where
    pub valid : IsDb D E s'
    pub new_value : D.look s'.dict dst ≡ some o
    pub new_expire : E.look s'.expires dst ≡ t
    pub old_value : D.look s'.dict src ≡ none
    pub old_expire : E.look s'.expires src ≡ none
    pub other_values :
        (q : K)
        → type.compare q src ≡ false
        → type.compare q dst ≡ false
        → D.look s'.dict q ≡ D.look s.dict q
    pub other_expires :
        (q : K)
        → type.compare q src ≡ false
        → type.compare q dst ≡ false
        → E.look s'.expires q ≡ E.look s.expires q
