-- ===== src/Db/Keys.antt =====
-- redis/src/db.c: setting and deleting a key.
use coffee_table.Prelude.{
  ◌≡◌, refl, sym, ◌∙◌, false, Option, none, some, inl, inr, if◌then◌else◌, Bool-cases,
}
use coffee_table.Prelude.Int.{ℤ}
use coffee_table.Dict.Bucket.{KeyType}
use coffee_table.Dict.KeyMap.{KeyMap}
use coffee_table.Object.{Obj}
use coffee_table.Db.{Server, lookup_key_write, lookup_key}
use coffee_table.Db.Expiry.{IsDb, dies, without, expire_if_needed-runs, compare_refl}

module _ {K : Type 0} ⦃type : KeyType K⦄ (D : KeyMap K Obj) (E : KeyMap K ℤ) where
  -- From `s` to `s'` only the entries of `k` changed, and they are `v` and `t` now.
  pub record Becomes (s : Server D E) (k : K) (v : Option Obj) (t : Option ℤ) (s' : Server D E)
      : Type 0 where
    pub valid : IsDb D E s'
    pub value : D.look s'.dict k ≡ v
    pub expire : E.look s'.expires k ≡ t
    pub other_values : (q : K) → type.compare q k ≡ false → D.look s'.dict q ≡ D.look s.dict q
    pub other_expires :
        (q : K) → type.compare q k ≡ false → E.look s'.expires q ≡ E.look s.expires q

  gone : (s : Server D E) (k : K) → IsDb D E s → Becomes s k none none (without D E s k)
  gone s k ok = record {
    valid = record {
      owned = λ q h. elim (Bool-cases (type.compare q k)) [
        | inl e ↦ E.look-drop s.expires k q ∙ rw e refl
        | inr e ↦
            E.look-drop s.expires k q
            ∙ rw e (ok.owned q (sym (D.look-drop s.dict k q ∙ rw e refl) ∙ h))
      ];
      positive = λ q t h. elim (Bool-cases (type.compare q k)) [
        | inl e ↦
            absurd (let no : none ≡ some t = sym (E.look-drop s.expires k q ∙ rw e refl) ∙ h in cc)
        | inr e ↦ ok.positive q t (sym (E.look-drop s.expires k q ∙ rw e refl) ∙ h)
      ];
    };
    value = D.look-drop s.dict k k ∙ rw (compare_refl D E k) refl;
    expire = E.look-drop s.expires k k ∙ rw (compare_refl D E k) refl;
    other_values = λ q e. D.look-drop s.dict k q ∙ rw e refl;
    other_expires = λ q e. E.look-drop s.expires k q ∙ rw e refl;
  }

  same :
      (s : Server D E) (k : K) → IsDb D E s → Becomes s k (D.look s.dict k) (E.look s.expires k) s
  same s k ok = record {
    valid = ok;
    value = refl;
    expire = refl;
    other_values = λ q e. refl;
    other_expires = λ q e. refl;
  }

  -- the value and the expire time that a client of the server sees
  abbrev pub seen : {A : Type 0} → Server D E → ℤ → K → Option A → Option A
  seen s now k x = if dies D E s now (E.look s.expires k) then none else x

  abbrev pub Looked : (Server D E) → ℤ → K → Type 0
  Looked s now k =
      (s' : Server D E) × (lookup_key_write D E now k s ≡ some (seen s now k (D.look s.dict k), s'))
      × Becomes s k (seen s now k (D.look s.dict k)) (seen s now k (E.look s.expires k)) s'

  pub lookup_key_write_lem : (s : Server D E) (now : ℤ) (k : K) → IsDb D E s → Looked s now k
  unfolding lookup_key_write lookup_key
  lookup_key_write_lem s now k ok =
      let (b, run) = expire_if_needed-runs D E s now k ok (E.look s.expires k) refl in
      elim (Bool-cases (dies D E s now (E.look s.expires k))) [
        | inl e ↦ let g = gone s k ok in (without D E s k, rw (run, e, g.value) refl, rw e g)
        | inr e ↦ (s, rw (run, e) refl, rw e (same s k ok))
      ]
