-- ===== src/Db/Expiry.antt =====
-- redis/src/db.c: expired keys, and the invariant between the keys and their expire times.
use coffee_table.Prelude.{
  ◌+◌, ◌≡◌, refl, Bool, true, false, ◌&&◌, not, Option, none, some, ◌∷◌, inl, inr, if◌then◌else◌,
  is_some, Bool-cases, Option-cases,
}
use coffee_table.Prelude.Int.{ℤ, pos, negsuc, ltb_ℤ}
use coffee_table.Dict.Bucket.{KeyType}
use coffee_table.Dict.KeyMap.{KeyMap}
use coffee_table.Object.{Obj}
use coffee_table.Db.{Server, get_expire, expire_if_needed}

module _ {K : Type 0} ⦃type : KeyType K⦄ (D : KeyMap K Obj) (E : KeyMap K ℤ) where
  -- An expire time belongs to a key of the database, and is not negative.
  pub record IsDb (s : Server D E) : Type 0 where
    pub owned : (q : K) → D.look s.dict q ≡ none → E.look s.expires q ≡ none
    pub positive : (q : K) (t : ℤ) → E.look s.expires q ≡ some t → ltb_ℤ t (pos 0) ≡ false

  -- whether `expireIfNeeded` deletes the key
  abbrev pub dies : Server D E → ℤ → Option ℤ → Bool
  dies s now none = false
  dies s now (some t) = not s.loading && not s.is_slave && ltb_ℤ t now

  -- the server without the key
  abbrev pub without : Server D E → K → Server D E
  without s k = record s {
    dict = D.drop s.dict k;
    expires = E.drop s.expires k;
    stat_expiredkeys = s.stat_expiredkeys + 1;
    propagated = k ∷ s.propagated;
  }

  abbrev pub expire_or : Option ℤ → ℤ
  expire_or none = negsuc 0
  expire_or (some t) = t

  pub compare_refl : (k : K) → type.compare k k ≡ true
  compare_refl k = (type.compare_iff k k).1 refl

  pub there :
      (s : Server D E) (k : K) (t : ℤ)
      → IsDb s
      → E.look s.expires k ≡ some t
      → is_some (D.look s.dict k) ≡ true
  there s k t ok h = elim (Option-cases (D.look s.dict k)) [
    | inl e ↦ absurd (let no = ok.owned k e in cc)
    | inr (v, e) ↦ rw e refl
  ]

  pub get_expire-runs :
      (s : Server D E) (k : K)
      → IsDb s
      → (o : Option ℤ) → E.look s.expires k ≡ o
      → get_expire D E k s ≡ some (expire_or o, s)
  unfolding get_expire
  get_expire-runs s k ok none e = rw e refl
  get_expire-runs s k ok (some t) e = rw (e, there s k t ok e) refl

  pub expire_if_needed-runs :
      (s : Server D E) (now : ℤ) (k : K)
      → IsDb s
      → (o : Option ℤ) → E.look s.expires k ≡ o
      → (b : Bool) × (expire_if_needed D E now k s
          ≡ some (b, if dies s now o then without s k else s))
  unfolding expire_if_needed
  expire_if_needed-runs s now k ok none e = (false, rw (get_expire-runs s k ok none e) refl)
  expire_if_needed-runs s now k ok (some t) e = elim (Bool-cases s.loading) [
    | inl l ↦ (false, rw (get_expire-runs s k ok (some t) e, ok.positive k t e, l) refl)
    | inr l ↦ elim (Bool-cases s.is_slave) [
      | inl m ↦ (ltb_ℤ t now, rw (get_expire-runs s k ok (some t) e, ok.positive k t e, l, m) refl)
      | inr m ↦ elim (Bool-cases (ltb_ℤ t now)) [
        | inl d ↦ (
          is_some (D.look s.dict k),
          rw (get_expire-runs s k ok (some t) e, ok.positive k t e, l, m, d) refl,
        )
        | inr d ↦ (false, rw (get_expire-runs s k ok (some t) e, ok.positive k t e, l, m, d) refl)
      ]
    ]
  ]
