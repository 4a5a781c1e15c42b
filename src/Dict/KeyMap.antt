-- ===== src/Dict/KeyMap.antt =====
-- What the keyspace (redis/src/db.c) uses of a dictionary: a map from keys to values. How far a
-- rehashing got, which dictFind and the other calls carry on, is not seen through this interface.
use coffee_table.Prelude.{◌≡◌, refl, Option, none, some, if◌then◌else◌}
use coffee_table.Dict.Bucket.{KeyType}

pub record KeyMap (K : Type 0) ⦃type : KeyType K⦄ (V : Type 0) : Type 1 where
  pub Carrier : Type 0
  pub look : Carrier → K → Option V
  pub put : Carrier → K → V → Carrier
  pub drop : Carrier → K → Carrier
  pub empty : Carrier
  pub look-put :
      (m : Carrier) (k q : K) (v : V)
      → look (put m k v) q ≡ (if type.compare q k then some v else look m q)
  pub look-drop :
      (m : Carrier) (k q : K) → look (drop m k) q ≡ (if type.compare q k then none else look m q)
  pub look-empty : (q : K) → look empty q ≡ none

-- A map as a function.
abbrev pub function_map : {K V : Type 0} ⦃type : KeyType K⦄ → KeyMap K V
function_map {K} {V} ⦃type⦄ = record {
  Carrier = K → Option V;
  look = λ m q. m q;
  put = λ m k v q. if type.compare q k then some v else m q;
  drop = λ m k q. if type.compare q k then none else m q;
  empty = λ q. none;
  look-put = λ m k q v. refl;
  look-drop = λ m k q. refl;
  look-empty = λ q. refl;
}
