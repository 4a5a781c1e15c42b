-- ===== src/Dict/Bucket/Laws.antt =====
-- Lookup, membership and multiplicity of a key in one bucket, under the writes to a bucket.
use coffee_table.Prelude.{
  ◌+◌, ◌≤◌, ◌≡◌, refl, true, false, none, some, [], ◌∷◌, arith, length, if◌then◌else◌, inl, inr,
  Bool-cases,
}
use coffee_table.Dict.Bucket.{Chain, KeyType, find, contains, overwrite, unlink, entries}

module _ {ℓ} {K : Type ℓ} ⦃type : KeyType K⦄ where
  pub compare_self : (k : K) → type.compare k k ≡ true
  compare_self k = (type.compare_iff k k).1 refl

  -- equal keys compare alike with a third
  pub compare_congr : (k q x : K) → type.compare q k ≡ true → type.compare q x ≡ type.compare k x
  compare_congr k q x h = let e = (type.compare_iff q k).0 h in λ i. type.compare (e i) x

module _ {ℓ} {K V : Type ℓ} ⦃type : KeyType K⦄ where
  pub contains-find :
      (q : K) (c : Chain K V) → contains q c ≡ false → (find q c ≡ none) × (entries q c ≡ 0)
  unfolding contains find entries
  contains-find q [] h = (refl, refl)
  contains-find q ((j, w) ∷ c) h = ground (arith, contains-find q c)

  pub entries-of_contains : (q : K) (c : Chain K V) → contains q c ≡ true → 1 ≤ entries q c
  unfolding contains entries
  entries-of_contains q [] h = ground arith
  entries-of_contains q ((j, w) ∷ c) h = ground (arith, entries-of_contains q c)

  pub find_of_contains :
      (q : K) (c : Chain K V) → contains q c ≡ true → (v : V) × (find q c ≡ some v)
  unfolding contains find
  find_of_contains q [] h = ground arith
  find_of_contains q ((j, w) ∷ c) h = elim (Bool-cases (type.compare q j)) [
    | inl same ↦ (w, rw same)
    | inr other ↦ rw other (find_of_contains q c (rw other at h))
  ]

  pub contains-of_find : (q : K) (v : V) (c : Chain K V) → find q c ≡ some v → contains q c ≡ true
  unfolding contains find
  contains-of_find q v [] h = ground arith
  contains-of_find q v ((j, w) ∷ c) h = ground (arith, contains-of_find q v c)

  pub find_absent : (q : K) (c : Chain K V) → entries q c ≡ 0 → find q c ≡ none
  unfolding entries find
  find_absent q [] h = refl
  find_absent q ((j, w) ∷ c) h = ground (arith, find_absent q c)

  pub entries-unlink :
      (k q : K) (c : Chain K V) → type.compare q k ≡ false → entries q (unlink k c) ≡ entries q c
  unfolding unlink entries
  entries-unlink k q [] h = refl
  entries-unlink k q ((j, w) ∷ c) h = ground (
    arith,
    entries-unlink k q c h,
    type.compare_iff q k,
    type.compare_iff k j,
    type.compare_iff q j,
  )

  pub find-unlink :
      (k q : K) (c : Chain K V)
      → entries q c ≤ 1
      → find q (unlink k c) ≡ (if type.compare q k then none else find q c)
  unfolding unlink entries find
  find-unlink k q [] h = ground arith
  find-unlink k q ((j, w) ∷ c) h = ground (
    arith,
    find-unlink k q c,
    find_absent q c,
    compare_congr k q j,
    type.compare_iff k j,
    type.compare_iff q j,
  )

  pub entries-unlink-le : (k q : K) (c : Chain K V) → entries q (unlink k c) ≤ entries q c
  unfolding unlink entries
  entries-unlink-le k q [] = omega arith
  entries-unlink-le k q ((j, w) ∷ c) = ground (arith, entries-unlink-le k q c)

  pub entries-overwrite :
      (k q : K) (v : V) (c : Chain K V) → entries q (overwrite k v c) ≡ entries q c
  unfolding entries overwrite
  entries-overwrite k q v [] = refl
  entries-overwrite k q v ((j, w) ∷ c) = ground (arith, entries-overwrite k q v c)

  pub find-overwrite :
      (k q : K) (v : V) (c : Chain K V)
      → contains k c ≡ true
      → find q (overwrite k v c) ≡ (if type.compare q k then some v else find q c)
  unfolding contains find overwrite
  find-overwrite k q v [] h = ground arith
  find-overwrite k q v ((j, w) ∷ c) h = ground (
    arith,
    find-overwrite k q v c,
    compare_iff q k,
    compare_iff k j,
    compare_iff q j,
    compare_congr k q j,
  )
    where
      open type use {compare_iff}

  pub length-unlink :
      (k : K) (c : Chain K V) → contains k c ≡ true → length (unlink k c) + 1 ≡ length c
  unfolding unlink contains
  length-unlink k [] h = ground arith
  length-unlink k ((j, w) ∷ c) h = ground (arith, length-unlink k c)

  pub length-overwrite : (k : K) (v : V) (c : Chain K V) → length (overwrite k v c) ≡ length c
  unfolding overwrite
  length-overwrite k v [] = refl
  length-overwrite k v ((j, w) ∷ c) = ground (arith, length-overwrite k v c)
