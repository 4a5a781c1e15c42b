-- ===== src/Dict/Bucket.antt =====
-- redis/src/dict.h and dict.c: the key type of a dictionary, and one bucket of a table.
pub mod Laws
use coffee_table.Prelude.{
  ℕ, ◌+◌, ◌≤◌, ◌≡◌, refl, ◌↔◌, Bool, true, false, Option, none, some, List, [], ◌∷◌, arith, length,
  if◌then◌else◌,
}

-- `dictType`: `hashFunction` and `keyCompare`. A key is its contents, as `keyCompare` sees it.
pub record KeyType {ℓ} (K : Type ℓ) : Type ℓ where
  pub hash : K → ℕ
  pub compare : K → K → Bool
  pub compare_iff : (a b : K) → (compare a b ≡ true) ↔ (a ≡ b)

abbrev pub Chain {ℓ} : Type ℓ → Type ℓ → Type ℓ
Chain K V = List (K × V)

module _ {ℓ} {K V : Type ℓ} ⦃type : KeyType K⦄ where
  -- `while (he) { if (dictCompareKeys(d, key, he->key)) ...; he = he->next; }`
  unfoldable pub find : K → Chain K V → Option V
  find k [] = none
  find k ((j, w) ∷ c) = if type.compare k j then some w else find k c

  unfoldable pub contains : K → Chain K V → Bool
  contains k [] = false
  contains k ((j, w) ∷ c) = if type.compare k j then true else contains k c

  -- the value written through the entry that `find` returned
  unfoldable pub overwrite : K → V → Chain K V → Chain K V
  overwrite k v [] = []
  overwrite k v ((j, w) ∷ c) = if type.compare k j then (j, v) ∷ c else (j, w) ∷ overwrite k v c

  -- the entry unlinked
  unfoldable pub unlink : K → Chain K V → Chain K V
  unlink k [] = []
  unlink k ((j, w) ∷ c) = if type.compare k j then c else (j, w) ∷ unlink k c

  -- how many entries have the key
  unfoldable pub entries : K → Chain K V → ℕ
  entries q [] = 0
  entries q ((j, w) ∷ c) = (if type.compare q j then 1 else 0) + entries q c
