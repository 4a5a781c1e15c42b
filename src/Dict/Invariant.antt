-- ===== src/Dict/Invariant.antt =====
-- The invariant of a dictionary of redis/src/dict.c, and the map that it stands for.
use coffee_table.Prelude.{
  ℕ, ◌+◌, ◌≤◌, ◌<◌, ◌^◌, ◌≡◌, refl, ap, ◌∙◌, Option, none, some, List, [], ◌∷◌, arith, length,
  get_or, or_else, total,
}
use coffee_table.Dict.{Dictht, Dict, create}
use coffee_table.Dict.Bucket.{KeyType, find, entries}
use coffee_table.Dict.Table.{IsTable, bucket, view, tally, reset-IsTable}

module _ {ℓ} {K V : Type ℓ} where
  -- Every bucket of the tables has an `int` for its index.
  abbrev pub IsSmall : Dict K V → Type 0
  IsSmall d = (d.ht0.size < 2 ^ 31) × (d.ht1.size < 2 ^ 31)

module _ {ℓ} {K V : Type ℓ} ⦃type : KeyType K⦄ where
  -- Outside rehashing the second table is empty. During rehashing both tables exist, and the buckets
  -- of the first below the index have been moved.
  abbrev pub IsPhase : Dictht K V → Dictht K V → Option ℕ → Type ℓ
  IsPhase t0 t1 none = Unit {ℓ} × (t1.size ≡ 0)
  IsPhase t0 t1 (some r) =
      Unit {ℓ}
      × (0 < t0.size)
      × (0 < t1.size)
      × ((i : ℕ) → i < r → bucket t0 i ≡ [])
      × (r ≤ t0.size)

  pub record IsDict (d : Dict K V) : Type ℓ where
    pub first : IsTable d.ht0
    pub second : IsTable d.ht1
    pub unique : (q : K) → tally d.ht0 q + tally d.ht1 q ≤ 1
    pub phase : IsPhase d.ht0 d.ht1 d.rehashidx

  -- the map from keys to values that the two tables hold together
  unfoldable pub lookup : Dict K V → K → Option V
  lookup d q = or_else (view d.ht0 q) (view d.ht1 q)

  total_of_nil :
      (t : List (List (K × V))) → length t ≡ 0 → (total t ≡ 0) × ((i : ℕ) → get_or t i [] ≡ [])
  unfolding total
  total_of_nil [] h = (refl, λ i. refl)
  total_of_nil (c ∷ t) h = absurd (omega arith)

  pub no_table :
      (t : Dictht K V)
      → IsTable t
      → t.size ≡ 0
      → (t.used ≡ 0) × ((q : K) → view t q ≡ none) × ((q : K) → tally t q ≡ 0)
  unfolding find entries
  no_table t ok h =
      let (none_used, empty) = total_of_nil t.table (ok.width ∙ h) in
      (ok.counted ∙ none_used, λ q. ap (find q) (empty _), λ q. ap (entries q) (empty _))

  pub create-IsDict : IsDict create
  unfolding create entries
  create-IsDict = record {
    first = reset-IsTable;
    second = reset-IsTable;
    unique = λ q. omega arith;
    phase = (tt, refl);
  }

  pub lookup-create : (q : K) → lookup create q ≡ none
  unfolding create lookup find
  lookup-create q = refl
