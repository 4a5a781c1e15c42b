-- ===== src/Dict/Replace.antt =====
-- `dictReplace` and `dictDelete` (redis/src/dict.c).
use coffee_table.Prelude.{
  ◌<◌, ◌^◌, ◌+◌, ap, is_some, not, ◌∙◌, Bool, true, false, is_some, ◌+◌, ◌≡◌, ap, ◌∙◌, Bool, true,
  false, not, some, arith, if◌then◌else◌, inl, inr, Option-cases,
}
use coffee_table.Dict.{Dict}
use coffee_table.Dict.Access.{size, replace}
use coffee_table.Dict.Bucket.{KeyType}
use coffee_table.Dict.Invariant.{IsDict, IsSmall, lookup}
use coffee_table.Dict.Add.{add-absent, add-present}
use coffee_table.Dict.Change.{Changed}
use coffee_table.Dict.Fetch.{fetch_value_lem, set_val_lem}

module _ {ℓ} {K V : Type ℓ} ⦃type : KeyType K⦄ where
  -- What `dictReplace` returns and leaves: 1 and one entry more for a new key, 0 for a key that was there.
  pub record Replaced (can_resize : Bool) (d : Dict K V) (k : K) (v : V) : Type ℓ where
    pub added : Bool
    pub d' : Dict K V
    pub run : replace can_resize d k v ≡ some (added, d')
    pub change : Changed d k (some v) d'
    pub answer : added ≡ not (is_some (lookup d k))
    pub sized : size d' ≡ size d + (if added then 1 else 0)

  pub replaced :
      (can_resize : Bool) (d : Dict K V) (k : K) (v : V)
      → IsDict d
      → IsSmall d
      → size d < 2 ^ 29
      → Replaced can_resize d k v
  unfolding replace
  replaced can_resize d k v ok small room = elim (Option-cases (lookup d k)) [
    | inl absent ↦
        let (d', run, adds) = add-absent can_resize d k v ok small room absent in
        record {
          added = true;
          d' = d';
          run = rw run;
          change = record { valid = adds.valid; lookups = adds.lookups; small = adds.small };
          answer = rw absent;
          sized = adds.grows;
        }
    | inr (w, there) ↦
        let (d1, run1, keeps1, pos1, small1) = add-present can_resize d k v ok small room w there in
        let (d2, run2, keeps2, small2) = fetch_value_lem d1 k keeps1.valid small1 in
        let same2 = keeps2.same k ∙ keeps1.same k ∙ there in
        let (d3, run3, change3, size3) =
          set_val_lem d2 k v keeps2.valid (keeps2.table pos1) w same2 in
        record {
          added = false;
          d' = d3;
          run = rw (run1, run2, keeps1.same k, there, run3);
          change = record {
            valid = change3.valid;
            small = λ s. change3.small small2;
            lookups = λ q.
                change3.lookups q
                ∙ ap (λ x. if type.compare q k then some v else x) (keeps2.same q ∙ keeps1.same q);
          };
          answer = rw there;
          sized = omega (arith, size3, keeps1.size, keeps2.size);
        }
  ]

  -- `dictReplace` on a valid dictionary with fewer than 2 ^ 29 entries, whose tables have fewer than 2 ^ 31
  -- buckets, answers 1 exactly for a new key, leaves a valid dictionary
  -- with the value under the key, maps every other key as before, and counts one entry more for a new
  -- key only.
  pub replace_lem :
      (can_resize : Bool) (d : Dict K V) (k : K) (v : V)
      → IsDict d
      → IsSmall d
      → size d < 2 ^ 29
      → (d' : Dict K V) × (replace can_resize d k v ≡ some (not (is_some (lookup d k)), d'))
        × Changed d k (some v) d'
        × (size d' ≡ size d + (if not (is_some (lookup d k)) then 1 else 0))
  replace_lem can_resize d k v ok small room =
      let r = replaced can_resize d k v ok small room in
      (r.d', r.run ∙ ap (λ b. some (b, r.d')) r.answer, r.change, rw (← r.answer) r.sized)
