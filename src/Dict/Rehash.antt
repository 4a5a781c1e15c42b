-- ===== src/Dict/Rehash.antt =====
-- Incremental rehashing (`dictRehash`, `_dictRehashStep` of redis/src/dict.c).
use coffee_table.Prelude.{
  ℕ, zero, suc, ◌+◌, ◌-◌, ◌≤◌, ◌<◌, ◌≡◌, ◌⊎◌, refl, ap, sym, ◌∙◌, none, some, List, [], ◌∷◌, arith,
  length, get_or, set, drop, if◌then◌else◌, inl, inr, Bool-cases, ◌==◌, total, total-set,
  get_or-set, length-set, ltb, length-drop,
}
use coffee_table.Dict.{Dictht, Dict, slot, reset}
use coffee_table.Dict.Bucket.{Chain, KeyType, find, entries}
use coffee_table.Dict.Bucket.Laws.{find_absent}
use coffee_table.Dict.Table.{IsTable, bucket, view, tally, reset-IsTable}
use coffee_table.Dict.Moves.{Moved, moved}
use coffee_table.Dict.Scan.{Scanned, get_or-drop}
use coffee_table.Dict.Invariant.{IsDict, IsPhase, lookup}

module _ {ℓ} {K V : Type ℓ} ⦃type : KeyType K⦄ where
  -- `d'` is a valid dictionary with the entries of `d`.
  pub record Keeps (d d' : Dict K V) : Type ℓ where
    pub valid : IsDict d'
    pub same : (q : K) → lookup d' q ≡ lookup d q
    pub size : d'.ht0.used + d'.ht1.used ≡ d.ht0.used + d.ht1.used
    pub iterators : d'.iterators ≡ d.iterators
    pub table : 0 < d.ht0.size → 0 < d'.ht0.size

  pub total_zero : (t : List (Chain K V)) (i : ℕ) → total t ≡ 0 → get_or t i [] ≡ []
  unfolding total
  total_zero [] i h = refl
  total_zero ([] ∷ t) zero h = refl
  total_zero ([] ∷ t) (suc i) h = total_zero t i (omega arith)
  total_zero ((e ∷ c) ∷ t) i h = absurd (omega arith)

  -- The last round: everything has been moved.
  unfoldable pub finished : Dict K V → Dict K V
  finished d = record d { ht0 = d.ht1; ht1 = reset; rehashidx = none }

  module _ (d : Dict K V) (r : ℕ) (ok : IsDict d) (phase : IsPhase d.ht0 d.ht1 (some r)) where
    pub finished-Keeps : d.ht0.used ≡ 0 → Keeps d (finished d)
    unfolding finished lookup find entries
    finished-Keeps h = record {
      valid = record {
        first = ok.second;
        second = reset-IsTable;
        unique = λ q. omega (arith, ok.unique q);
        phase = (tt, refl);
      };
      same = λ q. ground (arith, nothing q);
      size = omega arith;
      iterators = refl;
      table = λ p. phase.2;
    }
      where
        nothing : (q : K) → view d.ht0 q ≡ none
        nothing q = ap (find q) (total_zero d.ht0.table (slot d.ht0 q) (sym ok.first.counted ∙ h))

    module _ (s : Scanned (drop r d.ht0.table) r) where
      abbrev pub index : ℕ
      index = r + s.skipped

      pub index-lt : index < length d.ht0.table
      index-lt = omega (arith, s.inside, length-drop r d.ht0.table)

      empty_below : (i : ℕ) → i < index → bucket d.ht0 i ≡ []
      empty_below i h = elim (Bool-cases (ltb i r)) [
        | inl low ↦ phase.3 i (ground arith)
        | inr high ↦
            ap (λ n. get_or d.ht0.table n []) {x = i} {y = r + (i - r)} (ground arith)
            ∙ sym (get_or-drop r (i - r) d.ht0.table)
            ∙ s.empty (i - r) (ground arith)
      ]

      in_bucket : (q : K) → (index ≡ slot d.ht0 q) ⊎ (entries q (bucket d.ht0 index) ≡ 0)
      in_bucket q = elim (Bool-cases (index == slot d.ht0 q)) [
        | inl same ↦ inl (ground arith)
        | inr other ↦ inr (ok.first.placed q index (ground arith))
      ]

      entries-le : (q : K) → entries q (bucket d.ht0 index) + tally d.ht1 q ≤ 1
      entries-le q = elim (in_bucket q) [
        | inl same ↦ rw same (ok.unique q)
        | inr nowhere ↦ omega (arith, ok.unique q)
      ]

      length-le : length (bucket d.ht0 index) ≤ d.ht0.used
      length-le = omega (arith, total-set d.ht0.table index [] index-lt, ok.first.counted)

      pub migrated : Moved (bucket d.ht0 index) d.ht0 d.ht1
      migrated =
          moved (bucket d.ht0 index) d.ht0 d.ht1 ok.second phase.2 length-le
            (λ q. omega (arith, entries-le q))

      -- the first table with the bucket cleared
      unfoldable pub cleared : Dictht K V
      cleared = record (d.ht0) {
        table = set d.ht0.table index [];
        used = d.ht0.used - length (bucket d.ht0 index);
      }

      cleared-bucket : (i : ℕ) → bucket cleared i ≡ (if index == i then [] else bucket d.ht0 i)
      unfolding cleared
      cleared-bucket i = get_or-set d.ht0.table index i [] [] index-lt

      cleared-IsTable : IsTable cleared
      unfolding cleared entries
      cleared-IsTable = record {
        width = length-set d.ht0.table index [] ∙ ok.first.width;
        mask = ok.first.mask;
        counted =
            omega (arith, total-set d.ht0.table index [] index-lt, ok.first.counted, length-le);
        placed = λ q i h. rw (cleared-bucket i) (ground (arith, ok.first.placed q i));
      }

      unfoldable pub after : Dict K V
      after = record d { ht0 = cleared; ht1 = migrated.t1'; rehashidx = some (index + 1) }

      -- The entries of a key have all left the first table, or have all stayed.
      cleared_home :
          (q : K)
          → ((index ≡ slot d.ht0 q) × (view cleared q ≡ none) × (tally cleared q ≡ 0))
            ⊎ ((entries q (bucket d.ht0 index) ≡ 0)
                × (view cleared q ≡ view d.ht0 q)
                × (tally cleared q ≡ tally d.ht0 q))
      unfolding find entries cleared
      cleared_home q = elim (Bool-cases (index == slot d.ht0 q)) [
        | inl here ↦
            let e = rw here at (cleared-bucket (slot d.ht0 q)) in
            inl (ground arith, ap (find q) e, ap (entries q) e)
        | inr there ↦
            let e = rw there at (cleared-bucket (slot d.ht0 q)) in
            inr (ok.first.placed q index (ground arith), ap (find q) e, ap (entries q) e)
      ]

      after_unique : (q : K) → tally cleared q + tally migrated.t1' q ≤ 1
      after_unique q = elim (cleared_home q) [
        | inl (here, none_found, gone) ↦ omega (arith, migrated.tallies q, entries-le q)
        | inr (absent, found, stayed) ↦ omega (arith, migrated.tallies q, ok.unique q)
      ]

      after-lookup : (q : K) → lookup after q ≡ lookup d q
      unfolding lookup after
      after-lookup q = elim (cleared_home q) [
        | inl (here, none_found, gone) ↦ rw (none_found, migrated.views q, here)
        | inr (absent, found, stayed) ↦
            rw (found, migrated.views q, find_absent q (bucket d.ht0 index) absent)
      ]

      after-IsPhase : IsPhase cleared migrated.t1' (some (index + 1))
      unfolding cleared
      after-IsPhase = (
        tt,
        phase.1,
        omega (arith, phase.2, migrated.size),
        λ i h. rw (cleared-bucket i) (ground (arith, empty_below i)),
        omega (arith, index-lt, ok.first.width),
      )

      pub after-Keeps : Keeps d after
      unfolding after cleared
      after-Keeps = record {
        valid = record {
          first = cleared-IsTable;
          second = migrated.ok;
          unique = after_unique;
          phase = after-IsPhase;
        };
        same = after-lookup;
        size = omega (arith, migrated.used, length-le);
        iterators = refl;
        table = λ p. p;
      }
