-- ===== src/Dict/Fetch.antt =====
-- `dictFind`, `dictFetchValue` and `dictReplace` (redis/src/dict.c).
use coffee_table.Prelude.{
  ◌<◌, ◌≡◌, refl, sym, ◌∙◌, true, none, ◌==◌, some, arith, inl, inr, Bool-cases, Option-cases,
  none≢some,
}
use coffee_table.Dict.{Dictht, Dict, is_rehashing}
use coffee_table.Dict.Access.{size, find_entry, fetch_value, set_val}
use coffee_table.Dict.Bucket.{KeyType, contains, overwrite}
use coffee_table.Dict.Bucket.Laws.{
  contains-find, contains-of_find, entries-of_contains, find-overwrite, entries-overwrite,
  length-overwrite,
}
use coffee_table.Dict.Table.{home, view, get_home, write_home}
use coffee_table.Dict.Invariant.{IsDict, IsSmall, lookup, no_table}
use coffee_table.Dict.Rehash.{Keeps}
use coffee_table.Dict.Steps.{Keeps-refl, stepped}
use coffee_table.Dict.Probe.{idle_view, second_pos, first_view_none}
use coffee_table.Dict.Change.{Changed, Fits, change_first, change_second}

module _ {ℓ} {K V : Type ℓ} ⦃type : KeyType K⦄ where
  pub no_tables : (d : Dict K V) (k : K) → IsDict d → d.ht0.size ≡ 0 → lookup d k ≡ none
  unfolding lookup
  no_tables d k ok h = elim (Option-cases d.rehashidx) [
    | inl e ↦
        rw ((no_table d.ht0 ok.first h).1 k, (no_table d.ht1 ok.second (rw e at ok.phase).1).1 k)
    | inr (r, e) ↦ absurd (omega (arith, (rw e at ok.phase).1))
  ]

  find_entry_lem :
      (d : Dict K V) (k : K) → IsDict d → 0 < d.ht0.size → find_entry d k ≡ some (lookup d k)
  unfolding find_entry lookup
  find_entry_lem d k ok pos = elim (Option-cases (view d.ht0 k)) [
    | inr (v, e) ↦ rw (get_home d.ht0 k ok.first pos, e)
    | inl e ↦ elim (Bool-cases (is_rehashing d)) [
      | inl busy ↦ rw (
        get_home d.ht0 k ok.first pos,
        e,
        busy,
        get_home d.ht1 k ok.second (second_pos d k ok pos busy),
      )
      | inr idle ↦ rw (get_home d.ht0 k ok.first pos, e, idle, (idle_view d k ok pos idle k).0)
    ]
  ]

  -- `dictFind` answers what the dictionary maps the key to, and keeps the map.
  pub fetch_value_lem :
      (d : Dict K V) (k : K)
      → IsDict d
      → IsSmall d
      → (d' : Dict K V) × (fetch_value d k ≡ some (lookup d k, d')) × Keeps d d' × IsSmall d'
  unfolding fetch_value
  fetch_value_lem d k ok small = elim (Bool-cases (d.ht0.size == 0)) [
    | inl empty ↦ (d, rw (empty, no_tables d k ok (ground arith)), Keeps-refl d ok, small)
    | inr there ↦
        let (d1, run, keeps, small1) = stepped d ok small in
        (
          d1,
          rw (
            there,
            run,
            find_entry_lem d1 k keeps.valid (keeps.table (ground arith)),
            keeps.same k,
          ),
          keeps,
          small1,
        )
  ]

  module _ (t : Dictht K V) (k : K) (v : V) (here : contains k (home t k) ≡ true) where
    overwrite-Fits : Fits t k (some v) (overwrite k v (home t k)) t.used
    overwrite-Fits = record {
      others = λ q h. entries-overwrite k q v (home t k);
      few = λ q. omega (arith, entries-overwrite k q v (home t k));
      reads = λ q. find-overwrite k q v (home t k) here;
      counted = omega (arith, length-overwrite k v (home t k));
    }

  -- The value of a key that is there is replaced in place.
  module _ (d : Dict K V) (k : K) (v : V) (ok : IsDict d) (pos : 0 < d.ht0.size) where
    pub set_val_lem :
        (w : V)
        → lookup d k ≡ some w
        → (d' : Dict K V) × (set_val d k v ≡ some d') × Changed d k (some v) d' × (size d' ≡ size d)
    unfolding set_val
    set_val_lem w h = elim (Bool-cases (contains k (home d.ht0 k))) [
      | inl here ↦ (
        record d { ht0 = write_home d.ht0 k (overwrite k v (home d.ht0 k)) d.ht0.used },
        rw (get_home d.ht0 k ok.first pos, here),
        change_first d k (some v) (overwrite k v (home d.ht0 k)) d.ht0.used ok pos
            (overwrite-Fits d.ht0 k v here) (entries-of_contains k (home d.ht0 k) here),
        refl,
      )
      | inr absent ↦ elim (Bool-cases (is_rehashing d)) [
        | inl busy ↦
            let pos1 = second_pos d k ok pos busy in
            let e : view d.ht1 k ≡ some w = sym (first_view_none d k ok pos absent) ∙ h in
            (
              record d { ht1 = write_home d.ht1 k (overwrite k v (home d.ht1 k)) d.ht1.used },
              rw (get_home d.ht0 k ok.first pos, absent, get_home d.ht1 k ok.second pos1),
              change_second d k (some v) (overwrite k v (home d.ht1 k)) d.ht1.used ok pos pos1
                  (overwrite-Fits d.ht1 k v (contains-of_find k w (home d.ht1 k) e))
                  (contains-find k (home d.ht0 k) absent).0,
              refl,
            )
        | inr idle ↦ absurd (
            none≢some
              (sym (idle_view d k ok pos idle k).0 ∙ sym (first_view_none d k ok pos absent) ∙ h))
      ]
    ]
