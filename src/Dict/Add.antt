-- ===== src/Dict/Add.antt =====
-- `dictAddRaw` and `dictAdd` (redis/src/dict.c).
use coffee_table.Prelude.{
  ◌+◌, ◌^◌, ◌<◌, ◌≡◌, ap, ◌∙◌, Bool, true, false, none, some, ◌∷◌, arith, if◌then◌else◌, inl, inr,
  Bool-cases,
}
use coffee_table.Dict.{Dictht, Dict, is_rehashing, slot}
use coffee_table.Dict.Access.{link_entry, add, size}
use coffee_table.Dict.Bucket.{KeyType}
use coffee_table.Dict.Bucket.Laws.{contains-find}
use coffee_table.Dict.Table.{home, view, tally, write_home}
use coffee_table.Dict.Moves.{pushed, push_entry-home}
use coffee_table.Dict.Invariant.{IsDict, IsSmall, lookup}
use coffee_table.Dict.Rehash.{Keeps}
use coffee_table.Dict.Steps.{Keeps-trans, stepped}
use coffee_table.Dict.Expand.{idle_of}
use coffee_table.Dict.Probe.{
  target, rehash_index, second_pos, absent_first, absent_second, probe_found, probe_free,
}
use coffee_table.Dict.Ready.{Ready, ready}

module _ {ℓ} {K V : Type ℓ} ⦃type : KeyType K⦄ where
  -- `d'` holds the entries of `d`, and `v` under the new key `k`
  pub record Adds (d : Dict K V) (k : K) (v : V) (d' : Dict K V) : Type ℓ where
    pub valid : IsDict d'
    pub lookups : (q : K) → lookup d' q ≡ (if type.compare q k then some v else lookup d q)
    pub grows : size d' ≡ size d + 1
    pub small : IsSmall d → IsSmall d'

  module _ (d : Dict K V) (k : K) (ok : IsDict d) (pos : 0 < d.ht0.size) where
    module _ (v : V) (h : lookup d k ≡ none) where
      none_first : tally d.ht0 k ≡ 0
      none_first = (contains-find k (home d.ht0 k) (absent_first d k ok pos h)).1

      none-view : view d.ht0 k ≡ none
      none-view = (contains-find k (home d.ht0 k) (absent_first d k ok pos h)).0

      none_second : tally d.ht1 k ≡ 0
      none_second = (contains-find k (home d.ht1 k) (absent_second d k ok pos h)).1

      tally_congr : (t : Dictht K V) (q : K) → type.compare q k ≡ true → tally t q ≡ tally t k
      tally_congr t q e = ap (tally t) ((type.compare_iff q k).0 e)

      abbrev pub Linked : Type ℓ
      Linked = (d' : Dict K V) × (link_entry d (slot (target d) k) (k, v) ≡ some d') × Adds d k v d'

      link_second : is_rehashing d ≡ true → Linked
      unfolding link_entry lookup
      link_second busy =
          let t = write_home d.ht1 k ((k, v) ∷ home d.ht1 k) (d.ht1.used + 1) in
          let new = pushed d.ht1 k v ok.second (second_pos d k ok pos busy) in
          let (r, e) = rehash_index d busy in
          let p = rw e at ok.phase in
          (
            record d { ht1 = t },
            rw (busy, push_entry-home d.ht1 k v ok.second (second_pos d k ok pos busy)),
            record {
              valid = record {
                first = ok.first;
                second = new.ok;
                unique = λ q. ground (
                  arith,
                  new.tallies q,
                  ok.unique q,
                  tally_congr d.ht0 q,
                  tally_congr d.ht1 q,
                  none_first,
                  none_second,
                );
                phase = rw e (tt, p.1, p.2, p.3, p.4);
              };
              lookups = λ q. elim (Bool-cases (type.compare q k)) [
                | inl same ↦
                    rw (
                      ap (view d.ht0) ((type.compare_iff q k).0 same) ∙ none-view,
                      new.views q,
                      same,
                    )
                | inr other ↦ rw (new.views q, other)
              ];
              grows = omega arith;
              small = λ s. s;
            },
          )

      link_first : is_rehashing d ≡ false → Linked
      unfolding link_entry lookup
      link_first idle =
          let t = write_home d.ht0 k ((k, v) ∷ home d.ht0 k) (d.ht0.used + 1) in
          let new = pushed d.ht0 k v ok.first pos in
          let e = idle_of d idle in
          (
            record d { ht0 = t },
            rw (idle, push_entry-home d.ht0 k v ok.first pos),
            record {
              valid = record {
                first = new.ok;
                second = ok.second;
                unique = λ q. ground (
                  arith,
                  new.tallies q,
                  ok.unique q,
                  tally_congr d.ht0 q,
                  tally_congr d.ht1 q,
                  none_first,
                  none_second,
                );
                phase = rw e (tt, (rw e at ok.phase).1);
              };
              lookups = λ q. ground (arith, new.views q);
              grows = omega arith;
              small = λ s. s;
            },
          )

      pub linked : Linked
      linked = elim (Bool-cases (is_rehashing d)) [
        | inl busy ↦ link_second busy
        | inr idle ↦ link_first idle
      ]

  module _ (can_resize : Bool) (d : Dict K V) (k : K) (v : V) (ok : IsDict d) (small : IsSmall d)
      (room : size d < 2 ^ 29) where
    prepared : Ready can_resize (stepped d ok small).0
    prepared = ready can_resize (stepped d ok small).0 (stepped d ok small).2.valid

    prepared-Keeps : Keeps d prepared.d'
    prepared-Keeps =
        Keeps-trans d (stepped d ok small).0 prepared.d' (stepped d ok small).2 prepared.keeps

    prepared-IsSmall : IsSmall prepared.d'
    prepared-IsSmall =
        prepared.small (omega (arith, (stepped d ok small).2.size)) (stepped d ok small).3

    -- A new key is added: `dictAdd` answers DICT_OK, the key is looked up to the value, every other
    -- key as before, and the size is one more.
    pub add-absent :
        lookup d k ≡ none
        → (d' : Dict K V) × (add can_resize d k v ≡ some (true, d')) × Adds d k v d'
    unfolding add
    add-absent h =
        let p = prepared in
        let absent = prepared-Keeps.same k ∙ h in
        let (d', run, adds) = linked p.d' k p.keeps.valid p.table v absent in
        (
          d',
          rw (
            (stepped d ok small).1,
            p.run,
            probe_free p.d' k p.keeps.valid p.table prepared-IsSmall absent,
            run,
          ),
          record {
            valid = adds.valid;
            lookups = λ q.
                adds.lookups q
                ∙ ap (λ x. if type.compare q k then some v else x) (prepared-Keeps.same q);
            grows = omega (arith, adds.grows, prepared-Keeps.size);
            small = λ s. adds.small prepared-IsSmall;
          },
        )

    -- A key that is there is not added: `dictAdd` answers DICT_ERR and the map is kept.
    pub add-present :
        (w : V)
        → lookup d k ≡ some w
        → (d' : Dict K V) × (add can_resize d k v ≡ some (false, d'))
          × Keeps d d'
          × (0 < d'.ht0.size)
          × IsSmall d'
    unfolding add
    add-present w h =
        let p = prepared in
        (
          p.d',
          rw (
            (stepped d ok small).1,
            p.run,
            probe_found p.d' k p.keeps.valid p.table w (prepared-Keeps.same k ∙ h),
          ),
          prepared-Keeps,
          p.table,
          prepared-IsSmall,
        )
