-- ===== src/Dict/Delete.antt =====
-- `dictDelete` and `dictDeleteNoFree` (redis/src/dict.c).
use coffee_table.Prelude.{
  ◌+◌, ap, is_some, not, ◌∙◌, Bool, true, false, ◌<◌, is_some, total-set, ◌+◌, ◌≤◌, ◌<◌, ◌≡◌, ap,
  ◌∙◌, Bool, true, false, Option, none, not, ◌==◌, ◌>>=◌, some, [], arith, if◌then◌else◌, inl, inr,
  Bool-cases,
}
use coffee_table.Dict.{Dictht, Dict, is_rehashing, slot, dec_used}
use coffee_table.Dict.Access.{size, delete, delete_from}
use coffee_table.Dict.Bucket.{KeyType, contains, entries, unlink}
use coffee_table.Dict.Bucket.Laws.{
  find_of_contains, contains-find, entries-of_contains, find-unlink, entries-unlink,
  entries-unlink-le, length-unlink,
}
use coffee_table.Dict.Table.{IsTable, bucket, slot-lt, home, tally, get_home, write_home}
use coffee_table.Dict.Moves.{dec_used_pos}
use coffee_table.Dict.Invariant.{IsDict, IsSmall, lookup}
use coffee_table.Dict.Steps.{stepped}
use coffee_table.Dict.Probe.{idle_view, second_pos, first_view_none}
use coffee_table.Dict.Change.{Changed, Fits, change_first, change_second}
use coffee_table.Dict.Fetch.{no_tables}

module _ {ℓ} {K V : Type ℓ} ⦃type : KeyType K⦄ where
  -- What `dictDelete` answers and leaves: the key is gone, with one entry less if it was there.
  pub record Deleted (d : Dict K V) (k : K) : Type ℓ where
    pub gone : Bool
    pub d' : Dict K V
    pub run : delete d k ≡ some (gone, d')
    pub change : Changed d k none d'
    pub answer : gone ≡ is_some (lookup d k)
    pub sized : size d' + (if gone then 1 else 0) ≡ size d

  module _ (t : Dictht K V) (k : K) (ok : IsTable t) (pos : 0 < t.size) where
    delete_from_absent : contains k (home t k) ≡ false → delete_from t k ≡ some (false, t)
    unfolding delete_from
    delete_from_absent h = rw (get_home t k ok pos, h)

    delete_from_here :
        contains k (home t k) ≡ true
        → delete_from t k ≡ some (true, write_home t k (unlink k (home t k)) (dec_used t.used))
    unfolding delete_from
    delete_from_here h = rw (get_home t k ok pos, h)

    used_pos : contains k (home t k) ≡ true → 0 < t.used
    used_pos h = omega (
      arith,
      total-set t.table (slot t k) [] (slot-lt t k ok pos),
      length-unlink k (home t k) h,
      ok.counted,
    )

    home-le : ((q : K) → tally t q ≤ 1) → (q : K) → entries q (home t k) ≤ 1
    home-le few q = elim (Bool-cases (slot t k == slot t q)) [
      | inl same ↦
          rw (ap (λ i. entries q (bucket t i)) {x = slot t k} {y = slot t q} (ground arith)) (few q)
      | inr other ↦ omega (arith, ok.placed q (slot t k) (ground arith))
    ]

    unlink-Fits :
        contains k (home t k) ≡ true
        → ((q : K) → tally t q ≤ 1)
        → Fits t k none (unlink k (home t k)) (dec_used t.used)
    unlink-Fits h few = record {
      others = λ q other. entries-unlink k q (home t k) other;
      few = λ q. entries-unlink-le k q (home t k);
      reads = λ q. find-unlink k q (home t k) (home-le few q);
      counted = omega (arith, length-unlink k (home t k) h, dec_used_pos t.used (used_pos h));
    }

  module _ (d : Dict K V) (k : K) (ok : IsDict d) (pos : 0 < d.ht0.size) where
    found_first : contains k (home d.ht0 k) ≡ true → (w : V) × (lookup d k ≡ some w)
    unfolding lookup
    found_first h = let (w, e) = find_of_contains k (home d.ht0 k) h in (w, rw e)

    -- the deletion of an entry of the first table, and of the second
    erase_first :
        contains k (home d.ht0 k) ≡ true
        → Changed d k none
            (record d { ht0 = write_home d.ht0 k (unlink k (home d.ht0 k)) (dec_used d.ht0.used) })
    erase_first h =
        change_first d k none (unlink k (home d.ht0 k)) (dec_used d.ht0.used) ok pos
          (unlink-Fits d.ht0 k ok.first pos h (λ q. omega (arith, ok.unique q)))
          (entries-of_contains k (home d.ht0 k) h)

    erase_second :
        (pos1 : 0 < d.ht1.size)
        → contains k (home d.ht0 k) ≡ false
        → contains k (home d.ht1 k) ≡ true
        → Changed d k none
            (record d { ht1 = write_home d.ht1 k (unlink k (home d.ht1 k)) (dec_used d.ht1.used) })
    erase_second pos1 absent h =
        change_second d k none (unlink k (home d.ht1 k)) (dec_used d.ht1.used) ok pos pos1
          (unlink-Fits d.ht1 k ok.second pos1 h (λ q. omega (arith, ok.unique q)))
          (contains-find k (home d.ht0 k) absent).0

  -- a key that is not there
  unchanged : (d : Dict K V) (k : K) → IsDict d → lookup d k ≡ none → Changed d k none d
  unchanged d k ok h = record {
    small = λ s. s;
    valid = ok;
    lookups = λ q. elim (Bool-cases (type.compare q k)) [
      | inl same ↦ rw (same, ap (lookup d) ((type.compare_iff q k).0 same)) h
      | inr other ↦ rw other
    ];
  }

  -- The part of `dictGenericDelete` behind the rehashing step.
  abbrev delete_stepped : Dict K V → K → Option (Bool × Dict K V)
  delete_stepped d k = do
    (gone, t0) ← delete_from d.ht0 k
    if gone
        then some (true, record d { ht0 = t0 })
        else if not (is_rehashing d)
        then some (false, d)
        else (do (gone1, t1) ← delete_from d.ht1 k; some (gone1, record d { ht1 = t1 }))

  record Erased (d : Dict K V) (k : K) : Type ℓ where
    gone : Bool
    d' : Dict K V
    run : delete_stepped d k ≡ some (gone, d')
    change : Changed d k none d'
    answer : gone ≡ is_some (lookup d k)
    sized : size d' + (if gone then 1 else 0) ≡ size d

  module _ (d : Dict K V) (k : K) (ok : IsDict d) (pos : 0 < d.ht0.size) where
    Erased-first : contains k (home d.ht0 k) ≡ true → Erased d k
    Erased-first h = record {
      gone = true;
      d' = record d { ht0 = write_home d.ht0 k (unlink k (home d.ht0 k)) (dec_used d.ht0.used) };
      run = rw (delete_from_here d.ht0 k ok.first pos h);
      change = erase_first d k ok pos h;
      answer = let (w, e) = found_first d k ok pos h in rw e;
      sized = omega (arith, dec_used_pos d.ht0.used (used_pos d.ht0 k ok.first pos h));
    }

    Erased-none : lookup d k ≡ none → delete_stepped d k ≡ some (false, d) → Erased d k
    Erased-none h e = record {
      gone = false;
      d' = d;
      run = e;
      change = unchanged d k ok h;
      answer = rw h;
      sized = omega arith;
    }

    Erased-second : is_rehashing d ≡ true → contains k (home d.ht0 k) ≡ false → Erased d k
    Erased-second busy absent =
        let pos1 = second_pos d k ok pos busy in
        let second = first_view_none d k ok pos absent in
        elim (Bool-cases (contains k (home d.ht1 k))) [
          | inl h ↦ record {
            gone = true;
            d' = record d {
              ht1 = write_home d.ht1 k (unlink k (home d.ht1 k)) (dec_used d.ht1.used);
            };
            run = rw (
              delete_from_absent d.ht0 k ok.first pos absent,
              busy,
              delete_from_here d.ht1 k ok.second pos1 h,
            );
            change = erase_second d k ok pos pos1 absent h;
            answer = let (w, e) = find_of_contains k (home d.ht1 k) h in rw (second ∙ e);
            sized = omega (arith, dec_used_pos d.ht1.used (used_pos d.ht1 k ok.second pos1 h));
          }
          | inr none_there ↦ Erased-none (second ∙ (contains-find k (home d.ht1 k) none_there).0) (
              rw (
                delete_from_absent d.ht0 k ok.first pos absent,
                busy,
                delete_from_absent d.ht1 k ok.second pos1 none_there,
              ))
        ]

    erased : Erased d k
    erased = elim (Bool-cases (contains k (home d.ht0 k))) [
      | inl h ↦ Erased-first h
      | inr absent ↦ elim (Bool-cases (is_rehashing d)) [
        | inl busy ↦ Erased-second busy absent
        | inr idle ↦
            Erased-none (first_view_none d k ok pos absent ∙ (idle_view d k ok pos idle k).0)
              (rw (delete_from_absent d.ht0 k ok.first pos absent, idle))
      ]
    ]

  pub deleted : (d : Dict K V) (k : K) → IsDict d → IsSmall d → Deleted d k
  unfolding delete
  deleted d k ok small = elim (Bool-cases (d.ht0.size == 0)) [
    | inl empty ↦
        let absent = no_tables d k ok (ground arith) in
        record {
          gone = false;
          d' = d;
          run = rw empty;
          change = unchanged d k ok absent;
          answer = rw absent;
          sized = omega arith;
        }
    | inr there ↦
        let (d1, run, keeps, small1) = stepped d ok small in
        let e = erased d1 k keeps.valid (keeps.table (ground arith)) in
        record {
          gone = e.gone;
          d' = e.d';
          run = rw (there, run) e.run;
          change = record {
            valid = e.change.valid;
            small = λ s. e.change.small small1;
            lookups = λ q.
                e.change.lookups q ∙ ap (λ x. if type.compare q k then none else x) (keeps.same q);
          };
          answer = rw (← keeps.same k) e.answer;
          sized = omega (arith, e.sized, keeps.size);
        }
  ]

  -- `dictDelete` on a valid dictionary, whose tables have fewer than 2 ^ 31 buckets, answers DICT_OK exactly for a key that is there, leaves a valid
  -- dictionary without the key, maps every other key as before, and counts one entry less if it
  -- deleted one.
  pub delete_lem :
      (d : Dict K V) (k : K)
      → IsDict d
      → IsSmall d
      → (d' : Dict K V) × (delete d k ≡ some (is_some (lookup d k), d'))
        × Changed d k none d'
        × (size d' + (if is_some (lookup d k) then 1 else 0) ≡ size d)
  delete_lem d k ok small =
      let r = deleted d k ok small in
      (r.d', r.run ∙ ap (λ b. some (b, r.d')) r.answer, r.change, rw (← r.answer) r.sized)
