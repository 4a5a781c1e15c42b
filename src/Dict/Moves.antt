-- ===== src/Dict/Moves.antt =====
-- The inner loop of `dictRehash` (redis/src/dict.c): it moves the entries of one bucket to the other
-- table, and neither loses nor changes any.
use coffee_table.Prelude.{
  ℕ, zero, suc, ◌+◌, ◌-◌, ◌≤◌, ◌<◌, ◌≡◌, refl, ap, ◌∙◌, false, some, [], ◌∷◌, arith, length,
  if◌then◌else◌, or_else,
}
use coffee_table.Dict.{Dictht, slot, dec_used, push_entry, move_chain}
use coffee_table.Dict.Bucket.{Chain, KeyType, find, entries}
use coffee_table.Dict.Bucket.Laws.{find_absent}
use coffee_table.Dict.Table.{
  IsTable, slot_congr, home, view, tally, write_home, get_home, write_home-IsTable,
  tally-write_home, view-write_home,
}

pub dec_used_pos : (n : ℕ) → 0 < n → dec_used n + 1 ≡ n
dec_used_pos zero h = absurd (omega arith)
dec_used_pos (suc n) h = omega arith

module _ {ℓ} {K V : Type ℓ} ⦃type : KeyType K⦄ where
  pub push_entry-home :
      (t : Dictht K V) (k : K) (v : V)
      → IsTable t
      → 0 < t.size
      → push_entry t (slot t k) (k, v) ≡ some (write_home t k ((k, v) ∷ home t k) (t.used + 1))
  unfolding push_entry
  push_entry-home t k v ok h = rw (get_home t k ok h)

  -- the table with the entry in front of its bucket
  pub record Pushed (t : Dictht K V) (k : K) (v : V) (t' : Dictht K V) : Type ℓ where
    pub ok : IsTable t'
    pub size : t'.size ≡ t.size
    pub used : t'.used ≡ t.used + 1
    pub tallies : (q : K) → tally t' q ≡ (if type.compare q k then tally t q + 1 else tally t q)
    pub views : (q : K) → view t' q ≡ (if type.compare q k then some v else view t q)

  module _ (t : Dictht K V) (k : K) (v : V) (ok : IsTable t) (pos : 0 < t.size) where
    pushed_others :
        (q : K) → type.compare q k ≡ false → entries q ((k, v) ∷ home t k) ≡ entries q (home t k)
    unfolding entries
    pushed_others q h = ground arith

    pub pushed : Pushed t k v (write_home t k ((k, v) ∷ home t k) (t.used + 1))
    unfolding entries find
    pushed = record {
      ok = write_home-IsTable t ok pos k _ _ pushed_others (omega arith);
      size = refl;
      used = refl;
      tallies = λ q.
          tally-write_home t ok pos k ((k, v) ∷ home t k) (t.used + 1) pushed_others q
          ∙ ground (arith, slot_congr t q k);
      views = view-write_home t ok pos k _ (t.used + 1) pushed_others (some v) (λ q. refl);
    }

  -- What the inner loop of `dictRehash` makes of the two tables: the entries of `c` have come over.
  pub record Moved (c : Chain K V) (t0 t1 : Dictht K V) : Type ℓ where
    pub t1' : Dictht K V
    pub run : move_chain c t0 t1 ≡ some (record t0 { used = t0.used - length c }, t1')
    pub ok : IsTable t1'
    pub size : t1'.size ≡ t1.size
    pub used : t1'.used ≡ t1.used + length c
    pub tallies : (q : K) → tally t1' q ≡ entries q c + tally t1 q
    pub views : (q : K) → view t1' q ≡ or_else (find q c) (view t1 q)

  pub moved :
      (c : Chain K V) (t0 t1 : Dictht K V)
      → IsTable t1
      → 0 < t1.size
      → length c ≤ t0.used
      → ((q : K) → entries q c ≤ 1)
      → Moved c t0 t1
  unfolding move_chain entries find
  moved [] t0 t1 ok pos fits few = record {
    t1' = t1;
    run = ap (λ (n : ℕ). some (record t0 { used = n }, t1)) (omega arith);
    ok = ok;
    size = refl;
    used = omega arith;
    tallies = λ q. omega arith;
    views = λ q. refl;
  }
  moved ((k, v) ∷ c) t0 t1 ok pos fits few =
      let head = pushed t1 k v ok pos in
      let t0' : Dictht K V = record t0 { used = dec_used t0.used } in
      let t1'' : Dictht K V = write_home t1 k ((k, v) ∷ home t1 k) (t1.used + 1) in
      let rest =
        moved c t0' t1'' head.ok (omega (arith, head.size)) (omega (arith, dec_used_pos t0.used))
          (λ q. omega (arith, few q)) in
      record {
        t1' = rest.t1';
        run = rw (push_entry-home t1 k v ok pos) (
            rest.run
            ∙ ap (λ (n : ℕ). some (record t0 { used = n }, rest.t1'))
                (omega (arith, dec_used_pos t0.used)));
        ok = rest.ok;
        size = rest.size ∙ head.size;
        used = omega (arith, rest.used, head.used);
        tallies = λ q. ground (arith, rest.tallies q, head.tallies q);
        views = λ q. rest.views q ∙ ground (arith, head.views q, few q, find_absent q c);
      }
