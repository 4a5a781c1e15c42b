-- ===== src/Dict/Steps.antt =====
-- `dictRehash` and `_dictRehashStep` (redis/src/dict.c) run to their end on every valid dictionary.
use coffee_table.Prelude.{
  ◌+◌, ◌∙◌, Bool, true, false, ◌<◌, Option-cases, ◌&&◌, zero, suc, ℕ, ◌+◌, ◌<◌, ◌≡◌, refl, ◌∙◌,
  Bool, true, false, none, some, [], arith, drop, inl, inr, Bool-cases, ◌==◌, get_elem?-eq-get_or,
  ltb, leb, ◌^◌,
}
use coffee_table.Dict.{is_rehashing, rehash_loop, rehash_step, Dict, rehash_bucket, rehash}
use coffee_table.Dict.Bucket.{KeyType}
use coffee_table.Dict.Scan.{Scanned, scanned, total-drop}
use coffee_table.Dict.Invariant.{IsDict, IsPhase, IsSmall}
use coffee_table.Dict.Rehash.{
  Keeps, finished, finished-Keeps, after, cleared, after-Keeps, migrated, index-lt,
}

module _ {ℓ} {K V : Type ℓ} ⦃type : KeyType K⦄ where
  pub Keeps-refl : (d : Dict K V) → IsDict d → Keeps d d
  Keeps-refl d ok = record {
    valid = ok;
    same = λ q. refl;
    size = refl;
    iterators = refl;
    table = λ p. p;
  }

  pub Keeps-trans : (a b c : Dict K V) → Keeps a b → Keeps b c → Keeps a c
  Keeps-trans a b c p q = record {
    valid = q.valid;
    same = λ k. q.same k ∙ p.same k;
    size = q.size ∙ p.size;
    iterators = q.iterators ∙ p.iterators;
    table = λ h. q.table (p.table h);
  }

  -- One round of the loop. A round that goes on has passed a bucket.
  pub record Round (d : Dict K V) (r : ℕ) : Type ℓ where
    pub more : Bool
    pub d' : Dict K V
    pub run : rehash_bucket r d ≡ some (more, d')
    pub keeps : Keeps d d'
    pub small : IsSmall d'
    pub done : more ≡ false → d'.rehashidx ≡ none
    pub passed :
        more ≡ true → (r' : ℕ) × (d'.rehashidx ≡ some r') × (r < r') × (d'.ht0.size ≡ d.ht0.size)

  module _ (d : Dict K V) (r : ℕ) (ok : IsDict d) (phase : IsPhase d.ht0 d.ht1 (some r))
      (small : IsSmall d) where
    last-Round : d.ht0.used ≡ 0 → Round d r
    unfolding rehash_bucket
    last-Round h = record {
      more = false;
      d' = finished d;
      run = unfold finished in rw h;
      keeps = finished-Keeps d r ok phase h;
      small = unfold finished in (small.1, omega arith);
      done = λ _. unfold finished in refl;
      passed = λ e. cc;
    }

    moving-Round : 0 < d.ht0.used → Scanned (drop r d.ht0.table) r → Round d r
    unfolding rehash_bucket after cleared
    moving-Round h s =
        let lt = index-lt d r ok phase s in
        let some_left : (d.ht0.used == 0) ≡ false = ground arith in
        let inside : ltb r d.ht0.size ≡ true = ground (arith, ok.first.width) in
        let short : leb (2 ^ 31) (r + s.skipped + 1) ≡ false =
          ground (arith, lt, ok.first.width, small.0) in
        record {
          more = true;
          d' = after d r ok phase s;
          run = rw (
            some_left,
            inside,
            s.run,
            get_elem?-eq-get_or d.ht0.table (r + s.skipped) [] lt,
            (migrated d r ok phase s).run,
            short,
          );
          keeps = after-Keeps d r ok phase s;
          small = (small.0, omega (arith, small.1, (migrated d r ok phase s).size));
          done = λ e. cc;
          passed = λ _. (r + s.skipped + 1, refl, omega arith, refl);
        }

    pub round : Round d r
    round = elim (Bool-cases (d.ht0.used == 0)) [
      | inl all_moved ↦ last-Round (ground arith)
      | inr some_left ↦ moving-Round (ground arith) (
          scanned (drop r d.ht0.table) r
            (ground (arith, ok.first.counted, total-drop r d.ht0.table phase.3)))
    ]

  -- Any number of rounds.
  pub record Rehashed (n : ℕ) (d : Dict K V) : Type ℓ where
    pub more : Bool
    pub d' : Dict K V
    pub run : rehash n d ≡ some (more, d')
    pub keeps : Keeps d d'
    pub small : IsSmall d'
    pub done : more ≡ false → d'.rehashidx ≡ none
    pub enough : d.ht0.size < n → more ≡ false

  module _ (n : ℕ) (d : Dict K V) where
    -- the loop, started at bucket `r`
    record Looped (r : ℕ) : Type ℓ where
      more : Bool
      d' : Dict K V
      run : rehash_loop n d ≡ some (more, d')
      keeps : Keeps d d'
      small : IsSmall d'
      done : more ≡ false → d'.rehashidx ≡ none
      enough : d.ht0.size < r + n → more ≡ false

  IsPhase-at :
      (d : Dict K V) (r : ℕ) → IsDict d → d.rehashidx ≡ some r → IsPhase d.ht0 d.ht1 (some r)
  IsPhase-at d r ok e = rw e at ok.phase

  module _ (n : ℕ) (d : Dict K V) (r : ℕ) (e : d.rehashidx ≡ some r) where
    stop_loop : (s : Round d r) → s.more ≡ false → Looped (suc n) d r
    unfolding rehash_loop
    stop_loop s h = record {
      more = false;
      d' = s.d';
      run = rw (e, s.run, h);
      keeps = s.keeps;
      small = s.small;
      done = λ _. s.done h;
      enough = λ _. refl;
    }

    continue_loop :
        (s : Round d r)
        → s.more ≡ true
        → (r' : ℕ) → r < r'
        → s.d'.ht0.size ≡ d.ht0.size
        → Looped n s.d' r'
        → Looped (suc n) d r
    unfolding rehash_loop
    continue_loop s h r' up same t = record {
      more = t.more;
      d' = t.d';
      run = rw (e, s.run, h) t.run;
      keeps = Keeps-trans d s.d' t.d' s.keeps t.keeps;
      small = t.small;
      done = t.done;
      enough = λ p. t.enough (omega arith);
    }

  looped :
      (n : ℕ) (d : Dict K V) (r : ℕ) → d.rehashidx ≡ some r → IsDict d → IsSmall d → Looped n d r
  unfolding rehash_loop
  looped zero d r e ok small = record {
    more = true;
    d' = d;
    run = refl;
    keeps = Keeps-refl d ok;
    small = small;
    done = λ h. cc;
    enough = λ p. absurd (omega (arith, (IsPhase-at d r ok e).4));
  }
  looped (suc n) d r e ok small =
      let s = round d r ok (IsPhase-at d r ok e) small in
      elim (Bool-cases s.more) [
        | inl h ↦
            let (r', e', up, same) = s.passed h in
            continue_loop n d r e s h r' up same (looped n s.d' r' e' s.keeps.valid s.small)
        | inr h ↦ stop_loop n d r e s h
      ]

  rehashing_of : (d : Dict K V) (r : ℕ) → d.rehashidx ≡ some r → is_rehashing d ≡ true
  rehashing_of d r e = rw e

  -- `dictRehash` on a valid dictionary with such tables runs to its end, keeps the map, and answers 0 only when the
  -- rehashing is over; more rounds than the first table has buckets finish it.
  pub rehashed : (n : ℕ) (d : Dict K V) → IsDict d → IsSmall d → Rehashed n d
  unfolding rehash
  rehashed n d ok small = elim (Option-cases d.rehashidx) [
    | inl e ↦ record {
      more = false;
      d' = d;
      run = rw e;
      keeps = Keeps-refl d ok;
      small = small;
      done = λ _. e;
      enough = λ _. refl;
    }
    | inr (r, e) ↦
        let t = looped n d r e ok small in
        record {
          more = t.more;
          d' = t.d';
          run = rw (rehashing_of d r e) t.run;
          keeps = t.keeps;
          small = t.small;
          done = t.done;
          enough = λ p. t.enough (omega arith);
        }
  ]

  -- `_dictRehashStep` keeps the map.
  pub stepped :
      (d : Dict K V)
      → IsDict d
      → IsSmall d
      → (d' : Dict K V) × (rehash_step d ≡ some d') × Keeps d d' × IsSmall d'
  unfolding rehash_step
  stepped d ok small =
      let t = rehashed 1 d ok small in
      elim (Bool-cases (is_rehashing d && d.iterators == 0)) [
        | inl h ↦ (t.d', rw (h, t.run), t.keeps, t.small)
        | inr h ↦ (d, rw h, Keeps-refl d ok, small)
      ]

  -- `dictRehash` with any number of rounds on a valid dictionary whose tables have fewer than 2 ^ 31
  -- buckets runs to its end, and leaves such a dictionary with the same map and the same number of
  -- entries. When it answers 0 no rehashing is in
  -- progress, and it does so whenever it is given more rounds than the first table has buckets.
  pub rehash-keeps :
      (n : ℕ) (d : Dict K V)
      → IsDict d
      → IsSmall d
      → (more : Bool) × (d' : Dict K V) × (rehash n d ≡ some (more, d'))
        × Keeps d d'
        × (more ≡ false → d'.rehashidx ≡ none)
        × (d.ht0.size < n → more ≡ false)
        × IsSmall d'
  rehash-keeps n d ok small =
      let r = rehashed n d ok small in (r.more, r.d', r.run, r.keeps, r.done, r.enough, r.small)
