-- ===== src/Dict/Expand.antt =====
-- Growing a table (`_dictNextPower`, `dictExpand`, `_dictExpandIfNeeded` of redis/src/dict.c).
use native.Mathlib.Nat.{pow-suc}
use coffee_table.Prelude.{
  ℕ, zero, suc, ◌*◌, ◌^◌, ◌≤◌, ◌<◌, ◌≡◌, ◌⊎◌, refl, ap, Bool, true, false, none, some, List, [],
  ◌∷◌, arith, length, inl, inr, Bool-cases, Option-cases, ◌||◌, ◌==◌, ltb, leb, not,
}
use coffee_table.Dict.{
  Dict, is_rehashing, is_null, fresh_table, next_power_loop, next_power, expand, initial_size,
  long_max, minimal_of,
}
use coffee_table.Dict.Bucket.{KeyType}
use coffee_table.Dict.Table.{fresh_table-IsTable, fresh_table_empty}
use coffee_table.Dict.Invariant.{IsDict, IsSmall, lookup, no_table}
use coffee_table.Dict.Rehash.{Keeps}
use coffee_table.Dict.Steps.{Keeps-refl}

-- `p` is the first of the numbers start, 2 * start, 4 * start, ... that is not below `size`.
abbrev pub IsNextPower : ℕ → ℕ → ℕ → Type 0
IsNextPower start size p =
    (size ≤ p) × (start ≤ p) × ((p ≡ start) ⊎ (p < 2 * size)) × ((k : ℕ) × (p ≡ start * 2 ^ k))

leb_of_le : (a b : ℕ) → a ≤ b → leb a b ≡ true
leb_of_le a b h = ground arith

next_power_loop_lem :
    (fuel start size : ℕ)
    → 0 < start
    → size ≤ start * 2 ^ fuel
    → (p : ℕ) × (next_power_loop (suc fuel) start size ≡ some p) × IsNextPower start size p
unfolding next_power_loop
next_power_loop_lem zero start size pos h = (
  start,
  rw (leb_of_le size start (omega arith)),
  (omega arith, omega arith, inl refl, (0, omega arith)),
)
next_power_loop_lem (suc f) start size pos h = elim (Bool-cases (leb size start)) [
  | inl fits ↦ (start, rw fits, (ground arith, omega arith, inl refl, (0, omega arith)))
  | inr small ↦
      let (p, run, (ge, up, tight, (k, e))) =
        next_power_loop_lem f (start * 2) size (omega arith)
          (omega (arith, ap (λ (n : ℕ). start * n) (pow-suc 2 f))) in
      (
        p,
        rw small run,
        (
          ge,
          omega arith,
          doubled tight (ground arith),
          (suc k, omega (arith, e, ap (λ (n : ℕ). start * n) (pow-suc 2 k))),
        ),
      )
]
  where
    doubled :
        {p : ℕ} → (p ≡ start * 2) ⊎ (p < 2 * size) → start < size → (p ≡ start) ⊎ (p < 2 * size)
    doubled t lt = inr (omega arith)

-- For an argument below LONG_MAX `_dictNextPower` answers the first power of two from 4 on that is not
-- below it.
pub next_power_lem :
    (size : ℕ)
    → size < long_max
    → (p : ℕ) × (next_power size ≡ some p) × IsNextPower initial_size size p
unfolding next_power
next_power_lem size h =
    let (p, run, rest) = next_power_loop_lem 61 initial_size size (omega arith) (omega arith) in
    (p, rw (below size h) run, rest)
  where
    below : (n : ℕ) → n < long_max → leb long_max n ≡ false
    below n lt = ground arith

pub next_power-some :
    (size : ℕ) → (p : ℕ) × (next_power size ≡ some p) × (0 < p) × (size < 2 ^ 30 → p < 2 ^ 31)
next_power-some size = elim (Bool-cases (leb long_max size)) [
  | inl big ↦ (long_max, unfold next_power in rw big, omega arith, λ h. absurd (ground arith))
  | inr small ↦
      let (p, run, (ge, up, tight, rest)) = next_power_lem size (ground arith) in
      (p, run, omega arith, λ h. omega arith)
]

pub minimal-lt : (used : ℕ) → used < 2 ^ 29 → minimal_of used < 2 ^ 30
minimal-lt used h = ground arith

module _ {ℓ} {K V : Type ℓ} ⦃type : KeyType K⦄ where
  -- The first table given to a dictionary that has none.
  first_table-Keeps :
      (d : Dict K V) (p : ℕ)
      → IsDict d
      → d.rehashidx ≡ none
      → d.ht0.size ≡ 0
      → Keeps d (record d { ht0 = fresh_table p })
  unfolding lookup
  first_table-Keeps d p ok e h =
      let idle : d.ht1.size ≡ 0 = (rw e at ok.phase).1 in
      let (unused, no_view, no_tally) = no_table d.ht0 ok.first h in
      record {
        valid = record {
          first = fresh_table-IsTable p;
          second = ok.second;
          unique = λ q. omega (arith, (fresh_table_empty {V = V} p q).1, ok.unique q);
          phase = rw e (tt, idle);
        };
        same = λ q. rw ((fresh_table_empty {V = V} p q).0, no_view q);
        size = omega arith;
        iterators = refl;
        table = λ pos. absurd (omega arith);
      }

  -- The second table given to a dictionary that rehashes into it from now on.
  second_table-Keeps :
      (d : Dict K V) (p : ℕ)
      → IsDict d
      → d.rehashidx ≡ none
      → 0 < d.ht0.size
      → 0 < p
      → Keeps d (record d { ht1 = fresh_table p; rehashidx = some 0 })
  unfolding lookup
  second_table-Keeps d p ok e h pos =
      let idle : d.ht1.size ≡ 0 = (rw e at ok.phase).1 in
      let (unused, no_view, no_tally) = no_table d.ht1 ok.second idle in
      record {
        valid = record {
          first = ok.first;
          second = fresh_table-IsTable p;
          unique = λ q. omega (arith, (fresh_table_empty {V = V} p q).1, ok.unique q);
          phase = (tt, h, pos, λ i q. absurd (omega arith), omega arith);
        };
        same = λ q. rw ((fresh_table_empty {V = V} p q).0, no_view q);
        size = omega arith;
        iterators = refl;
        table = λ q. q;
      }

  -- `dictExpand` keeps the map. It succeeds unless the dictionary is rehashing already, or holds more
  -- entries than asked for, and then there is a table.
  pub record Expanded (d : Dict K V) (n : ℕ) : Type ℓ where
    pub done : Bool
    pub d' : Dict K V
    pub run : expand d n ≡ some (done, d')
    pub keeps : Keeps d d'
    pub refused : done ≡ (not (is_rehashing d || ltb n d.ht0.used))
    pub table : done ≡ true → 0 < d'.ht0.size
    pub small : n < 2 ^ 30 → IsSmall d → IsSmall d'

  null_iff : (t : List (List (K × V))) → is_null t ≡ (length t == 0)
  null_iff [] = refl
  null_iff (c ∷ t) = ground arith

  pub idle_of : (d : Dict K V) → is_rehashing d ≡ false → d.rehashidx ≡ none
  idle_of d h = elim (Option-cases d.rehashidx) [
    | inl e ↦ e
    | inr (r, e) ↦ absurd (ground (arith, e))
  ]

  module _ (d : Dict K V) (n : ℕ) (ok : IsDict d) where
    power : (p : ℕ) × (next_power n ≡ some p) × (0 < p) × (n < 2 ^ 30 → p < 2 ^ 31)
    power = next_power-some n

    Expanded-full : is_rehashing d || ltb n d.ht0.used ≡ true → Expanded d n
    unfolding expand
    Expanded-full full = record {
      done = false;
      d' = d;
      run = rw (power.1, full);
      keeps = Keeps-refl d ok;
      refused = rw full;
      table = λ e. cc;
      small = λ h s. s;
    }

    module _ (idle : d.rehashidx ≡ none) (room : is_rehashing d || ltb n d.ht0.used ≡ false) where
      Expanded-first : is_null d.ht0.table ≡ true → Expanded d n
      unfolding expand
      Expanded-first null = record {
        done = true;
        d' = record d { ht0 = fresh_table power.0 };
        run = rw (power.1, room, null);
        keeps =
            first_table-Keeps d power.0 ok idle
              (ground (arith, null_iff d.ht0.table, ok.first.width));
        refused = rw room;
        table = λ e. power.2;
        small = λ h s. (power.3 h, s.1);
      }

      Expanded-second : is_null d.ht0.table ≡ false → Expanded d n
      unfolding expand
      Expanded-second not_null =
          let pos : 0 < d.ht0.size = ground (arith, null_iff d.ht0.table, ok.first.width) in
          record {
            done = true;
            d' = record d { ht1 = fresh_table power.0; rehashidx = some 0 };
            run = rw (power.1, room, not_null);
            keeps = second_table-Keeps d power.0 ok idle pos power.2;
            refused = rw room;
            table = λ e. pos;
            small = λ h s. (s.0, power.3 h);
          }

    pub expanded : Expanded d n
    expanded = elim (Bool-cases (is_rehashing d || ltb n d.ht0.used)) [
      | inl full ↦ Expanded-full full
      | inr room ↦ elim (Bool-cases (is_null d.ht0.table)) [
        | inl null ↦ Expanded-first (idle_of d (ground arith)) room null
        | inr not_null ↦ Expanded-second (idle_of d (ground arith)) room not_null
      ]
    ]
