-- ===== src/Dict/Change.antt =====
-- A write to the bucket of a key in one of the tables of a dictionary (redis/src/dict.c).
use coffee_table.Prelude.{
  or_else-none, get_or-set, ◌==◌, ℕ, ◌+◌, ◌≤◌, ◌<◌, ◌≡◌, refl, ap, ◌∙◌, true, false, Option, none,
  some, List, [], ◌∷◌, arith, length, if◌then◌else◌, inl, inr, Bool-cases, get_or,
}
use coffee_table.Dict.{Dictht, Dict, slot}
use coffee_table.Dict.Bucket.{Chain, KeyType, find, entries}
use coffee_table.Dict.Bucket.Laws.{find_absent}
use coffee_table.Dict.Table.{
  slot-lt, bucket, IsTable, home, view, tally, write_home, write_home-IsTable, tally-write_home,
  view-write_home,
}
use coffee_table.Dict.Invariant.{IsDict, IsSmall, IsPhase, lookup}

module _ {ℓ} {K V : Type ℓ} ⦃type : KeyType K⦄ where
  -- `d'` maps `k` to `x` and every other key as `d` does.
  pub record Changed (d : Dict K V) (k : K) (x : Option V) (d' : Dict K V) : Type ℓ where
    pub valid : IsDict d'
    pub lookups : (q : K) → lookup d' q ≡ (if type.compare q k then x else lookup d q)
    pub small : IsSmall d → IsSmall d'

  -- A chain that may take the place of the bucket of `k`: it maps `k` to `x`, and differs in no other key.
  pub record Fits (t : Dictht K V) (k : K) (x : Option V) (c : Chain K V) (used : ℕ) : Type ℓ where
    pub others : (q : K) → type.compare q k ≡ false → entries q c ≡ entries q (home t k)
    pub few : (q : K) → entries q c ≤ entries q (home t k)
    pub reads : (q : K) → find q c ≡ (if type.compare q k then x else find q (home t k))
    pub counted : used + length (home t k) ≡ t.used + length c

  entries-nil : (q : K) (c : Chain K V) → c ≡ [] → entries q c ≡ 0
  unfolding entries
  entries-nil q [] h = refl
  entries-nil q (e ∷ c) h = cc

  IsPhase-second :
      (t0 t1 t1' : Dictht K V) (r : Option ℕ)
      → t1'.size ≡ t1.size
      → IsPhase t0 t1 r
      → IsPhase t0 t1' r
  IsPhase-second t0 t1 t1' none e p = (tt, omega arith)
  IsPhase-second t0 t1 t1' (some r) e p = (tt, p.1, omega arith, p.3, p.4)

  IsPhase-first :
      (t0 t0' t1 : Dictht K V) (r : Option ℕ)
      → t0'.size ≡ t0.size
      → ((i : ℕ) → get_or t0.table i [] ≡ [] → get_or t0'.table i [] ≡ [])
      → IsPhase t0 t1 r
      → IsPhase t0' t1 r
  IsPhase-first t0 t0' t1 none e keep p = p
  IsPhase-first t0 t0' t1 (some r) e keep p =
      (tt, omega arith, p.2, λ i h. keep i (p.3 i h), omega (arith, p.4))

  module _ (d : Dict K V) (k : K) (x : Option V) (c : Chain K V) (u : ℕ) (ok : IsDict d) where
    congr_view : (t : Dictht K V) (q : K) → type.compare q k ≡ true → view t q ≡ view t k
    congr_view t q e = ap (view t) ((type.compare_iff q k).0 e)

    tally-le :
        (t : Dictht K V) (ok' : IsTable t) (pos : 0 < t.size) (fits : Fits t k x c u) (q : K)
        → tally (write_home t k c u) q ≤ tally t q
    tally-le t ok' pos fits q =
        rw (tally-write_home t ok' pos k c u fits.others q)
          (ground (arith, fits.few q, ap (tally t) {x = q} {y = k}, type.compare_iff q k))

    pub change_first :
        0 < d.ht0.size
        → Fits d.ht0 k x c u
        → 1 ≤ tally d.ht0 k
        → Changed d k x (record d { ht0 = write_home d.ht0 k c u })
    unfolding lookup
    change_first pos fits here = record {
      small = λ s. s;
      valid = record {
        first = write_home-IsTable d.ht0 ok.first pos k c u fits.others fits.counted;
        second = ok.second;
        unique = λ q. omega (arith, ok.unique q, tally-le d.ht0 ok.first pos fits q);
        phase =
            IsPhase-first d.ht0 (write_home d.ht0 k c u) d.ht1 d.rehashidx refl still_empty
              ok.phase;
      };
      lookups = λ q. elim (Bool-cases (type.compare q k)) [
        | inl same ↦
            rw
              (
                view-write_home d.ht0 ok.first pos k c u fits.others x fits.reads q,
                same,
                congr_view d.ht1 q same,
                no_second,
              )
              (or_else-none x)
        | inr other ↦
            rw (view-write_home d.ht0 ok.first pos k c u fits.others x fits.reads q, other)
      ];
    }
      where
        no_second : view d.ht1 k ≡ none
        no_second = find_absent k (home d.ht1 k) (omega (arith, ok.unique k))

        empty_home :
            (t : List (List (K × V))) (j i : ℕ) → j ≡ i → get_or t i [] ≡ [] → get_or t j [] ≡ []
        empty_home t j i e h = ap (λ n. get_or t n []) e ∙ h

        elsewhere : (i : ℕ) → bucket d.ht0 i ≡ [] → (slot d.ht0 k == i) ≡ false
        elsewhere i e = elim (Bool-cases (slot d.ht0 k == i)) [
          | inl at_home ↦ absurd (
              omega (
                arith,
                here,
                entries-nil k (home d.ht0 k)
                    (empty_home d.ht0.table (slot d.ht0 k) i (ground arith) e),
              ))
          | inr away ↦ away
        ]

        still_empty : (i : ℕ) → bucket d.ht0 i ≡ [] → bucket (write_home d.ht0 k c u) i ≡ []
        still_empty i e =
            rw
              (
                get_or-set d.ht0.table (slot d.ht0 k) i c [] (slot-lt d.ht0 k ok.first pos),
                elsewhere i e,
              )
              e

    pub change_second :
        0 < d.ht0.size
        → 0 < d.ht1.size
        → Fits d.ht1 k x c u
        → view d.ht0 k ≡ none
        → Changed d k x (record d { ht1 = write_home d.ht1 k c u })
    unfolding lookup
    change_second pos0 pos fits absent = record {
      small = λ s. s;
      valid = record {
        first = ok.first;
        second = write_home-IsTable d.ht1 ok.second pos k c u fits.others fits.counted;
        unique = λ q. omega (arith, ok.unique q, tally-le d.ht1 ok.second pos fits q);
        phase = IsPhase-second d.ht0 d.ht1 (write_home d.ht1 k c u) d.rehashidx refl ok.phase;
      };
      lookups = λ q. elim (Bool-cases (type.compare q k)) [
        | inl same ↦ rw (
          view-write_home d.ht1 ok.second pos k c u fits.others x fits.reads q,
          same,
          congr_view d.ht0 q same,
          absent,
        )
        | inr other ↦
            rw (view-write_home d.ht1 ok.second pos k c u fits.others x fits.reads q, other)
      ];
    }
