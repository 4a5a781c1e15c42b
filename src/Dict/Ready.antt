-- ===== src/Dict/Ready.antt =====
-- `_dictExpandIfNeeded` and `dictResize` (redis/src/dict.c) on a valid dictionary.
use coffee_table.Prelude.{
  ap, ◌∙◌, Bool, true, false, ◌<◌, ℕ, ◌*◌, ◌/◌, ◌+◌, ◌^◌, ◌≤◌, ◌<◌, ◌≡◌, ap, ◌∙◌, Bool, true, false,
  some, arith, if◌then◌else◌, inl, inr, Bool-cases, Option-cases, ◌&&◌, ◌||◌, ◌==◌, ltb, leb,
}
use coffee_table.Dict.{Dict, is_rehashing, expand, expand_if_needed, initial_size}
use coffee_table.Dict.Bucket.{KeyType}
use coffee_table.Dict.Invariant.{IsDict, IsSmall, no_table}
use coffee_table.Dict.Rehash.{Keeps}
use coffee_table.Dict.Steps.{Keeps-refl}
use coffee_table.Dict.Expand.{expanded}

module _ {ℓ} {K V : Type ℓ} ⦃type : KeyType K⦄ where
  -- What `_dictExpandIfNeeded` leaves: the same entries, and a table.
  pub record Ready (can_resize : Bool) (d : Dict K V) : Type ℓ where
    pub d' : Dict K V
    pub run : expand_if_needed can_resize d ≡ some (true, d')
    pub keeps : Keeps d d'
    pub table : 0 < d'.ht0.size
    pub small : d.ht0.used + d.ht1.used < 2 ^ 29 → IsSmall d → IsSmall d'

  rehashing_table : (d : Dict K V) → IsDict d → is_rehashing d ≡ true → 0 < d.ht0.size
  rehashing_table d ok h = elim (Option-cases d.rehashidx) [
    | inl e ↦ absurd (ground (arith, e))
    | inr (r, e) ↦ (rw e at ok.phase).1
  ]

  module _ (can_resize : Bool) (d : Dict K V) (ok : IsDict d) where
    -- the number of buckets asked for
    abbrev wanted : ℕ
    wanted = (if ltb d.ht0.used d.ht0.size then d.ht0.size else d.ht0.used) * 2

    abbrev must_grow : Bool
    must_grow = leb d.ht0.size d.ht0.used && (can_resize || ltb 5 (d.ht0.used / d.ht0.size))

    grown :
        (n : ℕ)
        → is_rehashing d ≡ false
        → d.ht0.used ≤ n
        → (d.ht0.used + d.ht1.used < 2 ^ 29 → n < 2 ^ 30)
        → expand_if_needed can_resize d ≡ expand d n
        → Ready can_resize d
    grown n idle room bound e =
        let t = expanded d n ok in
        let done : t.done ≡ true = t.refused ∙ ground arith in
        record {
          d' = t.d';
          run = e ∙ t.run ∙ ap (λ b. some (b, t.d')) done;
          keeps = t.keeps;
          table = t.table done;
          small = λ h s. t.small (bound h) s;
        }

    same_table :
        0 < d.ht0.size → expand_if_needed can_resize d ≡ some (true, d) → Ready can_resize d
    same_table pos e = record {
      d' = d;
      run = e;
      keeps = Keeps-refl d ok;
      table = pos;
      small = λ h s. s;
    }

    idle_ready : is_rehashing d ≡ false → Ready can_resize d
    unfolding expand_if_needed
    idle_ready idle = elim (Bool-cases (d.ht0.size == 0)) [
      | inl none_yet ↦
          grown initial_size idle (omega (arith, (no_table d.ht0 ok.first (ground arith)).0))
            (λ h. omega arith) (rw (idle, none_yet))
      | inr there ↦ elim (Bool-cases must_grow) [
        | inl full ↦ grown wanted idle (ground arith) (λ h. ground arith) (rw (idle, there, full))
        | inr fits ↦ same_table (ground arith) (rw (idle, there, fits))
      ]
    ]

    -- `_dictExpandIfNeeded` always answers DICT_OK.
    pub ready : Ready can_resize d
    unfolding expand_if_needed
    ready = elim (Bool-cases (is_rehashing d)) [
      | inl busy ↦ same_table (rehashing_table d ok busy) (rw busy)
      | inr idle ↦ idle_ready idle
    ]

  -- `_dictExpandIfNeeded` on a valid dictionary always answers DICT_OK, whether resizing is enabled or
  -- not; it leaves a valid dictionary with the same entries, whose first table exists.
  pub expand_if_needed-ok :
      (can_resize : Bool) (d : Dict K V)
      → IsDict d
      → (d' : Dict K V) × (expand_if_needed can_resize d ≡ some (true, d'))
        × Keeps d d'
        × (0 < d'.ht0.size)
  expand_if_needed-ok can_resize d ok =
      let r = ready can_resize d ok in (r.d', r.run, r.keeps, r.table)
