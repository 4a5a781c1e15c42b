-- ===== src/Dict/Probe.antt =====
-- The probes of `_dictKeyIndex` (redis/src/dict.c) on a valid dictionary with a table.
use coffee_table.Prelude.{
  ℕ, ltb, ◌^◌, ◌<◌, ◌≡◌, refl, ap, sym, ◌∙◌, true, false, none, some, [], ◌∷◌, arith, if◌then◌else◌,
  inl, inr, Bool-cases, Option-cases, none≢some, or_else,
}
use coffee_table.Dict.{Dictht, Dict, is_rehashing, slot}
use coffee_table.Dict.Access.{probe_index, int_index}
use coffee_table.Dict.Bucket.{Chain, KeyType, find, contains, entries}
use coffee_table.Dict.Bucket.Laws.{contains-of_find, contains-find, find_of_contains}
use coffee_table.Dict.Table.{IsTable, slot-lt, home, view, tally, get_home}
use coffee_table.Dict.Invariant.{IsDict, IsSmall, lookup, no_table}
use coffee_table.Dict.Expand.{idle_of}

module _ {ℓ} {K V : Type ℓ} ⦃type : KeyType K⦄ where
  pub entries-of_none : (q : K) (c : Chain K V) → find q c ≡ none → entries q c ≡ 0
  unfolding find entries
  entries-of_none q [] h = refl
  entries-of_none q (e ∷ c) h = ground (arith, entries-of_none q c)

  -- the table that takes new entries
  abbrev pub target : Dict K V → Dictht K V
  target d = if is_rehashing d then d.ht1 else d.ht0

  pub rehash_index : (d : Dict K V) → is_rehashing d ≡ true → (r : ℕ) × (d.rehashidx ≡ some r)
  rehash_index d h = elim (Option-cases d.rehashidx) [
    | inl e ↦ absurd (ground (arith, e))
    | inr found ↦ found
  ]

  module _ (d : Dict K V) (k : K) (ok : IsDict d) (pos : 0 < d.ht0.size) where
    pub idle_view : is_rehashing d ≡ false → (q : K) → (view d.ht1 q ≡ none) × (tally d.ht1 q ≡ 0)
    idle_view idle q =
        let (unused, no_view, no_tally) =
          no_table d.ht1 ok.second (rw (idle_of d idle) at ok.phase).1 in
        (no_view q, no_tally q)

    pub second_pos : is_rehashing d ≡ true → 0 < d.ht1.size
    second_pos h = let (r, e) = rehash_index d h in (rw e at ok.phase).2

    pub first_view_none : contains k (home d.ht0 k) ≡ false → lookup d k ≡ view d.ht1 k
    unfolding lookup
    first_view_none absent = rw ((contains-find k (home d.ht0 k) absent).0)

    pub probe_found : (w : V) → lookup d k ≡ some w → probe_index d k ≡ some none
    unfolding probe_index
    probe_found w h = elim (Bool-cases (contains k (home d.ht0 k))) [
      | inl here ↦ rw (get_home d.ht0 k ok.first pos, here)
      | inr absent ↦
          let second : view d.ht1 k ≡ some w = sym (first_view_none absent) ∙ h in
          elim (Bool-cases (is_rehashing d)) [
            | inl busy ↦ rw (
              get_home d.ht0 k ok.first pos,
              absent,
              busy,
              get_home d.ht1 k ok.second (second_pos busy),
              contains-of_find k w (home d.ht1 k) second,
            )
            | inr idle ↦ absurd (none≢some (sym (idle_view idle k).0 ∙ second))
          ]
    ]

    -- a key that is not there is in neither table
    pub absent_first : lookup d k ≡ none → contains k (home d.ht0 k) ≡ false
    unfolding lookup
    absent_first h = elim (Bool-cases (contains k (home d.ht0 k))) [
      | inl here ↦
          let (w, e) = find_of_contains k (home d.ht0 k) here in
          absurd (none≢some (sym h ∙ ap (λ o. or_else o (view d.ht1 k)) e))
      | inr absent ↦ absent
    ]

    pub absent_second : lookup d k ≡ none → contains k (home d.ht1 k) ≡ false
    absent_second h = elim (Bool-cases (contains k (home d.ht1 k))) [
      | inl here ↦
          let (w, e) = find_of_contains k (home d.ht1 k) here in
          absurd (none≢some (sym h ∙ first_view_none (absent_first h) ∙ e))
      | inr absent ↦ absent
    ]

    slot_below :
        (t : Dictht K V) → IsTable t → 0 < t.size → t.size < 2 ^ 31 → ltb (slot t k) (2 ^ 31) ≡ true
    slot_below t ok' pos' few = ground (arith, slot-lt t k ok' pos', ok'.width)

    pub probe_free :
        IsSmall d → lookup d k ≡ none → probe_index d k ≡ some (some (slot (target d) k))
    unfolding probe_index
    probe_free small h = elim (Bool-cases (is_rehashing d)) [
      | inl busy ↦ rw (
        get_home d.ht0 k ok.first pos,
        absent_first h,
        busy,
        get_home d.ht1 k ok.second (second_pos busy),
        absent_second h,
        int_index,
        slot_below d.ht1 ok.second (second_pos busy) small.1,
      )
      | inr idle ↦ rw (
        get_home d.ht0 k ok.first pos,
        absent_first h,
        idle,
        int_index,
        slot_below d.ht0 ok.first pos small.0,
      )
    ]
