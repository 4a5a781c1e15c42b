-- ===== src/Sets/Adding.antt =====
-- redis/src/t_set.c: a string added, in either encoding and where the encoding changes.
use coffee_table.Prelude.{
  ℕ, ◌+◌, ◌*◌, ◌^◌, ◌≤◌, ◌<◌, ◌≡◌, refl, ap, sym, ◌∙◌, inl, inr, Bool, true, false, ◌||◌, not,
  Option, none, some, List, Bool-cases, Option-cases, is_some, ltb, if◌then◌else◌, arith,
}
use coffee_table.Prelude.Int.{ℤ}
use coffee_table.Util.{string2ll}
use coffee_table.Util.Range.{string2ll-fits}
use coffee_table.Intset.{Intset, eqb_ℤ}
use coffee_table.Intset.Valid.{IsIntset, Values, member}
use coffee_table.Intset.Add.{intset-Added}
use coffee_table.Dict.{Dict}
use coffee_table.Dict.Access.{size}
use coffee_table.Dict.Bucket.{KeyType}
use coffee_table.Dict.Invariant.{IsDict, IsSmall, lookup}
use coffee_table.Dict.Add.{add-absent, add-present}
use coffee_table.Sets.{
  SetObject, ints, table, set_type_size, set_type_add, set_type_grow, set_type_add_string,
  set_type_add_integer,
}
use coffee_table.Sets.Members.{over, wide-fits, is_some-none, over-or, is_some-or}
use coffee_table.Sets.Convert.{set_type_convert_lem}
use coffee_table.Sets.Stands.{over-ext, StandsFor, in_ints, in_table, with_string, with_old}

module _ ⦃type : KeyType (List ℕ)⦄ (can_resize : Bool) (max_entries : ℕ) where
  -- what an addition leaves
  abbrev pub AddsTo : (List ℕ → Bool) → List ℕ → SetObject → Option (Bool × SetObject) → Type 0
  AddsTo m x s r =
      (s' : SetObject) × (r ≡ some (not (m x), s'))
      × StandsFor max_entries (with_string x m) s'
      × (set_type_size s' ≡ set_type_size s + (if m x then 0 else 1))

  add_table :
      (m : List ℕ → Bool) (x : List ℕ) (d : Dict (List ℕ) (Unit {0}))
      → IsDict d
      → IsSmall d
      → size d < 2 ^ 29
      → ((q : List ℕ) → is_some (lookup d q) ≡ m q)
      → AddsTo m x (table d) (set_type_add can_resize max_entries (table d) x)
  unfolding set_type_add
  add_table m x d ok small room reads = elim (Option-cases (lookup d x)) [
    | inl absent ↦
        let (d', run, adds) = add-absent can_resize d x tt ok small room absent in
        let new : m x ≡ false = sym (reads x) ∙ ap is_some absent in
        (
          table d',
          rw (run, new) refl,
          in_table d' adds.valid (adds.small small) (λ q.
              ap is_some (adds.lookups q)
              ∙ is_some-or q x tt (lookup d q)
              ∙ ap (λ b. type.compare q x || b) (reads q)),
          rw new adds.grows,
        )
    | inr (w, there) ↦
        let (d', run, keeps, pos, small') = add-present can_resize d x tt ok small room w there in
        let old : m x ≡ true = sym (reads x) ∙ ap is_some there in
        (
          table d',
          rw (run, old) refl,
          in_table d' keeps.valid small'
              (λ q. ap is_some (keeps.same q) ∙ reads q ∙ with_old m x q old),
          rw old (omega (arith, keeps.size)),
        )
  ]

  grow_lem :
      (is : Intset) (v : Values) (m : List ℕ → Bool)
      → IsIntset is v
      → is.length < 2 ^ 29
      → ((q : List ℕ) → over (member v is.length) q ≡ m q)
      → (s' : SetObject) × (set_type_grow can_resize max_entries is ≡ some (true, s'))
        × StandsFor max_entries m s'
        × (set_type_size s' ≡ is.length)
  grow_lem is v m ok room reads = elim (Bool-cases (ltb max_entries is.length)) [
    | inl many ↦
        let (d, run, holds) = set_type_convert_lem can_resize max_entries is v ok room in
        (
          table d,
          rw (set_type_grow, many, run) refl,
          in_table d holds.valid holds.small (λ q. holds.members q ∙ reads q),
          holds.counted,
        )
    | inr few ↦ (ints is, rw (set_type_grow, few) refl, in_ints is v ok (ground arith) reads, refl)
  ]

  add_string :
      (is : Intset) (v : Values) (m : List ℕ → Bool) (x : List ℕ)
      → IsIntset is v
      → is.length < 2 ^ 29
      → ((q : List ℕ) → over (member v is.length) q ≡ m q)
      → string2ll x ≡ none
      → AddsTo m x (ints is) (set_type_add can_resize max_entries (ints is) x)
  unfolding set_type_add
  add_string is v m x ok room reads e =
      let (d, run, holds) = set_type_convert_lem can_resize max_entries is v ok room in
      let new : m x ≡ false = sym (reads x) ∙ (rw (over, e) refl) in
      let absent = is_some-none (lookup d x) (holds.members x ∙ reads x ∙ new) in
      let (d', run', adds) =
        add-absent can_resize d x tt holds.valid holds.small (omega (arith, holds.counted))
          absent in
      (
        table d',
        rw (set_type_add, e, set_type_add_string, run, run', new) refl,
        in_table d' adds.valid (adds.small holds.small) (λ q.
            ap is_some (adds.lookups q)
            ∙ is_some-or q x tt (lookup d q)
            ∙ ap (λ b. type.compare q x || b) (holds.members q ∙ reads q)),
        rw new (omega (arith, adds.grows, holds.counted)),
      )

  add_integer :
      (is : Intset) (v : Values) (m : List ℕ → Bool) (x : List ℕ) (n : ℤ)
      → (max_entries + 1) * 8 < 2 ^ 32
      → is.length ≤ max_entries
      → IsIntset is v
      → ((q : List ℕ) → over (member v is.length) q ≡ m q)
      → string2ll x ≡ some n
      → AddsTo m x (ints is) (set_type_add can_resize max_entries (ints is) x)
  unfolding set_type_add
  add_integer is v m x n room few ok reads e =
      let a = intset-Added is v n ok (wide-fits n (string2ll-fits x n e)) (omega arith) in
      let here : member v is.length n ≡ m x = (rw (over, e) at (reads x)) in
      let reads' : (q : List ℕ) → over (member a.values a.is'.length) q ≡ with_string x m q = λ q.
        over-ext (member a.values a.is'.length) (λ k. eqb_ℤ n k || member v is.length k) q a.members
        ∙ over-or x q n (member v is.length) e
        ∙ ap (λ b. type.compare q x || b) (reads q) in
      elim (Bool-cases (m x)) [
        | inl old ↦
            let same : member v is.length n ≡ true = here ∙ old in
            let size_kept : a.is'.length ≡ is.length =
              let c = rw same at a.counted in omega arith in
            (
              ints a.is',
              rw (set_type_add, e, set_type_add_integer, a.run, same, old) refl,
              in_ints a.is' a.values a.valid (omega arith) reads',
              rw old (omega arith),
            )
        | inr new ↦
            let other : member v is.length n ≡ false = here ∙ new in
            let one_more : a.is'.length ≡ is.length + 1 = rw other at a.counted in
            let (s', run, ok', size') =
              grow_lem a.is' a.values (with_string x m) a.valid (omega arith) reads' in
            (
              s',
              rw (set_type_add, e, set_type_add_integer, a.run, other, new) run,
              ok',
              rw new (size' ∙ one_more),
            )
      ]

  -- `setTypeAdd` adds a string, in either encoding and where the encoding changes.
  pub set_type_add_lem :
      (m : List ℕ → Bool) (s : SetObject) (x : List ℕ)
      → (max_entries + 1) * 8 < 2 ^ 32
      → set_type_size s < 2 ^ 29
      → StandsFor max_entries m s
      → AddsTo m x s (set_type_add can_resize max_entries s x)
  set_type_add_lem m _ x room free (in_table d ok small reads) = add_table m x d ok small free reads
  set_type_add_lem m _ x room free (in_ints is v ok few reads) = elim (Option-cases (string2ll x)) [
    | inl e ↦ add_string is v m x ok free reads e
    | inr (n, e) ↦ add_integer is v m x n room few ok reads e
  ]
