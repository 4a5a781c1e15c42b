-- ===== src/Sets/Removing.antt =====
-- redis/src/t_set.c: a string taken away or looked for, in either encoding.
use coffee_table.Prelude.{
  ℕ, ◌<◌, ◌^◌, ◌+◌, ◌≡◌, refl, ap, sym, ◌∙◌, inl, inr, Bool, false, ◌||◌, ◌&&◌, not, Option, some,
  List, Bool-cases, Option-cases, is_some, if◌then◌else◌, arith,
}
use coffee_table.Util.{string2ll}
use coffee_table.Intset.{eqb_ℤ}
use coffee_table.Intset.Valid.{member}
use coffee_table.Intset.Search.{intset_find_lem}
use coffee_table.Intset.Remove.{intset-Removed}
use coffee_table.Dict.{Dict, resize, is_rehashing, minimal_of}
use coffee_table.Dict.Access.{size}
use coffee_table.Dict.Bucket.{KeyType}
use coffee_table.Dict.Invariant.{IsDict, IsSmall, lookup}
use coffee_table.Dict.Rehash.{Keeps}
use coffee_table.Dict.Steps.{Keeps-refl}
use coffee_table.Dict.Expand.{minimal-lt, expanded}
use coffee_table.Dict.Delete.{delete_lem}
use coffee_table.Dict.Fetch.{fetch_value_lem}
use coffee_table.Sets.{
  SetObject, ints, table, set_type_size, set_type_remove, set_type_is_member, shrink,
  ht_needs_resize,
}
use coffee_table.Sets.Members.{over, over-and, is_some-and}
use coffee_table.Sets.Stands.{over-ext, StandsFor, in_ints, in_table, without_string, without_new}

module _ ⦃type : KeyType (List ℕ)⦄ (can_resize : Bool) (max_entries : ℕ) where
  shrink_lem :
      (d : Dict (List ℕ) (Unit {0}))
      → IsDict d
      → IsSmall d
      → size d < 2 ^ 29
      → (d' : Dict (List ℕ) (Unit {0})) × (shrink can_resize max_entries d ≡ some (table d'))
        × Keeps d d'
        × IsSmall d'
  unfolding resize
  shrink_lem d ok small room =
      let r = expanded d (minimal_of d.ht0.used) ok in
      elim (Bool-cases (ht_needs_resize d)) [
        | inr full ↦ (d, rw (shrink, full) refl, Keeps-refl d ok, small)
        | inl sparse ↦ elim (Bool-cases (not can_resize || is_rehashing d)) [
          | inl refused ↦ (d, rw (shrink, sparse, refused) refl, Keeps-refl d ok, small)
          | inr allowed ↦ (
            r.d',
            rw (shrink, sparse, allowed, r.run) refl,
            r.keeps,
            r.small (minimal-lt d.ht0.used (omega arith)) small,
          )
        ]
      ]

  -- what a removal leaves
  abbrev pub TakesFrom : (List ℕ → Bool) → List ℕ → SetObject → Option (Bool × SetObject) → Type 0
  TakesFrom m x s r =
      (s' : SetObject) × (r ≡ some (m x, s'))
      × StandsFor max_entries (without_string x m) s'
      × (set_type_size s' + (if m x then 1 else 0) ≡ set_type_size s)

  remove_table :
      (m : List ℕ → Bool) (x : List ℕ) (d : Dict (List ℕ) (Unit {0}))
      → IsDict d
      → IsSmall d
      → size d < 2 ^ 29
      → ((q : List ℕ) → is_some (lookup d q) ≡ m q)
      → TakesFrom m x (table d) (set_type_remove can_resize max_entries (table d) x)
  unfolding set_type_remove
  remove_table m x d ok small room reads =
      let (d1, run, change, counted) = delete_lem d x ok small in
      let (d2, run2, keeps, small2) =
        shrink_lem d1 change.valid (change.small small) (omega (arith, counted)) in
      let reads1 : (q : List ℕ) → is_some (lookup d1 q) ≡ without_string x m q = λ q.
        ap is_some (change.lookups q)
        ∙ is_some-and q x (lookup d q)
        ∙ ap (λ b. not (type.compare q x) && b) (reads q) in
      let counted' : size d1 + (if m x then 1 else 0) ≡ size d = rw (reads x) at counted in
      elim (Bool-cases (m x)) [
        | inl there ↦ (
          table d2,
          rw (set_type_remove, run, reads x, there, run2) refl,
          in_table d2 keeps.valid small2 (λ q. ap is_some (keeps.same q) ∙ reads1 q),
          rw there (omega (arith, keeps.size, rw there at counted')),
        )
        | inr absent ↦ (
          table d1,
          rw (set_type_remove, run, reads x, absent) refl,
          in_table d1 change.valid (change.small small) reads1,
          counted',
        )
      ]

  -- `setTypeRemove` takes a string away, in either encoding.
  pub set_type_remove_lem :
      (m : List ℕ → Bool) (s : SetObject) (x : List ℕ)
      → set_type_size s < 2 ^ 29
      → StandsFor max_entries m s
      → TakesFrom m x s (set_type_remove can_resize max_entries s x)
  unfolding set_type_remove
  set_type_remove_lem m _ x room (in_table d ok small reads) =
      remove_table m x d ok small room reads
  set_type_remove_lem m _ x room (in_ints is v ok few reads) = elim (Option-cases (string2ll x)) [
    | inl e ↦
        let absent : m x ≡ false = sym (reads x) ∙ (rw (over, e) refl) in
        (
          ints is,
          rw (set_type_remove, e, absent) refl,
          in_ints is v ok few (λ q. reads q ∙ without_new m x q absent),
          rw absent (omega arith),
        )
    | inr (n, e) ↦
        let a = intset-Removed is v n ok in
        let here : member v is.length n ≡ m x = (rw (over, e) at (reads x)) in
        let counted : a.is'.length + (if m x then 1 else 0) ≡ is.length = rw here at a.counted in
        (
          ints a.is',
          rw (set_type_remove, e, a.run, here) refl,
          in_ints a.is' a.values a.valid (omega arith) (λ q.
              over-ext (member a.values a.is'.length) (λ k. not (eqb_ℤ n k) && member v is.length k)
                q a.members
              ∙ over-and x q n (member v is.length) e
              ∙ ap (λ b. not (type.compare q x) && b) (reads q)),
          counted,
        )
  ]

  -- `setTypeIsMember` answers whether a string is in the set.
  pub set_type_is_member_lem :
      (m : List ℕ → Bool) (s : SetObject) (x : List ℕ)
      → StandsFor max_entries m s
      → (s' : SetObject) × (set_type_is_member can_resize max_entries s x ≡ some (m x, s'))
        × StandsFor max_entries m s'
        × (set_type_size s' ≡ set_type_size s)
  unfolding set_type_is_member
  set_type_is_member_lem m _ x (in_table d ok small reads) =
      let (d', run, keeps, small') = fetch_value_lem d x ok small in
      (
        table d',
        rw (set_type_is_member, run, reads x) refl,
        in_table d' keeps.valid small' (λ q. ap is_some (keeps.same q) ∙ reads q),
        keeps.size,
      )
  set_type_is_member_lem m _ x (in_ints is v ok few reads) = elim (Option-cases (string2ll x)) [
    | inl e ↦
        let absent : m x ≡ false = sym (reads x) ∙ (rw (over, e) refl) in
        (ints is, rw (set_type_is_member, e, absent) refl, in_ints is v ok few reads, refl)
    | inr (n, e) ↦
        let here : member v is.length n ≡ m x = (rw (over, e) at (reads x)) in
        (
          ints is,
          rw (set_type_is_member, e, intset_find_lem is v n ok, here) refl,
          in_ints is v ok few reads,
          refl,
        )
  ]
