-- ===== src/Sets/Convert.antt =====
-- redis/src/t_set.c: the conversion of an integer set to a hash table.
use coffee_table.Prelude.{
  ℕ, zero, suc, ◌^◌, ◌+◌, ◌≤◌, ◌<◌, ◌≡◌, refl, ap, sym, ◌∙◌, inl, inr, Bool, true, false, ◌||◌,
  some, List, Bool-cases, Option-cases, is_some, ltb, arith,
}
use coffee_table.Util.{ll2string, string2ll}
use coffee_table.Util.Decimal.{string2ll-ll2string}
use coffee_table.Intset.{Intset, intset_get}
use coffee_table.Intset.Valid.{IsIntset, Values, member, not_member, eqb_ℤ-ne, get_value-runs}
use coffee_table.Dict.{Dict, create}
use coffee_table.Dict.Access.{size, add}
use coffee_table.Dict.Bucket.{KeyType}
use coffee_table.Dict.Invariant.{IsDict, IsSmall, lookup, create-IsDict, lookup-create}
use coffee_table.Dict.Expand.{expanded}
use coffee_table.Dict.Add.{add-absent}
use coffee_table.Sets.{convert_loop, set_type_convert}
use coffee_table.Sets.Members.{over, fits-wide, is_some-none, over-or, is_some-or}

module _ ⦃type : KeyType (List ℕ)⦄ (can_resize : Bool) (max_entries : ℕ) where
  -- a dictionary with the first `i` values of an integer set
  pub record Holds (v : Values) (i : ℕ) (d : Dict (List ℕ) (Unit {0})) : Type 0 where
    pub valid : IsDict d
    pub small : IsSmall d
    pub members : (q : List ℕ) → is_some (lookup d q) ≡ over (member v i) q
    pub counted : size d ≡ i

  nothing_over : (v : Values) (q : List ℕ) → false ≡ over (member v 0) q
  unfolding member
  nothing_over v q = elim (Option-cases (string2ll q)) [
    | inl nothing ↦ rw (over, nothing) refl
    | inr (k, e) ↦ rw (over, e) refl
  ]

  module _ (is : Intset) (v : Values) (ok : IsIntset is v) (few : is.length < 2 ^ 29) where
    written : (i : ℕ) → i < is.length → string2ll (ll2string 32 (v i)) ≡ some (v i)
    written i h =
        string2ll-ll2string 32 (v i) (omega arith) (fits-wide is.encoding (v i) (ok.in_range i h))

    new_value : (i : ℕ) → i < is.length → over (member v i) (ll2string 32 (v i)) ≡ false
    new_value i h =
        rw (over, written i h)
          (not_member v i (v i) (λ j below. (eqb_ℤ-ne (v j) (v i) (ok.sorted j i below h)).0))

    next_value :
        (i : ℕ) (d : Dict (List ℕ) (Unit {0}))
        → i < is.length
        → Holds v i d
        → (d' : Dict (List ℕ) (Unit {0})) × (add can_resize d (ll2string 32 (v i)) tt
            ≡ some (true, d'))
          × Holds v (suc i) d'
    unfolding member
    next_value i d h holds =
        let s = ll2string 32 (v i) in
        let absent = is_some-none (lookup d s) (holds.members s ∙ new_value i h) in
        let (d', run, adds) =
          add-absent can_resize d s tt holds.valid holds.small (omega (arith, holds.counted))
            absent in
        (
          d',
          run,
          record {
            valid = adds.valid;
            small = adds.small holds.small;
            members = λ q.
                ap is_some (adds.lookups q)
                ∙ is_some-or q s tt (lookup d q)
                ∙ ap (λ b. type.compare q s || b) (holds.members q)
                ∙ sym (over-or s q (v i) (member v i) (written i h));
            counted = omega (arith, adds.grows, holds.counted);
          },
        )

    convert_loop_lem :
        (fuel i : ℕ) (d : Dict (List ℕ) (Unit {0}))
        → i + fuel ≡ is.length + 1
        → i ≤ is.length
        → Holds v i d
        → (d' : Dict (List ℕ) (Unit {0})) × (convert_loop can_resize max_entries fuel is i d
            ≡ some d')
          × Holds v is.length d'
    unfolding convert_loop
    convert_loop_lem zero i d e h holds = absurd (omega arith)
    convert_loop_lem (suc fuel) i d e h holds = elim (Bool-cases (ltb i is.length)) [
      | inl more ↦
          let below : i < is.length = ground arith in
          let (d1, run1, holds1) = next_value i d below holds in
          let (d2, run2, holds2) =
            convert_loop_lem fuel (suc i) d1 (omega arith) (omega arith) holds1 in
          let same : i + 1 ≡ suc i = omega arith in
          (d2, rw (intset_get, more, get_value-runs is v i ok below, run1, same) run2, holds2)
      | inr end ↦
          let same : i ≡ is.length = ground arith in
          (d, rw (intset_get, end) refl, rw (← same) holds)
    ]

    pub set_type_convert_lem :
        (d : Dict (List ℕ) (Unit {0})) × (set_type_convert can_resize max_entries is ≡ some d)
        × Holds v is.length d
    unfolding set_type_convert create member
    set_type_convert_lem =
        let r = expanded create is.length create-IsDict in
        let start : Holds v 0 r.d' = record {
          valid = r.keeps.valid;
          small = r.small (omega arith) (omega arith, omega arith);
          members = λ q. ap is_some (r.keeps.same q ∙ lookup-create q) ∙ nothing_over v q;
          counted = r.keeps.size;
        } in
        let (d, run, holds) =
          convert_loop_lem (is.length + 1) 0 r.d' (omega arith) (omega arith) start in
        (d, rw r.run run, holds)
