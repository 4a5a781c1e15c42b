-- ===== src/Sets/Runs.antt =====
-- redis/src/t_set.c: any calls on a set, against a set of strings.
use coffee_table.Prelude.{
  ℕ, ◌≤◌, length, ◌+◌, ◌*◌, ◌^◌, ◌<◌, ◌≡◌, refl, ap, Bool, false, not, Option, some, List, [], ◌∷◌,
  arith, ◌>>=◌, is_some, inl, inr, Option-cases,
}
use coffee_table.Prelude.Int.{pos}
use coffee_table.Util.{string2ll}
use coffee_table.Intset.{intset_new}
use coffee_table.Intset.Valid.{IsIntset, Values, member}
use coffee_table.Dict.{create}
use coffee_table.Dict.Bucket.{KeyType}
use coffee_table.Dict.Invariant.{create-IsDict, lookup-create}
use coffee_table.Sets.{
  SetObject, set_type_size, set_type_create, set_type_add, set_type_remove, set_type_is_member,
}
use coffee_table.Sets.Members.{over}
use coffee_table.Sets.Stands.{StandsFor, in_ints, in_table, with_string, without_string}
use coffee_table.Sets.Adding.{set_type_add_lem}
use coffee_table.Sets.Removing.{set_type_remove_lem, set_type_is_member_lem}

pub data SetCall : Type 0 where
  adds takes asks : List ℕ → SetCall

module _ ⦃type : KeyType (List ℕ)⦄ where
  -- what a call answers and leaves of a set of strings
  abbrev pub model_call : SetCall → (List ℕ → Bool) → Bool × (List ℕ → Bool)
  model_call (adds x) m = (not (m x), with_string x m)
  model_call (takes x) m = (m x, without_string x m)
  model_call (asks x) m = (m x, m)

  abbrev pub model_calls : List SetCall → (List ℕ → Bool) → List Bool × (List ℕ → Bool)
  model_calls [] m = ([], m)
  model_calls (c ∷ more) m =
      let rest = model_calls more (model_call c m).1 in ((model_call c m).0 ∷ rest.0, rest.1)

module _ ⦃type : KeyType (List ℕ)⦄ (can_resize : Bool) (max_entries : ℕ) where
  unfoldable pub set_call : SetCall → SetObject → Option (Bool × SetObject)
  unfolding set_type_add set_type_remove set_type_is_member
  set_call (adds x) s = set_type_add can_resize max_entries s x
  set_call (takes x) s = set_type_remove can_resize max_entries s x
  set_call (asks x) s = set_type_is_member can_resize max_entries s x

  unfoldable pub set_calls : List SetCall → SetObject → Option (List Bool × SetObject)
  unfolding set_call
  set_calls [] s = some ([], s)
  set_calls (c ∷ more) s = do
    (b, s') ← set_call c s
    (bs, s'') ← set_calls more s'
    some (b ∷ bs, s'')

  call_lem :
      (c : SetCall) (m : List ℕ → Bool) (s : SetObject)
      → (max_entries + 1) * 8 < 2 ^ 32
      → set_type_size s < 2 ^ 29
      → StandsFor max_entries m s
      → (s' : SetObject) × (set_call c s ≡ some ((model_call c m).0, s'))
        × StandsFor max_entries (model_call c m).1 s'
        × (set_type_size s' ≤ set_type_size s + 1)
  unfolding set_call
  call_lem (adds x) m s room free ok =
      let (s', run, ok', size) = set_type_add_lem can_resize max_entries m s x room free ok in
      (s', run, ok', ground (arith, size))
  call_lem (takes x) m s room free ok =
      let (s', run, ok', size) = set_type_remove_lem can_resize max_entries m s x free ok in
      (s', run, ok', ground (arith, size))
  call_lem (asks x) m s room free ok =
      let (s', run, ok', size) = set_type_is_member_lem can_resize max_entries m s x ok in
      (s', run, ok', omega (arith, size))

  calls_lem :
      (calls : List SetCall) (m : List ℕ → Bool) (s : SetObject)
      → (max_entries + 1) * 8 < 2 ^ 32
      → set_type_size s + length calls < 2 ^ 29
      → StandsFor max_entries m s
      → (s' : SetObject) × (set_calls calls s ≡ some ((model_calls calls m).0, s'))
        × StandsFor max_entries (model_calls calls m).1 s'
  unfolding set_calls
  calls_lem [] m s room free ok = (s, refl, ok)
  calls_lem (c ∷ more) m s room free ok =
      let (s1, run1, ok1, size1) = call_lem c m s room (omega arith) ok in
      let (s2, run2, ok2) = calls_lem more (model_call c m).1 s1 room (omega (arith, size1)) ok1 in
      (s2, rw (run1, run2) refl, ok2)

  abbrev zeros : Values
  zeros i = pos 0

  new-IsIntset : IsIntset intset_new zeros
  new-IsIntset = record {
    cells = λ i h. absurd (omega arith);
    in_range = λ i h. refl;
    sorted = λ i j h k. absurd (omega arith);
    sized = refl;
    small = omega arith;
  }

  no_integer : (q : List ℕ) → over (member zeros 0) q ≡ false
  unfolding member
  no_integer q = elim (Option-cases (string2ll q)) [
    | inl nothing ↦ rw (over, nothing) refl
    | inr (k, e) ↦ rw (over, e) refl
  ]

  create-StandsFor : (value : List ℕ) → StandsFor max_entries (λ q. false) (set_type_create value)
  unfolding create
  create-StandsFor value = elim (Option-cases (string2ll value)) [
    | inl e ↦
        rw (set_type_create, e)
          (in_table create create-IsDict (omega arith, omega arith)
            (λ q. ap is_some (lookup-create q)))
    | inr (n, e) ↦
        rw (set_type_create, e) (in_ints intset_new zeros new-IsIntset (omega arith) no_integer)
  ]

  no_members : (value : List ℕ) → set_type_size (set_type_create value) ≡ 0
  unfolding create
  no_members value = elim (Option-cases (string2ll value)) [
    | inl e ↦ rw (set_type_create, e) refl
    | inr (n, e) ↦ rw (set_type_create, e) refl
  ]

  -- From the set that `setTypeCreate` makes any calls of `setTypeAdd`, `setTypeRemove` and `setTypeIsMember` run
  -- without a fault or a failed assertion and answer as a set of strings does, whichever encoding the set has and
  -- wherever it changes, if the limit of integer sets leaves their bytes below 2 ^ 32,
  -- `(set_max_intset_entries + 1) * 8 < 2 ^ 32`, and there are fewer than 2 ^ 29 calls. The set that is left stands for
  -- the strings that the calls leave.
  pub set_calls_lem :
      (calls : List SetCall) (value : List ℕ)
      → (max_entries + 1) * 8 < 2 ^ 32
      → length calls < 2 ^ 29
      → (s' : SetObject) × (set_calls calls (set_type_create value)
          ≡ some ((model_calls calls (λ q. false)).0, s'))
        × StandsFor max_entries (model_calls calls (λ q. false)).1 s'
  set_calls_lem calls value room free =
      calls_lem calls (λ q. false) (set_type_create value) room (omega (arith, no_members value))
        (create-StandsFor value)
