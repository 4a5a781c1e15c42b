-- ===== src/Sets/Stands.antt =====
-- redis/src/t_set.c: the set of strings that a set object stands for.
use coffee_table.Prelude.{
  ℕ, ◌≤◌, ◌≡◌, refl, ap, ◌∙◌, inl, inr, Bool, true, false, ◌||◌, ◌&&◌, not, List, Bool-cases,
  Option-cases, is_some,
}
use coffee_table.Prelude.Int.{ℤ}
use coffee_table.Util.{string2ll}
use coffee_table.Intset.{Intset}
use coffee_table.Intset.Valid.{IsIntset, Values, member}
use coffee_table.Dict.{Dict}
use coffee_table.Dict.Bucket.{KeyType}
use coffee_table.Dict.Invariant.{IsDict, IsSmall, lookup}
use coffee_table.Sets.{SetObject, ints, table}
use coffee_table.Sets.Members.{over}

pub over-ext : (f g : ℤ → Bool) (q : List ℕ) → ((k : ℤ) → f k ≡ g k) → over f q ≡ over g q
over-ext f g q h = elim (Option-cases (string2ll q)) [
  | inl nothing ↦ rw (over, nothing) refl
  | inr (k, e) ↦ rw (over, e) (h k)
]

module _ ⦃type : KeyType (List ℕ)⦄ where
  -- A set object stands for the strings at which a test holds.
  pub data StandsFor (max_entries : ℕ) (m : List ℕ → Bool) : SetObject → Type 0 where
    in_ints :
        (is : Intset) (v : Values)
        → IsIntset is v
        → is.length ≤ max_entries
        → ((q : List ℕ) → over (member v is.length) q ≡ m q)
        → StandsFor max_entries m (ints is)
    in_table :
        (d : Dict (List ℕ) (Unit {0}))
        → IsDict d
        → IsSmall d
        → ((q : List ℕ) → is_some (lookup d q) ≡ m q)
        → StandsFor max_entries m (table d)

  -- with one string more, and with one less
  abbrev pub with_string : List ℕ → (List ℕ → Bool) → List ℕ → Bool
  with_string x m q = type.compare q x || m q

  abbrev pub without_string : List ℕ → (List ℕ → Bool) → List ℕ → Bool
  without_string x m q = not (type.compare q x) && m q

  same_member : (m : List ℕ → Bool) (x q : List ℕ) → type.compare q x ≡ true → m q ≡ m x
  same_member m x q h = ap m ((type.compare_iff q x).0 h)

  pub with_old : (m : List ℕ → Bool) (x q : List ℕ) → m x ≡ true → m q ≡ with_string x m q
  with_old m x q h = elim (Bool-cases (type.compare q x)) [
    | inl same ↦ rw same (same_member m x q same ∙ h)
    | inr other ↦ rw other refl
  ]

  pub without_new : (m : List ℕ → Bool) (x q : List ℕ) → m x ≡ false → m q ≡ without_string x m q
  without_new m x q h = elim (Bool-cases (type.compare q x)) [
    | inl same ↦ rw same (same_member m x q same ∙ h)
    | inr other ↦ rw other refl
  ]
