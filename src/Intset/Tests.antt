-- ===== src/Intset/Tests.antt =====
-- Runs of the integer set of redis/src/intset.c, and its theorems at concrete sets.
use coffee_table.Prelude.{
  ℕ, ◌+◌, ◌≡◌, refl, Bool, true, not, ◌||◌, ◌&&◌, Option, some, arith, if◌then◌else◌, ◌>>=◌,
}
use coffee_table.Prelude.Int.{ℤ, pos, negsuc}
use coffee_table.Intset.{
  Intset, intset_new, intset_add, intset_remove, intset_find, intset_get, eqb_ℤ, search_value,
}
use coffee_table.Intset.Valid.{IsIntset, Values, member}
use coffee_table.Intset.Search.{Located, search_value_lem}
use coffee_table.Intset.Add.{intset_add_lem}
use coffee_table.Intset.Remove.{intset_remove_lem}

abbrev zeros : Values
zeros i = pos 0

new-IsIntset : IsIntset intset_new zeros
new-IsIntset = record {
  cells = λ i h. absurd (omega arith);
  in_range = λ i h. refl;
  sorted = λ i j h k. absurd (omega arith);
  sized = refl;
  small = omega arith;
}

-- the numbers 5, -70000 and 7, where the second one needs wider cells
abbrev three : Option Intset
three = do
  (a, is1) ← intset_add intset_new (pos 5)
  (b, is2) ← intset_add is1 (negsuc 69999)
  (c, is3) ← intset_add is2 (pos 7)
  some is3

three_reads : (do is ← three; intset_get is 0) ≡ some (some (negsuc 69999))
unfolding intset_add intset_get
three_reads = refl

three_finds :
    (do is ← three; (b, is') ← intset_remove is (pos 5); intset_find is' (pos 7)) ≡ some true
unfolding intset_add intset_remove intset_find
three_finds = refl

-- a set with one value
abbrev one : Intset
one = (intset_add_lem intset_new zeros (pos 5) new-IsIntset refl (omega arith)).0

abbrev one_values : Values
one_values = (intset_add_lem intset_new zeros (pos 5) new-IsIntset refl (omega arith)).1

one-IsIntset : IsIntset one one_values
one-IsIntset = (intset_add_lem intset_new zeros (pos 5) new-IsIntset refl (omega arith)).3

intset_add_lem_example :
    (is' : Intset) × (v' : Values) × (intset_add intset_new (pos 5)
      ≡ some (not (member zeros 0 (pos 5)), is'))
    × IsIntset is' v'
    × (is'.length ≡ 0 + (if member zeros 0 (pos 5) then 0 else 1))
    × ((y : ℤ) → intset_find is' y ≡ some (eqb_ℤ (pos 5) y || member zeros 0 y))
intset_add_lem_example = intset_add_lem intset_new zeros (pos 5) new-IsIntset refl (omega arith)

intset_remove_lem_example :
    (is' : Intset) × (v' : Values) × (intset_remove one (pos 5)
      ≡ some (member one_values one.length (pos 5), is'))
    × IsIntset is' v'
    × (is'.length + (if member one_values one.length (pos 5) then 1 else 0) ≡ one.length)
    × ((y : ℤ) → intset_find is' y ≡ some (not (eqb_ℤ (pos 5) y) && member one_values one.length y))
intset_remove_lem_example = intset_remove_lem one one_values (pos 5) one-IsIntset

search_value_lem_example :
    (b : Bool) × (p : ℕ) × (search_value one (pos 6) ≡ some (b, p))
    × Located one_values one.length (pos 6) b p
search_value_lem_example = search_value_lem one one_values (pos 6) one-IsIntset
