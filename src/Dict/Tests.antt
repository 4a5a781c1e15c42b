-- ===== src/Dict/Tests.antt =====
-- Runs of the dictionary of redis/src/dict.c, and its theorems at concrete inputs.
use coffee_table.Prelude.{
  ℕ, ◌%◌, ◌^◌, ◌<◌, ◌≡◌, refl, Bool, true, false, Option, none, some, List, [], ◌∷◌, arith, ◌==◌,
  ==_iff,
}
use coffee_table.Dict.{
  rehash_step, Dict, create, next_power, rehash, expand_if_needed, initial_size,
}
use coffee_table.Dict.Bucket.{contains, find, overwrite, unlink, KeyType}
use coffee_table.Dict.Invariant.{IsDict, IsSmall, create-IsDict, lookup-create}
use coffee_table.Dict.Rehash.{Keeps}
use coffee_table.Dict.Steps.{rehash-keeps}
use coffee_table.Dict.Expand.{IsNextPower, next_power_lem}
use coffee_table.Dict.Ready.{expand_if_needed-ok}
use coffee_table.Dict.Add.{add-absent}
use coffee_table.Dict.Access.{size}
use coffee_table.Dict.Client.{
  Op, insert, put, remove, get, work, shrink, Answer, flag, value, silent, run, map_run,
  run_refines,
}

-- Numbers as keys, in the buckets of their low bits.
instance abbrev nat_keys : KeyType ℕ
nat_keys = record { hash = λ k. k % 2 ^ 32; compare = ◌==◌; compare_iff = ==_iff }

abbrev nothing : Dict ℕ ℕ
nothing = create

abbrev calls : List (Op ℕ ℕ)
calls =
    insert 1 10
    ∷ insert 5 50
    ∷ insert 9 90
    ∷ insert 2 20
    ∷ insert 3 30
    ∷ insert 5 55
    ∷ put 9 99
    ∷ remove 1
    ∷ get 5
    ∷ get 9
    ∷ work 1
    ∷ get 1
    ∷ shrink
    ∷ []

-- The fifth insertion starts a rehashing, which the later calls carry on.
abbrev answers : Option (List (Answer ℕ) × Dict ℕ ℕ) → List (Answer ℕ)
answers none = []
answers (some (a, d)) = a

calls_answer :
    answers (run true calls nothing)
    ≡ flag true
      ∷ flag true
      ∷ flag true
      ∷ flag true
      ∷ flag true
      ∷ flag false
      ∷ flag false
      ∷ flag true
      ∷ value (some 50)
      ∷ value (some 99)
      ∷ silent
      ∷ value none
      ∷ silent
      ∷ []
unfolding run create rehash_step expand_if_needed next_power contains find overwrite unlink
calls_answer = refl

nothing-IsSmall : IsSmall nothing
unfolding create
nothing-IsSmall = (omega arith, omega arith)

nothing_room : size nothing < 2 ^ 29
unfolding create
nothing_room = omega arith

run_refines_example :
    (d' : Dict ℕ ℕ) × (run true calls nothing ≡ some (map_run calls (λ q. none), d'))
    × IsDict d'
    × IsSmall d'
unfolding create
run_refines_example =
    run_refines true calls nothing (λ q. none) create-IsDict nothing-IsSmall (omega arith)
      lookup-create

-- a dictionary with one entry
abbrev one : Dict ℕ ℕ
one = (add-absent true nothing 5 50 create-IsDict nothing-IsSmall nothing_room (lookup-create 5)).0

one-IsDict : IsDict one
one-IsDict =
    (add-absent true nothing 5 50 create-IsDict nothing-IsSmall nothing_room
      (lookup-create 5)).2.valid

one-IsSmall : IsSmall one
one-IsSmall =
    (add-absent true nothing 5 50 create-IsDict nothing-IsSmall nothing_room
        (lookup-create 5)).2.small
      nothing-IsSmall

rehash-keeps_example :
    (more : Bool) × (d' : Dict ℕ ℕ) × (rehash 3 one ≡ some (more, d'))
    × Keeps one d'
    × (more ≡ false → d'.rehashidx ≡ none)
    × (one.ht0.size < 3 → more ≡ false)
    × IsSmall d'
rehash-keeps_example = rehash-keeps 3 one one-IsDict one-IsSmall

expand_if_needed-ok_example :
    (d' : Dict ℕ ℕ) × (expand_if_needed false nothing ≡ some (true, d'))
    × Keeps nothing d'
    × (0 < d'.ht0.size)
expand_if_needed-ok_example = expand_if_needed-ok false nothing create-IsDict

next_power_lem_example : (p : ℕ) × (next_power 100 ≡ some p) × IsNextPower initial_size 100 p
next_power_lem_example = next_power_lem 100 (omega arith)
