-- ===== src/Sds/Tests.antt =====
-- The theorems on redis/src/sds.c at a short string.
use coffee_table.Prelude.{ℕ, ◌-◌, ◌≡◌, refl, some, [], ◌∷◌, ◌++◌, replicate, arith}
use coffee_table.Sds.{Sds, new_len, cat_len, grow_zero}
use coffee_table.Sds.Laws.{IsSds, IsShort, contents, cat_len_lem, grow_zero_lem}

abbrev garbage : ℕ → ℕ
garbage i = 170

abbrev foo : Sds
foo = new_len (102 ∷ 111 ∷ 111 ∷ [])

foo-IsSds : IsSds foo
unfolding new_len
foo-IsSds = record { allocated = refl; nul = refl }

cat_len_lem_example :
    (s' : Sds) × (cat_len garbage foo (98 ∷ 97 ∷ []) ≡ some s')
    × IsSds s'
    × (contents s' ≡ contents foo ++ (98 ∷ 97 ∷ []))
    × IsShort s'
unfolding new_len
cat_len_lem_example = cat_len_lem garbage foo (98 ∷ 97 ∷ []) foo-IsSds (omega arith) (omega arith)

grow_zero_lem_example :
    (s' : Sds) × (grow_zero garbage foo 6 ≡ some s')
    × IsSds s'
    × (contents s' ≡ contents foo ++ replicate (6 - foo.len) 0)
    × IsShort s'
unfolding new_len
grow_zero_lem_example = grow_zero_lem garbage foo 6 foo-IsSds (omega arith) (omega arith)
