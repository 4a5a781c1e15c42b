-- ===== src/Slowlog/Tests.antt =====
-- The theorem on redis/src/slowlog.c for a log of two entries.
use coffee_table.Prelude.{ℕ, ◌≡◌, refl, take, not, [], ◌∷◌, if◌then◌else◌}
use coffee_table.Prelude.Int.{pos, ltb_ℤ}
use coffee_table.Slowlog.{push_entry_if_needed}
use coffee_table.Slowlog.Trim.{push_entry_if_needed_lem}

push_entry_if_needed_lem_example :
    push_entry_if_needed {A = ℕ} (pos 10) 2 8 (pos 12) (6 ∷ 5 ∷ [])
    ≡ take {A = ℕ} 2 (if not (ltb_ℤ (pos 12) (pos 10)) then 8 ∷ 6 ∷ 5 ∷ [] else 6 ∷ 5 ∷ [])
push_entry_if_needed_lem_example = push_entry_if_needed_lem (pos 10) 2 8 (pos 12) (6 ∷ 5 ∷ []) refl
