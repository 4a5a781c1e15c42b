-- ===== src/Slowlog.antt =====
-- redis/src/slowlog.c: the log of slow commands, the newest entry first.
mod Tests
pub mod Trim
use coffee_table.Prelude.{ℕ, zero, suc, ◌+◌, Bool, List, [], ◌∷◌, length, ltb, not, if◌then◌else◌}
use coffee_table.Prelude.Int.{ℤ, pos, ltb_ℤ}

-- `listDelNode(server.slowlog,listLast(server.slowlog))`
abbrev pub drop_last {ℓ} : {A : Type ℓ} → List A → List A
drop_last [] = []
drop_last (a ∷ []) = []
drop_last (a ∷ b ∷ rest) = a ∷ drop_last (b ∷ rest)

-- `while (listLength(server.slowlog) > server.slowlog_max_len)`, with as much fuel as there are entries
unfoldable pub trim_loop {ℓ} : {A : Type ℓ} → ℕ → ℕ → List A → List A
trim_loop zero max_len log = log
trim_loop (suc fuel) max_len log =
    let rest = trim_loop fuel max_len (drop_last log) in
    if ltb max_len (length log) then rest else log

abbrev pub trim {ℓ} : {A : Type ℓ} → ℕ → List A → List A
trim max_len log = trim_loop (length log) max_len log

-- `slowlogPushEntryIfNeeded`
unfoldable pub push_entry_if_needed {ℓ} : {A : Type ℓ} → ℤ → ℕ → A → ℤ → List A → List A
unfolding trim_loop
push_entry_if_needed slower_than max_len entry duration log =
    if ltb_ℤ slower_than (pos 0)
    then log
    else trim max_len (if not (ltb_ℤ duration slower_than) then entry ∷ log else log)

-- `slowlogReset`
unfoldable pub reset_log {ℓ} : {A : Type ℓ} → List A → List A
unfolding trim_loop
reset_log log = trim 0 log
