-- ===== src/Slowlog/Trim.antt =====
-- redis/src/slowlog.c: which entries the log keeps.
use coffee_table.Prelude.{
  ℕ, zero, suc, ◌≤◌, ◌≡◌, refl, ap, sym, ◌∙◌, false, not, List, [], ◌∷◌, length, take, ltb,
  if◌then◌else◌, arith, inl, inr, Bool-cases,
}
use coffee_table.Prelude.Int.{ℤ, pos, ltb_ℤ}
use coffee_table.Slowlog.{drop_last, trim_loop, push_entry_if_needed}

take_all {ℓ} : {A : Type ℓ} (n : ℕ) (xs : List A) → length xs ≤ n → take n xs ≡ xs
take_all zero [] h = refl
take_all (suc n) [] h = refl
take_all zero (x ∷ xs) h = absurd (omega arith)
take_all (suc n) (x ∷ xs) h = ap (x ∷◌) (take_all n xs (omega arith))

length-drop_last {ℓ} : {A : Type ℓ} (x : A) (xs : List A) → length (drop_last (x ∷ xs)) ≡ length xs
length-drop_last x [] = refl
length-drop_last x (y ∷ xs) = ap suc (length-drop_last y xs)

take-drop_last {ℓ} :
    {A : Type ℓ} (n : ℕ) (x : A) (xs : List A)
    → n ≤ length xs
    → take n (drop_last (x ∷ xs)) ≡ take n (x ∷ xs)
take-drop_last zero x [] h = refl
take-drop_last zero x (y ∷ xs) h = refl
take-drop_last (suc n) x [] h = absurd (omega arith)
take-drop_last (suc n) x (y ∷ xs) h = ap (x ∷◌) (take-drop_last n y xs (omega arith))

no_room : (n : ℕ) → ltb n 0 ≡ false
no_room n = ground arith

trim_loop_lem {ℓ} :
    {A : Type ℓ} (fuel n : ℕ) (xs : List A) → length xs ≤ fuel → trim_loop fuel n xs ≡ take n xs
unfolding trim_loop
trim_loop_lem zero n xs h = sym (take_all n xs (omega arith))
trim_loop_lem (suc fuel) n [] h = rw (no_room n) (sym (take_all n [] (omega arith)))
trim_loop_lem (suc fuel) n (x ∷ xs) h = elim (Bool-cases (ltb n (length (x ∷ xs)))) [
  | inl long ↦ rw long (
      trim_loop_lem fuel n (drop_last (x ∷ xs)) (omega (arith, length-drop_last x xs))
      ∙ take-drop_last n x xs (ground arith))
  | inr fits ↦ rw fits (sym (take_all n (x ∷ xs) (ground arith)))
]

-- When the log is enabled, `slowlogPushEntryIfNeeded` leaves the newest entries, as many as the maximum
-- length allows, of the log with the new entry in front if the command was slow enough.
pub push_entry_if_needed_lem {ℓ} :
    {A : Type ℓ} (slower_than : ℤ) (max_len : ℕ) (entry : A) (duration : ℤ) (log : List A)
    → ltb_ℤ slower_than (pos 0) ≡ false
    → push_entry_if_needed slower_than max_len entry duration log
      ≡ take max_len (if not (ltb_ℤ duration slower_than) then entry ∷ log else log)
unfolding push_entry_if_needed
push_entry_if_needed_lem slower_than max_len entry duration log on =
    let new = if not (ltb_ℤ duration slower_than) then entry ∷ log else log in
    rw on (trim_loop_lem (length new) max_len new (omega arith))
