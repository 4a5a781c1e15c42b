-- ===== src/Networking/Lines.antt =====
-- redis/src/networking.c: a line that has arrived, whole or in part.
use coffee_table.Prelude.{
  ℕ, zero, suc, ◌+◌, ◌≤◌, ◌<◌, ◌≡◌, refl, ap, ◌⊎◌, inl, inr, false, none, some, List, [], ◌∷◌, ◌++◌,
  length, length-append, take, drop, get_or, ◌==◌, arith,
}
use coffee_table.Protocol.{find_cr}

head_eq : (x y : ℕ) (s t : List ℕ) → x ∷ s ≡ y ∷ t → x ≡ y
head_eq x y s t e = cc

tail_eq : (x y : ℕ) (s t : List ℕ) → x ∷ s ≡ y ∷ t → s ≡ t
tail_eq x y s t e = cc

-- One text split in two ways: the first part ends in the other's first part or behind it.
pub split_whole :
    (b f p s : List ℕ)
    → b ++ f ≡ p ++ s
    → length p ≤ length b
    → (b' : List ℕ) × (b ≡ p ++ b') × (b' ++ f ≡ s)
split_whole b f [] s e h = (b, refl, e)
split_whole [] f (y ∷ p) s e h = absurd (omega arith)
split_whole (x ∷ b) f (y ∷ p) s e h =
    let (b', e1, e2) = split_whole b f p s (tail_eq x y (b ++ f) (p ++ s) e) (omega arith) in
    let same = head_eq x y (b ++ f) (p ++ s) e in (b', cc, e2)

pub split_part :
    (b f p s : List ℕ)
    → b ++ f ≡ p ++ s
    → length b < length p
    → (p' : List ℕ) × (p ≡ b ++ p') × (0 < length p')
split_part [] f p s e h = (p, refl, omega arith)
split_part (x ∷ b) f [] s e h = absurd (omega arith)
split_part (x ∷ b) f (y ∷ p) s e h =
    let (p', e1, e2) = split_part b f p s (tail_eq x y (b ++ f) (p ++ s) e) (omega arith) in
    let same = head_eq x y (b ++ f) (p ++ s) e in (p', cc, e2)

-- neither a carriage return nor a nul
abbrev pub IsPlain : List ℕ → Type 0
IsPlain [] = Unit {0}
IsPlain (c ∷ s) = (c == 13 ≡ false) × (c == 0 ≡ false) × IsPlain s

pub find_cr-line :
    (line s : List ℕ) → IsPlain line → find_cr (line ++ (13 ∷ s)) ≡ some (length line)
unfolding find_cr
find_cr-line [] s h = refl
find_cr-line (c ∷ line) s (h1, h2, h) = rw (h1, h2, find_cr-line line s h) refl

-- a line that has not arrived whole
pub find_cr-part :
    (line b p' : List ℕ)
    → IsPlain line
    → line ++ (13 ∷ 10 ∷ []) ≡ b ++ p'
    → 0 < length p'
    → (find_cr b ≡ none) ⊎ ((find_cr b ≡ some (length line)) × (length b ≡ length line + 1))
unfolding find_cr
find_cr-part line [] p' h e more = inl refl
find_cr-part [] (x ∷ []) p' h e more =
    let here : 13 ≡ x = head_eq 13 x (10 ∷ []) p' e in inr (rw (← here) refl, omega arith)
find_cr-part [] (x ∷ y ∷ b) p' h e more = absurd (omega (arith, ap length e, length-append b p'))
find_cr-part (c ∷ line) (x ∷ b) p' (h1, h2, h) e more =
    let here : c ≡ x = head_eq c x (line ++ (13 ∷ 10 ∷ [])) (b ++ p') e in
    let later = find_cr-part line b p' h (tail_eq c x (line ++ (13 ∷ 10 ∷ [])) (b ++ p') e) more in
    elim later [
      | inl missing ↦ inl (rw (← here, h1, h2, missing) refl)
      | inr (found, long) ↦ inr (rw (← here, h1, h2, found) refl, omega arith)
    ]

pub take-append_self : (s t : List ℕ) → take (length s) (s ++ t) ≡ s
take-append_self [] t = refl
take-append_self (x ∷ s) t = ap (λ i. x ∷ i) (take-append_self s t)

pub drop-append_self : (s t : List ℕ) → drop (length s) (s ++ t) ≡ t
drop-append_self [] t = refl
drop-append_self (x ∷ s) t = drop-append_self s t

pub get_or-drop : (n : ℕ) (s : List ℕ) → get_or s n 0 ≡ get_or (drop n s) 0 0
get_or-drop zero s = refl
get_or-drop (suc n) [] = refl
get_or-drop (suc n) (x ∷ s) = get_or-drop n s
