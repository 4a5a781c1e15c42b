-- ===== src/Networking/Body.antt =====
-- redis/src/networking.c: the bytes of an argument, read in a round of the loop.
use coffee_table.Prelude.{
  ℕ, zero, suc, ◌+◌, ◌-◌, ◌≤◌, ◌<◌, ◌≡◌, refl, ap, sym, ◌∙◌, inl, inr, ◌⊎◌, false, Option, none,
  some, List, [], ◌∷◌, ◌++◌, length, length-append, length-drop, append_assoc, take, drop,
  drop-drop, ltb, leb, ◌==◌, ◌&&◌, Bool-cases, arith,
}
use coffee_table.Aof.{crlf}
use coffee_table.Protocol.{
  RequestType, multibulk_request, Round, stops, moves, bulk_body, trim, inline_max_size,
  mbulk_big_arg,
}
use coffee_table.Networking.Lines.{split_whole, take-append_self, drop-append_self}
use coffee_table.Networking.Stream.{reading}

-- `sdsrange` is called only where it would do something.
pub trim_lem :
    (p : ℕ) (t : RequestType) (buf : List ℕ) (m : ℕ) (bulk : Option ℕ) (argv : List (List ℕ))
    (ran : List (List (List ℕ)))
    → trim p (reading t buf m bulk argv ran) ≡ reading t (drop p buf) m bulk argv ran
trim_lem zero t buf m bulk argv ran = refl
trim_lem (suc p) t buf m bulk argv ran =
    let behind : suc p == 0 ≡ false = ground arith in rw behind refl

-- what a round may do that knows the length of its argument
pub data Body (arg s future buf : List ℕ) (p m : ℕ) (argv : List (List ℕ))
    (ran : List (List (List ℕ))) : Round → Type 0 where
  waits :
      length (drop p buf) < length arg + 2
      → Body arg s future buf p m argv ran (
          stops
            (false, reading multibulk_request (drop p buf) (suc m) (some (length arg)) argv ran))
  goes_on :
      (next : ℕ) (left : List ℕ)
      → next ≤ length left
      → length left ≤ inline_max_size
      → drop next left ++ future ≡ s
      → length (drop next left) < length (drop p buf)
      → Body arg s future buf p m argv ran
          (moves next (reading multibulk_request left m none (argv ++ (arg ∷ [])) ran))

pub no_more : (xs : List ℕ) → length xs ≡ 0 → xs ≡ []
no_more [] h = refl
no_more (x ∷ xs) h = absurd (omega arith)

take_part : (n : ℕ) (arg b s : List ℕ) → n ≡ length arg → b ≡ arg ++ s → take n b ≡ arg
take_part n arg b s e h = rw (e, h) (take-append_self arg s)

-- the argument and the end of its line are there
whole :
    (arg s future buf : List ℕ) (p : ℕ)
    → p ≤ length buf
    → drop p buf ++ future ≡ arg ++ (crlf ++ s)
    → length arg + 2 ≤ length (drop p buf)
    → (left : List ℕ) × (drop p buf ≡ arg ++ (crlf ++ left))
      × (left ++ future ≡ s)
      × (drop (p + (length arg + 2)) buf ≡ left)
whole arg s future buf p inside e h =
    let size = length-append arg crlf in
    let (left, e1, e2) =
      split_whole (drop p buf) future (arg ++ crlf) s (e ∙ sym (append_assoc arg crlf s))
        (omega arith) in
    let next : drop (p + (length arg + 2)) buf ≡ left = behind left e1 in
    (left, e1 ∙ append_assoc arg crlf left, e2, next)
  where
    behind :
        (left : List ℕ)
        → drop p buf ≡ (arg ++ crlf) ++ left
        → drop (p + (length arg + 2)) buf ≡ left
    behind left e1 =
        let same : length arg + 2 ≡ length (arg ++ crlf) = sym (length-append arg crlf) in
        rw (← drop-drop (length arg + 2) p buf, same, e1) (drop-append_self (arg ++ crlf) left)

pub bulk_body_lem :
    (arg s future buf : List ℕ) (p m : ℕ) (bulk : Option ℕ) (argv : List (List ℕ))
    (ran : List (List (List ℕ)))
    → p ≤ length buf
    → drop p buf ++ future ≡ arg ++ (crlf ++ s)
    → (length buf ≤ inline_max_size)
      ⊎ ((p ≡ 0) × (mbulk_big_arg ≤ length arg) × (length buf ≤ length arg + 2))
    → Body arg s future buf p m argv ran
        (bulk_body (length arg) p (reading multibulk_request buf (suc m) bulk argv ran))
bulk_body_lem arg s future buf p m bulk argv ran inside e bound =
    elim (Bool-cases (ltb (length buf - p) (length arg + 2))) [
      | inl short ↦
          let few : length (drop p buf) < length arg + 2 = ground (arith, length-drop p buf) in
          rw (short, trim_lem p multibulk_request buf (suc m) (some (length arg)) argv ran)
            (waits few)
      | inr long ↦
          let there : length arg + 2 ≤ length (drop p buf) = ground (arith, length-drop p buf) in
          taken (whole arg s future buf p inside e there) there long
    ]
  where
    count : suc m - 1 ≡ m
    count = omega arith

    copied :
        p ≡ 0
        → mbulk_big_arg ≤ length arg
        → length buf ≤ length arg + 2
        → length arg + 2 ≤ length (drop p buf)
        → ((p == 0) && leb mbulk_big_arg (length arg) && (length buf == length arg + 2)) ≡ false
        → 1 ≤ 0
    copied start big small there other =
        let full : length buf ≡ length arg + 2 = omega (arith, length-drop p buf) in ground arith

    taken :
        (left : List ℕ) × (drop p buf ≡ arg ++ (crlf ++ left))
          × (left ++ future ≡ s)
          × (drop (p + (length arg + 2)) buf ≡ left)
        → length arg + 2 ≤ length (drop p buf)
        → ltb (length buf - p) (length arg + 2) ≡ false
        → Body arg s future buf p m argv ran
            (bulk_body (length arg) p (reading multibulk_request buf (suc m) bulk argv ran))
    taken (left, e1, e2, e3) there long =
        elim (Bool-cases
          ((p == 0) && leb mbulk_big_arg (length arg) && (length buf == length arg + 2))) [
            | inl fit ↦
                let start : p ≡ 0 = ground arith in
                let size : length buf - 2 ≡ length arg = ground arith in
                let plain : buf ≡ arg ++ (crlf ++ left) = ap (λ i. drop i buf) (sym start) ∙ e1 in
                let full : length buf ≡ length arg + 2 = ground arith in
                let bare : left ≡ [] =
                  no_more left
                    (omega (arith, full, ap length plain, length-append arg (crlf ++ left))) in
                let nothing : future ≡ s = ap (λ i. i ++ future) (sym bare) ∙ e2 in
                let less : 0 < length (drop p buf) = omega arith in
                rw (long, fit, count, take_part (length buf - 2) arg buf (crlf ++ left) size plain)
                  (goes_on 0 [] (omega arith) (omega arith) nothing less)
            | inr other ↦
                let bounded : length buf ≤ inline_max_size = elim bound [
                  | inl small ↦ small
                  | inr (start, big, small) ↦
                      absurd (omega (arith, copied start big small there other))
                ] in
                let slice = take_part (length arg) arg (drop p buf) (crlf ++ left) refl e1 in
                let fits : p + (length arg + 2) ≤ length buf = omega (arith, length-drop p buf) in
                let less : length (drop (p + (length arg + 2)) buf) < length (drop p buf) =
                  omega (arith, length-drop p buf, length-drop (p + (length arg + 2)) buf) in
                rw (long, other, count, slice)
                  (goes_on (p + (length arg + 2)) buf fits bounded (rw e3 e2) less)
          ]
