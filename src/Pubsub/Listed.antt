-- ===== src/Pubsub/Listed.antt =====
-- redis/src/pubsub.c: the lists of clients, channels and patterns changed by one element.
use coffee_table.Prelude.{
  ℕ, ◌-◌, ◌≤◌, ◌≡◌, refl, ap, sym, ◌∙◌, true, false, List, [], ◌∷◌, ◌++◌, if◌then◌else◌, ◌==◌,
  ==_iff, Bool-cases, inl, inr, arith,
}
use coffee_table.Dict.Bucket.{KeyType}
use coffee_table.Multi.{has_client, has_key}
use coffee_table.Multi.Lists.{count_client, count_key}
use coffee_table.Pubsub.{drop_key, has_pattern, drop_pattern}

pub present_client : (c : ℕ) (ds : List ℕ) → 1 ≤ count_client c ds → has_client c ds ≡ true
present_client c [] h = absurd (omega arith)
present_client c (d ∷ ds) h = ground (arith, present_client c ds)

module _ {K : Type 0} where
  -- the patterns of one client in the server's list
  abbrev pub own_patterns : ℕ → List (ℕ × K) → List K
  own_patterns c [] = []
  own_patterns c ((d, p) ∷ ps) = let rest = own_patterns c ps in if c == d then p ∷ rest else rest

  pub own_patterns-append :
      (d c : ℕ) (k : K) (ps : List (ℕ × K))
      → own_patterns d (ps ++ ((c, k) ∷ []))
        ≡ (if d == c then own_patterns d ps ++ (k ∷ []) else own_patterns d ps)
  own_patterns-append d c k [] = refl
  own_patterns-append d c k ((e, p) ∷ ps) = elim (Bool-cases (d == e)) [
    | inr other ↦ rw (other, own_patterns-append d c k ps) refl
    | inl mine ↦ elim (Bool-cases (d == c)) [
      | inl here ↦ rw (mine, own_patterns-append d c k ps, here) refl
      | inr there ↦ rw (mine, own_patterns-append d c k ps, there) refl
    ]
  ]

module _ {K : Type 0} ⦃type : KeyType K⦄ where
  same_answer : (k j i : K) → type.compare k j ≡ true → type.compare k i ≡ type.compare j i
  same_answer k j i h = ap (λ x. type.compare x i) ((type.compare_iff k j).0 h)

  pub count_key-drop_key :
      (k j : K) (js : List K)
      → count_key k (drop_key j js)
        ≡ (if type.compare k j then count_key k js - 1 else count_key k js)
  count_key-drop_key k j [] = ground arith
  count_key-drop_key k j (i ∷ js) = elim (Bool-cases (type.compare j i)) [
    | inl here ↦
        let same = ap (type.compare k) ((type.compare_iff j i).0 here) in
        rw (here, sym same)
          (elim (Bool-cases (type.compare k j)) [
            | inl e ↦ rw e (omega arith)
            | inr e ↦ rw e (omega arith)
          ])
    | inr there ↦ elim (Bool-cases (type.compare k j)) [
      | inl e ↦ rw (there, same_answer k j i e, there, count_key-drop_key k j js, e) (omega arith)
      | inr e ↦ rw (there, count_key-drop_key k j js, e) refl
    ]
  ]

  pub has_key-own_patterns :
      (c : ℕ) (k : K) (ps : List (ℕ × K)) → has_pattern c k ps ≡ has_key k (own_patterns c ps)
  has_key-own_patterns c k [] = refl
  has_key-own_patterns c k ((d, p) ∷ ps) = elim (Bool-cases (c == d)) [
    | inr other ↦ rw (other, has_key-own_patterns c k ps) refl
    | inl mine ↦ elim (Bool-cases (type.compare k p)) [
      | inl e ↦ rw (mine, e) refl
      | inr e ↦ rw (mine, e, has_key-own_patterns c k ps) refl
    ]
  ]

  pub own_patterns-drop_pattern :
      (d c : ℕ) (k : K) (ps : List (ℕ × K))
      → own_patterns d (drop_pattern c k ps)
        ≡ (if d == c then drop_key k (own_patterns d ps) else own_patterns d ps)
  own_patterns-drop_pattern d c k [] = ground arith
  own_patterns-drop_pattern d c k ((e, p) ∷ ps) =
      let later = own_patterns-drop_pattern d c k ps in
      elim (Bool-cases (d == c)) [
        | inl me ↦
            let same = ap (λ i. i == e) ((==_iff d c).0 me) in
            elim (Bool-cases (d == e)) [
              | inl mine ↦ elim (Bool-cases (type.compare k p)) [
                | inl found ↦ rw (me, sym same, mine, found) refl
                | inr next ↦ rw (me, sym same, mine, next, mine, later, me) refl
              ]
              | inr other ↦ rw (me, sym same, other, other, later, me) refl
            ]
        | inr apart ↦ elim (Bool-cases (c == e)) [
          | inl his ↦
              let other : (d == e) ≡ false = sym (ap (λ i. d == i) ((==_iff c e).0 his)) ∙ apart in
              elim (Bool-cases (type.compare k p)) [
                | inl found ↦ rw (apart, his, found, other) refl
                | inr next ↦ rw (apart, his, next, other, later, apart) refl
              ]
          | inr other ↦ elim (Bool-cases (d == e)) [
            | inl mine ↦ rw (apart, other, mine, later, apart) refl
            | inr theirs ↦ rw (apart, other, theirs, later, apart) refl
          ]
        ]
      ]
