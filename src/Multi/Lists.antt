-- ===== src/Multi/Lists.antt =====
-- redis/src/multi.c: the two lists that a watched key stands in, the key's of clients and the client's
-- of keys, agree.
use coffee_table.Prelude.{
  ℕ, ◌+◌, ◌-◌, ◌≤◌, ◌≡◌, refl, ap, sym, ◌∙◌, true, false, List, [], ◌∷◌, ◌++◌, if◌then◌else◌, ◌==◌,
  Bool-cases, inl, inr, arith, ==_iff,
}
use coffee_table.Dict.Bucket.{KeyType}
use coffee_table.Multi.{State, has_client, has_key, drop_client, watch_for_key}
use coffee_table.Multi.Exec.{IsWatching}

abbrev pub count_client : ℕ → List ℕ → ℕ
count_client c [] = 0
count_client c (d ∷ ds) = (if c == d then 1 else 0) + count_client c ds

pub count_client-append :
    (c d : ℕ) (ds : List ℕ)
    → count_client c (ds ++ (d ∷ [])) ≡ count_client c ds + (if c == d then 1 else 0)
count_client-append c d [] = omega arith
count_client-append c d (e ∷ ds) = omega (arith, count_client-append c d ds)

pub count_client-drop_client :
    (c d : ℕ) (ds : List ℕ)
    → count_client c (drop_client d ds)
      ≡ (if c == d then count_client c ds - 1 else count_client c ds)
count_client-drop_client c d [] = ground arith
count_client-drop_client c d (e ∷ ds) = ground (arith, count_client-drop_client c d ds)

pub counted_client : (c : ℕ) (ds : List ℕ) → count_client c ds ≡ 1 → has_client c ds ≡ true
counted_client c [] h = absurd (omega arith)
counted_client c (d ∷ ds) h = ground (arith, counted_client c ds)

module _ {K : Type 0} ⦃type : KeyType K⦄ where
  abbrev pub count_key : K → List K → ℕ
  count_key k [] = 0
  count_key k (j ∷ js) = (if type.compare k j then 1 else 0) + count_key k js

  pub count_key-append :
      (k j : K) (js : List K)
      → count_key k (js ++ (j ∷ [])) ≡ count_key k js + (if type.compare k j then 1 else 0)
  count_key-append k j [] = omega arith
  count_key-append k j (i ∷ js) = omega (arith, count_key-append k j js)

  pub no_key : (k : K) (js : List K) → has_key k js ≡ false → count_key k js ≡ 0
  no_key k [] h = refl
  no_key k (j ∷ js) h = ground (arith, no_key k js)

  uncounted_key : (k : K) (js : List K) → count_key k js ≡ 0 → has_key k js ≡ false
  uncounted_key k [] h = refl
  uncounted_key k (j ∷ js) h = ground (arith, uncounted_key k js)

  pub some_key : (k : K) (js : List K) → has_key k js ≡ true → 1 ≤ count_key k js
  some_key k [] h = cc
  some_key k (j ∷ js) h = ground (arith, some_key k js)

  key_itself : (k : K) → type.compare k k ≡ true
  key_itself k = (type.compare_iff k k).1 refl

  -- A client stands in the list of a key as often as the key in the client's, and at most once.
  pub record Agree {C : Type 0} (s : State K C) : Type 0 where
    pub counts : (c : ℕ) (k : K) → count_client c (s.watchers k) ≡ count_key k (s.clients c).watched
    pub once : (c : ℕ) (k : K) → count_client c (s.watchers k) ≤ 1

  watching :
      (c : ℕ) (ks : List K) (w : K → List ℕ)
      → ((k : K) → count_key k ks ≤ 1)
      → ((k : K) → count_key k ks ≡ 1 → has_client c (w k) ≡ true)
      → IsWatching c ks w
  watching c [] w single there = tt
  watching c (k ∷ ks) w single there =
      let first : count_key k (k ∷ ks) ≡ 1 + count_key k ks = rw (key_itself k) refl in
      let none_left : count_key k ks ≡ 0 = omega (arith, single k) in
      (
        there k (omega arith),
        uncounted_key k ks none_left,
        watching c ks w (λ j. omega (arith, single j)) (λ j h. there j (ground (arith, single j))),
      )

  compare_sym : (j k : K) → type.compare j k ≡ true → type.compare k j ≡ true
  compare_sym j k h = (type.compare_iff k j).1 (sym ((type.compare_iff j k).0 h))

  module _ {C : Type 0} where
    pub Agree-IsWatching :
        (c : ℕ) (s : State K C) → Agree s → IsWatching c (s.clients c).watched s.watchers
    Agree-IsWatching c s ok =
        watching c (s.clients c).watched s.watchers (λ k. omega (arith, ok.counts c k, ok.once c k))
          (λ k h. counted_client c (s.watchers k) (ok.counts c k ∙ h))

    added_counts :
        (c : ℕ) (k : K) (s : State K C) (d : ℕ) (j : K)
        → Agree s
        → count_client d (if type.compare j k then s.watchers j ++ (c ∷ []) else s.watchers j)
          ≡ count_key j
              (if d == c
                then record (s.clients d) { watched = (s.clients d).watched ++ (k ∷ []) }
                else s.clients d).watched
    added_counts c k s d j ok = elim (Bool-cases (type.compare j k)) [
      | inl here ↦ elim (Bool-cases (d == c)) [
        | inl me ↦
            rw
              (
                here,
                me,
                count_client-append d c (s.watchers j),
                count_key-append j k (s.clients d).watched,
                ok.counts d j,
                here,
                me,
              )
              refl
        | inr other ↦
            rw (here, other, count_client-append d c (s.watchers j), ok.counts d j, other)
              (omega arith)
      ]
      | inr there ↦ elim (Bool-cases (d == c)) [
        | inl me ↦
            rw (there, me, count_key-append j k (s.clients d).watched, ok.counts d j, there)
              (omega arith)
        | inr other ↦ rw (there, other) (ok.counts d j)
      ]
    ]

    added_once :
        (c : ℕ) (k : K) (s : State K C) (d : ℕ) (j : K)
        → Agree s
        → has_key k (s.clients c).watched ≡ false
        → count_client d (if type.compare j k then s.watchers j ++ (c ∷ []) else s.watchers j) ≤ 1
    added_once c k s d j ok new = elim (Bool-cases (type.compare j k)) [
      | inr there ↦ rw there (ok.once d j)
      | inl here ↦ elim (Bool-cases (d == c)) [
        | inr other ↦
            rw (here, count_client-append d c (s.watchers j), other) (omega (arith, ok.once d j))
        | inl me ↦
            let same_key = (type.compare_iff j k).0 here in
            let same_client = (==_iff d c).0 me in
            let absent : count_client d (s.watchers j) ≡ 0 =
              ok.counts d j
              ∙ ap (λ i. count_key i (s.clients d).watched) same_key
              ∙ ap (λ i. count_key k (s.clients i).watched) same_client
              ∙ no_key k (s.clients c).watched new in
            rw (here, count_client-append d c (s.watchers j), me, absent) (omega arith)
      ]
    ]

    -- `watchForKey` keeps the lists in agreement.
    pub watch_for_key-Agree :
        (c : ℕ) (k : K) (s : State K C) → Agree s → Agree (watch_for_key c k s)
    unfolding watch_for_key
    watch_for_key-Agree c k s ok = elim (Bool-cases (has_key k (s.clients c).watched)) [
      | inl already ↦ rw already ok
      | inr new ↦ rw new (record {
        counts = λ d j. added_counts c k s d j ok;
        once = λ d j. added_once c k s d j ok new;
      })
    ]
