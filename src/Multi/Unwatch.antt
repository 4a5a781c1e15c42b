-- ===== src/Multi/Unwatch.antt =====
-- redis/src/multi.c: `unwatchAllKeys` runs, and keeps the lists of clients and keys in agreement.
use coffee_table.Prelude.{
  ℕ, ◌≤◌, ◌≡◌, refl, ap, sym, ◌∙◌, some, List, [], ◌∷◌, if◌then◌else◌, ◌==◌, Bool-cases, inl, inr,
  arith, ==_iff,
}
use coffee_table.Dict.Bucket.{KeyType}
use coffee_table.Multi.{
  Client, State, has_key, drop_client, change_watchers, change_client, unwatch_loop,
  unwatch_all_keys,
}
use coffee_table.Multi.Exec.{IsWatching, still-IsWatching}
use coffee_table.Multi.Lists.{
  Agree, count_client, count_key, count_client-drop_client, no_key, Agree-IsWatching,
}

-- the lists of the keys after the client has left those of `ks`
abbrev pub left_by : {K : Type 0} ⦃type : KeyType K⦄ → ℕ → List K → (K → List ℕ) → K → List ℕ
left_by c ks w j = if has_key j ks then drop_client c (w j) else w j

module _ {K C : Type 0} ⦃type : KeyType K⦄ where
  unwatch_loop_lem :
      (c : ℕ) (ks : List K) (s : State K C)
      → IsWatching c ks s.watchers
      → (s' : State K C) × (unwatch_loop c ks s ≡ some (tt, s'))
        × (s'.clients ≡ s.clients)
        × ((j : K) → s'.watchers j ≡ left_by c ks s.watchers j)
  unfolding unwatch_loop
  unwatch_loop_lem c [] s ok = (s, refl, refl, λ j. refl)
  unwatch_loop_lem c (k ∷ ks) s ok =
      let rest =
        unwatch_loop_lem c ks (change_watchers k (drop_client c) s)
          (still-IsWatching c k (drop_client c) ks s.watchers ok.1 ok.2) in
      (
        rest.0,
        rw (ok.0, rest.1) refl,
        rest.2,
        λ j. rest.3 j ∙ elim (Bool-cases (type.compare j k)) [
          | inr other ↦ rw other refl
          | inl here ↦
              let e = (type.compare_iff j k).0 here in
              let past = ap (λ i. has_key i ks) e ∙ ok.1 in rw (here, past) refl
        ],
      )

  counted_left :
      (c : ℕ) (s : State K C) (d : ℕ) (j : K)
      → Agree s
      → count_client d (left_by c (s.clients c).watched s.watchers j)
        ≡ count_key j
            (if d == c then record (s.clients d) { watched = [] } else s.clients d).watched
  counted_left c s d j ok = elim (Bool-cases (has_key j (s.clients c).watched)) [
    | inl there ↦ elim (Bool-cases (d == c)) [
      | inl me ↦
          rw (there, me, count_client-drop_client d c (s.watchers j), me)
            (omega (arith, ok.once d j))
      | inr other ↦
          rw (there, other, count_client-drop_client d c (s.watchers j), other) (ok.counts d j)
    ]
    | inr away ↦ elim (Bool-cases (d == c)) [
      | inl me ↦
          let same = (==_iff d c).0 me in
          rw (away, me)
            (ok.counts d j
              ∙ ap (λ i. count_key j (s.clients i).watched) same
              ∙ no_key j (s.clients c).watched away)
      | inr other ↦ rw (away, other) (ok.counts d j)
    ]
  ]

  once_left :
      (c : ℕ) (s : State K C) (d : ℕ) (j : K)
      → Agree s
      → count_client d (left_by c (s.clients c).watched s.watchers j) ≤ 1
  once_left c s d j ok =
      let count = count_client-drop_client d c (s.watchers j) in ground (arith, ok.once d j, count)

  -- When the lists agree, `unwatchAllKeys` runs without a fault and leaves them in agreement. The client
  -- watches nothing then, and the other clients are as they were.
  pub unwatch_all_keys-Agree :
      (c : ℕ) (s : State K C)
      → Agree s
      → (s' : State K C) × (unwatch_all_keys c s ≡ some (tt, s'))
        × Agree s'
        × ((d : ℕ)
            → s'.clients d
              ≡ (if d == c then record (s.clients d) { watched = [] } else s.clients d))
  unfolding unwatch_all_keys
  unwatch_all_keys-Agree c s ok =
      let r = unwatch_loop_lem c (s.clients c).watched s (Agree-IsWatching c s ok) in
      let s' = change_client c (λ x. record x { watched = [] }) r.0 in
      let same = λ (d : ℕ).
        ap (λ (f : ℕ → Client K C). if d == c then record (f d) { watched = [] } else f d) r.2 in
      (
        s',
        rw r.1 refl,
        record {
          counts = λ d j.
              ap (count_client d) (r.3 j)
              ∙ counted_left c s d j ok
              ∙ sym (ap (λ (x : Client K C). count_key j x.watched) (same d));
          once = λ d j. rw (r.3 j) (once_left c s d j ok);
        },
        same,
      )
