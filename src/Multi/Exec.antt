-- ===== src/Multi/Exec.antt =====
-- redis/src/multi.c: EXEC after a watched key was touched.
use coffee_table.Prelude.{
  ℕ, ◌≡◌, refl, ap, sym, ◌∙◌, Bool, true, false, ◌||◌, some, List, [], ◌∷◌, if◌then◌else◌, ◌==◌,
  Bool-cases, inl, inr, ==_iff,
}
use coffee_table.Act.{Act}
use coffee_table.Dict.Bucket.{KeyType}
use coffee_table.Multi.{
  State, null_multi_bulk, has_client, has_key, drop_client, change_watchers, touch_watched_key,
  exec_command, exec_dirty, unwatch_all_keys, unwatch_loop, init_multi_state, clear_flags,
}
use coffee_table.Multi.Touch.{touch_watched_key_lem, or_true}

pub itself : (c : ℕ) → (c == c) ≡ true
itself c = (==_iff c c).1 refl

or_false_parts : (a b : Bool) → (a || b) ≡ false → (a ≡ false) × (b ≡ false)
or_false_parts true b h = cc
or_false_parts false b h = (refl, h)

module _ {K : Type 0} ⦃type : KeyType K⦄ where
  -- The client is in the list of each of the keys, and the keys are different.
  abbrev pub IsWatching : ℕ → List K → (K → List ℕ) → Type 0
  IsWatching c [] w = Unit
  IsWatching c (k ∷ ks) w = (has_client c (w k) ≡ true) × (has_key k ks ≡ false) × IsWatching c ks w

  pub compare_other : (j k : K) → type.compare k j ≡ false → type.compare j k ≡ false
  compare_other j k h = elim (Bool-cases (type.compare j k)) [
    | inl e ↦
        let same = (type.compare_iff k j).1 (sym ((type.compare_iff j k).0 e)) in
        absurd (let wrong : true ≡ false = sym same ∙ h in cc)
    | inr e ↦ e
  ]

  pub still-IsWatching :
      (c : ℕ) (k : K) (f : List ℕ → List ℕ) (ks : List K) (w : K → List ℕ)
      → has_key k ks ≡ false
      → IsWatching c ks w
      → IsWatching c ks (λ j. if type.compare j k then f (w j) else w j)
  still-IsWatching c k f [] w h ok = tt
  still-IsWatching c k f (j ∷ ks) w h ok =
      let (first, rest) = or_false_parts (type.compare k j) (has_key k ks) h in
      (rw (compare_other j k first) ok.0, ok.1, still-IsWatching c k f ks w rest ok.2)

module _ {K C : Type 0} ⦃type : KeyType K⦄ where
  unwatch_loop-runs :
      (c : ℕ) (ks : List K) (s : State K C)
      → IsWatching c ks s.watchers
      → (s' : State K C) × (unwatch_loop c ks s ≡ some (tt, s')) × (s'.clients ≡ s.clients)
  unfolding unwatch_loop
  unwatch_loop-runs c [] s ok = (s, refl, refl)
  unwatch_loop-runs c (k ∷ ks) s ok =
      let next =
        unwatch_loop-runs c ks (change_watchers k (drop_client c) s)
          (still-IsWatching c k (drop_client c) ks s.watchers ok.1 ok.2) in
      (next.0, rw (ok.0, next.1) refl, next.2)

  unwatch_all_keys-runs :
      (c : ℕ) (s : State K C)
      → IsWatching c (s.clients c).watched s.watchers
      → (s' : State K C) × (unwatch_all_keys c s ≡ some (tt, s'))
        × (s'.clients c ≡ record (s.clients c) { watched = [] })
  unfolding unwatch_all_keys
  unwatch_all_keys-runs c s ok =
      let r = unwatch_loop-runs c (s.clients c).watched s ok in
      (
        record r.0 {
          clients = λ d. if d == c then record (r.0.clients d) { watched = [] } else r.0.clients d;
        },
        rw r.1 refl,
        rw (itself c, r.2) refl,
      )

  exec_dirty-runs :
      {R : Type 0} (c : ℕ) (s : State K C)
      → IsWatching c (s.clients c).watched s.watchers
      → (s' : State K C) × (exec_dirty {R = R} c s ≡ some (null_multi_bulk, s'))
        × (s'.clients c ≡ record { multi = false; dirty_cas = false; commands = []; watched = [] })
  unfolding exec_dirty init_multi_state clear_flags
  exec_dirty-runs c s ok =
      let s1 = clear_flags c (init_multi_state c s) in
      let r = unwatch_all_keys-runs c s1 (rw (itself c) ok) in
      (r.0, rw r.1 refl, r.2 ∙ rw (itself c) refl)

  pub exec_command-dirty :
      {R : Type 0} (call : C → Act (State K C) R) (c : ℕ) (s : State K C)
      → (s.clients c).multi ≡ true
      → (s.clients c).dirty_cas ≡ true
      → exec_command call c s ≡ exec_dirty c s
  unfolding exec_command
  exec_command-dirty call c s inside dirty = rw (inside, dirty) refl

  -- When a client in MULTI watches keys, once each, and one of them is touched, EXEC replies a null
  -- multi bulk and runs none of the queued commands, whatever they would do. The client is out of MULTI
  -- then, its flag is cleared, and it has no queued commands and no watched keys.
  pub exec_command-touch :
      {R : Type 0} (call : C → Act (State K C) R) (c : ℕ) (k : K) (s : State K C)
      → (s.clients c).multi ≡ true
      → IsWatching c (s.clients c).watched s.watchers
      → has_client c (s.watchers k) ≡ true
      → (s' : State K C) × (exec_command call c (touch_watched_key k s)
          ≡ some (null_multi_bulk, s'))
        × (s'.clients c ≡ record { multi = false; dirty_cas = false; commands = []; watched = [] })
  exec_command-touch {R} call c k s inside watching there =
      let touched = touch_watched_key_lem k s in
      let client = touched.0 c in
      let r = exec_dirty-runs {R = R} c (touch_watched_key k s) (rw (client, touched.1) watching) in
      let runs =
        exec_command-dirty call c (touch_watched_key k s) (ap (λ x. x.multi) client ∙ inside)
          (ap (λ x. x.dirty_cas) client ∙ rw there (or_true (s.clients c).dirty_cas)) in
      (r.0, runs ∙ r.1, r.2)
