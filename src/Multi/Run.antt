-- ===== src/Multi/Run.antt =====
-- redis/src/multi.c: any interleaving of the clients' commands.
use coffee_table.Prelude.{
  ℕ, suc, ◌+◌, ◌≡◌, refl, ap, ◌∙◌, Bool, true, false, not, Option, some, List, [], ◌∷◌, ◌++◌,
  length, if◌then◌else◌, ◌==◌, Bool-cases, inl, inr,
}
use coffee_table.Act.{Act, ◌>>=◌, pure}
use coffee_table.Dict.Bucket.{KeyType}
use coffee_table.Multi.{
  Client, State, MultiReply, ok, results, null_multi_bulk, nested, discard_without_multi,
  exec_without_multi, watch_inside_multi, change_client, init_multi_state, clear_flags,
  queue_multi_command, touch_watched_key, multi_command, discard_command, discard_transaction,
  exec_command, exec_clean, exec_dirty, run_commands, watch_command, watch_keys, unwatch_command,
  unwatch_all_keys,
}
use coffee_table.Multi.Exec.{itself, exec_command-dirty}
use coffee_table.Multi.Touch.{touch_watched_key_lem}
use coffee_table.Multi.Lists.{Agree, watch_for_key-Agree}
use coffee_table.Multi.Unwatch.{unwatch_all_keys-Agree}

-- what a client, or the server for it, does; `queue` stands for a command that arrives inside MULTI
pub data Command (K C : Type 0) : Type 0 where
  multi discard exec unwatch : Command K C
  watch : List K → Command K C
  queue : C → Command K C
  touch : K → Command K C

module _ {K C R : Type 0} ⦃type : KeyType K⦄ (call : C → Act (State K C) R) where
  unfoldable pub perform : ℕ → Command K C → Act (State K C) (MultiReply R)
  unfolding multi_command discard_command exec_command unwatch_command watch_command
      queue_multi_command touch_watched_key
  perform c multi = multi_command c
  perform c discard = discard_command c
  perform c exec = exec_command call c
  perform c unwatch = unwatch_command c
  perform c (watch ks) = watch_command c ks
  perform c (queue cmd) = λ s. some (ok, queue_multi_command c cmd s)
  perform c (touch k) = λ s. some (ok, touch_watched_key k s)

  -- the commands of all clients in the order in which they arrive
  unfoldable pub perform_all : List (ℕ × Command K C) → Act (State K C) (List (MultiReply R))
  unfolding perform
  perform_all [] = pure []
  perform_all ((c, command) ∷ rest) = do r ← perform c command; rs ← perform_all rest; pure (r ∷ rs)

  -- a run that ends, in a state whose lists agree
  abbrev pub Safe : {A : Type 0} → Option (A × State K C) → Type 0
  Safe {A} r = (a : A) × (s' : State K C) × (r ≡ some (a, s')) × Agree s'

module _ {K C : Type 0} ⦃type : KeyType K⦄ where
  -- a change of the clients that keeps what they watch
  unwatched_change :
      (s s' : State K C)
      → ((j : K) → s'.watchers j ≡ s.watchers j)
      → ((d : ℕ) → (s'.clients d).watched ≡ (s.clients d).watched)
      → Agree s
      → Agree s'
  unwatched_change s s' lists clients agree = record {
    counts = λ d j. rw (lists j, clients d) (agree.counts d j);
    once = λ d j. rw (lists j) (agree.once d j);
  }

  change_client-Agree :
      (c : ℕ) (f : Client K C → Client K C) (s : State K C)
      → ((x : Client K C) → (f x).watched ≡ x.watched)
      → Agree s
      → Agree (change_client c f s)
  change_client-Agree c f s kept agree =
      unwatched_change s (change_client c f s) (λ j. refl)
        (λ d. elim (Bool-cases (d == c)) [
          | inl me ↦ rw me (kept (s.clients d))
          | inr other ↦ rw other refl
        ])
        agree

  touch-Agree : (k : K) (s : State K C) → Agree s → Agree (touch_watched_key k s)
  touch-Agree k s agree =
      let t = touch_watched_key_lem k s in
      unwatched_change s (touch_watched_key k s) (λ j. ap (λ w. w j) t.1)
        (λ d. ap (λ (x : Client K C). x.watched) (t.0 d)) agree

  watch_keys-Agree : (c : ℕ) (ks : List K) (s : State K C) → Agree s → Agree (watch_keys c ks s)
  unfolding watch_keys
  watch_keys-Agree c [] s agree = agree
  watch_keys-Agree c (k ∷ ks) s agree = watch_keys-Agree c ks _ (watch_for_key-Agree c k s agree)

  reset_client : (c : ℕ) (s : State K C) → Agree s → Agree (clear_flags c (init_multi_state c s))
  unfolding clear_flags init_multi_state
  reset_client c s agree =
      change_client-Agree c (λ x. record x { multi = false; dirty_cas = false }) _ (λ x. refl)
        (change_client-Agree c (λ x. record x { commands = [] }) s (λ x. refl) agree)

-- What commands run one after the other reply and leave: the first one runs on the state `s`, each
-- other one on the state that the one before it left, and the results stand in the same order.
pub data InOrder {S C R : Type 0} (call : C → Act S R) : List C → S → List R → S → Type 0 where
  no_more : (s : S) → InOrder call [] s [] s
  then_more :
      (cmd : C) (cmds : List C) (s s1 s2 : S) (r : R) (rs : List R)
      → call cmd s ≡ some (r, s1)
      → InOrder call cmds s1 rs s2
      → InOrder call (cmd ∷ cmds) s (r ∷ rs) s2

unless {ℓ} : {A : Type ℓ} {b : Bool} (x y : A) → b ≡ true → (if not b then x else y) ≡ y
unless x y h = rw h refl

module _ {K C R : Type 0} ⦃type : KeyType K⦄ (call : C → Act (State K C) R)
    (call_safe : (cmd : C) (s : State K C) → Agree s → Safe call (call cmd s)) where
  run_commands-safe :
      (cmds : List C) (s : State K C)
      → Agree s
      → (rs : List R) × (s' : State K C) × (run_commands call cmds s ≡ some (rs, s'))
        × Agree s'
        × (length rs ≡ length cmds)
        × InOrder call cmds s rs s'
  unfolding run_commands
  run_commands-safe [] s agree = ([], s, refl, agree, refl, no_more s)
  run_commands-safe (cmd ∷ cmds) s agree =
      let (r, s1, run1, agree1) = call_safe cmd s agree in
      let (rs, s2, run2, agree2, len, ordered) = run_commands-safe cmds s1 agree1 in
      (
        r ∷ rs,
        s2,
        rw (run1, run2) refl,
        agree2,
        ap suc len,
        then_more cmd cmds s s1 s2 r rs run1 ordered,
      )

  exec_dirty-Safe : (c : ℕ) (s : State K C) → Agree s → Safe call (exec_dirty {R = R} c s)
  unfolding exec_dirty
  exec_dirty-Safe c s agree =
      let (s1, run, agree1, rest) = unwatch_all_keys-Agree c _ (reset_client c s agree) in
      (null_multi_bulk, s1, rw run refl, agree1)

  -- When the lists agree and every command that a transaction may hold runs without a fault and keeps
  -- them so, EXEC of a client in MULTI whose flag is clear runs all its queued commands: the first one
  -- on the state that unwatching all keys leaves, each other one on the state that the one before it
  -- left. It replies their results in that order, one for each, and leaves the client out of MULTI with
  -- no queued commands.
  pub exec_command-clean :
      (c : ℕ) (s : State K C)
      → Agree s
      → (s.clients c).multi ≡ true
      → (s.clients c).dirty_cas ≡ false
      → (rs : List R) × (s1 s2 s' : State K C) × (unwatch_all_keys c s ≡ some (tt, s1))
        × InOrder call (s.clients c).commands s1 rs s2
        × (exec_command call c s ≡ some (results rs, s'))
        × (s'.clients c ≡ record (s2.clients c) { commands = []; multi = false; dirty_cas = false })
        × (length rs ≡ length (s.clients c).commands)
        × Agree s'
  unfolding exec_command exec_clean init_multi_state clear_flags
  exec_command-clean c s agree inside clean =
      let u = unwatch_all_keys-Agree c s agree in
      let s1 = u.0 in
      let commands_kept : (s1.clients c).commands ≡ (s.clients c).commands =
        ap (λ (x : Client K C). x.commands) (u.3 c) ∙ rw (itself c) refl in
      let r = run_commands-safe (s.clients c).commands s1 u.2 in
      let s2 = r.1 in
      let s3 = clear_flags c (init_multi_state c s2) in
      let a3 = reset_client c s2 r.3 in
      (
        r.0,
        s1,
        s2,
        record s3 { dirty = s3.dirty + 1 },
        u.1,
        r.5,
        rw (inside, clean, u.1, commands_kept, r.2) refl,
        rw (itself c) refl,
        r.4,
        record { counts = a3.counts; once = a3.once },
      )

  exec_outside :
      (c : ℕ) (s : State K C)
      → (s.clients c).multi ≡ false
      → exec_command call c s ≡ some (exec_without_multi, s)
  unfolding exec_command
  exec_outside c s outside = rw outside refl

  exec-Safe : (c : ℕ) (s : State K C) → Agree s → Safe call (exec_command call c s)
  exec-Safe c s agree = elim (Bool-cases (s.clients c).multi) [
    | inr outside ↦ (exec_without_multi, s, exec_outside c s outside, agree)
    | inl inside ↦ elim (Bool-cases (s.clients c).dirty_cas) [
      | inl dirty ↦
          let d = exec_dirty-Safe c s agree in
          (d.0, d.1, exec_command-dirty call c s inside dirty ∙ d.2, d.3)
      | inr clean ↦
          let e = exec_command-clean c s agree inside clean in (results e.0, e.3, e.6, e.9)
    ]
  ]

  perform-Safe :
      (c : ℕ) (command : Command K C) (s : State K C)
      → Agree s
      → Safe call (perform call c command s)
  unfolding perform multi_command discard_command discard_transaction unwatch_command watch_command
      queue_multi_command
  perform-Safe c multi s agree = elim (Bool-cases (s.clients c).multi) [
    | inl inside ↦ (nested, s, rw inside refl, agree)
    | inr outside ↦ (
      ok,
      _,
      rw outside refl,
      change_client-Agree c (λ x. record x { multi = true }) s (λ x. refl) agree,
    )
  ]
  perform-Safe c discard s agree = elim (Bool-cases (s.clients c).multi) [
    | inr outside ↦ (discard_without_multi, s, rw outside refl, agree)
    | inl inside ↦
        let u = unwatch_all_keys-Agree c _ (reset_client c s agree) in
        (ok, u.0, unless _ _ inside ∙ rw u.1 refl, u.2)
  ]
  perform-Safe c exec s agree = exec-Safe c s agree
  perform-Safe c unwatch s agree =
      let u = unwatch_all_keys-Agree c s agree in
      (
        ok,
        _,
        rw u.1 refl,
        change_client-Agree c (λ x. record x { dirty_cas = false }) u.0 (λ x. refl) u.2,
      )
  perform-Safe c (watch ks) s agree = elim (Bool-cases (s.clients c).multi) [
    | inl inside ↦ (watch_inside_multi, s, rw inside refl, agree)
    | inr outside ↦ (ok, watch_keys c ks s, rw outside refl, watch_keys-Agree c ks s agree)
  ]
  perform-Safe c (queue cmd) s agree = (
    ok,
    _,
    refl,
    change_client-Agree c (λ x. record x { commands = x.commands ++ (cmd ∷ []) }) s (λ x. refl)
        agree,
  )
  perform-Safe c (touch k) s agree = (ok, _, refl, touch-Agree k s agree)

  -- From a state in which the lists of the keys and of the clients agree, every interleaving of MULTI,
  -- DISCARD, EXEC, WATCH, UNWATCH, queued commands and touched keys runs without a fault and ends in
  -- such a state, when every command that a transaction may hold does.
  pub perform_all-Agree :
      (commands : List (ℕ × Command K C)) (s : State K C)
      → Agree s
      → (rs : List (MultiReply R)) × (s' : State K C) × (perform_all call commands s
          ≡ some (rs, s'))
        × Agree s'
  unfolding perform_all
  perform_all-Agree [] s agree = ([], s, refl, agree)
  perform_all-Agree ((c, command) ∷ rest) s agree =
      let (r, s1, run1, agree1) = perform-Safe c command s agree in
      let (rs, s2, run2, agree2) = perform_all-Agree rest s1 agree1 in
      (r ∷ rs, s2, rw (run1, run2) refl, agree2)
