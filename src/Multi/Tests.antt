-- ===== src/Multi/Tests.antt =====
-- The theorem on EXEC of redis/src/multi.c for a client that watches one key.
use coffee_table.Prelude.{
  List, Option, ℕ, ◌≡◌, refl, true, false, some, [], ◌∷◌, none, length, arith, if◌then◌else◌, ◌==◌,
}
use coffee_table.Act.{Act, pure}
use coffee_table.Db.Fixture.{number_keys}
use coffee_table.Multi.{
  State, null_multi_bulk, ok, results, MultiReply, unwatch_all_keys, exec_command,
  touch_watched_key, has_client,
}
use coffee_table.Multi.Exec.{exec_command-touch}
use coffee_table.Multi.Lists.{Agree}
use coffee_table.Multi.Run.{
  Command, multi, exec, watch, queue, touch, perform_all, Safe, perform_all-Agree,
  exec_command-clean, InOrder,
}
use coffee_table.Multi.Touch.{dirtied, touch_watched_key_lem}

abbrev waiting : State ℕ ℕ
waiting = record {
  clients = λ c. record { multi = true; dirty_cas = false; commands = 3 ∷ []; watched = 7 ∷ [] };
  watchers = λ k. if k == 7 then 4 ∷ [] else [];
  dirty = 0;
}

abbrev answer : ℕ → Act (State ℕ ℕ) ℕ
answer command = pure command

exec_command-touch_example :
    (s' : State ℕ ℕ) × (exec_command answer 4 (touch_watched_key 7 waiting)
      ≡ some (null_multi_bulk, s'))
    × (s'.clients 4 ≡ record { multi = false; dirty_cas = false; commands = []; watched = [] })
exec_command-touch_example = exec_command-touch answer 4 7 waiting refl (refl, refl, tt) refl

touch_watched_key_lem_example :
    ((d : ℕ)
      → (touch_watched_key 7 waiting).clients d
        ≡ dirtied (waiting.clients d) (has_client d (waiting.watchers 7)))
    × ((touch_watched_key 7 waiting).watchers ≡ waiting.watchers)
touch_watched_key_lem_example = touch_watched_key_lem 7 waiting

-- nobody watches anything
abbrev idle : State ℕ ℕ
idle = record {
  clients = λ c. record { multi = false; dirty_cas = false; commands = []; watched = [] };
  watchers = λ k. [];
  dirty = 0;
}

idle-Agree : Agree idle
idle-Agree = record { counts = λ c k. refl; once = λ c k. omega arith }

answer-Safe : (cmd : ℕ) (s : State ℕ ℕ) → Agree s → Safe answer (answer cmd s)
answer-Safe cmd s agree = (cmd, s, refl, agree)

-- client 1 watches a key that client 2 changes; client 3 watches another
abbrev story : List (ℕ × Command ℕ ℕ)
story =
    (1, watch (7 ∷ []))
    ∷ (3, watch (8 ∷ []))
    ∷ (1, multi)
    ∷ (3, multi)
    ∷ (1, queue 5)
    ∷ (3, queue 6)
    ∷ (2, touch 7)
    ∷ (1, exec)
    ∷ (3, exec)
    ∷ []

abbrev replies : Option (List (MultiReply ℕ) × State ℕ ℕ) → List (MultiReply ℕ)
replies none = []
replies (some (rs, s)) = rs

story-replies :
    replies (perform_all answer story idle)
    ≡ ok ∷ ok ∷ ok ∷ ok ∷ ok ∷ ok ∷ ok ∷ null_multi_bulk ∷ results (6 ∷ []) ∷ []
unfolding perform_all
story-replies = refl

perform_all-Agree_example :
    (rs : List (MultiReply ℕ)) × (s' : State ℕ ℕ) × (perform_all answer story idle ≡ some (rs, s'))
    × Agree s'
perform_all-Agree_example = perform_all-Agree answer answer-Safe story idle idle-Agree

-- every client is in MULTI with two commands, and watches nothing
abbrev ready : State ℕ ℕ
ready = record {
  clients = λ c. record { multi = true; dirty_cas = false; commands = 3 ∷ 5 ∷ []; watched = [] };
  watchers = λ k. [];
  dirty = 0;
}

exec_command-clean_example :
    (rs : List ℕ) × (s1 s2 s' : State ℕ ℕ) × (unwatch_all_keys 4 ready ≡ some (tt, s1))
    × InOrder answer (3 ∷ 5 ∷ []) s1 rs s2
    × (exec_command answer 4 ready ≡ some (results rs, s'))
    × (s'.clients 4 ≡ record (s2.clients 4) { commands = []; multi = false; dirty_cas = false })
    × (length rs ≡ 2)
    × Agree s'
exec_command-clean_example =
    exec_command-clean answer answer-Safe 4 ready
      (record { counts = λ c k. refl; once = λ c k. omega arith }) refl refl
