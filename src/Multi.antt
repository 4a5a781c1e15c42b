-- ===== src/Multi.antt =====
-- redis/src/multi.c: MULTI, EXEC and WATCH. A client is its number; `K` is a key with its database.
mod Tests
pub mod Touch
pub mod Exec
pub mod Lists
pub mod Unwatch
pub mod Run
use coffee_table.Prelude.{
  ℕ, suc, ◌+◌, Bool, true, false, ◌&&◌, ◌||◌, not, Option, none, some, List, [], ◌∷◌, ◌++◌, map,
  if◌then◌else◌, ◌==◌,
}
use coffee_table.Act.{Act, ◌>>=◌, ◌>>◌, continue, pure, assert, modify}
use coffee_table.Dict.Bucket.{KeyType}

-- `redisClient`: REDIS_MULTI, REDIS_DIRTY_CAS, `mstate` and `watched_keys`
pub record Client (K : Type 0) (C : Type 0) : Type 0 where
  pub multi : Bool
  pub dirty_cas : Bool
  pub commands : List C
  pub watched : List K

-- a key that nobody watches has the empty list, as an entry is dropped with its last client
pub record State (K : Type 0) (C : Type 0) : Type 0 where
  pub clients : ℕ → Client K C
  pub watchers : K → List ℕ
  pub dirty : ℕ

pub data MultiReply (R : Type 0) : Type 0 where
  ok null_multi_bulk nested discard_without_multi exec_without_multi watch_inside_multi :
      MultiReply R
  results : List R → MultiReply R

abbrev pub has_client : ℕ → List ℕ → Bool
has_client c [] = false
has_client c (d ∷ ds) = (c == d) || has_client c ds

-- `listDelNode(clients,listSearchKey(clients,c))`
abbrev pub drop_client : ℕ → List ℕ → List ℕ
drop_client c [] = []
drop_client c (d ∷ ds) = if c == d then ds else d ∷ drop_client c ds

abbrev pub has_key : {K : Type 0} ⦃type : KeyType K⦄ → K → List K → Bool
has_key k [] = false
has_key ⦃type⦄ k (j ∷ js) = type.compare k j || has_key k js

module _ {K C : Type 0} where
  abbrev pub change_client : ℕ → (Client K C → Client K C) → State K C → State K C
  change_client c f s = record s { clients = λ d. if d == c then f (s.clients d) else s.clients d }

module _ {K C : Type 0} ⦃type : KeyType K⦄ where
  abbrev pub change_watchers : K → (List ℕ → List ℕ) → State K C → State K C
  change_watchers k f s = record s {
    watchers = λ j. if type.compare j k then f (s.watchers j) else s.watchers j;
  }

module _ {K C : Type 0} where
  -- `initClientMultiState`, after `freeClientMultiState`
  unfoldable pub init_multi_state : ℕ → State K C → State K C
  init_multi_state c = change_client c (λ x. record x { commands = [] })

  unfoldable pub clear_flags : ℕ → State K C → State K C
  clear_flags c = change_client c (λ x. record x { multi = false; dirty_cas = false })

  -- `queueMultiCommand`
  unfoldable pub queue_multi_command : ℕ → C → State K C → State K C
  queue_multi_command c cmd =
      change_client c (λ x. record x { commands = x.commands ++ (cmd ∷ []) })

  -- the loop of `touchWatchedKey`
  unfoldable pub mark_dirty : List ℕ → State K C → State K C
  mark_dirty [] s = s
  mark_dirty (c ∷ cs) s = mark_dirty cs (change_client c (λ x. record x { dirty_cas = true }) s)

  -- `touchWatchedKey`
  unfoldable pub touch_watched_key : K → State K C → State K C
  unfolding mark_dirty
  touch_watched_key k s = mark_dirty (s.watchers k) s

  -- `multiCommand`
  unfoldable pub multi_command : {R : Type 0} → ℕ → Act (State K C) (MultiReply R)
  multi_command c s =
      if (s.clients c).multi
      then some (nested, s)
      else some (ok, change_client c (λ x. record x { multi = true }) s)

  -- the loop of `execCommand`; `call` runs one command
  unfoldable pub run_commands :
      {R : Type 0} → (C → Act (State K C) R) → List C → Act (State K C) (List R)
  run_commands call [] = pure []
  run_commands call (cmd ∷ cmds) = do r ← call cmd; rs ← run_commands call cmds; pure (r ∷ rs)

module _ {K C : Type 0} ⦃type : KeyType K⦄ where
  -- `watchForKey`
  unfoldable pub watch_for_key : ℕ → K → State K C → State K C
  watch_for_key c k s =
      if has_key k (s.clients c).watched
      then s
      else change_client c (λ x. record x { watched = x.watched ++ (k ∷ []) })
          (change_watchers k (λ ds. ds ++ (c ∷ [])) s)

  -- the loop of `unwatchAllKeys`, which asserts that the key has a list of clients
  unfoldable pub unwatch_loop : ℕ → List K → Act (State K C) (Unit {0})
  unwatch_loop c [] = pure tt
  unwatch_loop c (k ∷ ks) = do
    (λ s. assert (has_client c (s.watchers k)) s)
    modify (change_watchers k (drop_client c))
    unwatch_loop c ks

  unfoldable pub unwatch_all_keys : ℕ → Act (State K C) (Unit {0})
  unfolding unwatch_loop
  unwatch_all_keys c = do
    (λ s. unwatch_loop c (s.clients c).watched s)
    modify (change_client c (λ x. record x { watched = [] }))

  -- `discardTransaction`
  unfoldable pub discard_transaction : ℕ → Act (State K C) (Unit {0})
  unfolding init_multi_state clear_flags unwatch_all_keys
  discard_transaction c = do modify (init_multi_state c); modify (clear_flags c); unwatch_all_keys c

  -- `discardCommand`
  unfoldable pub discard_command : {R : Type 0} → ℕ → Act (State K C) (MultiReply R)
  unfolding discard_transaction
  discard_command c s =
      if not (s.clients c).multi
      then some (discard_without_multi, s)
      else (do discard_transaction c; pure ok) s

  -- `execCommand`, with MULTI
  unfoldable pub exec_clean :
      {R : Type 0} → (C → Act (State K C) R) → ℕ → Act (State K C) (MultiReply R)
  unfolding unwatch_all_keys run_commands init_multi_state clear_flags
  exec_clean call c = do
    unwatch_all_keys c
    rs ← (λ s. run_commands call (s.clients c).commands s)
    modify (init_multi_state c)
    modify (clear_flags c)
    modify (λ s. record s { dirty = s.dirty + 1 })
    pure (results rs)

  unfoldable pub exec_dirty : {R : Type 0} → ℕ → Act (State K C) (MultiReply R)
  unfolding init_multi_state clear_flags unwatch_all_keys
  exec_dirty c = do
    modify (init_multi_state c)
    modify (clear_flags c)
    unwatch_all_keys c
    pure null_multi_bulk

  -- `execCommand`
  unfoldable pub exec_command :
      {R : Type 0} → (C → Act (State K C) R) → ℕ → Act (State K C) (MultiReply R)
  unfolding exec_clean exec_dirty
  exec_command call c s =
      if not (s.clients c).multi
      then some (exec_without_multi, s)
      else if (s.clients c).dirty_cas
      then exec_dirty c s
      else exec_clean call c s

  -- `watchCommand`
  unfoldable pub watch_keys : ℕ → List K → State K C → State K C
  unfolding watch_for_key
  watch_keys c [] s = s
  watch_keys c (k ∷ ks) s = watch_keys c ks (watch_for_key c k s)

  unfoldable pub watch_command : {R : Type 0} → ℕ → List K → Act (State K C) (MultiReply R)
  unfolding watch_keys
  watch_command c ks s =
      if (s.clients c).multi then some (watch_inside_multi, s) else some (ok, watch_keys c ks s)

  -- `unwatchCommand`
  unfoldable pub unwatch_command : {R : Type 0} → ℕ → Act (State K C) (MultiReply R)
  unfolding unwatch_all_keys
  unwatch_command c = do
    unwatch_all_keys c
    modify (change_client c (λ x. record x { dirty_cas = false }))
    pure ok

-- whether one of the keys is of a flushed database, and is there
abbrev pub is_flushed : {K : Type 0} → (K → Bool) → (K → Bool) → List K → Bool
is_flushed in_dbid present [] = false
is_flushed in_dbid present (k ∷ ks) = (in_dbid k && present k) || is_flushed in_dbid present ks

module _ {K C : Type 0} where
  -- `touchWatchedKeysOnFlush`, over `server.clients`
  unfoldable pub touch_on_flush : (K → Bool) → (K → Bool) → List ℕ → State K C → State K C
  touch_on_flush in_dbid present [] s = s
  touch_on_flush in_dbid present (c ∷ cs) s = touch_on_flush in_dbid present cs (
      if is_flushed in_dbid present (s.clients c).watched
      then change_client c (λ x. record x { dirty_cas = true }) s
      else s)
