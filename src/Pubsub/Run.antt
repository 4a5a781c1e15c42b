-- ===== src/Pubsub/Run.antt =====
-- redis/src/pubsub.c: any sequence of commands, from a server that nobody listens to.
use coffee_table.Prelude.{
  ℕ, suc, refl, Bool, true, false, List, [], ◌∷◌, arith, Bool-cases, inl, inr,
}
use coffee_table.Act.{Act, ◌>>◌, pure, modify}
use coffee_table.Dict.Bucket.{KeyType}
use coffee_table.Pubsub.{
  Hub, publish_channel, publish_patterns, publish_message, unsubscribe_all_channels,
  unsubscribe_all_patterns,
}
use coffee_table.Pubsub.Agreed.{IsAgreed, IsKept, sent-IsAgreed, subscribe_channel-IsAgreed}
use coffee_table.Pubsub.Patterns.{
  subscribe_pattern-IsAgreed, each_channel-IsKept, each_pattern-IsKept,
}
use coffee_table.Pubsub.Commands.{subscribe, psubscribe, unsubscribe, punsubscribe, leave, publish}

module _ {K : Type 0} where
  abbrev pub silent : Hub K
  silent = record {
    listeners = λ c. record { channels = []; patterns = [] };
    clients = λ k. [];
    pattern_list = [];
    sent = [];
  }

-- a command of a client, or its leaving
pub data Request (K : Type 0) : Type 0 where
  ask_subscribe ask_psubscribe ask_unsubscribe ask_punsubscribe : ℕ → List K → Request K
  ask_leave : ℕ → Request K
  ask_publish : K → List ℕ → Request K

module _ {K : Type 0} ⦃type : KeyType K⦄ (matches : K → K → Bool) where
  abbrev pub handle : Request K → Act (Hub K) ℕ
  handle (ask_subscribe c ks) = do modify (subscribe c ks); pure 0
  handle (ask_psubscribe c ks) = do modify (psubscribe c ks); pure 0
  handle (ask_unsubscribe c ks) = unsubscribe c ks
  handle (ask_punsubscribe c ks) = punsubscribe c ks
  handle (ask_leave c) = leave c
  handle (ask_publish k m) = publish matches k m

  unfoldable pub handle_all : List (Request K) → Act (Hub K) ℕ
  handle_all [] = pure 0
  handle_all (r ∷ rs) = do handle r; handle_all rs

module _ {K : Type 0} ⦃type : KeyType K⦄ where
  pub silent-IsAgreed : IsAgreed (silent {K = K})
  silent-IsAgreed = record { counts = λ c k. refl; once = λ c k. omega arith; own = λ c. refl }

  pub subscribe-IsAgreed :
      (c : ℕ) (ks : List K) (h : Hub K) → IsAgreed h → IsAgreed (subscribe c ks h)
  unfolding subscribe
  subscribe-IsAgreed c [] h ok = ok
  subscribe-IsAgreed c (k ∷ ks) h ok =
      subscribe-IsAgreed c ks _ (subscribe_channel-IsAgreed c k h ok)

  pub psubscribe-IsAgreed :
      (c : ℕ) (ks : List K) (h : Hub K) → IsAgreed h → IsAgreed (psubscribe c ks h)
  unfolding psubscribe
  psubscribe-IsAgreed c [] h ok = ok
  psubscribe-IsAgreed c (k ∷ ks) h ok =
      psubscribe-IsAgreed c ks _ (subscribe_pattern-IsAgreed c k h ok)

  channel_published :
      (k : K) (m cs : List ℕ) (n : ℕ) (h : Hub K)
      → IsAgreed h
      → IsAgreed (publish_channel k m cs n h).0
  channel_published k m [] n h ok = ok
  channel_published k m (c ∷ cs) n h ok =
      channel_published k m cs (suc n) _ (sent-IsAgreed c _ h ok)

  patterns_published :
      (matches : K → K → Bool) (k : K) (m : List ℕ) (ps : List (ℕ × K)) (n : ℕ) (h : Hub K)
      → IsAgreed h
      → IsAgreed (publish_patterns matches k m ps n h).0
  patterns_published matches k m [] n h ok = ok
  patterns_published matches k m ((c, p) ∷ ps) n h ok = elim (Bool-cases (matches p k)) [
    | inl fits ↦ rw fits (patterns_published matches k m ps (suc n) _ (sent-IsAgreed c _ h ok))
    | inr misses ↦ rw misses (patterns_published matches k m ps n h ok)
  ]

  leave-IsKept : (c : ℕ) (h : Hub K) → IsAgreed h → IsKept (leave c h)
  unfolding leave unsubscribe_all_channels unsubscribe_all_patterns
  leave-IsKept c h ok =
      let (n, h1, run1, ok1) = (each_channel-IsKept c false (h.listeners c).channels 0 h ok).ends in
      rw run1 (each_pattern-IsKept c false (h1.listeners c).patterns 0 h1 ok1)

  handled :
      (matches : K → K → Bool) (r : Request K) (h : Hub K)
      → IsAgreed h
      → IsKept (handle matches r h)
  unfolding unsubscribe punsubscribe unsubscribe_all_channels unsubscribe_all_patterns publish
      publish_message
  handled matches (ask_subscribe c ks) h ok = record {
    ends = (0, subscribe c ks h, refl, subscribe-IsAgreed c ks h ok);
  }
  handled matches (ask_psubscribe c ks) h ok = record {
    ends = (0, psubscribe c ks h, refl, psubscribe-IsAgreed c ks h ok);
  }
  handled matches (ask_unsubscribe c []) h ok =
      each_channel-IsKept c true (h.listeners c).channels 0 h ok
  handled matches (ask_unsubscribe c (k ∷ ks)) h ok = each_channel-IsKept c true (k ∷ ks) 0 h ok
  handled matches (ask_punsubscribe c []) h ok =
      each_pattern-IsKept c true (h.listeners c).patterns 0 h ok
  handled matches (ask_punsubscribe c (k ∷ ks)) h ok = each_pattern-IsKept c true (k ∷ ks) 0 h ok
  handled matches (ask_leave c) h ok = leave-IsKept c h ok
  handled matches (ask_publish k m) h ok =
      let first = publish_channel k m (h.clients k) 0 h in
      record {
        ends = (
          _,
          _,
          refl,
          patterns_published matches k m first.0.pattern_list first.1 first.0
              (channel_published k m (h.clients k) 0 h ok),
        );
      }

  -- From lists in agreement, no sequence of the commands on channels and patterns, and of clients that
  -- leave, aborts the server, and the lists are in agreement at its end.
  pub handle_all-IsKept :
      (matches : K → K → Bool) (rs : List (Request K)) (h : Hub K)
      → IsAgreed h
      → IsKept (handle_all matches rs h)
  unfolding handle_all
  handle_all-IsKept matches [] h ok = record { ends = (0, h, refl, ok) }
  handle_all-IsKept matches (r ∷ rs) h ok =
      let (n, h1, run1, ok1) = (handled matches r h ok).ends in
      rw run1 (handle_all-IsKept matches rs h1 ok1)
