-- ===== src/Pubsub/Leave.antt =====
-- redis/src/pubsub.c: a client that has left stands in no list, so that nothing is sent to it.
use coffee_table.Prelude.{
  ℕ, suc, ◌≡◌, refl, ap, ◌∙◌, Bool, true, false, some, List, [], ◌∷◌, ◌==◌, ==_iff, arith,
}
use coffee_table.Dict.Bucket.{KeyType}
use coffee_table.Multi.{drop_client, has_key}
use coffee_table.Multi.Lists.{some_key}
use coffee_table.Pubsub.{
  Hub, drop_key, drop_pattern, change_listener, change_clients, unsubscribe_channel,
  unsubscribe_pattern, each_channel, each_pattern, unsubscribe_all_channels,
  unsubscribe_all_patterns, publish_message,
}
use coffee_table.Pubsub.Listed.{present_client, has_key-own_patterns, own_patterns-drop_pattern}
use coffee_table.Pubsub.Agreed.{IsAgreed, channel_dropped}
use coffee_table.Pubsub.Patterns.{patterns_changed}
use coffee_table.Pubsub.Published.{received, publish_message_lem}
use coffee_table.Pubsub.Commands.{leave}

same_client : (c : ℕ) → (c == c) ≡ true
same_client c = (==_iff c c).1 refl

module _ {K : Type 0} ⦃type : KeyType K⦄ where
  -- the first channel of a client is the one that is dropped
  first_dropped : (k : K) (ks : List K) → drop_key k (k ∷ ks) ≡ ks
  first_dropped k ks = rw ((type.compare_iff k k).1 refl) refl

  first_known : (k : K) (ks js : List K) → js ≡ k ∷ ks → has_key k js ≡ true
  first_known k ks js h = ap (has_key k) h ∙ rw ((type.compare_iff k k).1 refl) refl

  abbrev without_channel : ℕ → K → Hub K → Hub K
  without_channel c k h =
      change_clients k (drop_client c)
        (change_listener c (λ x. record x { channels = drop_key k x.channels }) h)

  unsubscribed_quietly :
      (c : ℕ) (k : K) (ks : List K) (h : Hub K)
      → IsAgreed h
      → (h.listeners c).channels ≡ k ∷ ks
      → unsubscribe_channel c k false h ≡ some (true, without_channel c k h)
  unfolding unsubscribe_channel
  unsubscribed_quietly c k ks h ok list =
      let known = first_known k ks (h.listeners c).channels list in
      let there = some_key k (h.listeners c).channels known in
      let listed = present_client c (h.clients k) (omega (arith, ok.counts c k)) in
      rw (known, listed) refl

  channels_left :
      (c : ℕ) (k : K) (ks : List K) (h : Hub K)
      → (h.listeners c).channels ≡ k ∷ ks
      → ((without_channel c k h).listeners c).channels ≡ ks
  channels_left c k ks h list = rw (same_client c) (ap (drop_key k) list ∙ first_dropped k ks)

  channels_emptied :
      (c : ℕ) (ks : List K) (count : ℕ) (h : Hub K)
      → IsAgreed h
      → (h.listeners c).channels ≡ ks
      → (n : ℕ) × (h' : Hub K) × (each_channel c false ks count h ≡ some (n, h'))
        × IsAgreed h'
        × ((h'.listeners c).channels ≡ [])
  unfolding each_channel
  channels_emptied c [] count h ok list = (count, h, refl, ok, list)
  channels_emptied c (k ∷ ks) count h ok list =
      let (n, h', run, ok', gone) =
        channels_emptied c ks (suc count) (without_channel c k h) (channel_dropped c k h ok)
          (channels_left c k ks h list) in
      (n, h', rw (unsubscribed_quietly c k ks h ok list) run, ok', gone)

  abbrev without_pattern : ℕ → K → Hub K → Hub K
  without_pattern c k h =
      record (change_listener c (λ x. record x { patterns = drop_key k x.patterns }) h) {
        pattern_list = drop_pattern c k h.pattern_list;
      }

  punsubscribed_quietly :
      (c : ℕ) (k : K) (ks : List K) (h : Hub K)
      → IsAgreed h
      → (h.listeners c).patterns ≡ k ∷ ks
      → unsubscribe_pattern c k false h ≡ some (true, without_pattern c k h)
  unfolding unsubscribe_pattern
  punsubscribed_quietly c k ks h ok list =
      let known = first_known k ks (h.listeners c).patterns list in
      let listed = has_key-own_patterns c k h.pattern_list ∙ ap (has_key k) (ok.own c) ∙ known in
      rw (known, listed) refl

  patterns_left :
      (c : ℕ) (k : K) (ks : List K) (h : Hub K)
      → (h.listeners c).patterns ≡ k ∷ ks
      → (((without_pattern c k h).listeners c).patterns ≡ ks)
        × (((without_pattern c k h).listeners c).channels ≡ (h.listeners c).channels)
  patterns_left c k ks h list =
      (rw (same_client c) (ap (drop_key k) list ∙ first_dropped k ks), rw (same_client c) refl)

  patterns_emptied :
      (c : ℕ) (ks : List K) (count : ℕ) (h : Hub K)
      → IsAgreed h
      → (h.listeners c).patterns ≡ ks
      → (n : ℕ) × (h' : Hub K) × (each_pattern c false ks count h ≡ some (n, h'))
        × IsAgreed h'
        × ((h'.listeners c).patterns ≡ [])
        × ((h'.listeners c).channels ≡ (h.listeners c).channels)
  unfolding each_pattern
  patterns_emptied c [] count h ok list = (count, h, refl, ok, list, refl)
  patterns_emptied c (k ∷ ks) count h ok list =
      let left = patterns_left c k ks h list in
      let agreed =
        patterns_changed c (drop_key k) (drop_pattern c k h.pattern_list) h ok
          (λ d. own_patterns-drop_pattern d c k h.pattern_list) in
      let (n, h', run, ok', gone, kept) =
        patterns_emptied c ks (suc count) (without_pattern c k h) agreed left.0 in
      (n, h', rw (punsubscribed_quietly c k ks h ok list) run, ok', gone, kept ∙ left.1)

  left_all :
      (c : ℕ) (h : Hub K)
      → IsAgreed h
      → (n : ℕ) × (h' : Hub K) × (leave c h ≡ some (n, h'))
        × IsAgreed h'
        × ((h'.listeners c).channels ≡ [])
        × ((h'.listeners c).patterns ≡ [])
  unfolding leave unsubscribe_all_channels unsubscribe_all_patterns
  left_all c h ok =
      let (n1, h1, run1, ok1, gone1) = channels_emptied c (h.listeners c).channels 0 h ok refl in
      let (n2, h2, run2, ok2, gone2, kept) =
        patterns_emptied c (h1.listeners c).patterns 0 h1 ok1 refl in
      (n2, h2, rw (run1, run2) refl, ok2, kept ∙ gone1, gone2)

  -- A client that leaves a server whose lists agree is taken off all lists without an abort, they agree
  -- again, and no PUBLISH on the state that it leaves sends anything to it.
  pub leave_lem :
      (c : ℕ) (h : Hub K)
      → IsAgreed h
      → (n : ℕ) × (h' : Hub K) × (leave c h ≡ some (n, h'))
        × IsAgreed h'
        × ((matches : K → K → Bool) (k : K) (m : List ℕ)
            → received c (publish_message matches k m h').0.sent ≡ received c h'.sent)
  leave_lem c h ok =
      let (n, h', run, ok', no_channels, no_patterns) = left_all c h ok in
      (
        n,
        h',
        run,
        ok',
        λ matches k m.
            (publish_message_lem matches k m h' ok').0 c
            ∙ rw (no_channels, no_patterns) (omega arith),
      )
