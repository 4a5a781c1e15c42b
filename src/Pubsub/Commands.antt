-- ===== src/Pubsub/Commands.antt =====
-- redis/src/pubsub.c: SUBSCRIBE, UNSUBSCRIBE, PSUBSCRIBE, PUNSUBSCRIBE and PUBLISH, and the two calls that
-- `freeClient` of redis/src/networking.c makes.
use coffee_table.Prelude.{ℕ, Bool, true, false, some, List, [], ◌∷◌}
use coffee_table.Act.{Act, ◌>>◌}
use coffee_table.Dict.Bucket.{KeyType}
use coffee_table.Pubsub.{
  Hub, subscribe_channel, subscribe_pattern, each_channel, each_pattern, unsubscribe_all_channels,
  unsubscribe_all_patterns, publish_message,
}

module _ {K : Type 0} ⦃type : KeyType K⦄ where
  -- `subscribeCommand`, `psubscribeCommand`
  unfoldable pub subscribe : ℕ → List K → Hub K → Hub K
  unfolding subscribe_channel
  subscribe c [] h = h
  subscribe c (k ∷ ks) h = subscribe c ks (subscribe_channel c k h).0

  unfoldable pub psubscribe : ℕ → List K → Hub K → Hub K
  unfolding subscribe_pattern
  psubscribe c [] h = h
  psubscribe c (k ∷ ks) h = psubscribe c ks (subscribe_pattern c k h).0

  -- `unsubscribeCommand`, `punsubscribeCommand`: all of them, if none is named
  unfoldable pub unsubscribe : ℕ → List K → Act (Hub K) ℕ
  unfolding unsubscribe_all_channels each_channel
  unsubscribe c [] = unsubscribe_all_channels c true
  unsubscribe c (k ∷ ks) = each_channel c true (k ∷ ks) 0

  unfoldable pub punsubscribe : ℕ → List K → Act (Hub K) ℕ
  unfolding unsubscribe_all_patterns each_pattern
  punsubscribe c [] = unsubscribe_all_patterns c true
  punsubscribe c (k ∷ ks) = each_pattern c true (k ∷ ks) 0

  -- `freeClient`
  unfoldable pub leave : ℕ → Act (Hub K) ℕ
  unfolding unsubscribe_all_channels unsubscribe_all_patterns
  leave c = do unsubscribe_all_channels c false; unsubscribe_all_patterns c false

  -- `publishCommand`
  unfoldable pub publish : (K → K → Bool) → K → List ℕ → Act (Hub K) ℕ
  unfolding publish_message
  publish matches k m h =
      let (h1, receivers) = publish_message matches k m h in some (receivers, h1)
