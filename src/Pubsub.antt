-- ===== src/Pubsub.antt =====
-- redis/src/pubsub.c: channels and patterns, who listens to them, and messages published. A client is its
-- number; `K` is the bytes of a channel or a pattern. The test of a pattern is an argument.
mod Tests
pub mod Listed
pub mod Agreed
pub mod Patterns
pub mod Commands
pub mod Run
pub mod Leave
pub mod Published
use coffee_table.Prelude.{
  ℕ, suc, ◌+◌, Bool, true, false, ◌&&◌, Option, none, some, List, [], ◌∷◌, ◌++◌, length,
  if◌then◌else◌, ◌==◌,
}
use coffee_table.Act.{Act, ◌>>=◌, ◌>>◌, continue, pure, assert, modify}
use coffee_table.Dict.Bucket.{KeyType}
use coffee_table.Multi.{has_client, drop_client, has_key}

-- what a client is sent; the number counts its channels and patterns
pub data Note (K : Type 0) : Type 0 where
  subscribed unsubscribed psubscribed punsubscribed : K → ℕ → Note K
  message : K → List ℕ → Note K
  pmessage : K → K → List ℕ → Note K

-- `pubsub_channels` and `pubsub_patterns` of a client
pub record Listener (K : Type 0) : Type 0 where
  pub channels : List K
  pub patterns : List K

-- `pubsub_channels` and `pubsub_patterns` of the server, and what was sent, the last one first. A channel
-- without an entry has the empty list, as an entry is dropped with its last client.
pub record Hub (K : Type 0) : Type 0 where
  pub listeners : ℕ → Listener K
  pub clients : K → List ℕ
  pub pattern_list : List (ℕ × K)
  pub sent : List (ℕ × Note K)

module _ {K : Type 0} ⦃type : KeyType K⦄ where
  -- `dictDelete` of a client's channel, or `listDelNode` of its pattern
  abbrev pub drop_key : K → List K → List K
  drop_key k [] = []
  drop_key k (j ∷ js) = if type.compare k j then js else j ∷ drop_key k js

  -- `listSearchKey` by `listMatchPubsubPattern`
  abbrev pub has_pattern : ℕ → K → List (ℕ × K) → Bool
  has_pattern c k [] = false
  has_pattern c k ((d, j) ∷ ps) = if (c == d) && type.compare k j then true else has_pattern c k ps

  abbrev pub drop_pattern : ℕ → K → List (ℕ × K) → List (ℕ × K)
  drop_pattern c k [] = []
  drop_pattern c k ((d, j) ∷ ps) =
      if (c == d) && type.compare k j then ps else (d, j) ∷ drop_pattern c k ps

  abbrev pub change_listener : ℕ → (Listener K → Listener K) → Hub K → Hub K
  change_listener c f h = record h {
    listeners = λ d. if d == c then f (h.listeners d) else h.listeners d;
  }

  abbrev pub change_clients : K → (List ℕ → List ℕ) → Hub K → Hub K
  change_clients k f h = record h {
    clients = λ j. if type.compare j k then f (h.clients j) else h.clients j;
  }

  abbrev pub subscriptions : ℕ → Hub K → ℕ
  subscriptions c h = length (h.listeners c).channels + length (h.listeners c).patterns

  abbrev pub send : ℕ → Note K → Hub K → Hub K
  send c note h = record h { sent = (c, note) ∷ h.sent }

  -- `pubsubSubscribeChannel`
  unfoldable pub subscribe_channel : ℕ → K → Hub K → Hub K × Bool
  subscribe_channel c k h =
      let known = has_key k (h.listeners c).channels in
      let h1 =
        if known
        then h
        else change_clients k (λ cs. cs ++ (c ∷ []))
            (change_listener c (λ x. record x { channels = x.channels ++ (k ∷ []) }) h) in
      (send c (subscribed k (subscriptions c h1)) h1, if known then false else true)

  abbrev pub notified : Bool → ℕ → (ℕ → Note K) → Hub K → Hub K
  notified notify c note h = if notify then send c (note (subscriptions c h)) h else h

  -- `pubsubUnsubscribeChannel`; its assertions find the client in the list of the channel
  unfoldable pub unsubscribe_channel : ℕ → K → Bool → Act (Hub K) Bool
  unsubscribe_channel c k notify h =
      let known = has_key k (h.listeners c).channels in
      (if known
          then (do
            assert (has_client c (h.clients k))
            modify (λ h1. notified notify c (unsubscribed k) (
                change_clients k (drop_client c)
                  (change_listener c (λ x. record x { channels = drop_key k x.channels }) h1)))
            pure true)
          else (do modify (notified notify c (unsubscribed k)); pure false))
        h

  -- `pubsubSubscribePattern`
  unfoldable pub subscribe_pattern : ℕ → K → Hub K → Hub K × Bool
  subscribe_pattern c k h =
      let known = has_key k (h.listeners c).patterns in
      let h1 =
        if known
        then h
        else (let added =
              change_listener c (λ x. record x { patterns = x.patterns ++ (k ∷ []) }) h in
            record added { pattern_list = added.pattern_list ++ ((c, k) ∷ []) }) in
      (send c (psubscribed k (subscriptions c h1)) h1, if known then false else true)

  -- `pubsubUnsubscribePattern`; a node that is not found is a null pointer in `listDelNode`
  unfoldable pub unsubscribe_pattern : ℕ → K → Bool → Act (Hub K) Bool
  unsubscribe_pattern c k notify h =
      let known = has_key k (h.listeners c).patterns in
      (if known
          then (do
            assert (has_pattern c k h.pattern_list)
            modify (λ h1.
                let dropped =
                  change_listener c (λ x. record x { patterns = drop_key k x.patterns }) h1 in
                notified notify c (punsubscribed k)
                  (record dropped { pattern_list = drop_pattern c k dropped.pattern_list }))
            pure true)
          else (do modify (notified notify c (punsubscribed k)); pure false))
        h

  -- the loops of `pubsubUnsubscribeAllChannels` and `pubsubUnsubscribeAllPatterns`, with the count
  unfoldable pub each_channel : ℕ → Bool → List K → ℕ → Act (Hub K) ℕ
  unfolding unsubscribe_channel
  each_channel c notify [] count = pure count
  each_channel c notify (k ∷ ks) count = do
    found ← unsubscribe_channel c k notify
    each_channel c notify ks (if found then suc count else count)

  unfoldable pub each_pattern : ℕ → Bool → List K → ℕ → Act (Hub K) ℕ
  unfolding unsubscribe_pattern
  each_pattern c notify [] count = pure count
  each_pattern c notify (k ∷ ks) count = do
    found ← unsubscribe_pattern c k notify
    each_pattern c notify ks (if found then suc count else count)

  unfoldable pub unsubscribe_all_channels : ℕ → Bool → Act (Hub K) ℕ
  unfolding each_channel
  unsubscribe_all_channels c notify h = each_channel c notify (h.listeners c).channels 0 h

  unfoldable pub unsubscribe_all_patterns : ℕ → Bool → Act (Hub K) ℕ
  unfolding each_pattern
  unsubscribe_all_patterns c notify h = each_pattern c notify (h.listeners c).patterns 0 h

  -- the loops of `pubsubPublishMessage`, with the number of receivers
  abbrev pub publish_channel : K → List ℕ → List ℕ → ℕ → Hub K → Hub K × ℕ
  publish_channel k m [] receivers h = (h, receivers)
  publish_channel k m (c ∷ cs) receivers h =
      publish_channel k m cs (suc receivers) (send c (message k m) h)

  abbrev pub publish_patterns : (K → K → Bool) → K → List ℕ → List (ℕ × K) → ℕ → Hub K → Hub K × ℕ
  publish_patterns matches k m [] receivers h = (h, receivers)
  publish_patterns matches k m ((c, p) ∷ ps) receivers h =
      if matches p k
      then publish_patterns matches k m ps (suc receivers) (send c (pmessage p k m) h)
      else publish_patterns matches k m ps receivers h

  -- `pubsubPublishMessage`
  unfoldable pub publish_message : (K → K → Bool) → K → List ℕ → Hub K → Hub K × ℕ
  publish_message matches k m h =
      let (h1, receivers) = publish_channel k m (h.clients k) 0 h in
      publish_patterns matches k m h1.pattern_list receivers h1
