-- ===== src/Pubsub/Agreed.antt =====
-- redis/src/pubsub.c: what the server lists for a channel or pattern is what its clients list, after every
-- operation, and no operation aborts.
use coffee_table.Prelude.{
  ℕ, ◌≤◌, ◌≡◌, refl, ap, ◌∙◌, Bool, true, false, Option, some, [], ◌∷◌, ◌++◌, if◌then◌else◌, ◌==◌,
  ==_iff, Bool-cases, inl, inr, arith,
}
use coffee_table.Dict.Bucket.{KeyType}
use coffee_table.Multi.{drop_client, has_key}
use coffee_table.Multi.Lists.{
  count_client, count_key, count_client-append, count_key-append, count_client-drop_client, no_key,
  some_key,
}
use coffee_table.Pubsub.{
  Note, Hub, drop_key, change_listener, change_clients, subscriptions, send, subscribe_channel,
  notified, unsubscribe_channel, subscribed, unsubscribed,
}
use coffee_table.Pubsub.Listed.{present_client, own_patterns, count_key-drop_key}

module _ {K : Type 0} ⦃type : KeyType K⦄ where
  -- A client stands in the list of a channel as often as the channel in the client's, and at most once;
  -- its patterns in the server's list are its own, in the same order.
  pub record IsAgreed (h : Hub K) : Type 0 where
    pub counts :
        (c : ℕ) (k : K) → count_client c (h.clients k) ≡ count_key k (h.listeners c).channels
    pub once : (c : ℕ) (k : K) → count_key k (h.listeners c).channels ≤ 1
    pub own : (c : ℕ) → own_patterns c h.pattern_list ≡ (h.listeners c).patterns

  pub sent-IsAgreed : (c : ℕ) (note : Note K) (h : Hub K) → IsAgreed h → IsAgreed (send c note h)
  sent-IsAgreed c note h ok = record { counts = ok.counts; once = ok.once; own = ok.own }

  pub notified-IsAgreed :
      (notify : Bool) (c : ℕ) (note : ℕ → Note K) (h : Hub K)
      → IsAgreed h
      → IsAgreed (notified notify c note h)
  notified-IsAgreed true c note h ok = sent-IsAgreed c (note (subscriptions c h)) h ok
  notified-IsAgreed false c note h ok = ok

  added_counts :
      (c : ℕ) (k : K) (h : Hub K) (d : ℕ) (j : K)
      → IsAgreed h
      → count_client d (if type.compare j k then h.clients j ++ (c ∷ []) else h.clients j)
        ≡ count_key j
            (if d == c
              then record (h.listeners d) { channels = (h.listeners d).channels ++ (k ∷ []) }
              else h.listeners d).channels
  added_counts c k h d j ok = elim (Bool-cases (type.compare j k)) [
    | inl here ↦ elim (Bool-cases (d == c)) [
      | inl me ↦
          rw
            (
              here,
              me,
              count_client-append d c (h.clients j),
              count_key-append j k (h.listeners d).channels,
              ok.counts d j,
              here,
              me,
            )
            refl
      | inr other ↦
          rw (here, other, count_client-append d c (h.clients j), ok.counts d j, other)
            (omega arith)
    ]
    | inr there ↦ elim (Bool-cases (d == c)) [
      | inl me ↦
          rw (there, me, count_key-append j k (h.listeners d).channels, ok.counts d j, there)
            (omega arith)
      | inr other ↦ rw (there, other) (ok.counts d j)
    ]
  ]

  added_once :
      (c : ℕ) (k : K) (h : Hub K) (d : ℕ) (j : K)
      → IsAgreed h
      → has_key k (h.listeners c).channels ≡ false
      → count_key j
          (if d == c
            then record (h.listeners d) { channels = (h.listeners d).channels ++ (k ∷ []) }
            else h.listeners d).channels
        ≤ 1
  added_once c k h d j ok new = elim (Bool-cases (d == c)) [
    | inr other ↦ rw other (ok.once d j)
    | inl me ↦ elim (Bool-cases (type.compare j k)) [
      | inr there ↦
          rw (me, count_key-append j k (h.listeners d).channels, there) (omega (arith, ok.once d j))
      | inl here ↦
          let absent : count_key j (h.listeners d).channels ≡ 0 =
            ap (λ i. count_key i (h.listeners d).channels) ((type.compare_iff j k).0 here)
            ∙ ap (λ i. count_key k (h.listeners i).channels) ((==_iff d c).0 me)
            ∙ no_key k (h.listeners c).channels new in
          rw (me, count_key-append j k (h.listeners d).channels, here, absent) (omega arith)
    ]
  ]

  channel_added :
      (c : ℕ) (k : K) (h : Hub K)
      → IsAgreed h
      → has_key k (h.listeners c).channels ≡ false
      → IsAgreed (
          change_clients k
            (λ cs. cs ++ (c ∷ []))
            (change_listener c (λ x. record x { channels = x.channels ++ (k ∷ []) }) h))
  channel_added c k h ok new = record {
    counts = λ d j. added_counts c k h d j ok;
    once = λ d j. added_once c k h d j ok new;
    own = λ d. elim (Bool-cases (d == c)) [ inl e ↦ rw e (ok.own d) | inr e ↦ rw e (ok.own d) ];
  }

  -- `pubsubSubscribeChannel` keeps the lists in agreement.
  pub subscribe_channel-IsAgreed :
      (c : ℕ) (k : K) (h : Hub K) → IsAgreed h → IsAgreed (subscribe_channel c k h).0
  unfolding subscribe_channel
  subscribe_channel-IsAgreed c k h ok = elim (Bool-cases (has_key k (h.listeners c).channels)) [
    | inl known ↦ rw known (sent-IsAgreed c (subscribed k (subscriptions c h)) h ok)
    | inr new ↦ rw new (sent-IsAgreed c _ _ (channel_added c k h ok new))
  ]

  dropped_counts :
      (c : ℕ) (k : K) (h : Hub K) (d : ℕ) (j : K)
      → IsAgreed h
      → count_client d (if type.compare j k then drop_client c (h.clients j) else h.clients j)
        ≡ count_key j
            (if d == c
              then record (h.listeners d) { channels = drop_key k (h.listeners d).channels }
              else h.listeners d).channels
  dropped_counts c k h d j ok = elim (Bool-cases (type.compare j k)) [
    | inl here ↦ elim (Bool-cases (d == c)) [
      | inl me ↦
          rw
            (
              here,
              me,
              count_client-drop_client d c (h.clients j),
              count_key-drop_key j k (h.listeners d).channels,
              ok.counts d j,
              here,
              me,
            )
            refl
      | inr other ↦
          rw (here, other, count_client-drop_client d c (h.clients j), ok.counts d j, other) refl
    ]
    | inr there ↦ elim (Bool-cases (d == c)) [
      | inl me ↦
          rw (there, me, count_key-drop_key j k (h.listeners d).channels, ok.counts d j, there) refl
      | inr other ↦ rw (there, other) (ok.counts d j)
    ]
  ]

  dropped_once :
      (c : ℕ) (k : K) (h : Hub K) (d : ℕ) (j : K)
      → IsAgreed h
      → count_key j
          (if d == c
            then record (h.listeners d) { channels = drop_key k (h.listeners d).channels }
            else h.listeners d).channels
        ≤ 1
  dropped_once c k h d j ok = elim (Bool-cases (d == c)) [
    | inr other ↦ rw other (ok.once d j)
    | inl me ↦ elim (Bool-cases (type.compare j k)) [
      | inl here ↦
          rw (me, count_key-drop_key j k (h.listeners d).channels, here)
            (omega (arith, ok.once d j))
      | inr there ↦ rw (me, count_key-drop_key j k (h.listeners d).channels, there) (ok.once d j)
    ]
  ]

  pub channel_dropped :
      (c : ℕ) (k : K) (h : Hub K)
      → IsAgreed h
      → IsAgreed (
          change_clients k
            (drop_client c)
            (change_listener c (λ x. record x { channels = drop_key k x.channels }) h))
  channel_dropped c k h ok = record {
    counts = λ d j. dropped_counts c k h d j ok;
    once = λ d j. dropped_once c k h d j ok;
    own = λ d. elim (Bool-cases (d == c)) [ inl e ↦ rw e (ok.own d) | inr e ↦ rw e (ok.own d) ];
  }

  -- a result that is no abort, with the lists in agreement
  pub record IsKept {A : Type 0} (r : Option (A × Hub K)) : Type 0 where
    pub ends : (a : A) × (h' : Hub K) × (r ≡ some (a, h')) × IsAgreed h'

  -- `pubsubUnsubscribeChannel` does not abort and keeps the lists in agreement.
  pub unsubscribe_channel-IsKept :
      (c : ℕ) (k : K) (notify : Bool) (h : Hub K)
      → IsAgreed h
      → IsKept (unsubscribe_channel c k notify h)
  unfolding unsubscribe_channel
  unsubscribe_channel-IsKept c k notify h ok =
      elim (Bool-cases (has_key k (h.listeners c).channels)) [
        | inr new ↦ record {
          ends = (false, _, rw new refl, notified-IsAgreed notify c (unsubscribed k) h ok);
        }
        | inl known ↦
            let there = some_key k (h.listeners c).channels known in
            let listed = present_client c (h.clients k) (omega (arith, ok.counts c k)) in
            record {
              ends = (
                true,
                _,
                rw (known, listed) refl,
                notified-IsAgreed notify c (unsubscribed k) _ (channel_dropped c k h ok),
              );
            }
      ]
