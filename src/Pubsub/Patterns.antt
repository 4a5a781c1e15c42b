-- ===== src/Pubsub/Patterns.antt =====
-- redis/src/pubsub.c: the lists of patterns stay in agreement, and so do all lists when a client leaves.
use coffee_table.Prelude.{
  ℕ, suc, ◌≡◌, refl, ap, ◌∙◌, Bool, true, false, List, [], ◌∷◌, ◌++◌, if◌then◌else◌, ◌==◌,
  Bool-cases, inl, inr,
}
use coffee_table.Dict.Bucket.{KeyType}
use coffee_table.Multi.{has_key}
use coffee_table.Pubsub.{
  Hub, psubscribed, punsubscribed, drop_key, drop_pattern, change_listener, subscriptions,
  subscribe_pattern, unsubscribe_pattern, each_channel, each_pattern,
}
use coffee_table.Pubsub.Listed.{
  own_patterns, own_patterns-append, has_key-own_patterns, own_patterns-drop_pattern,
}
use coffee_table.Pubsub.Agreed.{
  IsAgreed, IsKept, sent-IsAgreed, notified-IsAgreed, unsubscribe_channel-IsKept,
}

module _ {K : Type 0} ⦃type : KeyType K⦄ where
  -- only the patterns of one client change, in both lists
  pub patterns_changed :
      (c : ℕ) (f : List K → List K) (ps : List (ℕ × K)) (h : Hub K)
      → IsAgreed h
      → ((d : ℕ)
          → own_patterns d ps
            ≡ (if d == c then f (own_patterns d h.pattern_list) else own_patterns d h.pattern_list))
      → IsAgreed (record (change_listener c (λ x. record x { patterns = f x.patterns }) h) {
        pattern_list = ps;
      })
  patterns_changed c f ps h ok own = record {
    counts = λ d j. elim (Bool-cases (d == c)) [
      | inl e ↦ rw e (ok.counts d j)
      | inr e ↦ rw e (ok.counts d j)
    ];
    once = λ d j. elim (Bool-cases (d == c)) [
      | inl e ↦ rw e (ok.once d j)
      | inr e ↦ rw e (ok.once d j)
    ];
    own = λ d. elim (Bool-cases (d == c)) [
      | inl e ↦ own d ∙ rw (e, ok.own d) refl
      | inr e ↦ own d ∙ rw (e, ok.own d) refl
    ];
  }

  -- `pubsubSubscribePattern` keeps the lists in agreement.
  pub subscribe_pattern-IsAgreed :
      (c : ℕ) (k : K) (h : Hub K) → IsAgreed h → IsAgreed (subscribe_pattern c k h).0
  unfolding subscribe_pattern
  subscribe_pattern-IsAgreed c k h ok = elim (Bool-cases (has_key k (h.listeners c).patterns)) [
    | inl known ↦ rw known (sent-IsAgreed c (psubscribed k (subscriptions c h)) h ok)
    | inr new ↦ rw new (
        sent-IsAgreed c _ _ (
          patterns_changed c (λ ks. ks ++ (k ∷ [])) (h.pattern_list ++ ((c, k) ∷ [])) h ok
            (λ d. own_patterns-append d c k h.pattern_list)))
  ]

  -- `pubsubUnsubscribePattern` does not abort and keeps the lists in agreement.
  pub unsubscribe_pattern-IsKept :
      (c : ℕ) (k : K) (notify : Bool) (h : Hub K)
      → IsAgreed h
      → IsKept (unsubscribe_pattern c k notify h)
  unfolding unsubscribe_pattern
  unsubscribe_pattern-IsKept c k notify h ok =
      elim (Bool-cases (has_key k (h.listeners c).patterns)) [
        | inr new ↦ record {
          ends = (false, _, rw new refl, notified-IsAgreed notify c (punsubscribed k) h ok);
        }
        | inl known ↦
            let listed =
              has_key-own_patterns c k h.pattern_list ∙ ap (has_key k) (ok.own c) ∙ known in
            record {
              ends = (
                true,
                _,
                rw (known, listed) refl,
                notified-IsAgreed notify c (punsubscribed k) _ (
                    patterns_changed c (drop_key k) (drop_pattern c k h.pattern_list) h ok
                      (λ d. own_patterns-drop_pattern d c k h.pattern_list)),
              );
            }
      ]

  pub each_channel-IsKept :
      (c : ℕ) (notify : Bool) (ks : List K) (count : ℕ) (h : Hub K)
      → IsAgreed h
      → IsKept (each_channel c notify ks count h)
  unfolding each_channel
  each_channel-IsKept c notify [] count h ok = record { ends = (count, h, refl, ok) }
  each_channel-IsKept c notify (k ∷ ks) count h ok =
      let (found, h1, run1, ok1) = (unsubscribe_channel-IsKept c k notify h ok).ends in
      rw run1 (each_channel-IsKept c notify ks (if found then suc count else count) h1 ok1)

  pub each_pattern-IsKept :
      (c : ℕ) (notify : Bool) (ks : List K) (count : ℕ) (h : Hub K)
      → IsAgreed h
      → IsKept (each_pattern c notify ks count h)
  unfolding each_pattern
  each_pattern-IsKept c notify [] count h ok = record { ends = (count, h, refl, ok) }
  each_pattern-IsKept c notify (k ∷ ks) count h ok =
      let (found, h1, run1, ok1) = (unsubscribe_pattern-IsKept c k notify h ok).ends in
      rw run1 (each_pattern-IsKept c notify ks (if found then suc count else count) h1 ok1)
