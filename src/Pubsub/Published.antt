-- ===== src/Pubsub/Published.antt =====
-- redis/src/pubsub.c: who receives a message that is published.
use coffee_table.Prelude.{
  ℕ, suc, ◌+◌, ◌≡◌, refl, ap, ◌∙◌, Bool, List, [], ◌∷◌, length, if◌then◌else◌, ◌==◌, Bool-cases,
  inl, inr, arith,
}
use coffee_table.Dict.Bucket.{KeyType}
use coffee_table.Multi.{has_key}
use coffee_table.Multi.Lists.{count_client, no_key, some_key}
use coffee_table.Pubsub.{
  Hub, Note, message, pmessage, send, publish_channel, publish_patterns, publish_message,
}
use coffee_table.Pubsub.Listed.{own_patterns}
use coffee_table.Pubsub.Agreed.{IsAgreed}

module _ {K : Type 0} where
  -- how often a client was sent something
  abbrev pub received : ℕ → List (ℕ × Note K) → ℕ
  received c [] = 0
  received c ((d, note) ∷ sent) = (if c == d then 1 else 0) + received c sent

  abbrev pub matching : (K → K → Bool) → K → List K → ℕ
  matching matches k [] = 0
  matching matches k (p ∷ ps) = (if matches p k then 1 else 0) + matching matches k ps

module _ {K : Type 0} ⦃type : KeyType K⦄ where
  channel_received :
      (k : K) (m cs : List ℕ) (n : ℕ) (h : Hub K) (c : ℕ)
      → received c (publish_channel k m cs n h).0.sent ≡ received c h.sent + count_client c cs
  channel_received k m [] n h c = omega arith
  channel_received k m (d ∷ cs) n h c =
      omega (arith, channel_received k m cs (suc n) (send d (message k m) h) c)

  patterns_received :
      (matches : K → K → Bool) (k : K) (m : List ℕ) (ps : List (ℕ × K)) (n : ℕ) (h : Hub K) (c : ℕ)
      → received c (publish_patterns matches k m ps n h).0.sent
        ≡ received c h.sent + matching matches k (own_patterns c ps)
  patterns_received matches k m [] n h c = omega arith
  patterns_received matches k m ((d, p) ∷ ps) n h c =
      let sent = patterns_received matches k m ps (suc n) (send d (pmessage p k m) h) c in
      let unsent = patterns_received matches k m ps n h c in
      elim (Bool-cases (matches p k)) [
        | inl fits ↦ elim (Bool-cases (c == d)) [
          | inl mine ↦ rw (fits, sent, mine, fits) (omega arith)
          | inr other ↦ rw (fits, sent, other) (omega arith)
        ]
        | inr misses ↦ elim (Bool-cases (c == d)) [
          | inl mine ↦ rw (misses, unsent, mine, misses) (omega arith)
          | inr other ↦ rw (misses, unsent, other) refl
        ]
      ]

  channel_patterns :
      (k : K) (m cs : List ℕ) (n : ℕ) (h : Hub K)
      → (publish_channel k m cs n h).0.pattern_list ≡ h.pattern_list
  channel_patterns k m [] n h = refl
  channel_patterns k m (d ∷ cs) n h = channel_patterns k m cs (suc n) (send d (message k m) h)

  channel_receivers :
      (k : K) (m cs : List ℕ) (n : ℕ) (h : Hub K)
      → length (publish_channel k m cs n h).0.sent + n
        ≡ length h.sent + (publish_channel k m cs n h).1
  channel_receivers k m [] n h = refl
  channel_receivers k m (d ∷ cs) n h =
      omega (arith, channel_receivers k m cs (suc n) (send d (message k m) h))

  patterns_receivers :
      (matches : K → K → Bool) (k : K) (m : List ℕ) (ps : List (ℕ × K)) (n : ℕ) (h : Hub K)
      → length (publish_patterns matches k m ps n h).0.sent + n
        ≡ length h.sent + (publish_patterns matches k m ps n h).1
  patterns_receivers matches k m [] n h = refl
  patterns_receivers matches k m ((d, p) ∷ ps) n h =
      let sent = patterns_receivers matches k m ps (suc n) (send d (pmessage p k m) h) in
      elim (Bool-cases (matches p k)) [
        | inl fits ↦ rw fits (omega (arith, sent))
        | inr misses ↦ rw misses (patterns_receivers matches k m ps n h)
      ]

  listed_once :
      (h : Hub K) (c : ℕ) (k : K)
      → IsAgreed h
      → count_client c (h.clients k) ≡ (if has_key k (h.listeners c).channels then 1 else 0)
  listed_once h c k ok = elim (Bool-cases (has_key k (h.listeners c).channels)) [
    | inl known ↦
        rw known
          (omega (arith, ok.counts c k, ok.once c k, some_key k (h.listeners c).channels known))
    | inr new ↦ rw new (ok.counts c k ∙ no_key k (h.listeners c).channels new)
  ]

  -- When the lists agree, PUBLISH sends every client one message if it listens to the channel and one
  -- more for each of its own patterns that matches the channel, and answers how many it has sent.
  pub publish_message_lem :
      (matches : K → K → Bool) (k : K) (m : List ℕ) (h : Hub K)
      → IsAgreed h
      → ((c : ℕ)
          → received c (publish_message matches k m h).0.sent
            ≡ received c h.sent
              + (if has_key k (h.listeners c).channels then 1 else 0)
              + matching matches k (h.listeners c).patterns)
        × (length (publish_message matches k m h).0.sent
            ≡ length h.sent + (publish_message matches k m h).1)
  unfolding publish_message
  publish_message_lem matches k m h ok =
      let first = publish_channel k m (h.clients k) 0 h in
      let listed = channel_patterns k m (h.clients k) 0 h in
      (
        λ c.
            let own : own_patterns c first.0.pattern_list ≡ (h.listeners c).patterns =
              ap (own_patterns c) listed ∙ ok.own c in
            let mine = ap (matching matches k) own in
            omega (
              arith,
              patterns_received matches k m first.0.pattern_list first.1 first.0 c,
              channel_received k m (h.clients k) 0 h c,
              listed_once h c k ok,
              mine,
            ),
        omega (
          arith,
          patterns_receivers matches k m first.0.pattern_list first.1 first.0,
          channel_receivers k m (h.clients k) 0 h,
        ),
      )
