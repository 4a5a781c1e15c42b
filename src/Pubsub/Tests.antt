-- ===== src/Pubsub/Tests.antt =====
-- The theorems on redis/src/pubsub.c at a server with two listeners.
use coffee_table.Prelude.{ℕ, ◌+◌, ◌≡◌, Bool, some, List, [], ◌∷◌, length, if◌then◌else◌, leb}
use coffee_table.Db.Fixture.{number_keys}
use coffee_table.Multi.{has_key}
use coffee_table.Pubsub.{Hub, publish_message}
use coffee_table.Pubsub.Agreed.{IsAgreed, IsKept}
use coffee_table.Pubsub.Commands.{subscribe, psubscribe, leave}
use coffee_table.Pubsub.Run.{
  silent, silent-IsAgreed, Request, ask_subscribe, ask_unsubscribe, ask_leave, ask_publish,
  handle_all, handle_all-IsKept, subscribe-IsAgreed, psubscribe-IsAgreed,
}
use coffee_table.Pubsub.Published.{received, matching, publish_message_lem}
use coffee_table.Pubsub.Leave.{leave_lem}

-- client 4 listens to channel 7 and to what pattern 5 matches, the channels from 5 on
abbrev tuned : Hub ℕ
tuned = psubscribe 4 (5 ∷ []) (subscribe 4 (7 ∷ 8 ∷ []) silent)

tuned-IsAgreed : IsAgreed tuned
tuned-IsAgreed =
    psubscribe-IsAgreed 4 (5 ∷ []) (subscribe 4 (7 ∷ 8 ∷ []) silent)
      (subscribe-IsAgreed 4 (7 ∷ 8 ∷ []) silent silent-IsAgreed)

abbrev evening : List (Request ℕ)
evening =
    ask_subscribe 3 (7 ∷ [])
    ∷ ask_publish 7 (1 ∷ [])
    ∷ ask_unsubscribe 4 (8 ∷ 9 ∷ [])
    ∷ ask_leave 4
    ∷ ask_publish 7 (2 ∷ [])
    ∷ []

handle_all-IsKept_example : IsKept (handle_all leb evening tuned)
handle_all-IsKept_example = handle_all-IsKept leb evening tuned tuned-IsAgreed

publish_message_lem_example :
    ((c : ℕ)
      → received c (publish_message leb 7 (1 ∷ []) tuned).0.sent
        ≡ received c tuned.sent
          + (if has_key 7 (tuned.listeners c).channels then 1 else 0)
          + matching leb 7 (tuned.listeners c).patterns)
    × (length (publish_message leb 7 (1 ∷ []) tuned).0.sent
        ≡ length tuned.sent + (publish_message leb 7 (1 ∷ []) tuned).1)
publish_message_lem_example = publish_message_lem leb 7 (1 ∷ []) tuned tuned-IsAgreed

leave_lem_example :
    (n : ℕ) × (h' : Hub ℕ) × (leave 4 tuned ≡ some (n, h'))
    × IsAgreed h'
    × ((matches : ℕ → ℕ → Bool) (k : ℕ) (m : List ℕ)
        → received 4 (publish_message matches k m h').0.sent ≡ received 4 h'.sent)
leave_lem_example = leave_lem 4 tuned tuned-IsAgreed
