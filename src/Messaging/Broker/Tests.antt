-- ===== src/Messaging/Broker/Tests.antt =====
-- Runs of the broker of src/messaging/stomp.cpp.
use novaboot.Base.{
  ℕ, ◌≡◌, refl, true, false, List, [], ◌∷◌, arith, inr, inl, length, Text, text, to_string, same,
}
use novaboot.WebSocket.Shared.{Limits, new_shared, active, enqueue}
use novaboot.WebSocket.Registry.{Store, handle_active, request}
use novaboot.Messaging.Decoder.{Frame, insert_or_assign, serialize}
use novaboot.Messaging.Escape.{escape}
use novaboot.Messaging.Acks.{PendingDelivery, auto, client, push_pending}
use novaboot.Messaging.Acks.Cumulative.{pending}
use novaboot.Messaging.Broker.{
  Subscription, SimpleBroker, new_broker, at, subscribe, unsubscribe, acknowledge,
}
use novaboot.Messaging.Broker.Publish.{
  targeted, claim, record_delivery, prune, Delivery, deliver, deliver_one, publish,
}
use novaboot.Messaging.Broker.Publish.Targets.{Picked, claim-queue}
use novaboot.Messaging.Broker.Publish.Users.{IsForUser, claim-user}
use novaboot.Messaging.Broker.Invariant.{
  Action, subscribing, unsubscribing, claiming, recording, pruning, run, Orderly, run-new_broker,
}
use novaboot.Messaging.Broker.Settling.{acknowledge-run}

abbrev limits : Limits
limits = record { max_message_bytes = 64; max_pending_send_bytes = 4096 }

abbrev two_sessions : Store
two_sessions = (7, new_shared limits false) ∷ (8, new_shared limits false) ∷ []

abbrev news : Frame
news = record { command = text "MESSAGE"; headers = []; body = text "new" }

-- Two sessions subscribe, a message is recorded for the first, and the second leaves.
abbrev busy : List Action
busy =
    subscribing (text "/topic/a") (text "s1") 7 client (text "ann") two_sessions
    ∷ subscribing (text "/topic/a") (text "s2") 8 auto (text "bob") two_sessions
    ∷ claiming (text "/topic/a") two_sessions
    ∷ recording 7 client (text "1") news
    ∷ recording 7 client (text "2") news
    ∷ pruning (8 ∷ [])
    ∷ []

busy_count : length (at (text "/topic/a") (run busy new_broker).subscriptions) ≡ 1
unfolding subscribe handle_active claim record_delivery push_pending prune same active
busy_count = refl

run-new_broker_example : Orderly (run busy new_broker)
run-new_broker_example = run-new_broker busy (omega arith)

abbrev recorded : ℕ → Text → PendingDelivery
recorded sequence ack = record {
  sequence = sequence;
  ack_id = ack;
  ack_mode = client;
  message = news;
}

waiting :
    pending 7 (run busy new_broker).pending_acks
    ≡ recorded 1 (text "1") ∷ recorded 2 (text "2") ∷ []
unfolding subscribe handle_active claim record_delivery push_pending prune same active
waiting = refl

acknowledge-run_example :
    ((acknowledge 7 (text "2") (run busy new_broker)).1 ≡ true)
    × (pending 7 (acknowledge 7 (text "2") (run busy new_broker)).0.pending_acks ≡ [])
unfolding same
acknowledge-run_example =
    acknowledge-run busy 7 (text "2") (recorded 1 (text "1") ∷ []) [] (recorded 2 (text "2"))
      (omega arith) waiting (refl, tt) refl

-- The last subscription ends between the claim and the record of a delivery, which then waits
-- although no subscription of the session is left.
abbrev late : List Action
late =
    subscribing (text "/topic/a") (text "s1") 7 client (text "ann") two_sessions
    ∷ claiming (text "/topic/a") two_sessions
    ∷ unsubscribing 7 (text "s1")
    ∷ recording 7 client (text "1") news
    ∷ []

late_delivery :
    ((run late new_broker).subscriptions ≡ [])
    × (pending 7 (run late new_broker).pending_acks ≡ recorded 1 (text "1") ∷ [])
unfolding subscribe handle_active claim unsubscribe record_delivery push_pending same active
late_delivery = (refl, refl)

abbrev worker : ℕ → Subscription
worker session = record {
  session = session;
  id = text "w";
  ack_mode = auto;
  principal = text "ann";
}

-- The first worker's session is gone.
abbrev queueing : SimpleBroker
queueing = record new_broker {
  subscriptions =
      (text "/queue/a", worker 9 ∷ worker 8 ∷ [])
      ∷ (text "/user/ann/a", worker 7 ∷ record (worker 8) { principal = text "bob" } ∷ [])
      ∷ [];
}

-- One session has to acknowledge, one is gone, and one need not acknowledge.
abbrev topic : SimpleBroker
topic = record new_broker {
  subscriptions =
      (text "/topic/a", record (worker 7) { ack_mode = client } ∷ worker 9 ∷ worker 8 ∷ []) ∷ [];
}

-- Two sessions take the message, and the subscription of the third is dropped.
abbrev topic_published : Delivery
topic_published = publish (text "/topic/a") (text "new") [] two_sessions topic

topic_delivered :
    (topic_published.delivered ≡ 2)
    × (topic_published.stale ≡ 9 ∷ [])
    × (length (pending 7 topic_published.broker.pending_acks) ≡ 1)
    × (pending 8 topic_published.broker.pending_acks ≡ [])
    × (length (at (text "/topic/a") topic_published.broker.subscriptions) ≡ 2)
unfolding publish claim deliver deliver_one record_delivery push_pending prune same handle_active
    active request enqueue serialize insert_or_assign escape
topic_delivered = (refl, refl, refl, refl, refl)

claim-queue_example :
    (targets : List Subscription) × ((claim (text "/queue/a") two_sessions queueing).1
      ≡ targeted targets (to_string 1))
    × Picked two_sessions (worker 9 ∷ worker 8 ∷ []) targets
unfolding same handle_active active
claim-queue_example =
    claim-queue (text "/queue/a") two_sessions queueing (worker 9 ∷ worker 8 ∷ []) refl refl
      (omega arith) (inr (inl refl))

claim-user_example :
    (targets : List Subscription) × ((claim (text "/user/ann/a") two_sessions queueing).1
      ≡ targeted targets (to_string 1))
    × IsForUser (text "ann") (worker 7 ∷ record (worker 8) { principal = text "bob" } ∷ []) targets
unfolding same
claim-user_example =
    claim-user (text "ann") (text "a") two_sessions queueing
      (worker 7 ∷ record (worker 8) { principal = text "bob" } ∷ []) (refl, (refl, (refl, tt))) refl
