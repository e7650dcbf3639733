-- ===== src/Messaging/Broker/Invariant.antt =====
-- What holds of the broker of src/messaging/stomp.cpp whatever its clients do. An action is one
-- part of a method that holds the mutex, so a run is any interleaving of the calls of all threads.
use novaboot.Base.{
  ℕ, ◌+◌, ◌%◌, ◌^◌, ◌≤◌, ◌<◌, ◌≡◌, refl, inl, inr, not, ◌||◌, List, [], ◌∷◌, ◌==◌, arith, length,
  drop, Text, text, is_empty, starts_with, Bool-cases, Option-cases,
}
use novaboot.Base.Dict
use novaboot.WebSocket.Registry.{Store, handle_active}
use novaboot.Messaging.Decoder.{Frame, Split, unsplit, split, split_at}
use novaboot.Messaging.Acks.{AckMode}
use novaboot.Messaging.Acks.Order.{
  Waiting, Waiting-erase, Waiting-acknowledge, Waiting-push_pending,
}
use novaboot.Messaging.Broker.{
  Subscription, SimpleBroker, new_broker, supported_destination, is_subscription, place,
  list_or_empty, subscribe, unsubscribe, acknowledge,
}
use novaboot.Messaging.Broker.Publish.{claim, claim_user, record_delivery, contains, prune}
use novaboot.Messaging.Broker.Kept.{
  Kept, Unique-place, Kept-erase_subscriptions, Kept-assign, lookup-Unique, NonEmpty-place,
}

pub record Orderly (b : SimpleBroker) : Type 0 where
  pub kept : Kept b.subscriptions
  pub waiting : Waiting b.next_delivery_sequence b.pending_acks

pub data Action : Type 0 where
  subscribing :
      (destination id : Text) (session : ℕ) (mode : AckMode) (principal : Text) (store : Store)
      → Action
  unsubscribing : (session : ℕ) (id : Text) → Action
  acknowledging : (session : ℕ) (ack_id : Text) → Action
  claiming : (destination : Text) (store : Store) → Action
  recording : (session : ℕ) (mode : AckMode) (message_id : Text) (message : Frame) → Action
  pruning : (stale : List ℕ) → Action

abbrev pub act : Action → SimpleBroker → SimpleBroker
act (subscribing destination id session mode principal store) b =
    (subscribe destination id session mode principal store b).0
act (unsubscribing session id) b = unsubscribe session id b
act (acknowledging session ack_id) b = (acknowledge session ack_id b).0
act (claiming destination store) b = (claim destination store b).0
act (recording session mode message_id message) b =
    record_delivery session mode message_id message b
act (pruning stale) b = prune stale b

abbrev pub run : List Action → SimpleBroker → SimpleBroker
run [] b = b
run (a ∷ actions) b = run actions (act a b)

Orderly-subscribe :
    (destination id : Text) (session : ℕ) (mode : AckMode) (principal : Text) (store : Store)
    (b : SimpleBroker)
    → Orderly b
    → Orderly (subscribe destination id session mode principal store b).0
unfolding subscribe
Orderly-subscribe destination id session mode principal store b o =
    elim (Bool-cases (supported_destination destination)) [
      | inr unsupported ↦ rw unsupported o
      | inl supported ↦
          elim (Bool-cases (is_empty id || (session == 0 || not (handle_active session store)))) [
            | inl refused ↦ rw (supported, refused) o
            | inr accepted ↦
                let new : Subscription = record {
                  session = session;
                  id = id;
                  ack_mode = mode;
                  principal = principal;
                } in
                let old = list_or_empty (Dict.lookup destination b.subscriptions) in
                rw (supported, accepted)
                  (record {
                    kept =
                        Kept-assign destination (place new old) b.subscriptions supported
                          (NonEmpty-place new old)
                          (Unique-place new old (lookup-Unique destination b.subscriptions o.kept))
                          o.kept;
                    waiting = o.waiting;
                  })
          ]
    ]

Orderly-prune : (stale : List ℕ) (b : SimpleBroker) → Orderly b → Orderly (prune stale b)
unfolding prune
Orderly-prune [] b o = o
Orderly-prune (id ∷ ids) b o = record {
  kept = Kept-erase_subscriptions (λ s. contains s.session (id ∷ ids)) b.subscriptions o.kept;
  waiting = o.waiting;
}

-- The fields that a claim leaves alone.
pub record SameDeliveries (b' b : SimpleBroker) : Type 0 where
  pub subscriptions : b'.subscriptions ≡ b.subscriptions
  pub pending_acks : b'.pending_acks ≡ b.pending_acks
  pub sequence : b'.next_delivery_sequence ≡ b.next_delivery_sequence

claim_user-SameDeliveries :
    (b : SimpleBroker) (ss : List Subscription) (rest : Split)
    → SameDeliveries (claim_user b ss rest).0 b
claim_user-SameDeliveries b ss unsplit = record {
  subscriptions = refl;
  pending_acks = refl;
  sequence = refl;
}
claim_user-SameDeliveries b ss (split principal rest) = record {
  subscriptions = refl;
  pending_acks = refl;
  sequence = refl;
}

pub claim-SameDeliveries :
    (destination : Text) (store : Store) (b : SimpleBroker)
    → SameDeliveries (claim destination store b).0 b
unfolding claim
claim-SameDeliveries destination store b =
    elim (Option-cases (Dict.lookup destination b.subscriptions)) [
      | inl missing ↦
          rw missing (record { subscriptions = refl; pending_acks = refl; sequence = refl })
      | inr (ss, found) ↦ rw found (elim (Bool-cases (starts_with (text "/queue/") destination)) [
        | inl queue ↦
            rw queue (record { subscriptions = refl; pending_acks = refl; sequence = refl })
        | inr other ↦ rw other (elim (Bool-cases (starts_with (text "/user/") destination)) [
          | inl user ↦ rw user (claim_user-SameDeliveries b ss (split_at 47 (drop 6 destination)))
          | inr topic ↦
              rw topic (record { subscriptions = refl; pending_acks = refl; sequence = refl })
        ])
      ])
    ]

act-Orderly :
    (a : Action) (b : SimpleBroker)
    → b.next_delivery_sequence + 1 < 2 ^ 64
    → Orderly b
    → Orderly (act a b)
unfolding unsubscribe acknowledge record_delivery
act-Orderly (subscribing destination id session mode principal store) b l o =
    Orderly-subscribe destination id session mode principal store b o
act-Orderly (unsubscribing session id) b l o = record {
  kept = Kept-erase_subscriptions (is_subscription session id) b.subscriptions o.kept;
  waiting = Waiting-erase b.next_delivery_sequence session b.pending_acks o.waiting;
}
act-Orderly (acknowledging session ack_id) b l o = record {
  kept = o.kept;
  waiting = Waiting-acknowledge b.next_delivery_sequence session ack_id b.pending_acks o.waiting;
}
act-Orderly (claiming destination store) b l o =
    let c = claim-SameDeliveries destination store b in
    record { kept = rw c.subscriptions o.kept; waiting = rw (c.sequence, c.pending_acks) o.waiting }
act-Orderly (recording session mode message_id message) b l o = record {
  kept = o.kept;
  waiting =
      let next : (b.next_delivery_sequence + 1) % 2 ^ 64 ≡ b.next_delivery_sequence + 1 =
        omega arith in
      rw next (
        Waiting-push_pending b.next_delivery_sequence session
          (record {
            sequence = b.next_delivery_sequence;
            ack_id = message_id;
            ack_mode = mode;
            message = message;
          })
          b.pending_acks refl o.waiting);
}
act-Orderly (pruning stale) b l o = Orderly-prune stale b o

sequence-act :
    (a : Action) (b : SimpleBroker)
    → (act a b).next_delivery_sequence ≤ b.next_delivery_sequence + 1
unfolding unsubscribe acknowledge record_delivery subscribe prune
sequence-act (subscribing destination id session mode principal store) b =
    elim (Bool-cases (
      not (supported_destination destination)
      || (is_empty id || (session == 0 || not (handle_active session store))))) [
        | inl refused ↦ rw refused (omega arith)
        | inr accepted ↦ rw accepted (omega arith)
      ]
sequence-act (unsubscribing session id) b = omega arith
sequence-act (acknowledging session ack_id) b = omega arith
sequence-act (claiming destination store) b =
    omega (arith, (claim-SameDeliveries destination store b).sequence)
sequence-act (recording session mode message_id message) b = omega arith
sequence-act (pruning []) b = omega arith
sequence-act (pruning (id ∷ ids)) b = omega arith

pub run-Orderly :
    (actions : List Action) (b : SimpleBroker)
    → b.next_delivery_sequence + length actions < 2 ^ 64
    → Orderly b
    → Orderly (run actions b)
run-Orderly [] b l o = o
run-Orderly (a ∷ actions) b l o =
    run-Orderly actions (act a b) (omega (arith, sequence-act a b))
      (act-Orderly a b (omega arith) o)

-- After any interleaving of fewer than 2^64 - 1 parts of the broker's methods, from a new broker,
-- each destination of the map is a supported one, with one or more subscriptions of which no two
-- are of one session under one identifier; and each session that waits for acknowledgements has
-- one or more deliveries in the order of their sequence numbers, all below the next number.
pub run-new_broker :
    (actions : List Action) → length actions + 1 < 2 ^ 64 → Orderly (run actions new_broker)
run-new_broker actions l =
    run-Orderly actions new_broker (omega arith) (record { kept = tt; waiting = tt })
