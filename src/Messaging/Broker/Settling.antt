-- ===== src/Messaging/Broker/Settling.antt =====
-- What an acknowledgement settles in the broker of src/messaging/stomp.cpp.
use novaboot.Base.{
  ℕ, ◌+◌, ◌<◌, ◌^◌, ◌≡◌, ap, true, List, [], ◌∷◌, ◌++◌, Option, none, some, if◌then◌else◌, length,
  Text, same,
}
use mathlib.Core.Path.{subst}
use novaboot.Messaging.Acks
use novaboot.Messaging.Acks.{PendingDelivery, is_client, or_empty}
use novaboot.Messaging.Acks.Cumulative.{pending, Increasing, Unmatched, acknowledge_lem}
use novaboot.Messaging.Acks.Order.{find-InOrder}
use novaboot.Messaging.Broker.{new_broker, acknowledge}
use novaboot.Messaging.Broker.Invariant.{Action, run, run-new_broker}

-- Deliveries that wait stand in the map.
found :
    (o : Option (List PendingDelivery)) (front back : List PendingDelivery) (d : PendingDelivery)
    → or_empty o ≡ front ++ d ∷ back
    → o ≡ some (front ++ d ∷ back)
found (some ds) front back d e = ap some e
found none [] back d e = absurd (cc e)
found none (c ∷ front) back d e = absurd (cc e)

-- After any interleaving of fewer than 2^64 - 1 parts of the broker's methods, from a new broker:
-- where deliveries wait for a session, an acknowledgement with the identifier of one of them
-- succeeds. It finds the first with that identifier. In `client` mode it settles this one and all
-- before it, and otherwise this one alone.
pub acknowledge-run :
    (actions : List Action) (session : ℕ) (ack : Text) (front back : List PendingDelivery)
    (d : PendingDelivery)
    → length actions + 1 < 2 ^ 64
    → pending session (run actions new_broker).pending_acks ≡ front ++ d ∷ back
    → Unmatched ack front
    → same d.ack_id ack ≡ true
    → ((acknowledge session ack (run actions new_broker)).1 ≡ true)
      × (pending session (acknowledge session ack (run actions new_broker)).0.pending_acks
          ≡ (if is_client d.ack_mode then back else front ++ back))
unfolding acknowledge
acknowledge-run actions session ack front back d few waiting unmatched this =
    let b = run actions new_broker in
    let o = run-new_broker actions few in
    let ordered = find-InOrder b.next_delivery_sequence session b.pending_acks o.waiting in
    acknowledge_lem session ack b.pending_acks front back d
      (found (Acks.find session b.pending_acks) front back d waiting)
      (subst Increasing waiting ordered.0) unmatched this
