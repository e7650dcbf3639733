-- ===== src/Messaging/Broker/Publish.antt =====
-- `SimpleBroker::publish` of src/messaging/stomp.cpp.
pub mod Targets
pub mod Parts
pub mod Pruned
pub mod Deliveries
pub mod Published
pub mod Users
use novaboot.Base.{
  ℕ, zero, suc, ◌+◌, ◌%◌, ◌^◌, Bool, true, false, not, ◌&&◌, ◌||◌, List, [], ◌∷◌, ◌++◌, Option,
  none, some, if◌then◌else◌, ◌==◌, length, drop, get_elem?, erase_if, Text, text, same, starts_with,
  to_string,
}
use novaboot.Base.Dict
use novaboot.WebSocket.Registry.{Store, handle_active, request, text_request}
use novaboot.Messaging.Decoder.{
  Frame, Headers, Split, unsplit, split, split_at, insert_or_assign, serialize,
}
use novaboot.Messaging.Acks.{
  AckMode, auto, client, client_individual, PendingDelivery, push_pending,
}
use novaboot.Messaging.Broker.{
  Subscription, SimpleBroker, supported_destination, erase_subscriptions,
}

abbrev pub pick_at : Store → List Subscription → Option Subscription → List Subscription
pick_at store later none = later
pick_at store later (some s) = if handle_active s.session store then s ∷ [] else later

-- The loop over offsets for a queue, with the number of rounds left: the first active subscription
-- from the cursor on, going round.
unfoldable pub pick : Store → List Subscription → (cursor offset rounds : ℕ) → List Subscription
pick store ss cursor offset zero = []
pick store ss cursor offset (suc rounds) =
    let later = pick store ss cursor (offset + 1) rounds in
    pick_at store later (get_elem? ss ((cursor + offset) % 2 ^ 64 % length ss))

abbrev pub cursor_or_zero : Option ℕ → ℕ
cursor_or_zero none = 0
cursor_or_zero (some n) = n

abbrev pub of_principal : Text → List Subscription → List Subscription
of_principal principal ss = erase_if (λ s. not (same s.principal principal)) ss

-- What the first part finds: nothing to do, or the targets and the identifier of the message.
pub data Claim : Type 0 where
  nobody : Claim
  targeted : (targets : List Subscription) (message_id : Text) → Claim

abbrev pub numbered : SimpleBroker → List Subscription → SimpleBroker × Claim
numbered b targets = (
  record b { next_message_id = (b.next_message_id + 1) % 2 ^ 64 },
  targeted targets (to_string b.next_message_id),
)

abbrev pub claim_queue : Text → Store → SimpleBroker → List Subscription → SimpleBroker × Claim
claim_queue destination store b ss =
    let cursor = cursor_or_zero (Dict.lookup destination b.queue_cursors) in
    numbered
      (record b { queue_cursors = Dict.assign destination ((cursor + 1) % 2 ^ 64) b.queue_cursors })
      (pick store ss cursor 0 (length ss))

-- `/user/<principal>/…`; without the second slash nothing is sent.
abbrev pub claim_user : SimpleBroker → List Subscription → Split → SimpleBroker × Claim
claim_user b ss unsplit = (b, nobody)
claim_user b ss (split principal rest) = numbered b (of_principal principal ss)

abbrev pub claim_found :
    Text → Store → SimpleBroker → Option (List Subscription) → SimpleBroker × Claim
claim_found destination store b none = (b, nobody)
claim_found destination store b (some ss) =
    if starts_with (text "/queue/") destination
    then claim_queue destination store b ss
    else if starts_with (text "/user/") destination
    then claim_user b ss (split_at 47 (drop 6 destination))
    else numbered b ss

unfoldable pub claim : Text → Store → SimpleBroker → SimpleBroker × Claim
claim destination store b =
    claim_found destination store b (Dict.lookup destination b.subscriptions)

abbrev pub with_ack : AckMode → Text → Headers → Headers
with_ack auto message_id headers = headers
with_ack _ message_id headers = insert_or_assign (text "ack") message_id headers

abbrev pub message_frame : (destination body : Text) → Headers → Text → Subscription → Frame
message_frame destination body headers message_id target = record {
  command = text "MESSAGE";
  headers = with_ack target.ack_mode message_id (
      insert_or_assign (text "message-id") message_id (
        insert_or_assign (text "subscription") target.id
          (insert_or_assign (text "destination") destination headers)));
  body = body;
}

unfoldable pub record_delivery : ℕ → AckMode → Text → Frame → SimpleBroker → SimpleBroker
record_delivery session mode message_id message b = record b {
  pending_acks =
      push_pending session
        (record {
          sequence = b.next_delivery_sequence;
          ack_id = message_id;
          ack_mode = mode;
          message = message;
        })
        b.pending_acks;
  next_delivery_sequence = (b.next_delivery_sequence + 1) % 2 ^ 64;
}

abbrev pub record_unless_auto : Subscription → Text → Frame → SimpleBroker → SimpleBroker
record_unless_auto target message_id message b = elim target.ack_mode [
  | auto ↦ b
  | client ↦ record_delivery target.session client message_id message b
  | client_individual ↦ record_delivery target.session client_individual message_id message b
]

-- The variables of the loop over targets.
pub record Delivery : Type 0 where
  pub broker : SimpleBroker
  pub store : Store
  pub delivered : ℕ
  pub stale : List ℕ

abbrev pub mark_stale : ℕ → Delivery → Delivery
mark_stale session d = record d { stale = d.stale ++ session ∷ [] }

-- What follows a `send_text` that left this store.
abbrev pub after_send : Subscription → Text → Frame → Delivery → Store × Bool → Delivery
after_send target message_id message d (store, true) = record d {
  store = store;
  delivered = d.delivered + 1;
  broker = record_unless_auto target message_id message d.broker;
}
after_send target message_id message d (store, false) =
    if handle_active target.session store
    then record d { store = store }
    else mark_stale target.session (record d { store = store })

unfoldable pub deliver_one :
    (destination body : Text) → Headers → Text → Subscription → Delivery → Delivery
deliver_one destination body headers message_id target d =
    let message = message_frame destination body headers message_id target in
    if handle_active target.session d.store
    then after_send target message_id message d
        (request target.session (text_request (serialize message)) d.store)
    else mark_stale target.session d

unfoldable pub deliver :
    (destination body : Text) → Headers → Text → List Subscription → Delivery → Delivery
deliver destination body headers message_id [] d = d
deliver destination body headers message_id (target ∷ targets) d =
    deliver destination body headers message_id targets
      (deliver_one destination body headers message_id target d)

abbrev pub contains : ℕ → List ℕ → Bool
contains id [] = false
contains id (i ∷ ids) = i == id || contains id ids

unfoldable pub prune : List ℕ → SimpleBroker → SimpleBroker
prune [] b = b
prune (id ∷ ids) b = record b {
  subscriptions = erase_subscriptions (λ s. contains s.session (id ∷ ids)) b.subscriptions;
}

abbrev pub publish_claimed :
    (destination body : Text) → Headers → Store → SimpleBroker × Claim → Delivery
publish_claimed destination body headers store (b, nobody) = record {
  broker = b;
  store = store;
  delivered = 0;
  stale = [];
}
publish_claimed destination body headers store (b, targeted targets message_id) =
    let sent =
      deliver destination body headers message_id targets
        (record { broker = b; store = store; delivered = 0; stale = [] }) in
    record sent { broker = prune sent.stale sent.broker }

-- The broker, the sessions and the count of deliveries after a message.
unfoldable pub publish : (destination body : Text) → Headers → Store → SimpleBroker → Delivery
publish destination body headers store b =
    if supported_destination destination
    then publish_claimed destination body headers store (claim destination store b)
    else record { broker = b; store = store; delivered = 0; stale = [] }
