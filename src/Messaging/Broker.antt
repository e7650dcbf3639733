-- ===== src/Messaging/Broker.antt =====
-- `SimpleBroker` of src/messaging/stomp.cpp: subscriptions, the selection of the targets of a
-- message, and its delivery. A handle of a session is its identifier, and the store has the state
-- that it points to. The broker's mutex is free while the frames are sent, so `publish` is composed of the
-- parts that hold it: `claim`, one `record_delivery` for each delivery to be acknowledged, and
-- `prune`.
pub mod Publish
pub mod Kept
pub mod Invariant
pub mod Owners
pub mod Settling
mod Tests
use novaboot.Base.{
  ℕ, zero, suc, ◌+◌, ◌%◌, ◌^◌, Bool, true, false, not, ◌&&◌, ◌||◌, List, [], ◌∷◌, ◌++◌, Option,
  none, some, if◌then◌else◌, ltb, ◌==◌, length, drop, get_elem?, erase_if, Text, text, same,
  is_empty, starts_with, to_string,
}
use novaboot.Base.Dict
use novaboot.Base.Dict.{Dict}
use novaboot.WebSocket.Registry.{Store, handle_active, request, text_request}
use novaboot.Messaging.Decoder.{
  Frame, Headers, Split, unsplit, split, split_at, header, insert_or_assign, serialize,
}
use novaboot.Messaging.Acks.{
  AckMode, auto, client, client_individual, PendingDelivery, PendingAcks, find_ack, or_empty,
  push_pending,
}
use novaboot.Messaging.Acks

pub record Subscription : Type 0 where
  pub session : ℕ
  pub id : Text
  pub ack_mode : AckMode
  pub principal : Text

abbrev pub Subscriptions : Type 0
Subscriptions = Dict (List Subscription)

pub record SimpleBroker : Type 0 where
  pub subscriptions : Subscriptions
  pub queue_cursors : Dict ℕ
  pub pending_acks : PendingAcks
  pub next_message_id : ℕ
  pub next_delivery_sequence : ℕ

abbrev pub new_broker : SimpleBroker
new_broker = record {
  subscriptions = [];
  queue_cursors = [];
  pending_acks = [];
  next_message_id = 1;
  next_delivery_sequence = 1;
}

abbrev pub supported_destination : Text → Bool
supported_destination destination =
    starts_with (text "/topic/") destination
    || (starts_with (text "/queue/") destination || starts_with (text "/user/") destination)

abbrev pub is_subscription : ℕ → Text → Subscription → Bool
is_subscription session id s = s.session == session && same s.id id

-- Replaces the subscription of the same session with the same identifier, or adds it at the end.
abbrev pub place : Subscription → List Subscription → List Subscription
place new [] = new ∷ []
place new (s ∷ ss) =
    let rest = place new ss in
    if is_subscription new.session new.id s
    then record s { session = new.session; ack_mode = new.ack_mode; principal = new.principal } ∷ ss
    else s ∷ rest

-- `operator[]` of a map of lists.
abbrev pub list_or_empty : Option (List Subscription) → List Subscription
list_or_empty none = []
list_or_empty (some ss) = ss

abbrev pub at : Text → Subscriptions → List Subscription
at destination subscriptions = list_or_empty (Dict.lookup destination subscriptions)

unfoldable pub subscribe :
    (destination id : Text) (session : ℕ) (mode : AckMode) (principal : Text)
    → Store
    → SimpleBroker
    → SimpleBroker × Bool
subscribe destination id session mode principal store b =
    if not (supported_destination destination)
      || (is_empty id || (session == 0 || not (handle_active session store)))
    then (b, false)
    else (
      record b {
        subscriptions =
            Dict.assign destination
              (place (record { session = session; id = id; ack_mode = mode; principal = principal })
                (at destination b.subscriptions))
              b.subscriptions;
      },
      true,
    )

-- A destination that is left without subscriptions.
abbrev pub unless_empty : Text → List Subscription → Subscriptions → Subscriptions
unless_empty destination [] rest = rest
unless_empty destination (s ∷ ss) rest = (destination, s ∷ ss) ∷ rest

-- The loop over all destinations that erases some subscriptions.
abbrev pub erase_subscriptions : (Subscription → Bool) → Subscriptions → Subscriptions
erase_subscriptions gone [] = []
erase_subscriptions gone ((destination, ss) ∷ rest) =
    unless_empty destination (erase_if gone ss) (erase_subscriptions gone rest)

unfoldable pub unsubscribe : (session : ℕ) (id : Text) → SimpleBroker → SimpleBroker
unsubscribe session id b = record b {
  subscriptions = erase_subscriptions (is_subscription session id) b.subscriptions;
  pending_acks = Acks.erase session b.pending_acks;
}

abbrev pub with_pending : SimpleBroker → PendingAcks × Bool → SimpleBroker × Bool
with_pending b (acks, done) = (record b { pending_acks = acks }, done)

unfoldable pub acknowledge : (session : ℕ) (ack_id : Text) → SimpleBroker → SimpleBroker × Bool
acknowledge session ack_id b = with_pending b (Acks.acknowledge session ack_id b.pending_acks)

abbrev pub exists : (Subscription → Bool) → List Subscription → Bool
exists test [] = false
exists test (s ∷ ss) = test s || exists test ss

abbrev pub exists_anywhere : (Subscription → Bool) → Subscriptions → Bool
exists_anywhere test [] = false
exists_anywhere test ((destination, ss) ∷ rest) = exists test ss || exists_anywhere test rest

abbrev pub redelivery : Frame → Frame
redelivery frame = record frame {
  headers = insert_or_assign (text "redelivered") (text "true") frame.headers;
}

-- Without a subscription the handle is the default one, which is not active.
abbrev pub redeliver : ℕ → SimpleBroker → Store → Option PendingDelivery → Store × Bool
redeliver session b store none = (store, false)
redeliver session b store (some d) =
    if exists_anywhere
        (is_subscription session (header (text "subscription") (redelivery d.message)))
        b.subscriptions
      && handle_active session store
    then request session (text_request (serialize (redelivery d.message))) store
    else (store, false)

unfoldable pub negative_acknowledge :
    (session : ℕ) (ack_id : Text) → SimpleBroker → Store → Store × Bool
negative_acknowledge session ack_id b store =
    redeliver session b store (find_ack ack_id (or_empty (Acks.find session b.pending_acks)))
