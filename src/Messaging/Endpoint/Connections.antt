-- ===== src/Messaging/Endpoint/Connections.antt =====
-- All connections of `Endpoint` of src/messaging/stomp.cpp: their opening, the heartbeats and the
-- shutdown. The table of connections is a list with one entry for each handle; the clock is an
-- argument. A heartbeat or a shutdown reaches the sessions through their handles in the store.
pub mod Shutdown
mod Tests
use novaboot.Base.{
  ℕ, ◌-◌, ◌*◌, Bool, true, false, not, ◌&&◌, ◌||◌, List, [], ◌∷◌, ◌++◌, Option, none, some,
  if◌then◌else◌, leb, ltb, ◌==◌, Text, text,
}
use novaboot.WebSocket.Session.{Session, close_session}
use novaboot.WebSocket.Registry.{
  Store, Request, text_request, close_request, request, handle_active,
}
use novaboot.Messaging.Decoder.{serialize}
use novaboot.Messaging.Broker.{SimpleBroker}
use novaboot.Messaging.Endpoint.{ConnectionState, open_state, error_frame, unsubscribe_all}

pub record Connections : Type 0 where
  pub accepting : Bool
  pub connections : List ConnectionState
  pub broker : SimpleBroker
  pub store : Store

-- The answer to a handshake: none, or the status and the reason of a refusal.
abbrev pub authorize : Connections → Option (ℕ × Text)
authorize t = if t.accepting then none else some (503, text "STOMP endpoint is shutting down")

-- `connections_[id] = state`.
abbrev pub put_connection : ConnectionState → List ConnectionState → List ConnectionState
put_connection new [] = new ∷ []
put_connection new (c ∷ cs) =
    let rest = put_connection new cs in if c.handle == new.handle then new ∷ cs else c ∷ rest

unfoldable pub on_open :
    (id : ℕ) (principal : Text) (now : ℕ) → Session → Connections → Connections × Session
on_open id principal now session t =
    if not t.accepting then (t, (close_session 1001 (text "Server shutting down") session).0) else (
      record t { connections = put_connection (open_state id principal now) t.connections },
      session,
    )

-- One request for each connection.
abbrev pub request_all : Request → List ConnectionState → Store → Store
request_all r [] store = store
request_all r (c ∷ cs) store = request_all r cs (request c.handle r store).0

unfoldable pub begin_shutdown : Connections → Connections
begin_shutdown t = record t {
  accepting = false;
  store = request_all (close_request 1001 (text "Server shutting down")) t.connections t.store;
}

abbrev pub no_connections : List ConnectionState → Bool
no_connections [] = true
no_connections (_ ∷ _) = false

abbrev pub drained : Connections → Bool
drained t = no_connections t.connections

-- The subscriptions of each connection end, then its session.
abbrev pub unsubscribe_connections : List ConnectionState → SimpleBroker → SimpleBroker
unsubscribe_connections [] b = b
unsubscribe_connections (c ∷ cs) b =
    unsubscribe_connections cs (unsubscribe_all c.handle c.subscription_ids b)

unfoldable pub force_shutdown : Connections → Connections
force_shutdown t = record {
  accepting = false;
  connections = [];
  broker = unsubscribe_connections t.connections t.broker;
  store =
      request_all (close_request 1001 (text "Server shutdown deadline exceeded")) t.connections
        t.store;
}

-- The client was silent for more than two of its periods.
abbrev pub is_overdue : (now : ℕ) → ConnectionState → Bool
is_overdue now c =
    ltb 0 c.incoming_heartbeat && ltb (c.incoming_heartbeat * 2) (now - c.last_received_ms)

abbrev pub time_out : ConnectionState → Store → Store
time_out c store =
    (request c.handle (close_request 1002 (text "STOMP heartbeat timeout"))
      (request c.handle (text_request (serialize (error_frame (text "STOMP heartbeat timeout"))))
        store).0).0

abbrev pub is_due : (now : ℕ) → ConnectionState → Bool
is_due now c = ltb 0 c.outgoing_heartbeat && leb c.outgoing_heartbeat (now - c.last_sent_ms)

abbrev pub sent_at : ℕ → ConnectionState → Store × Bool → ConnectionState × Store
sent_at now c (store, sent) = (if sent then record c { last_sent_ms = now } else c, store)

-- What a round of `heartbeat_loop` does for one connection.
abbrev pub beat_one : (now : ℕ) → ConnectionState → Store → ConnectionState × Store
beat_one now c store =
    if not c.connected || not (handle_active c.handle store)
    then (c, store)
    else if is_overdue now c
    then (c, time_out c store)
    else if is_due now c
    then sent_at now c (request c.handle (text_request (10 ∷ [])) store)
    else (c, store)

abbrev pub beat_all : (now : ℕ) → List ConnectionState → Store → List ConnectionState × Store
beat_all now [] store = ([], store)
beat_all now (c ∷ cs) store =
    let one = beat_one now c store in let rest = beat_all now cs one.1 in (one.0 ∷ rest.0, rest.1)

-- A round of `heartbeat_loop`.
unfoldable pub heartbeat_round : (now : ℕ) → Connections → Connections
heartbeat_round now t =
    let after = beat_all now t.connections t.store in
    record t { connections = after.0; store = after.1 }
