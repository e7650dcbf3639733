-- ===== src/Messaging/Endpoint.antt =====
-- `Endpoint` of src/messaging/stomp.cpp, for one connection: what its frames do to the broker, to
-- the session and to the state of the connection. The shared state of the session stands in the
-- store, where the broker's handle finds it; an operation on the session reads and writes it there.
-- Metrics are left out.
pub mod Frames
pub mod Connections
mod Tests
use novaboot.Base.{
  from_chars, ℕ, ◌+◌, Bool, true, false, not, ◌&&◌, ◌||◌, List, [], ◌∷◌, ◌++◌, Option, none, some,
  if◌then◌else◌, max, ltb, ◌==◌, Text, text, same, is_empty, starts_with, to_string,
}
use novaboot.Base.Dict.{Dict}
use novaboot.WebSocket.Shared.{SharedSession}
use novaboot.WebSocket.Session.{Session, send_text, close_session}
use novaboot.WebSocket.Registry.{Store, lock, update}
use novaboot.Messaging.Decoder.{
  Frame, Decoder, new_decoder, Split, unsplit, split, split_at, serialize,
}
use novaboot.Messaging.Broker.{SimpleBroker, unsubscribe}

-- `MessageDispatcher`: the mapped destinations, with their handlers.
abbrev pub MessageDispatcher : Type 0
MessageDispatcher = Dict (Text → Bool)

pub record Config : Type 0 where
  pub server_outgoing_heartbeat : ℕ
  pub server_incoming_heartbeat : ℕ
  pub dispatcher : Option MessageDispatcher
  pub application_destination_prefix : Text
  pub interceptor : Option (Session → Frame → Bool)

pub record ConnectionState : Type 0 where
  pub decoder : Decoder
  pub connected : Bool
  pub handle : ℕ
  pub principal : Text
  pub subscription_ids : List Text
  pub outgoing_heartbeat : ℕ
  pub incoming_heartbeat : ℕ
  pub last_received_ms : ℕ
  pub last_sent_ms : ℕ

-- A connection with what it reaches.
pub record World : Type 0 where
  pub broker : SimpleBroker
  pub store : Store
  pub session : Session
  pub state : ConnectionState

-- `on_open` of an endpoint that accepts connections.
abbrev pub open_state : (id : ℕ) (principal : Text) (now : ℕ) → ConnectionState
open_state id principal now = record {
  decoder = new_decoder;
  connected = false;
  handle = id;
  principal = principal;
  subscription_ids = [];
  outgoing_heartbeat = 0;
  incoming_heartbeat = 0;
  last_received_ms = now;
  last_sent_ms = now;
}

abbrev pub shared_or : SharedSession → Option SharedSession → SharedSession
shared_or s none = s
shared_or s (some t) = t

abbrev pub keep_session : World → Session × Bool → World
keep_session w (s, done) = record w { session = s; store = update w.state.handle s.shared w.store }

-- An operation on the session.
abbrev pub on_session : (Session → Session × Bool) → World → World
on_session operation w = keep_session w (
    operation
      (record w.session { shared = shared_or w.session.shared (lock w.state.handle w.store) }))

abbrev pub send : Frame → World → World
send frame w = on_session (send_text (serialize frame)) w

abbrev pub close_with : ℕ → Text → World → World
close_with code reason w = on_session (close_session code reason) w

abbrev pub error_frame : Text → Frame
error_frame why = record {
  command = text "ERROR";
  headers = (text "message", why) ∷ [];
  body = why;
}

unfoldable pub protocol_error : Text → World → World
protocol_error why w = close_with 1002 (text "Invalid STOMP frame") (send (error_frame why) w)

abbrev pub pair_of : Option ℕ → Option ℕ → Option (ℕ × ℕ)
pair_of none m = none
pair_of (some n) none = none
pair_of (some n) (some m) = some (n, m)

abbrev pub heartbeat_parts : Split → Option (ℕ × ℕ)
heartbeat_parts unsplit = none
heartbeat_parts (split front back) = pair_of (from_chars front) (from_chars back)

unfoldable pub parse_heartbeat : Text → Option (ℕ × ℕ)
parse_heartbeat [] = some (0, 0)
parse_heartbeat (b ∷ bs) = heartbeat_parts (split_at 44 (b ∷ bs))

-- The negotiated period, where zero means that a side does not take part.
abbrev pub negotiated : ℕ → ℕ → ℕ
negotiated client server = if client == 0 || server == 0 then 0 else max client server

abbrev pub with_state : ConnectionState → World → World
with_state state w = record w { state = state }

-- The loop of `on_close` over the identifiers.
abbrev pub unsubscribe_all : ℕ → List Text → SimpleBroker → SimpleBroker
unsubscribe_all session [] b = b
unsubscribe_all session (id ∷ ids) b = unsubscribe_all session ids (unsubscribe session id b)

unfoldable pub on_close : World → SimpleBroker
on_close w = unsubscribe_all w.state.handle w.state.subscription_ids w.broker
