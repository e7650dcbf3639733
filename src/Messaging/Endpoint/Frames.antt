-- ===== src/Messaging/Endpoint/Frames.antt =====
-- `process_frame` and `on_message` of `Endpoint` in src/messaging/stomp.cpp.
pub mod Safety
pub mod Leaving
pub mod Lives
use novaboot.Base.{
  ℕ, ◌+◌, Bool, true, false, not, ◌&&◌, ◌||◌, List, [], ◌∷◌, ◌++◌, Option, none, some,
  if◌then◌else◌, ◌==◌, length, drop, erase_if, Text, text, same, is_empty, starts_with, to_string,
}
use novaboot.Base.Dict
use novaboot.WebSocket.Frame.{Opcode, text_frame}
use novaboot.WebSocket.Session.{Session}
use novaboot.WebSocket.Connection.{Message}
use novaboot.WebSocket.Registry.{Store}
use novaboot.Messaging.Decoder.{Frame, header, Decoder, feed, Fed, fed_frames, fed_error}
use novaboot.Messaging.Acks.{AckMode, auto, client, client_individual}
use novaboot.Messaging.Broker.{
  SimpleBroker, subscribe, unsubscribe, acknowledge, negative_acknowledge,
}
use novaboot.Messaging.Broker.Publish.{Delivery, publish}
use novaboot.Messaging.Endpoint.{
  MessageDispatcher, Config, ConnectionState, World, send, close_with, protocol_error,
  parse_heartbeat, negotiated,
}

-- `find` of a text that is not `npos`.
abbrev pub has_infix : Text → Text → Bool
has_infix pattern [] = is_empty pattern
has_infix pattern (c ∷ t) = starts_with pattern (c ∷ t) || has_infix pattern t

abbrev pub connected_frame : Config → Frame
connected_frame config = record {
  command = text "CONNECTED";
  headers =
      (text "version", text "1.2")
      ∷ (
        text "heart-beat",
        to_string config.server_outgoing_heartbeat
            ++ 44 ∷ to_string config.server_incoming_heartbeat,
      )
      ∷ [];
  body = [];
}

-- The periods as the source computes them.
abbrev pub accept_connection : Config → World → Option (ℕ × ℕ) → World
accept_connection config w none = protocol_error (text "invalid STOMP heart-beat header") w
accept_connection config w (some (client_outgoing, client_incoming)) =
    send (connected_frame config) (record w {
      state = record w.state {
        outgoing_heartbeat = negotiated client_outgoing config.server_incoming_heartbeat;
        incoming_heartbeat = negotiated client_incoming config.server_outgoing_heartbeat;
        connected = true;
      };
    })

unfoldable pub connect_frame : Config → Frame → World → World
connect_frame config frame w =
    if not (same frame.command (text "CONNECT")) && not (same frame.command (text "STOMP"))
    then protocol_error (text "CONNECT or STOMP must be the first frame") w
    else if is_empty (header (text "accept-version") frame)
        || not (has_infix (text "1.2") (header (text "accept-version") frame))
    then protocol_error (text "STOMP 1.2 is required") w
    else accept_connection config w (parse_heartbeat (header (text "heart-beat") frame))

-- The receipt that a frame may ask for.
abbrev pub receipt_for : Text → World → World
receipt_for [] w = w
receipt_for (b ∷ bs) w =
    send
      (record { command = text "RECEIPT"; headers = (text "receipt-id", b ∷ bs) ∷ []; body = [] }) w

abbrev pub receipt : Frame → World → World
receipt frame w = receipt_for (header (text "receipt") frame) w

abbrev pub parse_ack_mode : Text → Option AckMode
parse_ack_mode ack =
    if is_empty ack || same ack (text "auto")
    then some auto
    else if same ack (text "client")
    then some client
    else if same ack (text "client-individual")
    then some client_individual
    else none

abbrev pub invalid_subscription : World → World
invalid_subscription w = protocol_error (text "invalid STOMP subscription") w

-- What follows the broker's answer.
abbrev pub subscribed : Frame → Text → World → SimpleBroker × Bool → World
subscribed frame id w (b, false) = invalid_subscription w
subscribed frame id w (b, true) = receipt frame (record w {
  broker = b;
  state = record w.state { subscription_ids = w.state.subscription_ids ++ id ∷ [] };
})

abbrev pub subscribe_in_mode : Frame → World → Option AckMode → World
subscribe_in_mode frame w none = invalid_subscription w
subscribe_in_mode frame w (some mode) = subscribed frame (header (text "id") frame) w (
    subscribe (header (text "destination") frame) (header (text "id") frame) w.state.handle mode
      w.state.principal w.store w.broker)

unfoldable pub subscribe_frame : Frame → World → World
subscribe_frame frame w =
    if is_empty (header (text "destination") frame) || is_empty (header (text "id") frame)
    then invalid_subscription w
    else subscribe_in_mode frame w (parse_ack_mode (header (text "ack") frame))

unfoldable pub unsubscribe_frame : Frame → World → World
unsubscribe_frame frame w =
    let id = header (text "id") frame in
    if is_empty id
    then protocol_error (text "UNSUBSCRIBE requires id") w
    else receipt frame (record w {
      broker = unsubscribe w.state.handle id w.broker;
      state = record w.state {
        subscription_ids = erase_if (λ i. same i id) w.state.subscription_ids;
      };
    })

abbrev handled : Text → Option (Text → Bool) → Bool
handled body none = false
handled body (some handler) = handler body

-- `MessageDispatcher::dispatch`.
unfoldable pub dispatch : Text → Text → MessageDispatcher → Bool
dispatch destination body mappings = handled body (Dict.lookup destination mappings)

abbrev pub dispatched : Text → Text → Option MessageDispatcher → Bool
dispatched destination body none = false
dispatched destination body (some mappings) = dispatch destination body mappings

abbrev pub published : Frame → Text → World → Delivery → World
published frame destination w d =
    let w' = record w { broker = d.broker; store = d.store } in
    if d.delivered == 0
      && (not (starts_with (text "/topic/") destination)
          && not (starts_with (text "/queue/") destination))
    then protocol_error (text "unsupported STOMP destination") w'
    else receipt frame w'

unfoldable pub send_frame_to : Config → Frame → World → World
send_frame_to config frame w =
    let destination = header (text "destination") frame in
    let prefix = config.application_destination_prefix in
    if not (is_empty prefix) && starts_with (prefix ++ 47 ∷ []) destination
    then (if dispatched (drop (length prefix) destination) frame.body config.dispatcher
        then receipt frame w
        else protocol_error (text "unmapped STOMP application destination") w)
    else if is_empty destination
    then protocol_error (text "unsupported STOMP destination") w
    else published frame destination w
        (publish destination frame.body frame.headers w.store w.broker)

abbrev pub unknown_ack : World → World
unknown_ack w = protocol_error (text "unknown STOMP acknowledgement id") w

abbrev pub acknowledged : Frame → World → SimpleBroker × Bool → World
acknowledged frame w (b, false) = unknown_ack (record w { broker = b })
acknowledged frame w (b, true) = receipt frame (record w { broker = b })

abbrev pub redelivered : Frame → World → Store × Bool → World
redelivered frame w (store, false) = unknown_ack (record w { store = store })
redelivered frame w (store, true) = receipt frame (record w { store = store })

unfoldable pub acknowledge_frame : Frame → World → World
acknowledge_frame frame w =
    let id = header (text "id") frame in
    if is_empty id
    then unknown_ack w
    else if same frame.command (text "ACK")
    then acknowledged frame w (acknowledge w.state.handle id w.broker)
    else redelivered frame w (negative_acknowledge w.state.handle id w.broker w.store)

unfoldable pub process_frame : Config → Frame → World → World
process_frame config frame w =
    if not w.state.connected
    then connect_frame config frame w
    else if same frame.command (text "SUBSCRIBE")
    then subscribe_frame frame w
    else if same frame.command (text "UNSUBSCRIBE")
    then unsubscribe_frame frame w
    else if same frame.command (text "SEND")
    then send_frame_to config frame w
    else if same frame.command (text "ACK") || same frame.command (text "NACK")
    then acknowledge_frame frame w
    else if same frame.command (text "DISCONNECT")
    then close_with 1000 (text "STOMP disconnect") (receipt frame w)
    else protocol_error (text "unsupported STOMP command") w

abbrev pub allowed_by : Option (Session → Frame → Bool) → Session → Frame → Bool
allowed_by none session frame = true
allowed_by (some interceptor) session frame = interceptor session frame

-- The loop over the frames of a message.
unfoldable pub process_frames : Config → List Frame → World → World
process_frames config [] w = w
process_frames config (frame ∷ frames) w =
    let rest = process_frames config frames (process_frame config frame w) in
    if w.session.close_sent
    then w
    else if not (allowed_by config.interceptor w.session frame)
    then protocol_error (text "STOMP frame rejected by interceptor") w
    else rest

abbrev pub after_feed : Config → World → Decoder × Fed → World
after_feed config w (decoder, fed_error why) =
    protocol_error why (record w { state = record w.state { decoder = decoder } })
after_feed config w (decoder, fed_frames frames) =
    process_frames config frames (record w { state = record w.state { decoder = decoder } })

abbrev pub is_text : Opcode → Bool
is_text text_frame = true
is_text _ = false

-- `on_message` of a connection that `on_open` has entered.
unfoldable pub on_message : Config → (now : ℕ) → Message → World → World
on_message config now message w =
    if not (is_text message.opcode)
    then protocol_error (text "STOMP requires text WebSocket messages") w
    else after_feed config (record w { state = record w.state { last_received_ms = now } })
        (feed message.payload w.state.decoder)
