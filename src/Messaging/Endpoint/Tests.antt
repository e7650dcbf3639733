-- ===== src/Messaging/Endpoint/Tests.antt =====
-- Runs of the STOMP endpoint of src/messaging/stomp.cpp.
use novaboot.Base.{◌≡◌, refl, true, false, List, [], ◌∷◌, ◌++◌, none, text, same}
use novaboot.WebSocket.Shared.{Limits, new_shared}
use novaboot.WebSocket.Frame.{text_frame, server_frame}
use novaboot.WebSocket.Session.{Session, send_text, send_frame, close_session, send_forced}
use novaboot.WebSocket.Connection.{Message}
use novaboot.Messaging.Decoder.{Frame, serialize, split_at}
use novaboot.Messaging.Escape.{escape}
use novaboot.Messaging.Broker.{new_broker}
use novaboot.Messaging.Broker.Publish.{publish, claim}
use novaboot.Messaging.Broker.Invariant.{claiming}
use novaboot.Messaging.Endpoint.{
  Config, World, open_state, protocol_error, parse_heartbeat, on_close,
}
use novaboot.Messaging.Endpoint.Frames.{connect_frame, send_frame_to, process_frame}
use novaboot.Messaging.Endpoint.Frames.Safety.{FirstFrame, process_frame-FirstFrame}
use novaboot.Messaging.Endpoint.Frames.Lives.{
  Event, own_message, other_thread, live, Gone, on_close-Gone,
}

abbrev limits : Limits
limits = record { max_message_bytes = 64; max_pending_send_bytes = 4096 }

abbrev fresh_session : Session
fresh_session = record {
  outbound = [];
  limits = limits;
  shared = new_shared limits false;
  transport = none;
  close_sent = false;
  overloaded = false;
}

abbrev config : Config
config = record {
  server_outgoing_heartbeat = 10000;
  server_incoming_heartbeat = 10000;
  dispatcher = none;
  application_destination_prefix = text "/app";
  interceptor = none;
}

abbrev opened : World
opened = record {
  broker = new_broker;
  store = (7, new_shared limits false) ∷ [];
  session = fresh_session;
  state = open_state 7 (text "ann") 0;
}

-- A client that cannot send heartbeats and wants to receive them.
abbrev listener : Frame
listener = record {
  command = text "CONNECT";
  headers = (text "accept-version", text "1.2") ∷ (text "heart-beat", text "0,10000") ∷ [];
  body = [];
}

-- The endpoint will expect heartbeats of it, and will send none.
listener_periods :
    ((connect_frame config listener opened).state.incoming_heartbeat ≡ 10000)
    × ((connect_frame config listener opened).state.outgoing_heartbeat ≡ 0)
unfolding connect_frame same parse_heartbeat split_at
listener_periods = (refl, refl)

-- A client that accepts other versions only is connected, where `1.2` occurs in one.
other_version_connects :
    (connect_frame config
      (record listener { headers = (text "accept-version", text "11.25") ∷ [] })
      opened).state.connected
    ≡ true
unfolding connect_frame same parse_heartbeat split_at
other_version_connects = refl

abbrev to_nobody : Frame
to_nobody = record {
  command = text "SEND";
  headers = (text "destination", text "/user/bob/inbox") ∷ [];
  body = [];
}

-- A user without subscriptions, unlike such a topic, ends the sender's session.
to_nobody_closes : (send_frame_to config to_nobody opened).session.close_sent ≡ true
unfolding send_frame_to publish claim same protocol_error send_text send_frame close_session
    send_forced serialize server_frame escape
to_nobody_closes = refl

process_frame-FirstFrame_example : FirstFrame listener opened (process_frame config listener opened)
process_frame-FirstFrame_example = process_frame-FirstFrame config listener opened refl

abbrev connecting : Message
connecting = record {
  opcode = text_frame;
  payload = text "CONNECT" ++ (10 ∷ text "accept-version:1.2") ++ (10 ∷ 10 ∷ 0 ∷ []);
}

abbrev events : List Event
events = own_message 5 connecting ∷ other_thread (claiming (text "/topic/a") opened.store) ∷ []

on_close-Gone_example : Gone 7 (on_close (live config events opened)).subscriptions
on_close-Gone_example = on_close-Gone config events opened 7 (text "ann") 0 refl tt (tt, (tt, tt))
