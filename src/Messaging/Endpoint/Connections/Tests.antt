-- ===== src/Messaging/Endpoint/Connections/Tests.antt =====
-- Runs of the shutdown and of the heartbeats of src/messaging/stomp.cpp.
use novaboot.Base.{ℕ, inl, ◌≡◌, refl, true, false, [], ◌∷◌, Text, text, All}
use novaboot.WebSocket.Shared.{Limits, new_shared, active, enqueue}
use novaboot.WebSocket.Session.{Session}
use novaboot.WebSocket.Registry.{handle_active, request}
use novaboot.Messaging.Decoder.{new_decoder}
use novaboot.Messaging.Acks.{client}
use novaboot.Messaging.Endpoint.{ConnectionState}
use novaboot.Messaging.Endpoint.Frames.Lives.{Gone}
use novaboot.Messaging.Endpoint.Connections.{
  Connections, drained, on_open, force_shutdown, heartbeat_round,
}
use novaboot.Messaging.Endpoint.Connections.Shutdown.{force_shutdown-Gone}

abbrev limits : Limits
limits = record { max_message_bytes = 64; max_pending_send_bytes = 4096 }

abbrev listening : ConnectionState
listening = record {
  decoder = new_decoder;
  connected = true;
  handle = 7;
  principal = text "ann";
  subscription_ids = text "0" ∷ [];
  outgoing_heartbeat = 100;
  incoming_heartbeat = 0;
  last_received_ms = 0;
  last_sent_ms = 0;
}

abbrev serving : Connections
serving = record {
  accepting = true;
  connections = listening ∷ [];
  broker = record {
    subscriptions =
        (
          text "/topic/a",
          record { session = 7; id = text "0"; ack_mode = client; principal = text "ann" } ∷ [],
        )
        ∷ [];
    pending_acks = [];
    next_message_id = 1;
    next_delivery_sequence = 1;
    queue_cursors = [];
  };
  store = (7, new_shared limits false) ∷ [];
}

-- After a period the server sends, and notes when.
beaten : (heartbeat_round 150 serving).connections ≡ record listening { last_sent_ms = 150 } ∷ []
unfolding heartbeat_round handle_active request active enqueue
beaten = refl

force_shutdown-Gone_example :
    All (λ c. Gone c.handle (force_shutdown serving).broker.subscriptions) serving.connections
    × ((drained (force_shutdown serving) ≡ true)
        × ((id : ℕ) (principal : Text) (now : ℕ) (session : Session)
            → (on_open id principal now session (force_shutdown serving)).0
              ≡ force_shutdown serving))
force_shutdown-Gone_example = force_shutdown-Gone serving ((((λ _. inl refl), tt), tt), tt)
