-- ===== src/Messaging/Endpoint/Frames/Leaving.antt =====
-- The subscriptions of a connection of src/messaging/stomp.cpp end with it.
use novaboot.Base.{
  ℕ, ◌≡◌, refl, sym, inl, Bool, true, false, not, ◌&&◌, ◌||◌, List, [], ◌∷◌, ◌++◌, Option, none,
  some, if◌then◌else◌, erase_if, Text, text, same, is_empty, Exists-append_left,
  Exists-append_right,
}
use mathlib.Core.Path.{subst}
use novaboot.WebSocket.Connection.{Message}
use novaboot.WebSocket.Registry.{Store}
use novaboot.Messaging.Decoder.{Frame, header, Decoder, feed, Fed, fed_frames, fed_error}
use novaboot.Messaging.Acks.{AckMode}
use novaboot.Messaging.Broker.{
  SimpleBroker, subscribe, unsubscribe, acknowledge, negative_acknowledge,
}
use novaboot.Messaging.Broker.Publish.{publish}
use novaboot.Messaging.Broker.Publish.Parts.{publish-Reached}
use novaboot.Messaging.Broker.Owners.{
  AllNamed, AllNamed-map, AllNamed-unsubscribe, AllNamed-subscribe, AllNamed-Reached,
}
use novaboot.Messaging.Endpoint.{Config, World, protocol_error, parse_heartbeat}
use novaboot.Messaging.Endpoint.Frames.{
  has_infix, accept_connection, connect_frame, receipt, receipt_for, parse_ack_mode, subscribed,
  subscribe_in_mode, subscribe_frame, unsubscribe_frame, published, send_frame_to, acknowledged,
  redelivered, acknowledge_frame, process_frame, allowed_by, process_frames, after_feed, is_text,
  on_message,
}

-- The connection of the session, whose subscriptions all have identifiers that it remembers.
pub record Owned (h : ℕ) (w : World) : Type 0 where
  pub handle : w.state.handle ≡ h
  pub named : AllNamed h w.state.subscription_ids w.broker.subscriptions

either : (P : World → Type 0) (b : Bool) {x y : World} → P x → P y → P (if b then x else y)
either P true p q = p
either P false p q = q

module _ (h : ℕ) where
  Owned-protocol_error : (why : Text) (w : World) → Owned h w → Owned h (protocol_error why w)
  unfolding protocol_error
  Owned-protocol_error why w o = record { handle = o.handle; named = o.named }

  Owned-receipt_for : (value : Text) (w : World) → Owned h w → Owned h (receipt_for value w)
  Owned-receipt_for [] w o = o
  Owned-receipt_for (b ∷ bs) w o = record { handle = o.handle; named = o.named }

  Owned-receipt : (frame : Frame) (w : World) → Owned h w → Owned h (receipt frame w)
  Owned-receipt frame w o = Owned-receipt_for (header (text "receipt") frame) w o

  Owned-accept_connection :
      (config : Config) (w : World) (periods : Option (ℕ × ℕ))
      → Owned h w
      → Owned h (accept_connection config w periods)
  Owned-accept_connection config w none o =
      Owned-protocol_error (text "invalid STOMP heart-beat header") w o
  Owned-accept_connection config w (some (outgoing, incoming)) o = record {
    handle = o.handle;
    named = o.named;
  }

  Owned-connect_frame :
      (config : Config) (frame : Frame) (w : World)
      → Owned h w
      → Owned h (connect_frame config frame w)
  unfolding connect_frame
  Owned-connect_frame config frame w o =
      let version = header (text "accept-version") frame in
      either (Owned h)
        (not (same frame.command (text "CONNECT")) && not (same frame.command (text "STOMP")))
        (Owned-protocol_error (text "CONNECT or STOMP must be the first frame") w o)
        (either (Owned h) (is_empty version || not (has_infix (text "1.2") version))
          (Owned-protocol_error (text "STOMP 1.2 is required") w o)
          (Owned-accept_connection config w (parse_heartbeat (header (text "heart-beat") frame)) o))

  Owned-subscribed :
      (frame : Frame) (id : Text) (w : World) (answer : SimpleBroker × Bool)
      → AllNamed h (w.state.subscription_ids ++ id ∷ []) answer.0.subscriptions
      → Owned h w
      → Owned h (subscribed frame id w answer)
  Owned-subscribed frame id w (b, false) a o = Owned-protocol_error _ w o
  Owned-subscribed frame id w (b, true) a o =
      Owned-receipt frame
        (record w {
          broker = b;
          state = record w.state { subscription_ids = w.state.subscription_ids ++ id ∷ [] };
        })
        (record { handle = o.handle; named = a })

  Owned-subscribe_in_mode :
      (frame : Frame) (w : World) (mode : Option AckMode)
      → Owned h w
      → Owned h (subscribe_in_mode frame w mode)
  Owned-subscribe_in_mode frame w none o = Owned-protocol_error _ w o
  Owned-subscribe_in_mode frame w (some mode) o =
      let id = header (text "id") frame in
      let ids = w.state.subscription_ids in
      Owned-subscribed frame id w
        (subscribe (header (text "destination") frame) id w.state.handle mode w.state.principal
          w.store w.broker)
        (AllNamed-subscribe h (ids ++ id ∷ []) (header (text "destination") frame) id w.state.handle
          mode w.state.principal w.store w.broker
          (λ mine. Exists-append_right (λ i. i ≡ id) ids (id ∷ []) (inl refl))
          (AllNamed-map h ids (ids ++ id ∷ [])
            (λ s named mine. Exists-append_left (λ i. i ≡ s.id) ids (id ∷ []) (named mine))
            w.broker.subscriptions o.named))
        o

  Owned-subscribe_frame :
      (frame : Frame) (w : World) → Owned h w → Owned h (subscribe_frame frame w)
  unfolding subscribe_frame
  Owned-subscribe_frame frame w o =
      either (Owned h)
        (is_empty (header (text "destination") frame) || is_empty (header (text "id") frame))
        (Owned-protocol_error (text "invalid STOMP subscription") w o)
        (Owned-subscribe_in_mode frame w (parse_ack_mode (header (text "ack") frame)) o)

  Owned-unsubscribe_frame :
      (frame : Frame) (w : World) → Owned h w → Owned h (unsubscribe_frame frame w)
  unfolding unsubscribe_frame
  Owned-unsubscribe_frame frame w o =
      let id = header (text "id") frame in
      either (Owned h) (is_empty id) (Owned-protocol_error _ w o) (
        Owned-receipt frame _ (record {
          handle = o.handle;
          named =
              subst
                (λ k.
                  AllNamed h (erase_if (λ i. same i id) w.state.subscription_ids)
                    (unsubscribe k id w.broker).subscriptions)
                (sym o.handle)
                (AllNamed-unsubscribe h id w.state.subscription_ids w.broker o.named);
        }))

  Owned-published :
      (frame : Frame) (w : World)
      → Owned h w
      → Owned h (
          published frame
            (header (text "destination") frame)
            w
            (publish (header (text "destination") frame) frame.body frame.headers w.store w.broker))
  Owned-published frame w o =
      let sent : Owned h (record w {
        broker =
            (publish (header (text "destination") frame) frame.body frame.headers w.store
              w.broker).broker;
        store =
            (publish (header (text "destination") frame) frame.body frame.headers w.store
              w.broker).store;
      }) =
        record {
          handle = o.handle;
          named =
              AllNamed-Reached h w.state.subscription_ids
                (publish-Reached (header (text "destination") frame) frame.body frame.headers
                  w.store w.broker).0
                o.named;
        } in
      either (Owned h) _ (Owned-protocol_error _ _ sent) (Owned-receipt frame _ sent)

  Owned-send_frame_to :
      (config : Config) (frame : Frame) (w : World)
      → Owned h w
      → Owned h (send_frame_to config frame w)
  unfolding send_frame_to
  Owned-send_frame_to config frame w o =
      either (Owned h) _ (either (Owned h) _ (Owned-receipt frame w o) (Owned-protocol_error _ w o))
        (either (Owned h) _ (Owned-protocol_error _ w o) (Owned-published frame w o))

  Owned-acknowledged :
      (frame : Frame) (w : World) (answer : SimpleBroker × Bool)
      → AllNamed h w.state.subscription_ids answer.0.subscriptions
      → Owned h w
      → Owned h (acknowledged frame w answer)
  Owned-acknowledged frame w (b, false) a o =
      Owned-protocol_error (text "unknown STOMP acknowledgement id") (record w { broker = b })
        (record { handle = o.handle; named = a })
  Owned-acknowledged frame w (b, true) a o =
      Owned-receipt frame (record w { broker = b }) (record { handle = o.handle; named = a })

  Owned-redelivered :
      (frame : Frame) (w : World) (answer : Store × Bool)
      → Owned h w
      → Owned h (redelivered frame w answer)
  Owned-redelivered frame w (store, false) o =
      Owned-protocol_error (text "unknown STOMP acknowledgement id") (record w { store = store })
        (record { handle = o.handle; named = o.named })
  Owned-redelivered frame w (store, true) o =
      Owned-receipt frame (record w { store = store })
        (record { handle = o.handle; named = o.named })

  Owned-acknowledge_frame :
      (frame : Frame) (w : World) → Owned h w → Owned h (acknowledge_frame frame w)
  unfolding acknowledge_frame acknowledge
  Owned-acknowledge_frame frame w o =
      let id = header (text "id") frame in
      either (Owned h) (is_empty id)
        (Owned-protocol_error (text "unknown STOMP acknowledgement id") w o)
        (either (Owned h) (same frame.command (text "ACK"))
          (Owned-acknowledged frame w (acknowledge w.state.handle id w.broker) o.named o)
          (Owned-redelivered frame w (negative_acknowledge w.state.handle id w.broker w.store) o))

  Owned-process_frame :
      (config : Config) (frame : Frame) (w : World)
      → Owned h w
      → Owned h (process_frame config frame w)
  unfolding process_frame
  Owned-process_frame config frame w o =
      let is = λ (name : Text). same frame.command name in
      either (Owned h) (not w.state.connected) (Owned-connect_frame config frame w o) (
        either (Owned h) (is (text "SUBSCRIBE")) (Owned-subscribe_frame frame w o) (
          either (Owned h) (is (text "UNSUBSCRIBE")) (Owned-unsubscribe_frame frame w o) (
            either (Owned h) (is (text "SEND")) (Owned-send_frame_to config frame w o) (
              either (Owned h) (is (text "ACK") || is (text "NACK"))
                (Owned-acknowledge_frame frame w o)
                (either (Owned h) (is (text "DISCONNECT"))
                  (let left = Owned-receipt frame w o in
                    record { handle = left.handle; named = left.named })
                  (Owned-protocol_error (text "unsupported STOMP command") w o))))))

  Owned-process_frames :
      (config : Config) (frames : List Frame) (w : World)
      → Owned h w
      → Owned h (process_frames config frames w)
  unfolding process_frames
  Owned-process_frames config [] w o = o
  Owned-process_frames config (frame ∷ frames) w o = either (Owned h) w.session.close_sent o (
      either (Owned h) (not (allowed_by config.interceptor w.session frame))
        (Owned-protocol_error (text "STOMP frame rejected by interceptor") w o)
        (Owned-process_frames config frames (process_frame config frame w)
          (Owned-process_frame config frame w o)))

  Owned-after_feed :
      (config : Config) (w : World) (fed : Decoder × Fed)
      → Owned h w
      → Owned h (after_feed config w fed)
  Owned-after_feed config w (decoder, fed_error why) o =
      Owned-protocol_error why (record w { state = record w.state { decoder = decoder } })
        (record { handle = o.handle; named = o.named })
  Owned-after_feed config w (decoder, fed_frames frames) o =
      Owned-process_frames config frames (record w { state = record w.state { decoder = decoder } })
        (record { handle = o.handle; named = o.named })

  pub Owned-on_message :
      (config : Config) (now : ℕ) (message : Message) (w : World)
      → Owned h w
      → Owned h (on_message config now message w)
  unfolding on_message
  Owned-on_message config now message w o =
      either (Owned h) (not (is_text message.opcode))
        (Owned-protocol_error (text "STOMP requires text WebSocket messages") w o)
        (Owned-after_feed config (record w { state = record w.state { last_received_ms = now } })
          (feed message.payload w.state.decoder) (record { handle = o.handle; named = o.named }))
