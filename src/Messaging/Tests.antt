-- ===== src/Messaging/Tests.antt =====
-- Runs of src/messaging/stomp.cpp.
use novaboot.Base.{ℕ, true, false, arith, same, ◌≡◌, refl, [], ◌∷◌, ◌++◌, ◌↔◌, Text, text}
use novaboot.Messaging.Decoder.{
  Frame, decoded, decode_one, serialize, split_at, line_without_cr, skip_lf, skip_crlf, feed_loop,
  feed, new_decoder,
}
use novaboot.Messaging.RoundTrip.{decode_one-serialize}
use novaboot.Messaging.Acks.{client, PendingDelivery, PendingAcks}
use novaboot.Messaging.Authorization.{AuthorizationPolicy, destination_allowed, frame_authorizer}
use novaboot.Messaging.Authorization.Frames.{Authorized, frame_authorizer_iff}
use novaboot.Messaging.Escape.{parse_error, escape, unescape}

abbrev address : Text
address = text "host:80"

escaped_colon : escape address ≡ text "host" ++ 92 ∷ text "c80"
unfolding escape
escaped_colon = refl

unterminated : unescape (97 ∷ 92 ∷ []) ≡ parse_error (text "unterminated STOMP header escape")
unfolding unescape
unterminated = refl

abbrev greeting : Frame
greeting = record {
  command = text "SEND";
  headers = (text "destination", text "/topic/a:b") ∷ [];
  body = text "hi";
}

decode_one-serialize_example :
    decode_one (serialize greeting ++ 10 ∷ []) ≡ decoded greeting (10 ∷ [])
unfolding same
decode_one-serialize_example = decode_one-serialize greeting (10 ∷ []) (
  omega arith,
  (refl, (refl, (refl, (refl, tt)))),
  (refl, (refl, (refl, (refl, tt)))),
  (refl, (refl, tt)),
  (omega arith, refl, tt),
  refl,
)

-- A CRLF heartbeat and then an LF one: apart they are skipped, and in one chunk they fail.
heartbeats_apart : (feed (10 ∷ []) (feed (13 ∷ 10 ∷ []) new_decoder).0).0.failed ≡ false
unfolding feed feed_loop skip_lf skip_crlf
heartbeats_apart = refl

heartbeats_together : (feed (13 ∷ 10 ∷ 10 ∷ []) new_decoder).0.failed ≡ true
unfolding feed feed_loop skip_lf skip_crlf decode_one split_at line_without_cr
heartbeats_together = refl

abbrev delivery : ℕ → Text → PendingDelivery
delivery sequence ack = record {
  sequence = sequence;
  ack_id = ack;
  ack_mode = client;
  message = greeting;
}

abbrev three_pending : PendingAcks
three_pending = (7, delivery 1 (text "1") ∷ delivery 2 (text "2") ∷ delivery 3 (text "3") ∷ []) ∷ []

abbrev topics_only : AuthorizationPolicy
topics_only = record {
  require_authenticated_principal = true;
  allowed_send_destinations = text "/topic" ∷ [];
  allowed_subscribe_destinations = [];
}

greeting_allowed : frame_authorizer topics_only (text "ann") greeting ≡ true
unfolding frame_authorizer same destination_allowed
greeting_allowed = refl

stranger_refused : frame_authorizer topics_only [] greeting ≡ false
unfolding frame_authorizer
stranger_refused = refl

similar_refused : destination_allowed (text "/topics/a") (text "/topic" ∷ []) ≡ false
unfolding destination_allowed same
similar_refused = refl

frame_authorizer_iff_example :
    (frame_authorizer topics_only (text "ann") greeting ≡ true)
    ↔ Authorized topics_only (text "ann") greeting
frame_authorizer_iff_example = frame_authorizer_iff topics_only (text "ann") greeting
