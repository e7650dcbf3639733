-- ===== src/WebSocket/Tests.antt =====
-- Runs of the WebSocket code of src/websocket/websocket.cpp on concrete input.
use novaboot.Base.{
  length, if◌then◌else◌, ◌&&◌, ℕ, ◌≡◌, refl, ◌↔◌, true, false, List, [], ◌∷◌, ◌++◌, none, arith,
  Text, text, All,
}
use novaboot.WebSocket.Utf8.{valid_utf8}
use novaboot.WebSocket.Utf8.Scalars.{IsScalar, encode_all}
use novaboot.WebSocket.Utf8.Decoding.{valid_utf8_iff}
use novaboot.WebSocket.Frame.{parse_frame, unmask, server_frame}
use novaboot.WebSocket.Shared.{Limits, SharedSession, new_shared, TransportBackpressure}
use novaboot.WebSocket.Shared.Settling.{Settled, calls-closing}
use novaboot.WebSocket.Shared.Bounds.{
  Call, call_text, call_close, calls, Accounted, calls-new_shared,
}
use novaboot.WebSocket.Frame.{frame, text_frame}
use novaboot.WebSocket.Frame.RoundTrip.{client_frame, parse_frame-client_frame}
use novaboot.WebSocket.Registry.{
  Store, lock, handle_active, Request, text_request, member, broadcast,
}
use novaboot.WebSocket.Registry.Broadcast.{served, still_active, broadcast_lem}
use novaboot.WebSocket.Session.{send_text, send_frame}
use novaboot.WebSocket.Session.Outbound.{Send, text_message, send_all, Bounded, send_all-Bounded}
use novaboot.WebSocket.Connection.{
  Callbacks, Connection, new_session, connect, feed, feed_loop, process_frame,
}
use novaboot.WebSocket.Connection.Chunks.{SameConnection, first_error, feed-append}
use novaboot.WebSocket.Connection.Closing.{Told, connect-Told}
use novaboot.WebSocket.Connection.Messages.{Sound, feed_all, feed_all-connect}

-- An application that echoes each message.
abbrev echo : Callbacks
echo = record {
  on_open = λ s. s;
  on_message = λ s m. (send_text m.payload s).0;
  on_close = λ s info. s;
}

abbrev limits : Limits
limits = record { max_message_bytes = 64; max_pending_send_bytes = 32 }

abbrev fresh : Connection
fresh = connect echo limits none false

-- The text "Hi" in a masked frame, and the cut through its header.
abbrev hi_front : Text
hi_front = 0x81 ∷ 0x82 ∷ 1 ∷ []

abbrev hi_back : Text
hi_back = 2 ∷ 3 ∷ 4 ∷ 73 ∷ 107 ∷ []

echoed : (feed echo (hi_front ++ hi_back) fresh).0.core.session.outbound ≡ 0x81 ∷ 2 ∷ 72 ∷ 105 ∷ []
unfolding feed connect feed_loop parse_frame process_frame valid_utf8 unmask send_text send_frame
    server_frame
echoed = refl

feed-append_example :
    SameConnection
      (feed echo (hi_front ++ hi_back) fresh).0
      (feed echo hi_back (feed echo hi_front fresh).0).0
    × ((feed echo (hi_front ++ hi_back) fresh).1
        ≡ first_error
            (feed echo hi_front fresh).1
            (feed echo hi_back (feed echo hi_front fresh).0).1)
feed-append_example = feed-append echo hi_front hi_back fresh

feed_all-connect_example :
    Sound 64 (feed_all echo (hi_front ∷ hi_back ∷ []) (connect echo limits none false)).core
feed_all-connect_example = feed_all-connect echo limits none false (hi_front ∷ hi_back ∷ [])

-- The euro sign.
abbrev euro : Text
euro = 0xe2 ∷ 0x82 ∷ 0xac ∷ []

valid_utf8_iff_example :
    (valid_utf8 euro ≡ true) ↔ ((ps : List ℕ) × All IsScalar ps × (euro ≡ encode_all ps))
valid_utf8_iff_example = valid_utf8_iff euro

abbrev script : List Call
script = call_text (text "hello") ∷ call_text (text "a long message") ∷ call_close 1000 [] ∷ []

calls-new_shared_example : Accounted (calls script (new_shared limits true))
calls-new_shared_example = calls-new_shared script limits true

abbrev shutting : SharedSession
shutting = record (new_shared limits true) { closing = true }

calls-closing_example : Settled shutting (calls script shutting)
calls-closing_example = calls-closing script shutting refl

abbrev sends : List Send
sends = text_message (text "0123456789") ∷ text_message (text "01234567890123456789") ∷ []

send_all-Bounded_example : Bounded (send_all sends (new_session limits none false))
send_all-Bounded_example = send_all-Bounded sends (new_session limits none false) (omega arith)

abbrev budget : TransportBackpressure
budget = record { max_pending_bytes = 100; pending_bytes = 60 }

parse_frame-client_frame_example :
    parse_frame 64 (client_frame true text_frame (1 ∷ 2 ∷ 3 ∷ 4 ∷ []) (text "Hi") ++ hi_front)
    ≡ frame true text_frame
        (text "Hi")
        (length (client_frame true text_frame (1 ∷ 2 ∷ 3 ∷ 4 ∷ []) (text "Hi")))
parse_frame-client_frame_example =
    parse_frame-client_frame 64 true text_frame (1 ∷ 2 ∷ 3 ∷ 4 ∷ []) (text "Hi") hi_front refl
      (omega arith, (omega arith, (omega arith, (omega arith, tt))))
      (omega arith, (omega arith, tt)) (omega arith) (omega arith) refl

-- Session 1 is active, session 2 closing.
abbrev sessions : Store
sessions = (1, new_shared limits true) ∷ (2, shutting) ∷ []

abbrev greet : Request
greet = text_request (text "hello")

broadcast_lem_example :
    ((j : ℕ)
      → lock j (broadcast greet (2 ∷ 1 ∷ []) sessions).1.0 ≡ (
          if member j (2 ∷ 1 ∷ []) && handle_active j sessions
          then served greet (lock j sessions)
          else lock j sessions))
    × ((broadcast greet (2 ∷ 1 ∷ []) sessions).0 ≡ still_active sessions (2 ∷ 1 ∷ []))
broadcast_lem_example = broadcast_lem greet (2 ∷ 1 ∷ []) sessions (refl, (refl, tt))

-- A close frame without a payload.
abbrev bye : Text
bye = 0x88 ∷ 0x80 ∷ 1 ∷ 2 ∷ 3 ∷ 4 ∷ []

connect-Told_example :
    Told (feed_all echo (hi_front ∷ hi_back ∷ bye ∷ []) (connect echo limits none false)).core
connect-Told_example = connect-Told echo limits none false (hi_front ∷ hi_back ∷ bye ∷ [])
