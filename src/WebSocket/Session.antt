-- ===== src/WebSocket/Session.antt =====
-- The application's view of a connection, `Session` of src/websocket/websocket.cpp. The shared
-- state and the transport's budget are reached through pointers that the connection holds too;
-- they stand here once.
pub mod Outbound
use novaboot.Base.{
  ℕ, ◌+◌, ◌/◌, ◌%◌, Bool, true, false, not, ◌&&◌, List, [], ◌∷◌, ◌++◌, Option, none, some,
  if◌then◌else◌, ltb, length, take, Text, text,
}
use novaboot.WebSocket.Frame.{Opcode, text_frame, binary, close, header_size, server_frame}
use novaboot.WebSocket.Shared.{
  Limits, SharedSession, mark_closing, TransportBackpressure, try_reserve,
}

pub record Session : Type 0 where
  pub outbound : Text
  pub limits : Limits
  pub shared : SharedSession
  pub transport : Option TransportBackpressure
  pub close_sent : Bool
  pub overloaded : Bool

abbrev reserved : Session → TransportBackpressure × Bool → Session × Bool
reserved s (t, granted) = (record s { transport = some t }, granted)

-- A reservation with the transport, if there is one.
abbrev pub reserve_with : ℕ → Bool → Session → Option TransportBackpressure → Session × Bool
reserve_with size force s none = (s, true)
reserve_with size force s (some t) = reserved s (try_reserve size force t)

abbrev pub reserve : ℕ → Bool → Session → Session × Bool
reserve size force s = reserve_with size force s s.transport

abbrev pub append : Opcode → Text → Session → Session
append op payload s = record s { outbound = s.outbound ++ server_frame op payload }

abbrev pub frame_size : Text → ℕ
frame_size payload = header_size (length payload) + length payload

-- `send_frame` with `force`: neither limit can refuse it.
unfoldable pub send_forced : Opcode → Text → Session → Session
send_forced op payload s = append op payload (reserve (frame_size payload) true s).0

-- The payload of a close frame: the code, then at most 123 bytes of the reason.
abbrev pub close_payload : ℕ → Text → Text
close_payload code reason = (code / 256 % 256) ∷ (code % 256) ∷ take 123 reason

-- Queued messages are dropped where the close frame would exceed the limit.
abbrev pub make_room : Text → Session → Session
make_room payload s =
    if ltb s.limits.max_pending_send_bytes (length s.outbound + 2 + length payload)
    then record s { outbound = [] }
    else s

abbrev pub mark_closed : Session → Session
mark_closed s = record s { close_sent = true; shared = mark_closing s.shared }

-- `Session::close`.
unfoldable pub close_session : ℕ → Text → Session → Session × Bool
close_session code reason s = if s.close_sent then (s, false) else (
  mark_closed
      (send_forced close (close_payload code reason) (make_room (close_payload code reason) s)),
  true,
)

-- An overloaded session closes with 1013.
abbrev pub overload : Text → Session → Session × Bool
overload why s = ((close_session 1013 why (record s { overloaded = true })).0, false)

abbrev pub sent_or_overloaded : Opcode → Text → Session × Bool → Session × Bool
sent_or_overloaded op payload (s, true) = (append op payload s, true)
sent_or_overloaded op payload (s, false) = overload (text "Transport flow-control limit exceeded") s

-- `send_frame` without `force`.
unfoldable pub send_frame : Opcode → Text → Session → Session × Bool
send_frame op payload s =
    if ltb s.limits.max_pending_send_bytes (length s.outbound + frame_size payload)
    then overload (text "Outbound queue limit exceeded") s
    else sent_or_overloaded op payload (reserve (frame_size payload) false s)

unfoldable pub send_text : Text → Session → Session × Bool
send_text payload s = if s.close_sent then (s, false) else send_frame text_frame payload s

unfoldable pub send_binary : Text → Session → Session × Bool
send_binary payload s = if s.close_sent then (s, false) else send_frame binary payload s

unfoldable pub take_outbound : Session → Session × Text
take_outbound s = (record s { outbound = [] }, s.outbound)
