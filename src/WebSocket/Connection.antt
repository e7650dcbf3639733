-- ===== src/WebSocket/Connection.antt =====
-- `Connection` of src/websocket/websocket.cpp: buffered input, frames, fragments and close. The
-- application's callbacks are parameters that may use the session; what they are called with is
-- recorded, oldest first. Metrics are left out.
pub mod Rounds
pub mod Errors
pub mod Chunks
pub mod Messages
pub mod Closing
use novaboot.Base.{
  ℕ, zero, suc, ◌+◌, ◌*◌, Bool, true, false, not, ◌&&◌, ◌||◌, List, [], ◌∷◌, ◌++◌, Option, none,
  some, if◌then◌else◌, ltb, ◌==◌, length, drop, Text, text,
}
use novaboot.WebSocket.Utf8.{valid_utf8}
use novaboot.WebSocket.Frame.{
  Opcode, continuation, text_frame, binary, close, ping, pong, is_valid_close_code, ProtocolError,
  Parsed, incomplete, refused, frame, parse_frame,
}
use novaboot.WebSocket.Shared.{
  Limits, new_shared, TransportBackpressure, QueuedCommand, QueuedKind, queued_text, queued_binary,
  queued_close, deactivate, take_commands,
}
use novaboot.WebSocket.Session.{
  Session, close_session, send_frame, send_text, send_binary, take_outbound,
}

pub record Message : Type 0 where
  pub opcode : Opcode
  pub payload : Text

pub record CloseInfo : Type 0 where
  pub code : ℕ
  pub reason : Text

pub record Callbacks : Type 0 where
  pub on_open : Session → Session
  pub on_message : Session → Message → Session
  pub on_close : Session → CloseInfo → Session

-- All of a connection but its input buffer.
pub record Core : Type 0 where
  pub session : Session
  pub max_message_bytes : ℕ
  pub fragmented_payload : Text
  pub fragmented_opcode : Opcode
  pub fragmented : Bool
  pub closed : Bool
  pub close_notified : Bool
  pub delivered : List Message
  pub close_reports : List CloseInfo

pub record Connection : Type 0 where
  pub core : Core
  pub input : Text

abbrev pub new_session : Limits → Option TransportBackpressure → Bool → Session
new_session limits transport has_wakeup = record {
  outbound = [];
  limits = limits;
  shared = new_shared limits has_wakeup;
  transport = transport;
  close_sent = false;
  overloaded = false;
}

abbrev pub new_core : Limits → Session → Core
new_core limits session = record {
  session = session;
  max_message_bytes = limits.max_message_bytes;
  fragmented_payload = [];
  fragmented_opcode = continuation;
  fragmented = false;
  closed = false;
  close_notified = false;
  delivered = [];
  close_reports = [];
}

-- The connection with the result of a call that can fail.
abbrev pub Outcome : Type 0
Outcome = Core × Option ProtocolError

abbrev pub error : ℕ → Text → ProtocolError
error code why = record { close_code = code; message = why }

abbrev pub is_text : Opcode → Bool
is_text text_frame = true
is_text _ = false

-- How the loop of `feed` ends: with the unread rest of the input, or at a refused header, which
-- leaves the whole buffer as it is.
pub data Ended : Type 0 where
  stopped : (rest : Text) → Option ProtocolError → Ended
  refused_header : ProtocolError → Ended

module _ (app : Callbacks) where
  unfoldable pub notify_close : CloseInfo → Core → Core
  notify_close info c = if c.close_notified then c else record c {
    session = app.on_close c.session info;
    close_notified = true;
    close_reports = c.close_reports ++ info ∷ [];
  }

  -- `if (!session_.closing()) session_.close(…)`, then the connection is closed and detached.
  abbrev pub shut : ℕ → Text → Core → Core
  shut code reason c =
      let s = (close_session code reason c.session).0 in
      record c { session = record s { shared = deactivate s.shared }; closed = true }

  unfoldable pub protocol_close : ProtocolError → Core → Core
  protocol_close e c =
      notify_close (record { code = e.close_code; reason = e.message })
        (shut e.close_code e.message c)

  abbrev pub fail : ProtocolError → Core → Outcome
  fail e c = (protocol_close e c, some e)

  abbrev pub deliver : Opcode → Text → Core → Core
  deliver op payload c = record c {
    session = app.on_message c.session (record { opcode = op; payload = payload });
    delivered = c.delivered ++ record { opcode = op; payload = payload } ∷ [];
  }

  abbrev pub finish_close : CloseInfo → Core → Outcome
  finish_close info c = (notify_close info (shut info.code info.reason c), none)

  abbrev pub bad_close : Core → Outcome
  bad_close = fail (error 1002 (text "Invalid close payload"))

  -- A close frame: empty, or a code and a reason.
  abbrev pub process_close : Text → Core → Outcome
  process_close [] c = finish_close (record { code = 1000; reason = [] }) c
  process_close (high ∷ []) c = bad_close c
  process_close (high ∷ low ∷ reason) c =
      let code = high * 256 + low in
      if not (is_valid_close_code code) || not (valid_utf8 reason)
      then bad_close c
      else finish_close (record { code = code; reason = reason }) c

  abbrev pub bad_text : Core → Outcome
  bad_text = fail (error 1007 (text "Invalid UTF-8 text message"))

  -- The last fragment: the message is checked, delivered and forgotten.
  abbrev pub finish_fragments : Core → Outcome
  finish_fragments c =
      if is_text c.fragmented_opcode && not (valid_utf8 c.fragmented_payload) then bad_text c else (
        record (deliver c.fragmented_opcode c.fragmented_payload c) {
          fragmented_payload = [];
          fragmented = false;
          fragmented_opcode = continuation;
        },
        none,
      )

  abbrev pub process_continuation : Bool → Text → Core → Outcome
  process_continuation fin payload c =
      if not c.fragmented
      then fail (error 1002 (text "Unexpected continuation frame")) c
      else if ltb c.max_message_bytes (length c.fragmented_payload + length payload)
      then fail (error 1009 (text "Message too large")) c
      else (let c' = record c { fragmented_payload = c.fragmented_payload ++ payload } in
          if fin then finish_fragments c' else (c', none))

  abbrev pub process_data : Bool → Opcode → Text → Core → Outcome
  process_data fin op payload c =
      if c.fragmented
      then fail (error 1002 (text "Expected continuation frame")) c
      else if not fin
      then (
        record c { fragmented = true; fragmented_opcode = op; fragmented_payload = payload },
        none,
      )
      else if is_text op && not (valid_utf8 payload)
      then bad_text c
      else (deliver op payload c, none)

  unfoldable pub process_frame : Bool → Opcode → Text → Core → Outcome
  process_frame fin ping payload c =
      (record c { session = (send_frame pong payload c.session).0 }, none)
  process_frame fin pong payload c = (c, none)
  process_frame fin close payload c = process_close payload c
  process_frame fin continuation payload c = process_continuation fin payload c
  process_frame fin text_frame payload c = process_data fin text_frame payload c
  process_frame fin binary payload c = process_data fin binary payload c

  abbrev pub after_frame : (Core → Core × Ended) → Text → Outcome → Core × Ended
  after_frame next rest (c, some e) = (c, stopped rest (some e))
  after_frame next rest (c, none) = elim c.closed [ true ↦ (c, stopped rest none) | false ↦ next c ]

  -- The loop on fuel; every round that goes on takes a frame, of six bytes or more.
  unfoldable pub feed_loop : ℕ → Text → Core → Core × Ended
  feed_loop zero input c = (c, stopped input none)
  feed_loop (suc fuel) input c = elim (parse_frame c.max_message_bytes input) [
    | incomplete ↦ (c, stopped input none)
    | refused e ↦ (protocol_close e c, refused_header e)
    | frame fin op payload size ↦
        after_frame (feed_loop fuel (drop size input)) (drop size input)
          (process_frame fin op payload c)
  ]

  -- The constructor, with its call of `on_open`.
  unfoldable pub connect : Limits → Option TransportBackpressure → Bool → Connection
  connect limits transport has_wakeup = record {
    core = new_core limits (app.on_open (new_session limits transport has_wakeup));
    input = [];
  }

  abbrev pub end_feed : Text → Core × Ended → Connection × Option ProtocolError
  end_feed whole (c, stopped rest e) = (record { core = c; input = rest }, e)
  end_feed whole (c, refused_header e) = (record { core = c; input = whole }, some e)

  unfoldable pub feed : Text → Connection → Connection × Option ProtocolError
  feed bytes c =
      if c.core.closed
      then (c, none)
      else (let whole = c.input ++ bytes in end_feed whole (feed_loop (length whole) whole c.core))

-- The commands that other threads have queued, sent on the owner's thread.
abbrev pub run_command : QueuedKind → QueuedCommand → Session → Session
run_command queued_text q s = (send_text q.payload s).0
run_command queued_binary q s = (send_binary q.payload s).0
run_command queued_close q s = (close_session q.close_code q.close_reason s).0

unfoldable pub run_commands : List QueuedCommand → Session → Session
run_commands [] s = s
run_commands (q ∷ qs) s = run_commands qs (run_command q.kind q s)

abbrev taken : Session → Session × List QueuedCommand
taken s = let (shared, qs) = take_commands s.shared in (record s { shared = shared }, qs)

unfoldable pub drain_external_outbound : Session → Session × Text
drain_external_outbound s = let (s', qs) = taken s in take_outbound (run_commands qs s')
