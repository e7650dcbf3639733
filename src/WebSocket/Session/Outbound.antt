-- ===== src/WebSocket/Session/Outbound.antt =====
-- The bound on the outbound bytes of `Session` in src/websocket/websocket.cpp.
use novaboot.Base.{
  ℕ, zero, suc, ◌+◌, ◌≤◌, max, ◌≡◌, refl, ap, ◌∙◌, inl, inr, Bool, true, false, List, [], ◌∷◌,
  Option, none, some, arith, ltb, leb, length, length-append, Text, Bool-cases, length-take,
}
use novaboot.WebSocket.Frame.{
  Opcode, close, text_frame, binary, header_size, big_endian, length_field, server_frame,
}
use novaboot.WebSocket.Shared.{TransportBackpressure}
use novaboot.WebSocket.Session.{
  Session, reserve, reserve_with, append, frame_size, send_forced, close_payload, close_session,
  sent_or_overloaded, send_frame, send_text, send_binary,
}

length-big_endian : (k n : ℕ) → length (big_endian k n) ≡ k
length-big_endian zero n = refl
length-big_endian (suc k) n = rw (length-big_endian k n) (omega arith)

length-length_field : (size : ℕ) → suc (length (length_field size)) ≡ header_size size
length-length_field size = elim (Bool-cases (leb size 125)) [
  | inl small ↦ rw small refl
  | inr large ↦ elim (Bool-cases (leb size 0xffff)) [
    | inl medium ↦ rw (large, medium) refl
    | inr huge ↦ rw (large, huge) refl
  ]
]

-- A written frame has the size that was checked against the limits.
pub length-server_frame :
    (op : Opcode) (payload : Text) → length (server_frame op payload) ≡ frame_size payload
unfolding server_frame
length-server_frame op payload =
    rw
      (
        length-append (length_field (length payload)) payload,
        ← length-length_field (length payload),
      )
      (omega arith)

-- The limit, but room for one close frame in any case.
abbrev pub Bounded : Session → Type 0
Bounded s = length s.outbound ≤ max s.limits.max_pending_send_bytes 127

-- The bytes and the limits of two sessions.
abbrev SameOutbound : Session → Session → Type 0
SameOutbound s t = (s.outbound ≡ t.outbound) × (s.limits ≡ t.limits)

reserve_with-SameOutbound :
    (size : ℕ) (force : Bool) (s : Session) (t : Option TransportBackpressure)
    → SameOutbound (reserve_with size force s t).0 s
reserve_with-SameOutbound size force s none = (refl, refl)
reserve_with-SameOutbound size force s (some t) = (refl, refl)

length-close_payload : (code : ℕ) (reason : Text) → length (close_payload code reason) ≤ 125
length-close_payload code reason = omega (arith, length-take 123 reason)

header_size-small : (n : ℕ) → n ≤ 125 → header_size n ≡ 2
header_size-small n h = ground arith

-- One frame more, within the limit or after the room for a close frame was made.
append-length :
    (op : Opcode) (payload : Text) (s : Session)
    → length (append op payload s).outbound ≡ length s.outbound + frame_size payload
append-length op payload s =
    rw (length-append s.outbound (server_frame op payload), length-server_frame op payload) refl

send_forced-length :
    (op : Opcode) (payload : Text) (s : Session)
    → (length (send_forced op payload s).outbound ≡ length s.outbound + frame_size payload)
      × ((send_forced op payload s).limits ≡ s.limits)
unfolding send_forced
send_forced-length op payload s =
    let (same_bytes, same_limits) =
      reserve_with-SameOutbound (frame_size payload) true s s.transport in
    (
      append-length op payload (reserve (frame_size payload) true s).0
          ∙ ap (λ o. length o + frame_size payload) same_bytes,
      same_limits,
    )

forced-Bounded :
    (op : Opcode) (payload : Text) (s : Session)
    → length payload ≤ 125
    → length s.outbound + 2 + length payload ≤ max s.limits.max_pending_send_bytes 127
    → Bounded (send_forced op payload s)
forced-Bounded op payload s small fits =
    let (size, limits) = send_forced-length op payload s in
    rw (size, limits, header_size-small (length payload) small) (omega arith)

close_session-Bounded :
    (code : ℕ) (reason : Text) (s : Session) → Bounded s → Bounded (close_session code reason s).0
unfolding close_session
close_session-Bounded code reason s h =
    let payload = close_payload code reason in
    let small = length-close_payload code reason in
    elim (Bool-cases s.close_sent) [
      | inl sent ↦ rw sent h
      | inr first ↦
          elim (Bool-cases
            (ltb s.limits.max_pending_send_bytes (length s.outbound + 2 + length payload))) [
              | inl much ↦ rw (first, much) (forced-Bounded close payload _ small (omega arith))
              | inr fits ↦ rw (first, fits) (forced-Bounded close payload _ small (ground arith))
            ]
    ]

sent_or_overloaded-Bounded :
    (op : Opcode) (payload : Text) (s : Session) (granted : Bool)
    → Bounded s
    → length s.outbound + frame_size payload ≤ s.limits.max_pending_send_bytes
    → Bounded (sent_or_overloaded op payload (s, granted)).0
sent_or_overloaded-Bounded op payload s true h fits = rw (append-length op payload s) (omega arith)
sent_or_overloaded-Bounded op payload s false h fits =
    close_session-Bounded 1013 _ (record s { overloaded = true }) h

pub send_frame-Bounded :
    (op : Opcode) (payload : Text) (s : Session) → Bounded s → Bounded (send_frame op payload s).0
unfolding send_frame
send_frame-Bounded op payload s h =
    let (bytes, limits) = reserve_with-SameOutbound (frame_size payload) false s s.transport in
    elim (Bool-cases
      (ltb s.limits.max_pending_send_bytes (length s.outbound + frame_size payload))) [
        | inl much ↦ rw much (close_session-Bounded 1013 _ (record s { overloaded = true }) h)
        | inr fits ↦ rw fits (
            sent_or_overloaded-Bounded op payload (reserve (frame_size payload) false s).0
              (reserve (frame_size payload) false s).1 (rw (bytes, limits) h)
              (rw (bytes, limits) (ground arith)))
      ]

-- What an application can call.
pub data Send : Type 0 where
  text_message binary_message : (payload : Text) → Send
  close_call : (code : ℕ) (reason : Text) → Send

abbrev pub send : Send → Session → Session × Bool
send (text_message payload) s = send_text payload s
send (binary_message payload) s = send_binary payload s
send (close_call code reason) s = close_session code reason s

abbrev pub send_all : List Send → Session → Session
send_all [] s = s
send_all (x ∷ xs) s = send_all xs (send x s).0

pub send-Bounded : (x : Send) (s : Session) → Bounded s → Bounded (send x s).0
unfolding send_text send_binary
send-Bounded (text_message payload) s h = elim (Bool-cases s.close_sent) [
  | inl sent ↦ rw sent h
  | inr going ↦ rw going (send_frame-Bounded text_frame payload (record s { close_sent = false }) h)
]
send-Bounded (binary_message payload) s h = elim (Bool-cases s.close_sent) [
  | inl sent ↦ rw sent h
  | inr going ↦ rw going (send_frame-Bounded binary payload (record s { close_sent = false }) h)
]
send-Bounded (close_call code reason) s h = close_session-Bounded code reason s h

-- Whatever an application sends, if the bytes that wait for the transport are within the limit, or
-- within the 127 bytes of one close frame where the limit is smaller, they stay so.
pub send_all-Bounded : (xs : List Send) (s : Session) → Bounded s → Bounded (send_all xs s)
send_all-Bounded [] s h = h
send_all-Bounded (x ∷ xs) s h = send_all-Bounded xs (send x s).0 (send-Bounded x s h)
