-- ===== src/WebSocket/Connection/Messages.antt =====
-- What a connection of src/websocket/websocket.cpp delivers, and what it holds back.
use mathlib.Core.Path.{subst}
use novaboot.Base.{
  ℕ, zero, suc, ◌+◌, ◌*◌, ◌≤◌, ◌≡◌, refl, inl, inr, Bool, true, false, not, ◌&&◌, ◌||◌, List, [],
  ◌∷◌, ◌++◌, Option, none, some, arith, ltb, length, length-append, drop, Text, Bool-cases, All,
  All-append,
}
use novaboot.WebSocket.Utf8.{valid_utf8}
use novaboot.WebSocket.Frame.{
  Opcode, is_valid_close_code, continuation, text_frame, binary, close, ping, pong, ProtocolError,
  parse_frame,
}
use novaboot.WebSocket.Shared.{Limits, TransportBackpressure}
use novaboot.WebSocket.Frame.Limits.{Small, parse_frame-Small}
use novaboot.WebSocket.Connection.Rounds.{
  run_loop, feed_closed, feed_open, end_feed-core, Parsed-cases, loop-incomplete, loop-refused,
  loop-frame, after_frame-closed, after_frame-open,
}
use novaboot.WebSocket.Connection.{
  Message, CloseInfo, Callbacks, Core, Connection, Outcome, is_text, Ended, notify_close,
  protocol_close, deliver, finish_close, process_close, finish_fragments, process_continuation,
  process_data, process_frame, after_frame, feed_loop, feed, connect,
}

-- A message an application may get: within the limit, and UTF-8 where it is text.
abbrev pub Deliverable : ℕ → Message → Type 0
Deliverable limit m =
    (length m.payload ≤ limit) × (is_text m.opcode ≡ true → valid_utf8 m.payload ≡ true)

abbrev pub Sound : ℕ → Core → Type 0
Sound limit c =
    (c.max_message_bytes ≡ limit)
    × (length c.fragmented_payload ≤ limit)
    × All (Deliverable limit) c.delivered

checked_text : (is_text valid : Bool) → is_text ≡ true → is_text && not valid ≡ false → valid ≡ true
checked_text true true t ok = refl
checked_text true false t ok = absurd (cc ok)
checked_text false valid t ok = absurd (cc t)

module _ (app : Callbacks) (limit : ℕ) where
  notify_close-Sound :
      (info : CloseInfo) (c : Core) → Sound limit c → Sound limit (notify_close app info c)
  unfolding notify_close
  notify_close-Sound info c h = elim (Bool-cases c.close_notified) [
    | inl done ↦ rw done h
    | inr first ↦ rw first h
  ]

  protocol_close-Sound :
      (e : ProtocolError) (c : Core) → Sound limit c → Sound limit (protocol_close app e c)
  unfolding protocol_close
  protocol_close-Sound e c h = notify_close-Sound _ _ h

  -- Both ways to end a connection leave its messages as they are.
  finish_close-Sound :
      (info : CloseInfo) (c : Core) → Sound limit c → Sound limit (finish_close app info c).0
  finish_close-Sound info c h = notify_close-Sound info _ h

  process_close-Sound :
      (payload : Text) (c : Core) → Sound limit c → Sound limit (process_close app payload c).0
  process_close-Sound [] c h = finish_close-Sound _ c h
  process_close-Sound (high ∷ []) c h = protocol_close-Sound _ c h
  process_close-Sound (high ∷ low ∷ reason) c h =
      elim (Bool-cases (not (is_valid_close_code (high * 256 + low)) || not (valid_utf8 reason))) [
        | inl bad ↦ rw bad (protocol_close-Sound _ c h)
        | inr good ↦ rw good (finish_close-Sound _ c h)
      ]

  deliver-Sound :
      (op : Opcode) (payload : Text) (c : Core)
      → Sound limit c
      → Deliverable limit (record { opcode = op; payload = payload })
      → Sound limit (deliver app op payload c)
  deliver-Sound op payload c (a, b, all) m =
      (a, b, All-append (Deliverable limit) c.delivered (_ ∷ []) all (m, tt))

  checked :
      (op : Opcode) (payload : Text)
      → length payload ≤ limit
      → is_text op && not (valid_utf8 payload) ≡ false
      → Deliverable limit (record { opcode = op; payload = payload })
  checked op payload small ok = (small, λ t. checked_text (is_text op) (valid_utf8 payload) t ok)

  finish_fragments-Sound : (c : Core) → Sound limit c → Sound limit (finish_fragments app c).0
  finish_fragments-Sound c h =
      elim (Bool-cases (is_text c.fragmented_opcode && not (valid_utf8 c.fragmented_payload))) [
        | inl bad ↦ rw bad (protocol_close-Sound _ c h)
        | inr ok ↦ rw ok (
            let (a, b, all) =
              deliver-Sound c.fragmented_opcode c.fragmented_payload c h
                (checked c.fragmented_opcode c.fragmented_payload h.1 ok) in
            (a, omega arith, all))
      ]

  process_continuation-Sound :
      (fin : Bool) (payload : Text) (c : Core)
      → Sound limit c
      → Sound limit (process_continuation app fin payload c).0
  process_continuation-Sound fin payload c (a, b, all) = elim (Bool-cases (not c.fragmented)) [
    | inl alone ↦ rw alone (protocol_close-Sound _ c (a, b, all))
    | inr going ↦
        elim (Bool-cases (ltb c.max_message_bytes (length c.fragmented_payload + length payload))) [
          | inl much ↦ rw (going, much) (protocol_close-Sound _ c (a, b, all))
          | inr fits ↦
              rw (going, fits)
                (let joined : length (c.fragmented_payload ++ payload) ≤ limit =
                    rw (length-append c.fragmented_payload payload) (ground arith) in
                  elim (Bool-cases fin) [
                    | inl last ↦ rw last (finish_fragments-Sound _ (a, joined, all))
                    | inr more ↦ rw more (a, joined, all)
                  ])
        ]
  ]

  process_data-Sound :
      (fin : Bool) (op : Opcode) (payload : Text) (c : Core)
      → length payload ≤ limit
      → Sound limit c
      → Sound limit (process_data app fin op payload c).0
  process_data-Sound fin op payload c small (a, b, all) =
      let c' = record c { fragmented = false } in
      elim (Bool-cases c.fragmented) [
        | inl going ↦ rw going (protocol_close-Sound _ (record c { fragmented = true }) (a, b, all))
        | inr fresh ↦ elim (Bool-cases (not fin)) [
          | inl first ↦ rw (fresh, first) (a, small, all)
          | inr whole ↦ elim (Bool-cases (is_text op && not (valid_utf8 payload))) [
            | inl bad ↦ rw (fresh, whole, bad) (protocol_close-Sound _ c' (a, b, all))
            | inr ok ↦
                rw (fresh, whole, ok)
                  (deliver-Sound op payload c' (a, b, all) (checked op payload small ok))
          ]
        ]
      ]

  process_frame-Sound :
      (fin : Bool) (op : Opcode) (payload : Text) (c : Core)
      → length payload ≤ limit
      → Sound limit c
      → Sound limit (process_frame app fin op payload c).0
  unfolding process_frame
  process_frame-Sound fin ping payload c small h = h
  process_frame-Sound fin pong payload c small h = h
  process_frame-Sound fin close payload c small h = process_close-Sound payload c h
  process_frame-Sound fin continuation payload c small h =
      process_continuation-Sound fin payload c h
  process_frame-Sound fin text_frame payload c small h =
      process_data-Sound fin text_frame payload c small h
  process_frame-Sound fin binary payload c small h = process_data-Sound fin binary payload c small h

  after_frame-Sound :
      (k : Core → Core × Ended) (rest : Text) (o : Outcome)
      → Sound limit o.0
      → ((c : Core) → Sound limit c → Sound limit (k c).0)
      → Sound limit (after_frame app k rest o).0
  after_frame-Sound k rest (c, some e) h next = h
  after_frame-Sound k rest (c, none) h next = elim (Bool-cases c.closed) [
    | inl shut_now ↦ rw (after_frame-closed app k rest c shut_now) h
    | inr going ↦ rw (after_frame-open app k rest c going) (next c h)
  ]

  feed_loop-Sound :
      (f : ℕ) (input : Text) (c : Core) → Sound limit c → Sound limit (feed_loop app f input c).0
  feed_loop-Sound zero input c h = unfold feed_loop in h
  feed_loop-Sound (suc f) input c h = elim (Parsed-cases (parse_frame c.max_message_bytes input)) [
    | inl e ↦ rw (loop-incomplete app f input c e) h
    | inr (inl (err, e)) ↦ rw (loop-refused app f input c err e) (protocol_close-Sound err c h)
    | inr (inr (fin, op, payload, size, e)) ↦ rw (loop-frame app f input c fin op payload size e) (
        after_frame-Sound (feed_loop app f (drop size input)) (drop size input)
          (process_frame app fin op payload c)
          (process_frame-Sound fin op payload c
            (subst (λ m. length payload ≤ m) h.0
              (subst (Small c.max_message_bytes) e (parse_frame-Small c.max_message_bytes input)))
            h)
          (λ c' h'. feed_loop-Sound f (drop size input) c' h'))
  ]

  feed-Sound :
      (bytes : Text) (c : Connection) → Sound limit c.core → Sound limit (feed app bytes c).0.core
  feed-Sound bytes c h = elim (Bool-cases c.core.closed) [
    | inl shut_now ↦ rw (feed_closed app bytes c shut_now) h
    | inr going ↦
        rw
          (
            feed_open app bytes c going,
            end_feed-core app (c.input ++ bytes) (run_loop app (c.input ++ bytes) c.core),
          )
          (feed_loop-Sound (length (c.input ++ bytes)) (c.input ++ bytes) c.core h)
  ]

-- Chunk after chunk, as the transport hands them over.
abbrev pub feed_all : Callbacks → List Text → Connection → Connection
feed_all app [] c = c
feed_all app (bytes ∷ more) c = feed_all app more (feed app bytes c).0

feed_all-Sound :
    (app : Callbacks) (limit : ℕ) (chunks : List Text) (c : Connection)
    → Sound limit c.core
    → Sound limit (feed_all app chunks c).core
feed_all-Sound app limit [] c h = h
feed_all-Sound app limit (bytes ∷ more) c h =
    feed_all-Sound app limit more (feed app bytes c).0 (feed-Sound app limit bytes c h)

-- Whatever bytes a peer sends to a new connection, every message that the application gets is
-- within the limit, and is UTF-8 if it is text; the fragments held back are within the limit too.
pub feed_all-connect :
    (app : Callbacks) (limits : Limits) (transport : Option TransportBackpressure)
    (has_wakeup : Bool) (chunks : List Text)
    → Sound limits.max_message_bytes
        (feed_all app chunks (connect app limits transport has_wakeup)).core
unfolding connect
feed_all-connect app limits transport has_wakeup chunks =
    feed_all-Sound app limits.max_message_bytes chunks (connect app limits transport has_wakeup)
      (refl, omega arith, tt)
