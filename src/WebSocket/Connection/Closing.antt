-- ===== src/WebSocket/Connection/Closing.antt =====
-- How a connection of src/websocket/websocket.cpp ends: the application is told once.
use novaboot.Base.{
  ℕ, zero, suc, ◌+◌, ◌*◌, ◌≡◌, refl, inl, inr, Bool, true, false, not, ◌&&◌, ◌||◌, List, [], ◌∷◌,
  ◌++◌, Option, none, some, arith, if◌then◌else◌, ltb, length, length-append, drop, Text,
  Bool-cases,
}
use novaboot.WebSocket.Utf8.{valid_utf8}
use novaboot.WebSocket.Frame.{
  Opcode, continuation, text_frame, binary, close, ping, pong, is_valid_close_code, ProtocolError,
  parse_frame,
}
use novaboot.WebSocket.Shared.{Limits, TransportBackpressure}
use novaboot.WebSocket.Connection.{
  CloseInfo, Callbacks, Core, Connection, Outcome, is_text, Ended, notify_close, shut,
  protocol_close, process_close, finish_fragments, process_continuation, process_data,
  process_frame, after_frame, feed_loop, feed, connect,
}
use novaboot.WebSocket.Connection.Rounds.{
  run_loop, feed_closed, feed_open, end_feed-core, Parsed-cases, loop-incomplete, loop-refused,
  loop-frame, after_frame-closed, after_frame-open,
}
use novaboot.WebSocket.Connection.Messages.{feed_all}

-- A connection is closed exactly when the application was told, and then it was told once.
abbrev pub Told : Core → Type 0
Told c =
    (c.closed ≡ c.close_notified) × (length c.close_reports ≡ (if c.close_notified then 1 else 0))

module _ (app : Callbacks) where
  shut-Told :
      (info : CloseInfo) (code : ℕ) (reason : Text) (c : Core)
      → Told c
      → Told (notify_close app info (shut app code reason c))
  unfolding notify_close
  shut-Told info code reason c (same_flag, count) = elim (Bool-cases c.close_notified) [
    | inl told ↦ let counted = rw told at count in rw told (refl, counted)
    | inr untold ↦
        let counted = rw untold at count in
        rw untold (refl, omega (arith, counted, length-append c.close_reports (info ∷ [])))
  ]

  protocol_close-Told : (e : ProtocolError) (c : Core) → Told c → Told (protocol_close app e c)
  unfolding protocol_close
  protocol_close-Told e c h = shut-Told _ _ _ c h

  process_close-Told : (payload : Text) (c : Core) → Told c → Told (process_close app payload c).0
  process_close-Told [] c h = shut-Told _ _ _ c h
  process_close-Told (high ∷ []) c h = protocol_close-Told _ c h
  process_close-Told (high ∷ low ∷ reason) c h =
      elim (Bool-cases (not (is_valid_close_code (high * 256 + low)) || not (valid_utf8 reason))) [
        | inl bad ↦ rw bad (protocol_close-Told _ c h)
        | inr good ↦ rw good (shut-Told _ _ _ c h)
      ]

  finish_fragments-Told : (c : Core) → Told c → Told (finish_fragments app c).0
  finish_fragments-Told c h =
      elim (Bool-cases (is_text c.fragmented_opcode && not (valid_utf8 c.fragmented_payload))) [
        | inl bad ↦ rw bad (protocol_close-Told _ c h)
        | inr ok ↦ rw ok h
      ]

  process_continuation-Told :
      (fin : Bool) (payload : Text) (c : Core)
      → Told c
      → Told (process_continuation app fin payload c).0
  process_continuation-Told fin payload c h = elim (Bool-cases (not c.fragmented)) [
    | inl alone ↦ rw alone (protocol_close-Told _ c h)
    | inr going ↦
        elim (Bool-cases (ltb c.max_message_bytes (length c.fragmented_payload + length payload))) [
          | inl much ↦ rw (going, much) (protocol_close-Told _ c h)
          | inr fits ↦
              rw (going, fits)
                (elim (Bool-cases fin) [
                  | inl last ↦ rw last (finish_fragments-Told _ h)
                  | inr more ↦ rw more h
                ])
        ]
  ]

  process_data-Told :
      (fin : Bool) (op : Opcode) (payload : Text) (c : Core)
      → Told c
      → Told (process_data app fin op payload c).0
  process_data-Told fin op payload c h = elim (Bool-cases c.fragmented) [
    | inl going ↦ rw going (protocol_close-Told _ (record c { fragmented = true }) h)
    | inr fresh ↦ elim (Bool-cases (not fin)) [
      | inl first ↦ rw (fresh, first) h
      | inr whole ↦ elim (Bool-cases (is_text op && not (valid_utf8 payload))) [
        | inl bad ↦
            rw (fresh, whole, bad) (protocol_close-Told _ (record c { fragmented = false }) h)
        | inr ok ↦ rw (fresh, whole, ok) h
      ]
    ]
  ]

  process_frame-Told :
      (fin : Bool) (op : Opcode) (payload : Text) (c : Core)
      → Told c
      → Told (process_frame app fin op payload c).0
  unfolding process_frame
  process_frame-Told fin ping payload c h = h
  process_frame-Told fin pong payload c h = h
  process_frame-Told fin close payload c h = process_close-Told payload c h
  process_frame-Told fin continuation payload c h = process_continuation-Told fin payload c h
  process_frame-Told fin text_frame payload c h = process_data-Told fin text_frame payload c h
  process_frame-Told fin binary payload c h = process_data-Told fin binary payload c h

  after_frame-Told :
      (k : Core → Core × Ended) (rest : Text) (o : Outcome)
      → Told o.0
      → ((c : Core) → Told c → Told (k c).0)
      → Told (after_frame app k rest o).0
  after_frame-Told k rest (c, some e) h next = h
  after_frame-Told k rest (c, none) h next = elim (Bool-cases c.closed) [
    | inl shut_now ↦ rw (after_frame-closed app k rest c shut_now) h
    | inr going ↦ rw (after_frame-open app k rest c going) (next c h)
  ]

  feed_loop-Told : (f : ℕ) (input : Text) (c : Core) → Told c → Told (feed_loop app f input c).0
  feed_loop-Told zero input c h = unfold feed_loop in h
  feed_loop-Told (suc f) input c h = elim (Parsed-cases (parse_frame c.max_message_bytes input)) [
    | inl e ↦ rw (loop-incomplete app f input c e) h
    | inr (inl (err, e)) ↦ rw (loop-refused app f input c err e) (protocol_close-Told err c h)
    | inr (inr (fin, op, payload, size, e)) ↦ rw (loop-frame app f input c fin op payload size e) (
        after_frame-Told (feed_loop app f (drop size input)) (drop size input)
          (process_frame app fin op payload c) (process_frame-Told fin op payload c h)
          (λ c' h'. feed_loop-Told f (drop size input) c' h'))
  ]

  feed-Told : (bytes : Text) (c : Connection) → Told c.core → Told (feed app bytes c).0.core
  feed-Told bytes c h = elim (Bool-cases c.core.closed) [
    | inl shut_now ↦ rw (feed_closed app bytes c shut_now) h
    | inr going ↦
        rw
          (
            feed_open app bytes c going,
            end_feed-core app (c.input ++ bytes) (run_loop app (c.input ++ bytes) c.core),
          )
          (feed_loop-Told (length (c.input ++ bytes)) (c.input ++ bytes) c.core h)
  ]

  feed_all-Told :
      (chunks : List Text) (c : Connection) → Told c.core → Told (feed_all app chunks c).core
  feed_all-Told [] c h = h
  feed_all-Told (bytes ∷ more) c h = feed_all-Told more (feed app bytes c).0 (feed-Told bytes c h)

-- Whatever bytes a peer sends to a new connection, the application is told of its close exactly
-- once if the connection is closed, and not at all while it is open.
pub connect-Told :
    (app : Callbacks) (limits : Limits) (transport : Option TransportBackpressure)
    (has_wakeup : Bool) (chunks : List Text)
    → Told (feed_all app chunks (connect app limits transport has_wakeup)).core
unfolding connect
connect-Told app limits transport has_wakeup chunks =
    feed_all-Told app chunks (connect app limits transport has_wakeup) (refl, refl)
