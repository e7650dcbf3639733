-- ===== src/WebSocket/Connection/Errors.antt =====
-- An error of `Connection::feed` in src/websocket/websocket.cpp closes the connection.
use novaboot.Base.{
  ℕ, zero, suc, ◌+◌, ◌≡◌, inl, inr, Bool, true, false, not, ◌&&◌, ◌||◌, ltb, ◌*◌, [], ◌∷◌, none,
  some, arith, if◌then◌else◌, length, drop, Text, Bool-cases,
}
use novaboot.WebSocket.Utf8.{valid_utf8}
use novaboot.WebSocket.Frame.{
  Opcode, continuation, text_frame, binary, close, is_valid_close_code, ProtocolError, parse_frame,
}
use novaboot.WebSocket.Connection.{
  Callbacks, Core, CloseInfo, Outcome, fail, is_text, bad_close, finish_fragments, process_close,
  process_data, process_continuation, Ended, stopped, refused_header, notify_close, protocol_close,
  process_frame, after_frame, feed_loop,
}
use novaboot.WebSocket.Connection.Rounds.{
  Parsed-cases, loop-incomplete, loop-refused, loop-frame, after_frame-closed, after_frame-open,
}

-- An error has closed the connection.
data ErrorCloses : Outcome → Type 0 where
  fine : {c : Core} → ErrorCloses (c, none)
  failed : {c : Core} {e : ProtocolError} → c.closed ≡ true → ErrorCloses (c, some e)

module _ (app : Callbacks) where
  notify_close-closed : (info : CloseInfo) (c : Core) → (notify_close app info c).closed ≡ c.closed
  unfolding notify_close
  notify_close-closed info c = ground arith

  pub protocol_close-closed :
      (e : ProtocolError) (c : Core) → (protocol_close app e c).closed ≡ true
  unfolding protocol_close
  protocol_close-closed e c = notify_close-closed _ _

  closes : (e : ProtocolError) (c : Core) → ErrorCloses (fail app e c)
  closes e c = failed (protocol_close-closed e c)

  if-ErrorCloses :
      (b : Bool) (x y : Outcome) → ErrorCloses x → ErrorCloses y → ErrorCloses (if b then x else y)
  if-ErrorCloses true x y p q = p
  if-ErrorCloses false x y p q = q

  process_close-ErrorCloses :
      (payload : Text) (c : Core) → ErrorCloses (process_close app payload c)
  process_close-ErrorCloses [] c = fine
  process_close-ErrorCloses (high ∷ []) c = closes _ c
  process_close-ErrorCloses (high ∷ low ∷ reason) c =
      if-ErrorCloses (not (is_valid_close_code (high * 256 + low)) || not (valid_utf8 reason))
        (bad_close app c) _ (closes _ c) fine

  process_data-ErrorCloses :
      (fin : Bool) (op : Opcode) (payload : Text) (c : Core)
      → ErrorCloses (process_data app fin op payload c)
  process_data-ErrorCloses fin op payload c = if-ErrorCloses c.fragmented _ _ (closes _ c) (
      if-ErrorCloses (not fin) _ _ fine
        (if-ErrorCloses (is_text op && not (valid_utf8 payload)) _ _ (closes _ c) fine))

  finish_fragments-ErrorCloses : (c : Core) → ErrorCloses (finish_fragments app c)
  finish_fragments-ErrorCloses c =
      if-ErrorCloses (is_text c.fragmented_opcode && not (valid_utf8 c.fragmented_payload)) _ _
        (closes _ c) fine

  process_continuation-ErrorCloses :
      (fin : Bool) (payload : Text) (c : Core)
      → ErrorCloses (process_continuation app fin payload c)
  process_continuation-ErrorCloses fin payload c =
      if-ErrorCloses (not c.fragmented) _ _ (closes _ c) (
        if-ErrorCloses (ltb c.max_message_bytes (length c.fragmented_payload + length payload)) _ _
          (closes _ c) (if-ErrorCloses fin _ _ (finish_fragments-ErrorCloses _) fine))

  process_frame-ErrorCloses :
      (fin : Bool) (op : Opcode) (payload : Text) (c : Core)
      → ErrorCloses (process_frame app fin op payload c)
  unfolding process_frame
  process_frame-ErrorCloses fin continuation payload c =
      process_continuation-ErrorCloses fin payload c
  process_frame-ErrorCloses fin text_frame payload c =
      process_data-ErrorCloses fin text_frame payload c
  process_frame-ErrorCloses fin binary payload c = process_data-ErrorCloses fin binary payload c
  process_frame-ErrorCloses fin close payload c = process_close-ErrorCloses payload c
  process_frame-ErrorCloses fin _ payload c = fine

  -- The same at the end of the loop.
  abbrev pub EndCloses : Core × Ended → Type 0
  EndCloses (c, stopped rest none) = Unit
  EndCloses (c, stopped rest (some e)) = c.closed ≡ true
  EndCloses (c, refused_header e) = c.closed ≡ true

  after_frame-EndCloses :
      (k : Core → Core × Ended) (rest : Text) (o : Outcome)
      → ErrorCloses o
      → ((c : Core) → EndCloses (k c))
      → EndCloses (after_frame app k rest o)
  after_frame-EndCloses k rest (c, some e) (failed h) next = h
  after_frame-EndCloses k rest (c, none) h next = elim (Bool-cases c.closed) [
    | inl shut_now ↦ rw (after_frame-closed app k rest c shut_now) tt
    | inr going ↦ rw (after_frame-open app k rest c going) (next c)
  ]

  pub loop-EndCloses : (f : ℕ) (input : Text) (c : Core) → EndCloses (feed_loop app f input c)
  loop-EndCloses zero input c = unfold feed_loop in tt
  loop-EndCloses (suc f) input c = elim (Parsed-cases (parse_frame c.max_message_bytes input)) [
    | inl h ↦ rw (loop-incomplete app f input c h) tt
    | inr (inl (e, h)) ↦ rw (loop-refused app f input c e h) (protocol_close-closed e c)
    | inr (inr (fin, op, payload, size, h)) ↦ rw (loop-frame app f input c fin op payload size h) (
        after_frame-EndCloses (feed_loop app f (drop size input)) (drop size input)
          (process_frame app fin op payload c) (process_frame-ErrorCloses fin op payload c)
          (loop-EndCloses f (drop size input)))
  ]
