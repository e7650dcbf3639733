-- ===== src/WebSocket/Connection/Rounds.antt =====
-- One round of the loop of `Connection::feed` in src/websocket/websocket.cpp, case by case.
use novaboot.Base.{
  ℕ, suc, ◌≡◌, refl, ◌⊎◌, inl, inr, Bool, true, false, ◌++◌, none, arith, length, drop, Text,
}
use novaboot.WebSocket.Frame.{
  Opcode, ProtocolError, Parsed, incomplete, refused, frame, parse_frame,
}
use novaboot.WebSocket.Connection.{
  Connection, end_feed, feed, stopped, refused_header, Callbacks, Core, Ended, protocol_close,
  process_frame, after_frame, feed_loop,
}

pub Parsed-cases :
    (p : Parsed)
    → (p ≡ incomplete)
      ⊎ (((e : ProtocolError) × (p ≡ refused e))
          ⊎ ((fin : Bool) × (op : Opcode) × (payload : Text) × (size : ℕ) × (p
                ≡ frame fin op payload size)))
Parsed-cases incomplete = inl refl
Parsed-cases (refused e) = inr (inl (e, refl))
Parsed-cases (frame fin op payload size) = inr (inr (fin, op, payload, size, refl))

module _ (app : Callbacks) where
  -- One round of the loop, for each answer of the parser.
  pub loop-incomplete :
      (f : ℕ) (input : Text) (c : Core)
      → parse_frame c.max_message_bytes input ≡ incomplete
      → feed_loop app (suc f) input c ≡ (c, stopped input none)
  unfolding feed_loop
  loop-incomplete f input c h = rw (h, feed_loop)

  pub loop-refused :
      (f : ℕ) (input : Text) (c : Core) (e : ProtocolError)
      → parse_frame c.max_message_bytes input ≡ refused e
      → feed_loop app (suc f) input c ≡ (protocol_close app e c, refused_header e)
  unfolding feed_loop
  loop-refused f input c e h = rw (h, feed_loop)

  pub loop-frame :
      (f : ℕ) (input : Text) (c : Core) (fin : Bool) (op : Opcode) (payload : Text) (size : ℕ)
      → parse_frame c.max_message_bytes input ≡ frame fin op payload size
      → feed_loop app (suc f) input c
        ≡ after_frame app
            (feed_loop app f (drop size input))
            (drop size input)
            (process_frame app fin op payload c)
  unfolding feed_loop
  loop-frame f input c fin op payload size h = rw (h, feed_loop)

  pub after_frame-closed :
      (k : Core → Core × Ended) (rest : Text) (c : Core)
      → c.closed ≡ true
      → after_frame app k rest (c, none) ≡ (c, stopped rest none)
  after_frame-closed k rest c h = ground arith

  pub after_frame-open :
      (k : Core → Core × Ended) (rest : Text) (c : Core)
      → c.closed ≡ false
      → after_frame app k rest (c, none) ≡ k c
  after_frame-open k rest c h = ground arith

  -- The loop with the fuel that `feed` gives it.
  abbrev pub run_loop : Text → Core → Core × Ended
  run_loop input c = feed_loop app (length input) input c

  pub end_feed-core : (whole : Text) (l : Core × Ended) → (end_feed app whole l).0.core ≡ l.0
  end_feed-core whole (c, stopped rest e) = refl
  end_feed-core whole (c, refused_header e) = refl

  pub feed_closed :
      (bytes : Text) (c : Connection) → c.core.closed ≡ true → feed app bytes c ≡ (c, none)
  unfolding feed
  feed_closed bytes c h = simp h

  pub feed_open :
      (bytes : Text) (c : Connection)
      → c.core.closed ≡ false
      → feed app bytes c ≡ end_feed app (c.input ++ bytes) (run_loop (c.input ++ bytes) c.core)
  unfolding feed
  feed_open bytes c h = simp h
