-- ===== src/WebSocket/Connection/Chunks.antt =====
-- The bytes of a peer have the same effect however the transport cuts them into chunks.
use novaboot.Base.{
  ℕ, zero, suc, ◌≤◌, ◌≡◌, refl, sym, ap, ◌∙◌, ◌⊎◌, inl, inr, Bool, true, false, [], ◌∷◌, ◌++◌,
  Option, none, some, arith, if◌then◌else◌, length, length-append, length-drop, drop, drop-append,
  Text, Bool-cases,
}
use mathlib.Core.Path.{fun_ext, subst}
use mathlib.Core.List.{append_assoc}
use novaboot.WebSocket.Frame.{Opcode, ProtocolError, frame, parse_frame}
use novaboot.WebSocket.Frame.Prefix.{parse_frame-Stays, parse_frame-Fits}
use novaboot.WebSocket.Connection.Errors.{EndCloses, loop-EndCloses}
use novaboot.WebSocket.Connection.Rounds.{
  run_loop, feed_closed, feed_open, Parsed-cases, loop-incomplete, loop-refused, loop-frame,
  after_frame-closed, after_frame-open,
}
use novaboot.WebSocket.Connection.{
  Callbacks, Core, Connection, Outcome, Ended, stopped, refused_header, process_frame, after_frame,
  feed_loop, end_feed, feed,
}

-- Of two calls, the first that fails gives the error.
abbrev pub first_error : Option ProtocolError → Option ProtocolError → Option ProtocolError
first_error (some e) o = some e
first_error none o = o

-- Equal in all that a later call can depend on: a closed connection reads no input.
abbrev pub SameConnection : Connection → Connection → Type 0
SameConnection c d = (c.core ≡ d.core) × ((c.core.closed ≡ true) ⊎ (c.input ≡ d.input))

module _ (app : Callbacks) where
  loop-nil : (f : ℕ) (c : Core) → feed_loop app f [] c ≡ (c, stopped [] none)
  unfolding feed_loop parse_frame
  loop-nil zero c = refl
  loop-nil (suc f) c = refl

  frame_fits :
      (input : Text) (c : Core) {fin : Bool} {op : Opcode} {payload : Text} {size : ℕ}
      → parse_frame c.max_message_bytes input ≡ frame fin op payload size
      → (6 ≤ size) × (size ≤ length input)
  frame_fits input c h = rw h at (parse_frame-Fits c.max_message_bytes input)

  -- The loop's fuel does not matter, once it is as long as the input.
  loop_fuel :
      (f g : ℕ) (input : Text) (c : Core)
      → length input ≤ f
      → length input ≤ g
      → feed_loop app f input c ≡ feed_loop app g input c
  loop_fuel f g [] c p q = loop-nil f c ∙ sym (loop-nil g c)
  loop_fuel zero g (b ∷ bs) c p q = absurd (omega arith)
  loop_fuel (suc f) zero (b ∷ bs) c p q = absurd (omega arith)
  loop_fuel (suc f) (suc g) (b ∷ bs) c p q =
      elim (Parsed-cases (parse_frame c.max_message_bytes (b ∷ bs))) [
        | inl h ↦ loop-incomplete app f (b ∷ bs) c h ∙ sym (loop-incomplete app g (b ∷ bs) c h)
        | inr (inl (e, h)) ↦
            loop-refused app f (b ∷ bs) c e h ∙ sym (loop-refused app g (b ∷ bs) c e h)
        | inr (inr (fin, op, payload, size, h)) ↦
            let (six, within) = frame_fits (b ∷ bs) c h in
            let shorter = length-drop size (b ∷ bs) in
            loop-frame app f (b ∷ bs) c fin op payload size h
            ∙ ap (λ k. after_frame app k (drop size (b ∷ bs)) (process_frame app fin op payload c))
                (fun_ext λ c'.
                  loop_fuel f g (drop size (b ∷ bs)) c' (omega (arith, shorter))
                    (omega (arith, shorter)))
            ∙ sym (loop-frame app g (b ∷ bs) c fin op payload size h)
      ]

  -- How the loop goes on when more input follows.
  abbrev Continues : Text → Core × Ended → Core × Ended → Type 0
  Continues more (c, stopped rest none) now =
      now ≡ (if c.closed then (c, stopped (rest ++ more) none) else run_loop app (rest ++ more) c)
  Continues more (c, stopped rest (some e)) now = now ≡ (c, stopped (rest ++ more) (some e))
  Continues more (c, refused_header e) now = now ≡ (c, refused_header e)

  after_frame-Continues :
      (k k' : Core → Core × Ended) (rest more : Text) (o : Outcome)
      → ((c : Core) → c.closed ≡ false → Continues more (k c) (k' c))
      → Continues more (after_frame app k rest o) (after_frame app k' (rest ++ more) o)
  after_frame-Continues k k' rest more (c, some e) next = refl
  after_frame-Continues k k' rest more (c, none) next = elim (Bool-cases c.closed) [
    | inl shut_now ↦
        rw
          (
            after_frame-closed app k rest c shut_now,
            after_frame-closed app k' (rest ++ more) c shut_now,
          )
          (rw shut_now)
    | inr going ↦
        rw (after_frame-open app k rest c going, after_frame-open app k' (rest ++ more) c going)
          (next c going)
  ]

  loop-append :
      (f g : ℕ) (input more : Text) (c : Core)
      → c.closed ≡ false
      → length input ≤ f
      → length (input ++ more) ≤ g
      → Continues more (feed_loop app f input c) (feed_loop app g (input ++ more) c)
  loop-append f g [] more c o p q =
      rw (loop-nil f c) (simp o (loop_fuel g (length more) more c q (omega arith)))
  loop-append zero g (b ∷ bs) more c o p q = absurd (omega arith)
  loop-append (suc f) zero (b ∷ bs) more c o p q = absurd (omega arith)
  loop-append (suc f) (suc g) (b ∷ bs) more c o p q =
      elim (Parsed-cases (parse_frame c.max_message_bytes (b ∷ bs))) [
        | inl h ↦ rw (loop-incomplete app f (b ∷ bs) c h) (
            simp o (loop_fuel (suc g) (length (b ∷ bs ++ more)) (b ∷ bs ++ more) c q (omega arith)))
        | inr (inl (e, h)) ↦
            let same_refusal = rw h at (parse_frame-Stays c.max_message_bytes (b ∷ bs) more) in
            rw (loop-refused app f (b ∷ bs) c e h)
              (loop-refused app g (b ∷ bs ++ more) c e same_refusal)
        | inr (inr (fin, op, payload, size, h)) ↦
            let same_frame = rw h at (parse_frame-Stays c.max_message_bytes (b ∷ bs) more) in
            let (six, within) = frame_fits (b ∷ bs) c h in
            rw
              (
                loop-frame app f (b ∷ bs) c fin op payload size h,
                loop-frame app g (b ∷ bs ++ more) c fin op payload size same_frame,
                drop-append size (b ∷ bs) more within,
              )
              (after_frame-Continues (feed_loop app f (drop size (b ∷ bs)))
                (feed_loop app g (drop size (b ∷ bs) ++ more)) (drop size (b ∷ bs)) more
                (process_frame app fin op payload c)
                λ c' going.
                  loop-append f g (drop size (b ∷ bs)) more c' going
                    (omega (arith, length-drop size (b ∷ bs)))
                    (omega (
                      arith,
                      length-drop size (b ∷ bs),
                      length-append (drop size (b ∷ bs)) more,
                      length-append bs more,
                    )))
      ]

  -- The two buffers differ in what a refused header leaves, and the connection is closed then.
  end_feed-same :
      (whole other : Text) (l : Core × Ended)
      → EndCloses app l
      → SameConnection (end_feed app whole l).0 (end_feed app other l).0
        × ((end_feed app whole l).1 ≡ (end_feed app other l).1)
  end_feed-same whole other (c, stopped rest e) h = ((refl, inr refl), refl)
  end_feed-same whole other (c, refused_header e) h = ((refl, inl h), refl)

  -- The second call, after a first loop that ended as `l`, against one loop over both.
  SameFeeds : Text → Text → Core × Ended → Core × Ended → Type 0
  SameFeeds whole more l now =
      SameConnection (end_feed app (whole ++ more) now).0 (feed app more (end_feed app whole l).0).0
      × ((end_feed app (whole ++ more) now).1
          ≡ first_error (end_feed app whole l).1 (feed app more (end_feed app whole l).0).1)

  closed_feeds :
      (whole more rest : Text) (c : Core) (e : Option ProtocolError)
      → c.closed ≡ true
      → SameFeeds whole more (c, stopped rest e) (c, stopped (rest ++ more) e)
  unfolding SameFeeds
  closed_feeds whole more rest c none h =
      rw (feed_closed app more (record { core = c; input = rest }) h) ((refl, inl h), refl)
  closed_feeds whole more rest c (some e) h =
      rw (feed_closed app more (record { core = c; input = rest }) h) ((refl, inl h), refl)

  open_feeds :
      (whole more rest : Text) (c : Core)
      → c.closed ≡ false
      → SameFeeds whole more (c, stopped rest none) (run_loop app (rest ++ more) c)
  unfolding SameFeeds
  open_feeds whole more rest c h = rw (feed_open app more (record { core = c; input = rest }) h) (
      end_feed-same (whole ++ more) (rest ++ more) (run_loop app (rest ++ more) c)
        (loop-EndCloses app (length (rest ++ more)) (rest ++ more) c))

  two_feeds :
      (whole more : Text) (l now : Core × Ended)
      → EndCloses app l
      → Continues more l now
      → SameFeeds whole more l now
  two_feeds whole more (c, stopped rest none) now h k = elim (Bool-cases c.closed) [
    | inl shut_now ↦
        subst (SameFeeds whole more _) (sym (simp shut_now at k))
          (closed_feeds whole more rest c none shut_now)
    | inr going ↦
        subst (SameFeeds whole more _) (sym (simp going at k)) (open_feeds whole more rest c going)
  ]
  two_feeds whole more (c, stopped rest (some e)) now h k =
      subst (SameFeeds whole more _) (sym k) (closed_feeds whole more rest c (some e) h)
  two_feeds whole more (c, refused_header e) now h k = subst (SameFeeds whole more _) (sym k) (
      unfold SameFeeds in
      rw (feed_closed app more (record { core = c; input = whole }) h) ((refl, inl h), refl))

  -- Feeding two chunks one after the other has the effect of feeding them at once: the same
  -- session, messages, close reports and error, and the same unread input unless the connection is
  -- closed.
  pub feed-append :
      (a b : Text) (c : Connection)
      → SameConnection (feed app (a ++ b) c).0 (feed app b (feed app a c).0).0
        × ((feed app (a ++ b) c).1 ≡ first_error (feed app a c).1 (feed app b (feed app a c).0).1)
  feed-append a b c = elim (Bool-cases c.core.closed) [
    | inl h ↦
        rw (feed_closed app a c h)
          (rw (feed_closed app b c h, feed_closed app (a ++ b) c h) ((refl, inl h), refl))
    | inr h ↦
        rw (feed_open app a c h, feed_open app (a ++ b) c h, ← append_assoc)
          (unfold SameFeeds in
            two_feeds (c.input ++ a) b (run_loop app (c.input ++ a) c.core) _
              (loop-EndCloses app (length (c.input ++ a)) (c.input ++ a) c.core)
              (loop-append _ _ (c.input ++ a) b c.core h (omega arith) (omega arith)))
  ]
