-- ===== src/Messaging/Endpoint/Frames/Safety.antt =====
-- A connection of src/messaging/stomp.cpp reaches the broker only once it is connected, and its
-- subscriptions end with it.
use novaboot.Base.{
  ℕ, ◌≡◌, refl, sym, ap, inl, inr, ◌⊎◌, Bool, true, false, not, ◌&&◌, ◌||◌, [], ◌∷◌, some,
  if◌then◌else◌, Text, text, same, same_sound, is_empty, Bool-cases, Option-cases,
}
use mathlib.Core.Path.{subst}
use novaboot.WebSocket.Session.{Session, close_session}
use novaboot.WebSocket.Registry.{lock}
use novaboot.Messaging.Decoder.{Frame, header}
use novaboot.Messaging.Endpoint.{
  Config, World, shared_or, send, error_frame, protocol_error, parse_heartbeat,
}
use novaboot.Messaging.Endpoint.Frames.{has_infix, connect_frame, process_frame}

close_session-closed :
    (code : ℕ) (reason : Text) (s : Session) → (close_session code reason s).0.close_sent ≡ true
unfolding close_session
close_session-closed code reason s = elim (Bool-cases s.close_sent) [
  | inl before ↦ rw before refl
  | inr going ↦ rw going refl
]

-- Reports an error: the session is closed, and neither the broker nor the connection changes.
record Reported (w w' : World) : Type 0 where
  closed : w'.session.close_sent ≡ true
  broker : w'.broker ≡ w.broker
  state : w'.state ≡ w.state

protocol_error-Reported : (why : Text) (w : World) → Reported w (protocol_error why w)
unfolding protocol_error
protocol_error-Reported why w =
    let sent = send (error_frame why) w in
    record {
      closed = close_session-closed 1002 (text "Invalid STOMP frame") (record sent.session {
        shared = shared_or sent.session.shared (lock sent.state.handle sent.store);
      });
      broker = refl;
      state = refl;
    }

-- What a first frame must be.
pub record IsConnect (frame : Frame) : Type 0 where
  pub command : (frame.command ≡ text "CONNECT") ⊎ (frame.command ≡ text "STOMP")
  pub version : has_infix (text "1.2") (header (text "accept-version") frame) ≡ true
  pub periods : ℕ × ℕ
  pub heartbeat : parse_heartbeat (header (text "heart-beat") frame) ≡ some periods

-- The outcome of a first frame.
pub record FirstFrame (frame : Frame) (w w' : World) : Type 0 where
  pub broker : w'.broker ≡ w.broker
  pub ids : w'.state.subscription_ids ≡ w.state.subscription_ids
  pub outcome :
      (IsConnect frame × (w'.state.connected ≡ true))
      ⊎ ((w'.session.close_sent ≡ true) × (w'.state ≡ w.state))

refused : (frame : Frame) (why : Text) (w : World) → FirstFrame frame w (protocol_error why w)
refused frame why w =
    let r = protocol_error-Reported why w in
    record {
      broker = r.broker;
      ids = ap (λ s. s.subscription_ids) r.state;
      outcome = inr (r.closed, r.state);
    }

is_connect :
    (command : Text)
    → (not (same command (text "CONNECT")) && not (same command (text "STOMP"))) ≡ false
    → (command ≡ text "CONNECT") ⊎ (command ≡ text "STOMP")
is_connect command h = elim (Bool-cases (same command (text "CONNECT"))) [
  | inl connect ↦ inl (same_sound command (text "CONNECT") connect)
  | inr other ↦ elim (Bool-cases (same command (text "STOMP"))) [
    | inl stomp ↦ inr (same_sound command (text "STOMP") stomp)
    | inr neither ↦ absurd (cc (h, other, neither))
  ]
]

has_version :
    (version : Text) (infix_found : Bool)
    → (is_empty version || not infix_found) ≡ false
    → infix_found ≡ true
has_version version true h = refl
has_version [] false h = absurd (cc h)
has_version (b ∷ bs) false h = absurd (cc h)

connect_frame-FirstFrame :
    (config : Config) (frame : Frame) (w : World)
    → FirstFrame frame w (connect_frame config frame w)
unfolding connect_frame
connect_frame-FirstFrame config frame w =
    let version = header (text "accept-version") frame in
    elim (Bool-cases
      (not (same frame.command (text "CONNECT")) && not (same frame.command (text "STOMP")))) [
        | inl other ↦ rw other (refused frame (text "CONNECT or STOMP must be the first frame") w)
        | inr connect ↦
            rw connect
              (elim (Bool-cases (is_empty version || not (has_infix (text "1.2") version))) [
                | inl old ↦ rw old (refused frame (text "STOMP 1.2 is required") w)
                | inr current ↦
                    rw current
                      (elim (Option-cases (parse_heartbeat (header (text "heart-beat") frame))) [
                        | inl malformed ↦
                            rw malformed (refused frame (text "invalid STOMP heart-beat header") w)
                        | inr (periods, valid) ↦ rw valid (record {
                          broker = refl;
                          ids = refl;
                          outcome = inl (
                            record {
                              command = is_connect frame.command connect;
                              version =
                                  has_version version (has_infix (text "1.2") version) current;
                              periods = periods;
                              heartbeat = valid;
                            },
                            refl,
                          );
                        })
                      ])
              ])
      ]

choose_false {ℓ} : {A : Type ℓ} (b : Bool) (x y : A) → b ≡ false → (if not b then x else y) ≡ x
choose_false true x y h = absurd (cc h)
choose_false false x y h = refl

choose_true {ℓ} : {A : Type ℓ} (b : Bool) (x y : A) → b ≡ true → (if not b then x else y) ≡ y
choose_true true x y h = refl
choose_true false x y h = absurd (cc h)

-- A frame on a connection that is not yet connected leaves the broker and the subscriptions alone.
-- Either it is CONNECT or STOMP, the text `1.2` occurs somewhere in its accept-version header, and its
-- heart-beat header is valid, and the connection is connected, or the session is closed and the
-- connection keeps its state.
pub process_frame-FirstFrame :
    (config : Config) (frame : Frame) (w : World)
    → w.state.connected ≡ false
    → FirstFrame frame w (process_frame config frame w)
unfolding process_frame
process_frame-FirstFrame config frame w new =
    subst (FirstFrame frame w)
      (sym (choose_false w.state.connected (connect_frame config frame w) _ new))
      (connect_frame-FirstFrame config frame w)
