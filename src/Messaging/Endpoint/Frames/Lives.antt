-- ===== src/Messaging/Endpoint/Frames/Lives.antt =====
-- The whole life of a connection of src/messaging/stomp.cpp: its own messages, and what other
-- threads do to the broker and to the sessions in between.
use novaboot.Base.{ℕ, ◌≡◌, ◌≢◌, sym, ap, List, [], ◌∷◌, Text, All}
use mathlib.Core.Path.{subst}
use novaboot.WebSocket.Connection.{Message}
use novaboot.WebSocket.Registry.{Store}
use novaboot.Messaging.Broker.{Subscriptions, SimpleBroker, unsubscribe}
use novaboot.Messaging.Broker.Invariant.{Action, act}
use novaboot.Messaging.Broker.Owners.{AllNamed, AllNamed-unsubscribe_head, IsForeign, AllNamed-act}
use novaboot.Messaging.Endpoint.{Config, World, open_state, unsubscribe_all, on_close}
use novaboot.Messaging.Endpoint.Frames.{on_message}
use novaboot.Messaging.Endpoint.Frames.Leaving.{Owned, Owned-on_message}

pub data Event : Type 0 where
  own_message : (now : ℕ) (message : Message) → Event
  other_thread : (action : Action) → Event
  sessions_change : (store : Store) → Event

abbrev pub happen : Config → Event → World → World
happen config (own_message now message) w = on_message config now message w
happen config (other_thread action) w = record w { broker = act action w.broker }
happen config (sessions_change store) w = record w { store = store }

abbrev pub live : Config → List Event → World → World
live config [] w = w
live config (event ∷ events) w = live config events (happen config event w)

-- No other thread subscribes for the session.
abbrev pub IsOwn : ℕ → Event → Type 0
IsOwn h (other_thread action) = IsForeign h action
IsOwn h _ = Unit

-- No subscription is of the session.
abbrev pub Gone : ℕ → Subscriptions → Type 0
Gone h = All (λ e. All (λ s. s.session ≢ h) e.1)

Owned-happen :
    (h : ℕ) (config : Config) (event : Event) (w : World)
    → IsOwn h event
    → Owned h w
    → Owned h (happen config event w)
Owned-happen h config (own_message now message) w own o = Owned-on_message h config now message w o
Owned-happen h config (other_thread action) w own o = record {
  handle = o.handle;
  named = AllNamed-act h w.state.subscription_ids action w.broker own o.named;
}
Owned-happen h config (sessions_change store) w own o = record {
  handle = o.handle;
  named = o.named;
}

Owned-live :
    (h : ℕ) (config : Config) (events : List Event) (w : World)
    → All (IsOwn h) events
    → Owned h w
    → Owned h (live config events w)
Owned-live h config [] w own o = o
Owned-live h config (event ∷ events) w (this, own) o =
    Owned-live h config events (happen config event w) own (Owned-happen h config event w this o)

pub unsubscribe_all-Gone :
    (h : ℕ) (ids : List Text) (b : SimpleBroker)
    → AllNamed h ids b.subscriptions
    → Gone h (unsubscribe_all h ids b).subscriptions
unsubscribe_all-Gone h [] b a = a
unsubscribe_all-Gone h (id ∷ ids) b a =
    unsubscribe_all-Gone h ids (unsubscribe h id b) (AllNamed-unsubscribe_head h id ids b a)

-- A connection opens for a session without subscriptions. Whatever its client sends, and whatever
-- other threads do to the broker except to subscribe for this session, closing the connection
-- leaves the broker without a subscription of the session.
pub on_close-Gone :
    (config : Config) (events : List Event) (w : World) (h : ℕ) (principal : Text) (now : ℕ)
    → w.state ≡ open_state h principal now
    → Gone h w.broker.subscriptions
    → All (IsOwn h) events
    → Gone h (on_close (live config events w)).subscriptions
unfolding on_close
on_close-Gone config events w h principal now opened none_yet own =
    let o = Owned-live h config events w own (record {
      handle = ap (λ s. s.handle) opened;
      named =
          subst (λ ids. AllNamed h ids w.broker.subscriptions)
            (sym (ap (λ s. s.subscription_ids) opened)) none_yet;
    }) in
    let last = live config events w in
    subst (λ k. Gone h (unsubscribe_all k last.state.subscription_ids last.broker).subscriptions)
      (sym o.handle) (unsubscribe_all-Gone h last.state.subscription_ids last.broker o.named)
