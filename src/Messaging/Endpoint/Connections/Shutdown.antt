-- ===== src/Messaging/Endpoint/Connections/Shutdown.antt =====
-- The shutdown of src/messaging/stomp.cpp's endpoint leaves nothing behind.
use novaboot.Base.{ℕ, ◌≡◌, refl, true, List, [], ◌∷◌, Text, All, All-map}
use novaboot.WebSocket.Session.{Session}
use novaboot.Messaging.Broker.{SimpleBroker, unsubscribe}
use novaboot.Messaging.Broker.Invariant.{unsubscribing}
use novaboot.Messaging.Broker.Owners.{AllNamed, AllNamed-act}
use novaboot.Messaging.Endpoint.{ConnectionState, unsubscribe_all}
use novaboot.Messaging.Endpoint.Frames.Lives.{Gone, unsubscribe_all-Gone}
use novaboot.Messaging.Endpoint.Connections.{
  Connections, on_open, drained, unsubscribe_connections, force_shutdown,
}

-- The broker's subscriptions of the connection's session are those that the connection lists.
abbrev pub Lists : SimpleBroker → ConnectionState → Type 0
Lists b c = AllNamed c.handle c.subscription_ids b.subscriptions

AllNamed-unsubscribe_all :
    (h : ℕ) (is : List Text) (g : ℕ) (ids : List Text) (b : SimpleBroker)
    → AllNamed h is b.subscriptions
    → AllNamed h is (unsubscribe_all g ids b).subscriptions
AllNamed-unsubscribe_all h is g [] b a = a
AllNamed-unsubscribe_all h is g (id ∷ ids) b a =
    AllNamed-unsubscribe_all h is g ids (unsubscribe g id b)
      (AllNamed-act h is (unsubscribing g id) b tt a)

-- A session without subscriptions stays without.
Gone-unsubscribe_connections :
    (h : ℕ) (cs : List ConnectionState) (b : SimpleBroker)
    → Gone h b.subscriptions
    → Gone h (unsubscribe_connections cs b).subscriptions
Gone-unsubscribe_connections h [] b g = g
Gone-unsubscribe_connections h (c ∷ cs) b g =
    Gone-unsubscribe_connections h cs (unsubscribe_all c.handle c.subscription_ids b)
      (AllNamed-unsubscribe_all h [] c.handle c.subscription_ids b g)

unsubscribe_connections-Gone :
    (cs : List ConnectionState) (b : SimpleBroker)
    → All (Lists b) cs
    → All (λ c. Gone c.handle (unsubscribe_connections cs b).subscriptions) cs
unsubscribe_connections-Gone [] b l = tt
unsubscribe_connections-Gone (c ∷ cs) b (this, others) =
    let after = unsubscribe_all c.handle c.subscription_ids b in
    (
      Gone-unsubscribe_connections c.handle cs after
          (unsubscribe_all-Gone c.handle c.subscription_ids b this),
      unsubscribe_connections-Gone cs after (
          All-map (Lists b) (Lists after)
            (λ d named.
              AllNamed-unsubscribe_all d.handle d.subscription_ids c.handle c.subscription_ids b
                named)
            cs others),
    )

-- Where each connection lists the subscriptions that its session has, a forced shutdown leaves the
-- broker without a subscription of any of these sessions, and the endpoint without connections; and
-- a session that opens later changes nothing.
pub force_shutdown-Gone :
    (t : Connections)
    → All (Lists t.broker) t.connections
    → All (λ c. Gone c.handle (force_shutdown t).broker.subscriptions) t.connections
      × ((drained (force_shutdown t) ≡ true)
          × ((id : ℕ) (principal : Text) (now : ℕ) (session : Session)
              → (on_open id principal now session (force_shutdown t)).0 ≡ force_shutdown t))
unfolding force_shutdown on_open
force_shutdown-Gone t l = (
  unsubscribe_connections-Gone t.connections t.broker l,
  (refl, λ id principal now session. refl),
)
