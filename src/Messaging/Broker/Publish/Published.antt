-- ===== src/Messaging/Broker/Publish/Published.antt =====
-- What `publish` of src/messaging/stomp.cpp does as a whole.
use novaboot.Base.{
  ℕ, ◌+◌, ◌%◌, ◌^◌, ◌≡◌, ◌↔◌, ◌⊎◌, true, false, List, [], ◌++◌, length, Text, text, starts_with,
  to_string,
}
use novaboot.Base.Dict
use novaboot.WebSocket.Registry.{Store}
use novaboot.Messaging.Decoder.{Headers}
use novaboot.Messaging.Acks.Cumulative.{pending}
use novaboot.Messaging.Broker.{Subscription, SimpleBroker, at}
use novaboot.Messaging.Broker.Publish.{Claim, nobody, targeted, claim, Delivery, contains, prune}
use novaboot.Messaging.Broker.Publish.Pruned.{Listed}
use novaboot.Messaging.Broker.Publish.Deliveries.{Sending, deliveries, next_number}

-- What a claim changes: nothing where it finds nobody, and the next identifier of a message and the
-- cursors otherwise.
abbrev IsClaimed : SimpleBroker → SimpleBroker × Claim → Type 0
IsClaimed b (b', nobody) = b' ≡ b
IsClaimed b (b', targeted targets id) =
    (id ≡ to_string b.next_message_id)
    × (b'.next_message_id ≡ (b.next_message_id + 1) % 2 ^ 64)
    × (b'.subscriptions ≡ b.subscriptions)
    × (b'.pending_acks ≡ b.pending_acks)
    × (b'.next_delivery_sequence ≡ b.next_delivery_sequence)

-- Where the destination is neither a queue nor a user's, the targets are all of its subscriptions.
abbrev pub IsAudience : Text → (ss targets : List Subscription) → Type 0
IsAudience destination ss targets =
    (starts_with (text "/queue/") destination ≡ true)
    ⊎ ((starts_with (text "/user/") destination ≡ true) ⊎ (targets ≡ ss))

abbrev Audience : Text → List Subscription → Claim → Type 0
Audience destination ss nobody = Unit
Audience destination ss (targeted targets id) = IsAudience destination ss targets

module _ (destination body : Text) (headers : Headers) (store : Store) (b : SimpleBroker) where
  -- What a message that is claimed for some targets does.
  pub record Published (targets : List Subscription) (d : Delivery) : Type 0 where
    pub audience : IsAudience destination (at destination b.subscriptions) targets
    pub takers : List Subscription
    pub stale : List ℕ
    pub sending :
        Sending destination body headers
          (to_string b.next_message_id)
          store
          targets
          takers
          stale
          d.store
    pub delivered : d.delivered ≡ length takers
    pub subscriptions : d.broker.subscriptions ≡ (prune stale b).subscriptions
    pub listed :
        (to : Text) (s : Subscription)
        → Listed to s d.broker.subscriptions
          ↔ (Listed to s b.subscriptions × (contains s.session stale ≡ false))
    pub pending_acks :
        (k : ℕ)
        → pending k d.broker.pending_acks
          ≡ pending k b.pending_acks
            ++ deliveries destination body headers
                (to_string b.next_message_id)
                k
                b.next_delivery_sequence
                takers
    pub next : d.broker.next_delivery_sequence ≡ next_number b.next_delivery_sequence takers
    pub next_message : d.broker.next_message_id ≡ (b.next_message_id + 1) % 2 ^ 64
    pub cursors : d.broker.queue_cursors ≡ (claim destination store b).0.queue_cursors

  -- Nothing is sent and nothing changes.
  abbrev pub IsQuiet : Delivery → Type 0
  IsQuiet d = d ≡ record { broker = b; store = store; delivered = 0; stale = [] }

  -- What a message does after this claim.
  abbrev pub AfterClaim : Claim → Delivery → Type 0
  AfterClaim nobody d = IsQuiet d
  AfterClaim (targeted targets id) d = (id ≡ to_string b.next_message_id) × Published targets d
