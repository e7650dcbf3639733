-- ===== src/Messaging/Broker/Publish/Parts.antt =====
-- `publish` of src/messaging/stomp.cpp is made of the parts that hold the broker's mutex.
use novaboot.Base.{
  zero, suc, ◌%◌, ◌^◌, not, get_elem?, Option-cases, starts_with, drop, text, same, length-erase_if,
  ℕ, ◌+◌, ◌≤◌, ◌≡◌, refl, ap, ◌∙◌, inl, inr, Bool, true, false, List, [], ◌∷◌, ◌++◌, arith, length,
  length-append, All, All-append, Text, Bool-cases,
}
use novaboot.WebSocket.Registry.{Store, handle_active, request, text_request}
use novaboot.Messaging.Decoder.{Frame, Headers, Split, unsplit, split, split_at, serialize}
use novaboot.Messaging.Acks.{auto, client, client_individual}
use novaboot.Messaging.Broker.{Subscription, SimpleBroker, supported_destination, at}
use novaboot.Base.Dict
use novaboot.Messaging.Broker.Publish.{
  pick, cursor_or_zero, claim_user, Claim, nobody, targeted, claim, message_frame, record_delivery,
  record_unless_auto, Delivery, after_send, deliver_one, deliver, prune, publish_claimed, publish,
}
use novaboot.Messaging.Broker.Invariant.{Action, claiming, recording, pruning, act, run}

-- The parts of `publish`.
abbrev pub IsPublishing : Action → Type 0
IsPublishing (claiming destination store) = Unit
IsPublishing (recording session mode message_id message) = Unit
IsPublishing (pruning stale) = Unit
IsPublishing _ = ⊥

-- A broker that some parts of `publish` lead to.
pub record Reached (bound : ℕ) (b b' : SimpleBroker) : Type 0 where
  pub actions : List Action
  pub own : All IsPublishing actions
  pub few : length actions ≤ bound
  pub result : run actions b ≡ b'

abbrev stay : (n : ℕ) (b : SimpleBroker) → Reached n b b
stay n b = record { actions = []; own = tt; few = omega arith; result = refl }

run-append :
    (first more : List Action) (b : SimpleBroker) → run (first ++ more) b ≡ run more (run first b)
run-append [] more b = refl
run-append (a ∷ first) more b = run-append first more (act a b)

Reached-trans :
    {n m k : ℕ} {b b' b'' : SimpleBroker}
    → n + m ≤ k
    → Reached n b b'
    → Reached m b' b''
    → Reached k b b''
Reached-trans {b = b} h r s = record {
  actions = r.actions ++ s.actions;
  own = All-append IsPublishing r.actions s.actions r.own s.own;
  few = omega (arith, length-append r.actions s.actions, r.few, s.few);
  result = run-append r.actions s.actions b ∙ ap (run s.actions) r.result ∙ s.result;
}

recorded :
    (target : Subscription) (message_id : Text) (message : Frame) (b : SimpleBroker)
    → Reached 1 b (record_unless_auto target message_id message b)
recorded target message_id message b =
    elim target.ack_mode
      as (λ mode. Reached 1 b (elim mode [
        | auto ↦ b
        | client ↦ record_delivery target.session client message_id message b
        | client_individual ↦ record_delivery target.session client_individual message_id message b
      ])) [
        | auto ↦ stay 1 b
        | client ↦ record {
          actions = recording target.session client message_id message ∷ [];
          own = (tt, tt);
          few = omega arith;
          result = refl;
        }
        | client_individual ↦ record {
          actions = recording target.session client_individual message_id message ∷ [];
          own = (tt, tt);
          few = omega arith;
          result = refl;
        }
      ]

-- What an attempt to deliver does: at most one record and one delivery.
record Attempt (d d' : Delivery) : Type 0 where
  reached : Reached 1 d.broker d'.broker
  counted : d'.delivered ≤ d.delivered + 1

after_send-Attempt :
    (target : Subscription) (message_id : Text) (message : Frame) (d : Delivery)
    (sent : Store × Bool)
    → Attempt d (after_send target message_id message d sent)
after_send-Attempt target message_id message d (store, true) = record {
  reached = recorded target message_id message d.broker;
  counted = omega arith;
}
after_send-Attempt target message_id message d (store, false) =
    elim (Bool-cases (handle_active target.session store)) [
      | inl busy ↦ rw busy (record { reached = stay 1 d.broker; counted = omega arith })
      | inr gone ↦ rw gone (record { reached = stay 1 d.broker; counted = omega arith })
    ]

length-pick :
    (store : Store) (ss : List Subscription) (cursor offset rounds : ℕ)
    → length (pick store ss cursor offset rounds) ≤ rounds
unfolding pick
length-pick store ss cursor offset zero = omega arith
length-pick store ss cursor offset (suc rounds) =
    let rest = length-pick store ss cursor (offset + 1) rounds in
    elim (Option-cases (get_elem? ss ((cursor + offset) % 2 ^ 64 % length ss))) [
      | inl out ↦ rw out (omega arith)
      | inr (s, found) ↦ rw found (elim (Bool-cases (handle_active s.session store)) [
        | inl ready ↦ rw ready (omega arith)
        | inr gone ↦ rw gone (omega arith)
      ])
    ]

-- A claim is one action, and its targets are at most these many.
abbrev IsClaim : ℕ → SimpleBroker → SimpleBroker × Claim → Type 0
IsClaim most b (b', nobody) = Unit
IsClaim most b (b', targeted targets message_id) = length targets ≤ most

claim_user-IsClaim :
    (b : SimpleBroker) (ss : List Subscription) (rest : Split)
    → IsClaim (length ss) b (claim_user b ss rest)
claim_user-IsClaim b ss unsplit = tt
claim_user-IsClaim b ss (split principal rest) =
    length-erase_if (λ s. not (same s.principal principal)) ss

claim-IsClaim :
    (destination : Text) (store : Store) (b : SimpleBroker)
    → IsClaim (length (at destination b.subscriptions)) b (claim destination store b)
unfolding claim
claim-IsClaim destination store b = elim (Option-cases (Dict.lookup destination b.subscriptions)) [
  | inl missing ↦ rw missing tt
  | inr (ss, found) ↦ rw found (elim (Bool-cases (starts_with (text "/queue/") destination)) [
    | inl queue ↦ rw queue (
        length-pick store ss (cursor_or_zero (Dict.lookup destination b.queue_cursors)) 0
          (length ss))
    | inr other ↦ rw other (elim (Bool-cases (starts_with (text "/user/") destination)) [
      | inl user ↦ rw user (claim_user-IsClaim b ss (split_at 47 (drop 6 destination)))
      | inr topic ↦ rw topic (omega arith)
    ])
  ])
]

module _ (destination body : Text) (headers : Headers) where
  deliver_one-Attempt :
      (message_id : Text) (target : Subscription) (d : Delivery)
      → Attempt d (deliver_one destination body headers message_id target d)
  unfolding deliver_one
  deliver_one-Attempt message_id target d =
      elim (Bool-cases (handle_active target.session d.store)) [
        | inl ready ↦
            let message = message_frame destination body headers message_id target in
            rw ready (
              after_send-Attempt target message_id message d
                (request target.session (text_request (serialize message)) d.store))
        | inr gone ↦ rw gone (record { reached = stay 1 d.broker; counted = omega arith })
      ]

  deliver-Reached :
      (message_id : Text) (targets : List Subscription) (d : Delivery)
      → Reached
          (length targets)
          d.broker
          (deliver destination body headers message_id targets d).broker
        × ((deliver destination body headers message_id targets d).delivered
            ≤ d.delivered + length targets)
  unfolding deliver
  deliver-Reached message_id [] d = (stay 0 d.broker, omega arith)
  deliver-Reached message_id (target ∷ targets) d =
      let d' = deliver_one destination body headers message_id target d in
      let one = deliver_one-Attempt message_id target d in
      let (more, count) = deliver-Reached message_id targets d' in
      (Reached-trans (omega arith) one.reached more, omega (arith, one.counted, count))

  prune-Reached : (stale : List ℕ) (b : SimpleBroker) → Reached 1 b (prune stale b)
  prune-Reached stale b = record {
    actions = pruning stale ∷ [];
    own = (tt, tt);
    few = omega arith;
    result = refl;
  }

  -- What the broker is after a message, and the count of its deliveries.
  abbrev IsPublished : ℕ → SimpleBroker → Delivery → Type 0
  IsPublished most b d = Reached (most + 2) b d.broker × (d.delivered ≤ most)

  publish_claimed-IsPublished :
      (most : ℕ) (store : Store) (b : SimpleBroker) (claimed : SimpleBroker × Claim)
      → IsClaim most b claimed
      → Reached 1 b claimed.0
      → IsPublished most b (publish_claimed destination body headers store claimed)
  publish_claimed-IsPublished most store b (b', nobody) c r =
      (Reached-trans (omega arith) r (stay 0 b'), omega arith)
  publish_claimed-IsPublished most store b (b', targeted targets message_id) c r =
      let start : Delivery = record { broker = b'; store = store; delivered = 0; stale = [] } in
      let sent = deliver destination body headers message_id targets start in
      let (parts, count) = deliver-Reached message_id targets start in
      (
        Reached-trans (omega arith) r (
            Reached-trans {k = most + 1} (omega arith) parts
              (prune-Reached sent.stale sent.broker)),
        omega arith,
      )

-- Publishing is a run of its own parts, at most two more than the destination has subscriptions, and counts
-- at most one delivery for each of them.
pub publish-Reached :
    (destination body : Text) (headers : Headers) (store : Store) (b : SimpleBroker)
    → Reached
        (length (at destination b.subscriptions) + 2)
        b
        (publish destination body headers store b).broker
      × ((publish destination body headers store b).delivered
          ≤ length (at destination b.subscriptions))
unfolding publish
publish-Reached destination body headers store b =
    elim (Bool-cases (supported_destination destination)) [
      | inl supported ↦ rw supported (
          publish_claimed-IsPublished destination body headers
            (length (at destination b.subscriptions)) store b (claim destination store b)
            (claim-IsClaim destination store b)
            (record {
              actions = claiming destination store ∷ [];
              own = (tt, tt);
              few = omega arith;
              result = refl;
            }))
      | inr unsupported ↦
          rw unsupported (stay (length (at destination b.subscriptions) + 2) b, omega arith)
    ]
