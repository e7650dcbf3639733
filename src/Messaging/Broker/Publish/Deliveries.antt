-- ===== src/Messaging/Broker/Publish/Deliveries.antt =====
-- What `publish` of src/messaging/stomp.cpp sends, records and drops.
use novaboot.Base.{
  ℕ, ◌+◌, ◌%◌, ◌^◌, ◌≡◌, refl, sym, ap, ◌∙◌, inl, inr, Bool, true, false, List, [], ◌∷◌, ◌++◌, some,
  if◌then◌else◌, ◌==◌, ==_iff, arith, length, Text, Bool-cases,
}
use mathlib.Core.Path.{subst}
use mathlib.Core.List.{append_assoc, append-nil}
use novaboot.WebSocket.Registry.{Store, handle_active, request, text_request}
use novaboot.Messaging.Decoder.{Headers, serialize}
use novaboot.Messaging.Acks.{
  AckMode, auto, client, client_individual, PendingDelivery, PendingAcks, find, assign, or_empty,
  push_pending,
}
use novaboot.Messaging.Acks.Cumulative.{pending}
use novaboot.Messaging.Broker.{Subscription, SimpleBroker}
use novaboot.Messaging.Broker.Publish.{
  message_frame, record_delivery, record_unless_auto, Delivery, after_send, deliver_one, deliver,
}

find-assign :
    (k id : ℕ) (ds : List PendingDelivery) (acks : PendingAcks)
    → find k (assign id ds acks) ≡ (if id == k then some ds else find k acks)
find-assign k id ds [] = refl
find-assign k id ds ((i, old) ∷ acks) = let later = find-assign k id ds acks in grind arith

pending-push :
    (k id : ℕ) (d : PendingDelivery) (acks : PendingAcks)
    → pending k (push_pending id d acks)
      ≡ (if id == k then pending k acks ++ d ∷ [] else pending k acks)
unfolding push_pending
pending-push k id d acks =
    ap or_empty (find-assign k id (or_empty (find id acks) ++ d ∷ []) acks)
    ∙ elim (Bool-cases (id == k)) [
      | inl this ↦ rw this (ap (λ j. or_empty (find j acks) ++ d ∷ []) ((==_iff id k).0 this))
      | inr other ↦ rw other refl
    ]

pushed {ℓ} :
    {A : Type ℓ} (b : Bool) (old later : List A) (d : A)
    → (if b then old ++ d ∷ [] else old) ++ later ≡ old ++ (if b then d ∷ later else later)
pushed true old later d = append_assoc old (d ∷ []) later
pushed false old later d = refl

-- A mode in which nothing has to be acknowledged.
abbrev pub is_auto : AckMode → Bool
is_auto auto = true
is_auto _ = false

-- The number that follows those of the deliveries to these.
abbrev pub next_number : ℕ → List Subscription → ℕ
next_number n [] = n
next_number n (t ∷ ts) =
    let same_number = next_number n ts in
    let later = next_number ((n + 1) % 2 ^ 64) ts in
    if is_auto t.ack_mode then same_number else later

module _ (destination body : Text) (headers : Headers) (message_id : Text) where
  -- Asking the session of a target, in this store, for its message.
  abbrev pub message_to : Subscription → Store → Store × Bool
  message_to t =
      request t.session
        (text_request (serialize (message_frame destination body headers message_id t)))

  -- Sending to these targets in order, from one store to another: a target is passed over where its
  -- session is not active or refuses, and its session is stale where it is not active, before the
  -- attempt or after a refusal. The others take the message.
  pub data Sending
      : Store
        → List Subscription
        → (takers : List Subscription) → (stale : List ℕ) → Store
        → Type 0 where
    done : (s : Store) → Sending s [] [] [] s
    absent :
        (s : Store) (t : Subscription) (ts takers : List Subscription) (stale : List ℕ) (s' : Store)
        → handle_active t.session s ≡ false
        → Sending s ts takers stale s'
        → Sending s (t ∷ ts) takers (t.session ∷ stale) s'
    taken :
        (s s1 : Store) (t : Subscription) (ts takers : List Subscription) (stale : List ℕ)
        (s' : Store)
        → handle_active t.session s ≡ true
        → message_to t s ≡ (s1, true)
        → Sending s1 ts takers stale s'
        → Sending s (t ∷ ts) (t ∷ takers) stale s'
    turned_down :
        (s s1 : Store) (t : Subscription) (ts takers : List Subscription) (stale : List ℕ)
        (s' : Store)
        → handle_active t.session s ≡ true
        → message_to t s ≡ (s1, false)
        → handle_active t.session s1 ≡ true
        → Sending s1 ts takers stale s'
        → Sending s (t ∷ ts) takers stale s'
    lost :
        (s s1 : Store) (t : Subscription) (ts takers : List Subscription) (stale : List ℕ)
        (s' : Store)
        → handle_active t.session s ≡ true
        → message_to t s ≡ (s1, false)
        → handle_active t.session s1 ≡ false
        → Sending s1 ts takers stale s'
        → Sending s (t ∷ ts) takers (t.session ∷ stale) s'

  abbrev pub delivery_of : ℕ → Subscription → PendingDelivery
  delivery_of n t = record {
    sequence = n;
    ack_id = message_id;
    ack_mode = t.ack_mode;
    message = message_frame destination body headers message_id t;
  }

  -- What a session has to acknowledge of these, where the deliveries are numbered from here on: its
  -- own, unless their mode is auto.
  abbrev pub deliveries : (session next : ℕ) → List Subscription → List PendingDelivery
  deliveries k n [] = []
  deliveries k n (t ∷ ts) =
      let same_number = deliveries k n ts in
      let later = deliveries k ((n + 1) % 2 ^ 64) ts in
      if is_auto t.ack_mode
      then same_number
      else if t.session == k
      then delivery_of n t ∷ later
      else later

  -- What sending to these targets did.
  pub record Sent (d : Delivery) (targets : List Subscription) (d' : Delivery) : Type 0 where
    pub takers : List Subscription
    pub stale : List ℕ
    pub sending : Sending d.store targets takers stale d'.store
    pub delivered : d'.delivered ≡ d.delivered + length takers
    pub stale_sessions : d'.stale ≡ d.stale ++ stale
    pub subscriptions : d'.broker.subscriptions ≡ d.broker.subscriptions
    pub pending_acks :
        (k : ℕ)
        → pending k d'.broker.pending_acks
          ≡ pending k d.broker.pending_acks ++ deliveries k d.broker.next_delivery_sequence takers
    pub next : d'.broker.next_delivery_sequence ≡ next_number d.broker.next_delivery_sequence takers
    pub next_message : d'.broker.next_message_id ≡ d.broker.next_message_id
    pub cursors : d'.broker.queue_cursors ≡ d.broker.queue_cursors

  abbrev in_mode : AckMode → ℕ → Subscription → PendingDelivery
  in_mode mode n t = record (delivery_of n t) { ack_mode = mode }

  -- Everything but the deliveries is left as it was, and they are numbered on.
  record IsNoted (t : Subscription) (mode : AckMode) (b b' : SimpleBroker) : Type 0 where
    subscriptions : b'.subscriptions ≡ b.subscriptions
    next_message : b'.next_message_id ≡ b.next_message_id
    cursors : b'.queue_cursors ≡ b.queue_cursors
    next :
        (takers : List Subscription)
        → next_number b'.next_delivery_sequence takers ≡ (
            if is_auto mode
            then next_number b.next_delivery_sequence takers
            else next_number ((b.next_delivery_sequence + 1) % 2 ^ 64) takers)
    pending_acks :
        (k : ℕ) (takers : List Subscription)
        → pending k b'.pending_acks ++ deliveries k b'.next_delivery_sequence takers
          ≡ pending k b.pending_acks
            ++ (if is_auto mode
                then deliveries k b.next_delivery_sequence takers
                else if t.session == k
                then in_mode mode b.next_delivery_sequence t
                  ∷ deliveries k ((b.next_delivery_sequence + 1) % 2 ^ 64) takers
                else deliveries k ((b.next_delivery_sequence + 1) % 2 ^ 64) takers)

  record_delivery-pending :
      (t : Subscription) (mode : AckMode) (b : SimpleBroker) (k : ℕ) (later : List PendingDelivery)
      → pending k
            (record_delivery t.session mode message_id
              (message_frame destination body headers message_id t)
              b).pending_acks
          ++ later
        ≡ pending k b.pending_acks
          ++ (if t.session == k then in_mode mode b.next_delivery_sequence t ∷ later else later)
  unfolding record_delivery
  record_delivery-pending t mode b k later =
      let d = in_mode mode b.next_delivery_sequence t in
      ap (λ xs. xs ++ later) (pending-push k t.session d b.pending_acks)
      ∙ pushed (t.session == k) (pending k b.pending_acks) later d

  abbrev noted : Subscription → SimpleBroker → SimpleBroker
  noted t b =
      record_unless_auto t message_id (message_frame destination body headers message_id t) b

  noted-IsNoted : (t : Subscription) (b : SimpleBroker) → IsNoted t t.ack_mode b (noted t b)
  unfolding record_delivery
  noted-IsNoted t b =
      let message = message_frame destination body headers message_id t in
      elim t.ack_mode
        as (λ mode. IsNoted t mode b (elim mode [
          | auto ↦ b
          | client ↦ record_delivery t.session client message_id message b
          | client_individual ↦ record_delivery t.session client_individual message_id message b
        ])) [
          | auto ↦ record {
            subscriptions = refl;
            next_message = refl;
            cursors = refl;
            next = λ takers. refl;
            pending_acks = λ k takers. refl;
          }
          | client ↦ record {
            subscriptions = refl;
            next_message = refl;
            cursors = refl;
            next = λ takers. refl;
            pending_acks = λ k takers. record_delivery-pending t client b k _;
          }
          | client_individual ↦ record {
            subscriptions = refl;
            next_message = refl;
            cursors = refl;
            next = λ takers. refl;
            pending_acks = λ k takers. record_delivery-pending t client_individual b k _;
          }
        ]

  Sent-passed :
      (stale : List ℕ) (t : Subscription) (ts : List Subscription) (d d1 d' : Delivery)
      → d1.broker ≡ d.broker
      → d1.delivered ≡ d.delivered
      → d1.stale ≡ d.stale ++ stale
      → ((takers : List Subscription) (later : List ℕ)
          → Sending d1.store ts takers later d'.store
          → Sending d.store (t ∷ ts) takers (stale ++ later) d'.store)
      → Sent d1 ts d'
      → Sent d (t ∷ ts) d'
  Sent-passed stale t ts d d1 d' broker delivered grown step r = record {
    takers = r.takers;
    stale = stale ++ r.stale;
    sending = step r.takers r.stale r.sending;
    delivered = r.delivered ∙ ap (λ n. n + length r.takers) delivered;
    stale_sessions =
        r.stale_sessions ∙ ap (λ xs. xs ++ r.stale) grown ∙ append_assoc d.stale stale r.stale;
    subscriptions = r.subscriptions ∙ ap (λ b. b.subscriptions) broker;
    pending_acks = λ k.
        r.pending_acks k
        ∙ ap (λ b. pending k b.pending_acks ++ deliveries k b.next_delivery_sequence r.takers)
            broker;
    next = r.next ∙ ap (λ b. next_number b.next_delivery_sequence r.takers) broker;
    next_message = r.next_message ∙ ap (λ b. b.next_message_id) broker;
    cursors = r.cursors ∙ ap (λ b. b.queue_cursors) broker;
  }

  after_send-Sent :
      (t : Subscription) (ts : List Subscription) (d d' : Delivery) (sent : Store × Bool)
      → handle_active t.session d.store ≡ true
      → message_to t d.store ≡ sent
      → Sent
          (after_send t message_id (message_frame destination body headers message_id t) d sent)
          ts
          d'
      → Sent d (t ∷ ts) d'
  after_send-Sent t ts d d' (s, true) ready asked r =
      let noting = noted-IsNoted t d.broker in
      record {
        takers = t ∷ r.takers;
        stale = r.stale;
        sending = taken d.store s t ts r.takers r.stale d'.store ready asked r.sending;
        delivered = omega (arith, r.delivered);
        stale_sessions = r.stale_sessions;
        subscriptions = r.subscriptions ∙ noting.subscriptions;
        pending_acks = λ k. r.pending_acks k ∙ noting.pending_acks k r.takers;
        next = r.next ∙ noting.next r.takers;
        next_message = r.next_message ∙ noting.next_message;
        cursors = r.cursors ∙ noting.cursors;
      }
  after_send-Sent t ts d d' (s, false) ready asked r =
      elim (Bool-cases (handle_active t.session s)) [
        | inl busy ↦
            let d1 = record d { store = s } in
            Sent-passed [] t ts d d1 d' refl refl (sym (append-nil d.stale))
              (λ takers later. turned_down d.store s t ts takers later d'.store ready asked busy)
              (subst
                (λ b.
                  Sent (if b then d1 else record d1 { stale = d.stale ++ t.session ∷ [] }) ts d')
                busy r)
        | inr gone ↦
            let d1 = record d { store = s; stale = d.stale ++ t.session ∷ [] } in
            Sent-passed (t.session ∷ []) t ts d d1 d' refl refl refl
              (λ takers later. lost d.store s t ts takers later d'.store ready asked gone)
              (subst (λ b. Sent (if b then record d { store = s } else d1) ts d') gone r)
      ]

  deliver_one-Sent :
      (t : Subscription) (ts : List Subscription) (d d' : Delivery)
      → Sent (deliver_one destination body headers message_id t d) ts d'
      → Sent d (t ∷ ts) d'
  unfolding deliver_one
  deliver_one-Sent t ts d d' r =
      let message = message_frame destination body headers message_id t in
      let asked = after_send t message_id message d (message_to t d.store) in
      let d1 = record d { stale = d.stale ++ t.session ∷ [] } in
      elim (Bool-cases (handle_active t.session d.store)) [
        | inl ready ↦
            after_send-Sent t ts d d' (message_to t d.store) ready refl
              (subst (λ b. Sent (if b then asked else d1) ts d') ready r)
        | inr gone ↦
            Sent-passed (t.session ∷ []) t ts d d1 d' refl refl refl
              (λ takers later. absent d.store t ts takers later d'.store gone)
              (subst (λ b. Sent (if b then asked else d1) ts d') gone r)
      ]

  pub deliver-Sent :
      (targets : List Subscription) (d : Delivery)
      → Sent d targets (deliver destination body headers message_id targets d)
  unfolding deliver
  deliver-Sent [] d = record {
    takers = [];
    stale = [];
    sending = done d.store;
    delivered = omega arith;
    stale_sessions = sym (append-nil d.stale);
    subscriptions = refl;
    pending_acks = λ k. sym (append-nil (pending k d.broker.pending_acks));
    next = refl;
    next_message = refl;
    cursors = refl;
  }
  deliver-Sent (t ∷ ts) d =
      deliver_one-Sent t ts d _
        (deliver-Sent ts (deliver_one destination body headers message_id t d))
