-- ===== src/Messaging/Broker/Owners.antt =====
-- Which subscriptions of the broker of src/messaging/stomp.cpp a session has.
use novaboot.Base.{
  ℕ, ◌≡◌, ◌≢◌, sym, ap, ◌∙◌, inl, inr, Bool, true, false, not, ◌||◌, List, [], ◌∷◌, ◌==◌, arith,
  erase_if, Text, same, same_sound, same_refl, is_empty, Bool-cases, All, All-map, Exists,
}
use novaboot.Base.Dict
use novaboot.WebSocket.Registry.{Store, handle_active}
use novaboot.Messaging.Decoder.{Frame}
use novaboot.Messaging.Acks.{AckMode}
use novaboot.Messaging.Broker.{
  Subscription, Subscriptions, SimpleBroker, supported_destination, is_subscription, place,
  list_or_empty, subscribe, unless_empty, erase_subscriptions, unsubscribe, acknowledge,
}
use novaboot.Messaging.Broker.Publish.{claim, record_delivery, contains, prune}
use novaboot.Messaging.Broker.Publish.Parts.{IsPublishing, Reached}
use novaboot.Messaging.Broker.Invariant.{
  Action, subscribing, unsubscribing, acknowledging, claiming, recording, pruning, act, run,
  claim-SameDeliveries,
}

-- A subscription of the session has one of these identifiers.
abbrev pub Named : ℕ → List Text → Subscription → Type 0
Named session ids s = s.session ≡ session → Exists (λ i. i ≡ s.id) ids

abbrev pub AllNamed : ℕ → List Text → Subscriptions → Type 0
AllNamed session ids = All (λ e. All (Named session ids) e.1)

pub AllNamed-map :
    (h : ℕ) (is js : List Text)
    → ((s : Subscription) → Named h is s → Named h js s)
    → (subs : Subscriptions) → AllNamed h is subs
    → AllNamed h js subs
AllNamed-map h is js f =
    All-map (λ e. All (Named h is) e.1) (λ e. All (Named h js) e.1)
      (λ e a. All-map (Named h is) (Named h js) f e.1 a)

-- What holds of the members that are left.
left_over :
    (P Q : Subscription → Type 0) (gone : Subscription → Bool)
    → ((s : Subscription) → gone s ≡ false → P s → Q s)
    → (ss : List Subscription) → All P ss
    → All Q (erase_if gone ss)
left_over P Q gone f [] a = tt
left_over P Q gone f (s ∷ ss) (p, a) = elim (Bool-cases (gone s)) [
  | inl out ↦ rw out (left_over P Q gone f ss a)
  | inr stays ↦ rw stays (f s stays p, left_over P Q gone f ss a)
]

AllNamed-unless_empty :
    (h : ℕ) (is : List Text) (d : Text) (ss : List Subscription) (subs : Subscriptions)
    → All (Named h is) ss
    → AllNamed h is subs
    → AllNamed h is (unless_empty d ss subs)
AllNamed-unless_empty h is d [] subs a rest = rest
AllNamed-unless_empty h is d (s ∷ ss) subs a rest = (a, rest)

AllNamed-erase :
    (h : ℕ) (is js : List Text) (gone : Subscription → Bool)
    → ((s : Subscription) → gone s ≡ false → Named h is s → Named h js s)
    → (subs : Subscriptions) → AllNamed h is subs
    → AllNamed h js (erase_subscriptions gone subs)
AllNamed-erase h is js gone f [] a = tt
AllNamed-erase h is js gone f ((d, ss) ∷ subs) (a, rest) =
    AllNamed-unless_empty h js d (erase_if gone ss) (erase_subscriptions gone subs)
      (left_over (Named h is) (Named h js) gone f ss a) (AllNamed-erase h is js gone f subs rest)

Named-other :
    (h : ℕ) (is : List Text) (id : Text) (s : Subscription)
    → is_subscription h id s ≡ false
    → s.session ≡ h
    → same s.id id ≡ false
Named-other h is id s miss mine = ground arith

id_of : (h : ℕ) (id : Text) (s : Subscription) → is_subscription h id s ≡ true → same s.id id ≡ true
id_of h id s hit = ground arith

Exists-erase_if :
    (id name : Text) (is : List Text)
    → same name id ≡ false
    → Exists (λ i. i ≡ name) is
    → Exists (λ i. i ≡ name) (erase_if (λ i. same i id) is)
Exists-erase_if id name [] ne x = x
Exists-erase_if id name (i ∷ is) ne (inl e) =
    let stays : same i id ≡ false = ap (λ t. same t id) e ∙ ne in rw stays (inl e)
Exists-erase_if id name (i ∷ is) ne (inr x) = elim (Bool-cases (same i id)) [
  | inl out ↦ rw out (Exists-erase_if id name is ne x)
  | inr stays ↦ rw stays (inr (Exists-erase_if id name is ne x))
]

-- Once a session has unsubscribed an identifier, its subscriptions are named by the others.
pub AllNamed-unsubscribe :
    (h : ℕ) (id : Text) (is : List Text) (b : SimpleBroker)
    → AllNamed h is b.subscriptions
    → AllNamed h (erase_if (λ i. same i id) is) (unsubscribe h id b).subscriptions
unfolding unsubscribe
AllNamed-unsubscribe h id is b =
    AllNamed-erase h is (erase_if (λ i. same i id) is) (is_subscription h id)
      (λ s miss named mine.
        Exists-erase_if id s.id is (Named-other h is id s miss mine) (named mine))
      b.subscriptions

behind_head :
    (id name : Text) (is : List Text)
    → same name id ≡ false
    → Exists (λ i. i ≡ name) (id ∷ is)
    → Exists (λ i. i ≡ name) is
behind_head id name is ne (inl e) = absurd (cc (ne, ap (λ t. same t id) (sym e), same_refl id))
behind_head id name is ne (inr x) = x

pub AllNamed-unsubscribe_head :
    (h : ℕ) (id : Text) (is : List Text) (b : SimpleBroker)
    → AllNamed h (id ∷ is) b.subscriptions
    → AllNamed h is (unsubscribe h id b).subscriptions
unfolding unsubscribe
AllNamed-unsubscribe_head h id is b =
    AllNamed-erase h (id ∷ is) is (is_subscription h id)
      (λ s miss named mine. behind_head id s.id is (Named-other h is id s miss mine) (named mine))
      b.subscriptions

All-place :
    (P : Subscription → Type 0) (new : Subscription) (ss : List Subscription)
    → ((s : Subscription)
        → is_subscription new.session new.id s ≡ true
        → P (record s {
          session = new.session;
          ack_mode = new.ack_mode;
          principal = new.principal;
        }))
    → P new
    → All P ss
    → All P (place new ss)
All-place P new [] f p a = (p, tt)
All-place P new (s ∷ ss) f p (q, a) = elim (Bool-cases (is_subscription new.session new.id s)) [
  | inl hit ↦ rw hit (f s hit, a)
  | inr miss ↦ rw miss (q, All-place P new ss f p a)
]

AllNamed-assign :
    (h : ℕ) (is : List Text) (destination : Text) (ss : List Subscription) (subs : Subscriptions)
    → All (Named h is) ss
    → AllNamed h is subs
    → AllNamed h is (Dict.assign destination ss subs)
AllNamed-assign h is destination ss [] a rest = (a, tt)
AllNamed-assign h is destination ss ((d, old) ∷ subs) a (this, rest) =
    elim (Bool-cases (same d destination)) [
      | inl hit ↦ rw hit (a, rest)
      | inr miss ↦ rw miss (this, AllNamed-assign h is destination ss subs a rest)
    ]

lookup-Named :
    (h : ℕ) (is : List Text) (destination : Text) (subs : Subscriptions)
    → AllNamed h is subs
    → All (Named h is) (list_or_empty (Dict.lookup destination subs))
lookup-Named h is destination [] a = tt
lookup-Named h is destination ((d, ss) ∷ subs) (this, rest) =
    elim (Bool-cases (same d destination)) [
      | inl hit ↦ rw hit this
      | inr miss ↦ rw miss (lookup-Named h is destination subs rest)
    ]

AllNamed-prune :
    (h : ℕ) (is : List Text) (stale : List ℕ) (b : SimpleBroker)
    → AllNamed h is b.subscriptions
    → AllNamed h is (prune stale b).subscriptions
unfolding prune
AllNamed-prune h is [] b a = a
AllNamed-prune h is (id ∷ ids) b a =
    AllNamed-erase h is is (λ s. contains s.session (id ∷ ids)) (λ s stays named. named)
      b.subscriptions a

AllNamed-record_delivery :
    (h : ℕ) (is : List Text) (session : ℕ) (mode : AckMode) (message_id : Text) (message : Frame)
    (b : SimpleBroker)
    → AllNamed h is b.subscriptions
    → AllNamed h is (record_delivery session mode message_id message b).subscriptions
unfolding record_delivery
AllNamed-record_delivery h is session mode message_id message b a = a

-- Not a subscription of this session.
abbrev pub IsForeign : ℕ → Action → Type 0
IsForeign h (subscribing destination id session mode principal store) = session ≢ h
IsForeign h _ = Unit

module _ (h : ℕ) (is : List Text) where
  -- A subscription whose identifier is among the session's, or that is of another session.
  pub AllNamed-subscribe :
      (destination id : Text) (session : ℕ) (mode : AckMode) (principal : Text) (store : Store)
      (b : SimpleBroker)
      → (session ≡ h → Exists (λ i. i ≡ id) is)
      → AllNamed h is b.subscriptions
      → AllNamed h is (subscribe destination id session mode principal store b).0.subscriptions
  unfolding subscribe
  AllNamed-subscribe destination id session mode principal store b own a =
      elim (Bool-cases (
        not (supported_destination destination)
        || (is_empty id || (session == 0 || not (handle_active session store))))) [
          | inl refused ↦ rw refused a
          | inr accepted ↦
              let new : Subscription = record {
                session = session;
                id = id;
                ack_mode = mode;
                principal = principal;
              } in
              let old = list_or_empty (Dict.lookup destination b.subscriptions) in
              rw accepted (
                AllNamed-assign h is destination (place new old) b.subscriptions
                  (All-place (Named h is) new old
                    (λ s same_id mine.
                      rw (same_sound s.id id (id_of session id s same_id)) (own mine))
                    own (lookup-Named h is destination b.subscriptions a))
                  a)
        ]

  pub AllNamed-publishing :
      (actions : List Action) (b : SimpleBroker)
      → All IsPublishing actions
      → AllNamed h is b.subscriptions
      → AllNamed h is (run actions b).subscriptions
  AllNamed-publishing [] b own a = a
  AllNamed-publishing (subscribing destination id session mode principal store ∷ actions) b own a =
      absurd own.0
  AllNamed-publishing (unsubscribing session id ∷ actions) b own a = absurd own.0
  AllNamed-publishing (acknowledging session ack_id ∷ actions) b own a = absurd own.0
  AllNamed-publishing (claiming destination store ∷ actions) b (_, own) a =
      AllNamed-publishing actions (claim destination store b).0 own
        (rw (claim-SameDeliveries destination store b).subscriptions a)
  AllNamed-publishing (recording session mode message_id message ∷ actions) b (_, own) a =
      AllNamed-publishing actions (record_delivery session mode message_id message b) own
        (AllNamed-record_delivery h is session mode message_id message b a)
  AllNamed-publishing (pruning stale ∷ actions) b (_, own) a =
      AllNamed-publishing actions (prune stale b) own (AllNamed-prune h is stale b a)

  pub AllNamed-Reached :
      {n : ℕ} {b b' : SimpleBroker}
      → Reached n b b'
      → AllNamed h is b.subscriptions
      → AllNamed h is b'.subscriptions
  AllNamed-Reached {b = b} r a = rw (← r.result) (AllNamed-publishing r.actions b r.own a)

  -- What other threads do to the broker, but for a subscription of this session.
  pub AllNamed-act :
      (a : Action) (b : SimpleBroker)
      → IsForeign h a
      → AllNamed h is b.subscriptions
      → AllNamed h is (act a b).subscriptions
  unfolding unsubscribe acknowledge
  AllNamed-act (subscribing destination id session mode principal store) b foreign a =
      AllNamed-subscribe destination id session mode principal store b
        (λ mine. absurd (foreign mine)) a
  AllNamed-act (unsubscribing session id) b foreign a =
      AllNamed-erase h is is (is_subscription session id) (λ s stays named. named) b.subscriptions a
  AllNamed-act (acknowledging session ack_id) b foreign a = a
  AllNamed-act (claiming destination store) b foreign a =
      AllNamed-publishing (claiming destination store ∷ []) b (tt, tt) a
  AllNamed-act (recording session mode message_id message) b foreign a =
      AllNamed-publishing (recording session mode message_id message ∷ []) b (tt, tt) a
  AllNamed-act (pruning stale) b foreign a = AllNamed-publishing (pruning stale ∷ []) b (tt, tt) a
