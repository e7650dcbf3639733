-- ===== src/Messaging/Broker/Kept.antt =====
-- The subscriptions of the broker of src/messaging/stomp.cpp, under each change of them.
use novaboot.Base.{
  ℕ, ◌≡◌, inl, inr, Bool, true, false, List, [], ◌∷◌, arith, erase_if, Text, same, same_sym,
  Bool-cases, All, All-erase_if,
}
use novaboot.Base.Dict
use novaboot.Messaging.Acks.Order.{NonEmpty}
use novaboot.Messaging.Broker.{
  Subscription, Subscriptions, supported_destination, is_subscription, place, list_or_empty,
  unless_empty, erase_subscriptions,
}

-- No two subscriptions to a destination are of one session under one identifier.
abbrev pub Unique : List Subscription → Type 0
Unique [] = Unit
Unique (s ∷ ss) = All (λ t. is_subscription s.session s.id t ≡ false) ss × Unique ss

-- An entry has a supported destination and subscriptions.
abbrev pub Kept : Subscriptions → Type 0
Kept = All (λ e. (supported_destination e.0 ≡ true) × NonEmpty e.1 × Unique e.1)

session_of : (s t : Subscription) → is_subscription s.session s.id t ≡ true → t.session ≡ s.session
session_of s t h = ground arith

is_subscription_sym :
    (s t : Subscription)
    → is_subscription s.session s.id t ≡ false
    → is_subscription t.session t.id s ≡ false
is_subscription_sym s t h = ground (arith, same_sym s.id t.id)

place-All :
    (x : ℕ) (i : Text) (new : Subscription) (ss : List Subscription)
    → is_subscription x i new ≡ false
    → All (λ t. is_subscription x i t ≡ false) ss
    → All (λ t. is_subscription x i t ≡ false) (place new ss)
place-All x i new [] h a = (h, tt)
place-All x i new (s ∷ ss) h (p, a) = elim (Bool-cases (is_subscription new.session new.id s)) [
  | inl hit ↦ rw hit (rw (← session_of new s hit) p, a)
  | inr miss ↦ rw miss (p, place-All x i new ss h a)
]

pub Unique-place : (new : Subscription) (ss : List Subscription) → Unique ss → Unique (place new ss)
Unique-place new [] u = (tt, tt)
Unique-place new (s ∷ ss) (a, u) = elim (Bool-cases (is_subscription new.session new.id s)) [
  | inl hit ↦ rw hit (rw (← session_of new s hit) a, u)
  | inr miss ↦
      rw miss
        (place-All s.session s.id new ss (is_subscription_sym new s miss) a, Unique-place new ss u)
]

pub Unique-erase_if :
    (gone : Subscription → Bool) (ss : List Subscription) → Unique ss → Unique (erase_if gone ss)
Unique-erase_if gone [] u = tt
Unique-erase_if gone (s ∷ ss) (a, u) = elim (Bool-cases (gone s)) [
  | inl left ↦ rw left (Unique-erase_if gone ss u)
  | inr stays ↦ rw stays (
    All-erase_if (λ t. is_subscription s.session s.id t ≡ false) gone ss a,
    Unique-erase_if gone ss u,
  )
]

Kept-unless_empty :
    (destination : Text) (ss : List Subscription) (rest : Subscriptions)
    → supported_destination destination ≡ true
    → Unique ss
    → Kept rest
    → Kept (unless_empty destination ss rest)
Kept-unless_empty destination [] rest s u k = k
Kept-unless_empty destination (t ∷ ss) rest s u k = ((s, tt, u), k)

pub Kept-erase_subscriptions :
    (gone : Subscription → Bool) (subs : Subscriptions)
    → Kept subs
    → Kept (erase_subscriptions gone subs)
Kept-erase_subscriptions gone [] k = tt
Kept-erase_subscriptions gone ((d, ss) ∷ subs) ((s, ne, u), k) =
    Kept-unless_empty d (erase_if gone ss) (erase_subscriptions gone subs) s
      (Unique-erase_if gone ss u) (Kept-erase_subscriptions gone subs k)

pub Kept-assign :
    (destination : Text) (ss : List Subscription) (subs : Subscriptions)
    → supported_destination destination ≡ true
    → NonEmpty ss
    → Unique ss
    → Kept subs
    → Kept (Dict.assign destination ss subs)
Kept-assign destination ss [] s ne u k = ((s, ne, u), tt)
Kept-assign destination ss ((d, old) ∷ subs) s ne u (this, k) =
    elim (Bool-cases (same d destination)) [
      | inl hit ↦ rw hit ((this.0, ne, u), k)
      | inr miss ↦ rw miss (this, Kept-assign destination ss subs s ne u k)
    ]

pub lookup-Unique :
    (destination : Text) (subs : Subscriptions)
    → Kept subs
    → Unique (list_or_empty (Dict.lookup destination subs))
lookup-Unique destination [] k = tt
lookup-Unique destination ((d, ss) ∷ subs) (this, k) = elim (Bool-cases (same d destination)) [
  | inl hit ↦ rw hit this.2
  | inr miss ↦ rw miss (lookup-Unique destination subs k)
]

pub NonEmpty-place : (new : Subscription) (ss : List Subscription) → NonEmpty (place new ss)
NonEmpty-place new [] = tt
NonEmpty-place new (s ∷ ss) = elim (Bool-cases (is_subscription new.session new.id s)) [
  | inl hit ↦ rw hit tt
  | inr miss ↦ rw miss tt
]
