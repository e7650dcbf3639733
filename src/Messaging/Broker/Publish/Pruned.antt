-- ===== src/Messaging/Broker/Publish/Pruned.antt =====
-- What `publish` of src/messaging/stomp.cpp leaves when it drops the subscriptions of some sessions.
use novaboot.Base.{
  ℕ, ◌≡◌, refl, sym, ap, ◌∙◌, ◌⊎◌, inl, inr, Bool, true, false, List, [], ◌∷◌, erase_if, Text,
  Bool-cases, Exists, arith, ◌↔◌,
}
use novaboot.Messaging.Broker.{
  Subscription, Subscriptions, SimpleBroker, unless_empty, erase_subscriptions,
}
use novaboot.Messaging.Broker.Publish.{contains, prune}

abbrev pub IsIn : Subscription → List Subscription → Type 0
IsIn s = Exists (λ t. t ≡ s)

-- A subscription to this destination.
abbrev pub Listed : Text → Subscription → Subscriptions → Type 0
Listed destination s = Exists (λ e. (e.0 ≡ destination) × IsIn s e.1)

clash : (b : Bool) → b ≡ true → b ≡ false → ⊥
clash b on off = ground arith

module _ (gone : Subscription → Bool) (s : Subscription) where
  IsIn-erase_if :
      (ss : List Subscription) → IsIn s (erase_if gone ss) → IsIn s ss × (gone s ≡ false)
  IsIn-erase_if [] = λ h. absurd h
  IsIn-erase_if (t ∷ ss) = elim (Bool-cases (gone t)) [
    | inl out ↦ rw out (λ h. let (later, stays) = IsIn-erase_if ss h in (inr later, stays))
    | inr kept ↦ rw kept (λ h. elim h [
      | inl this ↦ (inl this, sym (ap gone this) ∙ kept)
      | inr rest ↦ let (later, stays) = IsIn-erase_if ss rest in (inr later, stays)
    ])
  ]

  erase_if-IsIn : (ss : List Subscription) → gone s ≡ false → IsIn s ss → IsIn s (erase_if gone ss)
  erase_if-IsIn [] stays h = absurd h
  erase_if-IsIn (t ∷ ss) stays h = elim (Bool-cases (gone t)) [
    | inl out ↦ rw out (elim h [
      | inl this ↦ absurd (clash (gone t) out (ap gone this ∙ stays))
      | inr later ↦ erase_if-IsIn ss stays later
    ])
    | inr kept ↦
        rw kept (elim h [ inl this ↦ inl this | inr later ↦ inr (erase_if-IsIn ss stays later) ])
  ]

module _ (destination : Text) (s : Subscription) where
  Listed-unless_empty :
      (d : Text) (ss : List Subscription) (rest : Subscriptions)
      → Listed destination s (unless_empty d ss rest)
      → ((d ≡ destination) × IsIn s ss) ⊎ Listed destination s rest
  Listed-unless_empty d [] rest h = inr h
  Listed-unless_empty d (t ∷ ss) rest h = h

  unless_empty-Listed :
      (d : Text) (ss : List Subscription) (rest : Subscriptions)
      → ((d ≡ destination) × IsIn s ss) ⊎ Listed destination s rest
      → Listed destination s (unless_empty d ss rest)
  unless_empty-Listed d [] rest (inl h) = absurd h.1
  unless_empty-Listed d [] rest (inr h) = h
  unless_empty-Listed d (t ∷ ss) rest h = h

  module _ (gone : Subscription → Bool) where
    Listed-erase_subscriptions :
        (subs : Subscriptions)
        → Listed destination s (erase_subscriptions gone subs)
        → Listed destination s subs × (gone s ≡ false)
    Listed-erase_subscriptions [] h = absurd h
    Listed-erase_subscriptions ((d, ss) ∷ rest) h =
        elim (Listed-unless_empty d (erase_if gone ss) (erase_subscriptions gone rest) h) [
          | inl (here, left) ↦
              let (was, stays) = IsIn-erase_if gone s ss left in (inl (here, was), stays)
          | inr later ↦ let (was, stays) = Listed-erase_subscriptions rest later in (inr was, stays)
        ]

    erase_subscriptions-Listed :
        (subs : Subscriptions)
        → gone s ≡ false
        → Listed destination s subs
        → Listed destination s (erase_subscriptions gone subs)
    erase_subscriptions-Listed [] stays h = absurd h
    erase_subscriptions-Listed ((d, ss) ∷ rest) stays h =
        unless_empty-Listed d (erase_if gone ss) (erase_subscriptions gone rest) (elim h [
          | inl (here, was) ↦ inl (here, erase_if-IsIn gone s ss stays was)
          | inr later ↦ inr (erase_subscriptions-Listed rest stays later)
        ])

  -- The subscriptions left are those of the other sessions.
  pub Listed-prune :
      (stale : List ℕ) (b : SimpleBroker)
      → Listed destination s (prune stale b).subscriptions
        ↔ (Listed destination s b.subscriptions × (contains s.session stale ≡ false))
  unfolding prune
  Listed-prune [] b = (λ h. (h, refl), λ h. h.0)
  Listed-prune (id ∷ ids) b =
      let gone : Subscription → Bool = λ t. contains t.session (id ∷ ids) in
      (
        Listed-erase_subscriptions gone b.subscriptions,
        λ h. erase_subscriptions-Listed gone b.subscriptions h.1 h.0,
      )
