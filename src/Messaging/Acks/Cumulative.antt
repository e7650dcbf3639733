-- ===== src/Messaging/Acks/Cumulative.antt =====
-- Which deliveries an acknowledgement of src/messaging/stomp.cpp settles.
use novaboot.Base.{
  ℕ, ◌<◌, ◌≡◌, refl, ap, ◌∙◌, inl, inr, true, false, List, [], ◌∷◌, ◌++◌, none, some, if◌then◌else◌,
  leb, ◌==◌, arith, Text, same, Bool-cases, All,
}
use novaboot.Messaging.Acks.{
  PendingDelivery, PendingAcks, find, assign, erase, find_ack, erase_up_to, erase_ack, is_client,
  without_acknowledged, store_pending, acknowledge, or_empty,
}

-- The deliveries that wait for a session.
abbrev pub pending : ℕ → PendingAcks → List PendingDelivery
pending id acks = or_empty (find id acks)

-- Deliveries in the order in which they were made.
abbrev pub Increasing : List PendingDelivery → Type 0
Increasing [] = Unit
Increasing (d ∷ ds) = All (λ e. d.sequence < e.sequence) ds × Increasing ds

-- None of the deliveries has this identifier.
abbrev pub Unmatched : Text → List PendingDelivery → Type 0
Unmatched ack ds = All (λ e. same e.ack_id ack ≡ false) ds

find_ack-append :
    (ack : Text) (front back : List PendingDelivery) (d : PendingDelivery)
    → Unmatched ack front
    → same d.ack_id ack ≡ true
    → find_ack ack (front ++ d ∷ back) ≡ some d
find_ack-append ack [] back d u h = rw h refl
find_ack-append ack (e ∷ front) back d (miss, u) h = rw miss (find_ack-append ack front back d u h)

erase_ack-append :
    (ack : Text) (front back : List PendingDelivery) (d : PendingDelivery)
    → Unmatched ack front
    → same d.ack_id ack ≡ true
    → erase_ack ack (front ++ d ∷ back) ≡ front ++ back
erase_ack-append ack [] back d u h = rw h refl
erase_ack-append ack (e ∷ front) back d (miss, u) h =
    rw miss (ap (◌∷◌ e) (erase_ack-append ack front back d u h))

erase_up_to-later :
    (n : ℕ) (ds : List PendingDelivery) → All (λ e. n < e.sequence) ds → erase_up_to n ds ≡ ds
erase_up_to-later n [] a = refl
erase_up_to-later n (d ∷ ds) (h, a) =
    let later : leb d.sequence n ≡ false = ground arith in
    rw later (ap (◌∷◌ d) (erase_up_to-later n ds a))

All_middle :
    (n : ℕ) (front back : List PendingDelivery) (d : PendingDelivery)
    → All (λ e. n < e.sequence) (front ++ d ∷ back)
    → n < d.sequence
All_middle n [] back d a = a.0
All_middle n (e ∷ front) back d (h, a) = All_middle n front back d a

erase_up_to-append :
    (front back : List PendingDelivery) (d : PendingDelivery)
    → Increasing (front ++ d ∷ back)
    → erase_up_to d.sequence (front ++ d ∷ back) ≡ back
erase_up_to-append [] back d (h, i) =
    let this : leb d.sequence d.sequence ≡ true = ground arith in
    rw this (erase_up_to-later d.sequence back h)
erase_up_to-append (e ∷ front) back d (h, i) =
    let before = All_middle e.sequence front back d h in
    let earlier : leb e.sequence d.sequence ≡ true = ground arith in
    rw earlier (erase_up_to-append front back d i)

find-assign :
    (id : ℕ) (ds : List PendingDelivery) (acks : PendingAcks)
    → find id (assign id ds acks) ≡ some ds
find-assign id ds [] = ground arith
find-assign id ds ((i, old) ∷ acks) = elim (Bool-cases (i == id)) [
  | inl hit ↦ rw (hit, hit) refl
  | inr miss ↦ rw (miss, miss) (find-assign id ds acks)
]

find-erase : (id : ℕ) (acks : PendingAcks) → find id (erase id acks) ≡ none
find-erase id [] = refl
find-erase id ((i, old) ∷ acks) = elim (Bool-cases (i == id)) [
  | inl hit ↦ rw hit (find-erase id acks)
  | inr miss ↦ rw (miss, miss) (find-erase id acks)
]

pending-store_pending :
    (id : ℕ) (ds : List PendingDelivery) (acks : PendingAcks)
    → pending id (store_pending id ds acks) ≡ ds
pending-store_pending id [] acks = ap or_empty (find-erase id acks)
pending-store_pending id (d ∷ ds) acks = ap or_empty (find-assign id (d ∷ ds) acks)

-- Of deliveries that wait in the order of their sequence numbers, an acknowledgement finds the first
-- with its identifier and succeeds. In `client` mode it settles that delivery and all that were made
-- before it for the session, and otherwise that delivery alone.
pub acknowledge_lem :
    (id : ℕ) (ack : Text) (acks : PendingAcks) (front back : List PendingDelivery)
    (d : PendingDelivery)
    → find id acks ≡ some (front ++ d ∷ back)
    → Increasing (front ++ d ∷ back)
    → Unmatched ack front
    → same d.ack_id ack ≡ true
    → ((acknowledge id ack acks).1 ≡ true)
      × (pending id (acknowledge id ack acks).0
          ≡ (if is_client d.ack_mode then back else front ++ back))
unfolding acknowledge
acknowledge_lem id ack acks front back d waiting i u h =
    rw (waiting, find_ack-append ack front back d u h)
      (
        refl,
        pending-store_pending id (without_acknowledged ack (front ++ d ∷ back) d) acks
            ∙ rw (erase_up_to-append front back d i, erase_ack-append ack front back d u h) refl,
      )
