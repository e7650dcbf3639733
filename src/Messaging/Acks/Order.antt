-- ===== src/Messaging/Acks/Order.antt =====
-- The order of the deliveries that wait in src/messaging/stomp.cpp, under each change of them.
use novaboot.Base.{
  ℕ, ◌+◌, ◌≤◌, ◌<◌, ◌≡◌, inl, inr, List, [], ◌∷◌, ◌++◌, Option, none, some, leb, ◌==◌, arith, Text,
  same, Bool-cases, Option-cases, All, All-append, All-map,
}
use novaboot.Messaging.Acks.{
  PendingDelivery, PendingAcks, find, assign, erase, find_ack, erase_up_to, erase_ack, is_client,
  without_acknowledged, store_pending, acknowledge, acknowledge_found, or_empty, push_pending,
}
use novaboot.Messaging.Acks.Cumulative.{Increasing}

abbrev pub NonEmpty {ℓ} : {A : Type ℓ} → List A → Type 0
NonEmpty [] = ⊥
NonEmpty (x ∷ xs) = Unit

-- Deliveries in order, all with sequence numbers below this one.
abbrev pub InOrder : ℕ → List PendingDelivery → Type 0
InOrder next ds = Increasing ds × All (λ d. d.sequence < next) ds

-- No session waits for nothing, and each has its deliveries in order.
abbrev pub Waiting : ℕ → PendingAcks → Type 0
Waiting next acks = All (λ e. NonEmpty e.1 × InOrder next e.1) acks

Increasing-snoc :
    (next : ℕ) (ds : List PendingDelivery) (d : PendingDelivery)
    → InOrder next ds
    → d.sequence ≡ next
    → Increasing (ds ++ d ∷ [])
Increasing-snoc next [] d o e = (tt, tt)
Increasing-snoc next (c ∷ ds) d ((i, is), (b, bs)) e = (
  All-append (λ e'. c.sequence < e'.sequence) ds (d ∷ []) i (omega arith, tt),
  Increasing-snoc next ds d (is, bs) e,
)

InOrder-weaken : (n m : ℕ) → n ≤ m → (ds : List PendingDelivery) → InOrder n ds → InOrder m ds
InOrder-weaken n m h ds (i, b) =
    (i, All-map (λ d. d.sequence < n) (λ d. d.sequence < m) (λ d l. omega arith) ds b)

Waiting-weaken : (n m : ℕ) → n ≤ m → (acks : PendingAcks) → Waiting n acks → Waiting m acks
Waiting-weaken n m h [] w = tt
Waiting-weaken n m h ((i, ds) ∷ acks) ((ne, o), w) =
    ((ne, InOrder-weaken n m h ds o), Waiting-weaken n m h acks w)

Waiting-assign :
    (n id : ℕ) (ds : List PendingDelivery) (acks : PendingAcks)
    → NonEmpty ds
    → InOrder n ds
    → Waiting n acks
    → Waiting n (assign id ds acks)
Waiting-assign n id ds [] ne o w = ((ne, o), tt)
Waiting-assign n id ds ((i, old) ∷ acks) ne o (this, w) = elim (Bool-cases (i == id)) [
  | inl hit ↦ rw hit ((ne, o), w)
  | inr miss ↦ rw miss (this, Waiting-assign n id ds acks ne o w)
]

pub Waiting-erase : (n id : ℕ) (acks : PendingAcks) → Waiting n acks → Waiting n (erase id acks)
Waiting-erase n id [] w = tt
Waiting-erase n id ((i, old) ∷ acks) (this, w) = elim (Bool-cases (i == id)) [
  | inl hit ↦ rw hit (Waiting-erase n id acks w)
  | inr miss ↦ rw miss (this, Waiting-erase n id acks w)
]

pub find-InOrder :
    (n id : ℕ) (acks : PendingAcks) → Waiting n acks → InOrder n (or_empty (find id acks))
find-InOrder n id [] w = (tt, tt)
find-InOrder n id ((i, ds) ∷ acks) (this, w) = elim (Bool-cases (i == id)) [
  | inl hit ↦ rw hit this.1
  | inr miss ↦ rw miss (find-InOrder n id acks w)
]

erase_up_to-All :
    (P : PendingDelivery → Type 0) (n : ℕ) (ds : List PendingDelivery)
    → All P ds
    → All P (erase_up_to n ds)
erase_up_to-All P n [] a = tt
erase_up_to-All P n (d ∷ ds) (p, a) = elim (Bool-cases (leb d.sequence n)) [
  | inl gone ↦ rw gone (erase_up_to-All P n ds a)
  | inr kept ↦ rw kept (p, erase_up_to-All P n ds a)
]

erase_ack-All :
    (P : PendingDelivery → Type 0) (ack : Text) (ds : List PendingDelivery)
    → All P ds
    → All P (erase_ack ack ds)
erase_ack-All P ack [] a = tt
erase_ack-All P ack (d ∷ ds) (p, a) = elim (Bool-cases (same d.ack_id ack)) [
  | inl gone ↦ rw gone a
  | inr kept ↦ rw kept (p, erase_ack-All P ack ds a)
]

Increasing-erase_up_to :
    (n : ℕ) (ds : List PendingDelivery) → Increasing ds → Increasing (erase_up_to n ds)
Increasing-erase_up_to n [] i = tt
Increasing-erase_up_to n (d ∷ ds) (l, i) = elim (Bool-cases (leb d.sequence n)) [
  | inl gone ↦ rw gone (Increasing-erase_up_to n ds i)
  | inr kept ↦
      rw kept (erase_up_to-All (λ e. d.sequence < e.sequence) n ds l, Increasing-erase_up_to n ds i)
]

Increasing-erase_ack :
    (ack : Text) (ds : List PendingDelivery) → Increasing ds → Increasing (erase_ack ack ds)
Increasing-erase_ack ack [] i = tt
Increasing-erase_ack ack (d ∷ ds) (l, i) = elim (Bool-cases (same d.ack_id ack)) [
  | inl gone ↦ rw gone i
  | inr kept ↦
      rw kept (erase_ack-All (λ e. d.sequence < e.sequence) ack ds l, Increasing-erase_ack ack ds i)
]

InOrder-without_acknowledged :
    (n : ℕ) (ack : Text) (ds : List PendingDelivery) (d : PendingDelivery)
    → InOrder n ds
    → InOrder n (without_acknowledged ack ds d)
InOrder-without_acknowledged n ack ds d (i, b) = elim (Bool-cases (is_client d.ack_mode)) [
  | inl cumulative ↦ rw cumulative (
    Increasing-erase_up_to d.sequence ds i,
    erase_up_to-All (λ e. e.sequence < n) d.sequence ds b,
  )
  | inr alone ↦
      rw alone (Increasing-erase_ack ack ds i, erase_ack-All (λ e. e.sequence < n) ack ds b)
]

Waiting-store_pending :
    (n id : ℕ) (ds : List PendingDelivery) (acks : PendingAcks)
    → InOrder n ds
    → Waiting n acks
    → Waiting n (store_pending id ds acks)
Waiting-store_pending n id [] acks o w = Waiting-erase n id acks w
Waiting-store_pending n id (d ∷ ds) acks o w = Waiting-assign n id (d ∷ ds) acks tt o w

Waiting-acknowledge_found :
    (n id : ℕ) (ack : Text) (ds : List PendingDelivery) (acks : PendingAcks)
    (found : Option PendingDelivery)
    → InOrder n ds
    → Waiting n acks
    → Waiting n (acknowledge_found id ack ds acks found).0
Waiting-acknowledge_found n id ack ds acks none o w = w
Waiting-acknowledge_found n id ack ds acks (some d) o w =
    Waiting-store_pending n id (without_acknowledged ack ds d) acks
      (InOrder-without_acknowledged n ack ds d o) w

pub Waiting-acknowledge :
    (n id : ℕ) (ack : Text) (acks : PendingAcks)
    → Waiting n acks
    → Waiting n (acknowledge id ack acks).0
unfolding acknowledge
Waiting-acknowledge n id ack acks w = elim (Option-cases (find id acks)) [
  | inl missing ↦ rw missing w
  | inr (ds, waiting) ↦ rw waiting (
      Waiting-acknowledge_found n id ack ds acks (find_ack ack ds)
        (rw waiting at (find-InOrder n id acks w)) w)
]

NonEmpty-snoc : (ds : List PendingDelivery) (d : PendingDelivery) → NonEmpty (ds ++ d ∷ [])
NonEmpty-snoc [] d = tt
NonEmpty-snoc (c ∷ ds) d = tt

-- A delivery with the next number keeps the order.
pub Waiting-push_pending :
    (n id : ℕ) (d : PendingDelivery) (acks : PendingAcks)
    → d.sequence ≡ n
    → Waiting n acks
    → Waiting (n + 1) (push_pending id d acks)
unfolding push_pending
Waiting-push_pending n id d acks e w =
    let old = or_empty (find id acks) in
    let o = find-InOrder n id acks w in
    Waiting-assign (n + 1) id (old ++ d ∷ []) acks (NonEmpty-snoc old d)
      (
        Increasing-snoc n old d o e,
        All-append (λ c. c.sequence < n + 1) old (d ∷ [])
            (InOrder-weaken n (n + 1) (omega arith) old o).1 (omega arith, tt),
      )
      (Waiting-weaken n (n + 1) (omega arith) acks w)
