-- ===== src/Messaging/Broker/Publish/Targets.antt =====
-- Whom src/messaging/stomp.cpp sends a message.
use novaboot.Base.{
  ℕ, zero, suc, ◌+◌, ◌-◌, ◌%◌, ◌^◌, ◌≤◌, ◌<◌, ◌≡◌, refl, sym, ap, ◌∙◌, inl, inr, true, false, List,
  [], ◌∷◌, some, leb, leb→le, arith, length, to_string, get_elem?, Text, text, starts_with,
  Bool-cases, Option-cases, Exists,
}
use novaboot.Base.Dict
use native.Mathlib.Nat.{mod-lt, mod-add-mod, mod-eq_of_lt, add-mod_right}
use novaboot.WebSocket.Registry.{Store, handle_active}
use novaboot.Messaging.Broker.{Subscription, SimpleBroker}
use novaboot.Messaging.Broker.Publish.{targeted, pick, cursor_or_zero, claim}

-- Every place in a ring is reached from any cursor in fewer rounds than the ring is long.
ring_offset : (cursor n i : ℕ) → i < n → (k : ℕ) × (k < n) × ((cursor + k) % n ≡ i)
ring_offset cursor n i h =
    let below = mod-lt cursor {m = n} (omega arith) in
    elim (Bool-cases (leb (cursor % n) i)) [
      | inl ahead ↦
          let ahead' = leb→le (cursor % n) i ahead in
          let reach : cursor % n + (i - cursor % n) ≡ i = omega arith in
          (
            i - cursor % n,
            omega arith,
            sym (mod-add-mod cursor n (i - cursor % n)) ∙ ap (λ t. t % n) reach ∙ mod-eq_of_lt h,
          )
      | inr behind ↦
          let behind' : i < cursor % n = ground arith in
          let reach : cursor % n + (i + n - cursor % n) ≡ i + n = omega arith in
          (
            i + n - cursor % n,
            omega arith,
            sym (mod-add-mod cursor n (i + n - cursor % n))
                ∙ ap (λ t. t % n) reach
                ∙ add-mod_right i n
                ∙ mod-eq_of_lt h,
          )
    ]

get_elem?-Exists :
    {A : Type 0} (xs : List A) (i : ℕ) (x : A) → get_elem? xs i ≡ some x → Exists (λ y. y ≡ x) xs
get_elem?-Exists [] i x e = absurd (cc e)
get_elem?-Exists (y ∷ xs) zero x e = inl (cc e)
get_elem?-Exists (y ∷ xs) (suc i) x e = inr (get_elem?-Exists xs i x e)

Exists-get_elem? :
    {A : Type 0} (P : A → Type 0) (xs : List A)
    → Exists P xs
    → (i : ℕ) × (x : A) × (i < length xs) × (get_elem? xs i ≡ some x) × P x
Exists-get_elem? P [] p = absurd p
Exists-get_elem? P (x ∷ xs) (inl p) = (0, x, omega arith, refl, p)
Exists-get_elem? P (x ∷ xs) (inr p) =
    let (i, y, l, e, q) = Exists-get_elem? P xs p in (suc i, y, omega arith, e, q)

-- The one subscription that was picked, which is active.
pub record Picked (store : Store) (ss picked : List Subscription) : Type 0 where
  pub target : Subscription
  pub alone : picked ≡ target ∷ []
  pub ready : handle_active target.session store ≡ true
  pub member : Exists (λ s. s ≡ target) ss

module _ (store : Store) (ss : List Subscription) (cursor : ℕ) where
  pick-Picked :
      (offset rounds k : ℕ) (s : Subscription)
      → offset ≤ k
      → k < offset + rounds
      → get_elem? ss ((cursor + k) % 2 ^ 64 % length ss) ≡ some s
      → handle_active s.session store ≡ true
      → Picked store ss (pick store ss cursor offset rounds)
  unfolding pick
  pick-Picked offset zero k s l h e a = absurd (omega arith)
  pick-Picked offset (suc rounds) k s l h e a =
      elim (Option-cases (get_elem? ss ((cursor + offset) % 2 ^ 64 % length ss))) [
        | inl out ↦ rw out (
            pick-Picked (offset + 1) rounds k s (later (λ k'. cc (out, e, at_same k')))
              (omega arith) e a)
        | inr (t, found) ↦ rw found (elim (Bool-cases (handle_active t.session store)) [
          | inl ready ↦ rw ready (record {
            target = t;
            alone = refl;
            ready = ready;
            member = get_elem?-Exists ss ((cursor + offset) % 2 ^ 64 % length ss) t found;
          })
          | inr gone ↦ rw gone (
              pick-Picked (offset + 1) rounds k s (later (λ k'. clash t found gone (at_same k')))
                (omega arith) e a)
        ])
      ]
    where
      at_same :
          offset ≡ k
          → get_elem? ss ((cursor + offset) % 2 ^ 64 % length ss)
            ≡ get_elem? ss ((cursor + k) % 2 ^ 64 % length ss)
      at_same o = ap (λ m. get_elem? ss ((cursor + m) % 2 ^ 64 % length ss)) o

      clash :
          (t : Subscription)
          → get_elem? ss ((cursor + offset) % 2 ^ 64 % length ss) ≡ some t
          → handle_active t.session store ≡ false
          → get_elem? ss ((cursor + offset) % 2 ^ 64 % length ss)
            ≡ get_elem? ss ((cursor + k) % 2 ^ 64 % length ss)
          → ⊥
      clash t found gone same_place =
          let ts : t ≡ s = cc (found, e, same_place) in
          cc (a, gone, ap (λ u. handle_active u.session store) ts)

      later : (offset ≡ k → ⊥) → offset + 1 ≤ k
      later ne = omega arith

-- A message to a queue with an active subscription, whose cursor does not wrap around 2^64 in this
-- round, has exactly one target: an active subscription to the queue.
pub claim-queue :
    (destination : Text) (store : Store) (b : SimpleBroker) (ss : List Subscription)
    → starts_with (text "/queue/") destination ≡ true
    → Dict.lookup destination b.subscriptions ≡ some ss
    → cursor_or_zero (Dict.lookup destination b.queue_cursors) + length ss ≤ 2 ^ 64
    → Exists (λ s. handle_active s.session store ≡ true) ss
    → (targets : List Subscription) × ((claim destination store b).1
        ≡ targeted targets (to_string b.next_message_id))
      × Picked store ss targets
unfolding claim
claim-queue destination store b ss queue found wraps somebody =
    let cursor = cursor_or_zero (Dict.lookup destination b.queue_cursors) in
    let (i, s, below, e, ready) =
      Exists-get_elem? (λ s. handle_active s.session store ≡ true) ss somebody in
    let (k, round, place) = ring_offset cursor (length ss) i below in
    let fits : (cursor + k) % 2 ^ 64 ≡ cursor + k = omega arith in
    (
      pick store ss cursor 0 (length ss),
      rw (found, queue) refl,
      pick-Picked store ss cursor 0 (length ss) k s (omega arith) (omega arith)
          (ap (λ m. get_elem? ss (m % length ss)) fits ∙ ap (get_elem? ss) place ∙ e) ready,
    )
