-- ===== src/WebSocket/Registry/Broadcast.antt =====
-- Whom a broadcast of `SessionRegistry` in src/websocket/websocket.cpp reaches.
use novaboot.Base.{
  ℕ, ◌≡◌, refl, ap, ◌∙◌, inl, inr, true, false, ◌&&◌, not, [], ◌∷◌, Option, none, some,
  if◌then◌else◌, ◌==◌, ==_iff, arith, Bool-cases, Option-cases,
}
use mathlib.Core.Path.{subst}
use novaboot.WebSocket.Shared.{SharedSession}
use novaboot.WebSocket.Registry.{
  Store, lock, update, active_found, handle_active, Request, perform, request, Registry, member,
  register, unregister, broadcast,
}

-- Each session is registered once.
abbrev pub Distinct : Registry → Type 0
Distinct [] = Unit
Distinct (i ∷ ids) = (member i ids ≡ false) × Distinct ids

lock-update :
    (i j : ℕ) (new : SharedSession) (store : Store)
    → i == j ≡ false
    → lock j (update i new store) ≡ lock j store
lock-update i j new [] d = refl
lock-update i j new ((k, s) ∷ store) d = elim (Bool-cases (k == i)) [
  | inl this ↦ let not_j : k == j ≡ false = ground arith in rw (this, not_j) refl
  | inr other ↦ elim (Bool-cases (k == j)) [
    | inl hit ↦ rw (other, hit) refl
    | inr miss ↦ rw (other, miss) (lock-update i j new store d)
  ]
]

request-other :
    (i j : ℕ) (r : Request) (store : Store)
    → i == j ≡ false
    → lock j (request i r store).0 ≡ lock j store
unfolding request
request-other i j r store d = elim (Option-cases (lock i store)) [
  | inl gone ↦ rw gone refl
  | inr (s, there) ↦ rw there (lock-update i j (perform r s).0 store d)
]

handle_active-lock :
    (i : ℕ) (a b : Store) → lock i a ≡ lock i b → handle_active i a ≡ handle_active i b
unfolding handle_active
handle_active-lock i a b e = ap active_found e

-- The two cases of a round.
broadcast-skip :
    (r : Request) (i : ℕ) (ids : Registry) (store : Store)
    → handle_active i store ≡ false
    → broadcast r (i ∷ ids) store ≡ broadcast r ids store
unfolding broadcast
broadcast-skip r i ids store h = rw h refl

broadcast-round :
    (r : Request) (i : ℕ) (ids : Registry) (store : Store)
    → handle_active i store ≡ true
    → ((broadcast r (i ∷ ids) store).0 ≡ i ∷ (broadcast r ids (request i r store).0).0)
      × ((broadcast r (i ∷ ids) store).1.0 ≡ (broadcast r ids (request i r store).0).1.0)
unfolding broadcast
broadcast-round r i ids store h = rw h (refl, refl)

member_cons : (j i : ℕ) (ids : Registry) → i == j ≡ false → member j (i ∷ ids) ≡ member j ids
member_cons j i ids d = rw d refl

-- A session that is not registered is left alone.
broadcast-stranger :
    (r : Request) (j : ℕ) (ids : Registry) (store : Store)
    → member j ids ≡ false
    → lock j (broadcast r ids store).1.0 ≡ lock j store
broadcast-stranger r j [] store m = unfold broadcast in refl
broadcast-stranger r j (i ∷ ids) store m = elim (Bool-cases (i == j)) [
  | inl this ↦ absurd (cc (rw this at m))
  | inr other ↦
      let m' = rw other at m in
      elim (Bool-cases (handle_active i store)) [
        | inr idle ↦ rw (broadcast-skip r i ids store idle) (broadcast-stranger r j ids store m')
        | inl running ↦
            ap (lock j) (broadcast-round r i ids store running).1
            ∙ broadcast-stranger r j ids (request i r store).0 m'
            ∙ request-other i j r store other
      ]
]

-- A session, if it exists, after a request.
abbrev pub served : Request → Option SharedSession → Option SharedSession
served r none = none
served r (some s) = some (perform r s).0

lock-update_self :
    (j : ℕ) (s new : SharedSession) (store : Store)
    → lock j store ≡ some s
    → lock j (update j new store) ≡ some new
lock-update_self j s new [] e = absurd (cc e)
lock-update_self j s new ((k, t) ∷ store) e = elim (Bool-cases (k == j)) [
  | inl hit ↦ rw (hit, hit) refl
  | inr miss ↦ rw (miss, miss) (lock-update_self j s new store (rw miss at e))
]

lock-request :
    (j : ℕ) (r : Request) (store : Store) → lock j (request j r store).0 ≡ served r (lock j store)
unfolding request
lock-request j r store = elim (Option-cases (lock j store)) [
  | inl gone ↦ rw gone gone
  | inr (s, there) ↦ rw there (lock-update_self j s (perform r s).0 store there)
]

-- What has become of one session: it got the request if it was active, and was left alone if not.
abbrev pub Reached : Request → ℕ → Registry → Store → Type 0
Reached r j ids store =
    lock j (broadcast r ids store).1.0
    ≡ (if handle_active j store then served r (lock j store) else lock j store)

Reached-first :
    (r : Request) (i : ℕ) (ids : Registry) (store : Store)
    → member i ids ≡ false
    → Reached r i (i ∷ ids) store
Reached-first r i ids store once = elim (Bool-cases (handle_active i store)) [
  | inr idle ↦ rw (broadcast-skip r i ids store idle, idle) (broadcast-stranger r i ids store once)
  | inl running ↦ rw running (
      ap (lock i) (broadcast-round r i ids store running).1
      ∙ broadcast-stranger r i ids (request i r store).0 once
      ∙ lock-request i r store)
]

broadcast-Reached :
    (r : Request) (j : ℕ) (ids : Registry) (store : Store)
    → Distinct ids
    → member j ids ≡ true
    → Reached r j ids store
broadcast-Reached r j [] store d m = absurd (cc m)
broadcast-Reached r j (i ∷ ids) store (once, d) m = elim (Bool-cases (i == j)) [
  | inl this ↦
      let is_j = (==_iff i j).0 this in
      subst (λ k. Reached r k (i ∷ ids) store) is_j (Reached-first r i ids store once)
  | inr other ↦
      let m' = rw other at m in
      elim (Bool-cases (handle_active i store)) [
        | inr idle ↦ rw (broadcast-skip r i ids store idle) (broadcast-Reached r j ids store d m')
        | inl running ↦
            let same_lock = request-other i j r store other in
            ap (lock j) (broadcast-round r i ids store running).1
            ∙ broadcast-Reached r j ids (request i r store).0 d m'
            ∙ rw (handle_active-lock j (request i r store).0 store same_lock, same_lock) refl
      ]
]

-- What is left of a registry: those that were active, in order.
abbrev pub still_active : Store → Registry → Registry
still_active store [] = []
still_active store (i ∷ ids) =
    let rest = still_active store ids in if handle_active i store then i ∷ rest else rest

still_active-lock :
    (a b : Store) (ids : Registry)
    → ((j : ℕ) → member j ids ≡ true → lock j a ≡ lock j b)
    → still_active a ids ≡ still_active b ids
still_active-lock a b [] e = refl
still_active-lock a b (i ∷ ids) e =
    rw
      (
        handle_active-lock i a b (e i (ground arith)),
        still_active-lock a b ids (λ j m. e j (ground arith)),
      )
      refl

members_apart :
    (i j : ℕ) (ids : Registry) → member i ids ≡ false → member j ids ≡ true → i == j ≡ false
members_apart i j ids out inside = elim (Bool-cases (i == j)) [
  | inr other ↦ other
  | inl this ↦ let is_j = (==_iff i j).0 this in absurd (cc (is_j, out, inside))
]

broadcast-left :
    (r : Request) (ids : Registry) (store : Store)
    → Distinct ids
    → (broadcast r ids store).0 ≡ still_active store ids
broadcast-left r [] store d = unfold broadcast in refl
broadcast-left r (i ∷ ids) store (once, d) = elim (Bool-cases (handle_active i store)) [
  | inr idle ↦ rw (broadcast-skip r i ids store idle, idle) (broadcast-left r ids store d)
  | inl running ↦
      (broadcast-round r i ids store running).0
      ∙ rw running (
          ap (◌∷◌ i) (
            broadcast-left r ids (request i r store).0 d
            ∙ still_active-lock (request i r store).0 store ids
                (λ j m. request-other i j r store (members_apart i j ids once m))))
]

one_session :
    (r : Request) (j : ℕ) (ids : Registry) (store : Store)
    → Distinct ids
    → lock j (broadcast r ids store).1.0
      ≡ (if member j ids && handle_active j store then served r (lock j store) else lock j store)
one_session r j ids store d = elim (Bool-cases (member j ids)) [
  | inl known ↦ rw known (broadcast-Reached r j ids store d known)
  | inr stranger ↦ rw stranger (broadcast-stranger r j ids store stranger)
]

-- Where each session is registered once, a broadcast reaches every registered session that is
-- active once and no other session, and leaves registered exactly the sessions that were active.
pub broadcast_lem :
    (r : Request) (ids : Registry) (store : Store)
    → Distinct ids
    → ((j : ℕ)
        → lock j (broadcast r ids store).1.0 ≡ (
            if member j ids && handle_active j store
            then served r (lock j store)
            else lock j store))
      × ((broadcast r ids store).0 ≡ still_active store ids)
broadcast_lem r ids store d = (λ j. one_session r j ids store d, broadcast-left r ids store d)

member-unregister :
    (i j : ℕ) (ids : Registry) → member j ids ≡ false → member j (unregister i ids) ≡ false
unfolding unregister
member-unregister i j [] h = refl
member-unregister i j (k ∷ ids) h = elim (Bool-cases (k == j)) [
  | inl hit ↦ absurd (cc (rw hit at h))
  | inr miss ↦ elim (Bool-cases (k == i)) [
    | inl this ↦ rw this (member-unregister i j ids (rw miss at h))
    | inr other ↦ rw (other, miss) (member-unregister i j ids (rw miss at h))
  ]
]

unregister-Distinct : (i : ℕ) (ids : Registry) → Distinct ids → Distinct (unregister i ids)
unfolding unregister
unregister-Distinct i [] d = tt
unregister-Distinct i (k ∷ ids) (once, d) = elim (Bool-cases (k == i)) [
  | inl this ↦ rw this (unregister-Distinct i ids d)
  | inr other ↦ rw other (member-unregister i k ids once, unregister-Distinct i ids d)
]

register-Distinct :
    (i : ℕ) (store : Store) (ids : Registry) → Distinct ids → Distinct (register i store ids)
unfolding register
register-Distinct i store ids d = elim (Bool-cases (i == 0)) [
  | inl nobody ↦ rw nobody d
  | inr somebody ↦ elim (Bool-cases (not (handle_active i store))) [
    | inl idle ↦ rw (somebody, idle) d
    | inr running ↦ elim (Bool-cases (member i ids)) [
      | inl known ↦ rw (somebody, running, known) d
      | inr new ↦ rw (somebody, running, new) (new, d)
    ]
  ]
]

-- In a registry where each session stands once, each still stands once after any registration and
-- after any removal.
Distinct-kept :
    (i : ℕ) (store : Store) (ids : Registry)
    → Distinct ids
    → Distinct (register i store ids) × Distinct (unregister i ids)
Distinct-kept i store ids d = (register-Distinct i store ids d, unregister-Distinct i ids d)
