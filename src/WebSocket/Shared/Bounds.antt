-- ===== src/WebSocket/Shared/Bounds.antt =====
-- What the calls on a `SharedSession` of src/websocket/websocket.cpp keep: the byte count, the
-- limit and the place of the close command; and the budget of a transport.
use novaboot.Base.{
  ℕ, ◌+◌, ◌-◌, ◌^◌, ◌≤◌, ◌<◌, ◌≡◌, refl, inl, inr, ◌↔◌, Bool, true, false, not, ◌||◌, List, [], ◌∷◌,
  ◌++◌, arith, if◌then◌else◌, ltb, Text, Bool-cases,
}
use mathlib.Core.Path.{subst}
use novaboot.WebSocket.Shared.{
  Limits, QueuedKind, queued_text, queued_binary, queued_close, QueuedCommand, SharedSession,
  new_shared, message_command, encoded_size, enqueue, enqueue_close, mark_closing, deactivate,
  take_commands, TransportBackpressure, try_reserve, release,
}

-- A call of one of the methods, by any thread.
pub data Call : Type 0 where
  call_text call_binary : (payload : Text) → Call
  call_close : (code : ℕ) (reason : Text) → Call
  call_mark_closing call_deactivate call_take_commands : Call

abbrev pub call : Call → SharedSession → SharedSession
call (call_text payload) s = (enqueue queued_text payload s).0
call (call_binary payload) s = (enqueue queued_binary payload s).0
call (call_close code reason) s = (enqueue_close code reason s).0
call call_mark_closing s = mark_closing s
call call_deactivate s = deactivate s
call call_take_commands s = (take_commands s).0

abbrev pub calls : List Call → SharedSession → SharedSession
calls [] s = s
calls (x ∷ xs) s = calls xs (call x s)

-- What a queue of commands counts for: a close counts for nothing.
abbrev command_size : QueuedKind → Text → ℕ
command_size queued_close payload = 0
command_size _ payload = encoded_size payload

abbrev pub queue_size : List QueuedCommand → ℕ
queue_size [] = 0
queue_size (q ∷ qs) = command_size q.kind q.payload + queue_size qs

-- The messages come first, and a close, if there is one, last and only while closing.
abbrev ClosesOr : QueuedKind → Bool → List QueuedCommand → Type 0 → Type 0
ClosesOr queued_close closing rest P = (closing ≡ true) × (rest ≡ [])
ClosesOr _ closing rest P = P

abbrev pub CloseLast : Bool → List QueuedCommand → Type 0
CloseLast closing [] = Unit
CloseLast closing (q ∷ qs) = ClosesOr q.kind closing qs (CloseLast closing qs)

abbrev pub Accounted : SharedSession → Type 0
Accounted s =
    (s.queued_bytes ≡ queue_size s.queued)
    × (s.queued_bytes ≤ s.limits.max_pending_send_bytes)
    × CloseLast s.closing s.queued

queue_size-append :
    (qs rs : List QueuedCommand) → queue_size (qs ++ rs) ≡ queue_size qs + queue_size rs
queue_size-append [] rs = omega arith
queue_size-append (q ∷ qs) rs = rw (queue_size-append qs rs) (omega arith)

ClosesOr-map :
    (k : QueuedKind) (closing : Bool) (qs rs : List QueuedCommand) (P Q : Type 0)
    → (P → Q)
    → ClosesOr k false qs P
    → ClosesOr k closing rs Q
ClosesOr-map queued_close closing qs rs P Q f h = absurd (cc h.0)
ClosesOr-map queued_text closing qs rs P Q f h = f h
ClosesOr-map queued_binary closing qs rs P Q f h = f h

-- One command more, at the end of a queue that holds messages only.
CloseLast-snoc :
    (closing : Bool) (qs : List QueuedCommand) (q : QueuedCommand)
    → CloseLast false qs
    → CloseLast closing (q ∷ [])
    → CloseLast closing (qs ++ q ∷ [])
CloseLast-snoc closing [] q h last = last
CloseLast-snoc closing (r ∷ qs) q h last =
    ClosesOr-map r.kind closing qs (qs ++ q ∷ []) _ _ (λ l. CloseLast-snoc closing qs q l last) h

ClosesOr-true :
    (k : QueuedKind) (closing : Bool) (qs : List QueuedCommand) (P Q : Type 0)
    → (P → Q)
    → ClosesOr k closing qs P
    → ClosesOr k true qs Q
ClosesOr-true queued_close closing qs P Q f h = (refl, h.1)
ClosesOr-true queued_text closing qs P Q f h = f h
ClosesOr-true queued_binary closing qs P Q f h = f h

CloseLast-true :
    (closing : Bool) (qs : List QueuedCommand) → CloseLast closing qs → CloseLast true qs
CloseLast-true closing [] h = tt
CloseLast-true closing (q ∷ qs) h =
    ClosesOr-true q.kind closing qs _ _ (CloseLast-true closing qs) h

CloseLast-closing :
    (closing closing' : Bool) (qs : List QueuedCommand)
    → closing ≡ closing'
    → CloseLast closing qs
    → CloseLast closing' qs
CloseLast-closing closing closing' qs e h = subst (λ c. CloseLast c qs) e h

-- Neither refused nor too much: the command joins the queue.
join-Accounted :
    (s : SharedSession) (q : QueuedCommand) (closing : Bool) (wakeups : ℕ)
    → Accounted s
    → s.closing ≡ false
    → s.queued_bytes + command_size q.kind q.payload ≤ s.limits.max_pending_send_bytes
    → CloseLast closing (q ∷ [])
    → Accounted (record s {
      queued = s.queued ++ q ∷ [];
      queued_bytes = s.queued_bytes + command_size q.kind q.payload;
      closing = closing;
      wakeups = wakeups;
    })
join-Accounted s q closing wakeups (counted, bound, shape) open_still fits last = (
  omega (arith, queue_size-append s.queued (q ∷ [])),
  fits,
  CloseLast-snoc closing s.queued q (CloseLast-closing s.closing false s.queued open_still shape)
      last,
)

orb-false_right : (a b : Bool) → a || b ≡ false → b ≡ false
orb-false_right true b h = absurd (cc h)
orb-false_right false b h = h

-- A message command, of either kind.
enqueue-Accounted :
    (k : QueuedKind) (payload : Text) (s : SharedSession)
    → command_size k payload ≡ encoded_size payload
    → ClosesOr k false [] Unit
    → Accounted s
    → Accounted (enqueue k payload s).0
unfolding enqueue
enqueue-Accounted k payload s size last (counted, bound, shape) =
    elim (Bool-cases (not s.is_active || s.closing)) [
      | inl gone ↦ rw gone (counted, bound, shape)
      | inr here ↦
          elim (Bool-cases
            (ltb s.limits.max_pending_send_bytes (s.queued_bytes + encoded_size payload))) [
              | inl much ↦ rw (here, much) (refl, omega arith, (refl, refl))
              | inr fits ↦
                  rw (here, fits, ← size)
                    (let still = orb-false_right (not s.is_active) s.closing here in
                      join-Accounted s (message_command k payload) s.closing
                        (if s.has_wakeup then s.wakeups + 1 else s.wakeups) (counted, bound, shape)
                        still (ground arith)
                        (ClosesOr-map k s.closing [] [] Unit Unit (λ x. x) last))
            ]
    ]

enqueue_close-Accounted :
    (code : ℕ) (reason : Text) (s : SharedSession)
    → Accounted s
    → Accounted (enqueue_close code reason s).0
unfolding enqueue_close
enqueue_close-Accounted code reason s (counted, bound, shape) =
    elim (Bool-cases (not s.is_active || s.closing)) [
      | inl gone ↦ rw gone (counted, bound, shape)
      | inr here ↦ rw here (
        omega (arith, queue_size-append s.queued (_ ∷ [])),
        bound,
        CloseLast-snoc true s.queued _
            (CloseLast-closing s.closing false s.queued
              (orb-false_right (not s.is_active) s.closing here) shape)
            (refl, refl),
      )
    ]

call-Accounted : (x : Call) (s : SharedSession) → Accounted s → Accounted (call x s)
call-Accounted (call_text payload) s h = enqueue-Accounted queued_text payload s refl tt h
call-Accounted (call_binary payload) s h = enqueue-Accounted queued_binary payload s refl tt h
call-Accounted (call_close code reason) s h = enqueue_close-Accounted code reason s h
call-Accounted call_mark_closing s (a, b, c) =
    unfold mark_closing in (a, b, CloseLast-true s.closing s.queued c)
call-Accounted call_deactivate s (a, b, c) = unfold deactivate in (refl, omega arith, tt)
call-Accounted call_take_commands s (a, b, c) = unfold take_commands in (refl, omega arith, tt)

calls-Accounted : (xs : List Call) (s : SharedSession) → Accounted s → Accounted (calls xs s)
calls-Accounted [] s h = h
calls-Accounted (x ∷ xs) s h = calls-Accounted xs (call x s) (call-Accounted x s h)

-- Whatever calls threads make on a new session, in any order: the counted bytes are those of the
-- queue, they stay within the limit, and a close command stands last, and only while closing.
pub calls-new_shared :
    (xs : List Call) (limits : Limits) (has_wakeup : Bool)
    → Accounted (calls xs (new_shared limits has_wakeup))
calls-new_shared xs limits has_wakeup =
    calls-Accounted xs (new_shared limits has_wakeup) (refl, omega arith, tt)

-- In a budget within its maximum, which is below 2^64, a reservation that is not forced is granted
-- exactly when it fits, leaves the budget within the maximum, and is undone by its release.
try_reserve_lem :
    (bytes : ℕ) (t : TransportBackpressure)
    → t.max_pending_bytes < 2 ^ 64
    → t.pending_bytes ≤ t.max_pending_bytes
    → (((try_reserve bytes false t).1 ≡ true) ↔ (t.pending_bytes + bytes ≤ t.max_pending_bytes))
      × ((try_reserve bytes false t).0.pending_bytes ≤ t.max_pending_bytes)
      × ((try_reserve bytes false t).1 ≡ true
          → (release bytes (try_reserve bytes false t).0).pending_bytes ≡ t.pending_bytes)
unfolding try_reserve release
try_reserve_lem bytes t small h =
    elim (Bool-cases
      (ltb t.max_pending_bytes bytes || ltb (t.max_pending_bytes - bytes) t.pending_bytes)) [
        | inl much ↦ rw much ((ground arith, ground arith), omega arith, λ e. absurd (cc e))
        | inr fits ↦ rw fits ((ground arith, ground arith), ground arith, λ e. ground arith)
      ]
