-- ===== src/WebSocket/Shared/Settling.antt =====
-- A `SharedSession` of src/websocket/websocket.cpp once it is closing.
use novaboot.Base.{
  ℕ, ◌≡◌, refl, ◌∙◌, ◌⊎◌, inl, inr, Bool, true, false, not, ◌||◌, List, [], ◌∷◌, Text,
}
use novaboot.WebSocket.Shared.{
  QueuedKind, queued_text, queued_binary, SharedSession, enqueue, enqueue_close, mark_closing,
  deactivate, take_commands,
}
use novaboot.WebSocket.Shared.Bounds.{
  Call, call_text, call_binary, call_close, call_mark_closing, call_deactivate, call_take_commands,
  call, calls,
}

-- Closing, with the queue as it was, or emptied.
abbrev pub Settled : SharedSession → SharedSession → Type 0
Settled s t = (t.closing ≡ true) × ((t.queued ≡ s.queued) ⊎ (t.queued ≡ []))

not_enqueued : (active closing : Bool) → closing ≡ true → not active || closing ≡ true
not_enqueued true closing h = h
not_enqueued false closing h = refl

enqueue-Settled :
    (k : QueuedKind) (payload : Text) (s : SharedSession)
    → s.closing ≡ true
    → Settled s (enqueue k payload s).0
unfolding enqueue
enqueue-Settled k payload s h = rw (not_enqueued s.is_active s.closing h) (h, inl refl)

enqueue_close-Settled :
    (code : ℕ) (reason : Text) (s : SharedSession)
    → s.closing ≡ true
    → Settled s (enqueue_close code reason s).0
unfolding enqueue_close
enqueue_close-Settled code reason s h = rw (not_enqueued s.is_active s.closing h) (h, inl refl)

call-Settled : (x : Call) (s : SharedSession) → s.closing ≡ true → Settled s (call x s)
unfolding mark_closing deactivate take_commands
call-Settled (call_text payload) s h = enqueue-Settled queued_text payload s h
call-Settled (call_binary payload) s h = enqueue-Settled queued_binary payload s h
call-Settled (call_close code reason) s h = enqueue_close-Settled code reason s h
call-Settled call_mark_closing s h = (refl, inl refl)
call-Settled call_deactivate s h = (refl, inr refl)
call-Settled call_take_commands s h = (h, inr refl)

Settled-trans : (s t u : SharedSession) → Settled s t → Settled t u → Settled s u
Settled-trans s t u (_, inl e) (h, inl f) = (h, inl (f ∙ e))
Settled-trans s t u (_, inr e) (h, inl f) = (h, inr (f ∙ e))
Settled-trans s t u _ (h, inr f) = (h, inr f)

-- Once a session is closing it stays so, and whatever is called then, its queue gets no more
-- commands: it is as it was, or emptied.
pub calls-closing : (xs : List Call) (s : SharedSession) → s.closing ≡ true → Settled s (calls xs s)
calls-closing [] s h = (h, inl refl)
calls-closing (x ∷ xs) s h =
    let now = call-Settled x s h in
    Settled-trans s (call x s) (calls xs (call x s)) now (calls-closing xs (call x s) now.0)
