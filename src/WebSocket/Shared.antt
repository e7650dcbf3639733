-- ===== src/WebSocket/Shared.antt =====
-- The state that a session shares with other threads, `detail::SharedSession` of
-- src/websocket/websocket.cpp, with the transport's byte budget. Each method holds the mutex from
-- start to end, so a run is a sequence of calls; the wakeup is called after the lock is released.
pub mod Bounds
pub mod Settling
use novaboot.Base.{
  ℕ, ◌+◌, ◌-◌, ◌%◌, ◌^◌, Bool, true, false, not, ◌&&◌, ◌||◌, List, [], ◌∷◌, ◌++◌, if◌then◌else◌,
  ltb, leb, length, take, Text, text,
}

pub record Limits : Type 0 where
  pub max_message_bytes : ℕ
  pub max_pending_send_bytes : ℕ

pub data QueuedKind : Type 0 where
  queued_text queued_binary queued_close : QueuedKind

pub record QueuedCommand : Type 0 where
  pub kind : QueuedKind
  pub payload : Text
  pub close_code : ℕ
  pub close_reason : Text

-- `wakeups` counts the calls of the wakeup function.
pub record SharedSession : Type 0 where
  pub limits : Limits
  pub is_active : Bool
  pub closing : Bool
  pub queued_bytes : ℕ
  pub queued : List QueuedCommand
  pub has_wakeup : Bool
  pub wakeups : ℕ

abbrev pub new_shared : Limits → Bool → SharedSession
new_shared limits has_wakeup = record {
  limits = limits;
  is_active = true;
  closing = false;
  queued_bytes = 0;
  queued = [];
  has_wakeup = has_wakeup;
  wakeups = 0;
}

unfoldable pub active : SharedSession → Bool
active s = s.is_active && not s.closing

abbrev wake : SharedSession → SharedSession
wake s = record s { wakeups = if s.has_wakeup then s.wakeups + 1 else s.wakeups }

abbrev pub overflow_close : QueuedCommand
overflow_close = record {
  kind = queued_close;
  payload = [];
  close_code = 1013;
  close_reason = text "Outbound queue limit exceeded";
}

abbrev pub message_command : QueuedKind → Text → QueuedCommand
message_command kind payload = record {
  kind = kind;
  payload = payload;
  close_code = 1000;
  close_reason = [];
}

abbrev pub encoded_size : Text → ℕ
encoded_size payload = length payload + 10

unfoldable pub enqueue : QueuedKind → Text → SharedSession → SharedSession × Bool
enqueue kind payload s =
    if not s.is_active || s.closing
    then (s, false)
    else if ltb s.limits.max_pending_send_bytes (s.queued_bytes + encoded_size payload)
    then (wake (record s { queued_bytes = 0; closing = true; queued = overflow_close ∷ [] }), false)
    else (
      wake (record s {
        queued = s.queued ++ message_command kind payload ∷ [];
        queued_bytes = s.queued_bytes + encoded_size payload;
      }),
      true,
    )

unfoldable pub enqueue_close : ℕ → Text → SharedSession → SharedSession × Bool
enqueue_close code reason s = if not s.is_active || s.closing then (s, false) else (
  wake (record s {
    closing = true;
    queued =
        s.queued
        ++ record {
          kind = queued_close;
          payload = [];
          close_code = code;
          close_reason = take 123 reason;
        }
          ∷ [];
  }),
  true,
)

unfoldable pub mark_closing : SharedSession → SharedSession
mark_closing s = record s { closing = true }

unfoldable pub deactivate : SharedSession → SharedSession
deactivate s = record s {
  is_active = false;
  closing = true;
  queued = [];
  queued_bytes = 0;
  has_wakeup = false;
}

unfoldable pub take_commands : SharedSession → SharedSession × List QueuedCommand
take_commands s = (record s { queued_bytes = 0; queued = [] }, s.queued)

-- The budget of a transport adapter; sums are on `size_t`.
pub record TransportBackpressure : Type 0 where
  pub max_pending_bytes : ℕ
  pub pending_bytes : ℕ

unfoldable pub try_reserve : ℕ → Bool → TransportBackpressure → TransportBackpressure × Bool
try_reserve bytes force t =
    if not force
      && (ltb t.max_pending_bytes bytes || ltb (t.max_pending_bytes - bytes) t.pending_bytes)
    then (t, false)
    else (record t { pending_bytes = (t.pending_bytes + bytes) % 2 ^ 64 }, true)

unfoldable pub release : ℕ → TransportBackpressure → TransportBackpressure
release bytes t = record t {
  pending_bytes = if leb t.pending_bytes bytes then 0 else t.pending_bytes - bytes;
}
