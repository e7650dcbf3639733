-- ===== src/WebSocket/Registry.antt =====
-- `SessionHandle` and `SessionRegistry` of src/websocket/websocket.cpp. A handle is the identifier
-- of a session; `lock` of its weak pointer finds the shared state while the session exists, which is
-- looked up in the store of sessions. The map of handles is a list of identifiers.
pub mod Broadcast
use novaboot.Base.{
  ℕ, ◌+◌, Bool, true, false, ◌&&◌, not, List, [], ◌∷◌, Option, none, some, if◌then◌else◌, ◌==◌,
  length, Text,
}
use novaboot.WebSocket.Shared.{
  SharedSession, QueuedKind, queued_text, queued_binary, active, enqueue, enqueue_close,
}

-- The sessions that exist, by identifier.
abbrev pub Store : Type 0
Store = List (ℕ × SharedSession)

abbrev pub lock : ℕ → Store → Option SharedSession
lock id [] = none
lock id ((i, s) ∷ store) = if i == id then some s else lock id store

-- A call through the pointer.
abbrev pub update : ℕ → SharedSession → Store → Store
update id new [] = []
update id new ((i, s) ∷ store) =
    let rest = update id new store in if i == id then (i, new) ∷ store else (i, s) ∷ rest

abbrev pub active_found : Option SharedSession → Bool
active_found none = false
active_found (some s) = active s

unfoldable pub handle_active : ℕ → Store → Bool
handle_active id store = active_found (lock id store)

-- What a handle does with the session, if it still exists.
pub data Request : Type 0 where
  text_request binary_request : (payload : Text) → Request
  close_request : (code : ℕ) (reason : Text) → Request

abbrev pub perform : Request → SharedSession → SharedSession × Bool
perform (text_request payload) s = enqueue queued_text payload s
perform (binary_request payload) s = enqueue queued_binary payload s
perform (close_request code reason) s = enqueue_close code reason s

abbrev pub request_found : ℕ → Request → Store → Option SharedSession → Store × Bool
request_found id r store none = (store, false)
request_found id r store (some s) = (update id (perform r s).0 store, (perform r s).1)

-- `send_text`, `send_binary` and `close` of a handle.
unfoldable pub request : ℕ → Request → Store → Store × Bool
request id r store = request_found id r store (lock id store)

abbrev pub Registry : Type 0
Registry = List ℕ

abbrev pub member : ℕ → Registry → Bool
member id [] = false
member id (i ∷ ids) = if i == id then true else member id ids

-- Identifiers start at one; zero is the handle of no session.
unfoldable pub register : ℕ → Store → Registry → Registry
register id store ids =
    if id == 0
    then ids
    else if not (handle_active id store)
    then ids
    else if member id ids
    then ids
    else id ∷ ids

unfoldable pub unregister : ℕ → Registry → Registry
unregister id [] = []
unregister id (i ∷ ids) = let rest = unregister id ids in if i == id then rest else i ∷ rest

-- The loop of `broadcast_text`, `broadcast_binary` and `close_all`: inactive sessions leave the
-- registry, the others get the request, and those that take it are counted.
unfoldable pub broadcast : Request → Registry → Store → Registry × (Store × ℕ)
broadcast r [] store = ([], (store, 0))
broadcast r (id ∷ ids) store =
    let skipped = broadcast r ids store in
    let (now, taken) = request id r store in
    let (left, (after, delivered)) = broadcast r ids now in
    if not (handle_active id store)
    then skipped
    else (id ∷ left, (after, if taken then 1 + delivered else delivered))
