-- ===== src/Messaging/Acks.antt =====
-- Deliveries that wait for an acknowledgement: `pending_acks_` of `SimpleBroker` in
-- src/messaging/stomp.cpp, with `acknowledge` and the part of `publish` that adds to it. The map
-- from session to deliveries is a list with one entry for each session.
pub mod Cumulative
pub mod Order
use novaboot.Base.{
  ℕ, ◌+◌, Bool, true, false, not, List, [], ◌∷◌, ◌++◌, Option, none, some, if◌then◌else◌, ltb, leb,
  ◌==◌, Text, same,
}
use novaboot.Messaging.Decoder.{Frame}

pub data AckMode : Type 0 where
  auto client client_individual : AckMode

pub record PendingDelivery : Type 0 where
  pub sequence : ℕ
  pub ack_id : Text
  pub ack_mode : AckMode
  pub message : Frame

abbrev pub PendingAcks : Type 0
PendingAcks = List (ℕ × List PendingDelivery)

abbrev pub find : ℕ → PendingAcks → Option (List PendingDelivery)
find id [] = none
find id ((i, ds) ∷ acks) = if i == id then some ds else find id acks

abbrev pub assign : ℕ → List PendingDelivery → PendingAcks → PendingAcks
assign id ds [] = (id, ds) ∷ []
assign id ds ((i, old) ∷ acks) =
    let rest = assign id ds acks in if i == id then (i, ds) ∷ acks else (i, old) ∷ rest

abbrev pub erase : ℕ → PendingAcks → PendingAcks
erase id [] = []
erase id ((i, ds) ∷ acks) = let rest = erase id acks in if i == id then rest else (i, ds) ∷ rest

abbrev pub find_ack : Text → List PendingDelivery → Option PendingDelivery
find_ack ack [] = none
find_ack ack (d ∷ ds) = if same d.ack_id ack then some d else find_ack ack ds

-- `erase_if` in `client` mode, and `erase` of the one found otherwise.
abbrev pub erase_up_to : ℕ → List PendingDelivery → List PendingDelivery
erase_up_to sequence [] = []
erase_up_to sequence (d ∷ ds) =
    let rest = erase_up_to sequence ds in if leb d.sequence sequence then rest else d ∷ rest

abbrev pub erase_ack : Text → List PendingDelivery → List PendingDelivery
erase_ack ack [] = []
erase_ack ack (d ∷ ds) = let rest = erase_ack ack ds in if same d.ack_id ack then ds else d ∷ rest

abbrev pub is_client : AckMode → Bool
is_client client = true
is_client _ = false

abbrev pub without_acknowledged :
    Text → List PendingDelivery → PendingDelivery → List PendingDelivery
without_acknowledged ack ds d =
    if is_client d.ack_mode then erase_up_to d.sequence ds else erase_ack ack ds

-- An entry without deliveries is erased.
abbrev pub store_pending : ℕ → List PendingDelivery → PendingAcks → PendingAcks
store_pending id [] acks = erase id acks
store_pending id (d ∷ ds) acks = assign id (d ∷ ds) acks

abbrev pub acknowledge_found :
    ℕ → Text → List PendingDelivery → PendingAcks → Option PendingDelivery → PendingAcks × Bool
acknowledge_found id ack ds acks none = (acks, false)
acknowledge_found id ack ds acks (some d) =
    (store_pending id (without_acknowledged ack ds d) acks, true)

abbrev pub acknowledge_pending :
    ℕ → Text → PendingAcks → Option (List PendingDelivery) → PendingAcks × Bool
acknowledge_pending id ack acks none = (acks, false)
acknowledge_pending id ack acks (some ds) = acknowledge_found id ack ds acks (find_ack ack ds)

unfoldable pub acknowledge : (session_id : ℕ) → (ack_id : Text) → PendingAcks → PendingAcks × Bool
acknowledge id ack acks = acknowledge_pending id ack acks (find id acks)

abbrev pub or_empty : Option (List PendingDelivery) → List PendingDelivery
or_empty none = []
or_empty (some ds) = ds

-- `pending_acks_[id].push_back(…)`.
unfoldable pub push_pending : ℕ → PendingDelivery → PendingAcks → PendingAcks
push_pending id d acks = assign id (or_empty (find id acks) ++ d ∷ []) acks
