-- ===== src/Messaging/Authorization.antt =====
-- Who may send and subscribe where: `destination_allowed` and `frame_authorizer` of
-- src/messaging/stomp.cpp.
pub mod Destinations
pub mod Frames
use novaboot.Base.{
  starts_with, ℕ, Bool, true, false, not, ◌&&◌, ◌||◌, List, [], ◌∷◌, Option, none, some,
  if◌then◌else◌, ltb, ◌==◌, Text, text, same, is_empty, length, get_or,
}
use novaboot.Messaging.Decoder.{Frame, header}

pub record AuthorizationPolicy : Type 0 where
  pub require_authenticated_principal : Bool
  pub allowed_send_destinations : List Text
  pub allowed_subscribe_destinations : List Text

-- The prefix, and a slash behind it.
abbrev pub is_below : Text → Text → Bool
is_below prefix destination =
    starts_with prefix destination
    && (ltb (length prefix) (length destination) && get_or destination (length prefix) 0 == 47)

abbrev pub any_allows : Text → List Text → Bool
any_allows destination [] = false
any_allows destination (prefix ∷ prefixes) =
    (same destination prefix || is_below prefix destination) || any_allows destination prefixes

unfoldable pub destination_allowed : Text → List Text → Bool
destination_allowed destination [] = true
destination_allowed destination (prefix ∷ prefixes) = any_allows destination (prefix ∷ prefixes)

abbrev pub destination_of : Frame → Text
destination_of frame = header (text "destination") frame

abbrev pub named_and_allowed : Text → List Text → Bool
named_and_allowed destination prefixes =
    not (is_empty destination) && destination_allowed destination prefixes

-- The function that `frame_authorizer` returns. Of the session it reads the principal only.
unfoldable pub frame_authorizer : AuthorizationPolicy → Text → Frame → Bool
frame_authorizer policy principal frame =
    if policy.require_authenticated_principal && is_empty principal
    then false
    else if same frame.command (text "SEND")
    then named_and_allowed (destination_of frame) policy.allowed_send_destinations
    else if same frame.command (text "SUBSCRIBE")
    then named_and_allowed (destination_of frame) policy.allowed_subscribe_destinations
    else true
