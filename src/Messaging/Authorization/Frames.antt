-- ===== src/Messaging/Authorization/Frames.antt =====
-- The frames that `frame_authorizer` of src/messaging/stomp.cpp accepts.
use novaboot.Base.{
  Bool, true, false, List, [], ◌∷◌, inl, inr, ◌↔◌, ◌≡◌, refl, ap, Text, same, same_sound, same_iff,
  sym, ◌∙◌, if◌then◌else◌, ◌&&◌, Bool-cases, ◌≢◌, text, is_empty, not,
}
use novaboot.Messaging.Decoder.{Frame}
use novaboot.Messaging.Authorization.{
  AuthorizationPolicy, frame_authorizer, named_and_allowed, destination_of,
}
use novaboot.Messaging.Authorization.Destinations.{Granted, destination_allowed_iff}

-- What a policy asks of a frame from a session with this principal.
pub record Authorized (policy : AuthorizationPolicy) (principal : Text) (frame : Frame)
    : Type 0 where
  pub known : policy.require_authenticated_principal ≡ true → principal ≢ []
  pub may_send :
      frame.command ≡ text "SEND"
      → (destination_of frame ≢ [])
        × Granted (destination_of frame) policy.allowed_send_destinations
  pub may_subscribe :
      frame.command ≡ text "SUBSCRIBE"
      → (destination_of frame ≢ [])
        × Granted (destination_of frame) policy.allowed_subscribe_destinations

nonempty : (s : Text) → not (is_empty s) ≡ true → s ≢ []
nonempty [] h e = absurd (cc h)
nonempty (c ∷ s) h e = absurd (cc e)

nonempty_complete : (s : Text) → s ≢ [] → not (is_empty s) ≡ true
nonempty_complete [] n = absurd (n refl)
nonempty_complete (c ∷ s) n = refl

named_and_allowed_iff :
    (destination : Text) (prefixes : List Text)
    → (named_and_allowed destination prefixes ≡ true)
      ↔ ((destination ≢ []) × Granted destination prefixes)
named_and_allowed_iff destination prefixes =
    let iff = destination_allowed_iff destination prefixes in
    (
      λ h. elim (Bool-cases (not (is_empty destination))) [
        | inl named ↦ (nonempty destination named, iff.0 (cc (h, named)))
        | inr unnamed ↦ absurd (cc (h, unnamed))
      ],
      λ g. rw (nonempty_complete destination g.0) (iff.1 g.1),
    )

-- The shape of the authorizer, for any tests.
abbrev verdict : Bool → Bool → Bool → Bool → Bool → Bool
verdict refused send x subscribe y =
    if refused then false else if send then x else if subscribe then y else true

verdict-send : (refused x subscribe y : Bool) → verdict refused true x subscribe y ≡ true → x ≡ true
verdict-send true x subscribe y h = absurd (cc h)
verdict-send false x subscribe y h = h

verdict-subscribe : (refused x y : Bool) → verdict refused false x true y ≡ true → y ≡ true
verdict-subscribe true x y h = absurd (cc h)
verdict-subscribe false x y h = h

verdict_complete :
    (refused send x subscribe y : Bool)
    → refused ≡ false
    → (send ≡ true → x ≡ true)
    → (subscribe ≡ true → y ≡ true)
    → verdict refused send x subscribe y ≡ true
verdict_complete true send x subscribe y r s t = absurd (cc r)
verdict_complete false true x subscribe y r s t = s refl
verdict_complete false false x true y r s t = t refl
verdict_complete false false x false y r s t = refl

principal_known :
    (required : Bool) (principal : Text)
    → (required ≡ true → principal ≢ [])
    → (required && is_empty principal) ≡ false
principal_known false principal n = refl
principal_known true [] n = absurd (n refl refl)
principal_known true (c ∷ s) n = refl

principal_asked :
    (required send x subscribe y : Bool) (principal : Text)
    → verdict (required && is_empty principal) send x subscribe y ≡ true
    → required ≡ true
    → principal ≢ []
principal_asked false send x subscribe y principal h r = absurd (cc r)
principal_asked true send x subscribe y [] h r = absurd (cc h)
principal_asked true send x subscribe y (c ∷ s) h r = λ e. absurd (cc e)

subscribe_not_send : same (text "SUBSCRIBE") (text "SEND") ≡ false
unfolding same
subscribe_not_send = refl

authorizer_sound :
    (policy : AuthorizationPolicy) (principal : Text) (frame : Frame)
    → frame_authorizer policy principal frame ≡ true
    → Authorized policy principal frame
unfolding frame_authorizer
authorizer_sound policy principal frame h =
    let refused = policy.require_authenticated_principal && is_empty principal in
    let send = same frame.command (text "SEND") in
    let subscribe = same frame.command (text "SUBSCRIBE") in
    let destination = destination_of frame in
    let x = named_and_allowed destination policy.allowed_send_destinations in
    let y = named_and_allowed destination policy.allowed_subscribe_destinations in
    record {
      known = principal_asked policy.require_authenticated_principal send x subscribe y principal h;
      may_send = λ e. (named_and_allowed_iff destination policy.allowed_send_destinations).0 (
          verdict-send refused x subscribe y (
            ap (λ b. verdict refused b x subscribe y)
              (sym ((same_iff frame.command (text "SEND")).1 e))
            ∙ h));
      may_subscribe = λ e.
          (named_and_allowed_iff destination policy.allowed_subscribe_destinations).0 (
            verdict-subscribe refused x y (
              ap (λ b. verdict refused false x b y)
                (sym ((same_iff frame.command (text "SUBSCRIBE")).1 e))
              ∙ ap (λ b. verdict refused b x subscribe y)
                  (sym (ap (λ c. same c (text "SEND")) e ∙ subscribe_not_send))
              ∙ h));
    }

authorizer_complete :
    (policy : AuthorizationPolicy) (principal : Text) (frame : Frame)
    → Authorized policy principal frame
    → frame_authorizer policy principal frame ≡ true
unfolding frame_authorizer
authorizer_complete policy principal frame a =
    let destination = destination_of frame in
    verdict_complete (policy.require_authenticated_principal && is_empty principal)
      (same frame.command (text "SEND"))
      (named_and_allowed destination policy.allowed_send_destinations)
      (same frame.command (text "SUBSCRIBE"))
      (named_and_allowed destination policy.allowed_subscribe_destinations)
      (principal_known policy.require_authenticated_principal principal a.known)
      (λ e.
        (named_and_allowed_iff destination policy.allowed_send_destinations).1
          (a.may_send (same_sound frame.command (text "SEND") e)))
      (λ e.
        (named_and_allowed_iff destination policy.allowed_subscribe_destinations).1
          (a.may_subscribe (same_sound frame.command (text "SUBSCRIBE") e)))

-- The function that `frame_authorizer` returns accepts exactly the frames that the policy
-- authorizes. A policy that requires a principal rejects all frames of a session without one. A
-- SEND or SUBSCRIBE needs a destination, which is one of the policy's prefixes for the command or
-- continues one of them with a slash, unless the policy has none. Other commands are accepted.
pub frame_authorizer_iff :
    (policy : AuthorizationPolicy) (principal : Text) (frame : Frame)
    → (frame_authorizer policy principal frame ≡ true) ↔ Authorized policy principal frame
frame_authorizer_iff policy principal frame =
    (authorizer_sound policy principal frame, authorizer_complete policy principal frame)
