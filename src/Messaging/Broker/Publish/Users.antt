-- ===== src/Messaging/Broker/Publish/Users.antt =====
-- Messages to the users of src/messaging/stomp.cpp.
use novaboot.Base.{
  ◌≡◌, refl, ap, ◌∙◌, inl, inr, true, false, List, [], ◌∷◌, ◌++◌, some, ◌==◌, Text, text, to_string,
  same, same_sound, same_refl, Bool-cases, All, All-map, Exists,
}
use novaboot.Base.Dict
use novaboot.WebSocket.Registry.{Store}
use novaboot.Messaging.RoundTrip.{split_at-append}
use novaboot.Messaging.Broker.{Subscription, SimpleBroker}
use novaboot.Messaging.Broker.Publish.{targeted, of_principal, claim}

-- All subscriptions of the principal, and no other.
pub record IsForUser (principal : Text) (ss targets : List Subscription) : Type 0 where
  pub only : All (λ t. t.principal ≡ principal) targets
  pub every : All (λ s. s.principal ≡ principal → Exists (λ t. t ≡ s) targets) ss

private_only :
    (principal : Text) (ss : List Subscription)
    → All (λ t. t.principal ≡ principal) (of_principal principal ss)
private_only principal [] = tt
private_only principal (s ∷ ss) = elim (Bool-cases (same s.principal principal)) [
  | inl theirs ↦ rw theirs (same_sound s.principal principal theirs, private_only principal ss)
  | inr other ↦ rw other (private_only principal ss)
]

self_kept :
    (principal : Text) (s : Subscription) (ss : List Subscription)
    → s.principal ≡ principal
    → Exists (λ t. t ≡ s) (of_principal principal (s ∷ ss))
self_kept principal s ss e =
    let theirs : same s.principal principal ≡ true =
      ap (λ p. same p principal) e ∙ same_refl principal in
    rw theirs (inl refl)

later_kept :
    (principal : Text) (s u : Subscription) (ss : List Subscription)
    → Exists (λ t. t ≡ u) (of_principal principal ss)
    → Exists (λ t. t ≡ u) (of_principal principal (s ∷ ss))
later_kept principal s u ss x = elim (Bool-cases (same s.principal principal)) [
  | inl theirs ↦ rw theirs (inr x)
  | inr other ↦ rw other x
]

found_in :
    (principal : Text) (ss : List Subscription)
    → All (λ s. s.principal ≡ principal → Exists (λ t. t ≡ s) (of_principal principal ss)) ss
found_in principal [] = tt
found_in principal (s ∷ ss) = (
  self_kept principal s ss,
  All-map (λ u. u.principal ≡ principal → Exists (λ t. t ≡ u) (of_principal principal ss))
      (λ u. u.principal ≡ principal → Exists (λ t. t ≡ u) (of_principal principal (s ∷ ss)))
      (λ u f e. later_kept principal s u ss (f e)) ss (found_in principal ss),
)

-- A message to `/user/<principal>/…` is for all subscriptions of that principal to the
-- destination, and for no other.
pub claim-user :
    (principal rest : Text) (store : Store) (b : SimpleBroker) (ss : List Subscription)
    → All (λ c. (c == 47) ≡ false) principal
    → Dict.lookup (text "/user/" ++ principal ++ 47 ∷ rest) b.subscriptions ≡ some ss
    → (targets : List Subscription) × ((claim (text "/user/" ++ principal ++ 47 ∷ rest) store b).1
        ≡ targeted targets (to_string b.next_message_id))
      × IsForUser principal ss targets
unfolding claim
claim-user principal rest store b ss plain found = (
  of_principal principal ss,
  rw (found, split_at-append 47 principal rest plain) refl,
  record { only = private_only principal ss; every = found_in principal ss },
)
