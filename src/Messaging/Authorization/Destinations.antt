-- ===== src/Messaging/Authorization/Destinations.antt =====
-- The destinations that src/messaging/stomp.cpp allows.
use novaboot.Base.{
  ℕ, Bool, true, false, List, [], ◌∷◌, ◌++◌, ◌⊎◌, inl, inr, ◌↔◌, ◌≡◌, refl, ap, arith, Text, same,
  same_sound, same_refl, ◌||◌, Bool-cases, Exists,
}
use novaboot.Messaging.Authorization.{is_below, any_allows, destination_allowed}

-- The destination is the prefix, or lies below it in the tree that the slashes make.
abbrev pub Within : Text → Text → Type 0
Within prefix destination =
    destination ≡ prefix ⊎ ((rest : Text) × (destination ≡ prefix ++ 47 ∷ rest))

cons_eq : {b c : ℕ} {s t : Text} → b ≡ c → s ≡ t → Path Text (c ∷ s) (b ∷ t)
cons_eq e e' = cc (e, e')

is_below_sound :
    (prefix destination : Text)
    → is_below prefix destination ≡ true
    → (rest : Text) × (destination ≡ prefix ++ 47 ∷ rest)
is_below_sound [] [] h = absurd (cc h)
is_below_sound [] (c ∷ ds) h = (ds, ap (λ x. x ∷ ds) (ground arith))
is_below_sound (b ∷ prefix) [] h = absurd (cc h)
is_below_sound (b ∷ prefix) (c ∷ ds) h =
    let below = is_below_sound prefix ds (ground arith) in (below.0, cons_eq (ground arith) below.1)

is_below_complete : (prefix rest : Text) → is_below prefix (prefix ++ 47 ∷ rest) ≡ true
is_below_complete [] rest = ground arith
is_below_complete (b ∷ prefix) rest = ground (arith, is_below_complete prefix rest)

or_true : (b : Bool) → (b || true) ≡ true
or_true true = refl
or_true false = refl

within :
    (prefix destination : Text)
    → (same destination prefix || is_below prefix destination) ≡ true
    → Within prefix destination
within prefix destination h = elim (Bool-cases (same destination prefix)) [
  | inl equal ↦ inl (same_sound destination prefix equal)
  | inr ne ↦
      inr
        (is_below_sound prefix destination (cc (h, ap (λ b. b || is_below prefix destination) ne)))
]

Within-complete :
    (prefix destination : Text)
    → Within prefix destination
    → (same destination prefix || is_below prefix destination) ≡ true
Within-complete prefix destination (inl e) = rw (e, same_refl prefix) refl
Within-complete prefix destination (inr (rest, e)) =
    rw (e, is_below_complete prefix rest) (or_true (same (prefix ++ 47 ∷ rest) prefix))

any_allows_sound :
    (destination : Text) (prefixes : List Text)
    → any_allows destination prefixes ≡ true
    → Exists (λ p. Within p destination) prefixes
any_allows_sound destination [] h = absurd (cc h)
any_allows_sound destination (p ∷ ps) h =
    elim (Bool-cases (same destination p || is_below p destination)) [
      | inl here ↦ inl (within p destination here)
      | inr ne ↦ inr (any_allows_sound destination ps (cc (h, ne)))
    ]

any_allows_complete :
    (destination : Text) (prefixes : List Text)
    → Exists (λ p. Within p destination) prefixes
    → any_allows destination prefixes ≡ true
any_allows_complete destination [] w = absurd w
any_allows_complete destination (p ∷ ps) (inl w) = rw (Within-complete p destination w) refl
any_allows_complete destination (p ∷ ps) (inr w) =
    rw (any_allows_complete destination ps w)
      (or_true (same destination p || is_below p destination))

-- With no prefix at all, every destination.
abbrev pub Granted : Text → List Text → Type 0
Granted destination prefixes = prefixes ≡ [] ⊎ Exists (λ p. Within p destination) prefixes

pub destination_allowed_iff :
    (destination : Text) (prefixes : List Text)
    → (destination_allowed destination prefixes ≡ true) ↔ Granted destination prefixes
unfolding destination_allowed
destination_allowed_iff destination [] = (λ h. inl refl, λ g. refl)
destination_allowed_iff destination (p ∷ ps) = (
  λ h. inr (any_allows_sound destination (p ∷ ps) h),
  λ g. elim g [ inl e ↦ absurd (cc e) | inr w ↦ any_allows_complete destination (p ∷ ps) w ],
)
