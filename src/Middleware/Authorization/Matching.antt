-- ===== src/Middleware/Authorization/Matching.antt =====
-- Which roles and scopes satisfy a policy of src/middleware/authorization_middleware.cpp.
use novaboot.Base.{
  ◌≡◌, refl, sym, ap, ◌∙◌, ◌↔◌, ◌⊎◌, inl, inr, Bool, true, false, ◌&&◌, ◌||◌, List, [], ◌∷◌, Text,
  same, same_sound, same_refl, All, Exists, Bool-cases,
}
use novaboot.Middleware.Authorization.{
  MatchMode, match_any, match_all, contains, any_of, all_of, satisfies,
}

abbrev pub Member : List Text → Text → Type 0
Member actual value = Exists (λ a. a ≡ value) actual

-- The required values that are among the actual ones: one of them, or all.
abbrev pub Covers : List Text → List Text → MatchMode → Type 0
Covers actual required match_any = Exists (Member actual) required
Covers actual required match_all = All (Member actual) required

-- Nothing is required, or enough of it is there.
abbrev pub Meets : List Text → List Text → MatchMode → Type 0
Meets actual required mode = required ≡ [] ⊎ Covers actual required mode

pub and_both : (x y : Bool) → (x && y) ≡ true → (x ≡ true) × (y ≡ true)
and_both true y h = (refl, h)
and_both false y h = absurd (cc h)

pub both_and : (x y : Bool) → x ≡ true → y ≡ true → (x && y) ≡ true
both_and true y h k = k
both_and false y h k = absurd (cc h)

pub contains_sound :
    (actual : List Text) (value : Text) → contains actual value ≡ true → Member actual value
contains_sound [] value h = absurd (cc h)
contains_sound (a ∷ actual) value h = elim (Bool-cases (same a value)) [
  | inl this ↦ inl (same_sound a value this)
  | inr other ↦
      inr (contains_sound actual value (sym (ap (λ b. b || contains actual value) other) ∙ h))
]

pub or_right : (x y : Bool) → y ≡ true → (x || y) ≡ true
or_right true y h = refl
or_right false y h = h

pub or_left : (x y : Bool) → x ≡ true → (x || y) ≡ true
or_left true y h = refl
or_left false y h = absurd (cc h)

pub contains_complete :
    (actual : List Text) (value : Text) → Member actual value → contains actual value ≡ true
contains_complete [] value m = absurd m
contains_complete (a ∷ actual) value (inl e) =
    or_left (same a value) (contains actual value) (ap (λ t. same t value) e ∙ same_refl value)
contains_complete (a ∷ actual) value (inr m) =
    or_right (same a value) (contains actual value) (contains_complete actual value m)

any_of_sound :
    (actual required : List Text) → any_of actual required ≡ true → Exists (Member actual) required
any_of_sound actual [] h = absurd (cc h)
any_of_sound actual (v ∷ required) h = elim (Bool-cases (contains actual v)) [
  | inl this ↦ inl (contains_sound actual v this)
  | inr other ↦
      inr (any_of_sound actual required (sym (ap (λ b. b || any_of actual required) other) ∙ h))
]

any_of_complete :
    (actual required : List Text) → Exists (Member actual) required → any_of actual required ≡ true
any_of_complete actual [] x = absurd x
any_of_complete actual (v ∷ required) (inl m) =
    or_left (contains actual v) (any_of actual required) (contains_complete actual v m)
any_of_complete actual (v ∷ required) (inr x) =
    or_right (contains actual v) (any_of actual required) (any_of_complete actual required x)

all_of_sound :
    (actual required : List Text) → all_of actual required ≡ true → All (Member actual) required
all_of_sound actual [] h = tt
all_of_sound actual (v ∷ required) h =
    let both = and_both (contains actual v) (all_of actual required) h in
    (contains_sound actual v both.0, all_of_sound actual required both.1)

all_of_complete :
    (actual required : List Text) → All (Member actual) required → all_of actual required ≡ true
all_of_complete actual [] a = refl
all_of_complete actual (v ∷ required) (m, a) =
    both_and (contains actual v) (all_of actual required) (contains_complete actual v m)
      (all_of_complete actual required a)

pub satisfies_iff :
    (actual required : List Text) (mode : MatchMode)
    → (satisfies actual required mode ≡ true) ↔ Meets actual required mode
unfolding satisfies
satisfies_iff actual [] mode = (λ h. inl refl, λ m. refl)
satisfies_iff actual (v ∷ required) match_any = (
  λ h. inr (any_of_sound actual (v ∷ required) h),
  λ m. elim m [ inl e ↦ absurd (cc e) | inr x ↦ any_of_complete actual (v ∷ required) x ],
)
satisfies_iff actual (v ∷ required) match_all = (
  λ h. inr (all_of_sound actual (v ∷ required) h),
  λ m. elim m [ inl e ↦ absurd (cc e) | inr x ↦ all_of_complete actual (v ∷ required) x ],
)
