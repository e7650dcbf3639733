-- ===== src/Base/Dict.antt =====
-- Maps from texts, as lists with one entry for each key.
use mathlib.Core.Path.{◌≡◌, refl, ◌∙◌}
use mathlib.Core.Bool.{Bool, true, false}
use mathlib.Core.Logic.{inl, inr}
use mathlib.Core.Option.{Option, none, some}
use mathlib.Core.List.{List, [], ◌∷◌}
use novaboot.Base.Tests.{if◌then◌else◌, Bool-cases}
use novaboot.Base.Codes.{Text, same, same_sym, same_sound}

abbrev pub Dict {ℓ} : Type ℓ → Type ℓ
Dict V = List (Text × V)

same_left : (j k key : Text) → same k key ≡ true → same k j ≡ same key j
same_left j k key h = rw (same_sound k key h) refl

apart : (j k key : Text) → same k key ≡ false → same k j ≡ true → same key j ≡ false
apart j k key h e = same_sym key j ∙ rw (← same_sound k j e) h

once {ℓ} :
    {A : Type ℓ} (b : Bool) (x y z : A)
    → (if b then x else y) ≡ (if b then x else if b then z else y)
once true x y z = refl
once false x y z = refl

either {ℓ} : {A : Type ℓ} (b : Bool) (x : A) → x ≡ (if b then x else x)
either true x = refl
either false x = refl

module _ {ℓ} {V : Type ℓ} where
  abbrev pub lookup : Text → Dict V → Option V
  lookup key [] = none
  lookup key ((k, v) ∷ entries) = if same k key then some v else lookup key entries

  -- `insert_or_assign`.
  abbrev pub assign : Text → V → Dict V → Dict V
  assign key v [] = (key, v) ∷ []
  assign key v ((k, w) ∷ entries) =
      let rest = assign key v entries in if same k key then (k, v) ∷ entries else (k, w) ∷ rest

  abbrev pub erase : Text → Dict V → Dict V
  erase key [] = []
  erase key ((k, v) ∷ entries) =
      let rest = erase key entries in if same k key then rest else (k, v) ∷ rest

  pub lookup-assign :
      (j key : Text) (v : V) (entries : Dict V)
      → lookup j (assign key v entries) ≡ (if same key j then some v else lookup j entries)
  lookup-assign j key v [] = refl
  lookup-assign j key v ((k, w) ∷ entries) = elim (Bool-cases (same k key)) [
    | inl hit ↦
        rw (hit, same_left j k key hit) (once (same key j) (some v) (lookup j entries) (some w))
    | inr miss ↦ rw miss (elim (Bool-cases (same k j)) [
      | inl this ↦ rw (this, apart j k key miss this) refl
      | inr other ↦ rw (other, lookup-assign j key v entries) refl
    ])
  ]

  pub lookup-erase :
      (j key : Text) (entries : Dict V)
      → lookup j (erase key entries) ≡ (if same key j then none else lookup j entries)
  lookup-erase j key [] = either (same key j) none
  lookup-erase j key ((k, w) ∷ entries) = elim (Bool-cases (same k key)) [
    | inl hit ↦
        rw (hit, lookup-erase j key entries, same_left j k key hit)
          (once (same key j) none (lookup j entries) (some w))
    | inr miss ↦ rw miss (elim (Bool-cases (same k j)) [
      | inl this ↦ rw (this, apart j k key miss this) refl
      | inr other ↦ rw (other, lookup-erase j key entries) refl
    ])
  ]
