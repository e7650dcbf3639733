-- ===== src/Middleware/Concurrency/Counts.antt =====
-- The map of counts of src/middleware/concurrency_limit_middleware.cpp: what assigning and erasing
-- a key do to the count of each key, to the bounds and to the size.
use mathlib.Core.Path.{subst}
use novaboot.Base.{
  ℕ, ◌≤◌, ◌≡◌, refl, sym, ap, ◌∙◌, inl, inr, true, false, [], ◌∷◌, Option, none, some, arith,
  if◌then◌else◌, length, Text, same, same_sound, same_sym, Bool-cases, All,
}
use novaboot.Middleware.Concurrency.{Config, Active, find, assign, erase}

abbrev pub or_zero : Option ℕ → ℕ
or_zero none = 0
or_zero (some n) = n

abbrev pub count : Text → Active → ℕ
count key active = or_zero (find key active)

abbrev pub Within : Config → Text × ℕ → Type 0
Within config e = (1 ≤ e.1) × (e.1 ≤ config.max_concurrent)

pub find-Within :
    (config : Config) (key : Text) (n : ℕ) (active : Active)
    → All (Within config) active
    → find key active ≡ some n
    → Within config (key, n)
find-Within config key n [] a e = absurd (cc e)
find-Within config key n ((k, m) ∷ active) (w, a) e = elim (Bool-cases (same k key)) [
  | inl this ↦ let m_is : m ≡ n = cc (rw this at e) in subst (λ x. Within config (key, x)) m_is w
  | inr other ↦ find-Within config key n active a (rw other at e)
]

-- Two keys, of which one equals a third and the other does not.
pub apart : (k key other : Text) → same k key ≡ false → same k other ≡ true → same key other ≡ false
apart k key other d e = rw (← same_sound k other e) (same_sym key k ∙ d)

pub count-assign :
    (key other : Text) (m n : ℕ) (active : Active)
    → find key active ≡ some n
    → count other (assign key m active) ≡ (if same key other then m else count other active)
count-assign key other m n [] e = absurd (cc e)
count-assign key other m n ((k, l) ∷ active) e = elim (Bool-cases (same k key)) [
  | inl this ↦ elim (Bool-cases (same k other)) [
    | inl both ↦
        let w : same key other ≡ true =
          subst (λ x. same x other ≡ true) (same_sound k key this) both in
        rw (this, both, w) refl
    | inr not_it ↦
        let w : same key other ≡ false =
          subst (λ x. same x other ≡ false) (same_sound k key this) not_it in
        rw (this, not_it, w) refl
  ]
  | inr differs ↦
      let ih = count-assign key other m n active (rw differs at e) in
      elim (Bool-cases (same k other)) [
        | inl hit ↦ rw (differs, hit, apart k key other differs hit) refl
        | inr not_it ↦ rw (differs, not_it) ih
      ]
]

pub count-erase :
    (key other : Text) (active : Active)
    → count other (erase key active) ≡ (if same key other then 0 else count other active)
count-erase key other [] = ground arith
count-erase key other ((k, l) ∷ active) = elim (Bool-cases (same k key)) [
  | inl this ↦ elim (Bool-cases (same k other)) [
    | inl both ↦
        let w : same key other ≡ true =
          subst (λ x. same x other ≡ true) (same_sound k key this) both in
        rw (this, both, w) (let ih = count-erase key other active in rw w at ih)
    | inr not_it ↦
        let w : same key other ≡ false =
          subst (λ x. same x other ≡ false) (same_sound k key this) not_it in
        rw (this, not_it, w) (let ih = count-erase key other active in rw w at ih)
  ]
  | inr differs ↦ elim (Bool-cases (same k other)) [
    | inl hit ↦ rw (differs, hit, apart k key other differs hit) refl
    | inr not_it ↦ rw (differs, not_it) (count-erase key other active)
  ]
]

pub assign-Within :
    (config : Config) (key : Text) (m : ℕ) (active : Active)
    → (1 ≤ m) × (m ≤ config.max_concurrent)
    → All (Within config) active
    → All (Within config) (assign key m active)
assign-Within config key m [] w a = tt
assign-Within config key m ((k, n) ∷ active) w (h, a) = elim (Bool-cases (same k key)) [
  | inl this ↦ rw this (w, a)
  | inr other ↦ rw other (h, assign-Within config key m active w a)
]

pub erase-Within :
    (config : Config) (key : Text) (active : Active)
    → All (Within config) active
    → All (Within config) (erase key active)
erase-Within config key [] a = tt
erase-Within config key ((k, n) ∷ active) (h, a) = elim (Bool-cases (same k key)) [
  | inl this ↦ rw this (erase-Within config key active a)
  | inr other ↦ rw other (h, erase-Within config key active a)
]

pub length-assign :
    (key : Text) (m : ℕ) (active : Active) → length (assign key m active) ≡ length active
length-assign key m [] = refl
length-assign key m ((k, n) ∷ active) = ground (arith, length-assign key m active)

pub length-erase : (key : Text) (active : Active) → length (erase key active) ≤ length active
length-erase key [] = omega arith
length-erase key ((k, n) ∷ active) = ground (arith, length-erase key active)

pub same-count :
    (key other : Text) (active : Active)
    → same key other ≡ true
    → count other active ≡ count key active
same-count key other active e = ap (λ k. count k active) (sym (same_sound key other e))
