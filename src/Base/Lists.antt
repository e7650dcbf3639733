-- ===== src/Base/Lists.antt =====
-- Lists measured by native numbers, under the library's names, and predicates on all members.
use Prim.Native.Nat.{ℕ, zero, suc, ◌+◌, ◌-◌, ◌≤◌, ◌<◌, min}
use mathlib.Core.Path.{◌≡◌, refl, ap}
use mathlib.Core.List.{List, [], ◌∷◌, ◌++◌}
use mathlib.Core.Option.{Option, none, some}
use mathlib.Core.Bool.{Bool}
use novaboot.Base.Tests.{if◌then◌else◌, Bool-cases}
use mathlib.Core.Logic.{◌⊎◌, inl, inr}
use native.Mathlib.Omega.{arith}

module _ {ℓ} {A : Type ℓ} where
  abbrev pub length : List A → ℕ
  length [] = 0
  length (x ∷ xs) = suc (length xs)

  abbrev pub take : ℕ → List A → List A
  take zero xs = []
  take (suc n) [] = []
  take (suc n) (x ∷ xs) = x ∷ take n xs

  abbrev pub drop : ℕ → List A → List A
  drop zero xs = xs
  drop (suc n) [] = []
  drop (suc n) (x ∷ xs) = drop n xs

  abbrev pub get_or : List A → ℕ → A → A
  get_or [] i d = d
  get_or (x ∷ xs) zero d = x
  get_or (x ∷ xs) (suc i) d = get_or xs i d

  abbrev pub get_elem? : List A → ℕ → Option A
  get_elem? [] i = none
  get_elem? (x ∷ xs) zero = some x
  get_elem? (x ∷ xs) (suc i) = get_elem? xs i

  -- `std::erase_if`.
  abbrev pub erase_if : (A → Bool) → List A → List A
  erase_if gone [] = []
  erase_if gone (x ∷ xs) = let rest = erase_if gone xs in if gone x then rest else x ∷ rest

module _ {ℓ} {A : Type ℓ} where
  pub length-append : (xs ys : List A) → length (xs ++ ys) ≡ length xs + length ys
  length-append [] ys = omega arith
  length-append (x ∷ xs) ys = omega (arith, length-append xs ys)

  pub length-take : (n : ℕ) (xs : List A) → length (take n xs) ≡ min n (length xs)
  length-take zero xs = omega arith
  length-take (suc n) [] = omega arith
  length-take (suc n) (x ∷ xs) = omega (arith, length-take n xs)

  pub length-drop : (n : ℕ) (xs : List A) → length (drop n xs) ≡ length xs - n
  length-drop zero xs = omega arith
  length-drop (suc n) [] = omega arith
  length-drop (suc n) (x ∷ xs) = omega (arith, length-drop n xs)

module _ {ℓ} {A : Type ℓ} where
  pub drop-append : (n : ℕ) (xs ys : List A) → n ≤ length xs → drop n (xs ++ ys) ≡ drop n xs ++ ys
  drop-append zero xs ys h = refl
  drop-append (suc n) [] ys h = absurd (omega arith)
  drop-append (suc n) (x ∷ xs) ys h = drop-append n xs ys (omega arith)

  pub take-append : (n : ℕ) (xs ys : List A) → n ≤ length xs → take n (xs ++ ys) ≡ take n xs
  take-append zero xs ys h = refl
  take-append (suc n) [] ys h = absurd (omega arith)
  take-append (suc n) (x ∷ xs) ys h = ap (◌∷◌ x) (take-append n xs ys (omega arith))

  pub drop-length : (xs ys : List A) → drop (length xs) (xs ++ ys) ≡ ys
  drop-length [] ys = refl
  drop-length (x ∷ xs) ys = drop-length xs ys

  pub take-length : (xs ys : List A) → take (length xs) (xs ++ ys) ≡ xs
  take-length [] ys = refl
  take-length (x ∷ xs) ys = ap (◌∷◌ x) (take-length xs ys)

  pub take-drop-append :
      (n k : ℕ) (xs ys : List A)
      → n + k ≤ length xs
      → take k (drop n (xs ++ ys)) ≡ take k (drop n xs)
  take-drop-append n k xs ys h =
      rw (drop-append n xs ys (omega arith))
        (take-append k (drop n xs) ys (omega (arith, length-drop n xs)))

  pub get_or-append :
      (xs ys : List A) (n : ℕ) (d : A) → n < length xs → get_or (xs ++ ys) n d ≡ get_or xs n d
  get_or-append [] ys n d h = absurd (omega arith)
  get_or-append (x ∷ xs) ys zero d h = refl
  get_or-append (x ∷ xs) ys (suc n) d h = get_or-append xs ys n d (omega arith)

module _ {ℓ κ} {A : Type ℓ} (P : A → Type κ) where
  abbrev pub All : List A → Type κ
  All [] = Unit
  All (x ∷ xs) = P x × All xs

  pub All-append : (xs ys : List A) → All xs → All ys → All (xs ++ ys)
  All-append [] ys hx hy = hy
  All-append (x ∷ xs) ys (h, hx) hy = (h, All-append xs ys hx hy)

-- Some member satisfies `P`.
abbrev pub Exists {ℓ} : {A : Type ℓ} → (A → Type 0) → List A → Type 0
Exists P [] = ⊥
Exists P (x ∷ xs) = P x ⊎ Exists P xs

pub Exists-not {ℓ} :
    {A : Type ℓ} (P : A → Type 0) (xs : List A) → Exists P xs → All (λ x. ¬ P x) xs → ⊥
Exists-not P [] p ns = p
Exists-not P (x ∷ xs) (inl p) (n, ns) = n p
Exists-not P (x ∷ xs) (inr p) (n, ns) = Exists-not P xs p ns

pub Exists-append_left {ℓ} :
    {A : Type ℓ} (P : A → Type 0) (xs ys : List A) → Exists P xs → Exists P (xs ++ ys)
Exists-append_left P [] ys p = absurd p
Exists-append_left P (x ∷ xs) ys (inl p) = inl p
Exists-append_left P (x ∷ xs) ys (inr p) = inr (Exists-append_left P xs ys p)

pub Exists-append_right {ℓ} :
    {A : Type ℓ} (P : A → Type 0) (xs ys : List A) → Exists P ys → Exists P (xs ++ ys)
Exists-append_right P [] ys p = p
Exists-append_right P (x ∷ xs) ys p = inr (Exists-append_right P xs ys p)

pub Exists-map {ℓ} :
    {A : Type ℓ} (P Q : A → Type 0)
    → ((x : A) → P x → Q x)
    → (xs : List A) → Exists P xs
    → Exists Q xs
Exists-map P Q f (x ∷ xs) (inl p) = inl (f x p)
Exists-map P Q f (x ∷ xs) (inr p) = inr (Exists-map P Q f xs p)
Exists-map P Q f [] p = p

pub All-map {ℓ} :
    {A : Type ℓ} (P Q : A → Type 0) → ((x : A) → P x → Q x) → (xs : List A) → All P xs → All Q xs
All-map P Q f [] a = tt
All-map P Q f (x ∷ xs) (p, a) = (f x p, All-map P Q f xs a)

-- The last member satisfies `P`.
abbrev pub Last {ℓ} : {A : Type ℓ} → (A → Type 0) → List A → Type 0
Last P [] = ⊥
Last P (x ∷ []) = P x
Last P (x ∷ y ∷ xs) = Last P (y ∷ xs)

pub Last-Exists {ℓ} : {A : Type ℓ} (P : A → Type 0) (xs : List A) → Last P xs → Exists P xs
Last-Exists P [] p = p
Last-Exists P (x ∷ []) p = inl p
Last-Exists P (x ∷ y ∷ xs) p = inr (Last-Exists P (y ∷ xs) p)

pub Last-append {ℓ} :
    {A : Type ℓ} (P : A → Type 0) (xs : List A) (y : A) → P y → Last P (xs ++ y ∷ [])
Last-append P [] y p = p
Last-append P (x ∷ []) y p = p
Last-append P (x ∷ z ∷ xs) y p = Last-append P (z ∷ xs) y p

pub Last-map {ℓ} :
    {A : Type ℓ} (P Q : A → Type 0) → ((x : A) → P x → Q x) → (xs : List A) → Last P xs → Last Q xs
Last-map P Q f [] p = p
Last-map P Q f (x ∷ []) p = f x p
Last-map P Q f (x ∷ y ∷ xs) p = Last-map P Q f (y ∷ xs) p

pub length-erase_if {ℓ} :
    {A : Type ℓ} (gone : A → Bool) (xs : List A) → length (erase_if gone xs) ≤ length xs
length-erase_if gone [] = omega arith
length-erase_if gone (x ∷ xs) = elim (Bool-cases (gone x)) [
  | inl yes_gone ↦ rw yes_gone (omega (arith, length-erase_if gone xs))
  | inr kept ↦ rw kept (omega (arith, length-erase_if gone xs))
]

-- What a predicate on all members says of those that are left.
pub All-erase_if {ℓ} :
    {A : Type ℓ} (P : A → Type 0) (gone : A → Bool) (xs : List A)
    → All P xs
    → All P (erase_if gone xs)
All-erase_if P gone [] a = tt
All-erase_if P gone (x ∷ xs) (p, a) = elim (Bool-cases (gone x)) [
  | inl yes_gone ↦ rw yes_gone (All-erase_if P gone xs a)
  | inr kept ↦ rw kept (p, All-erase_if P gone xs a)
]
