-- ===== src/Http/Multipart/Finding.antt =====
-- `find` of src/http/multipart.cpp's parser, and the loop over the headers of a part.
use novaboot.Base.{
  ℕ, zero, suc, ◌+◌, ◌≤◌, ◌<◌, ◌≡◌, refl, inl, inr, Bool, true, false, [], ◌∷◌, Option, none, some,
  if◌then◌else◌, arith, Text, text, starts_with, length, take, drop, length-drop, Option-cases,
}
use mathlib.Core.Path.{subst}
use novaboot.Http.Texts.{divide}
use novaboot.Http.Multipart.{
  Outcome, returned, refused, thrown, exhausted, and_then, valid_header_value,
}
use novaboot.Http.Multipart.Parts.{
  further, find, PartHeaders, header_parts, header_line, read_headers,
}

-- An error, or a result with this property.
abbrev pub Ends : {A : Type 0} → (A → Type 0) → Outcome A → Type 0
Ends P (returned a) = P a
Ends P (refused message) = Unit
Ends P thrown = ⊥
Ends P exhausted = ⊥

pub Ends-and_then :
    {A B : Type 0} (P : A → Type 0) (Q : B → Type 0) (o : Outcome A) (next : A → Outcome B)
    → Ends P o
    → ((a : A) → P a → Ends Q (next a))
    → Ends Q (and_then o next)
Ends-and_then P Q (returned a) next p q = q a p
Ends-and_then P Q (refused message) next p q = tt
Ends-and_then P Q thrown next p q = p
Ends-and_then P Q exhausted next p q = p

pub Ends-if :
    {A : Type 0} (P : A → Type 0) (b : Bool) (x y : Outcome A)
    → (b ≡ true → Ends P x)
    → (b ≡ false → Ends P y)
    → Ends P (if b then x else y)
Ends-if P true x y p q = p refl
Ends-if P false x y p q = q refl

abbrev pub Always : {A : Type 0} → A → Type 0
Always a = Unit

starts_with-le : (p t : Text) → starts_with p t ≡ true → length p ≤ length t
starts_with-le [] t h = omega arith
starts_with-le (b ∷ p) [] h = cc h
starts_with-le (b ∷ p) (c ∷ t) h = ground (arith, starts_with-le p t)

-- The pattern stands within the text.
abbrev Fits : Text → Text → Option ℕ → Type 0
Fits p t none = Unit
Fits p t (some n) = n + length p ≤ length t

Fits-if :
    (p t : Text) (b : Bool) (o : Option ℕ)
    → (b ≡ true → length p ≤ length t)
    → Fits p t o
    → Fits p t (if b then some 0 else o)
Fits-if p t true o here later = let fits = here refl in omega arith
Fits-if p t false o here later = later

find-Fits : (p t : Text) → Fits p t (find p t)
unfolding find
find-Fits [] [] = omega arith
find-Fits (b ∷ p) [] = tt
find-Fits p (c ∷ t) =
    Fits-if p (c ∷ t) (starts_with p (c ∷ t)) (further (find p t)) (starts_with-le p (c ∷ t))
      (behind (find p t) (find-Fits p t))
  where
    behind : (o : Option ℕ) → Fits p t o → Fits p (c ∷ t) (further o)
    behind none fits = tt
    behind (some n) fits = omega arith

pub find-le : (p t : Text) (n : ℕ) → find p t ≡ some n → n + length p ≤ length t
find-le p t n h = subst (Fits p t) h (find-Fits p t)

header_line-Ends : (line : Text) (h : PartHeaders) → Ends Always (header_line line h)
header_line-Ends line h = by_parts (divide 58 line)
  where
    by_parts : (parts : Text × Option Text) → Ends Always (header_parts line h parts)
    by_parts (name, none) = tt
    by_parts (name, some value) = Ends-if Always (valid_header_value line) _ _ (λ _. tt) (λ _. tt)

pub read_headers-Ends :
    (fuel : ℕ) (headers : Text) (h : PartHeaders)
    → length headers < fuel
    → Ends Always (read_headers fuel headers h)
unfolding read_headers
read_headers-Ends zero headers h enough = omega arith
read_headers-Ends (suc fuel) [] h enough = tt
read_headers-Ends (suc fuel) (b ∷ headers) h enough =
    elim (Option-cases (find (text "\r\n") (b ∷ headers))) [
      | inl last ↦ rw last (header_line-Ends (b ∷ headers) h)
      | inr (n, more) ↦
          let fits = find-le (text "\r\n") (b ∷ headers) n more in
          let shorter = length-drop (n + 2) (b ∷ headers) in
          rw more (
            Ends-and_then Always Always (header_line (take n (b ∷ headers)) h)
              (read_headers fuel (drop (n + 2) (b ∷ headers)))
              (header_line-Ends (take n (b ∷ headers)) h)
              (λ g _. read_headers-Ends fuel (drop (n + 2) (b ∷ headers)) g (omega arith)))
    ]
