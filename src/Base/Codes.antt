-- ===== src/Base/Codes.antt =====
-- Text as its list of bytes, and equality of texts.
use Prim.Native.Nat.{ℕ, zero, suc, ◌+◌, ◌-◌, ◌*◌, ◌/◌, ◌%◌, ◌^◌}
use Prim.Native.Char.{code}
use Prim.Native.String.{String}
use mathlib.Core.Path.{◌≡◌, refl, ap, sym, ◌∙◌}
use mathlib.Core.Logic.{◌↔◌, inl, inr}
use novaboot.Base.Lists.{All}
use mathlib.Core.Bool.{Bool, true, false, ◌&&◌}
use mathlib.Core.Option.{Option, none, some}
use mathlib.Core.List.{List, [], ◌∷◌}
use native.Mathlib.Omega.{arith}
use novaboot.Base.Tests.{◌==◌, ltb, leb, if◌then◌else◌, Bool-cases, Option-cases, if_true, if_false}

abbrev pub Text : Type 0
Text = List ℕ

-- The bytes of an ASCII literal.
abbrev pub text : String → Text
text String.[] = []
text (String.◌∷◌ c s) = code c ∷ text s

unfoldable pub same : Text → Text → Bool
same [] [] = true
same [] (_ ∷ _) = false
same (_ ∷ _) [] = false
same (a ∷ s) (b ∷ t) = a == b && same s t

pub same_sound : (s t : Text) → same s t ≡ true → s ≡ t
unfolding same
same_sound [] [] h = refl
same_sound [] (_ ∷ _) h = cc
same_sound (_ ∷ _) [] h = cc
same_sound (a ∷ s) (b ∷ t) h = ground (arith, same_sound s t)

pub same_refl : (s : Text) → same s s ≡ true
unfolding same
same_refl [] = refl
same_refl (a ∷ s) = ground (arith, same_refl s)

pub same_sym : (s t : Text) → same s t ≡ same t s
unfolding same
same_sym [] [] = refl
same_sym [] (_ ∷ _) = refl
same_sym (_ ∷ _) [] = refl
same_sym (a ∷ s) (b ∷ t) = ground (arith, same_sym s t)

pub same_iff : (s t : Text) → (same s t ≡ true) ↔ (s ≡ t)
same_iff s t = (same_sound s t, λ e. cc (ap (same s) e, same_refl s))

abbrev pub is_empty : Text → Bool
is_empty [] = true
is_empty (_ ∷ _) = false

abbrev pub starts_with : Text → Text → Bool
starts_with [] t = true
starts_with (_ ∷ _) [] = false
starts_with (b ∷ prefix) (c ∷ t) = b == c && starts_with prefix t

-- `std::to_string`, on fuel: a number has fewer digits than its value plus one.
abbrev pub decimal : ℕ → ℕ → Text → Text
decimal zero n rest = rest
decimal (suc fuel) n rest =
    let more = decimal fuel (n / 10) ((48 + n % 10) ∷ rest) in
    if ltb n 10 then (48 + n) ∷ rest else more

abbrev pub to_string : ℕ → Text
to_string n = decimal (suc n) n []

-- `std::from_chars` into a 64-bit number that takes the whole text.
abbrev digits : ℕ → Text → Option ℕ
digits acc [] = some acc
digits acc (d ∷ ds) =
    let more = digits (acc * 10 + (d - 48)) ds in if leb 48 d && leb d 57 then more else none

abbrev in_range : Option ℕ → Option ℕ
in_range none = none
in_range (some n) = if ltb n (2 ^ 64) then some n else none

abbrev pub from_chars : Text → Option ℕ
from_chars [] = none
from_chars (d ∷ ds) = in_range (digits 0 (d ∷ ds))

none-some : {n : ℕ} → ◌≡◌ {A = Option ℕ} none (some n) → ⊥
none-some e = cc e

digits-Lacks :
    (byte acc : ℕ) (t : Text) (n : ℕ)
    → (leb 48 byte && leb byte 57) ≡ false
    → digits acc t ≡ some n
    → All (λ b. (b == byte) ≡ false) t
digits-Lacks byte acc [] n other h = tt
digits-Lacks byte acc (d ∷ ds) n other h = elim (Bool-cases (leb 48 d && leb d 57)) [
  | inl digit ↦ (
    ground arith,
    digits-Lacks byte (acc * 10 + (d - 48)) ds n other
        (sym (if_true (leb 48 d && leb d 57) digit _ none) ∙ h),
  )
  | inr bad ↦ absurd (none-some (sym (if_false (leb 48 d && leb d 57) bad _ none) ∙ h))
]

-- A number has only digits.
pub from_chars-Lacks :
    (byte : ℕ) (t : Text) (n : ℕ)
    → (leb 48 byte && leb byte 57) ≡ false
    → from_chars t ≡ some n
    → All (λ b. (b == byte) ≡ false) t
from_chars-Lacks byte [] n other h = tt
from_chars-Lacks byte (d ∷ ds) n other h = elim (Option-cases (digits 0 (d ∷ ds))) [
  | inl bad ↦ absurd (none-some (sym (ap in_range bad) ∙ h))
  | inr (m, e) ↦ digits-Lacks byte 0 (d ∷ ds) m other e
]
