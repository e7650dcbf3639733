-- ===== src/Base/Integers.antt =====
-- Signed integers over the native numbers, under the library's names, whose ℤ stands on another ℕ.
use Prim.Native.Nat.{ℕ, suc}
use mathlib.Core.List.{◌∷◌}
use novaboot.Base.Codes.{Text, to_string}

-- `negsuc n` is -(n + 1).
pub data ℤ : Type 0 where
  pos : ℕ → ℤ
  negsuc : ℕ → ℤ

-- `std::to_string` of a signed number.
abbrev pub to_string_ℤ : ℤ → Text
to_string_ℤ (pos n) = to_string n
to_string_ℤ (negsuc n) = 45 ∷ to_string (suc n)
