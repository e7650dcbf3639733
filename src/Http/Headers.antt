-- ===== src/Http/Headers.antt =====
-- `HeaderMap` of src/http3/header_map.cpp. `std::tolower` is that of the C locale.
pub mod Fields
mod Tests
use novaboot.Base.{
  ℕ, ◌+◌, Bool, true, false, ◌&&◌, List, [], ◌∷◌, ◌++◌, Option, none, some, if◌then◌else◌, leb,
  ◌==◌, length, Text,
}

-- `HeaderMap::Entry`.
pub record Entry : Type 0 where
  pub name : Text
  pub value : Text

abbrev pub HeaderMap : Type 0
HeaderMap = List Entry

abbrev pub to_lower : ℕ → ℕ
to_lower c = if leb 65 c && leb c 90 then c + 32 else c

-- The loop over both names.
abbrev same_lower : Text → Text → Bool
same_lower [] b = true
same_lower (_ ∷ _) [] = true
same_lower (x ∷ a) (y ∷ b) =
    let rest = same_lower a b in if to_lower x == to_lower y then rest else false

unfoldable pub names_equal : Text → Text → Bool
names_equal a b = if length a == length b then same_lower a b else false

unfoldable pub add : Text → Text → HeaderMap → HeaderMap
add name value entries = entries ++ record { name = name; value = value } ∷ []

unfoldable pub set : Text → Text → HeaderMap → HeaderMap
set name value [] = add name value []
set name value (e ∷ entries) =
    let rest = set name value entries in
    if names_equal e.name name then record e { value = value } ∷ entries else e ∷ rest

unfoldable pub get : Text → HeaderMap → Option Text
get name [] = none
get name (e ∷ entries) = if names_equal e.name name then some e.value else get name entries

unfoldable pub get_all : Text → HeaderMap → List Text
get_all name [] = []
get_all name (e ∷ entries) =
    let rest = get_all name entries in if names_equal e.name name then e.value ∷ rest else rest

abbrev pub is_some : Option Text → Bool
is_some none = false
is_some (some value) = true

unfoldable pub has : Text → HeaderMap → Bool
has name entries = is_some (get name entries)

unfoldable pub remove : Text → HeaderMap → HeaderMap
remove name [] = []
remove name (e ∷ entries) =
    let rest = remove name entries in if names_equal e.name name then rest else e ∷ rest
