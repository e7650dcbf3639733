-- ===== src/Http/Headers/Tests.antt =====
-- Runs of src/http3/header_map.cpp.
use novaboot.Base.{◌≡◌, refl, [], ◌∷◌, ◌++◌, if◌then◌else◌, Text, text}
use novaboot.Http.Headers.{HeaderMap, names_equal, add, set, get, get_all, remove}
use novaboot.Http.Headers.Fields.{first, tail, operations_lem}

abbrev accept : Text
accept = text "accept"

abbrev headers : HeaderMap
headers =
    record { name = text "Accept"; value = text "a" }
    ∷ record { name = text "Host"; value = text "h" }
    ∷ record { name = text "ACCEPT"; value = text "b" }
    ∷ []

all_cases : get_all accept headers ≡ text "a" ∷ text "b" ∷ []
unfolding get_all names_equal
all_cases = refl

operations_lem_example :
    (get_all accept (add accept (text "c") headers)
      ≡ get_all accept headers ++ (if names_equal accept accept then text "c" ∷ [] else []))
    × (get_all accept (set accept (text "c") headers) ≡ (
        if names_equal accept accept
        then text "c" ∷ tail (get_all accept headers)
        else get_all accept headers))
    × (get_all accept (remove accept headers)
        ≡ (if names_equal accept accept then [] else get_all accept headers))
    × (get accept headers ≡ first (get_all accept headers))
operations_lem_example = operations_lem accept accept (text "c") headers
