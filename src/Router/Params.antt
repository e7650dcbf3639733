-- ===== src/Router/Params.antt =====
-- Path parameters: include/novaboot/router/path_params.h. The hash map is an association list with
-- one entry for each name.
use novaboot.Base.{
  ℕ, Bool, true, false, ◌≡◌, refl, List, [], ◌∷◌, Option, none, some, arith, if◌then◌else◌, length,
  Text, same, same_iff,
}

abbrev pub PathParams : Type 0
PathParams = List (Text × Text)

unfoldable pub set : Text → Text → PathParams → PathParams
set name value [] = (name, value) ∷ []
set name value ((n, v) ∷ ps) =
    if same n name then (name, value) ∷ ps else (n, v) ∷ set name value ps

unfoldable pub get : Text → PathParams → Option Text
get name [] = none
get name ((n, v) ∷ ps) = if same n name then some v else get name ps

unfoldable pub remove : Text → PathParams → PathParams
remove name [] = []
remove name ((n, v) ∷ ps) = if same n name then remove name ps else (n, v) ∷ remove name ps

abbrev has_value : Option Text → Bool
has_value none = false
has_value (some v) = true

pub has : Text → PathParams → Bool
has name ps = has_value (get name ps)

pub size : PathParams → ℕ
size ps = length ps

pub clear : PathParams → PathParams
clear ps = []

-- A parameter that is set is read back, and every other one keeps its value.
pub get-set :
    (name k value : Text) (ps : PathParams)
    → get k (set name value ps) ≡ (if same name k then some value else get k ps)
unfolding get set
get-set name k value [] = refl
get-set name k value ((n, v) ∷ ps) =
    ground (arith, same_iff name k, same_iff n k, same_iff n name, get-set name k value ps)

-- A parameter that is removed is gone, and every other one keeps its value.
pub get-remove :
    (name k : Text) (ps : PathParams)
    → get k (remove name ps) ≡ (if same name k then none else get k ps)
unfolding get remove
get-remove name k [] = ground arith
get-remove name k ((n, v) ∷ ps) =
    ground (arith, same_iff name k, same_iff n k, same_iff n name, get-remove name k ps)
