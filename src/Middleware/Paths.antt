-- ===== src/Middleware/Paths.antt =====
-- The allow list of paths, `path_allowed` of src/middleware/concurrency_limit_middleware.cpp and of
-- src/middleware/rate_limit_middleware.cpp, which are the same.
use novaboot.Base.{
  starts_with, Bool, false, ◌||◌, List, [], ◌∷◌, Option, none, some, ◌==◌, if◌then◌else◌, Text,
  same,
}

-- The text before a final `*`, if it ends in one.
abbrev pub before_star : Text → Option Text
before_star [] = none
before_star (b ∷ []) = if b == 42 then some [] else none
before_star (b ∷ c ∷ bs) = elim (before_star (c ∷ bs)) [
  | none ↦ none
  | some front ↦ some (b ∷ front)
]

abbrev pub pattern_allows : Text → Text → Option Text → Bool
pattern_allows pattern path none = same path pattern
pattern_allows pattern path (some prefix) = starts_with prefix path

unfoldable pub path_allowed : List Text → Text → Bool
path_allowed [] path = false
path_allowed (pattern ∷ patterns) path =
    pattern_allows pattern path (before_star pattern) || path_allowed patterns path
