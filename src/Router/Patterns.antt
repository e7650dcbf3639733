-- ===== src/Router/Patterns.antt =====
-- When a route pattern matches a path, independently of the tree: both are lists of segments. This
-- is the specification that the radix tree of src/router/router.cpp is held to.
use novaboot.Base.{true, false, ◌≡◌, List, [], ◌∷◌, ◌⊎◌, Text}
use novaboot.Router.Method.{Method, any}
use novaboot.Router.Tree.{starts}

-- `wild` takes one segment or more, `param` one segment, and a static segment itself.
pub data Matches : List Text → List Text → Type 0 where
  done : Matches [] []
  wild : {p s : Text} {ps ss : List Text} → starts b'*' p ≡ true → Matches (p ∷ ps) (s ∷ ss)
  param :
      {p s : Text} {ps ss : List Text}
      → starts b'*' p ≡ false
      → starts b':' p ≡ true
      → Matches ps ss
      → Matches (p ∷ ps) (s ∷ ss)
  static :
      {p s : Text} {ps ss : List Text}
      → starts b'*' p ≡ false
      → starts b':' p ≡ false
      → p ≡ s
      → Matches ps ss
      → Matches (p ∷ ps) (s ∷ ss)

-- A route answers its own method, and every method if it is registered for `ANY`.
abbrev pub Answers : Method → Method → Type 0
Answers registered asked = (registered ≡ asked) ⊎ (registered ≡ any)

abbrev pub IsStatic : List Text → Type 0
IsStatic [] = Unit
IsStatic (p ∷ ps) = (starts b'*' p ≡ false) × (starts b':' p ≡ false) × IsStatic ps
