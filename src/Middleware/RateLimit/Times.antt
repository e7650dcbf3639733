-- ===== src/Middleware/RateLimit/Times.antt =====
-- Requests at given times, for the limiters of src/middleware/rate_limit_middleware.cpp.
use novaboot.Base.{ℕ, ◌≤◌, Bool, false, List, [], ◌∷◌, Option, none, some, arith}
use novaboot.Middleware.RateLimit.{Result}

abbrev pub is_granted : Option Result → Bool
is_granted none = false
is_granted (some r) = r.allowed

-- The times are in order, from the first time on and up to the last.
abbrev pub Ordered : ℕ → List ℕ → ℕ → Type 0
Ordered from [] last = from ≤ last
Ordered from (now ∷ times) last = (from ≤ now) × Ordered now times last

pub Ordered-le : (times : List ℕ) (from last : ℕ) → Ordered from times last → from ≤ last
Ordered-le [] from last o = o
Ordered-le (now ∷ times) from last (h, o) = omega (arith, Ordered-le times now last o)
