-- ===== src/Router/History.antt =====
-- The answers of a router after a whole list of registrations, against the list itself.
use novaboot.Base.{
  ◌≡◌, refl, sym, ◌∙◌, ◌⊎◌, inl, inr, ◌↔◌, List, [], ◌∷◌, Option, none, some, arith, Text,
  Option-cases, All, Exists, Exists-not,
}
use novaboot.Router.Method.{Method}
use novaboot.Router.Tree.{Handler}
use novaboot.Router.Patterns.{Answers}
use novaboot.Router.Table.{Router, new_router, add_route, add_websocket, match}
use novaboot.Router.Lookup.{
  PathMatches, match-new_router, match-add_route, match-add_route_ne, match-add_websocket,
}

-- One call of the registration interface.
pub data Registration : Type 0 where
  route : Method → Text → Handler → Registration
  endpoint : Text → Handler → Registration

unfoldable pub register : Registration → Router → Option Router
register (route m pattern h) r = add_route m pattern h r
register (endpoint pattern h) r = add_websocket pattern h r

-- `none` is a registration that throws.
abbrev and_then : (Router → Option Router) → Option Router → Option Router
and_then f none = none
and_then f (some r) = f r

unfoldable pub register_all : List Registration → Router → Option Router
register_all [] r = some r
register_all (g ∷ gs) r = and_then (register_all gs) (register g r)

-- The registration is a route with this handler that answers the method on this path.
abbrev pub Serves : Method → Text → Handler → Registration → Type 0
Serves k target h (route m pattern g) = (g ≡ h) × Answers m k × PathMatches pattern target
Serves k target h (endpoint pattern g) = ⊥

and_then-some :
    (f : Router → Option Router) (o : Option Router) {r' : Router}
    → and_then f o ≡ some r'
    → (r : Router) × (o ≡ some r) × (f r ≡ some r')
and_then-some f none e = cc
and_then-some f (some r) e = (r, refl, e)

register-found :
    (k : Method) (target : Text) (h : Handler) (g : Registration) (r r' : Router)
    → register g r ≡ some r'
    → (match k target r').handler ≡ some h
    → ((match k target r).handler ≡ some h) ⊎ Serves k target h g
unfolding register
register-found k target h (route m pattern g) r r' e found =
    ground (arith, match-add_route m k pattern target g r r')
register-found k target h (endpoint pattern g) r r' e found =
    inl (sym (match-add_websocket k pattern target g r r' e) ∙ found)

register_all-found :
    (k : Method) (target : Text) (h : Handler) (gs : List Registration) (r r' : Router)
    → register_all gs r ≡ some r'
    → (match k target r').handler ≡ some h
    → ((match k target r).handler ≡ some h) ⊎ Exists (Serves k target h) gs
unfolding register_all
register_all-found k target h [] r r' e found = inl (ground arith)
register_all-found k target h (g ∷ gs) r r' e found =
    let (q, first, later) = and_then-some (register_all gs) (register g r) e in
    elim (register_all-found k target h gs q r' later found) [
      | inr listed ↦ inr (inr listed)
      | inl before ↦ elim (register-found k target h g r q first before) [
        | inl old ↦ inl old
        | inr new ↦ inr (inl new)
      ]
    ]

-- A handler that a request finds was registered for its method (or any method) under a pattern
-- that matches its path.
pub match-found :
    (k : Method) (target : Text) (h : Handler) (gs : List Registration) (r : Router)
    → register_all gs new_router ≡ some r
    → (match k target r).handler ≡ some h
    → Exists (Serves k target h) gs
match-found k target h gs r e found = elim (register_all-found k target h gs new_router r e found) [
  | inl old ↦ absurd (match-new_router k target h old)
  | inr listed ↦ listed
]

register-none :
    (k : Method) (target : Text) (g : Registration) (r r' : Router)
    → register g r ≡ some r'
    → (match k target r').handler ≡ none
    → ((match k target r).handler ≡ none) × ((h : Handler) → ¬ Serves k target h g)
unfolding register
register-none k target (route m pattern g) r r' e missed = (
  ground (arith, match-add_route m k pattern target g r r'),
  λ h s. match-add_route_ne m k pattern target g r r' e s.1 s.2 missed,
)
register-none k target (endpoint pattern g) r r' e missed =
    (sym (match-add_websocket k pattern target g r r' e) ∙ missed, λ h s. s)

register_all-none :
    (k : Method) (target : Text) (gs : List Registration) (r r' : Router)
    → register_all gs r ≡ some r'
    → (match k target r').handler ≡ none
    → ((match k target r).handler ≡ none) × All (λ g. (h : Handler) → ¬ Serves k target h g) gs
unfolding register_all
register_all-none k target [] r r' e missed = (ground arith, tt)
register_all-none k target (g ∷ gs) r r' e missed =
    let (q, first, later) = and_then-some (register_all gs) (register g r) e in
    let (before, rest) = register_all-none k target gs q r' later missed in
    let (old, here) = register-none k target g r q first before in (old, (here, rest))

All-at :
    (k : Method) (target : Text) (h : Handler) (gs : List Registration)
    → All (λ g. (h : Handler) → ¬ Serves k target h g) gs
    → All (λ g. ¬ Serves k target h g) gs
All-at k target h [] a = tt
All-at k target h (g ∷ gs) (a, as') = (a h, All-at k target h gs as')

-- A request is left without a handler exactly when no registered route is for its method (or any
-- method) under a pattern that matches its path.
pub match-eq-none_iff :
    (k : Method) (target : Text) (gs : List Registration) (r : Router)
    → register_all gs new_router ≡ some r
    → ((match k target r).handler ≡ none) ↔ All (λ g. (h : Handler) → ¬ Serves k target h g) gs
match-eq-none_iff k target gs r e = (
  λ missed. (register_all-none k target gs new_router r e missed).1,
  λ nobody. elim (Option-cases (match k target r).handler) [
    | inl missed ↦ missed
    | inr (h, found) ↦
        absurd (Exists-not _ gs (match-found k target h gs r e found) (All-at k target h gs nobody))
  ],
)
