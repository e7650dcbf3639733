-- ===== src/Router/Tests.antt =====
-- Runs of the router on small tables, and instances of the theorems.
use novaboot.Base.{
  ◌≡◌, refl, ◌⊎◌, ◌↔◌, List, [], ◌∷◌, ◌++◌, Option, none, some, text, same, All, Exists,
}
use novaboot.Router.Method.{get, post}
use novaboot.Router.Params.{set, remove}
use novaboot.Router.Tree.{
  Handler, cut, segments, insert, insert_websocket, search, search_websocket,
}
use novaboot.Router.Patterns.{Answers}
use novaboot.Router.Table.{
  Router, new_router, add_route, add_websocket, before_query, match, match_websocket, join_path,
}
use novaboot.Router.Lookup.{PathMatches, match-add_route}
use novaboot.Router.History.{
  Registration, route, endpoint, register, register_all, Serves, match-found, match-eq-none_iff,
}

router : Unit {0}
unfolding match match_websocket add_route add_websocket before_query search search_websocket insert
    insert_websocket segments cut same set remove register_all register join_path
router = tt

-- GET /users/:id is 1, GET /users/me is 2, POST /static/*rest is 3, and /users/:id/live is a
-- WebSocket endpoint.
abbrev table : List Registration
table =
    route get (text "/users/:id") 1
    ∷ route get (text "/users/me") 2
    ∷ route post (text "/static/*rest") 3
    ∷ endpoint (text "/users/:id/live") 4
    ∷ []

-- The router after `table`.
abbrev served : Router
unfolding router
served = elim (register_all table new_router) as (λ _. Router) [ some r ↦ r | none ↦ new_router ]

served_lem : register_all table new_router ≡ some served
unfolding router
served_lem = refl

static_first : match get (text "/users/me?x=1") served ≡ record { handler = some 2; params = [] }
unfolding router
static_first = refl

by_param :
    match get (text "/users/42") served
    ≡ record { handler = some 1; params = (text "id", text "42") ∷ [] }
unfolding router
by_param = refl

by_query :
    (match get (text "/users/42?a=b") served).handler
    ≡ (match get (text "/users/42") served).handler
unfolding router
by_query = refl

wrong_method : (match post (text "/users/42") served).handler ≡ none
unfolding router
wrong_method = refl

by_wildcard :
    match post (text "/static/css/a.css") served
    ≡ record { handler = some 3; params = (text "rest", text "css/a.css") ∷ [] }
unfolding router
by_wildcard = refl

by_websocket :
    match_websocket (text "/users/7/live") served
    ≡ record { handler = some 4; params = (text "id", text "7") ∷ [] }
unfolding router
by_websocket = refl

-- The HTTP search keeps the parameter of a branch that it has left, here `x`.
abbrev backtracked : Option Router
unfolding router
backtracked =
    register_all (route get (text "/a/:x/b") 1 ∷ route get (text "/a/*rest") 2 ∷ []) new_router

abbrev or_new : Option Router → Router
or_new none = new_router
or_new (some r) = r

stale_parameter :
    match get (text "/a/q/c") (or_new backtracked)
    ≡ record { handler = some 2; params = (text "x", text "q") ∷ (text "rest", text "q/c") ∷ [] }
unfolding router
stale_parameter = refl

with_static : Router
with_static = record served {
  root = insert (segments (text "users/you")) get 9 served.root;
  route_count = 4;
  route_infos = served.route_infos ++ record { method = get; pattern = text "/users/you" } ∷ [];
}

with_static_lem : add_route get (text "/users/you") 9 served ≡ some with_static
unfolding router with_static
with_static_lem = refl

match-add_route_example :
    ((match get (text "/users/you") with_static).handler
      ≡ (match get (text "/users/you") served).handler)
    ⊎ (((match get (text "/users/you") with_static).handler ≡ some 9)
        × Answers get get
        × PathMatches (text "/users/you") (text "/users/you"))
match-add_route_example =
    match-add_route get get (text "/users/you") (text "/users/you") 9 served with_static
      with_static_lem

with_endpoint : Router
with_endpoint = record served {
  root = insert_websocket (segments (text "users/me/*all")) 5 served.root;
  websocket_route_infos = served.websocket_route_infos ++ text "/users/me/*all" ∷ [];
}

with_endpoint_lem : add_websocket (text "/users/me/*all") 5 served ≡ some with_endpoint
unfolding router with_endpoint
with_endpoint_lem = refl

match-found_example : Exists (Serves get (text "/users/42") 1) table
unfolding router
match-found_example = match-found get (text "/users/42") 1 table served served_lem refl

match-eq-none_iff_example :
    ((match get (text "/none") served).handler ≡ none)
    ↔ All (λ g. (h : Handler) → ¬ Serves get (text "/none") h g) table
match-eq-none_iff_example = match-eq-none_iff get (text "/none") table served served_lem
