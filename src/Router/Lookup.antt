-- ===== src/Router/Lookup.antt =====
-- What `Router::match` answers after any sequence of registrations.
use novaboot.Base.{
  true, ◌≡◌, refl, ◌∙◌, ◌≢◌, ◌⊎◌, inl, inr, List, [], ◌∷◌, ◌++◌, none, some, arith, if◌then◌else◌,
  Text, Bool-cases,
}
use novaboot.Router.Method.{Method}
use novaboot.Router.Tree.{Handler, Found, segments, starts, insert, insert_websocket}
use novaboot.Router.Finding.{find, search-find}
use novaboot.Router.Patterns.{Matches, Answers, IsStatic}
use novaboot.Router.Insertion.{find-new_node, find-insert, find-insert_websocket}
use novaboot.Router.Reaching.{find-insert-Matches, find-insert-IsStatic}
use novaboot.Router.Table.{
  Router, new_router, behind_slash, add_route, add_websocket, before_query, to_result, match,
}

-- The segments of a request's path, without its query.
abbrev pub path_segments : Text → List Text
path_segments target = segments (behind_slash (before_query target))

-- The path of the request is absolute and matches the pattern.
abbrev pub PathMatches : Text → Text → Type 0
PathMatches pattern target =
    (starts b'/' (before_query target) ≡ true)
    × Matches (segments (behind_slash pattern)) (path_segments target)

to_result-handler : (f : Found) → (to_result f).handler ≡ f.0
to_result-handler (some h, ps) = refl
to_result-handler (none, ps) = refl

pub match-find :
    (m : Method) (target : Text) (r : Router)
    → (match m target r).handler
      ≡ (if starts b'/' (before_query target) then find (path_segments target) m r.root else none)
unfolding match
match-find m target r = elim (Bool-cases (starts b'/' (before_query target))) [
  | inl e ↦ rw e (to_result-handler _ ∙ search-find m r.root _ [])
  | inr e ↦ rw e
]

add_route-root :
    (m : Method) (pattern : Text) (h : Handler) (r r' : Router)
    → add_route m pattern h r ≡ some r'
    → r'.root ≡ insert (segments (behind_slash pattern)) m h r.root
unfolding add_route
add_route-root m pattern h r r' e = ground arith

add_websocket-root :
    (pattern : Text) (h : Handler) (r r' : Router)
    → add_websocket pattern h r ≡ some r'
    → r'.root ≡ insert_websocket (segments (behind_slash pattern)) h r.root
unfolding add_websocket
add_websocket-root pattern h r r' e = ground arith

add_route-absolute :
    (m : Method) (pattern : Text) (h : Handler) (r r' : Router)
    → add_route m pattern h r ≡ some r'
    → starts b'/' pattern ≡ true
unfolding add_route
add_route-absolute m pattern h r r' e = ground arith

-- A new route changes the handler that a request finds only into its own, and only if the route is
-- for the request's method (or any) and its pattern matches the path. The path parameters are not
-- part of this.
pub match-add_route :
    (m k : Method) (pattern target : Text) (h : Handler) (r r' : Router)
    → add_route m pattern h r ≡ some r'
    → ((match k target r').handler ≡ (match k target r).handler)
      ⊎ (((match k target r').handler ≡ some h) × Answers m k × PathMatches pattern target)
match-add_route m k pattern target h r r' e =
    rw (match-find k target r', match-find k target r, add_route-root m pattern h r r' e)
      (ground
        (arith, find-insert (segments (behind_slash pattern)) (path_segments target) m k h r.root))

-- After a route is added, a request that it answers on a matching path finds a handler.
pub match-add_route_ne :
    (m k : Method) (pattern target : Text) (h : Handler) (r r' : Router)
    → add_route m pattern h r ≡ some r'
    → Answers m k
    → PathMatches pattern target
    → (match k target r').handler ≢ none
match-add_route_ne m k pattern target h r r' e a (abs, t) =
    rw (match-find k target r', add_route-root m pattern h r r' e, abs)
      (find-insert-Matches m k h r.root t a)

-- A route that is registered successfully, and whose pattern has no query, no parameters and no
-- wildcards, answers its own path, whatever was registered before.
match-add_route-IsStatic :
    (m : Method) (pattern : Text) (h : Handler) (r r' : Router)
    → add_route m pattern h r ≡ some r'
    → before_query pattern ≡ pattern
    → IsStatic (segments (behind_slash pattern))
    → (match m pattern r').handler ≡ some h
match-add_route-IsStatic m pattern h r r' e q st =
    match-find m pattern r'
    ∙ rw (q, add_route-absolute m pattern h r r' e, add_route-root m pattern h r r' e)
        (find-insert-IsStatic (segments (behind_slash pattern)) m h r.root st)

-- Registering a WebSocket endpoint changes the answer to no HTTP request.
pub match-add_websocket :
    (k : Method) (pattern target : Text) (h : Handler) (r r' : Router)
    → add_websocket pattern h r ≡ some r'
    → (match k target r').handler ≡ (match k target r).handler
match-add_websocket k pattern target h r r' e =
    rw (match-find k target r', match-find k target r, add_websocket-root pattern h r r' e)
      (rw
        (find-insert_websocket (segments (behind_slash pattern)) (path_segments target) k h r.root))

find-new_router : (ss : List Text) (k : Method) → find ss k new_router.root ≡ none
find-new_router ss k = find-new_node ss k []

pub match-new_router :
    (k : Method) (target : Text) (h : Handler) → (match k target new_router).handler ≢ some h
match-new_router k target h e =
    ground (arith, match-find k target new_router, find-new_router (path_segments target) k)

before_query-append : (path query : Text) → before_query (path ++ b'?' ∷ query) ≡ before_query path
unfolding before_query
before_query-append [] query = refl
before_query-append (c ∷ path) query = ground (arith, before_query-append path query)

-- The answer to a request does not depend on its query.
match_query :
    (k : Method) (path query : Text) (r : Router)
    → match k (path ++ b'?' ∷ query) r ≡ match k path r
unfolding match
match_query k path query r = rw (before_query-append path query)
