-- ===== src/Router/Table.antt =====
-- The class `Router` of include/novaboot/router/router.h: registration, lookup, route groups and
-- exception handlers, over the tree of novaboot.Router.Tree. A thrown exception is `none`.
use novaboot.Base.{
  ℕ, ◌+◌, Bool, true, false, List, [], ◌∷◌, ◌++◌, Option, none, some, if◌then◌else◌, ◌==◌, Text,
  is_empty,
}
use novaboot.Router.Method.{Method, method_from_string}
use novaboot.Router.Params.{PathParams}
use novaboot.Router.Tree.{
  Handler, Node, new_node, Found, segments, starts, insert, insert_websocket, search,
  search_websocket,
}

pub record RouteInfo : Type 0 where
  pub method : Method
  pub pattern : Text

pub record Router : Type 0 where
  pub root : Node
  pub route_count : ℕ
  pub route_infos : List RouteInfo
  pub websocket_route_infos : List Text

abbrev pub new_router : Router
new_router = record {
  root = new_node [];
  route_count = 0;
  route_infos = [];
  websocket_route_infos = [];
}

-- `substr(1)`, once the first byte is known.
abbrev pub behind_slash : Text → Text
behind_slash [] = []
behind_slash (c ∷ s) = s

unfoldable pub add_route : Method → Text → Handler → Router → Option Router
add_route m pattern h r =
    if starts b'/' pattern
    then some (record r {
      root = insert (segments (behind_slash pattern)) m h r.root;
      route_count = r.route_count + 1;
      route_infos = r.route_infos ++ record { method = m; pattern = pattern } ∷ [];
    })
    else none

unfoldable pub add_websocket : Text → Handler → Router → Option Router
add_websocket pattern h r =
    if starts b'/' pattern
    then some (record r {
      root = insert_websocket (segments (behind_slash pattern)) h r.root;
      websocket_route_infos = r.websocket_route_infos ++ pattern ∷ [];
    })
    else none

-- The path up to the query.
unfoldable pub before_query : Text → Text
before_query [] = []
before_query (c ∷ s) = if c == b'?' then [] else c ∷ before_query s

pub record MatchResult : Type 0 where
  pub handler : Option Handler
  pub params : PathParams

abbrev pub no_match : MatchResult
no_match = record { handler = none; params = [] }

-- The parameters are moved into the result only with a handler.
abbrev pub to_result : Found → MatchResult
to_result (some h, ps) = record { handler = some h; params = ps }
to_result (none, ps) = no_match

unfoldable pub match : Method → Text → Router → MatchResult
match m target r =
    let path = before_query target in
    if starts b'/' path then to_result (search m r.root (behind_slash path) []) else no_match

pub match_string : Text → Text → Router → MatchResult
match_string method path r = match (method_from_string method) path r

unfoldable pub match_websocket : Text → Router → MatchResult
match_websocket target r =
    let path = before_query target in
    if starts b'/' path
    then to_result (search_websocket r.root (behind_slash path) [])
    else no_match

-- `RouteBuilder`: a router with the path of the routes to come.
pub record RouteBuilder : Type 0 where
  pub router : Router
  pub path : Text

abbrev built : Text → Option Router → Option RouteBuilder
built path none = none
built path (some r) = some (record { router = r; path = path })

pub build : Method → Handler → RouteBuilder → Option RouteBuilder
build m h b = built b.path (add_route m b.path h b.router)

abbrev pub ends : ℕ → Text → Bool
ends c [] = false
ends c (d ∷ []) = d == c
ends c (d ∷ e ∷ s) = ends c (e ∷ s)

abbrev pub drop_last : Text → Text
drop_last [] = []
drop_last (c ∷ []) = []
drop_last (c ∷ d ∷ s) = c ∷ drop_last (d ∷ s)

unfoldable pub join_path : Text → Text → Text
join_path base rel =
    if is_empty rel
    then base
    else if is_empty base
    then rel
    else if ends b'/' base
    then (if starts b'/' rel then drop_last base ++ rel else base ++ rel)
    else (if starts b'/' rel then base ++ rel else base ++ b'/' ∷ rel)

-- `RouterGroup`: every route is registered under the joined path.
pub record RouterGroup : Type 0 where
  pub router : Router
  pub prefix : Text

pub subgroup : Text → RouterGroup → RouterGroup
subgroup path g = record g { prefix = join_path g.prefix path }

abbrev grouped : Text → Option Router → Option RouterGroup
grouped prefix none = none
grouped prefix (some r) = some (record { router = r; prefix = prefix })

unfoldable pub group_route : Method → Text → Handler → RouterGroup → Option RouterGroup
group_route m path h g = grouped g.prefix (add_route m (join_path g.prefix path) h g.router)

-- `handle_exception`: the first handler that accepts the exception writes the response.
pub handle_exception {ℓ κ} : {E : Type ℓ} {R : Type κ} → List (E → R → Option R) → E → R → R × Bool
handle_exception [] ex res = (res, false)
handle_exception (handler ∷ hs) ex res = elim (handler ex res) [
  | some res' ↦ (res', true)
  | none ↦ handle_exception hs ex res
]
