-- ===== src/Middleware/Authorization.antt =====
-- Role and scope policies: src/middleware/authorization_middleware.cpp. The context may hold the
-- principal of a token and that of a session. The roles that a token's claim gives are an argument,
-- since claims are read with the JSON of src/middleware/jwt_middleware.cpp.
pub mod Matching
pub mod Policies
mod Tests
use novaboot.Base.{
  ℕ, Bool, true, false, not, ◌&&◌, ◌||◌, List, [], ◌∷◌, Option, none, some, if◌then◌else◌, leb, ◌-◌,
  ◌==◌, map, Text, text, same, is_empty, starts_with,
}
use novaboot.Http.Messages.{Request, Response, with_header, with_status, json}
use novaboot.Middleware.Paths.{before_star}
use novaboot.Middleware.Sessions.{SessionPrincipal}

pub data MatchMode : Type 0 where
  match_any match_all : MatchMode

-- `JwtPrincipal`, as far as it is read here.
pub record JwtPrincipal : Type 0 where
  pub scopes : List Text
  pub claimed_roles : List Text

pub record Context : Type 0 where
  pub jwt : Option JwtPrincipal
  pub session : Option SessionPrincipal

pub record Policy : Type 0 where
  pub path : Text
  pub method : List Text
  pub methods : List Text
  pub require_authenticated : Bool
  pub required_scopes : List Text
  pub scope_match : MatchMode
  pub required_roles : List Text
  pub role_match : MatchMode
  pub custom_policies : List (Request → Context → Bool)

pub record Config : Type 0 where
  pub policies : List Policy
  pub unauthorized_status : ℕ
  pub unauthorized_body : Text
  pub forbidden_status : ℕ
  pub forbidden_body : Text

abbrev pub prefix_matches : Text → Text → Option Text → Bool
prefix_matches pattern path none = same path pattern
prefix_matches pattern path (some prefix) = starts_with prefix path

abbrev pub path_matches : Text → Text → Bool
path_matches pattern path =
    same pattern (text "*") || prefix_matches pattern path (before_star pattern)

abbrev pub to_upper : ℕ → ℕ
to_upper c = if leb 97 c && leb c 122 then c - 32 else c

abbrev pub upper : Text → Text
upper value = map to_upper value

abbrev pub method_in : List Text → Text → Bool
method_in [] method = false
method_in (m ∷ methods) method = same (upper m) (upper method) || method_in methods method

abbrev pub method_matches : List Text → Text → Bool
method_matches [] method = true
method_matches (m ∷ methods) method = method_in (m ∷ methods) method

abbrev pub preferred : List Text → List Text → List Text
preferred [] methods = methods
preferred (m ∷ method) methods = m ∷ method

abbrev pub methods_of : Policy → List Text
methods_of policy = preferred policy.method policy.methods

unfoldable pub policy_matches : Policy → Request → Bool
policy_matches policy request =
    path_matches policy.path request.path && method_matches (methods_of policy) request.method

abbrev pub contains : List Text → Text → Bool
contains [] needle = false
contains (value ∷ values) needle = same value needle || contains values needle

abbrev pub any_of : List Text → List Text → Bool
any_of actual [] = false
any_of actual (value ∷ required) = contains actual value || any_of actual required

abbrev pub all_of : List Text → List Text → Bool
all_of actual [] = true
all_of actual (value ∷ required) = contains actual value && all_of actual required

abbrev pub by_mode : List Text → List Text → MatchMode → Bool
by_mode actual required match_any = any_of actual required
by_mode actual required match_all = all_of actual required

unfoldable pub satisfies : List Text → List Text → MatchMode → Bool
satisfies actual [] mode = true
satisfies actual (value ∷ required) mode = by_mode actual (value ∷ required) mode

pub data Outcome : Type 0 where
  continued : Outcome
  answered : Response → Outcome

abbrev pub reject_unauthorized : Config → Response → Outcome
reject_unauthorized config response = answered (
    json config.unauthorized_body (
      with_header (text "WWW-Authenticate") (text "Bearer error=\"invalid_token\"")
        (with_status config.unauthorized_status response)))

abbrev pub reject_forbidden : Config → Response → Outcome
reject_forbidden config response =
    answered (json config.forbidden_body (with_status config.forbidden_status response))

-- What the first loop finds, which ends at a policy that requires a principal.
abbrev pub any_matches : List Policy → Request → Bool
any_matches [] request = false
any_matches (policy ∷ policies) request =
    policy_matches policy request || any_matches policies request

abbrev pub requires_principal : List Policy → Request → Bool
requires_principal [] request = false
requires_principal (policy ∷ policies) request =
    (policy_matches policy request && policy.require_authenticated)
    || requires_principal policies request

-- The scopes and the roles of a principal; the token's comes first.
abbrev pub session_grants : Option SessionPrincipal → Option (List Text × List Text)
session_grants none = none
session_grants (some p) = some (p.scopes, p.roles)

abbrev pub jwt_grants :
    Option JwtPrincipal → Option SessionPrincipal → Option (List Text × List Text)
jwt_grants none session = session_grants session
jwt_grants (some p) session = some (p.scopes, p.claimed_roles)

abbrev pub grants : Context → Option (List Text × List Text)
grants context = jwt_grants context.jwt context.session

abbrev pub all_custom : List (Request → Context → Bool) → Request → Context → Bool
all_custom [] request context = true
all_custom (custom ∷ customs) request context =
    custom request context && all_custom customs request context

abbrev pub grants_allow : Policy → Option (List Text × List Text) → Bool
grants_allow policy none = true
grants_allow policy (some (scopes, roles)) =
    satisfies scopes policy.required_scopes policy.scope_match
    && satisfies roles policy.required_roles policy.role_match

-- The checks of one policy. Without grants, no policy that is checked requires a principal.
abbrev pub policy_allows : Policy → Request → Context → Bool
policy_allows policy request context =
    (not policy.require_authenticated || grants_allow policy (grants context))
    && all_custom policy.custom_policies request context

abbrev pub all_allow : List Policy → Request → Context → Bool
all_allow [] request context = true
all_allow (policy ∷ policies) request context =
    (not (policy_matches policy request) || policy_allows policy request context)
    && all_allow policies request context

abbrev pub is_authenticated : Option (List Text × List Text) → Bool
is_authenticated none = false
is_authenticated (some g) = true

unfoldable pub handle : Config → Request → Context → Response → Outcome
handle config request context response =
    if not (any_matches config.policies request)
    then continued
    else if requires_principal config.policies request && not (is_authenticated (grants context))
    then reject_unauthorized config response
    else if all_allow config.policies request context
    then continued
    else reject_forbidden config response
