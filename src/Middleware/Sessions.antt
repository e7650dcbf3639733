-- ===== src/Middleware/Sessions.antt =====
-- Browser sessions: src/middleware/session_middleware.cpp. A time is in nanoseconds. The random
-- bytes of OpenSSL are an argument, absent where it fails. A throw is the absence of a result; what
-- was done to the store before stays done.
pub mod Login
mod Tests
use novaboot.Base.{
  ℤ, pos, ℕ, ◌+◌, ◌*◌, ◌/◌, ◌%◌, Bool, true, false, not, ◌&&◌, ◌||◌, List, [], ◌∷◌, ◌++◌, Option,
  none, some, if◌then◌else◌, ltb, leb, ◌==◌, Text, text, same, is_empty,
}
use novaboot.Base.Dict
use novaboot.Base.Dict.{Dict}
use novaboot.Http.Messages.{Request, Response, with_status, json}
use novaboot.Http.Cookies.{SameSite, Cookie, set_cookie, request_cookie}
use novaboot.Middleware.Paths.{path_allowed}

pub record SessionPrincipal : Type 0 where
  pub subject : Text
  pub roles : List Text
  pub scopes : List Text

pub record Session : Type 0 where
  pub id : Text
  pub principal : SessionPrincipal
  pub expires_at : ℕ

abbrev pub InMemorySessionStore : Type 0
InMemorySessionStore = Dict Session

unfoldable pub put : Session → InMemorySessionStore → InMemorySessionStore
put session sessions = Dict.assign session.id session sessions

abbrev pub unless_expired :
    Text → ℕ → InMemorySessionStore → Option Session → InMemorySessionStore × Option Session
unless_expired id now sessions none = (sessions, none)
unless_expired id now sessions (some session) =
    if leb session.expires_at now then (Dict.erase id sessions, none) else (sessions, some session)

unfoldable pub find :
    Text → (now : ℕ) → InMemorySessionStore → InMemorySessionStore × Option Session
find id now sessions = unless_expired id now sessions (Dict.lookup id sessions)

-- `SessionManager::Config`, with the lifetime in seconds, which the constructor wants positive.
pub record ManagerConfig : Type 0 where
  pub cookie_name : Text
  pub cookie_path : Text
  pub cookie_domain : Option Text
  pub ttl : ℕ
  pub secure_cookie : Bool
  pub same_site : SameSite

abbrev pub nibble : ℕ → ℕ
nibble n = if ltb n 10 then 48 + n else 87 + n

abbrev pub hex : List ℕ → Text
hex [] = []
hex (b ∷ bytes) = nibble (b / 16) ∷ nibble (b % 16) ∷ hex bytes

abbrev pub session_cookie : ManagerConfig → Text → ℤ → Cookie
session_cookie config id max_age = record {
  name = config.cookie_name;
  value = id;
  path = config.cookie_path;
  domain = config.cookie_domain;
  max_age = some max_age;
  secure = config.secure_cookie;
  http_only = true;
  same_site = config.same_site;
}

unfoldable pub issue_cookie : ManagerConfig → Text → (max_age : ℤ) → Response → Option Response
issue_cookie config id max_age response = set_cookie (session_cookie config id max_age) response

abbrev pub erase_previous : Option Text → InMemorySessionStore → InMemorySessionStore
erase_previous none sessions = sessions
erase_previous (some id) sessions = Dict.erase id sessions

abbrev pub with_cookie :
    InMemorySessionStore
    → Session
    → Option Response
    → InMemorySessionStore × Option (Session × Response)
with_cookie sessions session none = (sessions, none)
with_cookie sessions session (some response) = (sessions, some (session, response))

abbrev pub new_session : ManagerConfig → (now : ℕ) → SessionPrincipal → List ℕ → Session
new_session config now principal bytes = record {
  id = hex bytes;
  principal = principal;
  expires_at = now + config.ttl * 1000000000;
}

abbrev pub login_with :
    ManagerConfig
    → ℕ
    → SessionPrincipal
    → Response
    → InMemorySessionStore
    → Option (List ℕ)
    → InMemorySessionStore × Option (Session × Response)
login_with config now principal response sessions none = (sessions, none)
login_with config now principal response sessions (some bytes) =
    let session = new_session config now principal bytes in
    with_cookie (put session sessions) session
      (issue_cookie config session.id (pos config.ttl) response)

unfoldable pub login :
    ManagerConfig
    → Request
    → (now : ℕ) → (random : Option (List ℕ)) → SessionPrincipal
    → Response
    → InMemorySessionStore
    → InMemorySessionStore × Option (Session × Response)
login config request now random principal response sessions =
    if is_empty principal.subject
    then (sessions, none)
    else login_with config now principal response
        (erase_previous (request_cookie config.cookie_name request) sessions) random

abbrev pub principal_of : Option Session → Option SessionPrincipal
principal_of none = none
principal_of (some session) = some session.principal

abbrev pub authenticate_found :
    InMemorySessionStore × Option Session → InMemorySessionStore × Option SessionPrincipal
authenticate_found (sessions, session) = (sessions, principal_of session)

abbrev pub authenticate_id :
    ℕ → InMemorySessionStore → Option Text → InMemorySessionStore × Option SessionPrincipal
authenticate_id now sessions none = (sessions, none)
authenticate_id now sessions (some []) = (sessions, none)
authenticate_id now sessions (some (b ∷ id)) = authenticate_found (find (b ∷ id) now sessions)

unfoldable pub authenticate :
    ManagerConfig
    → Request
    → (now : ℕ) → InMemorySessionStore
    → InMemorySessionStore × Option SessionPrincipal
authenticate config request now sessions =
    authenticate_id now sessions (request_cookie config.cookie_name request)

unfoldable pub logout :
    ManagerConfig
    → Request
    → Response
    → InMemorySessionStore
    → InMemorySessionStore × Option Response
logout config request response sessions = (
  erase_previous (request_cookie config.cookie_name request) sessions,
  issue_cookie config [] (pos 0) response,
)

pub record Config : Type 0 where
  pub allowlist_paths : List Text
  pub allow_options_requests : Bool
  pub unauthorized_status : ℕ
  pub unauthorized_body : Text

-- What `handle` does: goes on, with a principal in the context where there is one, or answers.
pub data Outcome : Type 0 where
  continued : (principal : Option SessionPrincipal) → Outcome
  answered : Response → Outcome

abbrev pub judge :
    Config
    → Response
    → InMemorySessionStore × Option SessionPrincipal
    → InMemorySessionStore × Outcome
judge config response (sessions, none) = (
  sessions,
  answered (json config.unauthorized_body (with_status config.unauthorized_status response)),
)
judge config response (sessions, some principal) = (sessions, continued (some principal))

unfoldable pub handle :
    ManagerConfig
    → Config
    → Request
    → (now : ℕ) → Response
    → InMemorySessionStore
    → InMemorySessionStore × Outcome
handle manager config request now response sessions =
    if (config.allow_options_requests && same request.method (text "OPTIONS"))
      || path_allowed config.allowlist_paths request.path
    then (sessions, continued none)
    else judge config response (authenticate manager request now sessions)
