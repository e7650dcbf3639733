-- ===== src/Middleware/Sessions/Tests.antt =====
-- Runs of src/middleware/session_middleware.cpp.
use novaboot.Base.{◌≡◌, refl, true, [], ◌∷◌, none, some, Text, text, same}
use novaboot.Base.Dict
use novaboot.Http.Headers.{get_all, names_equal, add}
use novaboot.Http.Messages.{Request, Response, with_status, json}
use novaboot.Http.Cookies.{lax, serialize_cookie, set_cookie, request_cookie}
use novaboot.Middleware.Paths.{path_allowed}
use novaboot.Middleware.Sessions.{
  SessionPrincipal, Session, InMemorySessionStore, put, ManagerConfig, new_session, issue_cookie,
  login, Config, answered, handle,
}
use novaboot.Middleware.Sessions.Login.{handle-login, lookup-login}

abbrev manager : ManagerConfig
manager = record {
  cookie_name = text "NOVA";
  cookie_path = text "/";
  cookie_domain = none;
  ttl = 60;
  secure_cookie = true;
  same_site = lax;
}

abbrev config : Config
config = record {
  allowlist_paths = text "/login" ∷ [];
  allow_options_requests = true;
  unauthorized_status = 401;
  unauthorized_body = text "no";
}

abbrev asking : Text → Text → Request
asking path cookies = record {
  method = text "GET";
  path = path;
  scheme = text "https";
  authority = [];
  peer_address = [];
  client_address = [];
  headers = record { name = text "cookie"; value = cookies } ∷ [];
  body = [];
}

abbrev ann : SessionPrincipal
ann = record { subject = text "ann"; roles = []; scopes = [] }

abbrev empty_response : Response
empty_response = record { status_code = 200; headers = []; body = [] }

abbrev made : Session
made = new_session manager 5 ann (0xab ∷ 1 ∷ [])

abbrev cookie_response : Response
cookie_response = record empty_response {
  headers =
      record {
        name = text "set-cookie";
        value = text "NOVA=ab01; Path=/; Max-Age=60; Secure; HttpOnly; SameSite=Lax";
      }
      ∷ [];
}

abbrev one_session : InMemorySessionStore
one_session = (text "ab01", made) ∷ []

login_run :
    login manager
      (asking (text "/login") (text "NOVA=old"))
      5
      (some (0xab ∷ 1 ∷ []))
      ann
      empty_response
      ((text "old", made) ∷ [])
    ≡ (one_session, some (made, cookie_response))
unfolding login put issue_cookie set_cookie serialize_cookie request_cookie get_all names_equal add
    same
login_run = refl

handle-login_example :
    (handle manager config
      (asking (text "/home") (text "NOVA=ab01"))
      60000000005
      empty_response
      one_session).1
    ≡ answered (json (text "no") (with_status 401 empty_response))
unfolding path_allowed same get_all names_equal
handle-login_example =
    handle-login manager config (asking (text "/login") (text "NOVA=old")) 5 0xab (1 ∷ []) ann
      empty_response cookie_response ((text "old", made) ∷ []) one_session made
      (asking (text "/home") (text "NOVA=ab01")) [] 60000000005 empty_response login_run
      (refl, (refl, (refl, (refl, tt)))) tt refl refl

lookup-login_example : Dict.lookup (text "old") one_session ≡ none
unfolding request_cookie get_all names_equal same
lookup-login_example =
    lookup-login manager (asking (text "/login") (text "NOVA=old")) 5 (0xab ∷ 1 ∷ []) ann
      empty_response cookie_response ((text "old", made) ∷ []) one_session made (text "old")
      login_run refl refl
