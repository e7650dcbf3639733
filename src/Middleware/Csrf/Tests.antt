-- ===== src/Middleware/Csrf/Tests.antt =====
-- Runs of src/middleware/csrf_middleware.cpp.
use novaboot.Base.{◌≡◌, refl, ◌↔◌, true, [], ◌∷◌, none, text, same, same_iff}
use novaboot.Http.Messages.{Request, Response}
use novaboot.Http.Cookies.{lax}
use novaboot.Middleware.Csrf.{Config, continued, handle}
use novaboot.Middleware.Csrf.Tokens.{SendsToken, handle-SendsToken}

abbrev config : Config
config = record {
  cookie_name = text "XSRF-TOKEN";
  header_name = text "X-XSRF-TOKEN";
  cookie_path = text "/";
  secure_cookie = true;
  same_site = lax;
  issue_token_on_safe_methods = true;
}

abbrev post : Request
post = record {
  method = text "POST";
  path = text "/";
  scheme = [];
  authority = [];
  peer_address = [];
  client_address = [];
  headers =
      record { name = text "cookie"; value = text "a=1; XSRF-TOKEN=ab" }
      ∷ record { name = text "x-xsrf-token"; value = text "ab" }
      ∷ [];
  body = [];
}

abbrev empty_response : Response
empty_response = record { status_code = 200; headers = []; body = [] }

handle-SendsToken_example :
    (handle same config none post empty_response ≡ continued empty_response)
    ↔ SendsToken config post
unfolding same
handle-SendsToken_example =
    handle-SendsToken same (λ s t sizes. same_iff s t) config none post empty_response refl
