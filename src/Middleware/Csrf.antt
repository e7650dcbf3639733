-- ===== src/Middleware/Csrf.antt =====
-- The double-submit check of src/middleware/csrf_middleware.cpp. `CRYPTO_memcmp` of OpenSSL, on
-- texts of one length, and its random bytes are arguments.
pub mod Tokens
mod Tests
use novaboot.Base.{
  ℕ, Bool, true, false, not, ◌&&◌, ◌||◌, List, [], ◌∷◌, Option, none, some, if◌then◌else◌, ◌==◌,
  length, Text, text, same, is_empty,
}
use novaboot.Http.Messages.{Request, Response, header, with_status, json}
use novaboot.Http.Cookies.{SameSite, Cookie, set_cookie, request_cookie}
use novaboot.Middleware.Sessions.{hex}

pub record Config : Type 0 where
  pub cookie_name : Text
  pub header_name : Text
  pub cookie_path : Text
  pub secure_cookie : Bool
  pub same_site : SameSite
  pub issue_token_on_safe_methods : Bool

abbrev pub safe_method : Text → Bool
safe_method method =
    same method (text "GET")
    || (same method (text "HEAD") || (same method (text "OPTIONS") || same method (text "TRACE")))

abbrev pub token_cookie : Config → Text → Cookie
token_cookie config token = record {
  name = config.cookie_name;
  value = token;
  path = config.cookie_path;
  domain = none;
  max_age = none;
  secure = config.secure_cookie;
  http_only = false;
  same_site = config.same_site;
}

-- Goes on to the next middleware with this response, answers, or throws.
pub data Outcome : Type 0 where
  continued answered : Response → Outcome
  thrown : Outcome

abbrev pub issued : Option Response → Outcome
issued none = thrown
issued (some response) = continued response

abbrev pub issue_token : Config → Option (List ℕ) → Response → Outcome
issue_token config none response = thrown
issue_token config (some bytes) response =
    issued (set_cookie (token_cookie config (hex bytes)) response)

abbrev pub is_none : Option Text → Bool
is_none none = true
is_none (some t) = false

module _ (equal_bytes : Text → Text → Bool) where
  abbrev pub tokens_match : Option Text → Option Text → Bool
  tokens_match none header_token = false
  tokens_match (some cookie) none = false
  tokens_match (some cookie) (some header_token) =
      not (is_empty cookie)
      && (length cookie == length header_token && equal_bytes cookie header_token)

  unfoldable pub valid_token : Config → Request → Bool
  valid_token config request =
      tokens_match (request_cookie config.cookie_name request) (header config.header_name request)

  unfoldable pub handle : Config → (random : Option (List ℕ)) → Request → Response → Outcome
  handle config random request response =
      if safe_method request.method
      then (if config.issue_token_on_safe_methods
            && is_none (request_cookie config.cookie_name request)
          then issue_token config random response
          else continued response)
      else if valid_token config request
      then continued response
      else answered
          (json (text "{\"error\":\"CSRF token invalid or missing\"}") (with_status 403 response))
