-- ===== src/Middleware/SecurityHeaders.antt =====
-- Security headers: src/middleware/security_headers_middleware.cpp. An exception of the constructor is
-- the absence of a result.
pub mod Added
mod Tests
use novaboot.Base.{
  ℕ, Bool, true, false, not, ◌&&◌, ◌||◌, List, [], ◌∷◌, Option, none, some, if◌then◌else◌, ltb, leb,
  ◌==◌, Text, text, same, is_empty,
}
use novaboot.Base.Dict.{Dict}
use novaboot.Http.Headers
use novaboot.Http.Messages.{Request, Response, with_header}
use novaboot.Http.Cookies.{in_text}

pub record Config : Type 0 where
  pub hsts : Bool
  pub hsts_https_only : Bool
  pub hsts_value : Text
  pub content_type_options : Bool
  pub content_type_options_value : Text
  pub frame_options : Bool
  pub frame_options_value : Text
  pub x_xss_protection : Bool
  pub x_xss_protection_value : Text
  pub referrer_policy : Bool
  pub referrer_policy_value : Text
  pub permissions_policy : Bool
  pub permissions_policy_value : Text
  pub cross_origin_opener_policy : Bool
  pub cross_origin_opener_policy_value : Text
  pub cross_origin_resource_policy : Bool
  pub cross_origin_resource_policy_value : Text
  pub content_security_policy : Text
  pub custom_headers : List (Text × Text)

abbrev pub set_if_absent : Text → Text → Response → Response
set_if_absent name value response =
    if not (is_empty value) && not (Headers.has name response.headers)
    then with_header name value response
    else response

abbrev pub is_alnum : ℕ → Bool
is_alnum b = (leb 48 b && leb b 57) || ((leb 65 b && leb b 90) || (leb 97 b && leb b 122))

abbrev pub token_character : ℕ → Bool
token_character b = is_alnum b || in_text b (text "!#$%&'*+-.^_`|~")

abbrev pub all_of : (ℕ → Bool) → Text → Bool
all_of test [] = true
all_of test (b ∷ t) = test b && all_of test t

-- Whether the check throws nothing.
abbrev pub validate_header : Text → Text → Bool
validate_header name value =
    not (is_empty name)
    && (all_of token_character name && all_of (λ b. not (ltb b 0x20 || b == 0x7f)) value)

abbrev pub validate_if : Bool → Text → Text → Bool
validate_if on name value = not on || validate_header name value

abbrev pub validate_all : List (Text × Text) → Bool
validate_all [] = true
validate_all ((name, value) ∷ headers) = validate_header name value && validate_all headers

abbrev pub is_accepted : Config → Bool
is_accepted c =
    validate_if c.hsts (text "Strict-Transport-Security") c.hsts_value
    && (validate_if c.content_type_options (text "X-Content-Type-Options")
          c.content_type_options_value
        && (validate_if c.frame_options (text "X-Frame-Options") c.frame_options_value
            && (validate_if c.x_xss_protection (text "X-XSS-Protection") c.x_xss_protection_value
                && (validate_if c.referrer_policy (text "Referrer-Policy") c.referrer_policy_value
                    && (validate_if c.permissions_policy (text "Permissions-Policy")
                          c.permissions_policy_value
                        && (validate_if c.cross_origin_opener_policy
                              (text "Cross-Origin-Opener-Policy") c.cross_origin_opener_policy_value
                            && (validate_if c.cross_origin_resource_policy
                                  (text "Cross-Origin-Resource-Policy")
                                  c.cross_origin_resource_policy_value
                                && (validate_if (not (is_empty c.content_security_policy))
                                      (text "Content-Security-Policy") c.content_security_policy
                                    && validate_all c.custom_headers))))))))

-- The constructor.
unfoldable pub new_middleware : Config → Option Config
new_middleware c = if is_accepted c then some c else none

abbrev pub set_if : Bool → Text → Text → Response → Response
set_if on name value response = if on then set_if_absent name value response else response

abbrev pub set_all : List (Text × Text) → Response → Response
set_all [] response = response
set_all ((name, value) ∷ headers) response = set_all headers (set_if_absent name value response)

-- What `handle` does to the response that the next handler left.
unfoldable pub handle : Config → Request → Response → Response
handle c request left =
    let r1 =
      set_if (c.hsts && (not c.hsts_https_only || same request.scheme (text "https")))
        (text "Strict-Transport-Security") c.hsts_value left in
    let r2 =
      set_if c.content_type_options (text "X-Content-Type-Options") c.content_type_options_value
        r1 in
    let r3 = set_if c.frame_options (text "X-Frame-Options") c.frame_options_value r2 in
    let r4 = set_if c.x_xss_protection (text "X-XSS-Protection") c.x_xss_protection_value r3 in
    let r5 = set_if c.referrer_policy (text "Referrer-Policy") c.referrer_policy_value r4 in
    let r6 =
      set_if c.permissions_policy (text "Permissions-Policy") c.permissions_policy_value r5 in
    let r7 =
      set_if c.cross_origin_opener_policy (text "Cross-Origin-Opener-Policy")
        c.cross_origin_opener_policy_value r6 in
    let r8 =
      set_if c.cross_origin_resource_policy (text "Cross-Origin-Resource-Policy")
        c.cross_origin_resource_policy_value r7 in
    let r9 = set_if_absent (text "Content-Security-Policy") c.content_security_policy r8 in
    set_all c.custom_headers r9
