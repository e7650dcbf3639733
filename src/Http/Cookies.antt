-- ===== src/Http/Cookies.antt =====
-- Cookies: include/novaboot/http3/cookie.h. An exception is the absence of a result.
pub mod Reading
pub mod Writing
pub mod Tests
use novaboot.Base.{
  ℤ, to_string_ℤ, ℕ, Bool, true, false, not, ◌&&◌, ◌||◌, List, [], ◌∷◌, ◌++◌, Option, none, some,
  if◌then◌else◌, leb, ◌==◌, Text, text, same, is_empty, to_string,
}
use novaboot.Http.Headers
use novaboot.Http.Messages.{Request, Response, with_header}
use novaboot.Http.Texts.{divide, pieces, trim, is_blank}

pub data SameSite : Type 0 where
  strict lax unrestricted : SameSite

pub record Cookie : Type 0 where
  pub name : Text
  pub value : Text
  pub path : Text
  pub domain : Option Text
  pub max_age : Option ℤ
  pub secure : Bool
  pub http_only : Bool
  pub same_site : SameSite

abbrev pub in_text : ℕ → Text → Bool
in_text b [] = false
in_text b (c ∷ t) = c == b || in_text b t

abbrev pub cookie_token_character : ℕ → Bool
cookie_token_character b =
    (leb 65 b && leb b 90)
    || ((leb 97 b && leb b 122) || ((leb 48 b && leb b 57) || in_text b (text "!#$%&'*+-.^_`|~")))

abbrev pub is_delimiter : ℕ → Bool
is_delimiter b = leb b 31 || (b == 127 || (b == 59 || b == 44))

abbrev pub any : (ℕ → Bool) → Text → Bool
any test [] = false
any test (b ∷ t) = test b || any test t

abbrev pub contains_cookie_delimiter : Text → Bool
contains_cookie_delimiter t = any is_delimiter t

abbrev pub starts_with_slash : Text → Bool
starts_with_slash [] = false
starts_with_slash (b ∷ t) = b == 47

abbrev pub bad_domain : Option Text → Bool
bad_domain none = false
bad_domain (some domain) = is_empty domain || contains_cookie_delimiter domain

abbrev pub is_unrestricted : SameSite → Bool
is_unrestricted unrestricted = true
is_unrestricted _ = false

-- The checks that throw.
abbrev pub is_refused : Cookie → Bool
is_refused c =
    is_empty c.name
    || (any (λ b. not (cookie_token_character b)) c.name
        || (contains_cookie_delimiter c.value
            || ((not (starts_with_slash c.path) || contains_cookie_delimiter c.path)
                || (bad_domain c.domain || (is_unrestricted c.same_site && not c.secure)))))

abbrev pub domain_attribute : Option Text → Text
domain_attribute none = []
domain_attribute (some domain) = text "; Domain=" ++ domain

abbrev pub age_attribute : Option ℤ → Text
age_attribute none = []
age_attribute (some seconds) = text "; Max-Age=" ++ to_string_ℤ seconds

abbrev pub flag : Bool → Text → Text
flag set attribute = if set then attribute else []

abbrev pub same_site_attribute : SameSite → Text
same_site_attribute strict = text "; SameSite=Strict"
same_site_attribute lax = text "; SameSite=Lax"
same_site_attribute unrestricted = text "; SameSite=None"

abbrev pub attributes : Cookie → Text
attributes c =
    (text "; Path=" ++ c.path)
    ++ (domain_attribute c.domain
        ++ (age_attribute c.max_age
            ++ (flag c.secure (text "; Secure")
                ++ (flag c.http_only (text "; HttpOnly") ++ same_site_attribute c.same_site))))

unfoldable pub serialize_cookie : Cookie → Option Text
serialize_cookie c =
    if is_refused c then none else some (c.name ++ (61 ∷ (c.value ++ attributes c)))

abbrev added : Response → Option Text → Option Response
added response none = none
added response (some value) = some (with_header (text "set-cookie") value response)

unfoldable pub set_cookie : Cookie → Response → Option Response
set_cookie c response = added response (serialize_cookie c)

abbrev pub cookie_part : Text → Text × Option Text → Option Text → Option Text
cookie_part name (key, none) rest = rest
cookie_part name (key, some value) rest = if same (trim is_blank key) name then some value else rest

-- The loop over the parts of one header.
abbrev pub cookie_in : Text → List Text → Option Text
cookie_in name [] = none
cookie_in name (part ∷ parts) =
    cookie_part name (divide 61 (trim is_blank part)) (cookie_in name parts)

abbrev pub first_of : Option Text → Option Text → Option Text
first_of none rest = rest
first_of (some value) rest = some value

abbrev pub cookie_of : Text → List Text → Option Text
cookie_of name [] = none
cookie_of name (header ∷ headers) =
    first_of (cookie_in name (pieces 59 header)) (cookie_of name headers)

unfoldable pub request_cookie : Text → Request → Option Text
request_cookie name request = cookie_of name (Headers.get_all (text "cookie") request.headers)
