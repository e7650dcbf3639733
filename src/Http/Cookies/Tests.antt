-- ===== src/Http/Cookies/Tests.antt =====
-- Runs of the cookie functions of include/novaboot/http3/cookie.h.
use novaboot.Base.{pos, ◌≡◌, refl, true, false, ◌||◌, ◌==◌, [], ◌∷◌, none, some, Text, text, same}
use novaboot.Http.Headers
use novaboot.Base.Dict.{Dict}
use novaboot.Http.Messages.{Request}
use novaboot.Http.Cookies.{Cookie, strict, any, serialize_cookie, request_cookie}
use novaboot.Http.Cookies.Reading.{
  cookie_header, is_separator, IsPair, request_cookie-cookie_header,
}
use novaboot.Http.Cookies.Writing.{Printable, any-false, serialize_cookie-Printable}

abbrev later_cookies : Dict Text
later_cookies = (text "SID", text "abc") ∷ (text "theme", text "light") ∷ []

abbrev browsing : Request
browsing = record {
  method = text "GET";
  path = text "/";
  scheme = text "https";
  authority = text "localhost";
  peer_address = text "::1";
  client_address = text "::1";
  headers = record { name = text "Cookie"; value = text "theme=dark; SID=abc; theme=light" } ∷ [];
  body = [];
}

plain :
    (name value : Text)
    → any (λ b. is_separator b || b == 61) name ≡ false
    → any is_separator value ≡ false
    → IsPair (name, value)
plain name value n v =
    (any-false (λ b. is_separator b || b == 61) name n, any-false is_separator value v)

listed :
    Headers.get_all (text "cookie") browsing.headers
    ≡ cookie_header ((text "theme", text "dark") ∷ later_cookies) ∷ []
unfolding Headers.get_all Headers.names_equal same
listed = refl

request_cookie-cookie_header_example : request_cookie (text "SID") browsing ≡ some (text "abc")
unfolding same
request_cookie-cookie_header_example =
    request_cookie-cookie_header (text "SID") (text "theme", text "dark") later_cookies browsing
      (
        plain (text "theme") (text "dark") refl refl,
        (
          plain (text "SID") (text "abc") refl refl,
          (plain (text "theme") (text "light") refl refl, tt),
        ),
      )
      listed

abbrev session : Cookie
session = record {
  name = text "SID";
  value = text "abc";
  path = text "/";
  domain = none;
  max_age = some (pos 60);
  secure = true;
  http_only = true;
  same_site = strict;
}

session_header :
    serialize_cookie session
    ≡ some (text "SID=abc; Path=/; Max-Age=60; Secure; HttpOnly; SameSite=Strict")
unfolding serialize_cookie
session_header = refl

serialize_cookie-Printable_example :
    Printable (text "SID=abc; Path=/; Max-Age=60; Secure; HttpOnly; SameSite=Strict")
serialize_cookie-Printable_example = serialize_cookie-Printable session session_header
