-- ===== src/Middleware/SecurityHeaders/Tests.antt =====
-- Runs of src/middleware/security_headers_middleware.cpp.
use novaboot.Base.{◌≡◌, refl, true, false, [], ◌∷◌, none, text, same}
use novaboot.Http.Headers
use novaboot.Http.Messages.{Request, Response}
use novaboot.Middleware.SecurityHeaders.{Config, new_middleware, handle}
use novaboot.Middleware.SecurityHeaders.Added.{Extends, handle-Extends}

abbrev few : Config
few = record {
  hsts = true;
  hsts_https_only = true;
  hsts_value = text "max-age=1";
  content_type_options = true;
  content_type_options_value = text "nosniff";
  frame_options = true;
  frame_options_value = text "DENY";
  x_xss_protection = false;
  x_xss_protection_value = [];
  referrer_policy = false;
  referrer_policy_value = [];
  permissions_policy = false;
  permissions_policy_value = [];
  cross_origin_opener_policy = false;
  cross_origin_opener_policy_value = [];
  cross_origin_resource_policy = false;
  cross_origin_resource_policy_value = [];
  content_security_policy = [];
  custom_headers = (text "X-A", text "1") ∷ [];
}

abbrev plain : Request
plain = record {
  method = text "GET";
  path = text "/";
  scheme = text "http";
  authority = text "localhost";
  peer_address = text "::1";
  client_address = text "::1";
  headers = [];
  body = [];
}

abbrev framed : Response
framed = record {
  status_code = 200;
  headers = record { name = text "x-frame-options"; value = text "SAMEORIGIN" } ∷ [];
  body = text "a";
}

framed_handled :
    (handle few plain framed).headers
    ≡ record { name = text "x-frame-options"; value = text "SAMEORIGIN" }
      ∷ record { name = text "X-Content-Type-Options"; value = text "nosniff" }
      ∷ record { name = text "X-A"; value = text "1" }
      ∷ []
unfolding handle Headers.has Headers.get Headers.names_equal Headers.add same
framed_handled = refl

-- A line end in a value is refused.
line_end_refused : new_middleware (record few { hsts_value = text "a\r\nb: c" }) ≡ none
unfolding new_middleware
line_end_refused = refl

handle-Extends_example : Extends framed (handle few plain framed)
handle-Extends_example = handle-Extends few plain framed refl
