-- ===== src/Http/Messages.antt =====
-- `Request` and `Response` of include/novaboot/http3/: what the middleware reads and writes.
use novaboot.Base.{ℕ, List, [], ◌∷◌, Option, none, some, Text, text, length, same, if◌then◌else◌}
use novaboot.Http.Headers
use novaboot.Http.Headers.{HeaderMap}
use novaboot.Http.Texts.{divide, pieces}

pub record Request : Type 0 where
  pub method : Text
  pub path : Text
  pub scheme : Text
  pub authority : Text
  pub peer_address : Text
  pub client_address : Text
  pub headers : HeaderMap
  pub body : Text

pub record Response : Type 0 where
  pub status_code : ℕ
  pub headers : HeaderMap
  pub body : Text

abbrev pub header : Text → Request → Option Text
header name request = Headers.get name request.headers

abbrev pub content_length : Request → ℕ
content_length request = length request.body

abbrev pub with_header : Text → Text → Response → Response
with_header name value response = record response {
  headers = Headers.add name value response.headers;
}

abbrev pub with_status : ℕ → Response → Response
with_status code response = record response { status_code = code }

abbrev pub json : Text → Response → Response
json body response = record response {
  headers = Headers.set (text "content-type") (text "application/json") response.headers;
  body = body;
}

abbrev text_or_empty : Option Text → Text
text_or_empty none = []
text_or_empty (some t) = t

abbrev pub query_string : Request → Text
query_string request = text_or_empty (divide 63 request.path).1

abbrev named : Text → Text × Option Text → Option Text → Option Text
named name (key, value) rest = if same key name then some (text_or_empty value) else rest

-- The loop over the pairs of the query.
abbrev param_in : Text → List Text → Option Text
param_in name [] = none
param_in name (pair ∷ pairs) = named name (divide 61 pair) (param_in name pairs)

unfoldable pub query_param : Text → Request → Option Text
query_param name request = param_in name (pieces 38 (query_string request))
