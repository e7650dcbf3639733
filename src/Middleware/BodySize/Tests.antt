-- ===== src/Middleware/BodySize/Tests.antt =====
-- Runs of src/middleware/body_size_limit_middleware.cpp.
use novaboot.Base.{◌≡◌, refl, [], ◌∷◌, some, Text, text, same}
use novaboot.Http.Headers
use novaboot.Http.Messages.{Request, Response}
use novaboot.Middleware.Paths.{path_allowed}
use novaboot.Middleware.BodySize.{Config, stoull, passed, rejected, handle}

abbrev four_bytes : Config
four_bytes = record {
  max_body_bytes = 4;
  allowlist_paths = [];
  status_code = 413;
  response_body = text "{}";
}

abbrev declaring : Text → Request
declaring size = record {
  method = text "POST";
  path = text "/";
  scheme = text "https";
  authority = text "localhost";
  peer_address = text "::1";
  client_address = text "::1";
  headers = record { name = text "Content-Length"; value = size } ∷ [];
  body = text "123456";
}

abbrev untouched : Response
untouched = record { status_code = 200; headers = []; body = [] }

wrapped : stoull (text " -1") ≡ some 18446744073709551615
unfolding stoull
wrapped = refl

-- A body of six bytes passes a limit of four where a smaller size is declared.
understated_passes : handle four_bytes (declaring (text "3")) untouched ≡ passed
unfolding handle stoull path_allowed Headers.get Headers.names_equal same
understated_passes = refl

-- Without a number the size of the body counts.
undeclared_rejected :
    handle four_bytes (declaring (text "3x")) untouched
    ≡ rejected (record {
      status_code = 413;
      headers = record { name = text "content-type"; value = text "application/json" } ∷ [];
      body = text "{}";
    })
unfolding handle stoull path_allowed Headers.get Headers.set Headers.names_equal Headers.add same
undeclared_rejected = refl
