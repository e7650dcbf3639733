-- ===== src/Http/Static/Tests.antt =====
-- Runs of src/http/static_resource.cpp.
use novaboot.Base.{none, negsuc, ◌≡◌, refl, false, [], ◌∷◌, some, text}
use novaboot.Http.Messages.{Request, Response}
use novaboot.Http.Static.{valid, invalid, parse_range, File, serve_file}
use novaboot.Http.Static.Answers.{Answered, serve_file-Answered}
use novaboot.Http.Headers

middle : parse_range (text "bytes=2-90") 10 ≡ valid (record { first = 2; last = 9 })
unfolding parse_range
middle = refl

suffix : parse_range (text "bytes=-3") 10 ≡ valid (record { first = 7; last = 9 })
unfolding parse_range
suffix = refl

past_end : parse_range (text "bytes=10-") 10 ≡ invalid
unfolding parse_range
past_end = refl

abbrev ten_bytes : File
ten_bytes = record {
  extension = text ".txt";
  file_size = 10;
  modified = negsuc 4;
  content = some (text "0123456789");
}

abbrev resuming : Request
resuming = record {
  method = text "GET";
  path = text "/ten.txt";
  scheme = text "https";
  authority = text "localhost";
  peer_address = text "::1";
  client_address = text "::1";
  headers = record { name = text "Range"; value = text "bytes=7-" } ∷ [];
  body = [];
}

abbrev untouched : Response
untouched = record { status_code = 200; headers = []; body = [] }

-- The last three of the bytes.
serve_file-Answered_example :
    Answered ten_bytes
      (text "0123456789")
      refl
      refl
      false
      none
      (some (text "bytes=7-"))
      untouched
      (serve_file false ten_bytes resuming untouched)
unfolding Headers.get Headers.names_equal
serve_file-Answered_example =
    serve_file-Answered ten_bytes (text "0123456789") refl refl false resuming untouched
