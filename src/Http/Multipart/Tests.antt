-- ===== src/Http/Multipart/Tests.antt =====
-- Runs of `parse_multipart` of src/http/multipart.cpp.
use novaboot.Base.{none, ℕ, ◌≡◌, refl, ◌⊎◌, inr, [], ◌∷◌, ◌++◌, some, Text, text, same}
use novaboot.Http.Headers
use novaboot.Http.Messages.{Request}
use novaboot.Http.Multipart.{MultipartLimits, MultipartForm, returned, thrown, parameter}
use novaboot.Http.Multipart.Parts.{find, read_headers, parse_parts, parse_multipart}
use novaboot.Http.Multipart.Ending.{Answers, parse_multipart-Kept}

abbrev small_limits : MultipartLimits
small_limits = record {
  max_total_bytes = 1000;
  max_parts = 2;
  max_header_bytes = 100;
  max_field_bytes = 10;
  max_in_memory_file_bytes = 4;
  temporary_directory = text "/tmp";
}

abbrev one_directory : Text → ℕ → Text → Text ⊎ Text
one_directory path parts content = inr (text "/tmp/novaboot-upload-a")

abbrev two_parts : Text
two_parts =
    text "--b\r\nContent-Disposition: form-data; name=a\r\n\r\nhello"
    ++ text "\r\n--b\r\nContent-Disposition: form-data; name=f; filename=x\r\n\r\nlarger"
    ++ text "\r\n--b--\r\n"

abbrev upload : Text → Request
upload body = record {
  method = text "POST";
  path = text "/";
  scheme = text "https";
  authority = text "localhost";
  peer_address = text "::1";
  client_address = text "::1";
  headers =
      record { name = text "Content-Type"; value = text "multipart/form-data; boundary=b" } ∷ [];
  body = body;
}

abbrev two_entries : MultipartForm
two_entries = record {
  fields = (text "a", text "hello" ∷ []) ∷ [];
  files =
      record {
        field_name = text "f";
        filename = text "x";
        content_type = [];
        size = 6;
        data_bytes = [];
        temporary_file = some (text "/tmp/novaboot-upload-a");
      }
      ∷ [];
}

two_parts_parsed :
    parse_multipart small_limits none one_directory (upload two_parts) ≡ returned two_entries
unfolding parse_multipart parse_parts read_headers find parameter same Headers.get
    Headers.names_equal
two_parts_parsed = refl

no_directory :
    parse_multipart
      (record small_limits { temporary_directory = [] })
      none
      one_directory
      (upload two_parts)
    ≡ thrown
unfolding parse_multipart parameter same Headers.get Headers.names_equal
no_directory = refl

parse_multipart-Kept_example :
    Answers small_limits none (parse_multipart small_limits none one_directory (upload two_parts))
parse_multipart-Kept_example =
    parse_multipart-Kept small_limits none one_directory (upload two_parts)
