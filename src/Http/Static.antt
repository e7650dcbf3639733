-- ===== src/Http/Static.antt =====
-- Files as responses: src/http/static_resource.cpp, from the file that the request names on. What
-- the file system says of the file is an argument.
pub mod Ranges
pub mod Asking
pub mod Answers
pub mod Tests
use novaboot.Base.{
  ℤ, to_string_ℤ, ℕ, ◌+◌, ◌-◌, Bool, true, false, not, ◌&&◌, ◌||◌, List, [], ◌∷◌, ◌++◌, Option,
  none, some, if◌then◌else◌, ltb, leb, ◌==◌, min, Text, text, same, is_empty, starts_with,
  from_chars, to_string, length, take, drop,
}
use novaboot.Http.Messages.{Request, Response, header, with_status, with_header}
use novaboot.Http.Texts.{divide}

pub record ByteRange : Type 0 where
  pub first : ℕ
  pub last : ℕ

pub data RangeParse : Type 0 where
  absent : RangeParse
  valid : ByteRange → RangeParse
  invalid : RangeParse

abbrev pub has_byte : ℕ → Text → Bool
has_byte byte [] = false
has_byte byte (b ∷ t) = b == byte || has_byte byte t

abbrev pub last_bytes : (file_size : ℕ) → Option ℕ → RangeParse
last_bytes file_size none = invalid
last_bytes file_size (some suffix) =
    if suffix == 0
    then invalid
    else valid (record { first = file_size - min suffix file_size; last = file_size - 1 })

abbrev pub between : (file_size first : ℕ) → Option ℕ → RangeParse
between file_size first none = invalid
between file_size first (some last) =
    if ltb last first
    then invalid
    else valid (record { first = first; last = min last (file_size - 1) })

abbrev pub from_first : (file_size : ℕ) (end : Text) → Option ℕ → RangeParse
from_first file_size end none = invalid
from_first file_size end (some first) =
    if leb file_size first
    then invalid
    else between file_size first (if is_empty end then some (file_size - 1) else from_chars end)

abbrev pub range_of : (file_size : ℕ) → Text × Option Text → RangeParse
range_of file_size (start, none) = invalid
range_of file_size (start, some end) =
    if has_byte 45 end
    then invalid
    else if is_empty start
    then last_bytes file_size (from_chars end)
    else from_first file_size end (from_chars start)

-- The text behind `bytes=`, and the dash in it.
unfoldable pub parse_range : Text → (file_size : ℕ) → RangeParse
parse_range value file_size =
    if is_empty value
    then absent
    else if not (starts_with (text "bytes=") value) || (has_byte 44 value || file_size == 0)
    then invalid
    else range_of file_size (divide 45 (drop 6 value))

abbrev pub mime_type : (extension : Text) → Text
mime_type extension =
    if same extension (text ".html") || same extension (text ".htm")
    then text "text/html; charset=utf-8"
    else if same extension (text ".css")
    then text "text/css; charset=utf-8"
    else if same extension (text ".js") || same extension (text ".mjs")
    then text "application/javascript; charset=utf-8"
    else if same extension (text ".json")
    then text "application/json"
    else if same extension (text ".png")
    then text "image/png"
    else if same extension (text ".jpg") || same extension (text ".jpeg")
    then text "image/jpeg"
    else if same extension (text ".gif")
    then text "image/gif"
    else if same extension (text ".svg")
    then text "image/svg+xml"
    else if same extension (text ".ico")
    then text "image/x-icon"
    else if same extension (text ".txt")
    then text "text/plain; charset=utf-8"
    else if same extension (text ".pdf")
    then text "application/pdf"
    else if same extension (text ".xml")
    then text "application/xml"
    else text "application/octet-stream"

-- The size and the time that the file system gives, and what reading the file gives.
pub record File : Type 0 where
  pub extension : Text
  pub file_size : ℕ
  pub modified : ℤ
  pub content : Option Text

abbrev pub etag_for : File → Text
etag_for file = (34 ∷ to_string file.file_size) ++ (45 ∷ (to_string_ℤ file.modified ++ (34 ∷ [])))

abbrev pub is_cached : File → Option Text → Bool
is_cached file none = false
is_cached file (some tags) = same tags (etag_for file) || same tags (text "*")

abbrev pub not_modified : File → Response → Response
not_modified file response = with_header (text "accept-ranges") (text "bytes") (
    with_header (text "cache-control") (text "public, max-age=3600")
      (with_header (text "etag") (etag_for file) (with_status 304 response)))

abbrev pub not_satisfiable : File → Response → Response
not_satisfiable file response = with_header (text "accept-ranges") (text "bytes") (
    with_header (text "content-range") (text "bytes */" ++ to_string file.file_size)
      (with_status 416 response))

abbrev pub file_headers : File → (body_size : ℕ) → Response → Response
file_headers file body_size response = with_header (text "accept-ranges") (text "bytes") (
    with_header (text "cache-control") (text "public, max-age=3600") (
      with_header (text "etag") (etag_for file) (
        with_header (text "content-length") (to_string body_size)
          (with_header (text "content-type") (mime_type file.extension) response))))

abbrev pub content_range : File → ByteRange → Text
content_range file range =
    text "bytes "
    ++ (to_string range.first ++ (45 ∷ (to_string range.last ++ (47 ∷ to_string file.file_size))))

-- The bytes from a place on, at most so many, and none where a file cannot be read.
abbrev pub read_bytes : (first count : ℕ) → Option Text → Option Text
read_bytes first count none = none
read_bytes first count (some content) =
    let read = take count (drop first content) in if length read == count then some read else none

abbrev pub with_body : Response → Option Text → Option Response
with_body response none = none
with_body response (some bytes) = some (record response { body = bytes })

abbrev pub full : (head_only : Bool) → File → Response → Option Response
full head_only file response =
    let answer = file_headers file file.file_size (with_status 200 response) in
    if head_only then some answer else with_body answer (read_bytes 0 file.file_size file.content)

abbrev pub partial : (head_only : Bool) → File → ByteRange → Response → Option Response
partial head_only file range response =
    let count = (range.last - range.first) + 1 in
    let answer =
      with_header (text "content-range") (content_range file range)
        (file_headers file count (with_status 206 response)) in
    if head_only then some answer else with_body answer (read_bytes range.first count file.content)

abbrev pub by_range : (head_only : Bool) → File → Response → RangeParse → Option Response
by_range head_only file response absent = full head_only file response
by_range head_only file response (valid range) = partial head_only file range response
by_range head_only file response invalid = some (not_satisfiable file response)

abbrev pub requested_range : File → Option Text → RangeParse
requested_range file none = absent
requested_range file (some value) = parse_range value file.file_size

-- The answer for a file, or none where the function returns false.
unfoldable pub serve_file : (head_only : Bool) → File → Request → Response → Option Response
serve_file head_only file request response =
    if is_cached file (header (text "if-none-match") request)
    then some (not_modified file response)
    else by_range head_only file response (requested_range file (header (text "range") request))
