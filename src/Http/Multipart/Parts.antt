-- ===== src/Http/Multipart/Parts.antt =====
-- `parse_multipart` of src/http/multipart.cpp. The text from the offset on stands for the body and
-- the offset. Files that are too large for memory are written by a parameter, which is told how many
-- parts were read before.
use novaboot.Base.{
  ℕ, zero, suc, ◌+◌, ◌⊎◌, inl, inr, ◌||◌, List, [], ◌∷◌, ◌++◌, Option, none, some, if◌then◌else◌,
  leb, ltb, Text, text, same, is_empty, starts_with, length, take, drop,
}
use novaboot.Base.Dict
use novaboot.Base.Dict.{Dict}
use novaboot.Http.Messages.{Request, header}
use novaboot.Http.Texts.{divide, trim, is_blank}
use novaboot.Http.Multipart.{
  MultipartLimits, UploadedFile, MultipartForm, empty_form, Outcome, returned, refused, thrown,
  exhausted, and_then, valid_header_value, parameter, boundary_from,
}

abbrev pub further : Option ℕ → Option ℕ
further none = none
further (some n) = some (suc n)

-- `std::string_view::find`.
unfoldable pub find : Text → Text → Option ℕ
find pattern [] = if is_empty pattern then some 0 else none
find pattern (b ∷ t) =
    let rest = find pattern t in if starts_with pattern (b ∷ t) then some 0 else further rest

-- What the loop over the headers of a part keeps.
pub record PartHeaders : Type 0 where
  pub disposition : Option Text
  pub content_type : Text

abbrev pub no_headers : PartHeaders
no_headers = record { disposition = none; content_type = [] }

abbrev pub keep_disposition : Text → Text → PartHeaders → PartHeaders
keep_disposition name value h =
    if same name (text "Content-Disposition") then record h { disposition = some value } else h

abbrev pub keep_content_type : Text → Text → PartHeaders → PartHeaders
keep_content_type name value h =
    if same name (text "Content-Type") then record h { content_type = value } else h

abbrev pub header_parts : Text → PartHeaders → Text × Option Text → Outcome PartHeaders
header_parts line h (name, none) = refused (text "Malformed multipart part header")
header_parts line h (name, some value) =
    if valid_header_value line
    then returned (
        keep_content_type (trim is_blank name) (trim is_blank value)
          (keep_disposition (trim is_blank name) (trim is_blank value) h))
    else refused (text "Malformed multipart part header")

abbrev pub header_line : Text → PartHeaders → Outcome PartHeaders
header_line line h = header_parts line h (divide 58 line)

abbrev pub header_step :
    (Text → PartHeaders → Outcome PartHeaders) → Text → PartHeaders → Option ℕ → Outcome PartHeaders
header_step next headers h none = header_line headers h
header_step next headers h (some n) =
    and_then (header_line (take n headers) h) (next (drop (n + 2) headers))

unfoldable pub read_headers : ℕ → Text → PartHeaders → Outcome PartHeaders
read_headers zero headers h = exhausted
read_headers (suc fuel) [] h = returned h
read_headers (suc fuel) (b ∷ headers) h =
    header_step (read_headers fuel) (b ∷ headers) h (find (text "\r\n") (b ∷ headers))

abbrev pub list_or_empty : Option (List Text) → List Text
list_or_empty none = []
list_or_empty (some values) = values

abbrev pub add_field : Text → Text → MultipartForm → MultipartForm
add_field name content form = record form {
  fields =
      Dict.assign name (list_or_empty (Dict.lookup name form.fields) ++ content ∷ []) form.fields;
}

abbrev pub add_file : UploadedFile → MultipartForm → MultipartForm
add_file file form = record form { files = form.files ++ file ∷ [] }

-- The part's name, its file's name and its type, and its content.
pub record Part : Type 0 where
  pub name : Text
  pub filename : Option Text
  pub content_type : Text
  pub content : Text

abbrev pub file_of : Text → Text → Option Text → Part → UploadedFile
file_of filename data_bytes temporary_file part = record {
  field_name = part.name;
  filename = filename;
  content_type = part.content_type;
  size = length part.content;
  data_bytes = data_bytes;
  temporary_file = temporary_file;
}

-- The message of an error, or the path of the file.
abbrev pub spilled : Text → Part → MultipartForm → Text ⊎ Text → Outcome MultipartForm
spilled filename part form (inl message) = refused message
spilled filename part form (inr path) =
    returned (add_file (file_of filename [] (some path) part) form)

abbrev pub part_name : Text → Option Text → Outcome Text
part_name disposition none = refused (text "Multipart part is missing a field name")
part_name disposition (some name) =
    if is_empty name then refused (text "Multipart part is missing a field name") else returned name

abbrev pub named : Option Text → Outcome (Text × Option Text)
named none = refused (text "Multipart part requires form-data Content-Disposition")
named (some disposition) =
    if starts_with (text "form-data") disposition
    then and_then (part_name disposition (parameter disposition (text "name")))
        (λ name. returned (name, parameter disposition (text "filename")))
    else refused (text "Multipart part requires form-data Content-Disposition")

-- The content up to the next delimiter, and what follows its line end.
abbrev pub cut_content : Text → Option ℕ → Outcome (Text × Text)
cut_content rest none = refused (text "Multipart part is missing a closing boundary")
cut_content rest (some next) = returned (take next rest, drop (next + 2) rest)

abbrev pub terminated : Text → MultipartForm → Outcome MultipartForm
terminated rest form =
    if is_empty rest || same rest (text "\r\n")
    then returned form
    else refused (text "Unexpected data after multipart terminator")

-- The headers of a part, and what follows the empty line.
abbrev pub cut_headers : MultipartLimits → Text → Option ℕ → Outcome (Text × Text)
cut_headers limits rest none = refused (text "Multipart part headers are malformed or too large")
cut_headers limits rest (some header_end) =
    if ltb limits.max_header_bytes header_end
    then refused (text "Multipart part headers are malformed or too large")
    else returned (take header_end rest, drop (header_end + 4) rest)

module _ (limits : MultipartLimits) (spill : ℕ → Text → Text ⊎ Text) where
  abbrev pub store : ℕ → Part → MultipartForm → Option Text → Outcome MultipartForm
  store parts part form none =
      if ltb limits.max_field_bytes (length part.content)
      then refused (text "Multipart field exceeds configured size limit")
      else returned (add_field part.name part.content form)
  store parts part form (some filename) =
      if leb (length part.content) limits.max_in_memory_file_bytes
      then returned (add_file (file_of filename part.content none part) form)
      else spilled filename part form (spill parts part.content)

  -- One part, from behind the line end of its boundary; what is left begins with the next boundary.
  abbrev pub read_part : Text → Text → ℕ → MultipartForm → Outcome (Text × MultipartForm)
  read_part delimiter rest parts form =
      and_then (cut_headers limits rest (find (text "\r\n\r\n") rest)) (λ (headers, behind).
        and_then (read_headers (suc (length headers)) headers no_headers) (λ h.
          and_then (named h.disposition) (λ (name, filename).
            and_then (cut_content behind (find (text "\r\n" ++ delimiter) behind))
              (λ (content, left).
                let part : Part = record {
                  name = name;
                  filename = filename;
                  content_type = h.content_type;
                  content = content;
                } in
                and_then (store parts part form filename) (λ stored. returned (left, stored))))))

  abbrev pub after_boundary :
      (Text → ℕ → MultipartForm → Outcome MultipartForm)
      → Text
      → Text
      → ℕ
      → MultipartForm
      → Outcome MultipartForm
  after_boundary next delimiter rest parts form =
      if starts_with (text "--") rest
      then terminated (drop 2 rest) form
      else if starts_with (text "\r\n") rest
      then if leb limits.max_parts parts
        then refused (text "Multipart part count exceeds configured limit")
        else and_then (read_part delimiter (drop 2 rest) parts form)
            (λ (left, stored). next left (suc parts) stored)
      else refused (text "Multipart boundary must end with CRLF")

  unfoldable pub parse_parts : ℕ → Text → Text → ℕ → MultipartForm → Outcome MultipartForm
  parse_parts zero delimiter rest parts form = exhausted
  parse_parts (suc fuel) delimiter rest parts form =
      if starts_with delimiter rest
      then after_boundary (parse_parts fuel delimiter) delimiter (drop (length delimiter) rest)
          parts form
      else refused (text "Malformed multipart boundary")

-- The system's directory for temporary files where none is configured; finding it may throw.
abbrev pub directory : MultipartLimits → Option Text → Option Text
directory limits temp_directory_path =
    if is_empty limits.temporary_directory
    then temp_directory_path
    else some limits.temporary_directory

-- The directory is told to what writes the files.
module _ (limits : MultipartLimits) (temp_directory_path : Option Text)
    (spill : Text → ℕ → Text → Text ⊎ Text) where
  abbrev pub parse_in : Text → Text → Option Text → Outcome MultipartForm
  parse_in body delimiter none = thrown
  parse_in body delimiter (some path) =
      if starts_with delimiter body
      then parse_parts limits (spill path) (suc (length body)) delimiter body 0 empty_form
      else refused (text "Multipart body does not start with boundary")

  abbrev pub parse_body : Text → Option Text → Outcome MultipartForm
  parse_body body none = refused (text "Invalid multipart boundary")
  parse_body body (some boundary) =
      if ltb limits.max_total_bytes (length body)
      then refused (text "Multipart body exceeds configured size limit")
      else parse_in body (text "--" ++ boundary) (directory limits temp_directory_path)

  abbrev pub parse_typed : Text → Option Text → Outcome MultipartForm
  parse_typed body none = refused (text "Missing multipart Content-Type")
  parse_typed body (some content_type) = parse_body body (boundary_from content_type)

  unfoldable pub parse_multipart : Request → Outcome MultipartForm
  parse_multipart request = parse_typed request.body (header (text "content-type") request)
