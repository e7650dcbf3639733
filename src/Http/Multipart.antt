-- ===== src/Http/Multipart.antt =====
-- Forms with files: src/http/multipart.cpp and include/novaboot/http/multipart.h.
pub mod Parts
pub mod Finding
pub mod Limits
pub mod Ending
pub mod Tests
use novaboot.Base.{
  ℕ, zero, suc, ◌+◌, ◌-◌, Bool, true, false, not, ◌&&◌, ◌||◌, List, [], ◌∷◌, ◌++◌, Option, none,
  some, if◌then◌else◌, leb, ltb, ◌==◌, Text, text, same, is_empty, starts_with, length, take, drop,
}
use novaboot.Base.Dict
use novaboot.Base.Dict.{Dict}
use novaboot.Http.Texts.{divide, pieces, trim, is_blank}

pub record MultipartLimits : Type 0 where
  pub max_total_bytes : ℕ
  pub max_parts : ℕ
  pub max_header_bytes : ℕ
  pub max_field_bytes : ℕ
  pub max_in_memory_file_bytes : ℕ
  pub temporary_directory : Text

-- The path of the temporary file, where the content stands in one.
pub record UploadedFile : Type 0 where
  pub field_name : Text
  pub filename : Text
  pub content_type : Text
  pub size : ℕ
  pub data_bytes : Text
  pub temporary_file : Option Text

pub record MultipartForm : Type 0 where
  pub fields : Dict (List Text)
  pub files : List UploadedFile

abbrev pub empty_form : MultipartForm
empty_form = record { fields = []; files = [] }

-- A result, the message of a MultipartError, an exception, or the end of the fuel.
pub data Outcome (A : Type 0) : Type 0 where
  returned : A → Outcome A
  refused : Text → Outcome A
  thrown : Outcome A
  exhausted : Outcome A

abbrev pub and_then : {A B : Type 0} → Outcome A → (A → Outcome B) → Outcome B
and_then (returned a) next = next a
and_then (refused message) next = refused message
and_then thrown next = thrown
and_then exhausted next = exhausted

abbrev pub none_of : (ℕ → Bool) → Text → Bool
none_of test [] = true
none_of test (b ∷ t) = not (test b) && none_of test t

abbrev pub safe_token : Text → Bool
safe_token value =
    not (is_empty value) && none_of (λ b. ltb b 0x21 || (b == 0x7f || (b == 34 || b == 92))) value

abbrev pub valid_header_value : Text → Bool
valid_header_value value = none_of (λ b. b == 13 || (b == 10 || b == 0)) value

abbrev pub last_is : ℕ → Text → Bool
last_is byte [] = false
last_is byte (b ∷ []) = b == byte
last_is byte (b ∷ c ∷ t) = last_is byte (c ∷ t)

abbrev pub unquoted : Text → Text
unquoted value =
    if leb 2 (length value) && (starts_with (34 ∷ []) value && last_is 34 value)
    then take (length value - 2) (drop 1 value)
    else value

abbrev pub checked_value : Text → Option Text
checked_value value = if none_of (λ b. b == 13 || b == 10) value then some value else none

abbrev pub parameter_part : Text → Text × Option Text → Option Text → Option Text
parameter_part wanted (key, none) rest = rest
parameter_part wanted (key, some value) rest =
    if same (trim is_blank key) wanted then checked_value (unquoted (trim is_blank value)) else rest

-- The loop over the parts between semicolons.
abbrev pub parameter_in : Text → List Text → Option Text
parameter_in wanted [] = none
parameter_in wanted (part ∷ parts) =
    parameter_part wanted (divide 61 (trim is_blank part)) (parameter_in wanted parts)

unfoldable pub parameter : Text → Text → Option Text
parameter value wanted = parameter_in wanted (pieces 59 value)

abbrev pub text_or_empty : Option Text → Text
text_or_empty none = []
text_or_empty (some t) = t

abbrev pub checked_boundary : Option Text → Option Text
checked_boundary none = none
checked_boundary (some boundary) =
    if ltb 70 (length boundary) || not (safe_token boundary) then none else some boundary

abbrev pub boundary_of : Text × Option Text → Option Text
boundary_of (media, parameters) =
    if same (trim is_blank media) (text "multipart/form-data")
    then checked_boundary (parameter (text_or_empty parameters) (text "boundary"))
    else none

abbrev pub boundary_from : Text → Option Text
boundary_from content_type = boundary_of (divide 59 content_type)

-- The accessors of a form.
abbrev pub fields_of : Text → MultipartForm → Option (List Text)
fields_of name form = Dict.lookup name form.fields

abbrev front_of : Option (List Text) → Option Text
front_of none = none
front_of (some []) = none
front_of (some (value ∷ values)) = some value

unfoldable pub field : Text → MultipartForm → Option Text
field name form = front_of (fields_of name form)

abbrev named_files : Text → List UploadedFile → List UploadedFile
named_files name [] = []
named_files name (file ∷ files) =
    let rest = named_files name files in if same file.field_name name then file ∷ rest else rest

unfoldable pub files_of : Text → MultipartForm → List UploadedFile
files_of name form = named_files name form.files
