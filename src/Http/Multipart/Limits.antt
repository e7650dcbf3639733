-- ===== src/Http/Multipart/Limits.antt =====
-- The forms that keep to the limits of src/http/multipart.cpp.
use novaboot.Base.{
  ℕ, suc, ◌+◌, ◌≤◌, ◌<◌, ◌≡◌, ◌⊎◌, inl, inr, List, [], ◌∷◌, ◌++◌, none, some, arith, Text, same,
  length, length-append, All, All-append, Bool-cases,
}
use novaboot.Base.Dict
use novaboot.Base.Dict.{Dict}
use novaboot.Http.Multipart.{MultipartLimits, UploadedFile, MultipartForm}
use novaboot.Http.Multipart.Parts.{list_or_empty, add_field, add_file}

-- How many values there are.
abbrev pub total : Dict (List Text) → ℕ
total [] = 0
total ((name, values) ∷ fields) = length values + total fields

total-assign :
    (name : Text) (values : List Text) (fields : Dict (List Text))
    → total (Dict.assign name values fields) + length (list_or_empty (Dict.lookup name fields))
      ≡ length values + total fields
total-assign name values [] = omega arith
total-assign name values ((k, old) ∷ fields) = elim (Bool-cases (same k name)) [
  | inl hit ↦ rw hit (omega arith)
  | inr miss ↦ let later = total-assign name values fields in rw miss (omega arith)
]

total-add_field :
    (name content : Text) (form : MultipartForm)
    → total (add_field name content form).fields ≡ suc (total form.fields)
total-add_field name content form =
    let old = list_or_empty (Dict.lookup name form.fields) in
    let assigned = total-assign name (old ++ content ∷ []) form.fields in
    let longer = length-append old (content ∷ []) in omega arith

module _ (limits : MultipartLimits) where
  abbrev Short : Text → Type 0
  Short value = length value ≤ limits.max_field_bytes

  -- In memory a file holds its content, and no more than the limit; otherwise it has a path.
  abbrev pub IsHeld : UploadedFile → Type 0
  IsHeld file =
      ((file.temporary_file ≡ none)
        × ((length file.data_bytes ≡ file.size) × (file.size ≤ limits.max_in_memory_file_bytes)))
      ⊎ ((path : Text) × ((file.temporary_file ≡ some path)
            × ((file.data_bytes ≡ []) × (limits.max_in_memory_file_bytes < file.size))))

  -- A form of so many parts, within the limits.
  pub record Within (parts : ℕ) (form : MultipartForm) : Type 0 where
    pub values : All (λ entry. All Short entry.1) form.fields
    pub held : All IsHeld form.files
    pub count : total form.fields + length form.files ≡ parts
    pub few : parts ≤ limits.max_parts

  Short-lookup :
      (name : Text) (fields : Dict (List Text))
      → All (λ entry. All Short entry.1) fields
      → All Short (list_or_empty (Dict.lookup name fields))
  Short-lookup name [] short = tt
  Short-lookup name ((k, values) ∷ fields) (this, others) = elim (Bool-cases (same k name)) [
    | inl hit ↦ rw hit this
    | inr miss ↦ rw miss (Short-lookup name fields others)
  ]

  Short-assign :
      (name : Text) (values : List Text) (fields : Dict (List Text))
      → All Short values
      → All (λ entry. All Short entry.1) fields
      → All (λ entry. All Short entry.1) (Dict.assign name values fields)
  Short-assign name values [] new short = (new, tt)
  Short-assign name values ((k, old) ∷ fields) new (this, others) =
      elim (Bool-cases (same k name)) [
        | inl hit ↦ rw hit (new, others)
        | inr miss ↦ rw miss (this, Short-assign name values fields new others)
      ]

  pub add_field-Within :
      (name content : Text) (parts : ℕ) (form : MultipartForm)
      → Short content
      → Within parts form
      → suc parts ≤ limits.max_parts
      → Within (suc parts) (add_field name content form)
  add_field-Within name content parts form short w room = record {
    values =
        Short-assign name _ form.fields
          (All-append Short (list_or_empty (Dict.lookup name form.fields)) (content ∷ [])
            (Short-lookup name form.fields w.values) (short, tt))
          w.values;
    held = w.held;
    count = let count = w.count in let one = total-add_field name content form in omega arith;
    few = room;
  }

  pub add_file-Within :
      (file : UploadedFile) (parts : ℕ) (form : MultipartForm)
      → IsHeld file
      → Within parts form
      → suc parts ≤ limits.max_parts
      → Within (suc parts) (add_file file form)
  add_file-Within file parts form held w room = record {
    values = w.values;
    held = All-append IsHeld form.files (file ∷ []) w.held (held, tt);
    count = rw (length-append form.files (file ∷ [])) (let count = w.count in omega arith);
    few = room;
  }
