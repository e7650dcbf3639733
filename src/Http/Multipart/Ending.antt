-- ===== src/Http/Multipart/Ending.antt =====
-- `parse_multipart` of src/http/multipart.cpp ends, and what it returns keeps to the limits.
use novaboot.Base.{
  Bool, true, false, if◌then◌else◌, ℕ, zero, suc, ◌+◌, ◌≤◌, ◌<◌, ◌≡◌, refl, ◌⊎◌, inl, inr, ◌||◌, [],
  ◌++◌, Option, none, some, leb, ltb, arith, Text, text, same, is_empty, starts_with, length, drop,
  length-drop,
}
use novaboot.Http.Messages.{Request, header}
use novaboot.Http.Multipart.{
  MultipartLimits, MultipartForm, empty_form, Outcome, thrown, parameter, boundary_from,
}
use novaboot.Http.Multipart.Parts.{
  find, no_headers, Part, file_of, spilled, store, part_name, named, cut_content, cut_headers,
  read_part, after_boundary, parse_parts, directory, parse_in, parse_body, parse_typed,
  parse_multipart,
}
use novaboot.Http.Multipart.Finding.{
  Ends, Ends-and_then, Ends-if, Always, find-le, read_headers-Ends,
}
use novaboot.Http.Multipart.Limits.{Within, add_field-Within, add_file-Within}

-- A form within the limits.
abbrev pub Kept : MultipartLimits → MultipartForm → Type 0
Kept limits form = (parts : ℕ) × Within limits parts form

module _ (limits : MultipartLimits) (spill : ℕ → Text → Text ⊎ Text) where
  store-Within :
      (parts : ℕ) (part : Part) (form : MultipartForm) (filename : Option Text)
      → Within limits parts form
      → suc parts ≤ limits.max_parts
      → Ends (Within limits (suc parts)) (store limits spill parts part form filename)
  store-Within parts part form none w room =
      Ends-if (Within limits (suc parts)) (ltb limits.max_field_bytes (length part.content)) _ _
        (λ _. tt)
        (λ short. add_field-Within limits part.name part.content parts form (ground arith) w room)
  store-Within parts part form (some filename) w room =
      Ends-if (Within limits (suc parts))
        (leb (length part.content) limits.max_in_memory_file_bytes) _ _
        (λ small.
          add_file-Within limits (file_of filename part.content none part) parts form
            (inl (refl, (refl, ground arith))) w room)
        (λ large. on_disk (spill parts part.content) (ground arith))
    where
      on_disk :
          (written : Text ⊎ Text)
          → limits.max_in_memory_file_bytes < length part.content
          → Ends (Within limits (suc parts)) (spilled filename part form written)
      on_disk (inl message) large = tt
      on_disk (inr path) large =
          add_file-Within limits (file_of filename [] (some path) part) parts form
            (inr (path, (refl, (refl, large)))) w room

  -- What is left is shorter, and the form has one part more.
  abbrev Progress : Text → ℕ → Text × MultipartForm → Type 0
  Progress rest parts (left, form) = (length left < length rest) × Within limits (suc parts) form

  abbrev Shorter : Text → Text × Text → Type 0
  Shorter rest (front, back) = length back < length rest

  cut_headers-Shorter :
      (rest : Text) (end : Option ℕ)
      → find (text "\r\n\r\n") rest ≡ end
      → Ends (Shorter rest) (cut_headers limits rest end)
  cut_headers-Shorter rest none e = tt
  cut_headers-Shorter rest (some n) e =
      Ends-if (Shorter rest) (ltb limits.max_header_bytes n) _ _ (λ _. tt)
        (λ _.
          let fits = find-le (text "\r\n\r\n") rest n e in
          let cut = length-drop (n + 4) rest in omega arith)

  cut_content-Shorter :
      (delimiter rest : Text) (next : Option ℕ)
      → find (text "\r\n" ++ delimiter) rest ≡ next
      → Ends (Shorter rest) (cut_content rest next)
  cut_content-Shorter delimiter rest none e = tt
  cut_content-Shorter delimiter rest (some n) e =
      let fits = find-le (text "\r\n" ++ delimiter) rest n e in
      let cut = length-drop (n + 2) rest in omega arith

  named-Ends : (disposition : Option Text) → Ends Always (named disposition)
  named-Ends none = tt
  named-Ends (some disposition) =
      Ends-if Always (starts_with (text "form-data") disposition) _ _
        (λ _.
          Ends-and_then Always Always (part_name disposition (parameter disposition (text "name")))
            _ (by_name (parameter disposition (text "name"))) (λ _ _. tt))
        (λ _. tt)
    where
      by_name : (name : Option Text) → Ends Always (part_name disposition name)
      by_name none = tt
      by_name (some name) = Ends-if Always (is_empty name) _ _ (λ _. tt) (λ _. tt)

  read_part-Progress :
      (delimiter rest : Text) (parts : ℕ) (form : MultipartForm)
      → Within limits parts form
      → suc parts ≤ limits.max_parts
      → Ends (Progress rest parts) (read_part limits spill delimiter rest parts form)
  read_part-Progress delimiter rest parts form w room =
      Ends-and_then (Shorter rest) (Progress rest parts) _ _
        (cut_headers-Shorter rest (find (text "\r\n\r\n") rest) refl)
        (λ (headers, behind) shorter.
          Ends-and_then Always (Progress rest parts) _ _
            (read_headers-Ends (suc (length headers)) headers no_headers (omega arith))
            (λ h _.
              Ends-and_then Always (Progress rest parts) _ _ (named-Ends h.disposition)
                (λ (name, filename) _.
                  Ends-and_then (Shorter behind) (Progress rest parts) _ _
                    (cut_content-Shorter delimiter behind (find (text "\r\n" ++ delimiter) behind)
                      refl)
                    (λ (content, left) less.
                      Ends-and_then (Within limits (suc parts)) (Progress rest parts) _ _
                        (store-Within parts
                          (record {
                            name = name;
                            filename = filename;
                            content_type = h.content_type;
                            content = content;
                          })
                          form filename w room)
                        (λ stored kept. (omega arith, kept))))))

  after_boundary-Kept :
      (next : Text → ℕ → MultipartForm → Outcome MultipartForm) (delimiter inside : Text)
      (parts : ℕ) (form : MultipartForm)
      → Within limits parts form
      → ((left : Text) (stored : MultipartForm)
          → length left < length inside
          → Within limits (suc parts) stored
          → Ends (Kept limits) (next left (suc parts) stored))
      → Ends (Kept limits) (after_boundary limits spill next delimiter inside parts form)
  after_boundary-Kept next delimiter inside parts form w later =
      Ends-if (Kept limits) (starts_with (text "--") inside) _ _
        (λ _.
          Ends-if (Kept limits) (is_empty (drop 2 inside) || same (drop 2 inside) (text "\r\n")) _ _
            (λ _. (parts, w)) (λ _. tt))
        (λ _.
          Ends-if (Kept limits) (starts_with (text "\r\n") inside) _ _
            (λ _.
              Ends-if (Kept limits) (leb limits.max_parts parts) _ _ (λ _. tt)
                (λ room.
                  Ends-and_then (Progress (drop 2 inside) parts) (Kept limits) _ _
                    (read_part-Progress delimiter (drop 2 inside) parts form w (ground arith))
                    (λ (left, stored) (less, kept).
                      let cut = length-drop 2 inside in later left stored (omega arith) kept)))
            (λ _. tt))

  parse_parts-Kept :
      (fuel : ℕ) (delimiter rest : Text) (parts : ℕ) (form : MultipartForm)
      → length rest < fuel
      → Within limits parts form
      → Ends (Kept limits) (parse_parts limits spill fuel delimiter rest parts form)
  unfolding parse_parts
  parse_parts-Kept zero delimiter rest parts form enough w = absurd (omega arith)
  parse_parts-Kept (suc fuel) delimiter rest parts form enough w =
      Ends-if (Kept limits) (starts_with delimiter rest) _ _
        (λ _.
          after_boundary-Kept (parse_parts limits spill fuel delimiter) delimiter
            (drop (length delimiter) rest) parts form w
            (λ left stored less kept.
              let cut = length-drop (length delimiter) rest in
              parse_parts-Kept fuel delimiter left (suc parts) stored (omega arith) kept))
        (λ _. tt)

-- The one exception is that of a directory for temporary files that is not configured and that the
-- system does not have.
abbrev pub Answers : MultipartLimits → Option Text → Outcome MultipartForm → Type 0
Answers limits temp_directory_path o =
    Ends (Kept limits) o ⊎ ((o ≡ thrown) × (directory limits temp_directory_path ≡ none))

module _ (limits : MultipartLimits) (temp_directory_path : Option Text)
    (spill : Text → ℕ → Text → Text ⊎ Text) where
  parse_in-Answers :
      (body delimiter : Text) (path : Option Text)
      → directory limits temp_directory_path ≡ path
      → Answers limits temp_directory_path
          (parse_in limits temp_directory_path spill body delimiter path)
  parse_in-Answers body delimiter none e = inr (refl, e)
  parse_in-Answers body delimiter (some path) e = inl (
      Ends-if (Kept limits) (starts_with delimiter body) _ _
        (λ _.
          parse_parts-Kept limits (spill path) (suc (length body)) delimiter body 0 empty_form
            (omega arith) (record { values = tt; held = tt; count = refl; few = omega arith }))
        (λ _. tt))

  Answers-if :
      (b : Bool) (x y : Outcome MultipartForm)
      → Answers limits temp_directory_path x
      → Answers limits temp_directory_path y
      → Answers limits temp_directory_path (if b then x else y)
  Answers-if true x y p q = p
  Answers-if false x y p q = q

  parse_body-Answers :
      (body : Text) (boundary : Option Text)
      → Answers limits temp_directory_path
          (parse_body limits temp_directory_path spill body boundary)
  parse_body-Answers body none = inl tt
  parse_body-Answers body (some boundary) =
      Answers-if (ltb limits.max_total_bytes (length body)) _ _ (inl tt)
        (parse_in-Answers body (text "--" ++ boundary) (directory limits temp_directory_path) refl)

  -- `parse_multipart` never runs out of fuel: it answers with an error, or with a form that has no
  -- more values and files than the limit on parts, no value above the limit for fields, and each
  -- file either in memory, whole and within the limit, or in a temporary file and above it. It throws
  -- only where no directory for temporary files is configured and the system has none.
  pub parse_multipart-Kept :
      (request : Request)
      → Answers limits temp_directory_path
          (parse_multipart limits temp_directory_path spill request)
  unfolding parse_multipart
  parse_multipart-Kept request = typed (header (text "content-type") request)
    where
      typed :
          (type : Option Text)
          → Answers limits temp_directory_path
              (parse_typed limits temp_directory_path spill request.body type)
      typed none = inl tt
      typed (some type) = parse_body-Answers request.body (boundary_from type)
