-- ===== src/Http/Static/Answers.antt =====
-- The answers of src/http/static_resource.cpp for a file.
use novaboot.Base.{
  ℕ, ◌+◌, ◌-◌, ◌≤◌, ◌≡◌, refl, sym, ap, ◌∙◌, ◌↔◌, ◌≢◌, ◌⊎◌, inl, inr, Bool, true, false, ◌||◌, ◌∷◌,
  [], Option, none, some, if◌then◌else◌, ◌==◌, ==_iff, arith, Text, text, same, same_iff, length,
  take, drop, length-take, length-drop, if_true,
}
use novaboot.Http.Messages.{Request, Response, header}
use novaboot.Http.Static.{
  ByteRange, RangeParse, absent, valid, invalid, parse_range, File, etag_for, is_cached,
  not_modified, read_bytes, full, partial, by_range, requested_range, serve_file,
}
use novaboot.Http.Static.Ranges.{Asks, Inside, Asks-Inside}
use novaboot.Http.Static.Asking.{Means, parse_range-Means}

-- The client names the version that it has, or any.
abbrev pub HasVersion : File → Option Text → Type 0
HasVersion file none = ⊥
HasVersion file (some tags) = (tags ≡ etag_for file) ⊎ (tags ≡ text "*")

abbrev pub NoRange : Option Text → Type 0
NoRange none = Unit
NoRange (some value) = value ≡ []

-- The header asks for this range.
abbrev pub AsksFor : File → Option Text → ByteRange → Type 0
AsksFor file none range = ⊥
AsksFor file (some value) range = Asks file.file_size value range

-- The header is there, and asks for no range within the file.
abbrev pub AsksInVain : File → Option Text → Type 0
AsksInVain file none = ⊥
AsksInVain file (some value) =
    (value ≢ []) × ((range : ByteRange) → Asks file.file_size value range → ⊥)

-- A body as it was where only the head is asked for, and these bytes otherwise.
abbrev pub Carries : (head_only : Bool) → Response → Text → Response → Type 0
Carries head_only response bytes answer = answer.body ≡ (if head_only then response.body else bytes)

abbrev pub slice : ByteRange → Text → Text
slice range bytes = take ((range.last - range.first) + 1) (drop range.first bytes)

-- The answer by the two headers: If-None-Match first, and then Range.
abbrev pub IsAnswer :
    (head_only : Bool) → File → Text → (tags range : Option Text) → Response → Response → Type 0
IsAnswer head_only file bytes tags range response answer =
    ((HasVersion file tags) × ((answer.status_code ≡ 304) × (answer.body ≡ response.body)))
    ⊎ ((¬ HasVersion file tags)
        × ((NoRange range × ((answer.status_code ≡ 200) × Carries head_only response bytes answer))
            ⊎ (((r : ByteRange) × (AsksFor file range r
                    × ((answer.status_code ≡ 206)
                        × Carries head_only response (slice r bytes) answer)))
                ⊎ (AsksInVain file range
                    × ((answer.status_code ≡ 416) × (answer.body ≡ response.body))))))

is_cached_iff :
    (file : File) (tags : Option Text) → (is_cached file tags ≡ true) ↔ HasVersion file tags
is_cached_iff file none = (λ h. cc h, λ h. absurd h)
is_cached_iff file (some tags) = (
  λ h. elim (either (same tags (etag_for file)) (same tags (text "*")) h) [
    | inl this ↦ inl ((same_iff tags (etag_for file)).0 this)
    | inr any ↦ inr ((same_iff tags (text "*")).0 any)
  ],
  λ h. elim h [
    | inl this ↦ let hit = (same_iff tags (etag_for file)).1 this in ground arith
    | inr any ↦ let hit = (same_iff tags (text "*")).1 any in ground arith
  ],
)
  where
    either : (x y : Bool) → (x || y) ≡ true → (x ≡ true) ⊎ (y ≡ true)
    either true y h = inl refl
    either false y h = inr h

abbrev RangeMeans : File → Option Text → RangeParse → Type 0
RangeMeans file range absent = NoRange range
RangeMeans file range (valid r) = AsksFor file range r
RangeMeans file range invalid = AsksInVain file range

Means-some :
    (file : File) (value : Text) (result : RangeParse)
    → Means file.file_size value result
    → RangeMeans file (some value) result
Means-some file value absent m = m
Means-some file value (valid r) m = m
Means-some file value invalid m = m

requested_range-Means :
    (file : File) (range : Option Text) → RangeMeans file range (requested_range file range)
requested_range-Means file none = tt
requested_range-Means file (some value) =
    Means-some file value (parse_range value file.file_size)
      (parse_range-Means value file.file_size)

asked-Inside :
    (file : File) (range : Option Text) (r : ByteRange)
    → AsksFor file range r
    → Inside file.file_size r
asked-Inside file none r asked = absurd asked
asked-Inside file (some value) r asked = Asks-Inside file.file_size value r asked

take-all : (bytes : Text) (n : ℕ) → length bytes ≡ n → take n bytes ≡ bytes
take-all bytes n e = rw (← e) (all bytes)
  where
    all : (t : Text) → take (length t) t ≡ t
    all [] = refl
    all (b ∷ t) = ap (λ s. b ∷ s) (all t)

read_bytes-some :
    (first count : ℕ) (bytes : Text)
    → first + count ≤ length bytes
    → read_bytes first count (some bytes) ≡ some (take count (drop first bytes))
read_bytes-some first count bytes fits =
    let rest = length-drop first bytes in
    let taken = length-take count (drop first bytes) in
    if_true (length (take count (drop first bytes)) == count)
      ((==_iff (length (take count (drop first bytes))) count).1 (omega arith)) _ none

false-true : ◌≡◌ {A = Bool} false true → ⊥
false-true e = cc e

module _ (file : File) (bytes : Text) (content : file.content ≡ some bytes)
    (whole : length bytes ≡ file.file_size) where
  abbrev pub Answered :
      (head_only : Bool) → (tags range : Option Text) → Response → Option Response → Type 0
  Answered head_only tags range response none = ⊥
  Answered head_only tags range response (some answer) =
      IsAnswer head_only file bytes tags range response answer

  full-Answered :
      (head_only : Bool) (tags range : Option Text) (response : Response)
      → (¬ HasVersion file tags)
      → NoRange range
      → Answered head_only tags range response (full head_only file response)
  full-Answered true tags range response new none_asked = inr (new, inl (none_asked, (refl, refl)))
  full-Answered false tags range response new none_asked =
      let read =
        ap (read_bytes 0 file.file_size) content
        ∙ read_bytes-some 0 file.file_size bytes (omega arith)
        ∙ ap some (take-all bytes file.file_size whole) in
      rw read (inr (new, inl (none_asked, (refl, refl))))

  partial-Answered :
      (head_only : Bool) (tags range : Option Text) (r : ByteRange) (response : Response)
      → (¬ HasVersion file tags)
      → AsksFor file range r
      → Answered head_only tags range response (partial head_only file r response)
  partial-Answered true tags range r response new asked =
      inr (new, inr (inl (r, (asked, (refl, refl)))))
  partial-Answered false tags range r response new asked =
      let inside = asked-Inside file range r asked in
      let read =
        ap (read_bytes r.first ((r.last - r.first) + 1)) content
        ∙ read_bytes-some r.first ((r.last - r.first) + 1) bytes (omega arith) in
      rw read (inr (new, inr (inl (r, (asked, (refl, refl))))))

  by_range-Answered :
      (head_only : Bool) (tags range : Option Text) (response : Response) (result : RangeParse)
      → (¬ HasVersion file tags)
      → RangeMeans file range result
      → Answered head_only tags range response (by_range head_only file response result)
  by_range-Answered head_only tags range response absent new means =
      full-Answered head_only tags range response new means
  by_range-Answered head_only tags range response (valid r) new means =
      partial-Answered head_only tags range r response new means
  by_range-Answered head_only tags range response invalid new means =
      inr (new, inr (inr (means, (refl, refl))))

  -- For a file that reads as long as the file system says, every request gets an answer. Where its
  -- If-None-Match header is the file's entity tag or `*`, it is 304, without a new body. Otherwise the
  -- Range header decides: without one, or with an empty one, it is 200 with the whole file; where it
  -- asks for a range of the file, it is 206 with exactly the bytes of this range; and where it asks
  -- for none, it is 416, without a new body. A request for the head only gets the same status, and no
  -- new body.
  pub serve_file-Answered :
      (head_only : Bool) (request : Request) (response : Response)
      → Answered head_only
          (header (text "if-none-match") request)
          (header (text "range") request)
          response
          (serve_file head_only file request response)
  unfolding serve_file
  serve_file-Answered head_only request response =
      decided (is_cached file (header (text "if-none-match") request)) refl
    where
      decided :
          (b : Bool)
          → is_cached file (header (text "if-none-match") request) ≡ b
          → Answered head_only
              (header (text "if-none-match") request)
              (header (text "range") request)
              response
              (if b
                then some (not_modified file response)
                else by_range head_only file response
                    (requested_range file (header (text "range") request)))
      decided true e =
          inl ((is_cached_iff file (header (text "if-none-match") request)).0 e, (refl, refl))
      decided false e =
          by_range-Answered head_only (header (text "if-none-match") request)
            (header (text "range") request) response
            (requested_range file (header (text "range") request))
            (λ has.
              false-true
                (sym e ∙ (is_cached_iff file (header (text "if-none-match") request)).1 has))
            (requested_range-Means file (header (text "range") request))
