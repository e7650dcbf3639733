-- ===== src/Messaging/Decoder.antt =====
-- `Decoder::feed` and `serialize` of src/messaging/stomp.cpp. The headers of a frame are a list with
-- one entry for each name.
use novaboot.Base.{
  from_chars, to_string, ℕ, zero, suc, ◌+◌, Bool, true, false, not, ◌&&◌, List, [], ◌∷◌, ◌++◌,
  Option, none, some, if◌then◌else◌, ltb, ◌==◌, length, take, drop, get_or, Text, text, same,
  is_empty,
}
use novaboot.Messaging.Escape.{Unescaped, unescaped, parse_error, escape, unescape}

abbrev pub Headers : Type 0
Headers = List (Text × Text)

pub record Frame : Type 0 where
  pub command : Text
  pub headers : Headers
  pub body : Text

abbrev pub find_header : Text → Headers → Option Text
find_header name [] = none
find_header name ((n, v) ∷ headers) = if same n name then some v else find_header name headers

-- `Frame::header`.
abbrev pub text_or_empty : Option Text → Text
text_or_empty none = []
text_or_empty (some value) = value

abbrev pub header : Text → Frame → Text
header name frame = text_or_empty (find_header name frame.headers)

unfoldable pub insert_or_assign : Text → Text → Headers → Headers
insert_or_assign name value [] = (name, value) ∷ []
insert_or_assign name value ((n, v) ∷ headers) =
    let rest = insert_or_assign name value headers in
    if same n name then (n, value) ∷ headers else (n, v) ∷ rest

-- The text before the first such byte, and the text behind it.
pub data Split : Type 0 where
  unsplit : Split
  split : (front back : Text) → Split

abbrev pub further : ℕ → Split → Split
further b unsplit = unsplit
further b (split front back) = split (b ∷ front) back

unfoldable pub split_at : ℕ → Text → Split
split_at byte [] = unsplit
split_at byte (b ∷ bs) =
    let rest = split_at byte bs in if b == byte then split [] bs else further b rest

unfoldable pub line_without_cr : Text → Text
line_without_cr [] = []
line_without_cr (b ∷ []) = if b == 13 then [] else b ∷ []
line_without_cr (b ∷ c ∷ line) = b ∷ line_without_cr (c ∷ line)

-- The two loops over heartbeats between frames.
unfoldable pub skip_lf : Text → Text
skip_lf [] = []
skip_lf (b ∷ bs) = let rest = skip_lf bs in if b == 10 then rest else b ∷ bs

unfoldable pub skip_crlf : Text → Text
skip_crlf [] = []
skip_crlf (b ∷ []) = b ∷ []
skip_crlf (b ∷ c ∷ bs) = let rest = skip_crlf bs in if b == 13 && c == 10 then rest else b ∷ c ∷ bs

-- What stands at the front of the buffer.
pub data Decoded : Type 0 where
  waiting : Decoded
  malformed : (why : Text) → Decoded
  decoded : Frame → (rest : Text) → Decoded

abbrev pub body_until_nul : Text → Headers → Split → Decoded
body_until_nul command headers unsplit = waiting
body_until_nul command headers (split body rest) =
    decoded (record { command = command; headers = headers; body = body }) rest

abbrev pub body_of_size : Text → Headers → Text → Option ℕ → Decoded
body_of_size command headers input none = malformed (text "invalid STOMP content-length")
body_of_size command headers input (some size) =
    if ltb (length input) (size + 1)
    then waiting
    else if get_or input size 0 == 0
    then decoded (record { command = command; headers = headers; body = take size input })
        (drop (size + 1) input)
    else malformed (text "STOMP frame is missing NUL terminator")

abbrev pub body_by_length : Text → Headers → Text → Option Text → Decoded
body_by_length command headers input none = body_until_nul command headers (split_at 0 input)
body_by_length command headers input (some value) =
    body_of_size command headers input (from_chars value)

unfoldable pub read_body : Text → Headers → Text → Decoded
read_body command headers input =
    body_by_length command headers input (find_header (text "content-length") headers)

-- A header line, already without its end.
pub data Line : Type 0 where
  bad_line : (why : Text) → Line
  header_line : (name value : Text) → Line

abbrev pub both : Unescaped → Unescaped → Line
both (parse_error why) value = bad_line why
both (unescaped name) (parse_error why) = bad_line why
both (unescaped name) (unescaped value) = header_line name value

abbrev pub colon_line : Split → Line
colon_line unsplit = bad_line (text "malformed STOMP header")
colon_line (split [] value) = bad_line (text "malformed STOMP header")
colon_line (split (b ∷ name) value) = both (unescape (b ∷ name)) (unescape value)

abbrev pub with_line : (Headers → Decoded) → Headers → Line → Decoded
with_line next headers (bad_line why) = malformed why
with_line next headers (header_line name value) = next (insert_or_assign name value headers)

abbrev pub line_step :
    (Text → Headers → Decoded) → (Text → Headers → Decoded) → Headers → Text → Text → Decoded
line_step next finish headers rest [] = finish rest headers
line_step next finish headers rest (b ∷ bs) =
    with_line (next rest) headers (colon_line (split_at 58 (b ∷ bs)))

abbrev pub header_step :
    (Text → Headers → Decoded) → (Text → Headers → Decoded) → Headers → Split → Decoded
header_step next finish headers unsplit = waiting
header_step next finish headers (split line rest) =
    line_step next finish headers rest (line_without_cr line)

-- The loop over header lines, on fuel; each takes a byte or more.
unfoldable pub read_headers : ℕ → Text → Text → Headers → Decoded
read_headers zero command input headers = waiting
read_headers (suc fuel) command input headers =
    header_step (read_headers fuel command) (λ rest hs. read_body command hs rest) headers
      (split_at 10 input)

abbrev pub after_command : Text → Text → Decoded
after_command rest [] = malformed (text "STOMP command is empty")
after_command rest (b ∷ bs) = read_headers (suc (length rest)) (b ∷ bs) rest []

abbrev pub command_step : Split → Decoded
command_step unsplit = waiting
command_step (split line rest) = after_command rest (line_without_cr line)

unfoldable pub decode_one : Text → Decoded
decode_one input = command_step (split_at 10 input)

pub record Decoder : Type 0 where
  pub buffer : Text
  pub failed : Bool

pub data Fed : Type 0 where
  fed_frames : List Frame → Fed
  fed_error : (why : Text) → Fed

abbrev pub feed_step :
    (Text → List Frame → Decoder × Fed) → Text → List Frame → Decoded → Decoder × Fed
feed_step next input frames waiting = (record { buffer = input; failed = false }, fed_frames frames)
feed_step next input frames (malformed why) =
    (record { buffer = input; failed = true }, fed_error why)
feed_step next input frames (decoded f rest) = next rest (frames ++ f ∷ [])

-- The loop over frames, on fuel; each takes a byte or more.
unfoldable pub feed_loop : ℕ → Text → List Frame → Decoder × Fed
feed_loop zero input frames = (record { buffer = input; failed = false }, fed_frames frames)
feed_loop (suc fuel) input frames =
    let front = skip_crlf (skip_lf input) in
    if is_empty front
    then (record { buffer = []; failed = false }, fed_frames frames)
    else feed_step (feed_loop fuel) front frames (decode_one front)

unfoldable pub feed : Text → Decoder → Decoder × Fed
feed bytes d =
    if d.failed
    then (d, fed_error (text "STOMP decoder is in failed state"))
    else (let whole = d.buffer ++ bytes in feed_loop (suc (length whole)) whole [])

abbrev pub new_decoder : Decoder
new_decoder = record { buffer = []; failed = false }

abbrev pub has_nul : Text → Bool
has_nul [] = false
has_nul (b ∷ bs) = if b == 0 then true else has_nul bs

abbrev pub header_text : Text → Text → Text
header_text name value = escape name ++ (58 ∷ escape value)

abbrev pub header_lines : Headers → Text → Text
header_lines [] rest = rest
header_lines ((name, value) ∷ headers) rest =
    header_text name value ++ (10 ∷ header_lines headers rest)

abbrev pub has_header : Text → Headers → Bool
has_header name [] = false
has_header name ((n, v) ∷ headers) = if same n name then true else has_header name headers

abbrev pub length_line : Frame → Text → Text
length_line f rest =
    if has_nul f.body && not (has_header (text "content-length") f.headers)
    then text "content-length:" ++ (to_string (length f.body) ++ (10 ∷ rest))
    else rest

unfoldable pub serialize : Frame → Text
serialize f = f.command ++ (10 ∷ header_lines f.headers (length_line f (10 ∷ (f.body ++ (0 ∷ [])))))
