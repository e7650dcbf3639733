-- ===== src/Messaging/RoundTrip.antt =====
-- Decoding what `serialize` of src/messaging/stomp.cpp writes.
use mathlib.Core.List.{append_assoc, append-nil}
use novaboot.Base.{
  ℕ, zero, suc, ◌+◌, ◌≤◌, ◌<◌, ◌≡◌, refl, sym, ap, ◌∙◌, inl, inr, false, [], ◌∷◌, ◌++◌, none, ◌==◌,
  arith, length, length-append, Text, text, same, All, All-append, All-map, Bool-cases,
}
use novaboot.Messaging.Escape.{
  unescaped, escape, unescape, unescape-escape, IsPlain, escape-IsPlain, escape_one,
}
use novaboot.Messaging.Decoder.{
  Headers, Frame, find_header, insert_or_assign, split, split_at, further, line_without_cr, Decoded,
  decoded, read_body, header_line, colon_line, line_step, after_command, header_step, read_headers,
  command_step, decode_one, has_nul, header_text, header_lines, has_header, length_line, serialize,
}

-- A text without a byte.
abbrev pub Without : ℕ → Text → Type 0
Without byte bs = All (λ b. (b == byte) ≡ false) bs

pub split_at-append :
    (byte : ℕ) (front back : Text)
    → Without byte front
    → split_at byte (front ++ (byte ∷ back)) ≡ split front back
unfolding split_at
split_at-append byte [] back w = ground arith
split_at-append byte (b ∷ front) back (h, w) =
    rw h (ap (further b) (split_at-append byte front back w))

line_without_cr-same : (line : Text) → Without 13 line → line_without_cr line ≡ line
unfolding line_without_cr
line_without_cr-same [] w = refl
line_without_cr-same (b ∷ []) (h, w) = rw h refl
line_without_cr-same (b ∷ c ∷ line) (h, w) = ap (◌∷◌ b) (line_without_cr-same (c ∷ line) w)

escape-Without :
    (value : Text)
    → Without 10 (escape value) × Without 13 (escape value) × Without 58 (escape value)
escape-Without value =
    let plain = escape-IsPlain value in
    (
      All-map IsPlain (λ b. (b == 10) ≡ false) (λ b p. p.0) (escape value) plain,
      All-map IsPlain (λ b. (b == 13) ≡ false) (λ b p. p.1) (escape value) plain,
      All-map IsPlain (λ b. (b == 58) ≡ false) (λ b p. p.2) (escape value) plain,
    )

header_text-Without :
    (name value : Text) → Without 10 (header_text name value) × Without 13 (header_text name value)
header_text-Without name value =
    let (n10, n13, _) = escape-Without name in
    let (v10, v13, _) = escape-Without value in
    (
      All-append _ (escape name) (58 ∷ escape value) n10 (refl, v10),
      All-append _ (escape name) (58 ∷ escape value) n13 (refl, v13),
    )

one_or_two : (ch : ℕ) → 1 ≤ length (escape_one ch)
one_or_two ch = ground arith

-- An escaped name is not empty if the name is not.
length-escape : (b : ℕ) (bs : Text) → 1 ≤ length (escape (b ∷ bs))
unfolding escape
length-escape b bs = omega (arith, length-append (escape_one b) (escape bs), one_or_two b)

colon_line-split :
    (front back name value : Text)
    → 1 ≤ length front
    → unescape front ≡ unescaped name
    → unescape back ≡ unescaped value
    → colon_line (split front back) ≡ header_line name value
colon_line-split [] back name value h n v = absurd (omega arith)
colon_line-split (b ∷ front) back name value h n v = rw (n, v) refl

colon_line-header :
    (name value : Text)
    → 1 ≤ length name
    → colon_line (split_at 58 (header_text name value)) ≡ header_line name value
colon_line-header [] value h = absurd (omega arith)
colon_line-header (b ∷ bs) value h =
    let (_, _, no_colon) = escape-Without (b ∷ bs) in
    rw (split_at-append 58 (escape (b ∷ bs)) (escape value) no_colon) (
      colon_line-split (escape (b ∷ bs)) (escape value) (b ∷ bs) value (length-escape b bs)
        (unescape-escape (b ∷ bs)) (unescape-escape value))

-- Headers whose names are not empty, differ from each other and are not in a list already.
abbrev pub Fresh : Headers → Headers → Type 0
Fresh seen [] = Unit
Fresh seen ((name, value) ∷ headers) =
    (1 ≤ length name)
    × (has_header name seen ≡ false)
    × Fresh (seen ++ ((name, value) ∷ [])) headers

insert_or_assign-new :
    (name value : Text) (seen : Headers)
    → has_header name seen ≡ false
    → insert_or_assign name value seen ≡ seen ++ ((name, value) ∷ [])
unfolding insert_or_assign
insert_or_assign-new name value [] h = refl
insert_or_assign-new name value ((n, v) ∷ seen) h = elim (Bool-cases (same n name)) [
  | inl hit ↦ absurd (cc (rw hit at h))
  | inr miss ↦ rw miss (ap (◌∷◌ (n, v)) (insert_or_assign-new name value seen (rw miss at h)))
]

-- A line that is not empty, as the loop over header lines reads it.
header_step-line :
    (next finish : Text → Headers → Decoded) (seen : Headers) (line rest name value : Text)
    → 1 ≤ length line
    → line_without_cr line ≡ line
    → colon_line (split_at 58 line) ≡ header_line name value
    → header_step next finish seen (split line rest) ≡ next rest (insert_or_assign name value seen)
header_step-line next finish seen [] rest name value h e c = absurd (omega arith)
header_step-line next finish seen (b ∷ line) rest name value h e c = rw (e, c) refl

length-header_text : (name value : Text) → 1 ≤ length (header_text name value)
length-header_text name value = omega (arith, length-append (escape name) (58 ∷ escape value))

-- All header lines and the empty line behind them.
read_headers-header_lines :
    (fuel : ℕ) (command : Text) (headers seen : Headers) (rest : Text)
    → length headers < fuel
    → Fresh seen headers
    → read_headers fuel command (header_lines headers (10 ∷ rest)) seen
      ≡ read_body command (seen ++ headers) rest
unfolding read_headers
read_headers-header_lines zero command headers seen rest h f = absurd (omega arith)
read_headers-header_lines (suc fuel) command [] seen rest h f = rw (split_at-append 10 [] rest tt) (
    ap
      (λ line.
        line_step (read_headers fuel command) (λ rest hs. read_body command hs rest) seen rest line)
      (line_without_cr-same [] tt)
    ∙ ap (λ hs. read_body command hs rest) (sym (append-nil seen)))
read_headers-header_lines (suc fuel) command ((name, value) ∷ headers) seen rest h (named, new, f) =
    let (no_lf, no_cr) = header_text-Without name value in
    rw (split_at-append 10 (header_text name value) (header_lines headers (10 ∷ rest)) no_lf) (
      header_step-line (read_headers fuel command) (λ rest hs. read_body command hs rest) seen
        (header_text name value) (header_lines headers (10 ∷ rest)) name value
        (length-header_text name value) (line_without_cr-same (header_text name value) no_cr)
        (colon_line-header name value named)
      ∙ ap (read_headers fuel command (header_lines headers (10 ∷ rest)))
          (insert_or_assign-new name value seen new)
      ∙ read_headers-header_lines fuel command headers (seen ++ ((name, value) ∷ [])) rest
          (omega arith) f
      ∙ ap (λ hs. read_body command hs rest) (append_assoc seen ((name, value) ∷ []) headers))

-- What a command and a body need: no line end in the command, no zero byte in the body.
abbrev pub Plain : Frame → Type 0
Plain f =
    (1 ≤ length f.command)
    × Without 10 f.command
    × Without 13 f.command
    × Without 0 f.body
    × Fresh [] f.headers
    × (find_header (text "content-length") f.headers ≡ none)

has_nul-Without : (bs : Text) → Without 0 bs → has_nul bs ≡ false
has_nul-Without [] w = refl
has_nul-Without (b ∷ bs) (h, w) = rw h (has_nul-Without bs w)

length_line-Without : (f : Frame) (rest : Text) → Without 0 f.body → length_line f rest ≡ rest
length_line-Without f rest w = rw (has_nul-Without f.body w) refl

length-header_lines :
    (headers : Headers) (rest : Text)
    → length headers + length rest ≤ length (header_lines headers rest)
length-header_lines [] rest = omega arith
length-header_lines ((name, value) ∷ headers) rest = omega (
  arith,
  length-append (header_text name value) (10 ∷ header_lines headers rest),
  length-header_lines headers rest,
)

read_body-nul :
    (command : Text) (headers : Headers) (body rest : Text)
    → find_header (text "content-length") headers ≡ none
    → Without 0 body
    → read_body command headers (body ++ (0 ∷ rest))
      ≡ decoded (record { command = command; headers = headers; body = body }) rest
unfolding read_body
read_body-nul command headers body rest h w = rw (h, split_at-append 0 body rest w) refl

after_command-cons :
    (rest command : Text)
    → 1 ≤ length command
    → after_command rest command ≡ read_headers (suc (length rest)) command rest []
after_command-cons rest [] h = absurd (omega arith)
after_command-cons rest (b ∷ bs) h = refl

header_lines-append :
    (headers : Headers) (back rest : Text)
    → header_lines headers back ++ rest ≡ header_lines headers (back ++ rest)
header_lines-append [] back rest = refl
header_lines-append ((name, value) ∷ headers) back rest =
    append_assoc (header_text name value) (10 ∷ header_lines headers back) rest
    ∙ ap (λ t. header_text name value ++ (10 ∷ t)) (header_lines-append headers back rest)

-- A serialized frame, with more input behind it, in the order in which it is read.
serialize-append :
    (f : Frame) (rest : Text)
    → Without 0 f.body
    → serialize f ++ rest ≡ f.command ++ (10 ∷ header_lines f.headers (10 ∷ (f.body ++ (0 ∷ rest))))
unfolding serialize
serialize-append f rest w = rw (length_line-Without f (10 ∷ (f.body ++ (0 ∷ []))) w) (
    append_assoc f.command (10 ∷ header_lines f.headers (10 ∷ (f.body ++ (0 ∷ [])))) rest
    ∙ ap (λ t. f.command ++ (10 ∷ t))
        (header_lines-append f.headers (10 ∷ (f.body ++ (0 ∷ []))) rest
          ∙ ap (λ t. header_lines f.headers (10 ∷ t)) (append_assoc f.body (0 ∷ []) rest)))

-- A frame with a command of one line, distinct nonempty header names, no content length and no
-- zero byte in its body is read back from what is written, and the input behind it is left.
pub decode_one-serialize :
    (f : Frame) (rest : Text) → Plain f → decode_one (serialize f ++ rest) ≡ decoded f rest
unfolding decode_one
decode_one-serialize f rest (named, no_lf, no_cr, no_nul, fresh, no_length) =
    let body = f.body ++ (0 ∷ rest) in
    let lines = header_lines f.headers (10 ∷ body) in
    ap (λ t. command_step (split_at 10 t)) (serialize-append f rest no_nul)
    ∙ ap command_step (split_at-append 10 f.command lines no_lf)
    ∙ ap (after_command lines) (line_without_cr-same f.command no_cr)
    ∙ after_command-cons lines f.command named
    ∙ read_headers-header_lines (suc (length lines)) f.command f.headers [] body
        (omega (arith, length-header_lines f.headers (10 ∷ body))) fresh
    ∙ read_body-nul f.command f.headers f.body rest no_length no_nul
