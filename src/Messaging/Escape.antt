-- ===== src/Messaging/Escape.antt =====
-- Header values on the wire: `escape` and `unescape` of src/messaging/stomp.cpp.
use novaboot.Base.{
  ℕ, ◌≡◌, refl, sym, ap, ◌∙◌, inl, inr, true, false, [], ◌∷◌, ◌++◌, Option, none, some,
  if◌then◌else◌, ◌==◌, ==_iff, Text, text, Bool-cases, All, All-append,
}

pub data Unescaped : Type 0 where
  unescaped : Text → Unescaped
  parse_error : (why : Text) → Unescaped

-- The bytes for one character; 92 is a backslash, 10 and 13 end lines, 58 is a colon.
abbrev pub escape_one : ℕ → Text
escape_one ch =
    if ch == 92
    then 92 ∷ 92 ∷ []
    else if ch == 10
    then 92 ∷ 110 ∷ []
    else if ch == 13
    then 92 ∷ 114 ∷ []
    else if ch == 58
    then 92 ∷ 99 ∷ []
    else ch ∷ []

unfoldable pub escape : Text → Text
escape [] = []
escape (ch ∷ value) = escape_one ch ++ escape value

abbrev pub and_then : ℕ → Unescaped → Unescaped
and_then ch (unescaped rest) = unescaped (ch ∷ rest)
and_then ch (parse_error why) = parse_error why

-- The character that stands behind a backslash.
abbrev pub escaped : ℕ → Option ℕ
escaped ch =
    if ch == 92
    then some 92
    else if ch == 110
    then some 10
    else if ch == 114
    then some 13
    else if ch == 99
    then some 58
    else none

abbrev pub escape_found : Option ℕ → Unescaped → Unescaped
escape_found none rest = parse_error (text "invalid STOMP header escape")
escape_found (some ch) rest = and_then ch rest

unfoldable pub unescape : Text → Unescaped
unescape [] = unescaped []
unescape (ch ∷ []) =
    if ch == 92 then parse_error (text "unterminated STOMP header escape") else unescaped (ch ∷ [])
unescape (ch ∷ next ∷ value) =
    let behind = unescape value in
    let rest = unescape (next ∷ value) in
    if ch == 92 then escape_found (escaped next) behind else and_then ch rest

-- A character that needs no escape goes in front of any text.
unescape-plain :
    (ch : ℕ) (value : Text)
    → (ch == 92) ≡ false
    → unescape (ch ∷ value) ≡ and_then ch (unescape value)
unfolding unescape
unescape-plain ch [] h = rw h refl
unescape-plain ch (next ∷ value) h = rw h refl

same_char :
    (c ch : ℕ) (value : Text)
    → (ch == c) ≡ true
    → and_then c (unescape value) ≡ and_then ch (unescape value)
same_char c ch value e = ap (λ x. and_then x (unescape value)) (sym ((==_iff ch c).0 e))

unescape-escape_one :
    (ch : ℕ) (value : Text) → unescape (escape_one ch ++ value) ≡ and_then ch (unescape value)
unfolding unescape
unescape-escape_one ch value = elim (Bool-cases (ch == 92)) [
  | inl backslash ↦ rw backslash (same_char 92 ch value backslash)
  | inr e1 ↦ elim (Bool-cases (ch == 10)) [
    | inl line_feed ↦ rw (e1, line_feed) (same_char 10 ch value line_feed)
    | inr e2 ↦ elim (Bool-cases (ch == 13)) [
      | inl carriage_return ↦ rw (e1, e2, carriage_return) (same_char 13 ch value carriage_return)
      | inr e3 ↦ elim (Bool-cases (ch == 58)) [
        | inl colon ↦ rw (e1, e2, e3, colon) (same_char 58 ch value colon)
        | inr e4 ↦ rw (e1, e2, e3, e4) (unescape-plain ch value e1)
      ]
    ]
  ]
]

-- What is escaped is read back, whatever bytes it has.
pub unescape-escape : (value : Text) → unescape (escape value) ≡ unescaped value
unfolding escape
unescape-escape [] = unfold unescape in refl
unescape-escape (ch ∷ value) =
    unescape-escape_one ch (escape value) ∙ ap (and_then ch) (unescape-escape value)

-- A byte that separates neither lines nor name and value.
abbrev pub IsPlain : ℕ → Type 0
IsPlain b = ((b == 10) ≡ false) × ((b == 13) ≡ false) × ((b == 58) ≡ false)

escape_one-IsPlain : (ch : ℕ) → All IsPlain (escape_one ch)
escape_one-IsPlain ch = elim (Bool-cases (ch == 92)) [
  | inl e ↦ rw e ((refl, refl, refl), ((refl, refl, refl), tt))
  | inr e1 ↦ elim (Bool-cases (ch == 10)) [
    | inl e ↦ rw (e1, e) ((refl, refl, refl), ((refl, refl, refl), tt))
    | inr e2 ↦ elim (Bool-cases (ch == 13)) [
      | inl e ↦ rw (e1, e2, e) ((refl, refl, refl), ((refl, refl, refl), tt))
      | inr e3 ↦ elim (Bool-cases (ch == 58)) [
        | inl e ↦ rw (e1, e2, e3, e) ((refl, refl, refl), ((refl, refl, refl), tt))
        | inr e4 ↦ rw (e1, e2, e3, e4) ((e2, e3, e4), tt)
      ]
    ]
  ]
]

-- An escaped value holds no line end, no carriage return and no colon, so it cannot end a header
-- line, nor its name, early.
pub escape-IsPlain : (value : Text) → All IsPlain (escape value)
unfolding escape
escape-IsPlain [] = tt
escape-IsPlain (ch ∷ value) =
    All-append IsPlain (escape_one ch) (escape value) (escape_one-IsPlain ch) (escape-IsPlain value)
