-- ===== src/Http/Cookies/Reading.antt =====
-- `request_cookie` of include/novaboot/http3/cookie.h reads what a browser sends.
use novaboot.Base.{
  ℕ, ◌≡◌, refl, ap, ◌∙◌, Bool, true, false, ◌||◌, [], ◌∷◌, ◌++◌, Option, none, some, if◌then◌else◌,
  ◌==◌, Text, text, same, All, All-append, All-map,
}
use novaboot.Base.Dict
use novaboot.Base.Dict.{Dict}
use novaboot.Http.Headers
use novaboot.Http.Messages.{Request}
use novaboot.Http.Texts.{
  divide, pieces, trim, is_blank, Lacks, divide-append, pieces-append, pieces-Lacks, trim-Lacks,
  trim-space,
}
use novaboot.Http.Cookies.{cookie_part, cookie_in, first_of, request_cookie}

-- One cookie as a browser writes it.
abbrev pub pair_text : Text × Text → Text
pair_text (name, value) = name ++ (61 ∷ value)

-- The header for these cookies.
abbrev pub cookie_header : Dict Text → Text
cookie_header [] = []
cookie_header (c ∷ []) = pair_text c
cookie_header (c ∷ d ∷ cookies) = pair_text c ++ (59 ∷ (32 ∷ cookie_header (d ∷ cookies)))

-- No blank and no semicolon in a name or a value, and no `=` in a name.
abbrev pub is_separator : ℕ → Bool
is_separator b = is_blank b || b == 59

abbrev pub IsPair : Text × Text → Type 0
IsPair (name, value) = Lacks (λ b. is_separator b || b == 61) name × Lacks is_separator value

pair-Lacks : (c : Text × Text) → IsPair c → Lacks is_separator (pair_text c)
pair-Lacks (name, value) (n, v) =
    All-append (λ b. is_separator b ≡ false) name (61 ∷ value)
      (All-map (λ b. (is_separator b || b == 61) ≡ false) (λ b. is_separator b ≡ false)
        (λ b h. weaker (is_separator b) (b == 61) h) name n)
      (refl, v)
  where
    weaker : (x y : Bool) → (x || y) ≡ false → x ≡ false
    weaker true y h = cc h
    weaker false y h = refl

-- The blank that stands before all cookies but the first.
abbrev spaced : Bool → Text → Text
spaced true t = 32 ∷ t
spaced false t = t

weaken_first : (x y : Bool) → (x || y) ≡ false → x ≡ false
weaken_first true y h = cc h
weaken_first false y h = refl

weaken_second : (x y : Bool) → (x || y) ≡ false → y ≡ false
weaken_second true y h = cc h
weaken_second false y h = h

Lacks-blank : (t : Text) → Lacks is_separator t → Lacks is_blank t
Lacks-blank =
    All-map (λ b. is_separator b ≡ false) (λ b. is_blank b ≡ false)
      (λ b h. weaken_first (is_blank b) (b == 59) h)

Lacks-semicolon : (t : Text) → Lacks is_separator t → Lacks (λ b. b == 59) t
Lacks-semicolon =
    All-map (λ b. is_separator b ≡ false) (λ b. (b == 59) ≡ false)
      (λ b h. weaken_second (is_blank b) (b == 59) h)

Lacks-equals : (t : Text) → Lacks (λ b. is_separator b || b == 61) t → Lacks (λ b. b == 61) t
Lacks-equals =
    All-map (λ b. (is_separator b || b == 61) ≡ false) (λ b. (b == 61) ≡ false)
      (λ b h. weaken_second (is_separator b) (b == 61) h)

trim-spaced : (lead : Bool) (t : Text) → Lacks is_blank t → trim is_blank (spaced lead t) ≡ t
trim-spaced true t l = trim-space is_blank 32 t refl l
trim-spaced false t l = trim-Lacks is_blank t l

spaced-semicolon :
    (lead : Bool) (t : Text) → Lacks (λ b. b == 59) t → Lacks (λ b. b == 59) (spaced lead t)
spaced-semicolon true t l = (refl, l)
spaced-semicolon false t l = l

pieces-spaced :
    (lead : Bool) (name value : Text)
    → Lacks (λ b. b == 59) (spaced lead (pair_text (name, value)))
    → pieces 59 (spaced lead (pair_text (name, value))) ≡ spaced lead (pair_text (name, value)) ∷ []
pieces-spaced true name value l = pieces-Lacks 59 32 (pair_text (name, value)) l
pieces-spaced false [] value l = pieces-Lacks 59 61 value l
pieces-spaced false (b ∷ name) value l = pieces-Lacks 59 b (name ++ 61 ∷ value) l

cookie_part-pair :
    (key : Text) (lead : Bool) (c : Text × Text) (rest : Option Text)
    → IsPair c
    → cookie_part key (divide 61 (trim is_blank (spaced lead (pair_text c)))) rest
      ≡ (if same c.0 key then some c.1 else rest)
cookie_part-pair key lead (name, value) rest p =
    let l = pair-Lacks (name, value) p in
    let bare : Lacks is_blank name =
      All-map (λ b. (is_separator b || b == 61) ≡ false) (λ b. is_blank b ≡ false)
        (λ b h. weaken_first (is_blank b) (b == 59) (weaken_first (is_separator b) (b == 61) h))
        name p.0 in
    rw
      (
        trim-spaced lead (pair_text (name, value)) (Lacks-blank (pair_text (name, value)) l),
        divide-append 61 name value (Lacks-equals name p.0),
        trim-Lacks is_blank name bare,
      )
      refl

spaced-append : (lead : Bool) (s t : Text) → spaced lead (s ++ t) ≡ spaced lead s ++ t
spaced-append true s t = refl
spaced-append false s t = refl

first_of-none : (o : Option Text) → first_of o none ≡ o
first_of-none none = refl
first_of-none (some value) = refl

cookie_in-header :
    (key : Text) (lead : Bool) (c : Text × Text) (cookies : Dict Text)
    → All IsPair (c ∷ cookies)
    → cookie_in key (pieces 59 (spaced lead (cookie_header (c ∷ cookies))))
      ≡ Dict.lookup key (c ∷ cookies)
cookie_in-header key lead (name, value) [] (p, ps) =
    let l = Lacks-semicolon (pair_text (name, value)) (pair-Lacks (name, value) p) in
    ap (cookie_in key)
      (pieces-spaced lead name value (spaced-semicolon lead (pair_text (name, value)) l))
    ∙ cookie_part-pair key lead (name, value) none p
cookie_in-header key lead (name, value) (d ∷ cookies) (p, ps) =
    let this = pair_text (name, value) in
    let l = spaced-semicolon lead this (Lacks-semicolon this (pair-Lacks (name, value) p)) in
    let later = 32 ∷ cookie_header (d ∷ cookies) in
    ap (λ t. cookie_in key (pieces 59 t)) (spaced-append lead this (59 ∷ later))
    ∙ ap (cookie_in key) (pieces-append 59 (spaced lead this) later l)
    ∙ cookie_part-pair key lead (name, value) (cookie_in key (pieces 59 later)) p
    ∙ ap (λ r. if same name key then some value else r) (cookie_in-header key true d cookies ps)

-- A request whose only Cookie header lists these cookies, which have no blank and no semicolon, nor
-- `=` in a name, has for each name the value of the first cookie with this name, if there is one.
pub request_cookie-cookie_header :
    (key : Text) (c : Text × Text) (cookies : Dict Text) (request : Request)
    → All IsPair (c ∷ cookies)
    → Headers.get_all (text "cookie") request.headers ≡ cookie_header (c ∷ cookies) ∷ []
    → request_cookie key request ≡ Dict.lookup key (c ∷ cookies)
unfolding request_cookie
request_cookie-cookie_header key c cookies request p only = rw only (
    first_of-none (cookie_in key (pieces 59 (cookie_header (c ∷ cookies))))
    ∙ cookie_in-header key false c cookies p)
