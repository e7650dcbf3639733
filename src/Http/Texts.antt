-- ===== src/Http/Texts.antt =====
-- What the HTTP code of src/http/ and src/middleware/ does with texts: cutting at separators and
-- trimming.
use novaboot.Base.{
  ℕ, ◌≡◌, refl, ap, ◌∙◌, Bool, true, false, ◌&&◌, ◌||◌, List, [], ◌∷◌, ◌++◌, Option, none, some,
  if◌then◌else◌, ◌==◌, arith, Text, is_empty, All,
}

-- The text before the first such byte, and the text behind it where there is one.
abbrev pub divide : ℕ → Text → Text × Option Text
divide byte [] = ([], none)
divide byte (b ∷ bs) =
    let rest = divide byte bs in if b == byte then ([], some bs) else (b ∷ rest.0, rest.1)

abbrev pub begin_piece : ℕ → List Text → List Text
begin_piece b [] = (b ∷ []) ∷ []
begin_piece b (p ∷ ps) = (b ∷ p) ∷ ps

-- The parts that a loop finds that cuts at a separator until nothing is left.
abbrev pub pieces : ℕ → Text → List Text
pieces byte [] = []
pieces byte (b ∷ bs) =
    let rest = pieces byte bs in if b == byte then [] ∷ rest else begin_piece b rest

abbrev pub trim_front : (ℕ → Bool) → Text → Text
trim_front space [] = []
trim_front space (b ∷ bs) = let rest = trim_front space bs in if space b then rest else b ∷ bs

abbrev pub trim_back : (ℕ → Bool) → Text → Text
trim_back space [] = []
trim_back space (b ∷ bs) =
    let rest = trim_back space bs in if is_empty rest && space b then [] else b ∷ rest

-- Takes spaces off the front, and then off the back.
abbrev pub trim : (ℕ → Bool) → Text → Text
trim space t = trim_back space (trim_front space t)

abbrev pub is_blank : ℕ → Bool
is_blank b = b == 32 || b == 9

-- No byte of the text passes the test.
abbrev pub Lacks : (ℕ → Bool) → Text → Type 0
Lacks test t = All (λ b. test b ≡ false) t

pub divide-append :
    (byte : ℕ) (front back : Text)
    → Lacks (λ b. b == byte) front
    → divide byte (front ++ byte ∷ back) ≡ (front, some back)
divide-append byte [] back l = ground arith
divide-append byte (b ∷ front) back (miss, l) = rw (miss, divide-append byte front back l) refl

pub divide-Lacks : (byte : ℕ) (t : Text) → Lacks (λ b. b == byte) t → divide byte t ≡ (t, none)
divide-Lacks byte [] l = refl
divide-Lacks byte (b ∷ t) (miss, l) = rw (miss, divide-Lacks byte t l) refl

pub pieces-append :
    (byte : ℕ) (front back : Text)
    → Lacks (λ b. b == byte) front
    → pieces byte (front ++ byte ∷ back) ≡ front ∷ pieces byte back
pieces-append byte [] back l = ground arith
pieces-append byte (b ∷ front) back (miss, l) = rw (miss, pieces-append byte front back l) refl

pub pieces-Lacks :
    (byte b : ℕ) (t : Text) → Lacks (λ c. c == byte) (b ∷ t) → pieces byte (b ∷ t) ≡ (b ∷ t) ∷ []
pieces-Lacks byte b [] (miss, l) = rw miss refl
pieces-Lacks byte b (c ∷ t) (miss, l) = rw (miss, pieces-Lacks byte c t l) refl

trim_back-Lacks : (space : ℕ → Bool) (t : Text) → Lacks space t → trim_back space t ≡ t
trim_back-Lacks space [] l = refl
trim_back-Lacks space (b ∷ []) (miss, l) = rw miss refl
trim_back-Lacks space (b ∷ c ∷ t) (miss, l) = rw (trim_back-Lacks space (c ∷ t) l) refl

trim_front-Lacks : (space : ℕ → Bool) (t : Text) → Lacks space t → trim_front space t ≡ t
trim_front-Lacks space [] l = refl
trim_front-Lacks space (b ∷ t) (miss, l) = rw miss refl

pub trim-Lacks : (space : ℕ → Bool) (t : Text) → Lacks space t → trim space t ≡ t
trim-Lacks space t l = ap (trim_back space) (trim_front-Lacks space t l) ∙ trim_back-Lacks space t l

pub trim-space :
    (space : ℕ → Bool) (b : ℕ) (t : Text) → space b ≡ true → Lacks space t → trim space (b ∷ t) ≡ t
trim-space space b t h l = rw h (trim-Lacks space t l)
