-- ===== src/Http/Headers/Fields.antt =====
-- The fields of a `HeaderMap` of src/http3/header_map.cpp: names compare without case, and each
-- operation acts on the values of one name.
use novaboot.Base.{
  ℕ, ◌≡◌, refl, sym, ap, ◌∙◌, ◌↔◌, inl, inr, true, false, ◌&&◌, List, [], ◌∷◌, ◌++◌, Option, none,
  some, map, arith, if◌then◌else◌, ◌==◌, Text, Bool-cases, same, same_sound, same_refl, same_sym,
}
use novaboot.Http.Headers.{HeaderMap, to_lower, names_equal, add, set, get, get_all, remove}

-- Names are compared by their lower case.
abbrev pub lower : Text → Text
lower name = map to_lower name

names_equal_cons :
    (x y : ℕ) (a b : Text)
    → names_equal (x ∷ a) (y ∷ b) ≡ (to_lower x == to_lower y && names_equal a b)
unfolding names_equal
names_equal_cons x y a b = elim (Bool-cases (to_lower x == to_lower y)) [
  | inl hit ↦ rw hit (ground arith)
  | inr miss ↦ rw miss (ground arith)
]

names_equal-same : (a b : Text) → names_equal a b ≡ same (lower a) (lower b)
unfolding same
names_equal-same [] [] = unfold names_equal in refl
names_equal-same [] (_ ∷ _) = unfold names_equal in ground arith
names_equal-same (_ ∷ _) [] = unfold names_equal in ground arith
names_equal-same (x ∷ a) (y ∷ b) =
    names_equal_cons x y a b ∙ ap (λ t. to_lower x == to_lower y && t) (names_equal-same a b)

names_equal-lower : (a b : Text) → names_equal a b ≡ true → lower a ≡ lower b
names_equal-lower a b h = same_sound (lower a) (lower b) (sym (names_equal-same a b) ∙ h)

-- A name that equals another can stand for it.
names_equal_cong : (a b c : Text) → names_equal a b ≡ true → names_equal a c ≡ names_equal b c
names_equal_cong a b c h =
    names_equal-same a c
    ∙ ap (λ t. same t (lower c)) (names_equal-lower a b h)
    ∙ sym (names_equal-same b c)

names_equal_sym : (a b : Text) → names_equal a b ≡ names_equal b a
names_equal_sym a b =
    names_equal-same a b ∙ same_sym (lower a) (lower b) ∙ sym (names_equal-same b a)

excluded :
    (e name other : Text)
    → names_equal e name ≡ false
    → names_equal e other ≡ true
    → names_equal name other ≡ false
excluded e name other differs hit =
    names_equal_sym name other ∙ sym (names_equal_cong e other name hit) ∙ differs

get_all-append :
    (name : Text) (xs ys : HeaderMap) → get_all name (xs ++ ys) ≡ get_all name xs ++ get_all name ys
unfolding get_all
get_all-append name [] ys = refl
get_all-append name (e ∷ xs) ys = ground (arith, get_all-append name xs ys)

-- The first of a list of values.
abbrev pub first : List Text → Option Text
first [] = none
first (v ∷ vs) = some v

abbrev pub tail : List Text → List Text
tail [] = []
tail (v ∷ vs) = vs

added :
    (name other value : Text) (h : HeaderMap)
    → get_all other (add name value h)
      ≡ get_all other h ++ (if names_equal name other then value ∷ [] else [])
unfolding add get_all
added name other value h = get_all-append other h (record { name = name; value = value } ∷ [])

-- `get` finds the first of the values that `get_all` lists.
get-first : (name : Text) (h : HeaderMap) → get name h ≡ first (get_all name h)
unfolding get get_all
get-first name [] = refl
get-first name (e ∷ h) = ground (arith, get-first name h)

get_all-remove :
    (name other : Text) (h : HeaderMap)
    → get_all other (remove name h) ≡ (if names_equal name other then [] else get_all other h)
unfolding get_all remove
get_all-remove name other [] = ground arith
get_all-remove name other (e ∷ h) = elim (Bool-cases (names_equal e.name name)) [
  | inl this ↦
      rw (this, names_equal_cong e.name name other this)
        (get_all-remove name other h ∙ ground arith)
  | inr differs ↦ elim (Bool-cases (names_equal e.name other)) [
    | inl hit ↦
        rw (differs, hit, excluded e.name name other differs hit)
          (let ih = get_all-remove name other h in
            ap (◌∷◌ e.value) (rw (excluded e.name name other differs hit) at ih))
    | inr miss ↦ rw (differs, miss) (get_all-remove name other h)
  ]
]

get_all-set :
    (name other value : Text) (h : HeaderMap)
    → get_all other (set name value h)
      ≡ (if names_equal name other then value ∷ tail (get_all other h) else get_all other h)
unfolding get_all set add
get_all-set name other value [] = ground arith
get_all-set name other value (e ∷ h) = elim (Bool-cases (names_equal e.name name)) [
  | inl this ↦ rw (this, names_equal_cong e.name name other this) (ground arith)
  | inr differs ↦ elim (Bool-cases (names_equal e.name other)) [
    | inl hit ↦
        rw (differs, hit, excluded e.name name other differs hit)
          (let ih = get_all-set name other value h in
            ap (◌∷◌ e.value) (rw (excluded e.name name other differs hit) at ih))
    | inr miss ↦ rw (differs, miss) (get_all-set name other value h)
  ]
]

-- A header map keeps, for each name without regard to case, a list of values, and each operation
-- acts on the list of its own name only: `add` appends to it, `set` replaces its first value or
-- adds one, `remove` empties it, `get` reads the first value.
pub operations_lem :
    (name other value : Text) (h : HeaderMap)
    → (get_all other (add name value h)
        ≡ get_all other h ++ (if names_equal name other then value ∷ [] else []))
      × (get_all other (set name value h)
          ≡ (if names_equal name other then value ∷ tail (get_all other h) else get_all other h))
      × (get_all other (remove name h) ≡ (if names_equal name other then [] else get_all other h))
      × (get other h ≡ first (get_all other h))
operations_lem name other value h = (
  added name other value h,
  get_all-set name other value h,
  get_all-remove name other h,
  get-first other h,
)

-- Two names are equal exactly when they are the same in lower case.
names_equal_iff : (a b : Text) → (names_equal a b ≡ true) ↔ (lower a ≡ lower b)
names_equal_iff a b = (
  names_equal-lower a b,
  λ e. names_equal-same a b ∙ ap (λ t. same t (lower b)) e ∙ same_refl (lower b),
)
