-- ===== src/Http/Cookies/Writing.antt =====
-- `serialize_cookie` of include/novaboot/http3/cookie.h writes no control characters.
use novaboot.Base.{
  ℤ, pos, negsuc, to_string_ℤ, ℕ, zero, suc, ◌+◌, ◌/◌, ◌%◌, ◌≡◌, refl, sym, ◌∙◌, Bool, true, false,
  not, ◌||◌, [], ◌∷◌, ◌++◌, Option, none, some, leb, ltb, ◌==◌, arith, inl, inr, Text, text,
  decimal, to_string, is_empty, All, All-append, All-map, Bool-cases, if_true, if_false,
}
use mathlib.Core.Path.{subst}
use novaboot.Http.Cookies.{
  Cookie, SameSite, strict, lax, unrestricted, cookie_token_character, is_delimiter, any,
  bad_domain, starts_with_slash, is_refused, domain_attribute, age_attribute, flag,
  same_site_attribute, attributes, serialize_cookie,
}

abbrev pub is_control : ℕ → Bool
is_control b = leb b 31 || b == 127

-- No control characters, so no line ends.
abbrev pub Printable : Text → Type 0
Printable t = All (λ b. is_control b ≡ false) t

Printable-token : (b : ℕ) → not (cookie_token_character b) ≡ false → is_control b ≡ false
Printable-token b h = ground arith

Printable-delimiter : (b : ℕ) → is_delimiter b ≡ false → is_control b ≡ false
Printable-delimiter b h = ground arith

pub any-false : (test : ℕ → Bool) (t : Text) → any test t ≡ false → All (λ b. test b ≡ false) t
any-false test [] h = tt
any-false test (b ∷ t) h = (ground arith, any-false test t (ground arith))

Printable-decimal : (fuel n : ℕ) (rest : Text) → Printable rest → Printable (decimal fuel n rest)
Printable-decimal zero n rest p = p
Printable-decimal (suc fuel) n rest p = elim (Bool-cases (ltb n 10)) [
  | inl small ↦ rw small (ground arith, p)
  | inr large ↦ rw large (Printable-decimal fuel (n / 10) ((48 + n % 10) ∷ rest) (ground arith, p))
]

or_false : (x y : Bool) → (x || y) ≡ false → (x ≡ false) × (y ≡ false)
or_false true y h = absurd (cc h)
or_false false y h = (refl, h)

-- What passes the checks.
record IsAccepted (c : Cookie) : Type 0 where
  name : any (λ b. not (cookie_token_character b)) c.name ≡ false
  value : any is_delimiter c.value ≡ false
  path : any is_delimiter c.path ≡ false
  domain : bad_domain c.domain ≡ false

checks_passed : (c : Cookie) → is_refused c ≡ false → IsAccepted c
checks_passed c h =
    let first = or_false (is_empty c.name) _ h in
    let second = or_false (any (λ b. not (cookie_token_character b)) c.name) _ first.1 in
    let third = or_false (any is_delimiter c.value) _ second.1 in
    let fourth = or_false (not (starts_with_slash c.path) || any is_delimiter c.path) _ third.1 in
    let fifth = or_false (bad_domain c.domain) _ fourth.1 in
    record {
      name = second.0;
      value = third.0;
      path = (or_false (not (starts_with_slash c.path)) (any is_delimiter c.path) fourth.0).1;
      domain = fifth.0;
    }

Printable-delimiters : (t : Text) → any is_delimiter t ≡ false → Printable t
Printable-delimiters t h =
    All-map (λ b. is_delimiter b ≡ false) (λ b. is_control b ≡ false) Printable-delimiter t
      (any-false is_delimiter t h)

Printable-append : (s t : Text) → Printable s → Printable t → Printable (s ++ t)
Printable-append s t = All-append (λ b. is_control b ≡ false) s t

Printable-literal : (t : Text) → any is_control t ≡ false → Printable t
Printable-literal t h = any-false is_control t h

Printable-domain :
    (domain : Option Text) → bad_domain domain ≡ false → Printable (domain_attribute domain)
Printable-domain none h = tt
Printable-domain (some domain) h =
    Printable-append (text "; Domain=") domain (Printable-literal (text "; Domain=") refl)
      (Printable-delimiters domain (or_false (is_empty domain) (any is_delimiter domain) h).1)

Printable-to_string : (n : ℕ) → Printable (to_string n)
Printable-to_string n = Printable-decimal (suc n) n [] tt

Printable-to_string_ℤ : (i : ℤ) → Printable (to_string_ℤ i)
Printable-to_string_ℤ (pos n) = Printable-to_string n
Printable-to_string_ℤ (negsuc n) = (refl, Printable-to_string (suc n))

Printable-age : (age : Option ℤ) → Printable (age_attribute age)
Printable-age none = tt
Printable-age (some seconds) =
    Printable-append (text "; Max-Age=") (to_string_ℤ seconds)
      (Printable-literal (text "; Max-Age=") refl) (Printable-to_string_ℤ seconds)

Printable-flag :
    (set : Bool) (attribute : Text) → Printable attribute → Printable (flag set attribute)
Printable-flag true attribute p = p
Printable-flag false attribute p = tt

Printable-same_site : (s : SameSite) → Printable (same_site_attribute s)
Printable-same_site strict = Printable-literal (text "; SameSite=Strict") refl
Printable-same_site lax = Printable-literal (text "; SameSite=Lax") refl
Printable-same_site unrestricted = Printable-literal (text "; SameSite=None") refl

Printable-attributes : (c : Cookie) → IsAccepted c → Printable (attributes c)
Printable-attributes c a =
    Printable-append (text "; Path=" ++ c.path) _
      (Printable-append (text "; Path=") c.path (Printable-literal (text "; Path=") refl)
        (Printable-delimiters c.path a.path))
      (Printable-append (domain_attribute c.domain) _ (Printable-domain c.domain a.domain) (
        Printable-append (age_attribute c.max_age) _ (Printable-age c.max_age) (
          Printable-append (flag c.secure (text "; Secure")) _
            (Printable-flag c.secure (text "; Secure") (Printable-literal (text "; Secure") refl))
            (Printable-append (flag c.http_only (text "; HttpOnly"))
              (same_site_attribute c.same_site)
              (Printable-flag c.http_only (text "; HttpOnly")
                (Printable-literal (text "; HttpOnly") refl))
              (Printable-same_site c.same_site)))))

none-some : {t : Text} → ◌≡◌ {A = Option Text} none (some t) → ⊥
none-some e = cc e

some_injective : {s t : Text} → ◌≡◌ {A = Option Text} (some s) (some t) → s ≡ t
some_injective e = cc e

-- A cookie that is written, whatever its name, value, path and domain, has no control character in
-- its header, and so cannot end it.
pub serialize_cookie-Printable :
    (c : Cookie) {value : Text} → serialize_cookie c ≡ some value → Printable value
unfolding serialize_cookie
serialize_cookie-Printable c {value} e = elim (Bool-cases (is_refused c)) [
  | inl refused ↦ absurd (none-some (sym (if_true (is_refused c) refused none _) ∙ e))
  | inr fine ↦
      let a = checks_passed c fine in
      subst Printable (some_injective (sym (if_false (is_refused c) fine none _) ∙ e)) (
        Printable-append c.name (61 ∷ (c.value ++ attributes c))
          (All-map (λ b. not (cookie_token_character b) ≡ false) (λ b. is_control b ≡ false)
            Printable-token c.name (any-false (λ b. not (cookie_token_character b)) c.name a.name))
          (
            refl,
            Printable-append c.value (attributes c) (Printable-delimiters c.value a.value)
                (Printable-attributes c a),
          ))
]
