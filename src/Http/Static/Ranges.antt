-- ===== src/Http/Static/Ranges.antt =====
-- Which ranges a Range header of src/http/static_resource.cpp asks for.
use novaboot.Base.{
  ℕ, ◌-◌, ◌≤◌, ◌<◌, ◌≡◌, ◌≢◌, refl, ap, ◌∙◌, Bool, true, false, not, ◌||◌, [], ◌∷◌, ◌++◌, Option,
  none, some, if◌then◌else◌, ltb, leb, ◌==◌, min, arith, Text, text, is_empty, starts_with,
  from_chars, length, drop,
}
use mathlib.Core.Path.{subst}
use novaboot.Http.Texts.{divide}
use novaboot.Http.Static.{
  ByteRange, RangeParse, absent, valid, invalid, has_byte, last_bytes, between, from_first,
  range_of, parse_range,
}

-- A range within a file of this size that the value of the header asks for: the last bytes, as
-- many as a number says, or all where the file has fewer; all from a first one; or those from a first
-- one to a last one, as far as the file goes.
pub data Asks (size : ℕ) (value : Text) : ByteRange → Type 0 where
  at_end :
      (end : Text) (count : ℕ)
      → value ≡ text "bytes=-" ++ end
      → from_chars end ≡ some count
      → 0 < count
      → 0 < size
      → Asks size value (record { first = size - min count size; last = size - 1 })
  onwards :
      (start : Text) (first : ℕ)
      → value ≡ text "bytes=" ++ (start ++ text "-")
      → from_chars start ≡ some first
      → first < size
      → Asks size value (record { first = first; last = size - 1 })
  from_to :
      (start end : Text) (first last : ℕ)
      → value ≡ text "bytes=" ++ (start ++ 45 ∷ end)
      → from_chars start ≡ some first
      → from_chars end ≡ some last
      → first ≤ last
      → first < size
      → Asks size value (record { first = first; last = min last (size - 1) })

abbrev pub Inside : ℕ → ByteRange → Type 0
Inside size range = (range.first ≤ range.last) × (range.last < size)

pub Asks-Inside :
    (size : ℕ) (value : Text) (range : ByteRange) → Asks size value range → Inside size range
Asks-Inside size value range (at_end _ count _ _ some_bytes nonempty) = (omega arith, omega arith)
Asks-Inside size value range (onwards _ first _ _ fits) = (omega arith, omega arith)
Asks-Inside size value range (from_to _ _ first last _ _ _ order fits) = (omega arith, omega arith)

-- What a result that is right says, but for completeness.
abbrev pub Sound : ℕ → Text → RangeParse → Type 0
Sound size value absent = value ≡ []
Sound size value (valid range) = Asks size value range
Sound size value invalid = value ≢ []

Sound-if :
    (n : ℕ) (v : Text) (b : Bool) (x y : RangeParse)
    → (b ≡ true → Sound n v x)
    → (b ≡ false → Sound n v y)
    → Sound n v (if b then x else y)
Sound-if n v true x y p q = p refl
Sound-if n v false x y p q = q refl

starts_with-drop : (p t : Text) → starts_with p t ≡ true → t ≡ p ++ drop (length p) t
starts_with-drop [] t h = refl
starts_with-drop (b ∷ p) [] h = absurd (cc h)
starts_with-drop (b ∷ p) (c ∷ t) h = ground (arith, starts_with-drop p t)

empty : (t : Text) → is_empty t ≡ true → t ≡ []
empty [] h = refl
empty (b ∷ t) h = absurd (cc h)

-- What stands on both sides of the byte.
abbrev Joined : ℕ → Text → Text × Option Text → Type 0
Joined byte t (front, none) = Unit
Joined byte t (front, some back) = t ≡ front ++ byte ∷ back

divide-Joined : (byte : ℕ) (t : Text) → Joined byte t (divide byte t)
divide-Joined byte [] = tt
divide-Joined byte (b ∷ t) = step (b == byte) refl (divide byte t) (divide-Joined byte t)
  where
    step :
        (hit : Bool)
        → (b == byte) ≡ hit
        → (rest : Text × Option Text) → Joined byte t rest
        → Joined byte (b ∷ t) (if hit then ([], some t) else (b ∷ rest.0, rest.1))
    step true e rest j = ground arith
    step false e (front, none) j = tt
    step false e (front, some back) j = ap (λ s. b ∷ s) j

nonempty : (t : Text) (value : Text) → value ≡ text "bytes=" ++ t → value ≢ []
nonempty t value e h = cc (e, h)

last_bytes-Sound :
    (n : ℕ) (v end : Text)
    → v ≡ text "bytes=-" ++ end
    → 0 < n
    → Sound n v (last_bytes n (from_chars end))
last_bytes-Sound n v end e some_bytes = by (from_chars end) refl
  where
    by : (o : Option ℕ) → from_chars end ≡ o → Sound n v (last_bytes n o)
    by none h = nonempty (45 ∷ end) v e
    by (some count) h =
        Sound-if n v (count == 0) _ _ (λ _. nonempty (45 ∷ end) v e)
          (λ positive. at_end end count e h (ground arith) some_bytes)

pub minimum : (k : ℕ) → k ≡ min k k
minimum k = omega arith

module _ (n : ℕ) (v start end : Text) (e : v ≡ text "bytes=" ++ (start ++ 45 ∷ end)) where
  some_text : v ≢ []
  some_text = nonempty (start ++ 45 ∷ end) v e

  between-Sound :
      (first : ℕ) (o : Option ℕ)
      → from_chars start ≡ some first
      → first < n
      → from_chars end ≡ o
      → Sound n v (between n first o)
  between-Sound first none h fits k = some_text
  between-Sound first (some last) h fits k =
      Sound-if n v (ltb last first) _ _ (λ _. some_text)
        (λ order. from_to start end first last e h k (ground arith) fits)

  open-Sound :
      (first : ℕ)
      → end ≡ []
      → from_chars start ≡ some first
      → first < n
      → Sound n v (between n first (some (n - 1)))
  open-Sound first none_left h fits =
      Sound-if n v (ltb (n - 1) first) _ _ (λ _. some_text)
        (λ order.
          subst (λ k. Asks n v (record { first = first; last = k })) (minimum (n - 1))
            (onwards start first (e ∙ ap (λ t. text "bytes=" ++ (start ++ 45 ∷ t)) none_left) h
              fits))

  rest-Sound :
      (first : ℕ) (b : Bool)
      → is_empty end ≡ b
      → from_chars start ≡ some first
      → first < n
      → Sound n v (between n first (if b then some (n - 1) else from_chars end))
  rest-Sound first true h k fits = open-Sound first (empty end h) k fits
  rest-Sound first false h k fits = between-Sound first (from_chars end) k fits refl

  from_first-Sound : (o : Option ℕ) → from_chars start ≡ o → Sound n v (from_first n end o)
  from_first-Sound none h = some_text
  from_first-Sound (some first) h =
      Sound-if n v (leb n first) _ _ (λ _. some_text)
        (λ inside. rest-Sound first (is_empty end) refl h (ground arith))

range_of-Sound :
    (n : ℕ) (v t : Text) (parts : Text × Option Text)
    → v ≡ text "bytes=" ++ t
    → 0 < n
    → Joined 45 t parts
    → Sound n v (range_of n parts)
range_of-Sound n v t (start, none) e some_bytes j = nonempty t v e
range_of-Sound n v t (start, some end) e some_bytes j =
    let e' : v ≡ text "bytes=" ++ (start ++ 45 ∷ end) = e ∙ ap (λ s. text "bytes=" ++ s) j in
    Sound-if n v (has_byte 45 end) _ _ (λ _. nonempty t v e)
      (λ _.
        Sound-if n v (is_empty start) _ _
          (λ h.
            last_bytes-Sound n v end
              (e' ∙ ap (λ s. text "bytes=" ++ (s ++ 45 ∷ end)) (empty start h)) some_bytes)
          (λ _. from_first-Sound n v start end e' (from_chars start) refl))

fine : (x y z : Bool) → (not x || (y || z)) ≡ false → (x ≡ true) × ((y ≡ false) × (z ≡ false))
fine true true z h = absurd (cc h)
fine true false z h = (refl, (refl, h))
fine false y z h = absurd (cc h)

pub parse_range-Sound : (value : Text) (n : ℕ) → Sound n value (parse_range value n)
unfolding parse_range
parse_range-Sound value n = Sound-if n value (is_empty value) _ _ (empty value) (λ some_text.
    Sound-if n value (not (starts_with (text "bytes=") value) || (has_byte 44 value || n == 0)) _ _
      (λ _ e. cc (some_text, ap is_empty e))
      (λ h.
        let parts = fine (starts_with (text "bytes=") value) (has_byte 44 value) (n == 0) h in
        range_of-Sound n value (drop 6 value) (divide 45 (drop 6 value))
          (starts_with-drop (text "bytes=") value parts.0) (ground arith)
          (divide-Joined 45 (drop 6 value))))
