-- ===== src/Http/Static/Asking.antt =====
-- `parse_range` of src/http/static_resource.cpp finds each range that is asked for.
use novaboot.Base.{
  ℕ, ◌-◌, ◌≤◌, ◌<◌, ◌≡◌, ◌≢◌, refl, sym, ap, ◌∙◌, false, [], ◌∷◌, ◌++◌, some, ltb, leb, ◌==◌, min,
  arith, Text, text, is_empty, from_chars, from_chars-Lacks,
}
use novaboot.Http.Texts.{Lacks, divide, divide-append}
use novaboot.Http.Static.{
  ByteRange, RangeParse, absent, valid, invalid, has_byte, range_of, parse_range,
}
use novaboot.Http.Static.Ranges.{Asks, at_end, onwards, from_to, minimum, Sound, parse_range-Sound}

has_byte-Lacks : (byte : ℕ) (t : Text) → Lacks (λ b. b == byte) t → has_byte byte t ≡ false
has_byte-Lacks byte [] l = refl
has_byte-Lacks byte (b ∷ t) (miss, l) = rw (miss, has_byte-Lacks byte t l) refl

has_byte-append :
    (byte : ℕ) (s t : Text)
    → has_byte byte s ≡ false
    → has_byte byte t ≡ false
    → has_byte byte (s ++ t) ≡ false
has_byte-append byte [] t h k = k
has_byte-append byte (b ∷ s) t h k = ground (arith, has_byte-append byte s t)

-- A number lacks these bytes, and is not empty.
record IsNumber (t : Text) : Type 0 where
  comma : has_byte 44 t ≡ false
  dash : Lacks (λ b. b == 45) t
  some_text : is_empty t ≡ false

not_empty : (t : Text) (n : ℕ) → from_chars t ≡ some n → is_empty t ≡ false
not_empty [] n h = absurd (cc h)
not_empty (b ∷ t) n h = refl

number : (t : Text) (n : ℕ) → from_chars t ≡ some n → IsNumber t
number t n h = record {
  comma = has_byte-Lacks 44 t (from_chars-Lacks 44 t n refl h);
  dash = from_chars-Lacks 45 t n refl h;
  some_text = not_empty t n h;
}

parse_range-bytes :
    (t : Text) (n : ℕ)
    → has_byte 44 t ≡ false
    → 0 < n
    → parse_range (text "bytes=" ++ t) n ≡ range_of n (divide 45 t)
unfolding parse_range
parse_range-bytes t n comma some_bytes =
    let positive : (n == 0) ≡ false = ground arith in rw (comma, positive) refl

at_end-valid :
    (n : ℕ) (end : Text) (count : ℕ)
    → from_chars end ≡ some count
    → 0 < count
    → 0 < n
    → parse_range (text "bytes=-" ++ end) n
      ≡ valid (record { first = n - min count n; last = n - 1 })
at_end-valid n end count h positive some_bytes =
    let digits = number end count h in
    let nonzero : (count == 0) ≡ false = ground arith in
    parse_range-bytes (45 ∷ end) n digits.comma some_bytes
    ∙ rw (has_byte-Lacks 45 end digits.dash, h, nonzero) refl

onwards-valid :
    (n : ℕ) (start : Text) (first : ℕ)
    → from_chars start ≡ some first
    → first < n
    → parse_range (text "bytes=" ++ (start ++ text "-")) n
      ≡ valid (record { first = first; last = n - 1 })
onwards-valid n start first h fits =
    let digits = number start first h in
    let inside : leb n first ≡ false = ground arith in
    let order : ltb (n - 1) first ≡ false = ground arith in
    parse_range-bytes (start ++ text "-") n (has_byte-append 44 start (text "-") digits.comma refl)
      (omega arith)
    ∙ ap (range_of n) (divide-append 45 start [] digits.dash)
    ∙ rw (digits.some_text, h, inside, order)
        (ap (λ k. valid (record { first = first; last = k })) (sym (minimum (n - 1))))

from_to-valid :
    (n : ℕ) (start end : Text) (first last : ℕ)
    → from_chars start ≡ some first
    → from_chars end ≡ some last
    → first ≤ last
    → first < n
    → parse_range (text "bytes=" ++ (start ++ 45 ∷ end)) n
      ≡ valid (record { first = first; last = min last (n - 1) })
from_to-valid n start end first last h k ordered fits =
    let front = number start first h in
    let back = number end last k in
    let inside : leb n first ≡ false = ground arith in
    let order : ltb last first ≡ false = ground arith in
    parse_range-bytes (start ++ 45 ∷ end) n
      (has_byte-append 44 start (45 ∷ end) front.comma back.comma) (omega arith)
    ∙ ap (range_of n) (divide-append 45 start end front.dash)
    ∙ rw (has_byte-Lacks 45 end back.dash, front.some_text, h, inside, back.some_text, k, order)
        refl

pub parse_range-valid :
    (n : ℕ) (value : Text) (range : ByteRange)
    → Asks n value range
    → parse_range value n ≡ valid range
parse_range-valid n value _ (at_end end count e h positive some_bytes) =
    ap (λ v. parse_range v n) e ∙ at_end-valid n end count h positive some_bytes
parse_range-valid n value _ (onwards start first e h fits) =
    ap (λ v. parse_range v n) e ∙ onwards-valid n start first h fits
parse_range-valid n value _ (from_to start end first last e h k ordered fits) =
    ap (λ v. parse_range v n) e ∙ from_to-valid n start end first last h k ordered fits

-- What a result says, both ways.
abbrev pub Means : ℕ → Text → RangeParse → Type 0
Means n value absent = value ≡ []
Means n value (valid range) = Asks n value range
Means n value invalid = (value ≢ []) × ((range : ByteRange) → Asks n value range → ⊥)

invalid-valid : (range : ByteRange) → invalid ≢ valid range
invalid-valid range e = cc e

pub parse_range-Means : (value : Text) (n : ℕ) → Means n value (parse_range value n)
parse_range-Means value n = complete (parse_range value n) refl (parse_range-Sound value n)
  where
    complete :
        (result : RangeParse)
        → parse_range value n ≡ result
        → Sound n value result
        → Means n value result
    complete absent e s = s
    complete (valid range) e s = s
    complete invalid e s =
        (s, λ range asked. invalid-valid range (sym e ∙ parse_range-valid n value range asked))
