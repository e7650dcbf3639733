-- ===== src/WebSocket/Utf8/Decoding.antt =====
-- The validator accepts exactly the encodings of sequences of scalar values.
use novaboot.Base.{
  ℕ, zero, suc, ◌+◌, ◌*◌, ◌/◌, ◌%◌, ◌≤◌, ◌<◌, ◌≡◌, refl, ap, ◌∙◌, ◌⊎◌, inl, inr, ◌↔◌, true, List,
  [], ◌∷◌, ◌++◌, some, arith, ltb, length, drop, Text, All, Bool-cases, Option-cases,
}
use novaboot.WebSocket.Utf8.{continuations, accepted, decode_one, valid_from, valid_utf8}
use novaboot.WebSocket.Utf8.Scalars.{IsScalar, encode, encode_all}

-- What one accepted round has read.
abbrev Reads : ℕ → Text → ℕ → ℕ → Type 0
Reads ch rest n p = IsScalar p × (ch ∷ rest ≡ encode p ++ drop n rest)

decode_two :
    (ch c : ℕ) (rest : Text)
    → ch / 32 ≡ 6
    → c / 64 ≡ 2
    → accepted 1 (ch % 32 * 64 + c % 64) ≡ true
    → Reads ch (c ∷ rest) 1 (ch % 32 * 64 + c % 64)
decode_two ch c rest e f a = (ground arith, ground arith)

decode_three :
    (ch c d : ℕ) (rest : Text)
    → ch / 16 ≡ 14
    → c / 64 ≡ 2
    → d / 64 ≡ 2
    → accepted 2 ((ch % 16 * 64 + c % 64) * 64 + d % 64) ≡ true
    → Reads ch (c ∷ d ∷ rest) 2 ((ch % 16 * 64 + c % 64) * 64 + d % 64)
decode_three ch c d rest e f g a = (ground arith, ground arith)

decode_four :
    (ch c d b : ℕ) (rest : Text)
    → ch / 8 ≡ 30
    → c / 64 ≡ 2
    → d / 64 ≡ 2
    → b / 64 ≡ 2
    → accepted 3 (((ch % 8 * 64 + c % 64) * 64 + d % 64) * 64 + b % 64) ≡ true
    → Reads ch (c ∷ d ∷ b ∷ rest) 3 (((ch % 8 * 64 + c % 64) * 64 + d % 64) * 64 + b % 64)
decode_four ch c d b rest e f g h a = (ground arith, ground arith)

sound_two :
    (ch : ℕ) (rest : Text) (n : ℕ)
    → ch / 32 ≡ 6
    → decode_one ch rest ≡ some n
    → (p : ℕ) × Reads ch rest n p
unfolding decode_one continuations
sound_two ch [] n l e = absurd (ground arith)
sound_two ch (c ∷ rest) n l e =
    let count : n ≡ 1 = ground arith in
    (ch % 32 * 64 + c % 64, rw count (decode_two ch c rest l (ground arith) (ground arith)))

sound_three :
    (ch : ℕ) (rest : Text) (n : ℕ)
    → ch / 16 ≡ 14
    → decode_one ch rest ≡ some n
    → (p : ℕ) × Reads ch rest n p
unfolding decode_one continuations
sound_three ch [] n l e = absurd (ground arith)
sound_three ch (c ∷ []) n l e = absurd (ground arith)
sound_three ch (c ∷ d ∷ rest) n l e =
    let count : n ≡ 2 = ground arith in
    (
      (ch % 16 * 64 + c % 64) * 64 + d % 64,
      rw count (decode_three ch c d rest l (ground arith) (ground arith) (ground arith)),
    )

sound_four :
    (ch : ℕ) (rest : Text) (n : ℕ)
    → ch / 8 ≡ 30
    → decode_one ch rest ≡ some n
    → (p : ℕ) × Reads ch rest n p
unfolding decode_one continuations
sound_four ch [] n l e = absurd (ground arith)
sound_four ch (c ∷ []) n l e = absurd (ground arith)
sound_four ch (c ∷ d ∷ []) n l e = absurd (ground arith)
sound_four ch (c ∷ d ∷ b ∷ rest) n l e =
    let count : n ≡ 3 = ground arith in
    (
      ((ch % 8 * 64 + c % 64) * 64 + d % 64) * 64 + b % 64,
      rw count
          (decode_four ch c d b rest l (ground arith) (ground arith) (ground arith) (ground arith)),
    )

sound_ascii :
    (ch : ℕ) (rest : Text) (n : ℕ)
    → ch ≤ 0x7f
    → decode_one ch rest ≡ some n
    → (p : ℕ) × Reads ch rest n p
unfolding decode_one
sound_ascii ch rest n l e = (ch, (ground arith, ground arith))

-- The four shapes of a first byte that a round can accept.
lead_cases :
    (ch : ℕ) (rest : Text) (n : ℕ)
    → decode_one ch rest ≡ some n
    → (ch ≤ 0x7f) ⊎ ((ch / 32 ≡ 6) ⊎ ((ch / 16 ≡ 14) ⊎ (ch / 8 ≡ 30)))
unfolding decode_one
lead_cases ch rest n e = ground arith

decode_one_sound :
    (ch : ℕ) (rest : Text) (n : ℕ) → decode_one ch rest ≡ some n → (p : ℕ) × Reads ch rest n p
decode_one_sound ch rest n e = elim (lead_cases ch rest n e) [
  | inl l ↦ sound_ascii ch rest n l e
  | inr (inl l) ↦ sound_two ch rest n l e
  | inr (inr (inl l)) ↦ sound_three ch rest n l e
  | inr (inr (inr l)) ↦ sound_four ch rest n l e
]

-- Every scalar value that is encoded is read back by one round.
round_encode :
    (p : ℕ) (tail : Text) (fuel : ℕ)
    → IsScalar p
    → valid_from (suc fuel) (encode p ++ tail) ≡ valid_from fuel tail
unfolding valid_from decode_one continuations
round_encode p tail fuel s = elim (Bool-cases (ltb p 0x80)) [
  | inl a ↦ rw a (ground arith)
  | inr a ↦ elim (Bool-cases (ltb p 0x800)) [
    | inl b ↦ rw (a, b) (ground arith)
    | inr b ↦ elim (Bool-cases (ltb p 0x1_0000)) [
      | inl c ↦ rw (a, b, c) (ground arith)
      | inr c ↦ rw (a, b, c) (ground arith)
    ]
  ]
]

valid_from_sound :
    (fuel : ℕ) (bytes : Text)
    → valid_from fuel bytes ≡ true
    → (ps : List ℕ) × All IsScalar ps × (bytes ≡ encode_all ps)
unfolding valid_from
valid_from_sound zero [] e = ([], tt, refl)
valid_from_sound zero (ch ∷ rest) e = absurd (cc)
valid_from_sound (suc fuel) [] e = ([], tt, refl)
valid_from_sound (suc fuel) (ch ∷ rest) e = elim (Option-cases (decode_one ch rest)) [
  | inl bad ↦ absurd (cc (rw (bad, valid_from) at e))
  | inr (n, good) ↦
      let (p, reading) = decode_one_sound ch rest n good in
      let (ps, scalars, later) = valid_from_sound fuel (drop n rest) (rw (good, valid_from) at e) in
      (p ∷ ps, (reading.0, scalars), reading.1 ∙ ap (◌++◌ (encode p)) later)
]

length-encode : (p : ℕ) (tail : Text) → length tail < length (encode p ++ tail)
length-encode p tail = ground arith

valid_from_complete :
    (fuel : ℕ) (ps : List ℕ)
    → All IsScalar ps
    → length (encode_all ps) ≤ fuel
    → valid_from fuel (encode_all ps) ≡ true
valid_from_complete zero [] a h = unfold valid_from in refl
valid_from_complete (suc fuel) [] a h = unfold valid_from in refl
valid_from_complete zero (p ∷ ps) a h = absurd (omega (arith, length-encode p (encode_all ps)))
valid_from_complete (suc fuel) (p ∷ ps) (s, a) h =
    round_encode p (encode_all ps) fuel s
    ∙ valid_from_complete fuel ps a (omega (arith, length-encode p (encode_all ps)))

-- The validator accepts a byte sequence exactly when it is the UTF-8 encoding of some sequence of
-- Unicode scalar values: no overlong form, no surrogate, nothing above 0x10ffff or cut off.
pub valid_utf8_iff :
    (bytes : Text)
    → (valid_utf8 bytes ≡ true) ↔ ((ps : List ℕ) × All IsScalar ps × (bytes ≡ encode_all ps))
unfolding valid_utf8
valid_utf8_iff bytes = (
  valid_from_sound (length bytes) bytes,
  λ h. rw h.2 (valid_from_complete (length (encode_all h.0)) h.0 h.1 (omega arith)),
)
