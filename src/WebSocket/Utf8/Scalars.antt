-- ===== src/WebSocket/Utf8/Scalars.antt =====
-- The reference for UTF-8: the encoder of RFC 3629 on Unicode scalar values.
use novaboot.Base.{ℕ, ◌+◌, ◌/◌, ◌%◌, ◌≤◌, ◌<◌, ◌⊎◌, List, [], ◌∷◌, ◌++◌, if◌then◌else◌, ltb, Text}

-- All code points but the surrogates.
abbrev pub IsScalar : ℕ → Type 0
IsScalar p = (p < 0xd800) ⊎ ((0xe000 ≤ p) × (p ≤ 0x10_ffff))

abbrev pub encode : ℕ → Text
encode p =
    if ltb p 0x80
    then p ∷ []
    else if ltb p 0x800
    then (192 + p / 64) ∷ (128 + p % 64) ∷ []
    else if ltb p 0x1_0000
    then (224 + p / 4096) ∷ (128 + p / 64 % 64) ∷ (128 + p % 64) ∷ []
    else (240 + p / 0x4_0000) ∷ (128 + p / 4096 % 64) ∷ (128 + p / 64 % 64) ∷ (128 + p % 64) ∷ []

abbrev pub encode_all : List ℕ → Text
encode_all [] = []
encode_all (p ∷ ps) = encode p ++ encode_all ps
