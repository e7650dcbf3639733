-- ===== src/WebSocket/Utf8.antt =====
-- `valid_utf8` of src/websocket/websocket.cpp. The masks of the source are written as quotients and
-- remainders: `ch & 0xe0 == 0xc0` is `ch / 32 == 6`, and `value << 6 | c & 0x3f` puts six new bits
-- below the old ones.
pub mod Scalars
pub mod Decoding
use novaboot.Base.{
  ℕ, zero, suc, ◌+◌, ◌*◌, ◌/◌, ◌%◌, Bool, true, false, ◌&&◌, ◌||◌, List, [], ◌∷◌, Option, none,
  some, if◌then◌else◌, ltb, leb, ◌==◌, length, drop, Text, is_empty,
}

-- The number of continuation bytes that the first byte announces, and its own bits.
abbrev pub lead : ℕ → Option (ℕ × ℕ)
lead ch =
    if ch / 32 == 6
    then some (1, ch % 32)
    else if ch / 16 == 14
    then some (2, ch % 16)
    else if ch / 8 == 30
    then some (3, ch % 8)
    else none

-- The loop over `j`: every byte must be a continuation byte, and adds six bits.
unfoldable pub continuations : ℕ → Text → ℕ → Option ℕ
continuations zero bytes value = some value
continuations (suc n) [] value = none
continuations (suc n) (c ∷ bytes) value =
    if c / 64 == 2 then continuations n bytes (value * 64 + c % 64) else none

abbrev pub overlong : ℕ → ℕ → Bool
overlong count value =
    (count == 1 && ltb value 0x80)
    || (count == 2 && ltb value 0x800)
    || (count == 3 && ltb value 0x1_0000)

abbrev pub accepted : ℕ → ℕ → Bool
accepted count value =
    if overlong count value || ltb 0x10_ffff value || (leb 0xd800 value && leb value 0xdfff)
    then false
    else true

abbrev checked : ℕ → Option ℕ → Option ℕ
checked count none = none
checked count (some value) = if accepted count value then some count else none

abbrev sequence : Option (ℕ × ℕ) → Text → Option ℕ
sequence none rest = none
sequence (some (count, value)) rest =
    if leb (suc (length rest)) count then none else checked count (continuations count rest value)

-- One round of the loop at `ch`: the number of continuation bytes, or none to return false.
unfoldable pub decode_one : ℕ → Text → Option ℕ
decode_one ch rest = if leb ch 0x7f then some 0 else sequence (lead ch) rest

-- The loop, on fuel: every round takes a byte or more.
unfoldable pub valid_from : ℕ → Text → Bool
valid_from zero bytes = is_empty bytes
valid_from (suc fuel) [] = true
valid_from (suc fuel) (ch ∷ rest) = elim (decode_one ch rest) [
  | none ↦ false
  | some count ↦ valid_from fuel (drop count rest)
]

unfoldable pub valid_utf8 : Text → Bool
unfolding valid_from decode_one continuations
valid_utf8 bytes = valid_from (length bytes) bytes
