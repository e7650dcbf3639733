-- ===== src/WebSocket/Frame.antt =====
-- The frames of src/websocket/websocket.cpp: opcodes, close codes, the header that `send_frame`
-- writes, and the reading of one client frame in `Connection::feed`. Masks and shifts by constants
-- are written as quotients and remainders.
pub mod Prefix
pub mod Limits
pub mod RoundTrip
use Prim.Native.Nat.{bit_xor}
use novaboot.Base.{
  ℕ, zero, suc, ◌+◌, ◌-◌, ◌*◌, ◌/◌, ◌%◌, ◌^◌, Bool, true, false, not, ◌&&◌, ◌||◌, List, [], ◌∷◌,
  ◌++◌, Option, none, some, if◌then◌else◌, ltb, leb, ◌==◌, length, take, drop, get_or, Text, text,
}

pub data Opcode : Type 0 where
  continuation text_frame binary close ping pong : Opcode

abbrev pub opcode_value : Opcode → ℕ
opcode_value continuation = 0
opcode_value text_frame = 1
opcode_value binary = 2
opcode_value close = 8
opcode_value ping = 9
opcode_value pong = 10

-- `is_valid_opcode` with the cast behind it.
abbrev pub to_opcode : ℕ → Option Opcode
to_opcode n =
    if n == 0
    then some continuation
    else if n == 1
    then some text_frame
    else if n == 2
    then some binary
    else if n == 8
    then some close
    else if n == 9
    then some ping
    else if n == 10
    then some pong
    else none

abbrev pub is_control : Opcode → Bool
is_control op = leb 8 (opcode_value op)

unfoldable pub is_valid_close_code : ℕ → Bool
is_valid_close_code c =
    (leb 1000 c
      && leb c 1014
      && not (c == 1004)
      && not (c == 1005)
      && not (c == 1006)
      && not (c == 1015))
    || (leb 3000 c && leb c 4999)

pub record ProtocolError : Type 0 where
  pub close_code : ℕ
  pub message : Text

-- The size of the header that the server writes for a payload.
abbrev pub header_size : ℕ → ℕ
header_size size = if leb size 125 then 2 else if leb size 0xffff then 4 else 10

-- The loop over `shift`: the low bytes of the length, the highest first.
abbrev pub big_endian : ℕ → ℕ → Text
big_endian zero n = []
big_endian (suc k) n = n / 256 ^ k % 256 ∷ big_endian k n

-- The length field of a frame, without the mask bit.
abbrev pub length_field : ℕ → Text
length_field size =
    if leb size 125
    then size ∷ []
    else if leb size 0xffff
    then 126 ∷ (size / 256 % 256) ∷ (size % 256) ∷ []
    else 127 ∷ big_endian 8 (size % 2 ^ 64)

-- A final, unmasked frame, as `send_frame` appends it.
unfoldable pub server_frame : Opcode → Text → Text
server_frame op payload = (128 + opcode_value op) ∷ (length_field (length payload) ++ payload)

-- What the loop of `feed` finds at the front of the buffered input.
pub data Parsed : Type 0 where
  incomplete : Parsed
  refused : ProtocolError → Parsed
  frame : (fin : Bool) → Opcode → (payload : Text) → (total_size : ℕ) → Parsed

abbrev pub refuse : ℕ → Text → Parsed
refuse code why = refused (record { close_code = code; message = why })

-- `payload[i] = input[payload_offset + i] ^ input[mask_offset + i % 4]`, from index `i` on.
unfoldable pub unmask : Text → ℕ → Text → Text
unmask mask i [] = []
unmask mask i (b ∷ bs) = bit_xor b (get_or mask (i % 4) 0) ∷ unmask mask (suc i) bs

-- `payload_size << 8 | byte`, for each byte in turn.
abbrev pub read_length : ℕ → Text → ℕ
read_length acc [] = acc
read_length acc (b ∷ bs) = read_length (acc * 256 + b) bs

-- The payload size and the header size, none while they are incomplete, or the refusal of a
-- 64-bit length with its highest bit set.
pub data Sized : Type 0 where
  short : Sized
  too_long : Sized
  sized : (payload_size header_size : ℕ) → Sized

abbrev pub read_size : ℕ → Text → Sized
read_size second input =
    if second % 128 == 126
    then (if ltb (length input) 4 then short else sized (read_length 0 (take 2 (drop 2 input))) 4)
    else if second % 128 == 127
    then (if ltb (length input) 10
        then short
        else if leb 128 (get_or input 2 0)
        then too_long
        else sized (read_length 0 (take 8 (drop 2 input))) 10)
    else sized (second % 128) 2

-- The frame itself, once its sizes are known.
abbrev pub read_payload : ℕ → Bool → Opcode → Text → Sized → Parsed
read_payload max_message_bytes fin op input short = incomplete
read_payload max_message_bytes fin op input too_long =
    refuse 1002 (text "Invalid 64-bit payload length")
read_payload max_message_bytes fin op input (sized size header) =
    if ltb max_message_bytes size || ltb (2 ^ 64 - 1) size
    then refuse 1009 (text "Message too large")
    else if is_control op && (not fin || ltb 125 size)
    then refuse 1002 (text "Invalid control frame")
    else if ltb (length input) (header + 4 + size)
    then incomplete
    else frame fin op (unmask (take 4 (drop header input)) 0 (take size (drop (header + 4) input)))
        (header + 4 + size)

abbrev pub read_opcode : ℕ → ℕ → ℕ → Text → Option Opcode → Parsed
read_opcode max_message_bytes first second input none = refuse 1002 (text "Unsupported opcode")
read_opcode max_message_bytes first second input (some op) =
    if leb 128 second
    then read_payload max_message_bytes (leb 128 first) op input (read_size second input)
    else refuse 1002 (text "Client frames must be masked")

-- One round of the loop of `feed`, up to the call of `process_frame`. A byte is below 256.
unfoldable pub parse_frame : ℕ → Text → Parsed
parse_frame max_message_bytes [] = incomplete
parse_frame max_message_bytes (first ∷ []) = incomplete
parse_frame max_message_bytes (first ∷ second ∷ rest) =
    if first / 16 % 8 == 0
    then read_opcode max_message_bytes first second (first ∷ second ∷ rest) (to_opcode (first % 16))
    else refuse 1002 (text "RSV bits require an extension")
