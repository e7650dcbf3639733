-- ===== src/WebSocket/Frame/RoundTrip.antt =====
-- Reading back the frames of a client that follows RFC 6455, against `parse_frame`.
use Prim.Native.Nat.{bit_xor}
use novaboot.Base.{
  ℕ, zero, suc, ◌+◌, ◌-◌, ◌/◌, ◌%◌, ◌^◌, ◌≤◌, ◌<◌, ◌≡◌, refl, sym, ap, ◌∙◌, inl, inr, Bool, true,
  false, not, ◌&&◌, ◌||◌, [], ◌∷◌, ◌++◌, some, arith, if◌then◌else◌, ltb, leb, ◌==◌, length,
  length-append, take, drop, get_or, ==_iff, drop-length, take-length, Text, Bool-cases, All,
}
use mathlib.Core.List.{append_assoc}
use novaboot.WebSocket.Frame.Limits.{length-unmask}
use novaboot.WebSocket.Frame.{
  Opcode, continuation, opcode_value, to_opcode, is_control, header_size, big_endian, length_field,
  frame, sized, read_length, read_size, read_payload, unmask, parse_frame,
}

abbrev all_below : ℕ → (ℕ → Bool) → Bool
all_below zero p = true
all_below (suc n) p = let rest = all_below n p in if p n then rest else false

all_below_sound : (n : ℕ) (p : ℕ → Bool) (x : ℕ) → all_below n p ≡ true → x < n → p x ≡ true
all_below_sound zero p x h lt = absurd (omega arith)
all_below_sound (suc n) p x h lt = ground (arith, all_below_sound n p x)

restores : ℕ → ℕ → Bool
restores x m = bit_xor (bit_xor x m) m == x

mask_table : all_below 256 (λ x. all_below 256 (λ m. restores x m)) ≡ true
unfolding restores
mask_table = refl

xor_twice : (x m : ℕ) → x < 256 → m < 256 → bit_xor (bit_xor x m) m ≡ x
unfolding restores
xor_twice x m p q = (==_iff _ x).0 (
    all_below_sound 256 (λ m. restores x m) m
      (all_below_sound 256 (λ x. all_below 256 (λ m. restores x m)) x mask_table p) q)

get_or-IsByte : (bs : Text) (n : ℕ) → All (λ b. b < 256) bs → get_or bs n 0 < 256
get_or-IsByte [] n a = omega arith
get_or-IsByte (b ∷ bs) zero (h, a) = h
get_or-IsByte (b ∷ bs) (suc n) (h, a) = get_or-IsByte bs n a

unmask-unmask :
    (key : Text) (i : ℕ) (bs : Text)
    → All (λ b. b < 256) key
    → All (λ b. b < 256) bs
    → unmask key i (unmask key i bs) ≡ bs
unfolding unmask
unmask-unmask key i [] k a = refl
unmask-unmask key i (b ∷ bs) k (h, a) =
    rw
      (
        xor_twice b (get_or key (i % 4) 0) h (get_or-IsByte key (i % 4) k),
        unmask-unmask key (suc i) bs k a,
      )
      refl

read_length-big_endian : (n : ℕ) → n < 2 ^ 63 → read_length 0 (big_endian 8 (n % 2 ^ 64)) ≡ n
read_length-big_endian n h = omega arith

-- The length field of a client carries the mask bit.
abbrev pub marked : Text → Text
marked [] = []
marked (b ∷ bs) = (128 + b) ∷ bs

abbrev pub bit : Bool → ℕ
bit true = 128
bit false = 0

-- A frame as a client writes it: header, key and masked payload.
abbrev pub client_header : Bool → Opcode → ℕ → Text
client_header fin op size = (bit fin + opcode_value op) ∷ marked (length_field size)

abbrev pub client_frame : Bool → Opcode → Text → Text → Text
client_frame fin op key payload =
    client_header fin op (length payload) ++ (key ++ unmask key 0 payload)

-- The second byte, which the field begins with.
abbrev head_of : Text → ℕ
head_of [] = 0
head_of (b ∷ bs) = b

long_enough :
    (rest : Text)
    → ltb (suc (suc (suc (suc (suc (suc (suc (suc (suc (suc (length rest))))))))))) 10 ≡ false
long_enough rest = ground arith

read_size-marked :
    (first size : ℕ) (rest : Text)
    → size < 2 ^ 63
    → read_size
        (head_of (marked (length_field size)))
        (first ∷ (marked (length_field size) ++ rest))
      ≡ sized size (header_size size)
read_size-marked first size rest h = elim (Bool-cases (leb size 125)) [
  | inl small ↦
      let not_two : (128 + size) % 128 == 126 ≡ false = ground arith in
      let not_eight : (128 + size) % 128 == 127 ≡ false = ground arith in
      rw (small, not_two, not_eight) (ap (λ k. sized k 2) (ground arith))
  | inr large ↦ elim (Bool-cases (leb size 0xffff)) [
    | inl medium ↦
        let enough : ltb (suc (suc (suc (suc (length rest))))) 4 ≡ false = ground arith in
        rw (large, medium, enough) (ap (λ k. sized k 4) (ground arith))
    | inr huge ↦
        let clear : leb 128 (size % 2 ^ 64 / 2 ^ 56 % 256) ≡ false = ground arith in
        rw (large, huge, long_enough rest, clear)
          (ap (λ k. sized k 10) (read_length-big_endian size h))
  ]
]

length-client_header :
    (fin : Bool) (op : Opcode) (size : ℕ) → length (client_header fin op size) ≡ header_size size
length-client_header fin op size = ground arith

-- The first byte gives back its two parts, and the second shows the mask bit.
first_byte :
    (fin : Bool) (op : Opcode)
    → (((bit fin + opcode_value op) / 16 % 8 == 0) ≡ true)
      × (to_opcode ((bit fin + opcode_value op) % 16) ≡ some op)
      × (leb 128 (bit fin + opcode_value op) ≡ fin)
first_byte true continuation = (refl, refl, refl)
first_byte true _ = (refl, refl, refl)
first_byte false continuation = (refl, refl, refl)
first_byte false _ = (refl, refl, refl)

second_byte : (size : ℕ) → leb 128 (head_of (marked (length_field size))) ≡ true
second_byte size = ground arith

has_second : (size : ℕ) → 1 ≤ length (marked (length_field size))
has_second size = ground arith

parse_front :
    (limit : ℕ) (fin : Bool) (op : Opcode) (m rest : Text)
    → 1 ≤ length m
    → leb 128 (head_of m) ≡ true
    → let input = (bit fin + opcode_value op) ∷ (m ++ rest) in
      parse_frame limit input ≡ read_payload limit fin op input (read_size (head_of m) input)
unfolding parse_frame
parse_front limit fin op [] rest h masked = absurd (omega arith)
parse_front limit fin op (b ∷ bs) rest h masked =
    let (clear, known, is_fin) = first_byte fin op in rw (clear, known, masked, is_fin) refl

at_key :
    (header key more : Text)
    → length key ≡ 4
    → take 4 (drop (length header) (header ++ (key ++ more))) ≡ key
at_key header key more four =
    ap (take 4) (drop-length header (key ++ more))
    ∙ ap (λ n. take n (key ++ more)) (sym four)
    ∙ take-length key more

at_payload :
    (header key more : Text)
    → length key ≡ 4
    → drop (length header + 4) (header ++ (key ++ more)) ≡ more
at_payload header key more four =
    let size : length header + 4 ≡ length (header ++ key) =
      omega (arith, length-append header key) in
    rw (size, ← append_assoc header key more) (drop-length (header ++ key) more)

-- The payload behind a header and a key.
payload_back :
    (limit : ℕ) (fin : Bool) (op : Opcode) (header key payload rest : Text)
    → length key ≡ 4
    → All (λ b. b < 256) key
    → All (λ b. b < 256) payload
    → length payload ≤ limit
    → length payload < 2 ^ 63
    → (is_control op && (not fin || ltb 125 (length payload))) ≡ false
    → let input = header ++ (key ++ (unmask key 0 payload ++ rest)) in
      read_payload limit fin op input (sized (length payload) (length header))
      ≡ frame fin op payload (length header + 4 + length payload)
payload_back limit fin op header key payload rest four k a small fits control =
    let fits_limit : ltb limit (length payload) || ltb (2 ^ 64 - 1) (length payload) ≡ false =
      ground arith in
    let masked = unmask key 0 payload in
    let n = length-unmask key 0 payload in
    let enough : ltb (length (header ++ (key ++ (masked ++ rest))))
          (length header + 4 + length payload)
        ≡ false =
      ground (
        arith,
        length-append header (key ++ (masked ++ rest)),
        length-append key (masked ++ rest),
        length-append masked rest,
      ) in
    rw (fits_limit, control, enough)
      (ap (λ bs. frame fin op bs (length header + 4 + length payload))
        (rw
          (
            at_key header key (masked ++ rest) four,
            at_payload header key (masked ++ rest) four,
            ← n,
            take-length masked rest,
          )
          (unmask-unmask key 0 payload k a)))

-- A frame that a client writes with a 4-byte key, alone or before more input, is read back: its
-- flag, its opcode and its unmasked payload, and its size. The payload is within the limit, and a
-- control frame is final and has at most 125 bytes of payload.
pub parse_frame-client_frame :
    (limit : ℕ) (fin : Bool) (op : Opcode) (key payload rest : Text)
    → length key ≡ 4
    → All (λ b. b < 256) key
    → All (λ b. b < 256) payload
    → length payload ≤ limit
    → length payload < 2 ^ 63
    → (is_control op && (not fin || ltb 125 (length payload))) ≡ false
    → parse_frame limit (client_frame fin op key payload ++ rest)
      ≡ frame fin op payload (length (client_frame fin op key payload))
parse_frame-client_frame limit fin op key payload rest four k a small fits control =
    let size = length payload in
    let masked = unmask key 0 payload in
    let header = client_header fin op size in
    let behind = key ++ (masked ++ rest) in
    ap (parse_frame limit) (
      append_assoc header (key ++ masked) rest
      ∙ ap (λ t. header ++ t) (append_assoc key masked rest))
    ∙ parse_front limit fin op (marked (length_field size)) behind (has_second size)
        (second_byte size)
    ∙ ap (read_payload limit fin op (header ++ behind)) (
        read_size-marked (bit fin + opcode_value op) size behind fits
        ∙ ap (sized size) (sym (length-client_header fin op size)))
    ∙ payload_back limit fin op header key payload rest four k a small fits control
    ∙ ap (frame fin op payload) (
        omega (
          arith,
          length-append header (key ++ masked),
          length-append key masked,
          length-unmask key 0 payload,
        ))
