-- ===== src/WebSocket/Frame/Prefix.antt =====
-- What more input changes about the frame at the front of the buffer: nothing, once it is decided.
use novaboot.Base.{
  ℕ, ◌+◌, ◌-◌, ◌/◌, ◌%◌, ◌^◌, ◌≤◌, ◌≡◌, refl, ap, inl, inr, Bool, false, not, ◌&&◌, ◌||◌, [], ◌∷◌,
  ◌++◌, Option, none, some, arith, if◌then◌else◌, ltb, leb, ◌==◌, length, length-append, get_or,
  take-drop-append, get_or-append, Text, Bool-cases,
}
use novaboot.WebSocket.Frame.{
  Opcode, to_opcode, is_control, Parsed, incomplete, frame, Sized, short, too_long, sized,
  read_length, read_size, read_payload, read_opcode, parse_frame,
}

abbrev StaysSized : Sized → Sized → Type 0
StaysSized short now = Unit
StaysSized old now = now ≡ old

StaysSized-refl : (s : Sized) → StaysSized s s
StaysSized-refl short = tt
StaysSized-refl too_long = refl
StaysSized-refl (sized p h) = refl

enough_left :
    (n : ℕ) (input more : Text) → n ≤ length input → ltb (length (input ++ more)) n ≡ false
enough_left n input more h = ground (arith, length-append input more)

read_size-StaysSized :
    (second : ℕ) (input more : Text)
    → StaysSized (read_size second input) (read_size second (input ++ more))
read_size-StaysSized second input more = elim (Bool-cases (second % 128 == 126)) [
  | inl two ↦ elim (Bool-cases (ltb (length input) 4)) [
    | inl few ↦ rw (two, few) tt
    | inr enough ↦
        rw (two, enough, enough_left 4 input more (ground arith))
          (ap (λ bs. sized (read_length 0 bs) 4) (take-drop-append 2 2 input more (ground arith)))
  ]
  | inr other ↦ elim (Bool-cases (second % 128 == 127)) [
    | inr small ↦ rw (other, small) refl
    | inl eight ↦ elim (Bool-cases (ltb (length input) 10)) [
      | inl few ↦ rw (other, eight, few) tt
      | inr enough ↦
          rw
            (
              other,
              eight,
              enough,
              enough_left 10 input more (ground arith),
              get_or-append input more 2 0 (ground arith),
              take-drop-append 2 8 input more (ground arith),
            )
            (StaysSized-refl (if leb 128 (get_or input 2 0) then too_long else sized _ 10))
    ]
  ]
]

-- A parsed frame and a refusal stay, whatever follows.
abbrev pub Stays : Parsed → Parsed → Type 0
Stays incomplete now = Unit
Stays old now = now ≡ old

read_payload_sized-Stays :
    (max_message_bytes : ℕ) (fin : Bool) (op : Opcode) (input more : Text) (size header : ℕ)
    → Stays
        (read_payload max_message_bytes fin op input (sized size header))
        (read_payload max_message_bytes fin op (input ++ more) (sized size header))
read_payload_sized-Stays limit fin op input more size header =
    elim (Bool-cases (ltb limit size || ltb (2 ^ 64 - 1) size)) [
      | inl large ↦ rw large refl
      | inr fits ↦ elim (Bool-cases (is_control op && (not fin || ltb 125 size))) [
        | inl bad ↦ rw (fits, bad) refl
        | inr good ↦ elim (Bool-cases (ltb (length input) (header + 4 + size))) [
          | inl few ↦ rw (fits, good, few) tt
          | inr enough ↦
              rw
                (
                  fits,
                  good,
                  enough,
                  enough_left (header + 4 + size) input more (ground arith),
                  take-drop-append header 4 input more (ground arith),
                  take-drop-append (header + 4) size input more (ground arith),
                )
                refl
        ]
      ]
    ]

read_payload-Stays :
    (max_message_bytes : ℕ) (fin : Bool) (op : Opcode) (input more : Text) (s s' : Sized)
    → StaysSized s s'
    → Stays
        (read_payload max_message_bytes fin op input s)
        (read_payload max_message_bytes fin op (input ++ more) s')
read_payload-Stays limit fin op input more short s' h = tt
read_payload-Stays limit fin op input more too_long s' h = rw h
read_payload-Stays limit fin op input more (sized size header) s' h =
    rw h (read_payload_sized-Stays limit fin op input more size header)

read_opcode-Stays :
    (max_message_bytes first second : ℕ) (input more : Text) (o : Option Opcode)
    → Stays
        (read_opcode max_message_bytes first second input o)
        (read_opcode max_message_bytes first second (input ++ more) o)
read_opcode-Stays limit first second input more none = refl
read_opcode-Stays limit first second input more (some op) = elim (Bool-cases (leb 128 second)) [
  | inl masked ↦ rw masked (
      read_payload-Stays limit (leb 128 first) op input more _ _
        (read_size-StaysSized second input more))
  | inr plain ↦ rw plain refl
]

-- Once the front of the buffer is a whole frame, or is refused, more input changes nothing.
pub parse_frame-Stays :
    (max_message_bytes : ℕ) (input more : Text)
    → Stays (parse_frame max_message_bytes input) (parse_frame max_message_bytes (input ++ more))
unfolding parse_frame
parse_frame-Stays limit [] more = tt
parse_frame-Stays limit (first ∷ []) more = tt
parse_frame-Stays limit (first ∷ second ∷ rest) more = elim (Bool-cases (first / 16 % 8 == 0)) [
  | inl clear ↦
      rw clear
        (read_opcode-Stays limit first second (first ∷ second ∷ rest) more (to_opcode (first % 16)))
  | inr set_bits ↦ rw set_bits refl
]

-- A whole frame lies within the buffer, and has six bytes or more.
abbrev pub Fits : Text → Parsed → Type 0
Fits input (frame fin op payload size) = (6 ≤ size) × (size ≤ length input)
Fits input _ = Unit

abbrev HasHeader : Sized → Type 0
HasHeader (sized size header) = 2 ≤ header
HasHeader _ = Unit

read_size-HasHeader : (second : ℕ) (input : Text) → HasHeader (read_size second input)
read_size-HasHeader second input = ground arith

read_payload_sized-Fits :
    (max_message_bytes : ℕ) (fin : Bool) (op : Opcode) (input : Text) (size header : ℕ)
    → 2 ≤ header
    → Fits input (read_payload max_message_bytes fin op input (sized size header))
read_payload_sized-Fits limit fin op input size header h =
    elim (Bool-cases (ltb limit size || ltb (2 ^ 64 - 1) size)) [
      | inl large ↦ rw large tt
      | inr fits ↦ elim (Bool-cases (is_control op && (not fin || ltb 125 size))) [
        | inl bad ↦ rw (fits, bad) tt
        | inr good ↦ elim (Bool-cases (ltb (length input) (header + 4 + size))) [
          | inl few ↦ rw (fits, good, few) tt
          | inr enough ↦ rw (fits, good, enough) (omega arith, ground arith)
        ]
      ]
    ]

read_payload-Fits :
    (max_message_bytes : ℕ) (fin : Bool) (op : Opcode) (input : Text) (s : Sized)
    → HasHeader s
    → Fits input (read_payload max_message_bytes fin op input s)
read_payload-Fits limit fin op input short h = tt
read_payload-Fits limit fin op input too_long h = tt
read_payload-Fits limit fin op input (sized size header) h =
    read_payload_sized-Fits limit fin op input size header h

read_opcode-Fits :
    (max_message_bytes first second : ℕ) (input : Text) (o : Option Opcode)
    → Fits input (read_opcode max_message_bytes first second input o)
read_opcode-Fits limit first second input none = tt
read_opcode-Fits limit first second input (some op) = elim (Bool-cases (leb 128 second)) [
  | inl masked ↦
      rw masked
        (read_payload-Fits limit (leb 128 first) op input _ (read_size-HasHeader second input))
  | inr plain ↦ rw plain tt
]

pub parse_frame-Fits :
    (max_message_bytes : ℕ) (input : Text) → Fits input (parse_frame max_message_bytes input)
unfolding parse_frame
parse_frame-Fits limit [] = tt
parse_frame-Fits limit (first ∷ []) = tt
parse_frame-Fits limit (first ∷ second ∷ rest) = elim (Bool-cases (first / 16 % 8 == 0)) [
  | inl clear ↦
      rw clear
        (read_opcode-Fits limit first second (first ∷ second ∷ rest) (to_opcode (first % 16)))
  | inr set_bits ↦ rw set_bits tt
]
