-- ===== src/WebSocket/Frame/Limits.antt =====
-- The payload of a frame that `Connection::feed` of src/websocket/websocket.cpp reads is within
-- the limit on messages.
use novaboot.Base.{
  ℕ, suc, ◌+◌, ◌-◌, ◌/◌, ◌%◌, ◌^◌, ◌≤◌, ◌≡◌, refl, ap, inl, inr, Bool, not, ◌&&◌, ◌||◌, [], ◌∷◌,
  Option, none, some, arith, ltb, leb, ◌==◌, length, take, drop, length-take, Text, Bool-cases,
}
use novaboot.WebSocket.Frame.{
  Opcode, is_control, Parsed, frame, to_opcode, unmask, Sized, short, too_long, sized, read_size,
  read_payload, read_opcode, parse_frame,
}

pub length-unmask : (mask : Text) (i : ℕ) (bs : Text) → length (unmask mask i bs) ≡ length bs
unfolding unmask
length-unmask mask i [] = refl
length-unmask mask i (b ∷ bs) = ap suc (length-unmask mask (suc i) bs)

-- The payload of a parsed frame is within the limit.
abbrev pub Small : ℕ → Parsed → Type 0
Small limit (frame fin op payload size) = length payload ≤ limit
Small limit _ = Unit

read_payload-Small :
    (limit : ℕ) (fin : Bool) (op : Opcode) (input : Text) (s : Sized)
    → Small limit (read_payload limit fin op input s)
read_payload-Small limit fin op input short = tt
read_payload-Small limit fin op input too_long = tt
read_payload-Small limit fin op input (sized size header) =
    elim (Bool-cases (ltb limit size || ltb (2 ^ 64 - 1) size)) [
      | inl large ↦ rw large tt
      | inr fits ↦ elim (Bool-cases (is_control op && (not fin || ltb 125 size))) [
        | inl bad ↦ rw (fits, bad) tt
        | inr good ↦ elim (Bool-cases (ltb (length input) (header + 4 + size))) [
          | inl few ↦ rw (fits, good, few) tt
          | inr enough ↦
              rw
                (
                  fits,
                  good,
                  enough,
                  length-unmask (take 4 (drop header input)) 0
                      (take size (drop (header + 4) input)),
                  length-take size (drop (header + 4) input),
                )
                (ground arith)
        ]
      ]
    ]

read_opcode-Small :
    (limit first second : ℕ) (input : Text) (o : Option Opcode)
    → Small limit (read_opcode limit first second input o)
read_opcode-Small limit first second input none = tt
read_opcode-Small limit first second input (some op) = elim (Bool-cases (leb 128 second)) [
  | inl masked ↦
      rw masked (read_payload-Small limit (leb 128 first) op input (read_size second input))
  | inr plain ↦ rw plain tt
]

pub parse_frame-Small : (limit : ℕ) (input : Text) → Small limit (parse_frame limit input)
unfolding parse_frame
parse_frame-Small limit [] = tt
parse_frame-Small limit (first ∷ []) = tt
parse_frame-Small limit (first ∷ second ∷ rest) = elim (Bool-cases (first / 16 % 8 == 0)) [
  | inl clear ↦
      rw clear
        (read_opcode-Small limit first second (first ∷ second ∷ rest) (to_opcode (first % 16)))
  | inr set_bits ↦ rw set_bits tt
]
