-- ===== src/Middleware/Forwarded.antt =====
-- Headers of trusted proxies: src/middleware/trusted_forwarded_headers_middleware.cpp. `inet_pton` of
-- the system's library is a parameter: it reads an address of a family from a C string.
pub mod Bits
pub mod Networks
pub mod Requests
pub mod Tests
use novaboot.Base.{
  ℕ, zero, suc, ◌+◌, ◌-◌, ◌*◌, ◌/◌, ◌%◌, ◌^◌, Bool, true, false, not, ◌&&◌, ◌||◌, List, [], ◌∷◌,
  Option, none, some, if◌then◌else◌, leb, ltb, ◌==◌, Text, text, same, is_empty, length, take, drop,
  get_or,
}
use novaboot.Http.Headers.{to_lower}
use novaboot.Http.Messages.{Request, header}
use novaboot.Http.Texts.{divide, pieces, trim}

pub record Config : Type 0 where
  pub apply_proto : Bool
  pub apply_host : Bool
  pub trust_all_direct_peers : Bool
  pub trusted_peer_cidrs : List Text

pub data Family : Type 0 where
  inet inet6 : Family

pub record Address : Type 0 where
  pub family : Family
  pub bytes : Text

-- `std::isspace` of the C locale.
abbrev pub is_space : ℕ → Bool
is_space b = b == 32 || (leb 9 b && leb b 13)

abbrev pub safe_bytes : Text → Bool
safe_bytes [] = true
safe_bytes (b ∷ t) = not (ltb b 0x21 || (b == 0x7f || (b == 44 || b == 59))) && safe_bytes t

abbrev pub safe_value : Text → Bool
safe_value value = not (is_empty value) && safe_bytes value

-- The loop over both, which have one size.
abbrev equal_folded : Text → Text → Bool
equal_folded [] right = true
equal_folded (_ ∷ _) [] = true
equal_folded (a ∷ left) (b ∷ right) = to_lower a == to_lower b && equal_folded left right

unfoldable pub equals_ignore_case : Text → Text → Bool
equals_ignore_case left right =
    if length left == length right then equal_folded left right else false

abbrev pub ends_quoted : Text → Bool
ends_quoted [] = false
ends_quoted (b ∷ []) = b == 34
ends_quoted (b ∷ c ∷ t) = ends_quoted (c ∷ t)

abbrev pub is_quoted : Text → Bool
is_quoted value = leb 2 (length value) && (get_or value 0 0 == 34 && ends_quoted value)

abbrev pub inside : Text → Text
inside value = if is_quoted value then take (length value - 2) (drop 1 value) else value

abbrev pub unquote : Text → Text
unquote value = inside (trim is_space value)

-- `c_str` as a C function reads it.
abbrev pub c_string : Text → Text
c_string [] = []
c_string (b ∷ t) = let rest = c_string t in if b == 0 then [] else b ∷ rest

abbrev pub is_digit : ℕ → Bool
is_digit b = leb 48 b && leb b 57

-- The digits of a prefix, read into an `int` of 32 bits, which stands here as its bits. The overflow
-- of an `int` is undefined; here it wraps in two's complement.
unfoldable pub prefix_length : ℕ → Text → Option ℕ
prefix_length prefix [] = some prefix
prefix_length prefix (b ∷ t) =
    let rest = prefix_length ((prefix * 10 + (b - 48)) % 2 ^ 32) t in
    if is_digit b then rest else none

abbrev pub is_negative : ℕ → Bool
is_negative prefix = leb (2 ^ 31) prefix

abbrev pub max_bits : Family → ℕ
max_bits inet = 32
max_bits inet6 = 128

abbrev pub same_family : Family → Family → Bool
same_family inet inet = true
same_family inet6 inet6 = true
same_family _ _ = false

-- A byte & (0xff << (8 - trailing_bits)).
abbrev pub masked : ℕ → ℕ → ℕ
masked trailing_bits byte = byte / 2 ^ (8 - trailing_bits) * 2 ^ (8 - trailing_bits)

-- The comparison of whole bytes, and of the bits that remain.
unfoldable pub same_prefix : ℕ → Text → Text → Bool
same_prefix prefix network candidate =
    if same (take (prefix / 8) network) (take (prefix / 8) candidate)
    then if prefix % 8 == 0
      then true
      else masked (prefix % 8) (get_or network (prefix / 8) 0)
        == masked (prefix % 8) (get_or candidate (prefix / 8) 0)
    else false

abbrev pub in_network : Option ℕ → Option Address → Option Address → Bool
in_network (some prefix) (some network) (some candidate) =
    same_family network.family candidate.family
    && ((not (is_negative prefix) && leb prefix (max_bits network.family))
        && same_prefix prefix network.bytes candidate.bytes)
in_network (some prefix) (some network) none = false
in_network (some prefix) none candidate = false
in_network none network candidate = false

abbrev pub parsed : Option Text → Option Text → Option Address
parsed (some bytes) second = some (record { family = inet; bytes = bytes })
parsed none (some bytes) = some (record { family = inet6; bytes = bytes })
parsed none none = none

abbrev pub if_address : Text → Option Address → Option Text
if_address value none = none
if_address value (some address) = some value

abbrev pub front_of : Text × Option Text → Text
front_of (front, back) = front

-- Whether the byte stands in the text twice, so that its first and its last place differ.
abbrev pub count_of : ℕ → Text → ℕ
count_of byte [] = 0
count_of byte (b ∷ t) = if b == byte then suc (count_of byte t) else count_of byte t

abbrev pub bracketed : Text × Option Text → Option Text
bracketed (address, none) = none
bracketed (address, some rest) = some address

abbrev pub bare_address : Text → Option Text
bare_address [] = some []
bare_address (b ∷ t) =
    if b == 91
    then bracketed (divide 93 t)
    else if leb 2 (count_of 58 (b ∷ t))
    then some (b ∷ t)
    else some (front_of (divide 58 (b ∷ t)))

abbrev pub with_scheme : Text → Request → Request
with_scheme value request = record request { scheme = value }

abbrev pub with_authority : Text → Request → Request
with_authority value request = record request { authority = value }

abbrev pub with_client : Option Text → Request → Request
with_client none request = request
with_client (some address) request = record request { client_address = address }

abbrev pub apply_proto : Config → Text → Text → Request → Request
apply_proto config name value request =
    if config.apply_proto
      && (equals_ignore_case name (text "proto")
          && (same value (text "https") || same value (text "http")))
    then with_scheme value request
    else request

abbrev pub apply_host : Config → Text → Text → Request → Request
apply_host config name value request =
    if config.apply_host && equals_ignore_case name (text "host")
    then with_authority value request
    else request

module _ (inet_pton : Family → Text → Option Text) where
  unfoldable pub parse_ip : Text → Option Address
  parse_ip value = parsed (inet_pton inet (c_string value)) (inet_pton inet6 (c_string value))

  abbrev pub contains_parts : Text → Text × Option Text → Bool
  contains_parts peer (address, none) = false
  contains_parts peer (address, some prefix) =
      in_network (prefix_length 0 prefix) (parse_ip address) (parse_ip peer)

  unfoldable pub cidr_contains : Text → Text → Bool
  cidr_contains cidr peer = contains_parts peer (divide 47 cidr)

  abbrev pub any_contains : List Text → Text → Bool
  any_contains [] peer = false
  any_contains (cidr ∷ cidrs) peer = cidr_contains cidr peer || any_contains cidrs peer

  unfoldable pub peer_is_trusted : Config → Text → Bool
  peer_is_trusted config peer =
      config.trust_all_direct_peers || any_contains config.trusted_peer_cidrs peer

  abbrev pub checked_address : Option Text → Option Text
  checked_address none = none
  checked_address (some value) = if_address value (parse_ip value)

  unfoldable pub forwarded_client_ip : Text → Option Text
  forwarded_client_ip value = checked_address (bare_address (unquote value))

  abbrev pub apply_for : Text → Text → Request → Request
  apply_for name value request =
      if equals_ignore_case name (text "for")
      then with_client (forwarded_client_ip value) request
      else request

  abbrev pub apply_value : Config → Text → Text → Request → Request
  apply_value config name value request =
      if safe_value value
      then apply_for name value
          (apply_host config name value (apply_proto config name value request))
      else request

  abbrev pub apply_part : Config → Text × Option Text → Request → Request
  apply_part config (name, none) request = request
  apply_part config (name, some value) request =
      apply_value config (trim is_space name) (unquote value) request

  -- The loop over the parts of the first element.
  abbrev pub apply_parts : Config → List Text → Request → Request
  apply_parts config [] request = request
  apply_parts config (part ∷ parts) request =
      apply_parts config parts (apply_part config (divide 61 (trim is_space part)) request)

  abbrev pub apply_header : Config → Option Text → Request → Request
  apply_header config none request = request
  apply_header config (some forwarded) request =
      apply_parts config (pieces 59 (front_of (divide 44 forwarded))) request

  -- The request that the next handler gets.
  unfoldable pub handle : Config → Request → Request
  handle config request =
      if peer_is_trusted config request.peer_address
      then apply_header config (header (text "forwarded") request) request
      else request
