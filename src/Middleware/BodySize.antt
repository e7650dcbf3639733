-- ===== src/Middleware/BodySize.antt =====
-- The limit on request bodies: src/middleware/body_size_limit_middleware.cpp.
pub mod Tests
use novaboot.Base.{
  ℕ, ◌+◌, ◌-◌, ◌*◌, ◌^◌, Bool, true, false, ◌&&◌, ◌||◌, [], ◌∷◌, List, Option, none, some,
  if◌then◌else◌, ltb, leb, ◌==◌, Text, text, from_chars,
}
use novaboot.Http.Messages.{Request, Response, header, content_length, with_status, json}
use novaboot.Middleware.Paths.{path_allowed}

pub record Config : Type 0 where
  pub max_body_bytes : ℕ
  pub allowlist_paths : List Text
  pub status_code : ℕ
  pub response_body : Text

abbrev pub is_space : ℕ → Bool
is_space b = b == 32 || (leb 9 b && leb b 13)

abbrev negated : Option ℕ → Option ℕ
negated none = none
negated (some n) = some (if n == 0 then 0 else 2 ^ 64 - n)

-- A sign, and digits up to the end.
abbrev signed : Text → Option ℕ
signed [] = none
signed (b ∷ t) =
    if b == 45 then negated (from_chars t) else if b == 43 then from_chars t else from_chars (b ∷ t)

-- `std::stoull` where it consumes the whole text: spaces, a sign, where a minus wraps, and digits.
unfoldable pub stoull : Text → Option ℕ
stoull [] = none
stoull (b ∷ t) = let rest = stoull t in if is_space b then rest else signed (b ∷ t)

abbrev parsed : Option Text → Option ℕ
parsed none = none
parsed (some value) = stoull value

abbrev pub declared_content_length : Request → Option ℕ
declared_content_length request = parsed (header (text "content-length") request)

abbrev value_or : ℕ → Option ℕ → ℕ
value_or n none = n
value_or n (some m) = m

abbrev pub effective_size : Request → ℕ
effective_size request = value_or (content_length request) (declared_content_length request)

-- The next handler is called, or the response stands.
pub data Outcome : Type 0 where
  passed : Outcome
  rejected : Response → Outcome

unfoldable pub handle : Config → Request → Response → Outcome
handle c request response =
    if path_allowed c.allowlist_paths request.path
    then passed
    else if ltb c.max_body_bytes (effective_size request)
    then rejected (json c.response_body (with_status c.status_code response))
    else passed
