-- ===== src/Middleware/Forwarded/Tests.antt =====
-- Runs of src/middleware/trusted_forwarded_headers_middleware.cpp.
use novaboot.Base.{
  ℕ, ◌<◌, Bool, arith, false, ◌≡◌, refl, true, ◌↔◌, [], ◌∷◌, Option, none, some, if◌then◌else◌,
  Text, text, same,
}
use mathlib.Core.Path.{subst}
use novaboot.Http.Headers
use novaboot.Http.Messages.{Request}
use novaboot.Middleware.Forwarded.{
  Config, Family, inet, inet6, prefix_length, parse_ip, same_prefix, cidr_contains, peer_is_trusted,
  equals_ignore_case, forwarded_client_ip, handle,
}
use novaboot.Middleware.Forwarded.Networks.{IsAddress, WritesBytes, InNetwork, cidr_contains_iff}
use novaboot.Middleware.Forwarded.Requests.{Rewritten, handle-Rewritten}

-- Two addresses.
abbrev two_addresses : Family → Text → Option Text
two_addresses inet t =
    if same t (text "10.0.0.0")
    then some (10 ∷ 0 ∷ 0 ∷ 0 ∷ [])
    else if same t (text "10.1.2.3")
    then some (10 ∷ 1 ∷ 2 ∷ 3 ∷ [])
    else none
two_addresses inet6 t = none

four_bytes :
    (a b c d : ℕ)
    → a < 256
    → b < 256
    → c < 256
    → d < 256
    → IsAddress (record { family = inet; bytes = a ∷ b ∷ c ∷ d ∷ [] })
four_bytes a b c d p q r s = record { size = refl; bytes = (p, (q, (r, (s, tt)))) }

some_injective : {s t : Text} → ◌≡◌ {A = Option Text} (some s) (some t) → s ≡ t
some_injective e = cc e

-- What holds for both answers.
by_answer :
    (P : Text → Type 0) (first second : Bool) (x y z : Text)
    → P x
    → P y
    → ◌≡◌ {A = Option Text} (if first then some x else if second then some y else none) (some z)
    → P z
by_answer P true second x y z p q e = subst P (some_injective e) p
by_answer P false true x y z p q e = subst P (some_injective e) q
by_answer P false false x y z p q e = absurd (cc e)

two_addresses-WritesBytes : WritesBytes two_addresses
two_addresses-WritesBytes inet t bytes e =
    by_answer (λ found. IsAddress (record { family = inet; bytes = found }))
      (same t (text "10.0.0.0")) (same t (text "10.1.2.3")) (10 ∷ 0 ∷ 0 ∷ 0 ∷ [])
      (10 ∷ 1 ∷ 2 ∷ 3 ∷ []) bytes
      (four_bytes 10 0 0 0 (omega arith) (omega arith) (omega arith) (omega arith))
      (four_bytes 10 1 2 3 (omega arith) (omega arith) (omega arith) (omega arith)) e
two_addresses-WritesBytes inet6 t bytes e = absurd (cc e)

cidr_contains_iff_example :
    (cidr_contains two_addresses (text "10.0.0.0/15") (text "10.1.2.3") ≡ true)
    ↔ InNetwork
        (some 15)
        (some (record { family = inet; bytes = 10 ∷ 0 ∷ 0 ∷ 0 ∷ [] }))
        (some (record { family = inet; bytes = 10 ∷ 1 ∷ 2 ∷ 3 ∷ [] }))
unfolding prefix_length parse_ip same
cidr_contains_iff_example =
    cidr_contains_iff two_addresses two_addresses-WritesBytes (text "10.0.0.0") (text "15")
      (text "10.1.2.3") (refl, (refl, (refl, (refl, (refl, (refl, (refl, (refl, tt))))))))
      (omega arith)

-- A prefix beyond the numbers of an `int` wraps to 8.
wrapped_prefix : cidr_contains two_addresses (text "10.0.0.0/4294967304") (text "10.1.2.3") ≡ true
unfolding cidr_contains prefix_length parse_ip same same_prefix
wrapped_prefix = refl

-- A network without the digits of its prefix contains every address of the family.
no_digits_contains : cidr_contains two_addresses (text "10.0.0.0/") (text "10.1.2.3") ≡ true
unfolding cidr_contains prefix_length parse_ip same same_prefix
no_digits_contains = refl

abbrev proxies : Config
proxies = record {
  apply_proto = true;
  apply_host = true;
  trust_all_direct_peers = false;
  trusted_peer_cidrs = text "10.0.0.0/8" ∷ [];
}

abbrev proxied : Request
proxied = record {
  method = text "GET";
  path = text "/";
  scheme = text "http";
  authority = text "inner";
  peer_address = text "10.1.2.3";
  client_address = text "10.1.2.3";
  headers =
      record { name = text "Forwarded"; value = text "for=\"10.0.0.0:99\"; Proto=https;host=a b" }
      ∷ [];
  body = [];
}

proxied_handled :
    handle two_addresses proxies proxied
    ≡ record proxied { scheme = text "https"; client_address = text "10.0.0.0" }
unfolding handle peer_is_trusted cidr_contains prefix_length parse_ip same same_prefix
    equals_ignore_case forwarded_client_ip Headers.get Headers.names_equal
proxied_handled = refl

handle-Rewritten_example :
    Rewritten two_addresses proxied (handle two_addresses proxies proxied)
    × (peer_is_trusted two_addresses proxies (text "10.1.2.3") ≡ false
        → handle two_addresses proxies proxied ≡ proxied)
handle-Rewritten_example = handle-Rewritten two_addresses proxies proxied
