-- ===== src/Middleware/Forwarded/Requests.antt =====
-- What src/middleware/trusted_forwarded_headers_middleware.cpp changes in a request.
use novaboot.Base.{
  ◌≡◌, refl, ◌⊎◌, inl, inr, Bool, true, false, ◌&&◌, ◌||◌, List, [], ◌∷◌, Option, none, some,
  if◌then◌else◌, Text, text, same, same_sound,
}
use novaboot.Http.Messages.{Request, header}
use novaboot.Http.Texts.{divide, pieces, trim}
use novaboot.Middleware.Forwarded.{
  Config, Family, Address, is_space, safe_value, equals_ignore_case, unquote, parse_ip,
  peer_is_trusted, bare_address, checked_address, if_address, forwarded_client_ip, with_client,
  apply_proto, apply_host, apply_for, apply_part, apply_parts, apply_header, handle,
}

module _ (inet_pton : Family → Text → Option Text) where
  -- Every other field is the same; a new scheme is one of two, a new authority is safe, and a new
  -- client address is an address.
  pub record Rewritten (request result : Request) : Type 0 where
    pub method : result.method ≡ request.method
    pub path : result.path ≡ request.path
    pub peer_address : result.peer_address ≡ request.peer_address
    pub headers : result.headers ≡ request.headers
    pub body : result.body ≡ request.body
    pub scheme :
        (result.scheme ≡ request.scheme)
        ⊎ ((result.scheme ≡ text "https") ⊎ (result.scheme ≡ text "http"))
    pub authority : (result.authority ≡ request.authority) ⊎ (safe_value result.authority ≡ true)
    pub client_address :
        (result.client_address ≡ request.client_address)
        ⊎ ((address : Address) × (parse_ip inet_pton result.client_address ≡ some address))

  unchanged : (request : Request) → Rewritten request request
  unchanged request = record {
    method = refl;
    path = refl;
    peer_address = refl;
    headers = refl;
    body = refl;
    scheme = inl refl;
    authority = inl refl;
    client_address = inl refl;
  }

  Rewritten-if :
      (b : Bool) (request x y : Request)
      → (b ≡ true → Rewritten request x)
      → Rewritten request y
      → Rewritten request (if b then x else y)
  Rewritten-if true request x y p q = p refl
  Rewritten-if false request x y p q = q

  either : (x y : Bool) → (x || y) ≡ true → (x ≡ true) ⊎ (y ≡ true)
  either true y h = inl refl
  either false y h = inr h

  and_last : (x y z : Bool) → (x && (y && z)) ≡ true → z ≡ true
  and_last true true z h = h
  and_last true false z h = absurd (cc h)
  and_last false y z h = absurd (cc h)

  one_of_two :
      (value : Text)
      → (same value (text "https") || same value (text "http")) ≡ true
      → (value ≡ text "https") ⊎ (value ≡ text "http")
  one_of_two value h = elim (either _ _ h) [
    | inl s ↦ inl (same_sound value (text "https") s)
    | inr s ↦ inr (same_sound value (text "http") s)
  ]

  apply_proto-Rewritten :
      (config : Config) (name value : Text) (request before : Request)
      → Rewritten request before
      → Rewritten request (apply_proto config name value before)
  apply_proto-Rewritten config name value request before r =
      Rewritten-if _ request _ before
        (λ h. record {
          method = r.method;
          path = r.path;
          peer_address = r.peer_address;
          headers = r.headers;
          body = r.body;
          scheme = inr (
              one_of_two value
                (and_last config.apply_proto (equals_ignore_case name (text "proto")) _ h));
          authority = r.authority;
          client_address = r.client_address;
        })
        r

  apply_host-Rewritten :
      (config : Config) (name value : Text) (request before : Request)
      → safe_value value ≡ true
      → Rewritten request before
      → Rewritten request (apply_host config name value before)
  apply_host-Rewritten config name value request before safe r =
      Rewritten-if _ request _ before
        (λ _. record {
          method = r.method;
          path = r.path;
          peer_address = r.peer_address;
          headers = r.headers;
          body = r.body;
          scheme = r.scheme;
          authority = inr safe;
          client_address = r.client_address;
        })
        r

  with_client-Rewritten :
      (bare : Option Text) (request before : Request)
      → Rewritten request before
      → Rewritten request (with_client (checked_address inet_pton bare) before)
  with_client-Rewritten none request before r = r
  with_client-Rewritten (some value) request before r = checked (parse_ip inet_pton value) refl
    where
      checked :
          (found : Option Address)
          → parse_ip inet_pton value ≡ found
          → Rewritten request (with_client (if_address value found) before)
      checked none e = r
      checked (some address) e = record {
        method = r.method;
        path = r.path;
        peer_address = r.peer_address;
        headers = r.headers;
        body = r.body;
        scheme = r.scheme;
        authority = r.authority;
        client_address = inr (address, e);
      }

  apply_for-Rewritten :
      (name value : Text) (request before : Request)
      → Rewritten request before
      → Rewritten request (apply_for inet_pton name value before)
  unfolding forwarded_client_ip
  apply_for-Rewritten name value request before r =
      Rewritten-if (equals_ignore_case name (text "for")) request _ before
        (λ _. with_client-Rewritten (bare_address (unquote value)) request before r) r

  apply_part-Rewritten :
      (config : Config) (part : Text × Option Text) (request before : Request)
      → Rewritten request before
      → Rewritten request (apply_part inet_pton config part before)
  apply_part-Rewritten config (name, none) request before r = r
  apply_part-Rewritten config (name, some value) request before r =
      Rewritten-if (safe_value (unquote value)) request _ before
        (λ safe. apply_for-Rewritten (trim is_space name) (unquote value) request _ (
          apply_host-Rewritten config (trim is_space name) (unquote value) request _ safe
            (apply_proto-Rewritten config (trim is_space name) (unquote value) request before r)))
        r

  apply_parts-Rewritten :
      (config : Config) (parts : List Text) (request before : Request)
      → Rewritten request before
      → Rewritten request (apply_parts inet_pton config parts before)
  apply_parts-Rewritten config [] request before r = r
  apply_parts-Rewritten config (part ∷ parts) request before r =
      apply_parts-Rewritten config parts request _
        (apply_part-Rewritten config (divide 61 (trim is_space part)) request before r)

  apply_header-Rewritten :
      (config : Config) (forwarded : Option Text) (request : Request)
      → Rewritten request (apply_header inet_pton config forwarded request)
  apply_header-Rewritten config none request = unchanged request
  apply_header-Rewritten config (some forwarded) request =
      apply_parts-Rewritten config (pieces 59 (divide 44 forwarded).0) request request
        (unchanged request)

  -- Whatever the Forwarded header of a request says, the next handler gets the same request up to
  -- its scheme, authority and client address, where a new scheme is http or https, a new authority
  -- has no blank, control character, comma or semicolon, and a new client address is an address; and
  -- it gets the very same request where the peer is not trusted.
  pub handle-Rewritten :
      (config : Config) (request : Request)
      → Rewritten request (handle inet_pton config request)
        × (peer_is_trusted inet_pton config request.peer_address ≡ false
            → handle inet_pton config request ≡ request)
  unfolding handle
  handle-Rewritten config request = (
    Rewritten-if (peer_is_trusted inet_pton config request.peer_address) request _ request
        (λ _. apply_header-Rewritten config (header (text "forwarded") request) request)
        (unchanged request),
    λ stranger. rw stranger refl,
  )
