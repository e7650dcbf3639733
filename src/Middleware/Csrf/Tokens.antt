-- ===== src/Middleware/Csrf/Tokens.antt =====
-- Which unsafe requests src/middleware/csrf_middleware.cpp lets through.
use novaboot.Base.{
  ℕ, ◌≡◌, ◌≢◌, refl, sym, ap, ◌∙◌, ◌↔◌, Bool, true, false, List, [], ◌∷◌, Option, none, some,
  if◌then◌else◌, length, arith, Text, text, if_true, if_false,
}
use novaboot.Http.Messages.{Request, Response, header, with_status, json}
use novaboot.Http.Cookies.{request_cookie}
use novaboot.Middleware.Csrf.{
  Config, safe_method, continued, answered, tokens_match, valid_token, handle,
}

-- The request sends one token twice.
pub record SendsToken (config : Config) (request : Request) : Type 0 where
  pub token : Text
  pub cookie : request_cookie config.cookie_name request ≡ some token
  pub in_header : header config.header_name request ≡ some token
  pub real : token ≢ []

went_on :
    (valid : Bool) (response response' : Response)
    → (if valid then continued response else answered response') ≡ continued response
    → valid ≡ true
went_on true response response' e = refl
went_on false response response' e = absurd (cc e)

module _ (equal_bytes : Text → Text → Bool)
    (equal_bytes_iff : (s t : Text)
      → length s ≡ length t
      → (equal_bytes s t ≡ true) ↔ (s ≡ t)) where
  matching :
      (config : Config) (request : Request) (cookie in_header : Option Text)
      → request_cookie config.cookie_name request ≡ cookie
      → header config.header_name request ≡ in_header
      → tokens_match equal_bytes cookie in_header ≡ true
      → SendsToken config request
  matching config request none h c e m = absurd (cc m)
  matching config request (some s) none c e m = absurd (cc m)
  matching config request (some []) (some t) c e m = absurd (cc m)
  matching config request (some (b ∷ s)) (some t) c e m =
      let sizes : length (b ∷ s) ≡ length t = ground arith in
      let equal : equal_bytes (b ∷ s) t ≡ true = ground arith in
      record {
        token = b ∷ s;
        cookie = c;
        in_header = e ∙ ap some (sym ((equal_bytes_iff (b ∷ s) t sizes).0 equal));
        real = λ nil. cc nil;
      }

  sending :
      (config : Config) (request : Request)
      → SendsToken config request
      → valid_token equal_bytes config request ≡ true
  unfolding valid_token
  sending config request s =
      ap (λ c. tokens_match equal_bytes c (header config.header_name request)) s.cookie
      ∙ ap (tokens_match equal_bytes (some s.token)) s.in_header
      ∙ twice s.token s.real
    where
      twice : (t : Text) → t ≢ [] → tokens_match equal_bytes (some t) (some t) ≡ true
      twice [] real = absurd (real refl)
      twice (b ∷ t) real = let this = (equal_bytes_iff (b ∷ t) (b ∷ t) refl).1 refl in ground arith

  -- Where `CRYPTO_memcmp` tells texts of one length apart exactly when they differ: a request whose
  -- method is not safe goes on exactly if its cookie and its header have one token, which is not
  -- empty.
  pub handle-SendsToken :
      (config : Config) (random : Option (List ℕ)) (request : Request) (response : Response)
      → safe_method request.method ≡ false
      → (handle equal_bytes config random request response ≡ continued response)
        ↔ SendsToken config request
  unfolding handle valid_token
  handle-SendsToken config random request response unsafe =
      let valid = valid_token equal_bytes config request in
      let refusal =
        answered (
          json (text "{\"error\":\"CSRF token invalid or missing\"}") (with_status 403 response)) in
      let choice : handle equal_bytes config random request response
          ≡ (if valid then continued response else refusal) =
        if_false (safe_method request.method) unsafe _ _ in
      (
        λ e.
            matching config request (request_cookie config.cookie_name request)
              (header config.header_name request) refl refl
              (went_on valid response _ (sym choice ∙ e)),
        λ s. choice ∙ if_true valid (sending config request s) _ _,
      )
