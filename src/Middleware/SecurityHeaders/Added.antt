-- ===== src/Middleware/SecurityHeaders/Added.antt =====
-- What src/middleware/security_headers_middleware.cpp adds to a response.
use novaboot.Base.{
  ◌≡◌, refl, sym, ap, ◌∙◌, Bool, true, false, not, ◌&&◌, ◌||◌, List, [], ◌∷◌, ◌++◌, Option, some,
  if◌then◌else◌, Text, text, same, is_empty, All, All-append,
}
use mathlib.Core.List.{append_assoc, append-nil}
use novaboot.Http.Headers
use novaboot.Http.Headers.{Entry, HeaderMap}
use novaboot.Http.Messages.{Request, Response, with_header}
use novaboot.Middleware.SecurityHeaders.{
  Config, set_if_absent, validate_header, validate_if, validate_all, is_accepted, set_if, set_all,
  handle,
}

-- A name of token characters, and a value without control characters.
abbrev pub IsValid : Entry → Type 0
IsValid e = validate_header e.name e.value ≡ true

-- The same status and body, and behind the headers that were there new ones, which are valid and
-- whose names were not there.
pub record Extends (before after : Response) : Type 0 where
  pub status_code : after.status_code ≡ before.status_code
  pub body : after.body ≡ before.body
  pub added : HeaderMap
  pub headers : after.headers ≡ before.headers ++ added
  pub valid : All IsValid added
  pub fresh : All (λ e. Headers.has e.name before.headers ≡ false) added

has-append :
    (name : Text) (front back : HeaderMap)
    → Headers.has name (front ++ back) ≡ false
    → Headers.has name front ≡ false
unfolding Headers.has Headers.get
has-append name [] back h = refl
has-append name (e ∷ front) back h =
    step (Headers.names_equal e.name name) (Headers.get name (front ++ back))
      (Headers.get name front) h (has-append name front back)
  where
    step :
        (b : Bool) (all some_of : Option Text)
        → Headers.is_some (if b then some e.value else all) ≡ false
        → (Headers.is_some all ≡ false → Headers.is_some some_of ≡ false)
        → Headers.is_some (if b then some e.value else some_of) ≡ false
    step true all some_of h later = h
    step false all some_of h later = later h

both : (x y : Bool) → (x && y) ≡ true → (x ≡ true) × (y ≡ true)
both true y h = (refl, h)
both false y h = absurd (cc h)

refuted : (x : Bool) → not x ≡ true → x ≡ false
refuted true h = absurd (cc h)
refuted false h = refl

Extends-set_if_absent :
    (name value : Text) (before mid : Response)
    → Extends before mid
    → (not (is_empty value) ≡ true → validate_header name value ≡ true)
    → Extends before (set_if_absent name value mid)
unfolding Headers.add
Extends-set_if_absent name value before mid x valid =
    by (not (is_empty value) && not (Headers.has name mid.headers)) refl
  where
    by :
        (b : Bool)
        → (not (is_empty value) && not (Headers.has name mid.headers)) ≡ b
        → Extends before (if b then with_header name value mid else mid)
    by false e = x
    by true e =
        let parts = both (not (is_empty value)) (not (Headers.has name mid.headers)) e in
        let absent : Headers.has name (before.headers ++ x.added) ≡ false =
          ap (Headers.has name) (sym x.headers) ∙ refuted (Headers.has name mid.headers) parts.1 in
        record {
          status_code = x.status_code;
          body = x.body;
          added = x.added ++ record { name = name; value = value } ∷ [];
          headers =
              ap (λ hs. hs ++ record { name = name; value = value } ∷ []) x.headers
              ∙ append_assoc before.headers x.added (record { name = name; value = value } ∷ []);
          valid =
              All-append IsValid x.added (record { name = name; value = value } ∷ []) x.valid
                (valid parts.0, tt);
          fresh =
              All-append (λ e. Headers.has e.name before.headers ≡ false) x.added
                (record { name = name; value = value } ∷ []) x.fresh
                (has-append name before.headers x.added absent, tt);
        }

Extends-set_if :
    (on : Bool) (name value : Text) (before mid : Response)
    → validate_if on name value ≡ true
    → Extends before mid
    → Extends before (set_if on name value mid)
Extends-set_if true name value before mid valid x =
    Extends-set_if_absent name value before mid x (λ _. valid)
Extends-set_if false name value before mid valid x = x

Extends-set_all :
    (headers : List (Text × Text)) (before mid : Response)
    → validate_all headers ≡ true
    → Extends before mid
    → Extends before (set_all headers mid)
Extends-set_all [] before mid h x = x
Extends-set_all ((name, value) ∷ headers) before mid h x =
    let parts = both (validate_header name value) (validate_all headers) h in
    Extends-set_all headers before (set_if_absent name value mid) parts.1
      (Extends-set_if_absent name value before mid x (λ _. parts.0))

validated :
    (on : Bool) (name value : Text)
    → validate_if on name value ≡ true
    → on ≡ true
    → validate_header name value ≡ true
validated true name value h e = h
validated false name value h e = absurd (cc e)

weaker :
    (on other : Bool) (name value : Text)
    → validate_if on name value ≡ true
    → validate_if (on && other) name value ≡ true
weaker true true name value h = h
weaker true false name value h = refl
weaker false other name value h = refl

-- A middleware that its constructor accepted leaves the status, the body and every header that the
-- next handler set, in their order, and only adds headers behind them, whose names were not there, whose
-- names are tokens, and whose values have no control character.
pub handle-Extends :
    (c : Config) (request : Request) (left : Response)
    → is_accepted c ≡ true
    → Extends left (handle c request left)
unfolding handle
handle-Extends c request left accepted =
    let a1 = both _ _ accepted in
    let a2 = both _ _ a1.1 in
    let a3 = both _ _ a2.1 in
    let a4 = both _ _ a3.1 in
    let a5 = both _ _ a4.1 in
    let a6 = both _ _ a5.1 in
    let a7 = both _ _ a6.1 in
    let a8 = both _ _ a7.1 in
    let a9 = both _ _ a8.1 in
    Extends-set_all c.custom_headers left _ a9.1 (
      Extends-set_if_absent (text "Content-Security-Policy") c.content_security_policy left _
        (Extends-set_if c.cross_origin_resource_policy (text "Cross-Origin-Resource-Policy")
          c.cross_origin_resource_policy_value left _ a8.0
          (Extends-set_if c.cross_origin_opener_policy (text "Cross-Origin-Opener-Policy")
            c.cross_origin_opener_policy_value left _ a7.0
            (Extends-set_if c.permissions_policy (text "Permissions-Policy")
              c.permissions_policy_value left _ a6.0
              (Extends-set_if c.referrer_policy (text "Referrer-Policy") c.referrer_policy_value
                left _ a5.0
                (Extends-set_if c.x_xss_protection (text "X-XSS-Protection")
                  c.x_xss_protection_value left _ a4.0
                  (Extends-set_if c.frame_options (text "X-Frame-Options") c.frame_options_value
                    left _ a3.0
                    (Extends-set_if c.content_type_options (text "X-Content-Type-Options")
                      c.content_type_options_value left _ a2.0
                      (Extends-set_if
                        (c.hsts && (not c.hsts_https_only || same request.scheme (text "https")))
                        (text "Strict-Transport-Security") c.hsts_value left left
                        (weaker c.hsts _ (text "Strict-Transport-Security") c.hsts_value a1.0)
                        (record {
                          status_code = refl;
                          body = refl;
                          added = [];
                          headers = sym (append-nil left.headers);
                          valid = tt;
                          fresh = tt;
                        })))))))))
        (validated (not (is_empty c.content_security_policy)) (text "Content-Security-Policy")
          c.content_security_policy a9.0))
