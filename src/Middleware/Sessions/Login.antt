-- ===== src/Middleware/Sessions/Login.antt =====
-- A login of src/middleware/session_middleware.cpp lets the browser in until the session expires.
use novaboot.Base.{
  pos, ℕ, ◌+◌, ◌*◌, ◌/◌, ◌%◌, ◌≡◌, refl, sym, ap, ◌∙◌, Bool, true, false, ◌&&◌, ◌||◌, List, [], ◌∷◌,
  Option, none, some, if◌then◌else◌, leb, ◌==◌, arith, inl, inr, Text, text, same, same_refl,
  is_empty, All, Bool-cases, if_true, if_false,
}
use novaboot.Base.Dict
use novaboot.Base.Dict.{Dict, lookup-assign, lookup-erase}
use novaboot.Http.Headers
use novaboot.Http.Messages.{Request, Response, with_status, json}
use novaboot.Http.Texts.{Lacks}
use novaboot.Http.Cookies.{request_cookie}
use novaboot.Http.Cookies.Reading.{
  is_separator, IsPair, cookie_header, request_cookie-cookie_header,
}
use novaboot.Middleware.Paths.{path_allowed}
use novaboot.Middleware.Sessions.{
  SessionPrincipal, Session, InMemorySessionStore, put, unless_expired, find, ManagerConfig, nibble,
  hex, issue_cookie, erase_previous, with_cookie, new_session, login, principal_of, authenticate_id,
  authenticate, Config, Outcome, continued, answered, judge, handle,
}

nibble_plain : (n : ℕ) → is_separator (nibble n) ≡ false
nibble_plain n = ground arith

hex-Lacks : (bytes : List ℕ) → Lacks is_separator (hex bytes)
hex-Lacks [] = tt
hex-Lacks (b ∷ bytes) = (nibble_plain (b / 16), (nibble_plain (b % 16), hex-Lacks bytes))

principal_in_time :
    (id : Text) (now : ℕ) (session : Session) (sessions : InMemorySessionStore)
    → principal_of (unless_expired id now sessions (some session)).1
      ≡ (if leb session.expires_at now then none else some session.principal)
principal_in_time id now session sessions = elim (Bool-cases (leb session.expires_at now)) [
  | inl over ↦ rw over refl
  | inr valid ↦ rw valid refl
]

find-put :
    (session : Session) (now : ℕ) (sessions : InMemorySessionStore)
    → principal_of (find session.id now (put session sessions)).1
      ≡ (if leb session.expires_at now then none else some session.principal)
unfolding find put
find-put session now sessions =
    let found : Dict.lookup session.id (Dict.assign session.id session sessions) ≡ some session =
      lookup-assign session.id session.id session sessions
      ∙ ap (λ b. if b then some session else Dict.lookup session.id sessions)
          (same_refl session.id) in
    ap
      (λ o.
        principal_of (unless_expired session.id now (Dict.assign session.id session sessions) o).1)
      found
    ∙ principal_in_time session.id now session (Dict.assign session.id session sessions)

-- A login that succeeds has stored the session that it returns.
record LoggedIn (manager : ManagerConfig) (request : Request) (now : ℕ)
    (principal : SessionPrincipal) (bytes : List ℕ) (sessions sessions' : InMemorySessionStore)
    (session : Session) : Type 0 where
  made : new_session manager now principal bytes ≡ session
  stored :
      put
        (new_session manager now principal bytes)
        (erase_previous (request_cookie manager.cookie_name request) sessions)
      ≡ sessions'

with_cookie-stored :
    (sessions sessions' : InMemorySessionStore) (session session' : Session)
    (cookie : Option Response) (response' : Response)
    → with_cookie sessions session cookie ≡ (sessions', some (session', response'))
    → (session ≡ session') × (sessions ≡ sessions')
with_cookie-stored sessions sessions' session session' none response' e =
    absurd (cc (ap (λ p. p.1) e))
with_cookie-stored sessions sessions' session session' (some response) response' e =
    (cc (ap (λ p. p.1) e), ap (λ p. p.0) e)

login-LoggedIn :
    (manager : ManagerConfig) (request : Request) (now : ℕ) (bytes : List ℕ)
    (principal : SessionPrincipal) (response response' : Response)
    (sessions sessions' : InMemorySessionStore) (session : Session)
    → login manager request now (some bytes) principal response sessions
      ≡ (sessions', some (session, response'))
    → LoggedIn manager request now principal bytes sessions sessions' session
unfolding login
login-LoggedIn manager request now bytes principal response response' sessions sessions' session e =
    elim (Bool-cases (is_empty principal.subject)) [
      | inl nobody ↦
          absurd (cc (ap (λ p. p.1) (sym (if_true (is_empty principal.subject) nobody _ _) ∙ e)))
      | inr somebody ↦
          let made = new_session manager now principal bytes in
          let earlier = erase_previous (request_cookie manager.cookie_name request) sessions in
          let (this, stored) =
            with_cookie-stored (put made earlier) sessions' made session
              (issue_cookie manager made.id (pos manager.ttl) response) response'
              (sym (if_false (is_empty principal.subject) somebody _ _) ∙ e) in
          record { made = this; stored = stored }
    ]

-- The request that the browser then sends, among its other cookies.
authenticate-login :
    (manager : ManagerConfig) (session : Session) (request : Request) (cookies : Dict Text)
    (now : ℕ) (sessions : InMemorySessionStore) (b : ℕ) (bytes : List ℕ)
    → session.id ≡ hex (b ∷ bytes)
    → All IsPair ((manager.cookie_name, session.id) ∷ cookies)
    → Headers.get_all (text "cookie") request.headers
      ≡ cookie_header ((manager.cookie_name, session.id) ∷ cookies) ∷ []
    → (authenticate manager request now (put session sessions)).1
      ≡ (if leb session.expires_at now then none else some session.principal)
unfolding authenticate
authenticate-login manager session request cookies now sessions b bytes id pairs only =
    let sent : request_cookie manager.cookie_name request ≡ some session.id =
      request_cookie-cookie_header manager.cookie_name (manager.cookie_name, session.id) cookies
        request pairs only
      ∙ if_true (same manager.cookie_name manager.cookie_name) (same_refl manager.cookie_name) _
          _ in
    ap (λ o. (authenticate_id now (put session sessions) o).1) (sent ∙ ap some id)
    ∙ ap (λ i. principal_of (find i now (put session sessions)).1) (sym id)
    ∙ find-put session now sessions

judged :
    (config : Config) (response : Response) (over : Bool) (principal : SessionPrincipal)
    (found : InMemorySessionStore × Option SessionPrincipal)
    → found.1 ≡ (if over then none else some principal)
    → (judge config response found).1 ≡ (
        if over
        then answered
            (json config.unauthorized_body (with_status config.unauthorized_status response))
        else continued (some principal))
judged config response true principal (sessions, none) e = refl
judged config response false principal (sessions, none) e = absurd (cc e)
judged config response true principal (sessions, some p) e = absurd (cc e)
judged config response false principal (sessions, some p) e = ap continued e

-- After a login that succeeds, with random bytes that are not empty and a cookie name without blank,
-- semicolon or `=`, take a request that is not exempt: its path is not on the allow list, and it is
-- no OPTIONS request where these are allowed. Its only Cookie header lists the session's cookie first
-- and then others, which have no blank and no semicolon, nor `=` in a name. On the store as the login
-- left it, such a request goes on with the principal of the login until the session's lifetime from
-- the login is over, and from then on is answered with the configured status and body.
pub handle-login :
    (manager : ManagerConfig) (config : Config) (request : Request) (now : ℕ) (b : ℕ)
    (bytes : List ℕ) (principal : SessionPrincipal) (response response' : Response)
    (sessions sessions' : InMemorySessionStore) (session : Session) (next : Request)
    (cookies : Dict Text) (later : ℕ) (answer : Response)
    → login manager request now (some (b ∷ bytes)) principal response sessions
      ≡ (sessions', some (session, response'))
    → Lacks (λ c. is_separator c || c == 61) manager.cookie_name
    → All IsPair cookies
    → Headers.get_all (text "cookie") next.headers
      ≡ cookie_header ((manager.cookie_name, session.id) ∷ cookies) ∷ []
    → ((config.allow_options_requests && same next.method (text "OPTIONS"))
        || path_allowed config.allowlist_paths next.path)
      ≡ false
    → (handle manager config next later answer sessions').1 ≡ (
        if leb (now + manager.ttl * 1000000000) later
        then answered
            (json config.unauthorized_body (with_status config.unauthorized_status answer))
        else continued (some principal))
unfolding handle
handle-login manager config request now b bytes principal response response' sessions sessions'
      session next cookies later answer e plain pairs only guarded =
    let l =
      login-LoggedIn manager request now (b ∷ bytes) principal response response' sessions sessions'
        session e in
    let made = new_session manager now principal (b ∷ bytes) in
    let earlier = erase_previous (request_cookie manager.cookie_name request) sessions in
    let sent : Headers.get_all (text "cookie") next.headers
        ≡ cookie_header ((manager.cookie_name, made.id) ∷ cookies) ∷ [] =
      only
      ∙ ap (λ i. cookie_header ((manager.cookie_name, i) ∷ cookies) ∷ [])
          (sym (ap (λ s. s.id) l.made)) in
    ap {A = InMemorySessionStore × Outcome} (λ o. o.1)
      (if_false
        ((config.allow_options_requests && same next.method (text "OPTIONS"))
          || path_allowed config.allowlist_paths next.path)
        guarded _ _)
    ∙ judged config answer (leb made.expires_at later) principal
        (authenticate manager next later sessions')
        (ap (λ t. (authenticate manager next later t).1) (sym l.stored)
          ∙ authenticate-login manager made next cookies later earlier b bytes refl
              ((plain, hex-Lacks (b ∷ bytes)), pairs) sent)

-- A login that succeeds with a new identifier leaves no session under the identifier that the
-- request sent.
pub lookup-login :
    (manager : ManagerConfig) (request : Request) (now : ℕ) (bytes : List ℕ)
    (principal : SessionPrincipal) (response response' : Response)
    (sessions sessions' : InMemorySessionStore) (session : Session) (old : Text)
    → login manager request now (some bytes) principal response sessions
      ≡ (sessions', some (session, response'))
    → request_cookie manager.cookie_name request ≡ some old
    → same (hex bytes) old ≡ false
    → Dict.lookup old sessions' ≡ none
unfolding put
lookup-login manager request now bytes principal response response' sessions sessions' session old e
      sent new =
    let l =
      login-LoggedIn manager request now bytes principal response response' sessions sessions'
        session e in
    let made = new_session manager now principal bytes in
    ap (Dict.lookup old) (sym l.stored ∙ ap (λ o. put made (erase_previous o sessions)) sent)
    ∙ lookup-assign old made.id made (Dict.erase old sessions)
    ∙ if_false (same (hex bytes) old) new _ _
    ∙ lookup-erase old old sessions
    ∙ if_true (same old old) (same_refl old) _ _
