-- ===== src/Middleware/Authorization/Policies.antt =====
-- Which requests src/middleware/authorization_middleware.cpp lets through.
use novaboot.Base.{
  ◌≡◌, refl, sym, ap, ◌∙◌, ◌↔◌, ◌⊎◌, inl, inr, Bool, true, false, not, ◌&&◌, ◌||◌, List, [], ◌∷◌,
  Option, none, some, if◌then◌else◌, arith, Text, All, Bool-cases,
}
use novaboot.Http.Messages.{Request, Response}
use novaboot.Middleware.Authorization.{
  Context, Policy, Config, policy_matches, satisfies, continued, answered, any_matches,
  requires_principal, grants, all_custom, grants_allow, policy_allows, all_allow, is_authenticated,
  handle,
}
use novaboot.Middleware.Authorization.Matching.{
  Meets, and_both, both_and, or_right, or_left, satisfies_iff,
}

-- What a policy asks of a request.
pub record Permits (request : Request) (context : Context) (policy : Policy) : Type 0 where
  pub granted :
      policy.require_authenticated ≡ true
      → (g : List Text × List Text) × (grants context ≡ some g)
        × Meets g.0 policy.required_scopes policy.scope_match
        × Meets g.1 policy.required_roles policy.role_match
  pub custom : All (λ c. c request context ≡ true) policy.custom_policies

-- Every policy that matches the request permits it.
abbrev pub Permitted : Request → Context → List Policy → Type 0
Permitted request context = All (λ p. policy_matches p request ≡ true → Permits request context p)

all_custom_sound :
    (customs : List (Request → Context → Bool)) (request : Request) (context : Context)
    → all_custom customs request context ≡ true
    → All (λ c. c request context ≡ true) customs
all_custom_sound [] request context h = tt
all_custom_sound (c ∷ customs) request context h =
    let both = and_both (c request context) (all_custom customs request context) h in
    (both.0, all_custom_sound customs request context both.1)

all_custom_complete :
    (customs : List (Request → Context → Bool)) (request : Request) (context : Context)
    → All (λ c. c request context ≡ true) customs
    → all_custom customs request context ≡ true
all_custom_complete [] request context a = refl
all_custom_complete (c ∷ customs) request context (h, a) =
    both_and (c request context) (all_custom customs request context) h
      (all_custom_complete customs request context a)

grants_allow_sound :
    (policy : Policy) (g : Option (List Text × List Text))
    → is_authenticated g ≡ true
    → grants_allow policy g ≡ true
    → (h : List Text × List Text) × (g ≡ some h)
      × Meets h.0 policy.required_scopes policy.scope_match
      × Meets h.1 policy.required_roles policy.role_match
grants_allow_sound policy none known h = absurd (cc known)
grants_allow_sound policy (some (scopes, roles)) known h =
    let both =
      and_both (satisfies scopes policy.required_scopes policy.scope_match)
        (satisfies roles policy.required_roles policy.role_match) h in
    (
      (scopes, roles),
      refl,
      (satisfies_iff scopes policy.required_scopes policy.scope_match).0 both.0,
      (satisfies_iff roles policy.required_roles policy.role_match).0 both.1,
    )

grants_allow_complete :
    (policy : Policy) (h : List Text × List Text)
    → Meets h.0 policy.required_scopes policy.scope_match
    → Meets h.1 policy.required_roles policy.role_match
    → grants_allow policy (some h) ≡ true
grants_allow_complete policy (scopes, roles) s r =
    both_and (satisfies scopes policy.required_scopes policy.scope_match)
      (satisfies roles policy.required_roles policy.role_match)
      ((satisfies_iff scopes policy.required_scopes policy.scope_match).1 s)
      ((satisfies_iff roles policy.required_roles policy.role_match).1 r)

required_allows :
    (required allowed : Bool) → (not required || allowed) ≡ true → required ≡ true → allowed ≡ true
required_allows true allowed h r = h
required_allows false allowed h r = absurd (cc r)

allows_required :
    (required allowed : Bool)
    → (required ≡ true → allowed ≡ true)
    → (not required || allowed) ≡ true
allows_required true allowed h = h refl
allows_required false allowed h = refl

module _ (request : Request) (context : Context) where
  policy_allows_sound :
      (policy : Policy)
      → (policy.require_authenticated ≡ true → is_authenticated (grants context) ≡ true)
      → policy_allows policy request context ≡ true
      → Permits request context policy
  policy_allows_sound policy known h =
      let both =
        and_both (not policy.require_authenticated || grants_allow policy (grants context))
          (all_custom policy.custom_policies request context) h in
      record {
        granted = λ r. grants_allow_sound policy (grants context) (known r) (
            required_allows policy.require_authenticated (grants_allow policy (grants context))
              both.0 r);
        custom = all_custom_sound policy.custom_policies request context both.1;
      }

  policy_allows_complete :
      (policy : Policy)
      → Permits request context policy
      → policy_allows policy request context ≡ true
  policy_allows_complete policy p =
      both_and (not policy.require_authenticated || grants_allow policy (grants context))
        (all_custom policy.custom_policies request context)
        (allows_required policy.require_authenticated (grants_allow policy (grants context)) (λ r.
          let (g, e, scopes, roles) = p.granted r in
          ap (grants_allow policy) e ∙ grants_allow_complete policy g scopes roles))
        (all_custom_complete policy.custom_policies request context p.custom)

  all_allow_sound :
      (policies : List Policy)
      → (requires_principal policies request ≡ true → is_authenticated (grants context) ≡ true)
      → all_allow policies request context ≡ true
      → Permitted request context policies
  all_allow_sound [] known h = tt
  all_allow_sound (p ∷ policies) known h =
      let matches = policy_matches p request in
      let both =
        and_both (not matches || policy_allows p request context)
          (all_allow policies request context) h in
      (
        λ m.
            policy_allows_sound p
              (λ r. known (
                or_left (matches && p.require_authenticated) (requires_principal policies request)
                  (both_and matches p.require_authenticated m r)))
              (required_allows matches (policy_allows p request context) both.0 m),
        all_allow_sound policies
            (λ r. known (
              or_right (matches && p.require_authenticated) (requires_principal policies request)
                r))
            both.1,
      )

  all_allow_complete :
      (policies : List Policy)
      → Permitted request context policies
      → all_allow policies request context ≡ true
  all_allow_complete [] a = refl
  all_allow_complete (p ∷ policies) (h, a) =
      both_and (not (policy_matches p request) || policy_allows p request context)
        (all_allow policies request context)
        (allows_required (policy_matches p request) (policy_allows p request context)
          (λ m. policy_allows_complete p (h m)))
        (all_allow_complete policies a)

  known_principal :
      (policies : List Policy)
      → Permitted request context policies
      → requires_principal policies request ≡ true
      → is_authenticated (grants context) ≡ true
  known_principal [] a r = absurd (cc r)
  known_principal (p ∷ policies) (h, a) r =
      elim (Bool-cases (policy_matches p request && p.require_authenticated)) [
        | inl this ↦
            let both = and_both (policy_matches p request) p.require_authenticated this in
            let (g, e, scopes, roles) = (h both.0).granted both.1 in ap is_authenticated e
        | inr other ↦
            known_principal policies a
              (sym (ap (λ b. b || requires_principal policies request) other) ∙ r)
      ]

  none_match :
      (policies : List Policy)
      → any_matches policies request ≡ false
      → Permitted request context policies
  none_match [] h = tt
  none_match (p ∷ policies) h = elim (Bool-cases (policy_matches p request)) [
    | inl this ↦
        absurd (cc (h, or_left (policy_matches p request) (any_matches policies request) this))
    | inr other ↦ (
      λ m. absurd (cc (m, other)),
      none_match policies (sym (ap (λ b. b || any_matches policies request) other) ∙ h),
    )
  ]

verdict_iff :
    (matched denied allowed : Bool) (r s : Response)
    → ((if not matched
          then continued
          else if denied
          then answered r
          else if allowed
          then continued
          else answered s)
        ≡ continued)
      ↔ ((matched ≡ false) ⊎ ((denied ≡ false) × (allowed ≡ true)))
verdict_iff false denied allowed r s = (λ e. inl refl, λ o. refl)
verdict_iff true true allowed r s = (λ e. absurd (cc e), λ o. absurd (ground arith))
verdict_iff true false true r s = (λ e. inr (refl, refl), λ o. refl)
verdict_iff true false false r s = (λ e. absurd (cc e), λ o. absurd (ground arith))

and_not-false : (x y : Bool) → (x && not y) ≡ false → x ≡ true → y ≡ true
and_not-false true true h e = refl
and_not-false true false h e = absurd (cc h)
and_not-false false y h e = absurd (cc e)

not_both : (x y : Bool) → (x ≡ true → y ≡ true) → (x && not y) ≡ false
not_both true y h = ap not (h refl)
not_both false y h = refl

-- A request goes on exactly if each policy that matches it permits it. A policy that requires a
-- principal permits only a request that has one, whose scopes and whose roles contain one or all of
-- the required ones, as its modes say, where it requires any. Of two principals the token's counts.
-- All of its custom policies must agree.
pub handle-Permitted :
    (config : Config) (request : Request) (context : Context) (response : Response)
    → (handle config request context response ≡ continued)
      ↔ Permitted request context config.policies
unfolding handle
handle-Permitted config request context response =
    let ps = config.policies in
    let known = is_authenticated (grants context) in
    let iff =
      verdict_iff (any_matches ps request) (requires_principal ps request && not known)
        (all_allow ps request context) _ _ in
    (
      λ e. elim (iff.0 e) [
        | inl none_matches ↦ none_match request context ps none_matches
        | inr (fine, allowed) ↦
            all_allow_sound request context ps
              (and_not-false (requires_principal ps request) known fine) allowed
      ],
      λ a. iff.1 (
          inr (
            not_both (requires_principal ps request) known (known_principal request context ps a),
            all_allow_complete request context ps a,
          )),
    )
