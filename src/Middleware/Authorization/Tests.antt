-- ===== src/Middleware/Authorization/Tests.antt =====
-- Runs of src/middleware/authorization_middleware.cpp.
use novaboot.Base.{◌≡◌, refl, ◌↔◌, true, [], ◌∷◌, none, some, text, same}
use novaboot.Http.Messages.{Request, Response}
use novaboot.Middleware.Authorization.{
  match_any, match_all, Context, Policy, Config, policy_matches, satisfies, continued, handle,
}
use novaboot.Middleware.Authorization.Policies.{Permitted, handle-Permitted}

abbrev admins : Policy
admins = record {
  path = text "/admin/*";
  method = [];
  methods = [];
  require_authenticated = true;
  required_scopes = [];
  scope_match = match_all;
  required_roles = text "admin" ∷ text "root" ∷ [];
  role_match = match_any;
  custom_policies = [];
}

abbrev config : Config
config = record {
  policies = admins ∷ [];
  unauthorized_status = 401;
  unauthorized_body = [];
  forbidden_status = 403;
  forbidden_body = [];
}

abbrev asking : Request
asking = record {
  method = text "GET";
  path = text "/admin/x";
  scheme = [];
  authority = [];
  peer_address = [];
  client_address = [];
  headers = [];
  body = [];
}

abbrev root : Context
root = record {
  jwt = none;
  session = some (record { subject = text "r"; roles = text "root" ∷ []; scopes = [] });
}

abbrev empty_response : Response
empty_response = record { status_code = 200; headers = []; body = [] }

root_goes_on : handle config asking root empty_response ≡ continued
unfolding handle policy_matches satisfies same
root_goes_on = refl

handle-Permitted_example :
    (handle config asking root empty_response ≡ continued) ↔ Permitted asking root (admins ∷ [])
handle-Permitted_example = handle-Permitted config asking root empty_response
