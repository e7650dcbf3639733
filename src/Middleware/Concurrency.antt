-- ===== src/Middleware/Concurrency.antt =====
-- `ConcurrencyLimitMiddleware` of src/middleware/concurrency_limit_middleware.cpp. `active` is the
-- map from key to count; a permit is the key that it releases. A request is in two parts, before
-- and after the later middleware, since other requests run in between.
pub mod Counts
pub mod Permits
mod Tests
use novaboot.Base.{
  ℕ, ◌+◌, ◌-◌, Bool, true, false, not, List, [], ◌∷◌, ◌++◌, Option, none, some, if◌then◌else◌, ltb,
  leb, length, Text, text, same, is_empty,
}
use novaboot.Middleware.Paths.{path_allowed}

pub record Config : Type 0 where
  pub max_concurrent : ℕ
  pub max_keys : ℕ
  pub allowlist_paths : List Text
  pub max_key_length : ℕ

abbrev pub Active : Type 0
Active = List (Text × ℕ)

abbrev pub find : Text → Active → Option ℕ
find key [] = none
find key ((k, n) ∷ active) = if same k key then some n else find key active

abbrev pub assign : Text → ℕ → Active → Active
assign key m [] = []
assign key m ((k, n) ∷ active) =
    if same k key then (k, m) ∷ active else (k, n) ∷ assign key m active

abbrev pub erase : Text → Active → Active
erase key [] = []
erase key ((k, n) ∷ active) =
    let rest = erase key active in if same k key then rest else (k, n) ∷ rest

abbrev pub acquire_found : Config → Text → Active → Option ℕ → Option Active
acquire_found config key active none =
    if leb config.max_keys (length active) then none else some ((key, 1) ∷ active)
acquire_found config key active (some n) =
    if leb config.max_concurrent n then none else some (assign key (n + 1) active)

-- The new map, with a permit for the key, or none.
unfoldable pub try_acquire : Config → Text → Active → Option Active
try_acquire config key active = acquire_found config key active (find key active)

abbrev release_found : Text → Active → Option ℕ → Active
release_found key active none = active
release_found key active (some n) = if leb n 1 then erase key active else assign key (n - 1) active

unfoldable pub release : Text → Active → Active
release key active = release_found key active (find key active)

-- What `handle` does before `next`: passes the request by, refuses it, or lets it on with a permit.
pub data Verdict : Type 0 where
  bypassed key_too_long rejected : Verdict
  admitted : (key : Text) → Verdict

abbrev pub resolved : Text → Text
resolved key = if is_empty key then text "anonymous" else key

abbrev judge : Text → Active → Option Active → Active × Verdict
judge key active none = (active, rejected)
judge key active (some now) = (now, admitted key)

unfoldable pub handle : Config → (path key : Text) → Active → Active × Verdict
handle config path key active =
    if path_allowed config.allowlist_paths path
    then (active, bypassed)
    else if ltb config.max_key_length (length (resolved key))
    then (active, key_too_long)
    else judge (resolved key) active (try_acquire config (resolved key) active)
