-- ===== src/Middleware/RateLimit/Store.antt =====
-- The entries of `InMemoryRateLimitStore` and its `acquire`, of
-- src/middleware/rate_limit_middleware.cpp. Keys are `<size of name>:<name><key>`.
use novaboot.Base.{
  to_string, ℕ, ◌-◌, ◌≤◌, ◌≡◌, refl, inl, inr, Bool, not, ◌&&◌, List, [], ◌∷◌, ◌++◌, Option, none,
  some, arith, if◌then◌else◌, leb, length, Text, text, same, is_empty, Bool-cases,
}
use novaboot.Middleware.RateLimit.{
  RateLimitPolicy, Result, Doubles, State, token_bucket_state, Entry, Config, is_valid_policy,
  denied, same_algorithm, acquire_state,
}

abbrev normalized : RateLimitPolicy → Text → Text
normalized policy key =
    to_string (length policy.name)
    ++ 58 ∷ policy.name
    ++ (if is_empty key then text "anonymous" else key)

module _ {D : Type 0} (double : Doubles D) where
  abbrev pub Entries : Type 0
  Entries = List (Text × Entry D)

  abbrev find : Text → Entries → Option (Entry D)
  find key [] = none
  find key ((k, e) ∷ entries) = if same k key then some e else find key entries

  abbrev assign : Text → Entry D → Entries → Entries
  assign key new [] = []
  assign key new ((k, e) ∷ entries) =
      if same k key then (k, new) ∷ entries else (k, e) ∷ assign key new entries

  abbrev is_idle : Config → ℕ → Entry D → Bool
  is_idle config now e = leb e.updated_at now && leb config.idle_ttl (now - e.updated_at)

  unfoldable pub prune_idle : Config → ℕ → Entries → Entries
  prune_idle config now [] = []
  prune_idle config now ((k, e) ∷ entries) =
      let rest = prune_idle config now entries in
      if is_idle config now e then rest else (k, e) ∷ rest

  -- The value that a new entry, and an entry of another algorithm, has.
  abbrev initial : State D
  initial = token_bucket_state double.zero_value 0

  abbrev adapted : RateLimitPolicy → ℕ → Entry D → Entry D
  adapted policy now e = record {
    algorithm = policy.algorithm;
    state = if same_algorithm e.algorithm policy.algorithm then e.state else initial;
    updated_at = now;
  }

  abbrev run_entry : RateLimitPolicy → ℕ → Text → Entries → Entry D → Entries × Option Result
  run_entry policy now key entries e =
      let (s, r) = acquire_state double policy.algorithm policy now e.state in
      (assign key (record e { state = s }) entries, r)

  -- The entry of a key, made if there is room, after a pruning if need be.
  abbrev make_room : Config → ℕ → Entries → Entries
  make_room config now entries =
      if leb config.max_keys (length entries) then prune_idle config now entries else entries

  abbrev acquire_found :
      Config → RateLimitPolicy → ℕ → Text → Entries → Option (Entry D) → Entries × Option Result
  acquire_found config policy now key entries (some e) =
      run_entry policy now key entries (adapted policy now e)
  acquire_found config policy now key entries none =
      let room = make_room config now entries in
      let new : Entry D = record {
        algorithm = policy.algorithm;
        state = initial;
        updated_at = now;
      } in
      if leb config.max_keys (length room)
      then (room, some (denied 1))
      else run_entry policy now key ((key, new) ∷ room) new

  unfoldable pub acquire :
      Config → (key : Text) → RateLimitPolicy → (now : ℕ) → Entries → Entries × Option Result
  acquire config key policy now entries =
      if not (is_valid_policy policy)
      then (entries, none)
      else acquire_found config policy now (normalized policy key) entries
          (find (normalized policy key) entries)

  length-assign :
      (key : Text) (e : Entry D) (entries : Entries)
      → length (assign key e entries) ≡ length entries
  length-assign key e [] = refl
  length-assign key e ((k, _) ∷ entries) = ground (arith, length-assign key e entries)

  length-prune_idle :
      (config : Config) (now : ℕ) (entries : Entries)
      → length (prune_idle config now entries) ≤ length entries
  unfolding prune_idle
  length-prune_idle config now [] = omega arith
  length-prune_idle config now ((k, e) ∷ entries) =
      ground (arith, length-prune_idle config now entries)

  acquire_found-le :
      (config : Config) (policy : RateLimitPolicy) (now : ℕ) (key : Text) (entries : Entries)
      (found : Option (Entry D))
      → length entries ≤ config.max_keys
      → length (acquire_found config policy now key entries found).0 ≤ config.max_keys
  acquire_found-le config policy now key entries (some e) h = rw (length-assign key _ entries) h
  acquire_found-le config policy now key entries none h =
      let room = make_room config now entries in
      let fewer : length room ≤ length entries =
        ground (arith, length-prune_idle config now entries) in
      elim (Bool-cases (leb config.max_keys (length room))) [
        | inl full ↦ rw full (omega arith)
        | inr free ↦ rw (free, length-assign key _ (_ ∷ room)) (ground arith)
      ]

  -- However many distinct keys clients use, a store with at most `max_keys` entries keeps to that.
  pub length-acquire :
      (config : Config) (key : Text) (policy : RateLimitPolicy) (now : ℕ) (entries : Entries)
      → length entries ≤ config.max_keys
      → length (acquire config key policy now entries).0 ≤ config.max_keys
  unfolding acquire
  length-acquire config key policy now entries h =
      elim (Bool-cases (not (is_valid_policy policy))) [
        | inl bad ↦ rw bad h
        | inr good ↦
            rw good (acquire_found-le config policy now (normalized policy key) entries _ h)
      ]
