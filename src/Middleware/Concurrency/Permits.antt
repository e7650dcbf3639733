-- ===== src/Middleware/Concurrency/Permits.antt =====
-- The counts of src/middleware/concurrency_limit_middleware.cpp under any interleaving of requests.
use novaboot.Base.{
  ℕ, ◌+◌, ◌-◌, ◌≤◌, ◌<◌, ◌≡◌, refl, ap, ◌∙◌, ◌⊎◌, inl, inr, List, [], ◌∷◌, ◌++◌, none, some, arith,
  if◌then◌else◌, ltb, leb, length, Text, same, same_refl, Bool-cases, Option-cases, All,
}
use novaboot.Middleware.Paths.{path_allowed}
use novaboot.Middleware.Concurrency.Counts.{
  Within, assign-Within, count, count-assign, count-erase, erase-Within, find-Within, length-assign,
  length-erase, or_zero, same-count,
}
use novaboot.Middleware.Concurrency.{
  Config, Active, find, assign, try_acquire, release, Verdict, admitted, resolved, judge, handle,
}

-- The permits in use, one for each request between the two parts of `handle`.
pub record Server : Type 0 where
  pub active : Active
  pub permits : List Text

abbrev pub holding : Verdict → List Text → List Text
holding (admitted key) permits = key ∷ permits
holding _ permits = permits

-- A request comes, or one with a permit ends, normally or by an exception.
pub data Step (config : Config) : Server → Server → Type 0 where
  arrives :
      (path key : Text) (s : Server)
      → Step config s (record {
        active = (handle config path key s.active).0;
        permits = holding (handle config path key s.active).1 s.permits;
      })
  ends :
      (active : Active) (before : List Text) (key : Text) (after : List Text)
      → Step config
          (record { active = active; permits = before ++ key ∷ after })
          (record { active = release key active; permits = before ++ after })

pub data Runs (config : Config) : Server → Type 0 where
  starts : Runs config (record { active = []; permits = [] })
  then_step : {s t : Server} → Runs config s → Step config s t → Runs config t

-- The permits for a key, and the count for it.
abbrev pub held : Text → List Text → ℕ
held key [] = 0
held key (p ∷ permits) = let rest = held key permits in if same p key then 1 + rest else rest

abbrev pub Balanced : Config → Server → Type 0
Balanced config s =
    ((key : Text) → count key s.active ≡ held key s.permits)
    × All (Within config) s.active
    × (length s.active ≤ config.max_keys)

held-append : (key : Text) (xs ys : List Text) → held key (xs ++ ys) ≡ held key xs + held key ys
held-append key [] ys = omega arith
held-append key (x ∷ xs) ys = ground (arith, held-append key xs ys)

-- What an acquired permit shows of the map before, and does to it.
acquired :
    (config : Config) (key : Text) (active now : Active)
    → try_acquire config key active ≡ some now
    → ((find key active ≡ none) × (length active < config.max_keys) × (now ≡ (key, 1) ∷ active))
      ⊎ ((n : ℕ) × (find key active ≡ some n)
          × (n < config.max_concurrent)
          × (now ≡ assign key (n + 1) active))
unfolding try_acquire
acquired config key active now e = elim (Option-cases (find key active)) [
  | inl missing ↦ elim (Bool-cases (leb config.max_keys (length active))) [
    | inl full ↦ absurd (cc (rw (missing, full) at e))
    | inr room ↦ inl (missing, ground arith, cc (rw (missing, room) at e))
  ]
  | inr (n, found) ↦ elim (Bool-cases (leb config.max_concurrent n)) [
    | inl full ↦ absurd (cc (rw (found, full) at e))
    | inr room ↦ inr (n, found, ground arith, cc (rw (found, room) at e))
  ]
]

missing-Balanced :
    (config : Config) (key : Text) (active : Active) (permits : List Text)
    → 1 ≤ config.max_concurrent
    → Balanced config (record { active = active; permits = permits })
    → find key active ≡ none
    → length active < config.max_keys
    → Balanced config (record { active = (key, 1) ∷ active; permits = key ∷ permits })
missing-Balanced config key active permits positive (b, w, l) missing room = (
  λ other. elim (Bool-cases (same key other)) [
    | inl this ↦
        rw this (omega (arith, b other, same-count key other active this, ap or_zero missing))
    | inr differs ↦ rw differs (b other)
  ],
  ((omega arith, positive), w),
  omega arith,
)

found-Balanced :
    (config : Config) (key : Text) (active : Active) (permits : List Text) (n : ℕ)
    → Balanced config (record { active = active; permits = permits })
    → find key active ≡ some n
    → n < config.max_concurrent
    → Balanced config (record { active = assign key (n + 1) active; permits = key ∷ permits })
found-Balanced config key active permits n (b, w, l) found room = (
  λ other. count-assign key other (n + 1) n active found ∙ elim (Bool-cases (same key other)) [
    | inl this ↦
        rw this (omega (arith, b other, same-count key other active this, ap or_zero found))
    | inr differs ↦ rw differs (b other)
  ],
  assign-Within config key (n + 1) active (omega arith, omega arith) w,
  omega (arith, length-assign key (n + 1) active),
)

acquire-Balanced :
    (config : Config) (key : Text) (active now : Active) (permits : List Text)
    → 1 ≤ config.max_concurrent
    → Balanced config (record { active = active; permits = permits })
    → try_acquire config key active ≡ some now
    → Balanced config (record { active = now; permits = key ∷ permits })
acquire-Balanced config key active now permits positive b e =
    elim (acquired config key active now e) [
      | inl (missing, room, is_now) ↦
          rw is_now (missing-Balanced config key active permits positive b missing room)
      | inr (n, found, room, is_now) ↦
          rw is_now (found-Balanced config key active permits n b found room)
    ]

-- The permits for a key, without one that is released.
held-released :
    (before : List Text) (key : Text) (after : List Text) (other : Text)
    → held other (before ++ key ∷ after)
      ≡ held other (before ++ after) + (if same key other then 1 else 0)
held-released before key after other =
    held-append other before (key ∷ after) ∙ elim (Bool-cases (same key other)) [
      | inl this ↦ rw this (omega (arith, held-append other before after))
      | inr differs ↦ rw differs (omega (arith, held-append other before after))
    ]

-- The count for each key, once the released one has gone down by one.
left_over :
    (config : Config) (active : Active) (before : List Text) (key : Text) (after : List Text)
    (other : Text) (n m : ℕ)
    → count other active ≡ held other (before ++ key ∷ after)
    → find key active ≡ some n
    → m ≡ n - 1
    → (if same key other then m else count other active) ≡ held other (before ++ after)
left_over config active before key after other n m b found e =
    let one_more = held-released before key after other in
    elim (Bool-cases (same key other)) [
      | inl this ↦
          let one_more' = rw this at one_more in
          rw this (omega (arith, b, same-count key other active this, ap or_zero found, one_more'))
      | inr differs ↦
          let none_more = rw differs at one_more in rw differs (omega (arith, b, none_more))
    ]

release-Balanced :
    (config : Config) (active : Active) (before : List Text) (key : Text) (after : List Text)
    → Balanced config (record { active = active; permits = before ++ key ∷ after })
    → Balanced config (record { active = release key active; permits = before ++ after })
unfolding release
release-Balanced config active before key after (b, w, l) = elim (Option-cases (find key active)) [
  | inl missing ↦
      let one_more = held-released before key after key in
      absurd (omega (arith, b key, ap or_zero missing, rw (same_refl key) at one_more))
  | inr (n, found) ↦ elim (Bool-cases (leb n 1)) [
    | inl last ↦
        rw (found, last)
          (
            λ other.
                count-erase key other active
                ∙ left_over config active before key after other n 0 (b other) found (ground arith),
            erase-Within config key active w,
            omega (arith, length-erase key active),
          )
    | inr more ↦
        rw (found, more)
          (
            λ other.
                count-assign key other (n - 1) n active found
                ∙ left_over config active before key after other n (n - 1) (b other) found refl,
            assign-Within config key (n - 1) active
                (let (one, most) = find-Within config key n active w found in
                  (ground arith, omega arith))
                w,
            omega (arith, length-assign key (n - 1) active),
          )
  ]
]

judge-Balanced :
    (config : Config) (key : Text) (active : Active) (permits : List Text)
    → 1 ≤ config.max_concurrent
    → Balanced config (record { active = active; permits = permits })
    → Balanced config (record {
      active = (judge key active (try_acquire config key active)).0;
      permits = holding (judge key active (try_acquire config key active)).1 permits;
    })
judge-Balanced config key active permits positive b =
    elim (Option-cases (try_acquire config key active)) [
      | inl refused ↦ rw refused b
      | inr (now, granted) ↦
          rw granted (acquire-Balanced config key active now permits positive b granted)
    ]

handle-Balanced :
    (config : Config) (path key : Text) (s : Server)
    → 1 ≤ config.max_concurrent
    → Balanced config s
    → Balanced config (record {
      active = (handle config path key s.active).0;
      permits = holding (handle config path key s.active).1 s.permits;
    })
unfolding handle
handle-Balanced config path key s positive b =
    elim (Bool-cases (path_allowed config.allowlist_paths path)) [
      | inl allowed ↦ rw allowed b
      | inr checked ↦ elim (Bool-cases (ltb config.max_key_length (length (resolved key)))) [
        | inl long ↦ rw (checked, long) b
        | inr fits ↦
            rw (checked, fits) (judge-Balanced config (resolved key) s.active s.permits positive b)
      ]
    ]

Step-Balanced :
    (config : Config) (s t : Server)
    → 1 ≤ config.max_concurrent
    → Balanced config s
    → Step config s t
    → Balanced config t
Step-Balanced config s t positive b (arrives path key _) =
    handle-Balanced config path key s positive b
Step-Balanced config s t positive b (ends active before key after) =
    release-Balanced config active before key after b

-- With a positive limit, however requests come and end, for each key the map counts exactly the
-- requests that hold a permit for it; no count exceeds the limit or is zero, and the keys stay
-- within their limit.
pub Runs-Balanced :
    (config : Config) (s : Server) → 1 ≤ config.max_concurrent → Runs config s → Balanced config s
Runs-Balanced config s positive starts = (λ key. refl, tt, omega arith)
Runs-Balanced config s positive (then_step {s = before} r step) =
    Step-Balanced config before s positive (Runs-Balanced config before positive r) step
