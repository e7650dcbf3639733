-- ===== src/Middleware/RateLimit/Gcra.antt =====
-- The rate that `acquire_gcra` of src/middleware/rate_limit_middleware.cpp lets through.
use novaboot.Base.{
  ℕ, zero, suc, ◌+◌, ◌-◌, ◌*◌, ◌≤◌, max, ◌≡◌, inl, inr, List, [], ◌∷◌, Option, none, some, arith,
  if◌then◌else◌, ltb, ◌==◌, Bool-cases,
}
use novaboot.Middleware.RateLimit.Times.{Ordered, Ordered-le, is_granted}
use novaboot.Middleware.RateLimit.{
  RateLimitPolicy, Result, Doubles, State, gcra_state, burst_capacity, interval, tolerance,
  acquire_gcra, granted, denied,
}

module _ {D : Type 0} (double : Doubles D) (policy : RateLimitPolicy) where
  -- How many of the requests at these times are granted, from a given arrival time on.
  abbrev pub grants : List ℕ → State D → ℕ
  grants [] s = 0
  grants (now ∷ times) s =
      let (s', r) = acquire_gcra double policy now s in
      let more = grants times s' in if is_granted r then 1 + more else more

  -- The answers on a known arrival time: an exception, a refusal, or a grant.
  data Answers (now arrival : ℕ) : State D × Option Result → Type 0 where
    throws : Answers now arrival (gcra_state arrival, none)
    denies : (wait : ℕ) → Answers now arrival (gcra_state arrival, some (denied wait))
    grants_one :
        (left : ℕ)
        → arrival ≤ now + tolerance policy
        → Answers now arrival (gcra_state (max arrival now + interval policy), some (granted left))

  answers :
      (now arrival : ℕ) → Answers now arrival (acquire_gcra double policy now (gcra_state arrival))
  unfolding acquire_gcra
  answers now arrival = elim (Bool-cases (interval policy == 0)) [
    | inl none_left ↦ rw none_left throws
    | inr some_left ↦ elim (Bool-cases (ltb (now + tolerance policy) arrival)) [
      | inl early ↦ rw (some_left, early) (denies _)
      | inr late ↦ rw (some_left, late) (grants_one _ (ground arith))
    ]
  ]

  one_more : (n i : ℕ) → (1 + n) * i ≡ i + n * i
  one_more n i = grind arith

  full_budget : (b i : ℕ) → 1 ≤ b → i * (b - 1) + i ≡ b * i
  full_budget zero i h = absurd (omega arith)
  full_budget (suc c) i h = let c_left : suc c - 1 ≡ c = omega arith in rw c_left (grind arith)

  -- The whole budget of a burst, in time.
  abbrev budget : ℕ
  budget = burst_capacity policy * interval policy

  capacity_positive : 1 ≤ policy.limit → 1 ≤ burst_capacity policy
  capacity_positive h = ground arith

  -- From a time on, the theoretical arrival stays ahead of a base that each grant moves on.
  abbrev Covered : List ℕ → ℕ → ℕ → Type 0
  Covered times from last =
      (base arrival : ℕ)
      → base ≤ max arrival from
      → base ≤ from + budget
      → grants times (gcra_state arrival) * interval policy + base ≤ last + budget

  tally : List ℕ → State D × Option Result → ℕ
  tally times (s, r) = let more = grants times s in if is_granted r then 1 + more else more

  one_step :
      (times : List ℕ) (from now last base arrival : ℕ) (r : State D × Option Result)
      → 1 ≤ policy.limit
      → Covered times now last
      → from ≤ now
      → base ≤ max arrival from
      → base ≤ from + budget
      → Answers now arrival r
      → tally times r * interval policy + base ≤ last + budget
  unfolding tally
  one_step times from now last base arrival r positive ih o b c throws =
      ih base arrival (omega arith) (omega arith)
  one_step times from now last base arrival r positive ih o b c (denies wait) =
      ih base arrival (omega arith) (omega arith)
  one_step times from now last base arrival r positive ih o b c (grants_one left late) =
      let i = interval policy in
      let whole = full_budget (burst_capacity policy) i (capacity_positive positive) in
      let next = ih (base + i) (max arrival now + i) (omega arith) (omega arith) in
      omega (arith, next, one_more (grants times (gcra_state (max arrival now + i))) i)

  grants-Covered :
      (times : List ℕ) (from last : ℕ)
      → 1 ≤ policy.limit
      → Ordered from times last
      → Covered times from last
  unfolding tally
  grants-Covered [] from last positive o base arrival b c = omega arith
  grants-Covered (now ∷ times) from last positive (before, o) base arrival b c =
      one_step times from now last base arrival _ positive
        (grants-Covered times now last positive o) before b c (answers now arrival)

  -- Of requests at times in order, with a positive limit, no more are granted than fit: the
  -- intervals of all that are granted add up to no more than the time that passes from the first
  -- time to the last and the intervals of one burst.
  pub grants-le :
      (times : List ℕ) (first last arrival : ℕ)
      → 1 ≤ policy.limit
      → Ordered first times last
      → grants times (gcra_state arrival) * interval policy
        ≤ (last - first) + burst_capacity policy * interval policy
  grants-le times first last arrival positive o = omega (
    arith,
    Ordered-le times first last o,
    grants-Covered times first last positive o first arrival (omega arith) (omega arith),
  )
