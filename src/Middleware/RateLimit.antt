-- ===== src/Middleware/RateLimit.antt =====
-- `InMemoryRateLimitStore` of src/middleware/rate_limit_middleware.cpp, with the records of
-- include/novaboot/middleware/rate_limit_middleware.h. Times and durations of the clock are in
-- nanoseconds; a thrown `invalid_argument` is `none`. The arithmetic of `double` is a parameter.
pub mod Times
pub mod Sliding
pub mod Gcra
pub mod Store
mod Tests
use novaboot.Base.{
  ℕ, ◌+◌, ◌-◌, ◌*◌, ◌/◌, ◌^◌, max, Bool, true, false, not, ◌&&◌, ◌||◌, List, [], ◌∷◌, ◌++◌, Option,
  none, some, if◌then◌else◌, ltb, leb, ◌==◌, length, Text, text, same, is_empty,
}

pub data RateLimitAlgorithm : Type 0 where
  token_bucket fixed_window sliding_window gcra : RateLimitAlgorithm

-- The window is in milliseconds.
pub record RateLimitPolicy : Type 0 where
  pub name : Text
  pub algorithm : RateLimitAlgorithm
  pub limit : ℕ
  pub window : ℕ
  pub burst : ℕ

pub record Result : Type 0 where
  pub allowed : Bool
  pub remaining : ℕ
  pub retry_after : ℕ

-- What the store uses of `double`: seconds of a duration, and casts of a non-negative value.
pub record Doubles (D : Type 0) : Type 0 where
  pub zero_value : D
  pub one_value : D
  pub of_count : ℕ → D
  pub seconds_of : ℕ → D
  pub duration_of_seconds : D → ℕ
  pub plus : D → D → D
  pub minus : D → D → D
  pub times : D → D → D
  pub over : D → D → D
  pub less : D → D → Bool
  pub floor : D → D
  pub ceil : D → D
  pub to_count : D → ℕ

pub data State (D : Type 0) : Type 0 where
  token_bucket_state : (tokens : D) (updated_at : ℕ) → State D
  fixed_window_state : (started_at used : ℕ) → State D
  sliding_window_state : (requests : List ℕ) → State D
  gcra_state : (theoretical_arrival : ℕ) → State D

pub record Entry (D : Type 0) : Type 0 where
  pub algorithm : RateLimitAlgorithm
  pub state : State D
  pub updated_at : ℕ

pub record Config : Type 0 where
  pub max_keys : ℕ
  pub idle_ttl : ℕ

unfoldable pub is_valid_policy : RateLimitPolicy → Bool
is_valid_policy policy =
    not (is_empty policy.name) && not (policy.limit == 0) && not (policy.window == 0)

abbrev pub policy_window : RateLimitPolicy → ℕ
policy_window policy = policy.window * 1000000

abbrev pub burst_capacity : RateLimitPolicy → ℕ
burst_capacity policy = if policy.burst == 0 then policy.limit else policy.burst

abbrev pub denied : ℕ → Result
denied retry_after = record { allowed = false; remaining = 0; retry_after = retry_after }

abbrev pub granted : ℕ → Result
granted remaining = record { allowed = true; remaining = remaining; retry_after = 0 }

abbrev pub same_algorithm : RateLimitAlgorithm → RateLimitAlgorithm → Bool
same_algorithm token_bucket token_bucket = true
same_algorithm fixed_window fixed_window = true
same_algorithm sliding_window sliding_window = true
same_algorithm gcra gcra = true
same_algorithm _ _ = false

-- The window that has begun, or a new one.
abbrev pub current_window : RateLimitPolicy → ℕ → ℕ → ℕ → ℕ × ℕ
current_window policy now started_at used =
    if leb started_at now && leb (policy_window policy) (now - started_at)
    then (now, 0)
    else (started_at, used)

-- The loop over the front of the queue.
unfoldable pub pop_expired : ℕ → ℕ → List ℕ → List ℕ
pop_expired window now [] = []
pop_expired window now (front ∷ requests) =
    let rest = pop_expired window now requests in
    if leb front now && leb window (now - front) then rest else front ∷ requests

abbrev pub first_request : List ℕ → ℕ
first_request [] = 0
first_request (front ∷ requests) = front

abbrev pub interval : RateLimitPolicy → ℕ
interval policy = policy_window policy / policy.limit

abbrev pub tolerance : RateLimitPolicy → ℕ
tolerance policy = interval policy * (burst_capacity policy - 1)

module _ {D : Type 0} (double : Doubles D) where
  abbrev pub min_double : D → D → D
  min_double a b = if double.less b a then b else a

  unfoldable pub ceil_seconds : ℕ → ℕ
  ceil_seconds duration =
      if duration == 0
      then 0
      else double.to_count
          (min_double (double.ceil (double.seconds_of duration)) (double.of_count (2 ^ 63 - 1)))

  abbrev pub refill_rate : RateLimitPolicy → D
  refill_rate policy =
      double.over (double.of_count policy.limit) (double.seconds_of (policy_window policy))

  abbrev pub refilled : RateLimitPolicy → ℕ → D → ℕ → D × ℕ
  refilled policy now tokens updated_at =
      if ltb updated_at now
      then (
        min_double (double.of_count (burst_capacity policy)) (
            double.plus tokens
              (double.times (double.seconds_of (now - updated_at)) (refill_rate policy))),
        now,
      )
      else (tokens, updated_at)

  abbrev pub take_token : RateLimitPolicy → D × ℕ → State D × Result
  take_token policy (tokens, updated_at) =
      if double.less tokens double.one_value
      then (
        token_bucket_state tokens updated_at,
        denied (
            ceil_seconds (
              double.duration_of_seconds
                (double.over (double.minus double.one_value tokens) (refill_rate policy)))),
      )
      else (
        token_bucket_state (double.minus tokens double.one_value) updated_at,
        granted (double.to_count (double.floor (double.minus tokens double.one_value))),
      )

  unfoldable pub acquire_token_bucket : RateLimitPolicy → ℕ → State D → State D × Result
  acquire_token_bucket policy now (token_bucket_state tokens updated_at) =
      take_token policy (refilled policy now tokens updated_at)
  acquire_token_bucket policy now _ =
      take_token policy (refilled policy now (double.of_count (burst_capacity policy)) now)

  -- A refusal comes before the end of the window: the difference is not negative.
  abbrev pub use_window : RateLimitPolicy → ℕ → ℕ × ℕ → State D × Result
  use_window policy now (started_at, used) =
      if leb policy.limit used
      then (
        fixed_window_state started_at used,
        denied (ceil_seconds (policy_window policy + started_at - now)),
      )
      else (fixed_window_state started_at (used + 1), granted (policy.limit - (used + 1)))

  unfoldable pub acquire_fixed_window : RateLimitPolicy → ℕ → State D → State D × Result
  acquire_fixed_window policy now (fixed_window_state started_at used) =
      use_window policy now (current_window policy now started_at used)
  acquire_fixed_window policy now _ = use_window policy now (current_window policy now now 0)

  abbrev pub use_requests : RateLimitPolicy → ℕ → List ℕ → State D × Result
  use_requests policy now requests =
      if leb policy.limit (length requests)
      then (
        sliding_window_state requests,
        denied (ceil_seconds (first_request requests + policy_window policy - now)),
      )
      else (
        sliding_window_state (requests ++ now ∷ []),
        granted (policy.limit - (length requests + 1)),
      )

  unfoldable pub acquire_sliding_window : RateLimitPolicy → ℕ → State D → State D × Result
  acquire_sliding_window policy now (sliding_window_state requests) =
      use_requests policy now (pop_expired (policy_window policy) now requests)
  acquire_sliding_window policy now _ = use_requests policy now []

  -- How many intervals a duration counts for.
  abbrev pub intervals_in : RateLimitPolicy → ℕ → ℕ
  intervals_in policy debt =
      double.to_count
        (double.ceil (double.over (double.seconds_of debt) (double.seconds_of (interval policy))))

  -- `now < theoretical_arrival - tolerance`, where the difference may be negative.
  abbrev pub use_arrival : RateLimitPolicy → ℕ → ℕ → State D × Result
  use_arrival policy now arrival =
      if ltb (now + tolerance policy) arrival
      then (gcra_state arrival, denied (ceil_seconds (arrival - tolerance policy - now)))
      else (
        gcra_state (max arrival now + interval policy),
        granted
            (burst_capacity policy - intervals_in policy (max arrival now + interval policy - now)),
      )

  unfoldable pub acquire_gcra : RateLimitPolicy → ℕ → State D → State D × Option Result
  acquire_gcra policy now (gcra_state arrival) =
      if interval policy == 0
      then (gcra_state arrival, none)
      else (let (s, r) = use_arrival policy now arrival in (s, some r))
  acquire_gcra policy now other =
      if interval policy == 0
      then (other, none)
      else (let (s, r) = use_arrival policy now now in (s, some r))

  abbrev answered : State D × Result → State D × Option Result
  answered (s, r) = (s, some r)

  abbrev pub acquire_state :
      RateLimitAlgorithm → RateLimitPolicy → ℕ → State D → State D × Option Result
  acquire_state token_bucket policy now s = answered (acquire_token_bucket policy now s)
  acquire_state fixed_window policy now s = answered (acquire_fixed_window policy now s)
  acquire_state sliding_window policy now s = answered (acquire_sliding_window policy now s)
  acquire_state gcra policy now s = acquire_gcra policy now s
