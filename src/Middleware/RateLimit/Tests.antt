-- ===== src/Middleware/RateLimit/Tests.antt =====
-- Runs of src/middleware/rate_limit_middleware.cpp, with whole numbers for `double`.
use novaboot.Base.{ℕ, ◌+◌, ◌-◌, ◌*◌, ◌/◌, ◌≤◌, List, [], ◌∷◌, arith, ltb, length, text}
use novaboot.Middleware.RateLimit.{
  RateLimitAlgorithm, sliding_window, gcra, RateLimitPolicy, Doubles, sliding_window_state,
  gcra_state, Config, interval, burst_capacity,
}
use novaboot.Middleware.RateLimit.Sliding.{in_window, passed, passed-le}
use novaboot.Middleware.RateLimit.Gcra.{grants, grants-le}
use novaboot.Middleware.RateLimit.Store.{acquire, length-acquire}

abbrev whole : Doubles ℕ
whole = record {
  zero_value = 0;
  one_value = 1;
  of_count = λ n. n;
  seconds_of = λ d. d / 1000000000;
  duration_of_seconds = λ s. s * 1000000000;
  plus = λ a b. a + b;
  minus = λ a b. a - b;
  times = λ a b. a * b;
  over = λ a b. a / b;
  less = ltb;
  floor = λ a. a;
  ceil = λ a. a;
  to_count = λ a. a;
}

-- Two requests in ten milliseconds.
abbrev policy : RateLimitAlgorithm → RateLimitPolicy
policy algorithm = record {
  name = text "api";
  algorithm = algorithm;
  limit = 2;
  window = 10;
  burst = 0;
}

abbrev times : List ℕ
times = 0 ∷ 1000000 ∷ 2000000 ∷ 11000000 ∷ []

passed-le_example :
    in_window 10000000 11000000
      (passed whole (policy sliding_window) times (sliding_window_state []))
    ≤ 2
passed-le_example =
    passed-le whole (policy sliding_window) times 0 20000000 11000000
      (omega arith, (omega arith, (omega arith, (omega arith, omega arith))))

grants-le_example :
    grants whole (policy gcra) times (gcra_state 0) * interval (policy gcra)
    ≤ (20000000 - 0) + burst_capacity (policy gcra) * interval (policy gcra)
grants-le_example =
    grants-le whole (policy gcra) times 0 20000000 0 (omega arith)
      (omega arith, (omega arith, (omega arith, (omega arith, omega arith))))

abbrev config : Config
config = record { max_keys = 1; idle_ttl = 100 }

length-acquire_example :
    length (acquire whole config (text "alice") (policy sliding_window) 5 []).0 ≤ 1
length-acquire_example =
    length-acquire whole config (text "alice") (policy sliding_window) 5 [] (omega arith)
