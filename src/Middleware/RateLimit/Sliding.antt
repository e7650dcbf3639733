-- ===== src/Middleware/RateLimit/Sliding.antt =====
-- What `acquire_sliding_window` of src/middleware/rate_limit_middleware.cpp lets through.
use mathlib.Core.List.{append_assoc}
use novaboot.Base.{
  ℕ, ◌+◌, ◌-◌, ◌≤◌, ◌<◌, ◌≡◌, refl, ap, sym, ◌∙◌, inl, inr, ◌&&◌, List, [], ◌∷◌, ◌++◌, arith,
  if◌then◌else◌, ltb, leb, length, Bool-cases, All, All-append, All-map,
}
use novaboot.Middleware.RateLimit.Times.{Ordered}
use novaboot.Middleware.RateLimit.{
  RateLimitPolicy, Result, Doubles, State, sliding_window_state, policy_window, pop_expired,
  acquire_sliding_window, granted, denied,
}

-- How many of the times lie in the window that ends at `t`.
abbrev pub in_window : (window t : ℕ) → List ℕ → ℕ
in_window window t [] = 0
in_window window t (g ∷ times) =
    let rest = in_window window t times in if leb g t && ltb t (g + window) then 1 + rest else rest

in_window-append :
    (window t : ℕ) (xs ys : List ℕ)
    → in_window window t (xs ++ ys) ≡ in_window window t xs + in_window window t ys
in_window-append window t [] ys = omega arith
in_window-append window t (x ∷ xs) ys = ground (arith, in_window-append window t xs ys)

in_window-le : (window t : ℕ) (xs : List ℕ) → in_window window t xs ≤ length xs
in_window-le window t [] = omega arith
in_window-le window t (x ∷ xs) = ground (arith, in_window-le window t xs)

abbrev Expired : (window now g : ℕ) → Type 0
Expired window now g = g + window ≤ now

in_window-Expired :
    (window now t : ℕ) (xs : List ℕ)
    → now ≤ t
    → All (Expired window now) xs
    → in_window window t xs ≡ 0
in_window-Expired window now t [] h a = refl
in_window-Expired window now t (x ∷ xs) h (e, a) =
    ground (arith, in_window-Expired window now t xs h a)

-- What the loop removes has expired.
popped :
    (window now : ℕ) (requests : List ℕ)
    → (gone : List ℕ) × All (Expired window now) gone
      × (requests ≡ gone ++ pop_expired window now requests)
unfolding pop_expired
popped window now [] = ([], tt, refl)
popped window now (front ∷ requests) =
    elim (Bool-cases (leb front now && leb window (now - front))) [
      | inl old ↦
          let (gone, all, e) = popped window now requests in
          rw old (front ∷ gone, (ground arith, all), ap (◌∷◌ front) e)
      | inr new ↦ rw new ([], tt, refl)
    ]

module _ {D : Type 0} (double : Doubles D) (policy : RateLimitPolicy) where
  -- The times of those requests that are granted.
  abbrev pub passed : List ℕ → State D → List ℕ
  passed [] s = []
  passed (now ∷ times) s =
      let (s', r) = acquire_sliding_window double policy now s in
      let more = passed times s' in if r.allowed then now ∷ more else more

  -- The grants so far, of which the queue holds all that have not expired, keep to the limit.
  record Kept (now : ℕ) (history requests : List ℕ) : Type 0 where
    gone : List ℕ
    expired : All (Expired (policy_window policy) now) gone
    split : history ≡ gone ++ requests
    limited : (t : ℕ) → in_window (policy_window policy) t history ≤ policy.limit

  -- The answers for a queue: a refusal, or a grant where there is room.
  data Answers (now : ℕ) (requests : List ℕ) : State D × Result → Type 0 where
    denies : (wait : ℕ) → Answers now requests (sliding_window_state requests, denied wait)
    grants :
        (left : ℕ)
        → length requests < policy.limit
        → Answers now requests (sliding_window_state (requests ++ now ∷ []), granted left)

  answers :
      (now : ℕ) (requests : List ℕ)
      → Answers now
          (pop_expired (policy_window policy) now requests)
          (acquire_sliding_window double policy now (sliding_window_state requests))
  unfolding acquire_sliding_window
  answers now requests =
      let left = pop_expired (policy_window policy) now requests in
      elim (Bool-cases (leb policy.limit (length left))) [
        | inl full ↦ rw full (denies _)
        | inr room ↦ rw room (grants _ (ground arith))
      ]

  Kept-pop :
      (from now : ℕ) (history requests : List ℕ)
      → from ≤ now
      → Kept from history requests
      → Kept now history (pop_expired (policy_window policy) now requests)
  Kept-pop from now history requests h k =
      let (gone, old, e) = popped (policy_window policy) now requests in
      record {
        gone = k.gone ++ gone;
        expired = All-append _ k.gone gone (All-map _ _ (λ g p. omega arith) k.gone k.expired) old;
        split = k.split ∙ ap (λ xs. k.gone ++ xs) e ∙ sym (append_assoc k.gone gone _);
        limited = k.limited;
      }

  grant_limited :
      (now : ℕ) (history requests : List ℕ) (t : ℕ)
      → length requests < policy.limit
      → Kept now history requests
      → in_window (policy_window policy) t (history ++ now ∷ []) ≤ policy.limit
  grant_limited now history requests t room k =
      let w = policy_window policy in
      let both = in_window-append w t history (now ∷ []) in
      elim (Bool-cases (leb now t)) [
        | inr before ↦
            let none_now : in_window w t (now ∷ []) ≡ 0 = rw before refl in
            omega (arith, both, none_now, k.limited t)
        | inl since ↦
            let one_now = in_window-le w t (now ∷ []) in
            let split = ap (in_window w t) k.split ∙ in_window-append w t k.gone requests in
            omega (
              arith,
              both,
              one_now,
              split,
              in_window-Expired w now t k.gone (ground arith) k.expired,
              in_window-le w t requests,
            )
      ]

  Kept-grant :
      (now : ℕ) (history requests : List ℕ)
      → length requests < policy.limit
      → Kept now history requests
      → Kept now (history ++ now ∷ []) (requests ++ now ∷ [])
  Kept-grant now history requests room k = record {
    gone = k.gone;
    expired = k.expired;
    split = ap (λ xs. xs ++ now ∷ []) k.split ∙ append_assoc k.gone requests (now ∷ []);
    limited = λ t. grant_limited now history requests t room k;
  }

  -- Whatever is granted later, the limit is kept, given what was granted before.
  abbrev Limited : List ℕ → ℕ → Type 0
  Limited times from =
      (history requests : List ℕ)
      → Kept from history requests
      → (t : ℕ)
      → in_window (policy_window policy) t (history ++ passed times (sliding_window_state requests))
        ≤ policy.limit

  follow : ℕ → List ℕ → State D × Result → List ℕ
  follow now times (s, r) = let more = passed times s in if r.allowed then now ∷ more else more

  one_step :
      (times : List ℕ) (now : ℕ) (history requests : List ℕ) (r : State D × Result)
      → Limited times now
      → Kept now history requests
      → (t : ℕ) → Answers now requests r
      → in_window (policy_window policy) t (history ++ follow now times r) ≤ policy.limit
  unfolding follow
  one_step times now history requests r ih k t (denies wait) = ih history requests k t
  one_step times now history requests r ih k t (grants left room) =
      rw
        (← append_assoc history (now ∷ [])
          (passed times (sliding_window_state (requests ++ now ∷ []))))
        (ih (history ++ now ∷ []) (requests ++ now ∷ []) (Kept-grant now history requests room k) t)

  passed-Limited : (times : List ℕ) (from last : ℕ) → Ordered from times last → Limited times from
  unfolding follow
  passed-Limited [] from last o history requests k t =
      omega (arith, in_window-append (policy_window policy) t history [], k.limited t)
  passed-Limited (now ∷ times) from last (h, o) history requests k t =
      one_step times now history _ _ (passed-Limited times now last o)
        (Kept-pop from now history requests h k) t (answers now requests)

  -- Of requests at times in order, to a new entry, no more are granted than the limit in any span of
  -- one window, wherever it ends.
  pub passed-le :
      (times : List ℕ) (first last t : ℕ)
      → Ordered first times last
      → in_window (policy_window policy) t (passed times (sliding_window_state [])) ≤ policy.limit
  passed-le times first last t o =
      passed-Limited times first last o [] []
        (record { gone = []; expired = tt; split = refl; limited = λ _. omega arith }) t
