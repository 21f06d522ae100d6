-- ===== src/Connectivity/Tests.antt =====
-- A limiter of two requests in ten units of time.
use cpp_trading_engine.Base.{ℕ, ◌≡◌, refl, true, List, [], ◌∷◌, ok, arith}
use cpp_trading_engine.Connectivity.RateLimiter.{SlidingWindowLimiter, make_limiter, try_acquire}
use cpp_trading_engine.Connectivity.RateLimiter.Window.{
  request_in, drop_old, Answers, Limits, make_limiter-Limits, try_acquire-request_in,
}
use cpp_trading_engine.Connectivity.RateLimiter.Limit.{Spaced, granted_times, granted_times-Spaced}

abbrev times : List ℕ
times = 1 ∷ 2 ∷ 3 ∷ 12 ∷ 13 ∷ []

grants_in_turn : granted_times times (make_limiter 2 10) ≡ ok (1 ∷ 2 ∷ 12 ∷ 13 ∷ [])
unfolding granted_times make_limiter
grants_in_turn = refl

first_request : Answers 2 10 5 (request_in 2 10 5 []) (try_acquire 5 (make_limiter 2 10))
first_request =
    try_acquire-request_in 2 10 5 [] (make_limiter 2 10) (make_limiter-Limits 2 10 (omega arith))

first_granted :
    (q : SlidingWindowLimiter) × (try_acquire 5 (make_limiter 2 10) ≡ ok (q, true))
    × Limits 2 10 (5 ∷ []) q
unfolding drop_old
first_granted = first_request

try_acquire-request_in_example :
    Answers 2 10 20 (request_in 2 10 20 (5 ∷ [])) (try_acquire 20 first_granted.0)
try_acquire-request_in_example =
    try_acquire-request_in 2 10 20 (5 ∷ []) first_granted.0 first_granted.2

granted_times-Spaced_example :
    (gs : List ℕ) × (granted_times times (make_limiter 2 10) ≡ ok gs) × Spaced 2 10 gs
granted_times-Spaced_example =
    granted_times-Spaced 2 10 times (omega arith)
      (omega arith, (omega arith, (omega arith, (omega arith, (omega arith, tt)))))
