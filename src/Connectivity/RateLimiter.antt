-- ===== src/Connectivity/RateLimiter.antt =====
-- okx/connectivity/rate_limiter: at most `capacity` requests in any window of time. The timestamps of
-- the requests granted lie in a ring. A clock reading is a number; `timestamps_[head_] < now - window_`
-- is written with the window on the left, since the difference of two readings may be negative.
pub mod Window
pub mod Limit
use cpp_trading_engine.Base.{
  ℕ, zero, suc, ◌+◌, ◌%◌, Bool, true, false, List, if◌then◌else◌, ltb, leb, get_elem?, set,
  replicate, Text, text_eq, Result, ok, err, ◌>>=◌, or_throw, out_of_bounds, unknown_op,
}
use cpp_trading_engine.Base.Effects.{Effect}
use cpp_trading_engine.Constants.{order_op, cancel_order_op, amend_order_op}

pub record SlidingWindowLimiter : Type 0 where
  pub capacity : ℕ
  pub window : ℕ
  pub timestamps : List ℕ
  pub head : ℕ
  pub count : ℕ

-- The constructor, with the clock's zero in every slot
unfoldable pub make_limiter : ℕ → ℕ → SlidingWindowLimiter
make_limiter capacity window = record {
  capacity = capacity;
  window = window;
  timestamps = replicate capacity 0;
  head = 0;
  count = 0;
}

-- The first loop of `TryAcquire`: `left` is the number of timestamps, which it counts down.
unfoldable pub expire : ℕ → ℕ → SlidingWindowLimiter → Result SlidingWindowLimiter
expire now zero l = ok l
expire now (suc left) l =
    let rest = expire now left (record l { head = (l.head + 1) % l.capacity; count = left }) in
    (or_throw out_of_bounds (get_elem? l.timestamps l.head)) >>= λ timestamp.
    if ltb (timestamp + l.window) now then rest else ok l

abbrev pub grant : ℕ → SlidingWindowLimiter → SlidingWindowLimiter × Bool
grant now l = if leb l.capacity l.count then (l, false) else (
  record l {
    timestamps = set l.timestamps ((l.head + l.count) % l.capacity) now;
    count = l.count + 1;
  },
  true,
)

-- `SlidingWindowLimiter::TryAcquire`, when the clock reads `now`
unfoldable pub try_acquire : ℕ → SlidingWindowLimiter → Result (SlidingWindowLimiter × Bool)
unfolding expire
try_acquire now l = (expire now l.count l) >>= λ fresh. ok (grant now fresh)

pub record EndpointRateLimiter : Type 0 where
  pub order_limiter : SlidingWindowLimiter
  pub cancel_limiter : SlidingWindowLimiter
  pub amend_limiter : SlidingWindowLimiter

abbrev pub put_answer :
    (SlidingWindowLimiter → EndpointRateLimiter)
    → EndpointRateLimiter
    → Result (SlidingWindowLimiter × Bool)
    → EndpointRateLimiter × Result Bool
put_answer put e (ok (l, granted)) = (put l, ok granted)
put_answer put e (err x) = (e, err x)

-- `EndpointRateLimiter::TryAcquire`
unfoldable pub try_acquire_op : ℕ → Text → Effect EndpointRateLimiter Bool
unfolding try_acquire
try_acquire_op now op e =
    if text_eq op order_op
    then put_answer (λ l. record e { order_limiter = l }) e (try_acquire now e.order_limiter)
    else (if text_eq op cancel_order_op
        then put_answer (λ l. record e { cancel_limiter = l }) e (try_acquire now e.cancel_limiter)
        else (if text_eq op amend_order_op
            then put_answer (λ l. record e { amend_limiter = l }) e
                (try_acquire now e.amend_limiter)
            else (e, err unknown_op)))
