-- ===== src/Connectivity/RateLimiter/Window.antt =====
-- The limiter as the list of the timestamps it holds, oldest first: a request drops those that have
-- left the window from the front, and is granted and recorded at the back if there is room.
use cpp_trading_engine.Base.{
  ℕ, ◌+◌, ◌%◌, ◌≡◌, ◌<◌, refl, sym, ap, ap₂, ◌∙◌, subst, Bool, true, false, Bool-cases, List, [],
  ◌∷◌, ◌++◌, some, if◌then◌else◌, ltb, leb, length, get_elem?, set, Result, ok, arith, inl, inr,
  length-append, length-replicate,
}
use cpp_trading_engine.Base.Wrap.{Wraps, push-Wraps, pop-Wraps}
use cpp_trading_engine.Connectivity.RateLimiter.{
  SlidingWindowLimiter, make_limiter, expire, grant, try_acquire,
}
use native.Mathlib.Nat.{mod-eq_of_lt}

-- A list of timestamps without those that have left the window.
unfoldable pub drop_old : ℕ → ℕ → List ℕ → List ℕ
drop_old window now [] = []
drop_old window now (t ∷ ts) =
    let rest = drop_old window now ts in if ltb (t + window) now then rest else t ∷ ts

-- The timestamps after a request, and whether it is granted.
abbrev pub request_in : ℕ → ℕ → ℕ → List ℕ → List ℕ × Bool
request_in capacity window now ts =
    let kept = drop_old window now ts in
    if leb capacity (length kept) then (kept, false) else (kept ++ (now ∷ []), true)

-- A limiter of this capacity and window that holds a list.
pub record Limits (capacity window : ℕ) (ts : List ℕ) (l : SlidingWindowLimiter) : Type 0 where
  pub same_capacity : l.capacity ≡ capacity
  pub same_window : l.window ≡ window
  pub counted : l.count ≡ length ts
  pub ring : Wraps capacity l.head ts l.timestamps

pub make_limiter-Limits :
    (capacity window : ℕ) → 0 < capacity → Limits capacity window [] (make_limiter capacity window)
unfolding make_limiter
make_limiter-Limits capacity window h = record {
  same_capacity = refl;
  same_window = refl;
  counted = refl;
  ring = record {
    storage = length-replicate {A = ℕ} capacity 0;
    starts = h;
    within = omega arith;
    held = λ i x e. cc;
  };
}

front :
    (capacity start : ℕ) (t : ℕ) (ts slots : List ℕ)
    → Wraps capacity start (t ∷ ts) slots
    → get_elem? slots start ≡ some t
front capacity start t ts slots w =
    let e : (start + 0) % capacity ≡ start =
      ap (λ x. x % capacity) (omega arith) ∙ mod-eq_of_lt w.starts in
    subst (λ i. get_elem? slots i ≡ some t) e (w.held 0 t refl)

module _ (capacity window now : ℕ) where
  abbrev Expired : List ℕ → Result SlidingWindowLimiter → Type 0
  Expired ts r = (q : SlidingWindowLimiter) × (r ≡ ok q) × Limits capacity window ts q

  expire-Limits :
      (ts : List ℕ) (l : SlidingWindowLimiter)
      → Limits capacity window ts l
      → Expired (drop_old window now ts) (expire now (length ts) l)
  unfolding expire drop_old
  expire-Limits [] l v = (l, refl, v)
  expire-Limits (t ∷ ts) l v = elim (Bool-cases (ltb (t + window) now)) [
    | inr e ↦
        let f : ltb (t + l.window) now ≡ false = rw v.same_window e in
        rw (front capacity l.head t ts l.timestamps v.ring, f, e) (l, refl, v)
    | inl e ↦
        let f : ltb (t + l.window) now ≡ true = rw v.same_window e in
        rw (front capacity l.head t ts l.timestamps v.ring, f, e)
          (expire-Limits ts (record l { head = (l.head + 1) % l.capacity; count = length ts })
            (record {
              same_capacity = v.same_capacity;
              same_window = v.same_window;
              counted = refl;
              ring =
                  subst (λ c. Wraps capacity ((l.head + 1) % c) ts l.timestamps)
                    (sym v.same_capacity) (pop-Wraps t ts l.timestamps v.ring);
            }))
  ]

  -- The limiter and the answer after a request, where the list says what they are.
  abbrev pub Answers : List ℕ × Bool → Result (SlidingWindowLimiter × Bool) → Type 0
  Answers expected r =
      (q : SlidingWindowLimiter) × (r ≡ ok (q, expected.1)) × Limits capacity window expected.0 q

  grant-Limits :
      (ts : List ℕ) (l : SlidingWindowLimiter)
      → Limits capacity window ts l
      → Answers
          (if leb capacity (length ts) then (ts, false) else (ts ++ (now ∷ []), true))
          (ok (grant now l))
  grant-Limits ts l v = elim (Bool-cases (leb capacity (length ts))) [
    | inl e ↦
        let f : leb l.capacity l.count ≡ true = rw (v.same_capacity, v.counted) e in
        rw (e, f) (l, refl, v)
    | inr e ↦
        let room : length ts < capacity = ground arith in
        let f : leb l.capacity l.count ≡ false = rw (v.same_capacity, v.counted) e in
        rw (e, f)
          (
            record l {
              timestamps = set l.timestamps ((l.head + l.count) % l.capacity) now;
              count = l.count + 1;
            },
            refl,
            record {
              same_capacity = v.same_capacity;
              same_window = v.same_window;
              counted = ap (λ n. n + 1) v.counted ∙ sym (length-append ts (now ∷ []));
              ring =
                  subst (λ i. Wraps capacity l.head (ts ++ (now ∷ [])) (set l.timestamps i now))
                    (ap₂ (λ n c. (l.head + n) % c) (sym v.counted) (sym v.same_capacity))
                    (push-Wraps ts l.timestamps now v.ring room);
            },
          )
  ]

  -- `TryAcquire` on a limiter that holds a list succeeds, stays inside the ring, and answers and
  -- records what the list says.
  pub try_acquire-request_in :
      (ts : List ℕ) (l : SlidingWindowLimiter)
      → Limits capacity window ts l
      → Answers (request_in capacity window now ts) (try_acquire now l)
  unfolding try_acquire
  try_acquire-request_in ts l v =
      let (q, e, w) = expire-Limits ts l v in
      let k : expire now l.count l ≡ ok q = ap (λ n. expire now n l) v.counted ∙ e in
      rw k (grant-Limits (drop_old window now ts) q w)
