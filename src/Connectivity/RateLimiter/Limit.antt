-- ===== src/Connectivity/RateLimiter/Limit.antt =====
-- What the limiter is for: however often it is asked, no window of time holds more than `capacity`
-- requests that were granted.
use cpp_trading_engine.Base.{
  ℕ, zero, suc, ◌+◌, ◌≡◌, ◌≤◌, ◌<◌, refl, sym, subst, Bool, true, false, Bool-cases, List, [], ◌∷◌,
  ◌++◌, some, if◌then◌else◌, ltb, leb, length, get_elem?, Result, ok, ◌>>=◌, arith, inl, inr, All,
  append_assoc, append-nil, lt-length_of_get, some_inj,
}
use cpp_trading_engine.Connectivity.RateLimiter.{SlidingWindowLimiter, make_limiter, try_acquire}
use cpp_trading_engine.Connectivity.RateLimiter.Window.{
  drop_old, Limits, make_limiter-Limits, try_acquire-request_in,
}

abbrev note : ℕ → Bool → List ℕ → List ℕ
note now granted later = if granted then now ∷ later else later

-- The times of the requests that are granted, of requests made at the given times.
unfoldable pub granted_times : List ℕ → SlidingWindowLimiter → Result (List ℕ)
unfolding try_acquire
granted_times [] l = ok []
granted_times (now ∷ times) l = (try_acquire now l) >>= λ answer.
    (granted_times times answer.0) >>= λ later. ok (note now answer.1 later)

-- Times that never go back, from `since` on.
abbrev pub Ascends : ℕ → List ℕ → Type 0
Ascends since [] = Unit
Ascends since (t ∷ ts) = (since ≤ t) × Ascends t ts

-- Of any `capacity + 1` times in a row the last is more than the window after the first.
abbrev pub Spaced : ℕ → ℕ → List ℕ → Type 0
Spaced capacity window ts =
    (i t u : ℕ) → get_elem? ts i ≡ some t → get_elem? ts (i + capacity) ≡ some u → t + window < u

module _ (capacity window : ℕ) where
  cons-Spaced :
      (t : ℕ) (ts : List ℕ)
      → ((u : ℕ) → get_elem? (t ∷ ts) capacity ≡ some u → t + window < u)
      → Spaced capacity window ts
      → Spaced capacity window (t ∷ ts)
  cons-Spaced t ts h s zero x u e f =
      subst (λ y. y + window < u) (some_inj t x e)
        (h u (subst (λ i. get_elem? (t ∷ ts) i ≡ some u) (omega arith) f))
  cons-Spaced t ts h s (suc i) x u e f =
      s i x u e (subst (λ j. get_elem? (t ∷ ts) j ≡ some u) (the_index i) f)
    where
      the_index : (i : ℕ) → suc i + capacity ≡ suc (i + capacity)
      the_index i = omega arith

  short-Spaced : (ts : List ℕ) → length ts ≤ capacity → Spaced capacity window ts
  short-Spaced ts h i t u e f = absurd (omega (arith, lt-length_of_get ts (i + capacity) u f))

get_past :
    (least : ℕ) (xs zs : List ℕ) (i u : ℕ)
    → All (λ z. least ≤ z) zs
    → length xs ≤ i
    → get_elem? (xs ++ zs) i ≡ some u
    → least ≤ u
get_past least [] [] i u a h e = cc
get_past least [] (z ∷ zs) zero u a h e = subst (λ y. least ≤ y) (some_inj z u e) a.0
get_past least [] (z ∷ zs) (suc i) u a h e = get_past least [] zs i u a.1 (omega arith) e
get_past least (x ∷ xs) zs zero u a h e = absurd (omega arith)
get_past least (x ∷ xs) zs (suc i) u a h e = get_past least xs zs i u a (omega arith) e

module _ (capacity window now : ℕ) where
  -- Timestamps that are dropped keep their distance to all that comes.
  restore-Spaced :
      (ts zs : List ℕ)
      → length ts ≤ capacity
      → All (λ z. now ≤ z) zs
      → Spaced capacity window (drop_old window now ts ++ zs)
      → Spaced capacity window (ts ++ zs)
  unfolding drop_old
  restore-Spaced [] zs h a s = s
  restore-Spaced (t ∷ ts) zs h a s = elim (Bool-cases (ltb (t + window) now)) [
    | inr e ↦ rw e at s
    | inl e ↦
        cons-Spaced capacity window t (ts ++ zs)
          (λ u f.
            let least = get_past now (t ∷ ts) zs capacity u a h f in
            let early : t + window < now = ground arith in omega arith)
          (restore-Spaced ts zs (omega arith) a (rw e at s))
  ]

loosen : (a b : ℕ) (zs : List ℕ) → a ≤ b → All (λ z. b ≤ z) zs → All (λ z. a ≤ z) zs
loosen a b [] h k = tt
loosen a b (z ∷ zs) h k = (omega (arith, h, k.0), loosen a b zs h k.1)

module _ (capacity window : ℕ) where
  -- The times granted, and with the timestamps held they are spaced.
  abbrev Granted : ℕ → List ℕ → Result (List ℕ) → Type 0
  Granted since ts r =
      (gs : List ℕ) × (r ≡ ok gs) × All (λ g. since ≤ g) gs × Spaced capacity window (ts ++ gs)

  granted_times-Granted :
      (times : List ℕ) (since : ℕ) (ts : List ℕ) (l : SlidingWindowLimiter)
      → Limits capacity window ts l
      → Ascends since times
      → Granted since ts (granted_times times l)
  unfolding granted_times
  granted_times-Granted [] since ts l v h = (
    [],
    refl,
    tt,
    subst (Spaced capacity window) (sym (append-nil ts))
        (short-Spaced capacity window ts v.ring.within),
  )
  granted_times-Granted (now ∷ times) since ts l v h =
      let kept = drop_old window now ts in
      let answers = try_acquire-request_in capacity window now ts l v in
      elim (Bool-cases (leb capacity (length kept))) [
        | inl e ↦
            let (q, f, w) : Answered kept false = rw e at answers in
            let (gs, g, a, s) = granted_times-Granted times now kept q w h.1 in
            rw (f, g)
              (
                gs,
                refl,
                loosen since now gs h.0 a,
                restore-Spaced capacity window now ts gs v.ring.within a s,
              )
        | inr e ↦
            let (q, f, w) : Answered (kept ++ (now ∷ [])) true = rw e at answers in
            let (gs, g, a, s) = granted_times-Granted times now (kept ++ (now ∷ [])) q w h.1 in
            rw (f, g)
              (
                now ∷ gs,
                refl,
                (h.0, loosen since now gs h.0 a),
                restore-Spaced capacity window now ts (now ∷ gs) v.ring.within (omega arith, a)
                    (subst (Spaced capacity window) (append_assoc kept (now ∷ []) gs) s),
              )
      ]
    where
      Answered : List ℕ → Bool → Type 0
      Answered held granted =
          (q : SlidingWindowLimiter) × (try_acquire now l ≡ ok (q, granted))
          × Limits capacity window held q

  -- A new limiter answers every sequence of requests whose times never go back, and of any
  -- `capacity + 1` requests in a row that it grants, the last is more than the window after the first.
  pub granted_times-Spaced :
      (times : List ℕ)
      → 0 < capacity
      → Ascends 0 times
      → (gs : List ℕ) × (granted_times times (make_limiter capacity window) ≡ ok gs)
        × Spaced capacity window gs
  granted_times-Spaced times h k =
      let (gs, e, a, s) =
        granted_times-Granted times 0 [] (make_limiter capacity window)
          (make_limiter-Limits capacity window h) k in
      (gs, e, s)
