-- ===== src/Orders/Timeout.antt =====
-- okx/orders/order_timeout_monitor.cpp: `CheckAndResolve`. The clock counts milliseconds; what the REST
-- call for the pending orders answers, or throws, is an argument.
use cpp_trading_engine.Base.{
  ℕ, ◌+◌, ◌≡◌, refl, Bool, false, Bool-cases, ◌&&◌, ◌||◌, inl, inr, List, [], ◌∷◌, if◌then◌else◌,
  ltb, Text, Result, Result-cases, Error, ok, err, arith, ◌⊎◌, ◌<◌, true,
}
use cpp_trading_engine.Base.Effects.{Effect}
use cpp_trading_engine.Orders.Lifecycle.{Order, is_pending}
use cpp_trading_engine.Orders.Store.{OrderStore, all_orders}
use cpp_trading_engine.Orders.Store.View.{Stores, all_orders-list}
use cpp_trading_engine.Orders.Reconcile.{reconcile_orders}

-- `kOrderUnacknowledgedTimeout`
abbrev pub unacknowledged_timeout : ℕ
unacknowledged_timeout = 5000

unfoldable pub has_timed_out : ℕ → Order → Bool
unfolding is_pending
has_timed_out now order =
    is_pending order.state && ltb (order.pending_since + unacknowledged_timeout) now

unfoldable pub any_timed_out : ℕ → List Order → Bool
unfolding has_timed_out
any_timed_out now [] = false
any_timed_out now (x ∷ xs) = has_timed_out now x || any_timed_out now xs

abbrev resolve : ℕ → Result Text → Effect OrderStore (List Text)
resolve now (ok response) s = reconcile_orders now response s
resolve now (err e) s = (s, err e)

abbrev check_orders : ℕ → Result Text → Result (List Order) → Effect OrderStore (List Text)
check_orders now pending (err e) s = (s, err e)
check_orders now pending (ok orders) s =
    if any_timed_out now orders then resolve now pending s else (s, ok [])

-- `CheckAndResolve`; the result is the ids that the removal listener is told.
unfoldable pub check_and_resolve : ℕ → Result Text → Effect OrderStore (List Text)
unfolding any_timed_out reconcile_orders all_orders
check_and_resolve now pending s = check_orders now pending (all_orders s) s

-- A request for the order is in flight, and has been for longer than the timeout.
abbrev pub IsOverdue : ℕ → Order → Type 0
IsOverdue now order = (is_pending order.state ≡ true) × (order.pending_since + 5000 < now)

abbrev pub AnyOverdue : ℕ → List Order → Type 0
AnyOverdue now [] = ⊥
AnyOverdue now (x ∷ xs) = IsOverdue now x ⊎ AnyOverdue now xs

has_timed_out-IsOverdue :
    (now : ℕ) (order : Order) → has_timed_out now order ≡ true → IsOverdue now order
unfolding has_timed_out
has_timed_out-IsOverdue now order h = (ground arith, ground arith)

not_timed_out-IsOverdue :
    (now : ℕ) (order : Order) → has_timed_out now order ≡ false → ¬ IsOverdue now order
unfolding has_timed_out
not_timed_out-IsOverdue now order h (p, q) =
    let late : ltb (order.pending_since + 5000) now ≡ true = ground arith in cc

any_timed_out-AnyOverdue :
    (now : ℕ) (xs : List Order) → any_timed_out now xs ≡ true → AnyOverdue now xs
unfolding any_timed_out
any_timed_out-AnyOverdue now [] h = cc
any_timed_out-AnyOverdue now (x ∷ xs) h = elim (Bool-cases (has_timed_out now x)) [
  | inl e ↦ inl (has_timed_out-IsOverdue now x e)
  | inr e ↦ inr (any_timed_out-AnyOverdue now xs (ground arith))
]

none_timed_out-AnyOverdue :
    (now : ℕ) (xs : List Order) → any_timed_out now xs ≡ false → ¬ AnyOverdue now xs
unfolding any_timed_out
none_timed_out-AnyOverdue now [] h k = k
none_timed_out-AnyOverdue now (x ∷ xs) h (inl k) = not_timed_out-IsOverdue now x (ground arith) k
none_timed_out-AnyOverdue now (x ∷ xs) h (inr k) = none_timed_out-AnyOverdue now xs (ground arith) k

-- Either no request has been in flight for more than five seconds, and nothing is done; or one has, and
-- the call is that of the reconciliation with the exchange's answer, or throws what asking for it
-- throws and leaves the store as it is.
pub check_and_resolve-reconciles :
    (now : ℕ) (pending : Result Text) (xs : List Order) (s : OrderStore)
    → Stores xs s
    → ((¬ AnyOverdue now xs) × (check_and_resolve now pending s ≡ (s, ok [])))
      ⊎ (AnyOverdue now xs
          × (((response : Text) × (pending ≡ ok response)
                × (check_and_resolve now pending s ≡ reconcile_orders now response s))
              ⊎ ((e : Error) × (pending ≡ err e) × (check_and_resolve now pending s ≡ (s, err e)))))
unfolding check_and_resolve
check_and_resolve-reconciles now pending xs s v = elim (Bool-cases (any_timed_out now xs)) [
  | inr e ↦ rw (all_orders-list xs s v, e) (inl (none_timed_out-AnyOverdue now xs e, refl))
  | inl e ↦ elim (Result-cases pending) [
    | inl (response, p) ↦
        rw (all_orders-list xs s v, e, p)
          (inr (any_timed_out-AnyOverdue now xs e, inl (response, refl, refl)))
    | inr (x, p) ↦
        rw (all_orders-list xs s v, e, p)
          (inr (any_timed_out-AnyOverdue now xs e, inr (x, refl, refl)))
  ]
]
