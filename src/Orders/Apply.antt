-- ===== src/Orders/Apply.antt =====
-- okx/orders/ws_order_round_trip.cpp: `ApplyOrderEvent`, through which every event of the "orders"
-- channel reaches the store. The result is the id that the removal listener is told, if it is.
pub mod Laws
use cpp_trading_engine.Base.{
  ℕ, Bool, true, false, Option, none, some, if◌then◌else◌, Text, Result, ok, err,
}
use cpp_trading_engine.Base.Effects.{Effect}
use cpp_trading_engine.Orders.Events.{OrderEvent}
use cpp_trading_engine.Orders.Lifecycle.{Order, apply_event, is_terminal}
use cpp_trading_engine.Orders.Store.{OrderStore, find_by_cl_ord_id, at, write, remove}

abbrev removed : OrderStore → Result (OrderStore × Option Text) → OrderStore × Result (Option Text)
removed s (err e) = (s, err e)
removed s (ok (q, notice)) = (q, ok notice)

-- What follows `order->ApplyEvent(event)`, which has changed the order in its slot.
unfoldable pub settle :
    OrderStore → ℕ → Order × Result (Unit {0}) → OrderStore × Result (Option Text)
settle s i (order, err e) = (write s i order, err e)
settle s i (order, ok done) =
    let t = write s i order in
    if is_terminal order.state then removed t (remove t order.cl_ord_id) else (t, ok none)

abbrev apply_at :
    {V : Type 0} → OrderEvent V → OrderStore → ℕ → Result Order → OrderStore × Result (Option Text)
apply_at event s i (err e) = (s, err e)
apply_at event s i (ok order) = settle s i (apply_event event order)

abbrev apply_found :
    {V : Type 0} → OrderEvent V → OrderStore → Result (Option ℕ) → OrderStore × Result (Option Text)
apply_found event s (err e) = (s, err e)
apply_found event s (ok none) = (s, ok none)
apply_found event s (ok (some i)) = apply_at event s i (at s i)

unfoldable pub apply_order_event : {V : Type 0} → OrderEvent V → Effect OrderStore (Option Text)
unfolding settle
apply_order_event event s = apply_found event s (find_by_cl_ord_id s event.cl_ord_id)
