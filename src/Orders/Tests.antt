-- ===== src/Orders/Tests.antt =====
-- Orders, a store of two and a response of the exchange, as concrete inputs.
use cpp_trading_engine.Base.{
  ℕ, ◌≡◌, ◌≢◌, ◌⊎◌, ◌≤◌, ◌<◌, refl, inl, inr, true, none, List, [], ◌∷◌, Text, codes, text_lt, ok,
  err, bad_transition, All, arith,
}
use cpp_trading_engine.Base.Int.{ℤ}
use cpp_trading_engine.Orders.Events.{OrderEventType, partial_fill, fill, OrderEvent}
use cpp_trading_engine.Orders.Lifecycle.{
  OrderState, new, partially_filled, canceled, pending_cancel, pending_amend, Order, is_terminal,
  apply_event, on_cancel_requested, on_amend_requested, on_request_rejected, make_order,
}
use cpp_trading_engine.Orders.Lifecycle.Laws.{
  request-rejected_restores, IsValid, rejection_after_partial_fill_throws,
}
use cpp_trading_engine.Orders.Lifecycle.Runs.{
  Call, event, cancel_requested, request_rejected, step, run, ◌⟶◌, step-⟶, run-make_order,
  SameOrder,
}
use cpp_trading_engine.Orders.Requests.{generate_id}
use cpp_trading_engine.Orders.Requests.Ids.{AllDistinct, ids_from, last_from, ids_from-AllDistinct}
use cpp_trading_engine.Orders.RestOrders.{parse_order_result}
use cpp_trading_engine.Base.{text_eq, Error}
use cpp_trading_engine.Orders.Store.{
  OrderStore, empty_store, capacity, add_order, find_by_cl_ord_id, remove,
}
use cpp_trading_engine.Orders.Store.Spec.{insert_order}
use cpp_trading_engine.Orders.Store.View.{Stores}
use cpp_trading_engine.Orders.Store.Refine.{
  add_order-insert_order, Points, find_by_cl_ord_id-Points, Removes, remove-remove_order,
  empty_store-Stores,
}
use cpp_trading_engine.Orders.Apply.{apply_order_event}
use cpp_trading_engine.Orders.Apply.Laws.{
  settled, answer, IsLive, apply_order_event-settled, apply_order_event-IsLive,
}
use cpp_trading_engine.Orders.Reconcile.{adopt_all, reconcile_orders}
use cpp_trading_engine.Orders.Reconcile.Laws.{
  reported_ids, Reconciled, Thrown, reconcile_orders-Reconciled,
}
use cpp_trading_engine.Orders.Timeout.{AnyOverdue, check_and_resolve, check_and_resolve-reconciles}
use cpp_trading_engine.Orders.RoundTrip.{RoundTrip}
use cpp_trading_engine.Orders.RoundTrip.Sound.{
  Kept, round_trip_run, round_trip_run-Kept, amended, canceled,
}
use cpp_trading_engine.Orders.RoundTrip.Sound

abbrev order_in : OrderState → Text → Order
order_in s id = record {
  ord_id = codes "7";
  cl_ord_id = id;
  inst_id = codes "BTC-USDT";
  side = codes "buy";
  px = codes "100";
  sz = codes "2";
  acc_fill_sz = codes "";
  avg_px = codes "";
  state = s;
  pre_pending_state = new;
  pending_since = 10;
}

abbrev event_of : OrderEventType → Text → OrderEvent ℤ
event_of t id = record {
  type = t;
  ord_id = codes "7";
  cl_ord_id = id;
  inst_id = codes "BTC-USDT";
  side = codes "buy";
  px = codes "101";
  sz = codes "2";
  acc_fill_sz = codes "1";
  avg_px = codes "101";
  fill_data = none;
}

request-rejected_restores_example :
    let o = order_in partially_filled (codes "a") in
    (on_request_rejected (on_cancel_requested 20 o).0
      ≡ (record o { pre_pending_state = o.state; pending_since = 20 }, ok tt))
    × (on_request_rejected (on_amend_requested 20 o).0
        ≡ (record o { pre_pending_state = o.state; pending_since = 20 }, ok tt))
request-rejected_restores_example =
    request-rejected_restores 20 (order_in partially_filled (codes "a")) (inr (inr refl))

rejection_after_partial_fill_throws_example :
    let o = order_in pending_cancel (codes "a") in
    let e = event_of partial_fill (codes "a") in
    ((apply_event e o).1 ≡ ok tt)
    × (on_request_rejected (apply_event e o).0 ≡ ((apply_event e o).0, err bad_transition))
rejection_after_partial_fill_throws_example =
    rejection_after_partial_fill_throws (event_of partial_fill (codes "a"))
      (order_in pending_cancel (codes "a")) refl (inl refl)

step-⟶_example :
    pending_amend ⟶ (step {V = ℤ} request_rejected (order_in pending_amend (codes "a"))).0.state
unfolding step on_request_rejected
step-⟶_example =
    step-⟶ {V = ℤ} request_rejected (order_in pending_amend (codes "a"))
      (record { resting = inr (inl refl) }) refl

abbrev calls : List (Call ℤ)
calls = event (event_of partial_fill (codes "a")) ∷ cancel_requested 20 ∷ request_rejected ∷ []

run-make_order_example :
    let o = make_order 5 (codes "a") (codes "BTC-USDT") (codes "buy") (codes "100") (codes "2") in
    IsValid (run calls o) × SameOrder o (run calls o)
run-make_order_example =
    run-make_order calls 5 (codes "a") (codes "BTC-USDT") (codes "buy") (codes "100") (codes "2")

abbrev first_order : Order
first_order = order_in new (codes "b")

abbrev second_order : Order
second_order = order_in pending_cancel (codes "a")

room : (n : ℕ) → n ≤ 2 → n < capacity
unfolding capacity
room n h = omega arith

add_order-insert_order_example :
    (q : OrderStore) × (add_order empty_store first_order ≡ ok q)
    × Stores (insert_order first_order []) q
add_order-insert_order_example =
    add_order-insert_order [] empty_store first_order empty_store-Stores (room 0 (omega arith))

added_first :
    (q : OrderStore) × (add_order empty_store first_order ≡ ok q) × Stores (first_order ∷ []) q
unfolding insert_order
added_first =
    add_order-insert_order [] empty_store first_order empty_store-Stores (room 0 (omega arith))

added_second :
    (q : OrderStore) × (add_order added_first.0 second_order ≡ ok q)
    × Stores (second_order ∷ first_order ∷ []) q
unfolding insert_order text_lt
added_second =
    add_order-insert_order (first_order ∷ []) added_first.0 second_order added_first.2
      (room 1 (omega arith))

-- The store after both.
abbrev orders : List Order
orders = second_order ∷ first_order ∷ []

abbrev both : OrderStore
both = added_second.0

both-Stores : Stores orders both
both-Stores = added_second.2

find_by_cl_ord_id-Points_example :
    Points orders both (codes "b") (find_by_cl_ord_id both (codes "b"))
find_by_cl_ord_id-Points_example = find_by_cl_ord_id-Points orders both (codes "b") both-Stores

remove-remove_order_example : Removes orders (codes "a") (remove both (codes "a"))
remove-remove_order_example = remove-remove_order orders both (codes "a") both-Stores

apply_order_event-settled_example :
    let (q, r) = apply_order_event (event_of fill (codes "b")) both in
    Stores (settled (event_of fill (codes "b")) orders) q
    × (r ≡ answer (event_of fill (codes "b")) orders)
apply_order_event-settled_example =
    apply_order_event-settled (event_of fill (codes "b")) orders both both-Stores

orders-IsLive : All IsLive orders
unfolding is_terminal
orders-IsLive = (refl, (refl, tt))

apply_order_event-IsLive_example :
    let (q, r) = apply_order_event (event_of fill (codes "b")) both in
    (ys : List Order) × Stores ys q × All IsLive ys × (r ≢ err bad_transition)
apply_order_event-IsLive_example =
    apply_order_event-IsLive (event_of fill (codes "b")) orders both both-Stores orders-IsLive

abbrev response : Text
response = codes "{\"data\":[{\"clOrdId\":\"c\",\"ordId\":\"9\",\"state\":\"live\",\"px\":\"5\"}]}"

reconcile_orders-Reconciled_example :
    let first = (adopt_all 50 response both).1 in
    ((first ≡ ok tt)
      × Reconciled (reported_ids response) orders (reconcile_orders 50 response both))
    ⊎ Thrown first (reconcile_orders 50 response both)
reconcile_orders-Reconciled_example =
    reconcile_orders-Reconciled 50 response orders both both-Stores orders-IsLive

check_and_resolve-reconciles_example :
    ((¬ AnyOverdue 6000 orders) × (check_and_resolve 6000 (ok response) both ≡ (both, ok [])))
    ⊎ (AnyOverdue 6000 orders
        × (((answer : Text) × (ok response ≡ ok answer)
              × (check_and_resolve 6000 (ok response) both ≡ reconcile_orders 6000 answer both))
            ⊎ ((e : Error) × (ok response ≡ err e)
                × (check_and_resolve 6000 (ok response) both ≡ (both, err e)))))
check_and_resolve-reconciles_example =
    check_and_resolve-reconciles 6000 (ok response) orders both both-Stores

abbrev trip : RoundTrip
trip = record { ord_id = codes "7"; cl_ord_id = codes "b"; order_store = both; actions = [] }

abbrev trip_calls : List (Sound.Call ℤ)
trip_calls = amended true 20 (codes "n") (codes "{}") ∷ canceled (codes "{}") ∷ []

round_trip_run-Kept_example : Kept (round_trip_run trip_calls trip)
round_trip_run-Kept_example = round_trip_run-Kept trip_calls trip (orders, both-Stores)

-- The clock goes back from 12 to 3.
ids_from-AllDistinct_example : AllDistinct (ids_from 5 (12 ∷ 3 ∷ []))
unfolding last_from generate_id
ids_from-AllDistinct_example = ids_from-AllDistinct 5 (12 ∷ 3 ∷ []) (omega arith)

abbrev accepted_response : Text
accepted_response = codes "{\"code\":\"0\",\"data\":[{\"ordId\":\"77\",\"sCode\":\"0\"}]}"

order_placed : (parse_order_result accepted_response).accepted ≡ true
unfolding parse_order_result text_eq
order_placed = refl
