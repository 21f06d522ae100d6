-- ===== src/Orders/RoundTrip/Sound.antt =====
-- okx/orders/ws_order_round_trip.cpp: the round trip's calls and the order of the store.
use cpp_trading_engine.Base.{
  ℕ, ◌≡◌, Bool, true, false, Bool-cases, Option, none, some, inl, inr, List, [], ◌∷◌, set, length,
  leb, get_elem?, Text, text_eq, Result, ok, err, arith,
}
use cpp_trading_engine.Base.Effects.{resume}
use cpp_trading_engine.Constants.{market_type, ord_id_key}
use cpp_trading_engine.Json.Fields.{find_string, find_data, bind_option}
use cpp_trading_engine.Json.Rules.{Outcome, resume-Outcome}
use cpp_trading_engine.Orders.Events.{OrderEvent}
use cpp_trading_engine.Orders.Lifecycle.{
  Order, make_order, on_cancel_requested, on_amend_requested, on_request_rejected,
}
use cpp_trading_engine.Orders.Store.{capacity, find_by_cl_ord_id, write, add}
use cpp_trading_engine.Orders.Store.Spec.{insert_order}
use cpp_trading_engine.Orders.Store.View.{Stores}
use cpp_trading_engine.Orders.Store.Refine.{
  Points, nowhere, to, find_by_cl_ord_id-Points, add_order-insert_order, add_order_full,
  write-Stores,
}
use cpp_trading_engine.Orders.Apply.{apply_order_event}
use cpp_trading_engine.Orders.Apply.Laws.{settled, apply_order_event-settled}
use cpp_trading_engine.Orders.RoundTrip.{
  RoundTrip, PlaceResult, call_order, call_found, added, start, send_amend, amend_placed,
  on_order_response, unless_accepted, cancel_amended, on_amend_response, on_cancel_response,
  is_request_accepted, send_cancel,
}
use cpp_trading_engine.Risk.Checks.{OrderRequest}

-- The store holds some list of orders.
abbrev pub Kept : RoundTrip → Type 0
Kept r = (xs : List Order) × Stores xs r.order_store

abbrev Keeps : RoundTrip × Result (Unit {0}) → Type 0
Keeps m = Outcome Kept Kept m

-- A method that leaves the client's id.
abbrev KeepsId : (Order → Order × Result (Unit {0})) → Type 0
KeepsId method = (o : Order) → (method o).0.cl_ord_id ≡ o.cl_ord_id

on_cancel_requested-KeepsId : (now : ℕ) → KeepsId (on_cancel_requested now)
unfolding on_cancel_requested
on_cancel_requested-KeepsId now o = ground arith

on_amend_requested-KeepsId : (now : ℕ) → KeepsId (on_amend_requested now)
unfolding on_amend_requested
on_amend_requested-KeepsId now o = ground arith

on_request_rejected-KeepsId : KeepsId on_request_rejected
unfolding on_request_rejected
on_request_rejected-KeepsId o = ground arith

put-Keeps :
    (xs : List Order) (r : RoundTrip) (i : ℕ) (x : Order) (m : Order × Result (Unit {0}))
    → Stores xs r.order_store
    → get_elem? xs i ≡ some x
    → m.0.cl_ord_id ≡ x.cl_ord_id
    → Keeps (record r { order_store = write r.order_store i m.0 }, m.1)
put-Keeps xs r i x (y, ok done) v g h = (set xs i y, write-Stores xs r.order_store i x y v g h)
put-Keeps xs r i x (y, err e) v g h = (set xs i y, write-Stores xs r.order_store i x y v g h)

call_order-Keeps :
    (method : Order → Order × Result (Unit {0})) (r : RoundTrip)
    → KeepsId method
    → Kept r
    → Keeps (call_order method r)
unfolding call_order
call_order-Keeps method r k (xs, v) = go (find_by_cl_ord_id-Points xs r.order_store r.cl_ord_id v)
  where
    go :
        Points xs r.order_store r.cl_ord_id (find_by_cl_ord_id r.order_store r.cl_ord_id)
        → Keeps (call_found method r (find_by_cl_ord_id r.order_store r.cl_ord_id))
    go (nowhere e f) = rw e (xs, v)
    go (to i x e p a g h f) = rw (e, a) (put-Keeps xs r i x (method x) v g (k x))

add-Keeps :
    (now : ℕ) (id inst_id side px sz : Text) (r : RoundTrip)
    → Kept r
    → Keeps (added id r (add now r.order_store id inst_id side px sz))
unfolding add
add-Keeps now id inst_id side px sz r (xs, v) =
    let o = make_order now id inst_id side px sz in
    elim (Bool-cases (leb capacity (length xs))) [
      | inl e ↦ rw (add_order_full r.order_store o (ground (arith, v.counted))) (xs, v)
      | inr e ↦
          let (q, f, w) = add_order-insert_order xs r.order_store o v (ground arith) in
          rw f (insert_order o xs, w)
    ]

start-Keeps :
    (connected : Bool) (result : PlaceResult) (now : ℕ) (id : Text) (request : OrderRequest)
    (r : RoundTrip)
    → Kept r
    → Keeps (start connected result now id request r)
unfolding start
start-Keeps true result now id request r h =
    elim (Bool-cases (text_eq request.ord_type market_type)) [
      | inl e ↦ rw e h
      | inr e ↦ rw e (
          add-Keeps now id request.inst_id request.side request.px request.sz
            (record r { cl_ord_id = id }) h)
    ]
start-Keeps false result now id request r h = elim (Bool-cases result.accepted) [
  | inl e ↦ rw e h
  | inr e ↦ rw e h
]

unless_accepted-Keeps :
    (response : Text) (r : RoundTrip) → Kept r → Keeps (unless_accepted response r)
unless_accepted-Keeps response r h = elim (Bool-cases (is_request_accepted response)) [
  | inl e ↦ rw e h
  | inr e ↦ rw e (call_order-Keeps on_request_rejected r on_request_rejected-KeepsId h)
]

amend_placed-Keeps :
    (connected : Bool) (now : ℕ) (id : Text) (found : Option Text) (r : RoundTrip)
    → Kept r
    → Keeps (amend_placed connected now id found r)
amend_placed-Keeps connected now id none r h = h
amend_placed-Keeps true now id (some ord_id) r h =
    resume-Outcome Kept Kept Kept (λ _. send_amend id)
      (call_order (on_amend_requested now) (record r { ord_id = ord_id }))
      (call_order-Keeps (on_amend_requested now) (record r { ord_id = ord_id })
        (on_amend_requested-KeepsId now) h)
      (λ s _ k. k)
amend_placed-Keeps false now id (some ord_id) r h = h

cancel_amended-Keeps :
    (connected : Bool) (now : ℕ) (id : Text) (r : RoundTrip)
    → Kept r
    → Keeps (cancel_amended connected now id r)
cancel_amended-Keeps true now id r h =
    resume-Outcome Kept Kept Kept (λ _. send_cancel id) (call_order (on_cancel_requested now) r)
      (call_order-Keeps (on_cancel_requested now) r (on_cancel_requested-KeepsId now) h)
      (λ s _ k. k)
cancel_amended-Keeps false now id r h = h

on_order_response-Keeps :
    (connected : Bool) (now : ℕ) (id response : Text) (r : RoundTrip)
    → Kept r
    → Keeps (on_order_response connected now id response r)
unfolding on_order_response
on_order_response-Keeps c now id response r h = elim (Bool-cases (is_request_accepted response)) [
  | inr e ↦ rw e h
  | inl e ↦ rw e (
      amend_placed-Keeps c now id (bind_option (find_data response) (λ d. find_string d ord_id_key))
        r h)
]

-- The calls of a round trip.
pub data Call (V : Type 0) : Type 0 where
  started : Bool → PlaceResult → ℕ → Text → OrderRequest → Call V
  ordered : Bool → ℕ → Text → Text → Call V
  amended : Bool → ℕ → Text → Text → Call V
  canceled : Text → Call V
  event : OrderEvent V → Call V

unfoldable pub round_trip_step : {V : Type 0} → Call V → RoundTrip → RoundTrip
unfolding start on_order_response on_amend_response on_cancel_response apply_order_event
round_trip_step (started c p now id request) r = (start c p now id request r).0
round_trip_step (ordered c now id response) r = (on_order_response c now id response r).0
round_trip_step (amended c now id response) r = (on_amend_response c now id response r).0
round_trip_step (canceled response) r = (on_cancel_response response r).0
round_trip_step (event e) r = record r { order_store = (apply_order_event e r.order_store).0 }

Kept-both : (m : RoundTrip × Result (Unit {0})) → Keeps m → Kept m.0
Kept-both (r, ok done) h = h
Kept-both (r, err e) h = h

step-Kept : {V : Type 0} (c : Call V) (r : RoundTrip) → Kept r → Kept (round_trip_step c r)
unfolding round_trip_step on_order_response on_amend_response on_cancel_response
step-Kept (started c p now id request) r h =
    Kept-both (start c p now id request r) (start-Keeps c p now id request r h)
step-Kept (ordered c now id response) r h =
    Kept-both (on_order_response c now id response r)
      (on_order_response-Keeps c now id response r h)
step-Kept (amended c now id response) r h =
    Kept-both (resume (λ _. cancel_amended c now id) (unless_accepted response r)) (
      resume-Outcome Kept Kept Kept (λ _. cancel_amended c now id) (unless_accepted response r)
        (unless_accepted-Keeps response r h) (λ s _ k. cancel_amended-Keeps c now id s k))
step-Kept (canceled response) r h =
    Kept-both (unless_accepted response r) (unless_accepted-Keeps response r h)
step-Kept (event e) r (xs, v) = (settled e xs, (apply_order_event-settled e xs r.order_store v).0)

unfoldable pub round_trip_run : {V : Type 0} → List (Call V) → RoundTrip → RoundTrip
unfolding round_trip_step
round_trip_run [] r = r
round_trip_run (c ∷ cs) r = round_trip_run cs (round_trip_step c r)

-- Whatever calls a round trip gets, in whatever order, with whatever answers, and whether they throw
-- or not, the store goes on holding orders in the order of their ids, within its capacity.
pub round_trip_run-Kept :
    {V : Type 0} (cs : List (Call V)) (r : RoundTrip) → Kept r → Kept (round_trip_run cs r)
unfolding round_trip_run
round_trip_run-Kept [] r h = h
round_trip_run-Kept (c ∷ cs) r h = round_trip_run-Kept cs (round_trip_step c r) (step-Kept c r h)
