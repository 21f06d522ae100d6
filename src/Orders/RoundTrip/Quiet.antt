-- ===== src/Orders/RoundTrip/Quiet.antt =====
-- okx/orders/ws_order_round_trip.cpp: the handlers of responses, and the actions that place an order.
use cpp_trading_engine.Base.{
  ℕ, Bool, true, false, Option, none, some, Text, Result, ok, err, All, if-both,
}
use cpp_trading_engine.Base.Effects.{Effect, resume}
use cpp_trading_engine.Base.Keeps.{Keeps}
use cpp_trading_engine.Json.Fields.{find_string, find_data, bind_option}
use cpp_trading_engine.Orders.Lifecycle.{
  Order, on_amend_requested, on_cancel_requested, on_request_rejected,
}
use cpp_trading_engine.Orders.RoundTrip.{
  Action, ws_order, rest_place, RoundTrip, on_order_response, on_amend_response, on_cancel_response,
  call_order, call_found, call_at, amend_placed, send_amend, send_cancel, cancel_amended,
  unless_accepted, is_request_accepted,
}
use cpp_trading_engine.Orders.Store.{at, find_by_cl_ord_id}
use cpp_trading_engine.Constants.{ord_id_key}

-- An action that does not place an order
abbrev pub NotPlace : Action → Type 0
NotPlace (ws_order id) = ⊥
NotPlace rest_place = ⊥
NotPlace _ = Unit

abbrev pub Quiet : RoundTrip → Type 0
Quiet r = All NotPlace r.actions

call_order-Quiet : (method : Order → Order × Result (Unit {0})) → Keeps Quiet (call_order method)
unfolding call_order
call_order-Quiet method = record {
  keeps = λ r h. found r h (find_by_cl_ord_id r.order_store r.cl_ord_id);
}
  where
    at_slot :
        (r : RoundTrip) (i : ℕ) → Quiet r → (o : Result Order) → Quiet (call_at method r i o).0
    at_slot r i h (ok order) = h
    at_slot r i h (err e) = h

    found : (r : RoundTrip) → Quiet r → (p : Result (Option ℕ)) → Quiet (call_found method r p).0
    found r h (err e) = h
    found r h (ok none) = h
    found r h (ok (some i)) = at_slot r i h (at r.order_store i)

resume-Quiet :
    (next : Unit {0} → Effect RoundTrip (Unit {0})) (r : RoundTrip × Result (Unit {0}))
    → Quiet r.0
    → ((s : RoundTrip) → Quiet s → Quiet (next tt s).0)
    → Quiet (resume next r).0
resume-Quiet next (s, ok done) h k = k s h
resume-Quiet next (s, err e) h k = h

amend_placed-Quiet :
    (connected : Bool) (now : ℕ) (id : Text) (ord_id : Option Text) (r : RoundTrip)
    → Quiet r
    → Quiet (amend_placed connected now id ord_id r).0
amend_placed-Quiet connected now id none r h = h
amend_placed-Quiet true now id (some ord_id) r h =
    resume-Quiet (λ _. send_amend id) _
      ((call_order-Quiet (on_amend_requested now)).keeps (record r { ord_id = ord_id }) h)
      (λ s k. (tt, (tt, k)))
amend_placed-Quiet false now id (some ord_id) r h = (tt, h)

pub on_order_response-Quiet :
    (connected : Bool) (now : ℕ) (id response : Text)
    → Keeps Quiet (on_order_response connected now id response)
unfolding on_order_response
on_order_response-Quiet connected now id response = record {
  keeps = λ r h.
      let ord_id =
        bind_option (find_data response) (λ data_text. find_string data_text ord_id_key) in
      if-both (λ (x : RoundTrip × Result (Unit {0})). Quiet x.0) (is_request_accepted response)
        (amend_placed connected now id ord_id r) (r, ok tt)
        (λ e. amend_placed-Quiet connected now id ord_id r h) (λ e. h);
}

unless_accepted-Quiet : (response : Text) → Keeps Quiet (unless_accepted response)
unless_accepted-Quiet response = record {
  keeps = λ r h.
      if-both (λ (x : RoundTrip × Result (Unit {0})). Quiet x.0) (is_request_accepted response)
        (r, ok tt) (call_order on_request_rejected r) (λ e. h)
        (λ e. (call_order-Quiet on_request_rejected).keeps r h);
}

cancel_amended-Quiet :
    (connected : Bool) (now : ℕ) (id : Text) (r : RoundTrip)
    → Quiet r
    → Quiet (cancel_amended connected now id r).0
cancel_amended-Quiet true now id r h =
    resume-Quiet (λ _. send_cancel id) _ ((call_order-Quiet (on_cancel_requested now)).keeps r h)
      (λ s k. (tt, (tt, k)))
cancel_amended-Quiet false now id r h = (tt, h)

pub on_amend_response-Quiet :
    (connected : Bool) (now : ℕ) (id response : Text)
    → Keeps Quiet (on_amend_response connected now id response)
unfolding on_amend_response
on_amend_response-Quiet connected now id response = record {
  keeps = λ r h.
      resume-Quiet (λ _. cancel_amended connected now id) _
        ((unless_accepted-Quiet response).keeps r h) (cancel_amended-Quiet connected now id);
}

pub on_cancel_response-Quiet : (response : Text) → Keeps Quiet (on_cancel_response response)
unfolding on_cancel_response
on_cancel_response-Quiet response = record { keeps = (unless_accepted-Quiet response).keeps }
