-- ===== src/Orders/RoundTrip.antt =====
-- okx/orders/ws_order_round_trip.cpp: `WsOrderRoundTrip`, which places an order, amends it and cancels
-- it, each step on the exchange's answer to the one before. What goes out (a WebSocket message, a REST
-- call, a handler registered for an answer) is a list, the latest first. Arguments: whether the
-- connection is up, the id that `GenerateId` makes, the clock's reading, and the answer of
-- a REST call, which is taken to give one.
pub mod Sound
pub mod Quiet
use cpp_trading_engine.Base.{
  ℕ, Bool, true, false, Option, none, some, List, [], ◌∷◌, if◌then◌else◌, Text, text_eq, Result, ok,
  err, order_not_found, market_order,
}
use cpp_trading_engine.Base.Effects.{Effect, resume}
use cpp_trading_engine.Constants.{is_text, ord_id_key, s_code_key, success_code, market_type}
use cpp_trading_engine.Json.Fields.{find_string, find_data, bind_option}
use cpp_trading_engine.Orders.Lifecycle.{
  Order, on_cancel_requested, on_amend_requested, on_request_rejected,
}
use cpp_trading_engine.Orders.Store.{OrderStore, find_by_cl_ord_id, at, write, add}
use cpp_trading_engine.Risk.Checks.{OrderRequest}

pub data Handler : Type 0 where
  order_response amend_response cancel_response : Handler

pub data Action : Type 0 where
  ws_order : Text → Action
  ws_amend : Text → Text → Action
  ws_cancel : Text → Text → Action
  track : Text → Handler → Action
  rest_place : Action
  rest_cancel : Text → Action

pub record RoundTrip : Type 0 where
  pub ord_id : Text
  pub cl_ord_id : Text
  pub order_store : OrderStore
  pub actions : List Action

-- The fields of `OrderResult` that are read.
pub record PlaceResult : Type 0 where
  pub accepted : Bool
  pub placed_ord_id : Text

-- `IsRequestAccepted`
unfoldable pub is_request_accepted : Text → Bool
unfolding find_string find_data
is_request_accepted response =
    is_text (bind_option (find_data response) (λ data_text. find_string data_text s_code_key))
      success_code

abbrev pub act : Action → RoundTrip → RoundTrip
act action r = record r { actions = action ∷ r.actions }

-- `FallBackToRestCancel`
abbrev pub fall_back_to_rest_cancel : Effect RoundTrip (Unit {0})
fall_back_to_rest_cancel r = (act (rest_cancel r.ord_id) r, ok tt)

abbrev pub put_order : RoundTrip → ℕ → Order × Result (Unit {0}) → RoundTrip × Result (Unit {0})
put_order r i (order, answer) = (record r { order_store = write r.order_store i order }, answer)

abbrev pub call_at :
    (Order → Order × Result (Unit {0}))
    → RoundTrip
    → ℕ
    → Result Order
    → RoundTrip × Result (Unit {0})
call_at method r i (ok order) = put_order r i (method order)
call_at method r i (err e) = (r, err e)

-- A call of a method on `GetOrder()`
abbrev pub call_found :
    (Order → Order × Result (Unit {0}))
    → RoundTrip
    → Result (Option ℕ)
    → RoundTrip × Result (Unit {0})
call_found method r (err e) = (r, err e)
call_found method r (ok none) = (r, err order_not_found)
call_found method r (ok (some i)) = call_at method r i (at r.order_store i)

unfoldable pub call_order : (Order → Order × Result (Unit {0})) → Effect RoundTrip (Unit {0})
call_order method r = call_found method r (find_by_cl_ord_id r.order_store r.cl_ord_id)

abbrev pub added : Text → RoundTrip → Result OrderStore → RoundTrip × Result (Unit {0})
added id r (err e) = (r, err e)
added id r (ok store) =
    (act (track id order_response) (act (ws_order id) (record r { order_store = store })), ok tt)

abbrev pub place_by_rest : PlaceResult → Effect RoundTrip (Unit {0})
place_by_rest result r =
    let asked = act rest_place r in
    if result.accepted
    then fall_back_to_rest_cancel (record asked { ord_id = result.placed_ord_id })
    else (asked, ok tt)

abbrev pub place_by_ws : ℕ → Text → OrderRequest → Effect RoundTrip (Unit {0})
place_by_ws now id request r =
    if text_eq request.ord_type market_type
    then (r, err market_order)
    else added id (record r { cl_ord_id = id })
        (add now r.order_store id request.inst_id request.side request.px request.sz)

-- `Start`
unfoldable pub start : Bool → PlaceResult → ℕ → Text → OrderRequest → Effect RoundTrip (Unit {0})
start connected result now id request r =
    if connected then place_by_ws now id request r else place_by_rest result r

abbrev pub send_amend : Text → Effect RoundTrip (Unit {0})
send_amend id r = (act (track id amend_response) (act (ws_amend id r.ord_id) r), ok tt)

abbrev pub send_cancel : Text → Effect RoundTrip (Unit {0})
send_cancel id r = (act (track id cancel_response) (act (ws_cancel id r.ord_id) r), ok tt)

abbrev pub amend_placed : Bool → ℕ → Text → Option Text → Effect RoundTrip (Unit {0})
amend_placed connected now id none r = (r, ok tt)
amend_placed connected now id (some ord_id) r =
    let known = record r { ord_id = ord_id } in
    if connected
    then resume (λ _. send_amend id) (call_order (on_amend_requested now) known)
    else fall_back_to_rest_cancel known

-- `OnOrderResponse`
unfoldable pub on_order_response : Bool → ℕ → Text → Text → Effect RoundTrip (Unit {0})
unfolding call_order is_request_accepted
on_order_response connected now id response r =
    if is_request_accepted response
    then amend_placed connected now id
        (bind_option (find_data response) (λ data_text. find_string data_text ord_id_key)) r
    else (r, ok tt)

abbrev pub unless_accepted : Text → Effect RoundTrip (Unit {0})
unless_accepted response r =
    if is_request_accepted response then (r, ok tt) else call_order on_request_rejected r

abbrev pub cancel_amended : Bool → ℕ → Text → Effect RoundTrip (Unit {0})
cancel_amended connected now id r =
    if connected
    then resume (λ _. send_cancel id) (call_order (on_cancel_requested now) r)
    else fall_back_to_rest_cancel r

-- `OnAmendResponse`
unfoldable pub on_amend_response : Bool → ℕ → Text → Text → Effect RoundTrip (Unit {0})
unfolding call_order is_request_accepted
on_amend_response connected now id response r =
    resume (λ _. cancel_amended connected now id) (unless_accepted response r)

-- `OnCancelResponse`
unfoldable pub on_cancel_response : Text → Effect RoundTrip (Unit {0})
unfolding call_order is_request_accepted
on_cancel_response response r = unless_accepted response r
