-- ===== src/Orders/Lifecycle.antt =====
-- okx/orders/order_lifecycle: the states of an order and what moves it between them. A method that
-- throws leaves the order as it then is. The clock's reading is an argument.
pub mod Laws
pub mod Runs
use cpp_trading_engine.Base.{
  ℕ, Bool, true, false, ◌||◌, ◌&&◌, not, Option, if◌then◌else◌, Text, codes, is_empty, Result, ok,
  err, bad_transition,
}
use cpp_trading_engine.Orders.Events.{OrderEventType, live, partial_fill, fill, cancel, OrderEvent}

pub data OrderState : Type 0 where
  pending_new new partially_filled filled canceled rejected pending_cancel pending_amend :
      OrderState

unfoldable pub is_terminal : OrderState → Bool
is_terminal filled = true
is_terminal canceled = true
is_terminal rejected = true
is_terminal _ = false

unfoldable pub is_pending : OrderState → Bool
is_pending pending_new = true
is_pending pending_cancel = true
is_pending pending_amend = true
is_pending _ = false

pub record Order : Type 0 where
  pub ord_id : Text
  pub cl_ord_id : Text
  pub inst_id : Text
  pub side : Text
  pub px : Text
  pub sz : Text
  pub acc_fill_sz : Text
  pub avg_px : Text
  pub state : OrderState
  pub pre_pending_state : OrderState
  pub pending_since : ℕ

-- The constructor `Order::Order`, at the time `now`.
unfoldable pub make_order : ℕ → Text → Text → Text → Text → Text → Order
make_order now cl_ord_id inst_id side px sz = record {
  ord_id = codes "";
  cl_ord_id = cl_ord_id;
  inst_id = inst_id;
  side = side;
  px = px;
  sz = sz;
  acc_fill_sz = codes "";
  avg_px = codes "";
  state = pending_new;
  pre_pending_state = pending_new;
  pending_since = now;
}

abbrev pub transition_to : OrderState → Order → Order × Result (Unit {0})
transition_to next order = (record order { state = next }, ok tt)

abbrev pub refuse : Order → Order × Result (Unit {0})
refuse order = (order, err bad_transition)

abbrev after_amend : OrderState → OrderState
after_amend pending_new = new
after_amend s = s

-- The `switch` of `ApplyEvent`, on the event's type and the order's state.
abbrev apply_type : OrderEventType → OrderState → Text → Order → Order × Result (Unit {0})
apply_type live pending_new px order = transition_to new order
apply_type live pending_amend px order =
    transition_to (after_amend order.pre_pending_state) (record order { px = px })
apply_type live new px order = (record order { px = px }, ok tt)
apply_type live partially_filled px order = (record order { px = px }, ok tt)
apply_type live pending_cancel px order = (record order { px = px }, ok tt)
apply_type live filled px order = refuse order
apply_type live canceled px order = refuse order
apply_type live rejected px order = refuse order
apply_type partial_fill filled px order = refuse order
apply_type partial_fill canceled px order = refuse order
apply_type partial_fill rejected px order = refuse order
apply_type partial_fill _ px order = transition_to partially_filled order
apply_type fill filled px order = refuse order
apply_type fill canceled px order = refuse order
apply_type fill rejected px order = refuse order
apply_type fill _ px order = transition_to filled order
apply_type cancel filled px order = refuse order
apply_type cancel canceled px order = refuse order
apply_type cancel rejected px order = refuse order
apply_type cancel pending_new px order = transition_to rejected order
apply_type cancel _ px order = transition_to canceled order

-- The fields that every event writes, whatever the state.
abbrev pub record_event : {V : Type 0} → OrderEvent V → Order → Order
record_event event order = record order {
  ord_id = if is_empty order.ord_id then event.ord_id else order.ord_id;
  acc_fill_sz = event.acc_fill_sz;
  avg_px = event.avg_px;
}

unfoldable pub apply_event : {V : Type 0} → OrderEvent V → Order → Order × Result (Unit {0})
apply_event event order = apply_type event.type order.state event.px (record_event event order)

abbrev request : OrderState → Bool → ℕ → Order → Order × Result (Unit {0})
request next keeps_previous now order = transition_to next (record order {
  pre_pending_state = if keeps_previous then order.pre_pending_state else order.state;
  pending_since = now;
})

abbrev cancel_from : OrderState → ℕ → Order → Order × Result (Unit {0})
cancel_from pending_new now order = request pending_cancel false now order
cancel_from new now order = request pending_cancel false now order
cancel_from partially_filled now order = request pending_cancel false now order
cancel_from pending_amend now order = request pending_cancel true now order
cancel_from _ now order = refuse order

unfoldable pub on_cancel_requested : ℕ → Order → Order × Result (Unit {0})
on_cancel_requested now order = cancel_from order.state now order

abbrev amend_from : OrderState → ℕ → Order → Order × Result (Unit {0})
amend_from pending_new now order = request pending_amend false now order
amend_from new now order = request pending_amend false now order
amend_from partially_filled now order = request pending_amend false now order
amend_from pending_cancel now order = request pending_amend true now order
amend_from _ now order = refuse order

unfoldable pub on_amend_requested : ℕ → Order → Order × Result (Unit {0})
on_amend_requested now order = amend_from order.state now order

abbrev reject_from : OrderState → Order → Order × Result (Unit {0})
reject_from pending_cancel order = transition_to order.pre_pending_state order
reject_from pending_amend order = transition_to order.pre_pending_state order
reject_from _ order = refuse order

unfoldable pub on_request_rejected : Order → Order × Result (Unit {0})
on_request_rejected order = reject_from order.state order
