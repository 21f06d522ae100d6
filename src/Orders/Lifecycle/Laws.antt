-- ===== src/Orders/Lifecycle/Laws.antt =====
-- What each method of an order does, on every branch, and the round trips of a refused request.
use cpp_trading_engine.Base.{ℕ, ◌≡◌, ◌⊎◌, ◌↔◌, false, ok, err, bad_transition, arith}
use cpp_trading_engine.Orders.Events.{partial_fill, OrderEvent}
use cpp_trading_engine.Orders.Lifecycle.{
  OrderState, pending_new, new, partially_filled, pending_cancel, pending_amend, Order, is_terminal,
  apply_event, on_cancel_requested, on_amend_requested, on_request_rejected,
}

-- An event is accepted exactly in the states that are not terminal.
pub apply_event-accepts :
    {V : Type 0} (e : OrderEvent V) (o : Order)
    → ((apply_event e o).1 ≡ ok tt) ↔ (is_terminal o.state ≡ false)
unfolding apply_event is_terminal
apply_event-accepts e o = (ground arith, ground arith)

-- The state to go back to is one in which the order has no request in flight.
abbrev pub IsResting : OrderState → Type 0
IsResting s = (s ≡ pending_new) ⊎ (s ≡ new) ⊎ (s ≡ partially_filled)

pub record IsValid (o : Order) : Type 0 where
  pub resting : IsResting o.pre_pending_state

pub apply_event-IsValid :
    {V : Type 0} (e : OrderEvent V) (o : Order) → IsValid o → IsValid (apply_event e o).0
unfolding apply_event
apply_event-IsValid e o v = ground arith

pub on_cancel_requested-IsValid :
    (now : ℕ) (o : Order) → IsValid o → IsValid (on_cancel_requested now o).0
unfolding on_cancel_requested
on_cancel_requested-IsValid now o v = ground arith

pub on_amend_requested-IsValid :
    (now : ℕ) (o : Order) → IsValid o → IsValid (on_amend_requested now o).0
unfolding on_amend_requested
on_amend_requested-IsValid now o v = ground arith

pub on_request_rejected-IsValid : (o : Order) → IsValid o → IsValid (on_request_rejected o).0
unfolding on_request_rejected
on_request_rejected-IsValid o v = ground arith

abbrev after_request : OrderState → ℕ → Order → Order
after_request next now o = record o {
  state = next;
  pre_pending_state = o.state;
  pending_since = now;
}

-- A cancel request of a resting order that the exchange refuses puts the order back: only the time
-- of the request and the state to go back to are new. So does an amend request.
pub request-rejected_restores :
    (now : ℕ) (o : Order)
    → IsResting o.state
    → (on_request_rejected (on_cancel_requested now o).0
        ≡ (record o { pre_pending_state = o.state; pending_since = now }, ok tt))
      × (on_request_rejected (on_amend_requested now o).0
          ≡ (record o { pre_pending_state = o.state; pending_since = now }, ok tt))
unfolding on_cancel_requested on_amend_requested on_request_rejected
request-rejected_restores now o h = (ground arith, ground arith)

-- A partial fill takes an order whose cancel or amend request is in flight out of its pending state,
-- so that the exchange's refusal of the request, which may still come, throws.
pub rejection_after_partial_fill_throws :
    {V : Type 0} (e : OrderEvent V) (o : Order)
    → e.type ≡ partial_fill
    → (o.state ≡ pending_cancel) ⊎ (o.state ≡ pending_amend)
    → ((apply_event e o).1 ≡ ok tt)
      × (on_request_rejected (apply_event e o).0 ≡ ((apply_event e o).0, err bad_transition))
unfolding apply_event on_request_rejected
rejection_after_partial_fill_throws e o h s = (ground arith, ground arith)
