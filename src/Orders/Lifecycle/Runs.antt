-- ===== src/Orders/Lifecycle/Runs.antt =====
-- An order under any sequence of events, requests and refusals: the diagram of its states, and what
-- never changes.
use cpp_trading_engine.Base.{
  ℕ, ◌≡◌, refl, inl, true, false, List, [], ◌∷◌, ◌∙◌, Text, is_empty, Result, ok, arith,
}
use cpp_trading_engine.Orders.Events.{OrderEvent}
use cpp_trading_engine.Orders.Lifecycle.{
  OrderState, pending_new, new, partially_filled, filled, canceled, rejected, pending_cancel,
  pending_amend, Order, is_terminal, apply_event, on_cancel_requested, on_amend_requested,
  on_request_rejected, make_order,
}
use cpp_trading_engine.Orders.Lifecycle.Laws.{
  IsValid, apply_event-IsValid, on_cancel_requested-IsValid, on_amend_requested-IsValid,
  on_request_rejected-IsValid,
}

-- The calls of an order's methods.
pub data Call (V : Type 0) : Type 0 where
  event : OrderEvent V → Call V
  cancel_requested : ℕ → Call V
  amend_requested : ℕ → Call V
  request_rejected : Call V

unfoldable pub step : {V : Type 0} → Call V → Order → Order × Result (Unit {0})
unfolding apply_event on_cancel_requested on_amend_requested on_request_rejected
step (event e) o = apply_event e o
step (cancel_requested now) o = on_cancel_requested now o
step (amend_requested now) o = on_amend_requested now o
step request_rejected o = on_request_rejected o

unfoldable pub run : {V : Type 0} → List (Call V) → Order → Order
unfolding step
run [] o = o
run (c ∷ cs) o = run cs (step c o).0

-- The states between which a call may move an order.
pub data IsActive : OrderState → Type 0 where
  active_pending_new : IsActive pending_new
  active_new : IsActive new
  active_partially_filled : IsActive partially_filled
  active_pending_cancel : IsActive pending_cancel
  active_pending_amend : IsActive pending_amend

infix 40 ◌⟶◌
pub data ◌⟶◌ : OrderState → OrderState → Type 0 where
  acknowledge : pending_new ⟶ new
  amend_done : {s : OrderState} → IsActive s → pending_amend ⟶ s
  stay : {s : OrderState} → IsActive s → s ⟶ s
  part : {s : OrderState} → IsActive s → s ⟶ partially_filled
  fill_up : {s : OrderState} → IsActive s → s ⟶ filled
  never_live : pending_new ⟶ rejected
  end_early : {s : OrderState} → IsActive s → s ⟶ canceled
  ask_cancel : {s : OrderState} → IsActive s → s ⟶ pending_cancel
  ask_amend : {s : OrderState} → IsActive s → s ⟶ pending_amend
  cancel_refused : {s : OrderState} → IsActive s → pending_cancel ⟶ s

ruleset active = (
  active_pending_new, active_new, active_partially_filled, active_pending_cancel,
  active_pending_amend,
)

ruleset edges = (
  acknowledge, amend_done, stay, part, fill_up, never_live, end_early, ask_cancel, ask_amend,
  cancel_refused,
)

-- A call that an order with a resting state to go back to accepts moves its state along an edge of
-- the diagram `⟶`: none leaves a terminal state, `rejected` is reached from `pending_new` only, and a
-- pending state is left by a fill, an end, another request, an acknowledgement or a refusal.
pub step-⟶ :
    {V : Type 0} (c : Call V) (o : Order)
    → IsValid o
    → (step c o).1 ≡ ok tt
    → o.state ⟶ (step c o).0.state
unfolding step
step-⟶ (event e) o v h = grind (arith, edges, active)
step-⟶ (cancel_requested now) o v h = grind (arith, edges, active)
step-⟶ (amend_requested now) o v h = grind (arith, edges, active)
step-⟶ request_rejected o v h = grind (arith, edges, active)

step-IsValid : {V : Type 0} (c : Call V) (o : Order) → IsValid o → IsValid (step c o).0
unfolding step
step-IsValid (event e) o v = apply_event-IsValid e o v
step-IsValid (cancel_requested now) o v = on_cancel_requested-IsValid now o v
step-IsValid (amend_requested now) o v = on_amend_requested-IsValid now o v
step-IsValid request_rejected o v = on_request_rejected-IsValid o v

run-IsValid : {V : Type 0} (cs : List (Call V)) (o : Order) → IsValid o → IsValid (run cs o)
unfolding run
run-IsValid [] o v = v
run-IsValid (c ∷ cs) o v = run-IsValid cs (step c o).0 (step-IsValid c o v)

-- What no call changes.
abbrev pub SameOrder : Order → Order → Type 0
SameOrder o q =
    (q.cl_ord_id ≡ o.cl_ord_id) × (q.inst_id ≡ o.inst_id) × (q.side ≡ o.side) × (q.sz ≡ o.sz)

step-SameOrder : {V : Type 0} (c : Call V) (o : Order) → SameOrder o (step c o).0
unfolding step
step-SameOrder (event e) o = ground arith
step-SameOrder (cancel_requested now) o = ground arith
step-SameOrder (amend_requested now) o = ground arith
step-SameOrder request_rejected o = ground arith

run-SameOrder : {V : Type 0} (cs : List (Call V)) (o : Order) → SameOrder o (run cs o)
unfolding run
run-SameOrder [] o = (refl, refl, refl, refl)
run-SameOrder (c ∷ cs) o =
    let (i, j, k, l) = step-SameOrder c o in
    let (i', j', k', l') = run-SameOrder cs (step c o).0 in (i' ∙ i, j' ∙ j, k' ∙ k, l' ∙ l)

step-ord_id :
    {V : Type 0} (c : Call V) (o : Order)
    → is_empty o.ord_id ≡ false
    → (step c o).0.ord_id ≡ o.ord_id
unfolding step
step-ord_id (event e) o h = ground arith
step-ord_id (cancel_requested now) o h = ground arith
step-ord_id (amend_requested now) o h = ground arith
step-ord_id request_rejected o h = ground arith

-- The exchange's id of an order, once known, stays through any sequence of calls.
pub run-ord_id :
    {V : Type 0} (cs : List (Call V)) (o : Order)
    → is_empty o.ord_id ≡ false
    → (run cs o).ord_id ≡ o.ord_id
unfolding run
run-ord_id [] o h = refl
run-ord_id (c ∷ cs) o h = let e = step-ord_id c o h in run-ord_id cs (step c o).0 (rw e h) ∙ e

step-terminal :
    {V : Type 0} (c : Call V) (o : Order)
    → is_terminal o.state ≡ true
    → (step c o).0.state ≡ o.state
unfolding step is_terminal
step-terminal (event e) o h = ground arith
step-terminal (cancel_requested now) o h = ground arith
step-terminal (amend_requested now) o h = ground arith
step-terminal request_rejected o h = ground arith

-- A terminal state is left by no sequence of calls.
pub run-terminal :
    {V : Type 0} (cs : List (Call V)) (o : Order)
    → is_terminal o.state ≡ true
    → (run cs o).state ≡ o.state
unfolding run
run-terminal [] o h = refl
run-terminal (c ∷ cs) o h = let e = step-terminal c o h in run-terminal cs (step c o).0 (rw e h) ∙ e

-- A new order, after any sequence of calls, can go back only to a state with no request in flight,
-- and still has the client's id, the instrument, the side and the size it was made with.
pub run-make_order :
    {V : Type 0} (cs : List (Call V)) (now : ℕ) (cl_ord_id inst_id side px sz : Text)
    → let o = make_order now cl_ord_id inst_id side px sz in
      IsValid (run cs o) × SameOrder o (run cs o)
unfolding make_order
run-make_order cs now cl_ord_id inst_id side px sz =
    let o = make_order now cl_ord_id inst_id side px sz in
    (run-IsValid cs o (record { resting = inl refl }), run-SameOrder cs o)
