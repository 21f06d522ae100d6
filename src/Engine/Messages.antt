-- ===== src/Engine/Messages.antt =====
-- okx/engine/engine.cpp: what the engine does with a message on the private connection, and the calls
-- that okx/orders/ws_order_round_trip.cpp makes of the client, of the answers' handlers and of REST.
-- `GenerateId` is called before the round trip's step; after a step of an answer its static has moved
-- on only where the step sends.
use cpp_trading_engine.Base.{
  ℕ, Bool, true, false, not, ◌&&◌, ◌||◌, Option, none, some, List, [], ◌∷◌, ◌++◌, if◌then◌else◌,
  Text, codes, text_eq, Result, ok, err, market_order,
}
use cpp_trading_engine.Base.Double.{Double}
use cpp_trading_engine.Base.Effects.{Effect, resume, ◌>>=◌, pure, lift}
use cpp_trading_engine.Connectivity.ResponseDemux.{Pending, dispatch}
use cpp_trading_engine.Connectivity.ResponseDemux as demux
use cpp_trading_engine.Connectivity.WsClient.{Outside, draw, send}
use cpp_trading_engine.Constants.{value_or_empty, code_key, success_code, market_type}
use cpp_trading_engine.Engine.{
  smoke_test_amend_px, RestCall, place_order, get_pending_orders, cancel_order, RestAnswers,
  call_rest, Members, State, risk_limits, tell,
}
use cpp_trading_engine.Json.Fields.{find_string}
use cpp_trading_engine.Orders.Reconcile.{reconcile_orders}
use cpp_trading_engine.Orders.Requests.{
  generate_id, build_ws_order_message, build_ws_amend_order_message, build_ws_cancel_order_message,
}
use cpp_trading_engine.Orders.RoundTrip.{
  Handler, order_response, amend_response, cancel_response, Action, ws_order, ws_amend, ws_cancel,
  track, rest_place, rest_cancel, RoundTrip, start, on_order_response, on_amend_response,
  on_cancel_response,
}
use cpp_trading_engine.Orders.Store.{OrderStore}
use cpp_trading_engine.Risk.Checks.{Reason, check_pre_trade_risk}

-- `kPrivateSubscribeMsg`
abbrev pub private_subscribe_msg : Text
private_subscribe_msg =
    codes "{\"op\":\"subscribe\",\"args\":"
    ++ codes "[{\"channel\":\"orders\",\"instType\":\"SPOT\"},{\"channel\":\"account\"},"
    ++ codes "{\"channel\":\"positions\",\"instType\":\"ANY\"}]}"

module _ (d : Double) (o : Outside) (rest : RestAnswers) where
  open d use {Val, lt, sub}
  open rest use {order_request}

  abbrev pub send_private : Text → Effect (State d) (Unit {0})
  send_private message (c, e) = let (sent, answer) = send o message none c in ((sent, e), answer)

  abbrev pub rest_call : RestCall → Effect (State d) (Unit {0})
  rest_call call (c, e) = let (asked, answer) = call_rest d call e in ((draw c, asked), answer)

  abbrev pub set_demux : Text → Handler → Effect (State d) (Unit {0})
  set_demux id handler (c, e) =
      ((c, record e { ws_demux = demux.track id handler e.ws_demux }), ok tt)

  -- What the round trip asks for
  abbrev pub perform : Action → Effect (State d) (Unit {0})
  perform (ws_order own) = do
    order ← lift (build_ws_order_message own order_request)
    send_private order.message
  perform (ws_amend own ord_id) =
      send_private
        (build_ws_amend_order_message own order_request.inst_id_code ord_id smoke_test_amend_px
          order_request.sz).message
  perform (ws_cancel own ord_id) =
      send_private (build_ws_cancel_order_message own order_request.inst_id_code ord_id).message
  perform (track own handler) = set_demux own handler
  perform rest_place = rest_call place_order
  perform (rest_cancel ord_id) = rest_call (cancel_order order_request.inst_id ord_id)

  -- The actions in order; the list has the latest first.
  abbrev pub perform_all : List Action → Effect (State d) (Unit {0})
  perform_all [] = pure tt
  perform_all (action ∷ earlier) = do performed ← perform_all earlier; perform action

  abbrev pub is_send : Action → Bool
  is_send (ws_order id) = true
  is_send (ws_amend id ord_id) = true
  is_send (ws_cancel id ord_id) = true
  is_send (track id handler) = false
  is_send rest_place = false
  is_send (rest_cancel ord_id) = false

  abbrev pub any_send : List Action → Bool
  any_send [] = false
  any_send (action ∷ actions) = is_send action || any_send actions

  abbrev pub trip_of : Members d → RoundTrip
  trip_of e = record {
    ord_id = e.trip_ord_id;
    cl_ord_id = e.trip_cl_ord_id;
    order_store = e.desk.order_store;
    actions = [];
  }

  abbrev pub after_trip : ℕ → Members d → RoundTrip → Members d
  after_trip last e r = record e {
    trip_ord_id = r.ord_id;
    trip_cl_ord_id = r.cl_ord_id;
    desk = record e.desk {
      order_store = r.order_store;
      last_id = if any_send r.actions then last else e.desk.last_id;
    };
  }

  -- A step of the round trip, by whether the connection is up, the clock's reading and the new id
  unfoldable pub run_trip :
      (Bool → ℕ → Text → Effect RoundTrip (Unit {0})) → Effect (State d) (Unit {0})
  unfolding generate_id build_ws_order_message build_ws_amend_order_message
      build_ws_cancel_order_message demux.track send ◌>>=◌ pure lift
  run_trip step (c, e) =
      let (last, id) = generate_id (o.system_now c.draws) e.desk.last_id in
      let (r, answer) = step c.connected (o.steady_now c.draws) id (trip_of e) in
      resume (λ _ s. (s, answer)) (perform_all r.actions (draw c, after_trip last e r))

  -- The static of `GenerateId` has moved on, whatever came of the order.
  abbrev pub id_taken : ℕ → State d × Result (Unit {0}) → State d × Result (Unit {0})
  id_taken last ((c, e), answer) =
      ((c, record e { desk = record e.desk { last_id = last } }), answer)

  -- `order_round_trip_.Start()`. `PlaceOrder` refuses a market order before it takes an id, and a call
  -- that throws leaves the round trip as it is.
  unfoldable pub start_trip : Effect (State d) (Unit {0})
  unfolding run_trip start generate_id
  start_trip (c, e) =
      if not c.connected && text_eq order_request.ord_type market_type
      then ((c, e), err market_order)
      else (if not c.connected && e.rest_fails (place_order ∷ e.rest_calls)
          then id_taken (generate_id (o.system_now c.draws) e.desk.last_id).0
              (rest_call place_order (c, e))
          else id_taken (generate_id (o.system_now c.draws) e.desk.last_id).0 (
              run_trip
                (λ connected now id.
                  start connected (rest.place_answer c.draws) now id order_request)
                (c, e)))

  -- The handler that waits for the answer
  abbrev pub answer_trip : Text → Handler → Effect (State d) (Unit {0})
  answer_trip response order_response =
      run_trip (λ connected now id. on_order_response connected now id response)
  answer_trip response amend_response =
      run_trip (λ connected now id. on_amend_response connected now id response)
  answer_trip response cancel_response = run_trip (λ connected now id. on_cancel_response response)

  abbrev pub took_pending : State d → OrderStore × Result (List Text) → State d × Result (Unit {0})
  took_pending (c, e) (store, ok notices) =
      ((c, tell d notices (record e { desk = record e.desk { order_store = store } })), ok tt)
  took_pending (c, e) (store, err x) =
      ((c, record e { desk = record e.desk { order_store = store } }), err x)

  -- `GetPendingOrders`, and `ReconcileOrders` with its answer
  unfoldable pub reconcile : Effect (State d) (Unit {0})
  unfolding reconcile_orders
  reconcile (c, e) =
      resume
        (λ asked s. took_pending s (
          reconcile_orders (o.steady_now c.draws) (rest.pending_orders c.draws) e.desk.order_store))
        (rest_call get_pending_orders (c, e))

  abbrev pub start_if_passed : Option Reason → Effect (State d) (Unit {0})
  start_if_passed (some reason) = pure tt
  start_if_passed none = start_trip

  -- `HandleLoginEvent` from the check of the kill switch on
  abbrev pub start_if_allowed : Effect (State d) (Unit {0})
  start_if_allowed (c, e) =
      if e.kill_switch
      then ((c, e), ok tt)
      else resume start_if_passed
          ((c, e), check_pre_trade_risk d (risk_limits d) order_request e.desk.order_store none)

  -- `HandleLoginEvent`
  unfoldable pub handle_login_event : Text → Effect (State d) (Unit {0})
  unfolding find_string send reconcile start_trip check_pre_trade_risk ◌>>=◌ pure
  handle_login_event message =
      if text_eq (value_or_empty (find_string message code_key)) success_code
      then (do
        subscribed ← send_private private_subscribe_msg
        reconciled ← reconcile
        start_if_allowed)
      else pure tt
