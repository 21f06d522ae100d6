-- ===== src/Engine/Halt/Messages.antt =====
-- okx/engine/engine.cpp under a kill switch that is on: a message as a whole.
use cpp_trading_engine.Base.{
  ℕ, refl, Bool, Option, none, some, List, Text, text_eq, Result, ok, err, if-both,
}
use cpp_trading_engine.Base.Double.{Double}
use cpp_trading_engine.Base.Effects.{Effect}
use cpp_trading_engine.Base.Keeps.{Keeps, Keeps-bind, Keeps-pure, Keeps-if}
use cpp_trading_engine.Connectivity.RateLimiter.{EndpointRateLimiter}
use cpp_trading_engine.Connectivity.ResponseDemux.{Pending, dispatch}
use cpp_trading_engine.Connectivity.WsClient.{Outside, draw}
use cpp_trading_engine.Constants.{
  is_text, value_or_empty, event_key, login_event, code_key, success_code, channel_key,
}
use cpp_trading_engine.Engine.{get_pending_orders, RestAnswers, State}
use cpp_trading_engine.Engine.Events.{after_demux, on_private_ws_message}
use cpp_trading_engine.Engine.Messages.{
  rest_call, perform_all, trip_of, after_trip, run_trip, answer_trip, took_pending, reconcile,
  start_if_allowed, handle_login_event, private_subscribe_msg,
}
use cpp_trading_engine.Engine.Safety.{tell-Stays}
use cpp_trading_engine.Engine.Halt.{
  Halts, resume-Halts, perform_all-Halts, handle_channel-Halts, send_private-Halts, relabel,
}
use cpp_trading_engine.Json.Fields.{find_string}
use cpp_trading_engine.Orders.Requests.{generate_id}
use cpp_trading_engine.Orders.RoundTrip.{
  Handler, order_response, amend_response, cancel_response, RoundTrip,
}
use cpp_trading_engine.Orders.RoundTrip.Quiet.{
  Quiet, on_order_response-Quiet, on_amend_response-Quiet, on_cancel_response-Quiet,
}
use cpp_trading_engine.Orders.Store.{OrderStore}
use cpp_trading_engine.Orders.Reconcile.{reconcile_orders}

module _ (d : Double) (o : Outside) (rest : RestAnswers) (limiter : EndpointRateLimiter)
    (mid : Option d.Val) (placed : ℕ) where
  open d use {Val}

  abbrev Quiets : State d → Type 0
  Quiets = Halts d o rest limiter mid placed

  run_trip-Halts :
      (step : Bool → ℕ → Text → Effect RoundTrip (Unit {0}))
      → ((connected : Bool) (now : ℕ) (id : Text) → Keeps Quiet (step connected now id))
      → Keeps Quiets (run_trip d o rest step)
  unfolding run_trip
  run_trip-Halts step quiet = record {
    keeps = λ (c, e) h.
        let (last, id) = generate_id (o.system_now c.draws) e.desk.last_id in
        let (r, answer) = step c.connected (o.steady_now c.draws) id (trip_of d o rest e) in
        let asked = (quiet c.connected (o.steady_now c.draws) id).keeps (trip_of d o rest e) tt in
        resume-Halts d o rest limiter mid placed (λ _ s. (s, answer))
          (perform_all d o rest r.actions (draw c, after_trip d o rest last e r))
          ((perform_all-Halts d o rest limiter mid placed r.actions asked).keeps _ (
            relabel d o rest limiter mid placed (c, e) (draw c, after_trip d o rest last e r) refl
              refl refl refl h))
          (λ _. record { keeps = λ s k. k });
  }

  answer_trip-Halts :
      (message : Text) (handler : Handler) → Keeps Quiets (answer_trip d o rest message handler)
  answer_trip-Halts message order_response =
      run_trip-Halts _ (λ connected now id. on_order_response-Quiet connected now id message)
  answer_trip-Halts message amend_response =
      run_trip-Halts _ (λ connected now id. on_amend_response-Quiet connected now id message)
  answer_trip-Halts message cancel_response =
      run_trip-Halts _ (λ connected now id. on_cancel_response-Quiet message)

  took_pending-Halts :
      (s : State d) (r : OrderStore × Result (List Text))
      → Quiets s
      → Quiets (took_pending d o rest s r).0
  took_pending-Halts (c, e) (store, ok notices) h =
      tell-Stays d limiter mid placed notices c _
        (record { on = h.on; limits = h.limits; mid_kept = h.mid_kept; rest = h.rest })
  took_pending-Halts (c, e) (store, err x) h = record {
    on = h.on;
    limits = h.limits;
    mid_kept = h.mid_kept;
    rest = h.rest;
  }

  reconcile-Halts : Keeps Quiets (reconcile d o rest)
  unfolding reconcile
  reconcile-Halts = record {
    keeps = λ (c, e) h.
        resume-Halts d o rest limiter mid placed
          (λ asked s. took_pending d o rest s (
            reconcile_orders (o.steady_now c.draws) (rest.pending_orders c.draws)
              e.desk.order_store))
          (rest_call d o rest get_pending_orders (c, e))
          (record { on = h.on; limits = h.limits; mid_kept = h.mid_kept; rest = h.rest })
          (λ asked. record { keeps = λ s k. took_pending-Halts s _ k });
  }

  start_if_allowed-Halts : Keeps Quiets (start_if_allowed d o rest)
  start_if_allowed-Halts = record {
    keeps = λ (c, e) h.
        if-both (λ (r : State d × Result (Unit {0})). Quiets r.0) e.kill_switch ((c, e), ok tt) _
          (λ k. h) (λ k. absurd (cc (k, h.on)));
  }

  handle_login_event-Halts : (message : Text) → Keeps Quiets (handle_login_event d o rest message)
  unfolding handle_login_event
  handle_login_event-Halts message =
      Keeps-if (text_eq (value_or_empty (find_string message code_key)) success_code) _ _
        (Keeps-bind _ _ (send_private-Halts d o rest limiter mid placed private_subscribe_msg)
          (λ subscribed. Keeps-bind _ _ reconcile-Halts (λ reconciled. start_if_allowed-Halts)))
        (Keeps-pure tt)

  after_demux-Halts :
      (message : Text) (s : State d) (r : Pending Handler × Option Handler)
      → Quiets s
      → Quiets (after_demux d o rest message s r).0
  after_demux-Halts message (c, e) (pending, some handler) h =
      (answer_trip-Halts message handler).keeps (c, record e { ws_demux = pending })
        (record { on = h.on; limits = h.limits; mid_kept = h.mid_kept; rest = h.rest })
  after_demux-Halts message (c, e) (pending, none) h =
      (handle_channel-Halts d o rest limiter mid placed message
          (find_string message channel_key)).keeps
        (c, e) h

  pub on_private_ws_message-Halts :
      (message : Text) → Keeps Quiets (on_private_ws_message d o rest message)
  unfolding on_private_ws_message
  on_private_ws_message-Halts message = record {
    keeps = λ (c, e) h.
        if-both (λ (r : State d × Result (Unit {0})). Quiets r.0)
          (is_text (find_string message event_key) login_event)
          (handle_login_event d o rest message (c, e))
          (after_demux d o rest message (c, e) (dispatch message e.ws_demux))
          (λ _. (handle_login_event-Halts message).keeps (c, e) h)
          (λ _. after_demux-Halts message (c, e) (dispatch message e.ws_demux) h);
  }
