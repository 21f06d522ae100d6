-- ===== src/Engine/Halt.antt =====
-- okx/engine/engine.cpp under a kill switch that is on: the events and the round trip's actions.
pub mod Messages
use cpp_trading_engine.Base.{
  ℕ, ◌≡◌, refl, sym, ap, ◌∙◌, Bool, true, false, not, ◌&&◌, Bool-cases, Option, none, some, List,
  [], ◌∷◌, if◌then◌else◌, Text, text_eq, Result, ok, err, inl, inr, All, arith, subst, if-both,
}
use cpp_trading_engine.Base.Double.{Double}
use cpp_trading_engine.Base.Effects.{Effect, resume, ◌>>=◌, pure, lift}
use cpp_trading_engine.Base.Keeps.{Keeps, Keeps-bind, Keeps-pure, Keeps-lift, Keeps-if, keeps_rules}
use cpp_trading_engine.Connectivity.RateLimiter.{EndpointRateLimiter}
use cpp_trading_engine.Connectivity.ResponseDemux.{Pending, dispatch}
use cpp_trading_engine.Connectivity.WsClient.{Outside, WsClient, draw, send}
use cpp_trading_engine.Constants.{
  data_key, is_text, value_or_empty, event_key, login_event, code_key, success_code, channel_key,
  orders_channel, account_channel,
}
use cpp_trading_engine.Engine.{
  RestCall, place_order, get_pending_orders, cancel_order, RestAnswers, Members, State, tell,
}
use cpp_trading_engine.Engine.Events.{
  take_fill_of, note_event, apply_to_store, handle_order_event, handle_account_channel_message,
  handle_channel, after_demux, on_private_ws_message,
}
use cpp_trading_engine.Engine.Messages.{
  send_private, rest_call, set_demux, perform, perform_all, trip_of, after_trip, run_trip,
  answer_trip, took_pending, reconcile, start_if_passed, start_if_allowed, handle_login_event,
  private_subscribe_msg,
}
use cpp_trading_engine.Engine.Safety.{
  placed_by_rest, Halted, Stays, tell-Stays, take_fill-Stays, apply_to_store-Stays,
}
use cpp_trading_engine.Json.Fields.{find_string}
use cpp_trading_engine.Json.Loops.{for_each_array_element}
use cpp_trading_engine.Json.Rules.{for_each_array_element-Keeps}
use cpp_trading_engine.Orders.Events.{
  OrderEventType, live, partial_fill, fill, cancel, OrderFill, OrderEvent, act_on, read_order_event,
  for_each_order_event,
}
use cpp_trading_engine.Orders.Reconcile.{reconcile_orders}
use cpp_trading_engine.Orders.Requests.{WsOrderRequest}
use cpp_trading_engine.Orders.RoundTrip.{
  Handler, order_response, amend_response, cancel_response, Action, ws_order, ws_amend, ws_cancel,
  track, rest_place, rest_cancel, RoundTrip,
}
use cpp_trading_engine.Orders.RoundTrip.Quiet.{
  NotPlace, Quiet, on_order_response-Quiet, on_amend_response-Quiet, on_cancel_response-Quiet,
}
use cpp_trading_engine.Orders.Store.{OrderStore}

module _ (d : Double) (o : Outside) (rest : RestAnswers) (limiter : EndpointRateLimiter)
    (mid : Option d.Val) (placed : ℕ) where
  open d use {Val}

  abbrev pub Halts : State d → Type 0
  Halts = Stays d limiter mid placed

  take_fill_of-Halts :
      (side : Text) (filled : Option (OrderFill Val)) → Keeps Halts (take_fill_of d side filled)
  take_fill_of-Halts side none = record { keeps = λ s h. h }
  take_fill_of-Halts side (some filled) = record {
    keeps = (take_fill-Stays d limiter mid placed side filled).keeps;
  }

  note_event-Halts :
      (event : OrderEvent Val) (type : OrderEventType) → Keeps Halts (note_event d event type)
  note_event-Halts event fill = record {
    keeps = (take_fill_of-Halts event.side event.fill_data).keeps;
  }
  note_event-Halts event partial_fill = record {
    keeps = (take_fill_of-Halts event.side event.fill_data).keeps;
  }
  note_event-Halts event live = record { keeps = λ s h. h }
  note_event-Halts event cancel = record { keeps = λ s h. h }

  pub resume-Halts :
      {A : Type 0} (next : A → Effect (State d) (Unit {0})) (r : State d × Result A)
      → Halts r.0
      → ((a : A) → Keeps Halts (next a))
      → Halts (resume next r).0
  resume-Halts next (s, ok a) h k = (k a).keeps s h
  resume-Halts next (s, err e) h k = h

  pub handle_order_event-Halts : (event : OrderEvent Val) → Keeps Halts (handle_order_event d event)
  unfolding handle_order_event
  handle_order_event-Halts event = record {
    keeps = λ s h.
        resume-Halts (λ _. apply_to_store d event) (note_event d event event.type s)
          ((note_event-Halts event event.type).keeps s h)
          (λ _. apply_to_store-Stays d limiter mid placed event);
  }

  act_on-Halts : (r : Result (OrderEvent Val)) → Keeps Halts (act_on d (handle_order_event d) r)
  act_on-Halts (ok event) = record { keeps = (handle_order_event-Halts event).keeps }
  act_on-Halts (err e) = record { keeps = λ s h. h }

  for_each_order_event-Halts :
      (message : Text) → Keeps Halts (for_each_order_event d message (handle_order_event d))
  unfolding for_each_order_event
  for_each_order_event-Halts message = record {
    keeps = λ s h.
        if-both (λ (r : State d × Result (Unit {0})). Halts r.0)
          (is_text (find_string message channel_key) orders_channel)
          (for_each_array_element message data_key
            (λ order. act_on d (handle_order_event d) (read_order_event d order)) s)
          (s, ok tt)
          (λ e.
            (for_each_array_element-Keeps
                (λ order. act_on d (handle_order_event d) (read_order_event d order)) message
                data_key (λ order. act_on-Halts (read_order_event d order))).keeps
              s h)
          (λ e. h);
  }

  pub handle_channel-Halts :
      (message : Text) (channel : Option Text)
      → Keeps Halts (handle_channel d o rest message channel)
  unfolding handle_account_channel_message
  handle_channel-Halts message channel = record {
    keeps = λ (c, e) h.
        if-both (λ (r : State d × Result (Unit {0})). Halts r.0) (is_text channel orders_channel)
          (for_each_order_event d message (handle_order_event d) (c, e))
          (if is_text channel account_channel
            then handle_account_channel_message d message (c, e)
            else ((c, e), ok tt))
          (λ _. (for_each_order_event-Halts message).keeps (c, e) h)
          (λ _.
            if-both (λ (r : State d × Result (Unit {0})). Halts r.0)
              (is_text channel account_channel) (handle_account_channel_message d message (c, e))
              ((c, e), ok tt)
              (λ _. record { on = h.on; limits = h.limits; mid_kept = h.mid_kept; rest = h.rest })
              (λ _. h));
  }

  -- Members that agree in what `Halted` looks at
  pub relabel :
      (s t : State d)
      → t.1.kill_switch ≡ s.1.kill_switch
      → t.1.desk.rate_limiter ≡ s.1.desk.rate_limiter
      → t.1.desk.quoter.last_quoted_mid ≡ s.1.desk.quoter.last_quoted_mid
      → t.1.rest_calls ≡ s.1.rest_calls
      → Halts s
      → Halts t
  relabel s t a b c e h = record {
    on = a ∙ h.on;
    limits = b ∙ h.limits;
    mid_kept = c ∙ h.mid_kept;
    rest = ap placed_by_rest e ∙ h.rest;
  }

  pub send_private-Halts : (message : Text) → Keeps Halts (send_private d o rest message)
  send_private-Halts message = record {
    keeps =
        λ (c, e) h. relabel (c, e) (send_private d o rest message (c, e)).0 refl refl refl refl h;
  }

  perform-Halts : (action : Action) → NotPlace action → Keeps Halts (perform d o rest action)
  perform-Halts (ws_order id) n = absurd n
  perform-Halts (ws_amend id ord_id) n = send_private-Halts _
  perform-Halts (ws_cancel id ord_id) n = send_private-Halts _
  perform-Halts (track id handler) n = record {
    keeps = λ s h. record { on = h.on; limits = h.limits; mid_kept = h.mid_kept; rest = h.rest };
  }
  perform-Halts rest_place n = absurd n
  perform-Halts (rest_cancel ord_id) n = record {
    keeps = λ s h. record { on = h.on; limits = h.limits; mid_kept = h.mid_kept; rest = h.rest };
  }

  pub perform_all-Halts :
      (actions : List Action) → All NotPlace actions → Keeps Halts (perform_all d o rest actions)
  perform_all-Halts [] n = Keeps-pure tt
  perform_all-Halts (action ∷ actions) (n, ns) =
      Keeps-bind (perform_all d o rest actions) (λ _. perform d o rest action)
        (perform_all-Halts actions ns) (λ _. perform-Halts action n)
