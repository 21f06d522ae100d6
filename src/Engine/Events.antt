-- ===== src/Engine/Events.antt =====
-- okx/engine/engine.cpp: the events of the "orders" and "account" channels, and the dispatch of a message.
use cpp_trading_engine.Base.{
  Bool, Option, none, some, List, [], ◌∷◌, if◌then◌else◌, Text, Result, ok, err,
}
use cpp_trading_engine.Base.Double.{Double, zero_of}
use cpp_trading_engine.Base.Effects.{Effect, resume}
use cpp_trading_engine.Connectivity.ResponseDemux.{Pending, dispatch}
use cpp_trading_engine.Connectivity.WsClient.{Outside}
use cpp_trading_engine.Constants.{
  is_text, event_key, login_event, channel_key, orders_channel, account_channel,
}
use cpp_trading_engine.Engine.{RestAnswers, State, max_realized_loss, tell, trigger_kill_switch}
use cpp_trading_engine.Json.Fields.{find_string}
use cpp_trading_engine.Orders.Apply.{apply_order_event}
use cpp_trading_engine.Orders.Events.{
  OrderEventType, fill, partial_fill, OrderFill, OrderEvent, for_each_order_event,
}
use cpp_trading_engine.Orders.RoundTrip.{
  Handler, on_order_response, on_amend_response, on_cancel_response,
}
use cpp_trading_engine.Orders.Store.{OrderStore}
use cpp_trading_engine.Risk.Account.{apply_message}
use cpp_trading_engine.Risk.Position.{Position, apply_fill}
use cpp_trading_engine.Engine.Messages.{answer_trip, run_trip, handle_login_event}

module _ (d : Double) where
  open d use {Val, lt, sub}

  -- `position_.ApplyFill`, and the kill switch where the loss is too large
  abbrev pub has_lost : Position d → Bool
  has_lost p = lt p.realized_pnl (sub (zero_of d) (max_realized_loss d))

  unfoldable pub take_fill : Text → OrderFill Val → Effect (State d) (Unit {0})
  unfolding apply_fill trigger_kill_switch
  take_fill side filled (c, e) =
      let position = apply_fill d side filled.px filled.sz e.position in
      let moved = record e { position = position } in
      if has_lost position then trigger_kill_switch d (c, moved) else ((c, moved), ok tt)

  abbrev pub take_fill_of : Text → Option (OrderFill Val) → Effect (State d) (Unit {0})
  take_fill_of side (some filled) s = take_fill side filled s
  take_fill_of side none s = (s, ok tt)

  -- A cancellation is only logged by the quoter.
  abbrev pub note_event : OrderEvent Val → OrderEventType → Effect (State d) (Unit {0})
  note_event event fill s = take_fill_of event.side event.fill_data s
  note_event event partial_fill s = take_fill_of event.side event.fill_data s
  note_event event _ s = (s, ok tt)

  abbrev pub list_of : Option Text → List Text
  list_of none = []
  list_of (some id) = id ∷ []

  abbrev pub after_event : State d → OrderStore × Result (Option Text) → State d × Result (Unit {0})
  after_event (c, e) (store, ok notice) = (
    (c, tell d (list_of notice) (record e { desk = record e.desk { order_store = store } })),
    ok tt,
  )
  after_event (c, e) (store, err x) =
      ((c, record e { desk = record e.desk { order_store = store } }), err x)

  -- `order_round_trip_.ApplyOrderEvent`
  abbrev pub apply_to_store : OrderEvent Val → Effect (State d) (Unit {0})
  apply_to_store event (c, e) = after_event (c, e) (apply_order_event event e.desk.order_store)

  -- `HandleOrderEvent`
  unfoldable pub handle_order_event : OrderEvent Val → Effect (State d) (Unit {0})
  unfolding take_fill apply_order_event
  handle_order_event event s = resume (λ _. apply_to_store event) (note_event event event.type s)

  -- `HandleAccountChannelMessage`
  unfoldable pub handle_account_channel_message : Text → Effect (State d) (Unit {0})
  unfolding apply_message
  handle_account_channel_message message (c, e) =
      let (account, answer) = apply_message d message e.account_state in
      ((c, record e { account_state = account }), answer)

  module _ (o : Outside) (rest : RestAnswers) where
    abbrev pub handle_channel : Text → Option Text → Effect (State d) (Unit {0})
    handle_channel message channel s =
        if is_text channel orders_channel
        then for_each_order_event d message handle_order_event s
        else (if is_text channel account_channel
            then handle_account_channel_message message s
            else (s, ok tt))

    abbrev pub after_demux :
        Text → State d → Pending Handler × Option Handler → State d × Result (Unit {0})
    after_demux message (c, e) (pending, some handler) =
        answer_trip d o rest message handler (c, record e { ws_demux = pending })
    after_demux message (c, e) (pending, none) =
        handle_channel message (find_string message channel_key) (c, e)

    -- `OnPrivateWsMessage`
    unfoldable pub on_private_ws_message : Text → Effect (State d) (Unit {0})
    unfolding find_string handle_login_event dispatch for_each_order_event handle_order_event
        handle_account_channel_message run_trip on_order_response on_amend_response
        on_cancel_response
    on_private_ws_message message (c, e) =
        if is_text (find_string message event_key) login_event
        then handle_login_event d o rest message (c, e)
        else after_demux message (c, e) (dispatch message e.ws_demux)
