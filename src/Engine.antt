-- ===== src/Engine.antt =====
-- okx/engine/engine.cpp: `Engine`, which joins the private client, the order store, the quoter and the risk
-- checks. The state is the pair of the client and of the other members; calls of the REST interface
-- are a list, the latest first. Arguments: the request of the round trip, which bootstrapping makes,
-- and what the REST interface answers, by the number of readings and random values drawn so far.
pub mod Messages
pub mod Events
pub mod Safety
pub mod Halt
pub mod Run
pub mod Loss
mod Tests
use cpp_trading_engine.Base.{
  ℕ, ◌+◌, Bool, true, false, not, ◌&&◌, ◌||◌, Option, none, some, List, [], ◌∷◌, ◌++◌,
  if◌then◌else◌, Text, codes, Result, ok, err, rest_failed,
}
use cpp_trading_engine.Base.Double.{Double, zero_of}
use cpp_trading_engine.Base.Effects.{Effect, resume, ◌>>=◌, pure, lift, gets, modify}
use cpp_trading_engine.Base.Int.{pos}
use cpp_trading_engine.Connectivity.ResponseDemux.{Pending}
use cpp_trading_engine.Connectivity.ResponseDemux as demux
use cpp_trading_engine.Connectivity.WsClient.{Outside, WsClient, draw, send}
use cpp_trading_engine.MarketData.OrderBook.{OrderBook}
use cpp_trading_engine.Orders.Requests.{
  WsOrderRequest, generate_id, build_ws_order_message, build_ws_amend_order_message,
  build_ws_cancel_order_message,
}
use cpp_trading_engine.Orders.RoundTrip.{
  Handler, Action, ws_order, ws_amend, ws_cancel, track, rest_place, rest_cancel, RoundTrip,
  PlaceResult,
}
use cpp_trading_engine.Perf.Trace.{TickToTradeTrace}
use cpp_trading_engine.Risk.Account.{AccountState}
use cpp_trading_engine.Risk.Checks.{OrderRequest, RiskLimits}
use cpp_trading_engine.Risk.KillSwitch.{trigger}
use cpp_trading_engine.Risk.Position.{Position}
use cpp_trading_engine.Strategy.Desk.{Desk, on_order_removed}
use cpp_trading_engine.Strategy.Quoter.{on_book_update, on_timer}

-- `kSmokeTestAmendPx`
abbrev pub smoke_test_amend_px : Text
smoke_test_amend_px = codes "101"

pub data RestCall : Type 0 where
  place_order get_pending_orders : RestCall
  cancel_order : Text → Text → RestCall

pub record RestAnswers : Type 0 where
  pub order_request : OrderRequest
  pub place_answer : ℕ → PlaceResult
  pub pending_orders : ℕ → Text

module _ (d : Double) where
  open d use {Val, literal}

  pub record Members : Type 0 where
    pub desk : Desk d
    pub kill_switch : Bool
    pub position : Position d
    pub account_state : AccountState Val
    pub ws_demux : Pending Handler
    pub trip_ord_id : Text
    pub trip_cl_ord_id : Text
    pub rest_calls : List RestCall
    -- Whether the last of the calls given throws: what the connection does, which nothing changes.
    pub rest_fails : List RestCall → Bool

  abbrev pub State : Type 0
  State = WsClient × Members

  -- `kRiskLimits`
  abbrev pub risk_limits : RiskLimits d
  risk_limits = record {
    max_order_sz = literal (pos 10000);
    max_notional = literal (pos 10000000);
    price_collar_pct = literal (pos 500);
    max_open_orders = 10;
  }

  -- `kMaxRealizedLoss`
  abbrev pub max_realized_loss : Val
  max_realized_loss = literal (pos 500000)

  -- The removal listener, told one id after another
  abbrev pub tell : List Text → Members → Members
  tell [] e = e
  tell (id ∷ ids) e =
      tell ids (record e { desk = record e.desk { quoter = on_order_removed d id e.desk.quoter } })

  -- The calls with those that cancel the orders given, made one after the other
  abbrev pub cancellations : List (Text × Text) → List RestCall → List RestCall
  cancellations [] calls = calls
  cancellations ((inst_id, ord_id) ∷ rest) calls =
      cancellations rest (cancel_order inst_id ord_id ∷ calls)

  -- A call of the REST interface; `RestClient` throws where the connection fails.
  abbrev pub call_rest : RestCall → Effect Members (Unit {0})
  call_rest call e =
      let asked = record e { rest_calls = call ∷ e.rest_calls } in
      (asked, if e.rest_fails asked.rest_calls then err rest_failed else ok tt)

  -- The loop of `Trigger`, which an exception ends
  abbrev pub cancel_all : List (Text × Text) → Effect Members (Unit {0})
  cancel_all [] e = (e, ok tt)
  cancel_all ((inst_id, ord_id) ∷ rest) e =
      resume (λ done. cancel_all rest) (call_rest (cancel_order inst_id ord_id) e)

  abbrev pub after_trigger :
      Members → Bool × Result (List (Text × Text)) → Members × Result (Unit {0})
  after_trigger e (on, ok to_cancel) = cancel_all to_cancel (record e { kill_switch = on })
  after_trigger e (on, err x) = (record e { kill_switch = on }, err x)

  -- `kill_switch_.Trigger`
  unfoldable pub trigger_kill_switch : Effect State (Unit {0})
  unfolding trigger
  trigger_kill_switch (c, e) =
      let (told, answer) = after_trigger e (trigger e.desk.order_store e.kill_switch) in
      ((c, told), answer)

  -- Whether the quoter is called: the kill switch is not triggered, and the client is authenticated.
  abbrev pub may_quote : State → Bool
  may_quote (c, e) = not e.kill_switch && c.authenticated

  -- A call of the quoter on its part of the members
  abbrev pub on_desk : Effect (WsClient × Desk d) (Unit {0}) → Effect State (Unit {0})
  on_desk action (c, e) =
      let ((sent, desk), answer) = action (c, e.desk) in ((sent, record e { desk = desk }), answer)

  module _ (o : Outside) (round : Val → Val) (to_chars : ℕ → Val → Text) where
    -- What the market data source calls with its book
    unfoldable pub handle_book_update : OrderBook Val → TickToTradeTrace → Effect State (Unit {0})
    unfolding on_book_update
    handle_book_update book trace s =
        if may_quote s then on_desk (on_book_update d o round to_chars book trace) s else (s, ok tt)

    -- What the quoter's timer does when it goes off
    unfoldable pub handle_quoter_timer : Effect State (Unit {0})
    unfolding on_timer
    handle_quoter_timer s =
        if may_quote s then on_desk (on_timer d o round to_chars) s else (s, ok tt)
