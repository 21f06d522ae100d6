-- ===== src/Strategy/Quoter.antt =====
-- okx/strategy/naive_quoter: `NaiveQuoter`. The state is the pair of the private client and the desk: the
-- quoter with the order store, the rate limiter and the static of `GenerateId`, which the quoter has
-- references to. `FormatPrice` rounds and prints a floating-point number, and is an argument.
pub mod Batch
use cpp_trading_engine.Base.{
  ℕ, zero, suc, ◌+◌, ◌-◌, Bool, true, false, ◌||◌, Option, none, some, List, [], ◌∷◌, if◌then◌else◌,
  ◌==◌, length, Text, text_eq, is_empty, Result, ok, err,
}
use cpp_trading_engine.Base.Double.{Double, abs_of}
use cpp_trading_engine.Base.Effects.{Effect, resume, ◌>>=◌, pure, lift, gets, modify}
use cpp_trading_engine.Base.Int.{ℤ, pos}
use cpp_trading_engine.Connectivity.RateLimiter.{EndpointRateLimiter, try_acquire_op}
use cpp_trading_engine.Connectivity.WsClient.{
  Outside, WsClient, draw, ticks_of, begin_batch, end_batch, send,
}
use cpp_trading_engine.Constants.{buy, sell, limit_type, order_op, amend_order_op}
use cpp_trading_engine.MarketData.OrderBook.{OrderBook, best_bid, best_ask}
use cpp_trading_engine.Orders.Lifecycle.{Order, OrderState, pending_amend, on_amend_requested}
use cpp_trading_engine.Orders.Requests.{
  WsOrderRequest, generate_id, build_ws_order_message, build_ws_amend_order_message,
}
use cpp_trading_engine.Orders.Store.{OrderStore, find_by_cl_ord_id, at, write, add}
use cpp_trading_engine.Perf.Trace.{
  TickToTradeTrace, trace_order_located, trace_rate_limit_checked, trace_price_formatted,
  trace_message_built,
}
use cpp_trading_engine.Risk.Checks.{OrderRequest}
use cpp_trading_engine.Strategy.Desk.{
  Side, bid, ask, side_text, is_pending_amend, Quoter, Desk, cl_ord_id_of, set_cl_ord_id,
  owns_order, on_order_removed, bps_per_unit, quote_price, has_moved, mid_of,
}

module _ (d : Double) (o : Outside) (round : d.Val → d.Val) (to_chars : ℕ → d.Val → Text) where
  open d use {Val, plus, mul, div, literal}

  abbrev pub Floor : Type 0
  Floor = WsClient × Desk d

  -- `FormatPrice`
  abbrev pub format_price : Quoter d → Val → Text
  format_price q px = to_chars q.tick_decimal_places (mul (round (div px q.tick_sz)) q.tick_sz)

  -- `rate_limiter_.TryAcquire`
  abbrev pub acquire : Text → Effect Floor Bool
  acquire op (c, k) =
      let (limiter, answer) = try_acquire_op (o.steady_now c.draws) op k.rate_limiter in
      ((draw c, record k { rate_limiter = limiter }), answer)

  abbrev pub next_id : Effect Floor Text
  next_id (c, k) =
      let (last, id) = generate_id (o.system_now c.draws) k.last_id in
      ((draw c, record k { last_id = last }), ok id)

  -- `ws_client_.Send`
  abbrev pub send_message : Text → Option TickToTradeTrace → Effect Floor (Unit {0})
  send_message message trace (c, k) =
      let (sent, answer) = send o message trace c in ((sent, k), answer)

  abbrev pub put_store : Floor → Result OrderStore → Floor × Result (Unit {0})
  put_store s (err e) = (s, err e)
  put_store (c, k) (ok store) = ((c, record k { order_store = store }), ok tt)

  -- `order_store_.Add`
  abbrev pub add_to_store : Text → Side → Text → Effect Floor (Unit {0})
  add_to_store id side px (c, k) =
      put_store (draw c, k)
        (add (o.steady_now c.draws) k.order_store id k.quoter.inst_id (side_text side) px
          k.quoter.sz)

  abbrev pub request_of : Side → Text → Quoter d → OrderRequest
  request_of side px q = record {
    inst_id = q.inst_id;
    side = side_text side;
    ord_type = limit_type;
    px = px;
    sz = q.sz;
    inst_id_code = q.inst_id_code;
  }

  -- A stamp of the trace, if there is one, with the reading of the counter
  abbrev pub stamp :
      (ℕ → Option TickToTradeTrace → Option TickToTradeTrace)
      → Option TickToTradeTrace
      → Effect Floor (Option TickToTradeTrace)
  stamp mark none s = (s, ok none)
  stamp mark (some trace) (c, k) = ((draw c, k), ok (mark (ticks_of o c) (some trace)))

  -- `PlaceSide` from the grant of the rate limiter on
  unfoldable pub place_granted : Side → Val → Option TickToTradeTrace → Effect Floor (Option Text)
  unfolding generate_id build_ws_order_message add send
  place_granted side px trace = do
    q ← gets (λ (s : Floor). s.1.quoter)
    let formatted_px = format_price q px
    formatted ← stamp trace_price_formatted trace
    id ← next_id
    order ← lift (build_ws_order_message id (request_of side formatted_px q))
    added ← add_to_store order.id side formatted_px
    built ← stamp trace_message_built formatted
    sent ← send_message order.message built
    pure (some order.id)

  -- `PlaceSide`
  unfoldable pub place_side : Side → Val → Option TickToTradeTrace → Effect Floor (Option Text)
  unfolding place_granted try_acquire_op
  place_side side px trace = do
    located ← stamp trace_order_located trace
    granted ← acquire order_op
    if granted
        then (do checked ← stamp trace_rate_limit_checked located; place_granted side px checked)
        else pure none

  abbrev pub set_slot : Side → Option Text → Effect Floor (Unit {0})
  set_slot side id = modify (λ (c, k). (c, record k { quoter = set_cl_ord_id d side id k.quoter }))

  -- The assignment of what `PlaceSide` returns
  abbrev pub place_into : Side → Val → Option TickToTradeTrace → Effect Floor (Unit {0})
  place_into side px trace = do id ← place_side side px trace; set_slot side id

  abbrev pub put_amended : ℕ → Floor → Order × Result (Unit {0}) → Floor × Result (Unit {0})
  put_amended i (c, k) (order, answer) =
      ((c, record k { order_store = write k.order_store i order }), answer)

  -- `order->OnAmendRequested()`
  abbrev pub request_amend : ℕ → Order → Effect Floor (Unit {0})
  request_amend i order (c, k) =
      put_amended i (draw c, k) (on_amend_requested (o.steady_now c.draws) order)

  -- `ReplaceSide` from the grant of the rate limiter on
  unfoldable pub amend_granted : ℕ → Order → Val → Option TickToTradeTrace → Effect Floor (Unit {0})
  unfolding generate_id build_ws_amend_order_message on_amend_requested send
  amend_granted i order px trace = do
    q ← gets (λ (s : Floor). s.1.quoter)
    let formatted_px = format_price q px
    formatted ← stamp trace_price_formatted trace
    requested ← request_amend i order
    id ← next_id
    let amend = build_ws_amend_order_message id q.inst_id_code order.ord_id formatted_px q.sz
    built ← stamp trace_message_built formatted
    send_message amend.message built

  -- The order is there and has an id of the exchange.
  unfoldable pub amend_side : ℕ → Order → Val → Option TickToTradeTrace → Effect Floor (Unit {0})
  unfolding amend_granted try_acquire_op
  amend_side i order px trace = do
    located ← stamp trace_order_located trace
    if is_pending_amend order.state then pure tt else (do
      granted ← acquire amend_order_op
      if granted
          then (do
            checked ← stamp trace_rate_limit_checked located
            amend_granted i order px checked)
          else pure tt)

  -- The order is gone, or has no id of the exchange yet.
  abbrev pub place_anew : Side → Val → Option TickToTradeTrace → Effect Floor (Unit {0})
  place_anew side px trace = do cleared ← set_slot side none; place_into side px trace

  abbrev pub replace_at :
      Side → ℕ → Val → Option TickToTradeTrace → Result Order → Effect Floor (Unit {0})
  replace_at side i px trace (err e) = lift (err e)
  replace_at side i px trace (ok order) =
      if is_empty order.ord_id then place_anew side px trace else amend_side i order px trace

  abbrev pub replace_found :
      Side → Val → Option TickToTradeTrace → Result (Option ℕ) → Effect Floor (Unit {0})
  replace_found side px trace (err e) s = (s, err e)
  replace_found side px trace (ok none) s = place_anew side px trace s
  replace_found side px trace (ok (some i)) (c, k) =
      replace_at side i px trace (at k.order_store i) (c, k)

  abbrev pub replace_slot :
      Side → Val → Option TickToTradeTrace → Option Text → Effect Floor (Unit {0})
  replace_slot side px trace none s = place_into side px trace s
  replace_slot side px trace (some id) (c, k) =
      replace_found side px trace (find_by_cl_ord_id k.order_store id) (c, k)

  -- `ReplaceSide`
  unfoldable pub replace_side : Side → Val → Option TickToTradeTrace → Effect Floor (Unit {0})
  unfolding place_side amend_side find_by_cl_ord_id
  replace_side side px trace (c, k) =
      replace_slot side px trace (cl_ord_id_of d side k.quoter) (c, k)

  abbrev pub with_client : (WsClient → WsClient) → Effect Floor (Unit {0})
  with_client change = modify (λ (c, k). (change c, k))

  abbrev pub set_mid : Val → Effect Floor (Unit {0})
  set_mid mid =
      modify (λ (c, k). (c, record k { quoter = record k.quoter { last_quoted_mid = some mid } }))

  -- `Requote`
  unfoldable pub requote : Val → TickToTradeTrace → Effect Floor (Unit {0})
  unfolding replace_side end_batch
  requote mid trace = do
    q ← gets (λ (s : Floor). s.1.quoter)
    begun ← with_client begin_batch
    bid_replaced ← replace_side bid (quote_price d bid mid q) (some trace)
    ask_replaced ← replace_side ask (quote_price d ask mid q) (some trace)
    ended ← with_client (end_batch o)
    set_mid mid

  abbrev pub quote_mid : TickToTradeTrace → Option Val → Option Val → Effect Floor (Unit {0})
  quote_mid trace (some best_bid) (some best_ask) (c, k) =
      let mid = mid_of d best_bid best_ask in
      if has_moved d mid k.quoter k.quoter.last_quoted_mid
      then requote mid trace (c, k)
      else ((c, k), ok tt)
  quote_mid trace (some best_bid) none s = (s, ok tt)
  quote_mid trace none best_ask s = (s, ok tt)

  -- `OnBookUpdate`
  unfoldable pub on_book_update : OrderBook Val → TickToTradeTrace → Effect Floor (Unit {0})
  unfolding requote best_bid best_ask
  on_book_update book trace = do
    best_bid ← lift (best_bid d book)
    best_ask ← lift (best_ask d book)
    quote_mid trace best_bid best_ask

  abbrev pub place_missing : Side → Val → Option Text → Effect Floor (Unit {0})
  place_missing side px none = place_into side px none
  place_missing side px (some id) = pure tt

  -- The two `if`s of `OnTimer`
  abbrev pub fill_side : Side → Val → Effect Floor (Unit {0})
  fill_side side px (c, k) = place_missing side px (cl_ord_id_of d side k.quoter) (c, k)

  abbrev pub fill_sides : Option Val → Effect Floor (Unit {0})
  fill_sides none = pure tt
  fill_sides (some mid) = do
    q ← gets (λ (s : Floor). s.1.quoter)
    begun ← with_client begin_batch
    bid_filled ← fill_side bid (quote_price d bid mid q)
    ask_filled ← fill_side ask (quote_price d ask mid q)
    with_client (end_batch o)

  -- `OnTimer`
  unfoldable pub on_timer : Effect Floor (Unit {0})
  unfolding place_side end_batch
  on_timer (c, k) = fill_sides k.quoter.last_quoted_mid (c, k)
