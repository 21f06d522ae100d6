-- ===== src/Engine/Tests.antt =====
-- An engine with one order in the store, at concrete events.
use cpp_trading_engine.Base.{
  ◌≡◌, refl, true, false, none, some, List, [], ◌∷◌, codes, ok, Bool, ◌<◌, arith,
}
use cpp_trading_engine.Base.Double.{integers}
use cpp_trading_engine.Base.Int.{ℤ}
use cpp_trading_engine.Connectivity.RateLimiter.{make_limiter}
use cpp_trading_engine.Connectivity.WsClient.{Outside, make_client}
use cpp_trading_engine.Constants.{buy, sell, limit_type}
use cpp_trading_engine.Engine.{RestAnswers, Members}
use cpp_trading_engine.Engine.Run.{
  Event, message, quoter_timer, signal, handle_events, handle_events-Halted,
}
use cpp_trading_engine.Engine.Safety.{Halted}
use cpp_trading_engine.Orders.Events.{OrderEvent, fill}
use cpp_trading_engine.Orders.Lifecycle.{Order, make_order}
use cpp_trading_engine.Orders.Store.{OrderStore, capacity, empty_store, add_order}
use cpp_trading_engine.Orders.Store.Refine.{add_order-insert_order, empty_store-Stores}
use cpp_trading_engine.Orders.Store.Spec.{insert_order}
use cpp_trading_engine.Orders.Store.View.{Stores}
use cpp_trading_engine.Risk.Account.{empty_account}
use cpp_trading_engine.Strategy.Desk.{Quoter}

abbrev outside : Outside
outside = record {
  rand_key = λ n. some (1 ∷ 2 ∷ 3 ∷ 4 ∷ []);
  read_counter = λ n. n;
  steady_now = λ n. n;
  system_now = λ n. n;
  jitter = λ n m. 0;
}

abbrev order : Order
order = record (make_order 0 (codes "5") (codes "ETH-USDT") buy (codes "2000") (codes "1")) {
  ord_id = codes "77";
}

room : 0 < capacity
unfolding capacity
room = omega arith

one_order :
    (q : OrderStore) × (add_order empty_store order ≡ ok q) × Stores (insert_order order []) q
one_order = add_order-insert_order [] empty_store order empty_store-Stores room

abbrev quoter : Quoter integers
quoter = record {
  inst_id = codes "ETH-USDT";
  inst_id_code = ℤ.pos 3;
  sz = codes "1";
  tick_sz = ℤ.pos 100;
  tick_decimal_places = 2;
  quote_bps = ℤ.pos 100;
  requote_threshold_bps = ℤ.pos 100;
  last_quoted_mid = some (ℤ.pos 20000000);
  bid_cl_ord_id = some (codes "5");
  ask_cl_ord_id = none;
}

-- One unit held, bought at 2000.
abbrev members : Bool → Members integers
members on = record {
  desk = record {
    quoter = quoter;
    order_store = one_order.0;
    rate_limiter = record {
      order_limiter = make_limiter 60 2000;
      cancel_limiter = make_limiter 60 2000;
      amend_limiter = make_limiter 60 2000;
    };
    last_id = 5;
  };
  kill_switch = on;
  position = record {
    net_qty = ℤ.pos 10000;
    avg_entry_px = ℤ.pos 20000000;
    realized_pnl = ℤ.pos 0;
  };
  account_state = empty_account integers;
  ws_demux = λ id. none;
  trip_ord_id = [];
  trip_cl_ord_id = [];
  rest_calls = [];
  rest_fails = λ calls. false;
}

abbrev answers : RestAnswers
answers = record {
  order_request = record {
    inst_id = codes "ETH-USDT";
    side = buy;
    ord_type = limit_type;
    px = codes "100";
    sz = codes "1";
    inst_id_code = ℤ.pos 3;
  };
  place_answer = λ n. record { accepted = false; placed_ord_id = [] };
  pending_orders = λ n. codes "{}";
}

abbrev halted_events : List (Event integers)
halted_events = message (codes "{\"event\":\"login\",\"code\":\"0\"}") ∷ quoter_timer ∷ signal ∷ []

handle_events-Halted_example :
    Halted integers (members true).desk.rate_limiter (some (ℤ.pos 20000000)) 0 (
      handle_events integers outside
        (λ x. x)
        (λ n x. codes "1")
        answers
        halted_events
        (make_client, members true))
handle_events-Halted_example =
    handle_events-Halted integers outside (λ x. x) (λ n x. codes "1") answers halted_events
      make_client (members true) refl

-- The unit is sold at 1900.
abbrev sold : OrderEvent ℤ
sold = record {
  type = fill;
  ord_id = codes "78";
  cl_ord_id = codes "6";
  inst_id = codes "ETH-USDT";
  side = sell;
  px = codes "1900";
  sz = codes "1";
  acc_fill_sz = codes "1";
  avg_px = codes "1900";
  fill_data = some (record { px = ℤ.pos 19000000; sz = ℤ.pos 10000 });
}
