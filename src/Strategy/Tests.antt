-- ===== src/Strategy/Tests.antt =====
-- A quoter with an order on the bid, which has no id of the exchange yet, at a new mid price.
use cpp_trading_engine.Base.{◌≡◌, refl, true, none, some, [], ◌∷◌, codes}
use cpp_trading_engine.Base.Double.{integers}
use cpp_trading_engine.Base.Int.{ℤ}
use cpp_trading_engine.Connectivity.RateLimiter.{make_limiter}
use cpp_trading_engine.Connectivity.WsClient.{Outside, WsClient, make_client}
use cpp_trading_engine.Orders.Store.{empty_store}
use cpp_trading_engine.Strategy.Desk.{Desk, decimal_places}

abbrev outside : Outside
outside = record {
  rand_key = λ n. some (1 ∷ 2 ∷ 3 ∷ 4 ∷ []);
  read_counter = λ n. n;
  steady_now = λ n. n;
  system_now = λ n. n;
  jitter = λ n m. 0;
}

abbrev desk : Desk integers
desk = record {
  quoter = record {
    inst_id = codes "ETH-USDT";
    inst_id_code = ℤ.pos 3;
    sz = codes "1";
    tick_sz = ℤ.pos 100;
    tick_decimal_places = 2;
    quote_bps = ℤ.pos 100;
    requote_threshold_bps = ℤ.pos 100;
    last_quoted_mid = none;
    bid_cl_ord_id = none;
    ask_cl_ord_id = none;
  };
  order_store = empty_store;
  rate_limiter = record {
    order_limiter = make_limiter 60 2000;
    cancel_limiter = make_limiter 60 2000;
    amend_limiter = make_limiter 60 2000;
  };
  last_id = 5;
}

abbrev client : WsClient
client = record make_client { connected = true }

places : decimal_places (codes "0.01") ≡ 2
unfolding decimal_places
places = refl
