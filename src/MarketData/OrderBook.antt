-- ===== src/MarketData/OrderBook.antt =====
-- okx/marketdata/order_book: `OrderBook`. Bids are sorted by `std::greater<>`, asks by `std::less<>`; a
-- sequence number is an integer.
pub mod Laws
use cpp_trading_engine.Base.{Bool, true, false, Option, Result, ok, ◌>>=◌}
use cpp_trading_engine.Base.Int.{ℤ, pos, negsuc}
use cpp_trading_engine.Base.Double.{Double, zero_of, greater}
use cpp_trading_engine.MarketData.PriceLevels.{PriceLevels, initial, clear, set_level, IsValid}
use cpp_trading_engine.MarketData.PriceLevels

pub record OrderBook (V : Type 0) : Type 0 where
  pub bids : PriceLevels V
  pub asks : PriceLevels V
  pub last_seq_id : ℤ
  pub has_snapshot : Bool

module _ (d : Double) where
  open d use {Val, lt, eq}

  unfoldable pub empty_book : OrderBook Val
  empty_book = record {
    bids = initial (zero_of d);
    asks = initial (zero_of d);
    last_seq_id = negsuc 0;
    has_snapshot = false;
  }

  unfoldable pub begin_snapshot : OrderBook Val → OrderBook Val
  unfolding clear
  begin_snapshot book = record book {
    bids = clear book.bids;
    asks = clear book.asks;
    has_snapshot = true;
  }

  unfoldable pub set_bid : OrderBook Val → Val → Val → Result (OrderBook Val)
  set_bid book price size = do
    bids ← set_level (greater d) eq (zero_of d) book.bids price size
    ok (record book { bids = bids })

  unfoldable pub set_ask : OrderBook Val → Val → Val → Result (OrderBook Val)
  set_ask book price size = do
    asks ← set_level lt eq (zero_of d) book.asks price size
    ok (record book { asks = asks })

  unfoldable pub set_seq_id : OrderBook Val → ℤ → OrderBook Val
  set_seq_id book seq_id = record book { last_seq_id = seq_id }

  unfoldable pub best_bid : OrderBook Val → Result (Option Val)
  best_bid book = PriceLevels.best book.bids

  unfoldable pub best_ask : OrderBook Val → Result (Option Val)
  best_ask book = PriceLevels.best book.asks

  -- Both sides are valid.
  pub record IsSound (book : OrderBook Val) : Type 0 where
    pub bids_valid : IsValid (greater d) book.bids
    pub asks_valid : IsValid lt book.asks
