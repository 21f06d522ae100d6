-- ===== src/Perf/Trace.antt =====
-- perf/tick_to_trade_trace.hpp: `TickToTradeTrace`, the clock's readings on the way from a message of the
-- market to an order, and the functions of okx/strategy/naive_quoter.cpp that stamp it.
use cpp_trading_engine.Base.{ℕ, Option, none, some}

pub record TickToTradeTrace : Type 0 where
  pub wire_arrival_ticks : ℕ
  pub message_decoded_ticks : ℕ
  pub book_consistent_ticks : ℕ
  pub order_located_ticks : ℕ
  pub rate_limit_checked_ticks : ℕ
  pub price_formatted_ticks : ℕ
  pub message_built_ticks : ℕ
  pub send_ticks : ℕ

abbrev pub new_trace : ℕ → ℕ → ℕ → TickToTradeTrace
new_trace arrival decoded consistent = record {
  wire_arrival_ticks = arrival;
  message_decoded_ticks = decoded;
  book_consistent_ticks = consistent;
  order_located_ticks = 0;
  rate_limit_checked_ticks = 0;
  price_formatted_ticks = 0;
  message_built_ticks = 0;
  send_ticks = 0;
}

-- `TraceOrderLocated`
abbrev pub trace_order_located : ℕ → Option TickToTradeTrace → Option TickToTradeTrace
trace_order_located ticks none = none
trace_order_located ticks (some trace) = some (record trace { order_located_ticks = ticks })

-- `TraceRateLimitChecked`
abbrev pub trace_rate_limit_checked : ℕ → Option TickToTradeTrace → Option TickToTradeTrace
trace_rate_limit_checked ticks none = none
trace_rate_limit_checked ticks (some trace) =
    some (record trace { rate_limit_checked_ticks = ticks })

-- `TracePriceFormatted`
abbrev pub trace_price_formatted : ℕ → Option TickToTradeTrace → Option TickToTradeTrace
trace_price_formatted ticks none = none
trace_price_formatted ticks (some trace) = some (record trace { price_formatted_ticks = ticks })

-- `TraceMessageBuilt`
abbrev pub trace_message_built : ℕ → Option TickToTradeTrace → Option TickToTradeTrace
trace_message_built ticks none = none
trace_message_built ticks (some trace) = some (record trace { message_built_ticks = ticks })
