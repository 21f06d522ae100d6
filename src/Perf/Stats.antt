-- ===== src/Perf/Stats.antt =====
-- perf/tick_to_trade_stats.cpp: the histograms of a trade's stages, and `Percentile` of
-- perf/latency_histogram.cpp. The conversion of ticks to nanoseconds is an argument, and so is the rank
-- of a percentile, which the source computes in floating point.
use cpp_trading_engine.Base.{
  ℕ, ◌+◌, ◌%◌, ◌^◌, max, List, [], ◌∷◌, if◌then◌else◌, ◌==◌, leb, Result, ok, ◌>>=◌,
}
use cpp_trading_engine.Net.RingBuffer.{sub_u64}
use cpp_trading_engine.Perf.Histogram.{LatencyHistogram, bucket_upper_bound, record_nanos}
use cpp_trading_engine.Perf.Trace.{TickToTradeTrace}

-- The loop of `Percentile` from the bucket `i` on
unfoldable pub percentile_from : ℕ → ℕ → ℕ → ℕ → List ℕ → ℕ
unfolding bucket_upper_bound
percentile_from max_nanos target cumulative i [] = max_nanos
percentile_from max_nanos target cumulative i (count ∷ counts) =
    let reached = (cumulative + count) % 2 ^ 64 in
    let later = percentile_from max_nanos target reached (i + 1) counts in
    if leb target reached then bucket_upper_bound i else later

-- `Percentile`
unfoldable pub percentile : (ℕ → ℕ) → LatencyHistogram → ℕ
unfolding percentile_from
percentile rank h =
    if h.total_count == 0
    then 0
    else percentile_from h.max_nanos (max 1 (rank h.total_count)) 0 0 h.counts

pub record TickToTradeStats : Type 0 where
  pub ws_decode : LatencyHistogram
  pub book_update : LatencyHistogram
  pub order_lookup : LatencyHistogram
  pub rate_limit_check : LatencyHistogram
  pub price_format : LatencyHistogram
  pub message_build : LatencyHistogram
  pub send_stage : LatencyHistogram
  pub tick_to_trade : LatencyHistogram

-- `TickToTradeStats::Record`
unfoldable pub record_trace :
    (ℕ → ℕ) → TickToTradeTrace → TickToTradeStats → Result TickToTradeStats
unfolding record_nanos
record_trace to_nanos t s = do
  let between = λ (later earlier : ℕ). record_nanos (to_nanos (sub_u64 later earlier))
  ws_decode ← between t.message_decoded_ticks t.wire_arrival_ticks s.ws_decode
  book_update ← between t.book_consistent_ticks t.message_decoded_ticks s.book_update
  order_lookup ← between t.order_located_ticks t.book_consistent_ticks s.order_lookup
  rate_limit_check ← between t.rate_limit_checked_ticks t.order_located_ticks s.rate_limit_check
  price_format ← between t.price_formatted_ticks t.rate_limit_checked_ticks s.price_format
  message_build ← between t.message_built_ticks t.price_formatted_ticks s.message_build
  send_stage ← between t.send_ticks t.message_built_ticks s.send_stage
  tick_to_trade ← between t.send_ticks t.wire_arrival_ticks s.tick_to_trade
  ok (record {
    ws_decode = ws_decode;
    book_update = book_update;
    order_lookup = order_lookup;
    rate_limit_check = rate_limit_check;
    price_format = price_format;
    message_build = message_build;
    send_stage = send_stage;
    tick_to_trade = tick_to_trade;
  })
