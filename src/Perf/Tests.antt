-- ===== src/Perf/Tests.antt =====
-- Latencies of about a microsecond and of more than the last octave covers.
use cpp_trading_engine.Base.{◌≡◌, ◌^◌, refl}
use cpp_trading_engine.Perf.Histogram.{bucket_index, bucket_upper_bound}

indexes : (bucket_index 63 ≡ 63) × (bucket_index 1000 ≡ 317) × (bucket_index (2 ^ 63) ≡ 1855)
unfolding bucket_index
indexes = (refl, refl, refl)

upper_bounds : (bucket_upper_bound 63 ≡ 63) × (bucket_upper_bound 317 ≡ 1007)
unfolding bucket_upper_bound
upper_bounds = (refl, refl)
