-- ===== src/Perf.antt =====
-- perf: the counters of latencies.
pub mod Histogram
pub mod Trace
pub mod Stats
mod Tests
