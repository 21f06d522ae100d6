-- ===== src/Perf/Histogram.antt =====
-- perf/latency_histogram: the buckets of `LatencyHistogram`. A latency comes in nanoseconds, which
-- `TicksToNanos` makes of the clock's ticks; a shift by `n` is a multiplication or division by 2 ^ n.
use cpp_trading_engine.Base.{
  ℕ, zero, suc, ◌+◌, ◌-◌, ◌*◌, ◌/◌, ◌%◌, ◌^◌, max, List, if◌then◌else◌, ltb, ◌==◌, set, get_elem?,
  replicate, Result, ok, ◌>>=◌, or_throw, out_of_bounds,
}
use Prim.Native.Nat.pow

abbrev pub sub_bucket_count : ℕ
sub_bucket_count = 64

abbrev pub num_octaves : ℕ
num_octaves = 28

abbrev pub num_buckets : ℕ
num_buckets = 1856

pub record LatencyHistogram : Type 0 where
  pub counts : List ℕ
  pub total_count : ℕ
  pub max_nanos : ℕ

unfoldable pub empty_histogram : LatencyHistogram
empty_histogram = record { counts = replicate num_buckets 0; total_count = 0; max_nanos = 0 }

-- `63 - std::countl_zero(n)`, the place of the highest bit, of a number of `suc bits` bits
unfoldable pub msb : ℕ → ℕ → ℕ
msb zero n = 0
msb (suc bits) n = let rest = msb bits (n / 2) in if n / 2 == 0 then 0 else rest + 1

-- `BucketIndex`
unfoldable pub bucket_index : ℕ → ℕ
unfolding msb
bucket_index nanos =
    let octave = msb 63 nanos - 6 + 1 in
    let shift = octave - 1 in
    if ltb nanos sub_bucket_count
    then nanos
    else (if ltb num_octaves octave
        then num_buckets - 1
        else sub_bucket_count
          + (octave - 1) * sub_bucket_count
          + (nanos / 2 ^ shift - sub_bucket_count))

-- `BucketUpperBound`
unfoldable pub bucket_upper_bound : ℕ → ℕ
bucket_upper_bound index =
    let offset_from_base = index - sub_bucket_count in
    let shift = offset_from_base / sub_bucket_count in
    if ltb index sub_bucket_count
    then index
    else (sub_bucket_count + offset_from_base % sub_bucket_count) * 2 ^ shift + 2 ^ shift - 1

-- `RecordTicks`, of nanoseconds; the counters wrap round at 2^64.
unfoldable pub record_nanos : ℕ → LatencyHistogram → Result LatencyHistogram
unfolding bucket_index
record_nanos nanos h = do
  count ← or_throw out_of_bounds (get_elem? h.counts (bucket_index nanos))
  ok (record {
    counts = set h.counts (bucket_index nanos) ((count + 1) % 2 ^ 64);
    total_count = (h.total_count + 1) % 2 ^ 64;
    max_nanos = max h.max_nanos nanos;
  })
