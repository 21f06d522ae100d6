-- ===== src/Log.antt =====
-- log/async_logger: the ring between the thread that logs and the thread that writes. `Emit` is cut at its
-- accesses of the shared indices and `WriterLoop` likewise; each access is one step, in the order of
-- the program. The capacity of the ring is an argument. A record is formatted when it is written; the
-- lines written are the records, in order.
pub mod Steps
pub mod Queue
pub mod Fifo
mod Tests
use cpp_trading_engine.Base.{
  ℕ, zero, suc, ◌+◌, ◌%◌, Bool, true, false, List, [], ◌∷◌, if◌then◌else◌, ltb, ◌==◌, get_elem?,
  set, replicate, take, Option, none, some, Text, codes, Result, ok, err, ◌>>=◌, or_throw,
  out_of_bounds, out_of_fuel,
}

pub data LogLevel : Type 0 where
  debug info warn error : LogLevel

unfoldable pub level_value : LogLevel → ℕ
level_value debug = 0
level_value info = 1
level_value warn = 2
level_value error = 3

-- `LevelName`
unfoldable pub level_name : LogLevel → Text
level_name debug = codes "DEBUG"
level_name info = codes "INFO"
level_name warn = codes "WARN"
level_name error = codes "ERROR"

pub record LogRecord : Type 0 where
  pub timestamp : ℕ
  pub function_name : Text
  pub level : LogLevel
  pub data_bytes : Text

-- `kRingCapacity` and `kMaxMessageLen`
abbrev pub ring_capacity : ℕ
ring_capacity = 4096

abbrev pub max_message_len : ℕ
max_message_len = 256

-- The fields that `Emit` fills; a message that is too long is cut off.
unfoldable pub record_of : ℕ → Text → LogLevel → Text → LogRecord
record_of now function_name level message = record {
  timestamp = now;
  function_name = function_name;
  level = level;
  data_bytes = take max_message_len message;
}

pub record AsyncLogger : Type 0 where
  pub ring : List LogRecord
  pub head : ℕ
  pub tail : ℕ
  pub dropped_count : ℕ
  pub running : Bool

-- The tests of `Debug`, `Info`, `Warn` and `Error`
unfoldable pub is_logged : LogLevel → LogLevel → Bool
unfolding level_value
is_logged level min_level = if ltb (level_value level) (level_value min_level) then false else true

module _ (capacity : ℕ) where
  unfoldable pub make_logger : AsyncLogger
  unfolding record_of
  make_logger = record {
    ring = replicate capacity (record_of 0 [] info []);
    head = 0;
    tail = 0;
    dropped_count = 0;
    running = true;
  }

  abbrev pub next_of : ℕ → ℕ
  next_of index = (index + 1) % capacity

  -- `next_tail == head_`, for the head that was loaded
  abbrev pub is_full : ℕ → AsyncLogger → Bool
  is_full seen_head l = next_of l.tail == seen_head

  unfoldable pub drop_record : AsyncLogger → AsyncLogger
  drop_record l = record l { dropped_count = l.dropped_count + 1 }

  unfoldable pub store_record : LogRecord → AsyncLogger → AsyncLogger
  store_record r l = record l { ring = set l.ring l.tail r }

  unfoldable pub publish : AsyncLogger → AsyncLogger
  publish l = record l { tail = next_of l.tail }

  -- `Emit`, without an interruption
  unfoldable pub emit : LogRecord → AsyncLogger → AsyncLogger
  unfolding drop_record store_record publish
  emit r l = if is_full l.head l then drop_record l else publish (store_record r l)

  -- `dropped_count_.exchange(0)`
  unfoldable pub report_dropped : AsyncLogger → AsyncLogger
  report_dropped l = record l { dropped_count = 0 }

  unfoldable pub read_record : AsyncLogger → Result LogRecord
  read_record l = or_throw out_of_bounds (get_elem? l.ring l.head)

  unfoldable pub release_record : AsyncLogger → AsyncLogger
  release_record l = record l { head = next_of l.head }

  -- `WriterLoop`, without an interruption: the records that it writes before it stops or would wait
  unfoldable pub write_records : ℕ → AsyncLogger → Result (AsyncLogger × List LogRecord)
  unfolding report_dropped read_record release_record
  write_records zero l = err out_of_fuel
  write_records (suc passes) l =
      let checked = report_dropped l in
      let rest = write_records passes (release_record checked) in
      if l.head == l.tail
      then ok (checked, [])
      else (do r ← read_record checked; (later, written) ← rest; ok (later, r ∷ written))
