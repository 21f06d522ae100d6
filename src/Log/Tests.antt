-- ===== src/Log/Tests.antt =====
-- One record logged and written, with a ring of two slots.
use cpp_trading_engine.Base.{◌≡◌, ◌<◌, refl, false, List, [], ◌∷◌, codes, arith}
use cpp_trading_engine.Log.{
  LogRecord, info, debug, record_of, make_logger, is_logged, level_value, store_record, publish,
  release_record, read_record,
}
use cpp_trading_engine.Log.Fifo.{Reach-Queue}
use cpp_trading_engine.Log.Queue.{Queue}
use cpp_trading_engine.Log.Steps.{
  outside, at_top, Threads, Reach, begin, later, load_head, store, advance_tail, compare, print,
  advance_head,
}

abbrev line : LogRecord
line = record { timestamp = 7; function_name = codes "Run"; level = info; data_bytes = codes "up" }

abbrev logged : Threads
logged = record {
  logger = release_record 2 (publish 2 (store_record 2 line (make_logger 2)));
  producer = outside;
  consumer = at_top;
  emitted = line ∷ [];
  written = line ∷ [];
  dropped = 0;
  reported = 0;
}

logged-Reach : Reach 2 logged
unfolding make_logger record_of store_record publish release_record read_record
logged-Reach =
    later
      (later
        (later
          (later (later (later begin (load_head line refl)) (store 0 line refl refl))
            (advance_tail line refl))
          (compare refl (λ e. absurd (omega (arith, e)))))
        (print line refl refl))
      (advance_head refl)

two : 0 < 2
two = omega arith

Reach-Queue_example : (xs : List LogRecord) × Queue 2 xs logged
Reach-Queue_example = Reach-Queue 2 two logged-Reach

debug_is_dropped : is_logged debug info ≡ false
unfolding is_logged level_value
debug_is_dropped = refl
