-- ===== src/Log/Steps.antt =====
-- log/async_logger: the two threads of the logger, step by step.
use cpp_trading_engine.Base.{ℕ, ◌+◌, ◌≡◌, ◌≢◌, true, false, List, [], ◌∷◌, ◌++◌, ok}
use cpp_trading_engine.Log.{
  LogRecord, AsyncLogger, make_logger, is_full, drop_record, store_record, publish, report_dropped,
  read_record, release_record,
}

-- Where the thread that logs is: outside `Emit`, behind the load of `head_`, or behind the write of the
-- record.
pub data Producer : Type 0 where
  outside : Producer
  loaded : ℕ → LogRecord → Producer
  stored : LogRecord → Producer

-- Where the writer is: at the top of its loop, behind the comparison of the indices, or behind the
-- output of the record.
pub data Consumer : Type 0 where
  at_top ready printed : Consumer

pub record Threads : Type 0 where
  pub logger : AsyncLogger
  pub producer : Producer
  pub consumer : Consumer
  -- The records of the calls of `Emit` that published one, and the records written, in order
  pub emitted : List LogRecord
  pub written : List LogRecord
  -- The calls of `Emit` that dropped their record, and how many of them were reported
  pub dropped : ℕ
  pub reported : ℕ

module _ (capacity : ℕ) where
  abbrev pub idle : Threads
  idle = record {
    logger = make_logger capacity;
    producer = outside;
    consumer = at_top;
    emitted = [];
    written = [];
    dropped = 0;
    reported = 0;
  }

  pub data Step (t : Threads) : Threads → Type 0 where
    load_head :
        (r : LogRecord)
        → t.producer ≡ outside
        → Step t (record t { producer = loaded t.logger.head r })
    drop :
        (seen : ℕ) (r : LogRecord)
        → t.producer ≡ loaded seen r
        → is_full capacity seen t.logger ≡ true
        → Step t (record t {
          logger = drop_record capacity t.logger;
          producer = outside;
          dropped = t.dropped + 1;
        })
    store :
        (seen : ℕ) (r : LogRecord)
        → t.producer ≡ loaded seen r
        → is_full capacity seen t.logger ≡ false
        → Step t (record t { logger = store_record capacity r t.logger; producer = stored r })
    advance_tail :
        (r : LogRecord)
        → t.producer ≡ stored r
        → Step t (record t {
          logger = publish capacity t.logger;
          producer = outside;
          emitted = t.emitted ++ (r ∷ []);
        })
    report :
        t.consumer ≡ at_top
        → Step t (record t {
          logger = report_dropped capacity t.logger;
          reported = t.reported + t.logger.dropped_count;
        })
    compare :
        t.consumer ≡ at_top → t.logger.head ≢ t.logger.tail → Step t (record t { consumer = ready })
    print :
        (r : LogRecord)
        → t.consumer ≡ ready
        → read_record capacity t.logger ≡ ok r
        → Step t (record t { consumer = printed; written = t.written ++ (r ∷ []) })
    advance_head :
        t.consumer ≡ printed
        → Step t (record t { logger = release_record capacity t.logger; consumer = at_top })

  pub data Reach : Threads → Type 0 where
    begin : Reach idle
    later : {t u : Threads} → Reach t → Step t u → Reach u
